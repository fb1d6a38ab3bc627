-- ===== src/Ui/Brackets.antt =====
-- The attributes that user/src/ui.c switches on it switches off again, in the reverse order.
--
-- `Attributes` has the attributes that are on and the runs of calls that leave them as they were,
-- `Packets` the packet window.
pub mod Attributes
pub mod Packets
use wifi_sniffer.Prelude.{
  ℤ, ℕ, zero, suc, ◌+◌, ◌-◌, ◌≡◌, refl, sym, ap, ◌∙◌, Bool, true, false, ◌&&◌, ◌||◌, ◌==◌, Option,
  none, some, Option-cases, List, [], ◌∷◌, ◌++◌, append_assoc, append-nil, if◌then◌else◌,
  Bool-cases, inl, inr, subst, take, String, pos, same_bytes, get_elem?, or_fault, Outcome, ok,
  fault, ◌>>=◌, Ensures, >>=-Ensures, Ensures-at, aps_overflow, packet_buf_overflow, min, arith,
}
use wifi_sniffer.FrameTypes.{sub_frame_string}
use wifi_sniffer.Ctx.{Ap, ApView, main, detail, Ctx, PacketInfo, packet_buf_size, get_ap}
use wifi_sniffer.Ui.Calls.{
  Attribute, bold, color_pair, Draw, move, text, number, address, name, attr_on, attr_off, border,
  c_string, find_pair, print_mac,
}
use wifi_sniffer.Ui.Packets.{
  broadcast_mac, row_index, is_zero_packet, deref_ap, draw_beacon, draw_probe_response,
  draw_management, title, draw_packet, draw_packet_row, draw_packet_rows, draw_packet_win,
}
use wifi_sniffer.Ui.{
  ap_lines, Screen, draw_freqs, draw_counters, draw_ap, draw_ap_rows, draw_ap_win, draw_stats_win,
  draw_usage_win, draw_ui,
}
use wifi_sniffer.Ctx.Invariant.{IsValid}
use wifi_sniffer.Ui.Total.{NoOrphan, draw_ui-Returns}
use Packets.{print_mac-Balanced, draw_packet_win-Balanced}
use Attributes.{
  attributes, Balanced, Balanced-append, Balanced-within, Balanced-nil, Balanced-text,
  Balanced-name, Balanced-move, Balanced-border, Balanced-marker, Balanced-attributes,
}

draw_freqs-Balanced : (fs : List ℕ) → Balanced (draw_freqs fs)
unfolding draw_freqs attributes
draw_freqs-Balanced [] = Balanced-nil
draw_freqs-Balanced (f ∷ fs) = record { leaves = (draw_freqs-Balanced fs).leaves }

draw_counters-Balanced : (now : ℕ) (a : Ap) (v : ApView) → Balanced (draw_counters now a v)
unfolding draw_counters attributes
draw_counters-Balanced now a main = record { leaves = λ rest on. refl }
draw_counters-Balanced now a detail = record { leaves = λ rest on. refl }

-- The line of an access point between switching its colour on and off.
abbrev ap_line : Ctx → Ap → List ℕ → List Draw
ap_line c a s =
    text "[ "
    ∷ (draw_freqs (take a.freq_num a.channel_freqs)
        ++ (text "] " ∷ name s ∷ text " (" ∷ (print_mac c a.mac ++ (text ") " ∷ []))))

ap_line-Balanced : (c : Ctx) (a : Ap) (s : List ℕ) → Balanced (ap_line c a s)
ap_line-Balanced c a s = Balanced-text (
    Balanced-append _ _ (draw_freqs-Balanced _) (
      Balanced-text (
        Balanced-name (
          Balanced-text
            (Balanced-append _ _ (print_mac-Balanced c a.mac) (Balanced-text Balanced-nil))))))

ap_line-append :
    (c : Ctx) (a : Ap) (s : List ℕ) (es : List Draw)
    → ap_line c a s ++ es
      ≡ text "[ "
        ∷ (draw_freqs (take a.freq_num a.channel_freqs)
            ++ (text "] " ∷ name s ∷ text " (" ∷ (print_mac c a.mac ++ (text ") " ∷ es))))
ap_line-append c a s es = rw (
  append_assoc (draw_freqs (take a.freq_num a.channel_freqs))
      (text "] " ∷ name s ∷ text " (" ∷ (print_mac c a.mac ++ (text ") " ∷ []))) es,
  append_assoc (print_mac c a.mac) (text ") " ∷ []) es,
)

draw_ap-Balanced : (now : ℕ) (c : Ctx) (i y : ℕ) (a : Ap) → Ensures Balanced (draw_ap now c i y a)
unfolding draw_ap
draw_ap-Balanced now c i y a = >>=-Ensures Balanced (c_string a.ssid) _ λ s e.
    let pair = color_pair (a.col_pair + 1) in
    let counters = draw_counters now a a.view in
    let line : Balanced (attr_on pair ∷ (ap_line c a s ++ (attr_off pair ∷ counters))) =
      Balanced-within pair _ _ (ap_line-Balanced c a s) (draw_counters-Balanced now a a.view) in
    Balanced-move (
      Balanced-marker (i == c.scroll) "* " "" (
        subst (λ xs. Balanced (attr_on pair ∷ xs)) (ap_line-append c a s (attr_off pair ∷ counters))
          line))

draw_ap_rows-Balanced :
    (now : ℕ) (c : Ctx) (i y n : ℕ) → Ensures Balanced (draw_ap_rows now c i y n)
unfolding draw_ap_rows
draw_ap_rows-Balanced now c i y zero = Balanced-nil
draw_ap_rows-Balanced now c i y (suc n) =
    >>=-Ensures Balanced (or_fault (get_elem? c.aps i) aps_overflow) _ λ a e.
      >>=-Ensures Balanced (draw_ap now c i y a) _ λ row r.
        >>=-Ensures Balanced (draw_ap_rows now c (i + 1) (y + 1) n) _ λ rest q.
          Balanced-append row rest (Ensures-at Balanced r (draw_ap-Balanced now c i y a))
            (Ensures-at Balanced q (draw_ap_rows-Balanced now c (i + 1) (y + 1) n))

draw_ap_win-Balanced : (now : ℕ) (rows : ℤ) (c : Ctx) → Ensures Balanced (draw_ap_win now rows c)
unfolding draw_ap_win
draw_ap_win-Balanced now rows c =
    let n = ap_lines rows (c.aps_count - c.scroll) in
    >>=-Ensures Balanced (draw_ap_rows now c c.scroll 1 n) _ λ lines e.
      Balanced-append lines (border ∷ [])
        (Ensures-at Balanced e (draw_ap_rows-Balanced now c c.scroll 1 n))
        (Balanced-border Balanced-nil)

draw_stats_win-Balanced : (channel : ℕ) (c : Ctx) → Balanced (draw_stats_win channel c)
unfolding draw_stats_win attributes
draw_stats_win-Balanced channel c = record { leaves = λ rest on. refl }

draw_usage_win-Balanced : Balanced draw_usage_win
unfolding draw_usage_win attributes
draw_usage_win-Balanced = record { leaves = λ rest on. refl }

abbrev pub IsClean : Screen → Type 0
IsClean s =
    (attributes s.stats_win [] ≡ some [] × attributes s.packet_win [] ≡ some [])
    × (attributes s.ap_win [] ≡ some [])
    × (attributes s.usage_win [] ≡ some [])

draw_ui-Clean :
    (now : ℕ) (rows : ℤ) (channel : ℕ) (c : Ctx) → Ensures IsClean (draw_ui now rows channel c)
unfolding draw_ui
draw_ui-Clean now rows channel c = >>=-Ensures IsClean (draw_packet_win c) _ λ packets p.
    >>=-Ensures IsClean (draw_ap_win now rows c) _ λ aps a. (
      (
        Balanced-attributes (draw_stats_win-Balanced channel c),
        Balanced-attributes (Ensures-at Balanced p (draw_packet_win-Balanced c)),
      ),
      Balanced-attributes (Ensures-at Balanced a (draw_ap_win-Balanced now rows c)),
      Balanced-attributes draw_usage_win-Balanced,
    )

-- In a valid context without an orphan beacon in the packet buffer the screen is drawn, and in
-- each of its four windows every attribute that is switched on is switched off again, in the
-- reverse order, and none is on at the end: no colour is left on for the next refresh.
pub draw_ui-Balanced :
    (now : ℕ) (rows : ℤ) (channel : ℕ) (c : Ctx)
    → IsValid c
    → NoOrphan c
    → (s : Screen) × (draw_ui now rows channel c ≡ ok s) × IsClean s
draw_ui-Balanced now rows channel c v o =
    let (s, e) = draw_ui-Returns now rows channel c v o in
    (s, e, Ensures-at IsClean e (draw_ui-Clean now rows channel c))
