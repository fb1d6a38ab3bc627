-- ===== src/Ui/Brackets/Packets.antt =====
-- The rows of the packet window (user/src/ui.c, `draw_packet_win`) leave the attributes as they were.
use wifi_sniffer.Prelude.{
  ℕ, zero, suc, ◌+◌, refl, ◌||◌, ◌==◌, Option, none, some, Option-cases, List, [], ◌∷◌,
  append_assoc, Bool-cases, inl, inr, subst, String, same_bytes, get_elem?, or_fault, Ensures,
  >>=-Ensures, Ensures-at, packet_buf_overflow,
}
use wifi_sniffer.FrameTypes.{sub_frame_string}
use wifi_sniffer.Ctx.{Ctx, PacketInfo, packet_buf_size, get_ap}
use wifi_sniffer.Ui.Calls.{
  bold, color_pair, text, address, name, attr_on, attr_off, border, c_string, find_pair, print_mac,
}
use wifi_sniffer.Ui.Packets.{
  broadcast_mac, row_index, is_zero_packet, deref_ap, draw_beacon, draw_probe_response,
  draw_management, title, draw_packet, draw_packet_row, draw_packet_rows, draw_packet_win,
}
use wifi_sniffer.Ui.Brackets.Attributes.{
  attributes, Balanced, Balanced-append, Balanced-within, Balanced-nil, Balanced-text,
  Balanced-name, Balanced-move, Balanced-border,
}

pub print_mac-Balanced : (c : Ctx) (mac : List ℕ) → Balanced (print_mac c mac)
unfolding print_mac attributes
print_mac-Balanced c mac = elim (Option-cases (find_pair c.aps c.aps_count mac)) [
  | inl e ↦ rw (e, print_mac) (record { leaves = λ rest on. refl })
  | inr (pair, e) ↦
      rw (e, print_mac)
        (Balanced-within (color_pair pair) (address mac ∷ []) []
          (record { leaves = λ rest on. refl }) Balanced-nil)
]

title-Balanced : (s : String) → Balanced (title s)
title-Balanced s =
    Balanced-within bold (text "[" ∷ text s ∷ text "] " ∷ []) []
      (Balanced-text (Balanced-text (Balanced-text Balanced-nil))) Balanced-nil

draw_beacon-Balanced : (c : Ctx) (p : PacketInfo) → Ensures Balanced (draw_beacon c p)
unfolding draw_beacon
draw_beacon-Balanced c p = >>=-Ensures Balanced (deref_ap c (get_ap c p.hdr.bssid)) _ λ a e.
    >>=-Ensures Balanced (c_string a.ssid) _ λ s q.
      subst (λ xs. Balanced (attr_on (color_pair (a.col_pair + 1)) ∷ xs))
        (append_assoc (print_mac c a.mac) (text " (" ∷ name s ∷ text ")" ∷ [])
          (attr_off (color_pair (a.col_pair + 1)) ∷ []))
        (Balanced-within (color_pair (a.col_pair + 1)) _ []
          (Balanced-append _ _ (print_mac-Balanced c a.mac)
            (Balanced-text (Balanced-name (Balanced-text Balanced-nil))))
          Balanced-nil)

draw_probe_response-Balanced :
    (c : Ctx) (p : PacketInfo) (found : Option ℕ) → Ensures Balanced (draw_probe_response c p found)
unfolding draw_probe_response
draw_probe_response-Balanced c p none = print_mac-Balanced c p.hdr.bssid
draw_probe_response-Balanced c p (some i) = >>=-Ensures Balanced (deref_ap c (some i)) _ λ a e.
    >>=-Ensures Balanced (c_string a.ssid) _ λ s q.
      Balanced-append _ _ (print_mac-Balanced c p.hdr.bssid)
        (Balanced-text (Balanced-name (Balanced-text Balanced-nil)))

draw_management-Balanced : (c : Ctx) (p : PacketInfo) → Ensures Balanced (draw_management c p)
unfolding draw_management
draw_management-Balanced c p = elim (Bool-cases (p.hdr.frame_st == 8)) [
  | inl e ↦ rw (e, draw_management) (draw_beacon-Balanced c p)
  | inr e ↦ elim (Bool-cases (p.hdr.frame_st == 13 || p.hdr.frame_st == 14)) [
    | inl e2 ↦
        rw (e, e2, draw_management)
          (Balanced-text (Balanced-text (Balanced-text (Balanced-text Balanced-nil))))
    | inr e2 ↦ elim (Bool-cases (p.hdr.frame_st == 5)) [
      | inl e3 ↦
          rw (e, e2, e3, draw_management) (draw_probe_response-Balanced c p (get_ap c p.hdr.bssid))
      | inr e3 ↦ rw (e, e2, e3, draw_management) Balanced-nil
    ]
  ]
]

draw_packet-Balanced : (c : Ctx) (p : PacketInfo) → Ensures Balanced (draw_packet c p)
unfolding draw_packet
draw_packet-Balanced c p =
    let label = sub_frame_string p.hdr.frame_t p.hdr.frame_st in
    elim (Bool-cases (p.hdr.frame_t == 0)) [
      | inl e ↦
          rw (e, draw_packet)
            (>>=-Ensures Balanced (draw_management c p) _ λ rest q.
              Balanced-append _ _ (title-Balanced _)
                (Ensures-at Balanced q (draw_management-Balanced c p)))
      | inr e ↦ elim (Bool-cases (same_bytes p.hdr.dst_mac broadcast_mac)) [
        | inl e2 ↦
            rw (e, e2, draw_packet)
              (Balanced-within bold (text "[Broadcast] " ∷ []) _ (Balanced-text Balanced-nil) (
                Balanced-append _ _ (print_mac-Balanced c p.hdr.src_mac)
                  (Balanced-text (Balanced-text Balanced-nil))))
        | inr e2 ↦
            rw (e, e2, draw_packet)
              (Balanced-append _ _ (title-Balanced label) (
                Balanced-append _ _ (print_mac-Balanced c p.hdr.src_mac) (
                  Balanced-text (
                    Balanced-append _ _ (print_mac-Balanced c p.hdr.dst_mac) (
                      Balanced-text (
                        Balanced-append _ _ (print_mac-Balanced c p.hdr.bssid)
                          (Balanced-text (Balanced-text Balanced-nil))))))))
      ]
    ]

draw_packet_row-Balanced : (c : Ctx) (i : ℕ) → Ensures Balanced (draw_packet_row c i)
unfolding draw_packet_row
draw_packet_row-Balanced c i =
    >>=-Ensures Balanced
      (or_fault (get_elem? c.packet_buf (row_index c.packet_buf_index i)) packet_buf_overflow) _
      λ p e. elim (Bool-cases (is_zero_packet p)) [
        | inl z ↦ rw z Balanced-nil
        | inr z ↦ rw z (
            >>=-Ensures Balanced (draw_packet c p) _
              λ row q. Balanced-move (Ensures-at Balanced q (draw_packet-Balanced c p)))
      ]

draw_packet_rows-Balanced : (c : Ctx) (i n : ℕ) → Ensures Balanced (draw_packet_rows c i n)
unfolding draw_packet_rows
draw_packet_rows-Balanced c i zero = Balanced-nil
draw_packet_rows-Balanced c i (suc n) = >>=-Ensures Balanced (draw_packet_row c i) _ λ row r.
    >>=-Ensures Balanced (draw_packet_rows c (i + 1) n) _ λ rest q.
      Balanced-append row rest (Ensures-at Balanced r (draw_packet_row-Balanced c i))
        (Ensures-at Balanced q (draw_packet_rows-Balanced c (i + 1) n))

pub draw_packet_win-Balanced : (c : Ctx) → Ensures Balanced (draw_packet_win c)
unfolding draw_packet_win
draw_packet_win-Balanced c = >>=-Ensures Balanced (draw_packet_rows c 0 packet_buf_size) _ λ rows e.
    Balanced-append rows (border ∷ [])
      (Ensures-at Balanced e (draw_packet_rows-Balanced c 0 packet_buf_size))
      (Balanced-border Balanced-nil)
