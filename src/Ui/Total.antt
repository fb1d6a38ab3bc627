-- ===== src/Ui/Total.antt =====
-- The drawing code (user/src/ui.c) stays within the arrays, and follows a null pointer only for a
-- beacon whose access point is gone.
use wifi_sniffer.Prelude.{
  ℤ, pos, negsuc, Returns, ok-Returns, >>=-Returns, ℕ, zero, suc, ◌+◌, ◌-◌, ◌≤◌, ◌<◌, ◌≡◌, ◌≢◌,
  refl, true, ◌||◌, ◌==◌, none, some, List, [], ◌∷◌, ◌++◌, inl, inr, get_elem?-lt, length, All,
  All-at, same_bytes, ok, Bool-cases, arith,
}
use wifi_sniffer.Ctx.{Ap, PacketInfo, Ctx, get_ap, packet_buf_size}
use wifi_sniffer.Ctx.Invariant.{IsValidAp, IsValid, has_zero}
use wifi_sniffer.Ctx.Lookup.{Found, get_ap_lem}
use wifi_sniffer.Handler.Buffer.{row}
use wifi_sniffer.Ui.{ap_lines, draw_ap, draw_ap_rows, draw_ap_win, draw_ui}
use wifi_sniffer.Ui.Calls.{c_string}
use wifi_sniffer.Ui.Packets.{
  broadcast_mac, row_index, is_zero_packet, deref_ap, draw_beacon, draw_probe_response,
  draw_management, draw_packet, draw_packet_row, draw_packet_rows, draw_packet_win,
}

c_string-Returns : (cs : List ℕ) → has_zero cs ≡ true → Returns (c_string cs)
unfolding c_string has_zero
c_string-Returns [] h = cc
c_string-Returns (c ∷ cs) h = elim (Bool-cases (c == 0)) [
  | inl e ↦ ([], rw e)
  | inr e ↦ let (s, r) = c_string-Returns cs (ground arith) in (c ∷ s, rw (e, r))
]

draw_ap-Returns :
    (now : ℕ) (c : Ctx) (i y : ℕ) (a : Ap) → IsValidAp a → Returns (draw_ap now c i y a)
unfolding draw_ap
draw_ap-Returns now c i y a v =
    >>=-Returns (c_string a.ssid) _ (c_string-Returns a.ssid v.terminated) (λ s e. ok-Returns _)

-- The rows that are drawn are entries of the array.
draw_ap_rows-Returns :
    (now : ℕ) (c : Ctx) (i y n : ℕ)
    → All IsValidAp c.aps
    → i + n ≤ length c.aps
    → Returns (draw_ap_rows now c i y n)
unfolding draw_ap_rows
draw_ap_rows-Returns now c i y zero v h = ([], refl)
draw_ap_rows-Returns now c i y (suc n) v h =
    let (a, at) = get_elem?-lt c.aps i (omega arith) in
    let (row, r) = draw_ap-Returns now c i y a (All-at IsValidAp c.aps i v at) in
    let (rest, q) = draw_ap_rows-Returns now c (i + 1) (y + 1) n v (omega arith) in
    (row ++ rest, rw (at, r, q))

ap_lines_le : (rows : ℤ) (n : ℕ) → ap_lines rows n ≤ n
ap_lines_le (pos rows) n = omega arith
ap_lines_le (negsuc e) n = omega arith

draw_ap_win-Returns : (now : ℕ) (rows : ℤ) (c : Ctx) → IsValid c → Returns (draw_ap_win now rows c)
unfolding draw_ap_win
draw_ap_win-Returns now rows c v =
    let n = ap_lines rows (c.aps_count - c.scroll) in
    >>=-Returns (draw_ap_rows now c c.scroll 1 n) _
      (draw_ap_rows-Returns now c c.scroll 1 n v.aps_valid (
        omega (
          arith,
          ap_lines_le rows (c.aps_count - c.scroll),
          v.scroll_byte,
          v.aps_used,
          v.aps_room,
        )))
      (λ lines e. ok-Returns _)

-- A beacon whose access point is not registered.
abbrev pub IsOrphan : Ctx → PacketInfo → Type 0
IsOrphan c p = (p.hdr.frame_t ≡ 0) × (p.hdr.frame_st ≡ 8) × (get_ap c p.hdr.bssid ≡ none)

Found-ssid :
    (c : Ctx) (mac : List ℕ) (i : ℕ)
    → IsValid c
    → Found c.aps c.aps_count mac i
    → (a : Ap) × (deref_ap c (some i) ≡ ok a) × Returns (c_string a.ssid)
unfolding deref_ap
Found-ssid c mac i v f = (
  f.ap,
  rw f.at,
  c_string-Returns f.ap.ssid (All-at IsValidAp c.aps i v.aps_valid f.at).terminated,
)

beacon-Returns :
    (c : Ctx) (p : PacketInfo) → IsValid c → get_ap c p.hdr.bssid ≢ none → Returns (draw_beacon c p)
unfolding draw_beacon
beacon-Returns c p v h = elim (get_ap_lem c p.hdr.bssid) [
  | inl (e, _) ↦ absurd (h e)
  | inr (i, e, f) ↦
      let (a, at, (s, r)) = Found-ssid c p.hdr.bssid i v f in rw (e, at, r) (ok-Returns _)
]

probe_response-Returns :
    (c : Ctx) (p : PacketInfo)
    → IsValid c
    → Returns (draw_probe_response c p (get_ap c p.hdr.bssid))
unfolding draw_probe_response
probe_response-Returns c p v = elim (get_ap_lem c p.hdr.bssid) [
  | inl (e, _) ↦ rw e (ok-Returns _)
  | inr (i, e, f) ↦
      let (a, at, (s, r)) = Found-ssid c p.hdr.bssid i v f in rw (e, at, r) (ok-Returns _)
]

management-Returns :
    (c : Ctx) (p : PacketInfo)
    → IsValid c
    → p.hdr.frame_t ≡ 0
    → ¬ IsOrphan c p
    → Returns (draw_management c p)
unfolding draw_management
management-Returns c p v t h = elim (Bool-cases (p.hdr.frame_st == 8)) [
  | inl e ↦ rw e (beacon-Returns c p v (λ n. h (t, ground arith, n)))
  | inr e ↦ elim (Bool-cases (p.hdr.frame_st == 13 || p.hdr.frame_st == 14)) [
    | inl a ↦ rw (e, a) (ok-Returns _)
    | inr a ↦ elim (Bool-cases (p.hdr.frame_st == 5)) [
      | inl q ↦ rw (e, a, q) (probe_response-Returns c p v)
      | inr q ↦ rw (e, a, q) (ok-Returns [])
    ]
  ]
]

packet-Returns : (c : Ctx) (p : PacketInfo) → IsValid c → ¬ IsOrphan c p → Returns (draw_packet c p)
unfolding draw_packet
packet-Returns c p v h = elim (Bool-cases (p.hdr.frame_t == 0)) [
  | inl e ↦ let (rest, r) = management-Returns c p v (ground arith) h in rw (e, r) (ok-Returns _)
  | inr e ↦ elim (Bool-cases (same_bytes p.hdr.dst_mac broadcast_mac)) [
    | inl b ↦ rw (e, b) (ok-Returns _)
    | inr b ↦ rw (e, b) (ok-Returns _)
  ]
]

-- No row shows an orphan.
abbrev pub NoOrphan : Ctx → Type 0
NoOrphan c = (i : ℕ) (p : PacketInfo) → row c i ≡ some p → ¬ IsOrphan c p

row-Returns : (c : Ctx) (i : ℕ) → IsValid c → NoOrphan c → i < 20 → Returns (draw_packet_row c i)
unfolding draw_packet_row
row-Returns c i v h l =
    let (p, at) =
      get_elem?-lt c.packet_buf (row_index c.packet_buf_index i)
        (ground (arith, v.packets_room, v.packet_next)) in
    elim (Bool-cases (is_zero_packet p)) [
      | inl z ↦ rw (at, z) (ok-Returns [])
      | inr z ↦ let (d, r) = packet-Returns c p v (h i p at) in rw (at, z, r) (ok-Returns _)
    ]

rows-return :
    (c : Ctx) (i n : ℕ) → IsValid c → NoOrphan c → i + n ≤ 20 → Returns (draw_packet_rows c i n)
unfolding draw_packet_rows
rows-return c i zero v h l = ok-Returns []
rows-return c i (suc n) v h l =
    >>=-Returns (draw_packet_row c i) _ (row-Returns c i v h (omega arith)) λ row e.
      >>=-Returns (draw_packet_rows c (i + 1) n) _ (rows-return c (i + 1) n v h (omega arith))
        λ rest e'. ok-Returns _

packet_win-Returns : (c : Ctx) → IsValid c → NoOrphan c → Returns (draw_packet_win c)
unfolding draw_packet_win
packet_win-Returns c v h =
    >>=-Returns (draw_packet_rows c 0 packet_buf_size) _ (rows-return c 0 20 v h (omega arith))
      λ rows e. ok-Returns _

-- With a valid context, and no beacon in the ring of packets whose access point is not
-- registered, the whole screen is drawn: no array is read out of bounds, no SSID runs past its
-- array, and no null pointer is followed.
pub draw_ui-Returns :
    (now : ℕ) (rows : ℤ) (channel : ℕ) (c : Ctx)
    → IsValid c
    → NoOrphan c
    → Returns (draw_ui now rows channel c)
unfolding draw_ui
draw_ui-Returns now rows channel c v h =
    >>=-Returns (draw_packet_win c) _ (packet_win-Returns c v h) λ packets e.
      >>=-Returns (draw_ap_win now rows c) _ (draw_ap_win-Returns now rows c v)
        λ aps e'. ok-Returns _
