-- ===== src/MainLoop/Silence.antt =====
-- An access point that falls silent (user/src/main.c): it is removed, and the beacon that it leaves in
-- the ring of packets cannot be drawn any more (user/src/ui.c).
use wifi_sniffer.Prelude.{
  ℕ, zero, suc, ◌+◌, ◌≤◌, ◌<◌, ◌≡◌, ◌≢◌, refl, ◌∙◌, subst, true, false, ◌==◌, none, some, List, [],
  ◌∷◌, inl, inr, get_elem?, get_elem?-take, same_bytes, same_bytes_refl, same_bytes-eq, eq_symm, ok,
  fault, Fault, null_pointer, Outcome-cases, Bool-cases, arith,
}
use wifi_sniffer.Ctx.{Ap, PacketInfo, Ctx, find_ap, get_ap, live_aps}
use wifi_sniffer.Ctx.Invariant.{IsValid, macs, Absent, Unique}
use wifi_sniffer.Ctx.Lookup.{find_ap-Found}
use wifi_sniffer.Handler.{Env, Sniffer, handle_packet}
use wifi_sniffer.Handler.Invariant.{handle_packet-IsValid}
use wifi_sniffer.Handler.Beacon.{handle_packet_beacon}
use wifi_sniffer.Handler.Buffer.{row, handle_packet_unlisted}
use wifi_sniffer.Ui.Calls.{Draw}
use wifi_sniffer.Ui.Packets.{
  is_zero_packet, deref_ap, draw_beacon, draw_management, draw_packet, draw_packet_row,
  draw_packet_rows, draw_packet_win,
}
use wifi_sniffer.Ui.Total.{IsOrphan}
use wifi_sniffer.MainLoop.{remove_ap, expired, prune_loop, prune}
use wifi_sniffer.MainLoop.Prune.{unexpired, prune_refines}
use wifi_sniffer.MainLoop.Invariant.{addresses, macs-take}

Absent-unexpired :
    (mac : List ℕ) (now : ℕ) (aps : List Ap)
    → Absent mac (addresses aps)
    → Absent mac (addresses (unexpired now aps))
unfolding unexpired
Absent-unexpired mac now [] h = tt
Absent-unexpired mac now (a ∷ aps) h = elim (Bool-cases (expired now a)) [
  | inl e ↦ rw e (Absent-unexpired mac now aps h.1)
  | inr e ↦ rw e (h.0, Absent-unexpired mac now aps h.1)
]

Absent-at :
    (mac : List ℕ) (aps : List Ap) (i : ℕ) {a : Ap}
    → Absent mac (addresses aps)
    → get_elem? aps i ≡ some a
    → same_bytes a.mac mac ≡ false
Absent-at mac [] i h g = cc
Absent-at mac (x ∷ aps) zero {a} h g = let e : a ≡ x = ground arith in rw e h.0
Absent-at mac (x ∷ aps) (suc i) h g = Absent-at mac aps i h.1 g

-- The address of an expired entry does not outlive it.
unexpired-Absent :
    (now : ℕ) (aps : List Ap) (i : ℕ) (a : Ap)
    → Unique (addresses aps)
    → get_elem? aps i ≡ some a
    → expired now a ≡ true
    → Absent a.mac (addresses (unexpired now aps))
unfolding unexpired
unexpired-Absent now [] i a u g x = tt
unexpired-Absent now (b ∷ aps) zero a u g x =
    let e : b ≡ a = ground arith in
    rw (e, x) (Absent-unexpired a.mac now aps (subst (λ c. Absent c.mac (addresses aps)) e u.0))
unexpired-Absent now (b ∷ aps) (suc i) a u g x = elim (Bool-cases (expired now b)) [
  | inl e ↦ rw e (unexpired-Absent now aps i a u.1 g x)
  | inr e ↦ rw e (
    eq_symm same_bytes same_bytes_refl same_bytes-eq a.mac b.mac (Absent-at b.mac aps i u.0 g),
    unexpired-Absent now aps i a u.1 g x,
  )
]

pub Absent-find_ap :
    (aps : List Ap) (n : ℕ) (mac : List ℕ) → Absent mac (macs aps n) → find_ap aps n mac ≡ none
unfolding find_ap
Absent-find_ap [] n mac h = refl
Absent-find_ap (a ∷ aps) zero mac h = refl
Absent-find_ap (a ∷ aps) (suc n) mac h = rw (h.0, Absent-find_ap aps n mac h.1)

-- An entry that has expired is not found after a pass.
pub prune-get_ap :
    (now : ℕ) (c : Ctx) (mac : List ℕ) (i : ℕ) (a : Ap)
    → IsValid c
    → get_ap c mac ≡ some i
    → get_elem? c.aps i ≡ some a
    → expired now a ≡ true
    → get_ap (prune now c) mac ≡ none
unfolding get_ap
prune-get_ap now c mac i a v g at x =
    let f = find_ap-Found c.aps c.aps_count mac i g in
    let here : get_elem? (live_aps c) i ≡ some a =
      get_elem?-take c.aps_count c.aps i f.registered ∙ at in
    let same : a.mac ≡ mac = ground (arith, f.at, f.address) in
    let unique : Unique (addresses (live_aps c)) =
      subst Unique (macs-take c.aps c.aps_count) v.aps_unique in
    let gone = unexpired-Absent now (live_aps c) i a unique here x in
    Absent-find_ap (prune now c).aps (prune now c).aps_count mac
      (rw (macs-take (prune now c).aps (prune now c).aps_count, prune_refines now c v, ← same) gone)

prune_loop-ring :
    (fuel now : ℕ) (c : Ctx) (i : ℕ)
    → ((prune_loop fuel now c i).packet_buf ≡ c.packet_buf)
      × ((prune_loop fuel now c i).packet_buf_index ≡ c.packet_buf_index)
unfolding prune_loop remove_ap
prune_loop-ring zero now c i = (refl, refl)
prune_loop-ring (suc fuel) now c i =
    ground (arith, prune_loop-ring fuel now (remove_ap c i) i, prune_loop-ring fuel now c (i + 1))

pub prune-ring :
    (now : ℕ) (c : Ctx)
    → ((prune now c).packet_buf ≡ c.packet_buf)
      × ((prune now c).packet_buf_index ≡ c.packet_buf_index)
unfolding prune
prune-ring now c = prune_loop-ring c.aps_count now c 0

orphan_nonzero : (p : PacketInfo) → p.hdr.frame_st ≡ 8 → is_zero_packet p ≡ false
unfolding is_zero_packet
orphan_nonzero p st = ground arith

orphan_packet : (c : Ctx) (p : PacketInfo) → IsOrphan c p → draw_packet c p ≡ fault null_pointer
unfolding draw_packet draw_management draw_beacon deref_ap
orphan_packet c p (t, st, gone) = rw (t, st, gone)

-- A row that shows an orphan follows a null pointer.
orphan_row :
    (c : Ctx) (i : ℕ) (p : PacketInfo)
    → row c i ≡ some p
    → IsOrphan c p
    → draw_packet_row c i ≡ fault null_pointer
unfolding draw_packet_row
orphan_row c i p r o = rw (r, orphan_nonzero p o.1, orphan_packet c p o)

rows_fault :
    (c : Ctx) (i k n : ℕ) (f : Fault) {d : List Draw}
    → i ≤ k
    → k < i + n
    → draw_packet_row c k ≡ fault f
    → draw_packet_rows c i n ≢ ok d
unfolding draw_packet_rows
rows_fault c i k zero f l u e h = absurd (omega arith)
rows_fault c i k (suc n) f l u e h = elim (Bool-cases (i == k)) [
  | inl same ↦
      let q : i ≡ k = ground arith in let r : draw_packet_row c i ≡ fault f = rw q e in ground arith
  | inr later ↦ elim (Outcome-cases (draw_packet_row c i)) [
    | inr (g, r) ↦ ground arith
    | inl (row, r) ↦ elim (Outcome-cases (draw_packet_rows c (i + 1) n)) [
      | inr (g, q) ↦ ground arith
      | inl (rest, q) ↦ rows_fault c (i + 1) k n f (ground arith) (omega arith) e q
    ]
  ]
]

window_fault :
    (c : Ctx) {d : List Draw} → draw_packet_row c 19 ≡ fault null_pointer → draw_packet_win c ≢ ok d
unfolding draw_packet_win
window_fault c {d} e h = elim (Outcome-cases (draw_packet_rows c 0 20)) [
  | inr (g, q) ↦ ground arith
  | inl (rows, q) ↦ rows_fault c 0 19 20 null_pointer {d = rows} (omega arith) (omega arith) e q
]

-- In a valid context a beacon is handled without a fault, and no other frame before a pass more
-- than 30 seconds later: the pass removes the sender, and the packet window, whose last row is
-- that beacon, cannot be drawn.
pub beacon_then_silence :
    (env : Env) (s : Sniffer) (p : PacketInfo) (body : List ℕ) (n later : ℕ) {t : Sniffer}
    {d : List Draw}
    → IsValid s.ctx
    → p.hdr.frame_t ≡ 0
    → p.hdr.frame_st ≡ 8
    → handle_packet env s p body n ≡ ok t
    → env.now + 30 < later
    → (get_ap (prune later t.ctx) p.hdr.bssid ≡ none) × (draw_packet_win (prune later t.ctx) ≢ ok d)
beacon_then_silence env s p body n later {t} {d} v ft st h l =
    let w = handle_packet-IsValid env s p body n v h in
    let k = handle_packet_beacon env s p body n ft st h in
    let gone =
      prune-get_ap later t.ctx p.hdr.bssid k.index k.ap w k.found k.entry
        (ground (arith, k.heard.last_seen)) in
    let ((q, hdr, last), _) =
      handle_packet_unlisted env s p body n 0 v (ground arith) h (omega arith) in
    let (buf, index) = prune-ring later t.ctx in
    let shown : row (prune later t.ctx) 19 ≡ some q = rw (buf, index) last in
    let orphan : IsOrphan (prune later t.ctx) q = rw hdr (ft, st, gone) in
    let broken = orphan_row (prune later t.ctx) 19 q shown orphan in
    (gone, λ e. window_fault (prune later t.ctx) broken e)
