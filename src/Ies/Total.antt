-- ===== src/Ies/Total.antt =====
-- The loop of `iter_packet_ies` (user/src/ie_iter.c) ends on every body, well formed or not.
use wifi_sniffer.Prelude.{
  ℕ, zero, suc, ◌+◌, ◌<◌, ◌≡◌, ◌≢◌, true, false, Option, none, some, List, inl, inr, ok, fault,
  out_of_fuel, Outcome-cases, Option-cases, arith,
}
use wifi_sniffer.Ctx.{Ap, PacketInfo}
use wifi_sniffer.Ies.{
  IeIterator, ie_iter, ie_iter_next, ie_iter_first, ie_iter_step, read_ies, update_ssid, write_ssid,
  visit_ie, ie_loop, iter_packet_ies,
}

abbrev offset : Option ℕ → ℕ
offset none = 0
offset (some p) = p

-- `cur` leaves fewer bytes to read than there is fuel.
abbrev Fits : IeIterator → ℕ → Type 0
Fits it fuel = (0 < fuel) × (it.ies_len < offset it.cur + fuel)

next-Fits :
    (it next : IeIterator) (fuel : ℕ)
    → Fits it (suc fuel)
    → ie_iter_next it ≡ ok (false, next)
    → Fits next fuel
unfolding ie_iter_next ie_iter_first ie_iter_step
next-Fits it next fuel f h = elim (Option-cases it.cur) [
  | inl e ↦ ground arith
  | inr (p, e) ↦ ground arith
]

next-ends : (it : IeIterator) → ie_iter_next it ≢ fault out_of_fuel
unfolding ie_iter_next ie_iter_first ie_iter_step read_ies
next-ends it h = ground arith

visit-ends : (a : Ap) (it : IeIterator) → visit_ie a it ≢ fault out_of_fuel
unfolding visit_ie update_ssid write_ssid
visit-ends a it h = ground arith

loop-ends :
    (fuel : ℕ) (a : Ap) (it : IeIterator) → Fits it fuel → ie_loop fuel a it ≢ fault out_of_fuel
unfolding ie_loop
loop-ends zero a it f h = absurd (omega arith)
loop-ends (suc fuel) a it f h = elim (Outcome-cases (ie_iter_next it)) [
  | inr (e, n) ↦ next-ends it (ground arith)
  | inl ((true, next), n) ↦ absurd (ground arith)
  | inl ((false, next), n) ↦ elim (Outcome-cases (visit_ie a next)) [
    | inr (e, v) ↦ visit-ends a next (ground arith)
    | inl (b, v) ↦ loop-ends fuel b next (next-Fits it next fuel f n) (ground arith)
  ]
]

iter-cur :
    (body : List ℕ) (n st : ℕ) {it : IeIterator} → ie_iter body n st ≡ ok (some it) → it.cur ≡ none
unfolding ie_iter
iter-cur body n st h = ground arith

iter-ends : (body : List ℕ) (n st : ℕ) → ie_iter body n st ≢ fault out_of_fuel
unfolding ie_iter
iter-ends body n st h = ground arith

-- One round for each byte of the elements, and one more, are enough: the reader ends, with a
-- result or with an access out of bounds, whatever the bytes are.
pub iter_packet_ies_ends :
    (a : Ap) (p : PacketInfo) (body : List ℕ) (body_len : ℕ)
    → iter_packet_ies a p body body_len ≢ fault out_of_fuel
unfolding iter_packet_ies
iter_packet_ies_ends a p body body_len h =
    elim (Outcome-cases (ie_iter body body_len p.hdr.frame_st)) [
      | inr (e, n) ↦ iter-ends body body_len p.hdr.frame_st (ground arith)
      | inl (none, n) ↦ absurd (ground arith)
      | inl (some it, n) ↦
          loop-ends (suc it.ies_len) a it
            (omega arith, rw (iter-cur body body_len p.hdr.frame_st n) (omega arith)) (ground arith)
    ]
