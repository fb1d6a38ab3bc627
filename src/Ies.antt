-- ===== src/Ies.antt =====
-- user/src/ie_iter.h and user/src/ie_iter.c: the iterator over the information elements of a
-- management frame, and the reader that takes an access point's SSID from them.
--
-- `cur` is a pointer into `ies`; it is the offset here, and `none` for NULL. `malloc` is taken to
-- succeed, as the code takes it to; Memory has the reader with its `malloc` and `free`.
pub mod Steps
pub mod Valid
pub mod Elements
pub mod Roundtrip
pub mod Total
pub mod Fits
pub mod Memory
use wifi_sniffer.Prelude.{
  ℕ, zero, suc, ◌+◌, ◌-◌, ◌%◌, Bool, true, false, not, ◌&&◌, ◌||◌, Option, none, some, List, [],
  ◌∷◌, ◌++◌, ◌==◌, ltb, leb, same_bytes, if◌then◌else◌, length, get_elem?, take, drop, Outcome, ok,
  fault, ies_overread, ssid_overread, ssid_overflow, body_overread, out_of_fuel, ◌>>=◌, ◌>>◌,
  or_fault, check,
}
use wifi_sniffer.FrameTypes.{mgmt_fixed_params}
use wifi_sniffer.Ctx.{Ap, PacketInfo, ssid_size}

pub record IeIterator : Type 0 where
  pub cur_id : ℕ
  pub cur_len : ℕ
  pub cur : Option ℕ
  pub ies_len : ℕ
  pub ies : List ℕ

unfoldable pub printable : List ℕ → Bool
printable [] = true
printable (c ∷ cs) = not (ltb c 32 || ltb 126 c) && printable cs

-- `ie_iter(body, body_len, frame_st)`: its `body_len` is a `uint8_t`, so the caller's is reduced.
unfoldable pub ie_iter : List ℕ → ℕ → ℕ → Outcome (Option IeIterator)
ie_iter body body_len frame_st =
    let fixed = mgmt_fixed_params frame_st in
    let len8 = body_len % 256 in
    if leb len8 fixed then ok none else do
      check (leb len8 (length body)) body_overread
      ok (
          some (record {
            cur_id = 0;
            cur_len = 0;
            cur = none;
            ies_len = len8 - fixed;
            ies = take (len8 - fixed) (drop fixed body);
          }))

-- `ptr[i]` in the copied elements.
unfoldable pub read_ies : IeIterator → ℕ → Outcome ℕ
read_ies iter i = or_fault (get_elem? iter.ies i) ies_overread

-- Whether the iterator has ended, and its new state.
abbrev pub Advance : Type 0
Advance = Outcome (Bool × IeIterator)

-- The branch for `cur == NULL`.
unfoldable pub ie_iter_first : IeIterator → Advance
ie_iter_first iter = if leb iter.ies_len 2 then ok (true, iter) else do
  id ← read_ies iter 0
  len ← read_ies iter 1
  ok (false, record iter { cur = some 2; cur_id = id; cur_len = len })

-- The other branch, where `cur += cur_len` has given `p`.
unfoldable pub ie_iter_step : IeIterator → ℕ → Advance
ie_iter_step iter p = if leb iter.ies_len p then ok (true, record iter { cur = some p }) else do
  id ← read_ies iter p
  len ← read_ies iter (p + 1)
  ok (false, record iter { cur = some (p + 2); cur_id = id; cur_len = len })

unfoldable pub ie_iter_next : IeIterator → Advance
ie_iter_next iter = elim iter.cur [
  | none ↦ ie_iter_first iter
  | some p ↦ ie_iter_step iter (p + iter.cur_len)
]

-- `memcpy(ap->ssid, …, cur_len)`, the terminating zero and `ssid_len`.
unfoldable pub write_ssid : Ap → List ℕ → ℕ → Outcome Ap
write_ssid ap name len = do
  check (ltb len ssid_size) ssid_overflow
  ok (record ap { ssid = name ++ (0 ∷ drop (len + 1) ap.ssid); ssid_len = len })

-- The body of the loop for an element with id 0 whose payload starts at `p`.
unfoldable pub update_ssid : Ap → IeIterator → ℕ → Outcome Ap
update_ssid ap iter p =
    let name = take iter.cur_len (drop p iter.ies) in
    do
      check (leb (p + iter.cur_len) (length iter.ies)) ies_overread
      check (leb iter.cur_len (length ap.ssid)) ssid_overread
      if not (same_bytes (take iter.cur_len ap.ssid) name) && printable name
          then write_ssid ap name iter.cur_len
          else ok ap

-- What the loop does with the element that the iterator stands at.
unfoldable pub visit_ie : Ap → IeIterator → Outcome Ap
visit_ie ap iter = elim iter.cur [
  | none ↦ ok ap
  | some p ↦ if iter.cur_id == 0 then update_ssid ap iter p else ok ap
]

-- `while (!ie_iter_next(iter))`, with fuel for its rounds.
unfoldable pub ie_loop : ℕ → Ap → IeIterator → Outcome Ap
ie_loop zero ap iter = fault out_of_fuel
ie_loop (suc fuel) ap iter = do
  (ended, iter') ← ie_iter_next iter
  elim ended [ true ↦ ok ap | false ↦ do ap' ← visit_ie ap iter'; ie_loop fuel ap' iter' ]

-- Each round moves `cur` by two bytes or more, so one round for each byte is enough.
unfoldable pub iter_packet_ies : Ap → PacketInfo → List ℕ → ℕ → Outcome Ap
iter_packet_ies ap info body body_len = do
  iter ← ie_iter body body_len info.hdr.frame_st
  elim iter [ none ↦ ok ap | some it ↦ ie_loop (suc it.ies_len) ap it ]
