-- ===== src/Ies/Memory.antt =====
-- The memory of the iterator (user/src/ie_iter.c): `malloc` in `ie_iter`, whose result is not tested, and
-- `ie_iter_free`.
use wifi_sniffer.Prelude.{
  ℕ, suc, ◌-◌, ◌%◌, ◌≡◌, refl, Bool, if◌then◌else◌, leb, Option, none, some, List, [], ◌∷◌, ◌++◌,
  length, take, drop, inl, inr, Bool-cases, Outcome, ok, fault, null_pointer, body_overread, ◌>>=◌,
  ◌>>◌, check, Outcome-cases,
}
use wifi_sniffer.FrameTypes.{mgmt_fixed_params}
use wifi_sniffer.Ctx.{Ap, PacketInfo}
use wifi_sniffer.Ies.{IeIterator, ie_iter, ie_loop, iter_packet_ies}

-- `malloc` with that many bytes for `ies`, and `free`.
pub data HeapCall : Type 0 where
  malloc : ℕ → HeapCall
  free : HeapCall

-- `ie_iter` where `malloc` returns memory, or NULL, through which `ies_len` is then written.
unfoldable pub ie_iter_in : Bool → List ℕ → ℕ → ℕ → Outcome (Option IeIterator × List HeapCall)
ie_iter_in allocated body body_len frame_st =
    let fixed = mgmt_fixed_params frame_st in
    let len8 = body_len % 256 in
    if leb len8 fixed then ok (none, []) else do
      check allocated null_pointer
      check (leb len8 (length body)) body_overread
      ok (
        some (record {
          cur_id = 0;
          cur_len = 0;
          cur = none;
          ies_len = len8 - fixed;
          ies = take (len8 - fixed) (drop fixed body);
        }),
        malloc (len8 - fixed) ∷ [],
      )

unfoldable pub ie_iter_free : Option IeIterator → List HeapCall
ie_iter_free none = []
ie_iter_free (some iter) = free ∷ []

-- `iter_packet_ies` with its calls. Without an iterator the loop ends at once.
unfoldable pub iter_packet_ies_in :
    Bool → Ap → PacketInfo → List ℕ → ℕ → Outcome (Ap × List HeapCall)
iter_packet_ies_in allocated ap info body body_len = do
  (iter, calls) ← ie_iter_in allocated body body_len info.hdr.frame_st
  ap' ← elim iter [ none ↦ ok ap | some it ↦ ie_loop (suc it.ies_len) ap it ]
  ok (ap', calls ++ ie_iter_free iter)

-- A body that is no longer than the fixed part of its subtype needs no memory and changes nothing. For
-- a longer one: if `malloc` returns memory, the reader does what `iter_packet_ies` says, and if it comes
-- to its end, it has freed what it allocated, the bytes behind the fixed part; if `malloc` returns NULL,
-- a null pointer is written through.
pub iter_packet_ies_in_lem :
    (allocated : Bool) (a : Ap) (p : PacketInfo) (body : List ℕ) (n : ℕ)
    → let fixed = mgmt_fixed_params p.hdr.frame_st in
      iter_packet_ies_in allocated a p body n ≡ (
        if leb (n % 256) fixed
        then ok (a, [])
        else if allocated
        then (do b ← iter_packet_ies a p body n; ok (b, malloc (n % 256 - fixed) ∷ free ∷ []))
        else fault null_pointer)
unfolding iter_packet_ies_in ie_iter_in ie_iter_free iter_packet_ies ie_iter
iter_packet_ies_in_lem allocated a p body n =
    elim (Bool-cases (leb (n % 256) (mgmt_fixed_params p.hdr.frame_st))) [
      | inl e ↦ rw e refl
      | inr e ↦ elim (Bool-cases allocated) [
        | inr f ↦ rw (e, f) refl
        | inl f ↦ elim (Bool-cases (leb (n % 256) (length body))) [
          | inr g ↦ rw (e, f, g) refl
          | inl g ↦
              let fixed = mgmt_fixed_params p.hdr.frame_st in
              let it : IeIterator = record {
                cur_id = 0;
                cur_len = 0;
                cur = none;
                ies_len = n % 256 - fixed;
                ies = take (n % 256 - fixed) (drop fixed body);
              } in
              elim (Outcome-cases (ie_loop (suc it.ies_len) a it)) [
                | inl (b, r) ↦ rw (e, f, g, r) refl
                | inr (x, r) ↦ rw (e, f, g, r) refl
              ]
        ]
      ]
    ]
