-- ===== src/Ies/Elements.antt =====
-- Information elements as data, their bytes in a frame, and what a reader has to do with them: the
-- specification of user/src/ie_iter.c.
use wifi_sniffer.Prelude.{
  ℕ, ◌+◌, ◌≤◌, ◌≡◌, refl, ◌||◌, ◌&&◌, Bool, true, false, not, List, [], ◌∷◌, ◌++◌, ◌==◌, ltb,
  if◌then◌else◌, length, take, drop, same_bytes, Outcome, ok, fault, ssid_overread, ssid_overflow,
  ◌>>=◌, arith,
}
use wifi_sniffer.Ctx.{Ap, ssid_size}
use wifi_sniffer.Ies.{printable}

pub record Ie : Type 0 where
  pub id : ℕ
  pub payload : List ℕ

-- One byte for the id, one for the length of the payload, the payload.
unfoldable pub encode_ies : List Ie → List ℕ
encode_ies [] = []
encode_ies (e ∷ es) = e.id ∷ length e.payload ∷ (e.payload ++ encode_ies es)

unfoldable pub is_prefix : List ℕ → List ℕ → Bool
is_prefix [] ys = true
is_prefix (x ∷ xs) [] = false
is_prefix (x ∷ xs) (y ∷ ys) = x == y && is_prefix xs ys

-- A name that the stored SSID begins with, or that does not print, is ignored. Any other replaces
-- the SSID, and one of 32 bytes has no room for its terminating zero.
unfoldable pub assign_ssid : Ap → List ℕ → Outcome Ap
assign_ssid ap name =
    if ltb (length ap.ssid) (length name)
    then fault ssid_overread
    else if is_prefix name ap.ssid || not (printable name)
    then ok ap
    else if ltb (length name) ssid_size
    then ok
        (record ap { ssid = name ++ (0 ∷ drop (length name + 1) ap.ssid); ssid_len = length name })
    else fault ssid_overflow

-- The SSID is the element with id 0.
unfoldable pub apply_ie : Ap → Ie → Outcome Ap
apply_ie ap e = if e.id == 0 then assign_ssid ap e.payload else ok ap

-- The elements in their order.
unfoldable pub apply_ies : Ap → List Ie → Outcome Ap
apply_ies ap [] = ok ap
apply_ies ap (e ∷ es) = apply_ie ap e >>= λ a. apply_ies a es

pub is_prefix_lem :
    (name ssid : List ℕ)
    → length name ≤ length ssid
    → same_bytes (take (length name) ssid) name ≡ is_prefix name ssid
unfolding is_prefix same_bytes
is_prefix_lem [] ssid h = refl
is_prefix_lem (x ∷ name) [] h = absurd (omega arith)
is_prefix_lem (x ∷ name) (y ∷ ssid) h = ground (arith, is_prefix_lem name ssid)
