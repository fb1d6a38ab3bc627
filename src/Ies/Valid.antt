-- ===== src/Ies/Valid.antt =====
-- The reader of information elements (user/src/ie_iter.c) keeps an access point well formed.
use wifi_sniffer.Prelude.{
  ℕ, ◌+◌, ◌<◌, ◌≡◌, refl, true, List, [], ◌∷◌, ◌++◌, length, length-append, length-take,
  length-drop, take, drop, ok, Option-cases, inl, inr, arith,
}
use wifi_sniffer.Ctx.{Ap, PacketInfo, ssid_size}
use wifi_sniffer.Ctx.Invariant.{IsValidAp, has_zero}
use wifi_sniffer.Ies.{IeIterator, write_ssid, update_ssid, visit_ie, iter_packet_ies}
use wifi_sniffer.Ies.Steps.{iter_packet_ies_rel}

-- An update of an access point that keeps it well formed and leaves its address.
abbrev pub Keeps : Ap → Ap → Type 0
Keeps a b = (IsValidAp a → IsValidAp b) × (b.mac ≡ a.mac)

pub Keeps-refl : (a : Ap) → Keeps a a
Keeps-refl a = (λ v. v, refl)

pub Keeps-trans : (a b c : Ap) → Keeps a b → Keeps b c → Keeps a c
Keeps-trans a b c k l = (λ v. l.0 (k.0 v), ground arith)

has_zero-append : (xs ys : List ℕ) → has_zero ys ≡ true → has_zero (xs ++ ys) ≡ true
unfolding has_zero
has_zero-append [] ys h = h
has_zero-append (x ∷ xs) ys h = ground (arith, has_zero-append xs ys h)

-- The new SSID fills the array as the old one did, and ends in a zero.
written_ssid :
    (name ssid : List ℕ) (len : ℕ)
    → length name ≡ len
    → len < ssid_size
    → length ssid ≡ ssid_size
    → let new = name ++ (0 ∷ drop (len + 1) ssid) in
      (length new ≡ ssid_size) × (has_zero new ≡ true)
unfolding has_zero
written_ssid name ssid len e h r = (
  omega (arith, length-append name (0 ∷ drop (len + 1) ssid), length-drop (len + 1) ssid),
  has_zero-append name (0 ∷ drop (len + 1) ssid) refl,
)

write_ssid-Keeps :
    (ap : Ap) (name : List ℕ) (len : ℕ) {b : Ap}
    → length name ≡ len
    → write_ssid ap name len ≡ ok b
    → Keeps ap b
unfolding write_ssid
write_ssid-Keeps ap name len e h =
    (λ v. ground (arith, written_ssid name ap.ssid len), ground arith)

update_ssid-Keeps :
    (ap : Ap) (iter : IeIterator) (p : ℕ) {b : Ap} → update_ssid ap iter p ≡ ok b → Keeps ap b
unfolding update_ssid
update_ssid-Keeps ap iter p {b} h =
    let name = take iter.cur_len (drop p iter.ies) in
    ground (
      arith,
      length-take iter.cur_len (drop p iter.ies),
      length-drop p iter.ies,
      write_ssid-Keeps ap name iter.cur_len {b = b},
      Keeps-refl ap,
    )

pub visit_ie-Keeps : (ap : Ap) (iter : IeIterator) {b : Ap} → visit_ie ap iter ≡ ok b → Keeps ap b
unfolding visit_ie
visit_ie-Keeps ap iter {b} h = elim (Option-cases iter.cur) [
  | inl e ↦ ground (arith, Keeps-refl ap)
  | inr (p, e) ↦ ground (arith, Keeps-refl ap, update_ssid-Keeps ap iter p {b = b})
]

pub iter_packet_ies-Keeps :
    (ap : Ap) (p : PacketInfo) (body : List ℕ) (body_len : ℕ) {b : Ap}
    → iter_packet_ies ap p body body_len ≡ ok b
    → Keeps ap b
iter_packet_ies-Keeps ap p body body_len h =
    iter_packet_ies_rel Keeps Keeps-refl Keeps-trans (λ a iter b e. visit_ie-Keeps a iter e) ap p
      body body_len h
