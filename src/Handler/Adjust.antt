-- ===== src/Handler/Adjust.antt =====
-- Writes through a pointer to one access point (user/src/main.c), and what they leave of the array.
use wifi_sniffer.Prelude.{
  ℕ, zero, suc, ◌≡◌, refl, ap, Option, none, some, List, [], ◌∷◌, inl, inr, length, All, Outcome,
  ok, Outcome-cases, arith,
}
use wifi_sniffer.Ctx.{Ap}
use wifi_sniffer.Ctx.Invariant.{IsValidAp, macs}
use wifi_sniffer.Ies.Valid.{Keeps, Keeps-refl}
use wifi_sniffer.Handler.{adjust_found}
use wifi_sniffer.Handler.Entry.{adjust, adjust?}

-- The array keeps its length, its well-formed entries and the addresses of its entries.
pub record KeepsAps (xs ys : List Ap) : Type 0 where
  pub room : length ys ≡ length xs
  pub valid : All IsValidAp xs → All IsValidAp ys
  pub addresses : (n : ℕ) → macs ys n ≡ macs xs n

pub KeepsAps-refl : (xs : List Ap) → KeepsAps xs xs
KeepsAps-refl xs = record { room = refl; valid = λ v. v; addresses = λ n. refl }

pub KeepsAps-cons :
    {a b : Ap} {xs ys : List Ap} → Keeps a b → KeepsAps xs ys → KeepsAps (a ∷ xs) (b ∷ ys)
KeepsAps-cons {a} {b} {xs} {ys} k ks = record {
  room = ap suc ks.room;
  valid = λ v. (k.0 v.0, ks.valid v.1);
  addresses = heads;
}
  where
    heads : (n : ℕ) → macs (b ∷ ys) n ≡ macs (a ∷ xs) n
    heads zero = refl
    heads (suc n) = rw (k.1, ks.addresses n)

pub adjust-KeepsAps :
    (f : Ap → Ap)
    → ((a : Ap) → Keeps a (f a))
    → (xs : List Ap) (i : ℕ) → KeepsAps xs (adjust f xs i)
unfolding adjust
adjust-KeepsAps f k [] i = KeepsAps-refl []
adjust-KeepsAps f k (a ∷ xs) zero = KeepsAps-cons (k a) (KeepsAps-refl xs)
adjust-KeepsAps f k (a ∷ xs) (suc i) = KeepsAps-cons (Keeps-refl a) (adjust-KeepsAps f k xs i)

pub adjust_found-KeepsAps :
    (f : Ap → Ap)
    → ((a : Ap) → Keeps a (f a))
    → (xs : List Ap) (found : Option ℕ) → KeepsAps xs (adjust_found f xs found)
unfolding adjust_found
adjust_found-KeepsAps f k xs none = KeepsAps-refl xs
adjust_found-KeepsAps f k xs (some i) = adjust-KeepsAps f k xs i

pub adjust?-KeepsAps :
    (f : Ap → Outcome Ap)
    → ((a b : Ap) → f a ≡ ok b → Keeps a b)
    → (xs : List Ap) (i : ℕ) {ys : List Ap} → adjust? f xs i ≡ ok ys
    → KeepsAps xs ys
unfolding adjust?
adjust?-KeepsAps f k [] i h = cc
adjust?-KeepsAps f k (a ∷ xs) zero {ys} h = elim (Outcome-cases (f a)) [
  | inl (b, e) ↦
      let r : ys ≡ b ∷ xs = ground arith in rw r (KeepsAps-cons (k a b e) (KeepsAps-refl xs))
  | inr (f, e) ↦ absurd (ground arith)
]
adjust?-KeepsAps f k (a ∷ xs) (suc i) {ys} h = elim (Outcome-cases (adjust? f xs i)) [
  | inl (bs, e) ↦
      let r : ys ≡ a ∷ bs = ground arith in
      rw r (KeepsAps-cons (Keeps-refl a) (adjust?-KeepsAps f k xs i e))
  | inr (f, e) ↦ absurd (ground arith)
]
