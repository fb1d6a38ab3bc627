-- ===== src/Prelude/Repeats.antt =====
-- Lists without a repeated entry, under a Boolean test of equality.
use Prim.Native.Nat.{suc, ◌≤◌}
use mathlib.Core.Logic.{inl, inr}
use mathlib.Core.Path.{◌≡◌, refl}
use mathlib.Core.Bool.{Bool, true, false, ◌||◌}
use mathlib.Core.List.{List, [], ◌∷◌, ◌++◌}
use native.Mathlib.Omega.{arith}
use wifi_sniffer.Prelude.Tests.{if◌then◌else◌, Bool-cases}
use wifi_sniffer.Prelude.Lists.{All, All-append, length}

-- Whether the test holds of an entry and `x`.
abbrev pub among {ℓ} : {A : Type ℓ} → (A → A → Bool) → List A → A → Bool
among eq [] x = false
among eq (y ∷ ys) x = eq y x || among eq ys x

abbrev pub Distinct {ℓ} : {A : Type ℓ} → (A → A → Bool) → List A → Type 0
Distinct eq [] = Unit
Distinct eq (x ∷ xs) = All (λ y. eq y x ≡ false) xs × Distinct eq xs

-- The list without the first entry of which the test holds.
remove {ℓ} : {A : Type ℓ} → (A → A → Bool) → List A → A → List A
remove eq [] x = []
remove eq (y ∷ ys) x = let rest = remove eq ys x in if eq y x then ys else y ∷ rest

module _ {ℓ} {A : Type ℓ} (eq : A → A → Bool) (eq_refl : (x : A) → eq x x ≡ true)
    (eq_sound : (x y : A) → eq x y ≡ true → x ≡ y) where
  length-remove :
      (ys : List A) (x : A) → among eq ys x ≡ true → length ys ≡ suc (length (remove eq ys x))
  unfolding remove
  length-remove [] x h = ground arith
  length-remove (y ∷ ys) x h = elim (Bool-cases (eq y x)) [
    | inl e ↦ rw e refl
    | inr e ↦ ground (arith, length-remove ys x)
  ]

  among-remove :
      (ys : List A) (x z : A)
      → eq z x ≡ false
      → among eq ys z ≡ true
      → among eq (remove eq ys x) z ≡ true
  unfolding remove
  among-remove [] x z d h = h
  among-remove (y ∷ ys) x z d h = elim (Bool-cases (eq y x)) [
    | inl e ↦ elim (Bool-cases (eq y z)) [
      | inl f ↦ let same = eq_sound y z f in cc
      | inr f ↦ ground arith
    ]
    | inr e ↦ ground (arith, among-remove ys x z d)
  ]

  All-remove :
      (ys xs : List A) (x : A)
      → All (λ z. eq z x ≡ false) xs
      → All (λ z. among eq ys z ≡ true) xs
      → All (λ z. among eq (remove eq ys x) z ≡ true) xs
  All-remove ys [] x d h = tt
  All-remove ys (z ∷ xs) x d h = (among-remove ys x z d.0 h.0, All-remove ys xs x d.1 h.1)

  -- Distinct entries of a list are no more than its entries.
  pub length-Distinct :
      (xs ys : List A) → Distinct eq xs → All (λ x. among eq ys x ≡ true) xs → length xs ≤ length ys
  length-Distinct [] ys d h = omega arith
  length-Distinct (x ∷ xs) ys d h = omega (
    arith,
    length-remove ys x h.0,
    length-Distinct xs (remove eq ys x) d.1 (All-remove ys xs x d.0 h.1),
  )

  pub eq_symm : (x y : A) → eq x y ≡ false → eq y x ≡ false
  eq_symm x y h = elim (Bool-cases (eq y x)) [
    | inl e ↦ let same = eq_sound y x e in let self = eq_refl x in cc
    | inr e ↦ e
  ]

  -- A new entry at the end keeps the entries distinct.
  pub Distinct-append :
      (xs : List A) (x : A)
      → Distinct eq xs
      → All (λ y. eq y x ≡ false) xs
      → Distinct eq (xs ++ (x ∷ []))
  Distinct-append [] x d h = (tt, tt)
  Distinct-append (y ∷ xs) x d h =
      (All-append _ xs x d.0 (eq_symm y x h.0), Distinct-append xs x d.1 h.1)

-- An entry that is not in a list differs from each of its entries.
pub among-All {ℓ} :
    {A : Type ℓ} (eq : A → A → Bool) (xs : List A) (x : A)
    → among eq xs x ≡ false
    → All (λ y. eq y x ≡ false) xs
among-All eq [] x h = tt
among-All eq (y ∷ xs) x h = (ground arith, among-All eq xs x (ground arith))

pub among-append {ℓ} :
    {A : Type ℓ} (eq : A → A → Bool) (xs : List A) (y x : A)
    → among eq (xs ++ (y ∷ [])) x ≡ among eq xs x || eq y x
among-append eq [] y x = ground arith
among-append eq (z ∷ xs) y x = ground (arith, among-append eq xs y x)

pub All-among {ℓ} :
    {A : Type ℓ} (eq : A → A → Bool) (xs : List A) (x : A)
    → All (λ y. eq y x ≡ false) xs
    → among eq xs x ≡ false
All-among eq [] x h = refl
All-among eq (y ∷ xs) x h = ground (arith, All-among eq xs x h.1)
