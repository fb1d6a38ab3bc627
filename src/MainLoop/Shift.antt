-- ===== src/MainLoop/Shift.antt =====
-- The inner loop of the removal of an access point (user/src/main.c) moves the entries behind it one
-- place down.
use wifi_sniffer.Prelude.{
  ℕ, zero, suc, ◌+◌, ◌-◌, ◌≤◌, ◌<◌, ◌≡◌, refl, ap, ◌∙◌, none, some, List, [], ◌∷◌, ◌++◌, get_elem?,
  set, length, length-set, Option-cases, inl, inr, take, drop, All, arith,
}
use wifi_sniffer.Ctx.{Ap}
use wifi_sniffer.MainLoop.{copy_down, shift_down}

copy_down_at :
    (aps : List Ap) (j : ℕ) {a : Ap}
    → get_elem? aps j ≡ some a
    → copy_down aps j ≡ set aps (j - 1) a
unfolding copy_down
copy_down_at aps j h = rw (h, copy_down)

copy_down_past : (aps : List Ap) (j : ℕ) → get_elem? aps j ≡ none → copy_down aps j ≡ aps
unfolding copy_down
copy_down_past aps j h = rw (h, copy_down)

copy_down-cons :
    (a : Ap) (aps : List Ap) (j : ℕ) → copy_down (a ∷ aps) (suc (suc j)) ≡ a ∷ copy_down aps (suc j)
copy_down-cons a aps j =
    let e : suc (suc j) - 1 ≡ suc j = omega arith in
    let f : suc j - 1 ≡ j = omega arith in
    elim (Option-cases (get_elem? aps (suc j))) [
      | inl n ↦ rw (copy_down_past aps (suc j) n, copy_down_past (a ∷ aps) (suc (suc j)) n)
      | inr (x, n) ↦ rw (copy_down_at aps (suc j) n, copy_down_at (a ∷ aps) (suc (suc j)) n, e, f)
    ]

shift_down-cons :
    (a : Ap) (aps : List Ap) (j n : ℕ)
    → shift_down (a ∷ aps) (suc (suc j)) n ≡ a ∷ shift_down aps (suc j) n
unfolding shift_down
shift_down-cons a aps j zero = refl
shift_down-cons a aps j (suc n) =
    let e : suc (suc j) + 1 ≡ suc (suc (suc j)) = omega arith in
    let f : suc j + 1 ≡ suc (suc j) = omega arith in
    rw (copy_down-cons a aps j, e, f) (shift_down-cons a (copy_down aps (suc j)) (suc j) n)

shift_down_first :
    (a b : Ap) (aps : List Ap) (n : ℕ)
    → shift_down (a ∷ b ∷ aps) 1 (suc n) ≡ b ∷ shift_down (b ∷ aps) 1 n
unfolding shift_down copy_down
shift_down_first a b aps n = shift_down-cons b (b ∷ aps) 0 n

-- From the entry behind the first one on, `n` entries move down.
take-shift_first :
    (a : Ap) (aps : List Ap) (n : ℕ)
    → n ≤ length aps
    → take n (shift_down (a ∷ aps) 1 n) ≡ take n aps
take-shift_first a aps zero h = refl
take-shift_first a [] (suc n) h = absurd (omega arith)
take-shift_first a (b ∷ aps) (suc n) h =
    rw (shift_down_first a b aps n) (ap (◌∷◌ b) (take-shift_first b aps n (omega arith)))

-- Entry `i` is gone from the first `i + n + 1` entries, and the others keep their order.
pub take-shift :
    (aps : List Ap) (i n : ℕ)
    → i + n < length aps
    → take (i + n) (shift_down aps (suc i) n) ≡ take i aps ++ take n (drop (suc i) aps)
take-shift [] i n h = absurd (omega arith)
take-shift (a ∷ aps) zero n h =
    let e : 0 + n ≡ n = omega arith in rw e (take-shift_first a aps n (omega arith))
take-shift (a ∷ aps) (suc i) n h =
    let e : suc i + n ≡ suc (i + n) = omega arith in
    rw (e, shift_down-cons a aps i n) (ap (◌∷◌ a) (take-shift aps i n (omega arith)))

-- The last entry stays where it was, beside its copy.
get_elem?-shift_first :
    (a : Ap) (aps : List Ap) (n : ℕ)
    → n ≤ length aps
    → get_elem? (shift_down (a ∷ aps) 1 n) n ≡ get_elem? (a ∷ aps) n
unfolding shift_down
get_elem?-shift_first a aps zero h = refl
get_elem?-shift_first a [] (suc n) h = absurd (omega arith)
get_elem?-shift_first a (b ∷ aps) (suc n) h =
    rw (shift_down_first a b aps n) (get_elem?-shift_first b aps n (omega arith))

pub get_elem?-shift :
    (aps : List Ap) (i n : ℕ)
    → i + n < length aps
    → get_elem? (shift_down aps (suc i) n) (i + n) ≡ get_elem? aps (i + n)
get_elem?-shift [] i n h = absurd (omega arith)
get_elem?-shift (a ∷ aps) zero n h =
    let e : 0 + n ≡ n = omega arith in rw e (get_elem?-shift_first a aps n (omega arith))
get_elem?-shift (a ∷ aps) (suc i) n h =
    let e : suc i + n ≡ suc (i + n) = omega arith in
    rw (e, shift_down-cons a aps i n) (get_elem?-shift aps i n (omega arith))

module _ (P : Ap → Type 0) where
  All-get_elem? : (aps : List Ap) (i : ℕ) {a : Ap} → All P aps → get_elem? aps i ≡ some a → P a
  All-get_elem? [] i v h = cc
  All-get_elem? (x ∷ aps) zero {a} v h = let e : a ≡ x = ground arith in rw e v.0
  All-get_elem? (x ∷ aps) (suc i) v h = All-get_elem? aps i v.1 h

  All-set : (aps : List Ap) (i : ℕ) (a : Ap) → All P aps → P a → All P (set aps i a)
  All-set [] i a v p = tt
  All-set (x ∷ aps) zero a v p = (p, v.1)
  All-set (x ∷ aps) (suc i) a v p = (v.0, All-set aps i a v.1 p)

  All-copy_down : (aps : List Ap) (j : ℕ) → All P aps → All P (copy_down aps j)
  All-copy_down aps j v = elim (Option-cases (get_elem? aps j)) [
    | inl e ↦ rw (copy_down_past aps j e) v
    | inr (a, e) ↦ rw (copy_down_at aps j e) (All-set aps (j - 1) a v (All-get_elem? aps j v e))
  ]

  -- Moving entries makes no new ones.
  pub All-shift_down : (aps : List Ap) (j n : ℕ) → All P aps → All P (shift_down aps j n)
  unfolding shift_down
  All-shift_down aps j zero v = v
  All-shift_down aps j (suc n) v =
      All-shift_down (copy_down aps j) (j + 1) n (All-copy_down aps j v)

length-copy_down : (aps : List Ap) (j : ℕ) → length (copy_down aps j) ≡ length aps
length-copy_down aps j = elim (Option-cases (get_elem? aps j)) [
  | inl e ↦ rw (copy_down_past aps j e)
  | inr (a, e) ↦ rw (copy_down_at aps j e) (length-set aps (j - 1) a)
]

pub length-shift_down : (aps : List Ap) (j n : ℕ) → length (shift_down aps j n) ≡ length aps
unfolding shift_down
length-shift_down aps j zero = refl
length-shift_down aps j (suc n) =
    length-shift_down (copy_down aps j) (j + 1) n ∙ length-copy_down aps j
