-- ===== src/FrameTypes/Names.antt =====
-- The printed names of frames (user/src/ft_parser.c) can be told apart.
use wifi_sniffer.Prelude.{
  ℕ, zero, suc, ◌≡◌, refl, ◌⊎◌, inl, inr, Bool, true, false, ◌&&◌, ◌==◌, String, same_text, Option,
  none, some, Option-cases, Bool-cases, List, [], ◌∷◌, if◌then◌else◌, arith,
}
use wifi_sniffer.FrameTypes.{
  select, label_of, management_types, control_types, data_types, m_frame_name, c_frame_name,
  d_frame_name, m_frame_to_string, c_frame_to_string, d_frame_to_string, sub_frame_string,
}

-- The entry of a table with a name.
unfoldable pub value_of {ℓ} : {A : Type ℓ} → (A → String) → List (ℕ × A) → String → Option ℕ
value_of f [] s = none
value_of f ((n, a) ∷ t) s = let rest = value_of f t s in if same_text (f a) s then some n else rest

-- The type and the subtype that a name stands for: the reverse of `sub_frame_string`.
unfoldable pub frame_of_name : String → Option (ℕ × ℕ)
frame_of_name s = elim (value_of m_frame_name management_types s) [
  | some n ↦ some (0, n)
  | none ↦ elim (value_of c_frame_name control_types s) [
    | some n ↦ some (1, n)
    | none ↦ elim (value_of d_frame_name data_types s) [ some n ↦ some (2, n) | none ↦ none ]
  ]
]

-- Whether `t` and `n` is what the name of `n` is read as, for every `n` of a table.
unfoldable names_back {ℓ} : {A : Type ℓ} → ℕ → (A → String) → List (ℕ × A) → Bool
names_back t f [] = true
names_back t f ((n, a) ∷ rest) =
    elim (frame_of_name (f a)) [ none ↦ false | some (t', n') ↦ t' == t && n' == n ]
    && names_back t f rest

entry_back {ℓ} :
    {A : Type ℓ} (t : ℕ) (f : A → String) (k : ℕ) (b : A)
    → elim (frame_of_name (f b)) [ none ↦ false | some (t', n') ↦ t' == t && n' == k ] ≡ true
    → frame_of_name (f b) ≡ some (t, k)
entry_back t f k b h = elim (Option-cases (frame_of_name (f b))) [
  | inl e ↦ absurd (ground arith)
  | inr ((t', n'), e) ↦ ground arith
]

names_back_sound {ℓ} :
    {A : Type ℓ} (t : ℕ) (f : A → String) (tbl : List (ℕ × A)) (n : ℕ) {a : A}
    → names_back t f tbl ≡ true
    → select tbl n ≡ some a
    → frame_of_name (f a) ≡ some (t, n)
unfolding names_back select
names_back_sound t f [] n h g = cc
names_back_sound t f ((k, b) ∷ tbl) n {a} h g = elim (Bool-cases (k == n)) [
  | inl e ↦
      let same : b ≡ a = ground arith in
      let index : k ≡ n = ground arith in rw (← same, ← index) (entry_back t f k b (ground arith))
  | inr e ↦ names_back_sound t f tbl n (ground arith) (ground arith)
]

management_back : names_back 0 m_frame_name management_types ≡ true
unfolding names_back frame_of_name value_of same_text m_frame_name c_frame_name d_frame_name
management_back = refl

control_back : names_back 1 c_frame_name control_types ≡ true
unfolding names_back frame_of_name value_of same_text m_frame_name c_frame_name d_frame_name
control_back = refl

data_back : names_back 2 d_frame_name data_types ≡ true
unfolding names_back frame_of_name value_of same_text m_frame_name c_frame_name d_frame_name
data_back = refl

unknown_back : frame_of_name "UNKNOWN" ≡ none
unfolding frame_of_name value_of same_text m_frame_name c_frame_name d_frame_name
unknown_back = refl

-- A label, and what it is read as.
label_back {ℓ} :
    {A : Type ℓ} (t : ℕ) (f : A → String) (tbl : List (ℕ × A)) (n : ℕ)
    → names_back t f tbl ≡ true
    → let s = label_of f (select tbl n) in
      ((s ≡ "UNKNOWN") × (frame_of_name s ≡ none)) ⊎ (frame_of_name s ≡ some (t, n))
label_back t f tbl n h = elim (Option-cases (select tbl n)) [
  | inl e ↦ rw e (inl (refl, unknown_back))
  | inr (a, e) ↦ rw e (inr (names_back_sound t f tbl n h e))
]

-- From the text that is printed for a frame its type and subtype can be read back, unless it is
-- `UNKNOWN`: no two kinds of frames have the same name, and no name is `UNKNOWN`.
pub frame_of_name-sub_frame_string :
    (t st : ℕ)
    → ((sub_frame_string t st ≡ "UNKNOWN") × (frame_of_name (sub_frame_string t st) ≡ none))
      ⊎ (frame_of_name (sub_frame_string t st) ≡ some (t, st))
unfolding sub_frame_string m_frame_to_string c_frame_to_string d_frame_to_string select
frame_of_name-sub_frame_string zero st =
    label_back 0 m_frame_name management_types st management_back
frame_of_name-sub_frame_string (suc zero) st =
    label_back 1 c_frame_name control_types st control_back
frame_of_name-sub_frame_string (suc (suc zero)) st =
    label_back 2 d_frame_name data_types st data_back
frame_of_name-sub_frame_string (suc (suc (suc t))) st =
    let e : sub_frame_string (suc (suc (suc t))) st ≡ "UNKNOWN" = ground arith in
    rw e (inl (refl, unknown_back))
