-- ===== src/Ui/Brackets/Attributes.antt =====
-- The attributes of ncurses (`wattron`, `wattroff`) that are on while user/src/ui.c draws, and runs
-- of calls that leave them as they were.
use wifi_sniffer.Prelude.{
  ℕ, ◌≡◌, refl, sym, ap, ◌∙◌, Bool, true, false, ◌==◌, Option, none, some, List, [], ◌∷◌, ◌++◌,
  append_assoc, append-nil, if◌then◌else◌, String, arith,
}
use wifi_sniffer.Ui.Calls.{
  Attribute, bold, color_pair, Draw, move, text, number, address, name, attr_on, attr_off, border,
}

abbrev same_attribute : Attribute → Attribute → Bool
same_attribute bold bold = true
same_attribute (color_pair m) (color_pair n) = m == n
same_attribute _ _ = false

same_attribute_refl : (a : Attribute) → same_attribute a a ≡ true
same_attribute_refl bold = refl
same_attribute_refl (color_pair n) = ground arith

-- An attribute that is switched off was the last to be switched on.
abbrev close : Attribute → List Attribute → Option (List Attribute)
close a [] = none
close a (b ∷ on) = if same_attribute a b then some on else none

-- The attributes that are on after some calls, from those that are on before; `none` if one is
-- switched off out of its turn.
unfoldable pub attributes : List Draw → List Attribute → Option (List Attribute)
attributes [] on = some on
attributes (attr_on a ∷ ds) on = attributes ds (a ∷ on)
attributes (attr_off a ∷ ds) on = elim (close a on) [ none ↦ none | some on' ↦ attributes ds on' ]
attributes (move y x ∷ ds) on = attributes ds on
attributes (text s ∷ ds) on = attributes ds on
attributes (number n ∷ ds) on = attributes ds on
attributes (address m ∷ ds) on = attributes ds on
attributes (name s ∷ ds) on = attributes ds on
attributes (border ∷ ds) on = attributes ds on

-- Calls that leave the attributes as they were, whatever comes before and after.
pub record Balanced (ds : List Draw) : Type 0 where
  pub leaves :
      (rest : List Draw) (on : List Attribute) → attributes (ds ++ rest) on ≡ attributes rest on

pub Balanced-append : (xs ys : List Draw) → Balanced xs → Balanced ys → Balanced (xs ++ ys)
Balanced-append xs ys p q = record {
  leaves = λ rest on.
      ap (λ ds. attributes ds on) (append_assoc xs ys rest)
      ∙ p.leaves (ys ++ rest) on
      ∙ q.leaves rest on;
}

-- Calls between switching an attribute on and off.
pub Balanced-within :
    (a : Attribute) (ds es : List Draw)
    → Balanced ds
    → Balanced es
    → Balanced (attr_on a ∷ (ds ++ (attr_off a ∷ es)))
unfolding attributes
Balanced-within a ds es p q = record {
  leaves = λ rest on.
      ap (λ xs. attributes xs (a ∷ on)) (append_assoc ds (attr_off a ∷ es) rest)
      ∙ p.leaves (attr_off a ∷ (es ++ rest)) (a ∷ on)
      ∙ rw (same_attribute_refl a, attributes) (q.leaves rest on);
}

pub Balanced-nil : Balanced []
Balanced-nil = record { leaves = λ rest on. refl }

-- A call that switches nothing, before balanced ones.
pub Balanced-text : {s : String} {ds : List Draw} → Balanced ds → Balanced (text s ∷ ds)
unfolding attributes
Balanced-text p = record { leaves = p.leaves }

pub Balanced-name : {s : List ℕ} {ds : List Draw} → Balanced ds → Balanced (name s ∷ ds)
unfolding attributes
Balanced-name p = record { leaves = p.leaves }

pub Balanced-move : {y x : ℕ} {ds : List Draw} → Balanced ds → Balanced (move y x ∷ ds)
unfolding attributes
Balanced-move p = record { leaves = p.leaves }

pub Balanced-border : {ds : List Draw} → Balanced ds → Balanced (border ∷ ds)
unfolding attributes
Balanced-border p = record { leaves = p.leaves }

pub Balanced-marker :
    (b : Bool) (s t : String) {ds : List Draw}
    → Balanced ds
    → Balanced ((if b then text s else text t) ∷ ds)
Balanced-marker true s t p = Balanced-text p
Balanced-marker false s t p = Balanced-text p

-- What a run of calls leaves on, from nothing.
pub Balanced-attributes : {ds : List Draw} → Balanced ds → attributes ds [] ≡ some []
unfolding attributes
Balanced-attributes {ds} p = ap (λ xs. attributes xs []) (sym (append-nil ds)) ∙ p.leaves [] []
