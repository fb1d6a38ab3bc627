-- ===== src/MainLoop/Views.antt =====
-- What the keys change in the map of access points (user/src/main.c): the views of the entries.
use wifi_sniffer.Prelude.{
  ℕ, zero, suc, ◌≡◌, refl, sym, ap, ◌∙◌, false, ◌==◌, if◌then◌else◌, Option, none, some, List, [],
  ◌∷◌, ℤ, pos, negsuc, inl, inr, same_bytes, same_bytes-eq, Bool-cases, Option-cases, get_elem?,
  arith,
}
use mathlib.Core.Option
use wifi_sniffer.Ctx.{Ap, ApView, main, detail, Ctx}
use wifi_sniffer.Ctx.Invariant.{IsValid, macs, Absent, Unique}
use wifi_sniffer.Handler.Table.Colours.{order}
use wifi_sniffer.Handler.Entry.{adjust}
use wifi_sniffer.Handler.Table.{Table, entry, amend, lookup}
use wifi_sniffer.MainLoop.{Loop, set_view, set_views, context_key, handle_key}

-- The address at place `i` of the first `n`.
unfoldable selected : List Ap → ℕ → ℕ → Option (List ℕ)
selected [] n i = none
selected (a ∷ aps) zero i = none
selected (a ∷ aps) (suc n) zero = some a.mac
selected (a ∷ aps) (suc n) (suc i) = selected aps n i

-- A change to the entry that is selected, if there is one.
abbrev pub amend_at : (Ap → Ap) → Option (List ℕ) → Table → Table
amend_at f none t m = t m
amend_at f (some mac) t m = amend f mac t m

-- What a key does to the map, with the address that is selected: `l` opens the details of the selected
-- entry and `h` closes them, `L` and `H` do so for every entry, and the other keys leave the map alone.
abbrev pub on_key : ℤ → Option (List ℕ) → Table → Table
on_key (negsuc e) sel t m = t m
on_key (pos c) sel t m =
    if c == b'l'
    then amend_at (set_view detail) sel t m
    else if c == b'h'
    then amend_at (set_view main) sel t m
    else if c == b'L'
    then Option.map (set_view detail) (t m)
    else if c == b'H'
    then Option.map (set_view main) (t m)
    else t m

selected-Absent :
    (aps : List Ap) (n i : ℕ) (w : List ℕ) {x : List ℕ}
    → Absent w (macs aps n)
    → selected aps n i ≡ some x
    → same_bytes x w ≡ false
unfolding selected
selected-Absent [] n i w h e = absurd (ground arith)
selected-Absent (a ∷ aps) zero i w h e = absurd (ground arith)
selected-Absent (a ∷ aps) (suc n) zero w {x} h e =
    let same : a.mac ≡ x = ground arith in ap (λ y. same_bytes y w) (sym same) ∙ h.0
selected-Absent (a ∷ aps) (suc n) (suc i) w h e = selected-Absent aps n i w h.1 e

entry-selected :
    (v : ApView) (aps : List Ap) (n i : ℕ) (m : List ℕ)
    → Unique (macs aps n)
    → entry (adjust (set_view v) aps i) n m
      ≡ amend_at (set_view v) (selected aps n i) (entry aps n) m
unfolding entry adjust selected
entry-selected v [] n i m u = refl
entry-selected v (a ∷ aps) zero zero m u = refl
entry-selected v (a ∷ aps) zero (suc i) m u = refl
entry-selected v (a ∷ aps) (suc n) zero m u = elim (Bool-cases (same_bytes a.mac m)) [
  | inl e ↦ rw e refl
  | inr e ↦ rw e refl
]
entry-selected v (a ∷ aps) (suc n) (suc i) m u =
    let rest = entry-selected v aps n i m u.1 in
    elim (Option-cases (selected aps n i)) [
      | inl q ↦ rw q (rw (rest, q) refl)
      | inr (x, q) ↦
          let other = selected-Absent aps n i a.mac u.0 q in
          elim (Bool-cases (same_bytes a.mac m)) [
            | inr e ↦ rw (q, e) (rest ∙ rw q refl)
            | inl e ↦
                let apart = ap (same_bytes x) (sym (same_bytes-eq a.mac m e)) ∙ other in
                rw (q, e, apart) refl
          ]
    ]

entry-set_views :
    (v : ApView) (aps : List Ap) (n : ℕ) (m : List ℕ)
    → entry (set_views v aps n) n m ≡ Option.map (set_view v) (entry aps n m)
unfolding entry set_views
entry-set_views v [] n m = refl
entry-set_views v (a ∷ aps) zero m = refl
entry-set_views v (a ∷ aps) (suc n) m = elim (Bool-cases (same_bytes a.mac m)) [
  | inl e ↦ rw e refl
  | inr e ↦ rw e (entry-set_views v aps n m)
]

selected-macs : (aps : List Ap) (n i : ℕ) → selected aps n i ≡ get_elem? (macs aps n) i
unfolding selected
selected-macs [] n i = refl
selected-macs (a ∷ aps) zero i = refl
selected-macs (a ∷ aps) (suc n) zero = refl
selected-macs (a ∷ aps) (suc n) (suc i) = selected-macs aps n i

context_key-lookup :
    (rows : ℤ) (k : ℕ) (c : Ctx) (m : List ℕ)
    → IsValid c
    → lookup (context_key rows k c) m
      ≡ on_key (pos k) (selected c.aps c.aps_count c.scroll) (lookup c) m
unfolding context_key
context_key-lookup rows k c m v = ground (
  arith,
  entry-selected detail c.aps c.aps_count c.scroll m v.aps_unique,
  entry-selected main c.aps c.aps_count c.scroll m v.aps_unique,
  entry-set_views detail c.aps c.aps_count m,
  entry-set_views main c.aps c.aps_count m,
)

-- What each key that does not quit does to the map of a valid context: `l` opens the details of the
-- access point at the scroll position, if there is one, and `h` closes them; `L` and `H` do so for all
-- of them; and every other key, and no key, leaves the entry under every address as it is.
pub handle_key-lookup :
    (rows k : ℤ) (l : Loop) (mac : List ℕ) {m : Loop}
    → IsValid l.sniffer.ctx
    → handle_key rows k l ≡ some m
    → let c = l.sniffer.ctx in
      lookup m.sniffer.ctx mac ≡ on_key k (get_elem? (order c) c.scroll) (lookup c) mac
unfolding handle_key
handle_key-lookup rows (negsuc e) l mac v h = ground arith
handle_key-lookup rows (pos k) l mac v h =
    let c = l.sniffer.ctx in
    rw (← selected-macs c.aps c.aps_count c.scroll)
      (ground (arith, context_key-lookup rows k c mac v))
