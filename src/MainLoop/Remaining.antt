-- ===== src/MainLoop/Remaining.antt =====
-- The removal of silent access points (user/src/main.c, `main`) as a change to the map from addresses to
-- entries and to the order of the addresses.
use wifi_sniffer.Prelude.{
  ℕ, zero, suc, ◌≡◌, refl, sym, ap, ◌∙◌, Bool, true, false, if◌then◌else◌, Option, none, some, List,
  [], ◌∷◌, take, inl, inr, same_bytes, same_bytes-eq, same_bytes_refl, All, Bool-cases, subst,
  fun_ext, arith,
}
use wifi_sniffer.Ctx.{Ap, Ctx}
use wifi_sniffer.Ctx.Invariant.{IsValid, macs, Absent, Unique}
use wifi_sniffer.Handler.Table.{Table, entry, lookup}
use wifi_sniffer.Handler.Table.Colours.{order}
use wifi_sniffer.Handler.Table.Counts.{apart}
use wifi_sniffer.MainLoop.{expired, prune}
use wifi_sniffer.MainLoop.Invariant.{addresses, macs-take}
use wifi_sniffer.MainLoop.Prune.{unexpired, prune_refines}

-- An entry, unless it has expired.
abbrev pub unless_expired : ℕ → Option Ap → Option Ap
unless_expired now none = none
unless_expired now (some a) = if expired now a then none else some a

-- The first entry with an address.
first : List Ap → List ℕ → Option Ap
first [] m = none
first (a ∷ aps) m = if same_bytes a.mac m then some a else first aps m

entry-first : (aps : List Ap) (n : ℕ) (m : List ℕ) → entry aps n m ≡ first (take n aps) m
unfolding entry first
entry-first [] zero m = refl
entry-first [] (suc n) m = refl
entry-first (a ∷ aps) zero m = refl
entry-first (a ∷ aps) (suc n) m = rw (entry-first aps n m) refl

first-Absent :
    (aps : List Ap) (n now : ℕ) (m : List ℕ)
    → Absent m (macs aps n)
    → first (unexpired now (take n aps)) m ≡ none
unfolding first unexpired
first-Absent [] zero now m h = refl
first-Absent [] (suc n) now m h = refl
first-Absent (a ∷ aps) zero now m h = refl
first-Absent (a ∷ aps) (suc n) now m h = ground (arith, first-Absent aps n now m h.1)

first-unexpired :
    (aps : List Ap) (n now : ℕ) (m : List ℕ)
    → Unique (macs aps n)
    → first (unexpired now (take n aps)) m ≡ unless_expired now (entry aps n m)
unfolding first unexpired entry
first-unexpired [] zero now m u = refl
first-unexpired [] (suc n) now m u = refl
first-unexpired (a ∷ aps) zero now m u = refl
first-unexpired (a ∷ aps) (suc n) now m u = elim (Bool-cases (same_bytes a.mac m)) [
  | inr e ↦ ground (arith, first-unexpired aps n now m u.1)
  | inl e ↦ elim (Bool-cases (expired now a)) [
    | inr x ↦ rw (e, x, first, e) refl
    | inl x ↦
        let gone =
          ap (first (unexpired now (take n aps))) (sym (same_bytes-eq a.mac m e))
          ∙ first-Absent aps n now a.mac u.0 in
        rw (e, x) gone
  ]
]

pub lookup-prune :
    (now : ℕ) (c : Ctx) (m : List ℕ)
    → IsValid c
    → lookup (prune now c) m ≡ unless_expired now (lookup c m)
lookup-prune now c m v =
    let d = prune now c in
    entry-first d.aps d.aps_count m
    ∙ ap (λ xs. first xs m) (prune_refines now c v)
    ∙ first-unexpired c.aps c.aps_count now m v.aps_unique

-- Whether there is an entry under an address.
abbrev pub is_some : Option Ap → Bool
is_some none = false
is_some (some a) = true

-- The addresses, in their order, that are still in a map.
unfoldable pub staying : Table → List (List ℕ) → List (List ℕ)
staying t [] = []
staying t (m ∷ ms) = if is_some (t m) then m ∷ staying t ms else staying t ms

staying-same :
    (t u : Table) (ms : List (List ℕ)) → All (λ m. t m ≡ u m) ms → staying t ms ≡ staying u ms
unfolding staying
staying-same t u [] h = refl
staying-same t u (m ∷ ms) h = rw (h.0, staying-same t u ms h.1) refl

first-rest :
    (a : Ap) (aps : List Ap) (now : ℕ) (ms : List (List ℕ))
    → Absent a.mac ms
    → All (λ m. unless_expired now (first (a ∷ aps) m) ≡ unless_expired now (first aps m)) ms
unfolding first
first-rest a aps now [] h = tt
first-rest a aps now (m ∷ ms) h =
    let other = apart m a.mac m h.0 (same_bytes_refl m) in
    (ground (arith, other), first-rest a aps now ms h.1)

addresses-unexpired :
    (now : ℕ) (aps : List Ap)
    → Unique (addresses aps)
    → addresses (unexpired now aps)
      ≡ staying (λ m. unless_expired now (first aps m)) (addresses aps)
unfolding unexpired staying first
addresses-unexpired now [] u = refl
addresses-unexpired now (a ∷ aps) u =
    let self = same_bytes_refl a.mac in
    let rest = addresses-unexpired now aps u.1 in
    let same =
      staying-same (λ m. unless_expired now (first (a ∷ aps) m))
        (λ m. unless_expired now (first aps m)) (addresses aps)
        (first-rest a aps now (addresses aps) u.0) in
    elim (Bool-cases (expired now a)) [
      | inl e ↦ rw (e, self, e) (rest ∙ sym same)
      | inr e ↦ rw (e, self, e) (ap (◌∷◌ a.mac) (rest ∙ sym same))
    ]

pub order-prune :
    (now : ℕ) (c : Ctx) → IsValid c → order (prune now c) ≡ staying (lookup (prune now c)) (order c)
order-prune now c v =
    let d = prune now c in
    let live = take c.aps_count c.aps in
    let kept : (m : List ℕ) → unless_expired now (first live m) ≡ lookup d m = λ m.
      ap (unless_expired now) (sym (entry-first c.aps c.aps_count m))
      ∙ sym (lookup-prune now c m v) in
    macs-take d.aps d.aps_count
    ∙ ap addresses (prune_refines now c v)
    ∙ addresses-unexpired now live (subst Unique (macs-take c.aps c.aps_count) v.aps_unique)
    ∙ ap (λ t. staying t (addresses live)) (fun_ext kept)
    ∙ ap (staying (lookup d)) (sym (macs-take c.aps c.aps_count))
