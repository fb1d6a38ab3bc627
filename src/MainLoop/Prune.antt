-- ===== src/MainLoop/Prune.antt =====
-- The removal of silent access points (user/src/main.c) against its specification: the registered
-- access points that were heard of lately remain, in their order.
use wifi_sniffer.Prelude.{
  ℕ, zero, suc, ◌+◌, ◌-◌, ◌≤◌, ◌<◌, ◌≡◌, ap, ◌∙◌, some, List, [], ◌∷◌, ◌++◌, append-nil,
  append_assoc, true, false, inl, inr, ltb, if◌then◌else◌, get_elem?, get_elem?-none, ltb→lt,
  ltb_false→le, ◌⊎◌, get_elem?-take, length, length-take, take, take_all, take-take_add,
  take-take_append, take_at, drop, drop_all, drop_at, drop-take, drop-take_append, Bool-cases,
  Option-cases, arith,
}
use wifi_sniffer.Ctx.{Ap, Ctx, live_aps}
use wifi_sniffer.Ctx.Invariant.{IsValid}
use wifi_sniffer.MainLoop.{shift_down, remove_ap, expired, prune_loop, prune}
use wifi_sniffer.MainLoop.Shift.{take-shift, length-shift_down}

-- The specification: the access points that have not expired.
unfoldable pub unexpired : ℕ → List Ap → List Ap
unexpired now [] = []
unexpired now (a ∷ aps) = if expired now a then unexpired now aps else a ∷ unexpired now aps

-- What indexing relies on.
abbrev pub Bounded : Ctx → Type 0
Bounded c = c.aps_count ≤ length c.aps

pub remove_ap-Bounded : (c : Ctx) (i : ℕ) → Bounded c → Bounded (remove_ap c i)
unfolding remove_ap
remove_ap-Bounded c i h = ground (arith, length-shift_down c.aps (i + 1) (c.aps_count - (i + 1)))

pub aps_count-remove_ap :
    (c : Ctx) (i : ℕ) → i < c.aps_count → (remove_ap c i).aps_count ≡ c.aps_count - 1
unfolding remove_ap
aps_count-remove_ap c i h = ground arith

delete_at :
    (aps : List Ap) (i n count : ℕ)
    → count ≡ suc i + n
    → count ≤ length aps
    → take (i + n) (shift_down aps (i + 1) n)
      ≡ take i (take count aps) ++ drop (suc i) (take count aps)
delete_at aps i n count e h =
    let g : i + 1 ≡ suc i = omega arith in
    let split : take i (take (suc i + n) aps) ≡ take i aps =
      ap (λ k. take i (take k aps)) (omega arith) ∙ take-take_add i (suc n) aps in
    rw (e, g, take-shift aps i n (omega arith), split, drop-take (suc i) n aps)

-- A removal takes entry `i` out of the registered ones.
pub live_aps-remove_ap :
    (c : Ctx) (i : ℕ)
    → Bounded c
    → i < c.aps_count
    → live_aps (remove_ap c i) ≡ take i (live_aps c) ++ drop (suc i) (live_aps c)
unfolding remove_ap
live_aps-remove_ap c i h l =
    let n = c.aps_count - (i + 1) in
    let f : (remove_ap c i).aps_count ≡ i + n = omega (arith, aps_count-remove_ap c i l) in
    ap (λ k. take k (shift_down c.aps (i + 1) n)) f
    ∙ delete_at c.aps i n c.aps_count (omega arith) h

live_length : (c : Ctx) → Bounded c → length (live_aps c) ≡ c.aps_count
live_length c b = omega (arith, length-take c.aps_count c.aps)

-- Behind the last entry nothing is left to filter.
done :
    (now : ℕ) (c : Ctx) (i : ℕ)
    → Bounded c
    → c.aps_count ≤ i
    → live_aps c ≡ take i (live_aps c) ++ unexpired now (drop i (live_aps c))
unfolding unexpired
done now c i b l =
    let e = live_length c b in
    rw (take_all i (live_aps c) (omega arith), drop_all i (live_aps c) (omega arith), append-nil)

-- The three ways that one round can go.
abbrev pub Round : ℕ → ℕ → Ctx → ℕ → Type 0
Round fuel now c i =
    ((c.aps_count ≤ i) × (prune_loop (suc fuel) now c i ≡ c))
    ⊎ ((a : Ap) × (i < c.aps_count)
        × (get_elem? c.aps i ≡ some a)
        × (((expired now a ≡ true)
              × (prune_loop (suc fuel) now c i ≡ prune_loop fuel now (remove_ap c i) i))
            ⊎ ((expired now a ≡ false)
                × (prune_loop (suc fuel) now c i ≡ prune_loop fuel now c (i + 1)))))

pub round : (fuel now : ℕ) (c : Ctx) (i : ℕ) → Bounded c → Round fuel now c i
unfolding prune_loop
round fuel now c i b = elim (Option-cases (get_elem? c.aps i)) [
  | inl e ↦ inl (omega (arith, get_elem?-none c.aps i e), rw (e, prune_loop))
  | inr (a, e) ↦ elim (Bool-cases (ltb i c.aps_count)) [
    | inl l ↦ elim (Bool-cases (expired now a)) [
      | inl x ↦ inr (a, ltb→lt i _ l, e, inl (x, ground arith))
      | inr x ↦ inr (a, ltb→lt i _ l, e, inr (x, ground arith))
    ]
    | inr l ↦ inl (ltb_false→le i _ l, ground arith)
  ]
]

-- The loop from entry `i` on filters the entries from there on.
prune_loop-live :
    (fuel now : ℕ) (c : Ctx) (i : ℕ)
    → Bounded c
    → i ≤ c.aps_count
    → c.aps_count ≤ i + fuel
    → live_aps (prune_loop fuel now c i)
      ≡ take i (live_aps c) ++ unexpired now (drop i (live_aps c))
unfolding prune_loop unexpired
prune_loop-live zero now c i b l f = done now c i b (omega arith)
prune_loop-live (suc fuel) now c i b l f = elim (round fuel now c i b) [
  | inl (past, e) ↦ rw e (done now c i b past)
  | inr (a, lt, at, inl (x, e)) ↦
      let len = live_length c b in
      let head : drop i (live_aps c) ≡ a ∷ drop (suc i) (live_aps c) =
        drop_at i (live_aps c) (get_elem?-take c.aps_count c.aps i lt ∙ at) in
      let count = aps_count-remove_ap c i lt in
      rw e (
        prune_loop-live fuel now (remove_ap c i) i (remove_ap-Bounded c i b) (omega arith)
          (omega arith)
        ∙ rw (live_aps-remove_ap c i b lt, head, x)
            (rw (
              take-take_append i (live_aps c) (drop (suc i) (live_aps c)) (omega arith),
              drop-take_append i (live_aps c) (drop (suc i) (live_aps c)) (omega arith),
            )))
  | inr (a, lt, at, inr (x, e)) ↦
      let here : get_elem? (live_aps c) i ≡ some a = get_elem?-take c.aps_count c.aps i lt ∙ at in
      let s : i + 1 ≡ suc i = omega arith in
      rw e (
        prune_loop-live fuel now c (i + 1) b (omega arith) (omega arith)
        ∙ rw (s, take_at i (live_aps c) here, drop_at i (live_aps c) here, x)
            (append_assoc (take i (live_aps c)) (a ∷ []) _))
]

-- Whatever the number of access points in a valid context, one pass leaves exactly those that
-- were heard of in the last 30 seconds, in their order.
pub prune_refines :
    (now : ℕ) (c : Ctx) → IsValid c → live_aps (prune now c) ≡ unexpired now (live_aps c)
unfolding prune
prune_refines now c v =
    prune_loop-live c.aps_count now c 0 (omega (arith, v.aps_used, v.aps_room)) (omega arith)
      (omega arith)
