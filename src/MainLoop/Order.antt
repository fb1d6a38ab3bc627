-- ===== src/MainLoop/Order.antt =====
-- The order of the access points and the scroll position (user/src/main.c, `main`), as the keys and the
-- removals change them.
use wifi_sniffer.Prelude.{
  ℕ, zero, suc, ◌+◌, ◌-◌, ◌%◌, ◌≤◌, ◌≡◌, refl, sym, ap, ◌∙◌, ◌==◌, leb, if◌then◌else◌, some, ℤ, pos,
  negsuc, inl, inr, arith,
}
use wifi_sniffer.Ctx.{Ctx}
use wifi_sniffer.MainLoop.{
  Loop, below, last_page, remove_ap, prune_loop, prune, context_key, handle_key,
}
use wifi_sniffer.MainLoop.Prune.{Bounded, remove_ap-Bounded, aps_count-remove_ap, round}

-- The scroll position after a key, with `count` access points in a window of `rows` rows.
abbrev pub key_scroll : ℤ → ℤ → ℕ → ℕ → ℕ
key_scroll rows (negsuc e) count s = s
key_scroll rows (pos c) count s =
    if c == b'k'
    then s - 1
    else if c == b'j'
    then (if below rows s count then (s + 1) % 256 else s)
    else if c == b'K'
    then 0
    else if c == b'J'
    then last_page rows count % 256
    else s

-- The scroll position after `k` of `n` access points were removed: it stays in the list, or as far
-- behind it as it was.
unfoldable pub settle : ℕ → ℕ → ℕ → ℕ
settle zero n s = s
settle (suc k) n s = settle k (n - 1) (if leb n s then (s + 255) % 256 else s)

pub handle_key-scroll :
    (rows k : ℤ) (l : Loop) {m : Loop}
    → handle_key rows k l ≡ some m
    → m.sniffer.ctx.scroll ≡ key_scroll rows k l.sniffer.ctx.aps_count l.sniffer.ctx.scroll
unfolding handle_key context_key
handle_key-scroll rows (negsuc e) l h = ground arith
handle_key-scroll rows (pos k) l h = ground arith

prune_loop-count :
    (fuel now : ℕ) (c : Ctx) (i : ℕ) → Bounded c → (prune_loop fuel now c i).aps_count ≤ c.aps_count
unfolding prune_loop
prune_loop-count zero now c i b = omega arith
prune_loop-count (suc fuel) now c i b = elim (round fuel now c i b) [
  | inl (past, e) ↦ rw e (omega arith)
  | inr (a, lt, at, inr (x, e)) ↦ rw e (prune_loop-count fuel now c (i + 1) b)
  | inr (a, lt, at, inl (x, e)) ↦
      let n = aps_count-remove_ap c i lt in
      let less = prune_loop-count fuel now (remove_ap c i) i (remove_ap-Bounded c i b) in
      rw e (omega (arith, n, less))
]

remove_ap-scroll :
    (c : Ctx) (i : ℕ)
    → (remove_ap c i).scroll
      ≡ (if leb c.aps_count c.scroll then (c.scroll + 255) % 256 else c.scroll)
unfolding remove_ap
remove_ap-scroll c i = refl

settle-step :
    (k n s : ℕ) {n' s' : ℕ}
    → n' ≡ n - 1
    → s' ≡ (if leb n s then (s + 255) % 256 else s)
    → settle (suc k) n s ≡ settle k n' s'
unfolding settle
settle-step k n s e f = rw (e, f) refl

prune_loop-scroll :
    (fuel now : ℕ) (c : Ctx) (i : ℕ)
    → Bounded c
    → (prune_loop fuel now c i).scroll
      ≡ settle (c.aps_count - (prune_loop fuel now c i).aps_count) c.aps_count c.scroll
unfolding prune_loop settle
prune_loop-scroll zero now c i b = let z : c.aps_count - c.aps_count ≡ 0 = omega arith in rw z refl
prune_loop-scroll (suc fuel) now c i b =
    let z : c.aps_count - c.aps_count ≡ 0 = omega arith in
    elim (round fuel now c i b) [
      | inl (past, e) ↦ rw (e, z) refl
      | inr (a, lt, at, inr (x, e)) ↦ rw e (prune_loop-scroll fuel now c (i + 1) b)
      | inr (a, lt, at, inl (x, e)) ↦
          let d = remove_ap c i in
          let n = aps_count-remove_ap c i lt in
          let after = remove_ap-Bounded c i b in
          let less = prune_loop-count fuel now d i after in
          let rest = prune_loop-scroll fuel now d i after in
          let one : c.aps_count - (prune_loop fuel now d i).aps_count
              ≡ suc (d.aps_count - (prune_loop fuel now d i).aps_count) =
            omega (arith, n, less, lt) in
          rw e (
            rest
            ∙ sym (
                ap (λ k. settle k c.aps_count c.scroll) one
                ∙ settle-step (d.aps_count - (prune_loop fuel now d i).aps_count) c.aps_count
                    c.scroll n (remove_ap-scroll c i)))
    ]

pub prune-scroll :
    (now : ℕ) (c : Ctx)
    → Bounded c
    → (prune now c).scroll ≡ settle (c.aps_count - (prune now c).aps_count) c.aps_count c.scroll
unfolding prune
prune-scroll now c b = prune_loop-scroll c.aps_count now c 0 b
