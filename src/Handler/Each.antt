-- ===== src/Handler/Each.antt =====
-- Facts on the first entries of the array of access points, and the writes of user/src/main.c that
-- keep them.
use wifi_sniffer.Prelude.{
  ℕ, zero, suc, ◌<◌, ◌≡◌, ◌≢◌, refl, ap, ◌∙◌, ◌⊎◌, inl, inr, Option, none, some, List, [], ◌∷◌,
  length, get_elem?, set, All, ◌==◌, Bool-cases, Outcome, Outcome-cases, ok, subst, sym, arith,
}
use wifi_sniffer.Ctx.{Ap, HdrInfo, PacketInfo, Ctx, get_ap}
use wifi_sniffer.Handler.{Env, incr32, adjust_found, count_tx, count_rx, count_packet}
use wifi_sniffer.Handler.Entry.{adjust, adjust?, note_tx, note_rx}

-- The first `n` entries have `P`.
abbrev pub Each : (Ap → Type 0) → ℕ → List Ap → Type 0
Each P n aps = (j : ℕ) (a : Ap) → j < n → get_elem? aps j ≡ some a → P a

pub All-Each : (P : Ap → Type 0) (aps : List Ap) → Each P (length aps) aps → All P aps
All-Each P [] h = tt
All-Each P (a ∷ aps) h =
    (h 0 a (omega arith) refl, All-Each P aps (λ j b l e. h (suc j) b (omega arith) e))

-- An entry after a write was there before, and is the same unless it was written.
pub get_elem?-adjust :
    (f : Ap → Ap) (aps : List Ap) (i j : ℕ) {b : Ap}
    → get_elem? (adjust f aps i) j ≡ some b
    → (a : Ap) × (get_elem? aps j ≡ some a) × (((j ≡ i) × (b ≡ f a)) ⊎ ((j ≢ i) × (b ≡ a)))
unfolding adjust
get_elem?-adjust f [] i j h = absurd (ground arith)
get_elem?-adjust f (a ∷ aps) zero zero {b} h = (a, refl, inl (refl, ground arith))
get_elem?-adjust f (a ∷ aps) zero (suc j) {b} h = (b, h, inr (λ e. absurd (omega (arith, e)), refl))
get_elem?-adjust f (a ∷ aps) (suc i) zero {b} h =
    (a, refl, inr (λ e. absurd (omega (arith, e)), ground arith))
get_elem?-adjust f (a ∷ aps) (suc i) (suc j) {b} h =
    let (x, e, c) = get_elem?-adjust f aps i j h in
    (
      x,
      e,
      elim c [ inl (q, r) ↦ inl (ap suc q, r) | inr (q, r) ↦ inr (λ k. q (omega (arith, k)), r) ],
    )

pub get_elem?-adjust? :
    (f : Ap → Outcome Ap) (aps : List Ap) (i j : ℕ) {bs : List Ap} {b : Ap}
    → adjust? f aps i ≡ ok bs
    → get_elem? bs j ≡ some b
    → (a : Ap) × (get_elem? aps j ≡ some a) × (((j ≡ i) × (f a ≡ ok b)) ⊎ ((j ≢ i) × (b ≡ a)))
unfolding adjust?
get_elem?-adjust? f [] i j h k = absurd (ground arith)
get_elem?-adjust? f (a ∷ aps) zero zero {bs} {b} h k = elim (Outcome-cases (f a)) [
  | inr (x, e) ↦ absurd (ground arith)
  | inl (c, e) ↦ let q : bs ≡ c ∷ aps = ground arith in (a, refl, inl (refl, ground arith))
]
get_elem?-adjust? f (a ∷ aps) zero (suc j) {bs} {b} h k = elim (Outcome-cases (f a)) [
  | inr (x, e) ↦ absurd (ground arith)
  | inl (c, e) ↦
      let q : bs ≡ c ∷ aps = ground arith in
      (b, ap (λ xs. get_elem? xs (suc j)) (sym q) ∙ k, inr (λ e. absurd (omega (arith, e)), refl))
]
get_elem?-adjust? f (a ∷ aps) (suc i) zero {bs} {b} h k = elim (Outcome-cases (adjust? f aps i)) [
  | inr (x, e) ↦ absurd (ground arith)
  | inl (cs, e) ↦
      let q : bs ≡ a ∷ cs = ground arith in
      (a, refl, inr (λ e. absurd (omega (arith, e)), ground arith))
]
get_elem?-adjust? f (a ∷ aps) (suc i) (suc j) {bs} {b} h k =
    elim (Outcome-cases (adjust? f aps i)) [
      | inr (x, e) ↦ absurd (ground arith)
      | inl (cs, e) ↦
          let q : bs ≡ a ∷ cs = ground arith in
          let k' = ap (λ xs. get_elem? xs (suc j)) (sym q) ∙ k in
          let (x, at, c) = get_elem?-adjust? f aps i j e k' in
          (
            x,
            at,
            elim c [
              | inl (r, u) ↦ inl (ap suc r, u)
              | inr (r, u) ↦ inr (λ m. r (omega (arith, m)), u)
            ],
          )
    ]

-- Counting a packet keeps what the two counters keep.
module _ (P : Ap → Type 0) (n : ℕ) where
  pub Each-adjust :
      (f : Ap → Ap) (aps : List Ap) (i : ℕ)
      → ((a : Ap) → P a → P (f a))
      → Each P n aps
      → Each P n (adjust f aps i)
  Each-adjust f aps i k h j b l e =
      let (a, at, c) = get_elem?-adjust f aps i j e in
      elim c [
        | inl (q, r) ↦ subst P (sym r) (k a (h j a l at))
        | inr (q, r) ↦ subst P (sym r) (h j a l at)
      ]

  Each-adjust_found :
      (f : Ap → Ap) (aps : List Ap) (found : Option ℕ)
      → ((a : Ap) → P a → P (f a))
      → Each P n aps
      → Each P n (adjust_found f aps found)
  unfolding adjust_found
  Each-adjust_found f aps none k h = h
  Each-adjust_found f aps (some i) k h = Each-adjust f aps i k h

  Each-count_tx :
      (env : Env) (info : HdrInfo) (c : Ctx)
      → ((a : Ap) → P a → P (note_tx env info a))
      → Each P n c.aps
      → Each P n (count_tx env info c).aps
  unfolding count_tx
  Each-count_tx env info c k h = elim (Bool-cases (info.fromds == 0)) [
    | inl e ↦ rw e h
    | inr e ↦ rw e (Each-adjust_found (note_tx env info) c.aps (get_ap c info.src_mac) k h)
  ]

  Each-count_rx :
      (info : HdrInfo) (c : Ctx)
      → ((a : Ap) → P a → P (note_rx info a))
      → Each P n c.aps
      → Each P n (count_rx info c).aps
  unfolding count_rx
  Each-count_rx info c k h = elim (Bool-cases (info.tods == 0)) [
    | inl e ↦ rw e h
    | inr e ↦ rw e (Each-adjust_found (note_rx info) c.aps (get_ap c info.dst_mac) k h)
  ]

  pub count_packet-Each :
      (env : Env) (c : Ctx) (p : PacketInfo) {d : Ctx}
      → ((a : Ap) → P a → P (note_tx env p.hdr a))
      → ((a : Ap) → P a → P (note_rx p.hdr a))
      → Each P n c.aps
      → count_packet env c p ≡ ok d
      → Each P n d.aps
  unfolding count_packet
  count_packet-Each env c p {d} tx rx h e =
      let stored = record c {
        packet_buf = set c.packet_buf c.packet_buf_index p;
        packets = incr32 c.packets;
      } in
      let sent = count_tx env p.hdr stored in
      let q : d ≡ count_rx p.hdr sent = ground arith in
      subst (λ x. Each P n x.aps) (sym q)
        (Each-count_rx p.hdr sent rx (Each-count_tx env p.hdr stored tx h))
