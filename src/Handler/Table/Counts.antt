-- ===== src/Handler/Table/Counts.antt =====
-- Writes through a pointer that `get_ap` gives, and the counters of a frame (user/src/main.c), as changes
-- to the map of access points.
use wifi_sniffer.Prelude.{
  ℕ, zero, suc, ◌+◌, ◌≡◌, refl, sym, ap, ◌∙◌, true, false, ◌==◌, none, some, List, [], ◌∷◌,
  get_elem?, inl, inr, same_bytes, same_bytes-eq, same_bytes_refl, Bool-cases, Option-cases, ok,
  set, arith, fun_ext,
}
use wifi_sniffer.Ctx.{Ap, HdrInfo, PacketInfo, Ctx, find_ap, get_ap}
use wifi_sniffer.Handler.{Env, adjust_found, count_tx, count_rx, count_packet}
use wifi_sniffer.Handler.Entry.{incr32, adjust, note_tx, note_rx}
use wifi_sniffer.Handler.Table.{
  entry, Table, amend, lookup, sent, taken, tx_table, rx_table, counted,
}

pub apart :
    (x y z : List ℕ) → same_bytes x y ≡ false → same_bytes x z ≡ true → same_bytes y z ≡ false
apart x y z h k = elim (Bool-cases (same_bytes y z)) [
  | inr e ↦ e
  | inl e ↦
      let same : same_bytes x y ≡ true =
        ap (λ w. same_bytes w y) (same_bytes-eq x z k ∙ sym (same_bytes-eq y z e))
        ∙ same_bytes_refl y in
      absurd (ground (arith, same))
]

-- A write to the entry that is found.
pub entry-adjust :
    (f : Ap → Ap) (aps : List Ap) (n : ℕ) (mac m : List ℕ)
    → ((a : Ap) → a.mac ≡ mac → (f a).mac ≡ mac)
    → entry (adjust_found f aps (find_ap aps n mac)) n m ≡ amend f mac (entry aps n) m
unfolding entry adjust_found adjust find_ap
entry-adjust f [] n mac m k = ground arith
entry-adjust f (a ∷ aps) zero mac m k = ground arith
entry-adjust f (a ∷ aps) (suc n) mac m k =
    let rest = entry-adjust f aps n mac m k in
    elim (Bool-cases (same_bytes a.mac mac)) [
      | inl e ↦
          let same = same_bytes-eq a.mac mac e in
          let here = ap (λ x. same_bytes x m) same in
          let there = ap (λ x. same_bytes x m) (k a same) in
          elim (Bool-cases (same_bytes mac m)) [
            | inl q ↦ rw (e, adjust, there, here, q) refl
            | inr q ↦ rw (e, adjust, there, here, q) refl
          ]
      | inr e ↦ elim (Option-cases (find_ap aps n mac)) [
        | inl g ↦
            let after = sym (ap (λ o. entry (adjust_found f aps o) n m) g) ∙ rest in
            elim (Bool-cases (same_bytes a.mac m)) [
              | inl q ↦ rw (e, g, q, apart a.mac mac m e q) refl
              | inr q ↦ rw (e, g, q) after
            ]
        | inr (i, g) ↦
            let after = sym (ap (λ o. entry (adjust_found f aps o) n m) g) ∙ rest in
            let step : i + 1 ≡ suc i = omega arith in
            elim (Bool-cases (same_bytes a.mac m)) [
              | inl q ↦ rw (e, g, step, q, apart a.mac mac m e q) refl
              | inr q ↦ rw (e, g, step, q) after
            ]
      ]
    ]

-- The entry is the one at the index that `get_ap` gives.
pub entry-found :
    (aps : List Ap) (n : ℕ) (mac : List ℕ) {i : ℕ}
    → find_ap aps n mac ≡ some i
    → entry aps n mac ≡ get_elem? aps i
unfolding entry find_ap
entry-found [] n mac h = absurd (ground arith)
entry-found (a ∷ aps) zero mac h = absurd (ground arith)
entry-found (a ∷ aps) (suc n) mac {i} h = elim (Bool-cases (same_bytes a.mac mac)) [
  | inl e ↦ let z : i ≡ 0 = ground arith in rw (e, z)
  | inr e ↦ elim (Option-cases (find_ap aps n mac)) [
    | inl g ↦ absurd (ground arith)
    | inr (j, g) ↦ let z : i ≡ suc j = ground arith in rw (e, z) (entry-found aps n mac g)
  ]
]

pub entry_none :
    (aps : List Ap) (n : ℕ) (mac : List ℕ) → find_ap aps n mac ≡ none → entry aps n mac ≡ none
unfolding entry find_ap
entry_none [] n mac h = refl
entry_none (a ∷ aps) zero mac h = refl
entry_none (a ∷ aps) (suc n) mac h = elim (Option-cases (find_ap aps n mac)) [
  | inl g ↦ ground (arith, entry_none aps n mac g)
  | inr (j, g) ↦ absurd (ground arith)
]

-- The map holds the entries at the indices that `get_ap` gives.
lookup-get_ap :
    (c : Ctx) (m : List ℕ)
    → lookup c m ≡ elim (get_ap c m) [ none ↦ none | some i ↦ get_elem? c.aps i ]
unfolding get_ap
lookup-get_ap c m = elim (Option-cases (find_ap c.aps c.aps_count m)) [
  | inl g ↦ rw g (entry_none c.aps c.aps_count m g)
  | inr (i, g) ↦ rw g (entry-found c.aps c.aps_count m g)
]

note_tx-sent :
    (env : Env) (info : HdrInfo) (a : Ap) → note_tx env info a ≡ sent env.now info.retry a
unfolding note_tx
note_tx-sent env info a = elim (Bool-cases (info.retry == 0)) [
  | inl e ↦ rw e refl
  | inr e ↦ rw e refl
]

note_rx-taken : (info : HdrInfo) (a : Ap) → note_rx info a ≡ taken info.retry a
unfolding note_rx
note_rx-taken info a = elim (Bool-cases (info.retry == 0)) [ inl e ↦ rw e refl | inr e ↦ rw e refl ]

amend_same :
    (f g : Ap → Ap) (mac m : List ℕ) (t : Table)
    → ((a : Ap) → f a ≡ g a)
    → amend f mac t m ≡ amend g mac t m
amend_same f g mac m t k = ap (λ h. amend h mac t m) (fun_ext k)

lookup-count_tx :
    (env : Env) (info : HdrInfo) (c : Ctx) (m : List ℕ)
    → lookup (count_tx env info c) m ≡ tx_table env info (lookup c) m
unfolding count_tx get_ap note_tx
lookup-count_tx env info c m = elim (Bool-cases (info.fromds == 0)) [
  | inl e ↦ rw e refl
  | inr e ↦ rw e (
      entry-adjust (note_tx env info) c.aps c.aps_count info.src_mac m (λ a q. ground (arith, q))
      ∙ amend_same (note_tx env info) (sent env.now info.retry) info.src_mac m (lookup c)
          (note_tx-sent env info))
]

lookup-count_rx :
    (info : HdrInfo) (c : Ctx) (m : List ℕ)
    → lookup (count_rx info c) m ≡ rx_table info (lookup c) m
unfolding count_rx get_ap note_rx
lookup-count_rx info c m = elim (Bool-cases (info.tods == 0)) [
  | inl e ↦ rw e refl
  | inr e ↦ rw e (
      entry-adjust (note_rx info) c.aps c.aps_count info.dst_mac m (λ a q. ground (arith, q))
      ∙ amend_same (note_rx info) (taken info.retry) info.dst_mac m (lookup c) (note_rx-taken info))
]

pub lookup-count_packet :
    (env : Env) (c : Ctx) (p : PacketInfo) (m : List ℕ) {d : Ctx}
    → count_packet env c p ≡ ok d
    → lookup d m ≡ counted env p.hdr (lookup c) m
unfolding count_packet
lookup-count_packet env c p m {d} h =
    let stored = record c {
      packet_buf = set c.packet_buf c.packet_buf_index p;
      packets = incr32 c.packets;
    } in
    let sent = count_tx env p.hdr stored in
    let e : d ≡ count_rx p.hdr sent = ground arith in
    ap (λ x. lookup x m) e
    ∙ lookup-count_rx p.hdr sent m
    ∙ rw (lookup-count_tx env p.hdr stored m) refl
