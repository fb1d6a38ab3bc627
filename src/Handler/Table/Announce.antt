-- ===== src/Handler/Table/Announce.antt =====
-- Beacons and probe responses (user/src/main.c) as changes to the map of access points.
use wifi_sniffer.Prelude.{
  ℕ, zero, suc, ◌+◌, ◌<◌, ◌≡◌, refl, sym, ap, ◌∙◌, ◌==◌, if◌then◌else◌, none, some, List, [], ◌∷◌,
  length, get_elem?, get_elem?-none, inl, inr, same_bytes, same_bytes-eq, Bool-cases, Option-cases,
  Outcome, Outcome-cases, ok, set, arith,
}
use wifi_sniffer.Ctx.{Ap, HdrInfo, PacketInfo, Ctx, find_ap, get_ap}
use wifi_sniffer.Handler.{
  Env, Sniffer, adjust_found, count_tx, count_rx, count_packet, register_ap, find_or_register,
}
use wifi_sniffer.Handler.Entry.{incr32, adjust, adjust?, note_tx, note_rx, name_new_ap}
use wifi_sniffer.Handler.Table.{Table, entry, amend, lookup, or_else, next_entry}
use wifi_sniffer.Handler.Registration.{named}
use wifi_sniffer.Ctx.Lookup.{find_ap-Found}
use wifi_sniffer.Handler.Table.Counts.{apart, entry-adjust, entry-found, entry_none}

entry_zero : (aps : List Ap) (m : List ℕ) → entry aps 0 m ≡ none
unfolding entry
entry_zero [] m = refl
entry_zero (a ∷ aps) m = refl

-- A new entry behind the registered ones.
entry-adjust_next :
    (f : Ap → Ap) (aps : List Ap) (n : ℕ) (mac m : List ℕ) {spare : Ap}
    → ((a : Ap) → (f a).mac ≡ mac)
    → get_elem? aps n ≡ some spare
    → find_ap aps n mac ≡ none
    → entry (adjust f aps n) (n + 1) m
      ≡ (if same_bytes mac m then some (f spare) else entry aps n m)
unfolding entry adjust find_ap
entry-adjust_next f [] n mac m k at g = absurd (ground arith)
entry-adjust_next f (a ∷ aps) zero mac m {spare} k at g =
    let here = ap (λ x. same_bytes x m) (k a) in
    let same : a ≡ spare = ground arith in
    let new : some (f a) ≡ some (f spare) = ap (λ x. some (f x)) same in
    rw (here, entry_zero aps m, new) refl
entry-adjust_next f (a ∷ aps) (suc n) mac m {spare} k at g =
    let step : suc n + 1 ≡ suc (n + 1) = omega arith in
    elim (Bool-cases (same_bytes a.mac mac)) [
      | inl e ↦ absurd (ground arith)
      | inr e ↦ elim (Option-cases (find_ap aps n mac)) [
        | inr (j, q) ↦ absurd (ground arith)
        | inl q ↦
            let rest = entry-adjust_next f aps n mac m k at q in
            elim (Bool-cases (same_bytes a.mac m)) [
              | inl u ↦ rw (step, u, apart a.mac mac m e u) refl
              | inr u ↦ rw (step, u) rest
            ]
      ]
    ]

adjust?-adjust :
    (h : Ap → Outcome Ap) (aps : List Ap) (i : ℕ) {bs : List Ap}
    → adjust? h aps i ≡ ok bs
    → (a b : Ap) × (h a ≡ ok b) × (get_elem? aps i ≡ some a) × (bs ≡ adjust (λ x. b) aps i)
unfolding adjust? adjust
adjust?-adjust h [] i e = absurd (ground arith)
adjust?-adjust h (a ∷ aps) zero e = elim (Outcome-cases (h a)) [
  | inl (b, q) ↦ (a, b, q, refl, ground arith)
  | inr (x, q) ↦ absurd (ground arith)
]
adjust?-adjust h (a ∷ aps) (suc i) {bs} e = elim (Outcome-cases (adjust? h aps i)) [
  | inr (x, q) ↦ absurd (ground arith)
  | inl (cs, q) ↦
      let (x, y, u, at, r) = adjust?-adjust h aps i q in
      let whole : bs ≡ a ∷ cs = ground arith in (x, y, u, at, whole ∙ ap (◌∷◌ a) r)
]

amend_all :
    (f : Ap → Ap) (mac m : List ℕ) (t : Table) {a : Ap}
    → t mac ≡ some a
    → amend f mac t m ≡ (if same_bytes mac m then some (f a) else t m)
amend_all f mac m t here = elim (Bool-cases (same_bytes mac m)) [
  | inl q ↦ let there = ap t (sym (same_bytes-eq mac m q)) ∙ here in rw (q, there) refl
  | inr q ↦ rw q refl
]

first_come :
    (t : Table) (mac m : List ℕ) (b : Ap)
    → t mac ≡ none
    → (if same_bytes mac m then some b else t m)
      ≡ (if same_bytes mac m then some (or_else (t m) b) else t m)
first_come t mac m b h = elim (Bool-cases (same_bytes mac m)) [
  | inl q ↦ let there = ap t (sym (same_bytes-eq mac m q)) ∙ h in rw (q, there) refl
  | inr q ↦ rw q refl
]

known_stays :
    (t : Table) (mac m : List ℕ) (b : Ap) {a : Ap}
    → t mac ≡ some a
    → t m ≡ (if same_bytes mac m then some (or_else (t m) b) else t m)
known_stays t mac m b h = elim (Bool-cases (same_bytes mac m)) [
  | inl q ↦ let there = ap t (sym (same_bytes-eq mac m q)) ∙ h in rw (q, there) refl
  | inr q ↦ rw q refl
]

-- A write that may fault, to the entry that is found.
pub entry-adjust? :
    (h : Ap → Outcome Ap) (aps : List Ap) (n : ℕ) (mac m : List ℕ) {i : ℕ} {bs : List Ap}
    → ((a b : Ap) → h a ≡ ok b → b.mac ≡ a.mac)
    → find_ap aps n mac ≡ some i
    → adjust? h aps i ≡ ok bs
    → (a b : Ap) × (h a ≡ ok b)
      × (entry aps n mac ≡ some a)
      × (entry bs n m ≡ (if same_bytes mac m then some b else entry aps n m))
unfolding adjust_found
entry-adjust? h aps n mac m {i} {bs} k g e =
    let (a, b, u, at, r) = adjust?-adjust h aps i e in
    let here : entry aps n mac ≡ some a = entry-found aps n mac g ∙ at in
    let named : b.mac ≡ mac =
      let f = find_ap-Found aps n mac i g in
      let same : a ≡ f.ap = ground (arith, f.at) in k a b u ∙ ap (λ x. x.mac) same ∙ f.address in
    let after : entry bs n m ≡ amend (λ x. b) mac (entry aps n) m =
      ap (λ xs. entry xs n m) r
      ∙ sym (ap (λ o. entry (adjust_found (λ x. b) aps o) n m) g)
      ∙ entry-adjust (λ x. b) aps n mac m (λ x q. named) in
    (a, b, u, here, after ∙ amend_all (λ x. b) mac m (entry aps n) here)

-- Entries behind the one that is written.
next-adjust_found :
    (f : Ap → Ap) (aps : List Ap) (n : ℕ) (mac : List ℕ)
    → get_elem? (adjust_found f aps (find_ap aps n mac)) n ≡ get_elem? aps n
unfolding adjust_found adjust find_ap
next-adjust_found f [] n mac = refl
next-adjust_found f (a ∷ aps) zero mac = refl
next-adjust_found f (a ∷ aps) (suc n) mac = elim (Bool-cases (same_bytes a.mac mac)) [
  | inl e ↦ rw (e, adjust) refl
  | inr e ↦
      let rest = next-adjust_found f aps n mac in
      elim (Option-cases (find_ap aps n mac)) [
        | inl g ↦ rw (e, g) refl
        | inr (i, g) ↦
            let step : i + 1 ≡ suc i = omega arith in
            rw (e, g, step) (sym (ap (λ o. get_elem? (adjust_found f aps o) n) g) ∙ rest)
      ]
]

next_entry-count_tx :
    (env : Env) (info : HdrInfo) (c : Ctx)
    → let d = count_tx env info c in
      (d.aps_count ≡ c.aps_count) × (get_elem? d.aps d.aps_count ≡ get_elem? c.aps c.aps_count)
unfolding count_tx get_ap
next_entry-count_tx env info c = elim (Bool-cases (info.fromds == 0)) [
  | inl e ↦ rw e (refl, refl)
  | inr e ↦ rw e (refl, next-adjust_found (note_tx env info) c.aps c.aps_count info.src_mac)
]

next_entry-count_rx :
    (info : HdrInfo) (c : Ctx)
    → let d = count_rx info c in
      (d.aps_count ≡ c.aps_count) × (get_elem? d.aps d.aps_count ≡ get_elem? c.aps c.aps_count)
unfolding count_rx get_ap
next_entry-count_rx info c = elim (Bool-cases (info.tods == 0)) [
  | inl e ↦ rw e (refl, refl)
  | inr e ↦ rw e (refl, next-adjust_found (note_rx info) c.aps c.aps_count info.dst_mac)
]

pub next_entry-count_packet :
    (env : Env) (c : Ctx) (p : PacketInfo) {d : Ctx}
    → count_packet env c p ≡ ok d
    → (d.aps_count ≡ c.aps_count) × (get_elem? d.aps d.aps_count ≡ get_elem? c.aps c.aps_count)
unfolding count_packet
next_entry-count_packet env c p {d} h =
    let stored = record c {
      packet_buf = set c.packet_buf c.packet_buf_index p;
      packets = incr32 c.packets;
    } in
    let sent = count_tx env p.hdr stored in
    let e : d ≡ count_rx p.hdr sent = ground arith in
    let (n, at) = next_entry-count_tx env p.hdr stored in
    let (n', at') = next_entry-count_rx p.hdr sent in
    (ap (λ x. x.aps_count) e ∙ n' ∙ n, ap (λ (x : Ctx). get_elem? x.aps x.aps_count) e ∙ at' ∙ at)

lookup-register_ap :
    (env : Env) (s : Sniffer) (mac : List ℕ) (m : List ℕ) {i : ℕ} {t : Sniffer}
    → find_ap s.ctx.aps s.ctx.aps_count mac ≡ none
    → register_ap env s mac ≡ ok (i, t)
    → lookup t.ctx m ≡ (
        if same_bytes mac m
        then some (name_new_ap mac s.cur_col (next_entry s.ctx))
        else lookup s.ctx m)
unfolding register_ap
lookup-register_ap env s mac m {i} {t} g h =
    let c = s.ctx in
    let name = name_new_ap mac s.cur_col in
    let room : c.aps_count < length c.aps = ground arith in
    let aps_eq : t.ctx.aps ≡ adjust name c.aps c.aps_count = ground arith in
    let n_eq : t.ctx.aps_count ≡ c.aps_count + 1 = ground arith in
    elim (Option-cases (get_elem? c.aps c.aps_count)) [
      | inl e ↦ absurd (omega (arith, get_elem?-none c.aps c.aps_count e))
      | inr (spare, e) ↦
          rw (aps_eq, n_eq, e)
            (entry-adjust_next name c.aps c.aps_count mac m (named mac s.cur_col) e g)
    ]

-- What `find_or_register` leaves: the pointer is the one of the address, which is now in the map.
pub find_or_register-lookup :
    (env : Env) (s : Sniffer) (mac : List ℕ) (m : List ℕ) {i : ℕ} {t : Sniffer}
    → find_or_register env s mac (get_ap s.ctx mac) ≡ ok (i, t)
    → lookup t.ctx m ≡ (
        if same_bytes mac m
        then some (or_else (lookup s.ctx m) (name_new_ap mac s.cur_col (next_entry s.ctx)))
        else lookup s.ctx m)
unfolding find_or_register register_ap get_ap
find_or_register-lookup env s mac m {i} {t} h =
    elim (Option-cases (find_ap s.ctx.aps s.ctx.aps_count mac)) [
      | inl g ↦
          let none_here = entry_none s.ctx.aps s.ctx.aps_count mac g in
          let reg : register_ap env s mac ≡ ok (i, t) =
            sym (ap (find_or_register env s mac) g) ∙ h in
          lookup-register_ap env s mac m g reg ∙ first_come (lookup s.ctx) mac m _ none_here
      | inr (j, g) ↦
          let f = find_ap-Found s.ctx.aps s.ctx.aps_count mac j g in
          let here = entry-found s.ctx.aps s.ctx.aps_count mac g ∙ f.at in
          let same : t ≡ s = ground arith in rw same (known_stays (lookup s.ctx) mac m _ here)
    ]
