-- ===== src/Handler/Table/Colours.antt =====
-- The order of the access points and the colour of the next one (user/src/main.c, `handle_frame_info` and
-- its static `cur_col`).
use wifi_sniffer.Prelude.{
  suc, length, ◌<◌, ◌++◌, [], ◌∷◌, ℕ, ◌+◌, ◌%◌, ◌≡◌, refl, sym, ap, ◌∙◌, if◌then◌else◌, Option,
  none, some, List, inl, inr, Bool-cases, Option-cases, Outcome-cases, ok, arith, fun_ext,
  same_bytes, ◌==◌,
}
use wifi_sniffer.Ctx.Invariant.{macs}
use wifi_sniffer.Handler.Adjust.{adjust?-KeepsAps}
use wifi_sniffer.Handler.Registration.{macs-adjust_next, named}
use wifi_sniffer.Ctx.{Ctx, Ap, HdrInfo, PacketInfo, find_ap, get_ap}
use wifi_sniffer.Ctx.Lookup.{find_ap-Found}
use wifi_sniffer.Handler.{
  Env, Sniffer, register_ap, find_or_register, handle_announcement, handle_action, advance,
  note_mgmt, dispatch, count_packet, handle_packet,
}
use wifi_sniffer.Handler.Entry.{adjust, adjust?, name_new_ap}
use wifi_sniffer.Handler.Table.{Table, lookup, announces, amend, sent, taken, tx_table, counted}
use wifi_sniffer.Handler.Table.Counts.{entry-found, entry_none, lookup-count_packet}
use wifi_sniffer.Handler.Beacon.{get_ap-addresses}
use wifi_sniffer.Handler.Counters.{count_packet-addresses, note_mgmt-Keeps}

-- The registered addresses, in their order.
abbrev pub order : Ctx → List (List ℕ)
order c = macs c.aps c.aps_count

-- One of two values, depending on whether there is an entry.
abbrev pub if_new {ℓ} : {A : Type ℓ} → Option Ap → A → A → A
if_new none x y = x
if_new (some a) x y = y

-- `x` when a beacon or a probe response comes from an address that is not in the map.
abbrev pub on_newcomer {ℓ} : {A : Type ℓ} → HdrInfo → Table → A → A → A
on_newcomer info t x y = if announces info then if_new (t info.bssid) x y else y

-- The next colour after a frame: it moves on with a newcomer, modulo the number of colours.
abbrev pub next_colour : Env → HdrInfo → Table → ℕ → ℕ
next_colour env info t col = on_newcomer info t ((col + 1) % env.colors) col

-- The registered addresses after a frame: a newcomer comes last.
abbrev pub next_order : HdrInfo → Table → List (List ℕ) → List (List ℕ)
next_order info t ms = on_newcomer info t (ms ++ (info.bssid ∷ [])) ms

find_or_register-cur_col :
    (env : Env) (s : Sniffer) (mac : List ℕ) {i : ℕ} {t : Sniffer}
    → find_or_register env s mac (get_ap s.ctx mac) ≡ ok (i, t)
    → t.cur_col ≡ if_new (lookup s.ctx mac) ((s.cur_col + 1) % env.colors) s.cur_col
unfolding find_or_register register_ap get_ap
find_or_register-cur_col env s mac {i} {t} h =
    let c = s.ctx in
    elim (Option-cases (find_ap c.aps c.aps_count mac)) [
      | inl g ↦
          let run : register_ap env s mac ≡ ok (i, t) =
            sym (ap (find_or_register env s mac) g) ∙ h in
          rw (entry_none c.aps c.aps_count mac g) (ground (arith, run))
      | inr (j, g) ↦
          let f = find_ap-Found c.aps c.aps_count mac j g in
          let same : t ≡ s = ground arith in
          rw (entry-found c.aps c.aps_count mac g ∙ f.at, same) refl
    ]

announcement-cur_col :
    (env : Env) (s : Sniffer) (p : PacketInfo) (body : List ℕ) (n : ℕ) {t : Sniffer}
    → handle_announcement env s p body n (get_ap s.ctx p.hdr.bssid) ≡ ok t
    → t.cur_col ≡ if_new (lookup s.ctx p.hdr.bssid) ((s.cur_col + 1) % env.colors) s.cur_col
unfolding handle_announcement advance
announcement-cur_col env s p body n {t} h =
    let bssid = p.hdr.bssid in
    elim (Outcome-cases (find_or_register env s bssid (get_ap s.ctx bssid))) [
      | inr (f, e) ↦ absurd (ground arith)
      | inl ((i, s1), e) ↦ elim (Outcome-cases (adjust? (note_mgmt env p body n) s1.ctx.aps i)) [
        | inr (f, e') ↦ absurd (ground arith)
        | inl (ys, e') ↦
            let same : t.cur_col ≡ s1.cur_col = ground arith in
            same ∙ find_or_register-cur_col env s bssid e
      ]
    ]

module _ {ℓ} {A : Type ℓ} (x y : A) where
  if_new-amend :
      (f : Ap → Ap) (mac m : List ℕ) (t : Table) → if_new (amend f mac t m) x y ≡ if_new (t m) x y
  if_new-amend f mac m t = elim (Bool-cases (same_bytes mac m)) [
    | inr e ↦ rw e refl
    | inl e ↦ elim (Option-cases (t m)) [ inl q ↦ rw (e, q) refl | inr (a, q) ↦ rw (e, q) refl ]
  ]

  if_new-tx :
      (env : Env) (info : HdrInfo) (t : Table) (m : List ℕ)
      → if_new (tx_table env info t m) x y ≡ if_new (t m) x y
  if_new-tx env info t m = elim (Bool-cases (info.fromds == 0)) [
    | inl e ↦ rw e refl
    | inr e ↦ rw e (if_new-amend (sent env.now info.retry) info.src_mac m t)
  ]

  if_new-counted :
      (env : Env) (info : HdrInfo) (t : Table) (m : List ℕ)
      → if_new (counted env info t m) x y ≡ if_new (t m) x y
  if_new-counted env info t m =
      let first = if_new-tx env info t m in
      elim (Bool-cases (info.tods == 0)) [
        | inl e ↦ rw e first
        | inr e ↦
            rw e (if_new-amend (taken info.retry) info.dst_mac m (tx_table env info t)) ∙ first
      ]

  on_newcomer-counted :
      (env : Env) (info : HdrInfo) (t : Table)
      → on_newcomer info (counted env info t) x y ≡ on_newcomer info t x y
  on_newcomer-counted env info t = elim (Bool-cases (announces info)) [
    | inr e ↦ rw e refl
    | inl e ↦ rw e (if_new-counted env info t info.bssid)
  ]

dispatch-cur_col :
    (env : Env) (s : Sniffer) (p : PacketInfo) (body : List ℕ) (n : ℕ) {t : Sniffer}
    → dispatch env s p body n (get_ap s.ctx p.hdr.bssid) ≡ ok t
    → t.cur_col ≡ next_colour env p.hdr (lookup s.ctx) s.cur_col
unfolding dispatch handle_action advance
dispatch-cur_col env s p body n {t} h = elim (Bool-cases (announces p.hdr)) [
  | inr e ↦ rw e (ground arith)
  | inl e ↦
      let run : handle_announcement env s p body n (get_ap s.ctx p.hdr.bssid) ≡ ok t =
        ground arith in
      rw e (announcement-cur_col env s p body n run)
]

find_or_register-order :
    (env : Env) (s : Sniffer) (mac : List ℕ) {i : ℕ} {t : Sniffer}
    → find_or_register env s mac (get_ap s.ctx mac) ≡ ok (i, t)
    → order t.ctx ≡ if_new (lookup s.ctx mac) (order s.ctx ++ (mac ∷ [])) (order s.ctx)
unfolding find_or_register register_ap get_ap
find_or_register-order env s mac {i} {t} h =
    let c = s.ctx in
    let name = name_new_ap mac s.cur_col in
    elim (Option-cases (find_ap c.aps c.aps_count mac)) [
      | inl g ↦
          let run : register_ap env s mac ≡ ok (i, t) =
            sym (ap (find_or_register env s mac) g) ∙ h in
          let room : c.aps_count < length c.aps = ground (arith, run) in
          let aps_eq : t.ctx.aps ≡ adjust name c.aps c.aps_count = ground (arith, run) in
          let n_eq : t.ctx.aps_count ≡ suc c.aps_count = ground (arith, run) in
          rw (aps_eq, n_eq, entry_none c.aps c.aps_count mac g)
            (macs-adjust_next name mac (named mac s.cur_col) c.aps c.aps_count room)
      | inr (j, g) ↦
          let f = find_ap-Found c.aps c.aps_count mac j g in
          let same : t ≡ s = ground arith in
          rw (entry-found c.aps c.aps_count mac g ∙ f.at, same) refl
    ]

announcement-order :
    (env : Env) (s : Sniffer) (p : PacketInfo) (body : List ℕ) (n : ℕ) {t : Sniffer}
    → handle_announcement env s p body n (get_ap s.ctx p.hdr.bssid) ≡ ok t
    → order t.ctx
      ≡ if_new (lookup s.ctx p.hdr.bssid) (order s.ctx ++ (p.hdr.bssid ∷ [])) (order s.ctx)
unfolding handle_announcement advance
announcement-order env s p body n {t} h =
    let bssid = p.hdr.bssid in
    elim (Outcome-cases (find_or_register env s bssid (get_ap s.ctx bssid))) [
      | inr (f, e) ↦ absurd (ground arith)
      | inl ((i, s1), e) ↦ elim (Outcome-cases (adjust? (note_mgmt env p body n) s1.ctx.aps i)) [
        | inr (f, e') ↦ absurd (ground arith)
        | inl (ys, e') ↦
            let keeps = adjust?-KeepsAps _ (note_mgmt-Keeps env p body n) s1.ctx.aps i e' in
            let aps_eq : t.ctx.aps ≡ ys = ground arith in
            let n_eq : t.ctx.aps_count ≡ s1.ctx.aps_count = ground arith in
            rw (aps_eq, n_eq)
              (keeps.addresses s1.ctx.aps_count ∙ find_or_register-order env s bssid e)
      ]
    ]

dispatch-order :
    (env : Env) (s : Sniffer) (p : PacketInfo) (body : List ℕ) (n : ℕ) {t : Sniffer}
    → dispatch env s p body n (get_ap s.ctx p.hdr.bssid) ≡ ok t
    → order t.ctx ≡ next_order p.hdr (lookup s.ctx) (order s.ctx)
unfolding dispatch handle_action advance
dispatch-order env s p body n {t} h = elim (Bool-cases (announces p.hdr)) [
  | inr e ↦
      let aps_eq : t.ctx.aps ≡ s.ctx.aps = ground arith in
      let n_eq : t.ctx.aps_count ≡ s.ctx.aps_count = ground arith in rw (e, aps_eq, n_eq) refl
  | inl e ↦
      let run : handle_announcement env s p body n (get_ap s.ctx p.hdr.bssid) ≡ ok t =
        ground arith in
      rw e (announcement-order env s p body n run)
]

pub handle_packet-newcomer :
    (env : Env) (s : Sniffer) (p : PacketInfo) (body : List ℕ) (n : ℕ) {t : Sniffer}
    → handle_packet env s p body n ≡ ok t
    → (t.cur_col ≡ next_colour env p.hdr (lookup s.ctx) s.cur_col)
      × (order t.ctx ≡ next_order p.hdr (lookup s.ctx) (order s.ctx))
unfolding handle_packet
handle_packet-newcomer env s p body n {t} h = elim (Outcome-cases (count_packet env s.ctx p)) [
  | inr (f, e) ↦ absurd (ground arith)
  | inl (c, e) ↦
      let bssid = p.hdr.bssid in
      let same = count_packet-addresses env s.ctx p e in
      let found = get_ap-addresses s.ctx c bssid same in
      let run : dispatch env (record s { ctx = c }) p body n (get_ap c bssid) ≡ ok t =
        rw found (ground arith) in
      let table : lookup c ≡ counted env p.hdr (lookup s.ctx) =
        fun_ext (λ m. lookup-count_packet env s.ctx p m e) in
      (
        dispatch-cur_col env (record s { ctx = c }) p body n run
            ∙ ap (λ u. next_colour env p.hdr u s.cur_col) table
            ∙ on_newcomer-counted ((s.cur_col + 1) % env.colors) s.cur_col env p.hdr (lookup s.ctx),
        dispatch-order env (record s { ctx = c }) p body n run
            ∙ ap (λ u. next_order p.hdr u (order c)) table
            ∙ ap (λ ms. next_order p.hdr (counted env p.hdr (lookup s.ctx)) ms) same
            ∙ on_newcomer-counted (order s.ctx ++ (bssid ∷ [])) (order s.ctx) env p.hdr
                (lookup s.ctx),
      )
]
