-- ===== src/Handler/Beacon.antt =====
-- A beacon makes its sender known (user/src/main.c, `handle_frame_info`).
use wifi_sniffer.Prelude.{
  ℕ, zero, suc, ◌+◌, ◌≤◌, ◌<◌, ◌≡◌, refl, sym, ap, ◌∙◌, true, if◌then◌else◌, Option, none, some,
  List, [], ◌∷◌, ◌++◌, inl, inr, length, get_elem?, set, same_bytes, same_bytes_refl, Outcome, ok,
  Outcome-cases, arith,
}
use mathlib.Core.Option
use wifi_sniffer.Ctx.{Ap, Ctx, PacketInfo, RadiotapInfo, find_ap, get_ap}
use wifi_sniffer.Ctx.Invariant.{macs, Absent}
use wifi_sniffer.Ctx.Lookup.{get_ap-none}
use wifi_sniffer.Ies.{iter_packet_ies}
use wifi_sniffer.Handler.{
  Env, Sniffer, count_packet, register_ap, find_or_register, note_mgmt, handle_announcement,
  dispatch, handle_packet,
}
use wifi_sniffer.Handler.Entry.{adjust, adjust?, name_new_ap, has_freq, add_freq, note_beacon}
use wifi_sniffer.Handler.Adjust.{adjust?-KeepsAps}
use wifi_sniffer.Handler.Counters.{note_mgmt-Keeps, count_packet-addresses}
use wifi_sniffer.Handler.Registration.{macs-adjust_next, named}

-- A lookup among addresses.
find_mac : List (List ℕ) → List ℕ → Option ℕ
find_mac [] mac = none
find_mac (m ∷ ms) mac =
    if same_bytes m mac then some 0 else Option.map (λ i. i + 1) (find_mac ms mac)

find_ap-macs :
    (aps : List Ap) (n : ℕ) (mac : List ℕ) → find_ap aps n mac ≡ find_mac (macs aps n) mac
unfolding find_ap find_mac
find_ap-macs [] n mac = refl
find_ap-macs (a ∷ aps) zero mac = refl
find_ap-macs (a ∷ aps) (suc n) mac = rw (find_ap-macs aps n mac)

find_mac_new :
    (ms : List (List ℕ)) (mac : List ℕ)
    → Absent mac ms
    → find_mac (ms ++ (mac ∷ [])) mac ≡ some (length ms)
unfolding find_mac
find_mac_new [] mac h = rw (same_bytes_refl mac)
find_mac_new (m ∷ ms) mac h = rw (h.0, find_mac_new ms mac h.1) (ap some (omega arith))

has_freq-set : (fs : List ℕ) (n f : ℕ) → n < length fs → has_freq (set fs n f) (n + 1) f ≡ true
unfolding has_freq
has_freq-set [] n f h = absurd (omega arith)
has_freq-set (x ∷ fs) zero f h = ground arith
has_freq-set (x ∷ fs) (suc n) f h =
    let e : suc n + 1 ≡ suc (n + 1) = omega arith in rw e (ground (arith, has_freq-set fs n f))

-- The frequency of the beacon is among the recorded ones, and the time and the count are new.
pub record Heard (env : Env) (rt : RadiotapInfo) (b : Ap) : Type 0 where
  pub last_seen : b.last_seen ≡ env.now
  pub freq : has_freq b.channel_freqs b.freq_num rt.channel_freq ≡ true

note_beacon-Heard :
    (env : Env) (rt : RadiotapInfo) (a : Ap) {b : Ap} → note_beacon env rt a ≡ ok b → Heard env rt b
unfolding note_beacon add_freq
note_beacon-Heard env rt a {b} h =
    ground (arith, has_freq-set a.channel_freqs a.freq_num rt.channel_freq)

pub note_mgmt-Heard :
    (env : Env) (p : PacketInfo) (body : List ℕ) (n : ℕ) (a b : Ap)
    → p.hdr.frame_st ≡ 8
    → note_mgmt env p body n a ≡ ok b
    → Heard env p.rt b
unfolding note_mgmt
note_mgmt-Heard env p body n a b st h = elim (Outcome-cases (iter_packet_ies a p body n)) [
  | inl (c, e) ↦ note_beacon-Heard env p.rt c (ground arith)
  | inr (f, e) ↦ absurd (ground arith)
]

-- The entry that an update that succeeds has changed, before and after it.
pub adjust?_self :
    (f : Ap → Outcome Ap) (aps : List Ap) (i : ℕ) {bs : List Ap}
    → adjust? f aps i ≡ ok bs
    → (a b : Ap) × (f a ≡ ok b) × (get_elem? bs i ≡ some b) × (get_elem? aps i ≡ some a)
unfolding adjust?
adjust?_self f [] i h = absurd (ground arith)
adjust?_self f (a ∷ aps) zero {bs} h = elim (Outcome-cases (f a)) [
  | inl (b, e) ↦ (a, b, e, ground arith, refl)
  | inr (x, e) ↦ absurd (ground arith)
]
adjust?_self f (a ∷ aps) (suc i) {bs} h = elim (Outcome-cases (adjust? f aps i)) [
  | inl (cs, e) ↦
      let (x, y, k, g, before) = adjust?_self f aps i e in
      let r : bs ≡ a ∷ cs = ground arith in (x, y, k, rw r g, before)
  | inr (x, e) ↦ absurd (ground arith)
]

pub length-macs : (aps : List Ap) (n : ℕ) → n ≤ length aps → length (macs aps n) ≡ n
length-macs [] n h = omega arith
length-macs (a ∷ aps) zero h = refl
length-macs (a ∷ aps) (suc n) h = omega (arith, length-macs aps n)

-- A registered access point is found where it was put.
pub register_ap-found :
    (env : Env) (s : Sniffer) (mac : List ℕ) {i : ℕ} {t : Sniffer}
    → Absent mac (macs s.ctx.aps s.ctx.aps_count)
    → register_ap env s mac ≡ ok (i, t)
    → get_ap t.ctx mac ≡ some i
unfolding register_ap get_ap
register_ap-found env s mac {i} {t} a h =
    let c = s.ctx in
    let name = name_new_ap mac s.cur_col in
    let l : c.aps_count < length c.aps = ground arith in
    let i_eq : i ≡ c.aps_count = ground arith in
    let aps_eq : t.ctx.aps ≡ adjust name c.aps c.aps_count = ground arith in
    let n_eq : t.ctx.aps_count ≡ suc c.aps_count = ground arith in
    rw (
      i_eq,
      aps_eq,
      n_eq,
      find_ap-macs (adjust name c.aps c.aps_count) (suc c.aps_count) mac,
      macs-adjust_next name mac (named mac s.cur_col) c.aps c.aps_count l,
      find_mac_new (macs c.aps c.aps_count) mac a,
      length-macs c.aps c.aps_count (omega arith),
    )

pub find_or_register-found :
    (env : Env) (s : Sniffer) (mac : List ℕ) (found : Option ℕ) {i : ℕ} {t : Sniffer}
    → found ≡ get_ap s.ctx mac
    → find_or_register env s mac found ≡ ok (i, t)
    → get_ap t.ctx mac ≡ some i
unfolding find_or_register
find_or_register-found env s mac none g h =
    register_ap-found env s mac (get_ap-none s.ctx mac (sym g)) h
find_or_register-found env s mac (some j) g h = ground arith

-- The access point with the address `mac` is registered, and was heard of just now.
pub record Known (env : Env) (rt : RadiotapInfo) (c : Ctx) (mac : List ℕ) : Type 0 where
  pub index : ℕ
  pub ap : Ap
  pub found : get_ap c mac ≡ some index
  pub entry : get_elem? c.aps index ≡ some ap
  pub heard : Heard env rt ap

pub get_ap-addresses :
    (c d : Ctx) (mac : List ℕ)
    → macs d.aps d.aps_count ≡ macs c.aps c.aps_count
    → get_ap d mac ≡ get_ap c mac
unfolding get_ap
get_ap-addresses c d mac e =
    find_ap-macs d.aps d.aps_count mac
    ∙ ap (λ ms. find_mac ms mac) e
    ∙ sym (find_ap-macs c.aps c.aps_count mac)

announcement-Known :
    (env : Env) (s : Sniffer) (p : PacketInfo) (body : List ℕ) (n : ℕ) (found : Option ℕ)
    {t : Sniffer}
    → found ≡ get_ap s.ctx p.hdr.bssid
    → p.hdr.frame_st ≡ 8
    → handle_announcement env s p body n found ≡ ok t
    → Known env p.rt t.ctx p.hdr.bssid
unfolding handle_announcement
announcement-Known env s p body n found {t} g st h =
    elim (Outcome-cases (find_or_register env s p.hdr.bssid found)) [
      | inr (f, e) ↦ absurd (ground arith)
      | inl ((i, s1), e) ↦ elim (Outcome-cases (adjust? (note_mgmt env p body n) s1.ctx.aps i)) [
        | inr (f, e') ↦ absurd (ground arith)
        | inl (ys, e') ↦
            let (a, b, noted, entry, _) = adjust?_self (note_mgmt env p body n) s1.ctx.aps i e' in
            let keeps = adjust?-KeepsAps _ (note_mgmt-Keeps env p body n) s1.ctx.aps i e' in
            let d = record s1.ctx { aps = ys } in
            let t_eq : t.ctx ≡ d = ground arith in
            rw t_eq (record {
              index = i;
              ap = b;
              found =
                  get_ap-addresses s1.ctx d p.hdr.bssid (keeps.addresses s1.ctx.aps_count)
                  ∙ find_or_register-found env s p.hdr.bssid found g e;
              entry = entry;
              heard = note_mgmt-Heard env p body n a b st noted;
            })
      ]
    ]

-- After a beacon was handled without a fault, its sender is registered, also if it was unknown
-- before; its entry carries the present time, and the frequency is among its frequencies.
pub handle_packet_beacon :
    (env : Env) (s : Sniffer) (p : PacketInfo) (body : List ℕ) (n : ℕ) {t : Sniffer}
    → p.hdr.frame_t ≡ 0
    → p.hdr.frame_st ≡ 8
    → handle_packet env s p body n ≡ ok t
    → Known env p.rt t.ctx p.hdr.bssid
unfolding handle_packet dispatch
handle_packet_beacon env s p body n {t} ft st h = elim (Outcome-cases (count_packet env s.ctx p)) [
  | inr (f, e) ↦ absurd (ground arith)
  | inl (c, e) ↦
      announcement-Known env (record s { ctx = c }) p body n (get_ap s.ctx p.hdr.bssid) {t = t}
        (sym (get_ap-addresses s.ctx c p.hdr.bssid (count_packet-addresses env s.ctx p e))) st
        (ground arith)
]
