-- ===== src/MainLoop/Machine/Stays.antt =====
-- An access point that was heard of lately stays in the map, whatever else arrives (user/src/main.c).
use wifi_sniffer.Prelude.{
  ℕ, ◌+◌, ◌≤◌, ◌≡◌, refl, sym, ap, ◌∙◌, Bool, false, if◌then◌else◌, ◌==◌, Option, none, some, List,
  [], ◌∷◌, length, inl, inr, same_bytes, Bool-cases, Outcome-cases, ok, subst, arith, ◌&&◌,
  get_elem?, ℤ, pos, negsuc,
}
use mathlib.Core.Option
use wifi_sniffer.Ctx.{Ap, ApView, main, detail, HdrInfo, PacketInfo}
use wifi_sniffer.Handler.{Env, Attrs, packet_of, note_mgmt}
use wifi_sniffer.Handler.Beacon.{note_mgmt-Heard}
use wifi_sniffer.Handler.Table.{
  Table, amend, sent, taken, noted, newcomer, tx_table, counted, announces, announced,
}
use wifi_sniffer.MainLoop.{Input, expired, set_view}
use wifi_sniffer.MainLoop.Fleeting.{note_mgmt-last_seen}
use wifi_sniffer.MainLoop.Views.{amend_at, on_key}
use wifi_sniffer.Handler.Table.Packets.{note_mgmt-noted}
use wifi_sniffer.MainLoop.Machine.{Listing, FrameStep, Frames, ListRound}
use wifi_sniffer.MainLoop.Remaining.{unless_expired}

-- An entry that was heard of at `t0` or later.
abbrev pub HeardSince : ℕ → Option Ap → Type 0
HeardSince t0 o = (a : Ap) × (o ≡ some a) × (t0 ≤ a.last_seen)

amend-HeardSince :
    (f : Ap → Ap) (mac m : List ℕ) (t : Table) (t0 : ℕ)
    → ((a : Ap) → t0 ≤ a.last_seen → t0 ≤ (f a).last_seen)
    → HeardSince t0 (t m)
    → HeardSince t0 (amend f mac t m)
amend-HeardSince f mac m t t0 k (a, e, l) = elim (Bool-cases (same_bytes mac m)) [
  | inl q ↦ (f a, rw (q, e) refl, k a l)
  | inr q ↦ (a, rw q e, l)
]

counted-HeardSince :
    (env : Env) (info : HdrInfo) (t : Table) (m : List ℕ) (t0 : ℕ)
    → t0 ≤ env.now
    → HeardSince t0 (t m)
    → HeardSince t0 (counted env info t m)
counted-HeardSince env info t m t0 late h =
    let on : HeardSince t0 (tx_table env info t m) = elim (Bool-cases (info.fromds == 0)) [
      | inl e ↦ rw e h
      | inr e ↦
          rw e (amend-HeardSince (sent env.now info.retry) info.src_mac m t t0 (λ a l. late) h)
    ] in
    elim (Bool-cases (info.tods == 0)) [
      | inl e ↦ rw e on
      | inr e ↦ rw e (
          amend-HeardSince (taken info.retry) info.dst_mac m (tx_table env info t) t0 (λ a l. l) on)
    ]

note_mgmt-since :
    (env : Env) (p : PacketInfo) (body : List ℕ) (n : ℕ) (a b : Ap) (t0 : ℕ)
    → t0 ≤ env.now
    → t0 ≤ a.last_seen
    → note_mgmt env p body n a ≡ ok b
    → t0 ≤ b.last_seen
note_mgmt-since env p body n a b t0 late l h = elim (Bool-cases (p.hdr.frame_st == 8)) [
  | inl e ↦ omega (arith, (note_mgmt-Heard env p body n a b (ground arith) h).last_seen)
  | inr e ↦ let same = note_mgmt-last_seen env p body n a b e h in omega (arith, same, l)
]

FrameStep-HeardSince :
    (env : Env) (a : Attrs) (v w : Listing) (m : List ℕ) (t0 : ℕ)
    → t0 ≤ env.now
    → FrameStep env a v w
    → HeardSince t0 (v.table m)
    → HeardSince t0 (w.table m)
FrameStep-HeardSince env a v w m t0 late f h =
    let p = packet_of f.info f.rt in
    let n = length f.body in
    let (b, e, l) = counted-HeardSince env f.info v.table m t0 late h in
    let fresh = newcomer f.info.bssid v.col f.spare in
    let at : announced env p f.body n fresh (some b) m ≡ ok (w.table m) =
      ap (λ o. announced env p f.body n fresh o m) (sym e) ∙ f.step m in
    elim (Bool-cases (announces f.info && same_bytes f.info.bssid m)) [
      | inr q ↦ (b, ground (arith, at, q), l)
      | inl q ↦ elim (Outcome-cases (noted env.now p f.body n b)) [
        | inr (x, r) ↦ absurd (ground (arith, at, q, r))
        | inl (k, r) ↦ (
          k,
          ground (arith, at, q, r),
          note_mgmt-since env p f.body n b k t0 late l (note_mgmt-noted env p f.body n b ∙ r),
        )
      ]
    ]

unless_expired-HeardSince :
    (now t0 : ℕ) (o : Option Ap)
    → now ≤ t0 + 30
    → HeardSince t0 o
    → HeardSince t0 (unless_expired now o)
unless_expired-HeardSince now t0 o late (a, e, l) =
    let young : expired now a ≡ false = ground arith in (a, rw (e, unless_expired, young) refl, l)

amend_at-HeardSince :
    (v : ApView) (at : Option (List ℕ)) (t : Table) (m : List ℕ) (t0 : ℕ)
    → HeardSince t0 (t m)
    → HeardSince t0 (amend_at (set_view v) at t m)
amend_at-HeardSince v none t m t0 h = h
amend_at-HeardSince v (some mac) t m t0 h = amend-HeardSince (set_view v) mac m t t0 (λ a l. l) h

viewed-HeardSince :
    (v : ApView) (o : Option Ap) (t0 : ℕ)
    → HeardSince t0 o
    → HeardSince t0 (Option.map (set_view v) o)
viewed-HeardSince v o t0 (a, e, l) = (set_view v a, ap (Option.map (set_view v)) e, l)

on_key-HeardSince :
    (k : ℤ) (at : Option (List ℕ)) (t : Table) (m : List ℕ) (t0 : ℕ)
    → HeardSince t0 (t m)
    → HeardSince t0 (on_key k at t m)
on_key-HeardSince (negsuc e) at t m t0 h = h
on_key-HeardSince (pos c) at t m t0 h = elim (Bool-cases (c == b'l')) [
  | inl e ↦ rw e (amend_at-HeardSince detail at t m t0 h)
  | inr e ↦ elim (Bool-cases (c == b'h')) [
    | inl f ↦ rw (e, f) (amend_at-HeardSince main at t m t0 h)
    | inr f ↦ elim (Bool-cases (c == b'L')) [
      | inl g ↦ rw (e, f, g) (viewed-HeardSince detail (t m) t0 h)
      | inr g ↦ elim (Bool-cases (c == b'H')) [
        | inl k ↦ rw (e, f, g, k) (viewed-HeardSince main (t m) t0 h)
        | inr k ↦ rw (e, f, g, k) h
      ]
    ]
  ]
]

Frames-HeardSince :
    (env : Env) (ms : List Attrs) (v w : Listing) (m : List ℕ) (t0 : ℕ)
    → t0 ≤ env.now
    → Frames env ms v w
    → HeardSince t0 (v.table m)
    → HeardSince t0 (w.table m)
Frames-HeardSince env [] v w m t0 late f h = subst (λ x. HeardSince t0 (x.table m)) (sym f) h
Frames-HeardSince env (a ∷ ms) v w m t0 late (x, first, rest) h =
    Frames-HeardSince env ms x w m t0 late rest (FrameStep-HeardSince env a v x m t0 late first h)

-- A round within 30 seconds from `t0` on.
abbrev pub Within : ℕ → Input → Type 0
Within t0 inp = (t0 ≤ inp.env.now) × (inp.env.now ≤ t0 + 30)

pub ListRound-HeardSince :
    (inp : Input) (paused : Bool) (v w : Listing) (m : List ℕ) (t0 : ℕ)
    → Within t0 inp
    → ListRound inp paused v w
    → HeardSince t0 (v.table m)
    → HeardSince t0 (w.table m)
ListRound-HeardSince inp paused v w m t0 (begins, ends) r h =
    let shown : HeardSince t0 (r.shown m) =
      subst (HeardSince t0) (sym (r.views m))
        (on_key-HeardSince inp.key (get_elem? v.addresses v.scroll) v.table m t0 h) in
    let left : HeardSince t0 (r.left.table m) =
      subst (HeardSince t0) (sym (r.kept m))
        (unless_expired-HeardSince inp.env.now t0 (r.shown m) ends shown) in
    Frames-HeardSince inp.env (if paused then [] else inp.messages) r.left w m t0 begins r.frames
      left
