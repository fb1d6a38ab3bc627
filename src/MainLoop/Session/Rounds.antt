-- ===== src/MainLoop/Session/Rounds.antt =====
-- Rounds of the loop during a session run to their end and keep its invariant (user/src/main.c).
use wifi_sniffer.Prelude.{
  ℕ, zero, suc, ◌+◌, ◌≤◌, ◌≡◌, refl, sym, ap, ◌∙◌, subst, true, false, ltb, some, List, [], ◌∷◌,
  get_elem?, All, All-at, among, All-among, same_bytes, inl, inr, Bool-cases, Option-cases, ok, ℤ,
  arith,
}
use wifi_sniffer.Channel.{NlCall}
use wifi_sniffer.Ctx.{Ap, Ctx}
use wifi_sniffer.Ctx.Invariant.{macs}
use wifi_sniffer.Ctx.Lookup.{get_ap-none}
use wifi_sniffer.Handler.{Env, Sniffer, Attrs, frame_handler}
use wifi_sniffer.Handler.Each.{Each}
use wifi_sniffer.Handler.Tuned.{recorded-IsTuned}
use wifi_sniffer.Ui.{Screen}
use wifi_sniffer.Ui.Packets.{row_index}
use wifi_sniffer.Ui.Total.{NoOrphan}
use wifi_sniffer.MainLoop.{
  Loop, Input, with_ctx, expired, prune_loop, prune, handle_key, receive, iteration,
}
use wifi_sniffer.MainLoop.Invariant.{handle_key-IsValid, receive_and_hop-sniffer}
use wifi_sniffer.MainLoop.Keys.{handle_key_lem, plain-addresses, plain-ring, plain-at}
use wifi_sniffer.MainLoop.Progress.{iteration-received, frame_handler-Returns, key-Returns}
use wifi_sniffer.MainLoop.Session.{Session, Listed, InSession, IsHeard, During}
use wifi_sniffer.MainLoop.Session.Plain.{Listed-addresses, plain-InSession}
use wifi_sniffer.MainLoop.Session.Announced.{beacon-Returns, beacon-InSession}

-- Nothing expires before its time.
prune_loop_idle :
    (fuel now : ℕ) (c : Ctx) (i : ℕ)
    → Each (λ a. now ≤ a.last_seen + 30) c.aps_count c.aps
    → prune_loop fuel now c i ≡ c
unfolding prune_loop
prune_loop_idle zero now c i h = refl
prune_loop_idle (suc fuel) now c i h = elim (Option-cases (get_elem? c.aps i)) [
  | inl e ↦ rw (prune_loop, e) refl
  | inr (a, e) ↦ elim (Bool-cases (ltb i c.aps_count)) [
    | inr l ↦ rw (prune_loop, e, l) refl
    | inl l ↦
        let young = h i a (ground arith) e in
        let kept : expired now a ≡ false = ground (arith, young) in
        rw (prune_loop, e, l, kept) (prune_loop_idle fuel now c (i + 1) h)
  ]
]

prune_idle :
    (e : Session) (env : Env) (s : Sniffer)
    → InSession e s
    → During e env
    → prune env.now s.ctx ≡ s.ctx
unfolding prune
prune_idle e env s i d =
    prune_loop_idle s.ctx.aps_count env.now s.ctx 0
      λ j a l at. omega (arith, i.recent j a l at, d.ends)

pub InSession-NoOrphan : (e : Session) (s : Sniffer) → InSession e s → NoOrphan s.ctx
InSession-NoOrphan e s i j p at (t, st, gone) =
    let q =
      All-at (Listed s.ctx) s.ctx.packet_buf (row_index s.ctx.packet_buf_index j) i.listed at in
    let here = q (ground (arith, t, st)) in
    let absent =
      All-among same_bytes (macs s.ctx.aps s.ctx.aps_count) p.hdr.bssid
        (get_ap-none s.ctx p.hdr.bssid gone) in
    ground arith

message-InSession :
    (e : Session) (env : Env) (s : Sniffer) (m : Attrs)
    → InSession e s
    → During e env
    → IsHeard e m
    → (t : Sniffer) × (frame_handler env s m ≡ ok t) × InSession e t
message-InSession e env s m i d h = elim h [
  | inl p ↦
      let (t, r) = frame_handler-Returns env s m i.valid p in
      (t, r, plain-InSession e env s m i d p r)
  | inr b ↦
      let (t, r) = beacon-Returns e env s m i d b in (t, r, beacon-InSession e env s m i d b r)
]

receive-InSession :
    (e : Session) (env : Env) (s : Sniffer) (ms : List Attrs)
    → InSession e s
    → During e env
    → All (IsHeard e) ms
    → (t : Sniffer) × (receive env s ms ≡ ok t) × InSession e t
unfolding receive
receive-InSession e env s [] i d h = (s, refl, i)
receive-InSession e env s (m ∷ ms) i d h =
    let (s', r, i') = message-InSession e env s m i d h.0 in
    let (t, q, j) = receive-InSession e env s' ms i' d h.1 in (t, rw r q, j)

key-InSession :
    (e : Session) (rows k : ℤ) (l : Loop) {m : Loop}
    → InSession e l.sniffer
    → handle_key rows k l ≡ some m
    → InSession e m.sniffer
key-InSession e rows k l {m} i h =
    let c = l.sniffer.ctx in
    let d = m.sniffer.ctx in
    let (same, color, _, _) = handle_key_lem rows k l h in
    let addresses = plain-addresses c d same in
    let (ring, _) = plain-ring c d same in
    let count : d.aps_count ≡ c.aps_count = ap (λ x. x.aps_count) same in
    record {
      valid = handle_key-IsValid rows k l i.valid h;
      tuned = λ j a small at.
          let (b, there, q) = plain-at d c (sym same) j at in
          recorded-IsTuned e.freqs b a (ap (λ x. x.channel_freqs) (sym q))
            (ap (λ x. x.freq_num) (sym q)) (i.tuned j b small there);
      recent = λ j a small at.
          let (b, there, q) = plain-at d c (sym same) j at in
          let old = i.recent j b (omega (arith, count, small)) there in
          omega (arith, old, ap (λ (x : Ap). x.last_seen) q);
      known = subst (All (λ x. among same_bytes e.addresses x ≡ true)) (sym addresses) i.known;
      listed =
          Listed-addresses c d d.packet_buf addresses (subst (All (Listed c)) (sym ring) i.listed);
      color = omega (arith, color, i.color);
    }

-- The time and the messages of a round during a session.
pub record InRound (e : Session) (inp : Input) : Type 0 where
  pub during : During e inp.env
  pub heard : All (IsHeard e) inp.messages

pub iteration-InSession :
    (e : Session) (inp : Input) (l m : Loop)
    → InSession e l.sniffer
    → l.socket ≡ true
    → InRound e inp
    → handle_key inp.rows inp.key l ≡ some m
    → (r : Screen × Loop × List NlCall) × (iteration inp l ≡ ok (some r)) × InSession e r.1.sniffer
iteration-InSession e inp l m i k n h =
    let j = key-InSession e inp.rows inp.key l i h in
    let idle = prune_idle e inp.env m.sniffer j n.during in
    let pruned = with_ctx m (prune inp.env.now m.sniffer.ctx) in
    let start : InSession e pruned.sniffer =
      subst (λ c. InSession e (record m.sniffer { ctx = c })) (sym idle) j in
    let (t, q, after) =
      receive-InSession e inp.env pruned.sniffer inp.messages start n.during n.heard in
    let (r, run) = key-Returns inp l i.valid (InSession-NoOrphan e l.sniffer i) k h (t, q) in
    let (x, got, same) = iteration-received inp l h run in
    let kept = elim (receive_and_hop-sniffer inp pruned got) as (λ _. InSession e x.0.sniffer) [
      | inl u ↦ subst (InSession e) (sym u) start
      | inr (t', q', u) ↦ let one : t ≡ t' = ground arith in subst (InSession e) (one ∙ sym u) after
    ] in
    (r, run, rw same kept)
