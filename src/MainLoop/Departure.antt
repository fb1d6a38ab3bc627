-- ===== src/MainLoop/Departure.antt =====
-- An access point that has fallen silent leaves (user/src/main.c).
use wifi_sniffer.Prelude.{
  ℕ, ◌+◌, ◌<◌, ◌≡◌, refl, ◌∙◌, true, false, ◌&&◌, ◌||◌, ◌==◌, Option, none, some, List, [], ◌∷◌,
  length, get_elem?, All, inl, inr, ok, Outcome-cases, arith,
}
use wifi_sniffer.Channel.{NlCall}
use wifi_sniffer.Ctx.{Ap, PacketInfo, get_ap}
use wifi_sniffer.Ctx.Invariant.{IsValid, macs}
use wifi_sniffer.Handler.{
  dispatch, handle_action, advance, handle_packet, count_packet, Env, Sniffer, Attrs, packet_of,
  frame_handler, handle_frame_info,
}
use wifi_sniffer.Handler.Counters.{count_packet-addresses}
use wifi_sniffer.Ui.{Screen}
use wifi_sniffer.Ui.Total.{NoOrphan}
use wifi_sniffer.MainLoop.{
  Loop, Input, with_ctx, prune, handle_key, receive, receive_and_hop, iteration,
}
use wifi_sniffer.MainLoop.Invariant.{handle_key-IsValid}
use wifi_sniffer.MainLoop.Keys.{handle_key_lem, plain-get_ap, plain-last_seen}
use wifi_sniffer.MainLoop.Silence.{prune-get_ap}
use wifi_sniffer.Handler.Beacon.{get_ap-addresses}
use wifi_sniffer.MainLoop.Invariant.{receive_and_hop-sniffer}
use wifi_sniffer.MainLoop.Progress.{IsPlain, iteration-received, iteration-Returns}

pub dispatch-addresses :
    (env : Env) (s : Sniffer) (p : PacketInfo) (body : List ℕ) (n : ℕ) (found : Option ℕ)
    {t : Sniffer}
    → (p.hdr.frame_t == 0 && (p.hdr.frame_st == 8 || p.hdr.frame_st == 5)) ≡ false
    → dispatch env s p body n found ≡ ok t
    → (t.ctx.aps ≡ s.ctx.aps) × (t.ctx.aps_count ≡ s.ctx.aps_count)
unfolding dispatch handle_action advance
dispatch-addresses env s p body n found q h = ground arith

pub frame_handler-addresses :
    (env : Env) (s : Sniffer) (m : Attrs) {t : Sniffer}
    → IsPlain m
    → frame_handler env s m ≡ ok t
    → macs t.ctx.aps t.ctx.aps_count ≡ macs s.ctx.aps s.ctx.aps_count
unfolding frame_handler handle_frame_info handle_packet
frame_handler-addresses env s m {t} p h =
    let q = packet_of p.info p.rt in
    let run : handle_packet env s q p.body (length p.body) ≡ ok t =
      ground (arith, p.header, p.radiotap, p.payload) in
    elim (Outcome-cases (count_packet env s.ctx q)) [
      | inr (f, e) ↦ absurd (ground arith)
      | inl (c, e) ↦
          let (aps, n) =
            dispatch-addresses env (record s { ctx = c }) q p.body (length p.body)
              (get_ap s.ctx q.hdr.bssid) {t = t} p.other (ground arith) in
          rw (aps, n) (count_packet-addresses env s.ctx q e)
    ]

receive-addresses :
    (env : Env) (s : Sniffer) (ms : List Attrs) {t : Sniffer}
    → All IsPlain ms
    → receive env s ms ≡ ok t
    → macs t.ctx.aps t.ctx.aps_count ≡ macs s.ctx.aps s.ctx.aps_count
unfolding receive
receive-addresses env s [] {t} p h = let e : t ≡ s = ground arith in rw e
receive-addresses env s (m ∷ ms) {t} p h = elim (Outcome-cases (frame_handler env s m)) [
  | inr (f, e) ↦ absurd (ground arith)
  | inl (s', e) ↦
      receive-addresses env s' ms {t = t} p.1 (ground arith) ∙ frame_handler-addresses env s m p.0 e
]

receive_and_hop-addresses :
    (inp : Input) (l : Loop) {r : Loop × List NlCall}
    → All IsPlain inp.messages
    → receive_and_hop inp l ≡ ok r
    → macs r.0.sniffer.ctx.aps r.0.sniffer.ctx.aps_count
      ≡ macs l.sniffer.ctx.aps l.sniffer.ctx.aps_count
receive_and_hop-addresses inp l p h = elim (receive_and_hop-sniffer inp l h) [
  | inl q ↦ rw q refl
  | inr (s, e, q) ↦ rw q (receive-addresses inp.env l.sniffer inp.messages p e)
]

-- What a round leaves was there after the removal of silent access points.
iteration-addresses :
    (inp : Input) (l : Loop) {m : Loop} {r : Screen × Loop × List NlCall}
    → All IsPlain inp.messages
    → handle_key inp.rows inp.key l ≡ some m
    → iteration inp l ≡ ok (some r)
    → let c = prune inp.env.now m.sniffer.ctx in
      macs r.1.sniffer.ctx.aps r.1.sniffer.ctx.aps_count ≡ macs c.aps c.aps_count
iteration-addresses inp l {m} p k h =
    let (q, e, same) = iteration-received inp l k h in
    rw same (receive_and_hop-addresses inp (with_ctx m (prune inp.env.now m.sniffer.ctx)) p e)

-- A registered access point that was last heard of more than 30 seconds ago is sure to go: the next
-- round runs to its end without a fault, and after it no access point with that address is
-- registered. The conditions are those of a round that runs without a fault: any key but those that
-- quit, a valid context, no beacon of an unregistered access point in the ring of packets, a socket
-- that was opened, and plain messages.
pub silent_ap_leaves :
    (inp : Input) (l : Loop) (mac : List ℕ) (i : ℕ) (a : Ap) {m : Loop}
    → IsValid l.sniffer.ctx
    → NoOrphan l.sniffer.ctx
    → l.socket ≡ true
    → All IsPlain inp.messages
    → handle_key inp.rows inp.key l ≡ some m
    → get_ap l.sniffer.ctx mac ≡ some i
    → get_elem? l.sniffer.ctx.aps i ≡ some a
    → a.last_seen + 30 < inp.env.now
    → (r : Screen × Loop × List NlCall) × (iteration inp l ≡ ok (some r))
      × (get_ap r.1.sniffer.ctx mac ≡ none)
silent_ap_leaves inp l mac i a {m} v o k p h g at late =
    let (r, e) = iteration-Returns inp l v o k p h in
    let same = (handle_key_lem inp.rows inp.key l h).0 in
    let c = l.sniffer.ctx in
    let d = m.sniffer.ctx in
    let (b, entry, seen) = plain-last_seen c d same i at in
    let gone =
      prune-get_ap inp.env.now d mac i b (handle_key-IsValid inp.rows inp.key l v h)
        (plain-get_ap c d same mac ∙ g) entry (ground (arith, seen)) in
    (
      r,
      e,
      get_ap-addresses (prune inp.env.now d) r.1.sniffer.ctx mac (iteration-addresses inp l p h e)
          ∙ gone,
    )
