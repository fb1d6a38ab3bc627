-- ===== src/MainLoop/Quiet.antt =====
-- Rounds of the loop of `main` (user/src/main.c) in which no beacon is received.
use wifi_sniffer.Prelude.{
  ◌≡◌, Bool, false, ◌&&◌, ◌==◌, some, List, [], ◌∷◌, length, All, All-at, All-set, inl, inr, ok,
  Outcome-cases, arith, refl,
}
use wifi_sniffer.Channel.{NlCall}
use wifi_sniffer.Ctx.{PacketInfo, Ctx, zero_ctx, zero_packet}
use wifi_sniffer.Ctx.Invariant.{All-replicate}
use wifi_sniffer.Handler.{
  Env, Sniffer, Attrs, packet_of, handle_packet, handle_frame_info, frame_handler,
}
use wifi_sniffer.Handler.Buffer.{handle_packet-Stores}
use wifi_sniffer.Ui.{Screen}
use wifi_sniffer.Ui.Packets.{row_index}
use wifi_sniffer.Ui.Total.{NoOrphan}
use wifi_sniffer.MainLoop.{
  Loop, Input, with_ctx, prune, handle_key, receive, receive_and_hop, iteration,
}
use wifi_sniffer.MainLoop.Invariant.{receive_and_hop-sniffer}
use wifi_sniffer.MainLoop.Keys.{handle_key_lem, plain-ring}
use wifi_sniffer.MainLoop.Silence.{prune-ring}
use wifi_sniffer.MainLoop.Progress.{IsPlain, iteration-received}

abbrev pub is_beacon : PacketInfo → Bool
is_beacon p = p.hdr.frame_t == 0 && p.hdr.frame_st == 8

abbrev IsOther : PacketInfo → Type 0
IsOther p = is_beacon p ≡ false

-- No packet of the ring is a beacon.
abbrev pub NoBeacon : Ctx → Type 0
NoBeacon c = All IsOther c.packet_buf

-- Without a beacon there is no beacon of an unregistered access point.
pub NoBeacon-NoOrphan : (c : Ctx) → NoBeacon c → NoOrphan c
NoBeacon-NoOrphan c h i p at (t, st, gone) =
    let q = All-at IsOther c.packet_buf (row_index c.packet_buf_index i) h at in
    ground (arith, t, st, q)

pub zero_ctx-NoBeacon : NoBeacon zero_ctx
unfolding zero_ctx zero_packet
zero_ctx-NoBeacon = All-replicate IsOther 20 zero_packet refl

frame_handler-NoBeacon :
    (env : Env) (s : Sniffer) (m : Attrs) {t : Sniffer}
    → IsPlain m
    → NoBeacon s.ctx
    → frame_handler env s m ≡ ok t
    → NoBeacon t.ctx
unfolding frame_handler handle_frame_info
frame_handler-NoBeacon env s m {t} p b h =
    let q = packet_of p.info p.rt in
    let run : handle_packet env s q p.body (length p.body) ≡ ok t =
      ground (arith, p.header, p.radiotap, p.payload) in
    let st = handle_packet-Stores env s q p.body (length p.body) run in
    let other : IsOther st.stored = ground (arith, st.header, p.other) in
    rw st.ring (All-set IsOther s.ctx.packet_buf s.ctx.packet_buf_index st.stored b other)

receive-NoBeacon :
    (env : Env) (s : Sniffer) (ms : List Attrs) {t : Sniffer}
    → All IsPlain ms
    → NoBeacon s.ctx
    → receive env s ms ≡ ok t
    → NoBeacon t.ctx
unfolding receive
receive-NoBeacon env s [] {t} p b h = let e : t ≡ s = ground arith in rw e b
receive-NoBeacon env s (m ∷ ms) {t} p b h = elim (Outcome-cases (frame_handler env s m)) [
  | inr (f, e) ↦ absurd (ground arith)
  | inl (s', e) ↦
      receive-NoBeacon env s' ms {t = t} p.1 (frame_handler-NoBeacon env s m p.0 b e) (ground arith)
]

receive_and_hop-NoBeacon :
    (inp : Input) (l : Loop) {r : Loop × List NlCall}
    → All IsPlain inp.messages
    → NoBeacon l.sniffer.ctx
    → receive_and_hop inp l ≡ ok r
    → NoBeacon r.0.sniffer.ctx
receive_and_hop-NoBeacon inp l p b h = elim (receive_and_hop-sniffer inp l h) [
  | inl q ↦ rw q b
  | inr (s, e, q) ↦ rw q (receive-NoBeacon inp.env l.sniffer inp.messages p b e)
]

-- Rounds with plain messages keep the ring free of beacons.
pub iteration-NoBeacon :
    (inp : Input) (l : Loop) {m : Loop} {r : Screen × Loop × List NlCall}
    → All IsPlain inp.messages
    → NoBeacon l.sniffer.ctx
    → handle_key inp.rows inp.key l ≡ some m
    → iteration inp l ≡ ok (some r)
    → NoBeacon r.1.sniffer.ctx
iteration-NoBeacon inp l {m} p b k h =
    let (q, e, same) = iteration-received inp l k h in
    let c = m.sniffer.ctx in
    let (kept, _) = plain-ring l.sniffer.ctx c (handle_key_lem inp.rows inp.key l k).0 in
    let (pruned, _) = prune-ring inp.env.now c in
    let ring : NoBeacon (prune inp.env.now c) = rw (pruned, kept) b in
    rw same (receive_and_hop-NoBeacon inp (with_ctx m (prune inp.env.now c)) p ring e)
