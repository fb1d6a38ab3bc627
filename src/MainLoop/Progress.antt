-- ===== src/MainLoop/Progress.antt =====
-- Rounds of the loop of `main` (user/src/main.c) that run without a fault, and what they are sure to do.
use wifi_sniffer.Prelude.{
  ℕ, ◌≤◌, ◌≡◌, sym, ◌∙◌, true, false, ◌&&◌, ◌||◌, ◌==◌, some, List, [], ◌∷◌, length, All, inl, inr,
  Bool-cases, Outcome-cases, arith, ok, Returns, ◌>>=◌, ok-Returns, >>=-Returns, ℤ,
}
use wifi_sniffer.Channel.{NlCall}
use wifi_sniffer.Ctx.{HdrInfo, RadiotapInfo}
use wifi_sniffer.Ctx.Invariant.{IsValid}
use wifi_sniffer.Handler.{Env, Sniffer, Attrs, packet_of, frame_handler, handle_frame_info}
use wifi_sniffer.Handler.Buffer.{row}
use wifi_sniffer.Handler.Invariant.{frame_handler-IsValid}
use wifi_sniffer.Handler.Total.{handle_packet-Returns}
use wifi_sniffer.Ui.{Screen, draw_ui}
use wifi_sniffer.Ui.Total.{NoOrphan, draw_ui-Returns}
use wifi_sniffer.MainLoop.{
  Loop, Input, Recv, received, again, failed, with_ctx, prune, handle_key, receive, hop,
  receive_and_hop, after_key, iteration,
}
use wifi_sniffer.MainLoop.Invariant.{handle_key-IsValid, prune-IsValid}
use wifi_sniffer.MainLoop.Keys.{handle_key_lem, handle_key-socket, plain-get_ap, plain-ring}

-- A whole message with a frame that is no beacon and no probe response, and has a body of two bytes.
pub record IsPlain (m : Attrs) : Type 0 where
  pub info : HdrInfo
  pub rt : RadiotapInfo
  pub body : List ℕ
  pub header : m.header ≡ some info
  pub radiotap : m.radiotap ≡ some rt
  pub payload : m.payload ≡ some body
  pub other : (info.frame_t == 0 && (info.frame_st == 8 || info.frame_st == 5)) ≡ false
  pub long : 2 ≤ length body

pub frame_handler-Returns :
    (env : Env) (s : Sniffer) (m : Attrs)
    → IsValid s.ctx
    → IsPlain m
    → Returns (frame_handler env s m)
unfolding frame_handler handle_frame_info
frame_handler-Returns env s m v p =
    rw (p.header, p.radiotap, p.payload)
      (handle_packet-Returns env s (packet_of p.info p.rt) p.body (length p.body) v p.other p.long)

receive-Returns :
    (env : Env) (s : Sniffer) (ms : List Attrs)
    → IsValid s.ctx
    → All IsPlain ms
    → Returns (receive env s ms)
unfolding receive
receive-Returns env s [] v p = ok-Returns s
receive-Returns env s (m ∷ ms) v p =
    >>=-Returns (frame_handler env s m) _ (frame_handler-Returns env s m v p.0)
      λ s' e. receive-Returns env s' ms (frame_handler-IsValid env s m v e) p.1

recv-Returns :
    (v : Recv) (inp : Input) (l : Loop)
    → Returns {A = Loop × List NlCall}
        (elim v [ received ↦ ok (hop inp l) | again ↦ ok (hop inp l) | failed ↦ ok (l, []) ])
recv-Returns received inp l = ok-Returns _
recv-Returns again inp l = ok-Returns _
recv-Returns failed inp l = ok-Returns _

receive_and_hop-Returns :
    (inp : Input) (l : Loop)
    → l.socket ≡ true
    → Returns (receive inp.env l.sniffer inp.messages)
    → Returns (receive_and_hop inp l)
unfolding receive_and_hop
receive_and_hop-Returns inp l k (s, h) = elim (Bool-cases l.paused) [
  | inl e ↦ rw e (ok-Returns _)
  | inr e ↦ rw (e, k, h) (recv-Returns inp.recv inp (record l { sniffer = s }))
]

after_key-Returns :
    (inp : Input) (l : Loop)
    → IsValid l.sniffer.ctx
    → NoOrphan l.sniffer.ctx
    → l.socket ≡ true
    → Returns (receive inp.env (with_ctx l (prune inp.env.now l.sniffer.ctx)).sniffer inp.messages)
    → Returns (after_key inp l)
unfolding after_key
after_key-Returns inp l v o k p =
    >>=-Returns (draw_ui inp.env.now inp.rows l.channel l.sniffer.ctx) _
      (draw_ui-Returns inp.env.now inp.rows l.channel l.sniffer.ctx v o)
      λ screen e.
        >>=-Returns (receive_and_hop inp (with_ctx l (prune inp.env.now l.sniffer.ctx))) _
          (receive_and_hop-Returns inp (with_ctx l (prune inp.env.now l.sniffer.ctx)) k p)
          (λ r e'. ok-Returns _)

key-NoOrphan :
    (rows k : ℤ) (l : Loop) {m : Loop}
    → NoOrphan l.sniffer.ctx
    → handle_key rows k l ≡ some m
    → NoOrphan m.sniffer.ctx
key-NoOrphan rows k l {m} o h i p at (t, st, gone) =
    let same = (handle_key_lem rows k l h).0 in
    let c = l.sniffer.ctx in
    let d = m.sniffer.ctx in
    let (buf, index) = plain-ring c d same in
    let before : row c i ≡ some p = rw (← buf, ← index) at in
    o i p before (t, st, sym (plain-get_ap c d same p.hdr.bssid) ∙ gone)

-- A round whose key does not quit.
pub iteration-key :
    (inp : Input) (l : Loop) {m : Loop}
    → handle_key inp.rows inp.key l ≡ some m
    → iteration inp l ≡ (after_key inp m >>= λ r. ok (some r))
unfolding iteration
iteration-key inp l h = rw (h, iteration)

-- The last part of such a round, which leaves its state.
pub iteration-received :
    (inp : Input) (l : Loop) {m : Loop} {r : Screen × Loop × List NlCall}
    → handle_key inp.rows inp.key l ≡ some m
    → iteration inp l ≡ ok (some r)
    → (q : Loop × List NlCall) × (receive_and_hop inp (with_ctx m (prune inp.env.now m.sniffer.ctx))
        ≡ ok q)
      × (r.1 ≡ q.0)
unfolding after_key
iteration-received inp l {m} {r} k h =
    let pruned = with_ctx m (prune inp.env.now m.sniffer.ctx) in
    let run : (after_key inp m >>= λ r. ok (some r)) ≡ ok (some r) =
      sym (iteration-key inp l k) ∙ h in
    elim (Outcome-cases (draw_ui inp.env.now inp.rows m.channel m.sniffer.ctx)) [
      | inr (f, e) ↦ absurd (ground arith)
      | inl (screen, e) ↦ elim (Outcome-cases (receive_and_hop inp pruned)) [
        | inr (f, e') ↦ absurd (ground arith)
        | inl (q, e') ↦ (q, e', ground arith)
      ]
    ]

-- A round runs to its end if its messages are received without a fault.
pub key-Returns :
    (inp : Input) (l : Loop) {m : Loop}
    → IsValid l.sniffer.ctx
    → NoOrphan l.sniffer.ctx
    → l.socket ≡ true
    → handle_key inp.rows inp.key l ≡ some m
    → Returns (receive inp.env (with_ctx m (prune inp.env.now m.sniffer.ctx)).sniffer inp.messages)
    → (r : Screen × Loop × List NlCall) × (iteration inp l ≡ ok (some r))
key-Returns inp l {m} v o k h p =
    let (r, e) =
      after_key-Returns inp m (handle_key-IsValid inp.rows inp.key l v h)
        (key-NoOrphan inp.rows inp.key l o h) (handle_key-socket inp.rows inp.key l h ∙ k) p in
    (r, iteration-key inp l h ∙ rw e)

-- A round runs to its end without a fault, with any key but those that quit, if the context is valid,
-- every beacon in the ring of packets is of a registered access point, the socket was opened, and the
-- messages are plain ones.
pub iteration-Returns :
    (inp : Input) (l : Loop) {m : Loop}
    → IsValid l.sniffer.ctx
    → NoOrphan l.sniffer.ctx
    → l.socket ≡ true
    → All IsPlain inp.messages
    → handle_key inp.rows inp.key l ≡ some m
    → (r : Screen × Loop × List NlCall) × (iteration inp l ≡ ok (some r))
iteration-Returns inp l {m} v o k p h = key-Returns inp l v o k h (
    receive-Returns inp.env (with_ctx m (prune inp.env.now m.sniffer.ctx)).sniffer inp.messages
      (prune-IsValid inp.env.now m.sniffer.ctx (handle_key-IsValid inp.rows inp.key l v h)) p)
