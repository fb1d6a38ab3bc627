-- ===== src/MainLoop/Scroll.antt =====
-- The scroll position of the list of access points (user/src/main.c, `main`).
use wifi_sniffer.Prelude.{
  ℕ, zero, suc, ◌+◌, ◌≤◌, ◌<◌, ◌≡◌, ◌≢◌, sym, ap, ◌∙◌, some, List, [], ◌∷◌, length, ℤ, pos, negsuc,
  inl, inr, Bool-cases, Option, none, ltb, Option-cases, Outcome-cases, ok, arith,
}
use wifi_sniffer.Channel.{NlCall}
use wifi_sniffer.Ctx.{PacketInfo, Ctx, get_ap}
use wifi_sniffer.Ctx.Invariant.{IsValid}
use wifi_sniffer.Handler.{
  Env, Sniffer, Attrs, count_tx, count_rx, count_packet, register_ap, find_or_register,
  handle_announcement, handle_action, advance, dispatch, packet_of, handle_packet,
  handle_frame_info, frame_handler,
}
use wifi_sniffer.Ui.{Screen}
use wifi_sniffer.MainLoop.{
  Loop, Input, with_ctx, remove_ap, prune_loop, prune, context_key, handle_key, receive,
  receive_and_hop, iteration,
}
use wifi_sniffer.MainLoop.Invariant.{handle_key-IsValid, receive_and_hop-sniffer}
use wifi_sniffer.MainLoop.Progress.{iteration-received}

-- The scroll position is in the list, or one behind its end.
abbrev pub IsScrolled : Ctx → Type 0
IsScrolled c = c.scroll ≤ c.aps_count

-- A step that leaves the scroll position and removes no access point.
abbrev pub IsGrown : Ctx → Ctx → Type 0
IsGrown c d = (d.scroll ≡ c.scroll) × (c.aps_count ≤ d.aps_count)

remove_ap-IsScrolled :
    (c : Ctx) (i : ℕ)
    → i < c.aps_count
    → c.scroll < 256
    → IsScrolled c
    → IsScrolled (remove_ap c i) × ((remove_ap c i).scroll < 256)
unfolding remove_ap
remove_ap-IsScrolled c i l b s = ground arith

prune_loop-IsScrolled :
    (fuel now : ℕ) (c : Ctx) (i : ℕ)
    → c.scroll < 256
    → IsScrolled c
    → IsScrolled (prune_loop fuel now c i)
unfolding prune_loop
prune_loop-IsScrolled zero now c i b s = s
prune_loop-IsScrolled (suc fuel) now c i b s =
    let kept = prune_loop-IsScrolled fuel now c (i + 1) b s in
    elim (Bool-cases (ltb i c.aps_count)) [
      | inr e ↦ ground arith
      | inl e ↦
          let (s', b') = remove_ap-IsScrolled c i (ground arith) b s in
          let removed = prune_loop-IsScrolled fuel now (remove_ap c i) i b' s' in ground arith
    ]

prune-IsScrolled : (now : ℕ) (c : Ctx) → c.scroll < 256 → IsScrolled c → IsScrolled (prune now c)
unfolding prune
prune-IsScrolled now c b s = prune_loop-IsScrolled c.aps_count now c 0 b s

context_key-IsScrolled :
    (rows k : ℕ) (c : Ctx) → IsScrolled c → IsScrolled (context_key (pos rows) k c)
unfolding context_key
context_key-IsScrolled rows k c s = ground arith

handle_key-IsScrolled :
    (rows : ℕ) (k : ℤ) (l : Loop) {m : Loop}
    → IsScrolled l.sniffer.ctx
    → handle_key (pos rows) k l ≡ some m
    → IsScrolled m.sniffer.ctx
unfolding handle_key
handle_key-IsScrolled rows (negsuc e) l s h = ground arith
handle_key-IsScrolled rows (pos k) l s h =
    ground (arith, context_key-IsScrolled rows k l.sniffer.ctx s)

count_packet-IsGrown :
    (env : Env) (c : Ctx) (p : PacketInfo) {d : Ctx} → count_packet env c p ≡ ok d → IsGrown c d
unfolding count_packet count_tx count_rx
count_packet-IsGrown env c p h = ground arith

dispatch-IsGrown :
    (env : Env) (s : Sniffer) (p : PacketInfo) (body : List ℕ) (n : ℕ) (found : Option ℕ)
    {t : Sniffer}
    → dispatch env s p body n found ≡ ok t
    → IsGrown s.ctx t.ctx
unfolding dispatch handle_announcement handle_action advance find_or_register register_ap
dispatch-IsGrown env s p body n found h = ground arith

pub frame_handler-IsGrown :
    (env : Env) (s : Sniffer) (a : Attrs) {t : Sniffer}
    → frame_handler env s a ≡ ok t
    → IsGrown s.ctx t.ctx
unfolding frame_handler handle_frame_info handle_packet
frame_handler-IsGrown env s a {t} h = elim (Option-cases a.header) [
  | inl e ↦ absurd (ground arith)
  | inr (info, e) ↦ elim (Option-cases a.radiotap) [
    | inl e' ↦ absurd (ground arith)
    | inr (rt, e') ↦ elim (Option-cases a.payload) [
      | inl e'' ↦ absurd (ground arith)
      | inr (body, e'') ↦ elim (Outcome-cases (count_packet env s.ctx (packet_of info rt))) [
        | inr (f, q) ↦ absurd (ground arith)
        | inl (c, q) ↦
            let (scroll, count) = count_packet-IsGrown env s.ctx (packet_of info rt) q in
            let (scroll', count') =
              dispatch-IsGrown env (record s { ctx = c }) (packet_of info rt) body (length body)
                (get_ap s.ctx info.bssid) {t = t} (ground arith) in
            (scroll' ∙ scroll, omega (arith, count, count'))
      ]
    ]
  ]
]

receive-IsGrown :
    (env : Env) (s : Sniffer) (ms : List Attrs) {t : Sniffer}
    → receive env s ms ≡ ok t
    → IsGrown s.ctx t.ctx
unfolding receive
receive-IsGrown env s [] {t} h =
    let e : t ≡ s = ground arith in (ap (λ x. x.ctx.scroll) e, ground (arith, e))
receive-IsGrown env s (a ∷ ms) {t} h = elim (Outcome-cases (frame_handler env s a)) [
  | inr (f, e) ↦ absurd (ground arith)
  | inl (s', e) ↦
      let (scroll, count) = frame_handler-IsGrown env s a e in
      let (scroll', count') = receive-IsGrown env s' ms {t = t} (ground arith) in
      (scroll' ∙ scroll, omega (arith, count, count'))
]

receive_and_hop-IsScrolled :
    (inp : Input) (l : Loop) {r : Loop × List NlCall}
    → IsScrolled l.sniffer.ctx
    → receive_and_hop inp l ≡ ok r
    → IsScrolled r.0.sniffer.ctx
receive_and_hop-IsScrolled inp l {r} s h = elim (receive_and_hop-sniffer inp l h) [
  | inl q ↦ rw q s
  | inr (t, e, q) ↦
      let (scroll, count) = receive-IsGrown inp.env l.sniffer inp.messages e in
      rw q (omega (arith, scroll, count, s))
]

round_quits :
    (inp : Input) (l : Loop) {r : Screen × Loop × List NlCall}
    → handle_key inp.rows inp.key l ≡ none
    → iteration inp l ≢ ok (some r)
unfolding iteration
round_quits inp l e h = ground arith

-- In a terminal where the window of the access points could be opened, so that `getmaxy` gives its
-- height, a round of the main loop that does not quit and ends without a fault leaves the scroll
-- position between 0 and the number of access points, if it was there before in a valid context,
-- whatever the key, the messages and the removals are.
pub iteration-IsScrolled :
    (inp : Input) (l : Loop) (height : ℕ) {r : Screen × Loop × List NlCall}
    → inp.rows ≡ pos height
    → IsValid l.sniffer.ctx
    → IsScrolled l.sniffer.ctx
    → iteration inp l ≡ ok (some r)
    → IsScrolled r.1.sniffer.ctx
iteration-IsScrolled inp l height {r} w v s h =
    elim (Option-cases (handle_key inp.rows inp.key l)) [
      | inl e ↦ absurd (round_quits inp l e h)
      | inr (m, e) ↦
          let c = m.sniffer.ctx in
          let read : handle_key (pos height) inp.key l ≡ some m =
            sym (ap (λ n. handle_key n inp.key l) w) ∙ e in
          let byte = (handle_key-IsValid inp.rows inp.key l v e).scroll_byte in
          let moved = handle_key-IsScrolled height inp.key l s read in
          let left = prune-IsScrolled inp.env.now c byte moved in
          let (x, got, same) = iteration-received inp l e h in
          let after = receive_and_hop-IsScrolled inp (with_ctx m (prune inp.env.now c)) left got in
          rw same after
    ]
