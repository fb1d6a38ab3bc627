-- ===== src/Program/NoSocket.antt =====
-- The program without a socket (user/src/main.c, `main`): the null pointer of `init_netlink_socket` is not
-- tested.
use wifi_sniffer.Prelude.{
  ◌≡◌, subst, sym, ◌∙◌, Bool, true, false, none, some, List, [], ◌∷◌, ◌++◌, inl, inr, ok,
  Outcome-cases, Option-cases, arith,
}
use wifi_sniffer.Channel.{NlCall}
use wifi_sniffer.Ctx.{zero_ctx}
use wifi_sniffer.Socket.{init_netlink_socket}
use wifi_sniffer.Ui.Terminal.{show_round}
use wifi_sniffer.MainLoop.{Loop, Input, with_ctx, prune, handle_key, receive_and_hop, iteration}
use wifi_sniffer.MainLoop.Keys.{handle_key-socket}
use wifi_sniffer.MainLoop.Progress.{iteration-received}
use wifi_sniffer.Program.{Start, Calls, Progress, running, first_loop, clean_up, run, main}
use wifi_sniffer.Program.Cleanup.{main-run, started, iteration-socket}
use wifi_sniffer.Program.Machine.{toggled, handle_key-toggled, iteration-quits, iteration-paused}

-- Every round is paused.
abbrev pub AllPaused : List Input → Bool → Type 0
AllPaused [] paused = Unit
AllPaused (inp ∷ inps) paused =
    (toggled inp.key paused ≡ true) × AllPaused inps (toggled inp.key paused)

unpaused-faults :
    (inp : Input) (l : Loop) {r : Loop × List NlCall}
    → l.socket ≡ false
    → receive_and_hop inp l ≡ ok r
    → l.paused ≡ true
unfolding receive_and_hop
unpaused-faults inp l k h = ground arith

run_without_socket :
    (inps : List Input) (l : Loop) (cs : Calls) {r : Progress × Calls}
    → l.socket ≡ false
    → run inps l cs ≡ ok r
    → (k : Loop) × (r.0 ≡ running k) × AllPaused inps l.paused
unfolding run clean_up
run_without_socket [] l cs n h = (l, ground arith, tt)
run_without_socket (inp ∷ inps) l cs {r} n h = elim (Outcome-cases (iteration inp l)) [
  | inr (f, e) ↦ absurd (ground arith)
  | inl (none, e) ↦ absurd (ground arith)
  | inl (some (screen, l', card), e) ↦ elim (Option-cases (handle_key inp.rows inp.key l)) [
    | inl q ↦ absurd (iteration-quits inp l q e)
    | inr (m, q) ↦
        let next = record cs {
          term = cs.term ++ show_round screen l'.paused;
          card = cs.card ++ card;
        } in
        let (x, got, same) = iteration-received inp l q e in
        let pruned = with_ctx m (prune inp.env.now m.sniffer.ctx) in
        let toggle = handle_key-toggled inp.rows inp.key l q in
        let stopped = unpaused-faults inp pruned (handle_key-socket inp.rows inp.key l q ∙ n) got in
        let (k, still, rest) =
          run_without_socket inps l' next {r = r} (iteration-socket inp l e ∙ n) (ground arith) in
        (k, still, (sym toggle ∙ stopped, subst (AllPaused inps) (iteration-paused inp l q e) rest))
  ]
]

-- If the context was allocated but there is no socket, the program never returns, whichever keys are
-- pressed, and it is in its loop without a fault only if every round so far was paused.
pub main_without_socket :
    (st : Start) (inps : List Input) {r : Progress × Calls}
    → st.term.allocated ≡ true
    → (init_netlink_socket st.sock).0 ≡ false
    → main st inps ≡ ok r
    → (l : Loop) × (r.0 ≡ running l) × AllPaused inps false
main_without_socket st inps {r} e n h =
    run_without_socket inps (first_loop zero_ctx (init_netlink_socket st.sock).0) (started st)
      {r = r} n (sym (main-run st inps e) ∙ h)
