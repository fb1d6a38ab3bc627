-- ===== src/Program/Reachable.antt =====
-- Every state that the program reaches (user/src/main.c, `main`).
use wifi_sniffer.Prelude.{
  none, some, List, [], ◌∷◌, ◌≡◌, inl, inr, ok, Outcome-cases, Bool-cases, arith, pos, minus_one,
  ◌++◌,
}
use wifi_sniffer.Socket.{init_netlink_socket}
use wifi_sniffer.Channel.{channel_init}
use wifi_sniffer.Ctx.{zero_ctx, init_ctx}
use wifi_sniffer.Ctx.Invariant.{IsValid, zero_ctx-IsValid}
use wifi_sniffer.Ui.Terminal.{init_ui, show_round}
use wifi_sniffer.MainLoop.{Loop, Input, iteration}
use wifi_sniffer.MainLoop.Invariant.{iteration-IsValid}
use wifi_sniffer.Program.{
  Start, Calls, Progress, running, returned, start_up, clean_up, run, main, first_loop,
}

-- Where the program still runs, its context is valid.
abbrev pub ValidProgress : Progress → Type 0
ValidProgress (running l) = IsValid l.sniffer.ctx
ValidProgress (returned status) = Unit

run-ValidProgress :
    (inps : List Input) (l : Loop) (cs : Calls) {r : Progress × Calls}
    → IsValid l.sniffer.ctx
    → run inps l cs ≡ ok r
    → ValidProgress r.0
unfolding run clean_up
run-ValidProgress [] l cs {r} v h = let e : r.0 ≡ running l = ground arith in rw e v
run-ValidProgress (inp ∷ inps) l cs {r} v h = elim (Outcome-cases (iteration inp l)) [
  | inr (f, e) ↦ absurd (ground arith)
  | inl (none, e) ↦ elim (Bool-cases l.socket) [
    | inr n ↦ absurd (ground arith)
    | inl n ↦ let q : r.0 ≡ returned (pos 0) = ground arith in rw q tt
  ]
  | inl (some (screen, l', card), e) ↦
      let cs' = record cs {
        term = cs.term ++ show_round screen l'.paused;
        card = cs.card ++ card;
      } in
      run-ValidProgress inps l' cs' {r = r} (iteration-IsValid inp l v e) (ground arith)
]

-- Whatever the libraries return and whichever keys and frames arrive: as long as no fault has
-- occurred, the context is valid whenever the program is in its loop.
pub main-ValidProgress :
    (st : Start) (inps : List Input) {r : Progress × Calls}
    → main st inps ≡ ok r
    → ValidProgress r.0
unfolding main start_up init_ui init_ctx
main-ValidProgress st inps {r} h = elim (Bool-cases st.term.allocated) [
  | inr e ↦ let q : r.0 ≡ returned minus_one = ground arith in rw q tt
  | inl e ↦
      let (socket, calls) = init_netlink_socket st.sock in
      let cs : Calls = record {
        term = (init_ui st.term).1;
        sock = calls;
        card = (channel_init st.replies st.if_index 0).1;
      } in
      run-ValidProgress inps (first_loop zero_ctx socket) cs {r = r} zero_ctx-IsValid (ground arith)
]
