-- ===== src/Program/Cleanup.antt =====
-- What the program opens it closes, if it returns (user/src/main.c, `main`).
use wifi_sniffer.Prelude.{
  ◌+◌, ◌-◌, ◌≡◌, refl, sym, ◌∙◌, true, false, none, some, List, [], ◌∷◌, ◌++◌, if◌then◌else◌, inl,
  inr, ok, Outcome-cases, Option-cases, Bool-cases, ℤ, pos, minus_one, count, count-append, arith,
}
use wifi_sniffer.Channel.{NlCall, channel_init}
use wifi_sniffer.Ctx.{zero_ctx, init_ctx}
use wifi_sniffer.Ui.{Screen, draw_ui}
use wifi_sniffer.Ui.Terminal.{
  TermReplies, ap_win, packet_win, stats_win, usage_win, set_up, init_screen, Window, cursor,
  init_ui, init_pairs, open_windows, free_ctx, show_round,
}
use wifi_sniffer.Ui.Terminal.Balance.{
  Role, starts, ends, releases, opens, deletes, other, same_role, calls_of, calls_of-append,
  calls_of-show_round, calls_of-init_pairs,
}
use wifi_sniffer.Socket.{SocketReplies, close, free, init_netlink_socket}
use wifi_sniffer.Socket.Leaks.{is_close, is_free}
use wifi_sniffer.MainLoop.{
  Loop, Input, with_ctx, prune, handle_key, receive_and_hop, after_key, hop, iteration,
}
use wifi_sniffer.MainLoop.Keys.{handle_key-socket}
use wifi_sniffer.Program.{Start, Calls, returned, first_loop, start_up, clean_up, run, main}

receive-socket :
    (inp : Input) (l : Loop) {r : Loop × List NlCall}
    → receive_and_hop inp l ≡ ok r
    → r.0.socket ≡ l.socket
unfolding receive_and_hop hop
receive-socket inp l h = ground arith

pub iteration-socket :
    (inp : Input) (l : Loop) {r : Screen × Loop × List NlCall}
    → iteration inp l ≡ ok (some r)
    → r.1.socket ≡ l.socket
unfolding iteration after_key
iteration-socket inp l {r} h = elim (Option-cases (handle_key inp.rows inp.key l)) [
  | inl e ↦ absurd (ground arith)
  | inr (l', e) ↦
      let pruned = with_ctx l' (prune inp.env.now l'.sniffer.ctx) in
      elim (Outcome-cases (draw_ui inp.env.now inp.rows l'.channel l'.sniffer.ctx)) [
        | inr (f, e') ↦ absurd (ground arith)
        | inl (screen, e') ↦ elim (Outcome-cases (receive_and_hop inp pruned)) [
          | inr (f, e'') ↦ absurd (ground arith)
          | inl (m, e'') ↦
              let q : r.1 ≡ m.0 = ground arith in
              rw q (receive-socket inp pruned e'' ∙ handle_key-socket inp.rows inp.key l e)
        ]
      ]
]

-- What a run that returns adds to the calls: the socket is closed and freed, and the test `p` counts
-- the calls of `free_ctx`.
run-returned :
    (k : Role) (q : same_role k other ≡ false) (inps : List Input) (l : Loop) (cs : Calls)
    {status : ℤ} {cs' : Calls}
    → run inps l cs ≡ ok (returned status, cs')
    → (status ≡ pos 0)
      × (l.socket ≡ true)
      × (cs'.sock ≡ cs.sock ++ (close ∷ free ∷ []))
      × (calls_of k cs'.term ≡ calls_of k cs.term + calls_of k (free_ctx ++ (cursor 1 ∷ [])))
unfolding run clean_up
run-returned k q [] l cs h = absurd (ground arith)
run-returned k q (inp ∷ inps) l cs {status} {cs'} h = elim (Outcome-cases (iteration inp l)) [
  | inr (f, e) ↦ absurd (ground arith)
  | inl (none, e) ↦ elim (Bool-cases l.socket) [
    | inr n ↦ absurd (ground arith)
    | inl n ↦
        let sock : cs'.sock ≡ cs.sock ++ (close ∷ free ∷ []) = ground arith in
        let term : cs'.term ≡ cs.term ++ (free_ctx ++ (cursor 1 ∷ [])) = ground arith in
        (ground arith, n, sock, rw term (calls_of-append k cs.term (free_ctx ++ (cursor 1 ∷ []))))
  ]
  | inl (some (screen, l', card), e) ↦
      let cs1 = record cs {
        term = cs.term ++ show_round screen l'.paused;
        card = cs.card ++ card;
      } in
      let (status_eq, socket, sock, term) =
        run-returned k q inps l' cs1 {status = status} {cs' = cs'} (ground arith) in
      (
        status_eq,
        sym (iteration-socket inp l e) ∙ socket,
        sock,
        omega (
          arith,
          term,
          calls_of-append k cs.term (show_round screen l'.paused),
          calls_of-show_round k q screen l'.paused,
        ),
      )
]

init_netlink_socket-frees :
    (r : SocketReplies)
    → (init_netlink_socket r).0 ≡ true
    → (count is_close (init_netlink_socket r).1 ≡ 0) × (count is_free (init_netlink_socket r).1 ≡ 0)
unfolding init_netlink_socket
init_netlink_socket-frees r h = ground arith

-- The calls before the loop.
abbrev pub started : Start → Calls
started st = record {
  term = set_up st.term ++ init_pairs 1 (st.term.colors - 1);
  sock = (init_netlink_socket st.sock).1;
  card = (channel_init st.replies st.if_index 0).1;
}

pub main-run :
    (st : Start) (inps : List Input)
    → st.term.allocated ≡ true
    → main st inps ≡ run inps (first_loop zero_ctx (init_netlink_socket st.sock).0) (started st)
unfolding main start_up init_ui init_ctx
main-run st inps e = rw e

-- Each window is opened once before the loop, and deleted once after it.
windows_once :
    (w : Window) (r : TermReplies)
    → (calls_of (opens w) (set_up r) ≡ 1)
      × (calls_of (deletes w) (set_up r) ≡ 0)
      × (calls_of (opens w) (free_ctx ++ (cursor 1 ∷ [])) ≡ 0)
      × (calls_of (deletes w) (free_ctx ++ (cursor 1 ∷ [])) ≡ 1)
unfolding set_up open_windows free_ctx
windows_once ap_win r = (refl, refl, refl, refl)
windows_once packet_win r = (refl, refl, refl, refl)
windows_once stats_win r = (refl, refl, refl, refl)
windows_once usage_win r = (refl, refl, refl, refl)

-- The count of a test over a run that returns.
total :
    (k : Role) (q : same_role k other ≡ false) (st : Start) (inps : List Input) {status : ℤ}
    {cs : Calls}
    → st.term.allocated ≡ true
    → main st inps ≡ ok (returned status, cs)
    → calls_of k cs.term ≡ calls_of k (set_up st.term) + calls_of k (free_ctx ++ (cursor 1 ∷ []))
total k q st inps {status} {cs} e h =
    let r =
      run-returned k q inps (first_loop zero_ctx (init_netlink_socket st.sock).0) (started st)
        {status = status} {cs' = cs} (sym (main-run st inps e) ∙ h) in
    omega (
      arith,
      r.3,
      calls_of-append k (set_up st.term) (init_pairs 1 (st.term.colors - 1)),
      calls_of-init_pairs k q 1 (st.term.colors - 1),
    )

windows_balance :
    (w : Window) (st : Start) (inps : List Input) {status : ℤ} {cs : Calls}
    → st.term.allocated ≡ true
    → main st inps ≡ ok (returned status, cs)
    → (calls_of (opens w) cs.term ≡ 1) × (calls_of (deletes w) cs.term ≡ 1)
windows_balance w st inps {status} {cs} e h =
    let once = windows_once w st.term in
    let opened = total (opens w) refl st inps {status = status} {cs = cs} e h in
    let deleted = total (deletes w) refl st inps {status = status} {cs = cs} e h in
    (omega (arith, once, opened), omega (arith, once, deleted))

refused :
    (st : Start) (inps : List Input) (w : Window) {status : ℤ} {cs : Calls}
    → st.term.allocated ≡ false
    → main st inps ≡ ok (returned status, cs)
    → (calls_of starts cs.term ≡ 1)
      × (status ≡ minus_one)
      × (calls_of ends cs.term ≡ 0)
      × (calls_of releases cs.term ≡ 0)
      × (calls_of (opens w) cs.term ≡ 0)
      × (calls_of (deletes w) cs.term ≡ 0)
      × (count is_close cs.sock ≡ 0)
      × (count is_free cs.sock ≡ 0)
unfolding main start_up init_ui init_ctx
refused st inps w {status} {cs} e h =
    let s : status ≡ minus_one = ground arith in
    let c : cs ≡ record { term = init_screen ∷ []; sock = []; card = [] } = ground arith in
    rw (s, c) (refl, refl, refl, refl, refl, refl, refl, refl)

-- If the program returns, then either the context could not be allocated: its status is -1, the
-- terminal was put into the mode of ncurses and was not reset. Or its status is 0, the terminal was
-- reset once, each of the four windows was opened and deleted once, the context was freed once, and
-- the socket was closed and freed once.
pub main-Cleanup :
    (st : Start) (inps : List Input) (w : Window) {status : ℤ} {cs : Calls}
    → main st inps ≡ ok (returned status, cs)
    → (calls_of starts cs.term ≡ 1)
      × (status ≡ (if st.term.allocated then pos 0 else minus_one))
      × (calls_of ends cs.term ≡ (if st.term.allocated then 1 else 0))
      × (calls_of releases cs.term ≡ (if st.term.allocated then 1 else 0))
      × (calls_of (opens w) cs.term ≡ (if st.term.allocated then 1 else 0))
      × (calls_of (deletes w) cs.term ≡ (if st.term.allocated then 1 else 0))
      × (count is_close cs.sock ≡ (if st.term.allocated then 1 else 0))
      × (count is_free cs.sock ≡ (if st.term.allocated then 1 else 0))
main-Cleanup st inps w {status} {cs} h = elim (Bool-cases st.term.allocated) [
  | inr e ↦ rw e (refused st inps w e h)
  | inl e ↦
      let r =
        run-returned starts refl inps (first_loop zero_ctx (init_netlink_socket st.sock).0)
          (started st) {status = status} {cs' = cs} (sym (main-run st inps e) ∙ h) in
      let freed = init_netlink_socket-frees st.sock r.1 in
      rw e (
        total starts refl st inps {status = status} {cs = cs} e h
            ∙ unfold set_up open_windows free_ctx in refl,
        r.0,
        total ends refl st inps {status = status} {cs = cs} e h
            ∙ unfold set_up open_windows free_ctx in refl,
        total releases refl st inps {status = status} {cs = cs} e h
            ∙ unfold set_up open_windows free_ctx in refl,
        (windows_balance w st inps {status = status} {cs = cs} e h).0,
        (windows_balance w st inps {status = status} {cs = cs} e h).1,
        rw (r.2) (
            count-append is_close (init_netlink_socket st.sock).1 (close ∷ free ∷ [])
            ∙ rw (freed.0) refl),
        rw (r.2) (
            count-append is_free (init_netlink_socket st.sock).1 (close ∷ free ∷ [])
            ∙ rw (freed.1) refl),
      )
]
