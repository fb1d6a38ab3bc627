-- ===== src/Program.antt =====
-- user/src/main.c, `main` as a whole: the screen and the socket are opened, the loop runs until a key
-- quits, and both are closed.
--
-- What the libraries return is an argument: `Start` before the loop, and one `Input` for each round.
-- Where the list of inputs ends, the program is still running.
pub mod Reachable
pub mod Cleanup
pub mod Total
pub mod Session
pub mod Machine
pub mod NoSocket
pub mod Stays
use wifi_sniffer.Prelude.{
  ℕ, Bool, true, false, Option, none, some, List, [], ◌∷◌, ◌++◌, if◌then◌else◌, ℤ, pos, minus_one,
  Outcome, ok, null_pointer, ◌>>=◌, ◌>>◌, check,
}
use wifi_sniffer.Channel.{NlReplies, NlCall, channel_init}
use wifi_sniffer.Ctx.{Ctx}
use wifi_sniffer.Ui.{Screen}
use wifi_sniffer.Ui.Terminal.{TermReplies, TermCall, cursor, init_ui, free_ctx, show_round}
use wifi_sniffer.Socket.{SocketReplies, SocketCall, close, free, init_netlink_socket}
use wifi_sniffer.MainLoop.{Loop, Input, hop_time, iteration}

pub record Start : Type 0 where
  pub term : TermReplies
  pub sock : SocketReplies
  pub replies : NlReplies
  pub if_index : ℕ

-- The calls so far.
pub record Calls : Type 0 where
  pub term : List TermCall
  pub sock : List SocketCall
  pub card : List NlCall

-- The program is in its loop, or has returned.
pub data Progress : Type 0 where
  running : Loop → Progress
  returned : ℤ → Progress

-- The state before the first round. The static variables `cur_col` and `channel` are 0.
abbrev pub first_loop : Ctx → Bool → Loop
first_loop ctx socket = record {
  socket = socket;
  sniffer = record { ctx = ctx; cur_col = 0 };
  paused = false;
  hopping = false;
  hop_timer = hop_time;
  channel = 0;
}

-- `main` up to its loop.
unfoldable pub start_up : Start → Progress × Calls
start_up st =
    let (allocated, term) = init_ui st.term in
    elim allocated [
      | none ↦ (returned minus_one, record { term = term; sock = []; card = [] })
      | some ctx ↦
          let (socket, calls) = init_netlink_socket st.sock in
          let (ret, card) = channel_init st.replies st.if_index 0 in
          (running (first_loop ctx socket), record { term = term; sock = calls; card = card })
    ]

-- `main` from `exit_loop` on. `nl_close` needs a socket, and `main` returns 0 at its end.
unfoldable pub clean_up : Bool → Calls → Outcome (Progress × Calls)
clean_up socket cs = do
  check socket null_pointer
  ok (
    returned (pos 0),
    record cs {
      term = cs.term ++ (free_ctx ++ (cursor 1 ∷ []));
      sock = cs.sock ++ (close ∷ free ∷ []);
    },
  )

unfoldable pub run : List Input → Loop → Calls → Outcome (Progress × Calls)
run [] l cs = ok (running l, cs)
run (inp ∷ inps) l cs = do
  next ← iteration inp l
  elim next [
    | none ↦ clean_up l.socket cs
    | some (screen, l', card) ↦
        run inps l'
          (record cs { term = cs.term ++ show_round screen l'.paused; card = cs.card ++ card })
  ]

unfoldable pub main : Start → List Input → Outcome (Progress × Calls)
main st inps =
    let (p, cs) = start_up st in
    elim p [ returned status ↦ ok (returned status, cs) | running l ↦ run inps l cs ]
