-- ===== src/Tests/Program.antt =====
-- Examples of the whole program: a run that is quit, the windows it opens.
use wifi_sniffer.Prelude.{
  ◌/◌, ◌*◌, ◌-◌, ◌≡◌, refl, true, not, ◌&&◌, leb, ltb, List, [], ◌∷◌, ◌++◌, some, inl, inr, ok, pos,
  minus_one, if◌then◌else◌, count, arith, same_bytes,
}
use wifi_sniffer.Channel.{channel_init}
use wifi_sniffer.Socket.{init_netlink_socket}
use wifi_sniffer.Socket.Leaks.{is_close, is_free}
use wifi_sniffer.Ui.Terminal.{
  TermReplies, stats_win, open_windows, init_pairs, set_up, init_ui, draws, show_window, free_ctx,
  show_screen, show_round,
}
use wifi_sniffer.Ui.Terminal.Balance.{starts, ends, releases, opens, deletes, calls_of}
use wifi_sniffer.Ui.Terminal.Layout.{covers, open_windows_lem}
use wifi_sniffer.MainLoop.{
  Loop, Input, handle_key, after_key, prune, prune_loop, receive, receive_and_hop, hop, iteration,
}
use wifi_sniffer.Ctx.{init_ctx, zero_ctx, zero_ap, zero_packet}
use wifi_sniffer.FrameTypes.{select}
use wifi_sniffer.Ui.{draw_ui, draw_ap_win, draw_ap_rows, draw_stats_win}
use wifi_sniffer.Ui.Packets.{draw_packet_win, draw_packet_rows, draw_packet_row, is_zero_packet}
use wifi_sniffer.Program.{
  Start, Calls, Progress, running, returned, first_loop, main, start_up, run, clean_up,
}
use wifi_sniffer.Program.Reachable.{ValidProgress}
use wifi_sniffer.Program.Cleanup.{main-Cleanup}
use wifi_sniffer.Handler.{Attrs}
use wifi_sniffer.Ies.Elements.{encode_ies}
use wifi_sniffer.MainLoop.Session.{Session, InSession, IsBeacon}
use wifi_sniffer.MainLoop.Session.Rounds.{InRound}
use wifi_sniffer.Program.Session.{main-InSession}
use wifi_sniffer.Tests.User.{elements-WellFormed}
use wifi_sniffer.Tests.Data.{good, frame, rt, fixed_bytes, elements, ap_mac}
use wifi_sniffer.Tests.Loop.{input}
use wifi_sniffer.Tests.Rounds.{data_attrs, data-IsPlain}
use wifi_sniffer.Program.Total.{While, main-Returns}

abbrev terminal : TermReplies
terminal = record { allocated = true; h = 24; w = 80; colors = 8 }

open_windows_lem_example :
    count (covers 3 40) (open_windows terminal)
    ≡ (if ltb 3 24 && ltb 40 80 && not (leb (24 / 2 * 2) 3 && ltb 40 (80 - 30)) then 1 else 0)
open_windows_lem_example = open_windows_lem terminal 3 40 (omega arith) (omega arith)

abbrev pub start_replies : Start
start_replies = record {
  term = terminal;
  sock = record {
    allocated = true;
    connected = pos 0;
    group = pos 7;
    membership = pos 0;
    callback = pos 0;
  };
  replies = good;
  if_index = 3;
}

-- A round without messages.
abbrev quiet : Input
quiet = record input { messages = [] }

-- Another one, and the key `q`.
abbrev quitting : List Input
quitting = quiet ∷ record input { key = pos 113 } ∷ []

abbrev ended : Progress × Calls
ended = elim (main start_replies quitting) [
  | ok r ↦ r
  | _ ↦ (returned minus_one, record { term = []; sock = []; card = [] })
]

run_ends : main start_replies quitting ≡ ok (returned (pos 0), ended.1)
unfolding after_key channel_init clean_up draw_ap_rows draw_ap_win draw_packet_row draw_packet_rows
    draw_packet_win draw_stats_win draw_ui draws free_ctx handle_key hop init_ctx
    init_netlink_socket init_pairs init_ui is_zero_packet iteration main open_windows prune
    prune_loop receive receive_and_hop run same_bytes select set_up show_round show_screen
    show_window start_up zero_ap zero_ctx zero_packet
run_ends = refl

abbrev underway : Loop × Calls
underway = elim (main start_replies (quiet ∷ [])) [
  | ok (running l, cs) ↦ (l, cs)
  | _ ↦ (first_loop zero_ctx true, record { term = []; sock = []; card = [] })
]

run_goes_on : main start_replies (quiet ∷ []) ≡ ok (running underway.0, underway.1)
unfolding after_key channel_init clean_up draw_ap_rows draw_ap_win draw_packet_row draw_packet_rows
    draw_packet_win draw_stats_win draw_ui draws free_ctx handle_key hop init_ctx
    init_netlink_socket init_pairs init_ui is_zero_packet iteration main open_windows prune
    prune_loop receive receive_and_hop run same_bytes select set_up show_round show_screen
    show_window start_up zero_ap zero_ctx zero_packet
run_goes_on = refl

main-Cleanup_example :
    (calls_of starts ended.1.term ≡ 1)
    × (pos 0 ≡ (if start_replies.term.allocated then pos 0 else minus_one))
    × (calls_of ends ended.1.term ≡ (if start_replies.term.allocated then 1 else 0))
    × (calls_of releases ended.1.term ≡ (if start_replies.term.allocated then 1 else 0))
    × (calls_of (opens stats_win) ended.1.term ≡ (if start_replies.term.allocated then 1 else 0))
    × (calls_of (deletes stats_win) ended.1.term ≡ (if start_replies.term.allocated then 1 else 0))
    × (count is_close ended.1.sock ≡ (if start_replies.term.allocated then 1 else 0))
    × (count is_free ended.1.sock ≡ (if start_replies.term.allocated then 1 else 0))
main-Cleanup_example =
    main-Cleanup start_replies quitting stats_win {status = pos 0} {cs = ended.1} run_ends

socket_opened : (init_netlink_socket start_replies.sock).0 ≡ true
unfolding init_netlink_socket
socket_opened = refl

-- A round with two data frames.
abbrev busy : Input
busy = record input { messages = data_attrs ∷ data_attrs ∷ [] }

main-Returns_example :
    (r : Progress × Calls) × (main start_replies (busy ∷ quiet ∷ []) ≡ ok r) × ValidProgress r.0
main-Returns_example =
    main-Returns start_replies (busy ∷ quiet ∷ []) socket_opened
      ((data-IsPlain, (data-IsPlain, tt)), (tt, tt))

abbrev session : Session
session = record {
  addresses = ap_mac ∷ [];
  freqs = 2412 ∷ [];
  colors = 8;
  since = 100;
  few_addresses = omega arith;
  few_freqs = omega arith;
  some_colors = omega arith;
  few_colors = omega arith;
}

-- A beacon with the SSID "abc".
abbrev announcement : Attrs
announcement = record {
  header = some (frame 0 8);
  radiotap = some rt;
  payload = some (fixed_bytes ++ encode_ies elements);
}

announcement-IsBeacon : IsBeacon session announcement
unfolding same_bytes
announcement-IsBeacon = record {
  info = frame 0 8;
  rt = rt;
  fixed = fixed_bytes;
  elements = elements;
  header = refl;
  radiotap = refl;
  payload = refl;
  management = refl;
  beacon = refl;
  well_formed = elements-WellFormed;
  address = refl;
  freq = refl;
}

-- A round with a beacon and a data frame.
abbrev heard : Input
heard = record input { messages = announcement ∷ data_attrs ∷ [] }

heard-InRound : InRound session heard
heard-InRound = record {
  during = record { begins = omega arith; ends = omega arith; colors = refl };
  heard = (inr announcement-IsBeacon, (inl data-IsPlain, tt));
}

main-InSession_example :
    (r : Progress × Calls) × (main start_replies (heard ∷ heard ∷ []) ≡ ok r)
    × While (InSession session) r.0
main-InSession_example =
    main-InSession session start_replies (heard ∷ heard ∷ []) socket_opened
      (heard-InRound, (heard-InRound, tt))
