-- ===== src/Tests/Machine.antt =====
-- Examples of the map of access points: a beacon, and a run of the program.
use wifi_sniffer.Prelude.{◌≡◌, refl, true, false, List, [], ◌∷◌, pos, minus_one, ok, same_bytes}
use wifi_sniffer.Channel.{channel_init}
use wifi_sniffer.Ctx.{zero_ctx, zero_ap, zero_packet, init_ctx, find_ap, get_ap}
use wifi_sniffer.Ctx.Invariant.{IsValid}
use wifi_sniffer.FrameTypes.{select, fixed_params, mgmt_fixed_params}
use wifi_sniffer.Handler.{
  adjust_found, count_tx, count_rx, register_ap, find_or_register, note_mgmt, advance,
  handle_announcement, dispatch, count_packet, handle_packet, handle_frame_info, frame_handler,
}
use wifi_sniffer.Handler.Entry.{adjust, adjust?, name_new_ap, has_freq, add_freq, note_beacon}
use wifi_sniffer.Handler.Table.{lookup, newcomer, packet_table, next_entry}
use wifi_sniffer.Handler.Table.Packets.{handle_packet_refines}
use wifi_sniffer.Ies.{
  printable, ie_iter, read_ies, ie_iter_first, ie_iter_step, ie_iter_next, write_ssid, update_ssid,
  visit_ie, ie_loop, iter_packet_ies,
}
use wifi_sniffer.MainLoop.{
  Loop, Input, context_key, handle_key, after_key, prune, prune_loop, receive, receive_and_hop, hop,
  iteration,
}
use wifi_sniffer.Program.{
  Start, Progress, returned, Calls, running, first_loop, main, start_up, run, clean_up,
}
use wifi_sniffer.Program.Machine.{ListRun, empty_listing, main_refines}
use wifi_sniffer.MainLoop.Machine.{listing}
use wifi_sniffer.Program.NoSocket.{AllPaused, main_without_socket}
use wifi_sniffer.Socket.{init_netlink_socket}
use wifi_sniffer.Ui.{draw_ui, draw_ap_win, draw_ap_rows, draw_stats_win, draw_usage_win}
use wifi_sniffer.Ui.Packets.{draw_packet_win, draw_packet_rows, draw_packet_row, is_zero_packet}
use wifi_sniffer.Ui.Terminal.{
  open_windows, init_pairs, set_up, init_ui, draws, show_window, show_screen, show_round,
}
use wifi_sniffer.Tests.Data.{env_at, start, ap_mac, beacon_packet, beacon_body, after_beacon}
use wifi_sniffer.Tests.Loop.{input}
use wifi_sniffer.Tests.Program.{start_replies}
use wifi_sniffer.Tests.User.{beacon_handled}

handle_packet_refines_example :
    packet_table
      (env_at 100)
      beacon_packet
      beacon_body
      20
      (newcomer ap_mac 0 (next_entry start.ctx))
      (lookup start.ctx)
      ap_mac
    ≡ ok (lookup after_beacon.ctx ap_mac)
handle_packet_refines_example =
    handle_packet_refines (env_at 100) start beacon_packet beacon_body 20 ap_mac {t = after_beacon}
      beacon_handled

abbrev two_rounds : List Input
two_rounds = record input { key = pos 32 } ∷ record input { key = pos 32 } ∷ []

abbrev underway : Loop × Calls
underway = elim (main start_replies two_rounds) [
  | ok (running l, cs) ↦ (l, cs)
  | _ ↦ (first_loop zero_ctx true, record { term = []; sock = []; card = [] })
]

rounds_run : main start_replies two_rounds ≡ ok (running underway.0, underway.1)
unfolding channel_init clean_up draws init_ctx init_netlink_socket init_pairs init_ui main
    open_windows run set_up show_round show_screen show_window start_up iteration handle_key
    after_key draw_ui draw_packet_win draw_packet_rows draw_packet_row is_zero_packet draw_ap_win
    draw_ap_rows draw_stats_win draw_usage_win receive_and_hop receive hop prune prune_loop
    frame_handler handle_frame_info zero_ap zero_packet zero_ctx find_ap get_ap select fixed_params
    mgmt_fixed_params printable ie_iter read_ies ie_iter_first ie_iter_step ie_iter_next write_ssid
    update_ssid visit_ie ie_loop iter_packet_ies adjust_found count_tx count_rx register_ap
    find_or_register note_mgmt advance handle_announcement dispatch count_packet handle_packet
    adjust adjust? name_new_ap has_freq add_freq note_beacon same_bytes
rounds_run = refl

-- Two rounds, of which the first one is paused and the second one hears a beacon.
main_refines_example :
    IsValid underway.0.sniffer.ctx
    × ListRun two_rounds false empty_listing (listing underway.0.sniffer)
main_refines_example =
    main_refines start_replies two_rounds {l = underway.0} {cs = underway.1} rounds_run

-- No socket, and the first key is the space key.
abbrev no_socket : Start
no_socket = record start_replies { sock = record start_replies.sock { allocated = false } }

abbrev stopped : List Input
stopped = record input { key = pos 32 } ∷ record input { key = pos 108 } ∷ []

abbrev waiting : Progress × Calls
waiting = elim (main no_socket stopped) [
  | ok r ↦ r
  | _ ↦ (returned minus_one, record { term = []; sock = []; card = [] })
]

stopped_run : main no_socket stopped ≡ ok waiting
unfolding channel_init clean_up draws init_ctx init_netlink_socket init_pairs init_ui main
    open_windows run set_up show_round show_screen show_window start_up iteration handle_key
    after_key draw_ui draw_packet_win draw_packet_rows draw_packet_row is_zero_packet draw_ap_win
    draw_ap_rows draw_stats_win draw_usage_win receive_and_hop receive hop prune prune_loop zero_ap
    zero_packet zero_ctx select adjust same_bytes context_key
stopped_run = refl

no_socket_opened : (init_netlink_socket no_socket.sock).0 ≡ false
unfolding init_netlink_socket
no_socket_opened = refl

main_without_socket_example : (l : Loop) × (waiting.0 ≡ running l) × AllPaused stopped false
main_without_socket_example =
    main_without_socket no_socket stopped {r = waiting} refl no_socket_opened stopped_run
