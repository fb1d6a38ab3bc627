-- ===== src/Tests/Stays.antt =====
-- An example of an access point that stays known: two rounds after a beacon.
use wifi_sniffer.Prelude.{◌≡◌, ◌≤◌, refl, some, List, [], ◌∷◌, ok, arith, same_bytes}
use wifi_sniffer.Ctx.{Ap, zero_ctx, zero_ap, zero_packet, find_ap, get_ap}
use wifi_sniffer.FrameTypes.{select, fixed_params, mgmt_fixed_params}
use wifi_sniffer.Handler.{
  adjust_found, count_tx, count_rx, register_ap, find_or_register, note_mgmt, advance,
  handle_announcement, dispatch, count_packet, handle_packet, handle_frame_info, frame_handler,
}
use wifi_sniffer.Handler.Entry.{adjust, adjust?, name_new_ap, has_freq, add_freq, note_beacon}
use wifi_sniffer.Handler.Table.{entry, lookup}
use wifi_sniffer.Ies.{
  printable, ie_iter, read_ies, ie_iter_first, ie_iter_step, ie_iter_next, write_ssid, update_ssid,
  visit_ie, ie_loop, iter_packet_ies,
}
use wifi_sniffer.MainLoop.{
  Loop, Input, handle_key, after_key, prune, prune_loop, receive, receive_and_hop, hop, iteration,
}
use wifi_sniffer.Program.{Calls, running, run}
use wifi_sniffer.Program.Stays.{known_ap_stays}
use wifi_sniffer.Ui.{draw_ui, draw_ap_win, draw_ap_rows, draw_ap, draw_stats_win, draw_usage_win}
use wifi_sniffer.Ui.Calls.{c_string}
use wifi_sniffer.Ui.Packets.{
  draw_packet_win, draw_packet_rows, draw_packet_row, draw_packet, draw_management, draw_beacon,
  deref_ap, is_zero_packet,
}
use wifi_sniffer.Ui.Terminal.{draws, show_window, show_screen, show_round}
use wifi_sniffer.Tests.Data.{env_at, ap_mac, after_beacon}
use wifi_sniffer.Tests.Loop.{input, beacon_ap}
use wifi_sniffer.Tests.Rounds.{listed, data_attrs, beacon_heard}
use wifi_sniffer.Tests.User.{beacon-IsValid}

-- At second 120 with a data frame, and at second 130 without a message.
abbrev two_rounds : List Input
two_rounds =
    record input { env = env_at 120; messages = data_attrs ∷ [] }
    ∷ record input { env = env_at 130; messages = [] }
    ∷ []

abbrev no_calls : Calls
no_calls = record { term = []; sock = []; card = [] }

abbrev after_rounds : Loop × Calls
after_rounds = elim (run two_rounds listed no_calls) [
  | ok (running l, cs) ↦ (l, cs)
  | _ ↦ (listed, no_calls)
]

rounds_run : run two_rounds listed no_calls ≡ ok (running after_rounds.0, after_rounds.1)
unfolding run draws show_round show_screen show_window iteration handle_key after_key draw_ui
    draw_packet_win draw_packet_rows draw_packet_row is_zero_packet draw_ap_win draw_ap_rows
    draw_stats_win draw_usage_win receive_and_hop receive hop prune prune_loop frame_handler
    handle_frame_info zero_ap zero_packet zero_ctx find_ap get_ap select fixed_params
    mgmt_fixed_params printable ie_iter read_ies ie_iter_first ie_iter_step ie_iter_next write_ssid
    update_ssid visit_ie ie_loop iter_packet_ies adjust_found count_tx count_rx register_ap
    find_or_register note_mgmt advance handle_announcement dispatch count_packet handle_packet
    adjust adjust? name_new_ap has_freq add_freq note_beacon same_bytes draw_packet draw_management
    draw_beacon deref_ap c_string draw_ap
rounds_run = refl

beacon_known : lookup after_beacon.ctx ap_mac ≡ some beacon_ap
unfolding entry zero_ap zero_packet zero_ctx find_ap get_ap select fixed_params mgmt_fixed_params
    printable ie_iter read_ies ie_iter_first ie_iter_step ie_iter_next write_ssid update_ssid
    visit_ie ie_loop iter_packet_ies adjust_found count_tx count_rx register_ap find_or_register
    note_mgmt advance handle_announcement dispatch count_packet handle_packet adjust adjust?
    name_new_ap has_freq add_freq note_beacon same_bytes
beacon_known = refl

known_ap_stays_example :
    (b : Ap) × (lookup after_rounds.0.sniffer.ctx ap_mac ≡ some b) × (100 ≤ b.last_seen)
known_ap_stays_example =
    known_ap_stays two_rounds listed after_rounds.0 no_calls ap_mac 100 {a = beacon_ap}
      {cs' = after_rounds.1} beacon-IsValid beacon_known (omega (arith, beacon_heard))
      ((omega arith, omega arith), ((omega arith, omega arith), tt)) rounds_run
