-- ===== src/Tests/Loop.antt =====
-- Examples of the main loop: keys, removals, the screen, and a whole round.
use wifi_sniffer.Prelude.{
  minus_one, pos, Returns, ℕ, zero, suc, ◌+◌, ◌-◌, ◌%◌, ◌≡◌, ◌≢◌, refl, true, false, not, ◌&&◌,
  ◌==◌, Bool, none, some, List, [], ◌∷◌, get_elem?, negsuc, ok, fault, arith, subst, same_bytes,
}
use wifi_sniffer.FrameTypes.{select, fixed_params, mgmt_fixed_params}
use wifi_sniffer.Channel.{NlCall, channels_count}
use wifi_sniffer.Ies.{
  printable, ie_iter, read_ies, ie_iter_first, ie_iter_step, ie_iter_next, write_ssid, update_ssid,
  visit_ie, ie_loop, iter_packet_ies,
}
use wifi_sniffer.Handler.Entry.{adjust, adjust?, name_new_ap, has_freq, add_freq, note_beacon}
use wifi_sniffer.Ctx.{
  Ap, PacketInfo, Ctx, zero_ap, zero_packet, zero_ctx, find_ap, get_ap, live_aps,
}
use wifi_sniffer.Ctx.Invariant.{IsValid, zero_ctx-IsValid}
use wifi_sniffer.Handler.{
  Sniffer, adjust_found, count_tx, count_rx, register_ap, find_or_register, note_mgmt, advance,
  handle_announcement, dispatch, count_packet, handle_packet, handle_frame_info, frame_handler,
}
use wifi_sniffer.Handler.Stale.{Inherits, register_ap-remove_ap}
use wifi_sniffer.Ui.{Screen, draw_ap_rows, draw_ap_win, draw_stats_win, draw_usage_win, draw_ui}
use wifi_sniffer.Ui.Packets.{
  row_index, is_zero_packet, draw_packet_row, draw_packet_rows, draw_packet_win,
}
use wifi_sniffer.Ui.Total.{IsOrphan, NoOrphan, draw_ui-Returns}
use wifi_sniffer.MainLoop.Scroll.{IsScrolled, iteration-IsScrolled}
use wifi_sniffer.MainLoop.{
  context_key, Loop, Input, received, hop_time, copy_down, shift_down, remove_ap, handle_key,
  prune_loop, prune, receive, hop, receive_and_hop, after_key, iteration,
}
use wifi_sniffer.MainLoop.Prune.{unexpired, prune_refines}
use wifi_sniffer.MainLoop.Invariant.{iteration-IsValid}
use wifi_sniffer.MainLoop.Silence.{beacon_then_silence}
use wifi_sniffer.MainLoop.Hopping.{hop_rounds, hop_rounds_lem}
use wifi_sniffer.Tests.Data.{
  env_at, start, ap_mac, station_mac, beacon_packet, beacon_body, beacon_attrs, after_beacon, good,
}
use wifi_sniffer.Tests.User.{beacon_handled, beacon-IsValid}

prune_refines_example :
    live_aps (prune 131 after_beacon.ctx) ≡ unexpired 131 (live_aps after_beacon.ctx)
prune_refines_example = prune_refines 131 after_beacon.ctx beacon-IsValid

beacon_then_silence_example :
    (get_ap (prune 131 after_beacon.ctx) ap_mac ≡ none)
    × (draw_packet_win (prune 131 after_beacon.ctx) ≢ ok [])
beacon_then_silence_example =
    beacon_then_silence (env_at 100) start beacon_packet beacon_body 20 131 {t = after_beacon}
      {d = []} zero_ctx-IsValid refl refl beacon_handled (omega arith)

-- No packet of a list is an orphan.
unfoldable no_orphans : Ctx → List PacketInfo → Bool
no_orphans c [] = true
no_orphans c (p ∷ ps) =
    not (
      p.hdr.frame_t == 0
      && p.hdr.frame_st == 8
      && elim (get_ap c p.hdr.bssid) [ none ↦ true | some i ↦ false ])
    && no_orphans c ps

no_orphans_sound :
    (c : Ctx) (ps : List PacketInfo) (k : ℕ) (p : PacketInfo)
    → no_orphans c ps ≡ true
    → get_elem? ps k ≡ some p
    → ¬ IsOrphan c p
unfolding no_orphans
no_orphans_sound c [] k p h g o = ground arith
no_orphans_sound c (q ∷ ps) zero p h g (t, st, gone) =
    let e : q ≡ p = ground arith in
    let sent : no_orphans c (p ∷ ps) ≡ true = subst (λ r. no_orphans c (r ∷ ps) ≡ true) e h in
    ground (arith, t, st, gone, sent)
no_orphans_sound c (q ∷ ps) (suc k) p h g o = no_orphans_sound c ps k p (ground arith) g o

beacon_listed : no_orphans after_beacon.ctx after_beacon.ctx.packet_buf ≡ true
unfolding no_orphans zero_ap zero_packet zero_ctx find_ap get_ap select fixed_params
    mgmt_fixed_params printable ie_iter read_ies ie_iter_first ie_iter_step ie_iter_next write_ssid
    update_ssid visit_ie ie_loop iter_packet_ies adjust_found count_tx count_rx register_ap
    find_or_register note_mgmt advance handle_announcement dispatch count_packet handle_packet
    adjust adjust? name_new_ap has_freq add_freq note_beacon same_bytes
beacon_listed = refl

pub beacon-NoOrphan : NoOrphan after_beacon.ctx
beacon-NoOrphan i p r =
    no_orphans_sound after_beacon.ctx after_beacon.ctx.packet_buf
      (row_index after_beacon.ctx.packet_buf_index i) p beacon_listed r

draw_ui-Returns_example : Returns (draw_ui 100 (pos 24) 0 after_beacon.ctx)
draw_ui-Returns_example =
    draw_ui-Returns 100 (pos 24) 0 after_beacon.ctx beacon-IsValid beacon-NoOrphan

abbrev pub hopping : Loop
hopping = record {
  socket = true;
  sniffer = start;
  paused = false;
  hopping = true;
  hop_timer = 2;
  channel = 6;
}

abbrev pub input : Input
input = record {
  key = negsuc 0;
  rows = pos 24;
  env = env_at 100;
  messages = beacon_attrs ∷ [];
  recv = received;
  if_index = 3;
  replies = good;
}

hop_rounds_lem_example :
    ((hop_rounds (input ∷ input ∷ input ∷ []) hopping).hop_timer ≡ hop_time)
    × ((hop_rounds (input ∷ input ∷ input ∷ []) hopping).channel ≡ (6 + 1) % channels_count)
hop_rounds_lem_example = hop_rounds_lem (input ∷ input ∷ input ∷ []) hopping refl refl

abbrev result : Screen × Loop × List NlCall
result = elim (iteration input hopping) [
  | ok (some r) ↦ r
  | _ ↦ (record { stats_win = []; packet_win = []; ap_win = []; usage_win = [] }, hopping, [])
]

round_runs : iteration input hopping ≡ ok (some result)
unfolding iteration handle_key after_key draw_ui draw_packet_win draw_packet_rows draw_packet_row
    is_zero_packet draw_ap_win draw_ap_rows draw_stats_win draw_usage_win receive_and_hop receive
    hop prune prune_loop frame_handler handle_frame_info zero_ap zero_packet zero_ctx find_ap get_ap
    select fixed_params mgmt_fixed_params printable ie_iter read_ies ie_iter_first ie_iter_step
    ie_iter_next write_ssid update_ssid visit_ie ie_loop iter_packet_ies adjust_found count_tx
    count_rx register_ap find_or_register note_mgmt advance handle_announcement dispatch
    count_packet handle_packet adjust adjust? name_new_ap has_freq add_freq note_beacon same_bytes
round_runs = refl

iteration-IsValid_example : IsValid result.1.sniffer.ctx
iteration-IsValid_example = iteration-IsValid input hopping {r = result} zero_ctx-IsValid round_runs

at_top : IsScrolled hopping.sniffer.ctx
unfolding zero_ctx
at_top = omega arith

iteration-IsScrolled_example : IsScrolled result.1.sniffer.ctx
iteration-IsScrolled_example =
    iteration-IsScrolled input hopping 24 {r = result} refl zero_ctx-IsValid at_top round_runs

-- A window that could not be opened: `J` moves the scroll position behind the empty list.
unopened : (context_key minus_one b'J' zero_ctx).scroll ≡ 1
unfolding context_key zero_ctx
unopened = refl

abbrev pub beacon_ap : Ap
beacon_ap = elim (get_elem? after_beacon.ctx.aps 0) [ some a ↦ a | none ↦ zero_ap ]

one_ap : after_beacon.ctx.aps_count ≡ 1
unfolding zero_ap zero_packet zero_ctx find_ap get_ap select fixed_params mgmt_fixed_params
    printable ie_iter read_ies ie_iter_first ie_iter_step ie_iter_next write_ssid update_ssid
    visit_ie ie_loop iter_packet_ies adjust_found count_tx count_rx register_ap find_or_register
    note_mgmt advance handle_announcement dispatch count_packet handle_packet adjust adjust?
    name_new_ap has_freq add_freq note_beacon same_bytes remove_ap shift_down copy_down
one_ap = refl

last_ap : get_elem? after_beacon.ctx.aps (after_beacon.ctx.aps_count - 1) ≡ some beacon_ap
unfolding zero_ap zero_packet zero_ctx find_ap get_ap select fixed_params mgmt_fixed_params
    printable ie_iter read_ies ie_iter_first ie_iter_step ie_iter_next write_ssid update_ssid
    visit_ie ie_loop iter_packet_ies adjust_found count_tx count_rx register_ap find_or_register
    note_mgmt advance handle_announcement dispatch count_packet handle_packet adjust adjust?
    name_new_ap has_freq add_freq note_beacon same_bytes remove_ap shift_down copy_down
last_ap = refl

-- The access point is removed, and another station announces itself.
abbrev next : ℕ × Sniffer
next =
    elim (register_ap (env_at 140) (record after_beacon { ctx = remove_ap after_beacon.ctx 0 })
      station_mac) [ ok r ↦ r | fault f ↦ (0, start) ]

next_registered :
    register_ap
      (env_at 140)
      (record after_beacon { ctx = remove_ap after_beacon.ctx 0 })
      station_mac
    ≡ ok next
unfolding zero_ap zero_packet zero_ctx find_ap get_ap select fixed_params mgmt_fixed_params
    printable ie_iter read_ies ie_iter_first ie_iter_step ie_iter_next write_ssid update_ssid
    visit_ie ie_loop iter_packet_ies adjust_found count_tx count_rx register_ap find_or_register
    note_mgmt advance handle_announcement dispatch count_packet handle_packet adjust adjust?
    name_new_ap has_freq add_freq note_beacon same_bytes remove_ap shift_down copy_down
next_registered = refl

register_ap-remove_ap_example :
    (b : Ap) × (get_elem? next.1.ctx.aps next.0 ≡ some b) × Inherits beacon_ap b station_mac
register_ap-remove_ap_example =
    register_ap-remove_ap (env_at 140) after_beacon 0 station_mac beacon_ap {i = next.0}
      {t = next.1} beacon-IsValid (omega (arith, one_ap)) last_ap next_registered
