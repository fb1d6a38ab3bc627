-- ===== src/Tests/Rounds.antt =====
-- Examples of rounds of the main loop that run to their end.
use wifi_sniffer.Prelude.{
  ℕ, ◌+◌, ◌<◌, ◌≡◌, refl, some, none, List, [], ◌∷◌, ok, pos, arith, get_elem?, same_bytes,
}
use wifi_sniffer.Channel.{NlCall}
use wifi_sniffer.Ctx.{PacketInfo, get_ap, find_ap, zero_ap, zero_packet, zero_ctx}
use wifi_sniffer.FrameTypes.{select, fixed_params, mgmt_fixed_params}
use wifi_sniffer.Ies.{
  printable, ie_iter, read_ies, ie_iter_first, ie_iter_step, ie_iter_next, write_ssid, update_ssid,
  visit_ie, ie_loop, iter_packet_ies,
}
use wifi_sniffer.Handler.Entry.{adjust, adjust?, name_new_ap, has_freq, add_freq, note_beacon}
use wifi_sniffer.Handler.{
  Attrs, Sniffer, packet_of, adjust_found, count_tx, count_rx, register_ap, find_or_register,
  note_mgmt, advance, handle_announcement, dispatch, count_packet, handle_packet,
}
use wifi_sniffer.Ui.{Screen, draw_ui}
use wifi_sniffer.Ui.Brackets.{IsClean, draw_ui-Balanced}
use wifi_sniffer.Handler.Table.{lookup}
use wifi_sniffer.Handler.Table.Colours.{order}
use wifi_sniffer.MainLoop.Views.{on_key, handle_key-lookup}
use wifi_sniffer.MainLoop.{prune, Loop, Input, iteration, handle_key}
use wifi_sniffer.MainLoop.Progress.{IsPlain}
use wifi_sniffer.Ctx.Invariant.{zero_ctx-IsValid}
use wifi_sniffer.MainLoop.Fleeting.{probed_ap_leaves}
use wifi_sniffer.MainLoop.Departure.{silent_ap_leaves}
use wifi_sniffer.Tests.Data.{env_at, start, or_start, beacon_body, ap_mac, rt, frame, after_beacon}
use wifi_sniffer.Tests.User.{beacon-IsValid}
use wifi_sniffer.Tests.Loop.{hopping, input, beacon-NoOrphan, beacon_ap}

draw_ui-Balanced_example :
    (s : Screen) × (draw_ui 100 (pos 24) 0 after_beacon.ctx ≡ ok s) × IsClean s
draw_ui-Balanced_example =
    draw_ui-Balanced 100 (pos 24) 0 after_beacon.ctx beacon-IsValid beacon-NoOrphan

abbrev pub listed : Loop
listed = record hopping { sniffer = after_beacon }

abbrev pub data_attrs : Attrs
data_attrs = record { header = some (frame 2 0); radiotap = some rt; payload = some (1 ∷ 2 ∷ []) }

pub data-IsPlain : IsPlain data_attrs
data-IsPlain = record {
  info = frame 2 0;
  rt = rt;
  body = 1 ∷ 2 ∷ [];
  header = refl;
  radiotap = refl;
  payload = refl;
  other = refl;
  long = omega arith;
}

-- The key `l`, 31 seconds after the beacon, and a data frame.
abbrev late : Input
late = record input { key = pos 108; env = env_at 131; messages = data_attrs ∷ [] }

abbrev scrolled : Loop
scrolled = elim (handle_key (pos 24) (pos 108) listed) [ some m ↦ m | none ↦ listed ]

key_read : handle_key (pos 24) (pos 108) listed ≡ some scrolled
unfolding handle_key
key_read = refl

beacon_found : get_ap after_beacon.ctx ap_mac ≡ some 0
unfolding zero_ap zero_packet zero_ctx find_ap get_ap select fixed_params mgmt_fixed_params
    printable ie_iter read_ies ie_iter_first ie_iter_step ie_iter_next write_ssid update_ssid
    visit_ie ie_loop iter_packet_ies adjust_found count_tx count_rx register_ap find_or_register
    note_mgmt advance handle_announcement dispatch count_packet handle_packet adjust adjust?
    name_new_ap has_freq add_freq note_beacon same_bytes
beacon_found = refl

pub beacon_heard : beacon_ap.last_seen ≡ 100
unfolding zero_ap zero_packet zero_ctx find_ap get_ap select fixed_params mgmt_fixed_params
    printable ie_iter read_ies ie_iter_first ie_iter_step ie_iter_next write_ssid update_ssid
    visit_ie ie_loop iter_packet_ies adjust_found count_tx count_rx register_ap find_or_register
    note_mgmt advance handle_announcement dispatch count_packet handle_packet adjust adjust?
    name_new_ap has_freq add_freq note_beacon same_bytes
beacon_heard = refl

beacon_entry : get_elem? after_beacon.ctx.aps 0 ≡ some beacon_ap
unfolding zero_ap zero_packet zero_ctx find_ap get_ap select fixed_params mgmt_fixed_params
    printable ie_iter read_ies ie_iter_first ie_iter_step ie_iter_next write_ssid update_ssid
    visit_ie ie_loop iter_packet_ies adjust_found count_tx count_rx register_ap find_or_register
    note_mgmt advance handle_announcement dispatch count_packet handle_packet adjust adjust?
    name_new_ap has_freq add_freq note_beacon same_bytes
beacon_entry = refl

silent_ap_leaves_example :
    (r : Screen × Loop × List NlCall) × (iteration late listed ≡ ok (some r))
    × (get_ap r.1.sniffer.ctx ap_mac ≡ none)
silent_ap_leaves_example =
    silent_ap_leaves late listed ap_mac 0 beacon_ap {m = scrolled} beacon-IsValid beacon-NoOrphan
      refl (data-IsPlain, tt) key_read beacon_found beacon_entry (omega (arith, beacon_heard))

abbrev probe_response_packet : PacketInfo
probe_response_packet = packet_of (frame 0 5) rt

abbrev after_response : Sniffer
after_response = or_start (handle_packet (env_at 100) start probe_response_packet beacon_body 20)

response_handled :
    handle_packet (env_at 100) start probe_response_packet beacon_body 20 ≡ ok after_response
unfolding zero_ap zero_packet zero_ctx find_ap get_ap select fixed_params mgmt_fixed_params
    printable ie_iter read_ies ie_iter_first ie_iter_step ie_iter_next write_ssid update_ssid
    visit_ie ie_loop iter_packet_ies adjust_found count_tx count_rx register_ap find_or_register
    note_mgmt advance handle_announcement dispatch count_packet handle_packet adjust adjust?
    name_new_ap has_freq add_freq note_beacon same_bytes
response_handled = refl

unknown_before : get_ap start.ctx ap_mac ≡ none
unfolding zero_ctx get_ap find_ap zero_ap
unknown_before = refl

unused : get_elem? start.ctx.aps start.ctx.aps_count ≡ some zero_ap
unfolding zero_ctx zero_ap
unused = refl

unused_since : zero_ap.last_seen + 30 < 101
unfolding zero_ap
unused_since = omega arith

probed_ap_leaves_example :
    ((i : ℕ) × (get_ap after_response.ctx ap_mac ≡ some i))
    × (get_ap (prune 101 after_response.ctx) ap_mac ≡ none)
probed_ap_leaves_example =
    probed_ap_leaves (env_at 100) start probe_response_packet beacon_body 20 101 zero_ap
      {t = after_response} zero_ctx-IsValid refl refl refl refl unknown_before unused unused_since
      response_handled

handle_key-lookup_example :
    lookup scrolled.sniffer.ctx ap_mac
    ≡ on_key
        (pos 108)
        (get_elem? (order listed.sniffer.ctx) listed.sniffer.ctx.scroll)
        (lookup listed.sniffer.ctx)
        ap_mac
handle_key-lookup_example =
    handle_key-lookup (pos 24) (pos 108) listed ap_mac {m = scrolled} beacon-IsValid key_read
