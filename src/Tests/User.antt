-- ===== src/Tests/User.antt =====
-- Examples of the context, the information elements, the handler and the screen.
use wifi_sniffer.Prelude.{
  Returns, same_bytes, false, leb, ◌-◌, ◌%◌, ◌∷◌, if◌then◌else◌, null_pointer, ◌>>=◌, ◌≡◌, ◌≢◌,
  refl, [], ◌++◌, some, length, ok, fault, out_of_fuel, arith,
}
use wifi_sniffer.FrameTypes.{select, fixed_params, mgmt_fixed_params}
use wifi_sniffer.Ctx.{PacketInfo, zero_ap, zero_packet, zero_ctx, find_ap, get_ap}
use wifi_sniffer.Ctx.Invariant.{IsValid, zero_ctx-IsValid, All-replicate}
use wifi_sniffer.Ies.{
  printable, ie_iter, read_ies, ie_iter_first, ie_iter_step, ie_iter_next, write_ssid, update_ssid,
  visit_ie, ie_loop, iter_packet_ies,
}
use wifi_sniffer.Ies.Memory.{malloc, free, iter_packet_ies_in, iter_packet_ies_in_lem}
use wifi_sniffer.Ies.Elements.{apply_ies, encode_ies}
use wifi_sniffer.Ies.Roundtrip.{iter_packet_ies_refines}
use wifi_sniffer.Ies.Total.{iter_packet_ies_ends}
use wifi_sniffer.Handler.{
  adjust_found, count_tx, count_rx, register_ap, find_or_register, note_mgmt, advance,
  handle_announcement, dispatch, count_packet, handle_packet, handle_frame_info, frame_handler,
}
use wifi_sniffer.Handler.Entry.{adjust, adjust?, name_new_ap, has_freq, add_freq, note_beacon}
use wifi_sniffer.Handler.Total.{handle_packet-Returns}
use wifi_sniffer.Handler.Room.{WellFormed, HasRoom}
use wifi_sniffer.Handler.Announced.{HasPlace, handle_packet_announced}
use wifi_sniffer.Handler.Invariant.{handle_packet-IsValid, frame_handler-IsValid}
use wifi_sniffer.Handler.Buffer.{row, handle_packet_listed, handle_packet_unlisted}
use wifi_sniffer.Tests.Data.{
  env_at, start, beacon_packet, data_packet, elements, beacon_body, fixed_bytes, beacon_attrs,
  after_beacon, after_data,
}

-- The handler on the two frames.
pub beacon_handled : handle_packet (env_at 100) start beacon_packet beacon_body 20 ≡ ok after_beacon
unfolding zero_ap zero_packet zero_ctx find_ap get_ap select fixed_params mgmt_fixed_params
    printable ie_iter read_ies ie_iter_first ie_iter_step ie_iter_next write_ssid update_ssid
    visit_ie ie_loop iter_packet_ies adjust_found count_tx count_rx register_ap find_or_register
    note_mgmt advance handle_announcement dispatch count_packet handle_packet adjust adjust?
    name_new_ap has_freq add_freq note_beacon same_bytes
beacon_handled = refl

data_handled : handle_packet (env_at 100) start data_packet [] 0 ≡ ok after_data
unfolding zero_ap zero_packet zero_ctx find_ap get_ap adjust_found count_tx count_rx advance
    dispatch count_packet handle_packet
data_handled = refl

pub beacon-IsValid : IsValid after_beacon.ctx
beacon-IsValid =
    handle_packet-IsValid (env_at 100) start beacon_packet beacon_body 20 {t = after_beacon}
      zero_ctx-IsValid beacon_handled

frame_handler-IsValid_example : IsValid after_beacon.ctx
unfolding frame_handler handle_frame_info
frame_handler-IsValid_example =
    frame_handler-IsValid (env_at 100) start beacon_attrs {t = after_beacon} zero_ctx-IsValid
      beacon_handled

handle_packet_listed_example :
    ((q : PacketInfo) × (q.hdr ≡ data_packet.hdr) × (row after_data.ctx 0 ≡ some q))
    × (row after_data.ctx 3 ≡ row zero_ctx 2)
handle_packet_listed_example =
    handle_packet_listed (env_at 100) start data_packet [] 0 {t = after_data} 2 zero_ctx-IsValid
      refl data_handled (omega arith)

handle_packet_unlisted_example :
    ((q : PacketInfo) × (q.hdr ≡ beacon_packet.hdr) × (row after_beacon.ctx 19 ≡ some q))
    × (row after_beacon.ctx 2 ≡ row zero_ctx 2)
handle_packet_unlisted_example =
    handle_packet_unlisted (env_at 100) start beacon_packet beacon_body 20 {t = after_beacon} 2
      zero_ctx-IsValid refl beacon_handled (omega arith)

iter_packet_ies_refines_example :
    iter_packet_ies zero_ap beacon_packet
      (fixed_bytes ++ encode_ies elements)
      (length (fixed_bytes ++ encode_ies elements))
    ≡ apply_ies zero_ap elements
unfolding encode_ies select fixed_params mgmt_fixed_params
iter_packet_ies_refines_example =
    iter_packet_ies_refines zero_ap beacon_packet fixed_bytes elements refl (omega arith)
      (omega arith)

iter_packet_ies_ends_example :
    iter_packet_ies zero_ap beacon_packet beacon_body 20 ≢ fault out_of_fuel
iter_packet_ies_ends_example = iter_packet_ies_ends zero_ap beacon_packet beacon_body 20

handle_packet-Returns_example :
    Returns (handle_packet (env_at 140) after_beacon data_packet beacon_body 20)
handle_packet-Returns_example =
    handle_packet-Returns (env_at 140) after_beacon data_packet beacon_body 20 beacon-IsValid refl
      (omega arith)

pub elements-WellFormed : WellFormed 8 fixed_bytes elements
unfolding encode_ies select fixed_params mgmt_fixed_params
elements-WellFormed = record {
  fixed_length = refl;
  elements = omega arith;
  short = omega arith;
  fitting = (refl, (refl, tt));
}

start-HasPlace : HasPlace (env_at 100) beacon_packet start
unfolding zero_ctx zero_ap has_freq get_ap find_ap
start-HasPlace = record {
  aps_left = λ q. omega arith;
  color_fits = omega arith;
  colors = omega arith;
  freqs_left = All-replicate (HasRoom 2412) 1028 zero_ap refl;
}

handle_packet_announced_example : Returns (
    handle_packet
      (env_at 100)
      start
      beacon_packet
      (fixed_bytes ++ encode_ies elements)
      (length (fixed_bytes ++ encode_ies elements)))
handle_packet_announced_example =
    handle_packet_announced (env_at 100) start beacon_packet fixed_bytes elements zero_ctx-IsValid
      start-HasPlace refl refl elements-WellFormed

-- A beacon without memory for its iterator.
iter_packet_ies_in_lem_example : iter_packet_ies_in false zero_ap beacon_packet beacon_body 20 ≡ (
    if leb (20 % 256) (mgmt_fixed_params 8)
    then ok (zero_ap, [])
    else if false
    then (do
      b ← iter_packet_ies zero_ap beacon_packet beacon_body 20
      ok (b, malloc (20 % 256 - mgmt_fixed_params 8) ∷ free ∷ []))
    else fault null_pointer)
iter_packet_ies_in_lem_example = iter_packet_ies_in_lem false zero_ap beacon_packet beacon_body 20
