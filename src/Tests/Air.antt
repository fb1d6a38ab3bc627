-- ===== src/Tests/Air.antt =====
-- Examples of a beacon in the receive handler of the kernel module, and of frame names.
use wifi_sniffer.Prelude.{◌≡◌, ◌⊎◌, refl, none, some, [], ◌∷◌, ◌++◌, length, ok, arith}
use wifi_sniffer.FrameTypes.{sub_frame_string}
use wifi_sniffer.FrameTypes.Names.{frame_of_name, frame_of_name-sub_frame_string}
use wifi_sniffer.Ies.Elements.{encode_ies}
use wifi_sniffer.Kernel.{get_radiotap_info, sniffer_rx_handler, no_radiotap, radiotap_loop}
use wifi_sniffer.Kernel.Netlink.{send_to_userspace}
use wifi_sniffer.Kernel.Frames.{
  AirFrame, rt_bytes, air_bytes, IsDirect, direct_info, sniffer_rx_handler_direct,
}
use wifi_sniffer.Tests.Data.{ap_mac, fixed_bytes, elements}
use wifi_sniffer.Tests.Kernel.{headers, headers-IsStandard, stack, mac_of, sending}

abbrev pub beacon_frame : AirFrame
beacon_frame = record {
  radiotap = 0 ∷ 0 ∷ 0 ∷ 0 ∷ [];
  fc = 0x80;
  duration = 0;
  addr1 = mac_of 255;
  addr2 = ap_mac;
  addr3 = ap_mac;
  seq = 16;
  body = fixed_bytes ++ encode_ies elements;
  fcs = 1 ∷ 2 ∷ 3 ∷ 4 ∷ [];
}

pub beacon-IsDirect : IsDirect beacon_frame
beacon-IsDirect = record {
  rt_fits = omega arith;
  fc_fits = omega arith;
  no_ds = refl;
  addr1_size = refl;
  addr2_size = refl;
  addr3_size = refl;
  fcs_size = refl;
}

pub radiotap_read : get_radiotap_info headers (rt_bytes beacon_frame) ≡ ok no_radiotap
unfolding get_radiotap_info radiotap_loop
radiotap_read = refl

sniffer_rx_handler_direct_example :
    sniffer_rx_handler headers sending stack (air_bytes beacon_frame)
    ≡ ok (
        some (
          send_to_userspace sending
            (direct_info beacon_frame stack)
            no_radiotap
            (length beacon_frame.body)
            (beacon_frame.body ++ beacon_frame.fcs)))
sniffer_rx_handler_direct_example =
    sniffer_rx_handler_direct headers sending stack beacon_frame no_radiotap headers-IsStandard
      beacon-IsDirect refl radiotap_read

frame_of_name-sub_frame_string_example :
    ((sub_frame_string 0 8 ≡ "UNKNOWN") × (frame_of_name (sub_frame_string 0 8) ≡ none))
    ⊎ (frame_of_name (sub_frame_string 0 8) ≡ some (0, 8))
frame_of_name-sub_frame_string_example = frame_of_name-sub_frame_string 0 8
