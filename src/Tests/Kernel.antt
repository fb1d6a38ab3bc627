-- ===== src/Tests/Kernel.antt =====
-- Examples of the kernel module: frame headers, messages, loading and unloading.
use wifi_sniffer.Prelude.{
  ℕ, ◌%◌, ◌≡◌, ◌⊎◌, refl, false, Bool, ltb, ◌&&◌, drop, true, some, ◌==◌, List, [], ◌∷◌, ◌++◌, take,
  if◌then◌else◌, count, pos, negsuc, ok, fault, skb_overread, arith,
}
use wifi_sniffer.FrameTypes.{client_to_ap, ap_to_ap}
use wifi_sniffer.Ctx.{HdrInfo}
use wifi_sniffer.Handler.{handle_packet, frame_handler, packet_of}
use wifi_sniffer.Kernel.{
  Ieee80211, no_radiotap, read_le16, read_mac, parse_fc, parse_fromtods, radiotap_loop,
  get_radiotap_info, sniffer_rx_handler,
}
use wifi_sniffer.Kernel.Fits.{AreBytes}
use wifi_sniffer.Kernel.Short.{sniffer_rx_handler_short}
use wifi_sniffer.Kernel.Standard.{IsStandard}
use wifi_sniffer.Kernel.Fields.{FcBits, parse_fc-FcBits}
use wifi_sniffer.Kernel.Addresses.{standard_roles, parse_fromtods_equal, parse_fromtods_mixed}
use wifi_sniffer.Kernel.Netlink.{SendReplies, send_to_userspace}
use wifi_sniffer.Kernel.Transport.{frame_handler-send}
use wifi_sniffer.Kernel.Module.{InitReplies}
use wifi_sniffer.Kernel.Module.Lifecycle.{
  loads, locks_well, is_put, is_register, is_unregister, is_register_family, is_unregister_family,
  lifecycle, lifecycle-balanced,
}
use wifi_sniffer.Tests.Data.{env_at, start, rt, frame, beacon_body, beacon_attrs}

-- The numbers of the kernel's headers, with headers of 24 bytes and a card that gives no radiotap
-- fields.
abbrev pub headers : Ieee80211
headers = record {
  it_len = 2;
  frame_control = 0;
  addr1 = 4;
  addr2 = 10;
  addr3 = 16;
  addr4 = 24;
  ftype = 0x000c;
  stype = 0x00f0;
  retry = 0x0800;
  tods = 0x0100;
  fromds = 0x0200;
  hdrlen = λ fc. 24;
  db_antsignal = 12;
  channel = 3;
  radiotap = λ bytes. some [];
}

pub headers-IsStandard : IsStandard headers
headers-IsStandard = record {
  it_len = refl;
  frame_control = refl;
  addr1 = refl;
  addr2 = refl;
  addr3 = refl;
  addr4 = refl;
  ftype = refl;
  stype = refl;
  retry = refl;
  tods = refl;
  fromds = refl;
}

abbrev pub stack : HdrInfo
stack = frame 0 0

-- Four address fields of a header, with distinct bytes.
abbrev pub mac_of : ℕ → List ℕ
mac_of n = n ∷ n ∷ n ∷ n ∷ n ∷ n ∷ []

abbrev header : List ℕ
header = 8 ∷ 1 ∷ 0 ∷ 0 ∷ (mac_of 1 ++ (mac_of 2 ++ (mac_of 3 ++ (0 ∷ 0 ∷ mac_of 4))))

parse_fc-FcBits_example : FcBits 0x0180 (parse_fc headers 0x0180 stack)
parse_fc-FcBits_example = parse_fc-FcBits headers 0x0180 stack headers-IsStandard (omega arith)

abbrev bridged : HdrInfo
bridged = record stack { dst_mac = mac_of 3; src_mac = mac_of 4 }

bridged_read : parse_fromtods headers header 1 1 stack ≡ ok (ap_to_ap, bridged)
unfolding parse_fromtods read_mac
bridged_read = refl

parse_fromtods_equal_example :
    (bridged.dst_mac ≡ (standard_roles header 1 1).da)
    × (bridged.src_mac ≡ (standard_roles header 1 1).sa)
    × (bridged.bssid ≡ (if 1 == 0 then (standard_roles header 1 1).bssid else stack.bssid))
parse_fromtods_equal_example =
    parse_fromtods_equal headers header 1 stack {dir = ap_to_ap} {info = bridged} headers-IsStandard
      (omega arith) bridged_read

abbrev uplink : HdrInfo
uplink = record stack { dst_mac = mac_of 1; src_mac = mac_of 3; bssid = mac_of 2 }

uplink_read : parse_fromtods headers header 1 0 stack ≡ ok (client_to_ap, uplink)
unfolding parse_fromtods read_mac
uplink_read = refl

parse_fromtods_mixed_example :
    let r = standard_roles header 1 0 in
    let tods : ℕ = 1 in
    let fromds : ℕ = 0 in
    ((tods ≡ 1) × (uplink.dst_mac ≡ r.bssid) × (uplink.bssid ≡ r.sa) × (uplink.src_mac ≡ r.da))
    ⊎ ((fromds ≡ 1) × (uplink.dst_mac ≡ r.sa) × (uplink.src_mac ≡ r.bssid) × (uplink.bssid ≡ r.da))
parse_fromtods_mixed_example =
    parse_fromtods_mixed headers header 1 0 stack {dir = client_to_ap} {info = uplink}
      headers-IsStandard refl uplink_read

abbrev pub sending : SendReplies
sending = record {
  allocated = true;
  header_put = true;
  hdr_info_put = true;
  rt_info_put = true;
  body_put = true;
  multicast = pos 0;
}

beacon_sent : (send_to_userspace sending (frame 0 8) rt 20 beacon_body).message ≡ some beacon_attrs
unfolding send_to_userspace
beacon_sent = refl

frame_handler-send_example :
    frame_handler (env_at 100) start beacon_attrs
    ≡ handle_packet
        (env_at 100)
        start
        (packet_of (frame 0 8) rt)
        (take (20 % 256) beacon_body)
        (20 % 256)
frame_handler-send_example =
    frame_handler-send sending (frame 0 8) rt 20 beacon_body {attrs = beacon_attrs} (env_at 100)
      start (omega arith) beacon_sent

abbrev refused : InitReplies
refused = record { device_found = true; registered = negsuc 15 }

lifecycle-balanced_example :
    (count is_put (lifecycle refused) ≡ (if refused.device_found then 1 else 0))
    × (count is_register (lifecycle refused) ≡ (if refused.device_found then 1 else 0))
    × (count is_unregister (lifecycle refused) ≡ (if loads refused then 1 else 0))
    × (count is_register_family (lifecycle refused) ≡ (if loads refused then 1 else 0))
    × (count is_unregister_family (lifecycle refused) ≡ (if loads refused then 1 else 0))
    × (locks_well false (lifecycle refused) ≡ true)
lifecycle-balanced_example = lifecycle-balanced refused

-- A card whose frames have headers of 10 bytes, as acknowledgements do.
abbrev ack_headers : Ieee80211
ack_headers = record headers { hdrlen = λ fc. 10 }

ack_headers-IsStandard : IsStandard ack_headers
ack_headers-IsStandard = record {
  it_len = refl;
  frame_control = refl;
  addr1 = refl;
  addr2 = refl;
  addr3 = refl;
  addr4 = refl;
  ftype = refl;
  stype = refl;
  retry = refl;
  tods = refl;
  fromds = refl;
}

-- A radiotap header, frame control, duration, one address and the frame check sequence.
abbrev acknowledgement : List ℕ
acknowledgement =
    0 ∷ 0 ∷ 8 ∷ 0 ∷ 0 ∷ 0 ∷ 0 ∷ 0 ∷ 0xd4 ∷ 0 ∷ 0 ∷ 0 ∷ (mac_of 1 ++ (1 ∷ 2 ∷ 3 ∷ 4 ∷ []))

abbrev pub all_bytes : List ℕ → Bool
all_bytes [] = true
all_bytes (n ∷ ns) = ltb n 256 && all_bytes ns

pub all_bytes-AreBytes : (ns : List ℕ) → all_bytes ns ≡ true → AreBytes ns
all_bytes-AreBytes [] h = tt
all_bytes-AreBytes (n ∷ ns) h = (ground arith, all_bytes-AreBytes ns (ground arith))

ack_length : read_le16 acknowledgement 2 ≡ ok 8
unfolding read_le16
ack_length = refl

ack_radiotap : get_radiotap_info ack_headers (take 8 acknowledgement) ≡ ok no_radiotap
unfolding get_radiotap_info radiotap_loop
ack_radiotap = refl

ack_control : read_le16 (drop 8 acknowledgement) 0 ≡ ok 0xd4
unfolding read_le16
ack_control = refl

sniffer_rx_handler_short_example :
    sniffer_rx_handler ack_headers sending stack acknowledgement ≡ fault skb_overread
sniffer_rx_handler_short_example =
    sniffer_rx_handler_short ack_headers sending stack acknowledgement {rt_len = 8} {fc = 0xd4}
      {rt = no_radiotap} ack_headers-IsStandard (all_bytes-AreBytes acknowledgement refl) ack_length
      ack_radiotap ack_control (omega arith) (omega arith)
