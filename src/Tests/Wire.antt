-- ===== src/Tests/Wire.antt =====
-- Examples of messages as bytes, and of a beacon on its way from the card to the list of access points.
use wifi_sniffer.Prelude.{
  ℕ, ◌≡◌, ◌≢◌, refl, Option, none, some, List, [], ◌∷◌, ◌++◌, ◌==◌, if◌then◌else◌, ok, arith,
  length, drop,
}
use wifi_sniffer.Ctx.{HdrInfo, RadiotapInfo}
use wifi_sniffer.Handler.{Attrs}
use wifi_sniffer.Ies.Elements.{encode_ies}
use wifi_sniffer.Kernel.Netlink.{Sent, send_to_userspace}
use wifi_sniffer.Kernel.Fits.{AreBytes, PointsInside, AreBytes-drop}
use wifi_sniffer.Kernel.Typed.{Readable, sniffer_rx_handler-Readable}
use wifi_sniffer.Kernel.Frames.{air_bytes, direct_info}
use wifi_sniffer.Kernel.Wire.{Abi, Padding}
use wifi_sniffer.Kernel.Wire.Roundtrip.{FitsRadiotap, Link, FitsHdr, IsParser}
use wifi_sniffer.Tests.Data.{env_at, start, ap_mac, fixed_bytes, elements}
use wifi_sniffer.Tests.User.{elements-WellFormed}
use wifi_sniffer.Ctx.Invariant.{zero_ctx-IsValid, All-replicate}
use wifi_sniffer.Ctx.{zero_ctx, zero_ap, get_ap, find_ap}
use wifi_sniffer.Handler.{packet_of}
use wifi_sniffer.Handler.Entry.{has_freq}
use wifi_sniffer.Handler.Room.{HasRoom}
use wifi_sniffer.Handler.Announced.{HasPlace}
use wifi_sniffer.Kernel.{
  Ieee80211, no_radiotap, read_le16, read_mac, radiotap_arg, radiotap_loop, get_radiotap_info,
  parse_fc, parse_fromtods, strip_fcs, sniffer_rx_handler,
}
use wifi_sniffer.Kernel.Delivery.{Delivered, beacon-Delivered}
use wifi_sniffer.Tests.Kernel.{all_bytes-AreBytes, headers, headers-IsStandard, stack, sending}
use wifi_sniffer.Tests.Air.{beacon_frame, beacon-IsDirect, radiotap_read}

-- The last attribute with a number.
unfoldable last_attr : List (ℕ × List ℕ) → ℕ → Option (List ℕ)
last_attr [] t = none
last_attr ((u, bytes) ∷ message) t =
    let rest = last_attr message t in
    elim rest [ some later ↦ some later | none ↦ if u == t then some bytes else none ]

last_attr_last :
    (message : List (ℕ × List ℕ)) (t : ℕ) (bytes : List ℕ)
    → last_attr (message ++ ((t, bytes) ∷ [])) t ≡ some bytes
unfolding last_attr
last_attr_last [] t bytes = ground arith
last_attr_last ((u, b) ∷ message) t bytes = rw (last_attr_last message t bytes) refl

last_attr_before :
    (message : List (ℕ × List ℕ)) (t u : ℕ) (bytes : List ℕ)
    → t ≢ u
    → last_attr (message ++ ((u, bytes) ∷ [])) t ≡ last_attr message t
unfolding last_attr
last_attr_before [] t u bytes h = ground arith
last_attr_before ((v, b) ∷ message) t u bytes h = rw (last_attr_before message t u bytes h) refl

last_attr-IsParser : IsParser last_attr
last_attr-IsParser = record {
  last = λ message t bytes small. last_attr_last message t bytes;
  before = last_attr_before;
}

-- Gaps of 1, 1 and 2 bytes.
abbrev aligned : Abi
aligned = record { freq_gap = 1; len_gap = 1; dir_gap = 2 }

abbrev garbage : Padding
garbage = record { before_freq = 7 ∷ []; before_len = 8 ∷ []; before_dir = 9 ∷ 10 ∷ [] }

abbrev beacon_info : HdrInfo
beacon_info = direct_info beacon_frame stack

beacon_info-FitsHdr : FitsHdr beacon_info
beacon_info-FitsHdr = record {
  src_mac = refl;
  dst_mac = refl;
  bssid = refl;
  frame_t = omega arith;
  frame_st = omega arith;
  retry = omega arith;
  len = omega arith;
  tods = omega arith;
  fromds = omega arith;
}

abbrev link : Link
link = record {
  abi = aligned;
  pad = garbage;
  parse = last_attr;
  padding = record { freq = refl; len = refl; dir = refl };
  parser = last_attr-IsParser;
}

no_radiotap-FitsRadiotap : FitsRadiotap no_radiotap
no_radiotap-FitsRadiotap = record {
  rssi = omega arith;
  channel_freq = omega arith;
  channel_flags = omega arith;
}

start-HasPlace : HasPlace (env_at 100) (packet_of beacon_info no_radiotap) start
unfolding zero_ctx zero_ap has_freq get_ap find_ap
start-HasPlace = record {
  aps_left = λ q. omega arith;
  color_fits = omega arith;
  colors = omega arith;
  freqs_left = All-replicate (HasRoom 0) 1028 zero_ap refl;
}

beacon-Delivered_example :
    Delivered link headers sending stack
      (air_bytes beacon_frame)
      (env_at 100)
      start
      no_radiotap
      ap_mac
beacon-Delivered_example =
    beacon-Delivered link headers sending stack beacon_frame no_radiotap (env_at 100) start
      fixed_bytes elements headers-IsStandard beacon-IsDirect refl (omega arith) radiotap_read
      no_radiotap-FitsRadiotap refl refl refl elements-WellFormed refl zero_ctx-IsValid
      start-HasPlace

-- A card that gives the signal strength behind the length of the radiotap header.
abbrev signal_headers : Ieee80211
signal_headers = record headers {
  radiotap = λ bytes. some (record { index = 12; arg = some (drop 4 bytes) } ∷ []);
}

signal_headers-PointsInside : PointsInside signal_headers
signal_headers-PointsInside hdr fields b h =
    let e : fields ≡ record { index = 12; arg = some (drop 4 hdr) } ∷ [] = ground arith in
    rw e (AreBytes-drop 4 hdr b, tt)

stack-FitsHdr : FitsHdr stack
stack-FitsHdr = record {
  src_mac = refl;
  dst_mac = refl;
  bssid = refl;
  frame_t = omega arith;
  frame_st = omega arith;
  retry = omega arith;
  len = omega arith;
  tods = omega arith;
  fromds = omega arith;
}

abbrev signal : RadiotapInfo
signal = record no_radiotap { rssi = 0 }

abbrev sent_beacon : Sent
sent_beacon =
    send_to_userspace sending beacon_info signal (length beacon_frame.body)
      (beacon_frame.body ++ beacon_frame.fcs)

abbrev beacon_message : Attrs
beacon_message = record {
  header = some beacon_info;
  radiotap = some signal;
  payload = some beacon_frame.body;
}

beacon_sent :
    sniffer_rx_handler signal_headers sending stack (air_bytes beacon_frame) ≡ ok (some sent_beacon)
unfolding sniffer_rx_handler air_bytes read_le16 get_radiotap_info radiotap_loop radiotap_arg
    parse_fc parse_fromtods read_mac strip_fcs encode_ies send_to_userspace
beacon_sent = refl

message_sent : sent_beacon.message ≡ some beacon_message
unfolding send_to_userspace encode_ies
message_sent = refl

air-AreBytes : AreBytes (air_bytes beacon_frame)
unfolding air_bytes encode_ies
air-AreBytes = all_bytes-AreBytes (air_bytes beacon_frame) refl

sniffer_rx_handler-Readable_example : Readable link beacon_message
sniffer_rx_handler-Readable_example =
    sniffer_rx_handler-Readable link signal_headers sending stack (air_bytes beacon_frame)
      {sent = sent_beacon} {a = beacon_message} signal_headers-PointsInside stack-FitsHdr
      air-AreBytes beacon_sent message_sent
