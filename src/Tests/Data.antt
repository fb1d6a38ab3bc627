-- ===== src/Tests/Data.antt =====
-- A beacon, the frames and the contexts of the examples.
use wifi_sniffer.Prelude.{ℕ, some, true, List, [], ◌∷◌, replicate, pos, Outcome, ok, fault}
use wifi_sniffer.FrameTypes.{client_to_client}
use wifi_sniffer.Channel.{NlReplies}
use wifi_sniffer.Ctx.{RadiotapInfo, HdrInfo, PacketInfo, zero_ctx}
use wifi_sniffer.Ies.Elements.{Ie}
use wifi_sniffer.Handler.{Env, Sniffer, Attrs, handle_packet, packet_of}

abbrev pub env_at : ℕ → Env
env_at now = record { now = now; colors = 8 }

abbrev pub start : Sniffer
start = record { ctx = zero_ctx; cur_col = 0 }

abbrev pub ap_mac : List ℕ
ap_mac = 2 ∷ 20 ∷ 30 ∷ 40 ∷ 50 ∷ 60 ∷ []

abbrev pub station_mac : List ℕ
station_mac = 6 ∷ 7 ∷ 8 ∷ 9 ∷ 10 ∷ 11 ∷ []

abbrev pub rt : RadiotapInfo
rt = record { rssi = 200; channel_freq = 2412; channel_flags = 0 }

abbrev pub frame : ℕ → ℕ → HdrInfo
frame t st = record {
  src_mac = station_mac;
  dst_mac = ap_mac;
  bssid = ap_mac;
  frame_t = t;
  frame_st = st;
  retry = 0;
  len = 0;
  tods = 0;
  fromds = 0;
  frame_d = client_to_client;
}

abbrev pub beacon_packet : PacketInfo
beacon_packet = packet_of (frame 0 8) rt

abbrev pub data_packet : PacketInfo
data_packet = packet_of (frame 2 0) rt

-- The SSID "abc", and the supported rates.
abbrev pub elements : List Ie
elements =
    record { id = 0; payload = 97 ∷ 98 ∷ 99 ∷ [] } ∷ record { id = 1; payload = 130 ∷ [] } ∷ []

abbrev pub beacon_body : List ℕ
beacon_body =
    0 ∷ 0 ∷ 0 ∷ 0 ∷ 0 ∷ 0 ∷ 0 ∷ 0 ∷ 100 ∷ 0 ∷ 1 ∷ 4 ∷ 0 ∷ 3 ∷ 97 ∷ 98 ∷ 99 ∷ 1 ∷ 1 ∷ 130 ∷ []

abbrev pub fixed_bytes : List ℕ
fixed_bytes = replicate 12 0

abbrev pub beacon_attrs : Attrs
beacon_attrs = record { header = some (frame 0 8); radiotap = some rt; payload = some beacon_body }

abbrev pub or_start : Outcome Sniffer → Sniffer
or_start (ok s) = s
or_start (fault f) = start

-- The state after a beacon at second 100.
abbrev pub after_beacon : Sniffer
after_beacon = or_start (handle_packet (env_at 100) start beacon_packet beacon_body 20)

abbrev pub after_data : Sniffer
after_data = or_start (handle_packet (env_at 100) start data_packet [] 0)

-- A retune that succeeds.
abbrev pub good : NlReplies
good = record {
  socket_allocated = true;
  connect = pos 0;
  family = pos 28;
  msg_allocated = true;
  sent = pos 44;
  ack = pos 0;
}
