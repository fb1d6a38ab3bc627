-- ===== src/Ctx.antt =====
-- user/src/ctx.h, user/src/ctx.c and user/src/helpers.h: the state of the userspace program and the
-- lookup of an access point.
--
-- An array of C is a list of its full length. A pointer to an access point is its index in `aps`.
-- The windows of `struct ctx` belong to ncurses and are left out.
pub mod Invariant
pub mod Lookup
use wifi_sniffer.Prelude.{
  ℕ, zero, suc, ◌+◌, Bool, Option, none, some, List, [], ◌∷◌, same_bytes, if◌then◌else◌, replicate,
  take,
}
use mathlib.Core.Option
use wifi_sniffer.FrameTypes.{FrameDirection, client_to_client}
use wifi_sniffer.Channel.{channels_count}

abbrev pub packet_buf_size : ℕ
packet_buf_size = 20

abbrev pub ap_capacity : ℕ
ap_capacity = 1028

abbrev pub ssid_size : ℕ
ssid_size = 32

pub data ApView : Type 0 where
  main detail : ApView

pub record Ap : Type 0 where
  pub last_seen : ℕ
  pub rx_packets : ℕ
  pub tx_packets : ℕ
  pub beacons : ℕ
  pub retries : ℕ
  pub mac : List ℕ
  pub ssid : List ℕ
  pub ssid_len : ℕ
  pub col_pair : ℕ
  pub channel_freqs : List ℕ
  pub freq_num : ℕ
  pub view : ApView

pub record ActionFrame : Type 0 where
  pub cat : ℕ
  pub code : ℕ

-- `rssi` is the bit pattern of the `int8_t`.
pub record RadiotapInfo : Type 0 where
  pub rssi : ℕ
  pub channel_freq : ℕ
  pub channel_flags : ℕ

pub record HdrInfo : Type 0 where
  pub src_mac : List ℕ
  pub dst_mac : List ℕ
  pub bssid : List ℕ
  pub frame_t : ℕ
  pub frame_st : ℕ
  pub retry : ℕ
  pub len : ℕ
  pub tods : ℕ
  pub fromds : ℕ
  pub frame_d : FrameDirection

pub record PacketInfo : Type 0 where
  pub action : ActionFrame
  pub rt : RadiotapInfo
  pub hdr : HdrInfo

pub record Ctx : Type 0 where
  pub scroll : ℕ
  pub aps : List Ap
  pub aps_count : ℕ
  pub packets : ℕ
  pub packet_buf : List PacketInfo
  pub packet_buf_index : ℕ

-- What `calloc` leaves in each struct.
abbrev pub zero_mac : List ℕ
zero_mac = 0 ∷ 0 ∷ 0 ∷ 0 ∷ 0 ∷ 0 ∷ []

unfoldable pub zero_ap : Ap
zero_ap = record {
  last_seen = 0;
  rx_packets = 0;
  tx_packets = 0;
  beacons = 0;
  retries = 0;
  mac = zero_mac;
  ssid = replicate ssid_size 0;
  ssid_len = 0;
  col_pair = 0;
  channel_freqs = replicate channels_count 0;
  freq_num = 0;
  view = main;
}

unfoldable pub zero_packet : PacketInfo
zero_packet = record {
  action = record { cat = 0; code = 0 };
  rt = record { rssi = 0; channel_freq = 0; channel_flags = 0 };
  hdr = record {
    src_mac = zero_mac;
    dst_mac = zero_mac;
    bssid = zero_mac;
    frame_t = 0;
    frame_st = 0;
    retry = 0;
    len = 0;
    tods = 0;
    fromds = 0;
    frame_d = client_to_client;
  };
}

unfoldable pub zero_ctx : Ctx
zero_ctx = record {
  scroll = 0;
  aps = replicate ap_capacity zero_ap;
  aps_count = 0;
  packets = 0;
  packet_buf = replicate packet_buf_size zero_packet;
  packet_buf_index = 0;
}

-- `allocated` says whether `calloc` returned memory.
unfoldable pub init_ctx : Bool → Option Ctx
init_ctx allocated = if allocated then some zero_ctx else none

-- The loop of `get_ap` over the first `n` entries: the index of the first one with this address.
unfoldable pub find_ap : List Ap → ℕ → List ℕ → Option ℕ
find_ap [] n mac = none
find_ap (a ∷ aps) zero mac = none
find_ap (a ∷ aps) (suc n) mac =
    if same_bytes a.mac mac then some 0 else Option.map (λ i. i + 1) (find_ap aps n mac)

unfoldable pub get_ap : Ctx → List ℕ → Option ℕ
get_ap ctx mac = find_ap ctx.aps ctx.aps_count mac

-- The access points that are registered: the first `aps_count` entries of the array.
abbrev pub live_aps : Ctx → List Ap
live_aps ctx = take ctx.aps_count ctx.aps
