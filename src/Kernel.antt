-- ===== src/Kernel.antt =====
-- kern/sniffer_main.c and kern/sniffer_main.h: the receive handler of the kernel module.
--
-- The kernel's headers are not part of the repository: the layout and the masks of 802.11 headers,
-- `ieee80211_hdrlen` and the radiotap iterator are the record `Ieee80211`, an argument of the
-- handler. A socket buffer is the list of its bytes, and a read behind its end is a fault.
pub mod Netlink
pub mod Module
pub mod Standard
pub mod Fields
pub mod Addresses
pub mod Transport
pub mod Frames
pub mod Wire
pub mod Fits
pub mod Short
pub mod Typed
pub mod Delivery
use wifi_sniffer.Prelude.{
  ℕ, ◌+◌, ◌-◌, ◌*◌, ◌/◌, ◌%◌, ◌^◌, bit_and, Option, none, some, List, [], ◌∷◌, ◌==◌, ltb, leb, ◌&&◌,
  if◌then◌else◌, length, get_elem?, take, drop, Outcome, ok, skb_overread, arg_overread, ◌>>=◌,
  ◌>>◌, or_fault, check,
}
use wifi_sniffer.FrameTypes.{FrameDirection, client_to_client, client_to_ap, ap_to_client, ap_to_ap}
use wifi_sniffer.Ctx.{RadiotapInfo, HdrInfo, zero_packet}
use Netlink.{Sent, SendReplies, send_to_userspace}

-- A field that the radiotap iterator stops at: `this_arg_index`, and the bytes at `this_arg`.
pub record RadiotapField : Type 0 where
  pub index : ℕ
  pub arg : Option (List ℕ)

pub record Ieee80211 : Type 0 where
  pub it_len : ℕ
  pub frame_control : ℕ
  pub addr1 : ℕ
  pub addr2 : ℕ
  pub addr3 : ℕ
  pub addr4 : ℕ
  pub ftype : ℕ
  pub stype : ℕ
  pub retry : ℕ
  pub tods : ℕ
  pub fromds : ℕ
  pub hdrlen : ℕ → ℕ
  pub db_antsignal : ℕ
  pub channel : ℕ
  -- The fields of a radiotap header, or `none` where the iterator's initialisation fails.
  pub radiotap : List ℕ → Option (List RadiotapField)

-- `le16_to_cpu` and `get_unaligned_le16` at byte `i` of a buffer.
unfoldable pub read_le16 : List ℕ → ℕ → Outcome ℕ
read_le16 bytes i = do
  lo ← or_fault (get_elem? bytes i) skb_overread
  hi ← or_fault (get_elem? bytes (i + 1)) skb_overread
  ok (lo + hi * 256)

-- `ether_addr_copy` from byte `i` of a buffer.
unfoldable pub read_mac : List ℕ → ℕ → Outcome (List ℕ)
read_mac bytes i = do check (leb (i + 6) (length bytes)) skb_overread; ok (take 6 (drop i bytes))

abbrev pub no_radiotap : RadiotapInfo
no_radiotap = record { rssi = 0; channel_freq = 0; channel_flags = 0 }

-- The switch on `this_arg_index`.
unfoldable pub radiotap_arg : Ieee80211 → ℕ → List ℕ → RadiotapInfo → Outcome RadiotapInfo
radiotap_arg k index arg info =
    if index == k.db_antsignal
    then (do rssi ← or_fault (get_elem? arg 0) arg_overread; ok (record info { rssi = rssi }))
    else if index == k.channel
    then (do
      freq ← read_le16 arg 0
      flags ← read_le16 arg 2
      ok (record info { channel_freq = freq; channel_flags = flags }))
    else ok info

-- The loop over the fields that the iterator gives.
unfoldable pub radiotap_loop : Ieee80211 → List RadiotapField → RadiotapInfo → Outcome RadiotapInfo
radiotap_loop k [] info = ok info
radiotap_loop k (f ∷ fs) info = do
  info' ← elim f.arg [ none ↦ ok info | some arg ↦ radiotap_arg k f.index arg info ]
  radiotap_loop k fs info'

unfoldable pub get_radiotap_info : Ieee80211 → List ℕ → Outcome RadiotapInfo
get_radiotap_info k rt_hdr = elim (k.radiotap rt_hdr) [
  | none ↦ ok no_radiotap
  | some fields ↦ radiotap_loop k fields no_radiotap
]

-- The addresses that are written, and the direction that is returned. What a branch does not write
-- keeps what `info` held.
unfoldable pub parse_fromtods :
    Ieee80211 → List ℕ → ℕ → ℕ → HdrInfo → Outcome (FrameDirection × HdrInfo)
parse_fromtods k hdr tods fromds info =
    if tods == 0 && fromds == 0
    then (do
      dst ← read_mac hdr k.addr1
      src ← read_mac hdr k.addr2
      bss ← read_mac hdr k.addr3
      ok (client_to_client, record info { dst_mac = dst; src_mac = src; bssid = bss }))
    else if tods == 1 && fromds == 0
    then (do
      dst ← read_mac hdr k.addr1
      bss ← read_mac hdr k.addr2
      src ← read_mac hdr k.addr3
      ok (client_to_ap, record info { dst_mac = dst; src_mac = src; bssid = bss }))
    else if tods == 0 && fromds == 1
    then (do
      bss ← read_mac hdr k.addr1
      src ← read_mac hdr k.addr2
      dst ← read_mac hdr k.addr3
      ok (ap_to_client, record info { dst_mac = dst; src_mac = src; bssid = bss }))
    else if tods == 1 && fromds == 1
    then (do
      dst ← read_mac hdr k.addr3
      src ← read_mac hdr k.addr4
      ok (ap_to_ap, record info { dst_mac = dst; src_mac = src }))
    else ok (client_to_client, info)

-- The fields of `hdr_info` that come from the frame control field, stored as `u8`.
unfoldable pub parse_fc : Ieee80211 → ℕ → HdrInfo → HdrInfo
parse_fc k fc info = record info {
  frame_t = bit_and fc k.ftype / 2 ^ 2 % 256;
  frame_st = bit_and fc k.stype / 2 ^ 4 % 256;
  retry = bit_and fc k.retry / 2 ^ 11 % 256;
  tods = bit_and fc k.tods / 2 ^ 8 % 256;
  fromds = bit_and fc k.fromds / 2 ^ 9 % 256;
}

-- The length of the body without the frame check sequence.
unfoldable pub strip_fcs : ℕ → ℕ
strip_fcs body_len = if leb 4 body_len then body_len - 4 else body_len

-- `stack` is what the uninitialised `struct hdr_info` holds. The result is what
-- `send_to_userspace` did; `none` is an early RX_HANDLER_PASS. The handler always passes the frame
-- on.
unfoldable pub sniffer_rx_handler :
    Ieee80211 → SendReplies → HdrInfo → List ℕ → Outcome (Option Sent)
sniffer_rx_handler k replies stack skb = do
  rt_len ← read_le16 skb k.it_len
  if ltb (length skb) rt_len then ok none else (do
    rt_info ← get_radiotap_info k (take rt_len skb)
    let hdr = drop rt_len skb
    fc ← read_le16 hdr k.frame_control
    let hdr_len = k.hdrlen fc
    if ltb (length skb) (rt_len + hdr_len) then ok none else (do
      let draft = parse_fc k fc stack
      (dir, info) ← parse_fromtods k hdr draft.tods draft.fromds draft
      let body_len = strip_fcs (length skb - rt_len - hdr_len)
      ok (
          some (
            send_to_userspace replies (record info { frame_d = dir }) rt_info body_len
              (drop hdr_len hdr)))))
