-- ===== src/Kernel/Wire.antt =====
-- The bytes of the netlink messages: common/common.h, the structs of kern/sniffer_netlink.h and of
-- user/src/ctx.h, the `nla_put`s of kern/sniffer_netlink.c and the attributes that `frame_handler`
-- (user/src/main.c) takes out.
--
-- The compiler's layout is an argument: `Abi` has the sizes of the gaps between the fields, and
-- `Padding` what the kernel's memory held in them. Numbers are stored with the low byte first, and an
-- enumeration as four bytes. libnl's `nla_parse` is the argument `parse`.
use wifi_sniffer.Prelude.{
  ℕ, ◌+◌, ◌*◌, ◌/◌, ◌%◌, ◌^◌, ◌≤◌, ◌<◌, ◌≡◌, ◌≢◌, Option, none, some, String, List, [], ◌∷◌, ◌++◌,
  length, get_elem?, take, drop, Outcome, ok, fault, arg_overread, no_enumerator, or_fault, ◌>>=◌,
  ◌==◌, if◌then◌else◌,
}
use wifi_sniffer.FrameTypes.{FrameDirection, client_to_client, client_to_ap, ap_to_client, ap_to_ap}
use wifi_sniffer.Ctx.{RadiotapInfo, HdrInfo}
use wifi_sniffer.Handler.{Attrs}
use wifi_sniffer.Kernel.Frames.{le16}
pub mod Roundtrip

-- The attributes of a message, and their numbers.
pub data SnifferAttr : Type 0 where
  attr_unspec attr_radiotap attr_header attr_body : SnifferAttr

abbrev pub attr_id : SnifferAttr → ℕ
attr_id attr_unspec = 0
attr_id attr_radiotap = 1
attr_id attr_header = 2
attr_id attr_body = 3

-- `__SNIFFER_ATTR_MAX - 1`.
abbrev pub attr_max : ℕ
attr_max = 3

pub record GenlFamily : Type 0 where
  pub name : String
  pub version : ℕ
  pub maxattr : ℕ
  pub mcgrps : List String

abbrev pub sniffer_genl_family : GenlFamily
sniffer_genl_family = record {
  name = "wifi_sniffer";
  version = 1;
  maxattr = attr_max;
  mcgrps = "sniffer_frame" ∷ [];
}

-- The gaps before `channel_freq`, before `len` and before `frame_d`.
pub record Abi : Type 0 where
  pub freq_gap : ℕ
  pub len_gap : ℕ
  pub dir_gap : ℕ

pub record Padding : Type 0 where
  pub before_freq : List ℕ
  pub before_len : List ℕ
  pub before_dir : List ℕ

abbrev pub direction_value : FrameDirection → ℕ
direction_value client_to_client = 0
direction_value client_to_ap = 1
direction_value ap_to_client = 2
direction_value ap_to_ap = 3

abbrev pub direction_of : ℕ → Option FrameDirection
direction_of n =
    if n == 0
    then some client_to_client
    else if n == 1
    then some client_to_ap
    else if n == 2
    then some ap_to_client
    else if n == 3
    then some ap_to_ap
    else none

-- `struct radiotap_info` in the kernel's memory.
unfoldable pub radiotap_bytes : Padding → RadiotapInfo → List ℕ
radiotap_bytes pad r =
    r.rssi % 256
    ∷ (pad.before_freq ++ le16 (r.channel_freq % 2 ^ 16) (le16 (r.channel_flags % 2 ^ 16) []))

-- `struct hdr_info` in the kernel's memory, from `len` on and as a whole.
abbrev pub hdr_tail : Padding → HdrInfo → List ℕ
hdr_tail pad h = le16 (h.len % 2 ^ 16) (
    h.tods % 256
    ∷ h.fromds % 256
    ∷ (pad.before_dir ++ (direction_value h.frame_d ∷ 0 ∷ 0 ∷ 0 ∷ [])))

unfoldable pub hdr_info_bytes : Padding → HdrInfo → List ℕ
hdr_info_bytes pad h =
    h.src_mac
    ++ (h.dst_mac
        ++ (h.bssid
            ++ (h.frame_t % 256
                ∷ h.frame_st % 256
                ∷ h.retry % 256
                ∷ (pad.before_len ++ hdr_tail pad h))))

-- The attributes in the order of the `nla_put`s.
abbrev pub put_attributes : Padding → HdrInfo → RadiotapInfo → List ℕ → List (ℕ × List ℕ)
put_attributes pad h r body =
    (attr_id attr_header, hdr_info_bytes pad h)
    ∷ (attr_id attr_radiotap, radiotap_bytes pad r)
    ∷ (attr_id attr_body, body)
    ∷ []

-- Reads through a pointer to an attribute's payload.
abbrev pub read_u8 : List ℕ → ℕ → Outcome ℕ
read_u8 bytes i = or_fault (get_elem? bytes i) arg_overread

abbrev pub read_u16 : List ℕ → ℕ → Outcome ℕ
read_u16 bytes i = do low ← read_u8 bytes i; high ← read_u8 bytes (i + 1); ok (low + 256 * high)

-- A value that is no enumerator is outside the model.
abbrev pub read_direction : List ℕ → ℕ → Outcome FrameDirection
read_direction bytes i = do
  low ← read_u16 bytes i
  high ← read_u16 bytes (i + 2)
  or_fault (direction_of (low + 2 ^ 16 * high)) no_enumerator

-- `struct radiotap_info` and `struct hdr_info` as userspace finds them.
unfoldable pub read_radiotap_info : Abi → List ℕ → Outcome RadiotapInfo
read_radiotap_info abi bytes = do
  rssi ← read_u8 bytes 0
  freq ← read_u16 bytes (1 + abi.freq_gap)
  flags ← read_u16 bytes (1 + abi.freq_gap + 2)
  ok (record { rssi = rssi; channel_freq = freq; channel_flags = flags })

unfoldable pub read_hdr_info : Abi → List ℕ → Outcome HdrInfo
read_hdr_info abi bytes = do
  frame_t ← read_u8 bytes 18
  frame_st ← read_u8 bytes 19
  retry ← read_u8 bytes 20
  len ← read_u16 bytes (21 + abi.len_gap)
  tods ← read_u8 bytes (21 + abi.len_gap + 2)
  fromds ← read_u8 bytes (21 + abi.len_gap + 3)
  frame_d ← read_direction bytes (21 + abi.len_gap + 4 + abi.dir_gap)
  ok (record {
    src_mac = take 6 bytes;
    dst_mac = take 6 (drop 6 bytes);
    bssid = take 6 (drop 12 bytes);
    frame_t = frame_t;
    frame_st = frame_st;
    retry = retry;
    len = len;
    tods = tods;
    fromds = fromds;
    frame_d = frame_d;
  })

-- What a reader makes of an attribute, if it is there.
abbrev pub read_attr {ℓ} :
    {A : Type ℓ} → (List ℕ → Outcome A) → Option (List ℕ) → Outcome (Option A)
read_attr f none = ok none
read_attr f (some bytes) = f bytes >>= λ a. ok (some a)

-- The attributes that `frame_handler` takes out of a message.
unfoldable pub read_message :
    Abi → (List (ℕ × List ℕ) → ℕ → Option (List ℕ)) → List (ℕ × List ℕ) → Outcome Attrs
read_message abi parse message = do
  info ← read_attr (read_hdr_info abi) (parse message (attr_id attr_header))
  rt ← read_attr (read_radiotap_info abi) (parse message (attr_id attr_radiotap))
  ok (record { header = info; radiotap = rt; payload = parse message (attr_id attr_body) })
