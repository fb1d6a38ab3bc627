-- ===== src/Handler.antt =====
-- user/src/main.c, `frame_handler` and `handle_frame_info`: what one received frame does to the
-- state of the userspace program.
--
-- libnl parses the message into attributes; an attribute that is missing is `none` here, and
-- reading one is a null pointer. `time(NULL)` and ncurses' `COLORS` are arguments; the handler of
-- one frame sees one time. The static variable `cur_col` is a field of the state.
pub mod Entry
pub mod Adjust
pub mod Counters
pub mod Registration
pub mod Invariant
pub mod Stale
pub mod Buffer
pub mod Beacon
pub mod Total
pub mod Each
pub mod Room
pub mod Tuned
pub mod Announced
pub mod Table
use wifi_sniffer.Prelude.{
  ℕ, ◌+◌, ◌%◌, ◌^◌, ◌||◌, not, Option, none, some, List, ◌==◌, ltb, if◌then◌else◌, length,
  get_elem?, set, Outcome, ok, aps_overflow, packet_buf_overflow, body_overread, null_pointer,
  div_by_zero, short_overflow, ◌>>=◌, ◌>>◌, or_fault, check,
}
use wifi_sniffer.Ctx.{Ap, RadiotapInfo, HdrInfo, PacketInfo, Ctx, packet_buf_size, get_ap}
use wifi_sniffer.Ies.{iter_packet_ies}
pub use Entry.{Env, incr32}
use Entry.{adjust, adjust?, note_tx, note_rx, name_new_ap, note_beacon}

-- The context and the static `cur_col` of `handle_frame_info`.
pub record Sniffer : Type 0 where
  pub ctx : Ctx
  pub cur_col : ℕ

-- Values of `frame_t` and `frame_st` that the handler tests for.
abbrev pub management : ℕ
management = 0

abbrev pub beacon : ℕ
beacon = 8

abbrev pub probe_request : ℕ
probe_request = 4

abbrev pub probe_response : ℕ
probe_response = 5

abbrev pub action_noack : ℕ
action_noack = 14

abbrev pub action : ℕ
action = 13

unfoldable pub adjust_found : (Ap → Ap) → List Ap → Option ℕ → List Ap
adjust_found f aps none = aps
adjust_found f aps (some i) = adjust f aps i

-- `if (info->fromds) { … }`
unfoldable pub count_tx : Env → HdrInfo → Ctx → Ctx
count_tx env info ctx =
    if info.fromds == 0
    then ctx
    else record ctx { aps = adjust_found (note_tx env info) ctx.aps (get_ap ctx info.src_mac) }

-- `if (info->tods) { … }`
unfoldable pub count_rx : HdrInfo → Ctx → Ctx
count_rx info ctx =
    if info.tods == 0
    then ctx
    else record ctx { aps = adjust_found (note_rx info) ctx.aps (get_ap ctx info.dst_mac) }

-- `if (ap == NULL) { … }`: the next entry becomes the access point. A colour that does not fit a `short`
-- is a fault here; in C its conversion is left to the implementation.
unfoldable pub register_ap : Env → Sniffer → List ℕ → Outcome (ℕ × Sniffer)
register_ap env s mac = do
  check (ltb s.ctx.aps_count (length s.ctx.aps)) aps_overflow
  check (ltb (s.cur_col + 1) (2 ^ 15)) short_overflow
  check (not (env.colors == 0)) div_by_zero
  ok (
    s.ctx.aps_count,
    record {
      ctx = record s.ctx {
        aps = adjust (name_new_ap mac s.cur_col) s.ctx.aps s.ctx.aps_count;
        aps_count = s.ctx.aps_count + 1;
      };
      cur_col = (s.cur_col + 1) % env.colors;
    },
  )

unfoldable pub find_or_register : Env → Sniffer → List ℕ → Option ℕ → Outcome (ℕ × Sniffer)
find_or_register env s mac none = register_ap env s mac
find_or_register env s mac (some i) = ok (i, s)

-- What a beacon or a probe response does to its access point.
unfoldable pub note_mgmt : Env → PacketInfo → List ℕ → ℕ → Ap → Outcome Ap
note_mgmt env p body body_len ap = do
  ap' ← iter_packet_ies ap p body body_len
  if p.hdr.frame_st == beacon then note_beacon env p.rt ap' else ok ap'

unfoldable pub advance : Sniffer → Sniffer
advance s = record s {
  ctx = record s.ctx { packet_buf_index = (s.ctx.packet_buf_index + 1) % packet_buf_size };
}

unfoldable pub handle_announcement :
    Env → Sniffer → PacketInfo → List ℕ → ℕ → Option ℕ → Outcome Sniffer
handle_announcement env s p body body_len found = do
  (i, s1) ← find_or_register env s p.hdr.bssid found
  aps' ← adjust? (note_mgmt env p body body_len) s1.ctx.aps i
  let s2 = record s1 { ctx = record s1.ctx { aps = aps' } }
  if p.hdr.frame_st == beacon then ok s2 else ok (advance s2)

unfoldable pub handle_action : Sniffer → PacketInfo → List ℕ → Outcome Sniffer
handle_action s p body = do
  cat ← or_fault (get_elem? body 0) body_overread
  code ← or_fault (get_elem? body 1) body_overread
  ok (
      advance (record s {
        ctx = record s.ctx {
          packet_buf =
              set s.ctx.packet_buf s.ctx.packet_buf_index
                (record p { action = record { cat = cat; code = code } });
        };
      }))

unfoldable pub dispatch : Env → Sniffer → PacketInfo → List ℕ → ℕ → Option ℕ → Outcome Sniffer
dispatch env s p body body_len found =
    if p.hdr.frame_t == management
    then (if p.hdr.frame_st == beacon || p.hdr.frame_st == probe_response
        then handle_announcement env s p body body_len found
        else if p.hdr.frame_st == action || p.hdr.frame_st == action_noack
        then handle_action s p body
        else if p.hdr.frame_st == probe_request
        then ok s
        else ok (advance s))
    else ok (advance s)

abbrev pub packet_of : HdrInfo → RadiotapInfo → PacketInfo
packet_of info rt = record { action = record { cat = 0; code = 0 }; rt = rt; hdr = info }

-- The write to `packet_buf`, the count of packets, and the counters of the known access points.
unfoldable pub count_packet : Env → Ctx → PacketInfo → Outcome Ctx
count_packet env ctx p = do
  check (ltb ctx.packet_buf_index (length ctx.packet_buf)) packet_buf_overflow
  ok (
      count_rx p.hdr (
        count_tx env p.hdr (record ctx {
          packet_buf = set ctx.packet_buf ctx.packet_buf_index p;
          packets = incr32 ctx.packets;
        })))

unfoldable pub handle_packet : Env → Sniffer → PacketInfo → List ℕ → ℕ → Outcome Sniffer
handle_packet env s p body body_len = do
  ctx ← count_packet env s.ctx p
  dispatch env (record s { ctx = ctx }) p body body_len (get_ap s.ctx p.hdr.bssid)

-- The arguments are the C function's pointers.
unfoldable pub handle_frame_info :
    Env → Sniffer → Option HdrInfo → Option RadiotapInfo → Option (List ℕ) → ℕ → Outcome Sniffer
handle_frame_info env s none rt body body_len = ok s
handle_frame_info env s (some info) none body body_len = ok s
handle_frame_info env s (some info) (some rt) none body_len = ok s
handle_frame_info env s (some info) (some rt) (some body) body_len =
    handle_packet env s (packet_of info rt) body body_len

-- The attributes of a message, as `nla_parse` finds them.
pub record Attrs : Type 0 where
  pub header : Option HdrInfo
  pub radiotap : Option RadiotapInfo
  pub payload : Option (List ℕ)

-- `nla_data` and `nla_len` take an attribute, and a missing one is a null pointer to them.
unfoldable pub frame_handler : Env → Sniffer → Attrs → Outcome Sniffer
frame_handler env s attrs = do
  info ← or_fault attrs.header null_pointer
  rt ← or_fault attrs.radiotap null_pointer
  body ← or_fault attrs.payload null_pointer
  handle_frame_info env s (some info) (some rt) (some body) (length body)
