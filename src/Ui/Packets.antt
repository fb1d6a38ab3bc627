-- ===== src/Ui/Packets.antt =====
-- user/src/ui.c, `draw_packet_win`: the rows of the packet window.
use wifi_sniffer.Prelude.{
  ℕ, zero, suc, ◌+◌, ◌-◌, Bool, true, false, ◌&&◌, ◌||◌, String, Option, none, some, List, [], ◌∷◌,
  ◌++◌, ◌==◌, leb, if◌then◌else◌, same_bytes, get_elem?, Outcome, ok, fault, null_pointer,
  packet_buf_overflow, aps_overflow, ◌>>=◌, or_fault,
}
use wifi_sniffer.FrameTypes.{
  FrameDirection, client_to_client, sub_frame_string, frame_direction_to_string,
}
use wifi_sniffer.ActionFrames.{action_cat_to_string, action_to_string}
use wifi_sniffer.Ctx.{Ap, HdrInfo, PacketInfo, Ctx, zero_mac, packet_buf_size, get_ap}
use wifi_sniffer.Ui.Calls.{
  Draw, bold, color_pair, move, text, name, attr_on, attr_off, border, c_string, print_mac,
}

abbrev pub broadcast_mac : List ℕ
broadcast_mac = 0xff ∷ 0xff ∷ 0xff ∷ 0xff ∷ 0xff ∷ 0xff ∷ []

-- `packet_buf_index - 1 - i`, and `+= PACKET_BUF_SIZE` where that is negative.
abbrev pub row_index : ℕ → ℕ → ℕ
row_index index i = if leb (i + 1) index then index - 1 - i else index + packet_buf_size - 1 - i

abbrev is_client_to_client : FrameDirection → Bool
is_client_to_client client_to_client = true
is_client_to_client _ = false

abbrev is_zero_hdr : HdrInfo → Bool
is_zero_hdr h =
    same_bytes h.src_mac zero_mac
    && same_bytes h.dst_mac zero_mac
    && same_bytes h.bssid zero_mac
    && h.frame_t == 0
    && h.frame_st == 0
    && h.retry == 0
    && h.len == 0
    && h.tods == 0
    && h.fromds == 0
    && is_client_to_client h.frame_d

-- `memcmp` with a zero `struct packet_info`; padding counts as zero.
unfoldable pub is_zero_packet : PacketInfo → Bool
is_zero_packet p =
    p.action.cat == 0
    && p.action.code == 0
    && p.rt.rssi == 0
    && p.rt.channel_freq == 0
    && p.rt.channel_flags == 0
    && is_zero_hdr p.hdr

-- The entry that `get_ap` points to.
unfoldable pub deref_ap : Ctx → Option ℕ → Outcome Ap
deref_ap ctx none = fault null_pointer
deref_ap ctx (some i) = or_fault (get_elem? ctx.aps i) aps_overflow

-- The row of a beacon: `ap` is not tested against NULL.
unfoldable pub draw_beacon : Ctx → PacketInfo → Outcome (List Draw)
draw_beacon ctx p = do
  ap ← deref_ap ctx (get_ap ctx p.hdr.bssid)
  ssid ← c_string ap.ssid
  ok (
      attr_on (color_pair (ap.col_pair + 1)) ∷ print_mac ctx ap.mac
      ++ (text " (" ∷ name ssid ∷ text ")" ∷ attr_off (color_pair (ap.col_pair + 1)) ∷ []))

-- `ap` is what `get_ap` returned.
unfoldable pub draw_probe_response : Ctx → PacketInfo → Option ℕ → Outcome (List Draw)
draw_probe_response ctx p none = ok (print_mac ctx p.hdr.bssid)
draw_probe_response ctx p (some i) = do
  ap ← deref_ap ctx (some i)
  ssid ← c_string ap.ssid
  ok (print_mac ctx p.hdr.bssid ++ (text "(" ∷ name ssid ∷ text ")" ∷ []))

unfoldable pub draw_management : Ctx → PacketInfo → Outcome (List Draw)
draw_management ctx p =
    if p.hdr.frame_st == 8
    then draw_beacon ctx p
    else if p.hdr.frame_st == 13 || p.hdr.frame_st == 14
    then ok (
        text "CAT: "
        ∷ text (action_cat_to_string p.action.cat)
        ∷ text " CODE: "
        ∷ text (action_to_string p.action.cat p.action.code)
        ∷ [])
    else if p.hdr.frame_st == 5
    then draw_probe_response ctx p (get_ap ctx p.hdr.bssid)
    else ok []

-- The `[…] ` in front of a row, in bold.
abbrev pub title : String → List Draw
title s = attr_on bold ∷ text "[" ∷ text s ∷ text "] " ∷ attr_off bold ∷ []

unfoldable pub draw_packet : Ctx → PacketInfo → Outcome (List Draw)
draw_packet ctx p =
    let label = sub_frame_string p.hdr.frame_t p.hdr.frame_st in
    if p.hdr.frame_t == 0
    then (do rest ← draw_management ctx p; ok (title label ++ rest))
    else if same_bytes p.hdr.dst_mac broadcast_mac
    then ok (
        attr_on bold ∷ text "[Broadcast] " ∷ attr_off bold ∷ print_mac ctx p.hdr.src_mac
        ++ (text " " ∷ text label ∷ []))
    else ok (
        title label
        ++ (print_mac ctx p.hdr.src_mac
            ++ (text " -> " ∷ print_mac ctx p.hdr.dst_mac
                ++ (text " (BSSID: " ∷ print_mac ctx p.hdr.bssid
                    ++ (text ") " ∷ text (frame_direction_to_string p.hdr.frame_d) ∷ [])))))

unfoldable pub draw_packet_row : Ctx → ℕ → Outcome (List Draw)
draw_packet_row ctx i = do
  p ← or_fault (get_elem? ctx.packet_buf (row_index ctx.packet_buf_index i)) packet_buf_overflow
  if is_zero_packet p then ok [] else (do row ← draw_packet ctx p; ok (move (i + 1) 2 ∷ row))

-- The rows from `i` on, `n` of them.
unfoldable pub draw_packet_rows : Ctx → ℕ → ℕ → Outcome (List Draw)
draw_packet_rows ctx i zero = ok []
draw_packet_rows ctx i (suc n) = do
  row ← draw_packet_row ctx i
  rest ← draw_packet_rows ctx (i + 1) n
  ok (row ++ rest)

unfoldable pub draw_packet_win : Ctx → Outcome (List Draw)
draw_packet_win ctx = do rows ← draw_packet_rows ctx 0 packet_buf_size; ok (rows ++ (border ∷ []))
