-- ===== src/Ui.antt =====
-- user/src/ui.c: what the program writes into its windows, as lists of ncurses calls.
--
-- ncurses is not part of the repository: a call is a value of `Draw`, and the height that `getmaxy`
-- returns is the argument `rows`. A format string is split into its literal parts and its
-- arguments. `Ui.Terminal` has the calls that open, show and close the windows.
pub mod Calls
pub mod Packets
pub mod Total
pub mod Terminal
pub mod Brackets
use wifi_sniffer.Prelude.{
  negsuc, ℕ, zero, suc, ◌+◌, ◌-◌, none, some, List, [], ◌∷◌, ◌++◌, ◌==◌, leb, if◌then◌else◌,
  get_elem?, take, min, ℤ, pos, int_sub, Outcome, ok, aps_overflow, ◌>>=◌, or_fault,
}
use wifi_sniffer.Channel.{channel_to_freq, current_channel}
use wifi_sniffer.Ctx.{Ap, ApView, main, detail, Ctx}
use Calls.{
  Draw, bold, color_pair, move, text, number, name, attr_on, attr_off, border, c_string, print_mac,
}
use Packets.{draw_packet_win}

-- `now - last_seen`, which is signed.
abbrev pub elapsed : ℕ → ℕ → ℤ
elapsed now last_seen = int_sub now last_seen

unfoldable pub draw_freqs : List ℕ → List Draw
draw_freqs [] = []
draw_freqs (f ∷ fs) = number (pos f) ∷ text " " ∷ draw_freqs fs

unfoldable pub draw_counters : ℕ → Ap → ApView → List Draw
draw_counters now ap main =
    text "Last Seen: "
    ∷ number (elapsed now ap.last_seen)
    ∷ text " sec ago [Beacons: "
    ∷ number (pos ap.beacons)
    ∷ text "] "
    ∷ []
draw_counters now ap detail =
    text "[TX: "
    ∷ number (pos ap.tx_packets)
    ∷ text "] [RX: "
    ∷ number (pos ap.rx_packets)
    ∷ text "] [Retries: "
    ∷ number (pos ap.retries)
    ∷ text "]"
    ∷ []

unfoldable pub draw_ap : ℕ → Ctx → ℕ → ℕ → Ap → Outcome (List Draw)
draw_ap now ctx i win_y ap = do
  ssid ← c_string ap.ssid
  ok (
      move win_y 2
        ∷ (if i == ctx.scroll then text "* " else text "")
        ∷ attr_on (color_pair (ap.col_pair + 1))
        ∷ text "[ "
        ∷ draw_freqs (take ap.freq_num ap.channel_freqs)
      ++ (text "] " ∷ name ssid ∷ text " (" ∷ print_mac ctx ap.mac
          ++ (text ") " ∷ attr_off (color_pair (ap.col_pair + 1)) ∷ draw_counters now ap ap.view)))

-- `n` rounds of the loop, from entry `i` in row `win_y`.
unfoldable pub draw_ap_rows : ℕ → Ctx → ℕ → ℕ → ℕ → Outcome (List Draw)
draw_ap_rows now ctx i win_y zero = ok []
draw_ap_rows now ctx i win_y (suc n) = do
  ap ← or_fault (get_elem? ctx.aps i) aps_overflow
  row ← draw_ap now ctx i win_y ap
  rest ← draw_ap_rows now ctx (i + 1) (win_y + 1) n
  ok (row ++ rest)

-- The rounds of the loop `i < aps_count && win_y < rows`, from `i = scroll` and `win_y = 1`, with `n`
-- entries from `scroll` on. A negative `getmaxy` is a very large `size_t`.
abbrev pub ap_lines : ℤ → ℕ → ℕ
ap_lines (pos rows) n = min n (rows - 1)
ap_lines (negsuc e) n = n

unfoldable pub draw_ap_win : ℕ → ℤ → Ctx → Outcome (List Draw)
draw_ap_win now rows ctx = do
  lines ← draw_ap_rows now ctx ctx.scroll 1 (ap_lines rows (ctx.aps_count - ctx.scroll))
  ok (lines ++ (border ∷ []))

-- `channel` is the static index of the channel list.
unfoldable pub draw_stats_win : ℕ → Ctx → List Draw
draw_stats_win channel ctx =
    attr_on bold
    ∷ move 1 1
    ∷ text "Packets: "
    ∷ number (pos ctx.packets)
    ∷ move 2 1
    ∷ text "APs: "
    ∷ number (pos ctx.aps_count)
    ∷ move 3 1
    ∷ text "Channel: "
    ∷ number (pos (current_channel channel))
    ∷ text " ("
    ∷ number (channel_to_freq (pos (current_channel channel)))
    ∷ text "MHz)"
    ∷ attr_off bold
    ∷ border
    ∷ []

unfoldable pub draw_usage_win : List Draw
draw_usage_win =
    move 1 1
    ∷ text "(TAB) Toggle Channel Hop"
    ∷ move 2 1
    ∷ text "(SPACE) Pause Receiving"
    ∷ move 3 1
    ∷ text "(j/k) Scroll AP List"
    ∷ move 4 1
    ∷ text "(J/K) Top/Bottom AP List"
    ∷ move 5 1
    ∷ text "(h/l) Scroll AP Detail"
    ∷ move 6 1
    ∷ text "(H/L) Scroll ALL AP Detail"
    ∷ move 7 1
    ∷ text "(q/Q) Quit"
    ∷ border
    ∷ []

pub record Screen : Type 0 where
  pub stats_win : List Draw
  pub packet_win : List Draw
  pub ap_win : List Draw
  pub usage_win : List Draw

unfoldable pub draw_ui : ℕ → ℤ → ℕ → Ctx → Outcome Screen
draw_ui now rows channel ctx = do
  packets ← draw_packet_win ctx
  aps ← draw_ap_win now rows ctx
  ok (record {
    stats_win = draw_stats_win channel ctx;
    packet_win = packets;
    ap_win = aps;
    usage_win = draw_usage_win;
  })
