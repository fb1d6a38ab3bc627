-- ===== src/Tests/Card.antt =====
-- Examples of the channels, the retuning of the card and the netlink socket.
use wifi_sniffer.Prelude.{
  ◌+◌, ◌≡◌, ◌≢◌, refl, true, not, ◌&&◌, if◌then◌else◌, count, pos, negsuc, arith,
}
use wifi_sniffer.Channel.{
  NlReplies, channel_at, current_channel, is_zero, next_channel, set_channel,
}
use wifi_sniffer.Channel.Resources.{Balance, set_channel-Balance}
use wifi_sniffer.Channel.Hop.{next_channel_shows_other}
use wifi_sniffer.Socket.{SocketReplies, init_netlink_socket}
use wifi_sniffer.Socket.Leaks.{is_free, leaks, init_netlink_socket_lem}
use wifi_sniffer.Tests.Data.{good}

abbrev unconnected : NlReplies
unconnected = record good { connect = negsuc 4 }

abbrev refused : SocketReplies
refused = record {
  allocated = true;
  connected = pos 0;
  group = pos 7;
  membership = negsuc 0;
  callback = pos 0;
}

set_channel-Balance_example :
    Balance unconnected
      (set_channel unconnected 3 (pos 6)).1
      (if unconnected.socket_allocated && not (is_zero unconnected.connect) then 1 else 0)
set_channel-Balance_example = set_channel-Balance unconnected 3 (pos 6)

next_channel_shows_other_example :
    let (ret, calls, channel') = next_channel good 3 6 in
    ((ret, calls) ≡ set_channel good 3 (pos (channel_at 6)))
    × (current_channel channel' ≢ channel_at 6)
next_channel_shows_other_example = next_channel_shows_other good 3 6 (omega arith)

init_netlink_socket_lem_example :
    let (returned, calls) = init_netlink_socket refused in
    (if returned then 1 else 0) + count is_free calls + (if leaks refused then 1 else 0) ≡ 1
init_netlink_socket_lem_example = init_netlink_socket_lem refused refl
