-- ===== src/Socket/Leaks.antt =====
-- `init_netlink_socket` (user/src/main.c): which failures leave the socket open.
use wifi_sniffer.Prelude.{◌+◌, ◌≡◌, Bool, true, false, not, ◌&&◌, ◌||◌, if◌then◌else◌, count, arith}
use wifi_sniffer.Channel.{is_zero, is_negative}
use wifi_sniffer.Socket.{SocketReplies, SocketCall, close, free, init_netlink_socket}

abbrev pub is_close : SocketCall → Bool
is_close close = true
is_close _ = false

abbrev pub is_free : SocketCall → Bool
is_free free = true
is_free _ = false

-- A failed connection, or a failed membership after the group was resolved.
abbrev pub leaks : SocketReplies → Bool
leaks r = is_negative r.connected || (not (is_negative r.group) && not (is_zero r.membership))

-- If the socket was allocated, it is returned, or freed, or left open, and only one of these:
-- left open exactly when the connection fails or the membership is refused.
pub init_netlink_socket_lem :
    (r : SocketReplies)
    → r.allocated ≡ true
    → let (returned, calls) = init_netlink_socket r in
      (if returned then 1 else 0) + count is_free calls + (if leaks r then 1 else 0) ≡ 1
unfolding init_netlink_socket
init_netlink_socket_lem r h = ground arith
