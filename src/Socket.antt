-- ===== src/Socket.antt =====
-- user/src/main.c, `init_netlink_socket`: the socket that receives the kernel module's messages.
-- What libnl's calls return is the record `SocketReplies`; the calls are a list.
pub mod Leaks
use wifi_sniffer.Prelude.{Bool, true, false, List, [], ◌∷◌, ◌++◌, if◌then◌else◌, ℤ}
use wifi_sniffer.Channel.{is_zero, is_negative}

pub record SocketReplies : Type 0 where
  pub allocated : Bool
  pub connected : ℤ
  pub group : ℤ
  pub membership : ℤ
  pub callback : ℤ

pub data SocketCall : Type 0 where
  alloc connect resolve_group add_membership set_callback : SocketCall
  disable_seq_check set_nonblocking close free : SocketCall

-- Whether a socket is returned, and the calls.
unfoldable pub init_netlink_socket : SocketReplies → Bool × List SocketCall
init_netlink_socket r =
    if r.allocated
    then (if is_negative r.connected
        then (false, alloc ∷ connect ∷ [])
        else if is_negative r.group
        then (false, alloc ∷ connect ∷ resolve_group ∷ free ∷ [])
        else if is_zero r.membership
        then (if is_negative r.callback
            then (false, joined ++ (set_callback ∷ free ∷ []))
            else (true, joined ++ (set_callback ∷ disable_seq_check ∷ set_nonblocking ∷ [])))
        else (false, joined))
    else (false, alloc ∷ [])
  where
    joined : List SocketCall
    joined = alloc ∷ connect ∷ resolve_group ∷ add_membership ∷ []
