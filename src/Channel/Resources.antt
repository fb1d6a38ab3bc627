-- ===== src/Channel/Resources.antt =====
-- `set_channel` (user/src/channel_hop.c): the sockets and messages that it takes and gives back.
use wifi_sniffer.Prelude.{
  ℕ, ◌+◌, ◌≡◌, Bool, true, false, ◌&&◌, not, List, if◌then◌else◌, count, arith, ℤ,
}
use wifi_sniffer.Channel.{
  NlReplies, NlCall, alloc_socket, alloc_msg, free_msg, free_socket, is_zero, set_channel,
}

abbrev takes_socket : NlCall → Bool
takes_socket alloc_socket = true
takes_socket _ = false

abbrev frees_socket : NlCall → Bool
frees_socket free_socket = true
frees_socket _ = false

abbrev takes_msg : NlCall → Bool
takes_msg alloc_msg = true
takes_msg _ = false

abbrev frees_msg : NlCall → Bool
frees_msg free_msg = true
frees_msg _ = false

-- What a call that allocates gave, `b` saying whether it returned memory.
abbrev pub obtained : Bool → ℕ → ℕ
obtained b n = if b then n else 0

-- Sockets and messages that the calls obtained and did not free.
pub record Balance (r : NlReplies) (calls : List NlCall) (sockets : ℕ) : Type 0 where
  pub socket_balance :
      obtained r.socket_allocated (count takes_socket calls) ≡ count frees_socket calls + sockets
  pub msg_balance : obtained r.msg_allocated (count takes_msg calls) ≡ count frees_msg calls

-- Whatever the libraries return, every message that was obtained is freed once, and so is the
-- socket, unless `genl_connect` fails: then the socket is left open.
pub set_channel-Balance :
    (r : NlReplies) (if_index : ℕ) (channel : ℤ)
    → Balance r
        (set_channel r if_index channel).1
        (if r.socket_allocated && not (is_zero r.connect) then 1 else 0)
unfolding set_channel
set_channel-Balance r if_index channel = ground arith
