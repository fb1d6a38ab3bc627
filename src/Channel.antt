-- ===== src/Channel.antt =====
-- user/src/channel_hop.h and user/src/channel_hop.c: the channels that the sniffer visits, their
-- frequencies, and the nl80211 request that retunes the card.
--
-- libnl and nl80211 are not part of the repository. What their calls return is the record
-- `NlReplies`, an argument of every operation, and the calls that the code makes are a list.
pub mod Freq
pub mod Resources
pub mod Hop
use wifi_sniffer.Prelude.{
  ℕ, ◌+◌, ◌-◌, ◌*◌, ◌%◌, ◌^◌, Bool, true, false, ◌&&◌, none, some, List, [], ◌∷◌, ◌++◌, ◌==◌, leb,
  if◌then◌else◌, get_elem?, ℤ, pos, negsuc, minus_one,
}

abbrev pub channels_count : ℕ
channels_count = 7

abbrev pub channels : List ℕ
channels = 1 ∷ 6 ∷ 11 ∷ 36 ∷ 40 ∷ 44 ∷ 48 ∷ []

-- `channels[channel]`; the index stays below `channels_count` (`Channel.Hop`).
unfoldable pub channel_at : ℕ → ℕ
channel_at channel = elim (get_elem? channels channel) [ none ↦ 0 | some c ↦ c ]

unfoldable pub channel_to_freq : ℤ → ℤ
channel_to_freq (negsuc c) = minus_one
channel_to_freq (pos c) =
    if leb 1 c && leb c 13
    then pos (2407 + c * 5)
    else if c == 14
    then pos 2484
    else if leb 36 c && leb c 177
    then pos (5000 + c * 5)
    else minus_one

-- What the library's calls return during one `set_channel`.
pub record NlReplies : Type 0 where
  pub socket_allocated : Bool
  pub connect : ℤ
  pub family : ℤ
  pub msg_allocated : Bool
  pub sent : ℤ
  pub ack : ℤ

pub data NlCall : Type 0 where
  alloc_socket connect_socket resolve_family alloc_msg : NlCall
  put_set_wiphy : ℤ → NlCall
  put_freq : ℕ → NlCall
  put_ifindex : ℕ → NlCall
  send_msg wait_for_ack free_msg free_socket : NlCall

-- The conversion of an `int` argument to `uint32_t`.
abbrev pub to_u32 : ℤ → ℕ
to_u32 (pos n) = n % 2 ^ 32
to_u32 (negsuc n) = 2 ^ 32 - 1 - n % 2 ^ 32

abbrev pub is_zero : ℤ → Bool
is_zero (pos n) = n == 0
is_zero (negsuc n) = false

abbrev pub is_negative : ℤ → Bool
is_negative (pos n) = false
is_negative (negsuc n) = true

-- The calls that build and send the request.
unfoldable pub request_calls : NlReplies → ℕ → ℤ → List NlCall
unfolding channel_to_freq
request_calls r if_index channel =
    put_set_wiphy r.family
    ∷ put_freq (to_u32 (channel_to_freq channel))
    ∷ put_ifindex if_index
    ∷ send_msg
    ∷ []

-- `if_index` is what `if_nametoindex(interface)` returns.
unfoldable pub set_channel : NlReplies → ℕ → ℤ → ℤ × List NlCall
unfolding request_calls
set_channel r if_index channel =
    if r.socket_allocated
    then (if is_zero r.connect
        then (if r.msg_allocated
            then (if is_negative r.sent
                then (minus_one, opened ++ (alloc_msg ∷ request ++ (free_msg ∷ free_socket ∷ [])))
                else (
                  r.ack,
                  opened ++ (alloc_msg ∷ request ++ (wait_for_ack ∷ free_msg ∷ free_socket ∷ [])),
                ))
            else (minus_one, opened ++ (alloc_msg ∷ free_socket ∷ [])))
        else (minus_one, alloc_socket ∷ connect_socket ∷ []))
    else (minus_one, alloc_socket ∷ [])
  where
    opened : List NlCall
    opened = alloc_socket ∷ connect_socket ∷ resolve_family ∷ []

    request : List NlCall
    request = request_calls r if_index channel

unfoldable pub channel_init : NlReplies → ℕ → ℕ → ℤ × List NlCall
unfolding set_channel channel_at
channel_init r if_index channel = set_channel r if_index (pos (channel_at channel))

unfoldable pub current_channel : ℕ → ℕ
unfolding channel_at
current_channel channel = channel_at channel

-- The result, the calls, and the new value of the static `channel`.
unfoldable pub next_channel : NlReplies → ℕ → ℕ → ℤ × List NlCall × ℕ
unfolding set_channel channel_at
next_channel r if_index channel =
    let (ret, calls) = set_channel r if_index (pos (channel_at channel)) in
    (ret, calls, (channel + 1) % channels_count)
