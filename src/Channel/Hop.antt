-- ===== src/Channel/Hop.antt =====
-- `next_channel` (user/src/channel_hop.c): the order of the channels, and the channel that is shown.
use wifi_sniffer.Prelude.{ℕ, zero, suc, ◌+◌, ◌%◌, ◌<◌, ◌≡◌, ◌≢◌, refl, pos, arith}
use wifi_sniffer.Channel.{
  NlReplies, channels_count, channel_at, current_channel, next_channel, set_channel,
}

-- The channels of the list differ from their successors.
successor_differs :
    (c : ℕ) → c < channels_count → channel_at ((c + 1) % channels_count) ≢ channel_at c
unfolding channel_at
successor_differs zero h = omega arith
successor_differs (suc zero) h = omega arith
successor_differs (suc (suc zero)) h = omega arith
successor_differs (suc (suc (suc zero))) h = omega arith
successor_differs (suc (suc (suc (suc zero)))) h = omega arith
successor_differs (suc (suc (suc (suc (suc zero))))) h = omega arith
successor_differs (suc (suc (suc (suc (suc (suc zero)))))) h = omega arith
successor_differs (suc (suc (suc (suc (suc (suc (suc c))))))) h = absurd (omega arith)

-- From an index within the list, a hop asks the card for the channel at the old index, and
-- `current_channel`, which the stats window shows, is then another one.
pub next_channel_shows_other :
    (r : NlReplies) (if_index channel : ℕ)
    → channel < channels_count
    → let (ret, calls, channel') = next_channel r if_index channel in
      ((ret, calls) ≡ set_channel r if_index (pos (channel_at channel)))
      × (current_channel channel' ≢ channel_at channel)
unfolding next_channel current_channel
next_channel_shows_other r i c h = (refl, successor_differs c h)
