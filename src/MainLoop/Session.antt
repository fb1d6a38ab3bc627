-- ===== src/MainLoop/Session.antt =====
-- Half a minute of the main loop (user/src/main.c) in which access points announce themselves by beacons.
--
-- The addresses and frequencies that are heard, the number of colours and the first second are the
-- parameters of the invariant; `Announced` is about beacons, `Plain` about the other frames, and
-- `Rounds` about the loop.
pub mod Plain
pub mod Entries
pub mod Announced
pub mod Rounds
use wifi_sniffer.Prelude.{
  ℕ, ◌+◌, ◌≤◌, ◌<◌, ◌≡◌, true, ◌==◌, List, length, All, among, same_bytes, some, ◌++◌, ◌⊎◌,
}
use wifi_sniffer.Ctx.{Ap, PacketInfo, Ctx, HdrInfo, RadiotapInfo, ap_capacity}
use wifi_sniffer.Ctx.Invariant.{IsValid, macs}
use wifi_sniffer.Ies.Elements.{Ie, encode_ies}
use wifi_sniffer.Channel.{channels_count}
use wifi_sniffer.Handler.{Env, Sniffer, Attrs}
use wifi_sniffer.Handler.Each.{Each}
use wifi_sniffer.Handler.Room.{WellFormed}
use wifi_sniffer.Handler.Tuned.{IsTuned}
use wifi_sniffer.MainLoop.Progress.{IsPlain}
use wifi_sniffer.MainLoop.Quiet.{is_beacon}

-- What is heard: at most as many addresses as there are entries, on at most as many frequencies as an
-- entry records, within 30 seconds from `since` on.
pub record Session : Type 0 where
  pub addresses : List (List ℕ)
  pub freqs : List ℕ
  pub colors : ℕ
  pub since : ℕ
  pub few_addresses : length addresses ≤ ap_capacity
  pub few_freqs : length freqs ≤ channels_count
  pub some_colors : 0 < colors
  pub few_colors : colors < 32768

-- Whether an address is registered.
abbrev pub IsListed : Ctx → List ℕ → Type 0
IsListed c mac = among same_bytes (macs c.aps c.aps_count) mac ≡ true

-- A packet of the ring that is a beacon is of a registered access point.
abbrev pub Listed : Ctx → PacketInfo → Type 0
Listed c p = is_beacon p ≡ true → IsListed c p.hdr.bssid

pub record InSession (e : Session) (s : Sniffer) : Type 0 where
  pub valid : IsValid s.ctx
  pub tuned : Each (IsTuned e.freqs) ap_capacity s.ctx.aps
  pub recent : Each (λ a. e.since ≤ a.last_seen) s.ctx.aps_count s.ctx.aps
  pub known : All (λ m. among same_bytes e.addresses m ≡ true) (macs s.ctx.aps s.ctx.aps_count)
  pub listed : All (Listed s.ctx) s.ctx.packet_buf
  pub color : s.cur_col < e.colors

-- A whole message with a well-formed beacon of the session.
pub record IsBeacon (e : Session) (m : Attrs) : Type 0 where
  pub info : HdrInfo
  pub rt : RadiotapInfo
  pub fixed : List ℕ
  pub elements : List Ie
  pub header : m.header ≡ some info
  pub radiotap : m.radiotap ≡ some rt
  pub payload : m.payload ≡ some (fixed ++ encode_ies elements)
  pub management : info.frame_t ≡ 0
  pub beacon : info.frame_st ≡ 8
  pub well_formed : WellFormed 8 fixed elements
  pub address : among same_bytes e.addresses info.bssid ≡ true
  pub freq : among ◌==◌ e.freqs rt.channel_freq ≡ true

-- A beacon of the session, or a frame that announces no access point.
abbrev pub IsHeard : Session → Attrs → Type 0
IsHeard e m = IsPlain m ⊎ IsBeacon e m

-- The time and the colours of one reading.
pub record During (e : Session) (env : Env) : Type 0 where
  pub begins : e.since ≤ env.now
  pub ends : env.now ≤ e.since + 30
  pub colors : env.colors ≡ e.colors
