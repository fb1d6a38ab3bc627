-- ===== src/Handler/Table.antt =====
-- The access points as a map from addresses to entries: what `handle_frame_info` (user/src/main.c) does
-- to it, without an array, a count or an index.
pub mod Counts
pub mod Colours
pub mod Announce
pub mod Packets
use wifi_sniffer.Prelude.{
  ℕ, zero, suc, ◌+◌, ◌<◌, ◌≡◌, refl, sym, ap, ◌∙◌, Bool, true, false, not, ◌&&◌, ◌||◌, ◌==◌,
  if◌then◌else◌, Option, none, some, List, [], ◌∷◌, length, get_elem?, inl, inr, same_bytes,
  same_bytes-eq, same_bytes_refl, Bool-cases, Option-cases, Outcome, Outcome-cases, ok, fault,
  freqs_overflow, ltb, among, take, drop, ◌%◌, ◌^◌, ◌>>=◌, set, arith,
}
use mathlib.Core.Option
use wifi_sniffer.Ctx.{Ap, HdrInfo, PacketInfo, Ctx, zero_ap, find_ap, get_ap}
use wifi_sniffer.Handler.{
  Env, Sniffer, adjust_found, count_tx, count_rx, count_packet, note_mgmt, management, beacon,
  probe_response,
}
use wifi_sniffer.Ies.{iter_packet_ies}
use wifi_sniffer.Handler.Entry.{incr32, adjust, adjust?, note_tx, note_rx, name_new_ap}

-- The first of `n` entries with an address.
unfoldable pub entry : List Ap → ℕ → List ℕ → Option Ap
entry [] n mac = none
entry (a ∷ aps) zero mac = none
entry (a ∷ aps) (suc n) mac = if same_bytes a.mac mac then some a else entry aps n mac

-- A map from addresses to access points.
abbrev pub Table : Type 0
Table = List ℕ → Option Ap

abbrev pub lookup : Ctx → Table
lookup c mac = entry c.aps c.aps_count mac

-- A change to the access point with the address `mac`, if there is one.
abbrev pub amend : (Ap → Ap) → List ℕ → Table → Table
amend f mac t m = if same_bytes mac m then Option.map f (t m) else t m

-- A 32-bit number that goes on.
abbrev pub next32 : ℕ → ℕ
next32 n = (n + 1) % 2 ^ 32

-- What a frame from a known access point at the time `now` makes of its entry, field by field.
abbrev pub sent : ℕ → ℕ → Ap → Ap
sent now retry a = record a {
  last_seen = now;
  tx_packets = next32 a.tx_packets;
  retries = if retry == 0 then a.retries else next32 a.retries;
}

-- What a frame to a known access point makes of its entry.
abbrev pub taken : ℕ → Ap → Ap
taken retry a = record a {
  rx_packets = next32 a.rx_packets;
  retries = if retry == 0 then a.retries else next32 a.retries;
}

-- What a beacon at the time `now` on a frequency makes of the entry of its access point, apart from
-- its elements: a frequency that is not recorded yet takes the next place.
abbrev pub heard : ℕ → ℕ → Ap → Outcome Ap
heard now freq a =
    let b = record a { last_seen = now; beacons = next32 a.beacons } in
    if among ◌==◌ (take a.freq_num a.channel_freqs) freq
    then ok b
    else if ltb a.freq_num (length a.channel_freqs)
    then ok (record b {
      channel_freqs = set a.channel_freqs a.freq_num freq;
      freq_num = a.freq_num + 1;
    })
    else fault freqs_overflow

-- What an announcement makes of the entry: its elements, as the code reads them, and for a beacon
-- the rest.
abbrev pub noted : ℕ → PacketInfo → List ℕ → ℕ → Ap → Outcome Ap
noted now p body n a = do
  b ← iter_packet_ies a p body n
  if p.hdr.frame_st == beacon then heard now p.rt.channel_freq b else ok b

-- What a new access point starts as, apart from what its place in the array held before.
abbrev pub newcomer : List ℕ → ℕ → Ap → Ap
newcomer mac col spare = record spare {
  mac = mac;
  ssid = b'<' ∷ b'h' ∷ b'i' ∷ b'd' ∷ b'd' ∷ b'e' ∷ b'n' ∷ b'>' ∷ 0 ∷ drop 9 spare.ssid;
  ssid_len = 8;
  col_pair = col + 1;
}

-- What every frame does: the counters of its sender and of its receiver.
abbrev pub tx_table : Env → HdrInfo → Table → Table
tx_table env info t m =
    if info.fromds == 0 then t m else amend (sent env.now info.retry) info.src_mac t m

abbrev pub rx_table : HdrInfo → Table → Table
rx_table info t m = if info.tods == 0 then t m else amend (taken info.retry) info.dst_mac t m

abbrev pub counted : Env → HdrInfo → Table → Table
counted env info t = rx_table info (tx_table env info t)

-- Beacons and probe responses.
abbrev pub announces : HdrInfo → Bool
announces info =
    info.frame_t == management && (info.frame_st == beacon || info.frame_st == probe_response)

abbrev pub or_else : Option Ap → Ap → Ap
or_else none b = b
or_else (some a) b = a

-- What a frame makes of the entry under one address after the counters went on; `fresh` is what a new
-- access point starts as.
abbrev pub announced : Env → PacketInfo → List ℕ → ℕ → Ap → Option Ap → List ℕ → Outcome (Option Ap)
announced env p body n fresh o m =
    if announces p.hdr && same_bytes p.hdr.bssid m
    then (do a ← noted env.now p body n (or_else o fresh); ok (some a))
    else ok o

-- What a frame does to the map.
abbrev pub packet_table : Env → PacketInfo → List ℕ → ℕ → Ap → Table → List ℕ → Outcome (Option Ap)
packet_table env p body n fresh t m = announced env p body n fresh (counted env p.hdr t m) m

-- The array's entry behind the registered ones, which a new access point takes over.
abbrev pub next_entry : Ctx → Ap
next_entry c = or_else (get_elem? c.aps c.aps_count) zero_ap
