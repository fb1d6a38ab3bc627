-- ===== src/Handler/Counters.antt =====
-- The counters of the known access points (user/src/main.c, `handle_frame_info`) keep the invariant
-- of `struct ctx`, and the addresses.
use wifi_sniffer.Prelude.{
  ℕ, ◌≡◌, refl, List, inl, inr, ◌==◌, length-set, set, ◌∙◌, ok, Outcome-cases, Bool-cases, arith,
}
use wifi_sniffer.Ctx.{Ap, RadiotapInfo, HdrInfo, PacketInfo, Ctx}
use wifi_sniffer.Ctx.Invariant.{IsValid, macs}
use wifi_sniffer.Ies.{iter_packet_ies}
use wifi_sniffer.Ies.Valid.{Keeps, Keeps-trans, iter_packet_ies-Keeps}
use wifi_sniffer.Handler.{Env, count_tx, count_rx, note_mgmt, count_packet}
use wifi_sniffer.Handler.Entry.{incr32, note_tx, note_rx, add_freq, note_beacon}
use wifi_sniffer.Handler.Adjust.{KeepsAps, adjust_found-KeepsAps}

note_tx-Keeps : (env : Env) (info : HdrInfo) (a : Ap) → Keeps a (note_tx env info a)
unfolding note_tx
note_tx-Keeps env info a = ground arith

note_rx-Keeps : (info : HdrInfo) (a : Ap) → Keeps a (note_rx info a)
unfolding note_rx
note_rx-Keeps info a = ground arith

add_freq-Keeps : (freq : ℕ) (a : Ap) {b : Ap} → add_freq freq a ≡ ok b → Keeps a b
unfolding add_freq
add_freq-Keeps freq a h = ground (arith, length-set a.channel_freqs a.freq_num freq)

note_beacon-Keeps :
    (env : Env) (rt : RadiotapInfo) (a : Ap) {b : Ap} → note_beacon env rt a ≡ ok b → Keeps a b
unfolding note_beacon
note_beacon-Keeps env rt a {b} h =
    let seen = record a { last_seen = env.now; beacons = incr32 a.beacons } in
    Keeps-trans a seen b (λ v. ground arith, refl) (add_freq-Keeps rt.channel_freq seen h)

pub note_mgmt-Keeps :
    (env : Env) (p : PacketInfo) (body : List ℕ) (body_len : ℕ) (a b : Ap)
    → note_mgmt env p body body_len a ≡ ok b
    → Keeps a b
unfolding note_mgmt
note_mgmt-Keeps env p body body_len a b h =
    elim (Outcome-cases (iter_packet_ies a p body body_len)) [
      | inl (c, e) ↦
          let k = iter_packet_ies-Keeps a p body body_len e in
          ground (arith, k, note_beacon-Keeps env p.rt c {b = b}, Keeps-trans a c b k)
      | inr (f, e) ↦ absurd (ground arith)
    ]

pub with_aps-IsValid :
    (c : Ctx) (ys : List Ap) → KeepsAps c.aps ys → IsValid c → IsValid (record c { aps = ys })
with_aps-IsValid c ys k v = record {
  aps_room = omega (arith, k.room, v.aps_room);
  aps_used = v.aps_used;
  aps_valid = k.valid v.aps_valid;
  aps_unique = rw (k.addresses c.aps_count) v.aps_unique;
  scroll_byte = v.scroll_byte;
  packets_room = v.packets_room;
  packet_next = v.packet_next;
}

count_tx-IsValid :
    (env : Env) (info : HdrInfo) (c : Ctx) → IsValid c → IsValid (count_tx env info c)
unfolding count_tx
count_tx-IsValid env info c v = elim (Bool-cases (info.fromds == 0)) [
  | inl e ↦ rw e v
  | inr e ↦ rw e (with_aps-IsValid c _ (adjust_found-KeepsAps _ (note_tx-Keeps env info) _ _) v)
]

count_rx-IsValid : (info : HdrInfo) (c : Ctx) → IsValid c → IsValid (count_rx info c)
unfolding count_rx
count_rx-IsValid info c v = elim (Bool-cases (info.tods == 0)) [
  | inl e ↦ rw e v
  | inr e ↦ rw e (with_aps-IsValid c _ (adjust_found-KeepsAps _ (note_rx-Keeps info) _ _) v)
]

abbrev addresses : Ctx → List (List ℕ)
addresses c = macs c.aps c.aps_count

count_tx-addresses :
    (env : Env) (info : HdrInfo) (c : Ctx) → addresses (count_tx env info c) ≡ addresses c
unfolding count_tx
count_tx-addresses env info c = elim (Bool-cases (info.fromds == 0)) [
  | inl e ↦ rw e
  | inr e ↦ rw e ((adjust_found-KeepsAps _ (note_tx-Keeps env info) c.aps _).addresses c.aps_count)
]

count_rx-addresses : (info : HdrInfo) (c : Ctx) → addresses (count_rx info c) ≡ addresses c
unfolding count_rx
count_rx-addresses info c = elim (Bool-cases (info.tods == 0)) [
  | inl e ↦ rw e
  | inr e ↦ rw e ((adjust_found-KeepsAps _ (note_rx-Keeps info) c.aps _).addresses c.aps_count)
]

pub count_packet-IsValid :
    (env : Env) (c : Ctx) (p : PacketInfo) {d : Ctx}
    → IsValid c
    → count_packet env c p ≡ ok d
    → IsValid d
unfolding count_packet
count_packet-IsValid env c p {d} v h =
    let stored = record c {
      packet_buf = set c.packet_buf c.packet_buf_index p;
      packets = incr32 c.packets;
    } in
    let e : d ≡ count_rx p.hdr (count_tx env p.hdr stored) = ground arith in
    rw e (
      count_rx-IsValid p.hdr _ (
        count_tx-IsValid env p.hdr stored
          (ground (arith, length-set c.packet_buf c.packet_buf_index p))))

pub count_packet-addresses :
    (env : Env) (c : Ctx) (p : PacketInfo) {d : Ctx}
    → count_packet env c p ≡ ok d
    → macs d.aps d.aps_count ≡ macs c.aps c.aps_count
unfolding count_packet
count_packet-addresses env c p {d} h =
    let stored = record c {
      packet_buf = set c.packet_buf c.packet_buf_index p;
      packets = incr32 c.packets;
    } in
    let e : d ≡ count_rx p.hdr (count_tx env p.hdr stored) = ground arith in
    rw e (count_rx-addresses p.hdr _ ∙ count_tx-addresses env p.hdr stored)
