-- ===== src/Handler/Room.antt =====
-- Room for frequencies in the entries of access points (user/src/main.c), and updates of entries that
-- keep it.
use wifi_sniffer.Prelude.{
  ℕ, zero, suc, ◌<◌, ◌≡◌, refl, ◌∙◌, true, ◌||◌, ◌==◌, ltb, List, [], ◌∷◌, ◌++◌, length, set, All,
  inl, inr, Bool-cases, Outcome, ok, Option-cases, Returns, ok-Returns, arith,
}
use wifi_sniffer.FrameTypes.{mgmt_fixed_params}
use wifi_sniffer.Channel.{channels_count}
use wifi_sniffer.Ctx.{Ap, Ctx, HdrInfo, PacketInfo, get_ap}
use wifi_sniffer.Ctx.Invariant.{IsValidAp}
use wifi_sniffer.Ies.{iter_packet_ies}
use wifi_sniffer.Ies.Steps.{iter_packet_ies-IsNamed}
use wifi_sniffer.Ies.Valid.{iter_packet_ies-Keeps}
use wifi_sniffer.Ies.Elements.{Ie, encode_ies}
use wifi_sniffer.Ies.Roundtrip.{iter_packet_ies_refines}
use wifi_sniffer.Ies.Fits.{fits, apply_ies-Room}
use wifi_sniffer.Handler.{Env, incr32, adjust_found, count_tx, count_rx, count_packet, note_mgmt}
use wifi_sniffer.Handler.Entry.{adjust, adjust?, note_tx, note_rx, has_freq, add_freq, note_beacon}

-- The body of a management frame: its fixed part, and elements that fit.
pub record WellFormed (st : ℕ) (fixed : List ℕ) (es : List Ie) : Type 0 where
  pub fixed_length : length fixed ≡ mgmt_fixed_params st
  pub elements : 2 < length (encode_ies es)
  pub short : length (fixed ++ encode_ies es) < 256
  pub fitting : All (λ e. fits e ≡ true) es

-- The frequency is recorded, or there is room for one more.
abbrev pub HasRoom : ℕ → Ap → Type 0
HasRoom freq a = (has_freq a.channel_freqs a.freq_num freq || ltb a.freq_num channels_count) ≡ true

module _ (P : Ap → Type 0) where
  pub All-adjust :
      (f : Ap → Ap)
      → ((a : Ap) → P a → P (f a))
      → (xs : List Ap) (i : ℕ) → All P xs
      → All P (adjust f xs i)
  unfolding adjust
  All-adjust f k [] i h = tt
  All-adjust f k (a ∷ xs) zero h = (k a h.0, h.1)
  All-adjust f k (a ∷ xs) (suc i) h = (h.0, All-adjust f k xs i h.1)

  pub adjust?-Returns :
      (f : Ap → Outcome Ap)
      → ((a : Ap) → P a → Returns (f a))
      → (xs : List Ap) (i : ℕ) → All P xs
      → i < length xs
      → Returns (adjust? f xs i)
  unfolding adjust?
  adjust?-Returns f k [] i h l = absurd (omega arith)
  adjust?-Returns f k (a ∷ xs) zero h l = let (b, e) = k a h.0 in (b ∷ xs, rw e)
  adjust?-Returns f k (a ∷ xs) (suc i) h l =
      let (ys, e) = adjust?-Returns f k xs i h.1 (omega arith) in (a ∷ ys, rw e)

pub length-adjust : (f : Ap → Ap) (xs : List Ap) (i : ℕ) → length (adjust f xs i) ≡ length xs
unfolding adjust
length-adjust f [] i = refl
length-adjust f (a ∷ xs) zero = refl
length-adjust f (a ∷ xs) (suc i) = omega (arith, length-adjust f xs i)

add_freq-Returns : (freq : ℕ) (a : Ap) → IsValidAp a → HasRoom freq a → Returns (add_freq freq a)
unfolding add_freq
add_freq-Returns freq a v r = elim (Bool-cases (has_freq a.channel_freqs a.freq_num freq)) [
  | inl e ↦ rw e (ok-Returns _)
  | inr e ↦
      let room : ltb a.freq_num (length a.channel_freqs) ≡ true = ground (arith, v.freqs_room, r) in
      rw (e, room) (ok-Returns _)
]

pub note_mgmt-Returns :
    (env : Env) (p : PacketInfo) (fixed : List ℕ) (es : List Ie)
    → WellFormed p.hdr.frame_st fixed es
    → (a : Ap) → IsValidAp a × HasRoom p.rt.channel_freq a
    → Returns (note_mgmt env p (fixed ++ encode_ies es) (length (fixed ++ encode_ies es)) a)
unfolding note_mgmt note_beacon
note_mgmt-Returns env p fixed es w a (v, r) =
    let body = fixed ++ encode_ies es in
    let (b, e, room, same) = apply_ies-Room a es v.ssid_room w.fitting in
    let read : iter_packet_ies a p body (length body) ≡ ok b =
      iter_packet_ies_refines a p fixed es w.fixed_length w.elements w.short ∙ e in
    let valid : IsValidAp b = (iter_packet_ies-Keeps a p body (length body) read).0 v in
    let kept = iter_packet_ies-IsNamed a p body (length body) read in
    elim (Bool-cases (p.hdr.frame_st == 8)) [
      | inr o ↦ rw (read, o) (ok-Returns b)
      | inl o ↦
          let seen = record b { last_seen = env.now; beacons = incr32 b.beacons } in
          let valid' : IsValidAp seen = ground arith in
          rw (read, o)
            (add_freq-Returns p.rt.channel_freq seen valid'
              (ground (arith, kept.freq_num, kept.channel_freqs)))
    ]

count_tx-HasRoom :
    (freq : ℕ) (env : Env) (info : HdrInfo) (c : Ctx)
    → All (HasRoom freq) c.aps
    → All (HasRoom freq) (count_tx env info c).aps
unfolding count_tx adjust_found note_tx
count_tx-HasRoom freq env info c h = elim (Bool-cases (info.fromds == 0)) [
  | inl e ↦ rw e h
  | inr e ↦ elim (Option-cases (get_ap c info.src_mac)) [
    | inl g ↦ rw (e, g) h
    | inr (i, g) ↦
        rw (e, g) (All-adjust (HasRoom freq) (note_tx env info) (λ a r. keeps a r) c.aps i h)
  ]
]
  where
    keeps : (a : Ap) → HasRoom freq a → HasRoom freq (note_tx env info a)
    keeps a r = ground arith

count_rx-HasRoom :
    (freq : ℕ) (info : HdrInfo) (c : Ctx)
    → All (HasRoom freq) c.aps
    → All (HasRoom freq) (count_rx info c).aps
unfolding count_rx adjust_found note_rx
count_rx-HasRoom freq info c h = elim (Bool-cases (info.tods == 0)) [
  | inl e ↦ rw e h
  | inr e ↦ elim (Option-cases (get_ap c info.dst_mac)) [
    | inl g ↦ rw (e, g) h
    | inr (i, g) ↦ rw (e, g) (All-adjust (HasRoom freq) (note_rx info) (λ a r. keeps a r) c.aps i h)
  ]
]
  where
    keeps : (a : Ap) → HasRoom freq a → HasRoom freq (note_rx info a)
    keeps a r = ground arith

count_tx-count :
    (env : Env) (info : HdrInfo) (c : Ctx) → (count_tx env info c).aps_count ≡ c.aps_count
unfolding count_tx
count_tx-count env info c = ground arith

count_rx-count : (info : HdrInfo) (c : Ctx) → (count_rx info c).aps_count ≡ c.aps_count
unfolding count_rx
count_rx-count info c = ground arith

pub count_packet-HasRoom :
    (freq : ℕ) (env : Env) (c : Ctx) (p : PacketInfo) {d : Ctx}
    → All (HasRoom freq) c.aps
    → count_packet env c p ≡ ok d
    → All (HasRoom freq) d.aps × (d.aps_count ≡ c.aps_count)
unfolding count_packet
count_packet-HasRoom freq env c p {d} h e =
    let stored = record c {
      packet_buf = set c.packet_buf c.packet_buf_index p;
      packets = incr32 c.packets;
    } in
    let sent = count_tx env p.hdr stored in
    let q : d ≡ count_rx p.hdr sent = ground arith in
    rw q (
      count_rx-HasRoom freq p.hdr sent (count_tx-HasRoom freq env p.hdr stored h),
      count_rx-count p.hdr sent ∙ count_tx-count env p.hdr stored,
    )
