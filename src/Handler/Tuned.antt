-- ===== src/Handler/Tuned.antt =====
-- The frequencies on which an access point was heard (user/src/main.c, `handle_frame_info`): they fill
-- no more of `channel_freqs` than there are frequencies.
use wifi_sniffer.Prelude.{
  ℕ, zero, suc, ◌≤◌, ◌<◌, ◌≡◌, refl, sym, ap, ◌∙◌, true, ◌||◌, ◌==◌, ==_refl, List, [], ◌∷◌, ◌++◌,
  length, length-take, take, set, All, All-append, among, among-All, Distinct, Distinct-append,
  length-Distinct, inl, inr, subst, Bool-cases, Outcome-cases, ok, arith,
}
use wifi_sniffer.Channel.{channels_count}
use wifi_sniffer.Ctx.{Ap, PacketInfo}
use wifi_sniffer.Ctx.Invariant.{IsValidAp}
use wifi_sniffer.Ies.{iter_packet_ies}
use wifi_sniffer.Ies.Steps.{iter_packet_ies-IsNamed}
use wifi_sniffer.Handler.{Env, note_mgmt, incr32}
use wifi_sniffer.Handler.Entry.{has_freq, add_freq, note_beacon}
use wifi_sniffer.Handler.Room.{HasRoom}

pub has_freq-among : (fs : List ℕ) (n f : ℕ) → has_freq fs n f ≡ among ◌==◌ (take n fs) f
unfolding has_freq
has_freq-among [] zero f = refl
has_freq-among [] (suc n) f = refl
has_freq-among (x ∷ fs) zero f = refl
has_freq-among (x ∷ fs) (suc n) f = ap (λ b. x == f || b) (has_freq-among fs n f)

abbrev pub recorded : Ap → List ℕ
recorded a = take a.freq_num a.channel_freqs

-- Distinct frequencies, all of them among `freqs`.
pub record AreTuned (freqs fs : List ℕ) : Type 0 where
  pub distinct : Distinct ◌==◌ fs
  pub within : All (λ f. among ◌==◌ freqs f ≡ true) fs

abbrev pub IsTuned : List ℕ → Ap → Type 0
IsTuned freqs a = AreTuned freqs (recorded a)

pub recorded-IsTuned :
    (freqs : List ℕ) (a b : Ap)
    → b.channel_freqs ≡ a.channel_freqs
    → b.freq_num ≡ a.freq_num
    → IsTuned freqs a
    → IsTuned freqs b
recorded-IsTuned freqs a b e n t =
    let same : recorded a ≡ recorded b = rw (e, n) refl in subst (AreTuned freqs) same t

length-recorded : (a : Ap) → IsValidAp a → length (recorded a) ≡ a.freq_num
length-recorded a v =
    omega (arith, length-take a.freq_num a.channel_freqs, v.freqs_room, v.freqs_used)

eq_sound : (x y : ℕ) → (x == y) ≡ true → x ≡ y
eq_sound x y h = ground arith

-- Distinct frequencies fill no more entries than there are frequencies.
pub tuned-HasRoom :
    (freqs : List ℕ) (freq : ℕ) (a : Ap)
    → length freqs ≤ channels_count
    → among ◌==◌ freqs freq ≡ true
    → IsValidAp a
    → IsTuned freqs a
    → HasRoom freq a
tuned-HasRoom freqs freq a l m v t = elim (Bool-cases (has_freq a.channel_freqs a.freq_num freq)) [
  | inl e ↦ ground (arith, e)
  | inr e ↦
      let new =
        among-All ◌==◌ (recorded a) freq
          (sym (has_freq-among a.channel_freqs a.freq_num freq) ∙ e) in
      let fewer =
        length-Distinct ◌==◌ ==_refl eq_sound (freq ∷ recorded a) freqs (new, t.distinct)
          (m, t.within) in
      let small : a.freq_num < channels_count = omega (arith, fewer, length-recorded a v) in
      ground (arith, small)
]

take-set_next :
    (fs : List ℕ) (n f : ℕ) → n < length fs → take (suc n) (set fs n f) ≡ take n fs ++ (f ∷ [])
take-set_next [] n f h = absurd (omega arith)
take-set_next (x ∷ fs) zero f h = refl
take-set_next (x ∷ fs) (suc n) f h = ap (◌∷◌ x) (take-set_next fs n f (omega arith))

add_freq-IsTuned :
    (freqs : List ℕ) (freq : ℕ) (a : Ap) {b : Ap}
    → among ◌==◌ freqs freq ≡ true
    → IsTuned freqs a
    → add_freq freq a ≡ ok b
    → IsTuned freqs b
unfolding add_freq
add_freq-IsTuned freqs freq a {b} m t h =
    elim (Bool-cases (has_freq a.channel_freqs a.freq_num freq)) [
      | inl e ↦ let q : b ≡ a = ground arith in rw q t
      | inr e ↦
          let new =
            among-All ◌==◌ (recorded a) freq
              (sym (has_freq-among a.channel_freqs a.freq_num freq) ∙ e) in
          let room : a.freq_num < length a.channel_freqs = ground arith in
          let q : b ≡ record a {
            channel_freqs = set a.channel_freqs a.freq_num freq;
            freq_num = suc a.freq_num;
          } =
            ground arith in
          let more : recorded b ≡ recorded a ++ (freq ∷ []) =
            ap recorded q ∙ take-set_next a.channel_freqs a.freq_num freq room in
          subst (AreTuned freqs) (sym more) (record {
            distinct = Distinct-append ◌==◌ ==_refl eq_sound (recorded a) freq t.distinct new;
            within = All-append _ (recorded a) freq t.within m;
          })
    ]

pub note_mgmt-IsTuned :
    (freqs : List ℕ) (env : Env) (p : PacketInfo) (body : List ℕ) (n : ℕ) (a b : Ap)
    → among ◌==◌ freqs p.rt.channel_freq ≡ true
    → IsTuned freqs a
    → note_mgmt env p body n a ≡ ok b
    → IsTuned freqs b
unfolding note_mgmt note_beacon
note_mgmt-IsTuned freqs env p body n a b m t h = elim (Outcome-cases (iter_packet_ies a p body n)) [
  | inr (f, e) ↦ absurd (ground arith)
  | inl (c, e) ↦
      let kept = iter_packet_ies-IsNamed a p body n e in
      let tuned : IsTuned freqs c = recorded-IsTuned freqs a c kept.channel_freqs kept.freq_num t in
      elim (Bool-cases (p.hdr.frame_st == 8)) [
        | inr o ↦ let q : b ≡ c = ground arith in rw q tuned
        | inl o ↦
            let seen = record c { last_seen = env.now; beacons = incr32 c.beacons } in
            let tuned' : IsTuned freqs seen = tuned in
            add_freq-IsTuned freqs p.rt.channel_freq seen {b = b} m tuned' (ground arith)
      ]
]
