-- ===== src/Channel/Freq.antt =====
-- `channel_to_freq` (user/src/channel_hop.c) against the channel numbers of 2.4 and 5 GHz.
use wifi_sniffer.Prelude.{
  ℕ, ◌+◌, ◌-◌, ◌*◌, ◌/◌, ◌≤◌, ◌≡◌, ◌⊎◌, inl, inr, pos, minus_one, ◌==◌, ltb, if◌then◌else◌,
  Bool-cases, arith,
}
use wifi_sniffer.Channel.{channel_to_freq}

-- The channel that has its centre at a frequency in MHz.
pub freq_to_channel : ℕ → ℕ
freq_to_channel freq =
    if freq == 2484 then 14 else if ltb freq 5000 then (freq - 2407) / 5 else (freq - 5000) / 5

-- The numbers that name a channel.
abbrev pub IsChannel : ℕ → Type 0
IsChannel c = ((1 ≤ c) × (c ≤ 14)) ⊎ ((36 ≤ c) × (c ≤ 177))

-- A frequency in one of the two bands, from which the channel can be told.
abbrev pub IsCentre : ℕ → ℕ → Type 0
IsCentre c f = (freq_to_channel f ≡ c) × (((2412 ≤ f) × (f ≤ 2484)) ⊎ ((5180 ≤ f) × (f ≤ 5885)))

low_channel :
    (c : ℕ)
    → 1 ≤ c
    → c ≤ 13
    → (channel_to_freq (pos c) ≡ pos (2407 + c * 5)) × (IsCentre c (2407 + c * 5))
unfolding channel_to_freq freq_to_channel
low_channel c h k = (ground arith, (ground arith, inl (omega arith)))

high_channel :
    (c : ℕ)
    → 36 ≤ c
    → c ≤ 177
    → (channel_to_freq (pos c) ≡ pos (5000 + c * 5)) × IsCentre c (5000 + c * 5)
unfolding channel_to_freq freq_to_channel
high_channel c h k = (ground arith, (ground arith, inr (omega arith)))

last_channel : (c : ℕ) → c ≡ 14 → (channel_to_freq (pos c) ≡ pos 2484) × IsCentre c 2484
unfolding channel_to_freq freq_to_channel
last_channel c e = (ground arith, (ground arith, inl (omega arith)))

no_channel : (c : ℕ) → ¬ IsChannel c → channel_to_freq (pos c) ≡ minus_one
unfolding channel_to_freq
no_channel c h = ground arith

-- A number either names a channel, and then has a frequency in one of the two bands from which the
-- channel can be told, or it names none, and gives -1.
pub channel_to_freq_lem :
    (c : ℕ)
    → (IsChannel c × ((f : ℕ) × (channel_to_freq (pos c) ≡ pos f) × IsCentre c f))
      ⊎ ((¬ IsChannel c) × (channel_to_freq (pos c) ≡ minus_one))
channel_to_freq_lem c = elim (Bool-cases (ltb c 36)) [
  | inr a ↦ elim (Bool-cases (ltb c 178)) [
    | inl b ↦ inl (
      inr (ground arith, ground arith),
      (
        5000 + c * 5,
        (high_channel c (ground arith) (ground arith)).0,
        (high_channel c (ground arith) (ground arith)).1,
      ),
    )
    | inr b ↦ none_of c (ground arith)
  ]
  | inl a ↦ elim (Bool-cases (ltb c 15)) [
    | inr b ↦ none_of c (ground arith)
    | inl b ↦ elim (Bool-cases (c == 14)) [
      | inl e ↦ inl (
        inl (ground arith, ground arith),
        (2484, (last_channel c (ground arith)).0, (last_channel c (ground arith)).1),
      )
      | inr e ↦ elim (Bool-cases (c == 0)) [
        | inl z ↦ none_of c (ground arith)
        | inr z ↦ inl (
          inl (ground arith, ground arith),
          (
            2407 + c * 5,
            (low_channel c (ground arith) (ground arith)).0,
            (low_channel c (ground arith) (ground arith)).1,
          ),
        )
      ]
    ]
  ]
]
  where
    none_of :
        (c : ℕ)
        → ¬ IsChannel c
        → (IsChannel c × ((f : ℕ) × (channel_to_freq (pos c) ≡ pos f) × IsCentre c f))
          ⊎ ((¬ IsChannel c) × (channel_to_freq (pos c) ≡ minus_one))
    none_of c h = inr (h, no_channel c h)
