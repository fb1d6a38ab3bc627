-- ===== src/Ctx/Invariant.antt =====
-- The invariant of `struct ctx` (user/src/ctx.h): what the code relies on when it indexes the
-- arrays and prints the SSIDs.
use wifi_sniffer.Prelude.{
  ℕ, zero, suc, ◌≤◌, ◌<◌, ◌≡◌, refl, Bool, true, false, ◌||◌, List, [], ◌∷◌, ◌==◌, same_bytes,
  length, length-replicate, replicate, All, Distinct, arith,
}
use wifi_sniffer.Channel.{channels_count}
use wifi_sniffer.Ctx.{
  Ap, Ctx, ap_capacity, packet_buf_size, ssid_size, zero_ap, zero_packet, zero_ctx,
}

-- A zero byte ends the string within its array.
unfoldable pub has_zero : List ℕ → Bool
has_zero [] = false
has_zero (c ∷ cs) = c == 0 || has_zero cs

pub record IsValidAp (a : Ap) : Type 0 where
  pub ssid_room : length a.ssid ≡ ssid_size
  pub terminated : has_zero a.ssid ≡ true
  pub freqs_room : length a.channel_freqs ≡ channels_count
  pub freqs_used : a.freq_num ≤ channels_count

-- The addresses of the first `n` entries.
abbrev pub macs : List Ap → ℕ → List (List ℕ)
macs [] n = []
macs (a ∷ aps) zero = []
macs (a ∷ aps) (suc n) = a.mac ∷ macs aps n

abbrev pub Absent : List ℕ → List (List ℕ) → Type 0
Absent mac = All (λ m. same_bytes m mac ≡ false)

-- No address occurs twice.
abbrev pub Unique : List (List ℕ) → Type 0
Unique = Distinct same_bytes

pub record IsValid (c : Ctx) : Type 0 where
  pub aps_room : length c.aps ≡ ap_capacity
  pub aps_used : c.aps_count ≤ ap_capacity
  pub aps_valid : All IsValidAp c.aps
  pub aps_unique : Unique (macs c.aps c.aps_count)
  pub scroll_byte : c.scroll < 256
  pub packets_room : length c.packet_buf ≡ packet_buf_size
  pub packet_next : c.packet_buf_index < packet_buf_size

pub All-replicate {ℓ κ} :
    {A : Type ℓ} (P : A → Type κ) (n : ℕ) (a : A) → P a → All P (replicate n a)
All-replicate P zero a p = tt
All-replicate P (suc n) a p = (p, All-replicate P n a p)

zero_ap-IsValidAp : IsValidAp zero_ap
unfolding zero_ap has_zero
zero_ap-IsValidAp = record {
  ssid_room = refl;
  terminated = refl;
  freqs_room = refl;
  freqs_used = omega arith;
}

-- What `calloc` leaves is a valid context.
pub zero_ctx-IsValid : IsValid zero_ctx
unfolding zero_ctx
zero_ctx-IsValid = record {
  aps_room = length-replicate ap_capacity zero_ap;
  aps_used = omega arith;
  aps_valid = All-replicate IsValidAp ap_capacity zero_ap zero_ap-IsValidAp;
  aps_unique = tt;
  scroll_byte = omega arith;
  packets_room = length-replicate packet_buf_size zero_packet;
  packet_next = omega arith;
}
