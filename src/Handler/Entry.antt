-- ===== src/Handler/Entry.antt =====
-- user/src/main.c, `handle_frame_info`: what it writes into one entry of the array of access points.
use wifi_sniffer.Prelude.{
  ℕ, zero, suc, ◌+◌, ◌%◌, ◌^◌, Bool, false, ◌||◌, List, [], ◌∷◌, ◌++◌, ◌==◌, ltb, if◌then◌else◌,
  length, set, drop, Outcome, ok, fault, aps_overflow, freqs_overflow, ◌>>=◌, ◌>>◌, check,
}
use wifi_sniffer.Ctx.{Ap, RadiotapInfo, HdrInfo}

pub record Env : Type 0 where
  pub now : ℕ
  pub colors : ℕ

-- `uint32_t` increment.
abbrev pub incr32 : ℕ → ℕ
incr32 n = (n + 1) % 2 ^ 32

-- An update through a pointer to entry `i`.
unfoldable pub adjust : (Ap → Ap) → List Ap → ℕ → List Ap
adjust f [] i = []
adjust f (a ∷ aps) zero = f a ∷ aps
adjust f (a ∷ aps) (suc i) = a ∷ adjust f aps i

-- One that may fault.
unfoldable pub adjust? : (Ap → Outcome Ap) → List Ap → ℕ → Outcome (List Ap)
adjust? f [] i = fault aps_overflow
adjust? f (a ∷ aps) zero = do a' ← f a; ok (a' ∷ aps)
adjust? f (a ∷ aps) (suc i) = do aps' ← adjust? f aps i; ok (a ∷ aps')

abbrev pub count_retry : HdrInfo → Ap → Ap
count_retry info ap = if info.retry == 0 then ap else record ap { retries = incr32 ap.retries }

unfoldable pub note_tx : Env → HdrInfo → Ap → Ap
note_tx env info ap =
    count_retry info (record ap { tx_packets = incr32 ap.tx_packets; last_seen = env.now })

unfoldable pub note_rx : HdrInfo → Ap → Ap
note_rx info ap = count_retry info (record ap { rx_packets = incr32 ap.rx_packets })

-- The codes of "<hidden>".
abbrev pub hidden : List ℕ
hidden = 60 ∷ 104 ∷ 105 ∷ 100 ∷ 100 ∷ 101 ∷ 110 ∷ 62 ∷ []

-- The fields that are written into the array's next entry; all others keep what the entry held.
unfoldable pub name_new_ap : List ℕ → ℕ → Ap → Ap
name_new_ap mac cur_col ap = record ap {
  mac = mac;
  ssid = hidden ++ (0 ∷ drop 9 ap.ssid);
  ssid_len = 8;
  col_pair = cur_col + 1;
}

-- The loop over the first `n` of the recorded frequencies.
unfoldable pub has_freq : List ℕ → ℕ → ℕ → Bool
has_freq [] n freq = false
has_freq (f ∷ fs) zero freq = false
has_freq (f ∷ fs) (suc n) freq = f == freq || has_freq fs n freq

unfoldable pub add_freq : ℕ → Ap → Outcome Ap
add_freq freq ap = if has_freq ap.channel_freqs ap.freq_num freq then ok ap else do
  check (ltb ap.freq_num (length ap.channel_freqs)) freqs_overflow
  ok (record ap {
    channel_freqs = set ap.channel_freqs ap.freq_num freq;
    freq_num = ap.freq_num + 1;
  })

-- `if (info->frame_st == M_BEACON) { … }`
unfoldable pub note_beacon : Env → RadiotapInfo → Ap → Outcome Ap
note_beacon env rt ap =
    add_freq rt.channel_freq (record ap { last_seen = env.now; beacons = incr32 ap.beacons })
