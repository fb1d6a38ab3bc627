-- ===== src/Kernel/Fields.antt =====
-- The fields that kern/sniffer_main.c takes from the frame control field, as bits of its number.
use wifi_sniffer.Prelude.{
  ℕ, zero, suc, ◌+◌, ◌/◌, ◌%◌, ◌^◌, ◌≤◌, ◌<◌, ◌≡◌, refl, Bool, true, ◌&&◌, ◌==◌, ltb, ltb→lt,
  ltb_false→le, Bool-cases, inl, inr, bit_and, arith,
}
use wifi_sniffer.Ctx.{HdrInfo}
use wifi_sniffer.Kernel.{Ieee80211, parse_fc}
use wifi_sniffer.Kernel.Standard.{IsStandard}

-- Whether a test holds at the `n` halvings' worth of numbers from `base` on: `span n` of them.
span : ℕ → ℕ
span zero = 1
span (suc n) = span n + span n

holds : ℕ → ℕ → (ℕ → Bool) → Bool
holds zero base p = p base
holds (suc n) base p = holds n base p && holds n (base + span n) p

holds_sound :
    (n base : ℕ) (p : ℕ → Bool) (x : ℕ)
    → holds n base p ≡ true
    → base ≤ x
    → x < base + span n
    → p x ≡ true
unfolding holds span
holds_sound zero base p x h l u = let e : x ≡ base = omega arith in rw e h
holds_sound (suc n) base p x h l u = elim (Bool-cases (ltb x (base + span n))) [
  | inl e ↦ holds_sound n base p x (ground arith) l (ltb→lt x _ e)
  | inr e ↦ holds_sound n (base + span n) p x (ground arith) (ltb_false→le x _ e) (omega arith)
]

-- The shift of a masked field against the field's bits.
abbrev masks_agree : ℕ → Bool
masks_agree fc =
    bit_and fc 0x000c / 2 ^ 2 % 256 == fc / 4 % 4
    && bit_and fc 0x00f0 / 2 ^ 4 % 256 == fc / 16 % 16
    && bit_and fc 0x0800 / 2 ^ 11 % 256 == fc / 2048 % 2
    && bit_and fc 0x0100 / 2 ^ 8 % 256 == fc / 256 % 2
    && bit_and fc 0x0200 / 2 ^ 9 % 256 == fc / 512 % 2

masks_table : holds 16 0 masks_agree ≡ true
unfolding holds span
masks_table = refl

masks_agree_all : (fc : ℕ) → fc < 2 ^ 16 → masks_agree fc ≡ true
masks_agree_all fc h = holds_sound 16 0 masks_agree fc masks_table (omega arith) (unfold span in h)

-- The bits of IEEE 802.11: the type in bits 2 and 3, the subtype in bits 4 to 7, To DS in bit 8,
-- From DS in bit 9, Retry in bit 11.
pub record FcBits (fc : ℕ) (info : HdrInfo) : Type 0 where
  pub frame_t : info.frame_t ≡ fc / 4 % 4
  pub frame_st : info.frame_st ≡ fc / 16 % 16
  pub retry : info.retry ≡ fc / 2048 % 2
  pub tods : info.tods ≡ fc / 256 % 2
  pub fromds : info.fromds ≡ fc / 512 % 2

-- With the masks of the kernel's header, the fields of `hdr_info` that come from the frame
-- control field are the bits that IEEE 802.11 gives it, for every 16-bit frame control field.
pub parse_fc-FcBits :
    (k : Ieee80211) (fc : ℕ) (stack : HdrInfo)
    → IsStandard k
    → fc < 2 ^ 16
    → FcBits fc (parse_fc k fc stack)
unfolding parse_fc
parse_fc-FcBits k fc stack s h =
    let t = masks_agree_all fc h in
    rw (s.ftype, s.stype, s.retry, s.tods, s.fromds) (ground (arith, t))
