-- ===== src/Ies/Steps.antt =====
-- What every step of the reader of information elements (user/src/ie_iter.c) does to an access point,
-- all of them do.
use wifi_sniffer.Prelude.{
  ℕ, zero, suc, ◌≡◌, refl, ◌∙◌, true, false, List, ok, Outcome-cases, none, some, Option-cases, inl,
  inr, arith,
}
use wifi_sniffer.Ctx.{Ap, PacketInfo}
use wifi_sniffer.Ies.{
  IeIterator, ie_iter, ie_iter_next, write_ssid, update_ssid, visit_ie, ie_loop, iter_packet_ies,
}

module _ (R : Ap → Ap → Type 0) (R_refl : (a : Ap) → R a a)
    (R_trans : (a b c : Ap) → R a b → R b c → R a c)
    (step : (a : Ap) (iter : IeIterator) (b : Ap) → visit_ie a iter ≡ ok b → R a b) where
  ie_loop_rel :
      (fuel : ℕ) (a : Ap) (iter : IeIterator) {b : Ap} → ie_loop fuel a iter ≡ ok b → R a b
  unfolding ie_loop
  ie_loop_rel zero a iter h = cc
  ie_loop_rel (suc fuel) a iter {b} h = elim (Outcome-cases (ie_iter_next iter)) [
    | inl ((true, next), e) ↦ let q : b ≡ a = ground arith in rw q (R_refl a)
    | inl ((false, next), e) ↦ elim (Outcome-cases (visit_ie a next)) [
      | inl (c, v) ↦ R_trans a c b (step a next c v) (ie_loop_rel fuel c next (ground arith))
      | inr (f, v) ↦ absurd (ground arith)
    ]
    | inr (f, e) ↦ absurd (ground arith)
  ]

  pub iter_packet_ies_rel :
      (a : Ap) (p : PacketInfo) (body : List ℕ) (body_len : ℕ) {b : Ap}
      → iter_packet_ies a p body body_len ≡ ok b
      → R a b
  unfolding iter_packet_ies
  iter_packet_ies_rel a p body body_len {b} h =
      elim (Outcome-cases (ie_iter body body_len p.hdr.frame_st)) [
        | inl (none, e) ↦ let q : b ≡ a = ground arith in rw q (R_refl a)
        | inl (some it, e) ↦ ie_loop_rel (suc it.ies_len) a it (ground arith)
        | inr (f, e) ↦ absurd (ground arith)
      ]

-- What reading an SSID leaves of an access point.
pub record IsNamed (a b : Ap) : Type 0 where
  pub mac : b.mac ≡ a.mac
  pub last_seen : b.last_seen ≡ a.last_seen
  pub channel_freqs : b.channel_freqs ≡ a.channel_freqs
  pub freq_num : b.freq_num ≡ a.freq_num

IsNamed-refl : (a : Ap) → IsNamed a a
IsNamed-refl a = record { mac = refl; last_seen = refl; channel_freqs = refl; freq_num = refl }

IsNamed-trans : (a b c : Ap) → IsNamed a b → IsNamed b c → IsNamed a c
IsNamed-trans a b c h k = record {
  mac = k.mac ∙ h.mac;
  last_seen = k.last_seen ∙ h.last_seen;
  channel_freqs = k.channel_freqs ∙ h.channel_freqs;
  freq_num = k.freq_num ∙ h.freq_num;
}

visit_ie-IsNamed : (a : Ap) (iter : IeIterator) {b : Ap} → visit_ie a iter ≡ ok b → IsNamed a b
unfolding visit_ie update_ssid write_ssid
visit_ie-IsNamed a iter {b} h = elim (Option-cases iter.cur) [
  | inl e ↦ ground arith
  | inr (p, e) ↦ ground arith
]

pub iter_packet_ies-IsNamed :
    (a : Ap) (p : PacketInfo) (body : List ℕ) (body_len : ℕ) {b : Ap}
    → iter_packet_ies a p body body_len ≡ ok b
    → IsNamed a b
iter_packet_ies-IsNamed a p body body_len h =
    iter_packet_ies_rel IsNamed IsNamed-refl IsNamed-trans (λ x iter y e. visit_ie-IsNamed x iter e)
      a p body body_len h
