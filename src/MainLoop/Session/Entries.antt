-- ===== src/MainLoop/Session/Entries.antt =====
-- The entries of access points after a beacon (user/src/main.c, `handle_frame_info`).
use wifi_sniffer.Prelude.{
  ℕ, suc, ◌+◌, ◌%◌, ◌≤◌, ◌<◌, ◌≡◌, ◌≢◌, ◌⊎◌, refl, sym, ap, ◌∙◌, subst, true, ◌==◌, Option, none,
  some, List, [], ◌∷◌, ◌++◌, length, get_elem?, among, inl, inr, Outcome-cases, ok, arith,
}
use wifi_sniffer.Ctx.{Ap, PacketInfo, ap_capacity}
use wifi_sniffer.Ctx.Invariant.{macs}
use wifi_sniffer.Handler.{
  Env, Sniffer, register_ap, find_or_register, note_mgmt, handle_announcement,
}
use wifi_sniffer.Handler.Entry.{adjust, adjust?, name_new_ap}
use wifi_sniffer.Handler.Adjust.{adjust?-KeepsAps}
use wifi_sniffer.Handler.Counters.{note_mgmt-Keeps}
use wifi_sniffer.Handler.Registration.{macs-adjust_next, named}
use wifi_sniffer.Handler.Each.{Each, Each-adjust, get_elem?-adjust, get_elem?-adjust?}
use wifi_sniffer.Handler.Beacon.{note_mgmt-Heard}
use wifi_sniffer.Handler.Tuned.{IsTuned, note_mgmt-IsTuned}

-- What the registration of an unknown access point, or the lookup of a known one, leaves.
record Registered (freqs : List ℕ) (colors : ℕ) (s t : Sniffer) (mac : List ℕ) (i : ℕ)
    : Type 0 where
  pub addresses :
      (macs t.ctx.aps t.ctx.aps_count ≡ macs s.ctx.aps s.ctx.aps_count)
      ⊎ (macs t.ctx.aps t.ctx.aps_count ≡ macs s.ctx.aps s.ctx.aps_count ++ (mac ∷ []))
  pub tuned : Each (IsTuned freqs) ap_capacity t.ctx.aps
  pub before :
      (j : ℕ) (a : Ap)
      → j < t.ctx.aps_count
      → j ≢ i
      → get_elem? t.ctx.aps j ≡ some a
      → (j < s.ctx.aps_count) × (get_elem? s.ctx.aps j ≡ some a)
  pub color : t.cur_col < colors

name_new_ap-IsTuned :
    (freqs : List ℕ) (mac : List ℕ) (col : ℕ) (a : Ap)
    → IsTuned freqs a
    → IsTuned freqs (name_new_ap mac col a)
unfolding name_new_ap
name_new_ap-IsTuned freqs mac col a t = t

register_ap-Registered :
    (freqs : List ℕ) (env : Env) (s : Sniffer) (mac : List ℕ) {i : ℕ} {t : Sniffer}
    → Each (IsTuned freqs) ap_capacity s.ctx.aps
    → 0 < env.colors
    → register_ap env s mac ≡ ok (i, t)
    → Registered freqs env.colors s t mac i
unfolding register_ap
register_ap-Registered freqs env s mac {i} {t} h some_colors k =
    let c = s.ctx in
    let name = name_new_ap mac s.cur_col in
    let l : c.aps_count < length c.aps = ground arith in
    let i_eq : i ≡ c.aps_count = ground arith in
    let aps_eq : t.ctx.aps ≡ adjust name c.aps c.aps_count = ground arith in
    let n_eq : t.ctx.aps_count ≡ suc c.aps_count = ground arith in
    let color_eq : t.cur_col ≡ (s.cur_col + 1) % env.colors = ground arith in
    record {
      addresses =
          inr (
            rw (aps_eq, n_eq)
              (macs-adjust_next name mac (named mac s.cur_col) c.aps c.aps_count l));
      tuned = subst (Each (IsTuned freqs) ap_capacity) (sym aps_eq) (
          Each-adjust (IsTuned freqs) ap_capacity name c.aps c.aps_count
            (name_new_ap-IsTuned freqs mac s.cur_col) h);
      before = λ j a small other at.
          let (b, there, cases) =
            get_elem?-adjust name c.aps c.aps_count j
              (ap (λ xs. get_elem? xs j) (sym aps_eq) ∙ at) in
          elim cases [
            | inl (q, _) ↦ absurd (other (q ∙ sym i_eq))
            | inr (q, same) ↦ (omega (arith, n_eq, small, q), there ∙ ap some (sym same))
          ];
      color = grind (arith, color_eq);
    }

find_or_register-Registered :
    (freqs : List ℕ) (env : Env) (s : Sniffer) (mac : List ℕ) (found : Option ℕ) {i : ℕ}
    {t : Sniffer}
    → Each (IsTuned freqs) ap_capacity s.ctx.aps
    → 0 < env.colors
    → s.cur_col < env.colors
    → find_or_register env s mac found ≡ ok (i, t)
    → Registered freqs env.colors s t mac i
unfolding find_or_register
find_or_register-Registered freqs env s mac none h l k r =
    register_ap-Registered freqs env s mac h l r
find_or_register-Registered freqs env s mac (some j) {i} {t} h l k r =
    let same : t ≡ s = ground arith in
    subst (λ x. Registered freqs env.colors s x mac i) (sym same)
      (record {
        addresses = inl refl;
        tuned = h;
        before = λ j a small other at. (small, at);
        color = k;
      })

-- What a beacon leaves of the entries.
pub record Announces (freqs : List ℕ) (since colors : ℕ) (s t : Sniffer) (mac : List ℕ)
    : Type 0 where
  pub addresses :
      (macs t.ctx.aps t.ctx.aps_count ≡ macs s.ctx.aps s.ctx.aps_count)
      ⊎ (macs t.ctx.aps t.ctx.aps_count ≡ macs s.ctx.aps s.ctx.aps_count ++ (mac ∷ []))
  pub tuned : Each (IsTuned freqs) ap_capacity t.ctx.aps
  pub recent : Each (λ a. since ≤ a.last_seen) t.ctx.aps_count t.ctx.aps
  pub color : t.cur_col < colors

pub announcement-Announces :
    (freqs : List ℕ) (since : ℕ) (env : Env) (s : Sniffer) (p : PacketInfo) (body : List ℕ) (n : ℕ)
    (found : Option ℕ) {t : Sniffer}
    → Each (IsTuned freqs) ap_capacity s.ctx.aps
    → Each (λ a. since ≤ a.last_seen) s.ctx.aps_count s.ctx.aps
    → since ≤ env.now
    → 0 < env.colors
    → s.cur_col < env.colors
    → among ◌==◌ freqs p.rt.channel_freq ≡ true
    → p.hdr.frame_st ≡ 8
    → handle_announcement env s p body n found ≡ ok t
    → Announces freqs since env.colors s t p.hdr.bssid
unfolding handle_announcement
announcement-Announces freqs since env s p body n found {t} h r l some_colors color m st k =
    elim (Outcome-cases (find_or_register env s p.hdr.bssid found)) [
      | inr (f, e) ↦ absurd (ground arith)
      | inl ((i, s1), e) ↦ elim (Outcome-cases (adjust? (note_mgmt env p body n) s1.ctx.aps i)) [
        | inr (f, e') ↦ absurd (ground arith)
        | inl (ys, e') ↦
            let g =
              find_or_register-Registered freqs env s p.hdr.bssid found h some_colors color e in
            let keeps = adjust?-KeepsAps _ (note_mgmt-Keeps env p body n) s1.ctx.aps i e' in
            let same : t ≡ record s1 { ctx = record s1.ctx { aps = ys } } = ground arith in
            subst (λ x. Announces freqs since env.colors s x p.hdr.bssid) (sym same)
              (record {
                addresses = elim g.addresses [
                  | inl q ↦ inl (keeps.addresses s1.ctx.aps_count ∙ q)
                  | inr q ↦ inr (keeps.addresses s1.ctx.aps_count ∙ q)
                ];
                tuned = λ j b small at.
                    let (a, there, cases) =
                      get_elem?-adjust? (note_mgmt env p body n) s1.ctx.aps i j e' at in
                    let before = g.tuned j a small there in
                    elim cases [
                      | inl (_, noted) ↦ note_mgmt-IsTuned freqs env p body n a b m before noted
                      | inr (_, q) ↦ subst (IsTuned freqs) (sym q) before
                    ];
                recent = λ j b small at.
                    let (a, there, cases) =
                      get_elem?-adjust? (note_mgmt env p body n) s1.ctx.aps i j e' at in
                    elim cases [
                      | inl (_, noted) ↦
                          let heard = note_mgmt-Heard env p body n a b st noted in
                          omega (arith, heard.last_seen)
                      | inr (other, q) ↦
                          let (small', at') = g.before j a small other there in
                          let old = r j a small' at' in
                          omega (arith, ap (λ (x : Ap). x.last_seen) q)
                    ];
                color = g.color;
              })
      ]
    ]
