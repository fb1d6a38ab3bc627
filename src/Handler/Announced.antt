-- ===== src/Handler/Announced.antt =====
-- Beacons and probe responses that the handler of user/src/main.c takes without a fault.
use wifi_sniffer.Prelude.{
  ℕ, ◌+◌, ◌^◌, ◌<◌, ◌≡◌, refl, ◌∙◌, sym, true, false, ◌||◌, ◌==◌, ltb, List, [], ◌∷◌, ◌++◌, Option,
  none, some, length, All, inl, inr, Bool-cases, ok, Option-cases, Returns, ok-Returns, >>=-Returns,
  arith,
}
use wifi_sniffer.Ctx.{Ap, Ctx, PacketInfo, get_ap, ap_capacity}
use wifi_sniffer.Ctx.Invariant.{IsValid, IsValidAp}
use wifi_sniffer.Ctx.Lookup.{find_ap-Found, get_ap-none}
use wifi_sniffer.Ies.Elements.{Ie, encode_ies}
use wifi_sniffer.Handler.{
  Env, Sniffer, count_packet, register_ap, find_or_register, note_mgmt, handle_announcement,
  dispatch, handle_packet,
}
use wifi_sniffer.Handler.Entry.{name_new_ap}
use wifi_sniffer.Handler.Counters.{count_packet-IsValid, count_packet-addresses}
use wifi_sniffer.Handler.Registration.{find_or_register-IsValid}
use wifi_sniffer.Handler.Beacon.{get_ap-addresses}
use wifi_sniffer.Handler.Total.{count_packet-Returns}
use wifi_sniffer.Handler.Room.{
  WellFormed, HasRoom, All-adjust, adjust?-Returns, length-adjust, note_mgmt-Returns,
  count_packet-HasRoom,
}

-- The conditions on the state and the environment under which the access point that announces itself
-- by `p` has a place.
pub record HasPlace (env : Env) (p : PacketInfo) (s : Sniffer) : Type 0 where
  pub aps_left : get_ap s.ctx p.hdr.bssid ≡ none → s.ctx.aps_count < ap_capacity
  pub color_fits : s.cur_col + 1 < 2 ^ 15
  pub colors : 0 < env.colors
  pub freqs_left : All (HasRoom p.rt.channel_freq) s.ctx.aps

All-pair :
    (freq : ℕ) (xs : List Ap)
    → All IsValidAp xs
    → All (HasRoom freq) xs
    → All (λ a. IsValidAp a × HasRoom freq a) xs
All-pair freq [] v h = tt
All-pair freq (a ∷ xs) v h = ((v.0, h.0), All-pair freq xs v.1 h.1)

registered : (c : Ctx) (mac : List ℕ) (i : ℕ) → get_ap c mac ≡ some i → i < c.aps_count
unfolding get_ap
registered c mac i q = (find_ap-Found c.aps c.aps_count mac i q).registered

-- Whoever sent the frame, its entry is among the valid ones.
find_or_register-Returns :
    (env : Env) (p : PacketInfo) (s : Sniffer) (found : Option ℕ)
    → IsValid s.ctx
    → HasPlace env p s
    → found ≡ get_ap s.ctx p.hdr.bssid
    → (r : ℕ × Sniffer) × (find_or_register env s p.hdr.bssid found ≡ ok r)
      × (r.0 < length r.1.ctx.aps)
      × All (HasRoom p.rt.channel_freq) r.1.ctx.aps
unfolding find_or_register register_ap name_new_ap
find_or_register-Returns env p s found v w b = elim (Option-cases found) [
  | inl e ↦
      let left = w.aps_left (sym b ∙ e) in
      let place : ltb s.ctx.aps_count (length s.ctx.aps) ≡ true =
        ground (arith, left, v.aps_room) in
      let fit : ltb (s.cur_col + 1) (2 ^ 15) ≡ true = ground (arith, w.color_fits) in
      let some_color : (env.colors == 0) ≡ false = ground (arith, w.colors) in
      let name = name_new_ap p.hdr.bssid s.cur_col in
      let named =
        All-adjust (HasRoom p.rt.channel_freq) name (λ a r. r) s.ctx.aps s.ctx.aps_count
          w.freqs_left in
      rw (e, place, fit, some_color)
        (
          _,
          refl,
          omega (arith, length-adjust name s.ctx.aps s.ctx.aps_count, left, v.aps_room),
          named,
        )
  | inr (i, e) ↦
      let known = registered s.ctx p.hdr.bssid i (sym b ∙ e) in
      ((i, s), rw e, omega (arith, known, v.aps_used, v.aps_room), w.freqs_left)
]

announcement-Returns :
    (env : Env) (s : Sniffer) (p : PacketInfo) (fixed : List ℕ) (es : List Ie) (found : Option ℕ)
    → IsValid s.ctx
    → HasPlace env p s
    → WellFormed p.hdr.frame_st fixed es
    → found ≡ get_ap s.ctx p.hdr.bssid
    → Returns (
        handle_announcement env s p
          (fixed ++ encode_ies es)
          (length (fixed ++ encode_ies es))
          found)
unfolding handle_announcement
announcement-Returns env s p fixed es found v w f b =
    let body = fixed ++ encode_ies es in
    let freq = p.rt.channel_freq in
    let ((i, s1), e, l, h) = find_or_register-Returns env p s found v w b in
    let v1 =
      find_or_register-IsValid env s p.hdr.bssid found v
        (λ q. get_ap-none s.ctx p.hdr.bssid (sym b ∙ q)) e in
    let (aps, r) =
      adjust?-Returns (λ a. IsValidAp a × HasRoom freq a) (note_mgmt env p body (length body))
        (note_mgmt-Returns env p fixed es f) s1.ctx.aps i (All-pair freq s1.ctx.aps v1.aps_valid h)
        l in
    elim (Bool-cases (p.hdr.frame_st == 8)) [
      | inl o ↦ rw (e, r, o) (ok-Returns _)
      | inr o ↦ rw (e, r, o) (ok-Returns _)
    ]

-- A beacon or a probe response is handled without a fault in a valid context, if its sender is known
-- or there is a place for one more access point, if there is a colour for it, and if in every entry
-- its frequency is recorded or there is room for one more. Its body is made of the fixed part and of
-- more than two bytes of elements, fewer than 256 bytes together, with no SSID of more than 31 bytes.
pub handle_packet_announced :
    (env : Env) (s : Sniffer) (p : PacketInfo) (fixed : List ℕ) (es : List Ie)
    → IsValid s.ctx
    → HasPlace env p s
    → p.hdr.frame_t ≡ 0
    → (p.hdr.frame_st == 8 || p.hdr.frame_st == 5) ≡ true
    → WellFormed p.hdr.frame_st fixed es
    → Returns (handle_packet env s p (fixed ++ encode_ies es) (length (fixed ++ encode_ies es)))
unfolding handle_packet dispatch
handle_packet_announced env s p fixed es v w t st f =
    >>=-Returns (count_packet env s.ctx p) _ (count_packet-Returns env s.ctx p v) λ c e.
      let (h, n) = count_packet-HasRoom p.rt.channel_freq env s.ctx p w.freqs_left e in
      let same = get_ap-addresses s.ctx c p.hdr.bssid (count_packet-addresses env s.ctx p e) in
      let w' : HasPlace env p (record s { ctx = c }) = record {
        aps_left = λ q. omega (arith, n, w.aps_left (sym same ∙ q));
        color_fits = w.color_fits;
        colors = w.colors;
        freqs_left = h;
      } in
      let test : (p.hdr.frame_t == 0) ≡ true = ground (arith, t) in
      rw (test, st)
        (announcement-Returns env (record s { ctx = c }) p fixed es (get_ap s.ctx p.hdr.bssid)
          (count_packet-IsValid env s.ctx p v e) w' f (sym same))
