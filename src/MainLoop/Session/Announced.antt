-- ===== src/MainLoop/Session/Announced.antt =====
-- Beacons keep the invariant of a session (user/src/main.c).
use wifi_sniffer.Prelude.{
  ℕ, ◌≡◌, ◌⊎◌, sym, ap, ◌∙◌, subst, true, ◌==◌, some, List, [], ◌∷◌, ◌++◌, length, All, All-at,
  All-append, All-map, All-set, among, among-append, among-All, length-Distinct, same_bytes,
  same_bytes_refl, same_bytes-eq, inl, inr, Bool-cases, Outcome-cases, ok, Returns, arith,
}
use wifi_sniffer.Ctx.{HdrInfo, PacketInfo, Ctx, get_ap}
use wifi_sniffer.Ctx.Invariant.{macs}
use wifi_sniffer.Ctx.Lookup.{get_ap-none}
use wifi_sniffer.Ies.Elements.{encode_ies}
use wifi_sniffer.Handler.{
  Env, Sniffer, Attrs, packet_of, count_packet, handle_announcement, dispatch, handle_packet,
  handle_frame_info, frame_handler,
}
use wifi_sniffer.Handler.Counters.{count_packet-addresses}
use wifi_sniffer.Handler.Each.{All-Each}
use wifi_sniffer.Handler.Beacon.{length-macs, handle_packet_beacon}
use wifi_sniffer.Handler.Room.{HasRoom}
use wifi_sniffer.Handler.Tuned.{tuned-HasRoom}
use wifi_sniffer.Handler.Announced.{HasPlace, handle_packet_announced}
use wifi_sniffer.Handler.Buffer.{handle_packet-Stores}
use wifi_sniffer.Handler.Invariant.{frame_handler-IsValid}
use wifi_sniffer.MainLoop.Silence.{Absent-find_ap}
use wifi_sniffer.MainLoop.Session.{Session, IsListed, Listed, InSession, IsBeacon, During}
use wifi_sniffer.MainLoop.Session.Entries.{announcement-Announces}
use wifi_sniffer.MainLoop.Session.Plain.{count_packet-IsTuned, count_packet-recent}

-- An access point of the session has a place.
InSession-HasPlace :
    (e : Session) (env : Env) (s : Sniffer) (p : PacketInfo)
    → InSession e s
    → During e env
    → among same_bytes e.addresses p.hdr.bssid ≡ true
    → among ◌==◌ e.freqs p.rt.channel_freq ≡ true
    → HasPlace env p s
InSession-HasPlace e env s p i d address freq = record {
  aps_left = λ gone.
      let fewer =
        length-Distinct same_bytes same_bytes_refl same_bytes-eq
          (p.hdr.bssid ∷ macs s.ctx.aps s.ctx.aps_count) e.addresses
          (get_ap-none s.ctx p.hdr.bssid gone, i.valid.aps_unique) (address, i.known) in
      omega (
        arith,
        fewer,
        e.few_addresses,
        length-macs s.ctx.aps s.ctx.aps_count (omega (arith, i.valid.aps_used, i.valid.aps_room)),
      );
  color_fits = omega (arith, i.color, e.few_colors);
  colors = omega (arith, d.colors, e.some_colors);
  freqs_left = All-Each (HasRoom p.rt.channel_freq) s.ctx.aps λ j a l at.
      tuned-HasRoom e.freqs p.rt.channel_freq a e.few_freqs freq
        (All-at _ s.ctx.aps j i.valid.aps_valid at)
        (i.tuned j a (omega (arith, l, i.valid.aps_room)) at);
}

pub beacon-Returns :
    (e : Session) (env : Env) (s : Sniffer) (m : Attrs)
    → InSession e s
    → During e env
    → IsBeacon e m
    → Returns (frame_handler env s m)
unfolding frame_handler handle_frame_info
beacon-Returns e env s m i d b =
    let p = packet_of b.info b.rt in
    rw (b.header, b.radiotap, b.payload)
      (handle_packet_announced env s p b.fixed b.elements i.valid
        (InSession-HasPlace e env s p i d b.address b.freq) b.management (ground (arith, b.beacon))
        (rw b.beacon b.well_formed))

found-IsListed : (c : Ctx) (mac : List ℕ) {i : ℕ} → get_ap c mac ≡ some i → IsListed c mac
unfolding get_ap
found-IsListed c mac h = elim (Bool-cases (among same_bytes (macs c.aps c.aps_count) mac)) [
  | inl e ↦ e
  | inr e ↦
      let gone =
        Absent-find_ap c.aps c.aps_count mac
          (among-All same_bytes (macs c.aps c.aps_count) mac e) in
      cc
]

-- Registered addresses stay registered.
IsListed-append :
    (c d : Ctx) (new mac : List ℕ)
    → (macs d.aps d.aps_count ≡ macs c.aps c.aps_count)
      ⊎ (macs d.aps d.aps_count ≡ macs c.aps c.aps_count ++ (new ∷ []))
    → IsListed c mac
    → IsListed d mac
IsListed-append c d new mac q h = elim q [
  | inl e ↦ rw e h
  | inr e ↦ rw e (among-append same_bytes (macs c.aps c.aps_count) new mac ∙ ground (arith, h))
]

known-append :
    (e : Session) (c d : Ctx) (new : List ℕ)
    → (macs d.aps d.aps_count ≡ macs c.aps c.aps_count)
      ⊎ (macs d.aps d.aps_count ≡ macs c.aps c.aps_count ++ (new ∷ []))
    → among same_bytes e.addresses new ≡ true
    → All (λ m. among same_bytes e.addresses m ≡ true) (macs c.aps c.aps_count)
    → All (λ m. among same_bytes e.addresses m ≡ true) (macs d.aps d.aps_count)
known-append e c d new q m h = elim q [
  | inl r ↦ rw r h
  | inr r ↦ rw r (All-append _ (macs c.aps c.aps_count) new h m)
]

pub beacon-InSession :
    (e : Session) (env : Env) (s : Sniffer) (m : Attrs) {t : Sniffer}
    → InSession e s
    → During e env
    → IsBeacon e m
    → frame_handler env s m ≡ ok t
    → InSession e t
unfolding frame_handler handle_frame_info handle_packet dispatch
beacon-InSession e env s m {t} i d b h =
    let p = packet_of b.info b.rt in
    let body = b.fixed ++ encode_ies b.elements in
    let n = length body in
    let run : handle_packet env s p body n ≡ ok t =
      ground (arith, b.header, b.radiotap, b.payload) in
    let st = handle_packet-Stores env s p body n run in
    let known = handle_packet_beacon env s p body n {t = t} b.management b.beacon run in
    elim (Outcome-cases (count_packet env s.ctx p)) [
      | inr (f, x) ↦ absurd (ground arith)
      | inl (c, x) ↦
          let s' = record s { ctx = c } in
          let found = get_ap s.ctx p.hdr.bssid in
          let same = count_packet-addresses env s.ctx p x in
          let go : handle_announcement env s' p body n found ≡ ok t =
            ground (arith, b.management, b.beacon) in
          let a =
            announcement-Announces e.freqs e.since env s' p body n found {t = t}
              (count_packet-IsTuned e.freqs env s.ctx p i.tuned x)
              (count_packet-recent e.since env s.ctx p d.begins i.recent x) d.begins
              (omega (arith, d.colors, e.some_colors)) (omega (arith, d.colors, i.color)) b.freq
              b.beacon go in
          let grown =
            elim a.addresses
              as (λ q.
                (macs t.ctx.aps t.ctx.aps_count ≡ macs s.ctx.aps s.ctx.aps_count)
                ⊎ (macs t.ctx.aps t.ctx.aps_count
                    ≡ macs s.ctx.aps s.ctx.aps_count ++ (p.hdr.bssid ∷ []))) [
                      | inl q ↦ inl (q ∙ same)
                      | inr q ↦ inr (q ∙ ap (λ ms. ms ++ (p.hdr.bssid ∷ [])) same)
                    ] in
          record {
            valid = frame_handler-IsValid env s m i.valid h;
            tuned = a.tuned;
            recent = a.recent;
            known = known-append e s.ctx t.ctx p.hdr.bssid grown b.address i.known;
            listed = subst (All (Listed t.ctx)) (sym st.ring) (
                All-set (Listed t.ctx) s.ctx.packet_buf s.ctx.packet_buf_index st.stored
                  (All-map (Listed s.ctx) (Listed t.ctx) s.ctx.packet_buf
                    (λ q k l. IsListed-append s.ctx t.ctx p.hdr.bssid q.hdr.bssid grown (k l))
                    i.listed)
                  (λ q.
                    subst (λ (r : HdrInfo). IsListed t.ctx r.bssid) (sym st.header)
                      (found-IsListed t.ctx p.hdr.bssid known.found)));
            color = omega (arith, a.color, d.colors);
          }
    ]
