-- ===== src/MainLoop/Fleeting.antt =====
-- An access point that is known by a probe response alone (user/src/main.c).
use wifi_sniffer.Prelude.{
  ◌==◌, refl, false, ℕ, ◌+◌, ◌<◌, ◌≡◌, ◌∙◌, none, some, List, get_elem?, inl, inr, ok,
  Outcome-cases, arith,
}
use wifi_sniffer.Ctx.{Ap, PacketInfo, Ctx, get_ap}
use wifi_sniffer.Ctx.Invariant.{IsValid}
use wifi_sniffer.Ctx.Lookup.{get_ap-none}
use wifi_sniffer.Ies.Steps.{iter_packet_ies-IsNamed}
use wifi_sniffer.Handler.{
  Env, Sniffer, count_tx, count_rx, count_packet, register_ap, find_or_register, note_mgmt,
  handle_announcement, advance, dispatch, handle_packet,
}
use wifi_sniffer.Handler.Entry.{adjust?}
use wifi_sniffer.Handler.Adjust.{adjust?-KeepsAps}
use wifi_sniffer.Handler.Counters.{note_mgmt-Keeps, count_packet-addresses}
use wifi_sniffer.Handler.Beacon.{adjust?_self, register_ap-found, get_ap-addresses}
use wifi_sniffer.Handler.Stale.{register_ap-Inherits}
use wifi_sniffer.Handler.Invariant.{handle_packet-IsValid}
use wifi_sniffer.MainLoop.{prune}
use wifi_sniffer.MainLoop.Silence.{prune-get_ap}

pub note_mgmt-last_seen :
    (env : Env) (p : PacketInfo) (body : List ℕ) (n : ℕ) (a b : Ap)
    → (p.hdr.frame_st == 8) ≡ false
    → note_mgmt env p body n a ≡ ok b
    → b.last_seen ≡ a.last_seen
unfolding note_mgmt
note_mgmt-last_seen env p body n a b st h =
    (iter_packet_ies-IsNamed a p body n {b = b} (ground arith)).last_seen

-- The access point `mac` is registered, with a time of `seen`.
record SeenAt (seen : ℕ) (c : Ctx) (mac : List ℕ) : Type 0 where
  index : ℕ
  entry : Ap
  found : get_ap c mac ≡ some index
  at : get_elem? c.aps index ≡ some entry
  last_seen : entry.last_seen ≡ seen

announcement-SeenAt :
    (env : Env) (s : Sniffer) (p : PacketInfo) (body : List ℕ) (n : ℕ) (a : Ap) {t : Sniffer}
    → get_ap s.ctx p.hdr.bssid ≡ none
    → p.hdr.frame_st ≡ 5
    → get_elem? s.ctx.aps s.ctx.aps_count ≡ some a
    → handle_announcement env s p body n none ≡ ok t
    → SeenAt a.last_seen t.ctx p.hdr.bssid
unfolding handle_announcement find_or_register advance
announcement-SeenAt env s p body n a {t} g st behind h =
    elim (Outcome-cases (register_ap env s p.hdr.bssid)) [
      | inr (f, e) ↦ absurd (ground arith)
      | inl ((i, s1), e) ↦ elim (Outcome-cases (adjust? (note_mgmt env p body n) s1.ctx.aps i)) [
        | inr (f, e') ↦ absurd (ground arith)
        | inl (ys, e') ↦
            let (x, y, noted, entry, before) =
              adjust?_self (note_mgmt env p body n) s1.ctx.aps i e' in
            let keeps = adjust?-KeepsAps _ (note_mgmt-Keeps env p body n) s1.ctx.aps i e' in
            let (b, at, inherits) = register_ap-Inherits env s p.hdr.bssid behind e in
            let same : x ≡ b = ground arith in
            let d = record s1.ctx { aps = ys } in
            let aps_eq : t.ctx.aps ≡ ys = ground arith in
            let n_eq : t.ctx.aps_count ≡ s1.ctx.aps_count = ground arith in
            record {
              index = i;
              entry = y;
              found =
                  get_ap-addresses s1.ctx t.ctx p.hdr.bssid
                    (rw (aps_eq, n_eq) (keeps.addresses s1.ctx.aps_count))
                  ∙ register_ap-found env s p.hdr.bssid (get_ap-none s.ctx p.hdr.bssid g) e;
              at = rw aps_eq entry;
              last_seen = ground (
                arith,
                same,
                inherits.last_seen,
                note_mgmt-last_seen env p body n x y (rw st refl) noted,
              );
            }
      ]
    ]

count_packet-aps :
    (env : Env) (c : Ctx) (p : PacketInfo) {d : Ctx}
    → p.hdr.tods ≡ 0
    → p.hdr.fromds ≡ 0
    → count_packet env c p ≡ ok d
    → (d.aps ≡ c.aps) × (d.aps_count ≡ c.aps_count)
unfolding count_packet count_tx count_rx
count_packet-aps env c p t f h = ground arith

handle_packet-SeenAt :
    (env : Env) (s : Sniffer) (p : PacketInfo) (body : List ℕ) (n : ℕ) (a : Ap) {t : Sniffer}
    → p.hdr.tods ≡ 0
    → p.hdr.fromds ≡ 0
    → p.hdr.frame_t ≡ 0
    → p.hdr.frame_st ≡ 5
    → get_ap s.ctx p.hdr.bssid ≡ none
    → get_elem? s.ctx.aps s.ctx.aps_count ≡ some a
    → handle_packet env s p body n ≡ ok t
    → SeenAt a.last_seen t.ctx p.hdr.bssid
unfolding handle_packet dispatch
handle_packet-SeenAt env s p body n a {t} tods fromds ft st g behind h =
    elim (Outcome-cases (count_packet env s.ctx p)) [
      | inr (f, e) ↦ absurd (ground arith)
      | inl (c, e) ↦
          let (aps, count) = count_packet-aps env s.ctx p tods fromds e in
          let unknown : get_ap c p.hdr.bssid ≡ none =
            get_ap-addresses s.ctx c p.hdr.bssid (count_packet-addresses env s.ctx p e) ∙ g in
          announcement-SeenAt env (record s { ctx = c }) p body n a {t = t} unknown st
            (rw (aps, count) behind) (ground arith)
    ]

-- A probe response does not set the time of the access point that it registers: the entry behind the
-- last one is taken over with the time that stands there. If that is more than 30 seconds ago, and
-- in memory that was never used it is 0, the next pass over the list removes the access point again.
-- The context is valid, the frame is a management frame between stations and is handled without a
-- fault.
pub probed_ap_leaves :
    (env : Env) (s : Sniffer) (p : PacketInfo) (body : List ℕ) (n later : ℕ) (a : Ap) {t : Sniffer}
    → IsValid s.ctx
    → p.hdr.tods ≡ 0
    → p.hdr.fromds ≡ 0
    → p.hdr.frame_t ≡ 0
    → p.hdr.frame_st ≡ 5
    → get_ap s.ctx p.hdr.bssid ≡ none
    → get_elem? s.ctx.aps s.ctx.aps_count ≡ some a
    → a.last_seen + 30 < later
    → handle_packet env s p body n ≡ ok t
    → ((i : ℕ) × (get_ap t.ctx p.hdr.bssid ≡ some i))
      × (get_ap (prune later t.ctx) p.hdr.bssid ≡ none)
probed_ap_leaves env s p body n later a {t} v tods fromds ft st g behind old h =
    let k = handle_packet-SeenAt env s p body n a {t = t} tods fromds ft st g behind h in
    (
      (k.index, k.found),
      prune-get_ap later t.ctx p.hdr.bssid k.index k.entry
          (handle_packet-IsValid env s p body n v h) k.found k.at (ground (arith, k.last_seen)),
    )
