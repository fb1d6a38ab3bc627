-- ===== src/MainLoop/Session/Plain.antt =====
-- Frames that announce no access point keep the invariant of a session (user/src/main.c).
use wifi_sniffer.Prelude.{
  ℕ, ◌≤◌, ◌≡◌, sym, ap, ◌∙◌, subst, true, false, ◌&&◌, ◌||◌, ◌==◌, Option, List, length, get_elem?,
  All, All-map, All-set, among, same_bytes, inl, inr, Outcome-cases, ok, arith,
}
use wifi_sniffer.Ctx.{Ap, HdrInfo, PacketInfo, Ctx, get_ap, ap_capacity}
use wifi_sniffer.Ctx.Invariant.{macs}
use wifi_sniffer.Handler.{
  Env, Sniffer, Attrs, packet_of, count_tx, count_rx, count_packet, dispatch, handle_action,
  advance, handle_packet, handle_frame_info, frame_handler,
}
use wifi_sniffer.Handler.Entry.{note_tx, note_rx}
use wifi_sniffer.Handler.Each.{Each, count_packet-Each}
use wifi_sniffer.Handler.Tuned.{IsTuned, recorded-IsTuned}
use wifi_sniffer.Handler.Buffer.{handle_packet-Stores}
use wifi_sniffer.Handler.Invariant.{frame_handler-IsValid}
use wifi_sniffer.MainLoop.Progress.{IsPlain}
use wifi_sniffer.MainLoop.Quiet.{is_beacon}
use wifi_sniffer.MainLoop.Departure.{dispatch-addresses, frame_handler-addresses}
use wifi_sniffer.MainLoop.Session.{Session, Listed, InSession, During}

note_tx-IsTuned :
    (freqs : List ℕ) (env : Env) (info : HdrInfo) (a : Ap)
    → IsTuned freqs a
    → IsTuned freqs (note_tx env info a)
unfolding note_tx
note_tx-IsTuned freqs env info a t =
    recorded-IsTuned freqs a (note_tx env info a) (ground arith) (ground arith) t

note_rx-IsTuned :
    (freqs : List ℕ) (info : HdrInfo) (a : Ap) → IsTuned freqs a → IsTuned freqs (note_rx info a)
unfolding note_rx
note_rx-IsTuned freqs info a t =
    recorded-IsTuned freqs a (note_rx info a) (ground arith) (ground arith) t

pub note_tx-recent :
    (since : ℕ) (env : Env) (info : HdrInfo) (a : Ap)
    → since ≤ env.now
    → since ≤ a.last_seen
    → since ≤ (note_tx env info a).last_seen
unfolding note_tx
note_tx-recent since env info a h k = ground arith

pub note_rx-recent :
    (since : ℕ) (info : HdrInfo) (a : Ap) → since ≤ a.last_seen → since ≤ (note_rx info a).last_seen
unfolding note_rx
note_rx-recent since info a k = ground arith

-- Counting a packet keeps the frequencies and the times.
pub count_packet-IsTuned :
    (freqs : List ℕ) (env : Env) (c : Ctx) (p : PacketInfo) {d : Ctx}
    → Each (IsTuned freqs) ap_capacity c.aps
    → count_packet env c p ≡ ok d
    → Each (IsTuned freqs) ap_capacity d.aps
count_packet-IsTuned freqs env c p h e =
    count_packet-Each (IsTuned freqs) ap_capacity env c p (note_tx-IsTuned freqs env p.hdr)
      (note_rx-IsTuned freqs p.hdr) h e

count_packet-count :
    (env : Env) (c : Ctx) (p : PacketInfo) {d : Ctx}
    → count_packet env c p ≡ ok d
    → d.aps_count ≡ c.aps_count
unfolding count_packet count_tx count_rx
count_packet-count env c p h = ground arith

pub count_packet-recent :
    (since : ℕ) (env : Env) (c : Ctx) (p : PacketInfo) {d : Ctx}
    → since ≤ env.now
    → Each (λ a. since ≤ a.last_seen) c.aps_count c.aps
    → count_packet env c p ≡ ok d
    → Each (λ a. since ≤ a.last_seen) d.aps_count d.aps
count_packet-recent since env c p {d} n h e =
    let same = count_packet-count env c p e in
    subst (λ k. Each (λ a. since ≤ a.last_seen) k d.aps) (sym same)
      (count_packet-Each (λ a. since ≤ a.last_seen) c.aps_count env c p
        (λ a. note_tx-recent since env p.hdr a n) (note_rx-recent since p.hdr) h e)

dispatch-color :
    (env : Env) (s : Sniffer) (p : PacketInfo) (body : List ℕ) (n : ℕ) (found : Option ℕ)
    {t : Sniffer}
    → (p.hdr.frame_t == 0 && (p.hdr.frame_st == 8 || p.hdr.frame_st == 5)) ≡ false
    → dispatch env s p body n found ≡ ok t
    → t.cur_col ≡ s.cur_col
unfolding dispatch handle_action advance
dispatch-color env s p body n found q h = ground arith

pub Listed-addresses :
    (c d : Ctx) (ps : List PacketInfo)
    → macs d.aps d.aps_count ≡ macs c.aps c.aps_count
    → All (Listed c) ps
    → All (Listed d) ps
Listed-addresses c d ps e h =
    All-map (Listed c) (Listed d) ps
      (λ p k q. subst (λ ms. among same_bytes ms p.hdr.bssid ≡ true) (sym e) (k q)) h

pub plain-InSession :
    (e : Session) (env : Env) (s : Sniffer) (m : Attrs) {t : Sniffer}
    → InSession e s
    → During e env
    → IsPlain m
    → frame_handler env s m ≡ ok t
    → InSession e t
unfolding frame_handler handle_frame_info handle_packet
plain-InSession e env s m {t} i d p h =
    let q = packet_of p.info p.rt in
    let n = length p.body in
    let run : handle_packet env s q p.body n ≡ ok t =
      ground (arith, p.header, p.radiotap, p.payload) in
    let same = frame_handler-addresses env s m p h in
    let st = handle_packet-Stores env s q p.body n run in
    let other : is_beacon st.stored ≡ false = ground (arith, st.header, p.other) in
    elim (Outcome-cases (count_packet env s.ctx q)) [
      | inr (f, x) ↦ absurd (ground arith)
      | inl (c, x) ↦
          let s' = record s { ctx = c } in
          let found = get_ap s.ctx q.hdr.bssid in
          let go : dispatch env s' q p.body n found ≡ ok t = ground arith in
          let (aps, count) = dispatch-addresses env s' q p.body n found {t = t} p.other go in
          record {
            valid = frame_handler-IsValid env s m i.valid h;
            tuned =
                subst (Each (IsTuned e.freqs) ap_capacity) (sym aps)
                  (count_packet-IsTuned e.freqs env s.ctx q i.tuned x);
            recent = λ j a l g.
                count_packet-recent e.since env s.ctx q d.begins i.recent x j a
                  (omega (arith, count, l)) (ap (λ xs. get_elem? xs j) (sym aps) ∙ g);
            known = subst (All (λ m. among same_bytes e.addresses m ≡ true)) (sym same) i.known;
            listed = Listed-addresses s.ctx t.ctx t.ctx.packet_buf same (
                subst (All (Listed s.ctx)) (sym st.ring) (
                  All-set (Listed s.ctx) s.ctx.packet_buf s.ctx.packet_buf_index st.stored i.listed
                    (λ b. cc)));
            color =
                omega (arith, dispatch-color env s' q p.body n found {t = t} p.other go, i.color);
          }
    ]
