-- ===== src/Handler/Table/Packets.antt =====
-- `handle_frame_info` (user/src/main.c) as a change to the map of access points.
use wifi_sniffer.Prelude.{
  ℕ, ◌≡◌, refl, sym, ap, ◌∙◌, Bool, true, false, if◌then◌else◌, Option, some, List, inl, inr,
  same_bytes, same_bytes-eq, Bool-cases, Outcome, Outcome-cases, ok, ◌>>=◌, get_elem?, arith,
  fun_ext, among, take, length, ltb, ◌==◌,
}
use wifi_sniffer.Ies.{iter_packet_ies}
use wifi_sniffer.Handler.Tuned.{has_freq-among}
use wifi_sniffer.Ctx.{Ap, RadiotapInfo, PacketInfo, zero_ap, get_ap}
use wifi_sniffer.Handler.{
  Env, Sniffer, beacon, note_mgmt, find_or_register, count_packet, handle_announcement,
  handle_action, advance, dispatch, handle_packet,
}
use wifi_sniffer.Handler.Beacon.{get_ap-addresses, find_or_register-found}
use wifi_sniffer.Handler.Counters.{note_mgmt-Keeps, count_packet-addresses}
use wifi_sniffer.Handler.Entry.{adjust?, name_new_ap, add_freq, note_beacon}
use wifi_sniffer.Handler.Table.{
  lookup, announces, announced, or_else, noted, heard, newcomer, packet_table, next_entry,
}
use wifi_sniffer.Handler.Table.Counts.{lookup-count_packet}
use wifi_sniffer.Handler.Table.Announce.{
  entry-adjust?, next_entry-count_packet, find_or_register-lookup,
}

note_beacon-heard :
    (env : Env) (rt : RadiotapInfo) (a : Ap)
    → note_beacon env rt a ≡ heard env.now rt.channel_freq a
unfolding note_beacon add_freq
note_beacon-heard env rt a =
    let test = has_freq-among a.channel_freqs a.freq_num rt.channel_freq in
    elim (Bool-cases (among ◌==◌ (take a.freq_num a.channel_freqs) rt.channel_freq)) [
      | inl e ↦ rw (test, e) refl
      | inr e ↦ elim (Bool-cases (ltb a.freq_num (length a.channel_freqs))) [
        | inl r ↦ rw (test, e, r) refl
        | inr r ↦ rw (test, e, r) refl
      ]
    ]

pub note_mgmt-noted :
    (env : Env) (p : PacketInfo) (body : List ℕ) (n : ℕ) (a : Ap)
    → note_mgmt env p body n a ≡ noted env.now p body n a
unfolding note_mgmt
note_mgmt-noted env p body n a = elim (Outcome-cases (iter_packet_ies a p body n)) [
  | inr (f, e) ↦ rw e refl
  | inl (b, e) ↦ elim (Bool-cases (p.hdr.frame_st == beacon)) [
    | inr q ↦ rw (e, q) refl
    | inl q ↦ rw (e, q) (note_beacon-heard env p.rt b)
  ]
]

name_new_ap-newcomer :
    (mac : List ℕ) (col : ℕ) (a : Ap) → name_new_ap mac col a ≡ newcomer mac col a
unfolding name_new_ap
name_new_ap-newcomer mac col a = refl

-- The map at one address before, with the new entry, and after the announcement.
announced_at :
    (here : Bool) (note : Ap → Outcome Ap) (x : Ap) (before between after : Option Ap) {a b : Ap}
    → note a ≡ ok b
    → between ≡ (if here then some x else before)
    → (here ≡ true → between ≡ some a)
    → after ≡ (if here then some b else between)
    → (if here then (do y ← note x; ok (some y)) else ok before) ≡ ok after
announced_at true note x before between after {a} {b} n e k q =
    let one : x ≡ a = ground (arith, k refl) in rw (one, n) (ap ok (sym q))
announced_at false note x before between after n e k q = ap ok (sym e ∙ sym q)

announcement-lookup :
    (env : Env) (s : Sniffer) (p : PacketInfo) (body : List ℕ) (n : ℕ) (m : List ℕ) {t : Sniffer}
    → handle_announcement env s p body n (get_ap s.ctx p.hdr.bssid) ≡ ok t
    → (if same_bytes p.hdr.bssid m
        then (do
          a ←
              note_mgmt env p body n
                (or_else (lookup s.ctx m) (name_new_ap p.hdr.bssid s.cur_col (next_entry s.ctx)))
          ok (some a))
        else ok (lookup s.ctx m))
      ≡ ok (lookup t.ctx m)
unfolding handle_announcement get_ap advance
announcement-lookup env s p body n m {t} h =
    let bssid = p.hdr.bssid in
    elim (Outcome-cases (find_or_register env s bssid (get_ap s.ctx bssid))) [
      | inr (f, e) ↦ absurd (ground arith)
      | inl ((i, s1), e) ↦ elim (Outcome-cases (adjust? (note_mgmt env p body n) s1.ctx.aps i)) [
        | inr (f, e') ↦ absurd (ground arith)
        | inl (ys, e') ↦
            let c1 = s1.ctx in
            let (a, b, noted, here, after) =
              entry-adjust? (note_mgmt env p body n) c1.aps c1.aps_count bssid m
                (λ x y u. (note_mgmt-Keeps env p body n x y u).1)
                (find_or_register-found env s bssid (get_ap s.ctx bssid) refl e) e' in
            let reg = find_or_register-lookup env s bssid m e in
            let aps_eq : t.ctx.aps ≡ ys = ground arith in
            let n_eq : t.ctx.aps_count ≡ c1.aps_count = ground arith in
            announced_at (same_bytes bssid m) (note_mgmt env p body n) _ (lookup s.ctx m)
              (lookup c1 m) (lookup t.ctx m) {a = a} {b = b} noted reg
              (λ q. ap (lookup c1) (sym (same_bytes-eq bssid m q)) ∙ here) (rw (aps_eq, n_eq) after)
      ]
    ]

-- The other frames leave the access points alone.
dispatch-other :
    (env : Env) (s : Sniffer) (p : PacketInfo) (body : List ℕ) (n : ℕ) (found : Option ℕ)
    {t : Sniffer}
    → announces p.hdr ≡ false
    → dispatch env s p body n found ≡ ok t
    → (t.ctx.aps ≡ s.ctx.aps) × (t.ctx.aps_count ≡ s.ctx.aps_count)
unfolding dispatch handle_action advance
dispatch-other env s p body n found a h = ground arith

dispatch-announcement :
    (env : Env) (s : Sniffer) (p : PacketInfo) (body : List ℕ) (n : ℕ) (found : Option ℕ)
    → announces p.hdr ≡ true
    → dispatch env s p body n found ≡ handle_announcement env s p body n found
unfolding dispatch
dispatch-announcement env s p body n found a = ground arith

dispatch-lookup :
    (env : Env) (s : Sniffer) (p : PacketInfo) (body : List ℕ) (n : ℕ) (m : List ℕ) {t : Sniffer}
    → dispatch env s p body n (get_ap s.ctx p.hdr.bssid) ≡ ok t
    → announced env p body n (newcomer p.hdr.bssid s.cur_col (next_entry s.ctx)) (lookup s.ctx m) m
      ≡ ok (lookup t.ctx m)
dispatch-lookup env s p body n m {t} h = elim (Bool-cases (announces p.hdr)) [
  | inr e ↦
      let (aps, count) = dispatch-other env s p body n (get_ap s.ctx p.hdr.bssid) {t = t} e h in
      rw (e, aps, count) refl
  | inl e ↦
      let run = sym (dispatch-announcement env s p body n (get_ap s.ctx p.hdr.bssid) e) ∙ h in
      let at : (Ap → Outcome Ap) → Outcome (Option Ap) = λ f.
        if same_bytes p.hdr.bssid m
        then (do
          a ← f (or_else (lookup s.ctx m) (name_new_ap p.hdr.bssid s.cur_col (next_entry s.ctx)))
          ok (some a))
        else ok (lookup s.ctx m) in
      let same = ap at (fun_ext (note_mgmt-noted env p body n)) in
      let named = name_new_ap-newcomer p.hdr.bssid s.cur_col (next_entry s.ctx) in
      rw (e, ← named) (sym same ∙ announcement-lookup env s p body n m run)
]

-- The array of access points implements a map from addresses to entries: after a frame was handled
-- without a fault, the array has under each address what the frame makes of the map there, field by
-- field. If the frame has From DS and its source is in the map, `last_seen` there becomes the present
-- time and `tx_packets` goes on by one modulo 2^32; if it has To DS and its destination is in the map,
-- `rx_packets` goes on there; with the retry flag so does `retries`, each time. Then a beacon or a
-- probe response puts the entry under its BSSID, one named "<hidden>" in the next colour if there is
-- none, where the elements of the body have been applied as `iter_packet_ies` does; and a beacon also
-- sets `last_seen`, counts on `beacons`, and records its frequency if it is a new one. Every other
-- address keeps its entry. The fields of a new entry that are not written are those that the next
-- place of the array held.
pub handle_packet_refines :
    (env : Env) (s : Sniffer) (p : PacketInfo) (body : List ℕ) (n : ℕ) (m : List ℕ) {t : Sniffer}
    → handle_packet env s p body n ≡ ok t
    → packet_table env p body n (newcomer p.hdr.bssid s.cur_col (next_entry s.ctx)) (lookup s.ctx) m
      ≡ ok (lookup t.ctx m)
unfolding handle_packet
handle_packet_refines env s p body n m {t} h = elim (Outcome-cases (count_packet env s.ctx p)) [
  | inr (f, e) ↦ absurd (ground arith)
  | inl (c, e) ↦
      let bssid = p.hdr.bssid in
      let found = get_ap-addresses s.ctx c bssid (count_packet-addresses env s.ctx p e) in
      let table = lookup-count_packet env s.ctx p m e in
      let (n_eq, at) = next_entry-count_packet env s.ctx p e in
      let run : dispatch env (record s { ctx = c }) p body n (get_ap c bssid) ≡ ok t =
        rw found (ground arith) in
      let step = dispatch-lookup env (record s { ctx = c }) p body n m run in
      let at_entry : Option Ap → Option Ap → Outcome (Option Ap) =
        λ o x. announced env p body n (newcomer bssid s.cur_col (or_else x zero_ap)) o m in
      ap (λ o. at_entry o (get_elem? s.ctx.aps s.ctx.aps_count)) (sym table)
      ∙ ap (at_entry (lookup c m)) (sym at)
      ∙ step
]
