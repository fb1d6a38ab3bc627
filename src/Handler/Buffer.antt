-- ===== src/Handler/Buffer.antt =====
-- The ring of packets: `packet_buf` and `packet_buf_index` (user/src/main.c, user/src/ctx.h) seen as
-- the rows that `draw_packet_win` (user/src/ui.c) shows, newest first.
use wifi_sniffer.Prelude.{
  ℕ, zero, suc, ◌+◌, ◌%◌, ◌<◌, ◌≡◌, ◌≢◌, refl, ap, ◌∙◌, List, [], ◌∷◌, Option, none, Bool, true,
  false, ◌&&◌, ◌||◌, ◌==◌, if◌then◌else◌, get_elem?, get_elem?-set_self, get_elem?-set_ne, set,
  some, inl, inr, ok, Outcome-cases, Option-cases, Bool-cases, arith,
}
use wifi_sniffer.Ctx.{PacketInfo, Ctx, get_ap, packet_buf_size}
use wifi_sniffer.Ctx.Invariant.{IsValid}
use wifi_sniffer.Handler.{
  Env, Sniffer, advance, count_tx, count_rx, count_packet, register_ap, find_or_register, note_mgmt,
  handle_announcement, handle_action, dispatch, handle_packet,
}
use wifi_sniffer.Handler.Entry.{adjust?}
use wifi_sniffer.Ui.Packets.{row_index}

-- Beacons and probe requests: the frames after which the handler returns early.
abbrev pub is_unlisted : PacketInfo → Bool
is_unlisted p = p.hdr.frame_t == 0 && (p.hdr.frame_st == 8 || p.hdr.frame_st == 4)

-- What a frame does to the ring: it is written at the index, with its action code if it is an action
-- frame, and the index moves on unless the frame is unlisted.
pub record Stores (p : PacketInfo) (c d : Ctx) : Type 0 where
  pub stored : PacketInfo
  pub header : stored.hdr ≡ p.hdr
  pub ring : d.packet_buf ≡ set c.packet_buf c.packet_buf_index stored
  pub index :
      d.packet_buf_index
      ≡ (if is_unlisted p then c.packet_buf_index else (c.packet_buf_index + 1) % packet_buf_size)

-- The parts of the context that the ring consists of.
abbrev SameRing : Ctx → Ctx → Type 0
SameRing c d = (d.packet_buf ≡ c.packet_buf) × (d.packet_buf_index ≡ c.packet_buf_index)

count_packet-ring :
    (env : Env) (c : Ctx) (p : PacketInfo) {d : Ctx}
    → count_packet env c p ≡ ok d
    → (d.packet_buf ≡ set c.packet_buf c.packet_buf_index p)
      × (d.packet_buf_index ≡ c.packet_buf_index)
unfolding count_packet count_tx count_rx
count_packet-ring env c p h = ground arith

find_or_register-ring :
    (env : Env) (s : Sniffer) (mac : List ℕ) (found : Option ℕ) {i : ℕ} {t : Sniffer}
    → find_or_register env s mac found ≡ ok (i, t)
    → SameRing s.ctx t.ctx
unfolding find_or_register register_ap
find_or_register-ring env s mac none h = ground arith
find_or_register-ring env s mac (some j) h = ground arith

announcement-ring :
    (env : Env) (s : Sniffer) (p : PacketInfo) (body : List ℕ) (n : ℕ) (found : Option ℕ)
    {t : Sniffer}
    → handle_announcement env s p body n found ≡ ok t
    → (t.ctx.packet_buf ≡ s.ctx.packet_buf)
      × (t.ctx.packet_buf_index ≡ (
          if p.hdr.frame_st == 8
          then s.ctx.packet_buf_index
          else (s.ctx.packet_buf_index + 1) % packet_buf_size))
unfolding handle_announcement advance
announcement-ring env s p body n found {t} h =
    elim (Outcome-cases (find_or_register env s p.hdr.bssid found)) [
      | inr (f, e) ↦ absurd (ground arith)
      | inl ((i, s1), e) ↦ elim (Outcome-cases (adjust? (note_mgmt env p body n) s1.ctx.aps i)) [
        | inr (f, e') ↦ absurd (ground arith)
        | inl (ys, e') ↦
            let same = find_or_register-ring env s p.hdr.bssid found e in ground (arith, same)
      ]
    ]

set-set : (xs : List PacketInfo) (i : ℕ) (a b : PacketInfo) → set (set xs i a) i b ≡ set xs i b
set-set [] i a b = refl
set-set (x ∷ xs) zero a b = refl
set-set (x ∷ xs) (suc i) a b = ap (◌∷◌ x) (set-set xs i a b)

action-ring :
    (s : Sniffer) (p : PacketInfo) (body : List ℕ) {t : Sniffer}
    → handle_action s p body ≡ ok t
    → (q : PacketInfo) × (q.hdr ≡ p.hdr)
      × (t.ctx.packet_buf ≡ set s.ctx.packet_buf s.ctx.packet_buf_index q)
      × (t.ctx.packet_buf_index ≡ (s.ctx.packet_buf_index + 1) % packet_buf_size)
unfolding handle_action advance
action-ring s p body {t} h = elim (Option-cases (get_elem? body 0)) [
  | inl e ↦ absurd (ground arith)
  | inr (a, e) ↦ elim (Option-cases (get_elem? body 1)) [
    | inl e' ↦ absurd (ground arith)
    | inr (b, e') ↦
        (record p { action = record { cat = a; code = b } }, refl, ground arith, ground arith)
  ]
]

abbrev is_action : PacketInfo → Bool
is_action p = p.hdr.frame_t == 0 && (p.hdr.frame_st == 13 || p.hdr.frame_st == 14)

dispatch-Stores :
    (env : Env) (c : Ctx) (s : Sniffer) (p : PacketInfo) (body : List ℕ) (n : ℕ) (found : Option ℕ)
    {t : Sniffer}
    → s.ctx.packet_buf ≡ set c.packet_buf c.packet_buf_index p
    → s.ctx.packet_buf_index ≡ c.packet_buf_index
    → dispatch env s p body n found ≡ ok t
    → Stores p c t.ctx
unfolding dispatch advance
dispatch-Stores env c s p body n found {t} b i h = elim (Bool-cases (is_action p)) [
  | inl y ↦
      let (q, hdr, ring, index) = action-ring s p body {t = t} (ground arith) in
      record {
        stored = q;
        header = hdr;
        ring = ring ∙ rw (b, i) (set-set c.packet_buf c.packet_buf_index p q);
        index = ground (arith, index);
      }
  | inr no_action ↦ record {
    stored = p;
    header = refl;
    ring = ground (arith, announcement-ring env s p body n found {t = t});
    index = ground (arith, announcement-ring env s p body n found {t = t});
  }
]

-- A frame that is handled is stored at the index of the ring, and the index moves on by one place,
-- but for beacons and probe requests.
pub handle_packet-Stores :
    (env : Env) (s : Sniffer) (p : PacketInfo) (body : List ℕ) (n : ℕ) {t : Sniffer}
    → handle_packet env s p body n ≡ ok t
    → Stores p s.ctx t.ctx
unfolding handle_packet
handle_packet-Stores env s p body n {t} h = elim (Outcome-cases (count_packet env s.ctx p)) [
  | inr (f, e) ↦ absurd (ground arith)
  | inl (c, e) ↦
      let (b, i) = count_packet-ring env s.ctx p e in
      dispatch-Stores env s.ctx (record s { ctx = c }) p body n (get_ap s.ctx p.hdr.bssid) {t = t} b
        i (ground arith)
]

-- The packet of row `i`.
abbrev pub row : Ctx → ℕ → Option PacketInfo
row c i = get_elem? c.packet_buf (row_index c.packet_buf_index i)

listed_rows :
    (n i : ℕ)
    → n < 20
    → i < 19
    → (row_index ((n + 1) % 20) 0 ≡ n)
      × (row_index ((n + 1) % 20) (i + 1) ≡ row_index n i)
      × (n ≢ row_index n i)
listed_rows n i h l = (ground arith, ground arith, ground arith)

unlisted_rows : (n i : ℕ) → n < 20 → i < 19 → (row_index n 19 ≡ n) × (n ≢ row_index n i)
unlisted_rows n i h l = (ground arith, ground arith)

-- In a valid context, a frame that is neither a beacon nor a probe request and is handled without
-- a fault becomes row 0 of the packet window, and moves the other rows down by one; the oldest is
-- lost.
pub handle_packet_listed :
    (env : Env) (s : Sniffer) (p : PacketInfo) (body : List ℕ) (n : ℕ) {t : Sniffer} (i : ℕ)
    → IsValid s.ctx
    → is_unlisted p ≡ false
    → handle_packet env s p body n ≡ ok t
    → i < 19
    → ((q : PacketInfo) × (q.hdr ≡ p.hdr) × (row t.ctx 0 ≡ some q))
      × (row t.ctx (i + 1) ≡ row s.ctx i)
handle_packet_listed env s p body n {t} i v l h b =
    let st = handle_packet-Stores env s p body n h in
    let index : t.ctx.packet_buf_index ≡ (s.ctx.packet_buf_index + 1) % 20 =
      ground (arith, st.index) in
    let (first, down, others) = listed_rows s.ctx.packet_buf_index i v.packet_next b in
    (
      (
        st.stored,
        st.header,
        rw (st.ring, index, first)
            (get_elem?-set_self s.ctx.packet_buf s.ctx.packet_buf_index st.stored
              (omega (arith, v.packets_room, v.packet_next))),
      ),
      rw (st.ring, index, down) (get_elem?-set_ne _ _ _ _ others),
    )

-- In a valid context, a beacon or a probe request that is handled without a fault takes the place
-- of the last row of the packet window, the oldest, and moves none.
pub handle_packet_unlisted :
    (env : Env) (s : Sniffer) (p : PacketInfo) (body : List ℕ) (n : ℕ) {t : Sniffer} (i : ℕ)
    → IsValid s.ctx
    → is_unlisted p ≡ true
    → handle_packet env s p body n ≡ ok t
    → i < 19
    → ((q : PacketInfo) × (q.hdr ≡ p.hdr) × (row t.ctx 19 ≡ some q)) × (row t.ctx i ≡ row s.ctx i)
handle_packet_unlisted env s p body n {t} i v l h b =
    let st = handle_packet-Stores env s p body n h in
    let index : t.ctx.packet_buf_index ≡ s.ctx.packet_buf_index = ground (arith, st.index) in
    let (last, others) = unlisted_rows s.ctx.packet_buf_index i v.packet_next b in
    (
      (
        st.stored,
        st.header,
        rw (st.ring, index, last)
            (get_elem?-set_self s.ctx.packet_buf s.ctx.packet_buf_index st.stored
              (omega (arith, v.packets_room, v.packet_next))),
      ),
      rw (st.ring, index) (get_elem?-set_ne _ _ _ _ others),
    )
