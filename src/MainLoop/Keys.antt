-- ===== src/MainLoop/Keys.antt =====
-- What the keys change (user/src/main.c): the scroll position and the views of access points.
use wifi_sniffer.Prelude.{
  ℕ, zero, suc, ◌≡◌, refl, sym, ap, ◌∙◌, some, List, [], ◌∷◌, map, get_elem?, ℤ, pos, negsuc, arith,
}
use wifi_sniffer.Ctx.{Ap, ApView, main, detail, Ctx, get_ap}
use wifi_sniffer.Ctx.Invariant.{macs}
use wifi_sniffer.Handler.Beacon.{get_ap-addresses}
use wifi_sniffer.Handler.Entry.{adjust}
use wifi_sniffer.MainLoop.{Loop, set_view, set_views, context_key, handle_key}

-- An access point, and a context, without what the keys change.
abbrev pub plain : Ap → Ap
plain = set_view main

abbrev pub plain_ctx : Ctx → Ctx
plain_ctx c = record c { scroll = 0; aps = map plain c.aps }

map-adjust :
    (v : ApView) (aps : List Ap) (i : ℕ) → map plain (adjust (set_view v) aps i) ≡ map plain aps
unfolding adjust
map-adjust v [] i = refl
map-adjust v (a ∷ aps) zero = refl
map-adjust v (a ∷ aps) (suc i) = ap (◌∷◌ (plain a)) (map-adjust v aps i)

map-set_views : (v : ApView) (aps : List Ap) (n : ℕ) → map plain (set_views v aps n) ≡ map plain aps
unfolding set_views
map-set_views v [] n = refl
map-set_views v (a ∷ aps) zero = refl
map-set_views v (a ∷ aps) (suc n) = ap (◌∷◌ (plain a)) (map-set_views v aps n)

context_key-plain : (rows : ℤ) (k : ℕ) (c : Ctx) → plain_ctx (context_key rows k c) ≡ plain_ctx c
unfolding context_key
context_key-plain rows k c = ground (
  arith,
  map-adjust detail c.aps c.scroll,
  map-adjust main c.aps c.scroll,
  map-set_views detail c.aps c.aps_count,
  map-set_views main c.aps c.aps_count,
)

-- Whatever key is read, the loop goes on with the same access points and packets but for the scroll
-- position and the views, with the same timer and channel.
pub handle_key_lem :
    (rows k : ℤ) (l : Loop) {m : Loop}
    → handle_key rows k l ≡ some m
    → (plain_ctx m.sniffer.ctx ≡ plain_ctx l.sniffer.ctx)
      × (m.sniffer.cur_col ≡ l.sniffer.cur_col)
      × (m.hop_timer ≡ l.hop_timer)
      × (m.channel ≡ l.channel)
unfolding handle_key
handle_key_lem rows (negsuc e) l h = ground arith
handle_key_lem rows (pos k) l h = ground (arith, context_key-plain rows k l.sniffer.ctx)

pub handle_key-socket :
    (rows k : ℤ) (l : Loop) {m : Loop} → handle_key rows k l ≡ some m → m.socket ≡ l.socket
unfolding handle_key
handle_key-socket rows (negsuc k) l h = ground arith
handle_key-socket rows (pos k) l h = ground arith

plain-macs : (aps : List Ap) (n : ℕ) → macs (map plain aps) n ≡ macs aps n
plain-macs [] n = refl
plain-macs (a ∷ aps) zero = refl
plain-macs (a ∷ aps) (suc n) = ap (◌∷◌ a.mac) (plain-macs aps n)

plain-entry :
    (xs ys : List Ap) (i : ℕ) {a : Ap}
    → map plain ys ≡ map plain xs
    → get_elem? xs i ≡ some a
    → (b : Ap) × (get_elem? ys i ≡ some b) × (plain b ≡ plain a)
plain-entry [] ys i e h = cc
plain-entry (x ∷ xs) [] i e h = cc
plain-entry (x ∷ xs) (y ∷ ys) zero {a} e h =
    let same : x ≡ a = ground arith in
    let shown : plain y ≡ plain x = ground (arith, e) in (y, refl, shown ∙ ap plain same)
plain-entry (x ∷ xs) (y ∷ ys) (suc i) e h = plain-entry xs ys i (ground (arith, e)) h

-- What two contexts share that are the same but for those.
module _ (c d : Ctx) (e : plain_ctx d ≡ plain_ctx c) where
  pub plain-addresses : macs d.aps d.aps_count ≡ macs c.aps c.aps_count
  plain-addresses =
      sym (plain-macs d.aps d.aps_count)
      ∙ ap (λ x. macs x.aps x.aps_count) e
      ∙ plain-macs c.aps c.aps_count

  pub plain-get_ap : (mac : List ℕ) → get_ap d mac ≡ get_ap c mac
  plain-get_ap mac = get_ap-addresses c d mac plain-addresses

  -- The ring of packets is the same, and an entry was last heard of at the same time.
  pub plain-ring : (d.packet_buf ≡ c.packet_buf) × (d.packet_buf_index ≡ c.packet_buf_index)
  plain-ring = (ap (λ x. x.packet_buf) e, ap (λ x. x.packet_buf_index) e)

  pub plain-at :
      (i : ℕ) {a : Ap}
      → get_elem? c.aps i ≡ some a
      → (b : Ap) × (get_elem? d.aps i ≡ some b) × (plain b ≡ plain a)
  plain-at i h = plain-entry c.aps d.aps i (ap (λ x. x.aps) e) h

  pub plain-last_seen :
      (i : ℕ) {a : Ap}
      → get_elem? c.aps i ≡ some a
      → (b : Ap) × (get_elem? d.aps i ≡ some b) × (b.last_seen ≡ a.last_seen)
  plain-last_seen i h =
      let (b, entry, same) = plain-at i h in (b, entry, ap (λ x. x.last_seen) same)
