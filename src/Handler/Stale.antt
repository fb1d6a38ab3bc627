-- ===== src/Handler/Stale.antt =====
-- A removed access point leaves its entry behind, and the next one that is registered starts from
-- it (user/src/main.c: the removal loop of `main`, and the registration in `handle_frame_info`).
use wifi_sniffer.Prelude.{
  ℕ, zero, suc, ◌+◌, ◌-◌, ◌<◌, ◌≡◌, ap, ◌∙◌, List, [], ◌∷◌, get_elem?, length, some, ok, arith,
}
use wifi_sniffer.Ctx.{Ap, Ctx}
use wifi_sniffer.Ctx.Invariant.{IsValid}
use wifi_sniffer.Handler.{Env, Sniffer, register_ap}
use wifi_sniffer.Handler.Entry.{adjust, name_new_ap}
use wifi_sniffer.MainLoop.{remove_ap, shift_down}
use wifi_sniffer.MainLoop.Shift.{get_elem?-shift}
use wifi_sniffer.MainLoop.Prune.{aps_count-remove_ap}

adjust_self :
    (f : Ap → Ap) (aps : List Ap) (n : ℕ) {a : Ap}
    → get_elem? aps n ≡ some a
    → get_elem? (adjust f aps n) n ≡ some (f a)
unfolding adjust
adjust_self f [] n h = absurd (ground arith)
adjust_self f (x ∷ aps) zero h = ground arith
adjust_self f (x ∷ aps) (suc n) h = adjust_self f aps n h

-- The counters, the frequencies and the time that a new access point has are those of `a`.
pub record Inherits (a b : Ap) (mac : List ℕ) : Type 0 where
  pub address : b.mac ≡ mac
  pub beacons : b.beacons ≡ a.beacons
  pub rx_packets : b.rx_packets ≡ a.rx_packets
  pub tx_packets : b.tx_packets ≡ a.tx_packets
  pub retries : b.retries ≡ a.retries
  pub last_seen : b.last_seen ≡ a.last_seen
  pub channel_freqs : b.channel_freqs ≡ a.channel_freqs
  pub freq_num : b.freq_num ≡ a.freq_num

name_new_ap-Inherits : (mac : List ℕ) (col : ℕ) (a : Ap) → Inherits a (name_new_ap mac col a) mac
unfolding name_new_ap
name_new_ap-Inherits mac col a = ground arith

-- Registration changes the address, the SSID and the colour of the entry behind the last one, and
-- leaves whatever else stands there.
pub register_ap-Inherits :
    (env : Env) (s : Sniffer) (mac : List ℕ) {a : Ap} {i : ℕ} {t : Sniffer}
    → get_elem? s.ctx.aps s.ctx.aps_count ≡ some a
    → register_ap env s mac ≡ ok (i, t)
    → (b : Ap) × (get_elem? t.ctx.aps i ≡ some b) × Inherits a b mac
unfolding register_ap
register_ap-Inherits env s mac {a} {i} {t} g h =
    let name = name_new_ap mac s.cur_col in
    let i_eq : i ≡ s.ctx.aps_count = ground arith in
    let t_eq : t.ctx.aps ≡ adjust name s.ctx.aps s.ctx.aps_count = ground arith in
    let inherits = name_new_ap-Inherits mac s.cur_col a in
    (name a, rw (i_eq, t_eq) (adjust_self name s.ctx.aps s.ctx.aps_count g), inherits)

last_entry :
    (aps : List Ap) (k n : ℕ)
    → k + n < length aps
    → get_elem? (shift_down aps (k + 1) n) (k + n) ≡ get_elem? aps (k + n)
last_entry aps k n h = let e : k + 1 ≡ suc k = omega arith in rw e (get_elem?-shift aps k n h)

-- The removal leaves the last entry in its place, now behind the end of the list.
stale :
    (c : Ctx) (k : ℕ) (a : Ap)
    → IsValid c
    → k < c.aps_count
    → get_elem? c.aps (c.aps_count - 1) ≡ some a
    → get_elem? (remove_ap c k).aps (remove_ap c k).aps_count ≡ some a
unfolding remove_ap
stale c k a v l g =
    let n = c.aps_count - (k + 1) in
    let e : (remove_ap c k).aps_count ≡ k + n = omega (arith, aps_count-remove_ap c k l) in
    let f : k + n ≡ c.aps_count - 1 = omega arith in
    ap (λ m. get_elem? (shift_down c.aps (k + 1) n) m) e
    ∙ last_entry c.aps k n (omega (arith, v.aps_used, v.aps_room))
    ∙ ap (λ m. get_elem? c.aps m) f
    ∙ g

-- In a valid context, after the removal of any access point, the next one that is registered
-- inherits the counters, frequencies and time of the one that was last in the list, which may
-- still be there.
pub register_ap-remove_ap :
    (env : Env) (s : Sniffer) (k : ℕ) (mac : List ℕ) (a : Ap) {i : ℕ} {t : Sniffer}
    → IsValid s.ctx
    → k < s.ctx.aps_count
    → get_elem? s.ctx.aps (s.ctx.aps_count - 1) ≡ some a
    → register_ap env (record s { ctx = remove_ap s.ctx k }) mac ≡ ok (i, t)
    → (b : Ap) × (get_elem? t.ctx.aps i ≡ some b) × Inherits a b mac
register_ap-remove_ap env s k mac a v l g h =
    register_ap-Inherits env _ mac (stale s.ctx k a v l g) h
