-- ===== src/Handler/Registration.antt =====
-- The registration of an access point (user/src/main.c, `handle_frame_info`) keeps the invariant of
-- `struct ctx`.
use wifi_sniffer.Prelude.{
  ℕ, zero, suc, ◌+◌, ◌<◌, ◌≡◌, refl, ap, Option, none, some, List, [], ◌∷◌, ◌++◌, length,
  length-drop, All, Distinct-append, same_bytes, same_bytes_refl, same_bytes-eq, ok, arith,
}
use wifi_sniffer.Ctx.{Ap, Ctx}
use wifi_sniffer.Ctx.Invariant.{IsValidAp, IsValid, macs, Absent, has_zero}
use wifi_sniffer.Handler.{Env, Sniffer, register_ap, find_or_register}
use wifi_sniffer.Handler.Entry.{adjust, name_new_ap}

-- The first `n` addresses and one more, after the entry behind them got its address.
macs_zero : (aps : List Ap) → macs aps 0 ≡ []
macs_zero [] = refl
macs_zero (a ∷ aps) = refl

pub macs-adjust_next :
    (f : Ap → Ap) (mac : List ℕ)
    → ((a : Ap) → (f a).mac ≡ mac)
    → (aps : List Ap) (n : ℕ) → n < length aps
    → macs (adjust f aps n) (suc n) ≡ macs aps n ++ (mac ∷ [])
unfolding adjust
macs-adjust_next f mac k [] n h = absurd (omega arith)
macs-adjust_next f mac k (a ∷ aps) zero h = rw (k a, macs_zero aps)
macs-adjust_next f mac k (a ∷ aps) (suc n) h =
    ap (◌∷◌ a.mac) (macs-adjust_next f mac k aps n (omega arith))

adjust-valid :
    (f : Ap → Ap)
    → ((a : Ap) → IsValidAp a → IsValidAp (f a))
    → (aps : List Ap) (n : ℕ) → All IsValidAp aps
    → All IsValidAp (adjust f aps n) × (length (adjust f aps n) ≡ length aps)
unfolding adjust
adjust-valid f k [] n v = (tt, refl)
adjust-valid f k (a ∷ aps) zero v = ((k a v.0, v.1), refl)
adjust-valid f k (a ∷ aps) (suc n) v =
    let (w, e) = adjust-valid f k aps n v.1 in ((v.0, w), ap suc e)

name_new_ap-valid :
    (mac : List ℕ) (col : ℕ) (a : Ap) → IsValidAp a → IsValidAp (name_new_ap mac col a)
unfolding name_new_ap has_zero
name_new_ap-valid mac col a v = record {
  ssid_room = omega (arith, length-drop 9 a.ssid, v.ssid_room);
  terminated = refl;
  freqs_room = v.freqs_room;
  freqs_used = v.freqs_used;
}

pub named : (mac : List ℕ) (col : ℕ) (a : Ap) → (name_new_ap mac col a).mac ≡ mac
unfolding name_new_ap
named mac col a = refl

pub register_ap-IsValid :
    (env : Env) (s : Sniffer) (mac : List ℕ) {i : ℕ} {t : Sniffer}
    → IsValid s.ctx
    → Absent mac (macs s.ctx.aps s.ctx.aps_count)
    → register_ap env s mac ≡ ok (i, t)
    → IsValid t.ctx
unfolding register_ap
register_ap-IsValid env s mac {i} {t} v a h =
    let c = s.ctx in
    let name = name_new_ap mac s.cur_col in
    let (valid, room) =
      adjust-valid name (name_new_ap-valid mac s.cur_col) c.aps c.aps_count v.aps_valid in
    let e : t.ctx ≡ record c { aps = adjust name c.aps c.aps_count; aps_count = c.aps_count + 1 } =
      ground arith in
    let l : c.aps_count < length c.aps = ground arith in
    let n : c.aps_count + 1 ≡ suc c.aps_count = omega arith in
    rw e (record {
      aps_room = omega (arith, room, v.aps_room);
      aps_used = omega (arith, v.aps_room);
      aps_valid = valid;
      aps_unique =
          rw (n, macs-adjust_next name mac (named mac s.cur_col) c.aps c.aps_count l)
            (Distinct-append same_bytes same_bytes_refl same_bytes-eq (macs c.aps c.aps_count) mac
              v.aps_unique a);
      scroll_byte = v.scroll_byte;
      packets_room = v.packets_room;
      packet_next = v.packet_next;
    })

-- A lookup that failed means that the address is new.
abbrev pub Answers : Ctx → List ℕ → Option ℕ → Type 0
Answers c mac found = found ≡ none → Absent mac (macs c.aps c.aps_count)

pub find_or_register-IsValid :
    (env : Env) (s : Sniffer) (mac : List ℕ) (found : Option ℕ) {i : ℕ} {t : Sniffer}
    → IsValid s.ctx
    → Answers s.ctx mac found
    → find_or_register env s mac found ≡ ok (i, t)
    → IsValid t.ctx
unfolding find_or_register
find_or_register-IsValid env s mac none v a h = register_ap-IsValid env s mac v (a refl) h
find_or_register-IsValid env s mac (some j) v a h = ground arith
