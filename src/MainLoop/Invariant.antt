-- ===== src/MainLoop/Invariant.antt =====
-- The loop of `main` (user/src/main.c) keeps the invariant of `struct ctx`.
use wifi_sniffer.Prelude.{
  ℕ, zero, suc, ◌+◌, ◌-◌, ◌%◌, ◌<◌, ◌≡◌, refl, ap, some, List, [], ◌∷◌, ◌++◌, map, negsuc, pos, ℤ,
  ◌⊎◌, inl, inr, take, drop, Bool-cases, Option-cases, Outcome-cases, ok, arith, subst,
}
use wifi_sniffer.Channel.{NlCall}
use wifi_sniffer.Ctx.{Ap, ApView, main, detail, Ctx, live_aps}
use wifi_sniffer.Ctx.Invariant.{IsValidAp, IsValid, macs, Absent, Unique}
use wifi_sniffer.Handler.{Env, Sniffer, Attrs, frame_handler}
use wifi_sniffer.Handler.Adjust.{KeepsAps, adjust-KeepsAps, KeepsAps-refl, KeepsAps-cons}
use wifi_sniffer.Handler.Counters.{with_aps-IsValid}
use wifi_sniffer.Handler.Invariant.{frame_handler-IsValid}
use wifi_sniffer.Ies.Valid.{Keeps}
use wifi_sniffer.Ui.{Screen, draw_ui}
use wifi_sniffer.MainLoop.{
  Loop, Input, with_ctx, remove_ap, prune_loop, prune, set_view, set_views, last_page, context_key,
  handle_key, receive, hop, receive_and_hop, after_key, iteration,
}
use wifi_sniffer.MainLoop.Shift.{All-shift_down, length-shift_down}
use wifi_sniffer.MainLoop.Prune.{aps_count-remove_ap, live_aps-remove_ap, round}

abbrev pub addresses : List Ap → List (List ℕ)
addresses = map (λ a. a.mac)

pub macs-take : (aps : List Ap) (n : ℕ) → macs aps n ≡ addresses (take n aps)
macs-take [] zero = refl
macs-take [] (suc n) = refl
macs-take (a ∷ aps) zero = refl
macs-take (a ∷ aps) (suc n) = ap (◌∷◌ a.mac) (macs-take aps n)

Absent-remove :
    (mac : List ℕ) (aps : List Ap) (i : ℕ)
    → Absent mac (addresses aps)
    → Absent mac (addresses (take i aps ++ drop (suc i) aps))
Absent-remove mac [] zero h = tt
Absent-remove mac [] (suc i) h = tt
Absent-remove mac (a ∷ aps) zero h = h.1
Absent-remove mac (a ∷ aps) (suc i) h = (h.0, Absent-remove mac aps i h.1)

Unique-remove :
    (aps : List Ap) (i : ℕ)
    → Unique (addresses aps)
    → Unique (addresses (take i aps ++ drop (suc i) aps))
Unique-remove [] zero h = tt
Unique-remove [] (suc i) h = tt
Unique-remove (a ∷ aps) zero h = h.1
Unique-remove (a ∷ aps) (suc i) h = (Absent-remove a.mac aps i h.0, Unique-remove aps i h.1)

remove_ap-Unique :
    (c : Ctx) (i : ℕ)
    → IsValid c
    → i < c.aps_count
    → Unique (macs (remove_ap c i).aps (remove_ap c i).aps_count)
remove_ap-Unique c i v l =
    let before : Unique (addresses (live_aps c)) =
      subst Unique (macs-take c.aps c.aps_count) v.aps_unique in
    rw
      (
        macs-take (remove_ap c i).aps (remove_ap c i).aps_count,
        live_aps-remove_ap c i (omega (arith, v.aps_used, v.aps_room)) l,
      )
      (Unique-remove (live_aps c) i before)

remove_ap-IsValid : (c : Ctx) (i : ℕ) → IsValid c → i < c.aps_count → IsValid (remove_ap c i)
unfolding remove_ap
remove_ap-IsValid c i v l =
    let n = c.aps_count - (i + 1) in
    let count = aps_count-remove_ap c i l in
    record {
      aps_room = omega (arith, length-shift_down c.aps (i + 1) n, v.aps_room);
      aps_used = omega (arith, count, v.aps_used);
      aps_valid = All-shift_down IsValidAp c.aps (i + 1) n v.aps_valid;
      aps_unique = remove_ap-Unique c i v l;
      scroll_byte = ground (arith, v.scroll_byte);
      packets_room = v.packets_room;
      packet_next = v.packet_next;
    }

prune_loop-IsValid :
    (fuel now : ℕ) (c : Ctx) (i : ℕ) → IsValid c → IsValid (prune_loop fuel now c i)
unfolding prune_loop
prune_loop-IsValid zero now c i v = v
prune_loop-IsValid (suc fuel) now c i v =
    elim (round fuel now c i (omega (arith, v.aps_used, v.aps_room))) [
      | inl (past, e) ↦ rw e v
      | inr (a, lt, at, inl (x, e)) ↦
          rw e (prune_loop-IsValid fuel now (remove_ap c i) i (remove_ap-IsValid c i v lt))
      | inr (a, lt, at, inr (x, e)) ↦ rw e (prune_loop-IsValid fuel now c (i + 1) v)
    ]

pub prune-IsValid : (now : ℕ) (c : Ctx) → IsValid c → IsValid (prune now c)
unfolding prune
prune-IsValid now c v = prune_loop-IsValid c.aps_count now c 0 v

set_view-Keeps : (v : ApView) (a : Ap) → Keeps a (set_view v a)
set_view-Keeps v a = (λ w. ground arith, refl)

set_views-KeepsAps : (v : ApView) (aps : List Ap) (n : ℕ) → KeepsAps aps (set_views v aps n)
unfolding set_views
set_views-KeepsAps v [] n = KeepsAps-refl []
set_views-KeepsAps v (a ∷ aps) zero = KeepsAps-refl (a ∷ aps)
set_views-KeepsAps v (a ∷ aps) (suc n) =
    KeepsAps-cons (set_view-Keeps v a) (set_views-KeepsAps v aps n)

with_scroll-IsValid : (c : Ctx) (s : ℕ) → IsValid c → s < 256 → IsValid (record c { scroll = s })
with_scroll-IsValid c s v b = ground arith

pub context_key-IsValid : (rows : ℤ) (k : ℕ) (c : Ctx) → IsValid c → IsValid (context_key rows k c)
unfolding context_key
context_key-IsValid rows k c v = ground (
  arith,
  with_scroll-IsValid c (c.scroll - 1) v,
  with_scroll-IsValid c ((c.scroll + 1) % 256) v,
  with_scroll-IsValid c 0 v,
  with_scroll-IsValid c (last_page rows c.aps_count % 256) v,
  with_aps-IsValid c _ (adjust-KeepsAps _ (set_view-Keeps detail) c.aps c.scroll) v,
  with_aps-IsValid c _ (adjust-KeepsAps _ (set_view-Keeps main) c.aps c.scroll) v,
  with_aps-IsValid c _ (set_views-KeepsAps detail c.aps c.aps_count) v,
  with_aps-IsValid c _ (set_views-KeepsAps main c.aps c.aps_count) v,
)

pub handle_key-IsValid :
    (rows k : ℤ) (l : Loop) {m : Loop}
    → IsValid l.sniffer.ctx
    → handle_key rows k l ≡ some m
    → IsValid m.sniffer.ctx
unfolding handle_key
handle_key-IsValid rows (negsuc e) l v h = ground arith
handle_key-IsValid rows (pos k) l v h = ground (arith, context_key-IsValid rows k l.sniffer.ctx v)

receive-IsValid :
    (env : Env) (s : Sniffer) (ms : List Attrs) {t : Sniffer}
    → IsValid s.ctx
    → receive env s ms ≡ ok t
    → IsValid t.ctx
unfolding receive
receive-IsValid env s [] v h = ground arith
receive-IsValid env s (m ∷ ms) {t} v h = elim (Outcome-cases (frame_handler env s m)) [
  | inl (s', e) ↦
      receive-IsValid env s' ms {t = t} (frame_handler-IsValid env s m v e) (ground arith)
  | inr (f, e) ↦ absurd (ground arith)
]

pub hop-ctx : (inp : Input) (l : Loop) → (hop inp l).0.sniffer ≡ l.sniffer
unfolding hop
hop-ctx inp l = ground arith

-- The sniffer's state after `receive_and_hop` is the one before, or that after the messages.
pub receive_and_hop-sniffer :
    (inp : Input) (l : Loop) {r : Loop × List NlCall}
    → receive_and_hop inp l ≡ ok r
    → (r.0.sniffer ≡ l.sniffer)
      ⊎ ((s : Sniffer) × (receive inp.env l.sniffer inp.messages ≡ ok s) × (r.0.sniffer ≡ s))
unfolding receive_and_hop
receive_and_hop-sniffer inp l {r} h = elim (Bool-cases l.paused) [
  | inl e ↦ inl (ground (arith, hop-ctx inp l))
  | inr e ↦ elim (Bool-cases l.socket) [
    | inr n ↦ absurd (ground arith)
    | inl n ↦ elim (Outcome-cases (receive inp.env l.sniffer inp.messages)) [
      | inl (s, e') ↦ inr (s, e', ground (arith, hop-ctx inp (record l { sniffer = s })))
      | inr (f, e') ↦ absurd (ground arith)
    ]
  ]
]

receive_and_hop-IsValid :
    (inp : Input) (l : Loop) {r : Loop × List NlCall}
    → IsValid l.sniffer.ctx
    → receive_and_hop inp l ≡ ok r
    → IsValid r.0.sniffer.ctx
receive_and_hop-IsValid inp l v h = elim (receive_and_hop-sniffer inp l h) [
  | inl q ↦ rw q v
  | inr (s, e, q) ↦ rw q (receive-IsValid inp.env l.sniffer inp.messages v e)
]

after_key-IsValid :
    (inp : Input) (l : Loop) {r : Screen × Loop × List NlCall}
    → IsValid l.sniffer.ctx
    → after_key inp l ≡ ok r
    → IsValid r.1.sniffer.ctx
unfolding after_key
after_key-IsValid inp l {r} v h =
    let l' = with_ctx l (prune inp.env.now l.sniffer.ctx) in
    elim (Outcome-cases (draw_ui inp.env.now inp.rows l.channel l.sniffer.ctx)) [
      | inr (f, e) ↦ absurd (ground arith)
      | inl (screen, e) ↦ elim (Outcome-cases (receive_and_hop inp l')) [
        | inr (f, e') ↦ absurd (ground arith)
        | inl (m, e') ↦
            let w = receive_and_hop-IsValid inp l' (prune-IsValid inp.env.now l.sniffer.ctx v) e' in
            let q : r.1 ≡ m.0 = ground arith in rw q w
      ]
    ]

-- One round of the main loop that ends without a fault, with any key but those that quit, any
-- messages and any results of the libraries, ERR of `getmaxy` included, leaves a valid context valid:
-- the arrays keep their lengths, the entries and the ring's index stay in them, every SSID has a
-- terminating zero, the addresses of the registered access points are distinct, and the scroll position
-- fits its byte.
pub iteration-IsValid :
    (inp : Input) (l : Loop) {r : Screen × Loop × List NlCall}
    → IsValid l.sniffer.ctx
    → iteration inp l ≡ ok (some r)
    → IsValid r.1.sniffer.ctx
unfolding iteration
iteration-IsValid inp l {r} v h = elim (Option-cases (handle_key inp.rows inp.key l)) [
  | inl e ↦ absurd (ground arith)
  | inr (l', e) ↦
      let w = handle_key-IsValid inp.rows inp.key l v e in
      elim (Outcome-cases (after_key inp l')) [
        | inr (f, e') ↦ absurd (ground arith)
        | inl (r', e') ↦ let q : r ≡ r' = ground arith in rw q (after_key-IsValid inp l' w e')
      ]
]
