-- ===== src/MainLoop/Machine.antt =====
-- A round of the loop of `main` (user/src/main.c) as steps on the list of access points, taken as a
-- map with an order: the key, the removal of the silent ones, and the frames.
pub mod Stays
use wifi_sniffer.Prelude.{
  ℕ, zero, suc, ◌≡◌, refl, sym, ap, ◌∙◌, Bool, if◌then◌else◌, Option, none, some, List, [], ◌∷◌,
  map, length, take, inl, inr, same_bytes, same_bytes-eq, get_elem?, ◌-◌, Bool-cases, Option-cases,
  Outcome-cases, ok, arith,
}
use mathlib.Core.Option
use wifi_sniffer.Channel.{NlCall}
use wifi_sniffer.Ctx.{Ap, HdrInfo, RadiotapInfo, Ctx}
use wifi_sniffer.Ctx.Invariant.{IsValid, macs, Unique, Absent}
use wifi_sniffer.Handler.{
  Env, Sniffer, Attrs, packet_of, handle_packet, handle_frame_info, frame_handler,
}
use wifi_sniffer.Handler.Table.{Table, entry, lookup, newcomer, packet_table, next_entry}
use wifi_sniffer.Handler.Table.Colours.{order, next_colour, next_order, handle_packet-newcomer}
use wifi_sniffer.MainLoop.Views.{on_key, handle_key-lookup}
use wifi_sniffer.MainLoop.Order.{key_scroll, settle, handle_key-scroll, prune-scroll}
use wifi_sniffer.MainLoop.Remaining.{unless_expired, staying, lookup-prune, order-prune}
use wifi_sniffer.MainLoop.Scroll.{frame_handler-IsGrown}
use wifi_sniffer.Handler.Beacon.{length-macs}
use wifi_sniffer.Handler.Table.Packets.{handle_packet_refines}
use wifi_sniffer.Ui.{Screen}
use wifi_sniffer.MainLoop.{
  Loop, Input, with_ctx, expired, prune, handle_key, receive, receive_and_hop, iteration,
}
use wifi_sniffer.MainLoop.Invariant.{handle_key-IsValid, prune-IsValid, hop-ctx}
use wifi_sniffer.MainLoop.Keys.{handle_key_lem, plain-addresses}
use wifi_sniffer.MainLoop.Progress.{iteration-received}
use wifi_sniffer.MainLoop.Prune.{unexpired, prune_refines}

-- What the program knows of the access points: the entries by their addresses, the addresses in the
-- order of the list, the scroll position in it, and the colour of the next access point.
pub record Listing : Type 0 where
  pub table : Table
  pub addresses : List (List ℕ)
  pub scroll : ℕ
  pub col : ℕ

abbrev pub listing : Sniffer → Listing
listing s = record {
  table = lookup s.ctx;
  addresses = order s.ctx;
  scroll = s.ctx.scroll;
  col = s.cur_col;
}

-- What one message does, if its frame is handled without a fault. Not fixed is `spare`: the fields of a
-- new entry that are not written.
pub record FrameStep (env : Env) (a : Attrs) (v w : Listing) : Type 0 where
  pub info : HdrInfo
  pub rt : RadiotapInfo
  pub body : List ℕ
  pub spare : Ap
  pub whole : a ≡ record { header = some info; radiotap = some rt; payload = some body }
  pub step :
      (m : List ℕ)
      → packet_table env
          (packet_of info rt)
          body
          (length body)
          (newcomer info.bssid v.col spare)
          v.table
          m
        ≡ ok (w.table m)
  pub colour : w.col ≡ next_colour env info v.table v.col
  pub last : w.addresses ≡ next_order info v.table v.addresses
  pub still : w.scroll ≡ v.scroll

abbrev pub Frames : Env → List Attrs → Listing → Listing → Type 0
Frames env [] v w = w ≡ v
Frames env (a ∷ ms) v w = (x : Listing) × FrameStep env a v x × Frames env ms x w

-- A round: the key changes the scroll position and the views, `shown` are the entries then; the silent
-- access points leave, `left` is the state then; and the frames are handled one after the other, unless
-- the program is paused.
pub record ListRound (inp : Input) (paused : Bool) (v w : Listing) : Type 0 where
  pub shown : Table
  pub left : Listing
  pub views : (m : List ℕ) → shown m ≡ on_key inp.key (get_elem? v.addresses v.scroll) v.table m
  pub kept : (m : List ℕ) → left.table m ≡ unless_expired inp.env.now (shown m)
  pub stay : left.addresses ≡ staying left.table v.addresses
  pub scrolled :
      left.scroll
      ≡ settle
          (length v.addresses - length left.addresses)
          (length v.addresses)
          (key_scroll inp.rows inp.key (length v.addresses) v.scroll)
  pub same_colour : left.col ≡ v.col
  pub frames : Frames inp.env (if paused then [] else inp.messages) left w

frame_handler-FrameStep :
    (env : Env) (s : Sniffer) (a : Attrs) {t : Sniffer}
    → frame_handler env s a ≡ ok t
    → FrameStep env a (listing s) (listing t)
unfolding frame_handler handle_frame_info
frame_handler-FrameStep env s a {t} h = elim (Option-cases a.header) [
  | inl e ↦ absurd (ground arith)
  | inr (info, e) ↦ elim (Option-cases a.radiotap) [
    | inl e' ↦ absurd (ground arith)
    | inr (rt, e') ↦ elim (Option-cases a.payload) [
      | inl e'' ↦ absurd (ground arith)
      | inr (body, e'') ↦
          let run : handle_packet env s (packet_of info rt) body (length body) ≡ ok t =
            ground arith in
          record {
            info = info;
            rt = rt;
            body = body;
            spare = next_entry s.ctx;
            whole = rw (← e, ← e', ← e'') refl;
            step = λ m. handle_packet_refines env s (packet_of info rt) body (length body) m run;
            colour = (handle_packet-newcomer env s (packet_of info rt) body (length body) run).0;
            last = (handle_packet-newcomer env s (packet_of info rt) body (length body) run).1;
            still = (frame_handler-IsGrown env s a {t = t} h).0;
          }
    ]
  ]
]

receive-Frames :
    (env : Env) (s : Sniffer) (ms : List Attrs) {t : Sniffer}
    → receive env s ms ≡ ok t
    → Frames env ms (listing s) (listing t)
unfolding receive
receive-Frames env s [] {t} h = let e : t ≡ s = ground arith in ap listing e
receive-Frames env s (a ∷ ms) {t} h = elim (Outcome-cases (frame_handler env s a)) [
  | inr (f, e) ↦ absurd (ground arith)
  | inl (s', e) ↦ (
    listing s',
    frame_handler-FrameStep env s a e,
    receive-Frames env s' ms {t = t} (ground arith),
  )
]

receive_and_hop-Frames :
    (inp : Input) (l : Loop) {r : Loop × List NlCall}
    → receive_and_hop inp l ≡ ok r
    → Frames inp.env
        (if l.paused then [] else inp.messages)
        (listing l.sniffer)
        (listing r.0.sniffer)
unfolding receive_and_hop
receive_and_hop-Frames inp l {r} h = elim (Bool-cases l.paused) [
  | inl e ↦
      let same : r.0.sniffer ≡ l.sniffer = ground (arith, hop-ctx inp l) in rw e (ap listing same)
  | inr e ↦ elim (Outcome-cases (receive inp.env l.sniffer inp.messages)) [
    | inr (f, e') ↦ absurd (ground arith)
    | inl (s, e') ↦
        let same : r.0.sniffer ≡ s = ground (arith, hop-ctx inp (record l { sniffer = s })) in
        rw (e, same) (receive-Frames inp.env l.sniffer inp.messages e')
  ]
]

-- The loop implements the machine: with a valid context, a round that does not quit and runs to its
-- end without a fault lets the key change the scroll position and the views, then removes the access points that
-- were silent for more than 30 seconds, and then, unless paused, takes the messages one after the other,
-- each as `handle_packet_refines` says.
pub iteration_refines :
    (inp : Input) (l m : Loop) {r : Screen × Loop × List NlCall}
    → IsValid l.sniffer.ctx
    → handle_key inp.rows inp.key l ≡ some m
    → iteration inp l ≡ ok (some r)
    → ListRound inp m.paused (listing l.sniffer) (listing r.1.sniffer)
iteration_refines inp l m {r} v k h =
    let b = l.sniffer.ctx in
    let c = m.sniffer.ctx in
    let d = prune inp.env.now c in
    let (x, got, same) = iteration-received inp l k h in
    let (views, col, timer, channel) = handle_key_lem inp.rows inp.key l k in
    let w = handle_key-IsValid inp.rows inp.key l v k in
    let u = prune-IsValid inp.env.now c w in
    let addresses = plain-addresses b c views in
    let frames = receive_and_hop-Frames inp (with_ctx m d) got in
    let before = length-macs b.aps b.aps_count (omega (arith, v.aps_used, v.aps_room)) in
    let after = length-macs d.aps d.aps_count (omega (arith, u.aps_used, u.aps_room)) in
    let count : c.aps_count ≡ b.aps_count = ap (λ y. y.aps_count) views in
    record {
      shown = lookup c;
      left = listing (with_ctx m d).sniffer;
      views = λ mac. handle_key-lookup inp.rows inp.key l mac v k;
      kept = λ mac. lookup-prune inp.env.now c mac w;
      stay = order-prune inp.env.now c w ∙ ap (staying (lookup d)) addresses;
      scrolled =
          prune-scroll inp.env.now c (omega (arith, w.aps_used, w.aps_room))
          ∙ rw (before, after, count, handle_key-scroll inp.rows inp.key l k) refl;
      same_colour = col;
      frames = rw same frames;
    }
