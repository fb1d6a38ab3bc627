-- ===== src/MainLoop.antt =====
-- user/src/main.c, `main`: the keys, the removal of access points that have gone silent, the
-- receiving of frames and the timer that hops channels.
--
-- One iteration of `while (1)` is a function of the state and of what the libraries return during
-- it, the record `Input`.
pub mod Shift
pub mod Prune
pub mod Invariant
pub mod Silence
pub mod Hopping
pub mod Keys
pub mod Progress
pub mod Departure
pub mod Quiet
pub mod Fleeting
pub mod Session
pub mod Views
pub mod Order
pub mod Remaining
pub mod Scroll
pub mod Machine
use wifi_sniffer.Prelude.{
  ℕ, zero, suc, ◌+◌, ◌-◌, ◌%◌, Bool, not, ◌||◌, ◌&&◌, Option, none, some, List, [], ◌∷◌, ◌==◌, ltb,
  leb, if◌then◌else◌, get_elem?, set, ℤ, pos, negsuc, Outcome, ok, null_pointer, ◌>>=◌, ◌>>◌, check,
}
use wifi_sniffer.Channel.{NlReplies, NlCall, next_channel}
use wifi_sniffer.Ctx.{Ap, ApView, main, detail, Ctx}
use wifi_sniffer.Handler.{Env, Sniffer, Attrs, frame_handler}
use wifi_sniffer.Handler.Entry.{adjust}
use wifi_sniffer.Ui.{Screen, draw_ui}

abbrev pub hop_time : ℕ
hop_time = 5000

-- The seconds after which a silent access point is removed.
abbrev pub patience : ℕ
patience = 30

-- The local variables of `main`, the program's state, and the static `channel` of channel_hop.c.
-- `socket` says whether `sock` is a socket, and not NULL.
pub record Loop : Type 0 where
  pub socket : Bool
  pub sniffer : Sniffer
  pub paused : Bool
  pub hopping : Bool
  pub hop_timer : ℕ
  pub channel : ℕ

abbrev pub with_ctx : Loop → Ctx → Loop
with_ctx l ctx = record l { sniffer = record l.sniffer { ctx = ctx } }

abbrev pub set_view : ApView → Ap → Ap
set_view v ap = record ap { view = v }

-- The loops of `L` and `H` over the first `n` entries.
unfoldable pub set_views : ApView → List Ap → ℕ → List Ap
set_views v [] n = []
set_views v (a ∷ aps) zero = a ∷ aps
set_views v (a ∷ aps) (suc n) = set_view v a ∷ set_views v aps n

-- `ctx->scroll + getmaxy(…) < ctx->aps_count`. `getmaxy` gives ERR, which is -1, for a window that could
-- not be opened, and a negative sum is a very large `size_t`.
abbrev pub below : ℤ → ℕ → ℕ → Bool
below (pos rows) scroll count = ltb (scroll + rows) count
below (negsuc e) scroll count = leb (e + 1) scroll && ltb (scroll - (e + 1)) count

-- `ctx->aps_count - getmaxy(…)`, or 0 where that is negative.
abbrev pub last_page : ℤ → ℕ → ℕ
last_page (pos rows) count = count - rows
last_page (negsuc e) count = count + (e + 1)

-- Keys that change the context. `scroll` is a `uint8_t`.
unfoldable pub context_key : ℤ → ℕ → Ctx → Ctx
context_key rows c ctx =
    if c == b'k'
    then (if ltb 0 ctx.scroll then record ctx { scroll = ctx.scroll - 1 } else ctx)
    else if c == b'j'
    then (if below rows ctx.scroll ctx.aps_count
        then record ctx { scroll = (ctx.scroll + 1) % 256 }
        else ctx)
    else if c == b'K'
    then record ctx { scroll = 0 }
    else if c == b'J'
    then record ctx { scroll = last_page rows ctx.aps_count % 256 }
    else if c == b'l'
    then record ctx { aps = adjust (set_view detail) ctx.aps ctx.scroll }
    else if c == b'h'
    then record ctx { aps = adjust (set_view main) ctx.aps ctx.scroll }
    else if c == b'L'
    then record ctx { aps = set_views detail ctx.aps ctx.aps_count }
    else if c == b'H'
    then record ctx { aps = set_views main ctx.aps ctx.aps_count }
    else ctx

-- The switch on `getch()`; `none` is `goto exit_loop`, and a negative key is ERR (no input).
unfoldable pub handle_key : ℤ → ℤ → Loop → Option Loop
handle_key rows (negsuc e) l = some l
handle_key rows (pos c) l =
    if c == b' '
    then some (record l { paused = not l.paused })
    else if c == 9
    then some (record l { hopping = not l.hopping })
    else if c == b'q' || c == b'Q'
    then none
    else some (with_ctx l (context_key rows c l.sniffer.ctx))

-- `aps[j-1] = aps[j]`
unfoldable pub copy_down : List Ap → ℕ → List Ap
copy_down aps j = elim (get_elem? aps j) [ none ↦ aps | some a ↦ set aps (j - 1) a ]

-- `n` rounds of that, from `j` on.
unfoldable pub shift_down : List Ap → ℕ → ℕ → List Ap
shift_down aps j zero = aps
shift_down aps j (suc n) = shift_down (copy_down aps j) (j + 1) n

unfoldable pub remove_ap : Ctx → ℕ → Ctx
remove_ap ctx i = record ctx {
  aps = shift_down ctx.aps (i + 1) (ctx.aps_count - (i + 1));
  scroll = if leb ctx.aps_count ctx.scroll then (ctx.scroll + 255) % 256 else ctx.scroll;
  aps_count = if ltb 0 ctx.aps_count then ctx.aps_count - 1 else ctx.aps_count;
}

abbrev pub expired : ℕ → Ap → Bool
expired now ap = ltb patience (now - ap.last_seen)

-- The loop over the entries. After a removal `i--` and `i++` leave `i` as it was (also at 0, where
-- the `size_t` wraps round and back), so each round lowers `aps_count - i` by one.
unfoldable pub prune_loop : ℕ → ℕ → Ctx → ℕ → Ctx
prune_loop zero now ctx i = ctx
prune_loop (suc fuel) now ctx i =
    let removed = prune_loop fuel now (remove_ap ctx i) i in
    let kept = prune_loop fuel now ctx (i + 1) in
    elim (get_elem? ctx.aps i) [
      | none ↦ ctx
      | some ap ↦ if ltb i ctx.aps_count then (if expired now ap then removed else kept) else ctx
    ]

unfoldable pub prune : ℕ → Ctx → Ctx
prune now ctx = prune_loop ctx.aps_count now ctx 0

-- How `nl_recvmsgs_default` returns: at least 0, -NLE_AGAIN, or another error.
pub data Recv : Type 0 where
  received again failed : Recv

pub record Input : Type 0 where
  pub key : ℤ
  -- `getmaxy` of the window of access points.
  pub rows : ℤ
  pub env : Env
  pub messages : List Attrs
  pub recv : Recv
  pub if_index : ℕ
  pub replies : NlReplies

-- libnl calls the handler for each message in turn.
unfoldable pub receive : Env → Sniffer → List Attrs → Outcome Sniffer
receive env s [] = ok s
receive env s (m ∷ ms) = do s' ← frame_handler env s m; receive env s' ms

-- `if (hopping && hop_timer-- <= 0) { … }`, with the calls that it makes.
unfoldable pub hop : Input → Loop → Loop × List NlCall
hop inp l =
    if l.hopping
    then (if l.hop_timer == 0
        then (let (ret, calls, channel) = next_channel inp.replies inp.if_index l.channel in
            (record l { hop_timer = hop_time; channel = channel }, calls))
        else (record l { hop_timer = l.hop_timer - 1 }, []))
    else (l, [])

-- From `nl_recvmsgs_default` on; an error skips the hop timer (`continue`).
unfoldable pub receive_and_hop : Input → Loop → Outcome (Loop × List NlCall)
receive_and_hop inp l = if l.paused then ok (hop inp l) else do
  check l.socket null_pointer
  s ← receive inp.env l.sniffer inp.messages
  let l' = record l { sniffer = s }
  elim inp.recv [ received ↦ ok (hop inp l') | again ↦ ok (hop inp l') | failed ↦ ok (l', []) ]

unfoldable pub after_key : Input → Loop → Outcome (Screen × Loop × List NlCall)
after_key inp l = do
  screen ← draw_ui inp.env.now inp.rows l.channel l.sniffer.ctx
  (l', calls) ← receive_and_hop inp (with_ctx l (prune inp.env.now l.sniffer.ctx))
  ok (screen, l', calls)

-- One iteration: `none` when the user quits.
unfoldable pub iteration : Input → Loop → Outcome (Option (Screen × Loop × List NlCall))
iteration inp l = elim (handle_key inp.rows inp.key l) [
  | none ↦ ok none
  | some l' ↦ do r ← after_key inp l'; ok (some r)
]
