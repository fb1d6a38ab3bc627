-- ===== src/Ui/Terminal.antt =====
-- The calls of ncurses that open the four windows, show them and close them: `init_ctx` and `free_ctx`
-- (user/src/ctx.c), `init_ui` and `draw_ui` (user/src/ui.c).
pub mod Balance
pub mod Layout
use wifi_sniffer.Prelude.{
  ℕ, zero, suc, ◌+◌, ◌-◌, ◌/◌, Bool, String, Option, none, some, List, [], ◌∷◌, ◌++◌, if◌then◌else◌,
  ℤ, pos, int_sub,
}
use wifi_sniffer.Ctx.{Ctx, init_ctx}
use wifi_sniffer.Ui.{Screen}
use wifi_sniffer.Ui.Calls.{Draw}

pub data Window : Type 0 where
  ap_win packet_win stats_win usage_win : Window

-- `new_window` has the arguments of `newwin`: lines, columns, y and x. `cursor` is `curs_set`,
-- `print_at` is `mvprintw`, `refresh_all` is `refresh`, and `release` the `free` of the context.
pub data TermCall : Type 0 where
  init_screen end_screen : TermCall
  new_window : Window → ℤ → ℤ → ℤ → ℤ → TermCall
  delete_window erase refresh : Window → TermCall
  draw : Window → Draw → TermCall
  update : TermCall
  no_echo cbreak_mode start_color no_delay release : TermCall
  cursor : ℕ → TermCall
  init_pair : ℕ → TermCall
  print_at : ℕ → ℕ → String → TermCall
  refresh_all : TermCall

-- What ncurses and `calloc` return: the size of the terminal, and `COLORS`.
pub record TermReplies : Type 0 where
  pub allocated : Bool
  pub h : ℕ
  pub w : ℕ
  pub colors : ℕ

-- The `newwin`s of `init_ctx`, with the arguments as they are. A negative size gives NULL, which the code
-- does not test; the calls on such a window return ERR, and `getmaxy` -1 (`rows` of the main loop).
unfoldable pub open_windows : TermReplies → List TermCall
open_windows r =
    new_window ap_win (pos (r.h / 2)) (int_sub r.w 30) (pos (r.h / 2)) (pos 0)
    ∷ new_window packet_win (pos (r.h / 2)) (int_sub r.w 30) (pos 0) (pos 0)
    ∷ new_window stats_win (int_sub r.h 10) (pos 30) (pos 0) (int_sub r.w 30)
    ∷ new_window usage_win (pos 10) (pos 30) (int_sub r.h 10) (int_sub r.w 30)
    ∷ []

-- `init_pair(i, i, COLOR_BLACK)` for `n` values from `i` on; the conversion to `short` is left out.
unfoldable pub init_pairs : ℕ → ℕ → List TermCall
init_pairs i zero = []
init_pairs i (suc n) = init_pair i ∷ init_pairs (i + 1) n

-- What `init_ui` and `init_ctx` call up to the loop over the colours.
unfoldable pub set_up : TermReplies → List TermCall
set_up r =
    init_screen
    ∷ (open_windows r ++ (no_echo ∷ cbreak_mode ∷ cursor 0 ∷ start_color ∷ no_delay ∷ []))

-- `none` for the early return.
unfoldable pub init_ui : TermReplies → Option Ctx × List TermCall
init_ui r = elim (init_ctx r.allocated) [
  | none ↦ (none, init_screen ∷ [])
  | some ctx ↦ (some ctx, set_up r ++ init_pairs 1 (r.colors - 1))
]

unfoldable pub free_ctx : List TermCall
free_ctx =
    delete_window ap_win
    ∷ delete_window packet_win
    ∷ delete_window stats_win
    ∷ delete_window usage_win
    ∷ end_screen
    ∷ release
    ∷ []

-- What is drawn into one window.
unfoldable pub draws : Window → List Draw → List TermCall
draws win [] = []
draws win (d ∷ ds) = draw win d ∷ draws win ds

-- One window in `draw_ui`: `werase`, what is drawn, `wnoutrefresh`.
unfoldable pub show_window : Window → List Draw → List TermCall
show_window win ds = erase win ∷ (draws win ds ++ (refresh win ∷ []))

-- The windows of `draw_ui` in their order, and `doupdate`.
unfoldable pub show_screen : Screen → List TermCall
show_screen s =
    show_window stats_win s.stats_win
    ++ (show_window packet_win s.packet_win
        ++ (show_window ap_win s.ap_win ++ (show_window usage_win s.usage_win ++ (update ∷ []))))

-- A round shows the screen, and while receiving is paused the text in the corner.
unfoldable pub show_round : Screen → Bool → List TermCall
show_round s paused =
    show_screen s ++ (if paused then print_at 0 0 "PAUSED" ∷ refresh_all ∷ [] else [])
