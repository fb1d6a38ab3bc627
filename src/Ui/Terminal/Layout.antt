-- ===== src/Ui/Terminal/Layout.antt =====
-- The places of the four windows on the terminal (user/src/ctx.c, `init_ctx`).
use wifi_sniffer.Prelude.{
  ℕ, ◌+◌, ◌-◌, ◌*◌, ◌/◌, ◌≤◌, ◌<◌, ◌≡◌, Bool, false, not, ◌&&◌, if◌then◌else◌, ltb, leb, pos,
  int_sub, count, arith,
}
use wifi_sniffer.Ui.Terminal.{TermReplies, TermCall, new_window, open_windows}

-- Whether a new window lies on the cell in row `y` and column `x`.
unfoldable pub covers : ℕ → ℕ → TermCall → Bool
covers y x (new_window w (pos lines) (pos columns) (pos top) (pos left)) =
    leb top y && ltb y (top + lines) && leb left x && ltb x (left + columns)
covers y x _ = false

int_sub-pos : (a b : ℕ) → b ≤ a → int_sub a b ≡ pos (a - b)
int_sub-pos a b h = ground arith

-- On a terminal of more than 10 rows and 30 columns no two windows overlap and none leaves the
-- terminal: a cell of it lies in exactly one window, except that under an odd number of rows the last
-- row is empty beside the right column of windows.
pub open_windows_lem :
    (r : TermReplies) (y x : ℕ)
    → 10 < r.h
    → 30 < r.w
    → count (covers y x) (open_windows r)
      ≡ (if ltb y r.h && ltb x r.w && not (leb (r.h / 2 * 2) y && ltb x (r.w - 30)) then 1 else 0)
unfolding open_windows covers
open_windows_lem r y x h w =
    let right = int_sub-pos r.w 30 (omega arith) in
    let lower = int_sub-pos r.h 10 (omega arith) in rw (right, lower) (ground arith)
