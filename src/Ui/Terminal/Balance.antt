-- ===== src/Ui/Terminal/Balance.antt =====
-- The windows that the calls of user/src/ui.c and user/src/ctx.c open, show and close.
use wifi_sniffer.Prelude.{
  ℕ, zero, suc, ◌+◌, ◌≡◌, refl, Bool, true, false, List, [], ◌∷◌, ◌++◌, count, count-append,
}
use wifi_sniffer.Ui.{Screen}
use wifi_sniffer.Ui.Calls.{Draw}
use wifi_sniffer.Ui.Terminal.{
  Window, ap_win, packet_win, stats_win, usage_win, TermCall, init_screen, end_screen, new_window,
  delete_window, refresh, release, init_pairs, draws, show_window, show_screen, show_round,
}

abbrev pub same_window : Window → Window → Bool
same_window ap_win ap_win = true
same_window packet_win packet_win = true
same_window stats_win stats_win = true
same_window usage_win usage_win = true
same_window _ _ = false

-- What a call does to the resources of the terminal.
pub data Role : Type 0 where
  starts ends releases other : Role
  opens deletes : Window → Role

abbrev pub role : TermCall → Role
role init_screen = starts
role end_screen = ends
role release = releases
role (new_window w lines columns y x) = opens w
role (delete_window w) = deletes w
role _ = other

abbrev pub same_role : Role → Role → Bool
same_role starts starts = true
same_role ends ends = true
same_role releases releases = true
same_role other other = true
same_role (opens v) (opens w) = same_window v w
same_role (deletes v) (deletes w) = same_window v w
same_role _ _ = false

-- The number of calls with a role.
abbrev pub calls_of : Role → List TermCall → ℕ
calls_of k = count (λ c. same_role k (role c))

pub calls_of-append :
    (k : Role) (xs ys : List TermCall) → calls_of k (xs ++ ys) ≡ calls_of k xs + calls_of k ys
calls_of-append k = count-append (λ c. same_role k (role c))

-- Drawing opens and closes nothing, and neither does the loop over the colours.
module _ (k : Role) (q : same_role k other ≡ false) where
  calls_of-draws : (w : Window) (ds : List Draw) → calls_of k (draws w ds) ≡ 0
  unfolding draws
  calls_of-draws w [] = refl
  calls_of-draws w (d ∷ ds) = rw q (calls_of-draws w ds)

  calls_of-show_window : (w : Window) (ds : List Draw) → calls_of k (show_window w ds) ≡ 0
  unfolding show_window
  calls_of-show_window w ds =
      rw (q, calls_of-append k (draws w ds) (refresh w ∷ []), calls_of-draws w ds, q)

  calls_of-show_screen : (s : Screen) → calls_of k (show_screen s) ≡ 0
  unfolding show_screen
  calls_of-show_screen s = rw (
    calls_of-append k (show_window stats_win s.stats_win) _,
    calls_of-append k (show_window packet_win s.packet_win) _,
    calls_of-append k (show_window ap_win s.ap_win) _,
    calls_of-append k (show_window usage_win s.usage_win) _,
    calls_of-show_window stats_win s.stats_win,
    calls_of-show_window packet_win s.packet_win,
    calls_of-show_window ap_win s.ap_win,
    calls_of-show_window usage_win s.usage_win,
    q,
  )

  pub calls_of-show_round : (s : Screen) (paused : Bool) → calls_of k (show_round s paused) ≡ 0
  unfolding show_round
  calls_of-show_round s true = rw (calls_of-append k (show_screen s) _, calls_of-show_screen s, q)
  calls_of-show_round s false = rw (calls_of-append k (show_screen s) [], calls_of-show_screen s)

  pub calls_of-init_pairs : (i n : ℕ) → calls_of k (init_pairs i n) ≡ 0
  unfolding init_pairs
  calls_of-init_pairs i zero = refl
  calls_of-init_pairs i (suc n) = rw q (calls_of-init_pairs (i + 1) n)
