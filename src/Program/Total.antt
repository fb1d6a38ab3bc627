-- ===== src/Program/Total.antt =====
-- Runs of the program without a fault (user/src/main.c, `main`).
use wifi_sniffer.Prelude.{
  List, [], ◌∷◌, ◌++◌, ◌≡◌, Bool, true, false, none, inl, inr, All, ok, some, Option-cases,
  Bool-cases, refl, minus_one, ◌∙◌,
}
use wifi_sniffer.Ctx.{zero_ctx, init_ctx}
use wifi_sniffer.Ctx.Invariant.{IsValid, zero_ctx-IsValid}
use wifi_sniffer.Channel.{NlCall}
use wifi_sniffer.Handler.{Sniffer}
use wifi_sniffer.Ui.{Screen}
use wifi_sniffer.Socket.{init_netlink_socket}
use wifi_sniffer.Ui.Terminal.{init_ui, show_round}
use wifi_sniffer.MainLoop.{Loop, Input, handle_key, iteration}
use wifi_sniffer.MainLoop.Invariant.{iteration-IsValid}
use wifi_sniffer.MainLoop.Progress.{IsPlain, iteration-Returns}
use wifi_sniffer.MainLoop.Quiet.{NoBeacon, NoBeacon-NoOrphan, zero_ctx-NoBeacon, iteration-NoBeacon}
use wifi_sniffer.Program.{
  Start, Calls, Progress, running, returned, first_loop, start_up, clean_up, run, main,
}
use wifi_sniffer.Program.Cleanup.{iteration-socket, main-run, started}
use wifi_sniffer.Program.Reachable.{ValidProgress, main-ValidProgress}

-- All messages of a round are plain ones.
abbrev pub IsPlainInput : Input → Type 0
IsPlainInput inp = All IsPlain inp.messages

iteration-quit :
    (inp : Input) (l : Loop) → handle_key inp.rows inp.key l ≡ none → iteration inp l ≡ ok none
unfolding iteration
iteration-quit inp l e = rw (e, iteration)

unallocated-Returns :
    (st : Start) (inps : List Input)
    → st.term.allocated ≡ false
    → (cs : Calls) × (main st inps ≡ ok (returned minus_one, cs))
unfolding main start_up init_ui init_ctx
unallocated-Returns st inps e =
    (record { term = (init_ui st.term).1; sock = []; card = [] }, rw e refl)

-- Where the program still runs, its state has `Inv`.
abbrev pub While : (Sniffer → Type 0) → Progress → Type 0
While Inv (running l) = Inv l.sniffer
While Inv (returned status) = Unit

clean_up-While :
    (Inv : Sniffer → Type 0) (socket : Bool) (cs : Calls)
    → socket ≡ true
    → (r : Progress × Calls) × (clean_up socket cs ≡ ok r) × While Inv r.0
unfolding clean_up
clean_up-While Inv true cs k = (_, refl, tt)
clean_up-While Inv false cs k = cc

module _ (Inv : Sniffer → Type 0) (Ok : Input → Type 0)
    (round : (inp : Input) (l m : Loop)
      → Inv l.sniffer
      → l.socket ≡ true
      → Ok inp
      → handle_key inp.rows inp.key l ≡ some m
      → (r : Screen × Loop × List NlCall) × (iteration inp l ≡ ok (some r)) × Inv r.1.sniffer) where
  run-Returns :
      (inps : List Input) (l : Loop) (cs : Calls)
      → Inv l.sniffer
      → l.socket ≡ true
      → All Ok inps
      → (r : Progress × Calls) × (run inps l cs ≡ ok r) × While Inv r.0
  unfolding run
  run-Returns [] l cs v k p = (_, refl, v)
  run-Returns (inp ∷ inps) l cs v k p = elim (Option-cases (handle_key inp.rows inp.key l)) [
    | inl e ↦
        let (r, q, w) = clean_up-While Inv l.socket cs k in (r, rw (iteration-quit inp l e) q, w)
    | inr (m, e) ↦
        let ((screen, l', card), h, v') = round inp l m v k p.0 e in
        let cs' = record cs {
          term = cs.term ++ show_round screen l'.paused;
          card = cs.card ++ card;
        } in
        let (r, q, w) = run-Returns inps l' cs' v' (iteration-socket inp l h ∙ k) p.1 in
        (r, rw h q, w)
  ]

  -- If every round runs to its end and keeps `Inv`, and `calloc`'s context has it, then the program
  -- runs through all its rounds without a fault and keeps it, or quits.
  pub start-Returns :
      Inv (record { ctx = zero_ctx; cur_col = 0 })
      → (st : Start) (inps : List Input) → (init_netlink_socket st.sock).0 ≡ true
      → All Ok inps
      → (r : Progress × Calls) × (main st inps ≡ ok r) × While Inv r.0
  start-Returns v st inps k p = elim (Bool-cases st.term.allocated) [
    | inr e ↦ let (cs, q) = unallocated-Returns st inps e in ((returned minus_one, cs), q, tt)
    | inl e ↦
        let (r, q, w) =
          run-Returns inps (first_loop zero_ctx (init_netlink_socket st.sock).0) (started st) v k
            p in
        (r, main-run st inps e ∙ q, w)
  ]

abbrev IsQuiet : Sniffer → Type 0
IsQuiet s = IsValid s.ctx × NoBeacon s.ctx

iteration-IsQuiet :
    (inp : Input) (l m : Loop)
    → IsQuiet l.sniffer
    → l.socket ≡ true
    → IsPlainInput inp
    → handle_key inp.rows inp.key l ≡ some m
    → (r : Screen × Loop × List NlCall) × (iteration inp l ≡ ok (some r)) × IsQuiet r.1.sniffer
iteration-IsQuiet inp l m (v, b) k p e =
    let (r, h) = iteration-Returns inp l v (NoBeacon-NoOrphan l.sniffer.ctx b) k p e in
    (r, h, (iteration-IsValid inp l v h, iteration-NoBeacon inp l p b e h))

-- Whatever the terminal, the keys, the times and the channels are: if the socket was opened, and every
-- message of every round has a header, a radiotap header and a body of at least two bytes and is neither
-- a beacon nor a probe response, so that no access point ever announces itself, then the program runs
-- through all its rounds without a fault, or quits, and its context is valid while it is in its loop.
pub main-Returns :
    (st : Start) (inps : List Input)
    → (init_netlink_socket st.sock).0 ≡ true
    → All IsPlainInput inps
    → (r : Progress × Calls) × (main st inps ≡ ok r) × ValidProgress r.0
main-Returns st inps k p =
    let (r, h, w) =
      start-Returns IsQuiet IsPlainInput iteration-IsQuiet (zero_ctx-IsValid, zero_ctx-NoBeacon) st
        inps k p in
    (r, h, main-ValidProgress st inps {r = r} h)
