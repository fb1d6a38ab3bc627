-- ===== src/Program/Machine.antt =====
-- A run of the program (user/src/main.c, `main`) as rounds on the list of access points.
use wifi_sniffer.Prelude.{
  ◌≡◌, ◌≢◌, subst, refl, sym, ap, ◌∙◌, Bool, false, not, ◌==◌, if◌then◌else◌, none, some, List, [],
  ◌∷◌, ◌++◌, ℤ, pos, negsuc, inl, inr, ok, Outcome-cases, Option-cases, Bool-cases, arith,
}
use wifi_sniffer.Channel.{NlCall}
use wifi_sniffer.Ctx.{zero_ctx, init_ctx}
use wifi_sniffer.Ctx.Invariant.{IsValid, zero_ctx-IsValid}
use wifi_sniffer.Handler.Table.{entry}
use wifi_sniffer.Socket.{init_netlink_socket}
use wifi_sniffer.Ui.{Screen}
use wifi_sniffer.Ui.Terminal.{init_ui, show_round}
use wifi_sniffer.MainLoop.{
  Loop, Input, with_ctx, prune, handle_key, receive_and_hop, hop, iteration,
}
use wifi_sniffer.MainLoop.Invariant.{iteration-IsValid}
use wifi_sniffer.MainLoop.Machine.{Listing, listing, ListRound, iteration_refines}
use wifi_sniffer.MainLoop.Progress.{iteration-received}
use wifi_sniffer.Program.{Start, Calls, running, first_loop, start_up, clean_up, run, main}
use wifi_sniffer.Program.Reachable.{main-ValidProgress}
use wifi_sniffer.Program.Cleanup.{main-run, started}

-- The space key stops and resumes the receiving.
abbrev pub toggled : ℤ → Bool → Bool
toggled (negsuc e) paused = paused
toggled (pos c) paused = if c == b' ' then not paused else paused

-- The machine: its state is whether it is paused, and the list of access points.
abbrev pub ListRun : List Input → Bool → Listing → Listing → Type 0
ListRun [] paused v w = w ≡ v
ListRun (inp ∷ inps) paused v w =
    (x : Listing) × ListRound inp (toggled inp.key paused) v x
    × ListRun inps (toggled inp.key paused) x w

pub handle_key-toggled :
    (rows k : ℤ) (l : Loop) {m : Loop}
    → handle_key rows k l ≡ some m
    → m.paused ≡ toggled k l.paused
unfolding handle_key
handle_key-toggled rows (negsuc e) l h = ground arith
handle_key-toggled rows (pos c) l h = ground arith

receive_and_hop-paused :
    (inp : Input) (l : Loop) {r : Loop × List NlCall}
    → receive_and_hop inp l ≡ ok r
    → r.0.paused ≡ l.paused
unfolding receive_and_hop hop
receive_and_hop-paused inp l h = ground arith

pub iteration-quits :
    (inp : Input) (l : Loop) {r : Screen × Loop × List NlCall}
    → handle_key inp.rows inp.key l ≡ none
    → iteration inp l ≢ ok (some r)
unfolding iteration
iteration-quits inp l e h = ground arith

pub iteration-paused :
    (inp : Input) (l : Loop) {m : Loop} {r : Screen × Loop × List NlCall}
    → handle_key inp.rows inp.key l ≡ some m
    → iteration inp l ≡ ok (some r)
    → r.1.paused ≡ toggled inp.key l.paused
iteration-paused inp l {m} k h =
    let (x, got, same) = iteration-received inp l k h in
    ap (λ y. y.paused) same
    ∙ receive_and_hop-paused inp (with_ctx m (prune inp.env.now m.sniffer.ctx)) got
    ∙ handle_key-toggled inp.rows inp.key l k

pub run-ListRun :
    (inps : List Input) (l : Loop) (cs : Calls) {k : Loop} {cs' : Calls}
    → IsValid l.sniffer.ctx
    → run inps l cs ≡ ok (running k, cs')
    → ListRun inps l.paused (listing l.sniffer) (listing k.sniffer)
unfolding run clean_up
run-ListRun [] l cs {k} v h = let same : k ≡ l = ground arith in ap (λ x. listing x.sniffer) same
run-ListRun (inp ∷ inps) l cs {k} {cs'} v h = elim (Outcome-cases (iteration inp l)) [
  | inr (f, e) ↦ absurd (ground arith)
  | inl (none, e) ↦ absurd (ground arith)
  | inl (some (screen, l', card), e) ↦ elim (Option-cases (handle_key inp.rows inp.key l)) [
    | inl q ↦ absurd (iteration-quits inp l q e)
    | inr (m, q) ↦
        let next = record cs {
          term = cs.term ++ show_round screen l'.paused;
          card = cs.card ++ card;
        } in
        let toggle = handle_key-toggled inp.rows inp.key l q in
        let rest =
          run-ListRun inps l' next {k = k} {cs' = cs'} (iteration-IsValid inp l v e)
            (ground arith) in
        let round = iteration_refines inp l m v q e in
        (
          listing l'.sniffer,
          subst (λ b. ListRound inp b (listing l.sniffer) (listing l'.sniffer)) toggle round,
          subst (λ b. ListRun inps b (listing l'.sniffer) (listing k.sniffer))
              (iteration-paused inp l q e) rest,
        )
  ]
]

-- No access point.
abbrev pub empty_listing : Listing
empty_listing = record { table = λ m. none; addresses = []; scroll = 0; col = 0 }

listing-first_loop : (socket : Bool) → listing (first_loop zero_ctx socket).sniffer ≡ empty_listing
unfolding zero_ctx entry
listing-first_loop socket = refl

-- The program implements the machine: whatever the libraries return and whichever keys and messages
-- arrive, while it is in its loop and no fault has occurred its context is valid, and its list of access
-- points is what the rounds of the machine make of the empty list: the entry under each address, the
-- order of the addresses, the scroll position and the colour of the next access point. In a round, the
-- key moves the scroll position, or opens or closes the details of the access point there (`l`, `h`) or
-- of all (`L`, `H`); then an entry leaves if and only if it was silent for more than 30 seconds, the
-- others keep their order, and the scroll position follows; and then, unless the space key has paused
-- the program, each message changes the entries as `handle_packet_refines` says, and a new access point
-- comes last and takes the next colour. What the machine does not fix are the fields of a new entry that
-- the code does not write.
pub main_refines :
    (st : Start) (inps : List Input) {l : Loop} {cs : Calls}
    → main st inps ≡ ok (running l, cs)
    → IsValid l.sniffer.ctx × ListRun inps false empty_listing (listing l.sniffer)
unfolding main start_up init_ui init_ctx
main_refines st inps {l} {cs} h = elim (Bool-cases st.term.allocated) [
  | inr e ↦ absurd (ground arith)
  | inl e ↦
      let started_loop = first_loop zero_ctx (init_netlink_socket st.sock).0 in
      let rounds =
        run-ListRun inps started_loop (started st) {k = l} {cs' = cs} zero_ctx-IsValid
          (sym (main-run st inps e) ∙ h) in
      (
        main-ValidProgress st inps {r = (running l, cs)} h,
        subst (λ v. ListRun inps false v (listing l.sniffer))
            (listing-first_loop (init_netlink_socket st.sock).0) rounds,
      )
]
