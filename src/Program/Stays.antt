-- ===== src/Program/Stays.antt =====
-- How long an access point stays known to the program (user/src/main.c, `main`).
use wifi_sniffer.Prelude.{ℕ, ◌≤◌, ◌≡◌, sym, subst, Bool, some, List, [], ◌∷◌, All, ok}
use wifi_sniffer.Ctx.{Ap}
use wifi_sniffer.Ctx.Invariant.{IsValid}
use wifi_sniffer.Handler.Table.{lookup}
use wifi_sniffer.MainLoop.{Loop, Input}
use wifi_sniffer.MainLoop.Machine.Stays.{HeardSince, Within, ListRound-HeardSince}
use wifi_sniffer.MainLoop.Machine.{Listing, listing}
use wifi_sniffer.Program.{Calls, running, run}
use wifi_sniffer.Program.Machine.{toggled, ListRun, run-ListRun}

ListRun-HeardSince :
    (inps : List Input) (paused : Bool) (v w : Listing) (m : List ℕ) (t0 : ℕ)
    → All (Within t0) inps
    → ListRun inps paused v w
    → HeardSince t0 (v.table m)
    → HeardSince t0 (w.table m)
ListRun-HeardSince [] paused v w m t0 i r h = subst (λ x. HeardSince t0 (x.table m)) (sym r) h
ListRun-HeardSince (inp ∷ inps) paused v w m t0 i (x, first, rest) h =
    let p = toggled inp.key paused in
    ListRun-HeardSince inps p x w m t0 i.1 rest (ListRound-HeardSince inp p v x m t0 i.0 first h)

-- In a valid context, an access point that was heard of at second `t0` or later stays known through all
-- rounds from `t0` to 30 seconds after it, whatever is received and pressed: if the program is then in
-- its loop, and no fault has occurred, there is an entry with its address, and its time is `t0` or later.
pub known_ap_stays :
    (inps : List Input) (l k : Loop) (cs : Calls) (mac : List ℕ) (t0 : ℕ) {a : Ap} {cs' : Calls}
    → IsValid l.sniffer.ctx
    → lookup l.sniffer.ctx mac ≡ some a
    → t0 ≤ a.last_seen
    → All (Within t0) inps
    → run inps l cs ≡ ok (running k, cs')
    → (b : Ap) × (lookup k.sniffer.ctx mac ≡ some b) × (t0 ≤ b.last_seen)
known_ap_stays inps l k cs mac t0 {a} {cs'} v e late w h =
    ListRun-HeardSince inps l.paused (listing l.sniffer) (listing k.sniffer) mac t0 w
      (run-ListRun inps l cs {k = k} {cs' = cs'} v h) (a, e, late)
