-- ===== src/Program/Session.antt =====
-- Half a minute of the program in which access points announce themselves (user/src/main.c, `main`).
use wifi_sniffer.Prelude.{ℕ, ◌≡◌, true, List, All, All-at, ok, arith}
use wifi_sniffer.Ctx.{zero_ap, zero_packet, zero_ctx}
use wifi_sniffer.Ctx.Invariant.{zero_ctx-IsValid, All-replicate}
use wifi_sniffer.Handler.Tuned.{IsTuned}
use wifi_sniffer.Socket.{init_netlink_socket}
use wifi_sniffer.MainLoop.{Input}
use wifi_sniffer.MainLoop.Session.{Session, InSession, Listed}
use wifi_sniffer.MainLoop.Session.Rounds.{InRound, iteration-InSession}
use wifi_sniffer.Program.{Start, Calls, Progress, main}
use wifi_sniffer.Program.Total.{While, start-Returns}

zero_ap-IsTuned : (freqs : List ℕ) → IsTuned freqs zero_ap
unfolding zero_ap
zero_ap-IsTuned freqs = record { distinct = tt; within = tt }

zero_packet-Listed : Listed zero_ctx zero_packet
unfolding zero_packet
zero_packet-Listed h = absurd (ground (arith, h))

-- What `calloc` leaves is the start of any session.
zero_ctx-InSession : (e : Session) → InSession e (record { ctx = zero_ctx; cur_col = 0 })
unfolding zero_ctx
zero_ctx-InSession e = record {
  valid = zero_ctx-IsValid;
  tuned = λ j a small at.
      All-at (IsTuned e.freqs) zero_ctx.aps j
        (All-replicate (IsTuned e.freqs) 1028 zero_ap (zero_ap-IsTuned e.freqs)) at;
  recent = λ j a small at. absurd (omega (arith, small));
  known = tt;
  listed = All-replicate (Listed zero_ctx) 20 zero_packet zero_packet-Listed;
  color = e.some_colors;
}

-- Half a minute in which access points announce themselves, whatever the size of the terminal, the
-- keys and the channels are: if the socket was opened, the terminal has the same number of colours
-- throughout, at least one and less than 32768, and the messages of all rounds have a header, a
-- radiotap header and a body and are either frames with a body of at least two bytes that are neither
-- beacons nor probe responses, or beacons from at most 1028 addresses on at most 7 frequencies, whose
-- body is the 12 fixed bytes and whole elements of more than two bytes in all, together less than 256
-- bytes, where no element is an SSID of more than 31 bytes, then the program runs through all its
-- rounds without a fault, or quits. While it is in its loop its context is valid, the registered
-- access points are of those addresses and were heard in that time, and the frequencies that an entry
-- records are distinct ones of those.
pub main-InSession :
    (e : Session) (st : Start) (inps : List Input)
    → (init_netlink_socket st.sock).0 ≡ true
    → All (InRound e) inps
    → (r : Progress × Calls) × (main st inps ≡ ok r) × While (InSession e) r.0
main-InSession e =
    start-Returns (InSession e) (InRound e) (iteration-InSession e) (zero_ctx-InSession e)
