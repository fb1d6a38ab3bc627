-- ===== src/Handler/Invariant.antt =====
-- `frame_handler` and `handle_frame_info` (user/src/main.c) keep the invariant of `struct ctx`.
use wifi_sniffer.Prelude.{
  ℕ, ◌≡◌, Option, List, inl, inr, length, length-set, get_elem?, set, ok, Outcome-cases,
  Option-cases, arith,
}
use wifi_sniffer.Ctx.{PacketInfo, get_ap}
use wifi_sniffer.Ctx.Invariant.{IsValid}
use wifi_sniffer.Ctx.Lookup.{get_ap-none}
use wifi_sniffer.Handler.{
  Env, Sniffer, Attrs, packet_of, find_or_register, note_mgmt, advance, handle_announcement,
  handle_action, dispatch, count_packet, handle_packet, handle_frame_info, frame_handler,
}
use wifi_sniffer.Handler.Entry.{adjust?}
use wifi_sniffer.Handler.Adjust.{adjust?-KeepsAps}
use wifi_sniffer.Handler.Counters.{
  with_aps-IsValid, note_mgmt-Keeps, count_packet-IsValid, count_packet-addresses,
}
use wifi_sniffer.Handler.Registration.{Answers, find_or_register-IsValid}

advance-IsValid : (s : Sniffer) → IsValid s.ctx → IsValid (advance s).ctx
unfolding advance
advance-IsValid s v = ground arith

handle_action-IsValid :
    (s : Sniffer) (p : PacketInfo) (body : List ℕ) {t : Sniffer}
    → IsValid s.ctx
    → handle_action s p body ≡ ok t
    → IsValid t.ctx
unfolding handle_action
handle_action-IsValid s p body {t} v h = elim (Option-cases (get_elem? body 0)) [
  | inl e ↦ absurd (ground arith)
  | inr (a, e) ↦ elim (Option-cases (get_elem? body 1)) [
    | inl e' ↦ absurd (ground arith)
    | inr (b, e') ↦
        let q = record p { action = record { cat = a; code = b } } in
        let s' = record s {
          ctx = record s.ctx { packet_buf = set s.ctx.packet_buf s.ctx.packet_buf_index q };
        } in
        let r : t ≡ advance s' = ground arith in
        rw r (
          advance-IsValid s' (ground (arith, length-set s.ctx.packet_buf s.ctx.packet_buf_index q)))
  ]
]

handle_announcement-IsValid :
    (env : Env) (s : Sniffer) (p : PacketInfo) (body : List ℕ) (body_len : ℕ) (found : Option ℕ)
    {t : Sniffer}
    → IsValid s.ctx
    → Answers s.ctx p.hdr.bssid found
    → handle_announcement env s p body body_len found ≡ ok t
    → IsValid t.ctx
unfolding handle_announcement
handle_announcement-IsValid env s p body body_len found {t} v a h =
    elim (Outcome-cases (find_or_register env s p.hdr.bssid found)) [
      | inr (f, e) ↦ absurd (ground arith)
      | inl ((i, s1), e) ↦
          elim (Outcome-cases (adjust? (note_mgmt env p body body_len) s1.ctx.aps i)) [
            | inr (f, e') ↦ absurd (ground arith)
            | inl (ys, e') ↦
                let s2 = record s1 { ctx = record s1.ctx { aps = ys } } in
                let w =
                  with_aps-IsValid s1.ctx ys
                    (adjust?-KeepsAps _ (note_mgmt-Keeps env p body body_len) s1.ctx.aps i e')
                    (find_or_register-IsValid env s p.hdr.bssid found v a e) in
                ground (arith, w, advance-IsValid s2 w)
          ]
    ]

dispatch-IsValid :
    (env : Env) (s : Sniffer) (p : PacketInfo) (body : List ℕ) (body_len : ℕ) (found : Option ℕ)
    {t : Sniffer}
    → IsValid s.ctx
    → Answers s.ctx p.hdr.bssid found
    → dispatch env s p body body_len found ≡ ok t
    → IsValid t.ctx
unfolding dispatch
dispatch-IsValid env s p body body_len found {t} v a h = ground (
  arith,
  advance-IsValid s v,
  handle_action-IsValid s p body {t = t} v,
  handle_announcement-IsValid env s p body body_len found {t = t} v a,
)

pub handle_packet-IsValid :
    (env : Env) (s : Sniffer) (p : PacketInfo) (body : List ℕ) (body_len : ℕ) {t : Sniffer}
    → IsValid s.ctx
    → handle_packet env s p body body_len ≡ ok t
    → IsValid t.ctx
unfolding handle_packet
handle_packet-IsValid env s p body body_len {t} v h =
    elim (Outcome-cases (count_packet env s.ctx p)) [
      | inr (f, e) ↦ absurd (ground arith)
      | inl (c, e) ↦
          dispatch-IsValid env (record s { ctx = c }) p body body_len (get_ap s.ctx p.hdr.bssid)
            {t = t} (count_packet-IsValid env s.ctx p v e)
            (λ n. rw (count_packet-addresses env s.ctx p e) (get_ap-none s.ctx p.hdr.bssid n))
            (ground arith)
    ]

-- A frame that is handled without a fault leaves a valid context valid: the arrays keep their
-- length, the counts stay within them, every SSID ends in a zero, and no address is registered
-- twice.
pub frame_handler-IsValid :
    (env : Env) (s : Sniffer) (attrs : Attrs) {t : Sniffer}
    → IsValid s.ctx
    → frame_handler env s attrs ≡ ok t
    → IsValid t.ctx
unfolding frame_handler handle_frame_info
frame_handler-IsValid env s attrs {t} v h = elim (Option-cases attrs.header) [
  | inl e ↦ absurd (ground arith)
  | inr (info, e) ↦ elim (Option-cases attrs.radiotap) [
    | inl e' ↦ absurd (ground arith)
    | inr (rt, e') ↦ elim (Option-cases attrs.payload) [
      | inl e'' ↦ absurd (ground arith)
      | inr (body, e'') ↦
          handle_packet-IsValid env s (packet_of info rt) body (length body) {t = t} v
            (ground arith)
    ]
  ]
]
