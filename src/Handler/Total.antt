-- ===== src/Handler/Total.antt =====
-- Frames that the handler of user/src/main.c takes without a fault.
use wifi_sniffer.Prelude.{
  ℕ, ◌≤◌, ◌≡◌, true, false, ◌&&◌, ◌||◌, ◌==◌, ltb, List, length, get_elem?-lt, inl, inr, Bool-cases,
  Returns, ok-Returns, >>=-Returns, arith,
}
use wifi_sniffer.Ctx.{Ctx, PacketInfo}
use wifi_sniffer.Ctx.Invariant.{IsValid}
use wifi_sniffer.Handler.{Env, Sniffer, count_packet, handle_action, dispatch, handle_packet}

pub count_packet-Returns :
    (env : Env) (c : Ctx) (p : PacketInfo) → IsValid c → Returns (count_packet env c p)
unfolding count_packet
count_packet-Returns env c p v =
    let room : ltb c.packet_buf_index (length c.packet_buf) ≡ true =
      ground (arith, v.packets_room, v.packet_next) in
    rw room (ok-Returns _)

handle_action-Returns :
    (s : Sniffer) (p : PacketInfo) (body : List ℕ)
    → 2 ≤ length body
    → Returns (handle_action s p body)
unfolding handle_action
handle_action-Returns s p body h =
    let (cat, e) = get_elem?-lt body 0 (omega arith) in
    let (code, e') = get_elem?-lt body 1 (omega arith) in rw (e, e') (ok-Returns _)

-- In a valid context, every frame but a beacon or a probe response is handled without a fault, if
-- its body has the two bytes that an action frame is read for.
pub handle_packet-Returns :
    (env : Env) (s : Sniffer) (p : PacketInfo) (body : List ℕ) (n : ℕ)
    → IsValid s.ctx
    → (p.hdr.frame_t == 0 && (p.hdr.frame_st == 8 || p.hdr.frame_st == 5)) ≡ false
    → 2 ≤ length body
    → Returns (handle_packet env s p body n)
unfolding handle_packet dispatch
handle_packet-Returns env s p body n v q h =
    >>=-Returns (count_packet env s.ctx p) _ (count_packet-Returns env s.ctx p v) λ c e.
      elim (Bool-cases (p.hdr.frame_t == 0)) [
        | inr t ↦ rw t (ok-Returns _)
        | inl t ↦
            let other : (p.hdr.frame_st == 8 || p.hdr.frame_st == 5) ≡ false = ground arith in
            elim (Bool-cases (p.hdr.frame_st == 13 || p.hdr.frame_st == 14)) [
              | inl a ↦ rw (t, other, a) (handle_action-Returns (record s { ctx = c }) p body h)
              | inr a ↦ elim (Bool-cases (p.hdr.frame_st == 4)) [
                | inl r ↦ rw (t, other, a, r) (ok-Returns _)
                | inr r ↦ rw (t, other, a, r) (ok-Returns _)
              ]
            ]
      ]
