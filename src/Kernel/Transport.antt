-- ===== src/Kernel/Transport.antt =====
-- From the receive handler of the kernel module (kern/sniffer_netlink.c) to the parser in userspace
-- (user/src/ie_iter.c): what becomes of the body of a frame.
use wifi_sniffer.Prelude.{
  ℕ, ◌%◌, ◌≤◌, ◌≡◌, Bool, true, false, none, some, List, ◌&&◌, if◌then◌else◌, count, length,
  length-take, take, arith,
}
use wifi_sniffer.Ctx.{RadiotapInfo, HdrInfo}
use wifi_sniffer.Handler.{
  Env, Sniffer, Attrs, packet_of, handle_packet, handle_frame_info, frame_handler,
}
use wifi_sniffer.Kernel.Netlink.{
  SendReplies, SkbCall, free_skb, multicast_skb, send_to_userspace, attributes_put,
}

abbrev pub releases : SkbCall → Bool
releases free_skb = true
releases multicast_skb = true
releases _ = false

-- Whatever fails, the message buffer is given up exactly once if it was allocated, and never if
-- it was not; a message goes out exactly when everything was put into it, with the header, the
-- radiotap data and the first `n % 256` bytes of the body.
pub send_to_userspace_lem :
    (r : SendReplies) (info : HdrInfo) (rt : RadiotapInfo) (n : ℕ) (body : List ℕ)
    → let sent = send_to_userspace r info rt n body in
      (count releases sent.calls ≡ (if r.allocated then 1 else 0))
      × (sent.message ≡ (
          if r.allocated && (r.header_put && attributes_put r)
          then some (record {
            header = some info;
            radiotap = some rt;
            payload = some (take (n % 256) body);
          })
          else none))
unfolding send_to_userspace
send_to_userspace_lem r info rt n body = ground arith

-- A message that the kernel sends for a body of `n` bytes is handled in userspace as a frame
-- whose body is the first `n % 256` of them.
pub frame_handler-send :
    (r : SendReplies) (info : HdrInfo) (rt : RadiotapInfo) (n : ℕ) (body : List ℕ) {attrs : Attrs}
    (env : Env) (s : Sniffer)
    → n ≤ length body
    → (send_to_userspace r info rt n body).message ≡ some attrs
    → frame_handler env s attrs
      ≡ handle_packet env s (packet_of info rt) (take (n % 256) body) (n % 256)
unfolding frame_handler handle_frame_info
frame_handler-send r info rt n body {attrs} env s l h =
    let sent : Attrs = record {
      header = some info;
      radiotap = some rt;
      payload = some (take (n % 256) body);
    } in
    let e : attrs ≡ sent = ground (arith, send_to_userspace_lem r info rt n body) in
    let size : length (take (n % 256) body) ≡ n % 256 = omega (arith, length-take (n % 256) body) in
    rw (e, size)
