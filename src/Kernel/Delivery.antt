-- ===== src/Kernel/Delivery.antt =====
-- A beacon from the air to the list of access points: through the receive handler of the kernel module
-- (kern/sniffer_main.c, kern/sniffer_netlink.c) and the handler in userspace (user/src/main.c).
use wifi_sniffer.Prelude.{
  ℕ, ◌/◌, ◌%◌, ◌^◌, ◌<◌, ◌≡◌, refl, ap, ◌∙◌, Bool, true, ◌&&◌, List, ◌++◌, length, length-append,
  take, take-append, some, ok, arith,
}
use wifi_sniffer.Ctx.{RadiotapInfo, HdrInfo}
use wifi_sniffer.Ctx.Invariant.{IsValid}
use wifi_sniffer.Ies.Elements.{Ie, encode_ies}
use wifi_sniffer.Handler.{Env, Sniffer, Attrs, packet_of, handle_packet, frame_handler}
use wifi_sniffer.Handler.Room.{WellFormed}
use wifi_sniffer.Handler.Announced.{HasPlace, handle_packet_announced}
use wifi_sniffer.Handler.Beacon.{Known, handle_packet_beacon}
use wifi_sniffer.Handler.Invariant.{frame_handler-IsValid}
use wifi_sniffer.Kernel.{Ieee80211, get_radiotap_info, sniffer_rx_handler}
use wifi_sniffer.Kernel.Standard.{IsStandard}
use wifi_sniffer.Kernel.Netlink.{SendReplies, Sent, attributes_put, send_to_userspace}
use wifi_sniffer.Kernel.Transport.{frame_handler-send, send_to_userspace_lem}
use wifi_sniffer.Kernel.Wire.{put_attributes, read_message}
use wifi_sniffer.Kernel.Wire.Roundtrip.{FitsHdr, FitsRadiotap, Link, read_message-put_attributes}
use wifi_sniffer.Kernel.Frames.{
  AirFrame, rt_bytes, air_bytes, IsDirect, direct_info, sniffer_rx_handler_direct,
}

-- Nothing fails on the way out of the kernel.
abbrev pub sends : SendReplies → Bool
sends r = r.allocated && (r.header_put && attributes_put r)

direct_info-FitsHdr :
    (f : AirFrame) (stack : HdrInfo)
    → IsDirect f
    → stack.len < 2 ^ 16
    → FitsHdr (direct_info f stack)
direct_info-FitsHdr f stack d l = record {
  src_mac = d.addr2_size;
  dst_mac = d.addr1_size;
  bssid = d.addr3_size;
  frame_t = omega arith;
  frame_st = omega arith;
  retry = omega arith;
  len = l;
  tods = omega arith;
  fromds = omega arith;
}

-- What has become of a frame in the kernel, in the bytes of a message, and in userspace.
pub record Delivered (link : Link) (k : Ieee80211) (r : SendReplies) (stack : HdrInfo)
    (skb : List ℕ) (env : Env) (s : Sniffer) (rt : RadiotapInfo) (bssid : List ℕ) : Type 0 where
  pub sent : Sent
  pub info : HdrInfo
  pub body : List ℕ
  pub attrs : Attrs
  pub next : Sniffer
  pub kernel : sniffer_rx_handler k r stack skb ≡ ok (some sent)
  pub message :
      sent.message ≡ some (record { header = some info; radiotap = some rt; payload = some body })
  pub wire : read_message link.abi link.parse (put_attributes link.pad info rt body) ≡ ok attrs
  pub handled : frame_handler env s attrs ≡ ok next
  pub valid : IsValid next.ctx
  pub known : Known env rt next.ctx bssid

body_sent : (body fcs : List ℕ) → length body < 256 → take (length body % 256) (body ++ fcs) ≡ body
body_sent body fcs h =
    let e : length body % 256 ≡ length body = omega arith in rw e (take-append body fcs)

-- A beacon that the card receives makes its sender known in userspace: the kernel sends a message
-- for it, userspace reads from the bytes of the message what the kernel put there, no fault occurs
-- on the way or in the handler of the message, the context stays valid, and the sender is
-- registered, with the present time and the frequency of the radiotap header. This needs a frame
-- that ends in a frame check sequence of 4 bytes, has a header of 24 bytes and neither To DS nor From
-- DS, and a body of 12 fixed bytes and whole elements of more than two bytes in all, together less
-- than 256 bytes, where no element is an SSID of more than 31 bytes; the offsets, masks and values of
-- IEEE 802.11 in the kernel's headers; radiotap fields that can be read, and like the length on the
-- stack, the length of the radiotap header and the frame control field fit their C types; no failure
-- on the way out of the kernel; the same layout of structs on both sides; and a valid context with a
-- place for the access point if it is new, room for the frequency in every entry of the array, a next
-- colour below 32767, and at least one colour.
pub beacon-Delivered :
    (link : Link) (k : Ieee80211) (r : SendReplies) (stack : HdrInfo) (f : AirFrame)
    (rt : RadiotapInfo) (env : Env) (s : Sniffer) (fixed : List ℕ) (es : List Ie)
    → IsStandard k
    → IsDirect f
    → k.hdrlen f.fc ≡ 24
    → stack.len < 2 ^ 16
    → get_radiotap_info k (rt_bytes f) ≡ ok rt
    → FitsRadiotap rt
    → f.fc / 4 % 4 ≡ 0
    → f.fc / 16 % 16 ≡ 8
    → f.body ≡ fixed ++ encode_ies es
    → WellFormed 8 fixed es
    → sends r ≡ true
    → IsValid s.ctx
    → HasPlace env (packet_of (direct_info f stack) rt) s
    → Delivered link k r stack (air_bytes f) env s rt f.addr3
beacon-Delivered link k r stack f rt env s fixed es std d l len g rt_fits t st b w ok_sent v place =
    let info = direct_info f stack in
    let payload = take (length f.body % 256) (f.body ++ f.fcs) in
    let attrs : Attrs = record { header = some info; radiotap = some rt; payload = some payload } in
    let sent = send_to_userspace r info rt (length f.body) (f.body ++ f.fcs) in
    let m : sent.message ≡ some attrs =
      ground (arith, send_to_userspace_lem r info rt (length f.body) (f.body ++ f.fcs)) in
    let short : length f.body < 256 = omega (arith, w.short, ap length b) in
    let packet = packet_of info rt in
    let (next, h) =
      handle_packet_announced env s packet fixed es v place t (rw st refl) (rw st w) in
    let size : length f.body % 256 ≡ length f.body = omega arith in
    let same : frame_handler env s attrs ≡ handle_packet env s packet f.body (length f.body) =
      frame_handler-send r info rt (length f.body) (f.body ++ f.fcs) {attrs = attrs} env s
        (omega (arith, length-append f.body f.fcs)) m
      ∙ rw (body_sent f.body f.fcs short, size) in
    let handled : frame_handler env s attrs ≡ ok next = same ∙ rw b h in
    record {
      sent = sent;
      info = info;
      body = payload;
      attrs = attrs;
      next = next;
      kernel = sniffer_rx_handler_direct k r stack f rt std d l g;
      message = m;
      wire =
          read_message-put_attributes link.abi link.pad link.parse info rt payload link.padding
            link.parser (direct_info-FitsHdr f stack d len) rt_fits;
      handled = handled;
      valid = frame_handler-IsValid env s attrs {t = next} v handled;
      known =
          handle_packet_beacon env s packet (fixed ++ encode_ies es)
            (length (fixed ++ encode_ies es)) {t = next} t st h;
    }
