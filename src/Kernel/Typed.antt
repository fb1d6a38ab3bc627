-- ===== src/Kernel/Typed.antt =====
-- The messages that the receive handler sends (kern/sniffer_main.c, kern/sniffer_netlink.c): they fit
-- the C types of their structs, and userspace reads from their bytes what was sent.
use wifi_sniffer.Prelude.{
  ℕ, ◌+◌, ◌-◌, ◌%◌, ◌≡◌, ◌<◌, ◌∙◌, sym, ap, Option, none, some, List, length, length-take, take,
  drop, ltb, ok, Ensures, >>=-Ensures, Ensures-at, if-Ensures, arith,
}
use wifi_sniffer.FrameTypes.{FrameDirection}
use wifi_sniffer.Ctx.{RadiotapInfo, HdrInfo}
use wifi_sniffer.Handler.{Attrs}
use wifi_sniffer.Kernel.{
  Ieee80211, read_le16, get_radiotap_info, parse_fromtods, parse_fc, strip_fcs, sniffer_rx_handler,
}
use wifi_sniffer.Kernel.Netlink.{SendReplies, Sent, send_to_userspace}
use wifi_sniffer.Kernel.Transport.{send_to_userspace_lem}
use wifi_sniffer.Kernel.Wire.{put_attributes, read_message}
use wifi_sniffer.Kernel.Wire.Roundtrip.{FitsRadiotap, FitsHdr, Link, read_message-put_attributes}
use wifi_sniffer.Kernel.Fits.{
  AreBytes, PointsInside, AreBytes-take, AreBytes-drop, get_radiotap_info-Ensures, parse_fc-FitsHdr,
  FitsResult, parse_fromtods-Ensures,
}

-- A whole message whose fields fit their C types, with less than 256 bytes of body.
pub record IsTyped (a : Attrs) : Type 0 where
  pub info : HdrInfo
  pub rt : RadiotapInfo
  pub body : List ℕ
  pub whole : a ≡ record { header = some info; radiotap = some rt; payload = some body }
  pub header : FitsHdr info
  pub radiotap : FitsRadiotap rt
  pub short : length body < 256
  pub bytes : AreBytes body

-- What was multicast, if anything, is typed.
abbrev SentTyped : Option Sent → Type 0
SentTyped none = Unit
SentTyped (some sent) = (a : Attrs) → sent.message ≡ some a → IsTyped a

send_to_userspace-IsTyped :
    (r : SendReplies) (info : HdrInfo) (rt : RadiotapInfo) (n : ℕ) (body : List ℕ)
    → FitsHdr info
    → FitsRadiotap rt
    → AreBytes body
    → SentTyped (some (send_to_userspace r info rt n body))
send_to_userspace-IsTyped r info rt n body f g b a h = record {
  info = info;
  rt = rt;
  body = take (n % 256) body;
  whole = ground (arith, send_to_userspace_lem r info rt n body);
  header = f;
  radiotap = g;
  short = omega (arith, length-take (n % 256) body);
  bytes = AreBytes-take (n % 256) body b;
}

redirected-FitsHdr :
    (info : HdrInfo) (dir : FrameDirection) → FitsHdr info → FitsHdr (record info { frame_d = dir })
redirected-FitsHdr info dir f = record {
  src_mac = f.src_mac;
  dst_mac = f.dst_mac;
  bssid = f.bssid;
  frame_t = f.frame_t;
  frame_st = f.frame_st;
  retry = f.retry;
  len = f.len;
  tods = f.tods;
  fromds = f.fromds;
}

handler-Ensures :
    (k : Ieee80211) (r : SendReplies) (stack : HdrInfo) (skb : List ℕ)
    → PointsInside k
    → FitsHdr stack
    → AreBytes skb
    → Ensures SentTyped (sniffer_rx_handler k r stack skb)
unfolding sniffer_rx_handler
handler-Ensures k r stack skb p f b = >>=-Ensures SentTyped (read_le16 skb k.it_len) _ λ rt_len e.
    if-Ensures SentTyped (ltb (length skb) rt_len) _ _ (λ s. tt)
      λ s. >>=-Ensures SentTyped (get_radiotap_info k (take rt_len skb)) _ λ rt e'.
        let hdr = drop rt_len skb in
        >>=-Ensures SentTyped (read_le16 hdr k.frame_control) _ λ fc e''.
          if-Ensures SentTyped (ltb (length skb) (rt_len + k.hdrlen fc)) _ _ (λ s. tt)
            λ s'.
              let draft = parse_fc k fc stack in
              >>=-Ensures SentTyped (parse_fromtods k hdr draft.tods draft.fromds draft) _ λ x q.
                let g = Ensures-at FitsResult q (
                  parse_fromtods-Ensures k hdr draft.tods draft.fromds draft
                    (parse_fc-FitsHdr k fc stack f)) in
                let t =
                  Ensures-at FitsRadiotap e' (
                    get_radiotap_info-Ensures k (take rt_len skb) p (AreBytes-take rt_len skb b)) in
                send_to_userspace-IsTyped r (record x.1 { frame_d = x.0 }) rt
                  (strip_fcs (length skb - rt_len - k.hdrlen fc)) (drop (k.hdrlen fc) hdr)
                  (redirected-FitsHdr x.1 x.0 g) t
                  (AreBytes-drop (k.hdrlen fc) hdr (AreBytes-drop rt_len skb b))

-- Whatever frame arrives, and whatever the kernel's headers say: in a message that the receive handler
-- sends, the addresses have 6 bytes, all numbers fit the C types of their fields, and the body is of
-- less than 256 bytes; if the frame consists of bytes, the radiotap iterator points into the header it
-- is given, and the uninitialised struct fits its type.
pub sniffer_rx_handler-IsTyped :
    (k : Ieee80211) (r : SendReplies) (stack : HdrInfo) (skb : List ℕ) {sent : Sent} {a : Attrs}
    → PointsInside k
    → FitsHdr stack
    → AreBytes skb
    → sniffer_rx_handler k r stack skb ≡ ok (some sent)
    → sent.message ≡ some a
    → IsTyped a
sniffer_rx_handler-IsTyped k r stack skb {a} p f b h =
    Ensures-at SentTyped h (handler-Ensures k r stack skb p f b) a

-- The bytes of a message, from which userspace reads `a`.
pub record Readable (link : Link) (a : Attrs) : Type 0 where
  pub info : HdrInfo
  pub rt : RadiotapInfo
  pub body : List ℕ
  pub whole : a ≡ record { header = some info; radiotap = some rt; payload = some body }
  pub read : read_message link.abi link.parse (put_attributes link.pad info rt body) ≡ ok a

-- Userspace reads from the bytes of each message that the receive handler sends the header, the radiotap
-- data and the body that were put into it, whatever stood in the gaps of the structs; if both sides were
-- compiled with the same layout, the frame consists of bytes, the radiotap iterator points into the
-- header it is given, and the uninitialised struct fits its type.
pub sniffer_rx_handler-Readable :
    (link : Link) (k : Ieee80211) (r : SendReplies) (stack : HdrInfo) (skb : List ℕ) {sent : Sent}
    {a : Attrs}
    → PointsInside k
    → FitsHdr stack
    → AreBytes skb
    → sniffer_rx_handler k r stack skb ≡ ok (some sent)
    → sent.message ≡ some a
    → Readable link a
sniffer_rx_handler-Readable link k r stack skb {sent} {a} p f b h m =
    let t = sniffer_rx_handler-IsTyped k r stack skb {sent = sent} {a = a} p f b h m in
    record {
      info = t.info;
      rt = t.rt;
      body = t.body;
      whole = t.whole;
      read =
          read_message-put_attributes link.abi link.pad link.parse t.info t.rt t.body link.padding
            link.parser t.header t.radiotap
          ∙ ap ok (sym t.whole);
    }
