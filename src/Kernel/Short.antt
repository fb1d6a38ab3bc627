-- ===== src/Kernel/Short.antt =====
-- Frames whose header is shorter than three addresses in the receive handler (kern/sniffer_main.c).
use wifi_sniffer.Prelude.{
  ℕ, ◌+◌, ◌^◌, ◌≤◌, ◌<◌, ◌≡◌, refl, false, ltb, ok, fault, skb_overread, List, length, length-drop,
  take, drop, Ensures-at, arith, ◌∙◌, ap,
}
use wifi_sniffer.Ctx.{RadiotapInfo, HdrInfo}
use wifi_sniffer.Kernel.{Ieee80211, read_le16, get_radiotap_info, parse_fc, sniffer_rx_handler}
use wifi_sniffer.Kernel.Addresses.{parse_fromtods_short}
use wifi_sniffer.Kernel.Fields.{parse_fc-FcBits}
use wifi_sniffer.Kernel.Fits.{AreBytes, AreBytes-drop, read_le16-Ensures}
use wifi_sniffer.Kernel.Netlink.{SendReplies}
use wifi_sniffer.Kernel.Standard.{IsStandard}

-- A frame that passes the handler's tests of its length but has fewer than 22 bytes behind its radiotap
-- header, as an acknowledgement has, is read past its end, whatever To DS and From DS are; if the
-- kernel's headers are as the standard says and the radiotap fields can be read.
pub sniffer_rx_handler_short :
    (k : Ieee80211) (r : SendReplies) (stack : HdrInfo) (skb : List ℕ) {rt_len fc : ℕ}
    {rt : RadiotapInfo}
    → IsStandard k
    → AreBytes skb
    → read_le16 skb 2 ≡ ok rt_len
    → get_radiotap_info k (take rt_len skb) ≡ ok rt
    → read_le16 (drop rt_len skb) 0 ≡ ok fc
    → rt_len + k.hdrlen fc ≤ length skb
    → length skb < rt_len + 22
    → sniffer_rx_handler k r stack skb ≡ fault skb_overread
unfolding sniffer_rx_handler
sniffer_rx_handler_short k r stack skb {rt_len} {fc} {rt} s b first g second fits short =
    let hdr = drop rt_len skb in
    let small : fc < 2 ^ 16 =
      Ensures-at (λ n. n < 2 ^ 16) second (read_le16-Ensures hdr 0 (AreBytes-drop rt_len skb b)) in
    let bits = parse_fc-FcBits k fc stack s small in
    let draft = parse_fc k fc stack in
    let overread =
      parse_fromtods_short k hdr draft.tods draft.fromds draft s (omega (arith, bits.tods))
        (omega (arith, bits.fromds)) (omega (arith, length-drop rt_len skb, short)) in
    let long : ltb (length skb) rt_len ≡ false = ground (arith, fits) in
    let whole : ltb (length skb) (rt_len + k.hdrlen fc) ≡ false = ground (arith, fits) in
    let at_len = ap (read_le16 skb) s.it_len ∙ first in
    let at_fc = ap (read_le16 hdr) s.frame_control ∙ second in
    rw (at_len, long, g, at_fc, whole, overread) refl
