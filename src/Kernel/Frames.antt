-- ===== src/Kernel/Frames.antt =====
-- A management frame as it comes from the card, in bytes, and what the receive handler of
-- kern/sniffer_main.c makes of it.
use wifi_sniffer.Prelude.{
  ℕ, ◌+◌, ◌-◌, ◌/◌, ◌%◌, ◌^◌, ◌<◌, ◌≡◌, refl, ap, ◌∙◌, true, false, ltb, leb, List, [], ◌∷◌, ◌++◌,
  append_assoc, length, length-append, take, drop, take-append, drop-append, some, ok, arith,
}
use wifi_sniffer.FrameTypes.{client_to_client}
use wifi_sniffer.Ctx.{RadiotapInfo, HdrInfo}
use wifi_sniffer.Kernel.{
  Ieee80211, read_le16, read_mac, get_radiotap_info, parse_fromtods, parse_fc, strip_fcs,
  sniffer_rx_handler,
}
use wifi_sniffer.Kernel.Standard.{IsStandard}
use wifi_sniffer.Kernel.Fields.{parse_fc-FcBits}
use wifi_sniffer.Kernel.Netlink.{SendReplies, send_to_userspace}

-- The parts of a frame: the radiotap header behind its length, the frame control field, duration and
-- sequence number, three addresses, the body and the frame check sequence.
pub record AirFrame : Type 0 where
  pub radiotap : List ℕ
  pub fc : ℕ
  pub duration : ℕ
  pub addr1 : List ℕ
  pub addr2 : List ℕ
  pub addr3 : List ℕ
  pub seq : ℕ
  pub body : List ℕ
  pub fcs : List ℕ

-- A number of 16 bits, the low byte first.
abbrev pub le16 : ℕ → List ℕ → List ℕ
le16 n rest = n % 256 ∷ n / 256 ∷ rest

abbrev pub rt_size : AirFrame → ℕ
rt_size f = 4 + length f.radiotap

abbrev pub rt_bytes : AirFrame → List ℕ
rt_bytes f = 0 ∷ 0 ∷ le16 (rt_size f) f.radiotap

-- The bytes from the 802.11 header on.
abbrev pub hdr_bytes : AirFrame → List ℕ
hdr_bytes f =
    le16 f.fc (le16 f.duration (f.addr1 ++ (f.addr2 ++ (f.addr3 ++ le16 f.seq (f.body ++ f.fcs)))))

unfoldable pub air_bytes : AirFrame → List ℕ
air_bytes f = rt_bytes f ++ hdr_bytes f

-- A frame that goes between two stations, neither to nor from the distribution system, as every
-- management frame does.
pub record IsDirect (f : AirFrame) : Type 0 where
  pub rt_fits : rt_size f < 2 ^ 16
  pub fc_fits : f.fc < 2 ^ 16
  pub no_ds : f.fc / 256 % 4 ≡ 0
  pub addr1_size : length f.addr1 ≡ 6
  pub addr2_size : length f.addr2 ≡ 6
  pub addr3_size : length f.addr3 ≡ 6
  pub fcs_size : length f.fcs ≡ 4

-- What its header says. `len` is not written and keeps what the stack held.
abbrev pub direct_info : AirFrame → HdrInfo → HdrInfo
direct_info f stack = record {
  src_mac = f.addr2;
  dst_mac = f.addr1;
  bssid = f.addr3;
  frame_t = f.fc / 4 % 4;
  frame_st = f.fc / 16 % 16;
  retry = f.fc / 2048 % 2;
  len = stack.len;
  tods = 0;
  fromds = 0;
  frame_d = client_to_client;
}

read_mac_at :
    (pre mac post hdr : List ℕ) (i : ℕ)
    → hdr ≡ pre ++ (mac ++ post)
    → length pre ≡ i
    → length mac ≡ 6
    → read_mac hdr i ≡ ok mac
unfolding read_mac
read_mac_at pre mac post hdr i e p m =
    let size = length-append pre (mac ++ post) in
    let size' = length-append mac post in
    let fits : leb (i + 6) (length (pre ++ (mac ++ post))) ≡ true = ground (arith, size, size') in
    rw (e, fits, ← p, drop-append pre (mac ++ post), ← m, take-append mac post)

module _ (f : AirFrame) (d : IsDirect f) where
  direct_addr1 : read_mac (hdr_bytes f) 4 ≡ ok f.addr1
  direct_addr1 =
      read_mac_at (le16 f.fc (le16 f.duration [])) f.addr1
        (f.addr2 ++ (f.addr3 ++ le16 f.seq (f.body ++ f.fcs))) (hdr_bytes f) 4 refl refl
        d.addr1_size

  direct_addr2 : read_mac (hdr_bytes f) 10 ≡ ok f.addr2
  direct_addr2 =
      read_mac_at (le16 f.fc (le16 f.duration f.addr1)) f.addr2
        (f.addr3 ++ le16 f.seq (f.body ++ f.fcs)) (hdr_bytes f) 10 refl
        (omega (arith, d.addr1_size)) d.addr2_size

  direct_addr3 : read_mac (hdr_bytes f) 16 ≡ ok f.addr3
  direct_addr3 =
      read_mac_at (le16 f.fc (le16 f.duration (f.addr1 ++ f.addr2))) f.addr3
        (le16 f.seq (f.body ++ f.fcs)) (hdr_bytes f) 16 (rw (append_assoc f.addr1 f.addr2))
        (omega (arith, length-append f.addr1 f.addr2, d.addr1_size, d.addr2_size)) d.addr3_size

  direct_body : drop 24 (hdr_bytes f) ≡ f.body ++ f.fcs
  direct_body =
      let pre = le16 f.fc (le16 f.duration (f.addr1 ++ (f.addr2 ++ (f.addr3 ++ le16 f.seq [])))) in
      let split : hdr_bytes f ≡ pre ++ (f.body ++ f.fcs) = rw (
        append_assoc f.addr1 (f.addr2 ++ (f.addr3 ++ le16 f.seq [])) (f.body ++ f.fcs),
        append_assoc f.addr2 (f.addr3 ++ le16 f.seq []) (f.body ++ f.fcs),
        append_assoc f.addr3 (le16 f.seq []) (f.body ++ f.fcs),
      ) in
      let size : length pre ≡ 24 = omega (
        arith,
        d.addr1_size,
        d.addr2_size,
        d.addr3_size,
        length-append f.addr1 (f.addr2 ++ (f.addr3 ++ le16 f.seq [])),
        length-append f.addr2 (f.addr3 ++ le16 f.seq []),
        length-append f.addr3 (le16 f.seq []),
      ) in
      rw (split, ← size) (drop-append pre (f.body ++ f.fcs))

  direct_length : length (hdr_bytes f) ≡ 24 + length f.body + 4
  direct_length =
      let tail = le16 f.seq (f.body ++ f.fcs) in
      omega (
        arith,
        d.addr1_size,
        d.addr2_size,
        d.addr3_size,
        d.fcs_size,
        length-append f.addr1 (f.addr2 ++ (f.addr3 ++ tail)),
        length-append f.addr2 (f.addr3 ++ tail),
        length-append f.addr3 tail,
        length-append f.body f.fcs,
      )

  direct_addresses :
      (k : Ieee80211) (draft : HdrInfo)
      → IsStandard k
      → draft.tods ≡ 0
      → draft.fromds ≡ 0
      → parse_fromtods k (hdr_bytes f) draft.tods draft.fromds draft
        ≡ ok (
          client_to_client,
          record draft { dst_mac = f.addr1; src_mac = f.addr2; bssid = f.addr3 },
        )
  unfolding parse_fromtods
  direct_addresses k draft s t q =
      rw (t, q, s.addr1, s.addr2, s.addr3, direct_addr1, direct_addr2, direct_addr3)

  no_tods : (k : Ieee80211) (stack : HdrInfo) → IsStandard k → (parse_fc k f.fc stack).tods ≡ 0
  no_tods k stack s = omega (arith, (parse_fc-FcBits k f.fc stack s d.fc_fits).tods, d.no_ds)

  no_fromds : (k : Ieee80211) (stack : HdrInfo) → IsStandard k → (parse_fc k f.fc stack).fromds ≡ 0
  no_fromds k stack s = omega (arith, (parse_fc-FcBits k f.fc stack s d.fc_fits).fromds, d.no_ds)

  direct_fields :
      (k : Ieee80211) (stack : HdrInfo)
      → IsStandard k
      → record (parse_fc k f.fc stack) {
        dst_mac = f.addr1;
        src_mac = f.addr2;
        bssid = f.addr3;
        frame_d = client_to_client;
      }
        ≡ direct_info f stack
  unfolding parse_fc
  direct_fields k stack s =
      let b = parse_fc-FcBits k f.fc stack s d.fc_fits in
      rw (b.frame_t, b.frame_st, b.retry, no_tods k stack s, no_fromds k stack s)

  rt_read : read_le16 (air_bytes f) 2 ≡ ok (rt_size f)
  unfolding air_bytes read_le16
  rt_read = ap ok (omega arith)

  fc_read : read_le16 (hdr_bytes f) 0 ≡ ok f.fc
  unfolding read_le16
  fc_read = ap ok (omega arith)

-- The receive handler sends the fields of a frame's header, its radiotap data and its body, without
-- the frame check sequence, if the kernel's headers are as the standard says, the frame has neither To
-- DS nor From DS, a header of 24 bytes with three addresses of 6 bytes, and a frame check sequence of
-- 4 bytes at its end, its radiotap length and frame control field fit 16 bits, and its radiotap fields
-- can be read.
pub sniffer_rx_handler_direct :
    (k : Ieee80211) (r : SendReplies) (stack : HdrInfo) (f : AirFrame) (rt : RadiotapInfo)
    → IsStandard k
    → IsDirect f
    → k.hdrlen f.fc ≡ 24
    → get_radiotap_info k (rt_bytes f) ≡ ok rt
    → sniffer_rx_handler k r stack (air_bytes f)
      ≡ ok (some (send_to_userspace r (direct_info f stack) rt (length f.body) (f.body ++ f.fcs)))
unfolding sniffer_rx_handler
sniffer_rx_handler_direct k r stack f rt s d l g =
    let size : length (air_bytes f) ≡ rt_size f + (24 + length f.body + 4) =
      unfold air_bytes in
      omega (arith, length-append f.radiotap (hdr_bytes f), direct_length f d) in
    let n : rt_size f ≡ length (rt_bytes f) = omega arith in
    let first : take (rt_size f) (air_bytes f) ≡ rt_bytes f =
      ap (λ n. take n (air_bytes f)) n
      ∙ unfold air_bytes in take-append (rt_bytes f) (hdr_bytes f) in
    let rest : drop (rt_size f) (air_bytes f) ≡ hdr_bytes f =
      ap (λ n. drop n (air_bytes f)) n
      ∙ unfold air_bytes in drop-append (rt_bytes f) (hdr_bytes f) in
    let there : ltb (length (air_bytes f)) (rt_size f) ≡ false = ground arith in
    let long : ltb (length (air_bytes f)) (rt_size f + 24) ≡ false = ground arith in
    let body_len : length (air_bytes f) - rt_size f - 24 ≡ length f.body + 4 = omega arith in
    let stripped : strip_fcs (length f.body + 4) ≡ length f.body =
      unfold strip_fcs in ground arith in
    let rt_len : read_le16 (air_bytes f) k.it_len ≡ ok (rt_size f) =
      ap (read_le16 (air_bytes f)) s.it_len ∙ rt_read f d in
    let fc : read_le16 (hdr_bytes f) k.frame_control ≡ ok f.fc =
      ap (read_le16 (hdr_bytes f)) s.frame_control ∙ fc_read f d in
    let addresses =
      direct_addresses f d k (parse_fc k f.fc stack) s (no_tods f d k stack s)
        (no_fromds f d k stack s) in
    rw (
      rt_len,
      there,
      first,
      g,
      rest,
      fc,
      l,
      long,
      addresses,
      direct_fields f d k stack s,
      direct_body f d,
      body_len,
      stripped,
    )
