-- ===== src/Kernel/Wire/Roundtrip.antt =====
-- Userspace reads from a message what the kernel module has put there (kern/sniffer_netlink.c,
-- `frame_handler` of user/src/main.c).
use wifi_sniffer.Prelude.{
  ℕ, ◌+◌, ◌*◌, ◌/◌, ◌%◌, ◌^◌, ◌≤◌, ◌<◌, ◌≡◌, ◌≢◌, refl, ap, ◌∙◌, Option, some, List, [], ◌∷◌, ◌++◌,
  length, get_elem?, get_elem?-append, take, drop, take-append, drop-append_add, ok, >>=-ok, arith,
}
use wifi_sniffer.FrameTypes.{FrameDirection, client_to_client, client_to_ap, ap_to_client, ap_to_ap}
use wifi_sniffer.Ctx.{RadiotapInfo, HdrInfo}
use wifi_sniffer.Kernel.Frames.{le16}
use wifi_sniffer.Kernel.Wire.{
  Abi, Padding, attr_max, attr_id, attr_radiotap, attr_header, direction_value, direction_of,
  radiotap_bytes, hdr_tail, hdr_info_bytes, put_attributes, read_u8, read_u16, read_direction,
  read_radiotap_info, read_hdr_info, read_message,
}

-- The padding has the sizes of the layout.
pub record IsPadding (abi : Abi) (pad : Padding) : Type 0 where
  pub freq : length pad.before_freq ≡ abi.freq_gap
  pub len : length pad.before_len ≡ abi.len_gap
  pub dir : length pad.before_dir ≡ abi.dir_gap

-- The fields fit their C types.
pub record FitsRadiotap (r : RadiotapInfo) : Type 0 where
  pub rssi : r.rssi < 256
  pub channel_freq : r.channel_freq < 2 ^ 16
  pub channel_flags : r.channel_flags < 2 ^ 16

pub record FitsHdr (h : HdrInfo) : Type 0 where
  pub src_mac : length h.src_mac ≡ 6
  pub dst_mac : length h.dst_mac ≡ 6
  pub bssid : length h.bssid ≡ 6
  pub frame_t : h.frame_t < 256
  pub frame_st : h.frame_st < 256
  pub retry : h.retry < 256
  pub len : h.len < 2 ^ 16
  pub tods : h.tods < 256
  pub fromds : h.fromds < 256

-- What `nla_parse` promises: of two attributes with one number the last counts.
pub record IsParser (parse : List (ℕ × List ℕ) → ℕ → Option (List ℕ)) : Type 0 where
  pub last :
      (message : List (ℕ × List ℕ)) (t : ℕ) (bytes : List ℕ)
      → t ≤ attr_max
      → parse (message ++ ((t, bytes) ∷ [])) t ≡ some bytes
  pub before :
      (message : List (ℕ × List ℕ)) (t u : ℕ) (bytes : List ℕ)
      → t ≢ u
      → parse (message ++ ((u, bytes) ∷ [])) t ≡ parse message t

at : (xs ys : List ℕ) (i k : ℕ) → i ≡ length xs + k → get_elem? (xs ++ ys) i ≡ get_elem? ys k
at xs ys i k e = ap (get_elem? (xs ++ ys)) e ∙ get_elem?-append xs ys k

take_first : (xs ys : List ℕ) (n : ℕ) → length xs ≡ n → take n (xs ++ ys) ≡ xs
take_first xs ys n e = rw (← e) (take-append xs ys)

drop_first : (xs ys : List ℕ) (n k : ℕ) → n ≡ length xs + k → drop n (xs ++ ys) ≡ drop k ys
drop_first xs ys n k e = rw e (drop-append_add xs ys k)

read_u8-at :
    (bytes : List ℕ) (i n : ℕ)
    → n < 256
    → get_elem? bytes i ≡ some (n % 256)
    → read_u8 bytes i ≡ ok n
read_u8-at bytes i n h e = let small : n % 256 ≡ n = omega arith in rw (e, small)

read_u16-at :
    (bytes : List ℕ) (i n : ℕ)
    → n < 2 ^ 16
    → get_elem? bytes i ≡ some (n % 2 ^ 16 % 256)
    → get_elem? bytes (i + 1) ≡ some (n % 2 ^ 16 / 256)
    → read_u16 bytes i ≡ ok n
read_u16-at bytes i n h low high =
    let back : n % 2 ^ 16 % 256 + 256 * (n % 2 ^ 16 / 256) ≡ n = omega arith in rw (low, high, back)

direction_back :
    (d : FrameDirection)
    → direction_of (direction_value d + 256 * 0 + 2 ^ 16 * (0 + 256 * 0)) ≡ some d
direction_back client_to_client = refl
direction_back client_to_ap = refl
direction_back ap_to_client = refl
direction_back ap_to_ap = refl

radiotap_fields :
    (abi : Abi) (bytes : List ℕ) (r : RadiotapInfo)
    → read_u8 bytes 0 ≡ ok r.rssi
    → read_u16 bytes (1 + abi.freq_gap) ≡ ok r.channel_freq
    → read_u16 bytes (1 + abi.freq_gap + 2) ≡ ok r.channel_flags
    → read_radiotap_info abi bytes ≡ ok r
unfolding read_radiotap_info
radiotap_fields abi bytes r rssi freq flags = rw (rssi, freq, flags)

radiotap_read :
    (abi : Abi) (pad : Padding) (r : RadiotapInfo)
    → IsPadding abi pad
    → FitsRadiotap r
    → read_radiotap_info abi (radiotap_bytes pad r) ≡ ok r
unfolding radiotap_bytes
radiotap_read abi pad r p f =
    let fields = le16 (r.channel_freq % 2 ^ 16) (le16 (r.channel_flags % 2 ^ 16) []) in
    let bytes = r.rssi % 256 ∷ (pad.before_freq ++ fields) in
    let g = 1 + abi.freq_gap in
    let field : (k i : ℕ) → i ≡ g + k → get_elem? bytes i ≡ get_elem? fields k =
      λ k i e. at (r.rssi % 256 ∷ pad.before_freq) fields i k (omega (arith, p.freq, e)) in
    let rssi = read_u8-at bytes 0 r.rssi f.rssi refl in
    let freq =
      read_u16-at bytes g r.channel_freq f.channel_freq (field 0 g (omega arith))
        (field 1 (g + 1) refl) in
    let flags =
      read_u16-at bytes (g + 2) r.channel_flags f.channel_flags (field 2 (g + 2) refl)
        (field 3 (g + 2 + 1) (omega arith)) in
    radiotap_fields abi bytes r rssi freq flags

-- The fields of `struct hdr_info` from `frame_t` on.
abbrev hdr_end : Padding → HdrInfo → List ℕ
hdr_end pad h =
    h.frame_t % 256 ∷ h.frame_st % 256 ∷ h.retry % 256 ∷ (pad.before_len ++ hdr_tail pad h)

module _ (abi : Abi) (pad : Padding) (h : HdrInfo) (p : IsPadding abi pad) (f : FitsHdr h) where
  end_at : (k i : ℕ) → i ≡ 18 + k → get_elem? (hdr_info_bytes pad h) i ≡ get_elem? (hdr_end pad h) k
  unfolding hdr_info_bytes
  end_at k i e =
      at h.src_mac (h.dst_mac ++ (h.bssid ++ hdr_end pad h)) i (12 + k)
        (omega (arith, f.src_mac, e))
      ∙ at h.dst_mac (h.bssid ++ hdr_end pad h) (12 + k) (6 + k) (omega (arith, f.dst_mac))
      ∙ at h.bssid (hdr_end pad h) (6 + k) k (omega (arith, f.bssid))

  tail_at :
      (k i : ℕ)
      → i ≡ 21 + abi.len_gap + k
      → get_elem? (hdr_info_bytes pad h) i ≡ get_elem? (hdr_tail pad h) k
  tail_at k i e =
      end_at (3 + abi.len_gap + k) i (omega (arith, e))
      ∙ at (h.frame_t % 256 ∷ h.frame_st % 256 ∷ h.retry % 256 ∷ pad.before_len) (hdr_tail pad h)
          (3 + abi.len_gap + k) k (omega (arith, p.len))

  dir_at :
      (k i : ℕ)
      → i ≡ 21 + abi.len_gap + 4 + abi.dir_gap + k
      → get_elem? (hdr_info_bytes pad h) i
        ≡ get_elem? (direction_value h.frame_d ∷ 0 ∷ 0 ∷ 0 ∷ []) k
  dir_at k i e =
      let fields = le16 (h.len % 2 ^ 16) (h.tods % 256 ∷ h.fromds % 256 ∷ pad.before_dir) in
      tail_at (4 + abi.dir_gap + k) i (omega (arith, e))
      ∙ at fields (direction_value h.frame_d ∷ 0 ∷ 0 ∷ 0 ∷ []) (4 + abi.dir_gap + k) k
          (omega (arith, p.dir))

  addresses_read :
      (take 6 (hdr_info_bytes pad h) ≡ h.src_mac)
      × (take 6 (drop 6 (hdr_info_bytes pad h)) ≡ h.dst_mac)
      × (take 6 (drop 12 (hdr_info_bytes pad h)) ≡ h.bssid)
  unfolding hdr_info_bytes
  addresses_read =
      let last = h.bssid ++ hdr_end pad h in
      (
        take_first h.src_mac (h.dst_mac ++ last) 6 f.src_mac,
        ap (take 6) (drop_first h.src_mac (h.dst_mac ++ last) 6 0 (omega (arith, f.src_mac)))
            ∙ take_first h.dst_mac last 6 f.dst_mac,
        ap (take 6) (
              drop_first h.src_mac (h.dst_mac ++ last) 12 6 (omega (arith, f.src_mac))
              ∙ drop_first h.dst_mac last 6 0 (omega (arith, f.dst_mac)))
            ∙ take_first h.bssid (hdr_end pad h) 6 f.bssid,
      )

  direction_read :
      read_direction (hdr_info_bytes pad h) (21 + abi.len_gap + 4 + abi.dir_gap) ≡ ok h.frame_d
  direction_read =
      let bytes = hdr_info_bytes pad h in
      let o = 21 + abi.len_gap + 4 + abi.dir_gap in
      rw (
        dir_at 0 o (omega arith),
        dir_at 1 (o + 1) refl,
        dir_at 2 (o + 2) refl,
        dir_at 3 (o + 2 + 1) (omega arith),
        direction_back h.frame_d,
      )

  hdr_info_read : read_hdr_info abi (hdr_info_bytes pad h) ≡ ok h
  unfolding read_hdr_info
  hdr_info_read =
      let bytes = hdr_info_bytes pad h in
      let o = 21 + abi.len_gap in
      let (src, dst, bss) = addresses_read in
      >>=-ok (read_u8 bytes 18) _ (read_u8-at bytes 18 h.frame_t f.frame_t (end_at 0 18 refl)) (
        >>=-ok (read_u8 bytes 19) _ (read_u8-at bytes 19 h.frame_st f.frame_st (end_at 1 19 refl)) (
          >>=-ok (read_u8 bytes 20) _ (read_u8-at bytes 20 h.retry f.retry (end_at 2 20 refl)) (
            >>=-ok (read_u16 bytes o) _
              (read_u16-at bytes o h.len f.len (tail_at 0 o (omega arith)) (tail_at 1 (o + 1) refl))
              (>>=-ok (read_u8 bytes (o + 2)) _
                (read_u8-at bytes (o + 2) h.tods f.tods (tail_at 2 (o + 2) refl))
                (>>=-ok (read_u8 bytes (o + 3)) _
                  (read_u8-at bytes (o + 3) h.fromds f.fromds (tail_at 3 (o + 3) refl))
                  (>>=-ok (read_direction bytes (o + 4 + abi.dir_gap)) _ direction_read
                    (rw (src, dst, bss) refl)))))))

-- What the kernel module puts into a message, userspace takes out again, whatever stood in the gaps
-- of its structs, if both were compiled with the same layout and the fields fit their C types.
pub read_message-put_attributes :
    (abi : Abi) (pad : Padding) (parse : List (ℕ × List ℕ) → ℕ → Option (List ℕ)) (h : HdrInfo)
    (r : RadiotapInfo) (body : List ℕ)
    → IsPadding abi pad
    → IsParser parse
    → FitsHdr h
    → FitsRadiotap r
    → read_message abi parse (put_attributes pad h r body)
      ≡ ok (record { header = some h; radiotap = some r; payload = some body })
unfolding read_message
read_message-put_attributes abi pad parse h r body p l f g =
    let header : ℕ × List ℕ = (attr_id attr_header, hdr_info_bytes pad h) in
    let radiotap : ℕ × List ℕ = (attr_id attr_radiotap, radiotap_bytes pad r) in
    let message = put_attributes pad h r body in
    let third : parse message 3 ≡ some body =
      l.last (header ∷ radiotap ∷ []) 3 body (omega arith) in
    let second : parse message 1 ≡ some (radiotap_bytes pad r) =
      l.before (header ∷ radiotap ∷ []) 1 3 body (λ e. absurd (omega (arith, e)))
      ∙ l.last (header ∷ []) 1 (radiotap_bytes pad r) (omega arith) in
    let first : parse message 2 ≡ some (hdr_info_bytes pad h) =
      l.before (header ∷ radiotap ∷ []) 2 3 body (λ e. absurd (omega (arith, e)))
      ∙ l.before (header ∷ []) 2 1 (radiotap_bytes pad r) (λ e. absurd (omega (arith, e)))
      ∙ l.last [] 2 (hdr_info_bytes pad h) (omega arith) in
    rw (first, second, third, hdr_info_read abi pad h p f, radiotap_read abi pad r p g)

-- The layout that both sides were compiled with, what stood in the gaps, and libnl.
pub record Link : Type 0 where
  pub abi : Abi
  pub pad : Padding
  pub parse : List (ℕ × List ℕ) → ℕ → Option (List ℕ)
  pub padding : IsPadding abi pad
  pub parser : IsParser parse
