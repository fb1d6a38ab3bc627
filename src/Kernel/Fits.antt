-- ===== src/Kernel/Fits.antt =====
-- What the receive handler (kern/sniffer_main.c) reads from a frame fits the C types of its structs.
use wifi_sniffer.Prelude.{
  ℕ, zero, suc, ◌+◌, ◌^◌, ◌<◌, ◌≡◌, ◌&&◌, ◌==◌, leb, Option, none, some, List, [], ◌∷◌, length,
  length-take, length-drop, get_elem?, take, drop, All, All-at, ok, skb_overread, arg_overread,
  or_fault, Fault, leb→le, Option-cases, Ensures, >>=-Ensures, Ensures-at, if-Ensures,
  or_fault-Ensures, Bool-cases, inl, inr, arith,
}
use wifi_sniffer.FrameTypes.{FrameDirection, client_to_client, client_to_ap, ap_to_client, ap_to_ap}
use wifi_sniffer.Ctx.{RadiotapInfo, HdrInfo}
use wifi_sniffer.Kernel.{
  Ieee80211, RadiotapField, read_le16, read_mac, no_radiotap, radiotap_arg, radiotap_loop,
  get_radiotap_info, parse_fromtods, parse_fc,
}
use wifi_sniffer.Kernel.Addresses.{read_three, read_two}
use wifi_sniffer.Kernel.Wire.Roundtrip.{FitsRadiotap, FitsHdr}

abbrev pub IsByte : ℕ → Type 0
IsByte n = n < 256

abbrev pub AreBytes : List ℕ → Type 0
AreBytes = All IsByte

-- The bytes at a field's `this_arg`.
abbrev pub ArgBytes : Option (List ℕ) → Type 0
ArgBytes none = Unit
ArgBytes (some arg) = AreBytes arg

-- The radiotap iterator points into the header that it is given.
abbrev pub PointsInside : Ieee80211 → Type 0
PointsInside k =
    (hdr : List ℕ) (fields : List RadiotapField)
    → AreBytes hdr
    → k.radiotap hdr ≡ some fields
    → All (λ f. ArgBytes f.arg) fields

pub AreBytes-take : (n : ℕ) (xs : List ℕ) → AreBytes xs → AreBytes (take n xs)
AreBytes-take zero xs h = tt
AreBytes-take (suc n) [] h = tt
AreBytes-take (suc n) (x ∷ xs) h = (h.0, AreBytes-take n xs h.1)

pub AreBytes-drop : (n : ℕ) (xs : List ℕ) → AreBytes xs → AreBytes (drop n xs)
AreBytes-drop zero xs h = h
AreBytes-drop (suc n) [] h = tt
AreBytes-drop (suc n) (x ∷ xs) h = AreBytes-drop n xs h.1

IsByte-Ensures :
    (bytes : List ℕ) (i : ℕ) (e : Fault)
    → AreBytes bytes
    → Ensures IsByte (or_fault (get_elem? bytes i) e)
IsByte-Ensures bytes i e b =
    or_fault-Ensures IsByte (get_elem? bytes i) e λ a q. All-at IsByte bytes i b q

pub read_le16-Ensures :
    (bytes : List ℕ) (i : ℕ) → AreBytes bytes → Ensures (λ n. n < 2 ^ 16) (read_le16 bytes i)
unfolding read_le16
read_le16-Ensures bytes i b =
    >>=-Ensures (λ n. n < 2 ^ 16) (or_fault (get_elem? bytes i) skb_overread) _
      λ lo e.
        >>=-Ensures (λ n. n < 2 ^ 16) (or_fault (get_elem? bytes (i + 1)) skb_overread) _
          λ hi e'.
            let low : lo < 256 = Ensures-at IsByte e (IsByte-Ensures bytes i skb_overread b) in
            let high : hi < 256 =
              Ensures-at IsByte e' (IsByte-Ensures bytes (i + 1) skb_overread b) in
            omega (arith, low, high)

read_mac-Ensures : (bytes : List ℕ) (i : ℕ) → Ensures (λ m. length m ≡ 6) (read_mac bytes i)
unfolding read_mac
read_mac-Ensures bytes i = elim (Bool-cases (leb (i + 6) (length bytes))) [
  | inl e ↦ rw e (
      omega
        (arith, length-take 6 (drop i bytes), length-drop i bytes, leb→le (i + 6) (length bytes) e))
  | inr e ↦ rw e tt
]

radiotap_arg-Ensures :
    (k : Ieee80211) (index : ℕ) (arg : List ℕ) (info : RadiotapInfo)
    → AreBytes arg
    → FitsRadiotap info
    → Ensures FitsRadiotap (radiotap_arg k index arg info)
unfolding radiotap_arg
radiotap_arg-Ensures k index arg info b f =
    if-Ensures FitsRadiotap (index == k.db_antsignal) _ _
      (λ e. >>=-Ensures FitsRadiotap (or_fault (get_elem? arg 0) arg_overread) _ λ rssi q. record {
        rssi = Ensures-at IsByte q (IsByte-Ensures arg 0 arg_overread b);
        channel_freq = f.channel_freq;
        channel_flags = f.channel_flags;
      })
      λ e.
        if-Ensures FitsRadiotap (index == k.channel) _ _
          (λ e'. >>=-Ensures FitsRadiotap (read_le16 arg 0) _ λ freq q.
            >>=-Ensures FitsRadiotap (read_le16 arg 2) _ λ flags q'. record {
              rssi = f.rssi;
              channel_freq = Ensures-at (λ n. n < 2 ^ 16) q (read_le16-Ensures arg 0 b);
              channel_flags = Ensures-at (λ n. n < 2 ^ 16) q' (read_le16-Ensures arg 2 b);
            })
          λ e'. f

field-Ensures :
    (k : Ieee80211) (index : ℕ) (arg : Option (List ℕ)) (info : RadiotapInfo)
    → ArgBytes arg
    → FitsRadiotap info
    → Ensures FitsRadiotap
        (elim arg [ none ↦ ok info | some bytes ↦ radiotap_arg k index bytes info ])
field-Ensures k index none info b f = f
field-Ensures k index (some arg) info b f = radiotap_arg-Ensures k index arg info b f

radiotap_loop-Ensures :
    (k : Ieee80211) (fields : List RadiotapField) (info : RadiotapInfo)
    → All (λ f. ArgBytes f.arg) fields
    → FitsRadiotap info
    → Ensures FitsRadiotap (radiotap_loop k fields info)
unfolding radiotap_loop
radiotap_loop-Ensures k [] info b f = f
radiotap_loop-Ensures k (x ∷ xs) info b f =
    >>=-Ensures FitsRadiotap _ (radiotap_loop k xs) λ info' e.
      radiotap_loop-Ensures k xs info' b.1
        (Ensures-at FitsRadiotap e (field-Ensures k x.index x.arg info b.0 f))

pub get_radiotap_info-Ensures :
    (k : Ieee80211) (hdr : List ℕ)
    → PointsInside k
    → AreBytes hdr
    → Ensures FitsRadiotap (get_radiotap_info k hdr)
unfolding get_radiotap_info
get_radiotap_info-Ensures k hdr p b =
    let zeros : FitsRadiotap no_radiotap = record {
      rssi = omega arith;
      channel_freq = omega arith;
      channel_flags = omega arith;
    } in
    elim (Option-cases (k.radiotap hdr)) [
      | inl e ↦ rw (get_radiotap_info, e) zeros
      | inr (fields, e) ↦
          rw (get_radiotap_info, e)
            (radiotap_loop-Ensures k fields no_radiotap (p hdr fields b e) zeros)
    ]

pub parse_fc-FitsHdr :
    (k : Ieee80211) (fc : ℕ) (stack : HdrInfo) → FitsHdr stack → FitsHdr (parse_fc k fc stack)
unfolding parse_fc
parse_fc-FitsHdr k fc stack f = record {
  src_mac = f.src_mac;
  dst_mac = f.dst_mac;
  bssid = f.bssid;
  len = f.len;
  frame_t = omega arith;
  frame_st = omega arith;
  retry = omega arith;
  tods = omega arith;
  fromds = omega arith;
}

abbrev pub FitsResult : FrameDirection × HdrInfo → Type 0
FitsResult r = FitsHdr r.1

abbrev IsMac : List ℕ → Type 0
IsMac m = length m ≡ 6

read_three-Ensures :
    (hdr : List ℕ) (i j l : ℕ) (dir : FrameDirection) (f : List ℕ → List ℕ → List ℕ → HdrInfo)
    → ((a b c : List ℕ) → IsMac a → IsMac b → IsMac c → FitsHdr (f a b c))
    → Ensures FitsResult (read_three hdr i j l dir f)
read_three-Ensures hdr i j l dir f h = >>=-Ensures FitsResult (read_mac hdr i) _ λ a p.
    >>=-Ensures FitsResult (read_mac hdr j) _ λ b q.
      >>=-Ensures FitsResult (read_mac hdr l) _ λ c r.
        h a b c (Ensures-at IsMac p (read_mac-Ensures hdr i))
          (Ensures-at IsMac q (read_mac-Ensures hdr j))
          (Ensures-at IsMac r (read_mac-Ensures hdr l))

read_two-Ensures :
    (hdr : List ℕ) (i j : ℕ) (dir : FrameDirection) (f : List ℕ → List ℕ → HdrInfo)
    → ((a b : List ℕ) → IsMac a → IsMac b → FitsHdr (f a b))
    → Ensures FitsResult (read_two hdr i j dir f)
read_two-Ensures hdr i j dir f h = >>=-Ensures FitsResult (read_mac hdr i) _ λ a p.
    >>=-Ensures FitsResult (read_mac hdr j) _ λ b q.
      h a b (Ensures-at IsMac p (read_mac-Ensures hdr i))
        (Ensures-at IsMac q (read_mac-Ensures hdr j))

-- A header keeps its types with other addresses.
readdressed-FitsHdr :
    (info : HdrInfo) (src dst bss : List ℕ)
    → FitsHdr info
    → IsMac src
    → IsMac dst
    → IsMac bss
    → FitsHdr (record info { src_mac = src; dst_mac = dst; bssid = bss })
readdressed-FitsHdr info src dst bss f s d b = record {
  src_mac = s;
  dst_mac = d;
  bssid = b;
  frame_t = f.frame_t;
  frame_st = f.frame_st;
  retry = f.retry;
  len = f.len;
  tods = f.tods;
  fromds = f.fromds;
}

pub parse_fromtods-Ensures :
    (k : Ieee80211) (hdr : List ℕ) (tods fromds : ℕ) (info : HdrInfo)
    → FitsHdr info
    → Ensures FitsResult (parse_fromtods k hdr tods fromds info)
unfolding parse_fromtods
parse_fromtods-Ensures k hdr tods fromds info f =
    let fits = readdressed-FitsHdr info in
    if-Ensures FitsResult (tods == 0 && fromds == 0) _ _
      (λ e.
        read_three-Ensures hdr k.addr1 k.addr2 k.addr3 client_to_client
          (λ a b c. record info { dst_mac = a; src_mac = b; bssid = c })
          λ a b c p q r. fits b a c f q p r)
      λ e.
        if-Ensures FitsResult (tods == 1 && fromds == 0) _ _
          (λ e.
            read_three-Ensures hdr k.addr1 k.addr2 k.addr3 client_to_ap
              (λ a b c. record info { dst_mac = a; src_mac = c; bssid = b })
              λ a b c p q r. fits c a b f r p q)
          λ e.
            if-Ensures FitsResult (tods == 0 && fromds == 1) _ _
              (λ e.
                read_three-Ensures hdr k.addr1 k.addr2 k.addr3 ap_to_client
                  (λ a b c. record info { dst_mac = c; src_mac = b; bssid = a })
                  λ a b c p q r. fits b c a f q r p)
              λ e.
                if-Ensures FitsResult (tods == 1 && fromds == 1) _ _
                  (λ e.
                    read_two-Ensures hdr k.addr3 k.addr4 ap_to_ap
                      (λ a b. record info { dst_mac = a; src_mac = b })
                      λ a b p q. fits b a info.bssid f q p f.bssid)
                  λ e. f
