-- ===== src/Kernel/Addresses.antt =====
-- The addresses of a frame (kern/sniffer_main.c, `parse_fromtods`) against those that IEEE 802.11
-- puts into the four address fields.
use wifi_sniffer.Prelude.{
  ℕ, zero, suc, ◌+◌, ◌<◌, ◌≡◌, ◌⊎◌, inl, inr, refl, List, take, drop, length, leb, ◌==◌,
  if◌then◌else◌, Outcome, ok, fault, skb_overread, ◌>>=◌, Bool-cases, arith,
}
use wifi_sniffer.FrameTypes.{FrameDirection, client_to_client, client_to_ap, ap_to_client, ap_to_ap}
use wifi_sniffer.Ctx.{HdrInfo}
use wifi_sniffer.Kernel.{Ieee80211, read_mac, parse_fromtods}
use wifi_sniffer.Kernel.Standard.{IsStandard}

-- The receiver, the sender and the network of a frame.
pub record Roles : Type 0 where
  pub da : List ℕ
  pub sa : List ℕ
  pub bssid : List ℕ

abbrev pub mac_at : List ℕ → ℕ → List ℕ
mac_at hdr i = take 6 (drop i hdr)

-- Table 9-30 of IEEE 802.11-2016, by To DS and From DS. With both set there is no BSSID; the
-- transmitter's address stands in its place.
pub standard_roles : List ℕ → ℕ → ℕ → Roles
standard_roles hdr tods fromds =
    if tods == 0
    then (if fromds == 0
        then record { da = mac_at hdr 4; sa = mac_at hdr 10; bssid = mac_at hdr 16 }
        else record { da = mac_at hdr 4; bssid = mac_at hdr 10; sa = mac_at hdr 16 })
    else (if fromds == 0
        then record { bssid = mac_at hdr 4; sa = mac_at hdr 10; da = mac_at hdr 16 }
        else record { bssid = mac_at hdr 10; da = mac_at hdr 16; sa = mac_at hdr 24 })

-- Addresses that are read are the bytes of the header.
read_mac-eq :
    (hdr : List ℕ) (i : ℕ)
    → (read_mac hdr i ≡ ok (mac_at hdr i)) ⊎ (read_mac hdr i ≡ fault skb_overread)
unfolding read_mac
read_mac-eq hdr i = elim (Bool-cases (leb (i + 6) (length hdr))) [
  | inl e ↦ inl (rw e)
  | inr e ↦ inr (rw e)
]

-- The two shapes of a branch: three addresses are read, or two.
abbrev pub read_three :
    List ℕ
    → ℕ
    → ℕ
    → ℕ
    → FrameDirection
    → (List ℕ → List ℕ → List ℕ → HdrInfo)
    → Outcome (FrameDirection × HdrInfo)
read_three hdr i j l dir f = do
  a ← read_mac hdr i
  b ← read_mac hdr j
  c ← read_mac hdr l
  ok (dir, f a b c)

abbrev pub read_two :
    List ℕ
    → ℕ
    → ℕ
    → FrameDirection
    → (List ℕ → List ℕ → HdrInfo)
    → Outcome (FrameDirection × HdrInfo)
read_two hdr i j dir f = do a ← read_mac hdr i; b ← read_mac hdr j; ok (dir, f a b)

three_read :
    (hdr : List ℕ) (i j l : ℕ) (dir : FrameDirection) (f : List ℕ → List ℕ → List ℕ → HdrInfo)
    {d : FrameDirection} {info : HdrInfo}
    → read_three hdr i j l dir f ≡ ok (d, info)
    → info ≡ f (mac_at hdr i) (mac_at hdr j) (mac_at hdr l)
three_read hdr i j l dir f h =
    ground (arith, read_mac-eq hdr i, read_mac-eq hdr j, read_mac-eq hdr l)

two_read :
    (hdr : List ℕ) (i j : ℕ) (dir : FrameDirection) (f : List ℕ → List ℕ → HdrInfo)
    {d : FrameDirection} {info : HdrInfo}
    → read_two hdr i j dir f ≡ ok (d, info)
    → info ≡ f (mac_at hdr i) (mac_at hdr j)
two_read hdr i j dir f h = ground (arith, read_mac-eq hdr i, read_mac-eq hdr j)

-- Where To DS and From DS are equal and the addresses are read, the destination and the source
-- are those of the standard. With both clear so is the BSSID; with both set, the BSSID keeps what
-- the stack held.
pub parse_fromtods_equal :
    (k : Ieee80211) (hdr : List ℕ) (ds : ℕ) (stack : HdrInfo) {dir : FrameDirection}
    {info : HdrInfo}
    → IsStandard k
    → ds < 2
    → parse_fromtods k hdr ds ds stack ≡ ok (dir, info)
    → (info.dst_mac ≡ (standard_roles hdr ds ds).da)
      × (info.src_mac ≡ (standard_roles hdr ds ds).sa)
      × (info.bssid ≡ (if ds == 0 then (standard_roles hdr ds ds).bssid else stack.bssid))
unfolding parse_fromtods standard_roles
parse_fromtods_equal k hdr zero stack s l h =
    let e =
      three_read hdr k.addr1 k.addr2 k.addr3 client_to_client
        (λ a b c. record stack { dst_mac = a; src_mac = b; bssid = c }) h in
    rw (e, s.addr1, s.addr2, s.addr3) (refl, refl, refl)
parse_fromtods_equal k hdr (suc zero) stack s l h =
    let e =
      two_read hdr k.addr3 k.addr4 ap_to_ap (λ a b. record stack { dst_mac = a; src_mac = b }) h in
    rw (e, s.addr3, s.addr4) (refl, refl, refl)
parse_fromtods_equal k hdr (suc (suc ds)) stack s l h = absurd (omega arith)

-- Where exactly one of To DS and From DS is set and the addresses are read, they are those of the
-- standard in other roles: with To DS, the destination is the BSSID, the BSSID the source and the
-- source the destination; with From DS, the destination is the source, the source the BSSID and
-- the BSSID the destination.
pub parse_fromtods_mixed :
    (k : Ieee80211) (hdr : List ℕ) (tods fromds : ℕ) (stack : HdrInfo) {dir : FrameDirection}
    {info : HdrInfo}
    → IsStandard k
    → tods + fromds ≡ 1
    → parse_fromtods k hdr tods fromds stack ≡ ok (dir, info)
    → let r = standard_roles hdr tods fromds in
      ((tods ≡ 1) × (info.dst_mac ≡ r.bssid) × (info.bssid ≡ r.sa) × (info.src_mac ≡ r.da))
      ⊎ ((fromds ≡ 1) × (info.dst_mac ≡ r.sa) × (info.src_mac ≡ r.bssid) × (info.bssid ≡ r.da))
unfolding parse_fromtods standard_roles
parse_fromtods_mixed k hdr zero zero stack s e h = absurd (omega arith)
parse_fromtods_mixed k hdr zero (suc zero) stack s e h =
    let q =
      three_read hdr k.addr1 k.addr2 k.addr3 ap_to_client
        (λ a b c. record stack { dst_mac = c; src_mac = b; bssid = a }) h in
    inr (rw (q, s.addr1, s.addr2, s.addr3) (refl, refl, refl, refl))
parse_fromtods_mixed k hdr zero (suc (suc n)) stack s e h = absurd (omega arith)
parse_fromtods_mixed k hdr (suc zero) zero stack s e h =
    let q =
      three_read hdr k.addr1 k.addr2 k.addr3 client_to_ap
        (λ a b c. record stack { dst_mac = a; src_mac = c; bssid = b }) h in
    inl (rw (q, s.addr1, s.addr2, s.addr3) (refl, refl, refl, refl))
parse_fromtods_mixed k hdr (suc zero) (suc n) stack s e h = absurd (omega arith)
parse_fromtods_mixed k hdr (suc (suc m)) n stack s e h = absurd (omega arith)

-- With any To DS and From DS, a header of fewer than 22 bytes, such as that of an
-- acknowledgement, is read past its end.
pub parse_fromtods_short :
    (k : Ieee80211) (hdr : List ℕ) (tods fromds : ℕ) (stack : HdrInfo)
    → IsStandard k
    → tods < 2
    → fromds < 2
    → length hdr < 22
    → parse_fromtods k hdr tods fromds stack ≡ fault skb_overread
unfolding parse_fromtods read_mac
parse_fromtods_short k hdr tods fromds stack s t f l = ground arith
