-- ===== src/Ctx/Lookup.antt =====
-- `get_ap` (user/src/ctx.c): what it finds, and the addresses of an array that grows by one entry.
use wifi_sniffer.Prelude.{
  ℕ, zero, suc, ◌<◌, ◌≡◌, refl, ◌≢◌, false, none, some, List, [], ◌∷◌, inl, inr, ◌⊎◌, same_bytes,
  same_bytes-eq, same_bytes_refl, get_elem?, Bool-cases, Option-cases, arith,
}
use wifi_sniffer.Ctx.{Ap, Ctx, find_ap, get_ap}
use wifi_sniffer.Ctx.Invariant.{macs, Absent}

-- A failed lookup means that no registered entry has the address.
pub find_ap-Absent :
    (aps : List Ap) (n : ℕ) (mac : List ℕ) → find_ap aps n mac ≡ none → Absent mac (macs aps n)
unfolding find_ap
find_ap-Absent [] n mac h = tt
find_ap-Absent (a ∷ aps) zero mac h = tt
find_ap-Absent (a ∷ aps) (suc n) mac h = elim (Option-cases (find_ap aps n mac)) [
  | inl e ↦ (ground arith, find_ap-Absent aps n mac e)
  | inr (i, e) ↦ absurd (ground arith)
]

-- What it finds is a registered entry with the address, and the first one.
pub record Found (aps : List Ap) (n : ℕ) (mac : List ℕ) (i : ℕ) : Type 0 where
  pub ap : Ap
  pub registered : i < n
  pub at : get_elem? aps i ≡ some ap
  pub address : ap.mac ≡ mac
  pub first : (j : ℕ) (b : Ap) → j < i → get_elem? aps j ≡ some b → b.mac ≢ mac

pub find_ap-Found :
    (aps : List Ap) (n : ℕ) (mac : List ℕ) (i : ℕ) → find_ap aps n mac ≡ some i → Found aps n mac i
unfolding find_ap
find_ap-Found [] n mac i h = absurd (ground arith)
find_ap-Found (a ∷ aps) zero mac i h = absurd (ground arith)
find_ap-Found (a ∷ aps) (suc n) mac i h = elim (Bool-cases (same_bytes a.mac mac)) [
  | inl e ↦
      let z : i ≡ 0 = ground arith in
      rw z (record {
        ap = a;
        registered = omega arith;
        at = refl;
        address = same_bytes-eq a.mac mac e;
        first = λ j b l. absurd (omega arith);
      })
  | inr e ↦ elim (Option-cases (find_ap aps n mac)) [
    | inl m ↦ absurd (ground arith)
    | inr (k, m) ↦
        let z : i ≡ suc k = ground arith in
        let f = find_ap-Found aps n mac k m in
        rw z (record {
          ap = f.ap;
          registered = omega (arith, f.registered);
          at = f.at;
          address = f.address;
          first = earlier k f e;
        })
  ]
]
  where
    earlier :
        (k : ℕ)
        → Found aps n mac k
        → same_bytes a.mac mac ≡ false
        → (j : ℕ) (b : Ap) → j < suc k
        → get_elem? (a ∷ aps) j ≡ some b
        → b.mac ≢ mac
    earlier k f e zero b l g = λ q. ground (arith, same_bytes_refl mac)
    earlier k f e (suc j) b l g = f.first j b (omega arith) g

pub get_ap-none :
    (ctx : Ctx) (mac : List ℕ) → get_ap ctx mac ≡ none → Absent mac (macs ctx.aps ctx.aps_count)
unfolding get_ap
get_ap-none ctx mac h = find_ap-Absent ctx.aps ctx.aps_count mac h

-- `get_ap` fails exactly with no registered entry of that address, and otherwise gives a
-- registered entry that has it, the first one.
pub get_ap_lem :
    (ctx : Ctx) (mac : List ℕ)
    → ((get_ap ctx mac ≡ none) × Absent mac (macs ctx.aps ctx.aps_count))
      ⊎ ((i : ℕ) × (get_ap ctx mac ≡ some i) × Found ctx.aps ctx.aps_count mac i)
unfolding get_ap
get_ap_lem ctx mac = elim (Option-cases (find_ap ctx.aps ctx.aps_count mac)) [
  | inl e ↦ inl (e, find_ap-Absent ctx.aps ctx.aps_count mac e)
  | inr (i, e) ↦ inr (i, e, find_ap-Found ctx.aps ctx.aps_count mac i e)
]
