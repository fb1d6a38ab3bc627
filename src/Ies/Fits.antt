-- ===== src/Ies/Fits.antt =====
-- Elements whose SSIDs fit into the array are read without a fault (user/src/ie_iter.c).
use wifi_sniffer.Prelude.{
  ℕ, ◌+◌, ◌<◌, ◌≡◌, refl, Bool, true, false, not, ◌||◌, ◌==◌, List, [], ◌∷◌, ◌++◌, length,
  length-append, length-drop, drop, ltb, All, Outcome, ok, Bool-cases, inl, inr, ◌∙◌, arith,
}
use wifi_sniffer.Ctx.{Ap, ssid_size}
use wifi_sniffer.Ies.{printable}
use wifi_sniffer.Ies.Elements.{Ie, is_prefix, assign_ssid, apply_ie, apply_ies}

-- An SSID of at most 31 bytes, or another element.
abbrev pub fits : Ie → Bool
fits e = not (e.id == 0) || ltb (length e.payload) ssid_size

-- A result with the frequencies of `a`, whose SSID still fills its array.
abbrev pub Room : Ap → Outcome Ap → Type 0
Room a o = (b : Ap) × (o ≡ ok b) × (length b.ssid ≡ ssid_size) × (b.freq_num ≡ a.freq_num)

assign_ssid-Room :
    (a : Ap) (name : List ℕ)
    → length a.ssid ≡ ssid_size
    → length name < ssid_size
    → Room a (assign_ssid a name)
unfolding assign_ssid
assign_ssid-Room a name h l =
    let short : ltb (length a.ssid) (length name) ≡ false = ground arith in
    let small : ltb (length name) ssid_size ≡ true = ground arith in
    elim (Bool-cases (is_prefix name a.ssid || not (printable name))) [
      | inl e ↦ (a, rw (short, e), h, refl)
      | inr e ↦ (
        record a { ssid = name ++ (0 ∷ drop (length name + 1) a.ssid); ssid_len = length name },
        rw (short, e, small),
        omega (
          arith,
          length-append name (0 ∷ drop (length name + 1) a.ssid),
          length-drop (length name + 1) a.ssid,
        ),
        refl,
      )
    ]

apply_ie-Room :
    (a : Ap) (e : Ie) → length a.ssid ≡ ssid_size → fits e ≡ true → Room a (apply_ie a e)
unfolding apply_ie
apply_ie-Room a e h f = elim (Bool-cases (e.id == 0)) [
  | inl z ↦ rw z (assign_ssid-Room a e.payload h (ground arith))
  | inr z ↦ (a, rw z, h, refl)
]

pub apply_ies-Room :
    (a : Ap) (es : List Ie)
    → length a.ssid ≡ ssid_size
    → All (λ e. fits e ≡ true) es
    → Room a (apply_ies a es)
unfolding apply_ies
apply_ies-Room a [] h f = (a, refl, h, refl)
apply_ies-Room a (e ∷ es) h f =
    let (b, r, room, same) = apply_ie-Room a e h f.0 in
    let (c, r', room', same') = apply_ies-Room b es room f.1 in (c, rw (r, r'), room', same' ∙ same)
