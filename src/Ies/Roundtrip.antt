-- ===== src/Ies/Roundtrip.antt =====
-- The iterator of user/src/ie_iter.c reads from the bytes of information elements exactly those
-- elements, in their order.
use wifi_sniffer.Prelude.{
  ℕ, zero, suc, ◌+◌, ◌-◌, ◌%◌, ◌≤◌, ◌<◌, ◌≡◌, refl, sym, ap, fun_ext, ◌∙◌, true, false, none, some,
  List, [], ◌∷◌, ◌++◌, append_assoc, length, length-append, get_elem?-append, take, take_all,
  take-append, drop, drop-append, drop-append_add, ok, ◌>>=◌, arith,
}
use wifi_sniffer.FrameTypes.{mgmt_fixed_params}
use wifi_sniffer.Ctx.{Ap, PacketInfo}
use wifi_sniffer.Ies.{
  IeIterator, ie_iter, read_ies, ie_iter_first, ie_iter_step, ie_iter_next, write_ssid, update_ssid,
  visit_ie, ie_loop, iter_packet_ies,
}
use wifi_sniffer.Ies.Elements.{Ie, encode_ies, assign_ssid, apply_ie, apply_ies, is_prefix_lem}

-- The iterator after it has read element `e` behind the bytes `pre`.
abbrev standing : List ℕ → Ie → IeIterator → IeIterator
standing pre e it = record it {
  cur = some (length pre + 2);
  cur_id = e.id;
  cur_len = length e.payload;
}

-- It has the bytes `pre` behind it and the elements `es` before it.
record Splits (it : IeIterator) (pre : List ℕ) (es : List Ie) : Type 0 where
  bytes : it.ies ≡ pre ++ encode_ies es
  len : it.ies_len ≡ length it.ies

read_id :
    (it : IeIterator) (pre : List ℕ) (e : Ie) (es : List Ie)
    → Splits it pre (e ∷ es)
    → read_ies it (length pre) ≡ ok e.id
unfolding read_ies encode_ies
read_id it pre e es s =
    let z : length pre ≡ length pre + 0 = omega arith in
    rw (s.bytes, z, get_elem?-append pre (encode_ies (e ∷ es)) 0)

read_len :
    (it : IeIterator) (pre : List ℕ) (e : Ie) (es : List Ie)
    → Splits it pre (e ∷ es)
    → read_ies it (length pre + 1) ≡ ok (length e.payload)
unfolding read_ies encode_ies
read_len it pre e es s = rw (s.bytes, get_elem?-append pre (encode_ies (e ∷ es)) 1)

payload_bytes :
    (it : IeIterator) (pre : List ℕ) (e : Ie) (es : List Ie)
    → Splits it pre (e ∷ es)
    → (take (length e.payload) (drop (length pre + 2) it.ies) ≡ e.payload)
      × (length pre + 2 + length e.payload ≤ length it.ies)
unfolding encode_ies
payload_bytes it pre e es s = (
  rw (s.bytes, drop-append_add pre (encode_ies (e ∷ es)) 2, take-append e.payload (encode_ies es)),
  omega (
    arith,
    ap length s.bytes,
    length-append pre (encode_ies (e ∷ es)),
    length-append e.payload (encode_ies es),
  ),
)

update_ssid-element :
    (ap : Ap) (it : IeIterator) (pre : List ℕ) (e : Ie) (es : List Ie)
    → Splits it pre (e ∷ es)
    → update_ssid ap (standing pre e it) (length pre + 2) ≡ assign_ssid ap e.payload
unfolding update_ssid write_ssid assign_ssid
update_ssid-element ap it pre e es s =
    let (bytes, room) = payload_bytes it pre e es s in
    rw bytes (ground (arith, room, is_prefix_lem e.payload ap.ssid))

-- The loop's body does to the access point what the element says.
visit_element :
    (ap : Ap) (it : IeIterator) (pre : List ℕ) (e : Ie) (es : List Ie)
    → Splits it pre (e ∷ es)
    → visit_ie ap (standing pre e it) ≡ apply_ie ap e
unfolding visit_ie apply_ie
visit_element ap it pre e es s = rw (update_ssid-element ap it pre e es s)

-- One call of `ie_iter_next` behind the bytes `pre`.
step_element :
    (it : IeIterator) (pre : List ℕ) (e : Ie) (es : List Ie)
    → Splits it pre (e ∷ es)
    → ie_iter_step it (length pre) ≡ ok (false, standing pre e it)
unfolding ie_iter_step
step_element it pre e es s =
    let (bytes, room) = payload_bytes it pre e es s in
    ground (arith, room, s.len, read_id it pre e es s, read_len it pre e es s)

step_end :
    (it : IeIterator) (pre : List ℕ)
    → Splits it pre []
    → ie_iter_step it (length pre) ≡ ok (true, record it { cur = some (length pre) })
unfolding ie_iter_step encode_ies
step_end it pre s = ground (arith, s.len, ap length s.bytes, length-append pre [])

-- `cur` and `cur_len` together stand at the end of `pre`.
abbrev At : IeIterator → List ℕ → Type 0
At it pre = (p : ℕ) × (it.cur ≡ some p) × (p + it.cur_len ≡ length pre)

ie_iter_next-At :
    (it : IeIterator) (pre : List ℕ) → At it pre → ie_iter_next it ≡ ie_iter_step it (length pre)
unfolding ie_iter_next
ie_iter_next-At it pre (p, e, q) = ground arith

Splits-rest :
    (it : IeIterator) (pre : List ℕ) (e : Ie) (es : List Ie)
    → Splits it pre (e ∷ es)
    → Splits (standing pre e it) (pre ++ (e.id ∷ length e.payload ∷ e.payload)) es
unfolding encode_ies
Splits-rest it pre e es s = record {
  bytes = s.bytes ∙ sym (append_assoc pre (e.id ∷ length e.payload ∷ e.payload) (encode_ies es));
  len = s.len;
}

-- One round of the loop, whose call of `ie_iter_next` stands at element `e`.
round_element :
    (fuel : ℕ) (a : Ap) (it : IeIterator) (pre : List ℕ) (e : Ie) (es : List Ie)
    → Splits it pre (e ∷ es)
    → ie_iter_next it ≡ ok (false, standing pre e it)
    → ((b : Ap) → ie_loop fuel b (standing pre e it) ≡ apply_ies b es)
    → ie_loop (suc fuel) a it ≡ apply_ies a (e ∷ es)
unfolding ie_loop apply_ies
round_element fuel a it pre e es s n rest =
    rw (n, visit_element a it pre e es s) (ap (λ k. apply_ie a e >>= k) (fun_ext rest))

after_element :
    (it : IeIterator) (pre : List ℕ) (e : Ie)
    → At (standing pre e it) (pre ++ (e.id ∷ length e.payload ∷ e.payload))
after_element it pre e =
    (length pre + 2, refl, omega (arith, length-append pre (e.id ∷ length e.payload ∷ e.payload)))

-- From there the loop applies the elements that are left.
loop_elements :
    (fuel : ℕ) (a : Ap) (it : IeIterator) (pre : List ℕ) (es : List Ie)
    → Splits it pre es
    → At it pre
    → length es < fuel
    → ie_loop fuel a it ≡ apply_ies a es
loop_elements zero a it pre es s t f = absurd (omega arith)
loop_elements (suc fuel) a it pre [] s t f =
    unfold ie_loop apply_ies in rw (ie_iter_next-At it pre t, step_end it pre s)
loop_elements (suc fuel) a it pre (e ∷ es) s t f =
    round_element fuel a it pre e es s (ie_iter_next-At it pre t ∙ step_element it pre e es s) λ b.
      loop_elements fuel b (standing pre e it) (pre ++ (e.id ∷ length e.payload ∷ e.payload)) es
        (Splits-rest it pre e es s) (after_element it pre e) (omega arith)

-- The first call, which finds `cur == NULL`, gives up on two bytes or fewer.
first_element :
    (it : IeIterator) (e : Ie) (es : List Ie)
    → it.cur ≡ none
    → 2 < it.ies_len
    → Splits it [] (e ∷ es)
    → ie_iter_next it ≡ ok (false, standing [] e it)
unfolding ie_iter_next ie_iter_first
first_element it e es n h s = ground (arith, read_id it [] e es s, read_len it [] e es s)

encode_ies-length : (es : List Ie) → length es ≤ length (encode_ies es)
unfolding encode_ies
encode_ies-length [] = omega arith
encode_ies-length (e ∷ es) =
    omega (arith, encode_ies-length es, length-append e.payload (encode_ies es))

-- The iterator over the elements `es`.
abbrev fresh : List Ie → IeIterator
fresh es = record {
  cur_id = 0;
  cur_len = 0;
  cur = none;
  ies_len = length (encode_ies es);
  ies = encode_ies es;
}

start_elements :
    (fixed : List ℕ) (st : ℕ) (es : List Ie)
    → length fixed ≡ mgmt_fixed_params st
    → 2 < length (encode_ies es)
    → length (fixed ++ encode_ies es) < 256
    → ie_iter (fixed ++ encode_ies es) (length (fixed ++ encode_ies es)) st ≡ ok (some (fresh es))
unfolding ie_iter
start_elements fixed st es f h b =
    let bytes = encode_ies es in
    let len = length-append fixed bytes in
    let n : length (fixed ++ bytes) % 256 ≡ length (fixed ++ bytes) = omega arith in
    let k : length (fixed ++ bytes) - mgmt_fixed_params st ≡ length bytes = omega arith in
    let d : drop (mgmt_fixed_params st) (fixed ++ bytes) ≡ bytes =
      rw (← f) (drop-append fixed bytes) in
    rw (n, k, d, take_all (length bytes) bytes (omega arith)) (ground arith)

all_elements :
    (a : Ap) (es : List Ie)
    → 2 < length (encode_ies es)
    → ie_loop (suc (length (encode_ies es))) a (fresh es) ≡ apply_ies a es
all_elements a [] h = absurd (unfold encode_ies in omega arith)
all_elements a (e ∷ es) h =
    let it = fresh (e ∷ es) in
    let s : Splits it [] (e ∷ es) = record { bytes = refl; len = refl } in
    round_element (length (encode_ies (e ∷ es))) a it [] e es s (first_element it e es refl h s)
      λ b.
        loop_elements (length (encode_ies (e ∷ es))) b (standing [] e it)
          (e.id ∷ length e.payload ∷ e.payload) es (Splits-rest it [] e es s)
          (after_element it [] e) (encode_ies-length (e ∷ es))

-- A management frame with body `fixed ++ encode_ies es`, whose fixed part is as long as
-- `mgmt_fixed_params` says and which is no longer than 255 bytes, does to the access point what its
-- elements say, in their order, errors included. More than two bytes of elements are needed.
pub iter_packet_ies_refines :
    (a : Ap) (p : PacketInfo) (fixed : List ℕ) (es : List Ie)
    → length fixed ≡ mgmt_fixed_params p.hdr.frame_st
    → 2 < length (encode_ies es)
    → length (fixed ++ encode_ies es) < 256
    → iter_packet_ies a p (fixed ++ encode_ies es) (length (fixed ++ encode_ies es))
      ≡ apply_ies a es
unfolding iter_packet_ies
iter_packet_ies_refines a p fixed es f h b =
    rw (start_elements fixed p.hdr.frame_st es f h b) (all_elements a es h)
