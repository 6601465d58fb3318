-- ===== src/Interleaved/Add.antt =====
-- fips202/keccakf1600.c with fips202/SnP-Relaned.h: data joined to a state, byte for byte.
use mlkem_c_embedded.Base.{
  ℕ, zero, suc, ◌+◌, ◌*◌, ◌/◌, ◌%◌, ◌≤◌, ◌<◌, ◌≡◌, refl, sym, ap, ap₂, ◌∙◌, arith, List, [], ◌∷◌,
  ◌++◌, length, get_or, set, take, drop, replicate, store, get_or-set_ne, get_or-set_self,
  get_or-store_outside, get_or-drop, get_or-take, store_agree, store_all, length-store, length-set,
  length-take, length-drop, take-add, drop-add, bit_xor, bit_xor-zero, zero-bit_xor, inl, list_ext,
}
use native.Mathlib.Decide.{ℕ_discrete, dec_le}
use mlkem_c_embedded.Interleaved.{load_word, xor_lane, add_bytes_in_lane, add_lanes}
use mlkem_c_embedded.Interleaved.Words.{xor_lane_twice, xor_lane_zero}
use mlkem_c_embedded.Interleaved.Load.{load_word_add, load_word_ext, load_word-lt}

-- One byte joined to the byte `o` of a state.
unfoldable pub xor_byte : List ℕ → ℕ → ℕ → List ℕ
xor_byte s o b = add_bytes_in_lane s (o / 8) (b ∷ []) (o % 8)

-- The bytes of `input` joined, one after the other, from byte `o` on.
unfoldable pub xor_from : List ℕ → ℕ → List ℕ → List ℕ
xor_from s o [] = s
xor_from s o (b ∷ input) = xor_from (xor_byte s o b) (o + 1) input

pub xor_from-append :
    (s : List ℕ) (o : ℕ) (a b : List ℕ)
    → xor_from s o (a ++ b) ≡ xor_from (xor_from s o a) (o + length a) b
unfolding xor_from
xor_from-append s o [] b = let e : o ≡ o + 0 = omega arith in ap (λ k. xor_from s k b) e
xor_from-append s o (x ∷ a) b =
    let e : o + 1 + length a ≡ o + suc (length a) = omega arith in
    xor_from-append (xor_byte s o x) (o + 1) a b
    ∙ ap (λ k. xor_from (xor_from (xor_byte s o x) (o + 1) a) k b) e

abbrev zeros : List ℕ
zeros = replicate 8 0

pub get_or-zeros : (n i : ℕ) → get_or (replicate n zero) i 0 ≡ 0
get_or-zeros zero i = refl
get_or-zeros (suc n) zero = refl
get_or-zeros (suc n) (suc i) = get_or-zeros n i

-- The bytes of a lane, split after the first one.
split_bytes :
    (off x : ℕ) (d : List ℕ) (i : ℕ)
    → get_or (store zeros off (x ∷ d)) i 0
      ≡ bit_xor (get_or (store zeros off (x ∷ [])) i 0) (get_or (store zeros (off + 1) d) i 0)
split_bytes off x d i =
    let one = set zeros off x in
    elim (dec_le i off) [
      | yes p ↦
          let right : get_or (store zeros (off + 1) d) i 0 ≡ 0 =
            get_or-store_outside zeros (off + 1) d i 0 (inl (omega arith)) ∙ get_or-zeros 8 i in
          get_or-store_outside one (off + 1) d i 0 (inl (omega arith))
          ∙ sym (ap (bit_xor (get_or one i 0)) right ∙ bit_xor-zero (get_or one i 0))
      | no p ↦
          let left : get_or one i 0 ≡ get_or zeros i 0 =
            get_or-set_ne zeros off i x 0 (omega arith) in
          let nil : get_or one i 0 ≡ 0 = left ∙ get_or-zeros 8 i in
          let rest = get_or (store zeros (off + 1) d) i 0 in
          store_agree one zeros (off + 1) d i 0 (length-set zeros off x) left
          ∙ sym (ap (λ t. bit_xor t rest) nil ∙ zero-bit_xor rest)
    ]

add_bytes_in_lane_split :
    (s : List ℕ) (lane off x : ℕ) (d : List ℕ)
    → add_bytes_in_lane s lane (x ∷ d) off
      ≡ add_bytes_in_lane (add_bytes_in_lane s lane (x ∷ []) off) lane d (off + 1)
unfolding add_bytes_in_lane
add_bytes_in_lane_split s lane off x d =
    let all = store zeros off (x ∷ d) in
    let one = store zeros off (x ∷ []) in
    let rest = store zeros (off + 1) d in
    ap₂ (xor_lane s lane) (load_word_add all one rest 0 (split_bytes off x d))
      (load_word_add all one rest 4 (split_bytes off x d))
    ∙ sym (
        xor_lane_twice s lane (load_word one 0) (load_word one 4) (load_word rest 0)
          (load_word rest 4) (load_word-lt one 0) (load_word-lt rest 0))

add_bytes_in_lane-nil : (s : List ℕ) (lane off : ℕ) → add_bytes_in_lane s lane [] off ≡ s
unfolding add_bytes_in_lane
add_bytes_in_lane-nil s lane off =
    let low : load_word zeros 0 ≡ 0 = unfold load_word in refl in
    let high : load_word zeros 4 ≡ 0 = unfold load_word in refl in
    ap₂ (xor_lane s lane) low high ∙ xor_lane_zero s lane

pub add_bytes_in_lane_lem :
    (s : List ℕ) (lane : ℕ) (d : List ℕ) (off : ℕ)
    → off + length d ≤ 8
    → add_bytes_in_lane s lane d off ≡ xor_from s (lane * 8 + off) d
unfolding xor_from xor_byte
add_bytes_in_lane_lem s lane [] off h = add_bytes_in_lane-nil s lane off
add_bytes_in_lane_lem s lane (x ∷ d) off h =
    let q : (lane * 8 + off) / 8 ≡ lane = omega arith in
    let r : (lane * 8 + off) % 8 ≡ off = omega arith in
    let e : lane * 8 + (off + 1) ≡ lane * 8 + off + 1 = omega arith in
    add_bytes_in_lane_split s lane off x d
    ∙ add_bytes_in_lane_lem (add_bytes_in_lane s lane (x ∷ []) off) lane d (off + 1) (omega arith)
    ∙ rw (q, r, e) refl

-- A lane whose 8 bytes the data has.
xor_lane_bytes :
    (s : List ℕ) (i : ℕ) (d : List ℕ)
    → i * 8 + 8 ≤ length d
    → xor_lane s i (load_word d (i * 8)) (load_word d (i * 8 + 4))
      ≡ xor_from s (i * 8) (take 8 (drop (i * 8) d))
unfolding add_bytes_in_lane
xor_lane_bytes s i d h =
    let bytes = take 8 (drop (i * 8) d) in
    let size : length bytes ≡ 8 =
      omega (arith, length-take {A = ℕ} 8 (drop (i * 8) d), length-drop {A = ℕ} (i * 8) d) in
    let whole : store zeros 0 bytes ≡ bytes = store_all zeros bytes 0 size in
    let at : (k : ℕ) → k < 8 → get_or d (i * 8 + k) 0 ≡ get_or (store zeros 0 bytes) k 0 = λ k l.
      sym (
        ap (λ t. get_or t k 0) whole
        ∙ get_or-take 8 (drop (i * 8) d) k 0 l
        ∙ get_or-drop (i * 8) d k 0) in
    let low : load_word d (i * 8) ≡ load_word (store zeros 0 bytes) 0 =
      load_word_ext d (store zeros 0 bytes) (i * 8) 0
        (λ k l. let z : 0 + k ≡ k = omega arith in rw z (at k (omega arith))) in
    let high : load_word d (i * 8 + 4) ≡ load_word (store zeros 0 bytes) 4 =
      load_word_ext d (store zeros 0 bytes) (i * 8 + 4) 4 (λ k l.
        let z : i * 8 + 4 + k ≡ i * 8 + (4 + k) = omega arith in rw z (at (4 + k) (omega arith))) in
    let e : i * 8 + 0 ≡ i * 8 = omega arith in
    ap₂ (xor_lane s i) low high
    ∙ add_bytes_in_lane_lem s i bytes 0 (omega arith)
    ∙ ap (λ o. xor_from s o bytes) e

pub add_lanes_lem :
    (left i : ℕ) (s d : List ℕ)
    → (i + left) * 8 ≤ length d
    → add_lanes left i s d ≡ xor_from s (i * 8) (take (left * 8) (drop (i * 8) d))
unfolding add_lanes xor_from
add_lanes_lem zero i s d h = refl
add_lanes_lem (suc left) i s d h =
    let bytes = take 8 (drop (i * 8) d) in
    let size : length bytes ≡ 8 =
      omega (arith, length-take {A = ℕ} 8 (drop (i * 8) d), length-drop {A = ℕ} (i * 8) d) in
    let rest = take (left * 8) (drop 8 (drop (i * 8) d)) in
    let next : (i + 1) * 8 ≡ i * 8 + 8 = omega arith in
    let more : suc left * 8 ≡ 8 + left * 8 = omega arith in
    let tail : take (left * 8) (drop ((i + 1) * 8) d) ≡ rest =
      ap (λ k. take (left * 8) (drop k d)) next ∙ ap (take (left * 8)) (drop-add (i * 8) 8 d) in
    let all : take (suc left * 8) (drop (i * 8) d) ≡ bytes ++ rest =
      ap (λ k. take k (drop (i * 8) d)) more ∙ take-add 8 (left * 8) (drop (i * 8) d) in
    let at : (i + 1) * 8 ≡ i * 8 + length bytes = omega arith in
    add_lanes_lem left (i + 1) (xor_lane s i (load_word d (i * 8)) (load_word d (i * 8 + 4))) d
      (omega arith)
    ∙ ap (λ t. xor_from t ((i + 1) * 8) (take (left * 8) (drop ((i + 1) * 8) d)))
        (xor_lane_bytes s i d (omega arith))
    ∙ ap₂ (xor_from (xor_from s (i * 8) bytes)) at tail
    ∙ sym (ap (xor_from s (i * 8)) all ∙ xor_from-append s (i * 8) bytes rest)

xor_byte_zero : (s : List ℕ) (o : ℕ) → xor_byte s o 0 ≡ s
unfolding xor_byte add_bytes_in_lane
xor_byte_zero s o =
    let same : store zeros (o % 8) (0 ∷ []) ≡ zeros =
      list_ext 0 (store zeros (o % 8) (0 ∷ [])) zeros (length-store zeros (o % 8) (0 ∷ [])) (λ i l.
        elim (ℕ_discrete i (o % 8)) [
          | yes e ↦
              rw e (get_or-set_self zeros (o % 8) 0 0 (omega arith) ∙ sym (get_or-zeros 8 (o % 8)))
          | no e ↦ get_or-set_ne zeros (o % 8) i 0 0 (λ q. e (sym q))
        ]) in
    ap₂ (xor_lane s (o / 8)) (ap (λ t. load_word t 0) same) (ap (λ t. load_word t 4) same)
    ∙ add_bytes_in_lane-nil s (o / 8) 0

pub xor_from_zeros : (n : ℕ) (s : List ℕ) (o : ℕ) → xor_from s o (replicate n zero) ≡ s
unfolding xor_from
xor_from_zeros zero s o = refl
xor_from_zeros (suc n) s o = xor_from_zeros n (xor_byte s o 0) (o + 1) ∙ xor_byte_zero s o
