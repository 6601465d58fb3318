-- ===== src/Interleaved/Extract.antt =====
-- fips202/keccakf1600.c with fips202/SnP-Relaned.h: bytes read from a state.
use mlkem_c_embedded.Base.{
  ℕ, zero, suc, ◌+◌, ◌-◌, ◌*◌, ◌/◌, ◌%◌, ◌≤◌, ◌<◌, ◌≡◌, refl, sym, ap, ap₂, ◌∙◌, arith, List, [],
  ◌∷◌, ◌++◌, length, get_or, take, drop, bit_and, bit_and-le, ◌>>>◌, ltb, ◌==◌, if◌then◌else◌, ◌⊎◌,
  inl, inr, true, false, Bool-cases, lt→ltb, IsBytes,
}
use native.Mathlib.Decide.{ℕ_discrete}
use mlkem_c_embedded.Interleaved.{
  low_half, high_half, word_bytes, lane_bytes, extract_bytes_in_lane, extract_lanes,
  extract_bytes_loop, state_extract_bytes,
}
use mlkem_c_embedded.Interleaved.Steps.{step_bytes, step_bytes_cases}

-- The byte `o` of a state.
unfoldable pub state_byte : List ℕ → ℕ → ℕ
state_byte s o = get_or (lane_bytes s (o / 8)) (o % 8) 0

-- The `n` bytes from byte `o` on.
unfoldable pub extract_from : List ℕ → ℕ → ℕ → List ℕ
extract_from s o zero = []
extract_from s o (suc n) = state_byte s o ∷ extract_from s (o + 1) n

pub length-extract_from : (s : List ℕ) (o n : ℕ) → length (extract_from s o n) ≡ n
unfolding extract_from
length-extract_from s o zero = refl
length-extract_from s o (suc n) = ap suc (length-extract_from s (o + 1) n)

pub extract_from-append :
    (s : List ℕ) (o m n : ℕ)
    → extract_from s o (m + n) ≡ extract_from s o m ++ extract_from s (o + m) n
unfolding extract_from
extract_from-append s o zero n =
    let e : 0 + n ≡ n = omega arith in let e' : o ≡ o + 0 = omega arith in ap₂ (extract_from s) e' e
extract_from-append s o (suc m) n =
    let e : suc m + n ≡ suc (m + n) = omega arith in
    let e' : o + 1 + m ≡ o + suc m = omega arith in
    ap (extract_from s o) e
    ∙ ap (λ t. state_byte s o ∷ t)
        (extract_from-append s (o + 1) m n
          ∙ ap (λ k. extract_from s (o + 1) m ++ extract_from s k n) e')

byte-lt : (w : ℕ) → bit_and w 0xFF < 256
byte-lt w = omega (arith, bit_and-le w 0xFF)

one_byte :
    (w : ℕ) (xs : List ℕ)
    → ((i : ℕ) → get_or xs i 0 < 256)
    → (i : ℕ) → get_or (bit_and w 0xFF ∷ xs) i 0 < 256
one_byte w xs h zero = byte-lt w
one_byte w xs h (suc i) = h i

four_bytes :
    (w : ℕ) (xs : List ℕ)
    → ((i : ℕ) → get_or xs i 0 < 256)
    → (i : ℕ) → get_or (word_bytes w ++ xs) i 0 < 256
unfolding word_bytes
four_bytes w xs h =
    let d = bit_and (w >>> 24) 0xFF ∷ xs in
    let c = bit_and (w >>> 16) 0xFF ∷ d in
    let b = bit_and (w >>> 8) 0xFF ∷ c in
    one_byte w b (one_byte (w >>> 8) c (one_byte (w >>> 16) d (one_byte (w >>> 24) xs h)))

pub state_byte-lt : (s : List ℕ) (o : ℕ) → state_byte s o < 256
unfolding state_byte lane_bytes
state_byte-lt s o =
    let even = get_or s (o / 8 * 2) 0 in
    let odd = get_or s (o / 8 * 2 + 1) 0 in
    four_bytes (low_half even odd) (word_bytes (high_half even odd)) high (o % 8)
  where
    high :
        (i : ℕ)
        → get_or (word_bytes (high_half (get_or s (o / 8 * 2) 0) (get_or s (o / 8 * 2 + 1) 0))) i 0
          < 256
    high i =
        unfold word_bytes in
        four_bytes (high_half (get_or s (o / 8 * 2) 0) (get_or s (o / 8 * 2 + 1) 0)) []
          (λ k. omega arith) i

length-lane_bytes : (s : List ℕ) (lane : ℕ) → length (lane_bytes s lane) ≡ 8
unfolding lane_bytes word_bytes
length-lane_bytes s lane = refl

pub extract_from-IsBytes : (n : ℕ) (s : List ℕ) (o : ℕ) → IsBytes (extract_from s o n)
unfolding extract_from
extract_from-IsBytes zero s o i h = absurd (omega arith)
extract_from-IsBytes (suc n) s o zero h = state_byte-lt s o
extract_from-IsBytes (suc n) s o (suc i) h = extract_from-IsBytes n s (o + 1) i (omega arith)

drop_cons : (xs : List ℕ) (i : ℕ) → i < length xs → drop i xs ≡ get_or xs i 0 ∷ drop (i + 1) xs
drop_cons [] i h = absurd (omega arith)
drop_cons (x ∷ xs) zero h = refl
drop_cons (x ∷ xs) (suc i) h =
    let e : suc i + 1 ≡ suc (i + 1) = omega arith in
    drop_cons xs i (omega arith) ∙ ap (λ k. get_or xs i 0 ∷ drop k (x ∷ xs)) (sym e)

pub extract_bytes_in_lane_lem :
    (n : ℕ) (s : List ℕ) (lane off : ℕ)
    → off + n ≤ 8
    → extract_bytes_in_lane s lane off n ≡ extract_from s (lane * 8 + off) n
unfolding extract_from extract_bytes_in_lane state_byte
extract_bytes_in_lane_lem zero s lane off h = refl
extract_bytes_in_lane_lem (suc n) s lane off h =
    let q : (lane * 8 + off) / 8 ≡ lane = omega arith in
    let r : (lane * 8 + off) % 8 ≡ off = omega arith in
    let e : lane * 8 + (off + 1) ≡ lane * 8 + off + 1 = omega arith in
    ap (take (suc n)) (drop_cons (lane_bytes s lane) off (omega (arith, length-lane_bytes s lane)))
    ∙ ap₂ ◌∷◌ (ap₂ (λ i j. get_or (lane_bytes s i) j 0) (sym q) (sym r)) (
        extract_bytes_in_lane_lem n s lane (off + 1) (omega arith) ∙ ap (λ k. extract_from s k n) e)

-- A whole lane.
lane_bytes_lem : (s : List ℕ) (lane : ℕ) → lane_bytes s lane ≡ extract_from s (lane * 8) 8
unfolding extract_bytes_in_lane lane_bytes word_bytes
lane_bytes_lem s lane =
    let e : lane * 8 + 0 ≡ lane * 8 = omega arith in
    extract_bytes_in_lane_lem 8 s lane 0 (omega arith) ∙ ap (λ k. extract_from s k 8) e

extract_lanes_lem :
    (left i : ℕ) (s : List ℕ) → extract_lanes left i s ≡ extract_from s (i * 8) (left * 8)
unfolding extract_lanes extract_from
extract_lanes_lem zero i s = refl
extract_lanes_lem (suc left) i s =
    let e : (i + 1) * 8 ≡ i * 8 + 8 = omega arith in
    let e' : suc left * 8 ≡ 8 + left * 8 = omega arith in
    ap₂ ◌++◌ (lane_bytes_lem s i)
      (extract_lanes_lem left (i + 1) s ∙ ap (λ k. extract_from s k (left * 8)) e)
    ∙ sym (ap (extract_from s (i * 8)) e' ∙ extract_from-append s (i * 8) 8 (left * 8))

-- The read that follows one of `n` bytes, where there is one.
extract_from-step :
    (s : List ℕ) (o o' n left : ℕ)
    → n ≤ left
    → (n ≡ left) ⊎ (o' ≡ o + n)
    → extract_from s o n ++ extract_from s o' (left - n) ≡ extract_from s o left
unfolding extract_from
extract_from-step s o o' n left h which =
    let whole : n + (left - n) ≡ left = omega arith in
    let next : extract_from s o' (left - n) ≡ extract_from s (o + n) (left - n) = elim which [
      | inl e ↦
          let gone : left - n ≡ 0 = omega arith in
          ap (extract_from s o') gone ∙ sym (ap (extract_from s (o + n)) gone)
      | inr e ↦ ap (λ k. extract_from s k (left - n)) e
    ] in
    ap (◌++◌ (extract_from s o n)) next
    ∙ sym (ap (extract_from s o) (sym whole) ∙ extract_from-append s o n (left - n))

extract_bytes_loop_lem :
    (fuel : ℕ) (s : List ℕ) (left lane off : ℕ)
    → left ≤ fuel
    → off < 8
    → extract_bytes_loop fuel s left lane off ≡ extract_from s (lane * 8 + off) left
unfolding extract_bytes_loop extract_from step_bytes
extract_bytes_loop_lem zero s zero lane off h l = refl
extract_bytes_loop_lem zero s (suc left) lane off h l = absurd (omega arith)
extract_bytes_loop_lem (suc fuel) s zero lane off h l = refl
extract_bytes_loop_lem (suc fuel) s (suc left) lane off h l =
    let n = step_bytes (suc left) off in
    let step = step_bytes_cases (suc left) off (omega arith) l in
    let next : (n ≡ suc left) ⊎ ((lane + 1) * 8 + 0 ≡ lane * 8 + off + n) = elim step.3 [
      | inl e ↦ inl e
      | inr e ↦ inr (omega arith)
    ] in
    let more : ltb 0 (suc left) ≡ true = lt→ltb 0 (suc left) (omega arith) in
    rw more (
      ap₂ ◌++◌ (extract_bytes_in_lane_lem n s lane off step.2) (
        extract_bytes_loop_lem fuel s (suc left - n) (lane + 1) 0 (omega (arith, step.0))
          (omega arith))
      ∙ extract_from-step s (lane * 8 + off) ((lane + 1) * 8 + 0) n (suc left) step.1 next)

-- For every state, offset and length, KeccakF1600_StateExtractBytes, by whole lanes and by parts
-- of lanes, gives the bytes of the lanes one after the other.
pub state_extract_bytes_lem :
    (s : List ℕ) (o n : ℕ) → state_extract_bytes s o n ≡ extract_from s o n
unfolding state_extract_bytes
state_extract_bytes_lem s o n = elim (ℕ_discrete o 0) [
  | no h ↦
      let e : (o == 0) ≡ false = ground arith in
      let at : o / 8 * 8 + o % 8 ≡ o = omega arith in
      rw e (
        extract_bytes_loop_lem n s n (o / 8) (o % 8) (omega arith) (omega arith)
        ∙ ap (λ k. extract_from s k n) at)
  | yes z ↦
      let e : (o == 0) ≡ true = ground arith in rw e (lanes ∙ ap (λ k. extract_from s k n) (sym z))
]
  where
    all : extract_lanes (n / 8) 0 s ≡ extract_from s 0 (n / 8 * 8)
    all = extract_lanes_lem (n / 8) 0 s

    lanes :
        (if ltb 0 (n % 8)
          then extract_lanes (n / 8) 0 s ++ extract_bytes_in_lane s (n / 8) 0 (n % 8)
          else extract_lanes (n / 8) 0 s)
        ≡ extract_from s 0 n
    lanes = elim (Bool-cases (ltb 0 (n % 8))) [
      | inl e ↦
          let split : n / 8 * 8 + n % 8 ≡ n = omega arith in
          rw e (
            ap₂ ◌++◌ all (extract_bytes_in_lane_lem (n % 8) s (n / 8) 0 (omega arith))
            ∙ sym (
                ap (extract_from s 0) (sym split)
                ∙ extract_from-append s 0 (n / 8 * 8) (n % 8)
                ∙ ap (λ k. extract_from s 0 (n / 8 * 8) ++ extract_from s k (n % 8)) (omega arith)))
      | inr e ↦ let whole : n / 8 * 8 ≡ n = ground arith in rw e (all ∙ ap (extract_from s 0) whole)
    ]
