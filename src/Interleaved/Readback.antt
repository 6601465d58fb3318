-- ===== src/Interleaved/Readback.antt =====
-- fips202/keccakf1600.c: KeccakF1600_StateExtractBytes after KeccakF1600_StateXORBytes.
use mlkem_c_embedded.Base.{
  ℕ, zero, suc, ◌+◌, ◌-◌, ◌/◌, ◌%◌, ◌^◌, ◌≤◌, ◌<◌, ◌≡◌, ◌≢◌, refl, sym, ap, ap₂, ◌∙◌, arith, List,
  [], ◌∷◌, length, get_or, get_or-set_self, get_or-set_ne, store, replicate, bit_xor, bit_xor-zero,
  ltb, lt→ltb, if◌then◌else◌, false, IsBytes,
}
use native.Mathlib.Decide.{ℕ_discrete, dec_lt}
use mlkem_c_embedded.Interleaved.{
  load_word, xor_lane, lane_bytes, add_bytes_in_lane, state_xor_bytes, state_extract_bytes,
}
use mlkem_c_embedded.Interleaved.Load.{load_word-lt}
use mlkem_c_embedded.Interleaved.Halves.{half_bytes, half_bytes-load_word}
use mlkem_c_embedded.Interleaved.Bytes.{
  IsState, xor_lane-IsState, lane_bytes-xor_lane, lane_bytes_other,
}
use mlkem_c_embedded.Interleaved.Add.{xor_byte, xor_from, get_or-zeros}
use mlkem_c_embedded.Interleaved.Join.{state_xor_bytes_lem}
use mlkem_c_embedded.Interleaved.Extract.{state_byte, extract_from, state_extract_bytes_lem}

xor_byte-IsState : (s : List ℕ) (o b : ℕ) → IsState s → IsState (xor_byte s o b)
unfolding xor_byte add_bytes_in_lane
xor_byte-IsState s o b hs =
    let z = store (replicate 8 0) (o % 8) (b ∷ []) in
    xor_lane-IsState s (o / 8) (load_word z 0) (load_word z 4) hs (load_word-lt z 0)
      (load_word-lt z 4)

pub xor_from-IsState : (d s : List ℕ) (o : ℕ) → IsState s → IsState (xor_from s o d)
unfolding xor_from
xor_from-IsState [] s o hs = hs
xor_from-IsState (x ∷ d) s o hs =
    xor_from-IsState d (xor_byte s o x) (o + 1) (xor_byte-IsState s o x hs)

-- The eight bytes of a lane with one byte in it.
lane_of_byte :
    (o b i : ℕ)
    → o < 8
    → i < 8
    → b < 2 ^ 8
    → let z = store (replicate 8 0) o (b ∷ []) in
      (o ≡ i → get_or (half_bytes (load_word z 0) (load_word z 4)) i 0 ≡ b)
      × (o ≢ i → get_or (half_bytes (load_word z 0) (load_word z 4)) i 0 ≡ 0)
lane_of_byte o b i ho hi hb =
    let z = store (replicate 8 0) o (b ∷ []) in
    (
      λ e.
          let at : get_or z i 0 ≡ b =
            ap (λ k. get_or z k 0) (sym e) ∙ get_or-set_self (replicate 8 0) o b 0 (omega arith) in
          half_bytes-load_word z i hi ∙ ap (λ (t : ℕ). t % 2 ^ 8) at ∙ omega arith,
      λ n.
          let at : get_or z i 0 ≡ 0 = get_or-set_ne (replicate 8 0) o i b 0 n ∙ get_or-zeros 8 i in
          half_bytes-load_word z i hi ∙ ap (λ (t : ℕ). t % 2 ^ 8) at,
    )

-- A byte joined to a state changes the byte there, and no other.
state_byte-xor_byte :
    (s : List ℕ) (o p b : ℕ)
    → IsState s
    → o < 200
    → b < 2 ^ 8
    → (o ≡ p → state_byte (xor_byte s o b) p ≡ bit_xor (state_byte s p) b)
      × (o ≢ p → state_byte (xor_byte s o b) p ≡ state_byte s p)
unfolding state_byte xor_byte add_bytes_in_lane
state_byte-xor_byte s o p b hs ho hb =
    let z = store (replicate 8 0) (o % 8) (b ∷ []) in
    let one = lane_of_byte (o % 8) b (p % 8) (omega arith) (omega arith) hb in
    let here : o / 8 ≡ p / 8
        → get_or (lane_bytes (xor_lane s (o / 8) (load_word z 0) (load_word z 4)) (p / 8)) (p % 8) 0
          ≡ bit_xor (get_or (lane_bytes s (p / 8)) (p % 8) 0)
              (get_or (half_bytes (load_word z 0) (load_word z 4)) (p % 8) 0) =
      λ q. rw q (
        lane_bytes-xor_lane s (p / 8) (load_word z 0) (load_word z 4) (p % 8) hs (omega arith)
          (load_word-lt z 0) (load_word-lt z 4)) in
    let old = get_or (lane_bytes s (p / 8)) (p % 8) 0 in
    (
      λ e. here (ap (λ (t : ℕ). t / 8) e) ∙ ap (bit_xor old) (one.0 (ap (λ (t : ℕ). t % 8) e)),
      λ n. elim (ℕ_discrete (o / 8) (p / 8)) [
        | yes q ↦ here q ∙ ap (bit_xor old) (one.1 (omega arith)) ∙ bit_xor-zero old
        | no q ↦
            ap (λ t. get_or t (p % 8) 0)
              (lane_bytes_other s (o / 8) (load_word z 0) (load_word z 4) (p / 8) q)
      ],
    )

-- The byte that data at byte `o` has for byte `p` of the state, 0 outside.
abbrev pub byte_at : List ℕ → ℕ → ℕ → ℕ
byte_at d o p = if ltb p o then 0 else get_or d (p - o) 0

byte_at_before : (d : List ℕ) (o p : ℕ) → p < o → byte_at d o p ≡ 0
byte_at_before d o p h = rw (lt→ltb p o h) refl

byte_at_from : (d : List ℕ) (o p : ℕ) → o ≤ p → byte_at d o p ≡ get_or d (p - o) 0
byte_at_from d o p h = let e : ltb p o ≡ false = ground arith in rw e refl

state_byte-xor_from :
    (d s : List ℕ) (o p : ℕ)
    → IsState s
    → IsBytes d
    → o + length d ≤ 200
    → state_byte (xor_from s o d) p ≡ bit_xor (state_byte s p) (byte_at d o p)
unfolding xor_from
state_byte-xor_from [] s o p hs hd h = elim (dec_lt p o) [
  | yes l ↦
      sym (ap (bit_xor (state_byte s p)) (byte_at_before [] o p l) ∙ bit_xor-zero (state_byte s p))
  | no l ↦ sym (
      ap (bit_xor (state_byte s p)) (byte_at_from [] o p (omega arith))
      ∙ bit_xor-zero (state_byte s p))
]
state_byte-xor_from (x ∷ d) s o p hs hd h =
    let s' = xor_byte s o x in
    let one = state_byte-xor_byte s o p x hs (omega arith) (hd 0 (omega arith)) in
    let ih =
      state_byte-xor_from d s' (o + 1) p (xor_byte-IsState s o x hs)
        (λ i l. hd (suc i) (omega arith)) (omega arith) in
    let old = state_byte s p in
    ih ∙ elim (ℕ_discrete o p) [
      | yes e ↦
          let z : p - o ≡ 0 = omega arith in
          ap₂ bit_xor (one.0 e) (byte_at_before d (o + 1) p (omega arith))
          ∙ bit_xor-zero (bit_xor old x)
          ∙ sym (
              ap (bit_xor old)
                (byte_at_from (x ∷ d) o p (omega arith) ∙ ap (λ k. get_or (x ∷ d) k 0) z))
      | no n ↦
          let same : byte_at d (o + 1) p ≡ byte_at (x ∷ d) o p = elim (dec_lt p o) [
            | yes l ↦ byte_at_before d (o + 1) p (omega arith) ∙ sym (byte_at_before (x ∷ d) o p l)
            | no l ↦
                let z : p - o ≡ suc (p - (o + 1)) = omega arith in
                byte_at_from d (o + 1) p (omega arith)
                ∙ sym (byte_at_from (x ∷ d) o p (omega arith) ∙ ap (λ k. get_or (x ∷ d) k 0) z)
          ] in
          ap₂ bit_xor (one.1 n) same
    ]

get_or-extract_from :
    (n : ℕ) (s : List ℕ) (o k : ℕ) → k < n → get_or (extract_from s o n) k 0 ≡ state_byte s (o + k)
unfolding extract_from
get_or-extract_from zero s o k h = absurd (omega arith)
get_or-extract_from (suc n) s o zero h = let e : o ≡ o + 0 = omega arith in ap (state_byte s) e
get_or-extract_from (suc n) s o (suc k) h =
    let e : o + 1 + k ≡ o + suc k = omega arith in
    get_or-extract_from n s (o + 1) k (omega arith) ∙ ap (state_byte s) e

-- For 50 words of 32 bits and bytes that fit into the state: each byte that is extracted after the
-- data has been joined is the `^` of the byte extracted before and the byte that the data has for it,
-- which is 0 outside of the data.
pub state_extract_bytes-state_xor_bytes :
    (s d : List ℕ) (o p n k : ℕ)
    → IsState s
    → IsBytes d
    → o + length d ≤ 200
    → k < n
    → get_or (state_extract_bytes (state_xor_bytes s d o) p n) k 0
      ≡ bit_xor (get_or (state_extract_bytes s p n) k 0) (byte_at d o (p + k))
state_extract_bytes-state_xor_bytes s d o p n k hs hd h l =
    let new = state_xor_bytes s d o in
    ap (λ t. get_or t k 0) (state_extract_bytes_lem new p n)
    ∙ get_or-extract_from n new p k l
    ∙ ap (λ t. state_byte t (p + k)) (state_xor_bytes_lem s d o)
    ∙ state_byte-xor_from d s o (p + k) hs hd h
    ∙ ap (λ t. bit_xor t (byte_at d o (p + k)))
        (sym
          (ap (λ t. get_or t k 0) (state_extract_bytes_lem s p n) ∙ get_or-extract_from n s p k l))
