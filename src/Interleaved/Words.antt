-- ===== src/Interleaved/Words.antt =====
-- fips202/keccakf1600.c: the words of a lane under `^`.
use mlkem_c_embedded.Base.{
  ℕ, zero, suc, ◌+◌, ◌*◌, ◌^◌, ◌<◌, ◌≡◌, ◌≢◌, refl, sym, ap, ap₂, ◌∙◌, arith, List, [], ◌∷◌,
  bit_xor, bit_xor-zero, bit_xor_assoc, bit_xor-lt,
}
use mlkem_c_embedded.Interleaved.{swap_bits, prepare_to, even_word, odd_word, xor_word, xor_lane}
use mlkem_c_embedded.Interleaved.Mix.{mix_even, mix_odd, mix_even_add, mix_odd_add}
use mlkem_c_embedded.Interleaved.Linear.{prepare_to-IsLinear, prepare_to-lt}

-- Joining words into a state.
pub xor_word_twice :
    (s : List ℕ) (i a b : ℕ) → xor_word (xor_word s i a) i b ≡ xor_word s i (bit_xor a b)
unfolding xor_word
xor_word_twice [] i a b = refl
xor_word_twice (x ∷ s) zero a b = ap (λ y. y ∷ s) (bit_xor_assoc x a b)
xor_word_twice (x ∷ s) (suc i) a b = ap (λ t. x ∷ t) (xor_word_twice s i a b)

pub xor_word_comm :
    (s : List ℕ) (i j a b : ℕ)
    → i ≢ j
    → xor_word (xor_word s i a) j b ≡ xor_word (xor_word s j b) i a
unfolding xor_word
xor_word_comm [] i j a b h = refl
xor_word_comm (x ∷ s) zero zero a b h = absurd (h refl)
xor_word_comm (x ∷ s) zero (suc j) a b h = refl
xor_word_comm (x ∷ s) (suc i) zero a b h = refl
xor_word_comm (x ∷ s) (suc i) (suc j) a b h =
    ap (λ t. x ∷ t) (xor_word_comm s i j a b (λ e. h (ap suc e)))

pub xor_word_zero : (s : List ℕ) (i : ℕ) → xor_word s i 0 ≡ s
unfolding xor_word
xor_word_zero [] i = refl
xor_word_zero (x ∷ s) zero = ap (λ y. y ∷ s) (bit_xor-zero x)
xor_word_zero (x ∷ s) (suc i) = ap (λ t. x ∷ t) (xor_word_zero s i)

pub even_word_add :
    (a b c d : ℕ) → even_word (bit_xor a c) (bit_xor b d) ≡ bit_xor (even_word a b) (even_word c d)
unfolding even_word mix_even
even_word_add a b c d =
    ap₂ mix_even (prepare_to-IsLinear a c) (prepare_to-IsLinear b d)
    ∙ mix_even_add (prepare_to a) (prepare_to b) (prepare_to c) (prepare_to d)

pub odd_word_add :
    (a b c d : ℕ)
    → a < 2 ^ 32
    → c < 2 ^ 32
    → odd_word (bit_xor a c) (bit_xor b d) ≡ bit_xor (odd_word a b) (odd_word c d)
unfolding odd_word mix_odd
odd_word_add a b c d ha hc =
    let ha' = prepare_to-lt a ha in
    let hc' = prepare_to-lt c hc in
    ap₂ mix_odd (prepare_to-IsLinear a c) (prepare_to-IsLinear b d)
    ∙ mix_odd_add (prepare_to a) (prepare_to b) (prepare_to c) (prepare_to d) ha' hc'
        (bit_xor-lt 32 (prepare_to a) (prepare_to c) ha' hc')

-- Two additions to a lane are one.
pub xor_lane_twice :
    (s : List ℕ) (lane a b c d : ℕ)
    → a < 2 ^ 32
    → c < 2 ^ 32
    → xor_lane (xor_lane s lane a b) lane c d ≡ xor_lane s lane (bit_xor a c) (bit_xor b d)
unfolding xor_lane
xor_lane_twice s lane a b c d ha hc =
    let i = lane * 2 + 0 in
    let j = lane * 2 + 1 in
    let s0 = xor_word s i (even_word a b) in
    ap (λ t. xor_word t j (odd_word c d))
      (xor_word_comm s0 j i (odd_word a b) (even_word c d) (omega arith)
        ∙ ap (λ t. xor_word t j (odd_word a b))
            (xor_word_twice s i (even_word a b) (even_word c d)))
    ∙ xor_word_twice (xor_word s i (bit_xor (even_word a b) (even_word c d))) j (odd_word a b)
        (odd_word c d)
    ∙ ap₂ (λ e o. xor_word (xor_word s i e) j o) (sym (even_word_add a b c d))
        (sym (odd_word_add a b c d ha hc))

pub xor_lane_zero : (s : List ℕ) (lane : ℕ) → xor_lane s lane 0 0 ≡ s
unfolding xor_lane
xor_lane_zero s lane =
    let e : even_word 0 0 ≡ 0 = unfold even_word prepare_to swap_bits in refl in
    let o : odd_word 0 0 ≡ 0 = unfold odd_word prepare_to swap_bits in refl in
    rw (e, o)
      (xor_word_zero (xor_word s (lane * 2 + 0) 0) (lane * 2 + 1) ∙ xor_word_zero s (lane * 2 + 0))
