-- ===== src/Interleaved/Halves.antt =====
-- fips202/keccakf1600.c: the bytes of the words of a lane.
use mlkem_c_embedded.Base.{
  ℕ, zero, suc, ◌%◌, ◌^◌, ◌<◌, ◌≡◌, refl, sym, ap, ap₂, ◌∙◌, arith, List, [], ◌∷◌, ◌++◌, get_or,
  bit_and, bit_xor, bit_xor-zero, bit_and-bit_xor, bit_xor-shift_right, bit_xor-lt, ◌>>>◌,
}
use mlkem_c_embedded.Interleaved.{
  prepare_to, prepare_from, even_word, odd_word, low_half, high_half, load_word, word_bytes,
}
use mlkem_c_embedded.Interleaved.Mix.{
  mix_even, mix_odd, mix_even_add, mix_odd_add, mix_even-lt, mix_odd-lt, mix_twice,
}
use mlkem_c_embedded.Interleaved.Linear.{
  prepare_from-IsLinear, prepare_from-prepare_to, prepare_to-lt,
}
use mlkem_c_embedded.Interleaved.Load.{word_bytes-load_word}

-- The halves of a lane whose words are joined.
pub low_half_add :
    (a b c d : ℕ) → low_half (bit_xor a c) (bit_xor b d) ≡ bit_xor (low_half a b) (low_half c d)
unfolding low_half mix_even
low_half_add a b c d =
    ap prepare_from (mix_even_add a b c d) ∙ prepare_from-IsLinear (mix_even a b) (mix_even c d)

pub high_half_add :
    (a b c d : ℕ)
    → a < 2 ^ 32
    → c < 2 ^ 32
    → high_half (bit_xor a c) (bit_xor b d) ≡ bit_xor (high_half a b) (high_half c d)
unfolding high_half mix_odd
high_half_add a b c d ha hc =
    ap prepare_from (mix_odd_add a b c d ha hc (bit_xor-lt 32 a c ha hc))
    ∙ prepare_from-IsLinear (mix_odd a b) (mix_odd c d)

-- For a lane of two words of 32 bits, fromBitInterleaving gives back the words whose interleaved
-- bits toBitInterleavingAndXOR joins to words that are 0.
pub low_half-even_word :
    (low high : ℕ)
    → low < 2 ^ 32
    → high < 2 ^ 32
    → (low_half (even_word low high) (odd_word low high) ≡ low)
      × (high_half (even_word low high) (odd_word low high) ≡ high)
unfolding low_half high_half even_word odd_word mix_even mix_odd
low_half-even_word low high hl hh =
    let x = prepare_to low in
    let y = prepare_to high in
    let twice = mix_twice x y (prepare_to-lt low hl) (prepare_to-lt high hh) in
    (
      ap prepare_from twice.0 ∙ prepare_from-prepare_to low hl,
      ap prepare_from twice.1 ∙ prepare_from-prepare_to high hh,
    )

pub even_word-lt : (low high : ℕ) → even_word low high < 2 ^ 32
unfolding even_word mix_even
even_word-lt low high = mix_even-lt (prepare_to low) (prepare_to high)

pub odd_word-lt : (low high : ℕ) → low < 2 ^ 32 → high < 2 ^ 32 → odd_word low high < 2 ^ 32
unfolding odd_word mix_odd
odd_word-lt low high hl hh =
    mix_odd-lt (prepare_to low) (prepare_to high) (prepare_to-lt low hl) (prepare_to-lt high hh)

-- The bytes of two words of 32 bits.
unfoldable pub half_bytes : ℕ → ℕ → List ℕ
half_bytes low high = word_bytes low ++ word_bytes high

byte_add :
    (k a b : ℕ)
    → bit_and (bit_xor a b >>> k) 0xFF ≡ bit_xor (bit_and (a >>> k) 0xFF) (bit_and (b >>> k) 0xFF)
byte_add k a b =
    ap (λ t. bit_and t 0xFF) (bit_xor-shift_right k a b) ∙ bit_and-bit_xor (a >>> k) (b >>> k) 0xFF

word_bytes_add :
    (a b : ℕ) (xs ys zs : List ℕ) (i : ℕ)
    → ((j : ℕ) → get_or xs j 0 ≡ bit_xor (get_or ys j 0) (get_or zs j 0))
    → get_or (word_bytes (bit_xor a b) ++ xs) i 0
      ≡ bit_xor (get_or (word_bytes a ++ ys) i 0) (get_or (word_bytes b ++ zs) i 0)
unfolding word_bytes
word_bytes_add a b xs ys zs zero h = bit_and-bit_xor a b 0xFF
word_bytes_add a b xs ys zs (suc zero) h = byte_add 8 a b
word_bytes_add a b xs ys zs (suc (suc zero)) h = byte_add 16 a b
word_bytes_add a b xs ys zs (suc (suc (suc zero))) h = byte_add 24 a b
word_bytes_add a b xs ys zs (suc (suc (suc (suc i)))) h = h i

pub half_bytes_add :
    (a b c d i : ℕ)
    → get_or (half_bytes (bit_xor a c) (bit_xor b d)) i 0
      ≡ bit_xor (get_or (half_bytes a b) i 0) (get_or (half_bytes c d) i 0)
unfolding half_bytes
half_bytes_add a b c d i =
    word_bytes_add a c (word_bytes (bit_xor b d)) (word_bytes b) (word_bytes d) i
      (λ j. word_bytes_add' b d j)
  where
    word_bytes_add' :
        (a b i : ℕ)
        → get_or (word_bytes (bit_xor a b)) i 0
          ≡ bit_xor (get_or (word_bytes a) i 0) (get_or (word_bytes b) i 0)
    word_bytes_add' a b i =
        unfold word_bytes in word_bytes_add a b [] [] [] i (λ j. sym (bit_xor-zero 0))

-- A lane of data gives its bytes.
pub half_bytes-load_word :
    (z : List ℕ) (i : ℕ)
    → i < 8
    → get_or (half_bytes (load_word z 0) (load_word z 4)) i 0 ≡ get_or z i 0 % 2 ^ 8
unfolding half_bytes
half_bytes-load_word z i h =
    ap (λ t. get_or t i 0) (ap₂ ◌++◌ (word_bytes-load_word z 0) (word_bytes-load_word z 4))
    ∙ pick z i h
  where
    pick :
        (z : List ℕ) (i : ℕ)
        → i < 8
        → get_or
            (get_or z 0 0 % 2 ^ 8
              ∷ get_or z 1 0 % 2 ^ 8
              ∷ get_or z 2 0 % 2 ^ 8
              ∷ get_or z 3 0 % 2 ^ 8
              ∷ get_or z 4 0 % 2 ^ 8
              ∷ get_or z 5 0 % 2 ^ 8
              ∷ get_or z 6 0 % 2 ^ 8
              ∷ get_or z 7 0 % 2 ^ 8
              ∷ [])
            i
            0
          ≡ get_or z i 0 % 2 ^ 8
    pick z zero h = refl
    pick z (suc zero) h = refl
    pick z (suc (suc zero)) h = refl
    pick z (suc (suc (suc zero))) h = refl
    pick z (suc (suc (suc (suc zero)))) h = refl
    pick z (suc (suc (suc (suc (suc zero))))) h = refl
    pick z (suc (suc (suc (suc (suc (suc zero)))))) h = refl
    pick z (suc (suc (suc (suc (suc (suc (suc zero))))))) h = refl
    pick z (suc (suc (suc (suc (suc (suc (suc (suc i)))))))) h = absurd (omega arith)
