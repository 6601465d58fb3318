-- ===== src/Interleaved/Mix.antt =====
-- fips202/keccakf1600.c: the halves of two words, exchanged.
use mlkem_c_embedded.Base.{
  ℕ, ◌+◌, ◌*◌, ◌/◌, ◌%◌, ◌^◌, ◌<◌, ◌≡◌, sym, ap, ap₂, ◌∙◌, arith, bit_and, bit_or, bit_xor,
  bit_xor_swap, bit_and-bit_xor, bit_and-shift, bit_or-bit_xor, bit_or_low, bit_and_mask,
  bit_xor-shift_left, bit_xor-shift_right, bit_xor-mod, ◌<<<◌, ◌>>>◌,
}

-- The low halves of two words, and the high halves.
unfoldable pub mix_even : ℕ → ℕ → ℕ
mix_even x y = bit_or (bit_and x 0x0000FFFF) ((y <<< 16) % 2 ^ 32)

unfoldable pub mix_odd : ℕ → ℕ → ℕ
mix_odd x y = bit_or (x >>> 16) (bit_and y 0xFFFF0000)

low_field : (x : ℕ) → bit_and x 0x0000FFFF ≡ x % 2 ^ 16
low_field x = bit_and_mask 16 x

high_field : (y : ℕ) → bit_and y 0xFFFF0000 ≡ y / 2 ^ 16 % 2 ^ 16 * 2 ^ 16
high_field y = bit_and-shift 16 y 0x0000FFFF ∙ ap (λ (t : ℕ). t * 2 ^ 16) (low_field (y / 2 ^ 16))

shifted : (y : ℕ) → (y <<< 16) % 2 ^ 32 ≡ y % 2 ^ 16 * 2 ^ 16
shifted y = omega arith

mix_even_xor : (x y : ℕ) → mix_even x y ≡ bit_xor (bit_and x 0x0000FFFF) ((y <<< 16) % 2 ^ 32)
unfolding mix_even
mix_even_xor x y =
    rw (shifted y)
      (bit_or-bit_xor 16 (bit_and x 0x0000FFFF) (y % 2 ^ 16) (omega (arith, low_field x)))

mix_odd_xor : (x y : ℕ) → x < 2 ^ 32 → mix_odd x y ≡ bit_xor (x >>> 16) (bit_and y 0xFFFF0000)
unfolding mix_odd
mix_odd_xor x y h =
    rw (high_field y) (bit_or-bit_xor 16 (x >>> 16) (y / 2 ^ 16 % 2 ^ 16) (omega arith))

pub mix_even_add :
    (a b c d : ℕ) → mix_even (bit_xor a c) (bit_xor b d) ≡ bit_xor (mix_even a b) (mix_even c d)
mix_even_add a b c d =
    let shift : (bit_xor b d <<< 16) % 2 ^ 32
        ≡ bit_xor ((b <<< 16) % 2 ^ 32) ((d <<< 16) % 2 ^ 32) =
      ap (λ (t : ℕ). t % 2 ^ 32) (bit_xor-shift_left 16 b d)
      ∙ bit_xor-mod 32 (b <<< 16) (d <<< 16) in
    mix_even_xor (bit_xor a c) (bit_xor b d)
    ∙ ap₂ bit_xor (bit_and-bit_xor a c 0x0000FFFF) shift
    ∙ bit_xor_swap (bit_and a 0x0000FFFF) (bit_and c 0x0000FFFF) ((b <<< 16) % 2 ^ 32)
        ((d <<< 16) % 2 ^ 32)
    ∙ sym (ap₂ bit_xor (mix_even_xor a b) (mix_even_xor c d))

pub mix_odd_add :
    (a b c d : ℕ)
    → a < 2 ^ 32
    → c < 2 ^ 32
    → bit_xor a c < 2 ^ 32
    → mix_odd (bit_xor a c) (bit_xor b d) ≡ bit_xor (mix_odd a b) (mix_odd c d)
mix_odd_add a b c d ha hc h =
    mix_odd_xor (bit_xor a c) (bit_xor b d) h
    ∙ ap₂ bit_xor (bit_xor-shift_right 16 a c) (bit_and-bit_xor b d 0xFFFF0000)
    ∙ bit_xor_swap (a >>> 16) (c >>> 16) (bit_and b 0xFFFF0000) (bit_and d 0xFFFF0000)
    ∙ sym (ap₂ bit_xor (mix_odd_xor a b ha) (mix_odd_xor c d hc))

-- The fields of the mixed words.
mix_even_sum : (x y : ℕ) → mix_even x y ≡ x % 2 ^ 16 + y % 2 ^ 16 * 2 ^ 16
unfolding mix_even
mix_even_sum x y =
    rw (low_field x, shifted y) (bit_or_low 16 (x % 2 ^ 16) (y % 2 ^ 16) (omega arith))

mix_odd_sum : (x y : ℕ) → x < 2 ^ 32 → y < 2 ^ 32 → mix_odd x y ≡ x / 2 ^ 16 + y / 2 ^ 16 * 2 ^ 16
unfolding mix_odd
mix_odd_sum x y hx hy =
    let e : y / 2 ^ 16 % 2 ^ 16 ≡ y / 2 ^ 16 = omega arith in
    rw (high_field y, e) (bit_or_low 16 (x / 2 ^ 16) (y / 2 ^ 16) (omega arith))

pub mix_even-lt : (x y : ℕ) → mix_even x y < 2 ^ 32
mix_even-lt x y = omega (arith, mix_even_sum x y)

pub mix_odd-lt : (x y : ℕ) → x < 2 ^ 32 → y < 2 ^ 32 → mix_odd x y < 2 ^ 32
mix_odd-lt x y hx hy = omega (arith, mix_odd_sum x y hx hy)

-- Exchanging the halves twice gives the words back.
pub mix_twice :
    (x y : ℕ)
    → x < 2 ^ 32
    → y < 2 ^ 32
    → (mix_even (mix_even x y) (mix_odd x y) ≡ x) × (mix_odd (mix_even x y) (mix_odd x y) ≡ y)
mix_twice x y hx hy =
    let e = mix_even x y in
    let o = mix_odd x y in
    let he = mix_even_sum x y in
    let ho = mix_odd_sum x y hx hy in
    let ee = mix_even_sum e o in
    let eo = mix_odd_sum e o (mix_even-lt x y) (mix_odd-lt x y hx hy) in (omega arith, omega arith)
