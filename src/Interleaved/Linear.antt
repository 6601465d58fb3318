-- ===== src/Interleaved/Linear.antt =====
-- fips202/keccakf1600.c: the interleaving of bits, as linear maps of bit vectors.
use mlkem_c_embedded.Base.{
  ℕ, zero, suc, ◌-◌, ◌*◌, ◌%◌, ◌^◌, ◌<◌, ◌≡◌, refl, sym, ap, ap₂, ◌∙◌, arith, bit_and, bit_xor,
  bit_xor_self, bit_xor_swap, bit_and-bit_xor, bit_xor-shift_left, bit_xor-shift_right, bit_xor_low,
  bit_xor-mod, bit_xor-lt, bit_and-le, Bool, true, ◌&&◌, ◌==◌, ◌<<<◌, ◌>>>◌,
}
use native.Mathlib.Decide.{dec_lt}
use native.Mathlib.Nat.{pow-suc}
use mlkem_c_embedded.Interleaved.{swap_bits, prepare_to, prepare_from}

abbrev pub IsLinear : (ℕ → ℕ) → Type 0
IsLinear f = (a b : ℕ) → f (bit_xor a b) ≡ bit_xor (f a) (f b)

pub linear_zero : (f : ℕ → ℕ) → IsLinear f → f 0 ≡ 0
linear_zero f l = ap f (sym (bit_xor_self 0)) ∙ l 0 0 ∙ bit_xor_self (f 0)

pub compose-IsLinear : (f g : ℕ → ℕ) → IsLinear f → IsLinear g → IsLinear (λ x. f (g x))
compose-IsLinear f g lf lg a b = ap f (lg a b) ∙ lf (g a) (g b)

pub bit_xor-IsLinear : (f g : ℕ → ℕ) → IsLinear f → IsLinear g → IsLinear (λ x. bit_xor (f x) (g x))
bit_xor-IsLinear f g lf lg a b =
    ap₂ bit_xor (lf a b) (lg a b) ∙ bit_xor_swap (f a) (f b) (g a) (g b)

-- Whether two maps agree on the powers of two below `2 ^ n`.
pub agree : (ℕ → ℕ) → (ℕ → ℕ) → ℕ → Bool
agree f g zero = true
agree f g (suc n) = f (2 ^ n) == g (2 ^ n) && agree f g n

-- Two linear maps that agree on the powers of two below `2 ^ n` agree below `2 ^ n`.
pub linear_ext :
    (f g : ℕ → ℕ) (n x : ℕ) → IsLinear f → IsLinear g → agree f g n ≡ true → x < 2 ^ n → f x ≡ g x
unfolding agree
linear_ext f g zero x lf lg h l =
    let e : x ≡ 0 = omega arith in ap f e ∙ linear_zero f lf ∙ sym (linear_zero g lg) ∙ ap g (sym e)
linear_ext f g (suc n) x lf lg h l =
    let p : ℕ = 2 ^ n in
    let here : f p ≡ g p = ground arith in
    let below : agree f g n ≡ true = ground arith in
    elim (dec_lt x p) [
      | yes y ↦ linear_ext f g n x lf lg below y
      | no y ↦
          let low = x - p in
          let small : low < p = omega (arith, pow-suc 2 n) in
          let one : p ≡ 1 * p = omega arith in
          let join : bit_xor low p ≡ x =
            ap (bit_xor low) one ∙ bit_xor_low n low 1 small ∙ omega arith in
          ap f (sym join)
          ∙ lf low p
          ∙ ap₂ bit_xor (linear_ext f g n low lf lg below small) here
          ∙ sym (lg low p)
          ∙ ap g join
    ]

swap_bits-IsLinear : (mask n : ℕ) → IsLinear (swap_bits mask n)
unfolding swap_bits
swap_bits-IsLinear mask n =
    let temp : ℕ → ℕ = λ x. bit_and (bit_xor x (x >>> n)) mask in
    let l : IsLinear temp = λ a b.
      ap (λ t. bit_and t mask)
        (ap (bit_xor (bit_xor a b)) (bit_xor-shift_right n a b)
          ∙ bit_xor_swap a b (a >>> n) (b >>> n))
      ∙ bit_and-bit_xor (bit_xor a (a >>> n)) (bit_xor b (b >>> n)) mask in
    bit_xor-IsLinear (λ x. bit_xor x (temp x)) (λ x. (temp x <<< n) % 2 ^ 32)
      (bit_xor-IsLinear (λ x. x) temp (λ a b. refl) l)
      (λ a b.
        ap (λ t. (t <<< n) % 2 ^ 32) (l a b)
        ∙ ap (λ (t : ℕ). t % 2 ^ 32) (bit_xor-shift_left n (temp a) (temp b))
        ∙ bit_xor-mod 32 (temp a <<< n) (temp b <<< n))

-- Four lines of the macros.
abbrev four : (ℕ → ℕ) → (ℕ → ℕ) → (ℕ → ℕ) → (ℕ → ℕ) → ℕ → ℕ
four f g h k x = f (g (h (k x)))

four-IsLinear :
    (f g h k : ℕ → ℕ) → IsLinear f → IsLinear g → IsLinear h → IsLinear k → IsLinear (four f g h k)
four-IsLinear f g h k lf lg lh lk =
    compose-IsLinear f (λ x. g (h (k x))) lf
      (compose-IsLinear g (λ x. h (k x)) lg (compose-IsLinear h k lh lk))

pub prepare_to-IsLinear : IsLinear prepare_to
unfolding prepare_to
prepare_to-IsLinear =
    four-IsLinear (swap_bits 0x0000FF00 8) (swap_bits 0x00F000F0 4) (swap_bits 0x0C0C0C0C 2)
      (swap_bits 0x22222222 1) (swap_bits-IsLinear 0x0000FF00 8) (swap_bits-IsLinear 0x00F000F0 4)
      (swap_bits-IsLinear 0x0C0C0C0C 2) (swap_bits-IsLinear 0x22222222 1)

pub prepare_from-IsLinear : IsLinear prepare_from
unfolding prepare_from
prepare_from-IsLinear =
    four-IsLinear (swap_bits 0x22222222 1) (swap_bits 0x0C0C0C0C 2) (swap_bits 0x00F000F0 4)
      (swap_bits 0x0000FF00 8) (swap_bits-IsLinear 0x22222222 1) (swap_bits-IsLinear 0x0C0C0C0C 2)
      (swap_bits-IsLinear 0x00F000F0 4) (swap_bits-IsLinear 0x0000FF00 8)

-- For every word of 32 bits, the lines of prepareFromBitInterleaving undo those of
-- prepareToBitInterleaving.
pub prepare_from-prepare_to : (x : ℕ) → x < 2 ^ 32 → prepare_from (prepare_to x) ≡ x
prepare_from-prepare_to x l =
    linear_ext (λ x. prepare_from (prepare_to x)) (λ x. x) 32 x
      (compose-IsLinear prepare_from prepare_to prepare_from-IsLinear prepare_to-IsLinear)
      (λ a b. refl) undone l
  where
    undone : agree (λ x. prepare_from (prepare_to x)) (λ x. x) 32 ≡ true
    undone = unfold agree prepare_from prepare_to swap_bits in refl

-- Words of 32 bits stay words of 32 bits.
swap_bits-lt : (mask n x : ℕ) → mask < 2 ^ 32 → x < 2 ^ 32 → swap_bits mask n x < 2 ^ 32
unfolding swap_bits
swap_bits-lt mask n x hm h =
    let temp = bit_and (bit_xor x (x >>> n)) mask in
    let ht : temp < 2 ^ 32 = omega (arith, bit_and-le (bit_xor x (x >>> n)) mask) in
    bit_xor-lt 32 (bit_xor x temp) ((temp <<< n) % 2 ^ 32) (bit_xor-lt 32 x temp h ht) (omega arith)

pub prepare_to-lt : (x : ℕ) → x < 2 ^ 32 → prepare_to x < 2 ^ 32
unfolding prepare_to
prepare_to-lt x h =
    swap_bits-lt 0x0000FF00 8
      (swap_bits 0x00F000F0 4 (swap_bits 0x0C0C0C0C 2 (swap_bits 0x22222222 1 x))) (omega arith)
      (swap_bits-lt 0x00F000F0 4 (swap_bits 0x0C0C0C0C 2 (swap_bits 0x22222222 1 x)) (omega arith) (
        swap_bits-lt 0x0C0C0C0C 2 (swap_bits 0x22222222 1 x) (omega arith)
          (swap_bits-lt 0x22222222 1 x (omega arith) h)))
