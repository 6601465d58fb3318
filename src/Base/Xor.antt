-- ===== src/Base/Xor.antt =====
-- `^` as a sum of bit vectors: its laws, and the operations that distribute over it.
use mlkem_c_embedded.Base.Bits.Digit.{by_halving, bit_and_digit, bit_xor_digit}
use Prim.Native.Nat.{ℕ, zero, suc, ◌+◌, ◌*◌, ◌/◌, ◌^◌, ◌<◌, ◌≤◌, bit_and, bit_or, bit_xor}
use mathlib.Core.Path.{◌≡◌, sym, ap, ap₂, ◌∙◌}
use native.Mathlib.Nat.{pow-suc, mul_comm, div-div-eq-div-mul}
use native.Mathlib.Omega.{arith}
use mlkem_c_embedded.Base.Bits.{zero-bit_xor, bit_xor-zero, zero-bit_and, bit_or_low, double}

pub bit_xor_comm : (a b : ℕ) → bit_xor a b ≡ bit_xor b a
bit_xor_comm =
    by_halving (λ a. (b : ℕ) → bit_xor a b ≡ bit_xor b a)
      (λ b. omega (arith, zero-bit_xor b, bit_xor-zero b))
      (λ a ih b. omega (arith, bit_xor_digit (suc a) b, bit_xor_digit b (suc a), ih (b / 2)))

pub bit_xor_assoc : (a b c : ℕ) → bit_xor (bit_xor a b) c ≡ bit_xor a (bit_xor b c)
bit_xor_assoc =
    by_halving (λ a. (b c : ℕ) → bit_xor (bit_xor a b) c ≡ bit_xor a (bit_xor b c))
      (λ b c. ap (λ x. bit_xor x c) (zero-bit_xor b) ∙ sym (zero-bit_xor (bit_xor b c)))
      (λ a ih b c.
        let left : bit_xor (suc a) b / 2 ≡ bit_xor (suc a / 2) (b / 2) =
          omega (arith, bit_xor_digit (suc a) b) in
        let right : bit_xor b c / 2 ≡ bit_xor (b / 2) (c / 2) = omega (arith, bit_xor_digit b c) in
        let rest : bit_xor (bit_xor (suc a) b / 2) (c / 2) ≡ bit_xor (suc a / 2) (bit_xor b c / 2) =
          rw (left, right) (ih (b / 2) (c / 2)) in
        omega (
          arith,
          bit_xor_digit (bit_xor (suc a) b) c,
          bit_xor_digit (suc a) (bit_xor b c),
          bit_xor_digit (suc a) b,
          bit_xor_digit b c,
        ))

-- Four numbers, regrouped.
pub bit_xor_swap :
    (a b c d : ℕ) → bit_xor (bit_xor a b) (bit_xor c d) ≡ bit_xor (bit_xor a c) (bit_xor b d)
bit_xor_swap a b c d =
    bit_xor_assoc a b (bit_xor c d)
    ∙ ap (bit_xor a)
        (sym (bit_xor_assoc b c d) ∙ ap (λ x. bit_xor x d) (bit_xor_comm b c) ∙ bit_xor_assoc c b d)
    ∙ sym (bit_xor_assoc a c (bit_xor b d))

pub bit_and-bit_xor : (a b m : ℕ) → bit_and (bit_xor a b) m ≡ bit_xor (bit_and a m) (bit_and b m)
bit_and-bit_xor =
    by_halving (λ a. (b m : ℕ) → bit_and (bit_xor a b) m ≡ bit_xor (bit_and a m) (bit_and b m))
      (λ b m. rw (zero-bit_xor, zero-bit_and) (sym (zero-bit_xor (bit_and b m))))
      (λ a ih b m.
        let x : bit_xor (suc a) b / 2 ≡ bit_xor (suc a / 2) (b / 2) =
          omega (arith, bit_xor_digit (suc a) b) in
        let y : bit_and (suc a) m / 2 ≡ bit_and (suc a / 2) (m / 2) =
          omega (arith, bit_and_digit (suc a) m) in
        let z : bit_and b m / 2 ≡ bit_and (b / 2) (m / 2) = omega (arith, bit_and_digit b m) in
        let rest : bit_and (bit_xor (suc a) b / 2) (m / 2)
            ≡ bit_xor (bit_and (suc a) m / 2) (bit_and b m / 2) =
          rw (x, y, z) (ih (b / 2) (m / 2)) in
        omega (
          arith,
          bit_and_digit (bit_xor (suc a) b) m,
          bit_xor_digit (bit_and (suc a) m) (bit_and b m),
          bit_xor_digit (suc a) b,
          bit_and_digit (suc a) m,
          bit_and_digit b m,
        ))

pub bit_xor-shift_left : (k a b : ℕ) → bit_xor a b * 2 ^ k ≡ bit_xor (a * 2 ^ k) (b * 2 ^ k)
bit_xor-shift_left zero a b =
    let e : a * 2 ^ 0 ≡ a = omega arith in
    let e' : b * 2 ^ 0 ≡ b = omega arith in
    let e'' : bit_xor a b * 2 ^ 0 ≡ bit_xor a b = omega arith in e'' ∙ ap₂ bit_xor (sym e) (sym e')
bit_xor-shift_left (suc k) a b =
    let x = a * 2 ^ suc k in
    let y = b * 2 ^ suc k in
    let hx : x / 2 ≡ a * 2 ^ k = omega (arith, double a k) in
    let hy : y / 2 ≡ b * 2 ^ k = omega (arith, double b k) in
    let rest : bit_xor (x / 2) (y / 2) ≡ bit_xor a b * 2 ^ k =
      rw (hx, hy) (sym (bit_xor-shift_left k a b)) in
    omega (arith, bit_xor_digit x y, double a k, double b k, double (bit_xor a b) k)

div_double : (a k : ℕ) → a / 2 ^ suc k ≡ a / 2 / 2 ^ k
div_double a k =
    ap (λ (t : ℕ). a / t) (pow-suc 2 k ∙ mul_comm (2 ^ k) 2) ∙ sym (div-div-eq-div-mul a 2 (2 ^ k))

pub bit_xor-shift_right : (k a b : ℕ) → bit_xor a b / 2 ^ k ≡ bit_xor (a / 2 ^ k) (b / 2 ^ k)
bit_xor-shift_right zero a b =
    let e : a / 2 ^ 0 ≡ a = omega arith in
    let e' : b / 2 ^ 0 ≡ b = omega arith in
    let e'' : bit_xor a b / 2 ^ 0 ≡ bit_xor a b = omega arith in e'' ∙ ap₂ bit_xor (sym e) (sym e')
bit_xor-shift_right (suc k) a b =
    let half : bit_xor a b / 2 ≡ bit_xor (a / 2) (b / 2) = omega (arith, bit_xor_digit a b) in
    div_double (bit_xor a b) k
    ∙ ap (λ (t : ℕ). t / 2 ^ k) half
    ∙ bit_xor-shift_right k (a / 2) (b / 2)
    ∙ ap₂ bit_xor (sym (div_double a k)) (sym (div_double b k))

-- `^` of fields that do not overlap is their sum, and so is `|`.
pub bit_xor_low : (k r q : ℕ) → r < 2 ^ k → bit_xor r (q * 2 ^ k) ≡ r + q * 2 ^ k
bit_xor_low zero zero q h = omega (arith, zero-bit_xor (q * 2 ^ 0))
bit_xor_low zero (suc r) q h = absurd (omega arith)
bit_xor_low (suc k) r q h =
    let half : q * 2 ^ suc k / 2 ≡ q * 2 ^ k = omega (arith, double q k) in
    let rest : bit_xor (r / 2) (q * 2 ^ suc k / 2) ≡ r / 2 + q * 2 ^ k =
      rw half (bit_xor_low k (r / 2) q (omega (arith, pow-suc 2 k))) in
    omega (arith, bit_xor_digit r (q * 2 ^ suc k), double q k)

pub bit_or-bit_xor : (k r q : ℕ) → r < 2 ^ k → bit_or r (q * 2 ^ k) ≡ bit_xor r (q * 2 ^ k)
bit_or-bit_xor k r q h = bit_or_low k r q h ∙ sym (bit_xor_low k r q h)

-- A mask on the high fields.
pub bit_and-shift : (k a m : ℕ) → bit_and a (m * 2 ^ k) ≡ bit_and (a / 2 ^ k) m * 2 ^ k
bit_and-shift zero a m =
    let e : a / 2 ^ 0 ≡ a = omega arith in
    let e' : m * 2 ^ 0 ≡ m = omega arith in rw (e, e') (omega arith)
bit_and-shift (suc k) a m =
    let half : m * 2 ^ suc k / 2 ≡ m * 2 ^ k = omega (arith, double m k) in
    let rest : bit_and (a / 2) (m * 2 ^ suc k / 2) ≡ bit_and (a / 2 / 2 ^ k) m * 2 ^ k =
      rw half (bit_and-shift k (a / 2) m) in
    let x = bit_and (a / 2 ^ suc k) m in
    let whole : x * 2 ^ k ≡ bit_and (a / 2 / 2 ^ k) m * 2 ^ k =
      ap (λ (t : ℕ). bit_and t m * 2 ^ k) (div_double a k) in
    omega (arith, bit_and_digit a (m * 2 ^ suc k), double m k, double x k)

pub bit_and-le : (a m : ℕ) → bit_and a m ≤ m
bit_and-le =
    by_halving (λ a. (m : ℕ) → bit_and a m ≤ m) (λ m. omega (arith, zero-bit_and m))
      (λ a ih m. omega (arith, bit_and_digit (suc a) m, ih (m / 2)))
