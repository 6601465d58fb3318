-- ===== src/Base/Bits.antt =====
-- Laws of the bit operations that the C code relies on.
pub mod Digit
use Digit.{by_halving, bit_and_digit, bit_or_digit, bit_xor_digit}
use Prim.Native.Nat.{ℕ, zero, suc, ◌+◌, ◌-◌, ◌*◌, ◌/◌, ◌%◌, ◌^◌, ◌≤◌, ◌<◌}
use Prim.Native.Nat.{bit_and, bit_or, bit_xor, bit_and-bitwise, bit_or-bitwise, bit_xor-bitwise}
use mathlib.Core.Path.{◌≡◌, refl, ap}
use mathlib.Core.Logic.{◌↔◌}
use native.Mathlib.Nat.{pow-suc, one-le-pow, div-add-mod, mul_comm, mod-lt}
use native.Mathlib.Omega.{arith}

pub zero-bit_and : (b : ℕ) → bit_and 0 b ≡ 0
zero-bit_and b = bit_and-bitwise 0 b

pub zero-bit_or : (b : ℕ) → bit_or 0 b ≡ b
zero-bit_or b = bit_or-bitwise 0 b

pub zero-bit_xor : (b : ℕ) → bit_xor 0 b ≡ b
zero-bit_xor b = bit_xor-bitwise 0 b

pub bit_and-zero : (a : ℕ) → bit_and a 0 ≡ 0
bit_and-zero =
    by_halving (λ a. bit_and a 0 ≡ 0) (zero-bit_and 0)
      (λ a ih. omega (arith, bit_and_digit (suc a) 0))

pub bit_or-zero : (a : ℕ) → bit_or a 0 ≡ a
bit_or-zero =
    by_halving (λ a. bit_or a 0 ≡ a) (zero-bit_or 0) (λ a ih. omega (arith, bit_or_digit (suc a) 0))

pub bit_xor-zero : (a : ℕ) → bit_xor a 0 ≡ a
bit_xor-zero =
    by_halving (λ a. bit_xor a 0 ≡ a) (zero-bit_xor 0)
      (λ a ih. omega (arith, bit_xor_digit (suc a) 0))

-- `|` is 0 only for two zeros, and `^` only for two equal numbers.
pub bit_or-eq-zero : (a b : ℕ) → bit_or a b ≡ 0 → (a ≡ 0) × (b ≡ 0)
bit_or-eq-zero =
    by_halving (λ a. (b : ℕ) → bit_or a b ≡ 0 → (a ≡ 0) × (b ≡ 0))
      (λ b h. (refl, omega (arith, zero-bit_or b)))
      (λ a ih b h.
        omega (arith, bit_or_digit (suc a) b, ih (b / 2) (omega (arith, bit_or_digit (suc a) b))))

pub bit_xor-eq-zero : (a b : ℕ) → bit_xor a b ≡ 0 → a ≡ b
bit_xor-eq-zero =
    by_halving (λ a. (b : ℕ) → bit_xor a b ≡ 0 → a ≡ b) (λ b h. omega (arith, zero-bit_xor b))
      (λ a ih b h.
        omega (arith, bit_xor_digit (suc a) b, ih (b / 2) (omega (arith, bit_xor_digit (suc a) b))))

pub bit_xor_self : (a : ℕ) → bit_xor a a ≡ 0
bit_xor_self =
    by_halving (λ a. bit_xor a a ≡ 0) (zero-bit_xor 0)
      (λ a ih. omega (arith, bit_xor_digit (suc a) (suc a)))

-- A second `^` with the same number undoes the first.
pub bit_xor_twice : (a b : ℕ) → bit_xor a (bit_xor a b) ≡ b
bit_xor_twice =
    by_halving (λ a. (b : ℕ) → bit_xor a (bit_xor a b) ≡ b)
      (λ b. omega (arith, zero-bit_xor b, zero-bit_xor (bit_xor 0 b)))
      (λ a ih b.
        let half : bit_xor (suc a) b / 2 ≡ bit_xor (suc a / 2) (b / 2) =
          omega (arith, bit_xor_digit (suc a) b) in
        let once : bit_xor (suc a / 2) (bit_xor (suc a) b / 2) ≡ b / 2 = rw half (ih (b / 2)) in
        omega (arith, bit_xor_digit (suc a) (bit_xor (suc a) b), bit_xor_digit (suc a) b))

-- Facts for every width go from `k` to `suc k` by this equation.
pub double : (q k : ℕ) → q * 2 ^ suc k ≡ q * 2 ^ k * 2
double q k = omega (arith, ap (λ (t : ℕ). q * t) (pow-suc 2 k))

-- `|` of fields that do not overlap is their sum, in either order.
pub bit_or_low : (k r q : ℕ) → r < 2 ^ k → bit_or r (q * 2 ^ k) ≡ r + q * 2 ^ k
bit_or_low zero zero q h = omega (arith, zero-bit_or (q * 2 ^ 0))
bit_or_low zero (suc r) q h = absurd (omega arith)
bit_or_low (suc k) r q h =
    let half : q * 2 ^ suc k / 2 ≡ q * 2 ^ k = omega (arith, double q k) in
    let rest : bit_or (r / 2) (q * 2 ^ suc k / 2) ≡ r / 2 + q * 2 ^ k =
      rw half (bit_or_low k (r / 2) q (omega (arith, pow-suc 2 k))) in
    omega (arith, bit_or_digit r (q * 2 ^ suc k), double q k)

pub bit_or_high : (k q r : ℕ) → r < 2 ^ k → bit_or (q * 2 ^ k) r ≡ q * 2 ^ k + r
bit_or_high zero q zero h = omega (arith, bit_or-zero (q * 2 ^ 0))
bit_or_high zero q (suc r) h = absurd (omega arith)
bit_or_high (suc k) q r h =
    let half : q * 2 ^ suc k / 2 ≡ q * 2 ^ k = omega (arith, double q k) in
    let rest : bit_or (q * 2 ^ suc k / 2) (r / 2) ≡ q * 2 ^ k + r / 2 =
      rw half (bit_or_high k q (r / 2) (omega (arith, pow-suc 2 k))) in
    omega (arith, bit_or_digit (q * 2 ^ suc k) r, double q k)

-- A mask of `k` ones picks the low field.
and_field : (k q r : ℕ) → r < 2 ^ k → bit_and (q * 2 ^ k + r) (2 ^ k - 1) ≡ r
and_field zero q r h = omega (arith, bit_and-zero (q * 2 ^ 0 + r))
and_field (suc k) q r h =
    let a = q * 2 ^ suc k + r in
    let half_a : a / 2 ≡ q * 2 ^ k + r / 2 = omega (arith, double q k) in
    let half_mask : (2 ^ suc k - 1) / 2 ≡ 2 ^ k - 1 = omega (arith, pow-suc 2 k) in
    let rest : bit_and (a / 2) ((2 ^ suc k - 1) / 2) ≡ r / 2 =
      rw (half_a, half_mask) (and_field k q (r / 2) (omega (arith, pow-suc 2 k))) in
    omega (arith, bit_and_digit a (2 ^ suc k - 1), double q k, pow-suc 2 k, one-le-pow k 2)

-- So it is a remainder.
pub bit_and_mask : (k a : ℕ) → bit_and a (2 ^ k - 1) ≡ a % 2 ^ k
bit_and_mask k a = ground (arith, one-le-pow k 2, and_field k (a / 2 ^ k) (a % 2 ^ k))

-- `&` and `^` read their arguments alike.
pub bit_and_comm : (a b : ℕ) → bit_and a b ≡ bit_and b a
bit_and_comm =
    by_halving (λ a. (b : ℕ) → bit_and a b ≡ bit_and b a)
      (λ b. omega (arith, zero-bit_and b, bit_and-zero b))
      (λ a ih b. omega (arith, bit_and_digit (suc a) b, bit_and_digit b (suc a), ih (b / 2)))

-- Results stay below the power of two that bounds the arguments.
pub bit_or-lt : (k a b : ℕ) → a < 2 ^ k → b < 2 ^ k → bit_or a b < 2 ^ k
bit_or-lt zero zero zero h h' = omega (arith, zero-bit_or 0)
bit_or-lt zero zero (suc b) h h' = absurd (omega arith)
bit_or-lt zero (suc a) b h h' = absurd (omega arith)
bit_or-lt (suc k) a b h h' = omega (
  arith,
  bit_or_digit a b,
  pow-suc 2 k,
  bit_or-lt k (a / 2) (b / 2) (omega (arith, pow-suc 2 k)) (omega (arith, pow-suc 2 k)),
)

pub bit_xor-lt : (k a b : ℕ) → a < 2 ^ k → b < 2 ^ k → bit_xor a b < 2 ^ k
bit_xor-lt zero zero zero h h' = omega (arith, zero-bit_xor 0)
bit_xor-lt zero zero (suc b) h h' = absurd (omega arith)
bit_xor-lt zero (suc a) b h h' = absurd (omega arith)
bit_xor-lt (suc k) a b h h' = omega (
  arith,
  bit_xor_digit a b,
  pow-suc 2 k,
  bit_xor-lt k (a / 2) (b / 2) (omega (arith, pow-suc 2 k)) (omega (arith, pow-suc 2 k)),
)

mod_double : (k a : ℕ) → a % 2 ^ suc k ≡ a / 2 % 2 ^ k * 2 + a % 2
mod_double k a =
    let q = a / 2 / 2 ^ k in
    let low = a / 2 % 2 ^ k * 2 + a % 2 in
    let split : a ≡ q * 2 ^ suc k + low =
      omega (arith, double q k, div-add-mod (a / 2) (2 ^ k), mul_comm q (2 ^ k)) in
    let small : low < 2 ^ suc k =
      omega (arith, pow-suc 2 k, mod-lt (a / 2) {m = 2 ^ k} (omega (arith, one-le-pow k 2))) in
    remainder (2 ^ suc k) q low a split small
  where
    remainder : (m q r a : ℕ) → a ≡ q * m + r → r < m → a % m ≡ r
    remainder m q r a e h = grind arith

-- `^` acts on the low digits alone.
pub bit_xor-mod : (k a b : ℕ) → bit_xor a b % 2 ^ k ≡ bit_xor (a % 2 ^ k) (b % 2 ^ k)
bit_xor-mod zero a b =
    let e : a % 2 ^ 0 ≡ 0 = omega arith in
    let e' : b % 2 ^ 0 ≡ 0 = omega arith in rw (e, e') (omega (arith, zero-bit_xor 0))
bit_xor-mod (suc k) a b =
    let half_a : a % 2 ^ suc k / 2 ≡ a / 2 % 2 ^ k = omega (arith, mod_double k a) in
    let half_b : b % 2 ^ suc k / 2 ≡ b / 2 % 2 ^ k = omega (arith, mod_double k b) in
    let half : bit_xor a b / 2 ≡ bit_xor (a / 2) (b / 2) = omega (arith, bit_xor_digit a b) in
    let rest : bit_xor a b / 2 % 2 ^ k ≡ bit_xor (a % 2 ^ suc k / 2) (b % 2 ^ suc k / 2) =
      rw (half, half_a, half_b) (bit_xor-mod k (a / 2) (b / 2)) in
    omega (
      arith,
      mod_double k (bit_xor a b),
      mod_double k a,
      mod_double k b,
      bit_xor_digit a b,
      bit_xor_digit (a % 2 ^ suc k) (b % 2 ^ suc k),
    )

-- And so does `|`.
pub bit_or-mod : (k a b : ℕ) → bit_or a b % 2 ^ k ≡ bit_or (a % 2 ^ k) (b % 2 ^ k)
bit_or-mod zero a b =
    let e : a % 2 ^ 0 ≡ 0 = omega arith in
    let e' : b % 2 ^ 0 ≡ 0 = omega arith in rw (e, e') (omega (arith, zero-bit_or 0))
bit_or-mod (suc k) a b =
    let half_a : a % 2 ^ suc k / 2 ≡ a / 2 % 2 ^ k = omega (arith, mod_double k a) in
    let half_b : b % 2 ^ suc k / 2 ≡ b / 2 % 2 ^ k = omega (arith, mod_double k b) in
    let half : bit_or a b / 2 ≡ bit_or (a / 2) (b / 2) = omega (arith, bit_or_digit a b) in
    let rest : bit_or a b / 2 % 2 ^ k ≡ bit_or (a % 2 ^ suc k / 2) (b % 2 ^ suc k / 2) =
      rw (half, half_a, half_b) (bit_or-mod k (a / 2) (b / 2)) in
    omega (
      arith,
      mod_double k (bit_or a b),
      mod_double k a,
      mod_double k b,
      bit_or_digit a b,
      bit_or_digit (a % 2 ^ suc k) (b % 2 ^ suc k),
    )
