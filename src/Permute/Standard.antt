-- ===== src/Permute/Standard.antt =====
-- The permutation of FIPS 202 that fips202/keccakf1600.c stands for, on lanes of 64 bits that are
-- stored as the word of their even bits and that of their odd bits: word 2 * (x + 5 * y) + h of a
-- state is half `h` of the lane at column `x` and row `y`.
use mlkem_c_embedded.Base.{
  ℕ, zero, suc, ◌+◌, ◌-◌, ◌*◌, ◌/◌, ◌%◌, ◌^◌, List, [], ◌∷◌, get_or, emit, bit_and, bit_xor, ◌==◌,
  if◌then◌else◌,
}

-- A word of 32 bits, `k` places to the left.
unfoldable pub rotate_word : ℕ → ℕ → ℕ
rotate_word w zero = w
rotate_word w (suc k) = bit_xor ((w * 2 ^ suc k) % 2 ^ 32) (w / 2 ^ (32 - suc k))

-- Half `h` of a lane, `r` places to the left.
unfoldable pub rotate_lane : ℕ → (ℕ → ℕ) → ℕ → ℕ
rotate_lane r lane h = rotate_word (lane ((h + r) % 2)) ((r + 1 - h) / 2)

-- The offsets of rho, row by row.
unfoldable pub offsets : List ℕ
offsets =
    0 ∷ 1 ∷ 62 ∷ 28 ∷ 27 ∷ 36 ∷ 44 ∷ 6 ∷ 55 ∷ 20 ∷ 3 ∷ 10 ∷ 43 ∷ 25 ∷ 39 ∷ 41 ∷ 45 ∷ 15 ∷ 21 ∷ 8
    ∷ 18 ∷ 2 ∷ 61 ∷ 56 ∷ 14 ∷ []

-- The round constants.
unfoldable pub constants : List ℕ
constants =
    0x0000000000000001 ∷ 0x0000000000008082 ∷ 0x800000000000808A ∷ 0x8000000080008000
    ∷ 0x000000000000808B ∷ 0x0000000080000001 ∷ 0x8000000080008081 ∷ 0x8000000000008009
    ∷ 0x000000000000008A ∷ 0x0000000000000088 ∷ 0x0000000080008009 ∷ 0x000000008000000A
    ∷ 0x000000008000808B ∷ 0x800000000000008B ∷ 0x8000000000008089 ∷ 0x8000000000008003
    ∷ 0x8000000000008002 ∷ 0x8000000000000080 ∷ 0x000000000000800A ∷ 0x800000008000000A
    ∷ 0x8000000080008081 ∷ 0x8000000000008080 ∷ 0x0000000080000001 ∷ 0x8000000080008008 ∷ []

-- The lowest `k` bits of a number that stand at even places, together.
unfoldable pub even_bits : ℕ → ℕ → ℕ
even_bits zero n = 0
even_bits (suc k) n = n % 2 + 2 * even_bits k (n / 4)

-- Half `h` of a constant.
unfoldable pub half_of : ℕ → ℕ → ℕ
half_of n h = even_bits 32 (n / 2 ^ h)

unfoldable pub lane_at : List ℕ → ℕ → ℕ → ℕ → ℕ
lane_at s x y h = get_or s (2 * (x + 5 * y) + h) 0

-- theta
unfoldable pub column_parity : List ℕ → ℕ → ℕ → ℕ
column_parity s x h =
    bit_xor
      (bit_xor (bit_xor (bit_xor (lane_at s x 0 h) (lane_at s x 1 h)) (lane_at s x 2 h))
        (lane_at s x 3 h))
      (lane_at s x 4 h)

-- The words that theta joins to every lane of a column.
unfoldable pub theta_word : List ℕ → ℕ → ℕ
theta_word s i =
    bit_xor (column_parity s ((i / 2 + 4) % 5) (i % 2))
      (rotate_lane 1 (column_parity s ((i / 2 + 1) % 5)) (i % 2))

unfoldable pub theta_words : List ℕ → List ℕ
theta_words s = emit 10 λ i. theta_word s i ∷ []

unfoldable pub after_theta : List ℕ → List ℕ → ℕ → ℕ → ℕ → ℕ
after_theta s d x y h = bit_xor (lane_at s x y h) (get_or d (2 * x + h) 0)

-- rho and pi
unfoldable pub after_pi : List ℕ → List ℕ → ℕ → ℕ → ℕ → ℕ
after_pi s d x y h =
    let from = (x + 3 * y) % 5 in
    rotate_lane (get_or offsets (from + 5 * x) 0) (after_theta s d from x) h

-- chi
unfoldable pub after_chi : List ℕ → List ℕ → ℕ → ℕ → ℕ → ℕ
after_chi s d x y h =
    bit_xor (after_pi s d x y h) (
      bit_and (bit_xor (after_pi s d ((x + 1) % 5) y h) 0xFFFFFFFF)
        (after_pi s d ((x + 2) % 5) y h))

-- iota: `rc` joins the lane at 0 and 0; 0 joins the others of its column.
unfoldable pub after_iota : List ℕ → List ℕ → ℕ → ℕ → ℕ → ℕ → ℕ
after_iota s d rc x y h =
    let w = after_chi s d x y h in if x == 0 then bit_xor w (if y == 0 then rc else 0) else w

-- A round, for the two halves of its constant.
unfoldable pub standard_planes : List ℕ → List ℕ → ℕ → ℕ → List ℕ
standard_planes s d rc0 rc1 =
    emit 50 λ i. after_iota s d (if i % 2 == 0 then rc0 else rc1) (i / 2 % 5) (i / 10) (i % 2) ∷ []

unfoldable pub standard_round : List ℕ → ℕ → ℕ → List ℕ
standard_round s rc0 rc1 = standard_planes s (theta_words s) rc0 rc1

unfoldable pub standard_rounds : List ℕ → List ℕ → List ℕ
standard_rounds [] s = s
standard_rounds (rc ∷ rcs) s = standard_rounds rcs (standard_round s (half_of rc 0) (half_of rc 1))

unfoldable pub keccak_f : List ℕ → List ℕ
keccak_f s = standard_rounds constants s
