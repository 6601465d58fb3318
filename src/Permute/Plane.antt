-- ===== src/Permute/Plane.antt =====
-- fips202/keccakf1600.c: the statements that the macros KeccakRound0 to KeccakRound3 are made of.
use mlkem_c_embedded.Base.{
  ℕ, ◌-◌, ◌%◌, ◌^◌, List, [], ◌∷◌, get_or, set, bit_and, bit_xor, ◌<<<◌, ◌>>>◌,
}

-- The macro ROL32 on a word of 32 bits.
unfoldable pub rol32 : ℕ → ℕ → ℕ
rol32 a offset = bit_xor ((a <<< offset) % 2 ^ 32) (a >>> (32 - offset))

-- `~a` of a word of 32 bits.
unfoldable pub not32 : ℕ → ℕ
not32 a = bit_xor a 0xFFFFFFFF

-- Five words of a state, by their indices.
pub data Column : Type 0 where
  column : ℕ → ℕ → ℕ → ℕ → ℕ → Column

-- `a ^ b ^ c ^ d ^ e`.
unfoldable pub parity : List ℕ → Column → ℕ
parity s (column a b c d e) =
    bit_xor
      (bit_xor (bit_xor (bit_xor (get_or s a 0) (get_or s b 0)) (get_or s c 0)) (get_or s d 0))
      (get_or s e 0)

-- The ten columns of a round: those of x = a, e, i, o, u, the words at even bits and at odd ones.
pub record Columns : Type 0 where
  pub ca0 : Column
  pub ca1 : Column
  pub ce0 : Column
  pub ce1 : Column
  pub ci0 : Column
  pub ci1 : Column
  pub co0 : Column
  pub co1 : Column
  pub cu0 : Column
  pub cu1 : Column

-- The words `Da0`, `Da1`, …, `Du1`.
unfoldable pub theta : List ℕ → Columns → List ℕ
theta s c =
    bit_xor (parity s c.cu0) (rol32 (parity s c.ce1) 1)
    ∷ bit_xor (parity s c.cu1) (parity s c.ce0)
    ∷ bit_xor (parity s c.ca0) (rol32 (parity s c.ci1) 1)
    ∷ bit_xor (parity s c.ca1) (parity s c.ci0)
    ∷ bit_xor (parity s c.ce0) (rol32 (parity s c.co1) 1)
    ∷ bit_xor (parity s c.ce1) (parity s c.co0)
    ∷ bit_xor (parity s c.ci0) (rol32 (parity s c.cu1) 1)
    ∷ bit_xor (parity s c.ci1) (parity s c.cu0)
    ∷ bit_xor (parity s c.co0) (rol32 (parity s c.ca1) 1)
    ∷ bit_xor (parity s c.co1) (parity s c.ca0)
    ∷ []

-- `A ^ D` and `ROL32((A ^ D), offset)`, with the indices of A and D.
pub data Read : Type 0 where
  plain : ℕ → ℕ → Read
  rolled : ℕ → ℕ → ℕ → Read

unfoldable pub read : List ℕ → List ℕ → Read → ℕ
read s d (plain i j) = bit_xor (get_or s i 0) (get_or d j 0)
read s d (rolled i j offset) = rol32 (bit_xor (get_or s i 0) (get_or d j 0)) offset

-- The assignments to `Ba`, `Be`, `Bi`, `Bo`, `Bu`, and the five words that they give.
pub data Plane : Type 0 where
  plane : Read → Read → Read → Read → Read → Column → Plane

-- `x ^ ((~y) & z)`.
unfoldable pub chi : ℕ → ℕ → ℕ → ℕ
chi x y z = bit_xor x (bit_and (not32 y) z)

-- The five assignments, in their order; `rc` joins the first word.
unfoldable pub write_plane : List ℕ → Column → ℕ → ℕ → ℕ → ℕ → ℕ → ℕ → List ℕ
write_plane s (column a e i o u) rc ba be bi bo bu =
    set
      (set (set (set (set s a (bit_xor (chi ba be bi) rc)) e (chi be bi bo)) i (chi bi bo bu)) o
        (chi bo bu ba))
      u (chi bu ba be)

unfoldable pub run_plane : List ℕ → List ℕ → Plane → ℕ → List ℕ
run_plane s d (plane a e i o u words) rc =
    write_plane s words rc (read s d a) (read s d e) (read s d i) (read s d o) (read s d u)

-- The planes of a round. The first two of them take the next two round constants, the others none,
-- which is the constant 0.
unfoldable pub run_planes : List ℕ → List ℕ → List Plane → List ℕ → List ℕ
run_planes s d [] rcs = s
run_planes s d (p ∷ planes) [] = run_planes (run_plane s d p 0) d planes []
run_planes s d (p ∷ planes) (rc ∷ rcs) = run_planes (run_plane s d p rc) d planes rcs

unfoldable pub run_round : Columns → List Plane → List ℕ → ℕ → ℕ → List ℕ
run_round columns planes s rc0 rc1 = run_planes s (theta s columns) planes (rc0 ∷ rc1 ∷ [])
