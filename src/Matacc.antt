-- ===== src/Matacc.antt =====
-- mlkem/matacc.c: one row of the matrix A times a vector, where the coefficients of A are sampled by
-- rejection from an extendable-output function and multiplied four at a time.
pub mod Sampling
pub mod Reference
use mlkem_c_embedded.Base.{
  ℕ, zero, suc, ◌+◌, ◌-◌, ◌/◌, Bool, true, false, ltb, leb, ◌==◌, ◌&&◌, if◌then◌else◌, List, [],
  ◌∷◌, get_or, set, store, bit_and, bit_or, ℤ, pos, ◌<<<◌, ◌>>>◌, Option, none, some,
}
use mlkem_c_embedded.Params.{ParamSet, mlkem_k, mlkem_n, mlkem_q}
use mlkem_c_embedded.Poly.{Poly, coeff}
use mlkem_c_embedded.Poly.Arith.{mul_four}
use mlkem_c_embedded.Symmetric.{Fips202, xof_blockbytes, mlkem_shake128_absorb}

-- `r`, `ax`, `ctr` and `ctr2`.
pub record Sampler : Type 0 where
  pub r : Poly
  pub ax : List ℤ
  pub ctr : ℕ
  pub ctr2 : ℕ

-- Writes the four products from index `o` on.
unfoldable pub doublebasemul : Poly → ℕ → Poly → List ℤ → ℕ → Bool → Poly
doublebasemul r o b a k add =
    store r o (mul_four add r o k (coeff a 0) (coeff a 1) (coeff a 2) (coeff a 3) b)

-- `if (val < MLKEM_Q)`: the value joins the waiting ones.
unfoldable pub accept : ℕ → Sampler → Sampler
accept val s =
    if ltb val mlkem_q
    then record s { ax = set s.ax s.ctr2 (pos val); ctr = s.ctr + 1; ctr2 = s.ctr2 + 1 }
    else s

-- `if (ctr2 == 4)`: four waiting values are multiplied.
unfoldable pub flush : Poly → Bool → Sampler → Sampler
flush b add s =
    if s.ctr2 == 4
    then record s { r = doublebasemul s.r (s.ctr - 4) b s.ax ((s.ctr - 4) / 4) add; ctr2 = 0 }
    else s

-- One round of the inner loop, on three bytes.
unfoldable pub sample_round : Poly → Bool → ℕ → ℕ → ℕ → Sampler → Sampler
sample_round b add b0 b1 b2 s =
    let val0 = bit_and (bit_or (b0 >>> 0) (b1 <<< 8)) 0xfff in
    let val1 = bit_and (bit_or (b1 >>> 4) (b2 <<< 4)) 0xfff in
    let s1 = flush b add (accept val0 s) in
    flush b add (if ltb s1.ctr mlkem_n then accept val1 s1 else s1)

-- `while (ctr < MLKEM_N && pos + 3 <= XOF_BLOCKBYTES)`.
unfoldable pub sample_block : Poly → Bool → List ℕ → ℕ → ℕ → Sampler → Sampler
sample_block b add buf zero p s = s
sample_block b add buf (suc fuel) p s =
    let rest =
      sample_block b add buf fuel (p + 3)
        (sample_round b add (get_or buf p 0) (get_or buf (p + 1) 0) (get_or buf (p + 2) 0) s) in
    if ltb s.ctr mlkem_n && leb (p + 3) xof_blockbytes then rest else s

module _ (f : Fips202) where
  -- `do … while (ctr < MLKEM_N)`, with fuel for the blocks; `none` if it runs out.
  unfoldable pub sample_blocks : Poly → Bool → ℕ → f.Shake128 → Sampler → Option Poly
  sample_blocks b add zero state s = none
  sample_blocks b add (suc fuel) state s =
      let out = f.shake128_squeezeblocks 1 state in
      let s' = sample_block b add out.0 57 0 s in
      let rest = sample_blocks b add fuel out.1 s' in if ltb s'.ctr mlkem_n then rest else some s'.r

  unfoldable pub matacc_inner : ℕ → Poly → Poly → ℕ → ℕ → List ℕ → Bool → Bool → Option Poly
  matacc_inner fuel r b i j seed transposed add =
      let state =
        if transposed then mlkem_shake128_absorb f seed i j else mlkem_shake128_absorb f seed j i in
      sample_blocks b add fuel state
        (record { r = r; ax = pos 0 ∷ pos 0 ∷ pos 0 ∷ pos 0 ∷ []; ctr = 0; ctr2 = 0 })

  -- The columns from `j` on.
  unfoldable pub matacc_columns : ℕ → ℕ → ℕ → Poly → List Poly → ℕ → List ℕ → Bool → Option Poly
  matacc_columns fuel zero j r b i seed transposed = some r
  matacc_columns fuel (suc left) j r b i seed transposed =
      elim (matacc_inner fuel r (get_or b j []) i j seed transposed true) [
        | none ↦ none
        | some r' ↦ matacc_columns fuel left (j + 1) r' b i seed transposed
      ]

  unfoldable pub matacc : ParamSet → ℕ → Poly → List Poly → ℕ → List ℕ → Bool → Option Poly
  matacc ps fuel r b i seed transposed =
      elim (matacc_inner fuel r (get_or b 0 []) i 0 seed transposed false) [
        | none ↦ none
        | some r' ↦ matacc_columns fuel (mlkem_k ps - 1) 1 r' b i seed transposed
      ]
