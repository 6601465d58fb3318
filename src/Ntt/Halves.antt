-- ===== src/Ntt/Halves.antt =====
-- mlkem/ntt.c: one layer of ntt and one of invntt, on residues.
use mlkem_c_embedded.Base.{
  ℕ, zero, suc, ◌+◌, ◌*◌, ◌-◌, ◌≤◌, ◌<◌, ◌≡◌, ◌∙◌, arith, length, ℤ, abs, int16-id, abs-IsInt16,
  abs-+ℤ, abs--ℤ, ◌+ℤ◌, ◌-ℤ◌,
}
use native.Mathlib.Decide.{dec_lt}
use mlkem_c_embedded.Reduce.Bounds.{residue, barrett_reduce_lem}
use mlkem_c_embedded.Poly.{Poly, coeff}
use mlkem_c_embedded.Ntt.{zeta_at, fqmul}
use mlkem_c_embedded.Ntt.Bounds.{fqmul_lem}
use mlkem_c_embedded.Ntt.Range.{zeta_small}
use mlkem_c_embedded.Ntt.Field.{◌≈◌, ≈-scale, residue-+ℤ, residue--ℤ, residue-fqmul}
use mlkem_c_embedded.Ntt.Blocks.{run_blocks_pair, length-run_blocks}
use mlkem_c_embedded.Ntt.Layers.{
  sum_with, difference_with, inv_sum, inv_difference, butterfly-IsPairStep,
  inv_butterfly-IsPairStep, layer, inv_layer,
}
use mlkem_c_embedded.Ntt.Product.{fold}
use mlkem_c_embedded.Ntt.Roots.{root}

abbrev pub IsAtMost : ℕ → Poly → Type 0
IsAtMost b r = (i : ℕ) → i < 256 → abs (coeff r i) ≤ b

-- Block `c` of `m` coefficients, as residues.
abbrev pub block : ℕ → Poly → ℕ → ℕ → ℕ
block m r c i = residue (coeff r (c * m + i))

-- The blocks of `w` are those of `v`, each modulo x^len - z and modulo x^len + z; the first block
-- of `v` is node `n`.
pub record IsSplit (len n : ℕ) (v w : ℕ → ℕ → ℕ) : Type 0 where
  pub low : (b j : ℕ) → b < n → j < len → w (b + b) j ≈ fold len (root (n + b)) (v b) j
  pub high : (b j : ℕ) → b < n → j < len → w (b + b + 1) j ≈ fold len (3328 * root (n + b)) (v b) j

-- All indices are those of pairs.
by_pairs :
    (P : ℕ → Type 0) (len n : ℕ)
    → ((b j : ℕ) → b < n → j < len → P (b * (2 * len) + j) × P (b * (2 * len) + j + len))
    → (i : ℕ) → i < n * (2 * len)
    → P i
by_pairs P len zero h i l = absurd (omega arith)
by_pairs P len (suc n) h i l = elim (dec_lt i (n * (2 * len))) [
  | yes p ↦ by_pairs P len n (λ b j l l'. h b j (omega arith) l') i p
  | no p ↦ elim (dec_lt i (n * (2 * len) + len)) [
    | yes q ↦
        let e : n * (2 * len) + (i - n * (2 * len)) ≡ i = omega arith in
        rw (← e) ((h n (i - n * (2 * len)) (omega arith) (omega arith)).0)
    | no q ↦
        let e : n * (2 * len) + (i - n * (2 * len) - len) + len ≡ i = omega arith in
        rw (← e) ((h n (i - n * (2 * len) - len) (omega arith) (omega arith)).1)
  ]
]

product_bound :
    (zeta y : ℤ) (b : ℕ) → abs zeta ≤ 1664 → abs y ≤ b → b ≤ 32767 → abs zeta * abs y ≤ 1664 * b
product_bound zeta y b h h' k = grind arith

module _ (zeta x y : ℤ) (b : ℕ) (hz : abs zeta ≤ 1664) (hx : abs x ≤ b) (hy : abs y ≤ b) where
  small_product : b ≤ 32767 → abs zeta * abs y ≤ 109084672
  small_product fits = omega (arith, product_bound zeta y b hz hy fits)

  fqmul_small : b ≤ 32767 → abs (fqmul zeta y) ≤ 2496
  fqmul_small fits =
      omega (arith, (fqmul_lem zeta y (small_product fits)).1, product_bound zeta y b hz hy fits)

  sum_with_lem :
      b + 2496 ≤ 32767
      → (residue (sum_with zeta x y) ≈ residue x + 169 * residue zeta * residue y)
        × (abs (sum_with zeta x y) ≤ b + 2496)
  sum_with_lem fits =
      let t = fqmul zeta y in
      let ht : abs t ≤ 2496 = fqmul_small (omega arith) in
      let d : abs (x +ℤ t) ≤ b + 2496 = omega (arith, abs-+ℤ x t) in
      rw (int16-id (x +ℤ t) (omega arith))
        (omega (arith, residue-+ℤ x t, residue-fqmul zeta y (small_product (omega arith))), d)

  difference_with_lem :
      b + 2496 ≤ 32767
      → (residue (difference_with zeta x y) ≈ residue x + 3328 * (169 * residue zeta) * residue y)
        × (abs (difference_with zeta x y) ≤ b + 2496)
  difference_with_lem fits =
      let t = fqmul zeta y in
      let ht : abs t ≤ 2496 = fqmul_small (omega arith) in
      let d : abs (x -ℤ t) ≤ b + 2496 = omega (arith, abs--ℤ x t) in
      rw (int16-id (x -ℤ t) (omega arith))
        (omega (arith, residue--ℤ x t, residue-fqmul zeta y (small_product (omega arith))), d)

  pub inv_sum_lem :
      b ≤ 16383
      → (residue (inv_sum zeta x y) ≈ residue x + residue y) × (abs (inv_sum zeta x y) ≤ 1664)
  inv_sum_lem fits =
      let s : abs (x +ℤ y) < 32768 = omega (arith, abs-+ℤ x y) in
      let m = barrett_reduce_lem (x +ℤ y) (abs-IsInt16 (x +ℤ y) s) in
      rw (int16-id (x +ℤ y) s) (omega (arith, m.0, residue-+ℤ x y), m.1)

  pub inv_difference_lem :
      b ≤ 16383
      → (residue (inv_difference zeta x y) ≈ 169 * residue zeta * (residue y + 3328 * residue x))
        × (abs (inv_difference zeta x y) ≤ 2497)
  inv_difference_lem fits =
      let s : abs (y -ℤ x) ≤ 32766 = omega (arith, abs--ℤ y x) in
      let p : abs zeta * abs (y -ℤ x) ≤ 1664 * 32766 = grind arith in
      rw (int16-id (y -ℤ x) (omega arith)) (
        residue-fqmul zeta (y -ℤ x) (omega arith)
            ∙ ≈-scale (169 * residue zeta) (residue (y -ℤ x)) (residue y + 3328 * residue x)
                (residue--ℤ y x),
        omega (arith, (fqmul_lem zeta (y -ℤ x) (omega arith)).1),
      )

module _ (len n b : ℕ) (r : Poly) (some_len : 0 < len) (whole : n * (2 * len) ≡ 256)
    (full : length r ≡ 256) (all : IsAtMost b r) where
  pub length-layer : length (layer len n r) ≡ 256
  unfolding layer
  length-layer =
      length-run_blocks (λ b. butterfly-IsPairStep (zeta_at (n + b)) len some_len) some_len n 0 r
      ∙ full

  pub length-inv_layer : length (inv_layer len n r) ≡ 256
  unfolding inv_layer
  length-inv_layer =
      length-run_blocks (λ b. inv_butterfly-IsPairStep (zeta_at (2 * n - 1 - b)) len some_len)
        some_len n 0 r
      ∙ full

  layer_pair :
      (c j : ℕ)
      → c < n
      → j < len
      → let i = c * (2 * len) + j in
        let z = zeta_at (n + c) in
        (coeff (layer len n r) i ≡ sum_with z (coeff r i) (coeff r (i + len)))
        × (coeff (layer len n r) (i + len) ≡ difference_with z (coeff r i) (coeff r (i + len)))
  unfolding layer
  layer_pair c j h h' =
      let z : 0 + c ≡ c = omega arith in
      rw z at (
        run_blocks_pair (λ b. butterfly-IsPairStep (zeta_at (n + b)) len some_len) some_len n 0 r c
          j h h' (omega arith))

  pub inv_layer_pair :
      (c j : ℕ)
      → c < n
      → j < len
      → let i = c * (2 * len) + j in
        let z = zeta_at (2 * n - 1 - c) in
        (coeff (inv_layer len n r) i ≡ inv_sum z (coeff r i) (coeff r (i + len)))
        × (coeff (inv_layer len n r) (i + len) ≡ inv_difference z (coeff r i) (coeff r (i + len)))
  unfolding inv_layer
  inv_layer_pair c j h h' =
      let z : 0 + c ≡ c = omega arith in
      rw z at (
        run_blocks_pair (λ b. inv_butterfly-IsPairStep (zeta_at (2 * n - 1 - b)) len some_len)
          some_len n 0 r c j h h' (omega arith))

  pub in_range : (c j : ℕ) → c < n → j < len → c * (2 * len) + j + len < 256
  in_range c j h h' = let p : suc c * (2 * len) ≤ n * (2 * len) = grind arith in omega arith

  pub layer_bound : b + 2496 ≤ 32767 → IsAtMost (b + 2496) (layer len n r)
  layer_bound fits i l =
      by_pairs (λ i. abs (coeff (layer len n r) i) ≤ b + 2496) len n
        (λ c j h h'.
          let i = c * (2 * len) + j in
          let p = layer_pair c j h h' in
          let q = in_range c j h h' in
          let hz = zeta_small (n + c) in
          let hx = all i (omega arith) in
          let hy = all (i + len) q in
          (
            rw p.0 (
                (sum_with_lem (zeta_at (n + c)) (coeff r i) (coeff r (i + len)) b hz hx hy fits).1),
            rw p.1 (
                (difference_with_lem (zeta_at (n + c)) (coeff r i) (coeff r (i + len)) b hz hx hy
                  fits).1),
          ))
        i (omega arith)

  pub inv_layer_bound : b ≤ 16383 → IsAtMost 2497 (inv_layer len n r)
  inv_layer_bound fits i l =
      by_pairs (λ i. abs (coeff (inv_layer len n r) i) ≤ 2497) len n
        (λ c j h h'.
          let i = c * (2 * len) + j in
          let p = inv_layer_pair c j h h' in
          let q = in_range c j h h' in
          let z = zeta_at (2 * n - 1 - c) in
          let hz = zeta_small (2 * n - 1 - c) in
          let hx = all i (omega arith) in
          let hy = all (i + len) q in
          (
            rw p.0
                (omega (arith, (inv_sum_lem z (coeff r i) (coeff r (i + len)) b hz hx hy fits).1)),
            rw p.1 ((inv_difference_lem z (coeff r i) (coeff r (i + len)) b hz hx hy fits).1),
          ))
        i (omega arith)

  -- A layer splits every block.
  pub layer-IsSplit :
      b + 2496 ≤ 32767 → IsSplit len n (block (2 * len) r) (block len (layer len n r))
  layer-IsSplit fits = record {
    low = λ c j h h'.
        let i = c * (2 * len) + j in
        let q = in_range c j h h' in
        let e : (c + c) * len + j ≡ i = omega arith in
        let e' : c * (2 * len) + (j + len) ≡ i + len = omega arith in
        rw (e, (layer_pair c j h h').0)
          (unfold fold in
            rw e' (
              (sum_with_lem (zeta_at (n + c)) (coeff r i) (coeff r (i + len)) b (zeta_small (n + c))
                (all i (omega arith)) (all (i + len) q) fits).0));
    high = λ c j h h'.
        let i = c * (2 * len) + j in
        let q = in_range c j h h' in
        let e : (c + c + 1) * len + j ≡ i + len = omega arith in
        let e' : c * (2 * len) + (j + len) ≡ i + len = omega arith in
        rw (e, (layer_pair c j h h').1)
          (unfold fold in
            rw e' (
              (difference_with_lem (zeta_at (n + c)) (coeff r i) (coeff r (i + len)) b
                (zeta_small (n + c)) (all i (omega arith)) (all (i + len) q) fits).0));
  }
