-- ===== src/Ntt/Joined.antt =====
-- mlkem/ntt.c: a layer of invntt after a layer of ntt, and products under a layer.
use mlkem_c_embedded.Base.{ℕ, ◌+◌, ◌*◌, ◌-◌, ◌%◌, ◌≤◌, ◌<◌, ◌≡◌, refl, sym, ap, ◌∙◌, arith, length}
use native.Mathlib.Decide.{dec_lt}
use mlkem_c_embedded.Params.{mlkem_q}
use mlkem_c_embedded.Reduce.Bounds.{residue}
use mlkem_c_embedded.Poly.{Poly, coeff}
use mlkem_c_embedded.Ntt.{zeta_at}
use mlkem_c_embedded.Ntt.Range.{zeta_small}
use mlkem_c_embedded.Ntt.Field.{◌≈◌, ≈-scale}
use mlkem_c_embedded.Ntt.Layers.{inv_layer}
use mlkem_c_embedded.Ntt.Product.{product, product-fold, product-≈, fold}
use mlkem_c_embedded.Ntt.Roots.{root, modulus, modulus_even, modulus_odd, root_square}
use mlkem_c_embedded.Ntt.Halves.{
  IsAtMost, IsSplit, block, inv_layer_pair, in_range, inv_sum_lem, inv_difference_lem,
}

-- `x` and `y` are s times the residues of a + c * x^len modulo x^len - z and x^len + z.
module _ (s a c z x y : ℕ) (hx : x ≈ s * (a + z * c)) (hy : y ≈ s * (a + 3328 * z * c)) where
  join_sum : x + y ≈ 2 * s * a
  join_sum = omega arith

  join_difference : (z' : ℕ) → z * z' ≈ 3328 → z' * (y + 3328 * x) ≈ 2 * s * c
  join_difference z' h =
      let d : y + 3328 * x ≈ 6656 * (s * (z * c)) = omega arith in
      ≈-scale z' (y + 3328 * x) (6656 * (s * (z * c))) d
      ∙ omega (arith, ≈-scale (6656 * (s * c)) (z * z') 3328 h)

module _ (len n b : ℕ) (r : Poly) (some_len : 0 < len) (whole : n * (2 * len) ≡ 256)
    (full : length r ≡ 256) (all : IsAtMost b r) (fits : b ≤ 16383)
    (paired : (c : ℕ) → c < n → root (n + c) * root (2 * n - 1 - c) ≈ 3328) (s : ℕ)
    (v w : ℕ → ℕ → ℕ) (split : IsSplit len n v w)
    (same : (c i : ℕ) → c < n + n → i < len → block len r c i ≈ s * w c i) where
  parts :
      (c j : ℕ)
      → c < n
      → j < len
      → let i = c * (2 * len) + j in
        let z = root (n + c) in
        (residue (coeff r i) ≈ s * (v c j + z * v c (j + len)))
        × (residue (coeff r (i + len)) ≈ s * (v c j + 3328 * z * v c (j + len)))
  parts c j h h' =
      let i = c * (2 * len) + j in
      let e : (c + c) * len + j ≡ i = omega arith in
      let e' : (c + c + 1) * len + j ≡ i + len = omega arith in
      let lo : w (c + c) j ≈ v c j + root (n + c) * v c (j + len) =
        unfold fold in split.low c j h h' in
      let hi : w (c + c + 1) j ≈ v c j + 3328 * root (n + c) * v c (j + len) =
        unfold fold in split.high c j h h' in
      (
        rw e at (same (c + c) j (omega arith) h')
            ∙ ≈-scale s (w (c + c) j) (v c j + root (n + c) * v c (j + len)) lo,
        rw e' at (same (c + c + 1) j (omega arith) h')
            ∙ ≈-scale s (w (c + c + 1) j) (v c j + 3328 * root (n + c) * v c (j + len)) hi,
      )

  joined_pair :
      (c j : ℕ)
      → c < n
      → j < len
      → (block (2 * len) (inv_layer len n r) c j ≈ 2 * s * v c j)
        × (block (2 * len) (inv_layer len n r) c (j + len) ≈ 2 * s * v c (j + len))
  joined_pair c j h h' =
      let i = c * (2 * len) + j in
      let e : c * (2 * len) + (j + len) ≡ i + len = omega arith in
      let z = zeta_at (2 * n - 1 - c) in
      let p = inv_layer_pair len n b r some_len whole full all c j h h' in
      let q = in_range len n b r some_len whole full all c j h h' in
      let x = coeff r i in
      let y = coeff r (i + len) in
      let hz = zeta_small (2 * n - 1 - c) in
      let hx = all i (omega arith) in
      let hy = all (i + len) q in
      let t = parts c j h h' in
      let j0 = join_sum s (v c j) (v c (j + len)) (root (n + c)) (residue x) (residue y) t.0 t.1 in
      let j1 =
        join_difference s (v c j) (v c (j + len)) (root (n + c)) (residue x) (residue y) t.0 t.1
          (root (2 * n - 1 - c)) (paired c h) in
      (
        rw p.0 ((inv_sum_lem z x y b hz hx hy fits).0 ∙ j0),
        rw (e, p.1) ((inv_difference_lem z x y b hz hx hy fits).0 ∙ j1),
      )

  -- The layer joins the blocks again, up to a factor 2.
  pub inv_layer_joins :
      (c i : ℕ) → c < n → i < 2 * len → block (2 * len) (inv_layer len n r) c i ≈ 2 * s * v c i
  inv_layer_joins c i h h' = elim (dec_lt i len) [
    | yes p ↦ (joined_pair c i h p).0
    | no p ↦
        let e : i - len + len ≡ i = omega arith in
        rw e at ((joined_pair c (i - len) h (omega arith)).1)
  ]

-- Block by block, the products in the rings of the nodes from `n` on.
unfoldable pub products : ℕ → ℕ → (ℕ → ℕ → ℕ) → (ℕ → ℕ → ℕ) → ℕ → ℕ → ℕ
products m n v w c i = product m (modulus (n + c)) (v c) (w c) i

-- The products of split blocks are the split blocks of the products.
pub products-IsSplit :
    (len n : ℕ) (v v' w w' : ℕ → ℕ → ℕ)
    → n ≤ 64
    → IsSplit len n v v'
    → IsSplit len n w w'
    → IsSplit len n (products (2 * len) n v w) (products len (n + n) v' w')
unfolding products
products-IsSplit len n v v' w w' few sv sw =
    let half : (k z : ℕ) (c d j : ℕ)
        → j < len
        → k < 128
        → z * z ≈ modulus k
        → modulus (n + n + d) ≡ z
        → ((i : ℕ) → i < len → v' d i ≈ fold len z (v c) i)
        → ((i : ℕ) → i < len → w' d i ≈ fold len z (w c) i)
        → product len (modulus (n + n + d)) (v' d) (w' d) j
          ≈ fold len z (product (len + len) (modulus k) (v c) (w c)) j =
      λ k z c d j l lk square e hv hw. rw e (
        product-≈ len z z (v' d) (fold len z (v c)) (w' d) (fold len z (w c)) j l refl hv hw
        ∙ ap (λ x. x % mlkem_q) (sym (product-fold len z (v c) (w c) j l))
        ∙ fold-≈ z (product (len + len) (z * z) (v c) (w c))
            (product (len + len) (modulus k) (v c) (w c)) j
            (product-≈ (len + len) (z * z) (modulus k) (v c) (v c) (w c) (w c) j (omega arith)
              square (λ k h. refl) (λ k h. refl))
            (product-≈ (len + len) (z * z) (modulus k) (v c) (v c) (w c) (w c) (j + len)
              (omega arith) square (λ k h. refl) (λ k h. refl))) in
    let twice : 2 * len ≡ len + len = omega arith in
    rw twice (record {
      low = λ c j h h'.
          let e : n + n + (c + c) ≡ (n + c) + (n + c) = omega arith in
          half (n + c) (root (n + c)) c (c + c) j h' (omega arith)
            (root_square (n + c) (omega arith)) (rw e (modulus_even (n + c)))
            (λ i l. sv.low c i h l) (λ i l. sw.low c i h l);
      high = λ c j h h'.
          let e : n + n + (c + c + 1) ≡ (n + c) + (n + c) + 1 = omega arith in
          half (n + c) (3328 * root (n + c)) c (c + c + 1) j h' (omega arith)
            (omega (arith, root_square (n + c) (omega arith))) (rw e (modulus_odd (n + c)))
            (λ i l. sv.high c i h l) (λ i l. sw.high c i h l);
    })
  where
    fold-≈ :
        (z : ℕ) (f g : ℕ → ℕ) (i : ℕ)
        → f i ≈ g i
        → f (i + len) ≈ g (i + len)
        → fold len z f i ≈ fold len z g i
    fold-≈ z f g i h h' = unfold fold in omega (arith, ≈-scale z (f (i + len)) (g (i + len)) h')
