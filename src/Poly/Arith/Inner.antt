-- ===== src/Poly/Arith/Inner.antt =====
-- mlkem/poly.c: sums of products of several polynomials, in the domain of the transform and back.
use mlkem_c_embedded.Base.{
  ℕ, suc, ◌+◌, ◌*◌, ◌%◌, ◌≤◌, ◌<◌, ◌≡◌, sym, ap, ◌∙◌, arith, false, true, length, abs, ℤ,
}
use mathlib.Core.Path.{subst}
use mlkem_c_embedded.Params.{mlkem_n, mlkem_q}
use mlkem_c_embedded.Reduce.Bounds.{residue, residue-lt}
use mlkem_c_embedded.Poly.{Poly, coeff}
use mlkem_c_embedded.Poly.Arith.{poly_ntt, poly_invntt_tomont, poly_basemul_montgomery}
use mlkem_c_embedded.Poly.Arith.Ring.{
  sum_ℤ, residue-sum_ℤ, ring_product, products_one, poly_ntt_bound, poly_ntt-IsTransform,
}
use mlkem_c_embedded.Poly.Arith.Image.{
  IsNttOf, IsImage, residue-IsImage, first_product, next_product,
}
use mlkem_c_embedded.Ntt.Product.{sum}
use mlkem_c_embedded.Ntt.Halves.{IsAtMost, block}
use mlkem_c_embedded.Ntt.Joined.{products}
use mlkem_c_embedded.Ntt.Transform.{IsTransform}
use mlkem_c_embedded.Ntt.Inverse.{invntt_bound_lem}
use mlkem_c_embedded.Ntt.Chain.{IsTransform-≈}

pointwise : {v w : ℕ → ℕ → ℕ} → ((c i : ℕ) → v c i ≡ w c i) → v ≡ w
pointwise h t c i = h c i t

-- A polynomial that the transform takes without overflow.
pub record IsInput (a : Poly) : Type 0 where
  pub full : length a ≡ mlkem_n
  pub small : IsAtMost 15295 a

-- The sum of the products of the first `n` entries, modulo x^256 + 1.
unfoldable pub inner_product : ℕ → (ℕ → Poly) → (ℕ → Poly) → ℕ → ℤ
inner_product n s u i = sum_ℤ n λ j. ring_product (s j) (u j) i

module _ (s u : ℕ → Poly) where
  pub values : ℕ → ℕ → ℕ → ℕ
  values n c i = sum n λ j. products 256 1 (block 256 (s j)) (block 256 (u j)) c i

  values-inner_product :
      (n i : ℕ) → i < 256 → values n 0 i % mlkem_q ≡ residue (inner_product n s u i)
  unfolding values inner_product
  values-inner_product n i h =
      let e =
        residue-sum_ℤ n (λ j. ring_product (s j) (u j) i)
          (λ j. products 256 1 (block 256 (s j)) (block 256 (u j)) 0 i)
          (λ j. sym (products_one (s j) (u j) i h)) in
      omega (arith, e, residue-lt (sum_ℤ n (λ j. ring_product (s j) (u j) i)))

  -- `p` is the sum of the first `n` products, as the loops accumulate it.
  pub IsInner : ℕ → Poly → Type 0
  IsInner n p = IsImage p (n * 3840) (values n)

  pub residue-IsInner :
      (n : ℕ) (p : Poly)
      → n ≤ 4
      → IsInner n p
      → (i : ℕ) → i < 256
      → residue (coeff (poly_invntt_tomont p) i) ≡ residue (inner_product n s u i)
  unfolding IsInner
  residue-IsInner n p few m i h =
      residue-IsImage p (n * 3840) (values n) (omega arith) m i h ∙ values-inner_product n i h

  pub abs-IsInner :
      (n : ℕ) (p : Poly)
      → n ≤ 4
      → IsInner n p
      → (i : ℕ) → i < 256
      → abs (coeff (poly_invntt_tomont p) i) ≤ 2025
  unfolding IsInner poly_invntt_tomont
  abs-IsInner n p few m i h = invntt_bound_lem p m.full (λ i h. omega (arith, m.small i h)) i h

  -- The two factors, `hat` for the transform of `s j`, and `u j` transformed by poly_ntt.
  module _ (j : ℕ) (hat : Poly) (hs : IsInput (s j)) (hu : IsInput (u j))
      (small : IsAtMost 4095 hat) (same : IsNttOf (s j) hat) where
    hat-IsTransform : IsTransform 7 1 (block 256 (s j)) (block 2 hat)
    hat-IsTransform =
        IsTransform-≈ 7 1 (block 256 (s j)) (block 2 (poly_ntt (s j))) (block 2 hat)
          (poly_ntt-IsTransform (s j) hs.full hs.small)
          λ c i h h'. ap (λ x. x % mlkem_q) (same (c * 2 + i) (omega arith))

    other_small : IsAtMost 4095 (poly_ntt (u j))
    other_small i h = omega (arith, poly_ntt_bound (u j) hu.full hu.small i h)

    pub next-IsInner :
        (r : Poly)
        → j ≤ 7
        → IsInner j r
        → IsInner (j + 1) (poly_basemul_montgomery true r hat (poly_ntt (u j)))
    unfolding IsInner values sum
    next-IsInner r few m =
        let p = poly_basemul_montgomery true r hat (poly_ntt (u j)) in
        let image =
          next_product hat (poly_ntt (u j)) (block 256 (s j)) (block 256 (u j)) small other_small
            hat-IsTransform (poly_ntt-IsTransform (u j) hu.full hu.small) r (j * 3840) (values j)
            (omega arith) m in
        let top : suc j * 3840 ≡ j * 3840 + 3840 = omega arith in
        let e : j + 1 ≡ suc j = omega arith in rw (e, top) image

  pub first-IsInner :
      (hat r : Poly)
      → IsInput (s 0)
      → IsInput (u 0)
      → IsAtMost 4095 hat
      → IsNttOf (s 0) hat
      → IsInner 1 (poly_basemul_montgomery false r hat (poly_ntt (u 0)))
  unfolding IsInner values sum
  first-IsInner hat r hs hu small same =
      let p = poly_basemul_montgomery false r hat (poly_ntt (u 0)) in
      let image =
        first_product hat (poly_ntt (u 0)) (block 256 (s 0)) (block 256 (u 0)) small
          (other_small 0 hat hs hu small same) (hat-IsTransform 0 hat hs hu small same)
          (poly_ntt-IsTransform (u 0) hu.full hu.small) r in
      subst (IsImage p 3840) (pointwise (λ c i. omega arith)) image
