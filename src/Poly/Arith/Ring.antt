-- ===== src/Poly/Arith/Ring.antt =====
-- mlkem/poly.c: poly_ntt, poly_basemul_montgomery and poly_invntt_tomont, and the multiplication of
-- polynomials modulo x^256 + 1.
use mlkem_c_embedded.Base.{
  ℕ, zero, suc, ◌+◌, ◌*◌, ◌-◌, ◌%◌, ◌≤◌, ◌<◌, ◌≡◌, refl, sym, ap, ◌∙◌, arith, length, ℤ, pos, abs,
  inl, inr, Bool-cases, leb, if◌then◌else◌, neg_ℤ, ◌+ℤ◌, ◌*ℤ◌, abs-IsInt16, length-emit_one,
}
use mlkem_c_embedded.Params.{mlkem_n, mlkem_q}
use mlkem_c_embedded.Reduce.{barrett_reduce}
use mlkem_c_embedded.Reduce.Bounds.{residue, residue-lt}
use mlkem_c_embedded.Poly.{Poly, coeff}
use mlkem_c_embedded.Poly.Arith.{poly_ntt, poly_invntt_tomont, poly_reduce}
use mlkem_c_embedded.Poly.Arith.Bounds.{poly_reduce_lem}
use mlkem_c_embedded.Ntt.{ntt}
use mlkem_c_embedded.Ntt.Field.{◌≈◌, residue-+ℤ, residue-*ℤ, residue-neg_ℤ}
use mlkem_c_embedded.Ntt.Range.{ntt_bound}
use mlkem_c_embedded.Ntt.Product.{sum, rotated, product, product-≈}
use mlkem_c_embedded.Ntt.Roots.{modulus}
use mlkem_c_embedded.Ntt.Halves.{IsAtMost, block}
use mlkem_c_embedded.Ntt.Joined.{products}
use mlkem_c_embedded.Ntt.Transform.{IsTransform}
use mlkem_c_embedded.Ntt.Chain.{IsTransform-≈}
use mlkem_c_embedded.Ntt.Inverse.{residue-invntt, ntt-IsTransform}

-- f 0 + … + f (n - 1).
unfoldable pub sum_ℤ : ℕ → (ℕ → ℤ) → ℤ
sum_ℤ zero f = pos 0
sum_ℤ (suc n) f = sum_ℤ n f +ℤ f n

-- Coefficient `i` of a * b modulo x^256 + 1: a product past x^255 comes back with the sign changed.
unfoldable pub ring_term : Poly → Poly → ℕ → ℕ → ℤ
ring_term a b i k =
    if leb k i then coeff a k *ℤ coeff b (i - k) else neg_ℤ (coeff a k *ℤ coeff b (256 + i - k))

unfoldable pub ring_product : Poly → Poly → ℕ → ℤ
ring_product a b i = sum_ℤ 256 (ring_term a b i)

pub residue-sum_ℤ :
    (n : ℕ) (f : ℕ → ℤ) (g : ℕ → ℕ)
    → ((k : ℕ) → residue (f k) ≈ g k)
    → residue (sum_ℤ n f) ≈ sum n g
unfolding sum_ℤ sum
residue-sum_ℤ zero f g h = refl
residue-sum_ℤ (suc n) f g h =
    omega (arith, residue-+ℤ (sum_ℤ n f) (f n), residue-sum_ℤ n f g h, h n)

pub residue-ring_product :
    (a b : Poly) (i : ℕ)
    → residue (ring_product a b i)
      ≈ product 256 3328 (λ k. residue (coeff a k)) (λ k. residue (coeff b k)) i
unfolding ring_product ring_term product rotated
residue-ring_product a b i =
    residue-sum_ℤ 256 (ring_term a b i)
      (λ k. residue (coeff a k) * rotated 256 3328 (λ k. residue (coeff b k)) k i)
      λ k. elim (Bool-cases (leb k i)) [
        | inl e ↦ rw e (residue-*ℤ (coeff a k) (coeff b (i - k)))
        | inr e ↦
            let p = coeff a k *ℤ coeff b (256 + i - k) in
            rw e (omega (arith, residue-neg_ℤ p, residue-*ℤ (coeff a k) (coeff b (256 + i - k))))
      ]

-- The ring of all coefficients is that modulo x^256 + 1.
modulus_one : modulus 1 ≈ 3328
unfolding modulus
modulus_one = refl

pub products_one :
    (a b : Poly) (i : ℕ)
    → i < 256
    → products 256 1 (block 256 a) (block 256 b) 0 i ≈ residue (ring_product a b i)
unfolding products
products_one a b i h =
    product-≈ 256 (modulus 1) 3328 (block 256 a 0) (λ k. residue (coeff a k)) (block 256 b 0)
      (λ k. residue (coeff b k)) i h modulus_one (same a) (same b)
    ∙ sym (residue-ring_product a b i)
  where
    same : (a : Poly) (k : ℕ) → k < 256 → block 256 a 0 k ≈ residue (coeff a k)
    same a k h = let z : 0 + k ≡ k = omega arith in ap (λ n. residue (coeff a n) % mlkem_q) z

module _ (r : Poly) (full : length r ≡ mlkem_n) (all : IsAtMost 15295 r) where
  reduced :
      (i : ℕ)
      → i < 256
      → (residue (coeff (poly_ntt r) i) ≡ residue (coeff (ntt r) i))
        × (abs (coeff (poly_ntt r) i) ≤ 1664)
  unfolding poly_ntt
  reduced i h =
      poly_reduce_lem (ntt r) i h
        (abs-IsInt16 (coeff (ntt r) i) (omega (arith, ntt_bound 15295 r (omega arith) full all i)))

  pub poly_ntt_bound : IsAtMost 1664 (poly_ntt r)
  poly_ntt_bound i h = (reduced i h).1

  pub poly_ntt-IsTransform : IsTransform 7 1 (block 256 r) (block 2 (poly_ntt r))
  poly_ntt-IsTransform =
      IsTransform-≈ 7 1 (block 256 r) (block 2 (ntt r)) (block 2 (poly_ntt r))
        (ntt-IsTransform r full all)
        λ c i h h'. ap (λ x. x % mlkem_q) ((reduced (c * 2 + i) (omega arith)).0)

pub length-poly_ntt : (r : Poly) → length (poly_ntt r) ≡ 256
unfolding poly_ntt poly_reduce
length-poly_ntt r = length-emit_one 256 (λ i. barrett_reduce (coeff (ntt r) i))

pub to_residue : (x : ℤ) (y : ℕ) → residue x ≈ y → residue x ≡ y % mlkem_q
to_residue x y e = omega (arith, e, residue-lt x)

-- For 256 coefficients of absolute value at most 15295, poly_invntt_tomont undoes poly_ntt up to the
-- factor 2^16 modulo q.
pub poly_invntt_tomont-poly_ntt :
    (r : Poly)
    → length r ≡ mlkem_n
    → ((i : ℕ) → i < mlkem_n → abs (coeff r i) ≤ 15295)
    → (i : ℕ) → i < mlkem_n
    → residue (coeff (poly_invntt_tomont (poly_ntt r)) i) ≡ (65536 * residue (coeff r i)) % mlkem_q
unfolding poly_invntt_tomont
poly_invntt_tomont-poly_ntt r full all i h =
    let z : 0 + i ≡ i = omega arith in
    to_residue (coeff (poly_invntt_tomont (poly_ntt r)) i) (65536 * residue (coeff r i)) (
      rw z at (
        residue-invntt (poly_ntt r) (length-poly_ntt r)
          (λ i h. omega (arith, poly_ntt_bound r full all i h)) 1 (block 256 r)
          (block 2 (poly_ntt r)) (poly_ntt-IsTransform r full all) (λ c i l l'. omega arith) i h))
