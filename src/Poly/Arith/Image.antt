-- ===== src/Poly/Arith/Image.antt =====
-- mlkem/poly.c: sums of products in the domain of the transform, as poly_basemul_montgomery
-- accumulates them, and what poly_invntt_tomont makes of them.
use mlkem_c_embedded.Base.{
  ℕ, ◌+◌, ◌*◌, ◌%◌, ◌/◌, ◌≤◌, ◌<◌, ◌≡◌, refl, ◌∙◌, arith, Bool, false, true, length, length-emit,
  abs,
}
use mlkem_c_embedded.Params.{mlkem_n, mlkem_q}
use mlkem_c_embedded.Reduce.Bounds.{residue, residue-lt}
use mlkem_c_embedded.Poly.{Poly, coeff}
use mlkem_c_embedded.Poly.Arith.{poly_ntt, poly_invntt_tomont, poly_basemul_montgomery, mul_four}
use mlkem_c_embedded.Poly.Arith.Products.{poly_basemul_montgomery-products, length-mul_four}
use mlkem_c_embedded.Poly.Arith.Ring.{
  ring_product, products_one, poly_ntt_bound, poly_ntt-IsTransform, to_residue,
}
use mlkem_c_embedded.Ntt.Field.{◌≈◌}
use mlkem_c_embedded.Ntt.Halves.{IsAtMost, block}
use mlkem_c_embedded.Ntt.Joined.{products}
use mlkem_c_embedded.Ntt.Transform.{IsTransform}
use mlkem_c_embedded.Ntt.Chain.{plus, plus-IsTransform, products-IsTransform}
use mlkem_c_embedded.Ntt.Inverse.{residue-invntt}

-- `hat` is modulo q what poly_ntt makes of `a`.
abbrev pub IsNttOf : Poly → Poly → Type 0
IsNttOf a hat = (i : ℕ) → i < mlkem_n → residue (coeff hat i) ≡ residue (coeff (poly_ntt a) i)

-- `p` is 169 times the transform of `v`, with coefficients of absolute value at most `top`.
pub record IsImage (p : Poly) (top : ℕ) (v : ℕ → ℕ → ℕ) : Type 0 where
  pub full : length p ≡ 256
  pub small : IsAtMost top p
  pub values : ℕ → ℕ → ℕ
  pub transform : IsTransform 7 1 v values
  pub close : (c i : ℕ) → c < 128 → i < 2 → block 2 p c i ≈ 169 * values c i

pub residue-IsImage :
    (p : Poly) (top : ℕ) (v : ℕ → ℕ → ℕ)
    → top ≤ 16383
    → IsImage p top v
    → (i : ℕ) → i < 256
    → residue (coeff (poly_invntt_tomont p) i) ≡ v 0 i % mlkem_q
unfolding poly_invntt_tomont
residue-IsImage p top v low m i h = to_residue (coeff (poly_invntt_tomont p) i) (v 0 i) (
    residue-invntt p m.full (λ i l. omega (arith, m.small i l)) 169 v m.values m.transform m.close i
      h
    ∙ omega arith)

length-poly_basemul_montgomery :
    (add : Bool) (r a b : Poly) → length (poly_basemul_montgomery add r a b) ≡ 256
unfolding poly_basemul_montgomery
length-poly_basemul_montgomery add r a b =
    length-emit 4
      (λ i.
        mul_four add r (4 * i) i (coeff a (4 * i)) (coeff a (4 * i + 1)) (coeff a (4 * i + 2))
          (coeff a (4 * i + 3)) b)
      (λ i.
        length-mul_four add r (4 * i) i (coeff a (4 * i)) (coeff a (4 * i + 1))
          (coeff a (4 * i + 2)) (coeff a (4 * i + 3)) b)
      64

-- Two factors in the domain of the transform.
module _ (a b : Poly) (va vb : ℕ → ℕ → ℕ) (ha : IsAtMost 4095 a) (hb : IsAtMost 4095 b)
    (ta : IsTransform 7 1 va (block 2 a)) (tb : IsTransform 7 1 vb (block 2 b)) where
  product-IsTransform :
      IsTransform 7 1 (products 256 1 va vb) (products 2 128 (block 2 a) (block 2 b))
  product-IsTransform = products-IsTransform 7 1 va (block 2 a) vb (block 2 b) refl ta tb

  by_blocks :
      (p : Poly) (top : ℕ)
      → ((c i : ℕ) → c < 128 → i < 2 → abs (coeff p (c * 2 + i)) ≤ top)
      → IsAtMost top p
  by_blocks p top h i l =
      let e : i / 2 * 2 + i % 2 ≡ i = omega arith in
      rw e at (h (i / 2) (i % 2) (omega arith) (omega arith))

  pub first_product :
      (r : Poly) → IsImage (poly_basemul_montgomery false r a b) 3840 (products 256 1 va vb)
  first_product r =
      let fact =
        poly_basemul_montgomery-products a b ha hb false r 0 (λ i h. omega arith) (omega arith) in
      record {
        full = length-poly_basemul_montgomery false r a b;
        small =
            by_blocks (poly_basemul_montgomery false r a b) 3840 (λ c i h h'. (fact c i h h').1);
        values = products 2 128 (block 2 a) (block 2 b);
        transform = product-IsTransform;
        close = λ c i h h'. omega (arith, (fact c i h h').0);
      }

  pub next_product :
      (r : Poly) (top : ℕ) (v : ℕ → ℕ → ℕ)
      → top + 3840 ≤ 32767
      → IsImage r top v
      → IsImage (poly_basemul_montgomery true r a b) (top + 3840) (plus v (products 256 1 va vb))
  next_product r top v fits m =
      let fact = poly_basemul_montgomery-products a b ha hb true r top m.small fits in
      let p = poly_basemul_montgomery true r a b in
      record {
        full = length-poly_basemul_montgomery true r a b;
        small = by_blocks p (top + 3840) (λ c i h h'. (fact c i h h').1);
        values = plus m.values (products 2 128 (block 2 a) (block 2 b));
        transform =
            plus-IsTransform 7 1 v m.values (products 256 1 va vb)
              (products 2 128 (block 2 a) (block 2 b)) m.transform product-IsTransform;
        close = λ c i h h'. omega (arith, (fact c i h h').0, m.close c i h h');
      }

-- For factors of 256 coefficients of absolute value at most 15295, poly_ntt of both,
-- poly_basemul_montgomery and poly_invntt_tomont leave modulo q their product modulo x^256 + 1.
pub poly_invntt_tomont-poly_basemul_montgomery :
    (a b r : Poly)
    → length a ≡ mlkem_n
    → length b ≡ mlkem_n
    → ((i : ℕ) → i < mlkem_n → abs (coeff a i) ≤ 15295)
    → ((i : ℕ) → i < mlkem_n → abs (coeff b i) ≤ 15295)
    → (i : ℕ) → i < mlkem_n
    → residue
        (coeff (poly_invntt_tomont (poly_basemul_montgomery false r (poly_ntt a) (poly_ntt b))) i)
      ≡ residue (ring_product a b i)
poly_invntt_tomont-poly_basemul_montgomery a b r fa fb ha hb i h =
    let image =
      first_product (poly_ntt a) (poly_ntt b) (block 256 a) (block 256 b)
        (λ i h. omega (arith, poly_ntt_bound a fa ha i h))
        (λ i h. omega (arith, poly_ntt_bound b fb hb i h)) (poly_ntt-IsTransform a fa ha)
        (poly_ntt-IsTransform b fb hb) r in
    residue-IsImage (poly_basemul_montgomery false r (poly_ntt a) (poly_ntt b)) 3840
      (products 256 1 (block 256 a) (block 256 b)) (omega arith) image i h
    ∙ products_one a b i h
    ∙ omega (arith, residue-lt (ring_product a b i))
