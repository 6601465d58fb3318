-- ===== src/Poly/Arith/Products.antt =====
-- mlkem/poly.c: the coefficients of poly_basemul_montgomery and
-- poly_frombytes_basemul_montgomery, on residues.
use mlkem_c_embedded.Base.{
  ℕ, ◌+◌, ◌*◌, ◌/◌, ◌%◌, ◌≤◌, ◌<◌, ◌≡◌, refl, ap, ap₂, ◌∙◌, arith, Bool, true, false, length, ℤ,
  pos, abs, get_or-emit, int16, int16-id, neg_ℤ, abs-neg_ℤ, ◌++◌, if◌then◌else◌,
}
use native.Mathlib.Decide.{ℕ_discrete}
use mlkem_c_embedded.Reduce.Bounds.{residue}
use mlkem_c_embedded.Poly.{Poly, coeff}
use mlkem_c_embedded.Poly.Arith.{mul_four, poly_basemul_montgomery}
use mlkem_c_embedded.Ntt.{zeta_at, basemul, basemul_acc}
use mlkem_c_embedded.Ntt.Range.{zeta_small}
use mlkem_c_embedded.Ntt.Field.{◌≈◌, residue-neg_ℤ}
use mlkem_c_embedded.Ntt.Roots.{root, modulus, modulus_even, modulus_odd}
use mlkem_c_embedded.Ntt.Halves.{IsAtMost, block}
use mlkem_c_embedded.Ntt.Joined.{products}
use mlkem_c_embedded.Ntt.Inverse.{
  basemul_acc_zero, basemul_acc_one, basemul-basemul_acc, product_zero, product_one,
}

-- The coefficient that a product is added to.
abbrev pub base : Bool → Poly → ℕ → ℤ
base add r i = if add then coeff r i else pos 0

module _ (k : ℕ) where
  minus_zeta : ℤ
  minus_zeta = int16 (neg_ℤ (zeta_at (64 + k)))

  minus_zeta_lem : (abs minus_zeta ≤ 1664) × (169 * residue minus_zeta ≈ 3328 * root (64 + k))
  unfolding minus_zeta
  minus_zeta_lem =
      let z = zeta_at (64 + k) in
      let s = zeta_small (64 + k) in
      let e = abs-neg_ℤ z in
      rw (int16-id (neg_ℤ z) (omega arith)) (omega arith, omega (arith, residue-neg_ℤ z))

length-basemul_acc : (r0 r1 a0 a1 b0 b1 zeta : ℤ) → length (basemul_acc r0 r1 a0 a1 b0 b1 zeta) ≡ 2
unfolding basemul_acc
length-basemul_acc r0 r1 a0 a1 b0 b1 zeta = refl

pub length-mul_four :
    (add : Bool) (r : Poly) (o k : ℕ) (a0 a1 a2 a3 : ℤ) (b : Poly)
    → length (mul_four add r o k a0 a1 a2 a3 b) ≡ 4
unfolding mul_four basemul basemul_acc
length-mul_four true r o k a0 a1 a2 a3 b = refl
length-mul_four false r o k a0 a1 a2 a3 b = refl

module _ (a b : Poly) (ha : IsAtMost 4095 a) (hb : IsAtMost 4095 b) where
  -- Without a sum so far, the products are added to 0.
  mul_four_acc :
      (add : Bool) (r : Poly) (d : ℕ)
      → d < 64
      → let o = 4 * d in
        mul_four add r o d (coeff a o) (coeff a (o + 1)) (coeff a (o + 2)) (coeff a (o + 3)) b
        ≡ basemul_acc
            (base add r o)
            (base add r (o + 1))
            (coeff a o)
            (coeff a (o + 1))
            (coeff b o)
            (coeff b (o + 1))
            (zeta_at (64 + d))
          ++ basemul_acc
              (base add r (o + 2))
              (base add r (o + 3))
              (coeff a (o + 2))
              (coeff a (o + 3))
              (coeff b (o + 2))
              (coeff b (o + 3))
              (minus_zeta d)
  unfolding mul_four minus_zeta
  mul_four_acc true r d h = refl
  mul_four_acc false r d h =
      let o = 4 * d in
      ap₂ (◌++◌)
        (basemul-basemul_acc (coeff a o) (coeff a (o + 1)) (coeff b o) (coeff b (o + 1))
          (zeta_at (64 + d)) (root (64 + d)) (zeta_small (64 + d)) refl (ha o (omega arith))
          (ha (o + 1) (omega arith)) (hb o (omega arith)) (hb (o + 1) (omega arith)))
        (basemul-basemul_acc (coeff a (o + 2)) (coeff a (o + 3)) (coeff b (o + 2)) (coeff b (o + 3))
          (minus_zeta d) (3328 * root (64 + d)) (minus_zeta_lem d).0 (minus_zeta_lem d).1
          (ha (o + 2) (omega arith)) (ha (o + 3) (omega arith)) (hb (o + 2) (omega arith))
          (hb (o + 3) (omega arith)))

  -- One round of the loop.
  coeff-round :
      (add : Bool) (r : Poly) (d j : ℕ)
      → d < 64
      → j < 4
      → let o = 4 * d in
        coeff (poly_basemul_montgomery add r a b) (d * 4 + j)
        ≡ coeff
            (basemul_acc
                (base add r o)
                (base add r (o + 1))
                (coeff a o)
                (coeff a (o + 1))
                (coeff b o)
                (coeff b (o + 1))
                (zeta_at (64 + d))
              ++ basemul_acc
                  (base add r (o + 2))
                  (base add r (o + 3))
                  (coeff a (o + 2))
                  (coeff a (o + 3))
                  (coeff b (o + 2))
                  (coeff b (o + 3))
                  (minus_zeta d))
            j
  unfolding poly_basemul_montgomery
  coeff-round add r d j h h' =
      get_or-emit 4
        (λ i.
          mul_four add r (4 * i) i (coeff a (4 * i)) (coeff a (4 * i + 1)) (coeff a (4 * i + 2))
            (coeff a (4 * i + 3)) b)
        (λ i.
          length-mul_four add r (4 * i) i (coeff a (4 * i)) (coeff a (4 * i + 1))
            (coeff a (4 * i + 2)) (coeff a (4 * i + 3)) b)
        (pos 0) 64 d j h h'
      ∙ ap (λ p. coeff p j) (mul_four_acc add r d h)

  module _ (add : Bool) (r : Poly) (top : ℕ) (hr : (i : ℕ) → i < 256 → abs (base add r i) ≤ top)
      (fits : top + 3840 ≤ 32767) where
    -- What the product of block `c` leaves in coefficient `i` of the block.
    IsProduct : ℕ → ℕ → Type 0
    IsProduct c i =
        (block 2 (poly_basemul_montgomery add r a b) c i
          ≈ residue (base add r (c * 2 + i)) + 169 * products 2 128 (block 2 a) (block 2 b) c i)
        × (abs (coeff (poly_basemul_montgomery add r a b) (c * 2 + i)) ≤ top + 3840)

    pair_of : ℕ → ℤ → Poly
    pair_of c zeta =
        basemul_acc (base add r (c * 2)) (base add r (c * 2 + 1)) (coeff a (c * 2))
          (coeff a (c * 2 + 1)) (coeff b (c * 2)) (coeff b (c * 2 + 1)) zeta

    pair-IsProduct :
        (c : ℕ) (zeta : ℤ)
        → c < 128
        → abs zeta ≤ 1664
        → 169 * residue zeta ≈ modulus (128 + c)
        → ((i : ℕ)
            → i < 2
            → coeff (poly_basemul_montgomery add r a b) (c * 2 + i) ≡ coeff (pair_of c zeta) i)
        → (i : ℕ) → i < 2
        → IsProduct c i
    unfolding IsProduct pair_of products
    pair-IsProduct c zeta h hz ez same i h' =
        let m = modulus (128 + c) in
        let o = c * 2 in
        let e0 : o + 0 ≡ o = omega arith in
        let p0 =
          basemul_acc_zero (coeff a o) (coeff a (o + 1)) (coeff b o) (coeff b (o + 1)) zeta m hz ez
            (ha o (omega arith)) (ha (o + 1) (omega arith)) (hb o (omega arith))
            (hb (o + 1) (omega arith)) (base add r o) (base add r (o + 1)) top (hr o (omega arith))
            (hr (o + 1) (omega arith)) fits in
        let p1 =
          basemul_acc_one (coeff a o) (coeff a (o + 1)) (coeff b o) (coeff b (o + 1)) zeta m hz ez
            (ha o (omega arith)) (ha (o + 1) (omega arith)) (hb o (omega arith))
            (hb (o + 1) (omega arith)) (base add r o) (base add r (o + 1)) top (hr o (omega arith))
            (hr (o + 1) (omega arith)) fits in
        elim (ℕ_discrete i 0) [
          | yes e ↦ rw (e, same 0 (omega arith), product_zero m (block 2 a c) (block 2 b c), e0) p0
          | no n ↦
              let e : i ≡ 1 = omega arith in
              rw (e, same 1 (omega arith), product_one m (block 2 a c) (block 2 b c), e0) p1
        ]

    even_pair :
        (d i : ℕ)
        → d < 64
        → i < 2
        → coeff (poly_basemul_montgomery add r a b) ((d + d) * 2 + i)
          ≡ coeff (pair_of (d + d) (zeta_at (64 + d))) i
    unfolding pair_of basemul_acc
    even_pair d i h l =
        let p = poly_basemul_montgomery add r a b in
        let e : (d + d) * 2 ≡ 4 * d = omega arith in
        let at : (d + d) * 2 + i ≡ d * 4 + i = omega arith in
        ap (coeff p) at ∙ coeff-round add r d i h (omega arith) ∙ elim (ℕ_discrete i 0) [
          | yes z ↦ rw (z, e) refl
          | no n ↦ let one : i ≡ 1 = omega arith in rw (one, e) refl
        ]

    odd_pair :
        (d i : ℕ)
        → d < 64
        → i < 2
        → coeff (poly_basemul_montgomery add r a b) ((d + d + 1) * 2 + i)
          ≡ coeff (pair_of (d + d + 1) (minus_zeta d)) i
    unfolding pair_of basemul_acc
    odd_pair d i h l =
        let p = poly_basemul_montgomery add r a b in
        let e : (d + d + 1) * 2 ≡ 4 * d + 2 = omega arith in
        let e' : 4 * d + 2 + 1 ≡ 4 * d + 3 = omega arith in
        let at : (d + d + 1) * 2 + i ≡ d * 4 + (2 + i) = omega arith in
        ap (coeff p) at ∙ coeff-round add r d (2 + i) h (omega arith) ∙ elim (ℕ_discrete i 0) [
          | yes z ↦ rw (z, e, e') refl
          | no n ↦ let one : i ≡ 1 = omega arith in rw (one, e, e') refl
        ]

    -- The loop multiplies in each of the 128 rings, up to the factor 169.
    pub poly_basemul_montgomery-products :
        (c i : ℕ)
        → c < 128
        → i < 2
        → (block 2 (poly_basemul_montgomery add r a b) c i
            ≈ residue (base add r (c * 2 + i)) + 169 * products 2 128 (block 2 a) (block 2 b) c i)
          × (abs (coeff (poly_basemul_montgomery add r a b) (c * 2 + i)) ≤ top + 3840)
    unfolding IsProduct
    poly_basemul_montgomery-products c i h h' =
        let d = c / 2 in
        elim (ℕ_discrete (c % 2) 0) [
          | yes z ↦
              let e : c ≡ d + d = omega arith in
              let m : 128 + (d + d) ≡ 64 + d + (64 + d) = omega arith in
              rw e (
                pair-IsProduct (d + d) (zeta_at (64 + d)) (omega arith) (zeta_small (64 + d))
                  (rw (m, modulus_even (64 + d)) refl) (λ i l. even_pair d i (omega arith) l) i h')
          | no n ↦
              let e : c ≡ d + d + 1 = omega arith in
              let m : 128 + (d + d + 1) ≡ 64 + d + (64 + d) + 1 = omega arith in
              rw e (
                pair-IsProduct (d + d + 1) (minus_zeta d) (omega arith) (minus_zeta_lem d).0
                  (rw (m, modulus_odd (64 + d)) ((minus_zeta_lem d).1))
                  (λ i l. odd_pair d i (omega arith) l) i h')
        ]
