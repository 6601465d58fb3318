-- ===== src/Ntt/Inverse.antt =====
-- mlkem/ntt.c: what invntt leaves, and the products of basemul, on residues.
use mlkem_c_embedded.Base.{
  ℕ, ◌+◌, ◌*◌, ◌≤◌, ◌<◌, ◌≡◌, refl, sym, ap, ap₂, ◌∙◌, arith, length, ℤ, pos, negsuc, abs,
  get_or-emit_one, int16, int16-id, ◌+ℤ◌, abs-+ℤ, [], ◌∷◌,
}
use mlkem_c_embedded.Reduce.Bounds.{residue}
use mlkem_c_embedded.Poly.{Poly, coeff}
use mlkem_c_embedded.Ntt.{ntt, invntt, scale_all, fqmul, inv_factor, basemul, basemul_acc}
use mlkem_c_embedded.Ntt.Bounds.{fqmul_lem}
use mlkem_c_embedded.Ntt.Field.{◌≈◌, ≈-scale, residue-+ℤ, residue-fqmul}
use mlkem_c_embedded.Ntt.Product.{sum, product, rotated}
use mlkem_c_embedded.Ntt.Roots.{all-is_paired}
use mlkem_c_embedded.Ntt.Halves.{IsAtMost, block}
use mlkem_c_embedded.Ntt.Transform.{
  first_layers, first_layers_bound, last_layers-IsTransform, invntt-first_layers, ntt-last_layers,
  IsTransform,
}
use mlkem_c_embedded.Ntt.Chain.{first_layers_join}

coeff-scale_all :
    (r : Poly) (i : ℕ)
    → i < 256
    → abs (coeff r i) ≤ 16383
    → (residue (coeff (scale_all r) i) ≈ 243529 * residue (coeff r i))
      × (abs (coeff (scale_all r) i) ≤ 2025)
unfolding scale_all
coeff-scale_all r i h k = rw (get_or-emit_one (pos 0) 256 (λ j. fqmul (coeff r j) inv_factor) i h) (
  residue-fqmul (coeff r i) inv_factor (omega arith) ∙ omega arith,
  omega (arith, (fqmul_lem (coeff r i) inv_factor (omega arith)).1),
)

module _ (r : Poly) (full : length r ≡ 256) (all : IsAtMost 16383 r) where
  -- For 256 coefficients of absolute value at most 16383, those that invntt leaves are at most 2025 in
  -- absolute value.
  pub invntt_bound_lem : IsAtMost 2025 (invntt r)
  invntt_bound_lem i h =
      let b = first_layers_bound 7 1 r refl full all in
      rw (invntt-first_layers r) ((coeff-scale_all (first_layers 7 1 r) i h (b.1 i h)).1)

  -- If `r` is s times the transform of `v`, then invntt leaves s * 2^16 times `v`.
  pub residue-invntt :
      (s : ℕ) (v w : ℕ → ℕ → ℕ)
      → IsTransform 7 1 v w
      → ((c i : ℕ) → c < 128 → i < 2 → block 2 r c i ≈ s * w c i)
      → (i : ℕ) → i < 256
      → residue (coeff (invntt r) i) ≈ 65536 * s * v 0 i
  residue-invntt s v w t same i h =
      let z : 0 + i ≡ i = omega arith in
      let b = first_layers_bound 7 1 r refl full all in
      let j : residue (coeff (first_layers 7 1 r) i) ≈ 128 * s * v 0 i =
        rw z at
          (first_layers_join 7 1 s r v w refl full all all-is_paired t same 0 i (omega arith) h) in
      rw (invntt-first_layers r)
        ((coeff-scale_all (first_layers 7 1 r) i h (b.1 i h)).0 ∙ omega (arith, j))

pub ntt-IsTransform :
    (r : Poly) → length r ≡ 256 → IsAtMost 15295 r → IsTransform 7 1 (block 256 r) (block 2 (ntt r))
ntt-IsTransform r full all =
    rw (ntt-last_layers r) (last_layers-IsTransform 7 1 15295 r refl full (omega arith) all)

-- The products of two residues modulo x^2 - z.
pub product_zero : (z : ℕ) (a b : ℕ → ℕ) → product 2 z a b 0 ≡ a 0 * b 0 + z * (a 1 * b 1)
unfolding product sum rotated
product_zero z a b = omega arith

pub product_one : (z : ℕ) (a b : ℕ → ℕ) → product 2 z a b 1 ≡ a 0 * b 1 + a 1 * b 0
unfolding product sum rotated
product_one z a b = omega arith

module _ (a0 a1 b0 b1 zeta : ℤ) (z : ℕ) (hz : abs zeta ≤ 1664) (ez : 169 * residue zeta ≈ z)
    (h0 : abs a0 ≤ 4095) (h1 : abs a1 ≤ 4095) (k0 : abs b0 ≤ 4095) (k1 : abs b1 ≤ 4095) where
  small_factors : (x y : ℤ) → abs x ≤ 4095 → abs y ≤ 4095 → abs x * abs y ≤ 16769025
  small_factors x y h k = grind arith

  fqmul_fact :
      (x y : ℤ)
      → abs x ≤ 4095
      → abs y ≤ 4095
      → (residue (fqmul x y) ≈ 169 * (residue x * residue y)) × (abs (fqmul x y) ≤ 1920)
  fqmul_fact x y h k =
      let s = small_factors x y h k in
      (
        residue-fqmul x y (omega arith) ∙ omega arith,
        omega (arith, (fqmul_lem x y (omega arith)).1),
      )

  with_root :
      (residue (fqmul (fqmul a1 b1) zeta) ≈ 169 * (z * (residue a1 * residue b1)))
      × (abs (fqmul (fqmul a1 b1) zeta) ≤ 1920)
  with_root =
      let f = fqmul_fact a1 b1 h1 k1 in
      let g = fqmul_fact (fqmul a1 b1) zeta (omega (arith, f.1)) (omega arith) in
      let x = residue a1 * residue b1 in
      (
        omega (
          arith,
          g.0,
          ≈-scale (residue zeta) (residue (fqmul a1 b1)) (169 * x) f.0,
          ≈-scale (169 * x) (169 * residue zeta) z ez,
        ),
        g.1,
      )

  module _ (r x y : ℤ) (b : ℕ) (hr : abs r ≤ b) (hx : abs x ≤ 1920) (hy : abs y ≤ 1920)
      (fits : b + 3840 ≤ 32767) where
    add_two :
        (residue (int16 (int16 (r +ℤ x) +ℤ y)) ≈ residue r + residue x + residue y)
        × (abs (int16 (int16 (r +ℤ x) +ℤ y)) ≤ b + 3840)
    add_two =
        let t : abs (r +ℤ x) ≤ b + 1920 = omega (arith, abs-+ℤ r x) in
        let u : abs (r +ℤ x +ℤ y) ≤ b + 3840 = omega (arith, abs-+ℤ (r +ℤ x) y) in
        rw (int16-id (r +ℤ x) (omega arith), int16-id (r +ℤ x +ℤ y) (omega arith))
          (omega (arith, residue-+ℤ r x, residue-+ℤ (r +ℤ x) y), u)

  -- The products are those modulo x^2 - z, up to the factor 169.
  module _ (r0 r1 : ℤ) (b : ℕ) (hr0 : abs r0 ≤ b) (hr1 : abs r1 ≤ b) (fits : b + 3840 ≤ 32767) where
    pub basemul_acc_zero :
        let r = basemul_acc r0 r1 a0 a1 b0 b1 zeta in
        (residue (coeff r 0)
          ≈ residue r0 + 169 * (residue a0 * residue b0 + z * (residue a1 * residue b1)))
        × (abs (coeff r 0) ≤ b + 3840)
    unfolding basemul_acc
    basemul_acc_zero =
        let f = fqmul_fact a0 b0 h0 k0 in
        let s = add_two r0 (fqmul (fqmul a1 b1) zeta) (fqmul a0 b0) b hr0 with_root.1 f.1 fits in
        (omega (arith, s.0, with_root.0, f.0), s.1)

    pub basemul_acc_one :
        let r = basemul_acc r0 r1 a0 a1 b0 b1 zeta in
        (residue (coeff r 1)
          ≈ residue r1 + 169 * (residue a0 * residue b1 + residue a1 * residue b0))
        × (abs (coeff r 1) ≤ b + 3840)
    unfolding basemul_acc
    basemul_acc_one =
        let f = fqmul_fact a0 b1 h0 k1 in
        let g = fqmul_fact a1 b0 h1 k0 in
        let s = add_two r1 (fqmul a0 b1) (fqmul a1 b0) b hr1 f.1 g.1 fits in
        (omega (arith, s.0, f.0, g.0), s.1)

  -- Without a sum so far, the two functions agree.
  pub basemul-basemul_acc : basemul a0 a1 b0 b1 zeta ≡ basemul_acc (pos 0) (pos 0) a0 a1 b0 b1 zeta
  unfolding basemul basemul_acc
  basemul-basemul_acc =
      let f = fqmul_fact a0 b1 h0 k1 in
      let t = fqmul (fqmul a1 b1) zeta in
      let z0 : (x : ℤ) → abs x ≤ 1920 → int16 (pos 0 +ℤ x) ≡ x =
        λ x h. ap int16 (zero_add x) ∙ int16-id x (omega arith) in
      ap₂ (λ x y. int16 (x +ℤ fqmul a0 b0) ∷ int16 (y +ℤ fqmul a1 b0) ∷ []) (sym (z0 t with_root.1))
        (sym (z0 (fqmul a0 b1) f.1))
    where
      zero_add : (x : ℤ) → pos 0 +ℤ x ≡ x
      zero_add (pos n) = unfold ◌+ℤ◌ in ground arith
      zero_add (negsuc n) = unfold ◌+ℤ◌ in ground arith
