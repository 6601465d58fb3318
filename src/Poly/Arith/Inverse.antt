-- ===== src/Poly/Arith/Inverse.antt =====
-- mlkem/poly.c: poly_ntt after poly_invntt_tomont.
use mlkem_c_embedded.Base.{
  ℕ, ◌+◌, ◌*◌, ◌/◌, ◌%◌, ◌≤◌, ◌<◌, ◌≡◌, arith, length, abs, length-emit_one,
}
use mlkem_c_embedded.Params.{mlkem_n, mlkem_q}
use mlkem_c_embedded.Reduce.Bounds.{residue}
use mlkem_c_embedded.Poly.{Poly, coeff}
use mlkem_c_embedded.Poly.Arith.{poly_ntt, poly_invntt_tomont}
use mlkem_c_embedded.Poly.Arith.Ring.{poly_ntt-IsTransform, to_residue}
use mlkem_c_embedded.Ntt.{invntt, scale_all, fqmul, inv_factor}
use mlkem_c_embedded.Ntt.Field.{◌≈◌}
use mlkem_c_embedded.Ntt.Roots.{all-is_paired}
use mlkem_c_embedded.Ntt.Halves.{block}
use mlkem_c_embedded.Ntt.Transform.{first_layers, invntt-first_layers, IsTransform}
use mlkem_c_embedded.Ntt.Inverse.{residue-invntt, invntt_bound_lem}
use mlkem_c_embedded.Ntt.Surjective.{untransformed, IsTransform_scale}

length-invntt : (r : Poly) → length (invntt r) ≡ 256
unfolding scale_all
length-invntt r =
    rw (invntt-first_layers r)
      (length-emit_one 256 (λ i. fqmul (coeff (first_layers 7 1 r) i) inv_factor))

-- For 256 coefficients of absolute value at most 16383, poly_ntt undoes poly_invntt_tomont up to the
-- factor 2^16 modulo q.
pub poly_ntt-poly_invntt_tomont :
    (r : Poly)
    → length r ≡ mlkem_n
    → ((i : ℕ) → i < mlkem_n → abs (coeff r i) ≤ 16383)
    → (i : ℕ) → i < mlkem_n
    → residue (coeff (poly_ntt (poly_invntt_tomont r)) i) ≡ (65536 * residue (coeff r i)) % mlkem_q
unfolding poly_invntt_tomont
poly_ntt-poly_invntt_tomont r full all i h =
    let before = untransformed 7 1 (block 2 r) all-is_paired in
    let small = invntt_bound_lem r full all in
    let after : IsTransform 7 1 (block 256 (invntt r)) (block 2 (poly_ntt (invntt r))) =
      poly_ntt-IsTransform (invntt r) (length-invntt r) (λ i h. omega (arith, small i h)) in
    let at : i / 2 * 2 + i % 2 ≡ i = omega arith in
    to_residue (coeff (poly_ntt (invntt r)) i) (65536 * residue (coeff r i)) (
      rw at at (
        IsTransform_scale 7 1 65536 before.0 (block 256 (invntt r)) (block 2 r)
          (block 2 (poly_ntt (invntt r))) before.1 after
          (λ c j l l'. same before.0 before.1 c j l l') (i / 2) (i % 2) (omega arith)
          (omega arith)))
  where
    same :
        (v : ℕ → ℕ → ℕ)
        → IsTransform 7 1 v (block 2 r)
        → (c j : ℕ) → c < 1
        → j < 256
        → block 256 (invntt r) c j ≈ 65536 * v c j
    same v t c j l l' =
        let z : c ≡ 0 = omega arith in
        let k : 0 * 256 + j ≡ j = omega arith in
        rw z (rw k (residue-invntt r full all 1 v (block 2 r) t (λ c i h h'. omega arith) j l'))
