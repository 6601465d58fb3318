-- ===== src/Poly/Arith/FromBytes.antt =====
-- mlkem/poly.c: poly_frombytes_basemul_montgomery, which reads its second factor on the way.
use mlkem_c_embedded.Base.{ℕ, ◌+◌, ◌*◌, ◌<◌, ◌≡◌, refl, arith, Bool, List, get_or, emit_ext}
use mlkem_c_embedded.Poly.{Poly, coeff}
use mlkem_c_embedded.Poly.Bytes.{poly_frombytes}
use mlkem_c_embedded.Poly.Bytes.Coeffs.{coeff-poly_frombytes_any}
use mlkem_c_embedded.Poly.Arith.{
  mul_four, poly_basemul_montgomery, poly_frombytes_basemul_montgomery, twelve_low, twelve_high,
}

-- The four coefficients of round `i`.
four :
    (a : List ℕ) (i : ℕ)
    → i < 64
    → let p = poly_frombytes a in
      (coeff p (4 * i) ≡ twelve_low (get_or a (6 * i + 0) 0) (get_or a (6 * i + 1) 0))
      × (coeff p (4 * i + 1) ≡ twelve_high (get_or a (6 * i + 1) 0) (get_or a (6 * i + 2) 0))
      × (coeff p (4 * i + 2) ≡ twelve_low (get_or a (6 * i + 3) 0) (get_or a (6 * i + 4) 0))
      × (coeff p (4 * i + 3) ≡ twelve_high (get_or a (6 * i + 4) 0) (get_or a (6 * i + 5) 0))
unfolding twelve_low twelve_high
four a i h =
    let x = coeff-poly_frombytes_any a (2 * i) (omega arith) in
    let y = coeff-poly_frombytes_any a (2 * i + 1) (omega arith) in
    let e : 2 * (2 * i) ≡ 4 * i = omega arith in
    let e' : 2 * (2 * i + 1) ≡ 4 * i + 2 = omega arith in
    let s : 4 * i + 2 + 1 ≡ 4 * i + 3 = omega arith in
    let b : 3 * (2 * i) ≡ 6 * i = omega arith in
    let c0 : 3 * (2 * i + 1) + 0 ≡ 6 * i + 3 = omega arith in
    let c1 : 3 * (2 * i + 1) + 1 ≡ 6 * i + 4 = omega arith in
    let c2 : 3 * (2 * i + 1) + 2 ≡ 6 * i + 5 = omega arith in
    let x' = rw (e, b) at x in let y' = rw (e', s, c0, c1, c2) at y in (x'.0, x'.1, y'.0, y'.1)

-- poly_frombytes_basemul_montgomery leaves what poly_basemul_montgomery leaves with the polynomial
-- that poly_frombytes reads from the bytes, whether or not the product is added to a sum.
pub poly_frombytes_basemul_montgomery_lem :
    (add : Bool) (r b : Poly) (a : List ℕ)
    → poly_frombytes_basemul_montgomery add r b a
      ≡ poly_basemul_montgomery add r (poly_frombytes a) b
unfolding poly_frombytes_basemul_montgomery poly_basemul_montgomery
poly_frombytes_basemul_montgomery_lem add r b a =
    emit_ext 64
      (λ i.
        mul_four add r (4 * i) i (twelve_low (get_or a (6 * i + 0) 0) (get_or a (6 * i + 1) 0))
          (twelve_high (get_or a (6 * i + 1) 0) (get_or a (6 * i + 2) 0))
          (twelve_low (get_or a (6 * i + 3) 0) (get_or a (6 * i + 4) 0))
          (twelve_high (get_or a (6 * i + 4) 0) (get_or a (6 * i + 5) 0)) b)
      (λ i.
        let p = poly_frombytes a in
        mul_four add r (4 * i) i (coeff p (4 * i)) (coeff p (4 * i + 1)) (coeff p (4 * i + 2))
          (coeff p (4 * i + 3)) b)
      λ i h. let q = four a i h in rw (q.0, q.1, q.2, q.3) refl
