-- ===== src/Poly/Arith.antt =====
-- The arithmetic of mlkem/poly.c: one loop over the coefficients each.
pub mod Bounds
pub mod Products
pub mod Ring
pub mod Image
pub mod Inverse
pub mod FromBytes
pub mod Inner
use mlkem_c_embedded.Base.{
  ℕ, ◌+◌, ◌*◌, ◌/◌, ◌%◌, ◌^◌, Bool, true, false, List, [], ◌∷◌, ◌++◌, get_or, bit_and, bit_or, ℤ,
  pos, int16, neg_ℤ, ◌+ℤ◌, ◌-ℤ◌, ◌*ℤ◌, ◌<<<◌, ◌>>>◌, emit,
}
use mlkem_c_embedded.Params.{mlkem_n, mlkem_q}
use mlkem_c_embedded.Reduce.{montgomery_reduce, barrett_reduce}
use mlkem_c_embedded.Ntt.{zeta_at, ntt, invntt, basemul, basemul_acc}
use mlkem_c_embedded.Poly.{Poly, coeff}

unfoldable pub poly_reduce : Poly → Poly
poly_reduce r = emit mlkem_n λ i. barrett_reduce (coeff r i) ∷ []

-- The factor is `(1ULL << 32) % MLKEM_Q`.
unfoldable pub poly_tomont : Poly → Poly
poly_tomont r = emit mlkem_n λ i. montgomery_reduce (coeff r i *ℤ pos (2 ^ 32 % mlkem_q)) ∷ []

unfoldable pub poly_add : Poly → Poly → Poly
poly_add a b = emit mlkem_n λ i. int16 (coeff a i +ℤ coeff b i) ∷ []

unfoldable pub poly_sub : Poly → Poly → Poly
poly_sub a b = emit mlkem_n λ i. int16 (coeff a i -ℤ coeff b i) ∷ []

unfoldable pub poly_ntt : Poly → Poly
poly_ntt r = poly_reduce (ntt r)

unfoldable pub poly_invntt_tomont : Poly → Poly
poly_invntt_tomont r = invntt r

-- Two products with opposite roots, of the four coefficients from `o` on. The first four numbers
-- are those of the first factor.
unfoldable pub mul_four : Bool → Poly → ℕ → ℕ → ℤ → ℤ → ℤ → ℤ → Poly → Poly
mul_four false r o k a0 a1 a2 a3 b =
    basemul a0 a1 (coeff b o) (coeff b (o + 1)) (zeta_at (64 + k))
    ++ basemul a2 a3 (coeff b (o + 2)) (coeff b (o + 3)) (int16 (neg_ℤ (zeta_at (64 + k))))
mul_four true r o k a0 a1 a2 a3 b =
    basemul_acc (coeff r o) (coeff r (o + 1)) a0 a1 (coeff b o) (coeff b (o + 1)) (zeta_at (64 + k))
    ++ basemul_acc (coeff r (o + 2)) (coeff r (o + 3)) a2 a3 (coeff b (o + 2)) (coeff b (o + 3))
        (int16 (neg_ℤ (zeta_at (64 + k))))

-- The flag says whether the product is added to `r`.
unfoldable pub poly_basemul_montgomery : Bool → Poly → Poly → Poly → Poly
poly_basemul_montgomery add r a b = emit 64 λ i.
    mul_four add r (4 * i) i (coeff a (4 * i)) (coeff a (4 * i + 1)) (coeff a (4 * i + 2))
      (coeff a (4 * i + 3)) b

-- Twelve bits of two neighbouring bytes: the low byte and half of the next, or the other half of
-- the first and the next byte.
unfoldable pub twelve_low : ℕ → ℕ → ℤ
twelve_low b0 b1 = int16 (pos (bit_and (bit_or (b0 >>> 0) (b1 <<< 8)) 0xfff))

unfoldable pub twelve_high : ℕ → ℕ → ℤ
twelve_high b1 b2 = int16 (pos (bit_and (bit_or (b1 >>> 4) (b2 <<< 4)) 0xfff))

-- The product with a polynomial that is read from bytes on the way.
unfoldable pub poly_frombytes_basemul_montgomery : Bool → Poly → Poly → List ℕ → Poly
poly_frombytes_basemul_montgomery add r b a = emit 64 λ i.
    mul_four add r (4 * i) i (twelve_low (get_or a (6 * i + 0) 0) (get_or a (6 * i + 1) 0))
      (twelve_high (get_or a (6 * i + 1) 0) (get_or a (6 * i + 2) 0))
      (twelve_low (get_or a (6 * i + 3) 0) (get_or a (6 * i + 4) 0))
      (twelve_high (get_or a (6 * i + 4) 0) (get_or a (6 * i + 5) 0)) b
