-- ===== src/Poly/Bytes/Coeffs.antt =====
-- mlkem/poly.c: the coefficients that poly_frombytes reads, from any bytes.
use mlkem_c_embedded.Base.{
  ℕ, ◌+◌, ◌*◌, ◌/◌, ◌≤◌, ◌<◌, ◌≡◌, refl, arith, List, length, get_or, bit_and, bit_or, pos, abs,
  int16, ◌<<<◌, ◌>>>◌, get_or-emit, bit_and_mask,
}
use mlkem_c_embedded.Params.{mlkem_n}
use mlkem_c_embedded.Poly.{coeff}
use mlkem_c_embedded.Poly.Bytes.{frombytes_block, frombytes_round, poly_frombytes}
use mlkem_c_embedded.Poly.Bytes.RoundTrip.{parity}

length-round : (a : List ℕ) (i : ℕ) → length (frombytes_round a i) ≡ 2
unfolding frombytes_round frombytes_block
length-round a i = refl

pub coeff-poly_frombytes_any :
    (a : List ℕ) (j : ℕ)
    → j < 128
    → (coeff (poly_frombytes a) (2 * j)
        ≡ int16 (
            pos (
              bit_and
                (bit_or (get_or a (3 * j + 0) 0 >>> 0) (get_or a (3 * j + 1) 0 <<< 8))
                0xfff)))
      × (coeff (poly_frombytes a) (2 * j + 1)
          ≡ int16 (
              pos (
                bit_and
                  (bit_or (get_or a (3 * j + 1) 0 >>> 4) (get_or a (3 * j + 2) 0 <<< 4))
                  0xfff)))
unfolding poly_frombytes frombytes_round frombytes_block
coeff-poly_frombytes_any a j h =
    let e : j * 2 + 0 ≡ 2 * j = omega arith in
    let e' : j * 2 + 1 ≡ 2 * j + 1 = omega arith in
    (
      rw e at (get_or-emit 2 (frombytes_round a) (length-round a) (pos 0) 128 j 0 h (omega arith)),
      rw e' at (get_or-emit 2 (frombytes_round a) (length-round a) (pos 0) 128 j 1 h (omega arith)),
    )

mask_bound : (x : ℕ) → abs (int16 (pos (bit_and x 0xfff))) ≤ 4095
unfolding int16
mask_bound x = ground (arith, bit_and_mask 12 x)

-- Twelve bits are at most 4095.
pub poly_frombytes_bound :
    (a : List ℕ) (i : ℕ) → i < mlkem_n → abs (coeff (poly_frombytes a) i) ≤ 4095
poly_frombytes_bound a i h =
    let j = i / 2 in
    let c = coeff-poly_frombytes_any a j (omega arith) in
    parity (λ m. abs (coeff (poly_frombytes a) m) ≤ 4095) i
      (rw c.0 (mask_bound (bit_or (get_or a (3 * j + 0) 0 >>> 0) (get_or a (3 * j + 1) 0 <<< 8))))
      (rw c.1 (mask_bound (bit_or (get_or a (3 * j + 1) 0 >>> 4) (get_or a (3 * j + 2) 0 <<< 4))))

-- Only the first 384 bytes count.
pub poly_frombytes_eq :
    (a b : List ℕ)
    → ((k : ℕ) → k < 384 → get_or a k 0 ≡ get_or b k 0)
    → (i : ℕ) → i < mlkem_n
    → coeff (poly_frombytes a) i ≡ coeff (poly_frombytes b) i
poly_frombytes_eq a b h i l =
    let j = i / 2 in
    let x = coeff-poly_frombytes_any a j (omega arith) in
    let y = coeff-poly_frombytes_any b j (omega arith) in
    let e0 = h (3 * j + 0) (omega arith) in
    let e1 = h (3 * j + 1) (omega arith) in
    let e2 = h (3 * j + 2) (omega arith) in
    parity (λ m. coeff (poly_frombytes a) m ≡ coeff (poly_frombytes b) m) i
      (rw (x.0, y.0, e0, e1) refl) (rw (x.1, y.1, e1, e2) refl)
