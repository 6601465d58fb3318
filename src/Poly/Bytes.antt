-- ===== src/Poly/Bytes.antt =====
-- poly_tobytes and poly_frombytes of mlkem/poly.c: 12 bits for each coefficient.
pub mod RoundTrip
pub mod Coeffs
use mlkem_c_embedded.Base.{ℕ, ◌+◌, ◌*◌, ◌%◌, ◌^◌, List, [], ◌∷◌, get_or, bit_and, bit_or, ℤ, pos}
use mlkem_c_embedded.Base.{u16, int16, ◌<<<◌, ◌>>>◌, emit}
use mlkem_c_embedded.Poly.{Poly, coeff, positive16}

-- The three bytes that one round writes, from its two standard representatives.
tobytes_block : ℕ → ℕ → List ℕ
tobytes_block t0 t1 =
    (t0 >>> 0) % 2 ^ 8 ∷ bit_or (t0 >>> 8) (t1 <<< 4) % 2 ^ 8 ∷ (t1 >>> 4) % 2 ^ 8 ∷ []

tobytes_round : Poly → ℕ → List ℕ
tobytes_round a i =
    tobytes_block (positive16 (u16 (coeff a (2 * i)))) (positive16 (u16 (coeff a (2 * i + 1))))

pub poly_tobytes : Poly → List ℕ
poly_tobytes a = emit 128 (tobytes_round a)

-- The two coefficients that one round reads from three bytes.
frombytes_block : ℕ → ℕ → ℕ → Poly
frombytes_block b0 b1 b2 =
    int16 (pos (bit_and (bit_or (b0 >>> 0) (b1 <<< 8)) 0xfff))
    ∷ int16 (pos (bit_and (bit_or (b1 >>> 4) (b2 <<< 4)) 0xfff))
    ∷ []

frombytes_round : List ℕ → ℕ → Poly
frombytes_round a i =
    frombytes_block (get_or a (3 * i + 0) 0) (get_or a (3 * i + 1) 0) (get_or a (3 * i + 2) 0)

pub poly_frombytes : List ℕ → Poly
poly_frombytes a = emit 128 (frombytes_round a)
