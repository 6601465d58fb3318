-- ===== src/Poly.antt =====
-- mlkem/poly.h and mlkem/poly.c: polynomials of 256 coefficients of type `int16_t`.
pub mod Bytes
pub mod Compress
pub mod Arith
pub mod Message
pub mod Noise
use mlkem_c_embedded.Base.{ℕ, ◌+◌, ◌%◌, ◌^◌, ◌≡◌, ◌<◌, List, length, get_or, bit_and, ℤ, pos, u32}
use mlkem_c_embedded.Base.{signed16, ◌>>ℤ◌}
use mlkem_c_embedded.Params.{mlkem_n, mlkem_q}

-- `poly`: the array `coeffs`.
abbrev pub Poly : Type 0
Poly = List ℤ

abbrev pub coeff : Poly → ℕ → ℤ
coeff p i = get_or p i (pos 0)

-- `t += ((int16_t)t >> 15) & MLKEM_Q` on a `uint16_t`: to the standard representative.
unfoldable pub positive16 : ℕ → ℕ
positive16 t = (t + bit_and (u32 (signed16 t >>ℤ 15)) mlkem_q) % 2 ^ 16
