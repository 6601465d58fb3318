-- ===== src/Compress.antt =====
-- The compression of one coefficient, as mlkem/poly.c and mlkem/polyvec.c compute it: division by q
-- is a multiplication and a shift. `d` bits are kept, with d = 4 and 5 in poly_compress and d = 10
-- and 11 in poly_packcompress and polyvec_compress.
pub mod Rounding
pub mod Packing
use mlkem_c_embedded.Base.{
  ℕ, ◌+◌, ◌*◌, ◌%◌, ◌^◌, bit_and, ℤ, pos, ◌+ℤ◌, ◌*ℤ◌, u16, u32, int16, int32,
}
use mlkem_c_embedded.Base.{◌>>ℤ◌, ◌<<<◌, ◌>>>◌}
use mlkem_c_embedded.Params.{mlkem_q}
use mlkem_c_embedded.Poly.{positive16}

-- `u += (u >> 15) & MLKEM_Q` on an `int32_t`, and on an `int16_t`.
unfoldable pub positive_int32 : ℤ → ℤ
positive_int32 u = int32 (u +ℤ pos (bit_and (u32 (u >>ℤ 15)) mlkem_q))

unfoldable pub positive_int16 : ℤ → ℤ
positive_int16 u = int16 (u +ℤ pos (bit_and (u32 (u >>ℤ 15)) mlkem_q))

-- From `d0 = u << 4` on; `d0` is a `uint32_t`.
unfoldable pub scale4 : ℤ → ℕ
scale4 u = bit_and (((u32 (u *ℤ pos 16) + 1665) % 2 ^ 32 * 80635) % 2 ^ 32 >>> 28) 0xf

unfoldable pub scale5 : ℤ → ℕ
scale5 u = bit_and (((u32 (u *ℤ pos 32) + 1664) % 2 ^ 32 * 40318) % 2 ^ 32 >>> 27) 0x1f

-- From `d0 = t[k]` on; `d0` is a `uint64_t`.
unfoldable pub scale10 : ℕ → ℕ
scale10 t = bit_and ((((t <<< 10) % 2 ^ 64 + 1665) % 2 ^ 64 * 1290167) % 2 ^ 64 >>> 32) 0x3ff

unfoldable pub scale11 : ℕ → ℕ
scale11 t = bit_and ((((t <<< 11) % 2 ^ 64 + 1664) % 2 ^ 64 * 645084) % 2 ^ 64 >>> 31) 0x7ff

-- A coefficient to the value that is packed, in poly_compress.
unfoldable pub compress4 : ℤ → ℕ
compress4 c = scale4 (positive_int32 c)

unfoldable pub compress5 : ℤ → ℕ
compress5 c = scale5 (positive_int32 c)

-- In cmp_poly_compress, where `u` is an `int16_t`.
unfoldable pub cmp_compress4 : ℤ → ℕ
cmp_compress4 c = scale4 (positive_int16 c)

unfoldable pub cmp_compress5 : ℤ → ℕ
cmp_compress5 c = scale5 (positive_int16 c)

-- In poly_packcompress, cmp_poly_packcompress and polyvec_compress.
unfoldable pub compress10 : ℤ → ℕ
compress10 c = scale10 (positive16 (u16 c))

unfoldable pub compress11 : ℤ → ℕ
compress11 c = scale11 (positive16 (u16 c))

-- A packed value back to a coefficient: poly_decompress, poly_unpackdecompress and
-- polyvec_decompress.
unfoldable pub decompress4 : ℕ → ℤ
decompress4 t = int16 (pos ((t * mlkem_q + 8) >>> 4))

unfoldable pub decompress5 : ℕ → ℤ
decompress5 t = int16 (pos (((t * mlkem_q + 16) % 2 ^ 32) >>> 5))

unfoldable pub decompress10 : ℕ → ℤ
decompress10 t = int16 (pos (((t * mlkem_q + 512) % 2 ^ 32) >>> 10))

unfoldable pub decompress11 : ℕ → ℤ
decompress11 t = int16 (pos (((t * mlkem_q + 1024) % 2 ^ 32) >>> 11))
