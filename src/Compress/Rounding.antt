-- ===== src/Compress/Rounding.antt =====
-- mlkem/poly.c: the compression and decompression of one coefficient against exact rounding.
use mlkem_c_embedded.Base.{
  ℕ, ◌+◌, ◌*◌, ◌/◌, ◌%◌, ◌^◌, ◌≤◌, ◌<◌, ◌≡◌, ◌∙◌, ◌⊎◌, sym, ap, arith, ℤ, pos, negsuc, abs, u32,
  int16, int32, ◌+ℤ◌, ◌*ℤ◌, ◌>>>◌, ◌<<<◌, bit_and_mask, zero-bit_and,
}
use mlkem_c_embedded.Params.{mlkem_q}
use mlkem_c_embedded.Reduce.Bounds.{residue, residue-lt}
use mlkem_c_embedded.Poly.Bytes.RoundTrip.{positive16-residue}
use mlkem_c_embedded.Compress.{
  positive_int32, positive_int16, scale4, scale5, scale10, scale11, compress4, compress5,
  cmp_compress4, cmp_compress5, compress10, compress11, decompress4, decompress5, decompress10,
  decompress11,
}

-- FIPS 203's Compress: x * 2^d / q rounded to the nearest integer, modulo 2^d.
abbrev pub nearest : ℕ → ℕ → ℕ
nearest d x = (2 * (x * 2 ^ d) + mlkem_q) / (2 * mlkem_q) % 2 ^ d

scale4_lem : (x : ℕ) → x < mlkem_q → scale4 (pos x) ≡ nearest 4 x
unfolding scale4 ◌*ℤ◌
scale4_lem x h =
    ground
      (arith, bit_and_mask 4 (((u32 (pos x *ℤ pos 16) + 1665) % 2 ^ 32 * 80635) % 2 ^ 32 >>> 28))

scale5_lem : (x : ℕ) → x < mlkem_q → scale5 (pos x) ≡ nearest 5 x
unfolding scale5 ◌*ℤ◌
scale5_lem x h =
    ground
      (arith, bit_and_mask 5 (((u32 (pos x *ℤ pos 32) + 1664) % 2 ^ 32 * 40318) % 2 ^ 32 >>> 27))

scale10_lem : (x : ℕ) → x < mlkem_q → scale10 x ≡ nearest 10 x
unfolding scale10
scale10_lem x h =
    ground
      (arith, bit_and_mask 10 ((((x <<< 10) % 2 ^ 64 + 1665) % 2 ^ 64 * 1290167) % 2 ^ 64 >>> 32))

scale11_lem : (x : ℕ) → x < mlkem_q → scale11 x ≡ nearest 11 x
unfolding scale11
scale11_lem x h =
    ground
      (arith, bit_and_mask 11 ((((x <<< 11) % 2 ^ 64 + 1664) % 2 ^ 64 * 645084) % 2 ^ 64 >>> 31))

positive_int32_lem : (c : ℤ) → abs c < mlkem_q → positive_int32 c ≡ pos (residue c)
unfolding positive_int32 int32 ◌+ℤ◌
positive_int32_lem (pos n) h =
    let e : n / 2 ^ 15 ≡ 0 = omega arith in rw e (ground (arith, zero-bit_and mlkem_q))
positive_int32_lem (negsuc n) h = let e : n / 2 ^ 15 ≡ 0 = omega arith in rw e (ground arith)

positive_int16_lem : (c : ℤ) → abs c < mlkem_q → positive_int16 c ≡ pos (residue c)
unfolding positive_int16 int16 ◌+ℤ◌
positive_int16_lem (pos n) h =
    let e : n / 2 ^ 15 ≡ 0 = omega arith in rw e (ground (arith, zero-bit_and mlkem_q))
positive_int16_lem (negsuc n) h = let e : n / 2 ^ 15 ≡ 0 = omega arith in rw e (ground arith)

-- For a coefficient c of absolute value below q, each compression gives the residue of c times 2^d,
-- divided by q and rounded to the nearest integer, modulo 2^d, with d = 4, 5, 10 and 11.
pub compress_lem :
    (c : ℤ)
    → abs c < mlkem_q
    → (compress4 c ≡ nearest 4 (residue c))
      × (compress5 c ≡ nearest 5 (residue c))
      × (compress10 c ≡ nearest 10 (residue c))
      × (compress11 c ≡ nearest 11 (residue c))
unfolding compress4 compress5 compress10 compress11
compress_lem c h =
    let p = positive_int32_lem c h in
    let p' = positive16-residue c h in
    let s = residue-lt c in
    (
      ap scale4 p ∙ scale4_lem (residue c) s,
      ap scale5 p ∙ scale5_lem (residue c) s,
      ap scale10 p' ∙ scale10_lem (residue c) s,
      ap scale11 p' ∙ scale11_lem (residue c) s,
    )

-- The narrower variable of cmp_poly_compress makes no difference.
pub cmp_compress4-compress4 : (c : ℤ) → abs c < mlkem_q → cmp_compress4 c ≡ compress4 c
unfolding cmp_compress4 compress4
cmp_compress4-compress4 c h = ap scale4 (positive_int16_lem c h ∙ sym (positive_int32_lem c h))

pub cmp_compress5-compress5 : (c : ℤ) → abs c < mlkem_q → cmp_compress5 c ≡ compress5 c
unfolding cmp_compress5 compress5
cmp_compress5-compress5 c h = ap scale5 (positive_int16_lem c h ∙ sym (positive_int32_lem c h))

-- `y` is at most `e` from `x` on the circle of residues.
abbrev pub Within : ℕ → ℕ → ℤ → Type 0
Within e x (pos y) = ((x ≤ y + e) × (y ≤ x + e)) ⊎ (y + mlkem_q ≤ x + e)
Within e x (negsuc y) = ⊥

decompress4-Within : (x : ℕ) → x < mlkem_q → Within 104 x (decompress4 (nearest 4 x))
unfolding decompress4 int16
decompress4-Within x h = ground arith

decompress5-Within : (x : ℕ) → x < mlkem_q → Within 52 x (decompress5 (nearest 5 x))
unfolding decompress5 int16
decompress5-Within x h = ground arith

decompress10-Within : (x : ℕ) → x < mlkem_q → Within 2 x (decompress10 (nearest 10 x))
unfolding decompress10 int16
decompress10-Within x h = ground arith

decompress11-Within : (x : ℕ) → x < mlkem_q → Within 1 x (decompress11 (nearest 11 x))
unfolding decompress11 int16
decompress11-Within x h = ground arith

-- A coefficient of absolute value below q that is compressed and decompressed comes back as a
-- nonnegative number, away from its residue on the circle modulo q by at most 104 for 4 bits, 52
-- for 5 bits, 2 for 10 bits and 1 for 11 bits.
pub decompress-compress_error :
    (c : ℤ)
    → abs c < mlkem_q
    → Within 104 (residue c) (decompress4 (compress4 c))
      × Within 52 (residue c) (decompress5 (compress5 c))
      × Within 2 (residue c) (decompress10 (compress10 c))
      × Within 1 (residue c) (decompress11 (compress11 c))
decompress-compress_error c h =
    let x = residue c in
    let s = residue-lt c in
    let (c4, c5, c10, c11) = compress_lem c h in
    (
      rw c4 (decompress4-Within x s),
      rw c5 (decompress5-Within x s),
      rw c10 (decompress10-Within x s),
      rw c11 (decompress11-Within x s),
    )

decompress4_value : (t : ℕ) → t < 2 ^ 4 → decompress4 t ≡ pos ((t * mlkem_q + 8) / 2 ^ 4)
unfolding decompress4 int16
decompress4_value t h = ground arith

decompress5_value : (t : ℕ) → t < 2 ^ 5 → decompress5 t ≡ pos ((t * mlkem_q + 16) / 2 ^ 5)
unfolding decompress5 int16
decompress5_value t h = ground arith

decompress10_value : (t : ℕ) → t < 2 ^ 10 → decompress10 t ≡ pos ((t * mlkem_q + 512) / 2 ^ 10)
unfolding decompress10 int16
decompress10_value t h = ground arith

decompress11_value : (t : ℕ) → t < 2 ^ 11 → decompress11 t ≡ pos ((t * mlkem_q + 1024) / 2 ^ 11)
unfolding decompress11 int16
decompress11_value t h = ground arith

-- At each of the widths 4, 5, 10 and 11, a value below 2^width that is decompressed compresses to
-- itself.
pub compress-decompress :
    (t4 t5 t10 t11 : ℕ)
    → t4 < 2 ^ 4
    → t5 < 2 ^ 5
    → t10 < 2 ^ 10
    → t11 < 2 ^ 11
    → (compress4 (decompress4 t4) ≡ t4)
      × (compress5 (decompress5 t5) ≡ t5)
      × (compress10 (decompress10 t10) ≡ t10)
      × (compress11 (decompress11 t11) ≡ t11)
compress-decompress t4 t5 t10 t11 h4 h5 h10 h11 = (
  rw (decompress4_value t4 h4)
      ((compress_lem (pos ((t4 * mlkem_q + 8) / 2 ^ 4)) (omega arith)).0 ∙ omega arith),
  rw (decompress5_value t5 h5)
      ((compress_lem (pos ((t5 * mlkem_q + 16) / 2 ^ 5)) (omega arith)).1 ∙ omega arith),
  rw (decompress10_value t10 h10)
      ((compress_lem (pos ((t10 * mlkem_q + 512) / 2 ^ 10)) (omega arith)).2 ∙ omega arith),
  rw (decompress11_value t11 h11)
      ((compress_lem (pos ((t11 * mlkem_q + 1024) / 2 ^ 11)) (omega arith)).3 ∙ omega arith),
)
