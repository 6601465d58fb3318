-- ===== src/Poly/Compress.antt =====
-- The compressed formats of mlkem/poly.c: poly_compress, poly_decompress, poly_packcompress,
-- poly_unpackdecompress, and the two comparisons with bytes that are already there.
pub mod Compare
pub mod Store
pub mod Agree
pub mod Range
pub mod Error
pub mod PackedError
use mlkem_c_embedded.Base.{
  ℕ, zero, suc, ◌+◌, ◌*◌, ◌%◌, ◌^◌, List, [], ◌∷◌, map, get_or, set, store, bit_or, bit_xor, emit,
}
use mlkem_c_embedded.Params.{ParamSet}
use mlkem_c_embedded.Poly.{Poly, coeff}
use mlkem_c_embedded.Compress.{
  compress4, compress5, cmp_compress4, cmp_compress5, compress10, compress11, decompress4,
  decompress5, decompress10, decompress11,
}
use mlkem_c_embedded.Compress.Packing.{
  bytes, pack4, pack5, pack10, pack11, unpack4, unpack5, unpack10, unpack11,
}

-- What one round computes for the output, before the store cuts it to bytes.
abbrev pub block4 : Poly → ℕ → List ℕ
block4 a i = pack4 λ j. compress4 (coeff a (8 * i + j))

abbrev pub block5 : Poly → ℕ → List ℕ
block5 a i = pack5 λ j. compress5 (coeff a (8 * i + j))

abbrev pub block10 : Poly → ℕ → List ℕ
block10 a j = pack10 λ k. compress10 (coeff a (4 * j + k))

abbrev pub block11 : Poly → ℕ → List ℕ
block11 a j = pack11 λ k. compress11 (coeff a (8 * j + k))

pub poly_compress : ParamSet → Poly → List ℕ
poly_compress ParamSet.mlkem1024 a = emit 32 λ i. bytes (block5 a i)
poly_compress ParamSet.mlkem768 a = emit 32 λ i. bytes (block4 a i)
poly_compress ParamSet.mlkem512 a = emit 32 λ i. bytes (block4 a i)

unfoldable pub poly_decompress : ParamSet → List ℕ → Poly
poly_decompress ParamSet.mlkem1024 a =
    emit 32 λ i. map decompress5 (unpack5 λ k. get_or a (5 * i + k) 0)
poly_decompress ParamSet.mlkem768 a =
    emit 128 λ i. map decompress4 (unpack4 λ k. get_or a (i + k) 0)
poly_decompress ParamSet.mlkem512 a =
    emit 128 λ i. map decompress4 (unpack4 λ k. get_or a (i + k) 0)

-- The rounds of poly_packcompress from `j` on: `w` bytes each, from `base` on in `r`.
pub pack_rounds : ℕ → ℕ → (ℕ → List ℕ) → ℕ → ℕ → List ℕ → List ℕ
pack_rounds base w block zero j r = r
pack_rounds base w block (suc left) j r =
    pack_rounds base w block left (j + 1) (store r (base + w * j) (bytes (block j)))

pub poly_packcompress : ParamSet → List ℕ → Poly → ℕ → List ℕ
poly_packcompress ParamSet.mlkem1024 r a i = pack_rounds (352 * i) 11 (block11 a) 32 0 r
poly_packcompress ParamSet.mlkem768 r a i = pack_rounds (320 * i) 5 (block10 a) 64 0 r
poly_packcompress ParamSet.mlkem512 r a i = pack_rounds (320 * i) 5 (block10 a) 64 0 r

unfoldable pub poly_unpackdecompress : ParamSet → List ℕ → ℕ → Poly
poly_unpackdecompress ParamSet.mlkem1024 a i =
    emit 32 λ j. map decompress11 (unpack11 λ k. get_or a (352 * i + 11 * j + k) 0)
poly_unpackdecompress ParamSet.mlkem768 a i =
    emit 64 λ j. map decompress10 (unpack10 λ k. get_or a (320 * i + 5 * j + k) 0)
poly_unpackdecompress ParamSet.mlkem512 a i =
    emit 64 λ j. map decompress10 (unpack10 λ k. get_or a (320 * i + 5 * j + k) 0)

-- `rc |= r[k] ^ x` for the values of one round, from index `k` on; `rc` is an `unsigned char`.
pub accumulate : List ℕ → ℕ → ℕ → List ℕ → ℕ
accumulate r k rc [] = rc
accumulate r k rc (x ∷ xs) = accumulate r (k + 1) (bit_or rc (bit_xor (get_or r k 0) x) % 2 ^ 8) xs

pub cmp_rounds : List ℕ → ℕ → ℕ → (ℕ → List ℕ) → ℕ → ℕ → ℕ → ℕ
cmp_rounds r base w block zero j rc = rc
cmp_rounds r base w block (suc left) j rc =
    cmp_rounds r base w block left (j + 1) (accumulate r (base + w * j) rc (block j))

pub cmp_poly_compress : ParamSet → List ℕ → Poly → ℕ
cmp_poly_compress ParamSet.mlkem1024 r a =
    cmp_rounds r 0 5 (λ i. pack5 λ j. cmp_compress5 (coeff a (8 * i + j))) 32 0 0
cmp_poly_compress ParamSet.mlkem768 r a =
    cmp_rounds r 0 4 (λ i. pack4 λ j. cmp_compress4 (coeff a (8 * i + j))) 32 0 0
cmp_poly_compress ParamSet.mlkem512 r a =
    cmp_rounds r 0 4 (λ i. pack4 λ j. cmp_compress4 (coeff a (8 * i + j))) 32 0 0

pub cmp_poly_packcompress : ParamSet → List ℕ → Poly → ℕ → ℕ
cmp_poly_packcompress ParamSet.mlkem1024 r a i = cmp_rounds r (352 * i) 11 (block11 a) 32 0 0
cmp_poly_packcompress ParamSet.mlkem768 r a i = cmp_rounds r (320 * i) 5 (block10 a) 64 0 0
cmp_poly_packcompress ParamSet.mlkem512 r a i = cmp_rounds r (320 * i) 5 (block10 a) 64 0 0
