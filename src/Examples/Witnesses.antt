-- ===== src/Examples/Witnesses.antt =====
-- The theorems at concrete inputs.
use mlkem_c_embedded.Base.{
  ℕ, ◌+◌, ◌*◌, ◌/◌, ◌%◌, ◌^◌, ◌≤◌, ◌<◌, ◌≡◌, ◌↔◌, sym, ap, ◌∙◌, ◌+ℤ◌, int16, IsInt16, arith, List,
  [], ◌∷◌, get_or, drop, take, emit, length-emit_one, get_or-emit_one, ℤ, pos, minus, abs,
  if◌then◌else◌, ◌==◌, some, ◌>>=◌,
}
use mlkem_c_embedded.Params.{ParamSet, mlkem_n, mlkem_q, mlkem_indcpa_secretkeybytes}
use mlkem_c_embedded.Poly.{Poly, coeff}
use mlkem_c_embedded.Reduce.{montgomery_reduce, barrett_reduce}
use mlkem_c_embedded.Reduce.Bounds.{residue, montgomery_reduce_lem, barrett_reduce_lem}
use mlkem_c_embedded.Verify.{verify, cmov}
use mlkem_c_embedded.Verify.Select.{verify_lem, cmov_lem}
use mlkem_c_embedded.Poly.Bytes.{poly_tobytes, poly_frombytes}
use mlkem_c_embedded.Poly.Bytes.RoundTrip.{
  poly_tobytes-poly_frombytes, coeff-poly_frombytes-poly_tobytes,
}
use mlkem_c_embedded.Compress.{
  compress4, compress5, compress10, compress11, decompress4, decompress5, decompress10,
  decompress11,
}
use mlkem_c_embedded.Compress.Rounding.{
  nearest, Within, compress_lem, compress-decompress, decompress-compress_error,
}
use mlkem_c_embedded.Poly.Compress.{
  poly_compress, poly_packcompress, cmp_poly_compress, cmp_poly_packcompress,
}
use mlkem_c_embedded.Poly.Compress.Store.{cmp_poly_packcompress-poly_packcompress}
use mlkem_c_embedded.Poly.Compress.Agree.{cmp_poly_compress-poly_compress}
use mlkem_c_embedded.Poly.Arith.{poly_reduce, poly_add}
use mlkem_c_embedded.Poly.Arith.Bounds.{coeff-poly_add, poly_reduce_lem}
use mlkem_c_embedded.Poly.Message.{poly_frommsg, poly_tomsg}
use mlkem_c_embedded.Poly.Message.Decode.{coeff-poly_frommsg, poly_tomsg-poly_frommsg}
use mlkem_c_embedded.Ntt.{ntt}
use mlkem_c_embedded.Ntt.Range.{ntt_bound}
use mlkem_c_embedded.Indcpa.{indcpa_enc, indcpa_enc_cmp}
use mlkem_c_embedded.Indcpa.Reencrypt.{differs, indcpa_enc_cmp-indcpa_enc}
use mlkem_c_embedded.Kem.{crypto_kem_dec, dec_buf}
use mlkem_c_embedded.Kem.Decaps.{derived, rejection, crypto_kem_dec_lem}
use mlkem_c_embedded.Examples.Toy.{toy, stretch, length-stretch, stretch-IsBytes}

barrett_reduce_lem_example :
    (residue (barrett_reduce (minus 30000)) ≡ residue (minus 30000))
    × (abs (barrett_reduce (minus 30000)) ≤ 1664)
barrett_reduce_lem_example = barrett_reduce_lem (minus 30000) (omega arith)

montgomery_reduce_lem_example :
    (residue (minus 5000000) ≡ (residue (montgomery_reduce (minus 5000000)) * 65536) % mlkem_q)
    × (abs (montgomery_reduce (minus 5000000)) * 65536 ≤ 5000000 + mlkem_q * 2 ^ 15)
montgomery_reduce_lem_example = montgomery_reduce_lem (minus 5000000) (omega arith)

-- Arrays of bytes.
abbrev some_bytes : List ℕ
some_bytes = stretch 384 12345

abbrev other_bytes : List ℕ
other_bytes = stretch 384 54321

verify_lem_example :
    ((verify some_bytes other_bytes 384 ≡ 0) ↔ (some_bytes ≡ other_bytes))
    × (verify some_bytes other_bytes 384 ≤ 1)
verify_lem_example =
    verify_lem some_bytes other_bytes 384 (length-stretch 384 12345) (length-stretch 384 54321)
      (stretch-IsBytes 384 12345) (stretch-IsBytes 384 54321)

cmov_lem_example :
    cmov some_bytes other_bytes 384 1 ≡ (if 1 == 1 then take 384 other_bytes else some_bytes)
cmov_lem_example =
    cmov_lem other_bytes 384 1 (omega (arith, length-stretch 384 54321)) (stretch-IsBytes 384 54321)
      (omega arith) some_bytes (length-stretch 384 12345) (stretch-IsBytes 384 12345)

poly_tobytes-poly_frombytes_example : poly_tobytes (poly_frombytes some_bytes) ≡ some_bytes
poly_tobytes-poly_frombytes_example =
    poly_tobytes-poly_frombytes some_bytes (length-stretch 384 12345) (stretch-IsBytes 384 12345)

-- A polynomial with coefficients of both signs.
abbrev value : ℕ → ℤ
value i = if i % 2 == 0 then pos (13 * i) else minus (6 * i + 1)

abbrev some_poly : Poly
some_poly = emit 256 λ i. value i ∷ []

coeff-some_poly : (i : ℕ) → i < mlkem_n → coeff some_poly i ≡ value i
coeff-some_poly i h = get_or-emit_one (pos 0) 256 value i h

some_poly_small : (i : ℕ) → i < mlkem_n → abs (coeff some_poly i) < mlkem_q
some_poly_small i h = rw (coeff-some_poly i h) (ground arith)

coeff-poly_frombytes-poly_tobytes_example :
    coeff (poly_frombytes (poly_tobytes some_poly)) 255 ≡ pos (residue (coeff some_poly 255))
coeff-poly_frombytes-poly_tobytes_example =
    coeff-poly_frombytes-poly_tobytes some_poly (length-emit_one 256 value) some_poly_small 255
      (omega arith)

compress_lem_example :
    (compress4 (minus 1000) ≡ nearest 4 (residue (minus 1000)))
    × (compress5 (minus 1000) ≡ nearest 5 (residue (minus 1000)))
    × (compress10 (minus 1000) ≡ nearest 10 (residue (minus 1000)))
    × (compress11 (minus 1000) ≡ nearest 11 (residue (minus 1000)))
compress_lem_example = compress_lem (minus 1000) (omega arith)

decompress-compress_error_example :
    Within 104 (residue (minus 1)) (decompress4 (compress4 (minus 1)))
    × Within 52 (residue (minus 1)) (decompress5 (compress5 (minus 1)))
    × Within 2 (residue (minus 1)) (decompress10 (compress10 (minus 1)))
    × Within 1 (residue (minus 1)) (decompress11 (compress11 (minus 1)))
decompress-compress_error_example = decompress-compress_error (minus 1) (omega arith)

compress-decompress_example :
    (compress4 (decompress4 15) ≡ 15)
    × (compress5 (decompress5 31) ≡ 31)
    × (compress10 (decompress10 1023) ≡ 1023)
    × (compress11 (decompress11 2047) ≡ 2047)
compress-decompress_example =
    compress-decompress 15 31 1023 2047 (omega arith) (omega arith) (omega arith) (omega arith)

-- A buffer with room for the two polynomials of a vector of MLKEM_K = 2.
abbrev buffer : List ℕ
buffer = stretch 768 99

cmp_poly_packcompress-poly_packcompress_example :
    (cmp_poly_packcompress ParamSet.mlkem512 buffer some_poly 1 ≡ 0)
    ↔ (poly_packcompress ParamSet.mlkem512 buffer some_poly 1 ≡ buffer)
cmp_poly_packcompress-poly_packcompress_example =
    cmp_poly_packcompress-poly_packcompress ParamSet.mlkem512 buffer some_poly 1
      (stretch-IsBytes 768 99) (omega (arith, length-stretch 768 99))

cmp_poly_compress-poly_compress_example :
    (cmp_poly_compress ParamSet.mlkem1024 buffer some_poly ≡ 0) ↔ (
      (k : ℕ)
      → k < 160
      → get_or buffer k 0 ≡ get_or (poly_compress ParamSet.mlkem1024 some_poly) k 0)
cmp_poly_compress-poly_compress_example =
    cmp_poly_compress-poly_compress buffer some_poly (stretch-IsBytes 768 99) some_poly_small
      ParamSet.mlkem1024

ntt_bound_example : abs (coeff (ntt some_poly) 77) ≤ 3328 + 17472
ntt_bound_example =
    ntt_bound 3328 some_poly (omega arith) (length-emit_one 256 value)
      (λ i h. omega (arith, some_poly_small i h)) 77

-- A message, and its polynomial with noise of -800 in every coefficient, reduced.
abbrev message : List ℕ
message = stretch 32 4321

abbrev noise : ℕ → ℤ
noise i = minus 800

abbrev noise_poly : Poly
noise_poly = emit 256 λ i. noise i ∷ []

abbrev sum_poly : Poly
sum_poly = poly_add (poly_frommsg message) noise_poly

coeff-sum_poly :
    (i : ℕ)
    → i < mlkem_n
    → IsInt16 (coeff sum_poly i)
      × (residue (coeff sum_poly i)
          ≡ (residue (coeff (poly_frommsg message) i) + residue (noise i)) % mlkem_q)
unfolding int16 ◌+ℤ◌
coeff-sum_poly i h =
    let b = get_or message (i / 8) 0 / 2 ^ (i % 8) % 2 in
    let at : 8 * (i / 8) + i % 8 ≡ i = omega arith in
    let c : coeff (poly_frommsg message) i ≡ pos (1665 * b) =
      ap (λ n. coeff (poly_frommsg message) n) (sym at)
      ∙ coeff-poly_frommsg message (i / 8) (i % 8) (omega arith) (omega arith) in
    rw
      (
        coeff-poly_add (poly_frommsg message) noise_poly i h,
        get_or-emit_one (pos 0) 256 noise i h,
        c,
      )
      (ground arith)

received_lem :
    (i : ℕ)
    → i < mlkem_n
    → (residue (coeff (poly_reduce sum_poly) i) ≡ residue (coeff sum_poly i))
      × (abs (coeff (poly_reduce sum_poly) i) ≤ 1664)
received_lem i h = poly_reduce_lem sum_poly i h (coeff-sum_poly i h).0

poly_tomsg-poly_frommsg_example : poly_tomsg (poly_reduce sum_poly) ≡ message
poly_tomsg-poly_frommsg_example =
    poly_tomsg-poly_frommsg message noise (poly_reduce sum_poly) (length-stretch 32 4321)
      (stretch-IsBytes 32 4321) (λ i h. omega arith) (λ i h. (received_lem i h).1)
      (λ i h. (received_lem i h).0 ∙ (coeff-sum_poly i h).1)

crypto_kem_dec_lem_example :
    crypto_kem_dec toy ParamSet.mlkem512 6 (stretch 32 5) (stretch 768 1) (stretch 1632 2) ≡ (
      indcpa_enc toy ParamSet.mlkem512 6
        (stretch 768 6)
        (dec_buf toy ParamSet.mlkem512 6 (stretch 768 1) (stretch 1632 2))
        (drop (mlkem_indcpa_secretkeybytes ParamSet.mlkem512) (stretch 1632 2))
        (drop 32 (derived toy ParamSet.mlkem512 6 (stretch 768 1) (stretch 1632 2)))
      >>= λ c'. some (
          if differs c' (stretch 768 1) == 0
          then take 32 (derived toy ParamSet.mlkem512 6 (stretch 768 1) (stretch 1632 2))
          else rejection toy ParamSet.mlkem512 (stretch 768 1) (stretch 1632 2)))
crypto_kem_dec_lem_example =
    crypto_kem_dec_lem toy ParamSet.mlkem512 6 (stretch 32 5) (stretch 768 6) (stretch 768 1)
      (stretch 1632 2) (length-stretch 32 5) (length-stretch 768 6) (length-stretch 768 1)
      (stretch-IsBytes 768 1)

indcpa_enc_cmp-indcpa_enc_example :
    indcpa_enc_cmp toy ParamSet.mlkem768 6
      (stretch 1088 1)
      (stretch 32 2)
      (stretch 1184 3)
      (stretch 32 4)
    ≡ (indcpa_enc toy ParamSet.mlkem768 6
          (stretch 1088 9)
          (stretch 32 2)
          (stretch 1184 3)
          (stretch 32 4)
        >>= λ c'. some (differs c' (stretch 1088 1)))
indcpa_enc_cmp-indcpa_enc_example =
    indcpa_enc_cmp-indcpa_enc toy ParamSet.mlkem768 6 (stretch 1088 1) (stretch 1088 9)
      (stretch 32 2) (stretch 1184 3) (stretch 32 4) (length-stretch 1088 1) (length-stretch 1088 9)
      (stretch-IsBytes 1088 1)
