-- ===== src/Examples/Transforms.antt =====
-- The theorems on the transform and on decryption, at concrete inputs.
use mlkem_c_embedded.Base.{
  some, ◌>>=◌, ℕ, zero, suc, ◌+◌, ◌*◌, ◌/◌, ◌%◌, ◌≤◌, ◌<◌, ◌≡◌, refl, ap, ◌∙◌, arith, false, true,
  List, [], ◌∷◌, ◌++◌, drop, emit, emit_from, int16, length-emit_one, get_or, get_or-emit_one,
  get_or-emit, ◌^◌, ◌-◌, get_or_past, IsBytes, append-IsBytes, ℤ, pos, negsuc, minus, abs,
  if◌then◌else◌, ◌==◌, ◌+ℤ◌, ◌*ℤ◌, neg_ℤ, leb, Bool-cases, inl, inr,
}
use native.Mathlib.Decide.{dec_lt, ℕ_discrete}
use mlkem_c_embedded.Params.{ParamSet, mlkem_n, mlkem_q}
use mlkem_c_embedded.Poly.{Poly, coeff}
use mlkem_c_embedded.Reduce.Bounds.{residue}
use mlkem_c_embedded.Poly.Arith.Inverse.{poly_ntt-poly_invntt_tomont}
use mlkem_c_embedded.Poly.Bytes.{poly_frombytes}
use mlkem_c_embedded.Poly.Arith.{
  poly_ntt, poly_invntt_tomont, poly_basemul_montgomery, poly_frombytes_basemul_montgomery,
}
use mlkem_c_embedded.Poly.Arith.Ring.{ring_product, ring_term, sum_ℤ, poly_invntt_tomont-poly_ntt}
use mlkem_c_embedded.Poly.Arith.Image.{poly_invntt_tomont-poly_basemul_montgomery}
use mlkem_c_embedded.Poly.Arith.FromBytes.{poly_frombytes_basemul_montgomery_lem}
use mlkem_c_embedded.Poly.Arith.Inner.{IsInput, inner_product}
use mlkem_c_embedded.Compress.{decompress4, decompress10}
use mlkem_c_embedded.Compress.Packing.{unpack4, unpack10}
use mlkem_c_embedded.Compress.Rounding.{Within}
use mlkem_c_embedded.Poly.Compress.PackedError.{
  packcompress_error, poly_unpackdecompress-poly_packcompress,
}
use mlkem_c_embedded.Poly.Compress.Error.{compress_error, poly_decompress-poly_compress}
use mlkem_c_embedded.Poly.Compress.{
  poly_packcompress, poly_compress, poly_decompress, poly_unpackdecompress,
}
use mlkem_c_embedded.Poly.Message.{poly_frommsg}
use mlkem_c_embedded.Poly.Message.Decode.{coeff-poly_frommsg}
use mlkem_c_embedded.Polyvec.{Polyvec, entry, polyvec_ntt, polyvec_tobytes}
use mlkem_c_embedded.Symmetric.{mlkem_shake128_absorb}
use mlkem_c_embedded.Matacc.{matacc_inner}
use mlkem_c_embedded.Matacc.Reference.{sampled_poly, matacc_inner_lem}
use mlkem_c_embedded.Indcpa.{indcpa_dec, noise_vector, enc_v}
use mlkem_c_embedded.Indcpa.Encrypt.{secret_noise, last_noise, enc_v_lem}
use mlkem_c_embedded.Indcpa.Decrypt.{indcpa_dec_lem}
use mlkem_c_embedded.Indcpa.SecretKey.{polyvec_tobytes-IsKeyOf}
use mlkem_c_embedded.Examples.Toy.{length-stretch, toy, stretch}

-- Two polynomials, with coefficients of both signs.
abbrev first_value : ℕ → ℤ
first_value i = if i % 2 == 0 then pos (13 * i) else minus (6 * i + 1)

abbrev second_value : ℕ → ℤ
second_value i = if i % 3 == 0 then minus (i + 5) else pos (2 * i)

abbrev first_poly : Poly
first_poly = emit 256 λ i. first_value i ∷ []

abbrev second_poly : Poly
second_poly = emit 256 λ i. second_value i ∷ []

first_poly_small : (b i : ℕ) → 3328 ≤ b → i < mlkem_n → abs (coeff first_poly i) ≤ b
first_poly_small b i l h = rw (get_or-emit_one (pos 0) 256 first_value i h) (ground arith)

second_poly_small : (b i : ℕ) → 3328 ≤ b → i < mlkem_n → abs (coeff second_poly i) ≤ b
second_poly_small b i l h = rw (get_or-emit_one (pos 0) 256 second_value i h) (ground arith)

poly_invntt_tomont-poly_ntt_example :
    residue (coeff (poly_invntt_tomont (poly_ntt first_poly)) 201)
    ≡ (65536 * residue (coeff first_poly 201)) % mlkem_q
poly_invntt_tomont-poly_ntt_example =
    poly_invntt_tomont-poly_ntt first_poly (length-emit_one 256 first_value)
      (λ i h. first_poly_small 15295 i (omega arith) h) 201 (omega arith)

poly_invntt_tomont-poly_basemul_montgomery_example :
    residue (
      coeff
        (poly_invntt_tomont
          (poly_basemul_montgomery false [] (poly_ntt first_poly) (poly_ntt second_poly)))
        99)
    ≡ residue (ring_product first_poly second_poly 99)
poly_invntt_tomont-poly_basemul_montgomery_example =
    poly_invntt_tomont-poly_basemul_montgomery first_poly second_poly []
      (length-emit_one 256 first_value) (length-emit_one 256 second_value)
      (λ i h. first_poly_small 15295 i (omega arith) h)
      (λ i h. second_poly_small 15295 i (omega arith) h) 99 (omega arith)

poly_ntt-poly_invntt_tomont_example :
    residue (coeff (poly_ntt (poly_invntt_tomont first_poly)) 44)
    ≡ (65536 * residue (coeff first_poly 44)) % mlkem_q
poly_ntt-poly_invntt_tomont_example =
    poly_ntt-poly_invntt_tomont first_poly (length-emit_one 256 first_value)
      (λ i h. first_poly_small 16383 i (omega arith) h) 44 (omega arith)

poly_frombytes_basemul_montgomery_lem_example :
    poly_frombytes_basemul_montgomery true first_poly second_poly (stretch 384 5)
    ≡ poly_basemul_montgomery true first_poly (poly_frombytes (stretch 384 5)) second_poly
poly_frombytes_basemul_montgomery_lem_example =
    poly_frombytes_basemul_montgomery_lem true first_poly second_poly (stretch 384 5)

-- A secret key, and a ciphertext with first part 0 and noise in every other coefficient.
abbrev key : Polyvec
key = first_poly ∷ second_poly ∷ []

key-IsInput : (j : ℕ) → j < 2 → IsInput (entry key j)
key-IsInput j h = elim (ℕ_discrete j 0) [
  | yes e ↦ rw e (record {
    full = length-emit_one 256 first_value;
    small = λ i h. first_poly_small 15295 i (omega arith) h;
  })
  | no n ↦
      let e : j ≡ 1 = omega arith in
      rw e (record {
        full = length-emit_one 256 second_value;
        small = λ i h. second_poly_small 15295 i (omega arith) h;
      })
]

abbrev zeros : List ℕ
zeros = emit 640 λ i. 0 ∷ []

abbrev pattern : List ℕ
pattern = emit 128 λ i. 152 ∷ []

abbrev ciphertext : List ℕ
ciphertext = zeros ++ pattern

abbrev ones : List ℕ
ones = emit 32 λ i. 255 ∷ []

same-IsBytes : (n b : ℕ) → b < 256 → IsBytes (emit n λ i. b ∷ [])
same-IsBytes n b l i h =
    rw (get_or-emit_one 0 n (λ i. b) i (omega (arith, length-emit_one n (λ i. b)))) l

abbrev noise_in : ℕ → ℤ
noise_in i = if i % 2 == 0 then pos 0 else pos 208

abbrev zero_poly : Poly
zero_poly = emit 256 λ i. pos 0 ∷ []

first_part : (j : ℕ) → j < 2 → poly_unpackdecompress ParamSet.mlkem512 ciphertext j ≡ zero_poly
unfolding poly_unpackdecompress unpack10 decompress10 emit emit_from int16
first_part j h = elim (ℕ_discrete j 0) [
  | yes e ↦ rw e refl
  | no n ↦ let e : j ≡ 1 = omega arith in rw e refl
]

coeff-zero_poly : (i : ℕ) → coeff zero_poly i ≡ pos 0
coeff-zero_poly i = elim (dec_lt i 256) [
  | yes p ↦ get_or-emit_one (pos 0) 256 (λ i. pos 0) i p
  | no p ↦ get_or_past zero_poly i (pos 0) (omega (arith, length-emit_one 256 (λ i. pos 0)))
]

sum_of_zeros : (n : ℕ) (f : ℕ → ℤ) → ((k : ℕ) → f k ≡ pos 0) → sum_ℤ n f ≡ pos 0
unfolding sum_ℤ ◌+ℤ◌
sum_of_zeros zero f h = refl
sum_of_zeros (suc n) f h = rw (sum_of_zeros n f h, h n) refl

times_zero : (x : ℤ) → x *ℤ pos 0 ≡ pos 0
unfolding ◌*ℤ◌
times_zero (pos n) = ground arith
times_zero (negsuc n) = ground arith

product_zero_poly : (a : Poly) (i : ℕ) → ring_product a zero_poly i ≡ pos 0
unfolding ring_product ring_term neg_ℤ
product_zero_poly a i = sum_of_zeros 256 (ring_term a zero_poly i) λ k.
    elim (Bool-cases (leb k i)) [
      | inl e ↦ rw (e, coeff-zero_poly (i - k)) (times_zero (coeff a k))
      | inr e ↦ rw (e, coeff-zero_poly (256 + i - k), times_zero (coeff a k)) refl
    ]

nothing :
    (i : ℕ)
    → inner_product 2 (entry key) (poly_unpackdecompress ParamSet.mlkem512 ciphertext) i ≡ pos 0
unfolding inner_product sum_ℤ ◌+ℤ◌
nothing i =
    rw
      (
        first_part 0 (omega arith),
        first_part 1 (omega arith),
        product_zero_poly first_poly i,
        product_zero_poly second_poly i,
      )
      refl

abbrev received : Poly
received = emit 128 λ i. pos 1665 ∷ pos 1873 ∷ []

second_part : poly_decompress ParamSet.mlkem512 (drop 640 ciphertext) ≡ received
unfolding poly_decompress unpack4 decompress4 emit emit_from int16
second_part = refl

coeff-received : (i : ℕ) → i < 256 → coeff received i ≡ (if i % 2 == 0 then pos 1665 else pos 1873)
coeff-received i h =
    let block : (k : ℕ)
        → k < 2
        → coeff received (i / 2 * 2 + k) ≡ coeff (pos 1665 ∷ pos 1873 ∷ []) k =
      λ k l.
        get_or-emit 2 (λ i. pos 1665 ∷ pos 1873 ∷ []) (λ i. refl) (pos 0) 128 (i / 2) k
          (omega arith) l in
    elim (ℕ_discrete (i % 2) 0) [
      | yes e ↦
          let at : i ≡ i / 2 * 2 + 0 = omega arith in
          rw e (ap (coeff received) at ∙ block 0 (omega arith))
      | no n ↦
          let e : i % 2 ≡ 1 = omega arith in
          let at : i ≡ i / 2 * 2 + 1 = omega arith in
          rw e (ap (coeff received) at ∙ block 1 (omega arith))
    ]

coeff-ones : (i : ℕ) → i < 256 → coeff (poly_frommsg ones) i ≡ pos 1665
coeff-ones i h =
    let at : i ≡ 8 * (i / 8) + i % 8 = omega arith in
    let byte : get_or ones (i / 8) 0 ≡ 255 =
      get_or-emit_one 0 32 (λ i. 255) (i / 8) (omega arith) in
    ap (coeff (poly_frommsg ones)) at
    ∙ coeff-poly_frommsg ones (i / 8) (i % 8) (omega arith) (omega arith)
    ∙ rw byte (bit (i % 8) (omega arith))
  where
    bit : (k : ℕ) → k < 8 → pos (1665 * (255 / 2 ^ k % 2)) ≡ pos 1665
    bit zero h = refl
    bit (suc zero) h = refl
    bit (suc (suc zero)) h = refl
    bit (suc (suc (suc zero))) h = refl
    bit (suc (suc (suc (suc zero)))) h = refl
    bit (suc (suc (suc (suc (suc zero))))) h = refl
    bit (suc (suc (suc (suc (suc (suc zero)))))) h = refl
    bit (suc (suc (suc (suc (suc (suc (suc zero))))))) h = refl
    bit (suc (suc (suc (suc (suc (suc (suc (suc k)))))))) h = absurd (omega arith)

near_message :
    (i : ℕ)
    → i < mlkem_n
    → residue (coeff (poly_decompress ParamSet.mlkem512 (drop 640 ciphertext)) i)
      ≡ (residue (coeff (poly_frommsg ones) i)
          + residue
              (inner_product 2 (entry key) (poly_unpackdecompress ParamSet.mlkem512 ciphertext) i)
          + residue (noise_in i))
        % mlkem_q
near_message i h = rw (second_part, coeff-received i h, coeff-ones i h, nothing i) (ground arith)

indcpa_dec_lem_example :
    indcpa_dec ParamSet.mlkem512 ciphertext
      (polyvec_tobytes ParamSet.mlkem512 (polyvec_ntt ParamSet.mlkem512 key))
    ≡ ones
indcpa_dec_lem_example =
    indcpa_dec_lem ParamSet.mlkem512 (entry key) ciphertext
      (polyvec_tobytes ParamSet.mlkem512 (polyvec_ntt ParamSet.mlkem512 key)) ones noise_in
      (append-IsBytes zeros pattern (same-IsBytes 640 0 (omega arith))
        (same-IsBytes 128 152 (omega arith)))
      (polyvec_tobytes-IsKeyOf ParamSet.mlkem512 key key-IsInput) (length-emit_one 32 (λ i. 255))
      (same-IsBytes 32 255 (omega arith)) (λ i h. ground arith) near_message

enc_v_lem_example :
    residue (
      coeff
        (enc_v toy ParamSet.mlkem512 6
          (noise_vector toy ParamSet.mlkem512 6 (stretch 32 8))
          (stretch 32 9)
          (polyvec_tobytes ParamSet.mlkem512 (polyvec_ntt ParamSet.mlkem512 key))
          (stretch 32 8))
        7)
    ≡ (residue (inner_product 2 (entry key) (secret_noise toy ParamSet.mlkem512 6 (stretch 32 8)) 7)
        + residue (coeff (last_noise toy ParamSet.mlkem512 6 (stretch 32 8)) 7)
        + residue (coeff (poly_frommsg (stretch 32 9)) 7))
      % mlkem_q
enc_v_lem_example =
    enc_v_lem toy ParamSet.mlkem512 6 (stretch 32 8) (entry key)
      (polyvec_tobytes ParamSet.mlkem512 (polyvec_ntt ParamSet.mlkem512 key)) (stretch 32 9)
      (polyvec_tobytes-IsKeyOf ParamSet.mlkem512 key key-IsInput) 7 (omega arith)

matacc_inner_lem_example :
    matacc_inner toy 6 second_poly first_poly 1 0 (stretch 32 3) true true ≡ (
      sampled_poly toy 6 (mlkem_shake128_absorb toy (stretch 32 3) 1 0) [] >>= λ a.
      some (poly_basemul_montgomery true second_poly a first_poly))
matacc_inner_lem_example =
    matacc_inner_lem toy 6 second_poly first_poly 1 0 (stretch 32 3) true true
      (length-emit_one 256 second_value)

first_poly_reduced : (i : ℕ) → i < mlkem_n → abs (coeff first_poly i) < mlkem_q
first_poly_reduced i h = omega (arith, first_poly_small 3328 i (omega arith) h)

poly_decompress-poly_compress_example :
    Within
      (compress_error ParamSet.mlkem768)
      (residue (coeff first_poly 101))
      (coeff (poly_decompress ParamSet.mlkem768 (poly_compress ParamSet.mlkem768 first_poly)) 101)
poly_decompress-poly_compress_example =
    poly_decompress-poly_compress first_poly first_poly_reduced ParamSet.mlkem768 101 (omega arith)

poly_unpackdecompress-poly_packcompress_example :
    Within (packcompress_error ParamSet.mlkem1024) (residue (coeff first_poly 250)) (
      coeff
        (poly_unpackdecompress ParamSet.mlkem1024
          (poly_packcompress ParamSet.mlkem1024 (stretch 1408 7) first_poly 2)
          2)
        250)
poly_unpackdecompress-poly_packcompress_example =
    poly_unpackdecompress-poly_packcompress first_poly first_poly_reduced (stretch 1408 7)
      ParamSet.mlkem1024 2 (omega (arith, length-stretch 1408 7)) 250 (omega arith)
