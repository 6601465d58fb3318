-- ===== src/Indcpa.antt =====
-- mlkem/indcpa.c: the public-key encryption scheme, and the comparison of a ciphertext with a fresh
-- encryption. Output buffers are arguments with their old contents; `fuel` bounds the blocks that
-- each rejection sampling may draw, and a run out of fuel is `none`.
pub mod Compare
pub mod Reencrypt
pub mod Decrypt
pub mod SecretKey
pub mod Encrypt
pub mod Keygen
use mlkem_c_embedded.Base.{
  ℕ, zero, suc, ◌+◌, ◌-◌, ◌*◌, ◌%◌, ◌^◌, Bool, true, false, List, [], ◌∷◌, ◌++◌, get_or, take, drop,
  slice, store, bit_or, ℤ, pos, Option, none, some, ◌>>=◌, ◌>>>◌, emit,
}
use mlkem_c_embedded.Params.{
  ParamSet, mlkem_k, mlkem_symbytes, mlkem_polybytes, mlkem_polyvecbytes,
  mlkem_polyveccompressedbytes,
}
use mlkem_c_embedded.Poly.{Poly}
use mlkem_c_embedded.Poly.Bytes.{poly_tobytes, poly_frombytes}
use mlkem_c_embedded.Poly.Compress.{
  poly_compress, poly_decompress, poly_packcompress, poly_unpackdecompress, cmp_poly_compress,
  cmp_poly_packcompress,
}
use mlkem_c_embedded.Poly.Message.{poly_frommsg, poly_tomsg}
use mlkem_c_embedded.Poly.Noise.{poly_noise_eta1, poly_noise_eta2}
use mlkem_c_embedded.Poly.Arith.{
  poly_ntt, poly_invntt_tomont, poly_reduce, poly_add, poly_sub, poly_basemul_montgomery,
  poly_frombytes_basemul_montgomery,
}
use mlkem_c_embedded.Polyvec.{Polyvec, entry, polyvec_ntt, polyvec_tobytes}
use mlkem_c_embedded.Symmetric.{Fips202, hash_g}
use mlkem_c_embedded.Matacc.{matacc}

-- A local polynomial before its first assignment; every coefficient is written before it is read.
abbrev pub blank : Poly
blank = emit 256 λ i. pos 0 ∷ []

module _ (f : Fips202) (ps : ParamSet) (fuel : ℕ) where
  -- The vector of noise for the nonces from 0 on, transformed: `skpv` and `sp`.
  unfoldable pub noise_vector : List ℕ → Polyvec
  noise_vector seed =
      polyvec_ntt ps (emit (mlkem_k ps) λ i. poly_noise_eta1 f ps blank seed i false ∷ [])

  -- The rows of the public key from `i` on, written to `pk`.
  unfoldable pub keypair_rows : ℕ → ℕ → Polyvec → List ℕ → List ℕ → List ℕ → Option (List ℕ)
  keypair_rows zero i skpv publicseed noiseseed pk = some pk
  keypair_rows (suc left) i skpv publicseed noiseseed pk =
      matacc f ps fuel blank skpv i publicseed false >>= λ pkp.
      let noisy = poly_noise_eta1 f ps (poly_invntt_tomont pkp) noiseseed (mlkem_k ps + i) true in
      keypair_rows left (i + 1) skpv publicseed noiseseed
        (store pk (i * mlkem_polybytes) (poly_tobytes (poly_reduce (poly_ntt noisy))))

  -- Returns `pk` and `sk`.
  unfoldable pub indcpa_keypair_derand : List ℕ → List ℕ → List ℕ → Option (List ℕ × List ℕ)
  indcpa_keypair_derand pk sk coins =
      let buf = hash_g f (take mlkem_symbytes coins) in
      let publicseed = take mlkem_symbytes buf in
      let skpv = noise_vector (slice mlkem_symbytes mlkem_symbytes buf) in
      keypair_rows (mlkem_k ps) 0 skpv publicseed (slice mlkem_symbytes mlkem_symbytes buf) pk
      >>= λ pk'.
          some (store pk' (mlkem_polyvecbytes ps) publicseed, store sk 0 (polyvec_tobytes ps skpv))

  -- Row `i` of the ciphertext's vector.
  unfoldable pub enc_row : Polyvec → List ℕ → List ℕ → ℕ → Option Poly
  enc_row sp seed coins i = matacc f ps fuel blank sp i seed true >>= λ b.
      some (poly_reduce (poly_noise_eta2 f (poly_invntt_tomont b) coins (mlkem_k ps + i) true))

  -- The inner product with the public key: the products from index `i` on are added to `v`.
  unfoldable pub enc_products : ℕ → ℕ → Polyvec → List ℕ → Poly → Poly
  enc_products zero i sp pk v = v
  enc_products (suc left) i sp pk v =
      enc_products left (i + 1) sp pk (
        poly_basemul_montgomery true v (poly_frombytes (drop (i * mlkem_polybytes) pk))
          (entry sp i))

  -- The second part of the ciphertext before compression.
  unfoldable pub enc_v : Polyvec → List ℕ → List ℕ → List ℕ → Poly
  enc_v sp m pk coins =
      let first = poly_basemul_montgomery false blank (poly_frombytes pk) (entry sp 0) in
      let v = poly_invntt_tomont (enc_products (mlkem_k ps - 1) 1 sp pk first) in
      let noisy = poly_noise_eta2 f v coins (mlkem_k ps + mlkem_k ps) true in
      poly_reduce (poly_add noisy (poly_frommsg m))

  unfoldable pub enc_rows : ℕ → ℕ → Polyvec → List ℕ → List ℕ → List ℕ → Option (List ℕ)
  enc_rows zero i sp seed coins c = some c
  enc_rows (suc left) i sp seed coins c = enc_row sp seed coins i >>= λ b.
      enc_rows left (i + 1) sp seed coins (poly_packcompress ps c b i)

  -- Returns the ciphertext, in the buffer `c`.
  unfoldable pub indcpa_enc : List ℕ → List ℕ → List ℕ → List ℕ → Option (List ℕ)
  indcpa_enc c m pk coins =
      let sp = noise_vector coins in
      enc_rows (mlkem_k ps) 0 sp (drop (mlkem_polyvecbytes ps) pk) coins c >>= λ c'.
      some (store c' (mlkem_polyveccompressedbytes ps) (poly_compress ps (enc_v sp m pk coins)))

  unfoldable pub cmp_rows : ℕ → ℕ → Polyvec → List ℕ → List ℕ → List ℕ → ℕ → Option ℕ
  cmp_rows zero i sp seed coins ct rc = some rc
  cmp_rows (suc left) i sp seed coins ct rc = enc_row sp seed coins i >>= λ b.
      cmp_rows left (i + 1) sp seed coins ct (bit_or rc (cmp_poly_packcompress ps ct b i))

  -- 0 if `ct` is the encryption of `m`, else 1.
  unfoldable pub indcpa_enc_cmp : List ℕ → List ℕ → List ℕ → List ℕ → Option ℕ
  indcpa_enc_cmp ct m pk coins =
      let sp = noise_vector coins in
      cmp_rows (mlkem_k ps) 0 sp (drop (mlkem_polyvecbytes ps) pk) coins ct 0 >>= λ rc.
      let v = enc_v sp m pk coins in
      let rc' = bit_or rc (cmp_poly_compress ps (drop (mlkem_polyveccompressedbytes ps) ct) v) in
      some ((((2 ^ 64 - 1 - rc' + 1) % 2 ^ 64) >>> 63) % 2 ^ 8)

-- Decryption does no sampling.
module _ (ps : ParamSet) where
  -- The products with the secret key from index `i` on are added to `mp`.
  unfoldable pub dec_products : ℕ → ℕ → List ℕ → List ℕ → Poly → Poly
  dec_products zero i c sk mp = mp
  dec_products (suc left) i c sk mp = dec_products left (i + 1) c sk (
      poly_frombytes_basemul_montgomery true mp (poly_ntt (poly_unpackdecompress ps c i))
        (drop (i * mlkem_polybytes) sk))

  unfoldable pub indcpa_dec : List ℕ → List ℕ → List ℕ
  indcpa_dec c sk =
      let first =
        poly_frombytes_basemul_montgomery false blank (poly_ntt (poly_unpackdecompress ps c 0))
          sk in
      let mp = poly_invntt_tomont (dec_products (mlkem_k ps - 1) 1 c sk first) in
      let v = poly_decompress ps (drop (mlkem_polyveccompressedbytes ps) c) in
      poly_tomsg (poly_reduce (poly_sub v mp))
