-- ===== src/Symmetric.antt =====
-- mlkem/symmetric.h and mlkem/symmetric-shake.c: the hash functions that the scheme uses, over the
-- functions of fips202/fips202.h.
use mlkem_c_embedded.Base.{ℕ, ◌≡◌, List, [], ◌∷◌, ◌++◌, length, take, IsBytes}
use mlkem_c_embedded.Params.{ParamSet, mlkem_symbytes, mlkem_ssbytes, mlkem_ciphertextbytes}

abbrev pub xof_blockbytes : ℕ
xof_blockbytes = 168

-- What the scheme uses of fips202/fips202.h. Each output buffer is a result; the laws say that it is
-- filled with bytes.
pub record Fips202 : Type 1 where
  pub Shake128 : Type 0
  pub Shake256Inc : Type 0
  pub shake128_absorb : List ℕ → Shake128
  pub shake128_squeezeblocks : ℕ → Shake128 → List ℕ × Shake128
  pub shake256 : ℕ → List ℕ → List ℕ
  pub sha3_256 : List ℕ → List ℕ
  pub sha3_512 : List ℕ → List ℕ
  pub shake256_inc_init : Shake256Inc
  pub shake256_inc_absorb : Shake256Inc → List ℕ → Shake256Inc
  pub shake256_inc_finalize : Shake256Inc → Shake256Inc
  pub shake256_inc_squeeze : ℕ → Shake256Inc → List ℕ × Shake256Inc
  pub length-sha3_256 : (m : List ℕ) → length (sha3_256 m) ≡ 32
  pub length-sha3_512 : (m : List ℕ) → length (sha3_512 m) ≡ 64
  pub length-shake256_inc_squeeze :
      (n : ℕ) (s : Shake256Inc) → length (shake256_inc_squeeze n (shake256_inc_finalize s)).0 ≡ n
  pub sha3_512-IsBytes : (m : List ℕ) → IsBytes (sha3_512 m)
  pub shake256_inc_squeeze-IsBytes :
      (n : ℕ) (s : Shake256Inc) → IsBytes (shake256_inc_squeeze n (shake256_inc_finalize s)).0

module _ (f : Fips202) where
  unfoldable pub mlkem_shake128_absorb : List ℕ → ℕ → ℕ → f.Shake128
  mlkem_shake128_absorb seed x y = f.shake128_absorb (take mlkem_symbytes seed ++ x ∷ y ∷ [])

  unfoldable pub mlkem_shake256_prf : ℕ → List ℕ → ℕ → List ℕ
  mlkem_shake256_prf outlen key nonce = f.shake256 outlen (take mlkem_symbytes key ++ nonce ∷ [])

  unfoldable pub mlkem_shake256_rkprf : ParamSet → List ℕ → List ℕ → List ℕ
  mlkem_shake256_rkprf ps key input =
      let s1 = f.shake256_inc_absorb f.shake256_inc_init (take mlkem_symbytes key) in
      let s2 = f.shake256_inc_absorb s1 (take (mlkem_ciphertextbytes ps) input) in
      (f.shake256_inc_squeeze mlkem_ssbytes (f.shake256_inc_finalize s2)).0

  unfoldable pub hash_h : List ℕ → List ℕ
  hash_h m = f.sha3_256 m

  unfoldable pub hash_g : List ℕ → List ℕ
  hash_g m = f.sha3_512 m
