-- ===== src/Kem/Decaps.antt =====
-- mlkem/kem.c: decapsulation against the description of implicit rejection, which encrypts again and
-- compares.
use mlkem_c_embedded.Base.{
  ℕ, ◌-◌, ◌*◌, ◌≤◌, ◌≡◌, ◌∙◌, sym, ap, arith, List, length, take, drop, store, Option-cases, some,
  ◌>>=◌, IsBytes, u8, sub_ℕ, store_all, inl, inr, if◌then◌else◌, ◌==◌,
}
use native.Mathlib.Decide.{ℕ_discrete}
use mathlib.Core.List.{List-discrete}
use mlkem_c_embedded.Params.{
  ParamSet, mlkem_symbytes, mlkem_ssbytes, mlkem_indcpa_bytes, mlkem_indcpa_secretkeybytes,
  mlkem_secretkeybytes, mlkem_ciphertextbytes,
}
use mlkem_c_embedded.Verify.{cmov}
use mlkem_c_embedded.Verify.Select.{cmov_lem}
use mlkem_c_embedded.Symmetric.{Fips202, hash_g, mlkem_shake256_rkprf}
use mlkem_c_embedded.Indcpa.{indcpa_enc}
use mlkem_c_embedded.Indcpa.Reencrypt.{differs, differs_yes, differs_no, indcpa_enc_cmp-indcpa_enc}
use mlkem_c_embedded.Kem.{crypto_kem_dec, dec_buf}

module _ (f : Fips202) (ps : ParamSet) where
  -- The key and the coins that the message in `ct` gives, and the key of a rejection.
  abbrev pub derived : ℕ → List ℕ → List ℕ → List ℕ
  derived fuel ct sk = hash_g f (take (2 * mlkem_symbytes) (dec_buf f ps fuel ct sk))

  abbrev pub rejection : List ℕ → List ℕ → List ℕ
  rejection ct sk =
      mlkem_shake256_rkprf f ps (drop (mlkem_secretkeybytes ps - mlkem_symbytes) sk) ct

module _ (f : Fips202) (ps : ParamSet) (fuel : ℕ) (ss c ct sk : List ℕ)
    (ls : length ss ≡ mlkem_ssbytes) (lc : length c ≡ mlkem_indcpa_bytes ps)
    (lt : length ct ≡ mlkem_indcpa_bytes ps) (bt : IsBytes ct) where
  derived-length : length (derived f ps fuel ct sk) ≡ 64
  unfolding hash_g
  derived-length = f.length-sha3_512 (take (2 * mlkem_symbytes) (dec_buf f ps fuel ct sk))

  derived-IsBytes : IsBytes (derived f ps fuel ct sk)
  unfolding hash_g
  derived-IsBytes = f.sha3_512-IsBytes (take (2 * mlkem_symbytes) (dec_buf f ps fuel ct sk))

  abbrev absorbed : f.Shake256Inc
  absorbed =
      let key = take mlkem_symbytes (drop (mlkem_secretkeybytes ps - mlkem_symbytes) sk) in
      f.shake256_inc_absorb (f.shake256_inc_absorb f.shake256_inc_init key)
        (take (mlkem_ciphertextbytes ps) ct)

  rejection-length : length (rejection f ps ct sk) ≡ 32
  unfolding mlkem_shake256_rkprf
  rejection-length = f.length-shake256_inc_squeeze mlkem_ssbytes absorbed

  rejection-IsBytes : IsBytes (rejection f ps ct sk)
  unfolding mlkem_shake256_rkprf
  rejection-IsBytes = f.shake256_inc_squeeze-IsBytes mlkem_ssbytes absorbed

  -- The last step: the true key for the result 0 of the comparison, the rejection key for 1.
  select :
      (fail : ℕ)
      → fail ≤ 1
      → cmov
          (store ss 0 (rejection f ps ct sk))
          (derived f ps fuel ct sk)
          mlkem_symbytes
          (u8 (sub_ℕ 1 fail))
        ≡ (if fail == 0
            then take mlkem_symbytes (derived f ps fuel ct sk)
            else (rejection f ps ct sk))
  select fail h =
      let b : u8 (sub_ℕ 1 fail) ≡ 1 - fail = ground arith in
      rw b (
        rw (store_all ss (rejection f ps ct sk) 0 (rejection-length ∙ sym ls)) (
          cmov_lem (derived f ps fuel ct sk) mlkem_symbytes (1 - fail)
            (omega (arith, derived-length)) derived-IsBytes (omega arith) (rejection f ps ct sk)
            rejection-length rejection-IsBytes
          ∙ ground arith))

  differs-le : (a b : List ℕ) → differs a b ≤ 1
  differs-le a b = elim (List-discrete {0} ℕ_discrete a b) [
    | yes p ↦ omega (arith, differs_yes a b p)
    | no p ↦ omega (arith, differs_no a b p)
  ]

  -- For an array `ct` of bytes and buffers `ss` and `c`, of the right lengths, the result of
  -- crypto_kem_dec is what the scheme describes: encrypt the decrypted message again, into `c`, and
  -- return the key derived from the message if that ciphertext is `ct`, else the rejection key. There
  -- is no result exactly if the encryption runs out of fuel.
  pub crypto_kem_dec_lem : crypto_kem_dec f ps fuel ss ct sk ≡ (
      indcpa_enc f ps fuel c
        (dec_buf f ps fuel ct sk)
        (drop (mlkem_indcpa_secretkeybytes ps) sk)
        (drop mlkem_symbytes (derived f ps fuel ct sk))
      >>= λ c'. some (
          if differs c' ct == 0
          then take mlkem_symbytes (derived f ps fuel ct sk)
          else (rejection f ps ct sk)))
  unfolding crypto_kem_dec
  crypto_kem_dec_lem =
      let pk = drop (mlkem_indcpa_secretkeybytes ps) sk in
      let coins = drop mlkem_symbytes (derived f ps fuel ct sk) in
      let buf = dec_buf f ps fuel ct sk in
      rw (indcpa_enc_cmp-indcpa_enc f ps fuel ct c buf pk coins lt lc bt)
        (elim (Option-cases (indcpa_enc f ps fuel c buf pk coins)) [
          | inl e ↦ rw e
          | inr q ↦ rw q.1 (ap some (select (differs q.0 ct) (differs-le q.0 ct)))
        ])
