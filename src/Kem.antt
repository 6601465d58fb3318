-- ===== src/Kem.antt =====
-- mlkem/kem.c: key encapsulation with implicit rejection. Every function of the source returns 0;
-- here each returns its output buffers.
pub mod Decaps
pub mod Layout
use mlkem_c_embedded.Base.{
  ℕ, ◌+◌, ◌-◌, ◌*◌, List, ◌++◌, take, drop, slice, store, Option, some, ◌>>=◌, u8, sub_ℕ,
}
use mlkem_c_embedded.Params.{
  ParamSet, mlkem_symbytes, mlkem_indcpa_secretkeybytes, mlkem_publickeybytes, mlkem_secretkeybytes,
}
use mlkem_c_embedded.Verify.{cmov}
use mlkem_c_embedded.Symmetric.{Fips202, hash_h, hash_g, mlkem_shake256_rkprf}
use mlkem_c_embedded.Indcpa.{indcpa_keypair_derand, indcpa_enc, indcpa_dec, indcpa_enc_cmp}

module _ (f : Fips202) (ps : ParamSet) (fuel : ℕ) where
  -- Returns `pk` and `sk`.
  unfoldable pub crypto_kem_keypair_derand : List ℕ → List ℕ → List ℕ → Option (List ℕ × List ℕ)
  crypto_kem_keypair_derand pk sk coins = indcpa_keypair_derand f ps fuel pk sk coins >>= λ keys.
      let pk' = keys.0 in
      let sk1 =
        store keys.1 (mlkem_indcpa_secretkeybytes ps) (take (mlkem_publickeybytes ps) pk') in
      let sk2 =
        store sk1 (mlkem_secretkeybytes ps - 2 * mlkem_symbytes)
          (hash_h f (take (mlkem_publickeybytes ps) pk')) in
      some (
        pk',
        store sk2 (mlkem_secretkeybytes ps - mlkem_symbytes)
            (slice mlkem_symbytes mlkem_symbytes coins),
      )

  -- Returns `ct` and `ss`. `kr` holds the key and then the coins.
  unfoldable pub crypto_kem_enc_derand :
      List ℕ → List ℕ → List ℕ → List ℕ → Option (List ℕ × List ℕ)
  crypto_kem_enc_derand ct ss pk coins =
      let buf = take mlkem_symbytes coins ++ hash_h f (take (mlkem_publickeybytes ps) pk) in
      let kr = hash_g f (take (2 * mlkem_symbytes) buf) in
      indcpa_enc f ps fuel ct buf pk (drop mlkem_symbytes kr) >>= λ ct'.
      some (ct', store ss 0 (take mlkem_symbytes kr))

  -- The first part of decapsulation: the message and H(pk) from the secret key.
  unfoldable pub dec_buf : List ℕ → List ℕ → List ℕ
  dec_buf ct sk =
      indcpa_dec ps ct sk ++ slice (mlkem_secretkeybytes ps - 2 * mlkem_symbytes) mlkem_symbytes sk

  -- Returns `ss`.
  unfoldable pub crypto_kem_dec : List ℕ → List ℕ → List ℕ → Option (List ℕ)
  crypto_kem_dec ss ct sk =
      let buf = dec_buf ct sk in
      let kr = hash_g f (take (2 * mlkem_symbytes) buf) in
      let pk = drop (mlkem_indcpa_secretkeybytes ps) sk in
      indcpa_enc_cmp f ps fuel ct buf pk (drop mlkem_symbytes kr) >>= λ fail.
      let rejected =
        store ss 0
          (mlkem_shake256_rkprf f ps (drop (mlkem_secretkeybytes ps - mlkem_symbytes) sk) ct) in
      some (cmov rejected kr mlkem_symbytes (u8 (sub_ℕ 1 fail)))

  -- The generator of random bytes is a parameter: it belongs to the platform.
  module _ {Rng : Type 0} (randombytes : ℕ → Rng → List ℕ × Rng) where
    unfoldable pub crypto_kem_keypair : List ℕ → List ℕ → Rng → Option (List ℕ × List ℕ) × Rng
    crypto_kem_keypair pk sk g =
        let drawn = randombytes (2 * mlkem_symbytes) g in
        (crypto_kem_keypair_derand pk sk drawn.0, drawn.1)

    unfoldable pub crypto_kem_enc : List ℕ → List ℕ → List ℕ → Rng → Option (List ℕ × List ℕ) × Rng
    crypto_kem_enc ct ss pk g =
        let drawn = randombytes mlkem_symbytes g in
        (crypto_kem_enc_derand ct ss pk drawn.0, drawn.1)
