-- ===== src/Examples/Keys.antt =====
-- mlkem/kem.c: a pair of keys at concrete inputs.
use mlkem_c_embedded.Base.{ℕ, ◌≡◌, ◌⊎◌, List, slice, take, arith, none, some}
use mlkem_c_embedded.Params.{ParamSet}
use mlkem_c_embedded.Indcpa.{indcpa_keypair_derand}
use mlkem_c_embedded.Symmetric.{hash_g}
use mlkem_c_embedded.Indcpa.Decrypt.{IsKeyOf}
use mlkem_c_embedded.Indcpa.Encrypt.{secret_noise}
use mlkem_c_embedded.Indcpa.Keygen.{indcpa_keypair_derand_lem}
use mlkem_c_embedded.Kem.{crypto_kem_keypair_derand}
use mlkem_c_embedded.Kem.Layout.{IsSecretKey, crypto_kem_keypair_derand_lem}
use mlkem_c_embedded.Examples.Toy.{toy, stretch, length-stretch}

abbrev pk : List ℕ
pk = stretch 800 1

abbrev sk : List ℕ
sk = stretch 1632 2

abbrev coins : List ℕ
coins = stretch 64 3

crypto_kem_keypair_derand_lem_example :
    ((indcpa_keypair_derand toy ParamSet.mlkem512 6 pk sk coins ≡ none)
      × (crypto_kem_keypair_derand toy ParamSet.mlkem512 6 pk sk coins ≡ none))
    ⊎ ((keys : List ℕ × List ℕ) × (out : List ℕ) × (indcpa_keypair_derand toy ParamSet.mlkem512 6 pk
            sk coins
          ≡ some keys)
        × (crypto_kem_keypair_derand toy ParamSet.mlkem512 6 pk sk coins ≡ some (keys.0, out))
        × IsSecretKey toy ParamSet.mlkem512 keys.0 keys.1 (slice 32 32 coins) out)
crypto_kem_keypair_derand_lem_example =
    crypto_kem_keypair_derand_lem toy ParamSet.mlkem512 6 pk sk coins (length-stretch 800 1)
      (length-stretch 1632 2) (length-stretch 64 3)

indcpa_keypair_derand_lem_example :
    (indcpa_keypair_derand toy ParamSet.mlkem512 6 pk sk coins ≡ none)
    ⊎ ((keys : List ℕ × List ℕ) × (indcpa_keypair_derand toy ParamSet.mlkem512 6 pk sk coins
          ≡ some keys)
        × IsKeyOf ParamSet.mlkem512
            (secret_noise toy ParamSet.mlkem512 6 (slice 32 32 (hash_g toy (take 32 coins))))
            keys.1)
indcpa_keypair_derand_lem_example =
    indcpa_keypair_derand_lem toy ParamSet.mlkem512 6 pk sk coins
      (omega (arith, length-stretch 1632 2))
