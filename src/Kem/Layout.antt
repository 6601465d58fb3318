-- ===== src/Kem/Layout.antt =====
-- mlkem/kem.c: what crypto_kem_keypair_derand leaves in the secret key.
use mlkem_c_embedded.Base.{
  ℕ, zero, suc, ◌+◌, ◌-◌, ◌*◌, ◌≤◌, ◌≡◌, ◌⊎◌, inl, inr, true, false, refl, sym, ap, ap₂, ◌∙◌, arith,
  List, length, take, drop, slice, store, take_all, length-store, length-take, length-drop,
  slice-store, slice-store_other, Option-cases, none, some, >>=-eq-some,
}
use mathlib.Core.Option.{some-injective}
use mlkem_c_embedded.Params.{
  ParamSet, mlkem_symbytes, mlkem_k, mlkem_polybytes, mlkem_polyvecbytes,
  mlkem_indcpa_secretkeybytes, mlkem_publickeybytes, mlkem_secretkeybytes,
}
use mlkem_c_embedded.Symmetric.{Fips202, hash_g, hash_h}
use mlkem_c_embedded.Poly.{Poly}
use mlkem_c_embedded.Poly.Bytes.{poly_tobytes}
use mlkem_c_embedded.Poly.Noise.{poly_noise_eta1}
use mlkem_c_embedded.Poly.Arith.{poly_ntt, poly_invntt_tomont, poly_reduce}
use mlkem_c_embedded.Polyvec.{Polyvec, polyvec_tobytes}
use mlkem_c_embedded.Matacc.{matacc}
use mlkem_c_embedded.Indcpa.{indcpa_keypair_derand, keypair_rows, noise_vector, blank}
use mlkem_c_embedded.Kem.{crypto_kem_keypair_derand}

module _ (f : Fips202) (ps : ParamSet) where
  -- The parts of a secret key: the key of the encryption, the public key, its hash, and the value for
  -- rejections.
  pub record IsSecretKey (pk sk0 z sk : List ℕ) : Type 0 where
    pub decryption_key :
        take (mlkem_indcpa_secretkeybytes ps) sk ≡ take (mlkem_indcpa_secretkeybytes ps) sk0
    pub public_key : slice (mlkem_indcpa_secretkeybytes ps) (mlkem_publickeybytes ps) sk ≡ pk
    pub hashed : slice (mlkem_secretkeybytes ps - 64) 32 sk ≡ hash_h f pk
    pub rejection_value : slice (mlkem_secretkeybytes ps - 32) 32 sk ≡ z
    pub size : length sk ≡ mlkem_secretkeybytes ps

  length-keypair_rows :
      (fuel left i : ℕ) (skpv : Polyvec) (p n pk out : List ℕ)
      → keypair_rows f ps fuel left i skpv p n pk ≡ some out
      → length out ≡ length pk
  unfolding keypair_rows
  length-keypair_rows fuel zero i skpv p n pk out e = ap length (sym (some-injective pk out e))
  length-keypair_rows fuel (suc left) i skpv p n pk out e =
      let row : Poly → List ℕ = λ pkp. poly_tobytes (
        poly_reduce
          (poly_ntt (poly_noise_eta1 f ps (poly_invntt_tomont pkp) n (mlkem_k ps + i) true))) in
      let pk' : Poly → List ℕ = λ pkp. store pk (i * mlkem_polybytes) (row pkp) in
      let first =
        >>=-eq-some (matacc f ps fuel blank skpv i p false)
          (λ pkp. keypair_rows f ps fuel left (i + 1) skpv p n (pk' pkp)) e in
      length-keypair_rows fuel left (i + 1) skpv p n (pk' first.0) out first.2
      ∙ length-store pk (i * mlkem_polybytes) (row first.0)

  length-indcpa_keypair_derand :
      (fuel : ℕ) (pk sk coins pk1 sk1 : List ℕ)
      → indcpa_keypair_derand f ps fuel pk sk coins ≡ some (pk1, sk1)
      → (length pk1 ≡ length pk) × (length sk1 ≡ length sk)
  unfolding indcpa_keypair_derand
  length-indcpa_keypair_derand fuel pk sk coins pk1 sk1 e =
      let buf = hash_g f (take mlkem_symbytes coins) in
      let publicseed = take mlkem_symbytes buf in
      let noiseseed = slice mlkem_symbytes mlkem_symbytes buf in
      let skpv = noise_vector f ps fuel noiseseed in
      let done : List ℕ → List ℕ × List ℕ = λ pk'.
        (store pk' (mlkem_polyvecbytes ps) publicseed, store sk 0 (polyvec_tobytes ps skpv)) in
      let rows =
        >>=-eq-some (keypair_rows f ps fuel (mlkem_k ps) 0 skpv publicseed noiseseed pk)
          (λ pk'. some (done pk')) e in
      let pair = some-injective (done rows.0) (pk1, sk1) rows.2 in
      (
        ap (λ t. length t.0) (sym pair)
            ∙ length-store rows.0 (mlkem_polyvecbytes ps) publicseed
            ∙ length-keypair_rows fuel (mlkem_k ps) 0 skpv publicseed noiseseed pk rows.0 rows.1,
        ap (λ t. length t.1) (sym pair) ∙ length-store sk 0 (polyvec_tobytes ps skpv),
      )

  -- Three writes one behind the other, behind the first `a` elements.
  three_stores :
      (sk0 x y z : List ℕ) (a : ℕ)
      → a + length x + length y + length z ≤ length sk0
      → let sk = store (store (store sk0 a x) (a + length x) y) (a + length x + length y) z in
        (take a sk ≡ take a sk0)
        × (slice a (length x) sk ≡ x)
        × (slice (a + length x) (length y) sk ≡ y)
        × (slice (a + length x + length y) (length z) sk ≡ z)
        × (length sk ≡ length sk0)
  three_stores sk0 x y z a fits =
      let b = a + length x in
      let c = b + length y in
      let s1 = store sk0 a x in
      let s2 = store s1 b y in
      let s3 = store s2 c z in
      let l1 = length-store sk0 a x in
      let l2 = length-store s1 b y in
      (
        slice-store_other s2 c z 0 a 0 (inl (omega arith))
            ∙ slice-store_other s1 b y 0 a 0 (inl (omega arith))
            ∙ slice-store_other sk0 a x 0 a 0 (inl (omega arith)),
        slice-store_other s2 c z a (length x) 0 (inl (omega arith))
            ∙ slice-store_other s1 b y a (length x) 0 (inl (omega arith))
            ∙ slice-store sk0 a x 0 (omega arith),
        slice-store_other s2 c z b (length y) 0 (inl (omega arith))
            ∙ slice-store s1 b y 0 (omega arith),
        slice-store s2 c z 0 (omega arith),
        length-store s2 c z ∙ l2 ∙ l1,
      )

  store-IsSecretKey :
      (pk sk0 z : List ℕ)
      → length pk ≡ mlkem_publickeybytes ps
      → length sk0 ≡ mlkem_secretkeybytes ps
      → length z ≡ 32
      → IsSecretKey pk sk0 z (
          store
            (store
              (store sk0 (mlkem_indcpa_secretkeybytes ps) pk)
              (mlkem_secretkeybytes ps - 64)
              (hash_h f pk))
            (mlkem_secretkeybytes ps - 32)
            z)
  unfolding hash_h
  store-IsSecretKey pk sk0 z lp ls lz =
      let a = mlkem_indcpa_secretkeybytes ps in
      let h = f.sha3_256 pk in
      let lh = f.length-sha3_256 pk in
      let parts = three_stores sk0 pk h z a (omega arith) in
      let b : a + length pk ≡ mlkem_secretkeybytes ps - 64 = omega arith in
      let c : a + length pk + length h ≡ mlkem_secretkeybytes ps - 32 = omega arith in
      let built = λ (i j : ℕ). store (store (store sk0 a pk) i h) j z in
      let same = ap₂ built b c in
      record {
        decryption_key = ap (take a) (sym same) ∙ parts.0;
        public_key = ap₂ (slice a) (sym lp) (sym same) ∙ parts.1;
        hashed = cut same b lh ∙ parts.2;
        rejection_value = cut same c lz ∙ parts.3;
        size = ap length (sym same) ∙ parts.4 ∙ ls;
      }
    where
      cut : {x y : List ℕ} {i j m n : ℕ} → x ≡ y → i ≡ j → m ≡ n → slice j n y ≡ slice i m x
      cut {x = x} {y = y} {i = i} {j = j} {m = m} {n = n} e e' e'' =
          ap (λ k. slice k n y) (sym e') ∙ ap (λ k. slice i k y) (sym e'') ∙ ap (slice i m) (sym e)

-- For buffers of the lengths of the keys and 64 bytes of coins: crypto_kem_keypair_derand has no
-- result exactly if indcpa_keypair_derand runs out of fuel; else it returns the public key of
-- indcpa_keypair_derand, and a secret key of which the parts are the secret key of
-- indcpa_keypair_derand, the public key, its hash and the second half of the coins.
pub crypto_kem_keypair_derand_lem :
    (f : Fips202) (ps : ParamSet) (fuel : ℕ) (pk sk coins : List ℕ)
    → length pk ≡ mlkem_publickeybytes ps
    → length sk ≡ mlkem_secretkeybytes ps
    → length coins ≡ 64
    → ((indcpa_keypair_derand f ps fuel pk sk coins ≡ none)
        × (crypto_kem_keypair_derand f ps fuel pk sk coins ≡ none))
      ⊎ ((keys : List ℕ × List ℕ) × (out : List ℕ) × (indcpa_keypair_derand f ps fuel pk sk coins
            ≡ some keys)
          × (crypto_kem_keypair_derand f ps fuel pk sk coins ≡ some (keys.0, out))
          × IsSecretKey f ps keys.0 keys.1 (slice 32 32 coins) out)
unfolding crypto_kem_keypair_derand
crypto_kem_keypair_derand_lem f ps fuel pk sk coins lp ls lc =
    elim (Option-cases (indcpa_keypair_derand f ps fuel pk sk coins)) [
      | inl e ↦ inl (e, rw e refl)
      | inr (keys, e) ↦
          let lengths = length-indcpa_keypair_derand f ps fuel pk sk coins keys.0 keys.1 e in
          let whole : take (mlkem_publickeybytes ps) keys.0 ≡ keys.0 =
            take_all (mlkem_publickeybytes ps) keys.0 (omega arith) in
          let z = slice 32 32 coins in
          let lz : length z ≡ 32 =
            omega (arith, length-take 32 (drop 32 coins), length-drop 32 coins) in
          let out = λ (p : List ℕ).
            store
              (store (store keys.1 (mlkem_indcpa_secretkeybytes ps) p)
                (mlkem_secretkeybytes ps - 64) (hash_h f p))
              (mlkem_secretkeybytes ps - 32) z in
          inr (
            keys,
            out keys.0,
            e,
            rw e (ap (λ p. some (keys.0, out p)) whole),
            store-IsSecretKey f ps keys.0 keys.1 z (omega arith) (omega arith) lz,
          )
    ]
