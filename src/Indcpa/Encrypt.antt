-- ===== src/Indcpa/Encrypt.antt =====
-- mlkem/indcpa.c: the second part of the ciphertext before it is compressed.
use mlkem_c_embedded.Base.{
  ℕ, zero, suc, ◌+◌, ◌-◌, ◌*◌, ◌/◌, ◌%◌, ◌≤◌, ◌<◌, ◌≡◌, ap, ◌∙◌, arith, true, false, List, [], ◌∷◌,
  drop, emit, get_or-emit_one, ℤ, abs, int16, int16-id, ◌+ℤ◌, abs-+ℤ, abs-IsInt16,
}
use mlkem_c_embedded.Params.{
  ParamSet, mlkem_k, mlkem_n, mlkem_q, mlkem_eta1, mlkem_eta2, mlkem_polybytes,
}
use mlkem_c_embedded.Reduce.Bounds.{residue, residue-lt}
use mlkem_c_embedded.Ntt.Field.{residue-+ℤ}
use mlkem_c_embedded.Cbd.Range.{poly_cbd_eta1_lem, poly_cbd_eta2_lem, length-poly_cbd_eta1}
use mlkem_c_embedded.Poly.{Poly, coeff}
use mlkem_c_embedded.Poly.Bytes.{poly_frombytes}
use mlkem_c_embedded.Poly.Bytes.Coeffs.{poly_frombytes_bound}
use mlkem_c_embedded.Poly.Message.{poly_frommsg}
use mlkem_c_embedded.Poly.Message.Decode.{coeff-poly_frommsg}
use mlkem_c_embedded.Poly.Noise.{poly_noise_eta1, poly_noise_eta2}
use mlkem_c_embedded.Poly.Arith.{poly_ntt, poly_invntt_tomont, poly_add, poly_basemul_montgomery}
use mlkem_c_embedded.Poly.Arith.Bounds.{poly_reduce_lem, coeff-poly_add}
use mlkem_c_embedded.Poly.Arith.Inner.{
  IsInput, IsInner, inner_product, residue-IsInner, abs-IsInner, next-IsInner, first-IsInner,
}
use mlkem_c_embedded.Polyvec.{Polyvec, entry, polyvec_ntt}
use mlkem_c_embedded.Symmetric.{Fips202, mlkem_shake256_prf}
use mlkem_c_embedded.Indcpa.{blank, noise_vector, enc_products, enc_v}
use mlkem_c_embedded.Indcpa.Decrypt.{IsKeyOf, few_entries}

poly_frommsg_bound : (m : List ℕ) (i : ℕ) → i < mlkem_n → abs (coeff (poly_frommsg m) i) ≤ 1665
poly_frommsg_bound m i h =
    let at : 8 * (i / 8) + i % 8 ≡ i = omega arith in
    let c = rw at at (coeff-poly_frommsg m (i / 8) (i % 8) (omega arith) (omega arith)) in
    rw c (omega arith)

module _ (f : Fips202) (ps : ParamSet) (fuel : ℕ) (coins : List ℕ) where
  -- The noise that takes the part of the secret vector, and that of the second part.
  unfoldable pub secret_noise : ℕ → Poly
  secret_noise j = poly_noise_eta1 f ps blank coins j false

  pub last_noise : Poly
  last_noise = poly_noise_eta2 f blank coins (mlkem_k ps + mlkem_k ps) false

  pub secret_noise-IsInput : (j : ℕ) → IsInput (secret_noise j)
  unfolding secret_noise poly_noise_eta1
  secret_noise-IsInput j =
      let buf = mlkem_shake256_prf f (mlkem_eta1 ps * mlkem_n / 4) coins j in
      record {
        full = length-poly_cbd_eta1 ps blank buf false;
        small = λ i h. omega (arith, (poly_cbd_eta1_lem blank blank buf i h ps).1);
      }

  last_noise_lem :
      (r : Poly) (i : ℕ)
      → i < mlkem_n
      → (coeff (poly_noise_eta2 f r coins (mlkem_k ps + mlkem_k ps) true) i
          ≡ int16 (coeff r i +ℤ coeff last_noise i))
        × (abs (coeff last_noise i) ≤ 3)
  unfolding last_noise poly_noise_eta2
  last_noise_lem r i h =
      poly_cbd_eta2_lem r blank
        (mlkem_shake256_prf f (mlkem_eta2 * mlkem_n / 4) coins (mlkem_k ps + mlkem_k ps)) i h

  entry-noise_vector :
      (j : ℕ) → j < mlkem_k ps → entry (noise_vector f ps fuel coins) j ≡ poly_ntt (secret_noise j)
  unfolding noise_vector polyvec_ntt secret_noise
  entry-noise_vector j h =
      let noise : ℕ → Poly = λ i. poly_noise_eta1 f ps blank coins i false in
      let v : Polyvec = emit (mlkem_k ps) λ i. noise i ∷ [] in
      get_or-emit_one [] (mlkem_k ps) (λ i. poly_ntt (entry v i)) j h
      ∙ ap poly_ntt (get_or-emit_one [] (mlkem_k ps) noise j h)

  module _ (t : ℕ → Poly) (pk : List ℕ) (key : IsKeyOf ps t pk) where
    enc_products-IsInner :
        (left j : ℕ) (v : Poly)
        → j + left ≤ mlkem_k ps
        → mlkem_k ps ≤ 4
        → IsInner t secret_noise j v
        → IsInner t secret_noise
            (j + left)
            (enc_products f ps fuel left j (noise_vector f ps fuel coins) pk v)
    unfolding enc_products
    enc_products-IsInner zero j v h k m = let z : j + 0 ≡ j = omega arith in rw z m
    enc_products-IsInner (suc left) j v h k m =
        let hat = poly_frombytes (drop (j * mlkem_polybytes) pk) in
        let n : j + suc left ≡ j + 1 + left = omega arith in
        rw (n, entry-noise_vector j (omega arith))
          (enc_products-IsInner left (j + 1)
            (poly_basemul_montgomery true v hat (poly_ntt (secret_noise j))) (omega arith) k
            (next-IsInner t secret_noise j hat (key.input j (omega arith)) (secret_noise-IsInput j)
              (poly_frombytes_bound (drop (j * mlkem_polybytes) pk)) (key.same j (omega arith)) v
              (omega arith) m))

    -- The products that enc_v passes to poly_invntt_tomont.
    abbrev enc_sum : Poly
    enc_sum =
        let sp = noise_vector f ps fuel coins in
        enc_products f ps fuel (mlkem_k ps - 1) 1 sp pk
          (poly_basemul_montgomery false blank (poly_frombytes pk) (entry sp 0))

    enc_sum-IsInner : IsInner t secret_noise (mlkem_k ps) enc_sum
    enc_sum-IsInner =
        let k = few_entries ps in
        let n : mlkem_k ps ≡ 1 + (mlkem_k ps - 1) = omega arith in
        let first =
          first-IsInner t secret_noise (poly_frombytes pk) blank (key.input 0 (omega arith))
            (secret_noise-IsInput 0) (poly_frombytes_bound pk) (key.same 0 (omega arith)) in
        let all =
          enc_products-IsInner (mlkem_k ps - 1) 1
            (poly_basemul_montgomery false blank (poly_frombytes pk) (poly_ntt (secret_noise 0)))
            (omega arith) k.1 first in
        rw (entry-noise_vector 0 (omega arith)) (rw (← n) at all)

-- Three small numbers, added with the conversions of the code.
three_added :
    (x e m : ℤ)
    → abs x ≤ 2025
    → abs e ≤ 3
    → abs m ≤ 1665
    → (residue (int16 (int16 (x +ℤ e) +ℤ m)) ≡ (residue x + residue e + residue m) % mlkem_q)
      × (abs (int16 (int16 (x +ℤ e) +ℤ m)) < 32768)
three_added x e m hx he hm =
    let s : abs (x +ℤ e) ≤ 2028 = omega (arith, abs-+ℤ x e) in
    let t : abs (x +ℤ e +ℤ m) ≤ 3693 = omega (arith, abs-+ℤ (x +ℤ e) m) in
    rw (int16-id (x +ℤ e) (omega arith), int16-id (x +ℤ e +ℤ m) (omega arith))
      (omega (arith, residue-+ℤ x e, residue-+ℤ (x +ℤ e) m, residue-lt (x +ℤ e +ℤ m)), omega arith)

-- For a public key that holds the transforms of polynomials t_j of 256 coefficients of absolute value
-- at most 15295, each coefficient of the second part of the ciphertext, before it is compressed, is
-- modulo q that of the sum of the products of the t_j with the secret noise, modulo x^256 + 1, plus
-- that of the last noise and of the message as poly_frommsg encodes it.
pub enc_v_lem :
    (f : Fips202) (ps : ParamSet) (fuel : ℕ) (coins : List ℕ) (t : ℕ → Poly) (pk m : List ℕ)
    → IsKeyOf ps t pk
    → (i : ℕ) → i < mlkem_n
    → residue (coeff (enc_v f ps fuel (noise_vector f ps fuel coins) m pk coins) i)
      ≡ (residue (inner_product (mlkem_k ps) t (secret_noise f ps fuel coins) i)
          + residue (coeff (last_noise f ps fuel coins) i)
          + residue (coeff (poly_frommsg m) i))
        % mlkem_q
unfolding enc_v
enc_v_lem f ps fuel coins t pk m key i h =
    let r = secret_noise f ps fuel coins in
    let k = few_entries ps in
    let sum = enc_sum f ps fuel coins t pk key in
    let inner = enc_sum-IsInner f ps fuel coins t pk key in
    let x = poly_invntt_tomont sum in
    let noisy = poly_noise_eta2 f x coins (mlkem_k ps + mlkem_k ps) true in
    let e = last_noise_lem f ps fuel coins x i h in
    let s =
      three_added (coeff x i) (coeff (last_noise f ps fuel coins) i) (coeff (poly_frommsg m) i)
        (abs-IsInner t r (mlkem_k ps) sum k.1 inner i h) e.1 (poly_frommsg_bound m i h) in
    let c : coeff (poly_add noisy (poly_frommsg m)) i
        ≡ int16 (
            int16 (coeff x i +ℤ coeff (last_noise f ps fuel coins) i) +ℤ coeff (poly_frommsg m) i) =
      coeff-poly_add noisy (poly_frommsg m) i h
      ∙ ap (λ y. int16 (y +ℤ coeff (poly_frommsg m) i)) e.0 in
    let red = poly_reduce_lem (poly_add noisy (poly_frommsg m)) i h (
      rw c (
        abs-IsInt16
          (int16
            (int16 (coeff x i +ℤ coeff (last_noise f ps fuel coins) i) +ℤ coeff (poly_frommsg m) i))
          s.1)) in
    omega (arith, red.0, ap residue c, s.0, residue-IsInner t r (mlkem_k ps) sum k.1 inner i h)
