-- ===== src/Indcpa/Keygen.antt =====
-- mlkem/indcpa.c: the secret key of indcpa_keypair_derand.
use mlkem_c_embedded.Base.{
  ℕ, ◌+◌, ◌*◌, ◌≤◌, ◌<◌, ◌≡◌, sym, ap, ◌∙◌, arith, false, List, [], ◌∷◌, length, take, drop, slice,
  store, get_or, get_or-drop, get_or-store, get_or-emit_one, length-emit, emit, Option-cases, none,
  some, inl, inr, ◌⊎◌, >>=-eq-some,
}
use mathlib.Core.Option.{some-injective}
use mlkem_c_embedded.Params.{ParamSet, mlkem_k, mlkem_symbytes, mlkem_polybytes, mlkem_polyvecbytes}
use mlkem_c_embedded.Reduce.Bounds.{residue}
use mlkem_c_embedded.Poly.{Poly}
use mlkem_c_embedded.Poly.Bytes.{poly_tobytes}
use mlkem_c_embedded.Poly.Bytes.RoundTrip.{length-poly_tobytes}
use mlkem_c_embedded.Poly.Bytes.Coeffs.{poly_frombytes_eq}
use mlkem_c_embedded.Poly.Noise.{poly_noise_eta1}
use mlkem_c_embedded.Polyvec.{Polyvec, entry, polyvec_tobytes}
use mlkem_c_embedded.Symmetric.{Fips202, hash_g}
use mlkem_c_embedded.Indcpa.{blank, noise_vector, keypair_rows, indcpa_keypair_derand}
use mlkem_c_embedded.Indcpa.Decrypt.{IsKeyOf}
use mlkem_c_embedded.Indcpa.SecretKey.{polyvec_tobytes-IsKeyOf}
use mlkem_c_embedded.Indcpa.Encrypt.{secret_noise, secret_noise-IsInput}

-- Only the bytes of the polynomials count.
prefix-IsKeyOf :
    (ps : ParamSet) (s : ℕ → Poly) (a b : List ℕ)
    → ((i : ℕ) → i < mlkem_k ps * 384 → get_or b i 0 ≡ get_or a i 0)
    → IsKeyOf ps s a
    → IsKeyOf ps s b
prefix-IsKeyOf ps s a b h key = record {
  input = key.input;
  same = λ j l i l'.
      let below : (j + 1) * 384 ≤ mlkem_k ps * 384 = omega arith in
      ap residue (
        poly_frombytes_eq (drop (j * mlkem_polybytes) b) (drop (j * mlkem_polybytes) a)
          (λ k l.
            get_or-drop (j * mlkem_polybytes) b k 0
            ∙ h (j * mlkem_polybytes + k) (omega arith)
            ∙ sym (get_or-drop (j * mlkem_polybytes) a k 0))
          i l')
      ∙ key.same j l i l';
}

length-polyvec_tobytes :
    (ps : ParamSet) (a : Polyvec) → length (polyvec_tobytes ps a) ≡ mlkem_k ps * 384
unfolding polyvec_tobytes
length-polyvec_tobytes ps a =
    length-emit 384 (λ i. poly_tobytes (entry a i)) (λ i. length-poly_tobytes (entry a i))
      (mlkem_k ps)

noise_vector-IsKeyOf :
    (f : Fips202) (ps : ParamSet) (fuel : ℕ) (seed : List ℕ)
    → IsKeyOf ps (secret_noise f ps fuel seed) (polyvec_tobytes ps (noise_vector f ps fuel seed))
unfolding noise_vector secret_noise
noise_vector-IsKeyOf f ps fuel seed =
    let noise : ℕ → Poly = λ i. poly_noise_eta1 f ps blank seed i false in
    let v : Polyvec = emit (mlkem_k ps) λ i. noise i ∷ [] in
    let at : (j : ℕ) → j < mlkem_k ps → entry v j ≡ noise j =
      λ j h. get_or-emit_one [] (mlkem_k ps) noise j h in
    let key =
      polyvec_tobytes-IsKeyOf ps v (λ j h. rw (at j h) (secret_noise-IsInput f ps fuel seed j)) in
    record {
      input = λ j h. secret_noise-IsInput f ps fuel seed j;
      same = λ j h. rw (at j h) at (key.same j h);
    }

written-IsKeyOf :
    (f : Fips202) (ps : ParamSet) (fuel : ℕ) (pk sk coins pk' sk' : List ℕ)
    → mlkem_polyvecbytes ps ≤ length sk
    → indcpa_keypair_derand f ps fuel pk sk coins ≡ some (pk', sk')
    → IsKeyOf ps
        (secret_noise f ps fuel
          (slice mlkem_symbytes mlkem_symbytes (hash_g f (take mlkem_symbytes coins))))
        sk'
unfolding indcpa_keypair_derand
written-IsKeyOf f ps fuel pk sk coins pk' sk' room e =
    let buf = hash_g f (take mlkem_symbytes coins) in
    let publicseed = take mlkem_symbytes buf in
    let seed = slice mlkem_symbytes mlkem_symbytes buf in
    let skpv = noise_vector f ps fuel seed in
    let bytes = polyvec_tobytes ps skpv in
    let (rows, _, last) =
      >>=-eq-some (keypair_rows f ps fuel (mlkem_k ps) 0 skpv publicseed seed pk)
        (λ p. some (store p (mlkem_polyvecbytes ps) publicseed, store sk 0 bytes)) e in
    let stored : sk' ≡ store sk 0 bytes = sym (
      ap (λ (p : List ℕ × List ℕ). p.1)
        (some-injective (store rows (mlkem_polyvecbytes ps) publicseed, store sk 0 bytes) (pk', sk')
          last)) in
    let size = length-polyvec_tobytes ps skpv in
    prefix-IsKeyOf ps (secret_noise f ps fuel seed) bytes sk'
      (λ i h.
        let z : 0 + i ≡ i = omega arith in
        ap (λ b. get_or b i 0) stored
        ∙ rw z at (get_or-store sk 0 bytes i 0 (omega arith) (omega arith)))
      (noise_vector-IsKeyOf f ps fuel seed)

-- For a buffer with room for the key, either the sampling of the matrix runs out of fuel, or the
-- secret key that indcpa_keypair_derand writes is a key for the noise polynomials of the seed: each
-- has 256 coefficients of absolute value at most 15295, and poly_frombytes reads from its place in
-- the key, modulo q, what poly_ntt makes of it.
pub indcpa_keypair_derand_lem :
    (f : Fips202) (ps : ParamSet) (fuel : ℕ) (pk sk coins : List ℕ)
    → mlkem_polyvecbytes ps ≤ length sk
    → (indcpa_keypair_derand f ps fuel pk sk coins ≡ none)
      ⊎ ((keys : List ℕ × List ℕ) × (indcpa_keypair_derand f ps fuel pk sk coins ≡ some keys)
          × IsKeyOf ps
              (secret_noise f ps fuel
                (slice mlkem_symbytes mlkem_symbytes (hash_g f (take mlkem_symbytes coins))))
              keys.1)
indcpa_keypair_derand_lem f ps fuel pk sk coins room =
    elim (Option-cases (indcpa_keypair_derand f ps fuel pk sk coins)) [
      | inl e ↦ inl e
      | inr r ↦ inr (r.0, r.1, written-IsKeyOf f ps fuel pk sk coins r.0.0 r.0.1 room r.1)
    ]
