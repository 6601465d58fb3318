-- ===== src/Indcpa/Reencrypt.antt =====
-- mlkem/indcpa.c: indcpa_enc_cmp against indcpa_enc.
use mlkem_c_embedded.Base.{
  ℕ, true, false, ◌+◌, ◌-◌, ◌*◌, ◌%◌, ◌^◌, ◌≤◌, ◌<◌, ◌≡◌, ◌↔◌, inl, inr, ◌∙◌, sym, ap, ap₂, refl,
  arith, List, length, get_or, drop, store, length-store, get_or-store, get_or-store_outside,
  get_or-drop, bit_or, bit_or-lt, bit_or-eq-zero, list_ext, IsBytes, Option-cases, >>=-eq-some,
  some, ◌>>=◌, ◌>>>◌, abs,
}
use native.Mathlib.Decide.{dec_lt, ℕ_discrete}
use mathlib.Core.List.{List-discrete}
use mathlib.Core.Option.{some-injective, none-ne-some}
use mlkem_c_embedded.Params.{
  ParamSet, mlkem_k, mlkem_n, mlkem_q, mlkem_packedbytes, mlkem_polycompressedbytes,
  mlkem_polyvecbytes, mlkem_polyveccompressedbytes, mlkem_indcpa_bytes,
}
use mlkem_c_embedded.Poly.{Poly, coeff}
use mlkem_c_embedded.Poly.Noise.{poly_noise_eta2}
use mlkem_c_embedded.Poly.Message.{poly_frommsg}
use mlkem_c_embedded.Poly.Arith.{poly_invntt_tomont, poly_basemul_montgomery}
use mlkem_c_embedded.Poly.Arith.Bounds.{poly_reduce-poly_add_bound}
use mlkem_c_embedded.Poly.Compress.{poly_compress, cmp_poly_compress}
use mlkem_c_embedded.Poly.Bytes.{poly_frombytes}
use mlkem_c_embedded.Poly.Compress.Compare.{IsBytes-all}
use mlkem_c_embedded.Poly.Compress.Agree.{
  length-poly_compress, cmp_poly_compress-poly_compress, cmp_poly_compress-lt,
}
use mlkem_c_embedded.Polyvec.{Polyvec, entry}
use mlkem_c_embedded.Symmetric.{Fips202}
use mlkem_c_embedded.Indcpa.{
  blank, enc_products, enc_rows, cmp_rows, enc_v, noise_vector, indcpa_enc, indcpa_enc_cmp,
}
use mlkem_c_embedded.Indcpa.Compare.{
  length-enc_rows, enc_rows_after, enc_rows_fresh, cmp_rows_lem, cmp_rows_total, enc_rows_total,
}

-- The last line of the comparison turns a byte into 0 or 1.
abbrev to_bit : ℕ → ℕ
to_bit rc = (((2 ^ 64 - 1 - rc + 1) % 2 ^ 64) >>> 63) % 2 ^ 8

to_bit_lem : (rc : ℕ) → rc < 256 → (to_bit rc ≤ 1) × ((to_bit rc ≡ 0) ↔ (rc ≡ 0))
to_bit_lem rc h = (omega arith, ((λ e. omega arith), (λ e. omega arith)))

pub unless {ℓ} : {P : Type ℓ} → Dec P → ℕ
unless (yes p) = 0
unless (no p) = 1

-- 0 for equal arrays and 1 for others.
pub differs : List ℕ → List ℕ → ℕ
differs a b = unless (List-discrete {0} ℕ_discrete a b)

unless_yes {ℓ} : {P : Type ℓ} (d : Dec P) → P → unless d ≡ 0
unfolding unless
unless_yes (yes p) q = refl
unless_yes (no p) q = absurd (p q)

unless_no {ℓ} : {P : Type ℓ} (d : Dec P) → ¬ P → unless d ≡ 1
unfolding unless
unless_no (yes p) q = absurd (q p)
unless_no (no p) q = refl

pub differs_yes : (a b : List ℕ) → a ≡ b → differs a b ≡ 0
unfolding differs
differs_yes a b e = unless_yes (List-discrete {0} ℕ_discrete a b) e

pub differs_no : (a b : List ℕ) → ¬ (a ≡ b) → differs a b ≡ 1
unfolding differs
differs_no a b e = unless_no (List-discrete {0} ℕ_discrete a b) e

vec_bytes :
    (ps : ParamSet) → mlkem_packedbytes ps * (0 + mlkem_k ps) ≡ mlkem_polyveccompressedbytes ps
vec_bytes ParamSet.mlkem512 = refl
vec_bytes ParamSet.mlkem768 = refl
vec_bytes ParamSet.mlkem1024 = refl

all_bytes :
    (ps : ParamSet)
    → mlkem_polyveccompressedbytes ps + mlkem_polycompressedbytes ps ≡ mlkem_indcpa_bytes ps
all_bytes ParamSet.mlkem512 = refl
all_bytes ParamSet.mlkem768 = refl
all_bytes ParamSet.mlkem1024 = refl

module _ (f : Fips202) (ps : ParamSet) (fuel : ℕ) (ct c m pk coins : List ℕ)
    (lt : length ct ≡ mlkem_indcpa_bytes ps) (lc : length c ≡ mlkem_indcpa_bytes ps)
    (br : IsBytes ct) where
  abbrev sp : Polyvec
  sp = noise_vector f ps fuel coins

  abbrev seed : List ℕ
  seed = drop (mlkem_polyvecbytes ps) pk

  abbrev off : ℕ
  off = mlkem_polyveccompressedbytes ps

  abbrev v : Poly
  v = enc_v f ps fuel sp m pk coins

  small : (i : ℕ) → i < mlkem_n → abs (coeff v i) < mlkem_q
  unfolding enc_v
  small i h =
      let first = poly_basemul_montgomery false blank (poly_frombytes pk) (entry sp 0) in
      let noisy =
        poly_noise_eta2 f
          (poly_invntt_tomont (enc_products f ps fuel (mlkem_k ps - 1) 1 sp pk first)) coins
          (mlkem_k ps + mlkem_k ps) true in
      let b = poly_reduce-poly_add_bound noisy (poly_frommsg m) i h in omega arith

  drop-IsBytes : IsBytes (drop off ct)
  drop-IsBytes i l = rw (get_or-drop off ct i 0) (IsBytes-all ct br (off + i))

  -- The second part of `ct` is the compressed polynomial exactly if its comparison gives 0.
  tail_lem : (cmp_poly_compress ps (drop off ct) v ≡ 0) ↔ (
      (k : ℕ)
      → k < mlkem_polycompressedbytes ps
      → get_or ct (off + k) 0 ≡ get_or (poly_compress ps v) k 0)
  tail_lem =
      let cmp = cmp_poly_compress-poly_compress (drop off ct) v drop-IsBytes small ps in
      (
        λ z k l. sym (get_or-drop off ct k 0) ∙ cmp.0 z k l,
        λ h. cmp.1 λ k l. get_or-drop off ct k 0 ∙ h k l,
      )

  -- The rows and then the second part make `ct`.
  assembled :
      (rows : List ℕ)
      → length rows ≡ mlkem_indcpa_bytes ps
      → (store rows off (poly_compress ps v) ≡ ct) ↔ (
          ((k : ℕ) → k < off → get_or rows k 0 ≡ get_or ct k 0)
          × (cmp_poly_compress ps (drop off ct) v ≡ 0))
  assembled rows lr =
      let lv = length-poly_compress ps v in
      let fits : off + length (poly_compress ps v) ≤ length rows = omega (arith, all_bytes ps) in
      (
        λ e. (
          (λ k l.
              sym (get_or-store_outside rows off (poly_compress ps v) k 0 (inl l))
              ∙ ap (λ xs. get_or xs k 0) e),
          tail_lem.1 (λ k l.
              ap (λ xs. get_or xs (off + k) 0) (sym e)
              ∙ get_or-store rows off (poly_compress ps v) k 0 (omega arith) fits),
        ),
        λ h.
            list_ext 0 (store rows off (poly_compress ps v)) ct
              (length-store rows off (poly_compress ps v) ∙ lr ∙ sym lt)
              λ i l. elim (dec_lt i off) [
                | yes p ↦ get_or-store_outside rows off (poly_compress ps v) i 0 (inl p) ∙ h.0 i p
                | no p ↦
                    let k = i - off in
                    let at : off + k ≡ i = omega arith in
                    let b : k < mlkem_polycompressedbytes ps =
                      omega (arith, length-store rows off (poly_compress ps v), all_bytes ps) in
                    rw (← at) (
                      get_or-store rows off (poly_compress ps v) k 0 (omega arith) fits
                      ∙ sym (tail_lem.0 h.1 k b))
              ],
      )

  -- Whether encryption into `ct` changes nothing, and whether encryption into `c` gives `ct`.
  rows_in_place :
      enc_rows f ps fuel (mlkem_k ps) 0 sp seed coins ct ≡ some ct
      → (rows : List ℕ) × (enc_rows f ps fuel (mlkem_k ps) 0 sp seed coins c ≡ some rows)
        × ((k : ℕ) → k < off → get_or rows k 0 ≡ get_or ct k 0)
  rows_in_place h =
      let fresh =
        enc_rows_fresh f ps fuel sp seed coins (mlkem_k ps) 0 ct c ct (lt ∙ sym lc)
          (omega (arith, vec_bytes ps, all_bytes ps)) (λ k l. absurd (omega arith)) h in
      (fresh.0, fresh.1, λ k l. sym (fresh.2 k (omega (arith, vec_bytes ps))))

  in_place_rows :
      (rows : List ℕ)
      → enc_rows f ps fuel (mlkem_k ps) 0 sp seed coins c ≡ some rows
      → ((k : ℕ) → k < off → get_or rows k 0 ≡ get_or ct k 0)
      → enc_rows f ps fuel (mlkem_k ps) 0 sp seed coins ct ≡ some ct
  in_place_rows rows h same =
      let fresh =
        enc_rows_fresh f ps fuel sp seed coins (mlkem_k ps) 0 c ct rows (lc ∙ sym lt)
          (omega (arith, vec_bytes ps, all_bytes ps)) (λ k l. absurd (omega arith)) h in
      fresh.1
      ∙ ap some (
          list_ext 0 fresh.0 ct
            (length-enc_rows f ps fuel sp seed coins (mlkem_k ps) 0 ct fresh.0 fresh.1)
            λ k l. elim (dec_lt k off) [
              | yes p ↦ sym (fresh.2 k (omega (arith, vec_bytes ps))) ∙ same k p
              | no p ↦
                  enc_rows_after f ps fuel sp seed coins (mlkem_k ps) 0 ct fresh.0 k fresh.1
                    (omega (arith, vec_bytes ps))
            ])

  abbrev combined : ℕ → ℕ
  combined rc = bit_or rc (cmp_poly_compress ps (drop off ct) v)

  enc_cmp_rows :
      (r : ℕ)
      → indcpa_enc_cmp f ps fuel ct m pk coins ≡ some r
      → (rc : ℕ) × (cmp_rows f ps fuel (mlkem_k ps) 0 sp seed coins ct 0 ≡ some rc)
        × (to_bit (combined rc) ≡ r)
  unfolding indcpa_enc_cmp
  enc_cmp_rows r h =
      let (rc, e, last) =
        >>=-eq-some (cmp_rows f ps fuel (mlkem_k ps) 0 sp seed coins ct 0)
          (λ rc. some (to_bit (combined rc))) h in
      (rc, e, some-injective _ _ last)

  enc_rows_of :
      (c' : List ℕ)
      → indcpa_enc f ps fuel c m pk coins ≡ some c'
      → (rows : List ℕ) × (enc_rows f ps fuel (mlkem_k ps) 0 sp seed coins c ≡ some rows)
        × (store rows off (poly_compress ps v) ≡ c')
  unfolding indcpa_enc
  enc_rows_of c' h =
      let (rows, e, last) =
        >>=-eq-some (enc_rows f ps fuel (mlkem_k ps) 0 sp seed coins c)
          (λ rows. some (store rows off (poly_compress ps v))) h in
      (rows, e, some-injective _ _ last)

  compared :
      (rc : ℕ)
      → cmp_rows f ps fuel (mlkem_k ps) 0 sp seed coins ct 0 ≡ some rc
      → (rc < 256) × ((rc ≡ 0) ↔ (enc_rows f ps fuel (mlkem_k ps) 0 sp seed coins ct ≡ some ct))
  compared rc e =
      let cmp =
        cmp_rows_lem f ps fuel sp seed coins (mlkem_k ps) 0 ct 0 rc br
          (omega (arith, vec_bytes ps, all_bytes ps)) (omega arith) e in
      (cmp.0, ((λ z. (cmp.1.0 z).1), λ p. cmp.1.1 (refl, p)))

  combined_lt : (rc : ℕ) → rc < 256 → combined rc < 256
  combined_lt rc h =
      bit_or-lt 8 rc (cmp_poly_compress ps (drop off ct) v) h
        (cmp_poly_compress-lt (drop off ct) v drop-IsBytes small ps)

  pub indcpa_enc_cmp_accepts :
      indcpa_enc_cmp f ps fuel ct m pk coins ≡ some 0 → indcpa_enc f ps fuel c m pk coins ≡ some ct
  unfolding indcpa_enc
  indcpa_enc_cmp_accepts h =
      let (rc, e, last) = enc_cmp_rows 0 h in
      let cmp = compared rc e in
      let zeros =
        bit_or-eq-zero rc (cmp_poly_compress ps (drop off ct) v)
          ((to_bit_lem (combined rc) (combined_lt rc cmp.0)).1.0 last) in
      let (rows, er, same) = rows_in_place (cmp.1.0 zeros.0) in
      let lr = length-enc_rows f ps fuel sp seed coins (mlkem_k ps) 0 c rows er in
      rw er (ap some ((assembled rows (lr ∙ lc)).1 (same, zeros.1)))

  -- Where encryption returns, the comparison does.
  pub enc_cmp_total :
      (c' : List ℕ)
      → indcpa_enc f ps fuel c m pk coins ≡ some c'
      → (r : ℕ) × (indcpa_enc_cmp f ps fuel ct m pk coins ≡ some r) × (r ≤ 1)
  unfolding indcpa_enc_cmp
  enc_cmp_total c' h =
      let (rows, er, made) = enc_rows_of c' h in
      let total = cmp_rows_total f ps fuel sp seed coins (mlkem_k ps) 0 c rows ct 0 er in
      let rc = total.0 in
      let e = total.1 in
      (to_bit (combined rc), rw e, (to_bit_lem (combined rc) (combined_lt rc (compared rc e).0)).0)

  pub indcpa_enc_accepted :
      indcpa_enc f ps fuel c m pk coins ≡ some ct → indcpa_enc_cmp f ps fuel ct m pk coins ≡ some 0
  unfolding indcpa_enc_cmp
  indcpa_enc_accepted h =
      let (rows, er, made) = enc_rows_of ct h in
      let lr = length-enc_rows f ps fuel sp seed coins (mlkem_k ps) 0 c rows er in
      let both = (assembled rows (lr ∙ lc)).0 made in
      let total = cmp_rows_total f ps fuel sp seed coins (mlkem_k ps) 0 c rows ct 0 er in
      let rc = total.0 in
      let e = total.1 in
      let zero_rows = (compared rc e).1.1 (in_place_rows rows er both.0) in
      rw e (ap some (ap to_bit (ap₂ bit_or zero_rows both.1)))

  enc_total :
      (r : ℕ)
      → indcpa_enc_cmp f ps fuel ct m pk coins ≡ some r
      → (c' : List ℕ) × (indcpa_enc f ps fuel c m pk coins ≡ some c')
  unfolding indcpa_enc
  enc_total r h =
      let (rc, e, last) = enc_cmp_rows r h in
      let (rows, er) = enc_rows_total f ps fuel sp seed coins (mlkem_k ps) 0 c ct 0 rc e in
      (store rows off (poly_compress ps v), rw er)

  -- For an array `ct` of bytes and a buffer `c`, both of a ciphertext's length, indcpa_enc_cmp
  -- returns what encrypting into `c` and then comparing with `ct` would: 0 for equal ciphertexts, 1
  -- for others, and no result exactly if the encryption runs out of fuel.
  pub indcpa_enc_cmp-indcpa_enc :
      indcpa_enc_cmp f ps fuel ct m pk coins
      ≡ (indcpa_enc f ps fuel c m pk coins >>= λ c'. some (differs c' ct))
  indcpa_enc_cmp-indcpa_enc = elim (Option-cases (indcpa_enc f ps fuel c m pk coins)) [
    | inl h ↦ elim (Option-cases (indcpa_enc_cmp f ps fuel ct m pk coins)) [
      | inl e ↦ rw (h, e)
      | inr q ↦ let more = enc_total q.0 q.1 in absurd (none-ne-some more.0 (sym h ∙ more.1))
    ]
    | inr q ↦
        let (r, e, bound) = enc_cmp_total q.0 q.1 in
        elim (List-discrete {0} ℕ_discrete q.0 ct) [
          | yes p ↦ indcpa_enc_accepted (q.1 ∙ ap some p) ∙ rw (q.1, differs_yes q.0 ct p)
          | no p ↦
              let one : r ≡ 1 = elim (ℕ_discrete r 0) [
                | yes z ↦
                    absurd
                      (p (some-injective _ _ (sym q.1 ∙ indcpa_enc_cmp_accepts (e ∙ ap some z))))
                | no z ↦ omega arith
              ] in
              e ∙ rw (q.1, differs_no q.0 ct p) (ap some one)
        ]
  ]
