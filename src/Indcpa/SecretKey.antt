-- ===== src/Indcpa/SecretKey.antt =====
-- mlkem/polyvec.c and mlkem/indcpa.c: the bytes of a vector in the domain of the transform.
use mlkem_c_embedded.Base.{
  ℕ, ◌*◌, ◌<◌, ◌≡◌, ap, ◌∙◌, arith, [], drop, get_or, get_or-drop, get_or-emit, get_or-emit_one,
  abs,
}
use mlkem_c_embedded.Params.{ParamSet, mlkem_k, mlkem_n, mlkem_q, mlkem_polybytes}
use mlkem_c_embedded.Reduce.Bounds.{residue-lt}
use mlkem_c_embedded.Poly.{coeff}
use mlkem_c_embedded.Poly.Bytes.{poly_tobytes}
use mlkem_c_embedded.Poly.Bytes.RoundTrip.{length-poly_tobytes, coeff-poly_frombytes-poly_tobytes}
use mlkem_c_embedded.Poly.Bytes.Coeffs.{poly_frombytes_eq}
use mlkem_c_embedded.Poly.Arith.{poly_ntt}
use mlkem_c_embedded.Poly.Arith.Ring.{length-poly_ntt, poly_ntt_bound}
use mlkem_c_embedded.Poly.Arith.Inner.{IsInput}
use mlkem_c_embedded.Polyvec.{Polyvec, entry, polyvec_ntt, polyvec_tobytes}
use mlkem_c_embedded.Indcpa.Decrypt.{IsKeyOf}

entry-polyvec_ntt :
    (ps : ParamSet) (v : Polyvec) (j : ℕ)
    → j < mlkem_k ps
    → entry (polyvec_ntt ps v) j ≡ poly_ntt (entry v j)
unfolding polyvec_ntt
entry-polyvec_ntt ps v j h = get_or-emit_one [] (mlkem_k ps) (λ i. poly_ntt (entry v i)) j h

byte-polyvec_tobytes :
    (ps : ParamSet) (a : Polyvec) (j k : ℕ)
    → j < mlkem_k ps
    → k < 384
    → get_or (drop (j * mlkem_polybytes) (polyvec_tobytes ps a)) k 0
      ≡ get_or (poly_tobytes (entry a j)) k 0
unfolding polyvec_tobytes
byte-polyvec_tobytes ps a j k h h' =
    get_or-drop (j * mlkem_polybytes) (polyvec_tobytes ps a) k 0
    ∙ get_or-emit 384 (λ i. poly_tobytes (entry a i)) (λ i. length-poly_tobytes (entry a i)) 0
        (mlkem_k ps) j k h h'

-- For a vector whose polynomials have 256 coefficients of absolute value at most 15295, the bytes of
-- polyvec_tobytes after polyvec_ntt are a key for them: poly_frombytes reads from the place of each
-- polynomial, modulo q, what poly_ntt makes of it.
pub polyvec_tobytes-IsKeyOf :
    (ps : ParamSet) (v : Polyvec)
    → ((j : ℕ) → j < mlkem_k ps → IsInput (entry v j))
    → IsKeyOf ps (entry v) (polyvec_tobytes ps (polyvec_ntt ps v))
polyvec_tobytes-IsKeyOf ps v input = record {
  input = input;
  same = λ j h i l.
      let p = poly_ntt (entry v j) in
      let full = (input j h).full in
      let bound : (i : ℕ) → i < mlkem_n → abs (coeff p i) < mlkem_q =
        λ i h'. omega (arith, poly_ntt_bound (entry v j) full (input j h).small i h') in
      let e =
        poly_frombytes_eq (drop (j * mlkem_polybytes) (polyvec_tobytes ps (polyvec_ntt ps v)))
          (poly_tobytes p)
          (λ k h'.
            byte-polyvec_tobytes ps (polyvec_ntt ps v) j k h h'
            ∙ ap (λ q. get_or (poly_tobytes q) k 0) (entry-polyvec_ntt ps v j h))
          i l
        ∙ coeff-poly_frombytes-poly_tobytes p (length-poly_ntt (entry v j)) bound i l in
      rw e (omega (arith, residue-lt (coeff p i)));
}
