-- ===== src/Poly/Compress/Agree.antt =====
-- mlkem/poly.c: cmp_poly_compress against poly_compress.
use mlkem_c_embedded.Base.{
  ℕ, ◌+◌, ◌*◌, ◌<◌, ◌≡◌, ◌↔◌, ◌∙◌, sym, ap, refl, arith, List, length, get_or, abs, emit, emit_ext,
  length-emit, IsBytes,
}
use mlkem_c_embedded.Params.{ParamSet, mlkem_q, mlkem_n, mlkem_polycompressedbytes}
use mlkem_c_embedded.Poly.{Poly, coeff}
use mlkem_c_embedded.Compress.{cmp_compress4, cmp_compress5, compress4, compress5}
use mlkem_c_embedded.Compress.Rounding.{cmp_compress4-compress4, cmp_compress5-compress5}
use mlkem_c_embedded.Compress.Packing.{bytes, pack4, pack5}
use mlkem_c_embedded.Poly.Compress.{block4, block5, cmp_rounds, poly_compress, cmp_poly_compress}
use mlkem_c_embedded.Poly.Compress.Compare.{
  cmp_rounds-emit, cmp_rounds_lem, IsBytes-all, length-bytes,
}

pack4_ext : (t u : ℕ → ℕ) → ((k : ℕ) → k < 8 → t k ≡ u k) → pack4 t ≡ pack4 u
unfolding pack4
pack4_ext t u h = cc (
  h 0 (omega arith),
  h 1 (omega arith),
  h 2 (omega arith),
  h 3 (omega arith),
  h 4 (omega arith),
  h 5 (omega arith),
  h 6 (omega arith),
  h 7 (omega arith),
)

pack5_ext : (t u : ℕ → ℕ) → ((k : ℕ) → k < 8 → t k ≡ u k) → pack5 t ≡ pack5 u
unfolding pack5
pack5_ext t u h = cc (
  h 0 (omega arith),
  h 1 (omega arith),
  h 2 (omega arith),
  h 3 (omega arith),
  h 4 (omega arith),
  h 5 (omega arith),
  h 6 (omega arith),
  h 7 (omega arith),
)

width4 : (t : ℕ → ℕ → ℕ) (i : ℕ) → length (pack4 (t i)) ≡ 4
unfolding pack4
width4 t i = refl

width5 : (t : ℕ → ℕ → ℕ) (i : ℕ) → length (pack5 (t i)) ≡ 5
unfolding pack5
width5 t i = refl

pub length-poly_compress :
    (ps : ParamSet) (a : Poly) → length (poly_compress ps a) ≡ mlkem_polycompressedbytes ps
unfolding poly_compress
length-poly_compress ParamSet.mlkem1024 a =
    length-emit 5 (λ i. bytes (block5 a i))
      (λ i. length-bytes (block5 a i) ∙ width5 (λ n j. compress5 (coeff a (8 * n + j))) i) 32
length-poly_compress ParamSet.mlkem768 a =
    length-emit 4 (λ i. bytes (block4 a i))
      (λ i. length-bytes (block4 a i) ∙ width4 (λ n j. compress4 (coeff a (8 * n + j))) i) 32
length-poly_compress ParamSet.mlkem512 a =
    length-emit 4 (λ i. bytes (block4 a i))
      (λ i. length-bytes (block4 a i) ∙ width4 (λ n j. compress4 (coeff a (8 * n + j))) i) 32

module _ (r : List ℕ) (a : Poly) (br : IsBytes r)
    (small : (i : ℕ) → i < mlkem_n → abs (coeff a i) < mlkem_q) where
  abbrev cmp4 : ℕ → ℕ → ℕ
  cmp4 i j = cmp_compress4 (coeff a (8 * i + j))

  abbrev cmp5 : ℕ → ℕ → ℕ
  cmp5 i j = cmp_compress5 (coeff a (8 * i + j))

  same4 : (i : ℕ) → i < 32 → bytes (pack4 (cmp4 i)) ≡ bytes (block4 a i)
  same4 i h = ap bytes (
      pack4_ext (cmp4 i) (λ j. compress4 (coeff a (8 * i + j)))
        (λ k l. cmp_compress4-compress4 (coeff a (8 * i + k)) (small (8 * i + k) (omega arith))))

  same5 : (i : ℕ) → i < 32 → bytes (pack5 (cmp5 i)) ≡ bytes (block5 a i)
  same5 i h = ap bytes (
      pack5_ext (cmp5 i) (λ j. compress5 (coeff a (8 * i + j)))
        (λ k l. cmp_compress5-compress5 (coeff a (8 * i + k)) (small (8 * i + k) (omega arith))))

  agree :
      (w : ℕ) (block block' : ℕ → List ℕ)
      → ((i : ℕ) → length (block i) ≡ w)
      → 0 < w
      → ((i : ℕ) → i < 32 → bytes (block i) ≡ bytes (block' i))
      → (cmp_rounds r 0 w block 32 0 0 ≡ 0)
        ↔ ((k : ℕ) → k < 32 * w → get_or r k 0 ≡ get_or (emit 32 (λ i. bytes (block' i))) k 0)
  agree w block block' width pos same =
      let cmp = cmp_rounds-emit r 0 w block width (IsBytes-all r br) 32 pos in
      let lists = emit_ext 32 (λ i. bytes (block i)) (λ i. bytes (block' i)) same in
      (
        λ z k l.
            let e : 0 + k ≡ k = omega arith in
            ap (λ n. get_or r n 0) (sym e) ∙ cmp.0 z k l ∙ ap (λ xs. get_or xs k 0) lists,
        λ h. cmp.1 (λ k l.
            let e : 0 + k ≡ k = omega arith in
            ap (λ n. get_or r n 0) e ∙ h k l ∙ ap (λ xs. get_or xs k 0) (sym lists)),
      )

  -- For an array `r` of bytes and a polynomial `a` with coefficients of absolute value below q,
  -- cmp_poly_compress returns 0 exactly if `r` begins with the bytes that poly_compress writes.
  pub cmp_poly_compress-poly_compress :
      (ps : ParamSet)
      → (cmp_poly_compress ps r a ≡ 0) ↔ (
          (k : ℕ)
          → k < mlkem_polycompressedbytes ps
          → get_or r k 0 ≡ get_or (poly_compress ps a) k 0)
  unfolding cmp_poly_compress poly_compress
  cmp_poly_compress-poly_compress ParamSet.mlkem1024 =
      agree 5 (λ i. pack5 (cmp5 i)) (block5 a) (width5 cmp5) (omega arith) same5
  cmp_poly_compress-poly_compress ParamSet.mlkem768 =
      agree 4 (λ i. pack4 (cmp4 i)) (block4 a) (width4 cmp4) (omega arith) same4
  cmp_poly_compress-poly_compress ParamSet.mlkem512 =
      agree 4 (λ i. pack4 (cmp4 i)) (block4 a) (width4 cmp4) (omega arith) same4

  pub cmp_poly_compress-lt : (ps : ParamSet) → cmp_poly_compress ps r a < 256
  unfolding cmp_poly_compress
  cmp_poly_compress-lt ParamSet.mlkem1024 =
      (cmp_rounds_lem r 0 5 (λ i. pack5 (cmp5 i)) (width5 cmp5) (IsBytes-all r br) 32 0 0
        (omega arith)).0
  cmp_poly_compress-lt ParamSet.mlkem768 =
      (cmp_rounds_lem r 0 4 (λ i. pack4 (cmp4 i)) (width4 cmp4) (IsBytes-all r br) 32 0 0
        (omega arith)).0
  cmp_poly_compress-lt ParamSet.mlkem512 =
      (cmp_rounds_lem r 0 4 (λ i. pack4 (cmp4 i)) (width4 cmp4) (IsBytes-all r br) 32 0 0
        (omega arith)).0
