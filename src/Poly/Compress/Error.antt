-- ===== src/Poly/Compress/Error.antt =====
-- mlkem/poly.c: poly_decompress after poly_compress.
use mlkem_c_embedded.Base.{
  ℕ, zero, suc, ◌+◌, ◌*◌, ◌/◌, ◌%◌, ◌<◌, ◌≡◌, refl, sym, ap, ◌∙◌, arith, List, [], ◌∷◌, map, length,
  get_or, get_or-emit, ℤ, pos, abs,
}
use native.Mathlib.Decide.{ℕ_discrete}
use mlkem_c_embedded.Params.{ParamSet, mlkem_q, mlkem_n}
use mlkem_c_embedded.Reduce.Bounds.{residue}
use mlkem_c_embedded.Compress.{compress4, compress5, decompress4, decompress5}
use mlkem_c_embedded.Compress.Rounding.{Within, compress_lem, decompress-compress_error}
use mlkem_c_embedded.Compress.Packing.{bytes, pack4, pack5, unpack4, unpack5}
use mlkem_c_embedded.Compress.Packing.Layout.{pack4_layout}
use mlkem_c_embedded.Compress.Packing.Fields.{unpack4_fields}
use mlkem_c_embedded.Compress.Packing.RoundTrip.{from_list, unpack5-pack5}
use mlkem_c_embedded.Poly.{Poly, coeff}
use mlkem_c_embedded.Poly.Compress.{block4, block5, poly_compress, poly_decompress}

compress4-lt : (c : ℤ) → abs c < mlkem_q → compress4 c < 16
compress4-lt c h = omega (arith, (compress_lem c h).0)

compress5-lt : (c : ℤ) → abs c < mlkem_q → compress5 c < 32
compress5-lt c h = omega (arith, (compress_lem c h).1)

unpack5_ext : (b b' : ℕ → ℕ) → ((k : ℕ) → k < 5 → b k ≡ b' k) → unpack5 b ≡ unpack5 b'
unfolding unpack5
unpack5_ext b b' h =
    cc (
      h 0 (omega arith),
      h 1 (omega arith),
      h 2 (omega arith),
      h 3 (omega arith),
      h 4 (omega arith),
    )

length-block4 : (a : Poly) (i : ℕ) → length (bytes (block4 a i)) ≡ 4
unfolding pack4
length-block4 a i = refl

length-block5 : (a : Poly) (i : ℕ) → length (bytes (block5 a i)) ≡ 5
unfolding pack5
length-block5 a i = refl

module _ (a : Poly) (small : (i : ℕ) → i < mlkem_n → abs (coeff a i) < mlkem_q) where
  value4 : (i : ℕ) → i < 256 → compress4 (coeff a i) < 16
  value4 i h = compress4-lt (coeff a i) (small i h)

  value5 : (i : ℕ) → i < 256 → compress5 (coeff a i) < 32
  value5 i h = compress5-lt (coeff a i) (small i h)

  -- Byte `k` of block `d` holds two values.
  byte4 :
      (c : List ℕ)
      → c ≡ poly_compress ParamSet.mlkem512 a
      → (d k : ℕ) → d < 32
      → k < 4
      → get_or c (d * 4 + k) 0
        ≡ compress4 (coeff a (8 * d + 2 * k)) + compress4 (coeff a (8 * d + (2 * k + 1))) * 16
  unfolding poly_compress
  byte4 c e d k h h' =
      let t : ℕ → ℕ = λ j. compress4 (coeff a (8 * d + j)) in
      let v : (j : ℕ) → j < 8 → t j < 16 = λ j l. value4 (8 * d + j) (omega arith) in
      let layout = pack4_layout t (
        v 0 (omega arith),
        v 1 (omega arith),
        v 2 (omega arith),
        v 3 (omega arith),
        v 4 (omega arith),
        v 5 (omega arith),
        v 6 (omega arith),
        v 7 (omega arith),
      ) in
      ap (λ c. get_or c (d * 4 + k) 0) e
      ∙ get_or-emit 4 (λ i. bytes (block4 a i)) (length-block4 a) 0 32 d k h h'
      ∙ ap (λ xs. get_or xs k 0) layout
      ∙ at t k h'
    where
      at :
          (t : ℕ → ℕ) (k : ℕ)
          → k < 4
          → get_or
              ((t 0 + t 1 * 16) ∷ (t 2 + t 3 * 16) ∷ (t 4 + t 5 * 16) ∷ (t 6 + t 7 * 16) ∷ [])
              k
              0
            ≡ t (2 * k) + t (2 * k + 1) * 16
      at t zero h = refl
      at t (suc zero) h = refl
      at t (suc (suc zero)) h = refl
      at t (suc (suc (suc zero))) h = refl
      at t (suc (suc (suc (suc k)))) h = absurd (omega arith)

  coeff4 :
      (i : ℕ)
      → i < 256
      → coeff (poly_decompress ParamSet.mlkem512 (poly_compress ParamSet.mlkem512 a)) i
        ≡ decompress4 (compress4 (coeff a i))
  unfolding poly_decompress
  coeff4 i h =
      let c = poly_compress ParamSet.mlkem512 a in
      let e = i / 2 in
      let b : ℕ → ℕ = λ k. get_or c (e + k) 0 in
      let at : e + 0 ≡ e / 4 * 4 + e % 4 = omega arith in
      let byte = byte4 c refl (e / 4) (e % 4) (omega arith) (omega arith) in
      let e0 : 8 * (e / 4) + 2 * (e % 4) ≡ 2 * e = omega arith in
      let e1 : 8 * (e / 4) + (2 * (e % 4) + 1) ≡ 2 * e + 1 = omega arith in
      let lo = compress4 (coeff a (2 * e)) in
      let hi = compress4 (coeff a (2 * e + 1)) in
      let value : b 0 ≡ lo + hi * 16 = rw at (rw (e0, e1) at byte) in
      let lo_small = value4 (2 * e) (omega arith) in
      let hi_small = value4 (2 * e + 1) (omega arith) in
      let fields = unpack4_fields b (omega arith) in
      let lo_field : b 0 % 16 ≡ lo = omega arith in
      let hi_field : b 0 / 16 ≡ hi = omega arith in
      let round : ℕ → Poly = λ i. map decompress4 (unpack4 λ k. get_or c (i + k) 0) in
      let read : (k : ℕ)
          → k < 2
          → coeff (poly_decompress ParamSet.mlkem512 c) (e * 2 + k) ≡ coeff (round e) k =
        λ k l. get_or-emit 2 round (length-round4 c) (pos 0) 128 e k (omega arith) l in
      elim (ℕ_discrete (i % 2) 0) [
        | yes p ↦
            let i0 : i ≡ e * 2 + 0 = omega arith in
            let i0' : i ≡ 2 * e = omega arith in
            ap (coeff (poly_decompress ParamSet.mlkem512 c)) i0
            ∙ read 0 (omega arith)
            ∙ ap (λ xs. coeff (map decompress4 xs) 0) fields
            ∙ ap decompress4 lo_field
            ∙ ap (λ n. decompress4 (compress4 (coeff a n))) (sym i0')
        | no n ↦
            let i1 : i ≡ e * 2 + 1 = omega arith in
            let i1' : i ≡ 2 * e + 1 = omega arith in
            ap (coeff (poly_decompress ParamSet.mlkem512 c)) i1
            ∙ read 1 (omega arith)
            ∙ ap (λ xs. coeff (map decompress4 xs) 1) fields
            ∙ ap decompress4 hi_field
            ∙ ap (λ n. decompress4 (compress4 (coeff a n))) (sym i1')
      ]
    where
      length-round4 :
          (c : List ℕ) (i : ℕ) → length (map decompress4 (unpack4 λ k. get_or c (i + k) 0)) ≡ 2
      length-round4 c i = unfold unpack4 in refl

  coeff5 :
      (d k : ℕ)
      → d < 32
      → k < 8
      → coeff (poly_decompress ParamSet.mlkem1024 (poly_compress ParamSet.mlkem1024 a)) (d * 8 + k)
        ≡ decompress5 (compress5 (coeff a (8 * d + k)))
  unfolding poly_decompress poly_compress
  coeff5 d k h h' =
      let c = poly_compress ParamSet.mlkem1024 a in
      let t : ℕ → ℕ = λ j. compress5 (coeff a (8 * d + j)) in
      let v : (j : ℕ) → j < 8 → t j < 32 = λ j l. value5 (8 * d + j) (omega arith) in
      let round : ℕ → Poly = λ i. map decompress5 (unpack5 λ k. get_or c (5 * i + k) 0) in
      let same =
        unpack5_ext (λ k. get_or c (5 * d + k) 0) (from_list (bytes (pack5 t)))
          λ k l.
            let at : 5 * d + k ≡ d * 5 + k = omega arith in
            ap (λ n. get_or c n 0) at
            ∙ get_or-emit 5 (λ i. bytes (block5 a i)) (length-block5 a) 0 32 d k h l in
      let back = unpack5-pack5 t (
        v 0 (omega arith),
        v 1 (omega arith),
        v 2 (omega arith),
        v 3 (omega arith),
        v 4 (omega arith),
        v 5 (omega arith),
        v 6 (omega arith),
        v 7 (omega arith),
      ) in
      get_or-emit 8 round (length-round5 c) (pos 0) 32 d k h h'
      ∙ ap (λ xs. coeff (map decompress5 xs) k) (same ∙ back)
      ∙ at t k h'
    where
      length-round5 :
          (c : List ℕ) (i : ℕ) → length (map decompress5 (unpack5 λ k. get_or c (5 * i + k) 0)) ≡ 8
      length-round5 c i = unfold unpack5 in refl

      at :
          (t : ℕ → ℕ) (k : ℕ)
          → k < 8
          → coeff (map decompress5 (t 0 ∷ t 1 ∷ t 2 ∷ t 3 ∷ t 4 ∷ t 5 ∷ t 6 ∷ t 7 ∷ [])) k
            ≡ decompress5 (t k)
      at t zero h = refl
      at t (suc zero) h = refl
      at t (suc (suc zero)) h = refl
      at t (suc (suc (suc zero))) h = refl
      at t (suc (suc (suc (suc zero)))) h = refl
      at t (suc (suc (suc (suc (suc zero))))) h = refl
      at t (suc (suc (suc (suc (suc (suc zero)))))) h = refl
      at t (suc (suc (suc (suc (suc (suc (suc zero))))))) h = refl
      at t (suc (suc (suc (suc (suc (suc (suc (suc k)))))))) h = absurd (omega arith)

-- The error of the compressed second part of a ciphertext.
abbrev pub compress_error : ParamSet → ℕ
compress_error ParamSet.mlkem512 = 104
compress_error ParamSet.mlkem768 = 104
compress_error ParamSet.mlkem1024 = 52

-- For a polynomial of coefficients of absolute value below q, poly_decompress leaves from the output
-- of poly_compress nonnegative coefficients that are away from the residues of the original ones, on
-- the circle modulo q, by at most 104 with MLKEM_K 2 and 3, and 52 with MLKEM_K 4.
pub poly_decompress-poly_compress :
    (a : Poly)
    → ((i : ℕ) → i < mlkem_n → abs (coeff a i) < mlkem_q)
    → (ps : ParamSet) (i : ℕ) → i < mlkem_n
    → Within
        (compress_error ps)
        (residue (coeff a i))
        (coeff (poly_decompress ps (poly_compress ps a)) i)
unfolding poly_decompress poly_compress
poly_decompress-poly_compress a small ParamSet.mlkem512 i h =
    rw (coeff4 a small i h) ((decompress-compress_error (coeff a i) (small i h)).0)
poly_decompress-poly_compress a small ParamSet.mlkem768 i h =
    rw (coeff4 a small i h) ((decompress-compress_error (coeff a i) (small i h)).0)
poly_decompress-poly_compress a small ParamSet.mlkem1024 i h =
    let at : i / 8 * 8 + i % 8 ≡ i = omega arith in
    let at' : 8 * (i / 8) + i % 8 ≡ i = omega arith in
    let c = rw (at, at') at (coeff5 a small (i / 8) (i % 8) (omega arith) (omega arith)) in
    rw c ((decompress-compress_error (coeff a i) (small i h)).1)
