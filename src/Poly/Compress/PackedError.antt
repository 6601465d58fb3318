-- ===== src/Poly/Compress/PackedError.antt =====
-- mlkem/poly.c: poly_unpackdecompress after poly_packcompress.
use mlkem_c_embedded.Base.{
  ℕ, zero, suc, ◌+◌, ◌*◌, ◌/◌, ◌%◌, ◌≤◌, ◌<◌, ◌≡◌, refl, ap, ◌∙◌, arith, List, [], ◌∷◌, map, length,
  get_or, get_or-emit, pos, abs,
}
use mlkem_c_embedded.Params.{ParamSet, mlkem_q, mlkem_n, mlkem_packedbytes}
use mlkem_c_embedded.Reduce.Bounds.{residue}
use mlkem_c_embedded.Compress.{compress10, compress11, decompress10, decompress11}
use mlkem_c_embedded.Compress.Rounding.{Within, compress_lem, decompress-compress_error}
use mlkem_c_embedded.Compress.Packing.{bytes, pack10, pack11, unpack10, unpack11}
use mlkem_c_embedded.Compress.Packing.RoundTrip.{from_list, unpack10-pack10, unpack11-pack11}
use mlkem_c_embedded.Poly.{Poly, coeff}
use mlkem_c_embedded.Poly.Compress.{
  block10, block11, pack_rounds, poly_packcompress, poly_unpackdecompress,
}
use mlkem_c_embedded.Poly.Compress.Store.{pack_rounds_inside}

unpack10_ext : (b b' : ℕ → ℕ) → ((k : ℕ) → k < 5 → b k ≡ b' k) → unpack10 b ≡ unpack10 b'
unfolding unpack10
unpack10_ext b b' h =
    cc (
      h 0 (omega arith),
      h 1 (omega arith),
      h 2 (omega arith),
      h 3 (omega arith),
      h 4 (omega arith),
    )

unpack11_ext : (b b' : ℕ → ℕ) → ((k : ℕ) → k < 11 → b k ≡ b' k) → unpack11 b ≡ unpack11 b'
unfolding unpack11
unpack11_ext b b' h = cc (
  h 0 (omega arith),
  h 1 (omega arith),
  h 2 (omega arith),
  h 3 (omega arith),
  h 4 (omega arith),
  h 5 (omega arith),
  h 6 (omega arith),
  h 7 (omega arith),
  h 8 (omega arith),
  h 9 (omega arith),
  h 10 (omega arith),
)

width10 : (a : Poly) (i : ℕ) → length (block10 a i) ≡ 5
unfolding pack10
width10 a i = refl

width11 : (a : Poly) (i : ℕ) → length (block11 a i) ≡ 11
unfolding pack11
width11 a i = refl

module _ (a : Poly) (small : (i : ℕ) → i < mlkem_n → abs (coeff a i) < mlkem_q) (r : List ℕ)
    (base : ℕ) where
  value10 : (i : ℕ) → i < 256 → compress10 (coeff a i) < 1024
  value10 i h = omega (arith, (compress_lem (coeff a i) (small i h)).2)

  value11 : (i : ℕ) → i < 256 → compress11 (coeff a i) < 2048
  value11 i h = omega (arith, (compress_lem (coeff a i) (small i h)).3)

  read10 :
      base + 320 ≤ length r
      → (j : ℕ) → j < 64
      → unpack10 (λ k. get_or (pack_rounds base 5 (block10 a) 64 0 r) (base + 5 * j + k) 0)
        ≡ compress10 (coeff a (4 * j + 0))
          ∷ compress10 (coeff a (4 * j + 1))
          ∷ compress10 (coeff a (4 * j + 2))
          ∷ compress10 (coeff a (4 * j + 3))
          ∷ []
  read10 fits j h =
      let t : ℕ → ℕ = λ k. compress10 (coeff a (4 * j + k)) in
      let v : (k : ℕ) → k < 4 → t k < 1024 = λ k l. value10 (4 * j + k) (omega arith) in
      unpack10_ext (λ k. get_or (pack_rounds base 5 (block10 a) 64 0 r) (base + 5 * j + k) 0)
        (from_list (bytes (pack10 t)))
        (λ k l.
          pack_rounds_inside base 5 (block10 a) (width10 a) 64 0 r j k (omega arith) (omega arith) l
            (omega arith))
      ∙ unpack10-pack10 t
          (v 0 (omega arith), v 1 (omega arith), v 2 (omega arith), v 3 (omega arith))

  read11 :
      base + 352 ≤ length r
      → (j : ℕ) → j < 32
      → unpack11 (λ k. get_or (pack_rounds base 11 (block11 a) 32 0 r) (base + 11 * j + k) 0)
        ≡ compress11 (coeff a (8 * j + 0))
          ∷ compress11 (coeff a (8 * j + 1))
          ∷ compress11 (coeff a (8 * j + 2))
          ∷ compress11 (coeff a (8 * j + 3))
          ∷ compress11 (coeff a (8 * j + 4))
          ∷ compress11 (coeff a (8 * j + 5))
          ∷ compress11 (coeff a (8 * j + 6))
          ∷ compress11 (coeff a (8 * j + 7))
          ∷ []
  read11 fits j h =
      let t : ℕ → ℕ = λ k. compress11 (coeff a (8 * j + k)) in
      let v : (k : ℕ) → k < 8 → t k < 2048 = λ k l. value11 (8 * j + k) (omega arith) in
      unpack11_ext (λ k. get_or (pack_rounds base 11 (block11 a) 32 0 r) (base + 11 * j + k) 0)
        (from_list (bytes (pack11 t)))
        (λ k l.
          pack_rounds_inside base 11 (block11 a) (width11 a) 32 0 r j k (omega arith) (omega arith)
            l (omega arith))
      ∙ unpack11-pack11 t (
        v 0 (omega arith),
        v 1 (omega arith),
        v 2 (omega arith),
        v 3 (omega arith),
        v 4 (omega arith),
        v 5 (omega arith),
        v 6 (omega arith),
        v 7 (omega arith),
      )

four_at :
    (t : ℕ → ℕ) (k : ℕ)
    → k < 4
    → coeff (map decompress10 (t 0 ∷ t 1 ∷ t 2 ∷ t 3 ∷ [])) k ≡ decompress10 (t k)
four_at t zero h = refl
four_at t (suc zero) h = refl
four_at t (suc (suc zero)) h = refl
four_at t (suc (suc (suc zero))) h = refl
four_at t (suc (suc (suc (suc k)))) h = absurd (omega arith)

eight_at :
    (t : ℕ → ℕ) (k : ℕ)
    → k < 8
    → coeff (map decompress11 (t 0 ∷ t 1 ∷ t 2 ∷ t 3 ∷ t 4 ∷ t 5 ∷ t 6 ∷ t 7 ∷ [])) k
      ≡ decompress11 (t k)
eight_at t zero h = refl
eight_at t (suc zero) h = refl
eight_at t (suc (suc zero)) h = refl
eight_at t (suc (suc (suc zero))) h = refl
eight_at t (suc (suc (suc (suc zero)))) h = refl
eight_at t (suc (suc (suc (suc (suc zero))))) h = refl
eight_at t (suc (suc (suc (suc (suc (suc zero)))))) h = refl
eight_at t (suc (suc (suc (suc (suc (suc (suc zero))))))) h = refl
eight_at t (suc (suc (suc (suc (suc (suc (suc (suc k)))))))) h = absurd (omega arith)

-- The error of the compressed first part of a ciphertext.
abbrev pub packcompress_error : ParamSet → ℕ
packcompress_error ParamSet.mlkem512 = 2
packcompress_error ParamSet.mlkem768 = 2
packcompress_error ParamSet.mlkem1024 = 1

module _ (a : Poly) (small : (i : ℕ) → i < mlkem_n → abs (coeff a i) < mlkem_q) (r : List ℕ)
    (i n : ℕ) (h : n < mlkem_n) where
  coeff10 :
      320 * i + 320 ≤ length r
      → coeff
          (poly_unpackdecompress ParamSet.mlkem512 (poly_packcompress ParamSet.mlkem512 r a i) i)
          n
        ≡ decompress10 (compress10 (coeff a n))
  unfolding poly_unpackdecompress poly_packcompress
  coeff10 fits =
      let c = poly_packcompress ParamSet.mlkem512 r a i in
      let j = n / 4 in
      let k = n % 4 in
      let at : n ≡ j * 4 + k = omega arith in
      let at' : 4 * j + k ≡ n = omega arith in
      let round : ℕ → Poly =
        λ j. map decompress10 (unpack10 λ k. get_or c (320 * i + 5 * j + k) 0) in
      ap (coeff (poly_unpackdecompress ParamSet.mlkem512 c i)) at
      ∙ get_or-emit 4 round (length-round c) (pos 0) 64 j k (omega arith) (omega arith)
      ∙ ap (λ xs. coeff (map decompress10 xs) k) (read10 a small r (320 * i) fits j (omega arith))
      ∙ four_at (λ k. compress10 (coeff a (4 * j + k))) k (omega arith)
      ∙ ap (λ m. decompress10 (compress10 (coeff a m))) at'
    where
      length-round :
          (c : List ℕ) (j : ℕ)
          → length (map decompress10 (unpack10 λ k. get_or c (320 * i + 5 * j + k) 0)) ≡ 4
      length-round c j = unfold unpack10 in refl

  coeff11 :
      352 * i + 352 ≤ length r
      → coeff
          (poly_unpackdecompress ParamSet.mlkem1024 (poly_packcompress ParamSet.mlkem1024 r a i) i)
          n
        ≡ decompress11 (compress11 (coeff a n))
  unfolding poly_unpackdecompress poly_packcompress
  coeff11 fits =
      let c = poly_packcompress ParamSet.mlkem1024 r a i in
      let j = n / 8 in
      let k = n % 8 in
      let at : n ≡ j * 8 + k = omega arith in
      let at' : 8 * j + k ≡ n = omega arith in
      let round : ℕ → Poly =
        λ j. map decompress11 (unpack11 λ k. get_or c (352 * i + 11 * j + k) 0) in
      ap (coeff (poly_unpackdecompress ParamSet.mlkem1024 c i)) at
      ∙ get_or-emit 8 round (length-round c) (pos 0) 32 j k (omega arith) (omega arith)
      ∙ ap (λ xs. coeff (map decompress11 xs) k) (read11 a small r (352 * i) fits j (omega arith))
      ∙ eight_at (λ k. compress11 (coeff a (8 * j + k))) k (omega arith)
      ∙ ap (λ m. decompress11 (compress11 (coeff a m))) at'
    where
      length-round :
          (c : List ℕ) (j : ℕ)
          → length (map decompress11 (unpack11 λ k. get_or c (352 * i + 11 * j + k) 0)) ≡ 8
      length-round c j = unfold unpack11 in refl

-- For a polynomial of coefficients of absolute value below q, and a buffer with room for polynomial
-- `i`, poly_unpackdecompress leaves from what poly_packcompress stores there nonnegative
-- coefficients that are away from the residues of the original ones, on the circle modulo q, by at
-- most 2 with MLKEM_K 2 and 3, and 1 with MLKEM_K 4.
pub poly_unpackdecompress-poly_packcompress :
    (a : Poly)
    → ((i : ℕ) → i < mlkem_n → abs (coeff a i) < mlkem_q)
    → (r : List ℕ) (ps : ParamSet) (i : ℕ)
    → mlkem_packedbytes ps * i + mlkem_packedbytes ps ≤ length r
    → (n : ℕ) → n < mlkem_n
    → Within
        (packcompress_error ps)
        (residue (coeff a n))
        (coeff (poly_unpackdecompress ps (poly_packcompress ps r a i) i) n)
unfolding poly_unpackdecompress poly_packcompress
poly_unpackdecompress-poly_packcompress a small r ParamSet.mlkem512 i fits n h =
    rw (coeff10 a small r i n h fits) ((decompress-compress_error (coeff a n) (small n h)).2)
poly_unpackdecompress-poly_packcompress a small r ParamSet.mlkem768 i fits n h =
    rw (coeff10 a small r i n h fits) ((decompress-compress_error (coeff a n) (small n h)).2)
poly_unpackdecompress-poly_packcompress a small r ParamSet.mlkem1024 i fits n h =
    rw (coeff11 a small r i n h fits) ((decompress-compress_error (coeff a n) (small n h)).3)
