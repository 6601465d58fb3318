-- ===== src/Poly/Compress/Range.antt =====
-- mlkem/poly.c: the number and the range of the coefficients that poly_decompress and
-- poly_unpackdecompress leave.
use mlkem_c_embedded.Base.{
  ℕ, zero, suc, ◌+◌, ◌*◌, ◌%◌, ◌/◌, ◌≤◌, ◌<◌, ◌≡◌, refl, arith, List, [], ◌∷◌, ◌++◌, map, length,
  length-emit, get_or, get_or_past, abs, int16, emit, emit_from, IsBytes,
}
use native.Mathlib.Decide.{dec_lt}
use mlkem_c_embedded.Params.{ParamSet}
use mlkem_c_embedded.Compress.{decompress4, decompress5, decompress10, decompress11}
use mlkem_c_embedded.Compress.Packing.{unpack4, unpack5, unpack10, unpack11}
use mlkem_c_embedded.Compress.Packing.Fields.{
  unpack4_fields, unpack5_fields, unpack10_fields, unpack11_fields,
}
use mlkem_c_embedded.Poly.{Poly, coeff}
use mlkem_c_embedded.Poly.Compress.{poly_decompress, poly_unpackdecompress}

-- Every element is at most q in absolute value.
IsSmall : Poly → Type 0
IsSmall [] = 0 ≤ 0
IsSmall (x ∷ xs) = (abs x ≤ 3329) × IsSmall xs

append-IsSmall : (xs ys : Poly) → IsSmall xs → IsSmall ys → IsSmall (xs ++ ys)
unfolding IsSmall
append-IsSmall [] ys h h' = h'
append-IsSmall (x ∷ xs) ys h h' = (h.0, append-IsSmall xs ys h.1 h')

emit_from-IsSmall :
    (left i : ℕ) (f : ℕ → Poly) → ((j : ℕ) → IsSmall (f j)) → IsSmall (emit_from left i f)
unfolding emit_from IsSmall
emit_from-IsSmall zero i f h = omega arith
emit_from-IsSmall (suc left) i f h =
    append-IsSmall (f i) (emit_from left (i + 1) f) (h i) (emit_from-IsSmall left (i + 1) f h)

emit-IsSmall : (n : ℕ) (f : ℕ → Poly) → ((j : ℕ) → IsSmall (f j)) → IsSmall (emit n f)
unfolding emit
emit-IsSmall n f h = emit_from-IsSmall n 0 f h

coeff-IsSmall : (xs : Poly) (i : ℕ) → IsSmall xs → abs (coeff xs i) ≤ 3329
unfolding IsSmall
coeff-IsSmall [] i h = omega arith
coeff-IsSmall (x ∷ xs) zero h = h.0
coeff-IsSmall (x ∷ xs) (suc i) h = coeff-IsSmall xs i h.1

decompress4_bound : (t : ℕ) → t < 16 → abs (decompress4 t) ≤ 3329
unfolding decompress4 int16
decompress4_bound t h = ground arith

decompress5_bound : (t : ℕ) → t < 32 → abs (decompress5 t) ≤ 3329
unfolding decompress5 int16
decompress5_bound t h = ground arith

decompress10_bound : (t : ℕ) → t < 1024 → abs (decompress10 t) ≤ 3329
unfolding decompress10 int16
decompress10_bound t h = ground arith

decompress11_bound : (t : ℕ) → t < 2048 → abs (decompress11 t) ≤ 3329
unfolding decompress11 int16
decompress11_bound t h = ground arith

module _ (b : ℕ → ℕ) (h : (i : ℕ) → b i < 256) where
  decompress4-IsSmall : IsSmall (map decompress4 (unpack4 b))
  unfolding IsSmall
  decompress4-IsSmall =
      let h0 = h 0 in
      rw (unpack4_fields b h0) (
        decompress4_bound (b 0 % 16) (omega arith),
        (decompress4_bound (b 0 / 16) (omega arith), omega arith),
      )

  decompress5-IsSmall : IsSmall (map decompress5 (unpack5 b))
  unfolding IsSmall
  decompress5-IsSmall =
      let h0 = h 0 in
      let h1 = h 1 in
      let h2 = h 2 in
      let h3 = h 3 in
      let h4 = h 4 in
      rw (unpack5_fields b (h0, h1, h2, h3, h4)) (
        decompress5_bound (b 0 % 32) (omega arith),
        (
          decompress5_bound (b 0 / 32 + b 1 % 4 * 8) (omega arith),
          (
            decompress5_bound (b 1 / 4 % 32) (omega arith),
            (
              decompress5_bound (b 1 / 128 + b 2 % 16 * 2) (omega arith),
              (
                decompress5_bound (b 2 / 16 + b 3 % 2 * 16) (omega arith),
                (
                  decompress5_bound (b 3 / 2 % 32) (omega arith),
                  (
                    decompress5_bound (b 3 / 64 + b 4 % 8 * 4) (omega arith),
                    (decompress5_bound (b 4 / 8) (omega arith), omega arith),
                  ),
                ),
              ),
            ),
          ),
        ),
      )

  decompress10-IsSmall : IsSmall (map decompress10 (unpack10 b))
  unfolding IsSmall
  decompress10-IsSmall =
      let h0 = h 0 in
      let h1 = h 1 in
      let h2 = h 2 in
      let h3 = h 3 in
      let h4 = h 4 in
      rw (unpack10_fields b (h0, h1, h2, h3, h4)) (
        decompress10_bound (b 0 + b 1 % 4 * 256) (omega arith),
        (
          decompress10_bound (b 1 / 4 + b 2 % 16 * 64) (omega arith),
          (
            decompress10_bound (b 2 / 16 + b 3 % 64 * 16) (omega arith),
            (decompress10_bound (b 3 / 64 + b 4 * 4) (omega arith), omega arith),
          ),
        ),
      )

  decompress11-IsSmall : IsSmall (map decompress11 (unpack11 b))
  unfolding IsSmall
  decompress11-IsSmall =
      let h0 = h 0 in
      let h1 = h 1 in
      let h2 = h 2 in
      let h3 = h 3 in
      let h4 = h 4 in
      let h5 = h 5 in
      let h6 = h 6 in
      let h7 = h 7 in
      let h8 = h 8 in
      let h9 = h 9 in
      let h10 = h 10 in
      rw (unpack11_fields b (h0, h1, h2, h3, h4, h5, h6, h7, h8, h9, h10)) (
        decompress11_bound (b 0 + b 1 % 8 * 256) (omega arith),
        (
          decompress11_bound (b 1 / 8 + b 2 % 64 * 32) (omega arith),
          (
            decompress11_bound (b 2 / 64 + b 3 * 4 + b 4 % 2 * 1024) (omega arith),
            (
              decompress11_bound (b 4 / 2 + b 5 % 16 * 128) (omega arith),
              (
                decompress11_bound (b 5 / 16 + b 6 % 128 * 16) (omega arith),
                (
                  decompress11_bound (b 6 / 128 + b 7 * 2 + b 8 % 4 * 512) (omega arith),
                  (
                    decompress11_bound (b 8 / 4 + b 9 % 32 * 64) (omega arith),
                    (decompress11_bound (b 9 / 32 + b 10 * 8) (omega arith), omega arith),
                  ),
                ),
              ),
            ),
          ),
        ),
      )

module _ (c : List ℕ) (bc : IsBytes c) where
  byte : (i : ℕ) → get_or c i 0 < 256
  byte i = elim (dec_lt i (length c)) [
    | yes p ↦ bc i p
    | no p ↦ rw (get_or_past c i 0 (omega arith)) (omega arith)
  ]

  pub poly_unpackdecompress_bound :
      (ps : ParamSet) (i j : ℕ) → abs (coeff (poly_unpackdecompress ps c i) j) ≤ 3329
  unfolding poly_unpackdecompress
  poly_unpackdecompress_bound ParamSet.mlkem1024 i j =
      coeff-IsSmall (poly_unpackdecompress ParamSet.mlkem1024 c i) j (
        emit-IsSmall 32 (λ j. map decompress11 (unpack11 λ k. get_or c (352 * i + 11 * j + k) 0))
          λ j.
            decompress11-IsSmall (λ k. get_or c (352 * i + 11 * j + k) 0)
              λ k. byte (352 * i + 11 * j + k))
  poly_unpackdecompress_bound ParamSet.mlkem768 i j =
      coeff-IsSmall (poly_unpackdecompress ParamSet.mlkem768 c i) j (
        emit-IsSmall 64 (λ j. map decompress10 (unpack10 λ k. get_or c (320 * i + 5 * j + k) 0))
          λ j.
            decompress10-IsSmall (λ k. get_or c (320 * i + 5 * j + k) 0)
              λ k. byte (320 * i + 5 * j + k))
  poly_unpackdecompress_bound ParamSet.mlkem512 i j =
      coeff-IsSmall (poly_unpackdecompress ParamSet.mlkem512 c i) j (
        emit-IsSmall 64 (λ j. map decompress10 (unpack10 λ k. get_or c (320 * i + 5 * j + k) 0))
          λ j.
            decompress10-IsSmall (λ k. get_or c (320 * i + 5 * j + k) 0)
              λ k. byte (320 * i + 5 * j + k))

  pub poly_decompress_bound : (ps : ParamSet) (j : ℕ) → abs (coeff (poly_decompress ps c) j) ≤ 3329
  unfolding poly_decompress
  poly_decompress_bound ParamSet.mlkem1024 j =
      coeff-IsSmall (poly_decompress ParamSet.mlkem1024 c) j (
        emit-IsSmall 32 (λ i. map decompress5 (unpack5 λ k. get_or c (5 * i + k) 0))
          λ i. decompress5-IsSmall (λ k. get_or c (5 * i + k) 0) λ k. byte (5 * i + k))
  poly_decompress_bound ParamSet.mlkem768 j =
      coeff-IsSmall (poly_decompress ParamSet.mlkem768 c) j (
        emit-IsSmall 128 (λ i. map decompress4 (unpack4 λ k. get_or c (i + k) 0))
          λ i. decompress4-IsSmall (λ k. get_or c (i + k) 0) λ k. byte (i + k))
  poly_decompress_bound ParamSet.mlkem512 j =
      coeff-IsSmall (poly_decompress ParamSet.mlkem512 c) j (
        emit-IsSmall 128 (λ i. map decompress4 (unpack4 λ k. get_or c (i + k) 0))
          λ i. decompress4-IsSmall (λ k. get_or c (i + k) 0) λ k. byte (i + k))

pub length-poly_unpackdecompress :
    (ps : ParamSet) (c : List ℕ) (i : ℕ) → length (poly_unpackdecompress ps c i) ≡ 256
unfolding poly_unpackdecompress unpack10 unpack11
length-poly_unpackdecompress ParamSet.mlkem1024 c i =
    length-emit 8 (λ j. map decompress11 (unpack11 λ k. get_or c (352 * i + 11 * j + k) 0))
      (λ j. refl) 32
length-poly_unpackdecompress ParamSet.mlkem768 c i =
    length-emit 4 (λ j. map decompress10 (unpack10 λ k. get_or c (320 * i + 5 * j + k) 0))
      (λ j. refl) 64
length-poly_unpackdecompress ParamSet.mlkem512 c i =
    length-emit 4 (λ j. map decompress10 (unpack10 λ k. get_or c (320 * i + 5 * j + k) 0))
      (λ j. refl) 64
