-- ===== src/Polyvec.antt =====
-- mlkem/polyvec.c: vectors of `MLKEM_K` polynomials.
use mlkem_c_embedded.Base.{
  ℕ, zero, suc, ◌+◌, ◌-◌, ◌*◌, false, List, [], ◌∷◌, map, get_or, drop, emit,
}
use mlkem_c_embedded.Params.{ParamSet, mlkem_k, mlkem_polybytes}
use mlkem_c_embedded.Poly.{Poly, coeff}
use mlkem_c_embedded.Poly.Bytes.{poly_tobytes, poly_frombytes}
use mlkem_c_embedded.Poly.Arith.{
  poly_ntt, poly_invntt_tomont, poly_reduce, poly_add, poly_basemul_montgomery,
}
use mlkem_c_embedded.Compress.{compress10, compress11, decompress10, decompress11}
use mlkem_c_embedded.Compress.Packing.{bytes, vec_pack10, vec_pack11, vec_unpack10, vec_unpack11}

abbrev pub Polyvec : Type 0
Polyvec = List Poly

abbrev pub entry : Polyvec → ℕ → Poly
entry v i = get_or v i []

unfoldable pub polyvec_compress : ParamSet → Polyvec → List ℕ
polyvec_compress ParamSet.mlkem1024 a =
    emit 4 λ i. emit 32 λ j. bytes (vec_pack11 λ k. compress11 (coeff (entry a i) (8 * j + k)))
polyvec_compress ParamSet.mlkem768 a =
    emit 3 λ i. emit 64 λ j. bytes (vec_pack10 λ k. compress10 (coeff (entry a i) (4 * j + k)))
polyvec_compress ParamSet.mlkem512 a =
    emit 2 λ i. emit 64 λ j. bytes (vec_pack10 λ k. compress10 (coeff (entry a i) (4 * j + k)))

-- `a` moves on by one block in each round.
unfoldable pub polyvec_decompress : ParamSet → List ℕ → Polyvec
polyvec_decompress ParamSet.mlkem1024 a =
    emit 4 λ i.
      (emit 32 λ j. map decompress11 (vec_unpack11 λ k. get_or a (11 * (32 * i + j) + k) 0)) ∷ []
polyvec_decompress ParamSet.mlkem768 a =
    emit 3 λ i.
      (emit 64 λ j. map decompress10 (vec_unpack10 λ k. get_or a (5 * (64 * i + j) + k) 0)) ∷ []
polyvec_decompress ParamSet.mlkem512 a =
    emit 2 λ i.
      (emit 64 λ j. map decompress10 (vec_unpack10 λ k. get_or a (5 * (64 * i + j) + k) 0)) ∷ []

unfoldable pub polyvec_tobytes : ParamSet → Polyvec → List ℕ
polyvec_tobytes ps a = emit (mlkem_k ps) λ i. poly_tobytes (entry a i)

unfoldable pub polyvec_frombytes : ParamSet → List ℕ → Polyvec
polyvec_frombytes ps a = emit (mlkem_k ps) λ i. poly_frombytes (drop (i * mlkem_polybytes) a) ∷ []

unfoldable pub polyvec_ntt : ParamSet → Polyvec → Polyvec
polyvec_ntt ps r = emit (mlkem_k ps) λ i. poly_ntt (entry r i) ∷ []

unfoldable pub polyvec_invntt_tomont : ParamSet → Polyvec → Polyvec
polyvec_invntt_tomont ps r = emit (mlkem_k ps) λ i. poly_invntt_tomont (entry r i) ∷ []

-- The products from index `i` on are added to `r`.
unfoldable pub basemul_acc_rounds : ℕ → ℕ → Poly → Polyvec → Polyvec → Poly
basemul_acc_rounds zero i r a b = r
basemul_acc_rounds (suc left) i r a b =
    basemul_acc_rounds left (i + 1)
      (poly_add r (poly_basemul_montgomery false [] (entry a i) (entry b i))) a b

unfoldable pub polyvec_basemul_acc_montgomery : ParamSet → Polyvec → Polyvec → Poly
polyvec_basemul_acc_montgomery ps a b =
    let first = poly_basemul_montgomery false [] (entry a 0) (entry b 0) in
    poly_reduce (basemul_acc_rounds (mlkem_k ps - 1) 1 first a b)

unfoldable pub polyvec_reduce : ParamSet → Polyvec → Polyvec
polyvec_reduce ps r = emit (mlkem_k ps) λ i. poly_reduce (entry r i) ∷ []

unfoldable pub polyvec_add : ParamSet → Polyvec → Polyvec → Polyvec
polyvec_add ps a b = emit (mlkem_k ps) λ i. poly_add (entry a i) (entry b i) ∷ []
