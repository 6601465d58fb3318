-- ===== src/Indcpa/Decrypt.antt =====
-- mlkem/indcpa.c: what indcpa_dec returns.
use mlkem_c_embedded.Base.{
  ℕ, zero, suc, ◌+◌, ◌-◌, ◌*◌, ◌%◌, ◌≤◌, ◌<◌, ◌≡◌, ap, ◌∙◌, arith, true, false, List, length, drop,
  get_or-drop, get_or_past, get_or-emit_one, IsBytes, ℤ, pos, abs, int16, int16-id, ◌-ℤ◌, abs--ℤ,
  abs-IsInt16,
}
use native.Mathlib.Decide.{dec_lt}
use mlkem_c_embedded.Params.{
  ParamSet, mlkem_k, mlkem_n, mlkem_q, mlkem_polybytes, mlkem_polyveccompressedbytes,
}
use mlkem_c_embedded.Reduce.Bounds.{residue, residue-lt}
use mlkem_c_embedded.Ntt.Field.{residue--ℤ}
use mlkem_c_embedded.Poly.{Poly, coeff}
use mlkem_c_embedded.Poly.Bytes.{poly_frombytes}
use mlkem_c_embedded.Poly.Bytes.Coeffs.{poly_frombytes_bound}
use mlkem_c_embedded.Poly.Compress.{poly_decompress, poly_unpackdecompress}
use mlkem_c_embedded.Poly.Compress.Range.{
  poly_unpackdecompress_bound, poly_decompress_bound, length-poly_unpackdecompress,
}
use mlkem_c_embedded.Poly.Message.{poly_frommsg}
use mlkem_c_embedded.Poly.Message.Decode.{poly_tomsg-poly_frommsg}
use mlkem_c_embedded.Poly.Arith.{
  poly_ntt, poly_invntt_tomont, poly_reduce, poly_sub, poly_basemul_montgomery,
  poly_frombytes_basemul_montgomery,
}
use mlkem_c_embedded.Poly.Arith.Bounds.{poly_reduce_lem}
use mlkem_c_embedded.Poly.Arith.FromBytes.{poly_frombytes_basemul_montgomery_lem}
use mlkem_c_embedded.Poly.Arith.Image.{IsNttOf}
use mlkem_c_embedded.Poly.Arith.Inner.{
  IsInput, IsInner, inner_product, residue-IsInner, abs-IsInner, next-IsInner, first-IsInner,
}
use mlkem_c_embedded.Indcpa.{blank, dec_products, indcpa_dec}

-- The bytes `sk` hold the transforms of the polynomials of `s`.
pub record IsKeyOf (ps : ParamSet) (s : ℕ → Poly) (sk : List ℕ) : Type 0 where
  pub input : (j : ℕ) → j < mlkem_k ps → IsInput (s j)
  pub same :
      (j : ℕ) → j < mlkem_k ps → IsNttOf (s j) (poly_frombytes (drop (j * mlkem_polybytes) sk))

module _ (ps : ParamSet) (s : ℕ → Poly) (c sk : List ℕ) (bc : IsBytes c)
    (key : IsKeyOf ps s sk) where
  unpacked-IsInput : (j : ℕ) → IsInput (poly_unpackdecompress ps c j)
  unpacked-IsInput j = record {
    full = length-poly_unpackdecompress ps c j;
    small = λ i h. omega (arith, poly_unpackdecompress_bound c bc ps j i);
  }

  dec_products-IsInner :
      (left j : ℕ) (mp : Poly)
      → j + left ≤ mlkem_k ps
      → mlkem_k ps ≤ 4
      → IsInner s (poly_unpackdecompress ps c) j mp
      → IsInner s (poly_unpackdecompress ps c) (j + left) (dec_products ps left j c sk mp)
  unfolding dec_products
  dec_products-IsInner zero j mp h k m = let z : j + 0 ≡ j = omega arith in rw z m
  dec_products-IsInner (suc left) j mp h k m =
      let u = poly_unpackdecompress ps c in
      let hat = poly_frombytes (drop (j * mlkem_polybytes) sk) in
      let n : j + suc left ≡ j + 1 + left = omega arith in
      rw
        (
          n,
          poly_frombytes_basemul_montgomery_lem true mp (poly_ntt (u j))
              (drop (j * mlkem_polybytes) sk),
        )
        (dec_products-IsInner left (j + 1) (poly_basemul_montgomery true mp hat (poly_ntt (u j)))
          (omega arith) k
          (next-IsInner s u j hat (key.input j (omega arith)) (unpacked-IsInput j)
            (poly_frombytes_bound (drop (j * mlkem_polybytes) sk)) (key.same j (omega arith)) mp
            (omega arith) m))

pub few_entries : (ps : ParamSet) → (2 ≤ mlkem_k ps) × (mlkem_k ps ≤ 4)
few_entries ParamSet.mlkem512 = (omega arith, omega arith)
few_entries ParamSet.mlkem768 = (omega arith, omega arith)
few_entries ParamSet.mlkem1024 = (omega arith, omega arith)

-- The sum of the products that indcpa_dec passes to poly_invntt_tomont.
pub dec_sum : ParamSet → List ℕ → List ℕ → Poly
dec_sum ps c sk =
    dec_products ps (mlkem_k ps - 1) 1 c sk
      (poly_frombytes_basemul_montgomery false blank (poly_ntt (poly_unpackdecompress ps c 0)) sk)

dec_sum-IsInner :
    (ps : ParamSet) (s : ℕ → Poly) (c sk : List ℕ)
    → IsBytes c
    → IsKeyOf ps s sk
    → IsInner s (poly_unpackdecompress ps c) (mlkem_k ps) (dec_sum ps c sk)
unfolding dec_sum
dec_sum-IsInner ps s c sk bc key =
    let u = poly_unpackdecompress ps c in
    let k = few_entries ps in
    let n : mlkem_k ps ≡ 1 + (mlkem_k ps - 1) = omega arith in
    let first =
      first-IsInner s u (poly_frombytes sk) blank (key.input 0 (omega arith))
        (unpacked-IsInput ps s c sk bc key 0) (poly_frombytes_bound sk)
        (key.same 0 (omega arith)) in
    let all =
      dec_products-IsInner ps s c sk bc key (mlkem_k ps - 1) 1
        (poly_basemul_montgomery false blank (poly_frombytes sk) (poly_ntt (u 0))) (omega arith) k.1
        first in
    rw (poly_frombytes_basemul_montgomery_lem false blank (poly_ntt (u 0)) sk) (rw (← n) at all)

drop-IsBytes : (n : ℕ) (c : List ℕ) → IsBytes c → IsBytes (drop n c)
drop-IsBytes n c bc i h = elim (dec_lt (n + i) (length c)) [
  | yes p ↦ rw (get_or-drop n c i 0) (bc (n + i) p)
  | no p ↦ rw (get_or-drop n c i 0, get_or_past c (n + i) 0 (omega arith)) (omega arith)
]

coeff-poly_sub :
    (a b : Poly) (i : ℕ) → i < mlkem_n → coeff (poly_sub a b) i ≡ int16 (coeff a i -ℤ coeff b i)
unfolding poly_sub
coeff-poly_sub a b i h = get_or-emit_one (pos 0) mlkem_n (λ i. int16 (coeff a i -ℤ coeff b i)) i h

-- The difference of two small polynomials, reduced.
reduced_difference :
    (v p : Poly) (i : ℕ)
    → i < mlkem_n
    → abs (coeff v i) ≤ 3329
    → abs (coeff p i) ≤ 2025
    → (residue (coeff (poly_reduce (poly_sub v p)) i)
        ≡ (residue (coeff v i) + 3328 * residue (coeff p i)) % mlkem_q)
      × (abs (coeff (poly_reduce (poly_sub v p)) i) ≤ 1664)
reduced_difference v p i h hv hp =
    let d = coeff v i -ℤ coeff p i in
    let small : abs d < 32768 = omega (arith, abs--ℤ (coeff v i) (coeff p i)) in
    let e : coeff (poly_sub v p) i ≡ d = coeff-poly_sub v p i h ∙ int16-id d small in
    let r = poly_reduce_lem (poly_sub v p) i h (rw e (abs-IsInt16 d small)) in
    (omega (arith, r.0, ap residue e, residue--ℤ (coeff v i) (coeff p i), residue-lt d), r.1)

-- For a secret key that holds the transforms of polynomials s_j of 256 coefficients of absolute value
-- at most 15295, a message of 32 bytes, and a ciphertext of bytes whose second part is modulo q and
-- modulo x^256 + 1 the message as poly_frommsg encodes it, plus the products of the s_j with the
-- first part, plus noise of absolute value at most 831, indcpa_dec returns the message, for each of
-- the three parameter sets.
pub indcpa_dec_lem :
    (ps : ParamSet) (s : ℕ → Poly) (c sk m : List ℕ) (noise : ℕ → ℤ)
    → IsBytes c
    → IsKeyOf ps s sk
    → length m ≡ 32
    → IsBytes m
    → ((i : ℕ) → i < mlkem_n → abs (noise i) ≤ 831)
    → ((i : ℕ)
        → i < mlkem_n
        → residue (coeff (poly_decompress ps (drop (mlkem_polyveccompressedbytes ps) c)) i)
          ≡ (residue (coeff (poly_frommsg m) i)
              + residue (inner_product (mlkem_k ps) s (poly_unpackdecompress ps c) i)
              + residue (noise i))
            % mlkem_q)
    → indcpa_dec ps c sk ≡ m
unfolding indcpa_dec dec_sum
indcpa_dec_lem ps s c sk m noise bc key lm bm small near =
    let v = poly_decompress ps (drop (mlkem_polyveccompressedbytes ps) c) in
    let u = poly_unpackdecompress ps c in
    let p = poly_invntt_tomont (dec_sum ps c sk) in
    let inner = dec_sum-IsInner ps s c sk bc key in
    let difference = λ (i : ℕ) (h : i < mlkem_n).
      reduced_difference v p i h
        (poly_decompress_bound (drop (mlkem_polyveccompressedbytes ps) c)
          (drop-IsBytes (mlkem_polyveccompressedbytes ps) c bc) ps i)
        (abs-IsInner s u (mlkem_k ps) (dec_sum ps c sk) (few_entries ps).1 inner i h) in
    poly_tomsg-poly_frommsg m noise (poly_reduce (poly_sub v p)) lm bm small
      (λ i h. (difference i h).1)
      (λ i h. omega (
        arith,
        (difference i h).0,
        near i h,
        residue-IsInner s u (mlkem_k ps) (dec_sum ps c sk) (few_entries ps).1 inner i h,
      ))
