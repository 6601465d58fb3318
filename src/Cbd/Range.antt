-- ===== src/Cbd/Range.antt =====
-- mlkem/cbd.c: the coefficients that the noise adds, and their range.
use mlkem_c_embedded.Base.{
  ℕ, ◌+◌, ◌*◌, ◌/◌, ◌%◌, ◌≤◌, ◌<◌, ◌≡◌, refl, ap, ◌∙◌, arith, Bool, true, false, List, [], ◌∷◌,
  length, length-emit, length-emit_one, get_or-emit, get_or-emit_one, bit_and, bit_and-le, ℤ, pos,
  negsuc, abs, int16, int16-id, ◌+ℤ◌, ◌-ℤ◌, emit, ◌>>>◌,
}
use mlkem_c_embedded.Params.{ParamSet}
use mlkem_c_embedded.Poly.{Poly, coeff}
use mlkem_c_embedded.Cbd.{
  load32_littleendian, load24_littleendian, pair_sums, triple_sums, add_noise, cbd2_coeff,
  cbd3_coeff, cbd2, cbd3, poly_cbd_eta1, poly_cbd_eta2,
}

-- A number that is added to each coefficient, or stored, and is at most `top`.
AddsTo : ℕ → (Bool → ℤ → ℤ) → Type 0
AddsTo top g = (old z : ℤ) → (g true old ≡ int16 (old +ℤ g false z)) × (abs (g false z) ≤ top)

zero_add : (x : ℤ) → pos 0 +ℤ x ≡ x
unfolding ◌+ℤ◌
zero_add (pos n) = ground arith
zero_add (negsuc n) = ground arith

difference_small : (a b top : ℕ) → a ≤ top → b ≤ top → abs (pos a -ℤ pos b) ≤ top
unfolding ◌-ℤ◌
difference_small a b top h h' = ground arith

add_noise-AddsTo :
    (a b top : ℕ) → a ≤ top → b ≤ top → top ≤ 7 → AddsTo top (λ add old. add_noise add old a b)
unfolding add_noise AddsTo
add_noise-AddsTo a b top h h' few old z =
    let d = difference_small a b top h h' in
    rw (zero_add (pos a -ℤ pos b), int16-id (pos a -ℤ pos b) (omega arith)) (refl, d)

cbd2_coeff-AddsTo : (d j : ℕ) → AddsTo 3 (λ add old. cbd2_coeff add old d j)
unfolding cbd2_coeff
cbd2_coeff-AddsTo d j =
    add_noise-AddsTo (bit_and (d >>> (4 * j + 0)) 0x3) (bit_and (d >>> (4 * j + 2)) 0x3) 3
      (bit_and-le (d >>> (4 * j + 0)) 0x3) (bit_and-le (d >>> (4 * j + 2)) 0x3) (omega arith)

cbd3_coeff-AddsTo : (d j : ℕ) → AddsTo 7 (λ add old. cbd3_coeff add old d j)
unfolding cbd3_coeff
cbd3_coeff-AddsTo d j =
    add_noise-AddsTo (bit_and (d >>> (6 * j + 0)) 0x7) (bit_and (d >>> (6 * j + 3)) 0x7) 7
      (bit_and-le (d >>> (6 * j + 0)) 0x7) (bit_and-le (d >>> (6 * j + 3)) 0x7) (omega arith)

coeff-cbd2 :
    (r : Poly) (buf : List ℕ) (add : Bool) (i : ℕ)
    → i < 256
    → coeff (cbd2 r buf add) i
      ≡ cbd2_coeff add (coeff r i) (pair_sums (load32_littleendian buf (4 * (i / 8)))) (i % 8)
unfolding cbd2
coeff-cbd2 r buf add i h =
    let round : ℕ → Poly = λ i.
      let d = pair_sums (load32_littleendian buf (4 * i)) in
      emit 8 λ j. cbd2_coeff add (coeff r (8 * i + j)) d j ∷ [] in
    let value : ℕ → ℕ → ℤ =
      λ i j. cbd2_coeff add (coeff r (8 * i + j)) (pair_sums (load32_littleendian buf (4 * i))) j in
    let at : i ≡ i / 8 * 8 + i % 8 = omega arith in
    let back : 8 * (i / 8) + i % 8 ≡ i = omega arith in
    ap (coeff (emit 32 round)) at
    ∙ get_or-emit 8 round (λ i. length-emit_one 8 (value i)) (pos 0) 32 (i / 8) (i % 8)
        (omega arith) (omega arith)
    ∙ get_or-emit_one (pos 0) 8 (value (i / 8)) (i % 8) (omega arith)
    ∙ ap
        (λ k.
          cbd2_coeff add (coeff r k) (pair_sums (load32_littleendian buf (4 * (i / 8)))) (i % 8))
        back

coeff-cbd3 :
    (r : Poly) (buf : List ℕ) (add : Bool) (i : ℕ)
    → i < 256
    → coeff (cbd3 r buf add) i
      ≡ cbd3_coeff add (coeff r i) (triple_sums (load24_littleendian buf (3 * (i / 4)))) (i % 4)
unfolding cbd3
coeff-cbd3 r buf add i h =
    let round : ℕ → Poly = λ i.
      let d = triple_sums (load24_littleendian buf (3 * i)) in
      emit 4 λ j. cbd3_coeff add (coeff r (4 * i + j)) d j ∷ [] in
    let value : ℕ → ℕ → ℤ = λ i j.
      cbd3_coeff add (coeff r (4 * i + j)) (triple_sums (load24_littleendian buf (3 * i))) j in
    let at : i ≡ i / 4 * 4 + i % 4 = omega arith in
    let back : 4 * (i / 4) + i % 4 ≡ i = omega arith in
    ap (coeff (emit 64 round)) at
    ∙ get_or-emit 4 round (λ i. length-emit_one 4 (value i)) (pos 0) 64 (i / 4) (i % 4)
        (omega arith) (omega arith)
    ∙ get_or-emit_one (pos 0) 4 (value (i / 4)) (i % 4) (omega arith)
    ∙ ap
        (λ k.
          cbd3_coeff add (coeff r k) (triple_sums (load24_littleendian buf (3 * (i / 4)))) (i % 4))
        back

length-cbd2 : (r : Poly) (buf : List ℕ) (add : Bool) → length (cbd2 r buf add) ≡ 256
unfolding cbd2
length-cbd2 r buf add =
    length-emit 8
      (λ i. emit 8 λ j.
        cbd2_coeff add (coeff r (8 * i + j)) (pair_sums (load32_littleendian buf (4 * i))) j ∷ [])
      (λ i.
        length-emit_one 8 (λ j.
          cbd2_coeff add (coeff r (8 * i + j)) (pair_sums (load32_littleendian buf (4 * i))) j))
      32

length-cbd3 : (r : Poly) (buf : List ℕ) (add : Bool) → length (cbd3 r buf add) ≡ 256
unfolding cbd3
length-cbd3 r buf add =
    length-emit 4
      (λ i. emit 4 λ j.
        cbd3_coeff add (coeff r (4 * i + j)) (triple_sums (load24_littleendian buf (3 * i))) j ∷ [])
      (λ i. length-emit_one 4 (λ j.
        cbd3_coeff add (coeff r (4 * i + j)) (triple_sums (load24_littleendian buf (3 * i))) j))
      64

-- Adding noise to a polynomial adds to each coefficient what the same bytes store without adding.
module _ (r z : Poly) (buf : List ℕ) (i : ℕ) (h : i < 256) where
  cbd2-AddsTo :
      (coeff (cbd2 r buf true) i ≡ int16 (coeff r i +ℤ coeff (cbd2 z buf false) i))
      × (abs (coeff (cbd2 z buf false) i) ≤ 3)
  unfolding AddsTo
  cbd2-AddsTo =
      rw (coeff-cbd2 r buf true i h, coeff-cbd2 z buf false i h)
        (cbd2_coeff-AddsTo (pair_sums (load32_littleendian buf (4 * (i / 8)))) (i % 8) (coeff r i)
          (coeff z i))

  cbd3-AddsTo :
      (coeff (cbd3 r buf true) i ≡ int16 (coeff r i +ℤ coeff (cbd3 z buf false) i))
      × (abs (coeff (cbd3 z buf false) i) ≤ 7)
  unfolding AddsTo
  cbd3-AddsTo =
      rw (coeff-cbd3 r buf true i h, coeff-cbd3 z buf false i h)
        (cbd3_coeff-AddsTo (triple_sums (load24_littleendian buf (3 * (i / 4)))) (i % 4) (coeff r i)
          (coeff z i))

  pub poly_cbd_eta2_lem :
      (coeff (poly_cbd_eta2 r buf true) i
        ≡ int16 (coeff r i +ℤ coeff (poly_cbd_eta2 z buf false) i))
      × (abs (coeff (poly_cbd_eta2 z buf false) i) ≤ 3)
  unfolding poly_cbd_eta2
  poly_cbd_eta2_lem = cbd2-AddsTo

  pub poly_cbd_eta1_lem :
      (ps : ParamSet)
      → (coeff (poly_cbd_eta1 ps r buf true) i
          ≡ int16 (coeff r i +ℤ coeff (poly_cbd_eta1 ps z buf false) i))
        × (abs (coeff (poly_cbd_eta1 ps z buf false) i) ≤ 7)
  unfolding poly_cbd_eta1
  poly_cbd_eta1_lem ParamSet.mlkem512 = cbd3-AddsTo
  poly_cbd_eta1_lem ParamSet.mlkem768 = (cbd2-AddsTo.0, omega (arith, cbd2-AddsTo.1))
  poly_cbd_eta1_lem ParamSet.mlkem1024 = (cbd2-AddsTo.0, omega (arith, cbd2-AddsTo.1))

pub length-poly_cbd_eta1 :
    (ps : ParamSet) (r : Poly) (buf : List ℕ) (add : Bool)
    → length (poly_cbd_eta1 ps r buf add) ≡ 256
unfolding poly_cbd_eta1
length-poly_cbd_eta1 ParamSet.mlkem512 r buf add = length-cbd3 r buf add
length-poly_cbd_eta1 ParamSet.mlkem768 r buf add = length-cbd2 r buf add
length-poly_cbd_eta1 ParamSet.mlkem1024 r buf add = length-cbd2 r buf add
