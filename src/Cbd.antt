-- ===== src/Cbd.antt =====
-- mlkem/cbd.c: coefficients of the centered binomial distribution from random bytes.
pub mod Range
use mlkem_c_embedded.Base.{
  ℕ, ◌+◌, ◌*◌, ◌%◌, ◌^◌, Bool, if◌then◌else◌, List, [], ◌∷◌, get_or, bit_and, bit_or, ℤ, pos, int16,
  ◌+ℤ◌, ◌-ℤ◌, ◌<<<◌, ◌>>>◌, emit,
}
use mlkem_c_embedded.Params.{ParamSet}
use mlkem_c_embedded.Poly.{Poly, coeff}

unfoldable pub load32_littleendian : List ℕ → ℕ → ℕ
load32_littleendian x o =
    bit_or (bit_or (bit_or (get_or x o 0) (get_or x (o + 1) 0 <<< 8)) (get_or x (o + 2) 0 <<< 16))
      (get_or x (o + 3) 0 <<< 24)

unfoldable pub load24_littleendian : List ℕ → ℕ → ℕ
load24_littleendian x o =
    bit_or (bit_or (get_or x o 0) (get_or x (o + 1) 0 <<< 8)) (get_or x (o + 2) 0 <<< 16)

-- Sums of two neighbouring bits, and of three.
unfoldable pub pair_sums : ℕ → ℕ
pair_sums t = (bit_and t 0x55555555 + bit_and (t >>> 1) 0x55555555) % 2 ^ 32

unfoldable pub triple_sums : ℕ → ℕ
triple_sums t =
    let d = bit_and t 0x00249249 in
    let d' = (d + bit_and (t >>> 1) 0x00249249) % 2 ^ 32 in
    (d' + bit_and (t >>> 2) 0x00249249) % 2 ^ 32

-- `if (!add) coeffs[i] = 0; coeffs[i] += a - b`, with `a` and `b` of type `int16_t`.
unfoldable pub add_noise : Bool → ℤ → ℕ → ℕ → ℤ
add_noise add old a b = int16 ((if add then old else pos 0) +ℤ (pos a -ℤ pos b))

unfoldable pub cbd2_coeff : Bool → ℤ → ℕ → ℕ → ℤ
cbd2_coeff add old d j =
    add_noise add old (bit_and (d >>> (4 * j + 0)) 0x3) (bit_and (d >>> (4 * j + 2)) 0x3)

unfoldable pub cbd3_coeff : Bool → ℤ → ℕ → ℕ → ℤ
cbd3_coeff add old d j =
    add_noise add old (bit_and (d >>> (6 * j + 0)) 0x7) (bit_and (d >>> (6 * j + 3)) 0x7)

unfoldable pub cbd2 : Poly → List ℕ → Bool → Poly
cbd2 r buf add = emit 32 λ i.
    let d = pair_sums (load32_littleendian buf (4 * i)) in
    emit 8 λ j. cbd2_coeff add (coeff r (8 * i + j)) d j ∷ []

unfoldable pub cbd3 : Poly → List ℕ → Bool → Poly
cbd3 r buf add = emit 64 λ i.
    let d = triple_sums (load24_littleendian buf (3 * i)) in
    emit 4 λ j. cbd3_coeff add (coeff r (4 * i + j)) d j ∷ []

unfoldable pub poly_cbd_eta1 : ParamSet → Poly → List ℕ → Bool → Poly
poly_cbd_eta1 ParamSet.mlkem512 r buf add = cbd3 r buf add
poly_cbd_eta1 ParamSet.mlkem768 r buf add = cbd2 r buf add
poly_cbd_eta1 ParamSet.mlkem1024 r buf add = cbd2 r buf add

unfoldable pub poly_cbd_eta2 : Poly → List ℕ → Bool → Poly
poly_cbd_eta2 r buf add = cbd2 r buf add
