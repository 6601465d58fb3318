-- ===== src/Poly/Message.antt =====
-- poly_frommsg and poly_tomsg of mlkem/poly.c: one coefficient for each bit of a message.
pub mod Decode
use mlkem_c_embedded.Base.{
  ℕ, zero, suc, ◌+◌, ◌*◌, ◌/◌, ◌%◌, ◌^◌, List, [], ◌∷◌, get_or, bit_and, bit_or, ℤ, pos, u32, ◌<<<◌,
  ◌>>>◌, emit,
}
use mlkem_c_embedded.Params.{mlkem_q}
use mlkem_c_embedded.Poly.{Poly, coeff}
use mlkem_c_embedded.Verify.{cmov_int16}

unfoldable pub frommsg_coeff : ℕ → ℕ → ℤ
frommsg_coeff byte j = cmov_int16 (pos 0) (pos ((mlkem_q + 1) / 2)) (bit_and (byte >>> j) 1)

unfoldable pub poly_frommsg : List ℕ → Poly
poly_frommsg msg = emit 32 λ i. emit 8 λ j. frommsg_coeff (get_or msg i 0) j ∷ []

-- The bit of one coefficient; `t` is a `uint32_t`.
unfoldable pub tomsg_bit : ℤ → ℕ
tomsg_bit c =
    let t = (u32 c <<< 1) % 2 ^ 32 in
    let t' = ((t + 1665) % 2 ^ 32 * 80635) % 2 ^ 32 in bit_and (t' >>> 28) 1

-- `msg[i] |= t << j` for the rounds from `j` on; `msg[i]` is a byte.
unfoldable pub tomsg_byte : Poly → ℕ → ℕ → ℕ → ℕ → ℕ
tomsg_byte a i zero j acc = acc
tomsg_byte a i (suc left) j acc =
    tomsg_byte a i left (j + 1) (bit_or acc (tomsg_bit (coeff a (8 * i + j)) <<< j) % 2 ^ 8)

unfoldable pub poly_tomsg : Poly → List ℕ
poly_tomsg a = emit 32 λ i. tomsg_byte a i 8 0 0 ∷ []
