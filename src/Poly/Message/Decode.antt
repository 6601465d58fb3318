-- ===== src/Poly/Message/Decode.antt =====
-- mlkem/poly.c: poly_tomsg against poly_frommsg.
use mlkem_c_embedded.Base.{
  ℕ, zero, suc, ◌+◌, ◌-◌, ◌*◌, ◌/◌, ◌%◌, ◌^◌, ◌≤◌, ◌<◌, ◌≡◌, ◌∙◌, sym, ap, ap₂, refl, arith, List,
  [], ◌∷◌, length, get_or, bit_and, bit_or, bit_or_low, bit_and_mask, ℤ, pos, negsuc, abs, ◌<<<◌,
  ◌>>>◌, emit, get_or-emit, get_or-emit_one, length-emit_one, emit_eq, IsBytes,
}
use native.Mathlib.Nat.{one-le-pow, mod-le, mod-lt}
use mlkem_c_embedded.Params.{mlkem_n, mlkem_q}
use mlkem_c_embedded.Reduce.Bounds.{residue}
use mlkem_c_embedded.Compress.Rounding.{nearest}
use mlkem_c_embedded.Poly.{Poly, coeff}
use mlkem_c_embedded.Verify.Select.{cmov_int16_lem}
use mlkem_c_embedded.Poly.Message.{frommsg_coeff, poly_frommsg, tomsg_bit, tomsg_byte, poly_tomsg}

-- For a coefficient between -1664 and 1664, the bit of poly_tomsg is twice its residue divided by q
-- and rounded to the nearest integer, modulo 2.
pub tomsg_bit_lem : (c : ℤ) → abs c ≤ 1664 → tomsg_bit c ≡ nearest 1 (residue c)
unfolding tomsg_bit
tomsg_bit_lem (pos n) h = ground (
  arith,
  bit_and_mask 1 ((((n % 2 ^ 32) <<< 1) % 2 ^ 32 + 1665) % 2 ^ 32 * 80635 % 2 ^ 32 >>> 28),
)
tomsg_bit_lem (negsuc n) h = ground (
  arith,
  bit_and_mask 1
      (((((2 ^ 32 - 1 - n % 2 ^ 32) <<< 1) % 2 ^ 32 + 1665) % 2 ^ 32 * 80635) % 2 ^ 32 >>> 28),
)

-- A bit that is sent as 0 or 1665 arrives, as long as the noise is at most 831.
pub tomsg_bit_noise :
    (b : ℕ) (c e : ℤ)
    → b ≤ 1
    → abs c ≤ 1664
    → abs e ≤ 831
    → residue c ≡ (1665 * b + residue e) % mlkem_q
    → tomsg_bit c ≡ b
tomsg_bit_noise b c (pos n) hb hc he h = omega (arith, tomsg_bit_lem c hc)
tomsg_bit_noise b c (negsuc n) hb hc he h = omega (arith, tomsg_bit_lem c hc)

frommsg_coeff_lem : (byte j : ℕ) → frommsg_coeff byte j ≡ pos (1665 * (byte / 2 ^ j % 2))
unfolding frommsg_coeff
frommsg_coeff_lem byte j =
    let bit : bit_and (byte >>> j) 1 ≡ byte / 2 ^ j % 2 =
      omega (arith, bit_and_mask 1 (byte >>> j)) in
    rw bit (
      cmov_int16_lem (pos 0) (pos 1665) (byte / 2 ^ j % 2) (omega arith) (omega arith) (omega arith)
      ∙ ground arith)

-- One round of the loop that collects a byte.
collect : (acc t j : ℕ) → acc < 2 ^ j → bit_or acc (t <<< j) ≡ acc + t * 2 ^ j
collect acc t j h = bit_or_low j acc t h

digit : (m j : ℕ) → j < 8 → m % 2 ^ (j + 1) ≡ m % 2 ^ j + m / 2 ^ j % 2 * 2 ^ j
digit m zero h = omega arith
digit m (suc (zero)) h = omega arith
digit m (suc (suc (zero))) h = omega arith
digit m (suc (suc (suc (zero)))) h = omega arith
digit m (suc (suc (suc (suc (zero))))) h = omega arith
digit m (suc (suc (suc (suc (suc (zero)))))) h = omega arith
digit m (suc (suc (suc (suc (suc (suc (zero))))))) h = omega arith
digit m (suc (suc (suc (suc (suc (suc (suc (zero)))))))) h = omega arith
digit m (suc (suc (suc (suc (suc (suc (suc (suc j)))))))) h = absurd (omega arith)

-- The loop at bit `j`, when it has collected the bits of `m` below it.
tomsg_byte_lem :
    (a : Poly) (i m left j acc : ℕ)
    → m < 256
    → ((k : ℕ) → k < 8 → tomsg_bit (coeff a (8 * i + k)) ≡ m / 2 ^ k % 2)
    → j + left ≡ 8
    → acc ≡ m % 2 ^ j
    → tomsg_byte a i left j acc ≡ m
unfolding tomsg_byte
tomsg_byte_lem a i m zero j acc hm bits e h =
    let e8 : j ≡ 8 = omega arith in
    let h8 : acc ≡ m % 2 ^ 8 = h ∙ ap (λ (k : ℕ). m % 2 ^ k) e8 in omega arith
tomsg_byte_lem a i m (suc left) j acc hm bits e h =
    let t = tomsg_bit (coeff a (8 * i + j)) in
    let below : acc < 2 ^ j =
      omega (arith, one-le-pow j 2, mod-lt m {m = 2 ^ j} (omega (arith, one-le-pow j 2))) in
    let upto : bit_or acc (t <<< j) ≡ m % 2 ^ (j + 1) =
      collect acc t j below
      ∙ ap₂ (λ (x y : ℕ). x + y * 2 ^ j) h (bits j (omega arith))
      ∙ sym (digit m j (omega arith)) in
    let small : m % 2 ^ (j + 1) ≤ m = mod-le m (2 ^ (j + 1)) in
    tomsg_byte_lem a i m left (j + 1) (bit_or acc (t <<< j) % 2 ^ 8) hm bits (omega arith)
      (omega arith)

pub coeff-poly_frommsg :
    (msg : List ℕ) (i k : ℕ)
    → i < 32
    → k < 8
    → coeff (poly_frommsg msg) (8 * i + k) ≡ pos (1665 * (get_or msg i 0 / 2 ^ k % 2))
unfolding poly_frommsg
coeff-poly_frommsg msg i k h h' =
    let block : ℕ → List ℤ = λ i. emit 8 λ j. frommsg_coeff (get_or msg i 0) j ∷ [] in
    let at : 8 * i + k ≡ i * 8 + k = omega arith in
    ap (λ n. get_or (emit 32 block) n (pos 0)) at
    ∙ get_or-emit 8 block (λ i. length-emit_one 8 (frommsg_coeff (get_or msg i 0))) (pos 0) 32 i k h
        h'
    ∙ get_or-emit_one (pos 0) 8 (frommsg_coeff (get_or msg i 0)) k h'
    ∙ frommsg_coeff_lem (get_or msg i 0) k

-- For a message of 32 bytes, noise of absolute value at most 831, and a polynomial with coefficients
-- between -1664 and 1664 that are modulo q those of poly_frommsg plus the noise, poly_tomsg returns
-- the message.
pub poly_tomsg-poly_frommsg :
    (msg : List ℕ) (noise : ℕ → ℤ) (a : Poly)
    → length msg ≡ 32
    → IsBytes msg
    → ((i : ℕ) → i < mlkem_n → abs (noise i) ≤ 831)
    → ((i : ℕ) → i < mlkem_n → abs (coeff a i) ≤ 1664)
    → ((i : ℕ)
        → i < mlkem_n
        → residue (coeff a i)
          ≡ (residue (coeff (poly_frommsg msg) i) + residue (noise i)) % mlkem_q)
    → poly_tomsg a ≡ msg
unfolding poly_tomsg
poly_tomsg-poly_frommsg msg noise a lm bm small reduced close =
    emit_eq 1 (λ i. tomsg_byte a i 8 0 0 ∷ []) (λ i. refl) 0 32 msg (omega arith) (lm ∙ omega arith)
      λ i k below one.
        let k0 : k ≡ 0 = omega arith in
        let at : i ≡ i * 1 + k = omega arith in
        let m : ℕ = get_or msg i 0 in
        ap (λ n. get_or (tomsg_byte a i 8 0 0 ∷ []) n 0) k0
        ∙ tomsg_byte_lem a i m 8 0 0 (bm i (omega arith))
            (λ j l.
              let n : ℕ = 8 * i + j in
              let ln : n < mlkem_n = omega arith in
              tomsg_bit_noise (m / 2 ^ j % 2) (coeff a n) (noise n) (omega arith) (reduced n ln)
                (small n ln)
                (let c = ap residue (coeff-poly_frommsg msg i j below l) in
                  omega (arith, close n ln, c)))
            (omega arith) (omega arith)
        ∙ ap (λ n. get_or msg n 0) at
