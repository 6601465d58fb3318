-- ===== src/Poly/Bytes/RoundTrip.antt =====
-- mlkem/poly.c: poly_tobytes and poly_frombytes, one after the other.
use mlkem_c_embedded.Base.{
  signed16, zero-bit_and, ℕ, zero, suc, ◌+◌, ◌-◌, ◌*◌, ◌/◌, ◌%◌, ◌^◌, ◌≤◌, ◌<◌, ◌≡◌, ◌∙◌, ap, refl,
  arith, List, [], ◌∷◌, length, get_or, ℤ, pos, negsuc, abs, u16, int16, IsBytes, bit_or_low,
  bit_and_mask, length-emit, get_or-emit, emit_eq,
}
use mathlib.Core.Path.{subst}
use native.Mathlib.Decide.{ℕ_discrete}
use mlkem_c_embedded.Params.{mlkem_q, mlkem_n, mlkem_polybytes}
use mlkem_c_embedded.Reduce.Bounds.{residue, residue-lt}
use mlkem_c_embedded.Poly.{Poly, coeff, positive16}
use mlkem_c_embedded.Poly.Bytes.{
  tobytes_block, tobytes_round, poly_tobytes, frombytes_block, frombytes_round, poly_frombytes,
}

positive16_low : (t : ℕ) → t < 2 ^ 15 → positive16 t ≡ t
unfolding positive16
positive16_low t h =
    let e : signed16 t ≡ pos t = ground arith in
    let e' : t / 2 ^ 15 ≡ 0 = omega arith in rw e (rw e' (omega (arith, zero-bit_and mlkem_q)))

positive16_high : (t : ℕ) → 2 ^ 15 ≤ t → t < 2 ^ 16 → positive16 t ≡ (t + mlkem_q) % 2 ^ 16
unfolding positive16
positive16_high t h h' =
    let e : signed16 t ≡ negsuc (2 ^ 16 - t - 1) = ground arith in
    let e' : (2 ^ 16 - t - 1) / 2 ^ 15 ≡ 0 = omega arith in rw e (rw e' refl)

-- `t += (t >> 15) & q` gives the residue of a coefficient between -q and q.
pub positive16-residue : (c : ℤ) → abs c < mlkem_q → positive16 (u16 c) ≡ residue c
positive16-residue (pos n) h = omega (arith, positive16_low (n % 2 ^ 16))
positive16-residue (negsuc n) h = omega (arith, positive16_high (2 ^ 16 - 1 - n % 2 ^ 16))

tobytes_block_lem :
    (t0 t1 : ℕ)
    → t0 < 4096
    → t1 < 4096
    → tobytes_block t0 t1 ≡ t0 % 256 ∷ (t0 / 256 + t1 % 16 * 16) ∷ t1 / 16 ∷ []
unfolding tobytes_block
tobytes_block_lem t0 t1 h h' = ground (arith, bit_or_low 4 (t0 / 256) t1)

frombytes_block_lem :
    (b0 b1 b2 : ℕ)
    → b0 < 256
    → b1 < 256
    → b2 < 256
    → frombytes_block b0 b1 b2 ≡ pos (b0 + b1 % 16 * 256) ∷ pos (b1 / 16 + b2 * 16) ∷ []
unfolding frombytes_block int16
frombytes_block_lem b0 b1 b2 h h' h'' = ground (
  arith,
  bit_or_low 8 (b0 / 1) b1,
  bit_or_low 4 (b1 / 16) b2,
  bit_and_mask 12 (b0 + b1 * 256),
  bit_and_mask 12 (b1 / 16 + b2 * 16),
)

-- A number is twice its half, or one more.
pub parity {ℓ} : (P : ℕ → Type ℓ) (i : ℕ) → P (2 * (i / 2)) → P (2 * (i / 2) + 1) → P i
parity P i even odd = elim (ℕ_discrete (i % 2) 0) [
  | yes e ↦ let at : 2 * (i / 2) ≡ i = omega arith in subst P at even
  | no e ↦ let at : 2 * (i / 2) + 1 ≡ i = omega arith in subst P at odd
]

-- What round `j` reads: twelve bits for each of two coefficients.
abbrev pub low12 : List ℕ → ℕ → ℕ
low12 a j = get_or a (3 * j + 0) 0 + get_or a (3 * j + 1) 0 % 16 * 256

abbrev pub high12 : List ℕ → ℕ → ℕ
high12 a j = get_or a (3 * j + 1) 0 / 16 + get_or a (3 * j + 2) 0 * 16

length-tobytes_round : (p : Poly) (i : ℕ) → length (tobytes_round p i) ≡ 3
unfolding tobytes_round tobytes_block
length-tobytes_round p i = refl

length-frombytes_round : (a : List ℕ) (i : ℕ) → length (frombytes_round a i) ≡ 2
unfolding frombytes_round frombytes_block
length-frombytes_round a i = refl

pub length-poly_tobytes : (p : Poly) → length (poly_tobytes p) ≡ mlkem_polybytes
unfolding poly_tobytes
length-poly_tobytes p = length-emit 3 (tobytes_round p) (length-tobytes_round p) 128

pub length-poly_frombytes : (a : List ℕ) → length (poly_frombytes a) ≡ mlkem_n
unfolding poly_frombytes
length-poly_frombytes a = length-emit 2 (frombytes_round a) (length-frombytes_round a) 128

module _ (a : List ℕ) (la : length a ≡ mlkem_polybytes) (ba : IsBytes a) where
  frombytes_round_lem :
      (j : ℕ) → j < 128 → frombytes_round a j ≡ pos (low12 a j) ∷ pos (high12 a j) ∷ []
  unfolding frombytes_round
  frombytes_round_lem j h =
      frombytes_block_lem (get_or a (3 * j + 0) 0) (get_or a (3 * j + 1) 0) (get_or a (3 * j + 2) 0)
        (ba (3 * j + 0) (omega arith)) (ba (3 * j + 1) (omega arith)) (ba (3 * j + 2) (omega arith))

  pub coeff-poly_frombytes :
      (j : ℕ)
      → j < 128
      → (coeff (poly_frombytes a) (2 * j) ≡ pos (low12 a j))
        × (coeff (poly_frombytes a) (2 * j + 1) ≡ pos (high12 a j))
  unfolding poly_frombytes
  coeff-poly_frombytes j h =
      let e : j * 2 + 0 ≡ 2 * j = omega arith in
      let e' : j * 2 + 1 ≡ 2 * j + 1 = omega arith in
      let at = λ (k : ℕ) (h' : k < 2).
        get_or-emit 2 (frombytes_round a) (length-frombytes_round a) (pos 0) 128 j k h h'
        ∙ ap (λ xs. get_or xs k (pos 0)) (frombytes_round_lem j h) in
      (rw e at (at 0 (omega arith)), rw e' at (at 1 (omega arith)))

  tobytes_round-frombytes :
      (j : ℕ)
      → j < 128
      → tobytes_round (poly_frombytes a) j
        ≡ get_or a (3 * j + 0) 0 ∷ get_or a (3 * j + 1) 0 ∷ get_or a (3 * j + 2) 0 ∷ []
  unfolding tobytes_round
  tobytes_round-frombytes j h =
      let x = coeff-poly_frombytes j h in
      let b0 = ba (3 * j + 0) (omega arith) in
      let b1 = ba (3 * j + 1) (omega arith) in
      let b2 = ba (3 * j + 2) (omega arith) in
      rw (x.0, x.1)
        (ground (
          arith,
          positive16_low (low12 a j),
          positive16_low (high12 a j),
          tobytes_block_lem (low12 a j) (high12 a j),
        ))

  -- For any 384 bytes, poly_tobytes writes the polynomial that poly_frombytes reads from them as
  -- the same bytes.
  pub poly_tobytes-poly_frombytes : poly_tobytes (poly_frombytes a) ≡ a
  unfolding poly_tobytes
  poly_tobytes-poly_frombytes =
      emit_eq 3 (tobytes_round (poly_frombytes a)) (length-tobytes_round (poly_frombytes a)) 0 128 a
        (omega arith) la λ j k h h'. rw (tobytes_round-frombytes j h) (three j k h')
    where
      three :
          (j k : ℕ)
          → k < 3
          → get_or
              (get_or a (3 * j + 0) 0 ∷ get_or a (3 * j + 1) 0 ∷ get_or a (3 * j + 2) 0 ∷ [])
              k
              0
            ≡ get_or a (j * 3 + k) 0
      three j zero h = let e : 3 * j + 0 ≡ j * 3 + 0 = omega arith in rw e
      three j (suc zero) h = let e : 3 * j + 1 ≡ j * 3 + 1 = omega arith in rw e
      three j (suc (suc zero)) h = let e : 3 * j + 2 ≡ j * 3 + 2 = omega arith in rw e
      three j (suc (suc (suc k))) h = absurd (omega arith)

module _ (p : Poly) (lp : length p ≡ mlkem_n)
    (small : (i : ℕ) → i < mlkem_n → abs (coeff p i) < mlkem_q) where
  tobytes_round_lem :
      (j : ℕ)
      → j < 128
      → let t0 = residue (coeff p (2 * j)) in
        let t1 = residue (coeff p (2 * j + 1)) in
        tobytes_round p j ≡ t0 % 256 ∷ (t0 / 256 + t1 % 16 * 16) ∷ t1 / 16 ∷ []
  unfolding tobytes_round
  tobytes_round_lem j h =
      let x = coeff p (2 * j) in
      let y = coeff p (2 * j + 1) in
      rw
        (
          positive16-residue x (small (2 * j) (omega arith)),
          positive16-residue y (small (2 * j + 1) (omega arith)),
        )
        (tobytes_block_lem (residue x) (residue y) (omega (arith, residue-lt x))
          (omega (arith, residue-lt y)))

  pub get_or-poly_tobytes :
      (j : ℕ)
      → j < 128
      → let a = poly_tobytes p in
        (low12 a j ≡ residue (coeff p (2 * j))) × (high12 a j ≡ residue (coeff p (2 * j + 1)))
  unfolding poly_tobytes
  get_or-poly_tobytes j h =
      let at = λ (k : ℕ) (h' : k < 3).
        get_or-emit 3 (tobytes_round p) (length-tobytes_round p) 0 128 j k h h'
        ∙ ap (λ xs. get_or xs k 0) (tobytes_round_lem j h) in
      let e0 : j * 3 + 0 ≡ 3 * j + 0 = omega arith in
      let e1 : j * 3 + 1 ≡ 3 * j + 1 = omega arith in
      let e2 : j * 3 + 2 ≡ 3 * j + 2 = omega arith in
      let x = rw e0 at (at 0 (omega arith)) in
      let y = rw e1 at (at 1 (omega arith)) in
      let z = rw e2 at (at 2 (omega arith)) in
      let rx = residue-lt (coeff p (2 * j)) in
      let ry = residue-lt (coeff p (2 * j + 1)) in (omega arith, omega arith)

  pub poly_tobytes-IsBytes : IsBytes (poly_tobytes p)
  unfolding poly_tobytes
  poly_tobytes-IsBytes i h =
      let j = i / 3 in
      let k = i % 3 in
      let below : i < 384 = omega (arith, length-poly_tobytes p) in
      let at : j * 3 + k ≡ i = omega arith in
      let value =
        get_or-emit 3 (tobytes_round p) (length-tobytes_round p) 0 128 j k (omega arith)
          (omega arith)
        ∙ ap (λ xs. get_or xs k 0) (tobytes_round_lem j (omega arith)) in
      rw (← at) (rw value (three k (omega arith)))
    where
      t0 : ℕ
      t0 = residue (coeff p (2 * (i / 3)))

      t1 : ℕ
      t1 = residue (coeff p (2 * (i / 3) + 1))

      three :
          (k : ℕ) → k < 3 → get_or (t0 % 256 ∷ (t0 / 256 + t1 % 16 * 16) ∷ t1 / 16 ∷ []) k 0 < 256
      three zero h = omega arith
      three (suc zero) h = omega (arith, residue-lt (coeff p (2 * (i / 3))))
      three (suc (suc zero)) h = omega (arith, residue-lt (coeff p (2 * (i / 3) + 1)))
      three (suc (suc (suc k))) h = absurd (omega arith)

  -- For a polynomial of 256 coefficients of absolute value below q, poly_frombytes reads from the
  -- output of poly_tobytes the residue, from 0 to q - 1, of each coefficient.
  pub coeff-poly_frombytes-poly_tobytes :
      (i : ℕ) → i < mlkem_n → coeff (poly_frombytes (poly_tobytes p)) i ≡ pos (residue (coeff p i))
  coeff-poly_frombytes-poly_tobytes i h =
      let a = poly_tobytes p in
      let j = i / 2 in
      let back =
        coeff-poly_frombytes a (length-poly_tobytes p) poly_tobytes-IsBytes j (omega arith) in
      let same = get_or-poly_tobytes j (omega arith) in
      parity (λ m. coeff (poly_frombytes a) m ≡ pos (residue (coeff p m))) i
        (back.0 ∙ ap pos same.0) (back.1 ∙ ap pos same.1)
