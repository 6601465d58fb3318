-- ===== src/Ntt/Range.antt =====
-- mlkem/ntt.c: the range of the coefficients through the layers of ntt.
use mlkem_c_embedded.Base.{
  ℕ, zero, suc, ◌+◌, ◌*◌, ◌/◌, ◌^◌, ◌≤◌, ◌<◌, ◌≡◌, ◌≢◌, ◌∙◌, refl, sym, arith, Bool, true, false,
  Bool-cases, List, [], ◌∷◌, length, get_or, set, get_or-set_ne, get_or_past, ℤ, pos, abs, int16,
  int16-id, abs-+ℤ, abs--ℤ, ◌+ℤ◌, ◌-ℤ◌, ltb, leb, ◌&&◌, inl, inr,
}
use native.Mathlib.Decide.{dec_lt}
use native.Mathlib.Nat.{pow-suc}
use mlkem_c_embedded.Params.{mlkem_n}
use mlkem_c_embedded.Poly.{Poly, coeff}
use mlkem_c_embedded.Ntt.{
  zetas, zeta_at, fqmul, butterfly, butterflies, ntt_blocks, ntt_layers, ntt,
}
use mlkem_c_embedded.Ntt.Bounds.{fqmul_lem}

all_small : List ℤ → Bool
all_small [] = true
all_small (x ∷ xs) = leb (abs x) 1664 && all_small xs

small_get_or : (xs : List ℤ) (k : ℕ) → all_small xs ≡ true → abs (get_or xs k (pos 0)) ≤ 1664
unfolding all_small
small_get_or [] k h = omega arith
small_get_or (x ∷ xs) zero h = ground arith
small_get_or (x ∷ xs) (suc k) h = small_get_or xs k (ground arith)

zetas_small : all_small zetas ≡ true
unfolding all_small
zetas_small = refl

pub zeta_small : (k : ℕ) → abs (zeta_at k) ≤ 1664
zeta_small k = small_get_or zetas k zetas_small

-- A write puts its value at one place.
get_or-set_or :
    (P : ℤ → Type 0) (xs : List ℤ) (i j : ℕ) (v : ℤ)
    → P v
    → P (get_or xs j (pos 0))
    → P (get_or (set xs i v) j (pos 0))
get_or-set_or P [] i j v p q = q
get_or-set_or P (x ∷ xs) zero zero v p q = p
get_or-set_or P (x ∷ xs) zero (suc j) v p q = q
get_or-set_or P (x ∷ xs) (suc i) zero v p q = q
get_or-set_or P (x ∷ xs) (suc i) (suc j) v p q = get_or-set_or P xs i j v p q

module _ (b len : ℕ) (fits : b + 2496 ≤ 32767) (some_len : 0 < len) where
  butterfly_bound :
      (zeta : ℤ) (j : ℕ) (r : Poly)
      → abs zeta ≤ 1664
      → abs (coeff r j) ≤ b
      → abs (coeff r (j + len)) ≤ b
      → (i : ℕ) → abs (coeff r i) ≤ b + 2496
      → abs (coeff (butterfly zeta len j r) i) ≤ b + 2496
  unfolding butterfly
  butterfly_bound zeta j r hz h h' i e =
      let t = fqmul zeta (coeff r (j + len)) in
      let p : abs zeta * abs (coeff r (j + len)) ≤ 1664 * b = grind arith in
      let ht : abs t ≤ 2496 = omega (arith, fqmul_lem zeta (coeff r (j + len)) (omega arith)) in
      let d : ℤ = coeff r j -ℤ t in
      let s : ℤ = coeff r j +ℤ t in
      let hd : abs d ≤ b + 2496 = omega (arith, abs--ℤ (coeff r j) t) in
      let hs : abs s ≤ b + 2496 = omega (arith, abs-+ℤ (coeff r j) t) in
      let same : coeff (set r (j + len) (int16 d)) j ≡ coeff r j =
        get_or-set_ne r (j + len) j (int16 d) (pos 0) (omega arith) in
      rw same (
        get_or-set_or (λ c. abs c ≤ b + 2496) (set r (j + len) (int16 d)) j i (int16 s)
          (rw (int16-id s (omega arith)) hs)
          (get_or-set_or (λ c. abs c ≤ b + 2496) r (j + len) i (int16 d)
            (rw (int16-id d (omega arith)) hd) e))

  butterfly_other :
      (zeta : ℤ) (j : ℕ) (r : Poly) (i : ℕ)
      → i ≢ j
      → i ≢ j + len
      → coeff (butterfly zeta len j r) i ≡ coeff r i
  unfolding butterfly
  butterfly_other zeta j r i h h' =
      let t = fqmul zeta (coeff r (j + len)) in
      let r' = set r (j + len) (int16 (coeff r j -ℤ t)) in
      get_or-set_ne r' j i (int16 (coeff r' j +ℤ t)) (pos 0) (λ e. h (sym e))
      ∙ get_or-set_ne r (j + len) i (int16 (coeff r j -ℤ t)) (pos 0) (λ e. h' (sym e))

  -- Only the indices of the rounds left are assumed to be below the old bound.
  butterflies_bound :
      (zeta : ℤ) (left j : ℕ) (r : Poly)
      → abs zeta ≤ 1664
      → left ≤ len
      → ((i : ℕ) → j ≤ i → i < j + left → abs (coeff r i) ≤ b)
      → ((i : ℕ) → j + len ≤ i → i < j + len + left → abs (coeff r i) ≤ b)
      → ((i : ℕ) → abs (coeff r i) ≤ b + 2496)
      → (i : ℕ) → abs (coeff (butterflies zeta len left j r) i) ≤ b + 2496
  unfolding butterflies
  butterflies_bound zeta zero j r hz l low high all i = all i
  butterflies_bound zeta (suc left) j r hz l low high all i =
      let r' = butterfly zeta len j r in
      butterflies_bound zeta left (j + 1) r' hz (omega arith)
        (λ m p q.
          rw (butterfly_other zeta j r m (omega arith) (omega arith))
            (low m (omega arith) (omega arith)))
        (λ m p q.
          rw (butterfly_other zeta j r m (omega arith) (omega arith))
            (high m (omega arith) (omega arith)))
        (λ m.
          butterfly_bound zeta j r hz (low j (omega arith) (omega arith))
            (high (j + len) (omega arith) (omega arith)) m (all m))
        i

  butterflies_other :
      (zeta : ℤ) (left j : ℕ) (r : Poly) (i : ℕ)
      → j + left + len ≤ i
      → coeff (butterflies zeta len left j r) i ≡ coeff r i
  unfolding butterflies
  butterflies_other zeta zero j r i h = refl
  butterflies_other zeta (suc left) j r i h =
      butterflies_other zeta left (j + 1) (butterfly zeta len j r) i (omega arith)
      ∙ butterfly_other zeta j r i (omega arith) (omega arith)

  -- A layer adds at most 2496.
  ntt_blocks_bound :
      (fuel start k : ℕ) (r : Poly)
      → ((i : ℕ) → start ≤ i → abs (coeff r i) ≤ b)
      → ((i : ℕ) → abs (coeff r i) ≤ b + 2496)
      → (i : ℕ) → abs (coeff (ntt_blocks len fuel start k r).0 i) ≤ b + 2496
  unfolding ntt_blocks
  ntt_blocks_bound zero start k r later all i = all i
  ntt_blocks_bound (suc fuel) start k r later all i =
      let r' = butterflies (zeta_at k) len len start r in
      let rest =
        ntt_blocks_bound fuel (start + len + len) (k + 1) r'
          (λ m p.
            rw (butterflies_other (zeta_at k) len start r m (omega arith)) (later m (omega arith)))
          (butterflies_bound (zeta_at k) len start r (zeta_small k) (omega arith)
            (λ m p q. later m p) (λ m p q. later m (omega arith)) all)
          i in
      elim (Bool-cases (ltb start 256)) [ inl e ↦ rw e rest | inr e ↦ rw e (all i) ]

ntt_layers_bound :
    (n fuel len k b : ℕ) (r : Poly)
    → len < 2 * 2 ^ n
    → b + n * 2496 ≤ 32767
    → ((i : ℕ) → abs (coeff r i) ≤ b)
    → (i : ℕ) → abs (coeff (ntt_layers fuel len k r) i) ≤ b + n * 2496
unfolding ntt_layers
ntt_layers_bound n zero len k b r l fits all i = omega (arith, all i)
ntt_layers_bound zero (suc fuel) len k b r l fits all i =
    let e : leb 2 len ≡ false = ground arith in rw e (omega (arith, all i))
ntt_layers_bound (suc n) (suc fuel) len k b r l fits all i = elim (Bool-cases (leb 2 len)) [
  | inr e ↦ rw e (omega (arith, all i))
  | inl e ↦
      let long : 2 ≤ len = ground arith in
      let step = ntt_blocks len (128 / len + 1) 0 k r in
      let half : len / 2 < 2 * 2 ^ n = omega (arith, pow-suc 2 n) in
      rw e (
        omega (
          arith,
          ntt_layers_bound n fuel (len / 2) step.1 (b + 2496) step.0 half (omega arith)
              (ntt_blocks_bound b len (omega arith) (omega arith) (128 / len + 1) 0 k r
                (λ m p. all m) (λ m. omega (arith, all m)))
              i,
        ))
]

-- For a polynomial of 256 coefficients of absolute value at most b, with b at most 15295, the
-- coefficients that ntt leaves are at most b + 17472 in absolute value, below 2^15.
pub ntt_bound :
    (b : ℕ) (r : Poly)
    → b ≤ 15295
    → length r ≡ mlkem_n
    → ((i : ℕ) → i < mlkem_n → abs (coeff r i) ≤ b)
    → (i : ℕ) → abs (coeff (ntt r) i) ≤ b + 17472
unfolding ntt
ntt_bound b r fits lr all i =
    ntt_layers_bound 7 8 128 1 b r (omega arith) (omega arith)
      (λ m. elim (dec_lt m mlkem_n) [
        | yes p ↦ all m p
        | no p ↦ rw (get_or_past r m (pos 0) (omega arith)) (omega arith)
      ])
      i
