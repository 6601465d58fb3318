-- ===== src/Ntt/Loop.antt =====
-- mlkem/ntt.c: loops that change the coefficients in pairs at the distance `len`, in place.
use mlkem_c_embedded.Base.{ℕ, zero, suc, ◌+◌, ◌≤◌, ◌<◌, ◌≡◌, ◌≢◌, refl, ap₂, ◌∙◌, arith, length, ℤ}
use native.Mathlib.Decide.{ℕ_discrete}
use mlkem_c_embedded.Poly.{Poly, coeff}

-- A step that replaces the coefficients of index `j` and `j + len` by functions of the two.
pub record IsPairStep (len : ℕ) (f g : ℤ → ℤ → ℤ) (step : ℕ → Poly → Poly) : Type 0 where
  pub size : (j : ℕ) (r : Poly) → length (step j r) ≡ length r
  pub low :
      (j : ℕ) (r : Poly)
      → j + len < length r
      → coeff (step j r) j ≡ f (coeff r j) (coeff r (j + len))
  pub high :
      (j : ℕ) (r : Poly)
      → j + len < length r
      → coeff (step j r) (j + len) ≡ g (coeff r j) (coeff r (j + len))
  pub other : (j : ℕ) (r : Poly) (i : ℕ) → i ≢ j → i ≢ j + len → coeff (step j r) i ≡ coeff r i

-- `left` steps, from index `j` on.
unfoldable pub run_steps : (ℕ → Poly → Poly) → ℕ → ℕ → Poly → Poly
run_steps step zero j r = r
run_steps step (suc left) j r = run_steps step left (j + 1) (step j r)

module _ {len : ℕ} {f g : ℤ → ℤ → ℤ} {step : ℕ → Poly → Poly} (s : IsPairStep len f g step)
    (some_len : 0 < len) where
  pub length-run_steps : (left j : ℕ) (r : Poly) → length (run_steps step left j r) ≡ length r
  unfolding run_steps
  length-run_steps zero j r = refl
  length-run_steps (suc left) j r = length-run_steps left (j + 1) (step j r) ∙ s.size j r

  pub run_steps_before :
      (left j : ℕ) (r : Poly) (i : ℕ) → i < j → coeff (run_steps step left j r) i ≡ coeff r i
  unfolding run_steps
  run_steps_before zero j r i h = refl
  run_steps_before (suc left) j r i h =
      run_steps_before left (j + 1) (step j r) i (omega arith)
      ∙ s.other j r i (omega arith) (omega arith)

  run_steps_between :
      (left j : ℕ) (r : Poly) (i : ℕ)
      → j + left ≤ i
      → i < j + len
      → coeff (run_steps step left j r) i ≡ coeff r i
  unfolding run_steps
  run_steps_between zero j r i h h' = refl
  run_steps_between (suc left) j r i h h' =
      run_steps_between left (j + 1) (step j r) i (omega arith) (omega arith)
      ∙ s.other j r i (omega arith) (omega arith)

  pub run_steps_after :
      (left j : ℕ) (r : Poly) (i : ℕ)
      → j + len + left ≤ i
      → coeff (run_steps step left j r) i ≡ coeff r i
  unfolding run_steps
  run_steps_after zero j r i h = refl
  run_steps_after (suc left) j r i h =
      run_steps_after left (j + 1) (step j r) i (omega arith)
      ∙ s.other j r i (omega arith) (omega arith)

  -- Of the pair of a later index, nothing has changed.
  later_pair :
      (j : ℕ) (r : Poly) (i : ℕ)
      → j < i
      → i < j + len
      → (coeff (step j r) i ≡ coeff r i) × (coeff (step j r) (i + len) ≡ coeff r (i + len))
  later_pair j r i h h' =
      (s.other j r i (omega arith) (omega arith), s.other j r (i + len) (omega arith) (omega arith))

  pub run_steps_low :
      (left j : ℕ) (r : Poly) (i : ℕ)
      → left ≤ len
      → j + len + left ≤ length r
      → j ≤ i
      → i < j + left
      → coeff (run_steps step left j r) i ≡ f (coeff r i) (coeff r (i + len))
  unfolding run_steps
  run_steps_low zero j r i l fits h h' = absurd (omega arith)
  run_steps_low (suc left) j r i l fits h h' = elim (ℕ_discrete j i) [
    | yes e ↦
        run_steps_before left (j + 1) (step j r) i (omega arith)
        ∙ rw (← e) (s.low j r (omega arith))
    | no n ↦
        let same = later_pair j r i (omega arith) (omega arith) in
        run_steps_low left (j + 1) (step j r) i (omega arith) (omega (arith, s.size j r))
          (omega arith) (omega arith)
        ∙ ap₂ f same.0 same.1
  ]

  pub run_steps_high :
      (left j : ℕ) (r : Poly) (i : ℕ)
      → left ≤ len
      → j + len + left ≤ length r
      → j ≤ i
      → i < j + left
      → coeff (run_steps step left j r) (i + len) ≡ g (coeff r i) (coeff r (i + len))
  unfolding run_steps
  run_steps_high zero j r i l fits h h' = absurd (omega arith)
  run_steps_high (suc left) j r i l fits h h' = elim (ℕ_discrete j i) [
    | yes e ↦
        run_steps_between left (j + 1) (step j r) (i + len) (omega arith) (omega arith)
        ∙ rw (← e) (s.high j r (omega arith))
    | no n ↦
        let same = later_pair j r i (omega arith) (omega arith) in
        run_steps_high left (j + 1) (step j r) i (omega arith) (omega (arith, s.size j r))
          (omega arith) (omega arith)
        ∙ ap₂ g same.0 same.1
  ]
