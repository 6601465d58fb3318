-- ===== src/Ntt/Blocks.antt =====
-- mlkem/ntt.c: one layer, the loop over the blocks of `2 * len` coefficients.
use mlkem_c_embedded.Base.{ℕ, zero, suc, ◌+◌, ◌*◌, ◌≤◌, ◌<◌, ◌≡◌, refl, ap₂, ◌∙◌, arith, length, ℤ}
use mlkem_c_embedded.Poly.{Poly, coeff}
use mlkem_c_embedded.Ntt.Loop.{
  IsPairStep, run_steps, length-run_steps, run_steps_before, run_steps_after, run_steps_low,
  run_steps_high,
}

-- `n` blocks, from block `b` on; block `b` has the step `step b`.
unfoldable pub run_blocks : ℕ → (ℕ → ℕ → Poly → Poly) → ℕ → ℕ → Poly → Poly
run_blocks len step zero b r = r
run_blocks len step (suc n) b r =
    run_blocks len step n (b + 1) (run_steps (step b) len (b * (2 * len)) r)

module _ {len : ℕ} {f g : ℕ → ℤ → ℤ → ℤ} {step : ℕ → ℕ → Poly → Poly}
    (s : (b : ℕ) → IsPairStep len (f b) (g b) (step b)) (some_len : 0 < len) where
  pub length-run_blocks : (n b : ℕ) (r : Poly) → length (run_blocks len step n b r) ≡ length r
  unfolding run_blocks
  length-run_blocks zero b r = refl
  length-run_blocks (suc n) b r =
      length-run_blocks n (b + 1) (run_steps (step b) len (b * (2 * len)) r)
      ∙ length-run_steps (s b) some_len len (b * (2 * len)) r

  run_blocks_before :
      (n b : ℕ) (r : Poly) (i : ℕ)
      → i < b * (2 * len)
      → coeff (run_blocks len step n b r) i ≡ coeff r i
  unfolding run_blocks
  run_blocks_before zero b r i h = refl
  run_blocks_before (suc n) b r i h =
      run_blocks_before n (b + 1) (run_steps (step b) len (b * (2 * len)) r) i (omega arith)
      ∙ run_steps_before (s b) some_len len (b * (2 * len)) r i h

  -- The pair of index `j` in block `b + d`, after the layer and before.
  pub run_blocks_pair :
      (n b : ℕ) (r : Poly) (d j : ℕ)
      → d < n
      → j < len
      → (b + n) * (2 * len) ≤ length r
      → let i = (b + d) * (2 * len) + j in
        (coeff (run_blocks len step n b r) i ≡ f (b + d) (coeff r i) (coeff r (i + len)))
        × (coeff (run_blocks len step n b r) (i + len) ≡ g (b + d) (coeff r i) (coeff r (i + len)))
  unfolding run_blocks
  run_blocks_pair zero b r d j h h' fits = absurd (omega arith)
  run_blocks_pair (suc n) b r zero j h h' fits =
      let start = b * (2 * len) in
      let r' = run_steps (step b) len start r in
      let z : b + 0 ≡ b = omega arith in
      rw z (
        run_blocks_before n (b + 1) r' (start + j) (omega arith)
            ∙ run_steps_low (s b) some_len len start r (start + j) (omega arith) (omega arith)
                (omega arith) (omega arith),
        run_blocks_before n (b + 1) r' (start + j + len) (omega arith)
            ∙ run_steps_high (s b) some_len len start r (start + j) (omega arith) (omega arith)
                (omega arith) (omega arith),
      )
  run_blocks_pair (suc n) b r (suc d) j h h' fits =
      let start = b * (2 * len) in
      let r' = run_steps (step b) len start r in
      let e : b + suc d ≡ b + 1 + d = omega arith in
      let i = (b + 1 + d) * (2 * len) + j in
      let rest =
        run_blocks_pair n (b + 1) r' d j (omega arith) h'
          (omega (arith, length-run_steps (s b) some_len len start r)) in
      let x : coeff r' i ≡ coeff r i = run_steps_after (s b) some_len len start r i (omega arith) in
      let y : coeff r' (i + len) ≡ coeff r (i + len) =
        run_steps_after (s b) some_len len start r (i + len) (omega arith) in
      rw e (rest.0 ∙ ap₂ (f (b + 1 + d)) x y, rest.1 ∙ ap₂ (g (b + 1 + d)) x y)
