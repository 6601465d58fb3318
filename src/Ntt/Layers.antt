-- ===== src/Ntt/Layers.antt =====
-- mlkem/ntt.c: the loops of ntt and invntt as seven layers each.
use mlkem_c_embedded.Base.{
  ℕ, zero, suc, ◌+◌, ◌-◌, ◌*◌, ◌/◌, ◌≤◌, ◌<◌, ◌≡◌, refl, sym, ap, ap₂, ◌∙◌, arith, length,
  length-set, get_or-set_self, get_or-set_ne, set, ℤ, pos, int16, ◌+ℤ◌, ◌-ℤ◌, ltb, leb, lt→ltb,
  true, false,
}
use mlkem_c_embedded.Poly.{Poly, coeff}
use mlkem_c_embedded.Reduce.{barrett_reduce}
use mlkem_c_embedded.Ntt.{
  zeta_at, fqmul, butterfly, butterflies, ntt_blocks, ntt_layers, ntt, inv_butterfly,
  inv_butterflies, invntt_blocks, invntt_layers, scale_all, invntt,
}
use mlkem_c_embedded.Ntt.Loop.{IsPairStep, run_steps}
use mlkem_c_embedded.Ntt.Blocks.{run_blocks}

-- What a butterfly makes of a pair.
abbrev pub sum_with : ℤ → ℤ → ℤ → ℤ
sum_with zeta x y = int16 (x +ℤ fqmul zeta y)

abbrev pub difference_with : ℤ → ℤ → ℤ → ℤ
difference_with zeta x y = int16 (x -ℤ fqmul zeta y)

abbrev pub inv_sum : ℤ → ℤ → ℤ → ℤ
inv_sum zeta x y = barrett_reduce (int16 (x +ℤ y))

abbrev pub inv_difference : ℤ → ℤ → ℤ → ℤ
inv_difference zeta x y = fqmul zeta (int16 (y -ℤ x))

pub butterfly-IsPairStep :
    (zeta : ℤ) (len : ℕ)
    → 0 < len
    → IsPairStep len (sum_with zeta) (difference_with zeta) (butterfly zeta len)
unfolding butterfly
butterfly-IsPairStep zeta len some_len =
    let t : ℕ → Poly → ℤ = λ j r. fqmul zeta (coeff r (j + len)) in
    let r' : ℕ → Poly → Poly = λ j r. set r (j + len) (int16 (coeff r j -ℤ t j r)) in
    let same : (j : ℕ) (r : Poly) → coeff (r' j r) j ≡ coeff r j =
      λ j r. get_or-set_ne r (j + len) j (int16 (coeff r j -ℤ t j r)) (pos 0) (omega arith) in
    let v : ℕ → Poly → ℤ = λ j r. int16 (coeff (r' j r) j +ℤ t j r) in
    record {
      size = λ j r.
          length-set (r' j r) j (v j r) ∙ length-set r (j + len) (int16 (coeff r j -ℤ t j r));
      low = λ j r h.
          get_or-set_self (r' j r) j (v j r) (pos 0)
            (omega (arith, length-set r (j + len) (int16 (coeff r j -ℤ t j r))))
          ∙ ap (λ x. int16 (x +ℤ t j r)) (same j r);
      high = λ j r h.
          get_or-set_ne (r' j r) j (j + len) (v j r) (pos 0) (omega arith)
          ∙ get_or-set_self r (j + len) (int16 (coeff r j -ℤ t j r)) (pos 0) h;
      other = λ j r i n n'.
          get_or-set_ne (r' j r) j i (v j r) (pos 0) (λ e. n (sym e))
          ∙ get_or-set_ne r (j + len) i (int16 (coeff r j -ℤ t j r)) (pos 0) (λ e. n' (sym e));
    }

pub inv_butterfly-IsPairStep :
    (zeta : ℤ) (len : ℕ)
    → 0 < len
    → IsPairStep len (inv_sum zeta) (inv_difference zeta) (inv_butterfly zeta len)
unfolding inv_butterfly
inv_butterfly-IsPairStep zeta len some_len =
    let s : ℕ → Poly → ℤ = λ j r. barrett_reduce (int16 (coeff r j +ℤ coeff r (j + len))) in
    let r1 : ℕ → Poly → Poly = λ j r. set r j (s j r) in
    let d : ℕ → Poly → ℤ = λ j r. int16 (coeff (r1 j r) (j + len) -ℤ coeff r j) in
    let r2 : ℕ → Poly → Poly = λ j r. set (r1 j r) (j + len) (d j r) in
    let v : ℕ → Poly → ℤ = λ j r. fqmul zeta (coeff (r2 j r) (j + len)) in
    let l1 : (j : ℕ) (r : Poly) → length (r1 j r) ≡ length r = λ j r. length-set r j (s j r) in
    let l2 : (j : ℕ) (r : Poly) → length (r2 j r) ≡ length (r1 j r) =
      λ j r. length-set (r1 j r) (j + len) (d j r) in
    record {
      size = λ j r. length-set (r2 j r) (j + len) (v j r) ∙ l2 j r ∙ l1 j r;
      low = λ j r h.
          get_or-set_ne (r2 j r) (j + len) j (v j r) (pos 0) (omega arith)
          ∙ get_or-set_ne (r1 j r) (j + len) j (d j r) (pos 0) (omega arith)
          ∙ get_or-set_self r j (s j r) (pos 0) (omega arith);
      high = λ j r h.
          get_or-set_self (r2 j r) (j + len) (v j r) (pos 0) (omega (arith, l1 j r, l2 j r))
          ∙ ap (fqmul zeta) (
              get_or-set_self (r1 j r) (j + len) (d j r) (pos 0) (omega (arith, l1 j r))
              ∙ ap (λ x. int16 (x -ℤ coeff r j))
                  (get_or-set_ne r j (j + len) (s j r) (pos 0) (omega arith)));
      other = λ j r i n n'.
          get_or-set_ne (r2 j r) (j + len) i (v j r) (pos 0) (λ e. n' (sym e))
          ∙ get_or-set_ne (r1 j r) (j + len) i (d j r) (pos 0) (λ e. n' (sym e))
          ∙ get_or-set_ne r j i (s j r) (pos 0) (λ e. n (sym e));
    }

butterflies-run_steps :
    (zeta : ℤ) (len left j : ℕ) (r : Poly)
    → butterflies zeta len left j r ≡ run_steps (butterfly zeta len) left j r
unfolding butterflies run_steps
butterflies-run_steps zeta len zero j r = refl
butterflies-run_steps zeta len (suc left) j r =
    butterflies-run_steps zeta len left (j + 1) (butterfly zeta len j r)

inv_butterflies-run_steps :
    (zeta : ℤ) (len left j : ℕ) (r : Poly)
    → inv_butterflies zeta len left j r ≡ run_steps (inv_butterfly zeta len) left j r
unfolding inv_butterflies run_steps
inv_butterflies-run_steps zeta len zero j r = refl
inv_butterflies-run_steps zeta len (suc left) j r =
    inv_butterflies-run_steps zeta len left (j + 1) (inv_butterfly zeta len j r)

-- One layer of `n` blocks, of the transform and of the inverse one.
unfoldable pub layer : ℕ → ℕ → Poly → Poly
layer len n r = run_blocks len (λ b. butterfly (zeta_at (n + b)) len) n 0 r

unfoldable pub inv_layer : ℕ → ℕ → Poly → Poly
inv_layer len n r = run_blocks len (λ b. inv_butterfly (zeta_at (2 * n - 1 - b)) len) n 0 r

module _ (len : ℕ) (some_len : 0 < len) where
  ntt_blocks-run_blocks :
      (m fuel n b : ℕ) (r : Poly)
      → n < fuel
      → (b + n) * (2 * len) ≡ 256
      → ntt_blocks len fuel (b * (2 * len)) (m + b) r
        ≡ (run_blocks len (λ c. butterfly (zeta_at (m + c)) len) n b r, m + b + n)
  unfolding ntt_blocks run_blocks
  ntt_blocks-run_blocks m zero n b r h e = absurd (omega arith)
  ntt_blocks-run_blocks m (suc fuel) zero b r h e =
      let done : ltb (b * (2 * len)) 256 ≡ false = ground arith in
      rw done (ap (λ (k : ℕ). (r, k)) (omega arith))
  ntt_blocks-run_blocks m (suc fuel) (suc n) b r h e =
      let more : ltb (b * (2 * len)) 256 ≡ true = lt→ltb (b * (2 * len)) 256 (omega arith) in
      let start : b * (2 * len) + len + len ≡ (b + 1) * (2 * len) = omega arith in
      let next : m + b + 1 ≡ m + (b + 1) = omega arith in
      let count : m + (b + 1) + n ≡ m + b + suc n = omega arith in
      let r' = run_steps (butterfly (zeta_at (m + b)) len) len (b * (2 * len)) r in
      rw (more, start, next, butterflies-run_steps (zeta_at (m + b)) len len (b * (2 * len)) r)
        (ntt_blocks-run_blocks m fuel n (b + 1) r' (omega arith) (omega arith)
          ∙ ap (λ (k : ℕ). (run_blocks len (λ c. butterfly (zeta_at (m + c)) len) n (b + 1) r', k))
              count)

  invntt_blocks-run_blocks :
      (m fuel n b : ℕ) (r : Poly)
      → n < fuel
      → (b + n) * (2 * len) ≡ 256
      → invntt_blocks len fuel (b * (2 * len)) (m - b) r
        ≡ (run_blocks len (λ c. inv_butterfly (zeta_at (m - c)) len) n b r, m - b - n)
  unfolding invntt_blocks run_blocks
  invntt_blocks-run_blocks m zero n b r h e = absurd (omega arith)
  invntt_blocks-run_blocks m (suc fuel) zero b r h e =
      let done : ltb (b * (2 * len)) 256 ≡ false = ground arith in
      rw done (ap (λ (k : ℕ). (r, k)) (omega arith))
  invntt_blocks-run_blocks m (suc fuel) (suc n) b r h e =
      let more : ltb (b * (2 * len)) 256 ≡ true = lt→ltb (b * (2 * len)) 256 (omega arith) in
      let start : b * (2 * len) + len + len ≡ (b + 1) * (2 * len) = omega arith in
      let next : m - b - 1 ≡ m - (b + 1) = omega arith in
      let count : m - (b + 1) - n ≡ m - b - suc n = omega arith in
      let r' = run_steps (inv_butterfly (zeta_at (m - b)) len) len (b * (2 * len)) r in
      rw (more, start, next, inv_butterflies-run_steps (zeta_at (m - b)) len len (b * (2 * len)) r)
        (invntt_blocks-run_blocks m fuel n (b + 1) r' (omega arith) (omega arith)
          ∙ ap
              (λ (k : ℕ).
                (run_blocks len (λ c. inv_butterfly (zeta_at (m - c)) len) n (b + 1) r', k))
              count)

  ntt_layers_step :
      (fuel n : ℕ) (r : Poly)
      → 2 ≤ len
      → 128 / len ≡ n
      → n * (2 * len) ≡ 256
      → ntt_layers (suc fuel) len n r ≡ ntt_layers fuel (len / 2) (n + n) (layer len n r)
  unfolding ntt_layers layer
  ntt_layers_step fuel n r long e whole =
      let more : leb 2 len ≡ true = ground arith in
      let z0 : 0 ≡ 0 * (2 * len) = omega arith in
      let z : n + 0 ≡ n = omega arith in
      let k : n + 0 + n ≡ n + n = omega arith in
      let step : ntt_blocks len (n + 1) 0 n r
          ≡ (run_blocks len (λ b. butterfly (zeta_at (n + b)) len) n 0 r, n + n) =
        ap₂ (λ (a c : ℕ). ntt_blocks len (n + 1) a c r) z0 (sym z)
        ∙ ntt_blocks-run_blocks n (n + 1) n 0 r (omega arith) (omega arith)
        ∙ ap (λ (c : ℕ). (run_blocks len (λ b. butterfly (zeta_at (n + b)) len) n 0 r, c)) k in
      rw (more, e) (ap (λ (p : Poly × ℕ). ntt_layers fuel (len / 2) p.1 p.0) step)

  invntt_layers_step :
      (fuel n : ℕ) (r : Poly)
      → len ≤ 128
      → 128 / len ≡ n
      → n * (2 * len) ≡ 256
      → invntt_layers (suc fuel) len (2 * n - 1) r
        ≡ invntt_layers fuel (len * 2) (n - 1) (inv_layer len n r)
  unfolding invntt_layers inv_layer
  invntt_layers_step fuel n r long e whole =
      let more : leb len 128 ≡ true = ground arith in
      let m = 2 * n - 1 in
      let z0 : 0 ≡ 0 * (2 * len) = omega arith in
      let z : m - 0 ≡ m = omega arith in
      let k : m - 0 - n ≡ n - 1 = omega arith in
      let out = run_blocks len (λ b. inv_butterfly (zeta_at (m - b)) len) n 0 r in
      let step : invntt_blocks len (n + 1) 0 m r ≡ (out, n - 1) =
        ap₂ (λ (a c : ℕ). invntt_blocks len (n + 1) a c r) z0 (sym z)
        ∙ invntt_blocks-run_blocks m (n + 1) n 0 r (omega arith) (omega arith)
        ∙ ap (λ (c : ℕ). (out, c)) k in
      rw (more, e) (ap (λ (p : Poly × ℕ). invntt_layers fuel (len * 2) p.1 p.0) step)

-- The seven layers, in their order.
pub ntt-layer :
    (r : Poly)
    → ntt r
      ≡ layer 2 64 (layer 4 32 (layer 8 16 (layer 16 8 (layer 32 4 (layer 64 2 (layer 128 1 r))))))
unfolding ntt
ntt-layer r =
    let r1 = layer 128 1 r in
    let r2 = layer 64 2 r1 in
    let r3 = layer 32 4 r2 in
    let r4 = layer 16 8 r3 in
    let r5 = layer 8 16 r4 in
    let r6 = layer 4 32 r5 in
    ntt_layers_step 128 (omega arith) 7 1 r (omega arith) refl refl
    ∙ ntt_layers_step 64 (omega arith) 6 2 r1 (omega arith) refl refl
    ∙ ntt_layers_step 32 (omega arith) 5 4 r2 (omega arith) refl refl
    ∙ ntt_layers_step 16 (omega arith) 4 8 r3 (omega arith) refl refl
    ∙ ntt_layers_step 8 (omega arith) 3 16 r4 (omega arith) refl refl
    ∙ ntt_layers_step 4 (omega arith) 2 32 r5 (omega arith) refl refl
    ∙ ntt_layers_step 2 (omega arith) 1 64 r6 (omega arith) refl refl
    ∙ last (layer 2 64 r6)
  where
    last : (r : Poly) → ntt_layers 1 1 128 r ≡ r
    last r = unfold ntt_layers in refl

pub invntt-inv_layer :
    (r : Poly)
    → invntt r
      ≡ scale_all (
          inv_layer 128 1 (
            inv_layer 64 2 (
              inv_layer 32 4
                (inv_layer 16 8 (inv_layer 8 16 (inv_layer 4 32 (inv_layer 2 64 r)))))))
unfolding invntt
invntt-inv_layer r =
    let r1 = inv_layer 2 64 r in
    let r2 = inv_layer 4 32 r1 in
    let r3 = inv_layer 8 16 r2 in
    let r4 = inv_layer 16 8 r3 in
    let r5 = inv_layer 32 4 r4 in
    let r6 = inv_layer 64 2 r5 in
    ap scale_all (
      invntt_layers_step 2 (omega arith) 7 64 r (omega arith) refl refl
      ∙ invntt_layers_step 4 (omega arith) 6 32 r1 (omega arith) refl refl
      ∙ invntt_layers_step 8 (omega arith) 5 16 r2 (omega arith) refl refl
      ∙ invntt_layers_step 16 (omega arith) 4 8 r3 (omega arith) refl refl
      ∙ invntt_layers_step 32 (omega arith) 3 4 r4 (omega arith) refl refl
      ∙ invntt_layers_step 64 (omega arith) 2 2 r5 (omega arith) refl refl
      ∙ invntt_layers_step 128 (omega arith) 1 1 r6 (omega arith) refl refl
      ∙ last (inv_layer 128 1 r6))
  where
    last : (r : Poly) → invntt_layers 1 256 0 r ≡ r
    last r = unfold invntt_layers in refl
