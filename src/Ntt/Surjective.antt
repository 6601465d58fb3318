-- ===== src/Ntt/Surjective.antt =====
-- mlkem/ntt.c: every sequence of residues is the transform of one, and the transform is linear.
use mlkem_c_embedded.Base.{
  ℕ, zero, suc, ◌+◌, ◌*◌, ◌-◌, ◌/◌, ◌%◌, ◌<◌, ◌≡◌, refl, sym, ◌∙◌, arith, true, false, ltb, lt→ltb,
  if◌then◌else◌,
}
use native.Mathlib.Decide.{ℕ_discrete}
use mlkem_c_embedded.Ntt.Field.{◌≈◌, ≈-scale}
use mlkem_c_embedded.Ntt.Product.{fold}
use mlkem_c_embedded.Ntt.Roots.{root, is_paired, is_paired_next, is_paired_at}
use mlkem_c_embedded.Ntt.Halves.{IsSplit}
use mlkem_c_embedded.Ntt.Transform.{size, count, IsTransform, done, split}

-- The blocks that split into those of `x`: 1665 is the inverse of 2, and 3328 that of -1.
joined : ℕ → ℕ → (ℕ → ℕ → ℕ) → ℕ → ℕ → ℕ
joined len n x b j =
    if ltb j len
    then 1665 * (x (b + b) j + x (b + b + 1) j)
    else 1665
      * (3328 * root (2 * n - 1 - b))
      * (x (b + b) (j - len) + 3328 * x (b + b + 1) (j - len))

joined-low :
    (len n : ℕ) (x : ℕ → ℕ → ℕ) (b j : ℕ)
    → j < len
    → joined len n x b j ≡ 1665 * (x (b + b) j + x (b + b + 1) j)
unfolding joined
joined-low len n x b j h = let t : ltb j len ≡ true = lt→ltb j len h in rw t refl

joined-high :
    (len n : ℕ) (x : ℕ → ℕ → ℕ) (b j : ℕ)
    → joined len n x b (j + len)
      ≡ 1665 * (3328 * root (2 * n - 1 - b)) * (x (b + b) j + 3328 * x (b + b + 1) j)
unfolding joined
joined-high len n x b j =
    let t : ltb (j + len) len ≡ false = ground arith in
    let e : j + len - len ≡ j = omega arith in rw (t, e) refl

-- z * r is -1, so z times the upper half is half the difference.
cancel : (z r y : ℕ) → z * r ≈ 3328 → z * (1665 * (3328 * r) * y) ≈ 1665 * y
cancel z r y e =
    let p : z * (1665 * (3328 * r) * y) ≡ 1665 * 3328 * y * (z * r) = grind arith in
    rw p (≈-scale (1665 * 3328 * y) (z * r) 3328 e ∙ omega arith)

joined-IsSplit :
    (len n : ℕ) (x : ℕ → ℕ → ℕ)
    → ((b : ℕ) → b < n → root (n + b) * root (2 * n - 1 - b) ≈ 3328)
    → IsSplit len n (joined len n x) x
unfolding fold
joined-IsSplit len n x paired = record {
  low = λ b j h h'.
      let y = x (b + b) j + 3328 * x (b + b + 1) j in
      rw (joined-low len n x b j h', joined-high len n x b j)
        (omega (arith, cancel (root (n + b)) (root (2 * n - 1 - b)) y (paired b h)));
  high = λ b j h h'.
      let y = x (b + b) j + 3328 * x (b + b + 1) j in
      let u = 1665 * (3328 * root (2 * n - 1 - b)) * y in
      let p : 3328 * root (n + b) * u ≡ 3328 * (root (n + b) * u) = grind arith in
      rw (joined-low len n x b j h', joined-high len n x b j)
        (rw p (omega (arith, cancel (root (n + b)) (root (2 * n - 1 - b)) y (paired b h))));
}

pub untransformed :
    (t n : ℕ) (w : ℕ → ℕ → ℕ) → is_paired t n ≡ true → (v : ℕ → ℕ → ℕ) × IsTransform t n v w
untransformed zero n w paired = (w, done (λ c i h h'. refl))
untransformed (suc t) n w paired =
    let x = untransformed t (n + n) w (is_paired_next t n paired) in
    (
      joined (size t) n x.0,
      split x.0 (joined-IsSplit (size t) n x.0 (λ b h. is_paired_at t n b paired h)) x.1,
    )

fold_scale :
    (s len z : ℕ) (a b : ℕ → ℕ) (j : ℕ)
    → b j ≈ s * a j
    → b (j + len) ≈ s * a (j + len)
    → fold len z b j ≈ s * fold len z a j
unfolding fold
fold_scale s len z a b j e e' =
    let p : s * (a j + z * a (j + len)) ≡ s * a j + z * (s * a (j + len)) = grind arith in
    rw p (omega (arith, e, ≈-scale z (b (j + len)) (s * a (j + len)) e'))

-- The halves of s times a sequence.
module _ (len n s : ℕ) (v v' x x' : ℕ → ℕ → ℕ) (sp : IsSplit len n v x) (sp' : IsSplit len n v' x')
    (same : (c i : ℕ) → c < n → i < 2 * len → v' c i ≈ s * v c i) where
  pair_scale :
      (b i : ℕ)
      → b < n
      → i < len
      → (x' (b + b) i ≈ s * x (b + b) i) × (x' (b + b + 1) i ≈ s * x (b + b + 1) i)
  pair_scale b i h h' =
      let scaled : (z : ℕ) → fold len z (v' b) i ≈ s * fold len z (v b) i = λ z.
        fold_scale s len z (v b) (v' b) i (same b i h (omega arith))
          (same b (i + len) h (omega arith)) in
      let z = root (n + b) in
      (
        sp'.low b i h h'
            ∙ scaled z
            ∙ sym (≈-scale s (x (b + b) i) (fold len z (v b) i) (sp.low b i h h')),
        sp'.high b i h h'
            ∙ scaled (3328 * z)
            ∙ sym (≈-scale s (x (b + b + 1) i) (fold len (3328 * z) (v b) i) (sp.high b i h h')),
      )

  IsSplit_scale : (c i : ℕ) → c < n + n → i < len → x' c i ≈ s * x c i
  IsSplit_scale c i h h' =
      let pair = pair_scale (c / 2) i (omega arith) h' in
      elim (ℕ_discrete (c % 2) 0) [
        | yes p ↦ let e : c / 2 + c / 2 ≡ c = omega arith in rw e at pair.0
        | no p ↦ let e : c / 2 + c / 2 + 1 ≡ c = omega arith in rw e at pair.1
      ]

-- The transform of s times a sequence is s times its transform.
pub IsTransform_scale :
    (t n s : ℕ) (v v' w w' : ℕ → ℕ → ℕ)
    → IsTransform t n v w
    → IsTransform t n v' w'
    → ((c i : ℕ) → c < n → i < size t → v' c i ≈ s * v c i)
    → (c i : ℕ) → c < count t n
    → i < 2
    → w' c i ≈ s * w c i
IsTransform_scale zero n s v v' w w' (done e) (done e') same c i h h' =
    e' c i h h' ∙ same c i h h' ∙ sym (≈-scale s (w c i) (v c i) (e c i h h'))
IsTransform_scale (suc t) n s v v' w w' (split x sp rest) (split x' sp' rest') same c i h h' =
    IsTransform_scale t (n + n) s x x' w w' rest rest'
      (IsSplit_scale (size t) n s v v' x x' sp sp' same) c i h h'
