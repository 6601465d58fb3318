-- ===== src/Ntt/Product.antt =====
-- mlkem/ntt.c: products of polynomials modulo x^m - z, as sequences of residues, and the split of
-- such a ring into two of half the degree.
use mlkem_c_embedded.Base.{
  ℕ, zero, suc, ◌+◌, ◌*◌, ◌-◌, ◌≤◌, ◌<◌, ◌≡◌, refl, sym, ap, ap₂, ◌∙◌, arith, true, false, inl, inr,
  Bool-cases, leb, if◌then◌else◌,
}
use mlkem_c_embedded.Ntt.Field.{◌≈◌, ≈-mul}

-- f 0 + … + f (n - 1).
unfoldable pub sum : ℕ → (ℕ → ℕ) → ℕ
sum zero f = 0
sum (suc n) f = sum n f + f n

sum_eq : (n : ℕ) (f g : ℕ → ℕ) → ((k : ℕ) → k < n → f k ≡ g k) → sum n f ≡ sum n g
unfolding sum
sum_eq zero f g h = refl
sum_eq (suc n) f g h = ap₂ (◌+◌) (sum_eq n f g (λ k l. h k (omega arith))) (h n (omega arith))

pub sum-≈ : (n : ℕ) (f g : ℕ → ℕ) → ((k : ℕ) → k < n → f k ≈ g k) → sum n f ≈ sum n g
unfolding sum
sum-≈ zero f g h = refl
sum-≈ (suc n) f g h = omega (arith, sum-≈ n f g (λ k l. h k (omega arith)), h n (omega arith))

sum_join : (m n : ℕ) (f : ℕ → ℕ) → sum (m + n) f ≡ sum m f + sum n (λ k. f (m + k))
unfolding sum
sum_join m zero f = let z : m + 0 ≡ m = omega arith in rw z (omega arith)
sum_join m (suc n) f =
    let s : m + suc n ≡ suc (m + n) = omega arith in rw s (omega (arith, sum_join m n f))

sum_add : (n : ℕ) (f g : ℕ → ℕ) → sum n (λ k. f k + g k) ≡ sum n f + sum n g
unfolding sum
sum_add zero f g = refl
sum_add (suc n) f g = omega (arith, sum_add n f g)

sum_scale : (n c : ℕ) (f : ℕ → ℕ) → sum n (λ k. c * f k) ≡ c * sum n f
unfolding sum
sum_scale zero c f = omega arith
sum_scale (suc n) c f = grind (arith, sum_scale n c f)

-- Coefficient `i` of x^k * b modulo x^m - z.
unfoldable pub rotated : ℕ → ℕ → (ℕ → ℕ) → ℕ → ℕ → ℕ
rotated m z b k i = if leb k i then b (i - k) else z * b (m + i - k)

-- Coefficient `i` of a * b modulo x^m - z.
unfoldable pub product : ℕ → ℕ → (ℕ → ℕ) → (ℕ → ℕ) → ℕ → ℕ
product m z a b i = sum m λ k. a k * rotated m z b k i

-- A polynomial of degree below 2m modulo x^m - z.
unfoldable pub fold : ℕ → ℕ → (ℕ → ℕ) → ℕ → ℕ
fold m z a i = a i + z * a (i + m)

-- x^k * b and x^(k + m) * b, first modulo x^(2m) - z^2 and then modulo x^m - z.
fold-rotated :
    (m z : ℕ) (b : ℕ → ℕ) (k i : ℕ)
    → k < m
    → i < m
    → fold m z (rotated (m + m) (z * z) b k) i ≡ rotated m z (fold m z b) k i
unfolding fold rotated
fold-rotated m z b k i h h' =
    let second : leb k (i + m) ≡ true = ground arith in
    elim (Bool-cases (leb k i)) [
      | inl e ↦
          let le : k ≤ i = ground arith in
          let x : i + m - k ≡ i - k + m = omega arith in rw (second, e, x) refl
      | inr e ↦
          let lt : i < k = ground arith in
          let x : i + m - k ≡ m + i - k = omega arith in
          let y : m + m + i - k ≡ m + i - k + m = omega arith in rw (second, e, x, y) (omega arith)
    ]

fold-rotated_past :
    (m z : ℕ) (b : ℕ → ℕ) (k i : ℕ)
    → k < m
    → i < m
    → fold m z (rotated (m + m) (z * z) b (m + k)) i ≡ z * rotated m z (fold m z b) k i
unfolding fold rotated
fold-rotated_past m z b k i h h' =
    let first : leb (m + k) i ≡ false = ground arith in
    elim (Bool-cases (leb k i)) [
      | inl e ↦
          let le : k ≤ i = ground arith in
          let second : leb (m + k) (i + m) ≡ true = ground arith in
          let x : i + m - (m + k) ≡ i - k = omega arith in
          let y : m + m + i - (m + k) ≡ i - k + m = omega arith in
          rw (first, second, e, x, y) (omega arith)
      | inr e ↦
          let lt : i < k = ground arith in
          let second : leb (m + k) (i + m) ≡ false = ground arith in
          let x : m + m + (i + m) - (m + k) ≡ m + i - k + m = omega arith in
          let y : m + m + i - (m + k) ≡ m + i - k = omega arith in
          rw (first, second, e, x, y) (omega arith)
    ]

fold-sum :
    (n m z : ℕ) (f : ℕ → ℕ → ℕ) (i : ℕ)
    → fold m z (λ i. sum n λ k. f k i) i ≡ sum n (λ k. fold m z (f k) i)
unfolding fold
fold-sum n m z f i =
    ap (λ c. sum n (λ k. f k i) + c) (sym (sum_scale n z (λ k. f k (i + m))))
    ∙ sym (sum_add n (λ k. f k i) (λ k. z * f k (i + m)))

fold_factor : (m z c : ℕ) (f : ℕ → ℕ) (i : ℕ) → fold m z (λ i. c * f i) i ≡ c * fold m z f i
unfolding fold
fold_factor m z c f i = omega arith

-- The split respects products.
pub product-fold :
    (m z : ℕ) (a b : ℕ → ℕ) (i : ℕ)
    → i < m
    → fold m z (product (m + m) (z * z) a b) i ≡ product m z (fold m z a) (fold m z b) i
unfolding product
product-fold m z a b i h =
    let t : ℕ → ℕ → ℕ = rotated (m + m) (z * z) b in
    let u : ℕ → ℕ = λ k. rotated m z (fold m z b) k i in
    let term : (k : ℕ) → fold m z (λ i. a k * t k i) i ≡ a k * fold m z (t k) i =
      λ k. fold_factor m z (a k) (t k) i in
    fold-sum (m + m) m z (λ k i. a k * t k i) i
    ∙ sum_join m m (λ k. fold m z (λ i. a k * t k i) i)
    ∙ ap₂ (◌+◌)
        (sum_eq m (λ k. fold m z (λ i. a k * t k i) i) (λ k. a k * u k)
          (λ k l. term k ∙ ap (λ c. a k * c) (fold-rotated m z b k i l h)))
        (sum_eq m (λ k. fold m z (λ i. a (m + k) * t (m + k) i) i) (λ k. z * a (k + m) * u k)
          (λ k l.
            let e : m + k ≡ k + m = omega arith in
            term (m + k)
            ∙ ap (λ c. a (m + k) * c) (fold-rotated_past m z b k i l h)
            ∙ rw e (omega arith)))
    ∙ sym (sum_add m (λ k. a k * u k) (λ k. z * a (k + m) * u k))
    ∙ sum_eq m (λ k. a k * u k + z * a (k + m) * u k) (λ k. fold m z a k * u k)
        (λ k l. unfold fold in omega arith)

pub product-≈ :
    (m z z' : ℕ) (a a' b b' : ℕ → ℕ) (i : ℕ)
    → i < m
    → z ≈ z'
    → ((k : ℕ) → k < m → a k ≈ a' k)
    → ((k : ℕ) → k < m → b k ≈ b' k)
    → product m z a b i ≈ product m z' a' b' i
unfolding product rotated
product-≈ m z z' a a' b b' i l hz ha hb =
    sum-≈ m (λ k. a k * rotated m z b k i) (λ k. a' k * rotated m z' b' k i)
      λ k h.
        ≈-mul (a k) (a' k) (rotated m z b k i) (rotated m z' b' k i) (ha k h)
          (elim (Bool-cases (leb k i)) [
            | inl e ↦ rw e (hb (i - k) (omega arith))
            | inr e ↦
                let lt : i < k = ground arith in
                rw e (≈-mul z z' (b (m + i - k)) (b' (m + i - k)) hz (hb (m + i - k) (omega arith)))
          ])
