-- ===== src/Base/Blocks.antt =====
-- Loops that write one block of a fixed width in each round, and the lists that they leave.
use mlkem_c_embedded.Base.Lists.{length, get_or, length-append}
use Prim.Native.Nat.{ℕ, zero, suc, ◌+◌, ◌*◌, ◌/◌, ◌%◌, ◌<◌}
use mathlib.Core.Path.{◌≡◌, refl, sym, ap, ap₂, ◌∙◌}
use mathlib.Core.List.{List, [], ◌∷◌, ◌++◌}
use native.Mathlib.Nat.{div-add-mod, mul_comm, mod-lt}
use native.Mathlib.Omega.{arith}

module _ {ℓ} {A : Type ℓ} where
  -- The blocks of the rounds `i`, `i + 1`, …, `left` of them.
  unfoldable pub emit_from : ℕ → ℕ → (ℕ → List A) → List A
  emit_from zero i block = []
  emit_from (suc left) i block = block i ++ emit_from left (i + 1) block

  -- `for (i = 0; i < rounds; i++)` with `block i` written behind what is there.
  unfoldable pub emit : ℕ → (ℕ → List A) → List A
  unfolding emit_from
  emit rounds block = emit_from rounds 0 block

  pub get_or-append_left :
      (xs ys : List A) (i : ℕ) (d : A) → i < length xs → get_or (xs ++ ys) i d ≡ get_or xs i d
  get_or-append_left [] ys i d h = absurd (omega arith)
  get_or-append_left (x ∷ xs) ys zero d h = refl
  get_or-append_left (x ∷ xs) ys (suc i) d h = get_or-append_left xs ys i d (omega arith)

  pub get_or-append_right :
      (xs ys : List A) (i : ℕ) (d : A) → get_or (xs ++ ys) (length xs + i) d ≡ get_or ys i d
  get_or-append_right [] ys i d = let e : 0 + i ≡ i = omega arith in ap (λ k. get_or ys k d) e
  get_or-append_right (x ∷ xs) ys i d =
      let e : suc (length xs) + i ≡ suc (length xs + i) = omega arith in
      ap (λ k. get_or (x ∷ (xs ++ ys)) k d) e ∙ get_or-append_right xs ys i d

  -- Two lists with the same elements are one.
  pub list_ext :
      (d : A) (xs ys : List A)
      → length xs ≡ length ys
      → ((i : ℕ) → i < length xs → get_or xs i d ≡ get_or ys i d)
      → xs ≡ ys
  list_ext d [] [] e h = refl
  list_ext d [] (y ∷ ys) e h = absurd (omega arith)
  list_ext d (x ∷ xs) [] e h = absurd (omega arith)
  list_ext d (x ∷ xs) (y ∷ ys) e h =
      ap₂ ◌∷◌ (h 0 (omega arith)) (list_ext d xs ys (omega arith) (λ i k. h (suc i) (omega arith)))

  module _ (w : ℕ) (block : ℕ → List A) (width : (i : ℕ) → length (block i) ≡ w) where
    length-emit_from : (left i : ℕ) → length (emit_from left i block) ≡ left * w
    unfolding emit_from
    length-emit_from zero i = omega arith
    length-emit_from (suc left) i = omega (
      arith,
      length-append {ℓ} (block i) (emit_from left (i + 1) block),
      width i,
      length-emit_from left (i + 1),
    )

    get_or-emit_from :
        (d : A) (left i j k : ℕ)
        → j < left
        → k < w
        → get_or (emit_from left i block) (j * w + k) d ≡ get_or (block (i + j)) k d
    unfolding emit_from
    get_or-emit_from d zero i j k h h' = absurd (omega arith)
    get_or-emit_from d (suc left) i zero k h h' =
        let e : i ≡ i + 0 = omega arith in
        let e' : 0 * w + k ≡ k = omega arith in
        get_or-append_left (block i) (emit_from left (i + 1) block) (0 * w + k) d
          (omega (arith, width i))
        ∙ ap₂ (λ a b. get_or (block a) b d) e e'
    get_or-emit_from d (suc left) i (suc j) k h h' =
        let rest = emit_from left (i + 1) block in
        let e : i + 1 + j ≡ i + suc j = omega arith in
        let split : suc j * w + k ≡ length (block i) + (j * w + k) = omega (arith, width i) in
        ap (λ m. get_or (block i ++ rest) m d) split
        ∙ get_or-append_right (block i) rest (j * w + k) d
        ∙ get_or-emit_from d left (i + 1) j k (omega arith) h'
        ∙ ap (λ m. get_or (block m) k d) e

    pub length-emit : (rounds : ℕ) → length (emit rounds block) ≡ rounds * w
    unfolding emit
    length-emit rounds = length-emit_from rounds 0

    -- Element `k` of block `j`.
    pub get_or-emit :
        (d : A) (rounds j k : ℕ)
        → j < rounds
        → k < w
        → get_or (emit rounds block) (j * w + k) d ≡ get_or (block j) k d
    unfolding emit
    get_or-emit d rounds j k h h' =
        let e : 0 + j ≡ j = omega arith in
        get_or-emit_from d rounds 0 j k h h' ∙ ap (λ m. get_or (block m) k d) e

    -- The loop leaves `xs` if each block holds the elements of `xs` at its place.
    pub emit_eq :
        (d : A) (rounds : ℕ) (xs : List A)
        → 0 < w
        → length xs ≡ rounds * w
        → ((j k : ℕ) → j < rounds → k < w → get_or (block j) k d ≡ get_or xs (j * w + k) d)
        → emit rounds block ≡ xs
    emit_eq d rounds xs pos e h =
        list_ext d (emit rounds block) xs (length-emit rounds ∙ sym e) λ i below.
          let j = i / w in
          let k = i % w in
          let split : j * w + k ≡ i = omega (arith, div-add-mod i w, mul_comm (i / w) w) in
          let inside : k < w = mod-lt i pos in
          let round : j < rounds = place i j k rounds split (omega (arith, length-emit rounds)) in
          rw (← split) (get_or-emit d rounds j k round inside ∙ h j k round inside)
      where
        place : (i j k n : ℕ) → j * w + k ≡ i → i < n * w → j < n
        place i j k n e' lt = grind arith

  -- Loops whose blocks agree leave the same list.
  emit_from_ext :
      (left i : ℕ) (f g : ℕ → List A)
      → ((j : ℕ) → j < i + left → f j ≡ g j)
      → emit_from left i f ≡ emit_from left i g
  unfolding emit_from
  emit_from_ext zero i f g h = refl
  emit_from_ext (suc left) i f g h =
      ap₂ ◌++◌ (h i (omega arith)) (emit_from_ext left (i + 1) f g (λ j k. h j (omega arith)))

  pub emit_ext :
      (rounds : ℕ) (f g : ℕ → List A)
      → ((j : ℕ) → j < rounds → f j ≡ g j)
      → emit rounds f ≡ emit rounds g
  unfolding emit
  emit_ext rounds f g h = emit_from_ext rounds 0 f g (λ j k. h j (omega arith))

  -- Loops that write one element in each round.
  pub length-emit_one : (rounds : ℕ) (g : ℕ → A) → length (emit rounds (λ i. g i ∷ [])) ≡ rounds
  length-emit_one rounds g =
      let e : rounds * 1 ≡ rounds = omega arith in
      length-emit 1 (λ i. g i ∷ []) (λ i. refl) rounds ∙ e

  pub get_or-emit_one :
      (d : A) (rounds : ℕ) (g : ℕ → A) (i : ℕ)
      → i < rounds
      → get_or (emit rounds (λ i. g i ∷ [])) i d ≡ g i
  get_or-emit_one d rounds g i h =
      let e : i ≡ i * 1 + 0 = omega arith in
      ap (λ k. get_or (emit rounds (λ i. g i ∷ [])) k d) e
      ∙ get_or-emit 1 (λ i. g i ∷ []) (λ i. refl) d rounds i 0 h (omega arith)
