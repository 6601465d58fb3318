-- ===== src/Ntt/Chain.antt =====
-- mlkem/ntt.c: all layers of invntt after all of ntt, and products of what ntt leaves.
use mlkem_c_embedded.Base.{ℕ, zero, suc, ◌+◌, ◌*◌, ◌<◌, ◌≡◌, refl, ◌∙◌, arith, length, true}
use mlkem_c_embedded.Poly.{Poly}
use mlkem_c_embedded.Ntt.Field.{◌≈◌, ≈-scale}
use mlkem_c_embedded.Ntt.Product.{product-≈, fold}
use mlkem_c_embedded.Ntt.Roots.{modulus, is_paired, is_paired_next, is_paired_at}
use mlkem_c_embedded.Ntt.Halves.{IsAtMost, IsSplit, block}
use mlkem_c_embedded.Ntt.Joined.{inv_layer_joins, products, products-IsSplit}
use mlkem_c_embedded.Ntt.Transform.{
  size, size_pos, few_blocks, count, twos, first_layers, first_layers_bound, IsTransform, done,
  split,
}

pub first_layers_join :
    (t n s : ℕ) (r : Poly) (v w : ℕ → ℕ → ℕ)
    → n * size t ≡ 256
    → length r ≡ 256
    → IsAtMost 16383 r
    → is_paired t n ≡ true
    → IsTransform t n v w
    → ((c i : ℕ) → c < count t n → i < 2 → block 2 r c i ≈ s * w c i)
    → (c i : ℕ) → c < n
    → i < size t
    → block (size t) (first_layers t n r) c i ≈ twos t * s * v c i
unfolding first_layers
first_layers_join zero n s r v w whole full all paired (done e) same c i h h' =
    same c i h h' ∙ ≈-scale s (w c i) (v c i) (e c i h h') ∙ omega arith
first_layers_join (suc t) n s r v w whole full all paired (split x sp rest) same c i h h' =
    let b = first_layers_bound t (n + n) r (omega arith) full all in
    let ih =
      first_layers_join t (n + n) s r x w (omega arith) full all (is_paired_next t n paired) rest
        same in
    inv_layer_joins (size t) n 16383 (first_layers t (n + n) r) (size_pos t) whole b.0 b.1
      (omega arith) (λ c h. is_paired_at t n c paired h) (twos t * s) v x sp ih c i h h'
    ∙ omega arith

pub products-IsTransform :
    (t n : ℕ) (v v' w w' : ℕ → ℕ → ℕ)
    → n * size t ≡ 256
    → IsTransform t n v v'
    → IsTransform t n w w'
    → IsTransform t n (products (size t) n v w) (products 2 (count t n) v' w')
products-IsTransform zero n v v' w w' whole (done e) (done e') =
    done {n = n} {v = products 2 n v w} {w = products 2 n v' w'} λ c i h h'.
      unfold products in
      product-≈ 2 (modulus (n + c)) (modulus (n + c)) (v' c) (v c) (w' c) (w c) i h' refl
        (λ k l. e c k h l) (λ k l. e' c k h l)
products-IsTransform (suc t) n v v' w w' whole (split x sv tv) (split y sw tw) =
    split (products (size t) (n + n) x y)
      (products-IsSplit (size t) n v x w y (few_blocks t n whole) sv sw)
      (products-IsTransform t (n + n) x v' y w' (omega arith) tv tw)

-- The last sequence counts only modulo q.
pub IsTransform-≈ :
    (t n : ℕ) (v w w' : ℕ → ℕ → ℕ)
    → IsTransform t n v w
    → ((c i : ℕ) → c < count t n → i < 2 → w' c i ≈ w c i)
    → IsTransform t n v w'
IsTransform-≈ zero n v w w' (done e) h = done λ c i l l'. h c i l l' ∙ e c i l l'
IsTransform-≈ (suc t) n v w w' (split x s rest) h =
    split x s (IsTransform-≈ t (n + n) x w w' rest h)

abbrev pub plus : (ℕ → ℕ → ℕ) → (ℕ → ℕ → ℕ) → ℕ → ℕ → ℕ
plus v w c i = v c i + w c i

plus-IsSplit :
    (len n : ℕ) (v v' w w' : ℕ → ℕ → ℕ)
    → IsSplit len n v v'
    → IsSplit len n w w'
    → IsSplit len n (plus v w) (plus v' w')
unfolding fold
plus-IsSplit len n v v' w w' s s' = record {
  low = λ b j h h'. omega (arith, s.low b j h h', s'.low b j h h');
  high = λ b j h h'. omega (arith, s.high b j h h', s'.high b j h h');
}

pub plus-IsTransform :
    (t n : ℕ) (v v' w w' : ℕ → ℕ → ℕ)
    → IsTransform t n v v'
    → IsTransform t n w w'
    → IsTransform t n (plus v w) (plus v' w')
plus-IsTransform zero n v v' w w' (done e) (done e') =
    done λ c i h h'. omega (arith, e c i h h', e' c i h h')
plus-IsTransform (suc t) n v v' w w' (split x s rest) (split y s' rest') =
    split (plus x y) (plus-IsSplit (size t) n v x w y s s')
      (plus-IsTransform t (n + n) x v' y w' rest rest')
