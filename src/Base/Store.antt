-- ===== src/Base/Store.antt =====
-- Consecutive writes into an array, as the code that fills a buffer makes them.
use mlkem_c_embedded.Base.Lists.{
  length, get_or, set, take, drop, length-take, length-drop, get_or-take, length-set,
  get_or-set_self, get_or-set_ne, get_or_past,
}
use mlkem_c_embedded.Base.Blocks.{list_ext}
use Prim.Native.Nat.{ℕ, zero, suc, ◌+◌, ◌-◌, ◌≤◌, ◌<◌}
use mathlib.Core.Path.{◌≡◌, refl, sym, ap, ◌∙◌}
use mathlib.Core.Logic.{◌⊎◌, ◌↔◌, inl, inr}
use mathlib.Core.List.{List, [], ◌∷◌}
use native.Mathlib.Decide.{dec_lt, ℕ_discrete}
use native.Mathlib.Omega.{arith}

module _ {ℓ} {A : Type ℓ} where
  -- The elements of `xs` to the indices from `off` on.
  abbrev pub store : List A → ℕ → List A → List A
  store r off [] = r
  store r off (x ∷ xs) = store (set r off x) (off + 1) xs

  pub length-store : (r : List A) (off : ℕ) (xs : List A) → length (store r off xs) ≡ length r
  length-store r off [] = refl
  length-store r off (x ∷ xs) = length-store (set r off x) (off + 1) xs ∙ length-set r off x

  pub get_or-store_outside :
      (r : List A) (off : ℕ) (xs : List A) (i : ℕ) (d : A)
      → (i < off) ⊎ (off + length xs ≤ i)
      → get_or (store r off xs) i d ≡ get_or r i d
  get_or-store_outside r off [] i d h = refl
  get_or-store_outside r off (x ∷ xs) i d (inl h) =
      get_or-store_outside (set r off x) (off + 1) xs i d (inl (omega arith))
      ∙ get_or-set_ne r off i x d (omega arith)
  get_or-store_outside r off (x ∷ xs) i d (inr h) =
      get_or-store_outside (set r off x) (off + 1) xs i d (inr (omega arith))
      ∙ get_or-set_ne r off i x d (omega arith)

  pub get_or-store :
      (r : List A) (off : ℕ) (xs : List A) (k : ℕ) (d : A)
      → k < length xs
      → off + length xs ≤ length r
      → get_or (store r off xs) (off + k) d ≡ get_or xs k d
  get_or-store r off [] k d h fits = absurd (omega arith)
  get_or-store r off (x ∷ xs) zero d h fits =
      get_or-store_outside (set r off x) (off + 1) xs (off + 0) d (inl (omega arith))
      ∙ (let e : off + 0 ≡ off = omega arith in rw e (get_or-set_self r off x d (omega arith)))
  get_or-store r off (x ∷ xs) (suc k) d h fits =
      let e : off + suc k ≡ off + 1 + k = omega arith in
      rw e (
        get_or-store (set r off x) (off + 1) xs k d (omega arith)
          (omega (arith, length-set {ℓ} r off x)))

  pub get_or-drop :
      (off : ℕ) (xs : List A) (k : ℕ) (d : A) → get_or (drop off xs) k d ≡ get_or xs (off + k) d
  get_or-drop zero xs k d = let e : 0 + k ≡ k = omega arith in rw e
  get_or-drop (suc off) [] k d = refl
  get_or-drop (suc off) (x ∷ xs) k d =
      let e : suc off + k ≡ suc (off + k) = omega arith in rw e (get_or-drop off xs k d)

  -- A write gives the same element in two lists of one length that have the same element there.
  pub store_agree :
      (r s : List A) (off : ℕ) (xs : List A) (i : ℕ) (d : A)
      → length r ≡ length s
      → get_or r i d ≡ get_or s i d
      → get_or (store r off xs) i d ≡ get_or (store s off xs) i d
  store_agree r s off [] i d e h = h
  store_agree r s off (x ∷ xs) i d e h =
      let here : get_or (set r off x) i d ≡ get_or (set s off x) i d = elim (ℕ_discrete i off) [
        | no n ↦
            get_or-set_ne r off i x d (λ q. n (sym q))
            ∙ h
            ∙ sym (get_or-set_ne s off i x d (λ q. n (sym q)))
        | yes q ↦ rw q (elim (dec_lt off (length r)) [
          | yes l ↦ get_or-set_self r off x d l ∙ sym (get_or-set_self s off x d (omega arith))
          | no l ↦
              get_or_past (set r off x) off d (omega (arith, length-set {ℓ} r off x))
              ∙ sym (get_or_past (set s off x) off d (omega (arith, length-set {ℓ} s off x)))
        ])
      ] in
      store_agree (set r off x) (set s off x) (off + 1) xs i d
        (length-set r off x ∙ e ∙ sym (length-set s off x)) here

  -- Writing what is there already changes nothing, and only that.
  pub store_same :
      (r : List A) (off : ℕ) (xs : List A) (d : A)
      → off + length xs ≤ length r
      → (store r off xs ≡ r) ↔ ((k : ℕ) → k < length xs → get_or r (off + k) d ≡ get_or xs k d)
  store_same r off xs d fits = (
    λ e k l. ap (λ ys. get_or ys (off + k) d) (sym e) ∙ get_or-store r off xs k d l fits,
    λ h. list_ext d (store r off xs) r (length-store r off xs) λ i l. elim (dec_lt i off) [
      | yes p ↦ get_or-store_outside r off xs i d (inl p)
      | no p ↦ elim (dec_lt i (off + length xs)) [
        | no p' ↦ get_or-store_outside r off xs i d (inr (omega arith))
        | yes p' ↦
            let k = i - off in
            let at : off + k ≡ i = omega arith in
            rw (← at) (get_or-store r off xs k d (omega arith) fits ∙ sym (h k (omega arith)))
      ]
    ],
  )

  -- Writing an array of the buffer's length leaves that array.
  pub store_all : (r xs : List A) (d : A) → length xs ≡ length r → store r 0 xs ≡ xs
  store_all r xs d e = list_ext d (store r 0 xs) xs (length-store r 0 xs ∙ sym e) λ k l.
      let at : 0 + k ≡ k = omega arith in
      rw at at (get_or-store r 0 xs k d (omega (arith, length-store r 0 xs)) (omega arith))

  -- What was written is read back, and what stands beside it is as before.
  pub slice-store :
      (r : List A) (off : ℕ) (xs : List A) (d : A)
      → off + length xs ≤ length r
      → take (length xs) (drop off (store r off xs)) ≡ xs
  slice-store r off xs d fits =
      let all = drop off (store r off xs) in
      let size : length (take (length xs) all) ≡ length xs = omega (
        arith,
        length-take (length xs) all,
        length-drop off (store r off xs),
        length-store r off xs,
      ) in
      list_ext d (take (length xs) all) xs size λ k l.
        let inside : k < length xs = omega arith in
        get_or-take (length xs) all k d inside
        ∙ get_or-drop off (store r off xs) k d
        ∙ get_or-store r off xs k d inside fits

  pub slice-store_other :
      (r : List A) (off : ℕ) (xs : List A) (o n : ℕ) (d : A)
      → (o + n ≤ off) ⊎ (off + length xs ≤ o)
      → take n (drop o (store r off xs)) ≡ take n (drop o r)
  slice-store_other r off xs o n d apart =
      let new = drop o (store r off xs) in
      let old = drop o r in
      let size : length (take n new) ≡ length (take n old) = omega (
        arith,
        length-take n new,
        length-take n old,
        length-drop o (store r off xs),
        length-drop o r,
        length-store r off xs,
      ) in
      list_ext d (take n new) (take n old) size λ k l.
        let inside : k < n = omega (arith, length-take n new) in
        let outside : (o + k < off) ⊎ (off + length xs ≤ o + k) = elim apart [
          | inl a ↦ inl (omega arith)
          | inr a ↦ inr (omega arith)
        ] in
        get_or-take n new k d inside
        ∙ get_or-drop o (store r off xs) k d
        ∙ get_or-store_outside r off xs (o + k) d outside
        ∙ sym (get_or-take n old k d inside ∙ get_or-drop o r k d)
