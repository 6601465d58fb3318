-- ===== src/Matacc/Sampling.antt =====
-- mlkem/matacc.c: the values that wait for their multiplication, and the products that are stored,
-- for the values that have been accepted so far.
use mlkem_c_embedded.Base.{
  ℕ, ◌+◌, ◌-◌, ◌*◌, ◌/◌, ◌≤◌, ◌<◌, ◌≡◌, refl, sym, ap, ◌∙◌, arith, Bool, true, false, ltb, lt→ltb,
  ◌==◌, [], ◌∷◌, ◌++◌, length, length-append, length-set, get_or-set_self, get_or-set_ne,
  get_or-append_left, get_or-append_right, set, store, length-store, get_or-store,
  get_or-store_outside, ℤ, pos, inl, inr,
}
use native.Mathlib.Decide.{ℕ_discrete}
use mlkem_c_embedded.Params.{mlkem_q}
use mlkem_c_embedded.Poly.{Poly, coeff}
use mlkem_c_embedded.Poly.Arith.{mul_four}
use mlkem_c_embedded.Poly.Arith.Products.{length-mul_four}
use mlkem_c_embedded.Matacc.{Sampler, accept, flush, doublebasemul}

-- Only four coefficients of the sum so far count.
mul_four_same :
    (add : Bool) (r r' : Poly) (o k : ℕ) (a0 a1 a2 a3 : ℤ) (b : Poly)
    → ((j : ℕ) → o ≤ j → coeff r' j ≡ coeff r j)
    → mul_four add r' o k a0 a1 a2 a3 b ≡ mul_four add r o k a0 a1 a2 a3 b
unfolding mul_four
mul_four_same false r r' o k a0 a1 a2 a3 b h = refl
mul_four_same true r r' o k a0 a1 a2 a3 b h =
    rw
      (h o (omega arith), h (o + 1) (omega arith), h (o + 2) (omega arith), h (o + 3) (omega arith))
      refl

coeff-snoc : (vs : Poly) (x : ℤ) → coeff (vs ++ x ∷ []) (length vs) ≡ x
coeff-snoc vs x =
    let e : length vs + 0 ≡ length vs = omega arith in
    rw e at (get_or-append_right vs (x ∷ []) 0 (pos 0))

module _ (add : Bool) (r b : Poly) where
  -- Round `d` of poly_basemul_montgomery on the values.
  abbrev pub four : Poly → ℕ → Poly
  four vs d =
      mul_four add r (4 * d) d (coeff vs (4 * d)) (coeff vs (4 * d + 1)) (coeff vs (4 * d + 2))
        (coeff vs (4 * d + 3)) b

  -- After the values `vs`: `q` groups of four are multiplied, and `m` values wait.
  pub record IsSampling (q m : ℕ) (vs : Poly) (s : Sampler) : Type 0 where
    pub total : length vs ≡ 4 * q + m
    pub few : m < 4
    pub counted : s.ctr ≡ 4 * q + m
    pub waiting : s.ctr2 ≡ m
    pub room : length s.ax ≡ 4
    pub kept : (k : ℕ) → k < m → coeff s.ax k ≡ coeff vs (4 * q + k)
    pub size : length s.r ≡ 256
    pub stored : (d k : ℕ) → d < q → k < 4 → coeff s.r (4 * d + k) ≡ coeff (four vs d) k
    pub rest : (k : ℕ) → 4 * q ≤ k → coeff s.r k ≡ coeff r k

  four-snoc :
      (vs : Poly) (x : ℤ) (d : ℕ) → 4 * d + 4 ≤ length vs → four (vs ++ x ∷ []) d ≡ four vs d
  four-snoc vs x d h =
      rw
        (
          get_or-append_left vs (x ∷ []) (4 * d) (pos 0) (omega arith),
          get_or-append_left vs (x ∷ []) (4 * d + 1) (pos 0) (omega arith),
          get_or-append_left vs (x ∷ []) (4 * d + 2) (pos 0) (omega arith),
          get_or-append_left vs (x ∷ []) (4 * d + 3) (pos 0) (omega arith),
        )
        refl

  module _ (q m val : ℕ) (vs : Poly) (s : Sampler) (i : IsSampling q m vs s)
      (left : 4 * q + m < 256) (small : val < mlkem_q) where
    abbrev vs' : Poly
    vs' = vs ++ pos val ∷ []

    length-vs' : length vs' ≡ 4 * q + m + 1
    length-vs' = omega (arith, length-append vs (pos val ∷ []), i.total)

    -- The new value joins the waiting ones.
    kept' : (k : ℕ) → k < m + 1 → coeff (set s.ax s.ctr2 (pos val)) k ≡ coeff vs' (4 * q + k)
    kept' k h = elim (ℕ_discrete k m) [
      | yes e ↦
          let n : 4 * q + m ≡ length vs = omega (arith, i.total) in
          rw (e, i.waiting, n)
            (get_or-set_self s.ax m (pos val) (pos 0) (omega (arith, i.few, i.room))
              ∙ sym (coeff-snoc vs (pos val)))
      | no d ↦
          get_or-set_ne s.ax s.ctr2 k (pos val) (pos 0) (omega (arith, i.waiting))
          ∙ i.kept k (omega arith)
          ∙ sym (get_or-append_left vs (pos val ∷ []) (4 * q + k) (pos 0) (omega (arith, i.total)))
    ]

    stored' : (d k : ℕ) → d < q → k < 4 → coeff s.r (4 * d + k) ≡ coeff (four vs' d) k
    stored' d k h h' =
        i.stored d k h h'
        ∙ ap (λ p. coeff p k) (sym (four-snoc vs (pos val) d (omega (arith, i.total))))

    waits : m + 1 < 4 → IsSampling q (m + 1) vs' (flush b add (accept val s))
    unfolding accept flush
    waits few' =
        let taken : ltb val mlkem_q ≡ true = lt→ltb val mlkem_q small in
        let w = i.waiting in
        let no : (s.ctr2 + 1 == 4) ≡ false = ground arith in
        rw (taken, no)
          (record {
            total = omega (arith, length-vs');
            few = few';
            counted = omega (arith, i.counted);
            waiting = omega (arith, w);
            room = length-set s.ax s.ctr2 (pos val) ∙ i.room;
            kept = kept';
            size = i.size;
            stored = stored';
            rest = i.rest;
          })

    -- The fourth value: the group is multiplied.
    group : Poly
    group = four vs' q

    multiplied :
        m + 1 ≡ 4
        → flush b add (accept val s) ≡ record {
          r = store s.r (4 * q) group;
          ax = set s.ax s.ctr2 (pos val);
          ctr = s.ctr + 1;
          ctr2 = 0;
        }
    unfolding accept flush doublebasemul group
    multiplied e =
        let taken : ltb val mlkem_q ≡ true = lt→ltb val mlkem_q small in
        let w = i.waiting in
        let c = i.counted in
        let yes : (s.ctr2 + 1 == 4) ≡ true = ground arith in
        let o : s.ctr + 1 - 4 ≡ 4 * q = omega arith in
        let d : 4 * q / 4 ≡ q = omega arith in
        let m3 : m ≡ 3 = omega arith in
        let z : 4 * q + 0 ≡ 4 * q = omega arith in
        let a = set s.ax s.ctr2 (pos val) in
        let k0 : coeff a 0 ≡ coeff vs' (4 * q) = rw z at (kept' 0 (omega arith)) in
        let k1 = kept' 1 (omega arith) in
        let k2 = kept' 2 (omega arith) in
        let k3 = kept' 3 (omega arith) in
        rw (taken, yes, o, d, k0, k1, k2, k3)
          (ap (λ p. record { r = store s.r (4 * q) p; ax = a; ctr = s.ctr + 1; ctr2 = 0 })
            (mul_four_same add r s.r (4 * q) q (coeff vs' (4 * q)) (coeff vs' (4 * q + 1))
              (coeff vs' (4 * q + 2)) (coeff vs' (4 * q + 3)) b i.rest))

    length-group : length group ≡ 4
    unfolding group
    length-group =
        length-mul_four add r (4 * q) q (coeff vs' (4 * q)) (coeff vs' (4 * q + 1))
          (coeff vs' (4 * q + 2)) (coeff vs' (4 * q + 3)) b

    stored_group :
        m + 1 ≡ 4
        → (d k : ℕ) → d < q + 1
        → k < 4
        → coeff (store s.r (4 * q) group) (4 * d + k) ≡ coeff (four vs' d) k
    stored_group e d k h h' = elim (ℕ_discrete d q) [
      | yes at ↦ rw at (
          get_or-store s.r (4 * q) group k (pos 0) (omega (arith, length-group))
            (omega (arith, length-group, i.size))
          ∙ unfold group in refl)
      | no n ↦
          get_or-store_outside s.r (4 * q) group (4 * d + k) (pos 0) (inl (omega arith))
          ∙ stored' d k (omega arith) h'
    ]

    flushes : m + 1 ≡ 4 → IsSampling (q + 1) 0 vs' (flush b add (accept val s))
    flushes e = rw (multiplied e) (record {
      total = omega (arith, length-vs');
      few = omega arith;
      counted = omega (arith, i.counted);
      waiting = refl;
      room = length-set s.ax s.ctr2 (pos val) ∙ i.room;
      kept = λ k h. absurd (omega arith);
      size = length-store s.r (4 * q) group ∙ i.size;
      stored = stored_group e;
      rest = λ k h.
          get_or-store_outside s.r (4 * q) group k (pos 0) (inr (omega (arith, length-group)))
          ∙ i.rest k (omega arith);
    })

    pub push-IsSampling : (q' : ℕ) × (m' : ℕ) × IsSampling q' m' vs' (flush b add (accept val s))
    push-IsSampling = elim (ℕ_discrete (m + 1) 4) [
      | yes e ↦ (q + 1, 0, flushes e)
      | no n ↦ (q, m + 1, waits (omega (arith, i.few)))
    ]

  -- A value that is not below q changes nothing.
  pub skip-IsSampling :
      (q m val : ℕ) (vs : Poly) (s : Sampler)
      → IsSampling q m vs s
      → mlkem_q ≤ val
      → flush b add (accept val s) ≡ s
  unfolding accept flush
  skip-IsSampling q m val vs s i h =
      let left : ltb val mlkem_q ≡ false = ground arith in
      let w = i.waiting in
      let f = i.few in let no : (s.ctr2 == 4) ≡ false = ground arith in rw (left, no) refl
