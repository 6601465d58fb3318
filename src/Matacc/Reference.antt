-- ===== src/Matacc/Reference.antt =====
-- mlkem/matacc.c: the sampling on its own, as a reference for matacc_inner.
use mlkem_c_embedded.Base.{
  ℕ, zero, suc, ◌+◌, ◌*◌, ◌≤◌, ◌<◌, ◌≡◌, refl, sym, ap, ◌∙◌, arith, Bool, true, false, Bool-cases,
  ltb, leb, ◌==◌, ◌&&◌, if◌then◌else◌, List, [], ◌∷◌, ◌++◌, length, length-append, get_or, emit_eq,
  bit_and, bit_or, ◌<<<◌, ◌>>>◌, pos, Option, none, some, ◌>>=◌, inl, inr,
}
use native.Mathlib.Decide.{dec_lt}
use mlkem_c_embedded.Params.{mlkem_n, mlkem_q}
use mlkem_c_embedded.Poly.{Poly, coeff}
use mlkem_c_embedded.Poly.Arith.{poly_basemul_montgomery}
use mlkem_c_embedded.Poly.Arith.Products.{length-mul_four}
use mlkem_c_embedded.Symmetric.{Fips202, xof_blockbytes, mlkem_shake128_absorb}
use mlkem_c_embedded.Matacc.{
  Sampler, accept, flush, sample_round, sample_block, sample_blocks, matacc_inner,
}
use mlkem_c_embedded.Matacc.Sampling.{IsSampling, four, push-IsSampling, skip-IsSampling}

-- A value joins the polynomial if it is below q.
pub accept_value : ℕ → Poly → Poly
accept_value val vs = if ltb val mlkem_q then vs ++ pos val ∷ [] else vs

-- Two values of twelve bits from three bytes; the second only if a coefficient is missing.
pub accept_three : ℕ → ℕ → ℕ → Poly → Poly
accept_three b0 b1 b2 vs =
    let vs1 = accept_value (bit_and (bit_or (b0 >>> 0) (b1 <<< 8)) 0xfff) vs in
    if ltb (length vs1) mlkem_n
    then accept_value (bit_and (bit_or (b1 >>> 4) (b2 <<< 4)) 0xfff) vs1
    else vs1

pub accept_block : List ℕ → ℕ → ℕ → Poly → Poly
accept_block buf zero p vs = vs
accept_block buf (suc fuel) p vs =
    let rest =
      accept_block buf fuel (p + 3)
        (accept_three (get_or buf p 0) (get_or buf (p + 1) 0) (get_or buf (p + 2) 0) vs) in
    if ltb (length vs) mlkem_n && leb (p + 3) xof_blockbytes then rest else vs

-- The coefficients of a polynomial, from block after block of the output of the function.
pub sampled_poly : (f : Fips202) → ℕ → f.Shake128 → Poly → Option Poly
sampled_poly f zero state vs = none
sampled_poly f (suc fuel) state vs =
    let out = f.shake128_squeezeblocks 1 state in
    let vs' = accept_block out.0 57 0 vs in
    let rest = sampled_poly f fuel out.1 vs' in if ltb (length vs') mlkem_n then rest else some vs'

module _ (add : Bool) (r b : Poly) where
  record IsSampled (vs : Poly) (s : Sampler) : Type 0 where
    groups : ℕ
    waiting : ℕ
    sampling : IsSampling add r b groups waiting vs s
    enough : length vs ≤ 256

  length-IsSampled : (vs : Poly) (s : Sampler) → IsSampled vs s → s.ctr ≡ length vs
  length-IsSampled vs s i = omega (arith, i.sampling.counted, i.sampling.total)

  value-IsSampled :
      (val : ℕ) (vs : Poly) (s : Sampler)
      → IsSampled vs s
      → length vs < 256
      → IsSampled (accept_value val vs) (flush b add (accept val s))
  unfolding accept_value
  value-IsSampled val vs s i left = elim (dec_lt val mlkem_q) [
    | yes p ↦
        let taken : ltb val mlkem_q ≡ true = ground arith in
        let next =
          push-IsSampling add r b i.groups i.waiting val vs s i.sampling
            (omega (arith, i.sampling.total)) p in
        rw taken (record {
          groups = next.0;
          waiting = next.1;
          sampling = next.2;
          enough = omega (arith, length-append vs (pos val ∷ []));
        })
    | no n ↦
        let no : ltb val mlkem_q ≡ false = ground arith in
        rw (no, skip-IsSampling add r b i.groups i.waiting val vs s i.sampling (omega arith)) i
  ]

  round-IsSampled :
      (b0 b1 b2 : ℕ) (vs : Poly) (s : Sampler)
      → IsSampled vs s
      → length vs < 256
      → IsSampled (accept_three b0 b1 b2 vs) (sample_round b add b0 b1 b2 s)
  unfolding accept_three sample_round
  round-IsSampled b0 b1 b2 vs s i left =
      let val0 = bit_and (bit_or (b0 >>> 0) (b1 <<< 8)) 0xfff in
      let val1 = bit_and (bit_or (b1 >>> 4) (b2 <<< 4)) 0xfff in
      let vs1 = accept_value val0 vs in
      let s1 = flush b add (accept val0 s) in
      let i1 = value-IsSampled val0 vs s i left in
      let same : s1.ctr ≡ length vs1 = length-IsSampled vs1 s1 i1 in
      elim (dec_lt (length vs1) 256) [
        | yes p ↦
            let more : ltb (length vs1) mlkem_n ≡ true = ground arith in
            let more' : ltb s1.ctr mlkem_n ≡ true = ground arith in
            rw (more, more') (value-IsSampled val1 vs1 s1 i1 p)
        | no n ↦
            let done : ltb (length vs1) mlkem_n ≡ false = ground arith in
            let done' : ltb s1.ctr mlkem_n ≡ false = ground arith in
            let idle : flush b add s1 ≡ s1 =
              (let w = i1.sampling.waiting in
                let f = i1.sampling.few in
                let no : (s1.ctr2 == 4) ≡ false = ground arith in unfold flush in rw no refl) in
            rw (done, done', idle) i1
      ]

  block-IsSampled :
      (buf : List ℕ) (fuel p : ℕ) (vs : Poly) (s : Sampler)
      → IsSampled vs s
      → IsSampled (accept_block buf fuel p vs) (sample_block b add buf fuel p s)
  unfolding accept_block sample_block
  block-IsSampled buf zero p vs s i = i
  block-IsSampled buf (suc fuel) p vs s i =
      let same = length-IsSampled vs s i in
      let b0 = get_or buf p 0 in
      let b1 = get_or buf (p + 1) 0 in
      let b2 = get_or buf (p + 2) 0 in
      let next : length vs < 256
          → IsSampled (accept_block buf fuel (p + 3) (accept_three b0 b1 b2 vs))
              (sample_block b add buf fuel (p + 3) (sample_round b add b0 b1 b2 s)) =
        λ h.
          block-IsSampled buf fuel (p + 3) (accept_three b0 b1 b2 vs)
            (sample_round b add b0 b1 b2 s) (round-IsSampled b0 b1 b2 vs s i h) in
      let test : ltb s.ctr mlkem_n && leb (p + 3) xof_blockbytes
          ≡ ltb (length vs) mlkem_n && leb (p + 3) xof_blockbytes =
        ap (λ n. ltb n mlkem_n && leb (p + 3) xof_blockbytes) same in
      elim (Bool-cases (ltb (length vs) mlkem_n && leb (p + 3) xof_blockbytes)) [
        | inl e ↦ rw (e, test ∙ e) (next (ground arith))
        | inr e ↦ rw (e, test ∙ e) i
      ]

  -- The whole polynomial is sampled: what is stored are its products.
  result-IsSampled :
      (vs : Poly) (s : Sampler)
      → IsSampled vs s
      → 256 ≤ length vs
      → poly_basemul_montgomery add r vs b ≡ s.r
  unfolding poly_basemul_montgomery
  result-IsSampled vs s i full =
      let t = i.sampling in
      let e = i.enough in
      emit_eq 4 (four add r b vs)
        (λ d.
          length-mul_four add r (4 * d) d (coeff vs (4 * d)) (coeff vs (4 * d + 1))
            (coeff vs (4 * d + 2)) (coeff vs (4 * d + 3)) b)
        (pos 0) 64 s.r (omega arith) t.size
        λ d k h h'.
          let at : d * 4 + k ≡ 4 * d + k = omega arith in
          rw at (sym (t.stored d k (omega (arith, t.total, t.few)) h'))

  sample_blocks-sampled_poly :
      (f : Fips202) (fuel : ℕ) (state : f.Shake128) (vs : Poly) (s : Sampler)
      → IsSampled vs s
      → sample_blocks f b add fuel state s
        ≡ (sampled_poly f fuel state vs >>= λ a. some (poly_basemul_montgomery add r a b))
  unfolding sample_blocks sampled_poly
  sample_blocks-sampled_poly f zero state vs s i = refl
  sample_blocks-sampled_poly f (suc fuel) state vs s i =
      let out = f.shake128_squeezeblocks 1 state in
      let vs' = accept_block out.0 57 0 vs in
      let s' = sample_block b add out.0 57 0 s in
      let i' = block-IsSampled out.0 57 0 vs s i in
      let same = length-IsSampled vs' s' i' in
      let next = sample_blocks-sampled_poly f fuel out.1 vs' s' i' in
      elim (dec_lt (length vs') 256) [
        | yes p ↦
            let more : ltb (length vs') mlkem_n ≡ true = ground arith in
            let more' : ltb s'.ctr mlkem_n ≡ true = ground arith in rw (more, more') next
        | no n ↦
            let done : ltb (length vs') mlkem_n ≡ false = ground arith in
            let done' : ltb s'.ctr mlkem_n ≡ false = ground arith in
            rw (done, done') (ap some (sym (result-IsSampled vs' s' i' (omega arith))))
      ]

-- Sampling a polynomial while multiplying it four coefficients at a time leaves the same as sampling
-- it first and passing it to poly_basemul_montgomery, for a result of 256 coefficients, whether or
-- not the product is added to it; and either both run out of fuel or neither.
pub matacc_inner_lem :
    (f : Fips202) (fuel : ℕ) (r b : Poly) (i j : ℕ) (seed : List ℕ) (transposed add : Bool)
    → length r ≡ mlkem_n
    → matacc_inner f fuel r b i j seed transposed add ≡ (
        sampled_poly f fuel
          (if transposed
            then mlkem_shake128_absorb f seed i j
            else mlkem_shake128_absorb f seed j i)
          []
        >>= λ a. some (poly_basemul_montgomery add r a b))
unfolding matacc_inner
matacc_inner_lem f fuel r b i j seed transposed add full =
    sample_blocks-sampled_poly add r b f fuel
      (if transposed then mlkem_shake128_absorb f seed i j else mlkem_shake128_absorb f seed j i) []
      (record { r = r; ax = pos 0 ∷ pos 0 ∷ pos 0 ∷ pos 0 ∷ []; ctr = 0; ctr2 = 0 })
      (record {
        groups = 0;
        waiting = 0;
        sampling = record {
          total = refl;
          few = omega arith;
          counted = refl;
          waiting = refl;
          room = refl;
          kept = λ k h. absurd (omega arith);
          size = full;
          stored = λ d k h h'. absurd (omega arith);
          rest = λ k h. refl;
        };
        enough = omega arith;
      })
