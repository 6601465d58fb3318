-- ===== src/Poly/Compress/Store.antt =====
-- mlkem/poly.c: what poly_packcompress stores, and cmp_poly_packcompress against it.
use mlkem_c_embedded.Base.{
  ℕ, zero, suc, ◌+◌, ◌-◌, ◌*◌, ◌/◌, ◌%◌, ◌≤◌, ◌<◌, ◌≡◌, ◌↔◌, ◌⊎◌, inl, inr, ◌∙◌, sym, ap, refl,
  arith, List, length, get_or, store, length-store, get_or-store, get_or-store_outside, emit,
  get_or-emit, list_ext, IsBytes,
}
use native.Mathlib.Decide.{ℕ_discrete, dec_lt}
use native.Mathlib.Nat.{div-add-mod, mul_comm, mod-lt}
use mlkem_c_embedded.Params.{ParamSet, mlkem_packedbytes}
use mlkem_c_embedded.Poly.{Poly}
use mlkem_c_embedded.Compress.Packing.{bytes, pack10, pack11}
use mlkem_c_embedded.Poly.Compress.{
  block10, block11, pack_rounds, poly_packcompress, cmp_rounds, cmp_poly_packcompress,
}
use mlkem_c_embedded.Poly.Compress.Compare.{
  length-bytes, cmp_rounds-emit, cmp_rounds_lem, IsBytes-all,
}

module _ (base w : ℕ) (block : ℕ → List ℕ) (width : (i : ℕ) → length (block i) ≡ w) where
  pub length-pack_rounds :
      (left j : ℕ) (r : List ℕ) → length (pack_rounds base w block left j r) ≡ length r
  unfolding pack_rounds
  length-pack_rounds zero j r = refl
  length-pack_rounds (suc left) j r =
      length-pack_rounds left (j + 1) (store r (base + w * j) (bytes (block j)))
      ∙ length-store r (base + w * j) (bytes (block j))

  pub pack_rounds_outside :
      (left j : ℕ) (r : List ℕ) (i : ℕ)
      → (i < base + w * j) ⊎ (base + w * (j + left) ≤ i)
      → get_or (pack_rounds base w block left j r) i 0 ≡ get_or r i 0
  unfolding pack_rounds
  pack_rounds_outside zero j r i h = refl
  pack_rounds_outside (suc left) j r i h =
      pack_rounds_outside left (j + 1) (store r (base + w * j) (bytes (block j))) i (later h)
      ∙ get_or-store_outside r (base + w * j) (bytes (block j)) i 0 (now h)
    where
      later :
          (i < base + w * j) ⊎ (base + w * (j + suc left) ≤ i)
          → (i < base + w * (j + 1)) ⊎ (base + w * (j + 1 + left) ≤ i)
      later (inl p) = inl (omega arith)
      later (inr p) = inr (omega arith)

      now :
          (i < base + w * j) ⊎ (base + w * (j + suc left) ≤ i)
          → (i < base + w * j) ⊎ (base + w * j + length (bytes (block j)) ≤ i)
      now (inl p) = inl p
      now (inr p) = inr (omega (arith, length-bytes (block j), width j))

  pub pack_rounds_inside :
      (left j : ℕ) (r : List ℕ) (i m : ℕ)
      → j ≤ i
      → i < j + left
      → m < w
      → base + w * (j + left) ≤ length r
      → get_or (pack_rounds base w block left j r) (base + w * i + m) 0
        ≡ get_or (bytes (block i)) m 0
  unfolding pack_rounds
  pack_rounds_inside zero j r i m h h' l fits = absurd (omega arith)
  pack_rounds_inside (suc left) j r i m h h' l fits =
      let r' = store r (base + w * j) (bytes (block j)) in
      elim (ℕ_discrete j i) [
        | yes e ↦
            pack_rounds_outside left (j + 1) r' (base + w * i + m)
              (inl (omega (arith, ap (λ (t : ℕ). w * t) e)))
            ∙ rw (← e) (
                get_or-store r (base + w * j) (bytes (block j)) m 0
                  (omega (arith, length-bytes (block j), width j))
                  (omega (arith, length-bytes (block j), width j)))
        | no e ↦
            pack_rounds_inside left (j + 1) r' i m (omega arith) (omega arith) l
              (omega (arith, length-store {0} r (base + w * j) (bytes (block j))))
      ]

  -- Index `base + k` holds byte `k` of the rounds' output.
  pub get_or-pack_rounds :
      (rounds : ℕ) (r : List ℕ) (k : ℕ)
      → 0 < w
      → k < rounds * w
      → base + w * rounds ≤ length r
      → get_or (pack_rounds base w block rounds 0 r) (base + k) 0
        ≡ get_or (emit rounds (λ i. bytes (block i))) k 0
  get_or-pack_rounds rounds r k pos l fits =
      let j = k / w in
      let m = k % w in
      let at : base + k ≡ base + w * j + m = omega (arith, div-add-mod k w) in
      let at' : j * w + m ≡ k = omega (arith, div-add-mod k w, mul_comm (k / w) w) in
      let inside : m < w = mod-lt k pos in
      let round : j < rounds = quotient_lt j m at' in
      ap (λ n. get_or (pack_rounds base w block rounds 0 r) n 0) at
      ∙ pack_rounds_inside rounds 0 r j m (omega arith) (omega arith) inside (omega arith)
      ∙ sym (get_or-emit w (λ i. bytes (block i)) width' 0 rounds j m round inside)
      ∙ ap (λ n. get_or (emit rounds (λ i. bytes (block i))) n 0) at'
    where
      quotient_lt : (j m : ℕ) → j * w + m ≡ k → j < rounds
      quotient_lt j m e = grind arith

      width' : (i : ℕ) → length (bytes (block i)) ≡ w
      width' i = length-bytes (block i) ∙ width i

  -- Storing into `r` changes nothing just where the comparison finds the bytes in place.
  pub cmp_rounds-pack_rounds :
      (rounds : ℕ) (r : List ℕ)
      → IsBytes r
      → 0 < w
      → base + w * rounds ≤ length r
      → (cmp_rounds r base w block rounds 0 0 ≡ 0) ↔ (pack_rounds base w block rounds 0 r ≡ r)
  cmp_rounds-pack_rounds rounds r br pos fits =
      let cmp = cmp_rounds-emit r base w block width (IsBytes-all r br) rounds pos in
      (
        λ z.
            list_ext 0 (pack_rounds base w block rounds 0 r) r (length-pack_rounds rounds 0 r)
              (λ i l. elim (dec_lt i base) [
                | yes p ↦ pack_rounds_outside rounds 0 r i (inl (omega arith))
                | no p ↦ elim (dec_lt i (base + w * rounds)) [
                  | no p' ↦ pack_rounds_outside rounds 0 r i (inr (omega arith))
                  | yes p' ↦
                      let k = i - base in
                      let at : base + k ≡ i = omega arith in
                      let l' : k < rounds * w = omega (arith, mul_comm w rounds) in
                      rw (← at) (get_or-pack_rounds rounds r k pos l' fits ∙ sym (cmp.0 z k l'))
                ]
              ]),
        λ e. cmp.1 (λ k l.
            ap (λ xs. get_or xs (base + k) 0) (sym e) ∙ get_or-pack_rounds rounds r k pos l fits),
      )

width11 : (a : Poly) (i : ℕ) → length (block11 a i) ≡ 11
unfolding pack11
width11 a i = refl

width10 : (a : Poly) (i : ℕ) → length (block10 a i) ≡ 5
unfolding pack10
width10 a i = refl

-- For a buffer of bytes that has room for the polynomial of index `i`, cmp_poly_packcompress returns
-- 0 exactly if poly_packcompress would not change the buffer.
pub cmp_poly_packcompress-poly_packcompress :
    (ps : ParamSet) (r : List ℕ) (a : Poly) (i : ℕ)
    → IsBytes r
    → mlkem_packedbytes ps * (i + 1) ≤ length r
    → (cmp_poly_packcompress ps r a i ≡ 0) ↔ (poly_packcompress ps r a i ≡ r)
unfolding cmp_poly_packcompress poly_packcompress
cmp_poly_packcompress-poly_packcompress ParamSet.mlkem1024 r a i br fits =
    cmp_rounds-pack_rounds (352 * i) 11 (block11 a) (width11 a) 32 r br (omega arith) (omega arith)
cmp_poly_packcompress-poly_packcompress ParamSet.mlkem768 r a i br fits =
    cmp_rounds-pack_rounds (320 * i) 5 (block10 a) (width10 a) 64 r br (omega arith) (omega arith)
cmp_poly_packcompress-poly_packcompress ParamSet.mlkem512 r a i br fits =
    cmp_rounds-pack_rounds (320 * i) 5 (block10 a) (width10 a) 64 r br (omega arith) (omega arith)

-- The bytes that poly_packcompress stores.
pub packed : ParamSet → Poly → List ℕ
packed ParamSet.mlkem1024 a = emit 32 λ i. bytes (block11 a i)
packed ParamSet.mlkem768 a = emit 64 λ i. bytes (block10 a i)
packed ParamSet.mlkem512 a = emit 64 λ i. bytes (block10 a i)

pub length-poly_packcompress :
    (ps : ParamSet) (r : List ℕ) (a : Poly) (i : ℕ) → length (poly_packcompress ps r a i) ≡ length r
unfolding poly_packcompress
length-poly_packcompress ParamSet.mlkem1024 r a i =
    length-pack_rounds (352 * i) 11 (block11 a) (width11 a) 32 0 r
length-poly_packcompress ParamSet.mlkem768 r a i =
    length-pack_rounds (320 * i) 5 (block10 a) (width10 a) 64 0 r
length-poly_packcompress ParamSet.mlkem512 r a i =
    length-pack_rounds (320 * i) 5 (block10 a) (width10 a) 64 0 r

pub poly_packcompress_outside :
    (ps : ParamSet) (r : List ℕ) (a : Poly) (i k : ℕ)
    → (k < mlkem_packedbytes ps * i) ⊎ (mlkem_packedbytes ps * (i + 1) ≤ k)
    → get_or (poly_packcompress ps r a i) k 0 ≡ get_or r k 0
unfolding poly_packcompress
poly_packcompress_outside ParamSet.mlkem1024 r a i k h =
    pack_rounds_outside (352 * i) 11 (block11 a) (width11 a) 32 0 r k (omega arith)
poly_packcompress_outside ParamSet.mlkem768 r a i k h =
    pack_rounds_outside (320 * i) 5 (block10 a) (width10 a) 64 0 r k (omega arith)
poly_packcompress_outside ParamSet.mlkem512 r a i k h =
    pack_rounds_outside (320 * i) 5 (block10 a) (width10 a) 64 0 r k (omega arith)

pub poly_packcompress_inside :
    (ps : ParamSet) (r : List ℕ) (a : Poly) (i k : ℕ)
    → k < mlkem_packedbytes ps
    → mlkem_packedbytes ps * (i + 1) ≤ length r
    → get_or (poly_packcompress ps r a i) (mlkem_packedbytes ps * i + k) 0
      ≡ get_or (packed ps a) k 0
unfolding poly_packcompress packed
poly_packcompress_inside ParamSet.mlkem1024 r a i k h fits =
    get_or-pack_rounds (352 * i) 11 (block11 a) (width11 a) 32 r k (omega arith) h (omega arith)
poly_packcompress_inside ParamSet.mlkem768 r a i k h fits =
    get_or-pack_rounds (320 * i) 5 (block10 a) (width10 a) 64 r k (omega arith) h (omega arith)
poly_packcompress_inside ParamSet.mlkem512 r a i k h fits =
    get_or-pack_rounds (320 * i) 5 (block10 a) (width10 a) 64 r k (omega arith) h (omega arith)

pub cmp_poly_packcompress-lt :
    (ps : ParamSet) (r : List ℕ) (a : Poly) (i : ℕ)
    → IsBytes r
    → cmp_poly_packcompress ps r a i < 256
unfolding cmp_poly_packcompress
cmp_poly_packcompress-lt ParamSet.mlkem1024 r a i br =
    (cmp_rounds_lem r (352 * i) 11 (block11 a) (width11 a) (IsBytes-all r br) 32 0 0
      (omega arith)).0
cmp_poly_packcompress-lt ParamSet.mlkem768 r a i br =
    (cmp_rounds_lem r (320 * i) 5 (block10 a) (width10 a) (IsBytes-all r br) 64 0 0 (omega arith)).0
cmp_poly_packcompress-lt ParamSet.mlkem512 r a i br =
    (cmp_rounds_lem r (320 * i) 5 (block10 a) (width10 a) (IsBytes-all r br) 64 0 0 (omega arith)).0
