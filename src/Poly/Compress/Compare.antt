-- ===== src/Poly/Compress/Compare.antt =====
-- mlkem/poly.c: the loops of cmp_poly_compress and cmp_poly_packcompress against the bytes of the
-- compressed formats.
use mlkem_c_embedded.Base.{
  ℕ, zero, suc, ◌+◌, ◌*◌, ◌/◌, ◌%◌, ◌^◌, ◌≤◌, ◌<◌, ◌≡◌, ◌↔◌, ◌∙◌, sym, ap, refl, arith, List, [],
  ◌∷◌, length, get_or, bit_or, bit_xor, bit_or-mod, bit_xor-mod, bit_or-eq-zero, bit_xor-eq-zero,
  bit_xor_self, IsBytes, emit, get_or-emit,
}
use native.Mathlib.Decide.{ℕ_discrete, dec_lt}
use native.Mathlib.Nat.{div-add-mod, mul_comm, mod-lt}
use mlkem_c_embedded.Compress.Packing.{bytes}
use mlkem_c_embedded.Poly.Compress.{accumulate, cmp_rounds}

-- One comparison: the accumulator stays 0 just for the byte that would be stored.
differ_lem :
    (rc b x : ℕ)
    → rc < 256
    → b < 256
    → (bit_or rc (bit_xor b x) % 2 ^ 8 ≡ 0) ↔ ((rc ≡ 0) × (b ≡ x % 2 ^ 8))
differ_lem rc b x h h' =
    let cut : bit_or rc (bit_xor b x) % 2 ^ 8 ≡ bit_or rc (bit_xor b (x % 2 ^ 8)) =
      bit_or-mod 8 rc (bit_xor b x)
      ∙ ap (λ (t : ℕ). bit_or (rc % 2 ^ 8) t) (bit_xor-mod 8 b x)
      ∙ (let e : rc % 2 ^ 8 ≡ rc = omega arith in
          let e' : b % 2 ^ 8 ≡ b = omega arith in rw (e, e')) in
    (
      λ z.
          let both = bit_or-eq-zero rc (bit_xor b (x % 2 ^ 8)) (sym cut ∙ z) in
          (both.0, bit_xor-eq-zero b (x % 2 ^ 8) both.1),
      λ e. cut ∙ rw (e.0, e.1, bit_xor_self) refl,
    )

-- The bytes of `r` from `k` on that are compared are bytes.
abbrev pub BytesFrom : List ℕ → Type 0
BytesFrom r = (i : ℕ) → get_or r i 0 < 256

accumulate_lem :
    (r : List ℕ) (k rc : ℕ) (xs : List ℕ)
    → BytesFrom r
    → rc < 256
    → (accumulate r k rc xs < 256)
      × ((accumulate r k rc xs ≡ 0)
          ↔ ((rc ≡ 0) × ((m : ℕ) → m < length xs → get_or r (k + m) 0 ≡ get_or (bytes xs) m 0)))
unfolding accumulate
accumulate_lem r k rc [] br h = (h, (λ z. (z, λ m l. absurd (omega arith)), λ e. e.0))
accumulate_lem r k rc (x ∷ xs) br h =
    let next = bit_or rc (bit_xor (get_or r k 0) x) % 2 ^ 8 in
    let here = differ_lem rc (get_or r k 0) x h (br k) in
    let rest = accumulate_lem r (k + 1) next xs br (omega arith) in
    (
      rest.0,
      (
        λ z. let later = rest.1.0 z in let now = here.0 later.0 in (now.0, split now.1 later.1),
        λ e. rest.1.1 (
          here.1 (e.0, (let e' : k + 0 ≡ k = omega arith in rw e' at (e.1 0 (omega arith)))),
          λ m l.
              let e' : k + suc m ≡ k + 1 + m = omega arith in rw e' at (e.1 (suc m) (omega arith)),
        ),
      ),
    )
  where
    split :
        get_or r k 0 ≡ x % 2 ^ 8
        → ((m : ℕ) → m < length xs → get_or r (k + 1 + m) 0 ≡ get_or (bytes xs) m 0)
        → (m : ℕ) → m < suc (length xs)
        → get_or r (k + m) 0 ≡ get_or (bytes (x ∷ xs)) m 0
    split now later zero l = let e' : k + 0 ≡ k = omega arith in rw e' now
    split now later (suc m) l =
        let e' : k + suc m ≡ k + 1 + m = omega arith in rw e' (later m (omega arith))

get_or_past : (r : List ℕ) (i : ℕ) → length r ≤ i → get_or r i 0 ≡ 0
get_or_past [] i h = refl
get_or_past (x ∷ xs) zero h = absurd (omega arith)
get_or_past (x ∷ xs) (suc i) h = get_or_past xs i (omega arith)

pub IsBytes-all : (r : List ℕ) → IsBytes r → BytesFrom r
IsBytes-all r h i = elim (dec_lt i (length r)) [
  | yes p ↦ h i p
  | no p ↦ rw (get_or_past r i (omega arith)) (omega arith)
]

pub length-bytes : (xs : List ℕ) → length (bytes xs) ≡ length xs
length-bytes [] = refl
length-bytes (x ∷ xs) = ap suc (length-bytes xs)

module _ (r : List ℕ) (base w : ℕ) (block : ℕ → List ℕ) (width : (i : ℕ) → length (block i) ≡ w)
    (br : BytesFrom r) where
  -- Round `i` finds the bytes that it would store.
  abbrev pub Same : ℕ → Type 0
  Same i = (m : ℕ) → m < w → get_or r (base + w * i + m) 0 ≡ get_or (bytes (block i)) m 0

  pub cmp_rounds_lem :
      (left j rc : ℕ)
      → rc < 256
      → (cmp_rounds r base w block left j rc < 256)
        × ((cmp_rounds r base w block left j rc ≡ 0)
            ↔ ((rc ≡ 0) × ((i : ℕ) → j ≤ i → i < j + left → Same i)))
  unfolding cmp_rounds
  cmp_rounds_lem zero j rc h = (h, (λ z. (z, λ i l l'. absurd (omega arith)), λ e. e.0))
  cmp_rounds_lem (suc left) j rc h =
      let here = accumulate_lem r (base + w * j) rc (block j) br h in
      let rest = cmp_rounds_lem left (j + 1) (accumulate r (base + w * j) rc (block j)) here.0 in
      (
        rest.0,
        (
          λ z.
              let later = rest.1.0 z in
              let now = here.1.0 later.0 in
              (
                now.0,
                λ i l l'. elim (ℕ_discrete j i) [
                  | yes e ↦ λ m k. rw e at (now.1 m (omega (arith, width j)))
                  | no e ↦ later.1 i (omega arith) (omega arith)
                ],
              ),
          λ e. rest.1.1 (
            here.1.1 (e.0, λ m l. e.1 j (omega arith) (omega arith) m (omega (arith, width j))),
            λ i l l'. e.1 i (omega arith) (omega arith),
          ),
        ),
      )

  -- All rounds: the bytes from `base` on are those that the storing loop writes.
  pub cmp_rounds-emit :
      (rounds : ℕ)
      → 0 < w
      → (cmp_rounds r base w block rounds 0 0 ≡ 0) ↔ (
          (k : ℕ)
          → k < rounds * w
          → get_or r (base + k) 0 ≡ get_or (emit rounds (λ i. bytes (block i))) k 0)
  cmp_rounds-emit rounds pos =
      let all = cmp_rounds_lem rounds 0 0 (omega arith) in
      (
        λ z k l.
            let j = k / w in
            let m = k % w in
            let at : j * w + m ≡ k = omega (arith, div-add-mod k w, mul_comm (k / w) w) in
            let inside : m < w = mod-lt k pos in
            let round : j < rounds = quotient_lt j m k at l in
            rw (← at) (
              rearrange j m
              ∙ (all.1.0 z).1 j (omega arith) (omega arith) m inside
              ∙ sym (get_or-emit w (λ i. bytes (block i)) width_bytes 0 rounds j m round inside)),
        λ e. all.1.1 (
          refl,
          λ j l l' m inside.
              sym (rearrange j m)
              ∙ e (j * w + m) (inside_all j m l' inside)
              ∙ get_or-emit w (λ i. bytes (block i)) width_bytes 0 rounds j m (omega arith) inside,
        ),
      )
    where
      width_bytes : (i : ℕ) → length (bytes (block i)) ≡ w
      width_bytes i = length-bytes (block i) ∙ width i

      rearrange : (j m : ℕ) → get_or r (base + (j * w + m)) 0 ≡ get_or r (base + w * j + m) 0
      rearrange j m =
          let e : base + (j * w + m) ≡ base + w * j + m = omega (arith, mul_comm j w) in rw e

      quotient_lt : (j m k : ℕ) → j * w + m ≡ k → k < rounds * w → j < rounds
      quotient_lt j m k e l = grind arith

      inside_all : (j m : ℕ) → j < 0 + rounds → m < w → j * w + m < rounds * w
      inside_all j m l l' = grind arith
