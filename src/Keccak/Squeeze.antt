-- ===== src/Keccak/Squeeze.antt =====
-- fips202/fips202.c: keccak_inc_squeeze against squeezing one byte after the other.
use mlkem_c_embedded.Base.{
  ℕ, zero, suc, ◌+◌, ◌-◌, ◌≤◌, ◌<◌, ◌≡◌, refl, sym, ap, ap₂, ◌∙◌, arith, List, [], ◌∷◌, ◌++◌,
  length, ltb, ◌==◌, if◌then◌else◌, ◌⊎◌, true, false,
}
use mathlib.Core.List.{append_assoc}
use mlkem_c_embedded.Keccak.{Keccakf1600, KeccakInc, inc_squeeze_blocks, keccak_inc_squeeze}

length-eq-zero {ℓ} : {A : Type ℓ} (xs : List A) → length xs ≡ 0 → xs ≡ []
length-eq-zero [] h = refl
length-eq-zero (x ∷ xs) h = absurd (omega arith)

module _ (k : Keccakf1600) (r : ℕ) where
  -- The description: a new block is made when the last is used up, and one byte is taken from it.
  unfoldable pub refill : KeccakInc k → KeccakInc k
  refill s = if s.pos == 0 then record { state = k.permute s.state; pos = r } else s

  unfoldable pub squeeze_bytes : ℕ → KeccakInc k → List ℕ × KeccakInc k
  squeeze_bytes zero s = ([], s)
  squeeze_bytes (suc n) s =
      let t = refill s in
      let rest = squeeze_bytes n (record { state = t.state; pos = t.pos - 1 }) in
      (k.extract_bytes t.state (r - t.pos) 1 ++ rest.0, rest.1)

  -- Two lots of bytes, one after the other.
  abbrev pub and_then :
      List ℕ × KeccakInc k → (KeccakInc k → List ℕ × KeccakInc k) → List ℕ × KeccakInc k
  and_then first next = (first.0 ++ (next first.1).0, (next first.1).1)

  pub squeeze_bytes_add :
      (m n : ℕ) (s : KeccakInc k)
      → squeeze_bytes (m + n) s ≡ and_then (squeeze_bytes m s) (squeeze_bytes n)
  unfolding squeeze_bytes
  squeeze_bytes_add zero n s = let e : 0 + n ≡ n = omega arith in rw e
  squeeze_bytes_add (suc m) n s =
      let e : suc m + n ≡ suc (m + n) = omega arith in
      let t = refill s in
      let b = k.extract_bytes t.state (r - t.pos) 1 in
      let t' : KeccakInc k = record { state = t.state; pos = t.pos - 1 } in
      ap (λ c. squeeze_bytes c s) e
      ∙ ap (λ (out : List ℕ × KeccakInc k). (b ++ out.0, out.1)) (squeeze_bytes_add m n t')
      ∙ ap (λ (xs : List ℕ). (xs, (squeeze_bytes n (squeeze_bytes m t').1).1))
          (sym (append_assoc b (squeeze_bytes m t').0 (squeeze_bytes n (squeeze_bytes m t').1).0))

module _ (k : Keccakf1600) (r : ℕ) (some_rate : 0 < r) (fits : r ≤ 200) where
  abbrev at : k.State → ℕ → KeccakInc k
  at x n = record { state = x; pos = n }

  extract_none : (x : k.State) (o : ℕ) → o ≤ 200 → k.extract_bytes x o 0 ≡ []
  extract_none x o h =
      length-eq-zero (k.extract_bytes x o 0) (k.length-extract_bytes x o 0 (omega arith))

  refill_some : (x : k.State) (n : ℕ) → 0 < n → refill k r (at x n) ≡ at x n
  unfolding refill
  refill_some x n h = let e : (n == 0) ≡ false = ground arith in rw e

  -- Bytes that are there already.
  pub squeeze_bytes_part :
      (n p : ℕ) (x : k.State)
      → n ≤ p
      → p ≤ r
      → squeeze_bytes k r n (at x p) ≡ (k.extract_bytes x (r - p) n, at x (p - n))
  unfolding squeeze_bytes
  squeeze_bytes_part zero p x h l =
      ap₂ (λ (xs : List ℕ) (c : ℕ). (xs, at x c)) (sym (extract_none x (r - p) (omega arith)))
        (omega arith)
  squeeze_bytes_part (suc n) p x h l =
      let e : 1 + n ≡ suc n = omega arith in
      let next : r - (p - 1) ≡ r - p + 1 = omega arith in
      let last : p - 1 - n ≡ p - suc n = omega arith in
      rw (refill_some x p (omega arith)) (
        ap (λ (out : List ℕ × KeccakInc k). (k.extract_bytes x (r - p) 1 ++ out.0, out.1))
          (squeeze_bytes_part n (p - 1) x (omega arith) (omega arith))
        ∙ ap₂ (λ (xs : List ℕ) (c : ℕ). (xs, at x c))
            (ap (λ o. k.extract_bytes x (r - p) 1 ++ k.extract_bytes x o n) next
              ∙ sym (k.extract_bytes-append x (r - p) 1 n (omega arith))
              ∙ ap (k.extract_bytes x (r - p)) e)
            last)

  pub refilled :
      (n : ℕ) (x : k.State)
      → squeeze_bytes k r (suc n) (at x 0) ≡ squeeze_bytes k r (suc n) (at (k.permute x) r)
  unfolding squeeze_bytes refill
  refilled n x = let e : (r == 0) ≡ false = ground arith in rw e

  -- Bytes of a new block.
  squeeze_bytes_new :
      (n : ℕ) (x : k.State)
      → 0 < n
      → n ≤ r
      → squeeze_bytes k r n (at x 0) ≡ (k.extract_bytes (k.permute x) 0 n, at (k.permute x) (r - n))
  squeeze_bytes_new zero x h l = absurd (omega arith)
  squeeze_bytes_new (suc n) x h l =
      let zero_offset : r - r ≡ 0 = omega arith in
      refilled n x
      ∙ squeeze_bytes_part (suc n) r (k.permute x) l (omega arith)
      ∙ ap (λ o. (k.extract_bytes (k.permute x) o (suc n), at (k.permute x) (r - suc n)))
          zero_offset

  -- A first lot of bytes from a new block.
  pub first_block :
      (n left : ℕ) (x : k.State)
      → 0 < n
      → n ≤ r
      → squeeze_bytes k r (n + left) (at x 0)
        ≡ and_then k r
            (k.extract_bytes (k.permute x) 0 n, at (k.permute x) (r - n))
            (squeeze_bytes k r left)
  first_block n left x h l =
      squeeze_bytes_add k r n left (at x 0)
      ∙ ap (λ out. and_then k r out (squeeze_bytes k r left)) (squeeze_bytes_new n x h l)

  -- With fuel for one round for each byte. Bytes are left over only when the block is used up.
  pub inc_squeeze_blocks_lem :
      (fuel outlen p : ℕ) (x : k.State)
      → outlen ≤ fuel
      → (outlen ≡ 0) ⊎ (p ≡ 0)
      → inc_squeeze_blocks k fuel outlen (at x p) r ≡ squeeze_bytes k r outlen (at x p)
  unfolding inc_squeeze_blocks squeeze_bytes
  inc_squeeze_blocks_lem zero zero p x h e = refl
  inc_squeeze_blocks_lem zero (suc o) p x h e = absurd (omega arith)
  inc_squeeze_blocks_lem (suc fuel) zero p x h e = refl
  inc_squeeze_blocks_lem (suc fuel) (suc o) p x h e =
      let len = if ltb (suc o) r then suc o else r in
      let left = suc o - len in
      let x' = k.permute x in
      let new : p ≡ 0 = omega (arith, e) in
      let all : len + left ≡ suc o = ground arith in
      let go : ltb 0 (suc o) ≡ true = ground arith in
      rw go (
        ap (λ (out : List ℕ × KeccakInc k). (k.extract_bytes x' 0 len ++ out.0, out.1))
          (inc_squeeze_blocks_lem fuel left (r - len) x' (ground arith) (ground arith))
        ∙ sym (first_block len left x (ground arith) (ground arith))
        ∙ ap₂ (λ n q. squeeze_bytes k r n (at x q)) all (sym new))

  -- For every implementation of the interface of fips202/keccakf1600.h, a rate from 1 to 200 and a
  -- counter of at most the rate: keccak_inc_squeeze gives the bytes, the state and the counter
  -- that squeezing one byte after the other does.
  pub keccak_inc_squeeze_lem :
      (n : ℕ) (s : KeccakInc k) → s.pos ≤ r → keccak_inc_squeeze k n s r ≡ squeeze_bytes k r n s
  unfolding keccak_inc_squeeze
  keccak_inc_squeeze_lem n s h =
      let len = if ltb n s.pos then n else s.pos in
      let left = n - len in
      let first = k.extract_bytes s.state (r - s.pos) len in
      let all : len + left ≡ n = ground arith in
      ap (λ (out : List ℕ × KeccakInc k). (first ++ out.0, out.1))
        (inc_squeeze_blocks_lem left left (s.pos - len) s.state (omega arith) (ground arith))
      ∙ ap (λ out. and_then k r out (squeeze_bytes k r left))
          (sym (squeeze_bytes_part len s.pos s.state (ground arith) h))
      ∙ sym (squeeze_bytes_add k r len left s)
      ∙ ap (λ c. squeeze_bytes k r c s) all
