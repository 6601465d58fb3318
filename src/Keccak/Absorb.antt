-- ===== src/Keccak/Absorb.antt =====
-- fips202/fips202.c: keccak_inc_absorb against absorbing one byte after the other.
use mlkem_c_embedded.Base.{
  ℕ, zero, suc, ◌+◌, ◌-◌, ◌≤◌, ◌<◌, ◌≡◌, refl, sym, ap, ap₂, ◌∙◌, arith, List, [], ◌∷◌, ◌++◌,
  length, take, drop, take-append-drop, length-take, length-drop, leb, ◌==◌, if◌then◌else◌,
  Bool-cases, inl, inr, true, false,
}
use mlkem_c_embedded.Keccak.{Keccakf1600, KeccakInc, inc_absorb_full, keccak_inc_absorb}

module _ (k : Keccakf1600) (r : ℕ) where
  -- The description: one byte joins the state, and a full block is permuted.
  unfoldable pub absorb_byte : KeccakInc k → ℕ → KeccakInc k
  absorb_byte s b =
      let x = k.xor_bytes s.state (b ∷ []) s.pos in
      if s.pos + 1 == r
      then record { state = k.permute x; pos = 0 }
      else record { state = x; pos = s.pos + 1 }

  unfoldable pub absorb_bytes : KeccakInc k → List ℕ → KeccakInc k
  absorb_bytes s [] = s
  absorb_bytes s (b ∷ m) = absorb_bytes (absorb_byte s b) m

  pub absorb_bytes-append :
      (s : KeccakInc k) (a b : List ℕ) → absorb_bytes s (a ++ b) ≡ absorb_bytes (absorb_bytes s a) b
  unfolding absorb_bytes
  absorb_bytes-append s [] b = refl
  absorb_bytes-append s (x ∷ a) b = absorb_bytes-append (absorb_byte s x) a b

module _ (k : Keccakf1600) (r : ℕ) (some_rate : 0 < r) (fits : r ≤ 200) where
  abbrev at : k.State → ℕ → KeccakInc k
  at x n = record { state = x; pos = n }

  absorb_byte_part :
      (s : KeccakInc k) (b : ℕ)
      → s.pos + 1 < r
      → absorb_byte k r s b ≡ at (k.xor_bytes s.state (b ∷ []) s.pos) (s.pos + 1)
  unfolding absorb_byte
  absorb_byte_part s b h = let e : (s.pos + 1 == r) ≡ false = ground arith in rw e

  absorb_byte_full :
      (s : KeccakInc k) (b : ℕ)
      → s.pos + 1 ≡ r
      → absorb_byte k r s b ≡ at (k.permute (k.xor_bytes s.state (b ∷ []) s.pos)) 0
  unfolding absorb_byte
  absorb_byte_full s b h = let e : (s.pos + 1 == r) ≡ true = ground arith in rw e

  -- One byte and the rest of its part of a block.
  xor_cons :
      (x : k.State) (b : ℕ) (m : List ℕ) (o : ℕ)
      → o + suc (length m) ≤ 200
      → k.xor_bytes (k.xor_bytes x (b ∷ []) o) m (o + 1) ≡ k.xor_bytes x (b ∷ m) o
  xor_cons x b m o h = sym (k.xor_bytes-append x (b ∷ []) m o (omega arith))

  -- Fewer bytes than the block has room for.
  pub absorb_bytes_part :
      (s : KeccakInc k) (m : List ℕ)
      → s.pos + length m < r
      → absorb_bytes k r s m ≡ at (k.xor_bytes s.state m s.pos) (s.pos + length m)
  unfolding absorb_bytes
  absorb_bytes_part s [] h = ap₂ at (sym (k.xor_bytes-nil s.state s.pos)) (omega arith)
  absorb_bytes_part s (b ∷ m) h =
      ap (λ t. absorb_bytes k r t m) (absorb_byte_part s b (omega arith))
      ∙ absorb_bytes_part (at (k.xor_bytes s.state (b ∷ []) s.pos) (s.pos + 1)) m (omega arith)
      ∙ ap₂ at (xor_cons s.state b m s.pos (omega arith)) (omega arith)

  -- The bytes that fill the block.
  pub absorb_bytes_full :
      (s : KeccakInc k) (m : List ℕ)
      → s.pos < r
      → s.pos + length m ≡ r
      → absorb_bytes k r s m ≡ at (k.permute (k.xor_bytes s.state m s.pos)) 0
  unfolding absorb_bytes
  absorb_bytes_full s [] l h = absurd (omega arith)
  absorb_bytes_full s (b ∷ []) l h = absorb_byte_full s b (omega arith)
  absorb_bytes_full s (b ∷ c ∷ m) l h =
      ap (λ t. absorb_bytes k r t (c ∷ m)) (absorb_byte_part s b (omega arith))
      ∙ absorb_bytes_full (at (k.xor_bytes s.state (b ∷ []) s.pos) (s.pos + 1)) (c ∷ m)
          (omega arith) (omega arith)
      ∙ ap (λ x. at (k.permute x) 0) (xor_cons s.state b (c ∷ m) s.pos (omega arith))

  -- For every implementation of the interface of fips202/keccakf1600.h, a rate from 1 to 200 and a
  -- counter below it: with more fuel than bytes the loop of keccak_inc_absorb ends by its own
  -- test, less than a block is left, and what it has done and what is left make the absorption of
  -- the whole message, one byte after the other.
  pub inc_absorb_full_lem :
      (fuel : ℕ) (s : KeccakInc k) (m : List ℕ)
      → s.pos < r
      → length m < fuel
      → let out = inc_absorb_full k fuel r s m in
        (out.0.pos + length out.1 < r) × (absorb_bytes k r out.0 out.1 ≡ absorb_bytes k r s m)
  unfolding inc_absorb_full
  inc_absorb_full_lem zero s m l h = absurd (omega arith)
  inc_absorb_full_lem (suc fuel) s m l h = elim (Bool-cases (leb r (length m + s.pos))) [
    | inr e ↦ rw e (ground arith, refl)
    | inl e ↦
        let n = r - s.pos in
        let enough : r ≤ length m + s.pos = ground arith in
        let block = take n m in
        let s' = at (k.permute (k.xor_bytes s.state block s.pos)) 0 in
        let rest =
          inc_absorb_full_lem fuel s' (drop n m) (omega arith) (omega (arith, length-drop n m)) in
        rw e (
          rest.0,
          rest.1
              ∙ ap (λ t. absorb_bytes k r t (drop n m))
                  (sym (absorb_bytes_full s block l (omega (arith, length-take n m))))
              ∙ sym (absorb_bytes-append k r s block (drop n m))
              ∙ ap (absorb_bytes k r s) (take-append-drop n m),
        )
  ]

  -- For every implementation of the interface of fips202/keccakf1600.h, a rate from 1 to 200 and a
  -- counter below it: keccak_inc_absorb leaves the state and the counter that absorbing its bytes
  -- one after the other does, and the counter is again below the rate.
  pub keccak_inc_absorb_lem :
      (s : KeccakInc k) (m : List ℕ)
      → s.pos < r
      → (keccak_inc_absorb k s r m ≡ absorb_bytes k r s m) × ((keccak_inc_absorb k s r m).pos < r)
  unfolding keccak_inc_absorb
  keccak_inc_absorb_lem s m l =
      let all = inc_absorb_full_lem (length m + 1) s m l (omega arith) in
      let out = inc_absorb_full k (length m + 1) r s m in
      (sym (absorb_bytes_part out.0 out.1 all.0) ∙ all.1, all.0)

  -- For every implementation of the interface of fips202/keccakf1600.h, a rate from 1 to 200 and a
  -- counter below it: absorbing a message in two calls, wherever it is cut, is absorbing it in
  -- one.
  pub keccak_inc_absorb-append :
      (s : KeccakInc k) (a b : List ℕ)
      → s.pos < r
      → keccak_inc_absorb k (keccak_inc_absorb k s r a) r b ≡ keccak_inc_absorb k s r (a ++ b)
  keccak_inc_absorb-append s a b l =
      let first = keccak_inc_absorb_lem s a l in
      (keccak_inc_absorb_lem (keccak_inc_absorb k s r a) b first.1).0
      ∙ ap (λ t. absorb_bytes k r t b) first.0
      ∙ sym (absorb_bytes-append k r s a b)
      ∙ sym (keccak_inc_absorb_lem s (a ++ b) l).0
