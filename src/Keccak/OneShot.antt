-- ===== src/Keccak/OneShot.antt =====
-- fips202/fips202.c: keccak_absorb and keccak_squeezeblocks against the incremental functions.
use mlkem_c_embedded.Base.{
  ℕ, zero, suc, ◌+◌, ◌-◌, ◌*◌, ◌≤◌, ◌<◌, ◌≡◌, refl, sym, ap, ap₂, ◌∙◌, arith, List, [], ◌∷◌, ◌++◌,
  length, take, drop, leb, ltb, if◌then◌else◌, Bool-cases, inl, inr, true,
}
use mlkem_c_embedded.Keccak.{
  Keccakf1600, KeccakInc, absorb_full, keccak_absorb, keccak_squeezeblocks, inc_absorb_full,
  keccak_inc_absorb, keccak_inc_finalize, keccak_inc_squeeze, add_padding,
}
use mlkem_c_embedded.Keccak.Squeeze.{squeeze_bytes, first_block, and_then, keccak_inc_squeeze_lem}

module _ (k : Keccakf1600) (r : ℕ) where
  abbrev at : k.State → ℕ → KeccakInc k
  at x n = record { state = x; pos = n }

  -- The two loops run alike from the counter 0.
  inc_absorb_full-absorb_full :
      (fuel : ℕ) (x : k.State) (m : List ℕ)
      → inc_absorb_full k fuel r (at x 0) m
        ≡ (at (absorb_full k fuel r x m).0 0, (absorb_full k fuel r x m).1)
  unfolding inc_absorb_full absorb_full
  inc_absorb_full-absorb_full zero x m = refl
  inc_absorb_full-absorb_full (suc fuel) x m =
      let all : r - 0 ≡ r = omega arith in
      let none : length m + 0 ≡ length m = omega arith in
      rw (all, none)
        (elim (Bool-cases (leb r (length m))) [
          | inl e ↦
              rw e (
                inc_absorb_full-absorb_full fuel (k.permute (k.xor_bytes x (take r m) 0))
                  (drop r m))
          | inr e ↦ rw e
        ])

  xor_some :
      (x : k.State) (m : List ℕ)
      → (if ltb 0 (length m) then k.xor_bytes x m 0 else x) ≡ k.xor_bytes x m 0
  xor_some x [] = sym (k.xor_bytes-nil x 0)
  xor_some x (b ∷ m) = let e : ltb 0 (suc (length m)) ≡ true = ground arith in rw e

  -- For every implementation of the interface of fips202/keccakf1600.h, every rate, state, message
  -- and domain byte: keccak_absorb leaves the state that keccak_inc_absorb, from the counter 0,
  -- and then keccak_inc_finalize leave.
  pub keccak_absorb_lem :
      (x : k.State) (m : List ℕ) (p : ℕ)
      → keccak_absorb k x r m p
        ≡ (keccak_inc_finalize k (keccak_inc_absorb k (at x 0) r m) r p).state
  unfolding keccak_absorb keccak_inc_finalize keccak_inc_absorb
  keccak_absorb_lem x m p =
      let out = absorb_full k (length m + 1) r x m in
      let e : length out.1 ≡ 0 + length out.1 = omega arith in
      rw (inc_absorb_full-absorb_full (length m + 1) x m)
        (ap₂ (λ y n. add_padding k r y n p) (xor_some out.0 out.1) e)

  module _ (some_rate : 0 < r) (fits : r ≤ 200) where
    squeezeblocks_bytes :
        (n : ℕ) (x : k.State)
        → squeeze_bytes k r (n * r) (at x 0)
          ≡ ((keccak_squeezeblocks k n x r).0, at (keccak_squeezeblocks k n x r).1 0)
    unfolding keccak_squeezeblocks squeeze_bytes
    squeezeblocks_bytes zero x = let e : 0 * r ≡ 0 = omega arith in rw e
    squeezeblocks_bytes (suc n) x =
        let e : suc n * r ≡ r + n * r = grind arith in
        let used : r - r ≡ 0 = omega arith in
        ap (λ c. squeeze_bytes k r c (at x 0)) e
        ∙ first_block k r some_rate fits r (n * r) x some_rate (omega arith)
        ∙ ap
            (λ c.
              and_then k r (k.extract_bytes (k.permute x) 0 r, at (k.permute x) c)
                (squeeze_bytes k r (n * r)))
            used
        ∙ ap (λ (out : List ℕ × KeccakInc k). (k.extract_bytes (k.permute x) 0 r ++ out.0, out.1))
            (squeezeblocks_bytes n (k.permute x))

    -- For every implementation of the interface of fips202/keccakf1600.h, and a rate from 1 to
    -- 200: keccak_squeezeblocks gives the bytes and the state that keccak_inc_squeeze does for as
    -- many bytes from the counter 0, and the counter is then 0 again.
    pub keccak_squeezeblocks_lem :
        (n : ℕ) (x : k.State)
        → keccak_inc_squeeze k (n * r) (at x 0) r
          ≡ ((keccak_squeezeblocks k n x r).0, at (keccak_squeezeblocks k n x r).1 0)
    keccak_squeezeblocks_lem n x =
        keccak_inc_squeeze_lem k r some_rate fits (n * r) (at x 0) (omega arith)
        ∙ squeezeblocks_bytes n x
