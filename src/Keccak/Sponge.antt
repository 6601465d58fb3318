-- ===== src/Keccak/Sponge.antt =====
-- fips202/fips202.c: the hash functions against the sponge construction of FIPS 202.
use mlkem_c_embedded.Base.{
  ℕ, zero, suc, ◌+◌, ◌-◌, ◌*◌, ◌%◌, ◌≤◌, ◌<◌, ◌≡◌, refl, sym, ap, ap₂, ◌∙◌, arith, List, [], ◌∷◌,
  ◌++◌, length, length-append, replicate, length-replicate, bit_or, ◌==◌, if◌then◌else◌, Bool-cases,
  inl, inr,
}
use native.Mathlib.Nat.{mod_self, mod-eq_of_lt, mod-add-mod, mod-lt}
use mlkem_c_embedded.Keccak.{
  Keccakf1600, KeccakInc, add_padding, keccak_inc_init, keccak_inc_absorb, keccak_inc_finalize,
  keccak_inc_squeeze,
}
use mlkem_c_embedded.Keccak.Absorb.{
  absorb_byte, absorb_bytes, absorb_bytes-append, absorb_bytes_full, keccak_inc_absorb_lem,
}
use mlkem_c_embedded.Keccak.Squeeze.{squeeze_bytes, refilled, keccak_inc_squeeze_lem}
use mlkem_c_embedded.Keccak.OneShot.{keccak_absorb_lem, keccak_squeezeblocks_lem}
use mlkem_c_embedded.Keccak.Hash.{
  shake128_absorb, shake128_squeezeblocks, shake256, sha3_256, sha3_512,
}

-- The domain bits and the padding pad10*1, as bytes, behind a last block of `c` bytes.
abbrev pub padding : ℕ → ℕ → ℕ → List ℕ
padding r c p = if c == r - 1 then bit_or p 128 ∷ [] else p ∷ (replicate (r - 2 - c) 0 ++ 128 ∷ [])

module _ (k : Keccakf1600) where
  -- The sponge: every block of the padded message joins the state, which is permuted; then each
  -- block of the output is the first `r` bytes of the state, permuted between two blocks.
  unfoldable pub sponge : ℕ → ℕ → List ℕ → ℕ → List ℕ
  sponge r p m n =
      let start : KeccakInc k = record { state = k.zero_state; pos = 0 } in
      let full = absorb_bytes k r start (m ++ padding r (length m % r) p) in
      (squeeze_bytes k r n (record { state = full.state; pos = r })).0

module _ (k : Keccakf1600) (r : ℕ) (some_rate : 1 < r) (fits : r ≤ 200) where
  abbrev at : k.State → ℕ → KeccakInc k
  at x n = record { state = x; pos = n }

  length-padding : (c p : ℕ) → c < r → c + length (padding r c p) ≡ r
  length-padding c p h = elim (Bool-cases (c == r - 1)) [
    | inl e ↦ rw e (ground arith)
    | inr e ↦
        let zeros : List ℕ = replicate (r - 2 - c) 0 in
        rw e
          (ground (arith, length-append zeros (128 ∷ []), length-replicate {A = ℕ} (r - 2 - c) 0))
  ]

  -- The code skips the zero bytes.
  xor_padding :
      (x : k.State) (c p : ℕ) → c < r → k.xor_bytes x (padding r c p) c ≡ add_padding k r x c p
  unfolding add_padding
  xor_padding x c p h = elim (Bool-cases (c == r - 1)) [
    | inl e ↦ rw e
    | inr e ↦
        let j = r - 2 - c in
        let zeros : List ℕ = replicate j 0 in
        let lz : length zeros ≡ j = length-replicate {A = ℕ} j 0 in
        let end_ : List ℕ = 128 ∷ [] in
        let y = k.xor_bytes x (p ∷ []) c in
        let last : c + 1 + length zeros ≡ r - 1 = ground arith in
        rw e (
          k.xor_bytes-append x (p ∷ []) (zeros ++ end_) c (ground (arith, length-append zeros end_))
          ∙ k.xor_bytes-append y zeros end_ (c + 1) (ground arith)
          ∙ ap₂ (λ z o. k.xor_bytes z end_ o) (k.xor_bytes_zeros y j (c + 1) (ground arith)) last)
  ]

  absorb_byte_pos :
      (s : KeccakInc k) (b : ℕ)
      → s.pos < r
      → ((absorb_byte k r s b).pos < r) × ((absorb_byte k r s b).pos ≡ (s.pos + 1) % r)
  unfolding absorb_byte
  absorb_byte_pos s b h = elim (Bool-cases (s.pos + 1 == r)) [
    | inl e ↦
        let full : s.pos + 1 ≡ r = ground arith in
        rw e (omega arith, sym (ap (λ (n : ℕ). n % r) full ∙ mod_self r))
    | inr e ↦ let part : s.pos + 1 < r = ground arith in rw e (part, sym (mod-eq_of_lt part))
  ]

  -- The counter is the number of bytes in the last block.
  absorb_bytes_pos :
      (s : KeccakInc k) (m : List ℕ)
      → s.pos < r
      → (absorb_bytes k r s m).pos ≡ (s.pos + length m) % r
  unfolding absorb_bytes
  absorb_bytes_pos s [] h = let e : s.pos + 0 ≡ s.pos = omega arith in rw e (sym (mod-eq_of_lt h))
  absorb_bytes_pos s (b ∷ m) h =
      let next = absorb_byte_pos s b h in
      let e : s.pos + 1 + length m ≡ s.pos + suc (length m) = omega arith in
      absorb_bytes_pos (absorb_byte k r s b) m next.0
      ∙ ap (λ (n : ℕ). (n + length m) % r) next.1
      ∙ mod-add-mod (s.pos + 1) r (length m)
      ∙ ap (λ (n : ℕ). n % r) e

  -- Before the last permutation, the state is the one that finalizing leaves.
  absorb_padded :
      (x : k.State) (m : List ℕ) (p : ℕ)
      → absorb_bytes k r (at x 0) (m ++ padding r (length m % r) p)
        ≡ at (k.permute (keccak_inc_finalize k (keccak_inc_absorb k (at x 0) r m) r p).state) 0
  unfolding keccak_inc_finalize
  absorb_padded x m p =
      let s = absorb_bytes k r (at x 0) m in
      let whole = keccak_inc_absorb_lem k r (omega arith) fits (at x 0) m (omega arith) in
      let none : 0 + length m ≡ length m = omega arith in
      let count : s.pos ≡ length m % r =
        absorb_bytes_pos (at x 0) m (omega arith) ∙ ap (λ (n : ℕ). n % r) none in
      let below : s.pos < r = omega (arith, count, mod-lt (length m) {m = r} (omega arith)) in
      absorb_bytes-append k r (at x 0) m (padding r (length m % r) p)
      ∙ ap (λ c. absorb_bytes k r s (padding r c p)) (sym count)
      ∙ absorb_bytes_full k r (omega arith) fits s (padding r s.pos p) below
          (length-padding s.pos p below)
      ∙ ap (λ y. at (k.permute y) 0)
          (xor_padding s.state s.pos p below
            ∙ ap (λ (t : KeccakInc k). add_padding k r t.state t.pos p) (sym whole.0))

  -- The first block of output is of the permuted state.
  squeeze_start :
      (n : ℕ) (y : k.State)
      → (squeeze_bytes k r n (at y 0)).0 ≡ (squeeze_bytes k r n (at (k.permute y) r)).0
  unfolding squeeze_bytes
  squeeze_start zero y = refl
  squeeze_start (suc n) y =
      ap (λ (out : List ℕ × KeccakInc k). out.0) (refilled k r (omega arith) fits n y)

  -- Absorbing, finalizing and squeezing is the sponge.
  incremental-sponge :
      (m : List ℕ) (p n : ℕ)
      → (keccak_inc_squeeze k n
          (keccak_inc_finalize k (keccak_inc_absorb k (keccak_inc_init k) r m) r p)
          r).0
        ≡ sponge k r p m n
  unfolding sponge keccak_inc_init keccak_inc_finalize
  incremental-sponge m p n =
      let s = keccak_inc_finalize k (keccak_inc_absorb k (at k.zero_state 0) r m) r p in
      ap (λ (out : List ℕ × KeccakInc k). out.0)
        (keccak_inc_squeeze_lem k r (omega arith) fits n s (omega arith))
      ∙ squeeze_start n s.state
      ∙ ap (λ (t : KeccakInc k). (squeeze_bytes k r n (at t.state r)).0)
          (sym (absorb_padded k.zero_state m p))

module _ (k : Keccakf1600) where
  -- For every implementation of the interface of fips202/keccakf1600.h, every message and every
  -- length of output: shake256, sha3_256 and sha3_512 give what the sponge construction gives with
  -- their rates and domain bytes, and so do the blocks that shake128_squeezeblocks takes after
  -- shake128_absorb.
  pub fips202-sponge :
      (m : List ℕ) (n : ℕ)
      → (shake256 k n m ≡ sponge k 136 0x1F m n)
        × (sha3_256 k m ≡ sponge k 136 0x06 m 32)
        × (sha3_512 k m ≡ sponge k 72 0x06 m 64)
        × ((shake128_squeezeblocks k n (shake128_absorb k m)).0 ≡ sponge k 168 0x1F m (n * 168))
  unfolding shake256 sha3_256 sha3_512 shake128_squeezeblocks shake128_absorb keccak_inc_finalize
      keccak_inc_init
  fips202-sponge m n = (
    incremental-sponge k 136 (omega arith) (omega arith) m 0x1F n,
    incremental-sponge k 136 (omega arith) (omega arith) m 0x06 32,
    incremental-sponge k 72 (omega arith) (omega arith) m 0x06 64,
    ap (λ (out : List ℕ × KeccakInc k). out.0)
          (sym (keccak_squeezeblocks_lem k 168 (omega arith) (omega arith) n (shake128_absorb k m)))
        ∙ ap (λ y. (keccak_inc_squeeze k (n * 168) (record { state = y; pos = 0 }) 168).0)
            (keccak_absorb_lem k 168 k.zero_state m 0x1F)
        ∙ incremental-sponge k 168 (omega arith) (omega arith) m 0x1F (n * 168),
  )
