-- ===== src/Keccak.antt =====
-- fips202/fips202.c: the sponge over the permutation of fips202/keccakf1600.h. Sizes are numbers with
-- no bound; in the source they are `size_t`, and no array is that long. The output buffers are
-- results.
pub mod Absorb
pub mod Squeeze
pub mod OneShot
pub mod Hash
pub mod Sponge
use mlkem_c_embedded.Base.{
  ℕ, zero, suc, ◌+◌, ◌-◌, ◌*◌, ◌≤◌, ◌≡◌, List, [], ◌∷◌, ◌++◌, length, take, drop, replicate, bit_or,
  leb, ltb, ◌==◌, if◌then◌else◌, IsBytes,
}

-- The interface of fips202/keccakf1600.h. The data of StateXORBytes is a list of its length; a state
-- has 200 bytes.
pub record Keccakf1600 : Type 1 where
  pub State : Type 0
  pub zero_state : State
  pub xor_bytes : State → List ℕ → ℕ → State
  pub extract_bytes : State → ℕ → ℕ → List ℕ
  pub permute : State → State
  pub xor_bytes-nil : (s : State) (o : ℕ) → xor_bytes s [] o ≡ s
  pub xor_bytes-append :
      (s : State) (a b : List ℕ) (o : ℕ)
      → o + length a + length b ≤ 200
      → xor_bytes s (a ++ b) o ≡ xor_bytes (xor_bytes s a o) b (o + length a)
  pub xor_bytes_zeros : (s : State) (n o : ℕ) → o + n ≤ 200 → xor_bytes s (replicate n 0) o ≡ s
  pub length-extract_bytes : (s : State) (o n : ℕ) → o + n ≤ 200 → length (extract_bytes s o n) ≡ n
  pub extract_bytes-append :
      (s : State) (o m n : ℕ)
      → o + m + n ≤ 200
      → extract_bytes s o (m + n) ≡ extract_bytes s o m ++ extract_bytes s (o + m) n
  pub extract_bytes-IsBytes : (s : State) (o n : ℕ) → o + n ≤ 200 → IsBytes (extract_bytes s o n)

abbrev pub shake128_rate : ℕ
shake128_rate = 168

abbrev pub shake256_rate : ℕ
shake256_rate = 136

abbrev pub sha3_256_rate : ℕ
sha3_256_rate = 136

abbrev pub sha3_512_rate : ℕ
sha3_512_rate = 72

-- The incremental state `s_inc`: 25 lanes, and in `pos` the counter `s_inc[25]`.
pub record KeccakInc (k : Keccakf1600) : Type 0 where
  pub state : k.State
  pub pos : ℕ

module _ (k : Keccakf1600) where
  -- The last two branches of keccak_absorb and of keccak_inc_finalize: `p` at index `n`, and the last
  -- bit of the block.
  unfoldable pub add_padding : ℕ → k.State → ℕ → ℕ → k.State
  add_padding r s n p =
      if n == r - 1
      then k.xor_bytes s (bit_or p 128 ∷ []) n
      else k.xor_bytes (k.xor_bytes s (p ∷ []) n) (128 ∷ []) (r - 1)

  -- `while (mlen >= r)`, with fuel; returns the state and what is left of the message.
  unfoldable pub absorb_full : ℕ → ℕ → k.State → List ℕ → k.State × List ℕ
  absorb_full zero r s m = (s, m)
  absorb_full (suc fuel) r s m =
      let rest = absorb_full fuel r (k.permute (k.xor_bytes s (take r m) 0)) (drop r m) in
      if leb r (length m) then rest else (s, m)

  unfoldable pub keccak_absorb : k.State → ℕ → List ℕ → ℕ → k.State
  keccak_absorb s r m p =
      let out = absorb_full (length m + 1) r s m in
      let s' = if ltb 0 (length out.1) then k.xor_bytes out.0 out.1 0 else out.0 in
      add_padding r s' (length out.1) p

  -- Returns the blocks and the state.
  unfoldable pub keccak_squeezeblocks : ℕ → k.State → ℕ → List ℕ × k.State
  keccak_squeezeblocks zero s r = ([], s)
  keccak_squeezeblocks (suc nblocks) s r =
      let s' = k.permute s in
      let rest = keccak_squeezeblocks nblocks s' r in (k.extract_bytes s' 0 r ++ rest.0, rest.1)

  unfoldable pub keccak_inc_init : KeccakInc k
  keccak_inc_init = record { state = k.zero_state; pos = 0 }

  -- `while (mlen + s_inc[25] >= r)`, with fuel.
  unfoldable pub inc_absorb_full : ℕ → ℕ → KeccakInc k → List ℕ → KeccakInc k × List ℕ
  inc_absorb_full zero r s m = (s, m)
  inc_absorb_full (suc fuel) r s m =
      let n = r - s.pos in
      let rest =
        inc_absorb_full fuel r
          (record { state = k.permute (k.xor_bytes s.state (take n m) s.pos); pos = 0 })
          (drop n m) in
      if leb r (length m + s.pos) then rest else (s, m)

  unfoldable pub keccak_inc_absorb : KeccakInc k → ℕ → List ℕ → KeccakInc k
  keccak_inc_absorb s r m =
      let out = inc_absorb_full (length m + 1) r s m in
      record { state = k.xor_bytes out.0.state out.1 out.0.pos; pos = out.0.pos + length out.1 }

  unfoldable pub keccak_inc_finalize : KeccakInc k → ℕ → ℕ → KeccakInc k
  keccak_inc_finalize s r p = record { state = add_padding r s.state s.pos p; pos = 0 }

  -- `while (outlen > 0)`, with fuel.
  unfoldable pub inc_squeeze_blocks : ℕ → ℕ → KeccakInc k → ℕ → List ℕ × KeccakInc k
  inc_squeeze_blocks zero outlen s r = ([], s)
  inc_squeeze_blocks (suc fuel) outlen s r =
      let len = if ltb outlen r then outlen else r in
      let state' = k.permute s.state in
      let rest =
        inc_squeeze_blocks fuel (outlen - len) (record { state = state'; pos = r - len }) r in
      if ltb 0 outlen then (k.extract_bytes state' 0 len ++ rest.0, rest.1) else ([], s)

  unfoldable pub keccak_inc_squeeze : ℕ → KeccakInc k → ℕ → List ℕ × KeccakInc k
  keccak_inc_squeeze outlen s r =
      let len = if ltb outlen s.pos then outlen else s.pos in
      let first = k.extract_bytes s.state (r - s.pos) len in
      let rest =
        inc_squeeze_blocks (outlen - len) (outlen - len)
          (record { state = s.state; pos = s.pos - len }) r in
      (first ++ rest.0, rest.1)
