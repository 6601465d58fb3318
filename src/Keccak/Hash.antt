-- ===== src/Keccak/Hash.antt =====
-- fips202/fips202.c: the hash functions, as an implementation of what the scheme uses.
use mlkem_c_embedded.Base.{
  ℕ, zero, suc, ◌-◌, ◌≤◌, ◌<◌, ◌≡◌, refl, arith, List, length, length-append, IsBytes,
  append-IsBytes,
}
use mlkem_c_embedded.Symmetric.{Fips202}
use mlkem_c_embedded.Keccak.{
  Keccakf1600, KeccakInc, shake128_rate, shake256_rate, sha3_256_rate, sha3_512_rate, keccak_absorb,
  keccak_squeezeblocks, keccak_inc_init, keccak_inc_absorb, keccak_inc_finalize, keccak_inc_squeeze,
}
use mlkem_c_embedded.Keccak.Squeeze.{refill, squeeze_bytes, keccak_inc_squeeze_lem}

module _ (k : Keccakf1600) (r : ℕ) (some_rate : 0 < r) (fits : r ≤ 200) where
  refill_pos : (s : KeccakInc k) → s.pos ≤ r → (0 < (refill k r s).pos) × ((refill k r s).pos ≤ r)
  unfolding refill
  refill_pos s h = ground arith

  -- What is squeezed is as many bytes as were asked for.
  squeeze_bytes_output :
      (n : ℕ) (s : KeccakInc k)
      → s.pos ≤ r
      → (length (squeeze_bytes k r n s).0 ≡ n) × IsBytes (squeeze_bytes k r n s).0
  unfolding squeeze_bytes
  squeeze_bytes_output zero s h = (refl, λ i l. absurd (omega arith))
  squeeze_bytes_output (suc n) s h =
      let t = refill k r s in
      let p = refill_pos s h in
      let b = k.extract_bytes t.state (r - t.pos) 1 in
      let rest =
        squeeze_bytes_output n (record { state = t.state; pos = t.pos - 1 }) (omega arith) in
      let out = squeeze_bytes k r n (record { state = t.state; pos = t.pos - 1 }) in
      (
        omega (
          arith,
          length-append b out.0,
          k.length-extract_bytes t.state (r - t.pos) 1 (omega arith),
          rest.0,
        ),
        append-IsBytes b out.0 (k.extract_bytes-IsBytes t.state (r - t.pos) 1 (omega arith)) rest.1,
      )

  -- For every implementation of the interface of fips202/keccakf1600.h, a rate from 1 to 200 and a
  -- counter of at most the rate: keccak_inc_squeeze gives as many elements as it was asked for,
  -- and all of them are bytes.
  pub inc_squeeze_output :
      (n : ℕ) (s : KeccakInc k)
      → s.pos ≤ r
      → (length (keccak_inc_squeeze k n s r).0 ≡ n) × IsBytes (keccak_inc_squeeze k n s r).0
  inc_squeeze_output n s h =
      rw (keccak_inc_squeeze_lem k r some_rate fits n s h) (squeeze_bytes_output n s h)

module _ (k : Keccakf1600) where
  unfoldable pub shake256_inc_init : KeccakInc k
  shake256_inc_init = keccak_inc_init k

  unfoldable pub shake256_inc_absorb : KeccakInc k → List ℕ → KeccakInc k
  shake256_inc_absorb state input = keccak_inc_absorb k state shake256_rate input

  unfoldable pub shake256_inc_finalize : KeccakInc k → KeccakInc k
  shake256_inc_finalize state = keccak_inc_finalize k state shake256_rate 0x1F

  unfoldable pub shake256_inc_squeeze : ℕ → KeccakInc k → List ℕ × KeccakInc k
  shake256_inc_squeeze outlen state = keccak_inc_squeeze k outlen state shake256_rate

  unfoldable pub shake128_absorb : List ℕ → k.State
  shake128_absorb input = keccak_absorb k k.zero_state shake128_rate input 0x1F

  unfoldable pub shake128_squeezeblocks : ℕ → k.State → List ℕ × k.State
  shake128_squeezeblocks nblocks state = keccak_squeezeblocks k nblocks state shake128_rate

  unfoldable pub shake256 : ℕ → List ℕ → List ℕ
  shake256 outlen input =
      let state = keccak_inc_absorb k (keccak_inc_init k) shake256_rate input in
      (keccak_inc_squeeze k outlen (keccak_inc_finalize k state shake256_rate 0x1F) shake256_rate).0

  unfoldable pub sha3_256 : List ℕ → List ℕ
  sha3_256 input =
      let ctx = keccak_inc_absorb k (keccak_inc_init k) sha3_256_rate input in
      (keccak_inc_squeeze k 32 (keccak_inc_finalize k ctx sha3_256_rate 0x06) sha3_256_rate).0

  unfoldable pub sha3_512 : List ℕ → List ℕ
  sha3_512 input =
      let ctx = keccak_inc_absorb k (keccak_inc_init k) sha3_512_rate input in
      (keccak_inc_squeeze k 64 (keccak_inc_finalize k ctx sha3_512_rate 0x06) sha3_512_rate).0

  -- A finalized state has squeezed nothing yet.
  pub finalized_output :
      (r : ℕ)
      → 0 < r
      → r ≤ 200
      → (n : ℕ) (s : KeccakInc k) (p : ℕ)
      → let out = (keccak_inc_squeeze k n (keccak_inc_finalize k s r p) r).0 in
        (length out ≡ n) × IsBytes out
  unfolding keccak_inc_finalize
  finalized_output r h h' n s p =
      inc_squeeze_output k r h h' n (keccak_inc_finalize k s r p) (omega arith)

  -- The hash functions of the scheme over the permutation.
  unfoldable pub fips202 : Fips202
  unfolding shake256_inc_finalize shake256_inc_squeeze sha3_256 sha3_512
  fips202 = record {
    Shake128 = k.State;
    Shake256Inc = KeccakInc k;
    shake128_absorb = shake128_absorb;
    shake128_squeezeblocks = shake128_squeezeblocks;
    shake256 = shake256;
    sha3_256 = sha3_256;
    sha3_512 = sha3_512;
    shake256_inc_init = shake256_inc_init;
    shake256_inc_absorb = shake256_inc_absorb;
    shake256_inc_finalize = shake256_inc_finalize;
    shake256_inc_squeeze = shake256_inc_squeeze;
    length-sha3_256 = λ m.
        (finalized_output 136 (omega arith) (omega arith) 32
          (keccak_inc_absorb k (keccak_inc_init k) 136 m) 0x06).0;
    length-sha3_512 = λ m.
        (finalized_output 72 (omega arith) (omega arith) 64
          (keccak_inc_absorb k (keccak_inc_init k) 72 m) 0x06).0;
    length-shake256_inc_squeeze =
        λ n s. (finalized_output 136 (omega arith) (omega arith) n s 0x1F).0;
    sha3_512-IsBytes = λ m.
        (finalized_output 72 (omega arith) (omega arith) 64
          (keccak_inc_absorb k (keccak_inc_init k) 72 m) 0x06).1;
    shake256_inc_squeeze-IsBytes =
        λ n s. (finalized_output 136 (omega arith) (omega arith) n s 0x1F).1;
  }
