-- ===== src/Examples/Hashes.antt =====
-- fips202/: the hash functions at concrete inputs, over the permutation of fips202/keccakf1600.c.
use mlkem_c_embedded.Base.{
  ℕ, zero, suc, ◌+◌, ◌*◌, ◌<◌, ◌≡◌, refl, arith, List, [], ◌∷◌, ◌++◌, length, get_or, replicate,
  bit_xor, some, IsBytes,
}
use mlkem_c_embedded.Keccak.{
  KeccakInc, inc_absorb_full, add_padding, inc_squeeze_blocks, keccak_inc_init, keccak_inc_absorb,
  keccak_inc_finalize, keccak_inc_squeeze,
}
use mlkem_c_embedded.Keccak.Absorb.{
  absorb_bytes, inc_absorb_full_lem, keccak_inc_absorb_lem, keccak_inc_absorb-append,
}
use mlkem_c_embedded.Keccak.Squeeze.{squeeze_bytes, keccak_inc_squeeze_lem}
use mlkem_c_embedded.Keccak.Hash.{
  shake256, sha3_256, sha3_512, shake128_absorb, shake128_squeezeblocks,
}
use mlkem_c_embedded.Keccak.Sponge.{sponge, fips202-sponge}
use mlkem_c_embedded.Interleaved.{
  swap_bits, prepare_to, prepare_from, even_word, odd_word, low_half, high_half, load_word,
  word_bytes, xor_word, xor_lane, add_bytes_in_lane, add_lanes, lane_bytes, extract_bytes_in_lane,
  extract_lanes, add_bytes_loop, state_xor_bytes, extract_bytes_loop, state_extract_bytes,
}
use mlkem_c_embedded.Interleaved.Access.{interleaved}
use mlkem_c_embedded.Permute.Plane.{
  rol32, not32, parity, theta, read, chi, write_plane, run_plane, run_planes, run_round,
}
use mlkem_c_embedded.Permute.Round0.{round0_columns, round0_planes}
use mlkem_c_embedded.Permute.Round1.{round1_columns, round1_planes}
use mlkem_c_embedded.Permute.Round2.{round2_columns, round2_planes}
use mlkem_c_embedded.Permute.Round3.{round3_columns, round3_planes}
use mlkem_c_embedded.Interleaved.Add.{xor_from}
use mlkem_c_embedded.Interleaved.Join.{state_xor_bytes_lem}
use mlkem_c_embedded.Interleaved.Extract.{extract_from, state_extract_bytes_lem}
use mlkem_c_embedded.Interleaved.Bytes.{IsState}
use mlkem_c_embedded.Interleaved.Readback.{byte_at, state_extract_bytes-state_xor_bytes}
use mlkem_c_embedded.Permute.Nrounds.{
  round_constants, round0, round1, round2, round3, state_permute,
}
use mlkem_c_embedded.Permute.Run.{four_rounds, permutation, state_permute_lem, keccakf1600}
use mlkem_c_embedded.Permute.Standard.{keccak_f}
use mlkem_c_embedded.Permute.Agree.{state_permute-keccak_f}
use mlkem_c_embedded.Permute.Reachable.{Reachable, cleared, joined, Reachable-IsState}

-- The message "abc", and one longer than a block.
abbrev abc : List ℕ
abc = 97 ∷ 98 ∷ 99 ∷ []

abbrev long : List ℕ
long = replicate 150 7

abbrev some_inc : KeccakInc keccakf1600
some_inc = record { state = keccakf1600.zero_state; pos = 130 }

-- "abc" joined from byte 5 on.
abbrev some_state : List ℕ
some_state = state_xor_bytes (replicate 50 0) abc 5

some_state-Reachable : Reachable some_state
some_state-Reachable = joined (replicate 50 0) abc 5 cleared

some_state-IsState : IsState some_state
some_state-IsState = Reachable-IsState some_state some_state-Reachable

abc-IsBytes : IsBytes abc
abc-IsBytes zero h = omega arith
abc-IsBytes (suc zero) h = omega arith
abc-IsBytes (suc (suc zero)) h = omega arith
abc-IsBytes (suc (suc (suc i))) h = omega arith

keccak_inc_absorb_lem_example :
    (keccak_inc_absorb keccakf1600 some_inc 136 long ≡ absorb_bytes keccakf1600 136 some_inc long)
    × ((keccak_inc_absorb keccakf1600 some_inc 136 long).pos < 136)
keccak_inc_absorb_lem_example =
    keccak_inc_absorb_lem keccakf1600 136 (omega arith) (omega arith) some_inc long (omega arith)

inc_absorb_full_lem_example :
    let out = inc_absorb_full keccakf1600 151 136 some_inc long in
    (out.0.pos + length out.1 < 136)
    × (absorb_bytes keccakf1600 136 out.0 out.1 ≡ absorb_bytes keccakf1600 136 some_inc long)
inc_absorb_full_lem_example =
    inc_absorb_full_lem keccakf1600 136 (omega arith) (omega arith) 151 some_inc long (omega arith)
      (omega arith)

keccak_inc_absorb-append_example :
    keccak_inc_absorb keccakf1600 (keccak_inc_absorb keccakf1600 some_inc 136 abc) 136 long
    ≡ keccak_inc_absorb keccakf1600 some_inc 136 (abc ++ long)
keccak_inc_absorb-append_example =
    keccak_inc_absorb-append keccakf1600 136 (omega arith) (omega arith) some_inc abc long
      (omega arith)

keccak_inc_squeeze_lem_example :
    keccak_inc_squeeze keccakf1600 300 some_inc 136 ≡ squeeze_bytes keccakf1600 136 300 some_inc
keccak_inc_squeeze_lem_example =
    keccak_inc_squeeze_lem keccakf1600 136 (omega arith) (omega arith) 300 some_inc (omega arith)

fips202-sponge_example :
    (shake256 keccakf1600 2 long ≡ sponge keccakf1600 136 0x1F long 2)
    × (sha3_256 keccakf1600 long ≡ sponge keccakf1600 136 0x06 long 32)
    × (sha3_512 keccakf1600 long ≡ sponge keccakf1600 72 0x06 long 64)
    × ((shake128_squeezeblocks keccakf1600 2 (shake128_absorb keccakf1600 long)).0
        ≡ sponge keccakf1600 168 0x1F long (2 * 168))
fips202-sponge_example = fips202-sponge keccakf1600 long 2

state_xor_bytes_lem_example : state_xor_bytes some_state long 13 ≡ xor_from some_state 13 long
state_xor_bytes_lem_example = state_xor_bytes_lem some_state long 13

state_extract_bytes_lem_example : state_extract_bytes some_state 3 20 ≡ extract_from some_state 3 20
state_extract_bytes_lem_example = state_extract_bytes_lem some_state 3 20

state_extract_bytes-state_xor_bytes_example :
    get_or (state_extract_bytes (state_xor_bytes some_state abc 6) 3 9) 4 0
    ≡ bit_xor (get_or (state_extract_bytes some_state 3 9) 4 0) (byte_at abc 6 (3 + 4))
state_extract_bytes-state_xor_bytes_example =
    state_extract_bytes-state_xor_bytes some_state abc 6 3 9 4 some_state-IsState abc-IsBytes
      (omega arith) (omega arith)

state_permute_lem_example :
    state_permute some_state ≡ some (four_rounds 6 (record { words = some_state; next = 0 })).words
state_permute_lem_example = state_permute_lem some_state

state_permute-keccak_f_example : state_permute some_state ≡ some (keccak_f some_state)
state_permute-keccak_f_example = state_permute-keccak_f some_state some_state-IsState.0

-- The digest of "abc" that FIPS 202 gives for SHA3-256.
digest_of_abc :
    sha3_256 keccakf1600 abc
    ≡ 0x3A ∷ 0x98 ∷ 0x5D ∷ 0xA7 ∷ 0x4F ∷ 0xE2 ∷ 0x25 ∷ 0xB2 ∷ 0x04 ∷ 0x5C ∷ 0x17 ∷ 0x2D ∷ 0x6B
      ∷ 0xD3 ∷ 0x90 ∷ 0xBD ∷ 0x85 ∷ 0x5F ∷ 0x08 ∷ 0x6E ∷ 0x3E ∷ 0x9D ∷ 0x52 ∷ 0x5B ∷ 0x46 ∷ 0xBF
      ∷ 0xE2 ∷ 0x45 ∷ 0x11 ∷ 0x43 ∷ 0x15 ∷ 0x32 ∷ []
unfolding sha3_256 keccak_inc_init keccak_inc_absorb inc_absorb_full keccak_inc_finalize add_padding
    keccak_inc_squeeze inc_squeeze_blocks keccakf1600 interleaved state_xor_bytes add_lanes
    add_bytes_loop add_bytes_in_lane xor_lane xor_word load_word even_word odd_word prepare_to
    prepare_from swap_bits state_extract_bytes extract_lanes extract_bytes_loop
    extract_bytes_in_lane lane_bytes word_bytes low_half high_half permutation four_rounds round0
    round1 round2 round3 round_constants run_round run_planes run_plane write_plane chi read theta
    parity not32 rol32 round0_columns round0_planes round1_columns round1_planes round2_columns
    round2_planes round3_columns round3_planes
digest_of_abc = refl
