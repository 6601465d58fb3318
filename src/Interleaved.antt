-- ===== src/Interleaved.antt =====
-- fips202/keccakf1600.c with fips202/SnP-Relaned.h: the access to the bytes of a Keccak state whose 25
-- lanes of 64 bits are kept as 50 words of 32 bits, the bits at even and at odd places of a lane.
-- The branch for little-endian targets and the one for others compute the same words, and both are
-- read here as a sum of shifted bytes. An element of the data counts as an `unsigned char`.
pub mod Linear
pub mod Words
pub mod Load
pub mod Extract
mod Steps
pub mod Add
pub mod Access
pub mod Mix
pub mod Halves
pub mod Join
pub mod Bytes
pub mod Readback
use mlkem_c_embedded.Base.{
  ℕ, zero, suc, ◌+◌, ◌-◌, ◌*◌, ◌/◌, ◌%◌, ◌^◌, List, [], ◌∷◌, ◌++◌, length, get_or, set, take, drop,
  slice, store, replicate, bit_and, bit_or, bit_xor, ltb, ◌==◌, if◌then◌else◌, ◌<<<◌, ◌>>>◌,
}

-- One line of the macros: `temp = (x ^ (x >> n)) & mask; x = x ^ temp ^ (temp << n)`.
unfoldable pub swap_bits : ℕ → ℕ → ℕ → ℕ
swap_bits mask n x =
    let temp = bit_and (bit_xor x (x >>> n)) mask in
    bit_xor (bit_xor x temp) ((temp <<< n) % 2 ^ 32)

-- The lines of prepareToBitInterleaving for one word, and of prepareFromBitInterleaving.
unfoldable pub prepare_to : ℕ → ℕ
prepare_to x =
    swap_bits 0x0000FF00 8
      (swap_bits 0x00F000F0 4 (swap_bits 0x0C0C0C0C 2 (swap_bits 0x22222222 1 x)))

unfoldable pub prepare_from : ℕ → ℕ
prepare_from x =
    swap_bits 0x22222222 1
      (swap_bits 0x0C0C0C0C 2 (swap_bits 0x00F000F0 4 (swap_bits 0x0000FF00 8 x)))

-- What toBitInterleavingAndXOR joins to the two words.
unfoldable pub even_word : ℕ → ℕ → ℕ
even_word low high =
    bit_or (bit_and (prepare_to low) 0x0000FFFF) ((prepare_to high <<< 16) % 2 ^ 32)

unfoldable pub odd_word : ℕ → ℕ → ℕ
odd_word low high = bit_or (prepare_to low >>> 16) (bit_and (prepare_to high) 0xFFFF0000)

-- The two halves that fromBitInterleaving gives.
unfoldable pub low_half : ℕ → ℕ → ℕ
low_half even odd = prepare_from (bit_or (bit_and even 0x0000FFFF) ((odd <<< 16) % 2 ^ 32))

unfoldable pub high_half : ℕ → ℕ → ℕ
high_half even odd = prepare_from (bit_or (even >>> 16) (bit_and odd 0xFFFF0000))

-- Four bytes from index `o` on.
unfoldable pub load_word : List ℕ → ℕ → ℕ
load_word input o =
    bit_or
      (bit_or (bit_or (get_or input o 0 % 2 ^ 8) ((get_or input (o + 1) 0 % 2 ^ 8) <<< 8))
        ((get_or input (o + 2) 0 % 2 ^ 8) <<< 16))
      ((get_or input (o + 3) 0 % 2 ^ 8) <<< 24)

unfoldable pub word_bytes : ℕ → List ℕ
word_bytes w =
    bit_and w 0xFF ∷ bit_and (w >>> 8) 0xFF ∷ bit_and (w >>> 16) 0xFF ∷ bit_and (w >>> 24) 0xFF ∷ []

-- `state[i] ^= w`.
unfoldable pub xor_word : List ℕ → ℕ → ℕ → List ℕ
xor_word state i w = set state i (bit_xor (get_or state i 0) w)

-- `even ^= …; odd ^= …` on the words of a lane.
unfoldable pub xor_lane : List ℕ → ℕ → ℕ → ℕ → List ℕ
xor_lane state lane low high =
    xor_word (xor_word state (lane * 2 + 0) (even_word low high)) (lane * 2 + 1) (odd_word low high)

unfoldable pub add_bytes_in_lane : List ℕ → ℕ → List ℕ → ℕ → List ℕ
add_bytes_in_lane state lane input offset =
    let lane_as_bytes = store (replicate 8 0) offset input in
    xor_lane state lane (load_word lane_as_bytes 0) (load_word lane_as_bytes 4)

-- The lanes from `i` on, with `left` lanes to go; `input` begins at the byte of lane 0.
unfoldable pub add_lanes : ℕ → ℕ → List ℕ → List ℕ → List ℕ
add_lanes zero i state input = state
add_lanes (suc left) i state input =
    add_lanes left (i + 1)
      (xor_lane state i (load_word input (i * 8)) (load_word input (i * 8 + 4))) input

-- The bytes of a lane.
unfoldable pub lane_bytes : List ℕ → ℕ → List ℕ
lane_bytes state lane =
    let even = get_or state (lane * 2) 0 in
    let odd = get_or state (lane * 2 + 1) 0 in
    word_bytes (low_half even odd) ++ word_bytes (high_half even odd)

unfoldable pub extract_bytes_in_lane : List ℕ → ℕ → ℕ → ℕ → List ℕ
extract_bytes_in_lane state lane offset n = slice offset n (lane_bytes state lane)

unfoldable pub extract_lanes : ℕ → ℕ → List ℕ → List ℕ
extract_lanes zero i state = []
extract_lanes (suc left) i state = lane_bytes state i ++ extract_lanes left (i + 1) state

-- `while (_sizeLeft > 0)` of SnP_AddBytes, with fuel.
unfoldable pub add_bytes_loop : ℕ → List ℕ → List ℕ → ℕ → ℕ → List ℕ
add_bytes_loop zero state input lane offset = state
add_bytes_loop (suc fuel) state input lane offset =
    let n = if ltb (length input) (8 - offset) then length input else 8 - offset in
    let rest =
      add_bytes_loop fuel (add_bytes_in_lane state lane (take n input) offset) (drop n input)
        (lane + 1) 0 in
    if ltb 0 (length input) then rest else state

unfoldable pub state_xor_bytes : List ℕ → List ℕ → ℕ → List ℕ
state_xor_bytes state input offset =
    if offset == 0
    then (let n = length input / 8 in
        let s = add_lanes n 0 state input in
        if ltb 0 (length input % 8) then add_bytes_in_lane s n (drop (n * 8) input) 0 else s)
    else add_bytes_loop (length input) state input (offset / 8) (offset % 8)

-- The same loop of SnP_ExtractBytes; `left` is `_sizeLeft`.
unfoldable pub extract_bytes_loop : ℕ → List ℕ → ℕ → ℕ → ℕ → List ℕ
extract_bytes_loop zero state left lane offset = []
extract_bytes_loop (suc fuel) state left lane offset =
    let n = if ltb left (8 - offset) then left else 8 - offset in
    let rest = extract_bytes_loop fuel state (left - n) (lane + 1) 0 in
    if ltb 0 left then extract_bytes_in_lane state lane offset n ++ rest else []

unfoldable pub state_extract_bytes : List ℕ → ℕ → ℕ → List ℕ
state_extract_bytes state offset n =
    if offset == 0
    then (let lanes = extract_lanes (n / 8) 0 state in
        if ltb 0 (n % 8) then lanes ++ extract_bytes_in_lane state (n / 8) 0 (n % 8) else lanes)
    else extract_bytes_loop n state n (offset / 8) (offset % 8)
