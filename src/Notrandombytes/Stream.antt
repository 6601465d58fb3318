-- ===== src/Notrandombytes/Stream.antt =====
-- hal/notrandombytes.c: the stream of bytes that is drawn, from the values of a counter of 128 bits.
use mlkem_c_embedded.Base.{
  ℕ, zero, suc, ◌+◌, ◌-◌, ◌*◌, ◌/◌, ◌%◌, ◌^◌, ◌<◌, ◌≡◌, refl, ap, ◌∙◌, arith, List, [], ◌∷◌, ◌++◌,
  length, get_or, store, ◌==◌, if◌then◌else◌, true, false, ltb, lt→ltb, drop, take, sym,
  length-append, Bool-cases, inl, inr, Bool, list_ext, length-store, get_or-store,
  get_or-store_outside, get_or-append_left, get_or-append_right,
}
use native.Mathlib.Decide.{dec_lt}
use mlkem_c_embedded.Notrandombytes.{
  seed, Generator, Mixer, surf, surf_loops, mush_rounds, xor_words, increment, count,
  bytes_of_words, randombytes_regen, randombytes,
}

-- The words of `in` where the counter is `v`; the other eight are `rest`.
abbrev pub counter : ℕ → List ℕ → List ℕ
counter v rest =
    v % 2 ^ 32
    ∷ v / 2 ^ 32 % 2 ^ 32
    ∷ v / 2 ^ 32 / 2 ^ 32 % 2 ^ 32
    ∷ v / 2 ^ 32 / 2 ^ 32 / 2 ^ 32 % 2 ^ 32
    ∷ rest

-- What follows the counter `v`.
abbrev pub block : ℕ → List ℕ → List ℕ
block v rest =
    bytes_of_words (surf (counter (v + 1) rest)) ++ bytes_of_words (surf (counter (v + 2) rest))

-- Byte `i` of those that are drawn: first what is left in the buffer, then one block after the other,
-- each from its last byte to its first.
abbrev pub stream_byte : ℕ → List ℕ → List ℕ → ℕ → ℕ → ℕ
stream_byte v rest out_buf outleft i =
    if ltb i outleft
    then get_or out_buf (outleft - 1 - i) 0
    else get_or (block (v + 2 * ((i - outleft) / 64)) rest) (63 - (i - outleft) % 64) 0

either : (b : Bool) (xs : List ℕ) → (if b then xs else xs) ≡ xs
either true xs = refl
either false xs = refl

count-counter : (v : ℕ) (rest : List ℕ) → count (counter v rest) ≡ counter (v + 1) rest
unfolding count increment
count-counter v rest =
    let carry : (x : ℕ)
        → ((x % 2 ^ 32 + 1) % 2 ^ 32 == 0) ≡ true
        → (x + 1) / 2 ^ 32 ≡ x / 2 ^ 32 + 1 =
      λ x h. ground arith in
    let next : (x : ℕ) → (x % 2 ^ 32 + 1) % 2 ^ 32 ≡ (x + 1) % 2 ^ 32 = λ x. omega arith in
    let stop : (x : ℕ) → ((x % 2 ^ 32 + 1) % 2 ^ 32 == 0) ≡ false → (x + 1) / 2 ^ 32 ≡ x / 2 ^ 32 =
      λ x h. ground arith in
    let v1 = v / 2 ^ 32 in
    let v2 = v1 / 2 ^ 32 in
    let v3 = v2 / 2 ^ 32 in
    elim (Bool-cases ((v % 2 ^ 32 + 1) % 2 ^ 32 == 0)) [
      | inr e ↦ rw (e, stop v e, next v)
      | inl e ↦ elim (Bool-cases ((v1 % 2 ^ 32 + 1) % 2 ^ 32 == 0)) [
        | inr e1 ↦ rw (e, e1, carry v e, stop v1 e1, next v, next v1)
        | inl e1 ↦ elim (Bool-cases ((v2 % 2 ^ 32 + 1) % 2 ^ 32 == 0)) [
          | inr e2 ↦ rw (e, e1, e2, carry v e, carry v1 e1, stop v2 e2, next v, next v1, next v2)
          | inl e2 ↦
              rw (e, e1, e2, carry v e, carry v1 e1, carry v2 e2, next v, next v1, next v2, next v3)
                (either ((v3 + 1) % 2 ^ 32 == 0) (
                  (v + 1) % 2 ^ 32
                  ∷ (v1 + 1) % 2 ^ 32
                  ∷ (v2 + 1) % 2 ^ 32
                  ∷ (v3 + 1) % 2 ^ 32
                  ∷ rest))
        ]
      ]
    ]

length-xor_words : (a b : List ℕ) → length (xor_words a b) ≡ length a
unfolding xor_words
length-xor_words [] b = refl
length-xor_words (x ∷ a) [] = refl
length-xor_words (x ∷ a) (y ∷ b) = ap suc (length-xor_words a b)

length-surf_loops :
    (left : ℕ) (s : Mixer) (out : List ℕ) → length (surf_loops left s out) ≡ length out
unfolding surf_loops
length-surf_loops zero s out = refl
length-surf_loops (suc left) s out =
    let t = (mush_rounds 16 s).t in
    length-surf_loops left (mush_rounds 16 s) (xor_words out (drop 4 t))
    ∙ length-xor_words out (drop 4 t)

length-bytes_of_words : (ws : List ℕ) → length (bytes_of_words ws) ≡ 4 * length ws
unfolding bytes_of_words
length-bytes_of_words [] = refl
length-bytes_of_words (w ∷ ws) = omega (arith, length-bytes_of_words ws)

length-surf : (input : List ℕ) → length (bytes_of_words (surf input)) ≡ 32
unfolding surf
length-surf input =
    let t0 = xor_words (take 12 input) (drop 12 seed) in
    let s : Mixer = record { t = t0; x = get_or t0 11 0; sum = 0 } in
    let out = take 8 (drop 24 seed) in
    length-bytes_of_words (surf_loops 2 s out) ∙ ap (λ n. 4 * n) (length-surf_loops 2 s out)

-- Two arrays one behind the other fill the buffer.
store-append :
    (buf xs ys : List ℕ)
    → length xs + length ys ≡ length buf
    → store (store buf 0 xs) (length xs) ys ≡ xs ++ ys
store-append buf xs ys full =
    let first = store buf 0 xs in
    let size = length-store buf 0 xs in
    list_ext 0 (store first (length xs) ys) (xs ++ ys)
      (omega (arith, length-store first (length xs) ys, size, length-append xs ys))
      λ i h. elim (dec_lt i (length xs)) [
        | yes l ↦
            let z : 0 + i ≡ i = omega arith in
            get_or-store_outside first (length xs) ys i 0 (inl l)
            ∙ rw z at (get_or-store buf 0 xs i 0 l (omega arith))
            ∙ sym (get_or-append_left xs ys i 0 l)
        | no l ↦
            let k = i - length xs in
            let at : length xs + k ≡ i = omega arith in
            let inside : k < length ys = omega (arith, length-store first (length xs) ys, size) in
            rw (← at) (
              get_or-store first (length xs) ys k 0 inside (omega (arith, size))
              ∙ sym (get_or-append_right xs ys k 0))
      ]

randombytes_regen-block :
    (v : ℕ) (rest buf : List ℕ) (outleft : ℕ)
    → length buf ≡ 64
    → randombytes_regen (record { input = counter v rest; out_buf = buf; outleft = outleft })
      ≡ record { input = counter (v + 2) rest; out_buf = block v rest; outleft = 64 }
unfolding randombytes_regen
randombytes_regen-block v rest buf outleft full =
    let two : v + 1 + 1 ≡ v + 2 = omega arith in
    let in1 = count-counter v rest in
    let in2 : count (count (counter v rest)) ≡ counter (v + 2) rest =
      ap count in1 ∙ count-counter (v + 1) rest ∙ ap (λ n. counter n rest) two in
    let xs = bytes_of_words (surf (counter (v + 1) rest)) in
    let ys = bytes_of_words (surf (counter (v + 2) rest)) in
    let out : store (store buf 0 xs) 32 ys ≡ xs ++ ys = rw (length-surf (counter (v + 1) rest)) at (
      store-append buf xs ys
        (omega (arith, length-surf (counter (v + 1) rest), length-surf (counter (v + 2) rest)))) in
    rw in2 (rw in1 (rw out refl))

length-block : (v : ℕ) (rest : List ℕ) → length (block v rest) ≡ 64
length-block v rest = omega (
  arith,
  length-append (bytes_of_words (surf (counter (v + 1) rest)))
      (bytes_of_words (surf (counter (v + 2) rest))),
  length-surf (counter (v + 1) rest),
  length-surf (counter (v + 2) rest),
)

-- The state where the counter is `v`.
abbrev pub at_counter : ℕ → List ℕ → List ℕ → ℕ → Generator
at_counter v rest buf outleft = record { input = counter v rest; out_buf = buf; outleft = outleft }

randombytes-zero : (g : Generator) → randombytes zero g ≡ ([], g)
unfolding randombytes
randombytes-zero g = refl

-- An empty buffer is filled first.
randombytes-refill :
    (n v : ℕ) (rest buf : List ℕ)
    → length buf ≡ 64
    → randombytes (suc n) (at_counter v rest buf 0)
      ≡ randombytes (suc n) (at_counter (v + 2) rest (block v rest) 64)
unfolding randombytes
randombytes-refill n v rest buf full = rw (randombytes_regen-block v rest buf 0 full) refl

-- What is drawn, from a buffer that is not empty.
randombytes-left :
    (n v left : ℕ) (rest buf : List ℕ)
    → randombytes (suc n) (at_counter v rest buf (suc left)) ≡ (
      get_or buf left 0 ∷ (randombytes n (at_counter v rest buf left)).0,
      (randombytes n (at_counter v rest buf left)).1,
    )
unfolding randombytes
randombytes-left n v left rest buf =
    let e : suc left - 1 ≡ left = omega arith in
    let t : (suc left == 0) ≡ false = ground arith in rw (t, e) refl

stream_byte-suc :
    (v left i : ℕ) (rest buf : List ℕ)
    → stream_byte v rest buf (suc left) (suc i) ≡ stream_byte v rest buf left i
stream_byte-suc v left i rest buf =
    let e : suc left - 1 - suc i ≡ left - 1 - i = omega arith in
    let d : suc i - suc left ≡ i - left = omega arith in
    let t : ltb (suc i) (suc left) ≡ ltb i left = ground arith in rw (e, d, t) refl

stream_byte-refill :
    (v i : ℕ) (rest buf : List ℕ)
    → stream_byte v rest buf 0 i ≡ stream_byte (v + 2) rest (block v rest) 64 i
stream_byte-refill v i rest buf =
    let t : ltb i 0 ≡ false = ground arith in
    let z : i - 0 ≡ i = omega arith in
    elim (dec_lt i 64) [
      | yes l ↦
          let t' : ltb i 64 ≡ true = lt→ltb i 64 l in
          let q : v + 2 * (i / 64) ≡ v = omega arith in
          let r : 63 - i % 64 ≡ 64 - 1 - i = omega arith in rw (t, t', z) (rw q (rw r refl))
      | no l ↦
          let t' : ltb i 64 ≡ false = ground arith in
          let q : v + 2 * (i / 64) ≡ v + 2 + 2 * ((i - 64) / 64) = omega arith in
          let r : i % 64 ≡ (i - 64) % 64 = omega arith in rw (t, t', z) (rw q (rw r refl))
    ]

-- How many bytes are drawn, and how often the buffer is filled.
randombytes_total :
    (n v outleft : ℕ) (rest buf : List ℕ)
    → length buf ≡ 64
    → let out = randombytes n (at_counter v rest buf outleft) in
      (length out.0 ≡ n) × (out.1.input ≡ counter (v + 2 * ((n - outleft + 63) / 64)) rest)
randombytes_total zero v outleft rest buf full =
    let e : v + 2 * ((0 - outleft + 63) / 64) ≡ v = omega arith in
    rw (randombytes-zero (at_counter v rest buf outleft)) (refl, ap (λ k. counter k rest) (sym e))
randombytes_total (suc n) v (suc left) rest buf full =
    let e : suc n - suc left ≡ n - left = omega arith in
    let ih = randombytes_total n v left rest buf full in
    rw (randombytes-left n v left rest buf, e) (ap suc ih.0, ih.1)
randombytes_total (suc n) v zero rest buf full =
    let e : v + 2 * ((suc n - 0 + 63) / 64) ≡ v + 2 + 2 * ((n - 63 + 63) / 64) = omega arith in
    let ih = randombytes_total n (v + 2) 63 rest (block v rest) (length-block v rest) in
    rw (randombytes-refill n v rest buf full) (
      rw (randombytes-left n (v + 2) 63 rest (block v rest))
        (ap suc ih.0, ih.1 ∙ ap (λ k. counter k rest) (sym e)))

-- One byte more, from a buffer that is not empty.
drawn-suc :
    (n v left i : ℕ) (rest buf : List ℕ)
    → ((i : ℕ)
        → i < n
        → get_or (randombytes n (at_counter v rest buf left)).0 i 0 ≡ stream_byte v rest buf left i)
    → i < suc n
    → get_or (get_or buf left 0 ∷ (randombytes n (at_counter v rest buf left)).0) i 0
      ≡ stream_byte v rest buf (suc left) i
drawn-suc n v left zero rest buf ih h =
    let t : ltb 0 (suc left) ≡ true = lt→ltb 0 (suc left) (omega arith) in
    let z : suc left - 1 - 0 ≡ left = omega arith in rw (t, z) refl
drawn-suc n v left (suc i) rest buf ih h =
    ih i (omega arith) ∙ sym (stream_byte-suc v left i rest buf)

drawn :
    (n v outleft : ℕ) (rest buf : List ℕ)
    → length buf ≡ 64
    → (i : ℕ) → i < n
    → get_or (randombytes n (at_counter v rest buf outleft)).0 i 0
      ≡ stream_byte v rest buf outleft i
drawn zero v outleft rest buf full i h = absurd (omega arith)
drawn (suc n) v (suc left) rest buf full i h =
    rw (randombytes-left n v left rest buf)
      (drawn-suc n v left i rest buf (drawn n v left rest buf full) h)
drawn (suc n) v zero rest buf full i h =
    let filled = block v rest in
    rw (randombytes-refill n v rest buf full) (
      rw (randombytes-left n (v + 2) 63 rest filled) (
        drawn-suc n (v + 2) 63 i rest filled (drawn n (v + 2) 63 rest filled (length-block v rest))
          h
        ∙ sym (stream_byte-refill v i rest buf)))

-- Where the counter of 128 bits is `v`, and the buffer has 64 bytes, randombytes gives as many bytes
-- as it is asked for: first those that are left in the buffer, then those of one block of 64 after the
-- other, each from the last byte to the first. Block `k` is the bytes of what surf gives for the
-- counters v + 2 * k + 1 and v + 2 * k + 2, modulo 2^128, and as many blocks are made as are needed.
pub randombytes_stream :
    (n i v outleft : ℕ) (rest buf : List ℕ)
    → length buf ≡ 64
    → i < n
    → let out = randombytes n (at_counter v rest buf outleft) in
      (length out.0 ≡ n)
      × (get_or out.0 i 0 ≡ stream_byte v rest buf outleft i)
      × (out.1.input ≡ counter (v + 2 * ((n - outleft + 63) / 64)) rest)
randombytes_stream n i v outleft rest buf full h =
    let whole = randombytes_total n v outleft rest buf full in
    (whole.0, drawn n v outleft rest buf full i h, whole.1)
