-- ===== src/Examples/Random.antt =====
-- hal/notrandombytes.c and hal/randombytes.c at concrete inputs.
use mlkem_c_embedded.Base.{
  ℕ, ◌+◌, ◌-◌, ◌*◌, ◌/◌, ◌%◌, ◌^◌, ◌≡◌, refl, arith, List, get_or, length, replicate,
}
use mlkem_c_embedded.Notrandombytes
use mlkem_c_embedded.Notrandombytes.{initial, surf}
use mlkem_c_embedded.Notrandombytes.Stream.{at_counter, counter, stream_byte, randombytes_stream}
use mlkem_c_embedded.Notrandombytes.Surf.{swept, surf-swept}
use mlkem_c_embedded.Randombytes
use mlkem_c_embedded.Randombytes.Words.{after, byte, word, randombytes_order}

-- A generator of words by a linear congruence.
abbrev congruence : ℕ → ℕ × ℕ
congruence g = (g, (g * 1664525 + 1013904223) % 2 ^ 32)

-- The last byte of the last word, of which only two are used.
randombytes_order_example :
    let out = Randombytes.randombytes congruence 10 5 in
    (length out.0 ≡ 10)
    × (out.1 ≡ after congruence 3 5)
    × (get_or out.0 8 0 ≡ byte (word congruence 2 5) 1)
randombytes_order_example = randombytes_order congruence 10 8 5 (omega arith)

-- Eight words that are not of the counter, and a buffer of which ten bytes are left.
abbrev other_words : List ℕ
other_words = replicate 8 0

abbrev some_buffer : List ℕ
some_buffer = replicate 64 1

randombytes_stream_example :
    let out = Notrandombytes.randombytes 200 (at_counter 7 other_words some_buffer 10) in
    (length out.0 ≡ 200)
    × (get_or out.0 150 0 ≡ stream_byte 7 other_words some_buffer 10 150)
    × (out.1.input ≡ counter (7 + 2 * ((200 - 10 + 63) / 64)) other_words)
randombytes_stream_example =
    randombytes_stream 200 150 7 10 other_words some_buffer refl (omega arith)

surf-swept_example : surf (replicate 12 5) ≡ swept (replicate 12 5)
surf-swept_example = surf-swept (replicate 12 5) refl

-- The first state is one of those that the theorem is about.
initial-at_counter : initial ≡ at_counter 0 other_words (replicate 64 0) 0
unfolding initial
initial-at_counter = refl
