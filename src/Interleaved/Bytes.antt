-- ===== src/Interleaved/Bytes.antt =====
-- fips202/keccakf1600.c: what a state that data has been joined to gives back.
use mlkem_c_embedded.Base.{
  ℕ, ◌+◌, ◌*◌, ◌^◌, ◌<◌, ◌≡◌, ◌≢◌, ap, ap₂, ◌∙◌, arith, List, ◌++◌, length, get_or, set,
  get_or-set_self, get_or-set_ne, get_or_past, length-set, bit_xor, bit_xor-lt,
}
use native.Mathlib.Decide.{ℕ_discrete, dec_lt}
use mlkem_c_embedded.Interleaved.{
  even_word, odd_word, low_half, high_half, word_bytes, xor_word, xor_lane, lane_bytes,
}
use mlkem_c_embedded.Interleaved.Halves.{
  low_half_add, high_half_add, low_half-even_word, even_word-lt, odd_word-lt, half_bytes,
  half_bytes_add,
}

-- 25 lanes of two words of 32 bits.
abbrev pub IsState : List ℕ → Type 0
IsState s = (length s ≡ 50) × ((i : ℕ) → get_or s i 0 < 2 ^ 32)

get_or-xor_word_self :
    (s : List ℕ) (i w : ℕ) → i < length s → get_or (xor_word s i w) i 0 ≡ bit_xor (get_or s i 0) w
unfolding xor_word
get_or-xor_word_self s i w h = get_or-set_self s i (bit_xor (get_or s i 0) w) 0 h

get_or-xor_word_ne : (s : List ℕ) (i j w : ℕ) → i ≢ j → get_or (xor_word s i w) j 0 ≡ get_or s j 0
unfolding xor_word
get_or-xor_word_ne s i j w h = get_or-set_ne s i j (bit_xor (get_or s i 0) w) 0 h

pub set-IsState : (s : List ℕ) (i v : ℕ) → IsState s → v < 2 ^ 32 → IsState (set s i v)
set-IsState s i v (len, words) hv = (
  length-set s i v ∙ len,
  λ j. elim (ℕ_discrete i j) [
    | no n ↦ rw (get_or-set_ne s i j v 0 n) (words j)
    | yes e ↦ rw (← e) (elim (dec_lt i (length s)) [
      | yes l ↦ rw (get_or-set_self s i v 0 l) hv
      | no l ↦ rw (get_or_past (set s i v) i 0 (omega (arith, length-set s i v))) (omega arith)
    ])
  ],
)

xor_word-IsState : (s : List ℕ) (i w : ℕ) → IsState s → w < 2 ^ 32 → IsState (xor_word s i w)
unfolding xor_word
xor_word-IsState s i w hs hw =
    set-IsState s i (bit_xor (get_or s i 0) w) hs (bit_xor-lt 32 (get_or s i 0) w (hs.1 i) hw)

pub xor_lane-IsState :
    (s : List ℕ) (lane low high : ℕ)
    → IsState s
    → low < 2 ^ 32
    → high < 2 ^ 32
    → IsState (xor_lane s lane low high)
unfolding xor_lane
xor_lane-IsState s lane low high hs hl hh =
    xor_word-IsState (xor_word s (lane * 2 + 0) (even_word low high)) (lane * 2 + 1)
      (odd_word low high)
      (xor_word-IsState s (lane * 2 + 0) (even_word low high) hs (even_word-lt low high))
      (odd_word-lt low high hl hh)

-- The words of the lane that data is joined to, and of another.
even_word_at :
    (s : List ℕ) (lane low high : ℕ)
    → IsState s
    → lane < 25
    → (get_or (xor_lane s lane low high) (lane * 2) 0
        ≡ bit_xor (get_or s (lane * 2) 0) (even_word low high))
      × (get_or (xor_lane s lane low high) (lane * 2 + 1) 0
          ≡ bit_xor (get_or s (lane * 2 + 1) 0) (odd_word low high))
unfolding xor_lane
even_word_at s lane low high (len, words) h =
    let z : lane * 2 + 0 ≡ lane * 2 = omega arith in
    let w = even_word low high in
    let s' = xor_word s (lane * 2) w in
    let len' : length s' ≡ 50 =
      (xor_word-IsState s (lane * 2) w (len, words) (even_word-lt low high)).0 in
    rw z (
      get_or-xor_word_ne s' (lane * 2 + 1) (lane * 2) (odd_word low high) (omega arith)
          ∙ get_or-xor_word_self s (lane * 2) w (omega arith),
      get_or-xor_word_self s' (lane * 2 + 1) (odd_word low high) (omega arith)
          ∙ ap (λ t. bit_xor t (odd_word low high))
              (get_or-xor_word_ne s (lane * 2) (lane * 2 + 1) w (omega arith)),
    )

word_at_other :
    (s : List ℕ) (lane low high j : ℕ)
    → lane * 2 ≢ j
    → lane * 2 + 1 ≢ j
    → get_or (xor_lane s lane low high) j 0 ≡ get_or s j 0
unfolding xor_lane
word_at_other s lane low high j h h' =
    get_or-xor_word_ne (xor_word s (lane * 2 + 0) (even_word low high)) (lane * 2 + 1) j
      (odd_word low high) h'
    ∙ get_or-xor_word_ne s (lane * 2 + 0) j (even_word low high) (omega arith)

-- The bytes of the lane are joined one by one, and no other lane changes.
pub lane_bytes-xor_lane :
    (s : List ℕ) (lane low high i : ℕ)
    → IsState s
    → lane < 25
    → low < 2 ^ 32
    → high < 2 ^ 32
    → get_or (lane_bytes (xor_lane s lane low high) lane) i 0
      ≡ bit_xor (get_or (lane_bytes s lane) i 0) (get_or (half_bytes low high) i 0)
unfolding lane_bytes half_bytes
lane_bytes-xor_lane s lane low high i hs h hl hh =
    let e = get_or s (lane * 2) 0 in
    let o = get_or s (lane * 2 + 1) 0 in
    let ew = even_word low high in
    let ow = odd_word low high in
    let words = even_word_at s lane low high hs h in
    let back = low_half-even_word low high hl hh in
    let l : low_half (bit_xor e ew) (bit_xor o ow) ≡ bit_xor (low_half e o) low =
      low_half_add e o ew ow ∙ ap (bit_xor (low_half e o)) back.0 in
    let u : high_half (bit_xor e ew) (bit_xor o ow) ≡ bit_xor (high_half e o) high =
      high_half_add e o ew ow (hs.1 (lane * 2)) (even_word-lt low high)
      ∙ ap (bit_xor (high_half e o)) back.1 in
    ap₂ (λ x y. get_or (half_bytes (low_half x y) (high_half x y)) i 0) words.0 words.1
    ∙ ap₂ (λ x y. get_or (half_bytes x y) i 0) l u
    ∙ half_bytes_add (low_half e o) (high_half e o) low high i

pub lane_bytes_other :
    (s : List ℕ) (lane low high other : ℕ)
    → lane ≢ other
    → lane_bytes (xor_lane s lane low high) other ≡ lane_bytes s other
unfolding lane_bytes
lane_bytes_other s lane low high other h =
    ap₂ (λ x y. word_bytes (low_half x y) ++ word_bytes (high_half x y))
      (word_at_other s lane low high (other * 2) (omega arith) (omega arith))
      (word_at_other s lane low high (other * 2 + 1) (omega arith) (omega arith))
