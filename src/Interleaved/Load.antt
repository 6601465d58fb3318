-- ===== src/Interleaved/Load.antt =====
-- fips202/keccakf1600.c: the words of four bytes under `^`.
use mlkem_c_embedded.Base.{
  ℕ, ◌+◌, ◌*◌, ◌%◌, ◌^◌, ◌<◌, ◌≡◌, refl, sym, ap, ap₂, ◌∙◌, arith, List, [], ◌∷◌, get_or,
  bit_and_mask, ◌>>>◌, bit_or, bit_xor, bit_xor_swap, bit_or-bit_xor, bit_or_low,
  bit_xor-shift_left, bit_xor-mod, ◌<<<◌,
}
use mlkem_c_embedded.Interleaved.{load_word, word_bytes}

-- Four bytes as a word.
word : ℕ → ℕ → ℕ → ℕ → ℕ
word a b c d = bit_xor (bit_xor (bit_xor a (b * 2 ^ 8)) (c * 2 ^ 16)) (d * 2 ^ 24)

or_word :
    (a b c d : ℕ)
    → a < 2 ^ 8
    → b < 2 ^ 8
    → c < 2 ^ 8
    → d < 2 ^ 8
    → (bit_or (bit_or (bit_or a (b <<< 8)) (c <<< 16)) (d <<< 24) ≡ word a b c d)
      × (word a b c d < 2 ^ 32)
unfolding word
or_word a b c d ha hb hc hd =
    let x = bit_or a (b * 2 ^ 8) in
    let ex : x ≡ a + b * 2 ^ 8 = bit_or_low 8 a b ha in
    let y = bit_or x (c * 2 ^ 16) in
    let ey : y ≡ x + c * 2 ^ 16 = bit_or_low 16 x c (omega arith) in
    let z = bit_or y (d * 2 ^ 24) in
    let ez : z ≡ y + d * 2 ^ 24 = bit_or_low 24 y d (omega arith) in
    let ox : x ≡ bit_xor a (b * 2 ^ 8) = bit_or-bit_xor 8 a b ha in
    let oy : y ≡ bit_xor (bit_xor a (b * 2 ^ 8)) (c * 2 ^ 16) =
      bit_or-bit_xor 16 x c (omega arith) ∙ ap (λ t. bit_xor t (c * 2 ^ 16)) ox in
    let oz : z ≡ word a b c d =
      bit_or-bit_xor 24 y d (omega arith) ∙ ap (λ t. bit_xor t (d * 2 ^ 24)) oy in
    (oz, omega arith)

word_add :
    (a b c d a' b' c' d' : ℕ)
    → word (bit_xor a a') (bit_xor b b') (bit_xor c c') (bit_xor d d')
      ≡ bit_xor (word a b c d) (word a' b' c' d')
unfolding word
word_add a b c d a' b' c' d' =
    let x = bit_xor a (b * 2 ^ 8) in
    let x' = bit_xor a' (b' * 2 ^ 8) in
    let first : bit_xor (bit_xor a a') (bit_xor b b' * 2 ^ 8) ≡ bit_xor x x' =
      ap (bit_xor (bit_xor a a')) (bit_xor-shift_left 8 b b')
      ∙ bit_xor_swap a a' (b * 2 ^ 8) (b' * 2 ^ 8) in
    let y = bit_xor x (c * 2 ^ 16) in
    let y' = bit_xor x' (c' * 2 ^ 16) in
    let second : bit_xor (bit_xor x x') (bit_xor c c' * 2 ^ 16) ≡ bit_xor y y' =
      ap (bit_xor (bit_xor x x')) (bit_xor-shift_left 16 c c')
      ∙ bit_xor_swap x x' (c * 2 ^ 16) (c' * 2 ^ 16) in
    ap (λ t. bit_xor (bit_xor t (bit_xor c c' * 2 ^ 16)) (bit_xor d d' * 2 ^ 24)) first
    ∙ ap₂ bit_xor second (bit_xor-shift_left 24 d d')
    ∙ bit_xor_swap y y' (d * 2 ^ 24) (d' * 2 ^ 24)

byte : List ℕ → ℕ → ℕ
byte xs i = get_or xs i 0 % 2 ^ 8

load_word_or_word :
    (xs : List ℕ) (o : ℕ)
    → (load_word xs o ≡ word (byte xs o) (byte xs (o + 1)) (byte xs (o + 2)) (byte xs (o + 3)))
      × (word (byte xs o) (byte xs (o + 1)) (byte xs (o + 2)) (byte xs (o + 3)) < 2 ^ 32)
unfolding load_word byte
load_word_or_word xs o =
    or_word (byte xs o) (byte xs (o + 1)) (byte xs (o + 2)) (byte xs (o + 3)) (omega arith)
      (omega arith) (omega arith) (omega arith)

pub load_word-lt : (xs : List ℕ) (o : ℕ) → load_word xs o < 2 ^ 32
load_word-lt xs o = let e = load_word_or_word xs o in omega (arith, e.0, e.1)

-- A word depends on its four elements only.
pub load_word_ext :
    (xs ys : List ℕ) (o o' : ℕ)
    → ((k : ℕ) → k < 4 → get_or xs (o + k) 0 ≡ get_or ys (o' + k) 0)
    → load_word xs o ≡ load_word ys o'
unfolding load_word
load_word_ext xs ys o o' h =
    let e : get_or xs o 0 ≡ get_or ys o' 0 =
      let z : o + 0 ≡ o = omega arith in
      let z' : o' + 0 ≡ o' = omega arith in
      ap (λ i. get_or xs i 0) (sym z) ∙ h 0 (omega arith) ∙ ap (λ i. get_or ys i 0) z' in
    rw (e, h 1 (omega arith), h 2 (omega arith), h 3 (omega arith))

-- If every element is the `^` of two, so is the word.
pub load_word_add :
    (xs ys zs : List ℕ) (o : ℕ)
    → ((i : ℕ) → get_or xs i 0 ≡ bit_xor (get_or ys i 0) (get_or zs i 0))
    → load_word xs o ≡ bit_xor (load_word ys o) (load_word zs o)
unfolding byte
load_word_add xs ys zs o h =
    let each : (i : ℕ) → byte xs i ≡ bit_xor (byte ys i) (byte zs i) =
      λ i. ap (λ (t : ℕ). t % 2 ^ 8) (h i) ∙ bit_xor-mod 8 (get_or ys i 0) (get_or zs i 0) in
    (load_word_or_word xs o).0
    ∙ rw (each o, each (o + 1), each (o + 2), each (o + 3))
        (word_add (byte ys o) (byte ys (o + 1)) (byte ys (o + 2)) (byte ys (o + 3)) (byte zs o)
          (byte zs (o + 1)) (byte zs (o + 2)) (byte zs (o + 3)))
    ∙ sym (ap₂ bit_xor (load_word_or_word ys o).0 (load_word_or_word zs o).0)

or_word_sum :
    (a b c d : ℕ)
    → a < 2 ^ 8
    → b < 2 ^ 8
    → c < 2 ^ 8
    → d < 2 ^ 8
    → bit_or (bit_or (bit_or a (b <<< 8)) (c <<< 16)) (d <<< 24)
      ≡ a + b * 2 ^ 8 + c * 2 ^ 16 + d * 2 ^ 24
or_word_sum a b c d ha hb hc hd =
    let ex = bit_or_low 8 a b ha in
    let ey = bit_or_low 16 (a + b * 2 ^ 8) c (omega arith) in
    let ez = bit_or_low 24 (a + b * 2 ^ 8 + c * 2 ^ 16) d (omega arith) in rw (ex, ey, ez) refl

-- The bytes of the word are the four elements.
pub word_bytes-load_word :
    (xs : List ℕ) (o : ℕ)
    → word_bytes (load_word xs o)
      ≡ get_or xs o 0 % 2 ^ 8
        ∷ get_or xs (o + 1) 0 % 2 ^ 8
        ∷ get_or xs (o + 2) 0 % 2 ^ 8
        ∷ get_or xs (o + 3) 0 % 2 ^ 8
        ∷ []
unfolding load_word word_bytes
word_bytes-load_word xs o =
    let a = get_or xs o 0 % 2 ^ 8 in
    let b = get_or xs (o + 1) 0 % 2 ^ 8 in
    let c = get_or xs (o + 2) 0 % 2 ^ 8 in
    let d = get_or xs (o + 3) 0 % 2 ^ 8 in
    let w = a + b * 2 ^ 8 + c * 2 ^ 16 + d * 2 ^ 24 in
    let sum = or_word_sum a b c d (omega arith) (omega arith) (omega arith) (omega arith) in
    let e0 : w % 2 ^ 8 ≡ a = omega arith in
    let e1 : (w >>> 8) % 2 ^ 8 ≡ b = omega arith in
    let e2 : (w >>> 16) % 2 ^ 8 ≡ c = omega arith in
    let e3 : (w >>> 24) % 2 ^ 8 ≡ d = omega arith in
    ap word_bytes sum
    ∙ ap₂ ◌∷◌ (bit_and_mask 8 w ∙ e0) (
        ap₂ ◌∷◌ (bit_and_mask 8 (w >>> 8) ∙ e1) (
          ap₂ ◌∷◌ (bit_and_mask 8 (w >>> 16) ∙ e2)
            (ap (λ t. t ∷ []) (bit_and_mask 8 (w >>> 24) ∙ e3))))
