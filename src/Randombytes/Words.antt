-- ===== src/Randombytes/Words.antt =====
-- hal/randombytes.c: which bytes of which words are drawn.
use mlkem_c_embedded.Base.{
  ℕ, zero, suc, ◌+◌, ◌-◌, ◌*◌, ◌/◌, ◌%◌, ◌^◌, ◌≤◌, ◌<◌, ◌≡◌, refl, ap, arith, length, List, get_or,
  ◌++◌, ◌∙◌, length-append,
}
use mlkem_c_embedded.Base.{ltb, if◌then◌else◌, true, false, tests, lt→ltb}
use native.Mathlib.Decide.{dec_lt}
use mlkem_c_embedded.Randombytes.{aschar, last_bytes, randombytes}

-- Byte `j` of a word, with the least significant byte first.
abbrev pub byte : ℕ → ℕ → ℕ
byte w j = w / 2 ^ (8 * j) % 256

aschar_lem : (w j : ℕ) → j < 4 → get_or (aschar w) j 0 ≡ byte w j
unfolding aschar
aschar_lem w zero h = omega arith
aschar_lem w (suc zero) h = refl
aschar_lem w (suc (suc zero)) h = refl
aschar_lem w (suc (suc (suc zero))) h = refl
aschar_lem w (suc (suc (suc (suc j)))) h = absurd (omega arith)

length-last_bytes : (len w : ℕ) → length (last_bytes len w) ≡ len
unfolding last_bytes
length-last_bytes zero w = refl
length-last_bytes (suc len) w = ap suc (length-last_bytes len w)

last_bytes_lem :
    (len w i : ℕ) → len ≤ 4 → i < len → get_or (last_bytes len w) i 0 ≡ byte w (len - 1 - i)
unfolding last_bytes
last_bytes_lem zero w i l h = absurd (omega arith)
last_bytes_lem (suc len) w zero l h =
    let e : suc len - 1 - 0 ≡ len = omega arith in rw e (aschar_lem w len (omega arith))
last_bytes_lem (suc len) w (suc i) l h =
    let e : suc len - 1 - suc i ≡ len - 1 - i = omega arith in
    rw e (last_bytes_lem len w i (omega arith) (omega arith))

length-aschar : (w : ℕ) → length (aschar w) ≡ 4
unfolding aschar
length-aschar w = refl

get_or-aschar_rest :
    (w : ℕ) (rest : List ℕ) (i : ℕ) → 4 ≤ i → get_or (aschar w ++ rest) i 0 ≡ get_or rest (i - 4) 0
unfolding aschar
get_or-aschar_rest w rest zero h = absurd (omega arith)
get_or-aschar_rest w rest (suc zero) h = absurd (omega arith)
get_or-aschar_rest w rest (suc (suc zero)) h = absurd (omega arith)
get_or-aschar_rest w rest (suc (suc (suc zero))) h = absurd (omega arith)
get_or-aschar_rest w rest (suc (suc (suc (suc i)))) h =
    let e : i ≡ suc (suc (suc (suc i))) - 4 = omega arith in ap (λ j. get_or rest j 0) e

get_or-aschar_first :
    (w : ℕ) (rest : List ℕ) (i : ℕ) → i < 4 → get_or (aschar w ++ rest) i 0 ≡ get_or (aschar w) i 0
unfolding aschar
get_or-aschar_first w rest zero h = refl
get_or-aschar_first w rest (suc zero) h = refl
get_or-aschar_first w rest (suc (suc zero)) h = refl
get_or-aschar_first w rest (suc (suc (suc zero))) h = refl
get_or-aschar_first w rest (suc (suc (suc (suc i)))) h = absurd (omega arith)

module _ {Rng : Type 0} (rng_get_random_blocking : Rng → ℕ × Rng) where
  -- The generator after `k` words, and the word that it gives then.
  unfoldable pub after : ℕ → Rng → Rng
  after zero g = g
  after (suc k) g = after k (rng_get_random_blocking g).1

  abbrev pub word : ℕ → Rng → ℕ
  word k g = (rng_get_random_blocking (after k g)).0

  -- What is drawn for a length of 4 * a + m.
  record IsDrawn (a m : ℕ) (g : Rng) (out : List ℕ × Rng) : Type 0 where
    size : length out.0 ≡ 4 * a + m
    whole : (i : ℕ) → i < 4 * a → get_or out.0 i 0 ≡ byte (word (i / 4) g) (i % 4)
    last : (i : ℕ) → i < m → get_or out.0 (4 * a + i) 0 ≡ byte (word a g) (m - 1 - i)
    state : out.1 ≡ after (suc a) g

  only-IsDrawn :
      (k : ℕ) (g : Rng)
      → k < 4
      → IsDrawn 0
          (suc k)
          g
          (last_bytes (suc k) (rng_get_random_blocking g).0, (rng_get_random_blocking g).1)
  unfolding after
  only-IsDrawn k g h =
      let w = (rng_get_random_blocking g).0 in
      record {
        size = length-last_bytes (suc k) w ∙ omega arith;
        whole = λ i l. absurd (omega arith);
        last = λ i l.
            let e : 4 * 0 + i ≡ i = omega arith in
            rw e (last_bytes_lem (suc k) w i (omega arith) l);
        state = refl;
      }

  first-IsDrawn :
      (a m : ℕ) (g : Rng) (out : List ℕ × Rng)
      → IsDrawn a m (rng_get_random_blocking g).1 out
      → IsDrawn (suc a) m g (aschar (rng_get_random_blocking g).0 ++ out.0, out.1)
  unfolding after
  first-IsDrawn a m g out d =
      let w = (rng_get_random_blocking g).0 in
      let from_four : (i : ℕ) → 4 ≤ i → get_or (aschar w ++ out.0) i 0 ≡ get_or out.0 (i - 4) 0 =
        λ i h. get_or-aschar_rest w out.0 i h in
      record {
        size = omega (arith, length-append (aschar w) out.0, length-aschar w, d.size);
        whole = λ i l. elim (dec_lt i 4) [
          | yes h ↦
              let q : i / 4 ≡ 0 = omega arith in
              let r : i % 4 ≡ i = omega arith in
              rw (q, r) (get_or-aschar_first w out.0 i h ∙ aschar_lem w i h)
          | no h ↦
              let q : i / 4 ≡ suc ((i - 4) / 4) = omega arith in
              let r : i % 4 ≡ (i - 4) % 4 = omega arith in
              rw (q, r) (from_four i (omega arith) ∙ d.whole (i - 4) (omega arith))
        ];
        last = λ i l.
            let e : 4 * suc a + i - 4 ≡ 4 * a + i = omega arith in
            from_four (4 * suc a + i) (omega arith) ∙ ap (λ j. get_or out.0 j 0) e ∙ d.last i l;
        state = d.state;
      }

  randombytes-IsDrawn :
      (a k len : ℕ) (g : Rng)
      → k < 4
      → len ≡ 4 * a + suc k
      → IsDrawn a (suc k) g (randombytes rng_get_random_blocking len g)
  unfolding randombytes
  randombytes-IsDrawn a k zero g h e = absurd (omega arith)
  randombytes-IsDrawn zero k (suc zero) g h e =
      let p : k ≡ 0 = omega arith in rw p (only-IsDrawn 0 g (omega arith))
  randombytes-IsDrawn zero k (suc (suc zero)) g h e =
      let p : k ≡ 1 = omega arith in rw p (only-IsDrawn 1 g (omega arith))
  randombytes-IsDrawn zero k (suc (suc (suc zero))) g h e =
      let p : k ≡ 2 = omega arith in rw p (only-IsDrawn 2 g (omega arith))
  randombytes-IsDrawn zero k (suc (suc (suc (suc zero)))) g h e =
      let p : k ≡ 3 = omega arith in rw p (only-IsDrawn 3 g (omega arith))
  randombytes-IsDrawn (suc a) k (suc zero) g h e = absurd (omega arith)
  randombytes-IsDrawn (suc a) k (suc (suc zero)) g h e = absurd (omega arith)
  randombytes-IsDrawn (suc a) k (suc (suc (suc zero))) g h e = absurd (omega arith)
  randombytes-IsDrawn (suc a) k (suc (suc (suc (suc zero)))) g h e = absurd (omega arith)
  randombytes-IsDrawn zero k (suc (suc (suc (suc (suc len))))) g h e = absurd (omega arith)
  randombytes-IsDrawn (suc a) k (suc (suc (suc (suc (suc len))))) g h e =
      let random = rng_get_random_blocking g in
      first-IsDrawn a (suc k) g (randombytes rng_get_random_blocking (suc len) random.1)
        (randombytes-IsDrawn a k (suc len) random.1 h (omega arith))

  -- For every hardware generator of words, and a length that is not 0, randombytes gives as many bytes
  -- as it is asked for and draws one word for every four of them, rounded up. Byte `i` is byte `i % 4`,
  -- with the least significant byte first, of word `i / 4`, but where that is the last word it is byte
  -- `len - 1 - i`: the last one to four bytes are the first of their word from the last to the first.
  pub randombytes_order :
      (len i : ℕ) (g : Rng)
      → i < len
      → let out = randombytes rng_get_random_blocking len g in
        (length out.0 ≡ len)
        × (out.1 ≡ after ((len + 3) / 4) g)
        × (get_or out.0 i 0
            ≡ byte (word (i / 4) g) (if ltb (i / 4) ((len - 1) / 4) then i % 4 else len - 1 - i))
  randombytes_order len i g h =
      let a = (len - 1) / 4 in
      let m = (len - 1) % 4 in
      let d = randombytes-IsDrawn a m len g (omega arith) (omega arith) in
      let words : (len + 3) / 4 ≡ suc a = omega arith in
      (
        d.size ∙ omega arith,
        rw words d.state,
        elim (dec_lt i (4 * a)) [
          | yes l ↦
              let t : ltb (i / 4) a ≡ true = lt→ltb (i / 4) a (omega arith) in rw t (d.whole i l)
          | no l ↦
              let t : ltb (i / 4) a ≡ false = grind tests in
              let q : i / 4 ≡ a = omega arith in
              let at : 4 * a + (i - 4 * a) ≡ i = omega arith in
              let j : suc m - 1 - (i - 4 * a) ≡ len - 1 - i = omega arith in
              rw t (rw q (rw at at (rw j at (d.last (i - 4 * a) (omega arith)))))
        ],
      )
