-- ===== src/Notrandombytes/Surf.antt =====
-- hal/notrandombytes.c: surf, against its rounds as sweeps over twelve words.
use mlkem_c_embedded.Base.{
  ℕ, zero, suc, ◌+◌, ◌-◌, ◌*◌, ◌/◌, ◌%◌, ◌^◌, ◌≡◌, refl, sym, ap, ◌∙◌, arith, List, [], ◌∷◌, length,
  get_or, set, take, drop, emit, length-emit_one, get_or-emit_one, list_ext, bit_or, bit_xor,
}
use mlkem_c_embedded.Notrandombytes.{
  seed, Mixer, rotate, mush, mush_all, mush_rounds, xor_words, surf_loops, surf,
}

-- The new value of a word `t`, the `i`-th of its sweep, after `x`.
mixed : ℕ → ℕ → ℕ → ℕ → ℕ
mixed sum i x t =
    let b = get_or (5 ∷ 7 ∷ 9 ∷ 13 ∷ []) (i % 4) 0 in
    let turned = bit_or ((x * 2 ^ b) % 2 ^ 32) (x / 2 ^ (32 - b)) in
    (t + bit_xor ((bit_xor x (get_or seed i 0) + sum) % 2 ^ 32) turned) % 2 ^ 32

-- Each word in turn, after the new value of the one before it.
sweep : ℕ → ℕ → ℕ → List ℕ → List ℕ
sweep sum i x [] = []
sweep sum i x (t ∷ ts) = let x' = mixed sum i x t in x' ∷ sweep sum (i + 1) x' ts

-- The sweep of round `k` adds `k` times the constant, and starts after the last word.
after_rounds : ℕ → List ℕ → List ℕ
after_rounds zero t = t
after_rounds (suc k) t =
    let t' = after_rounds k t in sweep ((suc k * 0x9E3779B9) % 2 ^ 32) 0 (get_or t' 11 0) t'

-- The words of `in` and those of `seed` are mixed for 32 rounds; the last eight words after 16 rounds
-- and after 32 join the last eight of `seed`.
pub swept : List ℕ → List ℕ
swept input =
    let t = emit 12 λ i. bit_xor (get_or input i 0) (get_or seed (12 + i) 0) ∷ [] in
    emit 8 λ i.
      bit_xor (bit_xor (get_or seed (24 + i) 0) (get_or (after_rounds 16 t) (4 + i) 0))
        (get_or (after_rounds 32 t) (4 + i) 0)
      ∷ []

abbrev words : ℕ → (ℕ → ℕ) → List ℕ
words n f = emit n λ i. f i ∷ []

words_lem : (n : ℕ) (s : List ℕ) → length s ≡ n → words n (λ i. get_or s i 0) ≡ s
words_lem n s h =
    let size = length-emit_one n (λ i. get_or s i 0) in
    list_ext 0 (words n (λ i. get_or s i 0)) s (size ∙ sym h)
      λ i l. get_or-emit_one 0 n (λ i. get_or s i 0) i (omega (arith, size))

-- MUSH with the new value by its name.
mix_step : ℕ → Mixer → Mixer
mix_step i s =
    let x' = mixed s.sum i s.x (get_or s.t i 0) in record { t = set s.t i x'; x = x'; sum = s.sum }

mush0 : (s : Mixer) → mush 0 5 s ≡ mix_step 0 s
unfolding mush mix_step mixed rotate
mush0 s = refl

mush1 : (s : Mixer) → mush 1 7 s ≡ mix_step 1 s
unfolding mush mix_step mixed rotate
mush1 s = refl

mush2 : (s : Mixer) → mush 2 9 s ≡ mix_step 2 s
unfolding mush mix_step mixed rotate
mush2 s = refl

mush3 : (s : Mixer) → mush 3 13 s ≡ mix_step 3 s
unfolding mush mix_step mixed rotate
mush3 s = refl

mush4 : (s : Mixer) → mush 4 5 s ≡ mix_step 4 s
unfolding mush mix_step mixed rotate
mush4 s = refl

mush5 : (s : Mixer) → mush 5 7 s ≡ mix_step 5 s
unfolding mush mix_step mixed rotate
mush5 s = refl

mush6 : (s : Mixer) → mush 6 9 s ≡ mix_step 6 s
unfolding mush mix_step mixed rotate
mush6 s = refl

mush7 : (s : Mixer) → mush 7 13 s ≡ mix_step 7 s
unfolding mush mix_step mixed rotate
mush7 s = refl

mush8 : (s : Mixer) → mush 8 5 s ≡ mix_step 8 s
unfolding mush mix_step mixed rotate
mush8 s = refl

mush9 : (s : Mixer) → mush 9 7 s ≡ mix_step 9 s
unfolding mush mix_step mixed rotate
mush9 s = refl

mush10 : (s : Mixer) → mush 10 9 s ≡ mix_step 10 s
unfolding mush mix_step mixed rotate
mush10 s = refl

mush11 : (s : Mixer) → mush 11 13 s ≡ mix_step 11 s
unfolding mush mix_step mixed rotate
mush11 s = refl

mix_all : Mixer → Mixer
mix_all s = mix_step 11 (
    mix_step 10 (
      mix_step 9 (
        mix_step 8 (
          mix_step 7 (
            mix_step 6
              (mix_step 5 (mix_step 4 (mix_step 3 (mix_step 2 (mix_step 1 (mix_step 0 s)))))))))))

mush_all-mix_all :
    (t : List ℕ) (x sum : ℕ)
    → mush_all (record { t = t; x = x; sum = sum })
      ≡ mix_all (record { t = t; x = x; sum = (sum + 0x9E3779B9) % 2 ^ 32 })
unfolding mush_all mix_all
mush_all-mix_all t x sum =
    let s : Mixer = record { t = t; x = x; sum = (sum + 0x9E3779B9) % 2 ^ 32 } in
    let e0 = mush0 s in
    let s0 = mix_step 0 s in
    let e1 = ap (mush 1 7) e0 ∙ mush1 s0 in
    let s1 = mix_step 1 s0 in
    let e2 = ap (mush 2 9) e1 ∙ mush2 s1 in
    let s2 = mix_step 2 s1 in
    let e3 = ap (mush 3 13) e2 ∙ mush3 s2 in
    let s3 = mix_step 3 s2 in
    let e4 = ap (mush 4 5) e3 ∙ mush4 s3 in
    let s4 = mix_step 4 s3 in
    let e5 = ap (mush 5 7) e4 ∙ mush5 s4 in
    let s5 = mix_step 5 s4 in
    let e6 = ap (mush 6 9) e5 ∙ mush6 s5 in
    let s6 = mix_step 6 s5 in
    let e7 = ap (mush 7 13) e6 ∙ mush7 s6 in
    let s7 = mix_step 7 s6 in
    let e8 = ap (mush 8 5) e7 ∙ mush8 s7 in
    let s8 = mix_step 8 s7 in
    let e9 = ap (mush 9 7) e8 ∙ mush9 s8 in
    let s9 = mix_step 9 s8 in
    let e10 = ap (mush 10 9) e9 ∙ mush10 s9 in
    let s10 = mix_step 10 s9 in ap (mush 11 13) e10 ∙ mush11 s10

mix_all-sweep :
    (f : ℕ → ℕ) (x sum : ℕ)
    → mix_all (record { t = words 12 f; x = x; sum = sum }) ≡ record {
      t = sweep sum 0 x (words 12 f);
      x = get_or (sweep sum 0 x (words 12 f)) 11 0;
      sum = sum;
    }
unfolding emit mix_all mix_step sweep
mix_all-sweep f x sum = refl

length-sweep : (sum i x : ℕ) (t : List ℕ) → length (sweep sum i x t) ≡ length t
unfolding sweep
length-sweep sum i x [] = refl
length-sweep sum i x (t ∷ ts) = ap suc (length-sweep sum (i + 1) (mixed sum i x t) ts)

length-after_rounds : (k : ℕ) (t : List ℕ) → length (after_rounds k t) ≡ length t
unfolding after_rounds
length-after_rounds zero t = refl
length-after_rounds (suc k) t =
    let t' = after_rounds k t in
    length-sweep ((suc k * 0x9E3779B9) % 2 ^ 32) 0 (get_or t' 11 0) t' ∙ length-after_rounds k t

-- The variables of surf after `k` rounds.
mixer_after : ℕ → List ℕ → Mixer
mixer_after k t = record {
  t = after_rounds k t;
  x = get_or (after_rounds k t) 11 0;
  sum = (k * 0x9E3779B9) % 2 ^ 32;
}

mush_all-mixer_after :
    (k : ℕ) (t : List ℕ) → length t ≡ 12 → mush_all (mixer_after k t) ≡ mixer_after (suc k) t
unfolding mixer_after after_rounds
mush_all-mixer_after k t h =
    let t' = after_rounds k t in
    let x = get_or t' 11 0 in
    let e : ((k * 0x9E3779B9) % 2 ^ 32 + 0x9E3779B9) % 2 ^ 32 ≡ (suc k * 0x9E3779B9) % 2 ^ 32 =
      omega arith in
    mush_all-mix_all t' x ((k * 0x9E3779B9) % 2 ^ 32)
    ∙ ap (λ sum. mix_all (record { t = t'; x = x; sum = sum })) e
    ∙ rw (words_lem 12 t' (length-after_rounds k t ∙ h)) at
        (mix_all-sweep (λ i. get_or t' i 0) x ((suc k * 0x9E3779B9) % 2 ^ 32))

mush_rounds-mixer_after :
    (left k n : ℕ) (t : List ℕ)
    → length t ≡ 12
    → k + left ≡ n
    → mush_rounds left (mixer_after k t) ≡ mixer_after n t
unfolding mush_rounds
mush_rounds-mixer_after zero k n t h e =
    let e' : k ≡ n = omega arith in ap (λ j. mixer_after j t) e'
mush_rounds-mixer_after (suc left) k n t h e =
    ap (mush_rounds left) (mush_all-mixer_after k t h)
    ∙ mush_rounds-mixer_after left (suc k) n t h (omega arith)

xor_words-first :
    (f : ℕ → ℕ)
    → xor_words (take 12 (words 12 f)) (drop 12 seed)
      ≡ words 12 (λ i. bit_xor (f i) (get_or seed (12 + i) 0))
unfolding emit xor_words
xor_words-first f = refl

xor_words-last :
    (f g : ℕ → ℕ)
    → xor_words (xor_words (take 8 (drop 24 seed)) (drop 4 (words 12 f))) (drop 4 (words 12 g))
      ≡ words 8 (λ i. bit_xor (bit_xor (get_or seed (24 + i) 0) (f (4 + i))) (g (4 + i)))
unfolding emit xor_words
xor_words-last f g = refl

surf_loops-after_rounds :
    (t out : List ℕ)
    → length t ≡ 12
    → surf_loops 2 (mixer_after 0 t) out
      ≡ xor_words (xor_words out (drop 4 (after_rounds 16 t))) (drop 4 (after_rounds 32 t))
unfolding surf_loops mixer_after
surf_loops-after_rounds t out h =
    ap (λ s. xor_words (xor_words out (drop 4 s.t)) (drop 4 (mush_rounds 16 s).t))
      (mush_rounds-mixer_after 16 0 16 t h (omega arith))
    ∙ ap (λ s. xor_words (xor_words out (drop 4 (after_rounds 16 t))) (drop 4 s.t))
        (mush_rounds-mixer_after 16 16 32 t h (omega arith))

-- On twelve words, surf is two times 16 sweeps over them: each word in turn takes in the new value of
-- the word before it, turned to the left by 5, 7, 9 and 13 places in turn, a word of `seed` and the
-- round's multiple of the constant; the last eight words after each 16 sweeps join those of `seed`.
pub surf-swept : (input : List ℕ) → length input ≡ 12 → surf input ≡ swept input
unfolding surf swept mixer_after after_rounds
surf-swept input h =
    let out = take 8 (drop 24 seed) in
    let t = words 12 (λ i. bit_xor (get_or input i 0) (get_or seed (12 + i) 0)) in
    let size : length t ≡ 12 =
      length-emit_one 12 (λ i. bit_xor (get_or input i 0) (get_or seed (12 + i) 0)) in
    let first : xor_words (take 12 input) (drop 12 seed) ≡ t =
      ap (λ u. xor_words (take 12 u) (drop 12 seed)) (sym (words_lem 12 input h))
      ∙ xor_words-first (λ i. get_or input i 0) in
    let a = after_rounds 16 t in
    let b = after_rounds 32 t in
    ap (λ u. surf_loops 2 (record { t = u; x = get_or u 11 0; sum = 0 }) out) first
    ∙ surf_loops-after_rounds t out size
    ∙ ap (λ u. xor_words (xor_words out (drop 4 u)) (drop 4 b))
        (sym (words_lem 12 a (length-after_rounds 16 t ∙ size)))
    ∙ ap (λ u. xor_words (xor_words out (drop 4 (words 12 (λ i. get_or a i 0)))) (drop 4 u))
        (sym (words_lem 12 b (length-after_rounds 32 t ∙ size)))
    ∙ xor_words-last (λ i. get_or a i 0) (λ i. get_or b i 0)
