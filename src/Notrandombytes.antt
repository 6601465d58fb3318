-- ===== src/Notrandombytes.antt =====
-- hal/notrandombytes.c: the generator of fixed bytes that the tests use. The static variables `in`,
-- `out_buf` and `outleft` are a state; `seed` is never written. The words are copied into `out_buf`
-- with the least significant byte first, as on the boards that the program is for.
pub mod Stream
pub mod Surf
use mlkem_c_embedded.Base.{
  ℕ, zero, suc, ◌+◌, ◌-◌, ◌%◌, ◌^◌, List, [], ◌∷◌, ◌++◌, get_or, set, take, drop, store, replicate,
  bit_and, bit_or, bit_xor, ◌==◌, if◌then◌else◌, ◌<<<◌, ◌>>>◌,
}

abbrev pub seed : List ℕ
seed =
    3 ∷ 1 ∷ 4 ∷ 1 ∷ 5 ∷ 9 ∷ 2 ∷ 6 ∷ 5 ∷ 3 ∷ 5 ∷ 8 ∷ 9 ∷ 7 ∷ 9 ∷ 3 ∷ 2 ∷ 3 ∷ 8 ∷ 4 ∷ 6 ∷ 2 ∷ 6 ∷ 4
    ∷ 3 ∷ 3 ∷ 8 ∷ 3 ∷ 2 ∷ 7 ∷ 9 ∷ 5 ∷ []

pub record Generator : Type 0 where
  pub input : List ℕ
  pub out_buf : List ℕ
  pub outleft : ℕ

-- The variables of surf.
pub record Mixer : Type 0 where
  pub t : List ℕ
  pub x : ℕ
  pub sum : ℕ

-- The macros ROTATE and MUSH.
unfoldable pub rotate : ℕ → ℕ → ℕ
rotate x b = bit_or ((x <<< b) % 2 ^ 32) (x >>> (32 - b))

unfoldable pub mush : ℕ → ℕ → Mixer → Mixer
mush i b s =
    let added = bit_xor ((bit_xor s.x (get_or seed i 0) + s.sum) % 2 ^ 32) (rotate s.x b) in
    let x' = (get_or s.t i 0 + added) % 2 ^ 32 in record { t = set s.t i x'; x = x'; sum = s.sum }

-- The body of the loop on `r`.
unfoldable pub mush_all : Mixer → Mixer
mush_all s =
    let s0 : Mixer = record { t = s.t; x = s.x; sum = (s.sum + 0x9E3779B9) % 2 ^ 32 } in
    mush 11 13 (
      mush 10 9 (
        mush 9 7 (
          mush 8 5 (
            mush 7 13
              (mush 6 9 (mush 5 7 (mush 4 5 (mush 3 13 (mush 2 9 (mush 1 7 (mush 0 5 s0)))))))))))

unfoldable pub mush_rounds : ℕ → Mixer → Mixer
mush_rounds zero s = s
mush_rounds (suc left) s = mush_rounds left (mush_all s)

-- `a[i] ^ b[i]` for the indices of `a`.
unfoldable pub xor_words : List ℕ → List ℕ → List ℕ
xor_words [] b = []
xor_words (x ∷ a) [] = x ∷ a
xor_words (x ∷ a) (y ∷ b) = bit_xor x y ∷ xor_words a b

-- The loop on `loop`.
unfoldable pub surf_loops : ℕ → Mixer → List ℕ → List ℕ
surf_loops zero s out = out
surf_loops (suc left) s out =
    let s' = mush_rounds 16 s in surf_loops left s' (xor_words out (drop 4 s'.t))

-- Returns `out`.
unfoldable pub surf : List ℕ → List ℕ
surf input =
    let t0 = xor_words (take 12 input) (drop 12 seed) in
    surf_loops 2 (record { t = t0; x = get_or t0 11 0; sum = 0 }) (take 8 (drop 24 seed))

-- `++in[i]`, and what is done where it is then 0.
unfoldable pub increment : List ℕ → ℕ → (List ℕ → List ℕ) → List ℕ
increment input i next =
    let v = (get_or input i 0 + 1) % 2 ^ 32 in
    let input' = set input i v in let rest = next input' in if v == 0 then rest else input'

unfoldable pub count : List ℕ → List ℕ
count input = increment input 0 λ a. increment a 1 λ b. increment b 2 λ c. increment c 3 λ d. d

-- The bytes of words of 32 bits.
unfoldable pub bytes_of_words : List ℕ → List ℕ
bytes_of_words [] = []
bytes_of_words (w ∷ ws) =
    w % 2 ^ 8 ∷ (w >>> 8) % 2 ^ 8 ∷ (w >>> 16) % 2 ^ 8 ∷ (w >>> 24) % 2 ^ 8 ∷ bytes_of_words ws

unfoldable pub randombytes_regen : Generator → Generator
randombytes_regen g =
    let in1 = count g.input in
    let in2 = count in1 in
    record {
      input = in2;
      out_buf =
          store (store g.out_buf 0 (bytes_of_words (surf in1))) 32 (bytes_of_words (surf in2));
      outleft = 64;
    }

-- Returns the bytes and the state.
unfoldable pub randombytes : ℕ → Generator → List ℕ × Generator
randombytes zero g = ([], g)
randombytes (suc xlen) g =
    let fresh = randombytes_regen g in
    let g' = if g.outleft == 0 then fresh else g in
    let rest =
      randombytes xlen
        (record { input = g'.input; out_buf = g'.out_buf; outleft = g'.outleft - 1 }) in
    (get_or g'.out_buf (g'.outleft - 1) 0 ∷ rest.0, rest.1)

-- The state before the first call.
unfoldable pub initial : Generator
initial = record { input = replicate 12 0; out_buf = replicate 64 0; outleft = 0 }
