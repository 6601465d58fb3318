-- ===== src/Examples/Toy.antt =====
-- A concrete function in place of those of fips202/fips202.h, and bytes to use as data.
use mlkem_c_embedded.Base.{
  ℕ, ◌+◌, ◌*◌, ◌%◌, ◌^◌, ◌≡◌, arith, List, [], ◌∷◌, length, emit, length-emit_one, get_or-emit_one,
  IsBytes,
}
use mlkem_c_embedded.Symmetric.{Fips202}

abbrev pub sum : List ℕ → ℕ
sum [] = 7
sum (x ∷ xs) = (x + 31 * sum xs) % 2 ^ 32

-- Byte `i` of the stream of the state `s`.
abbrev pub stream : ℕ → ℕ → ℕ
stream s i = (s + i * i * 77 + i * (s % 251)) % 256

abbrev pub stretch : ℕ → ℕ → List ℕ
stretch n s = emit n λ i. stream s i ∷ []

pub length-stretch : (n s : ℕ) → length (stretch n s) ≡ n
length-stretch n s = length-emit_one n (stream s)

pub stretch-IsBytes : (n s : ℕ) → IsBytes (stretch n s)
stretch-IsBytes n s i h =
    rw (get_or-emit_one 0 n (stream s) i (omega (arith, length-stretch n s))) (omega arith)

abbrev pub toy : Fips202
toy = record {
  Shake128 = ℕ;
  Shake256Inc = ℕ;
  shake128_absorb = sum;
  shake128_squeezeblocks = λ n s. (stretch (n * 168) s, s * 5 + 3);
  shake256 = λ n m. stretch n (sum m);
  sha3_256 = λ m. stretch 32 (sum m);
  sha3_512 = λ m. stretch 64 (sum m);
  shake256_inc_init = 0;
  shake256_inc_absorb = λ s m. s * 3 + sum m;
  shake256_inc_finalize = λ s. s;
  shake256_inc_squeeze = λ n s. (stretch n s, s);
  length-sha3_256 = λ m. length-stretch 32 (sum m);
  length-sha3_512 = λ m. length-stretch 64 (sum m);
  length-shake256_inc_squeeze = λ n s. length-stretch n s;
  sha3_512-IsBytes = λ m. stretch-IsBytes 64 (sum m);
  shake256_inc_squeeze-IsBytes = λ n s. stretch-IsBytes n s;
}
