-- ===== src/Randombytes.antt =====
-- hal/randombytes.c: random bytes from the words of a hardware generator. The generator of the board's
-- library, rng_get_random_blocking, is a parameter; on boards with esp_fill_random the source calls
-- that one function.
pub mod Words
use mlkem_c_embedded.Base.{ℕ, zero, suc, ◌/◌, ◌%◌, ◌^◌, List, [], ◌∷◌, ◌++◌, get_or, ◌>>>◌}

-- `random.aschar` for the word `random.asint`.
unfoldable pub aschar : ℕ → List ℕ
aschar w = w % 2 ^ 8 ∷ (w >>> 8) % 2 ^ 8 ∷ (w >>> 16) % 2 ^ 8 ∷ (w >>> 24) % 2 ^ 8 ∷ []

-- `for (…; len > 0; --len)`: the last bytes of a word first.
unfoldable pub last_bytes : ℕ → ℕ → List ℕ
last_bytes zero w = []
last_bytes (suc len) w = get_or (aschar w) len 0 ∷ last_bytes len w

module _ {Rng : Type 0} (rng_get_random_blocking : Rng → ℕ × Rng) where
  -- `while (len > 4)`, and what follows it.
  unfoldable pub randombytes : ℕ → Rng → List ℕ × Rng
  randombytes zero g = ([], g)
  randombytes (suc (suc (suc (suc (suc len))))) g =
      let random = rng_get_random_blocking g in
      let rest = randombytes (suc len) random.1 in (aschar random.0 ++ rest.0, rest.1)
  randombytes (suc len) g =
      let random = rng_get_random_blocking g in (last_bytes (suc len) random.0, random.1)
