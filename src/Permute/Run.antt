-- ===== src/Permute/Run.antt =====
-- fips202/keccakf1600.c: what KeccakF1600_StatePermute runs.
use mlkem_c_embedded.Base.{ℕ, zero, suc, ◌≡◌, refl, List, some}
use mlkem_c_embedded.Keccak.{Keccakf1600}
use mlkem_c_embedded.Interleaved.Access.{interleaved}
use mlkem_c_embedded.Permute.Nrounds.{
  Cursor, round_constants, round0, round1, round2, round3, run_rounds, permute_loop,
  permute_nrounds, state_permute,
}

-- Rounds 0, 1, 2, 3 again and again.
unfoldable pub four_rounds : ℕ → Cursor → Cursor
four_rounds zero c = c
four_rounds (suc n) c = four_rounds n (round3 (round2 (round1 (round0 c))))

-- On every list of words the loop of KeccakF1600_StatePermute ends at the last round constant,
-- after six times the four rounds, which read the constants from the first one on.
pub state_permute_lem :
    (s : List ℕ) → state_permute s ≡ some (four_rounds 6 (record { words = s; next = 0 })).words
unfolding state_permute permute_nrounds permute_loop run_rounds round0 round1 round2 round3
    round_constants four_rounds
state_permute_lem s = refl

-- The words that KeccakF1600_StatePermute leaves.
unfoldable pub permutation : List ℕ → List ℕ
permutation s = (four_rounds 6 (record { words = s; next = 0 })).words

-- The whole of fips202/keccakf1600.c behind its interface.
unfoldable pub keccakf1600 : Keccakf1600
keccakf1600 = interleaved permutation
