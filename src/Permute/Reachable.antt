-- ===== src/Permute/Reachable.antt =====
-- fips202/keccakf1600.c: the states that KeccakF1600_StateXORBytes and KeccakF1600_StatePermute lead to.
use mlkem_c_embedded.Base.{ℕ, ◌≡◌, refl, sym, ◌∙◌, arith, List, replicate, some}
use mathlib.Core.Option.{some-injective}
use mlkem_c_embedded.Interleaved.{state_xor_bytes}
use mlkem_c_embedded.Interleaved.Add.{get_or-zeros}
use mlkem_c_embedded.Interleaved.Join.{state_xor_bytes_lem}
use mlkem_c_embedded.Interleaved.Bytes.{IsState}
use mlkem_c_embedded.Interleaved.Readback.{xor_from-IsState}
use mlkem_c_embedded.Permute.Nrounds.{state_permute}
use mlkem_c_embedded.Permute.Invariant.{state_permute-IsState}

-- The states that a caller of fips202/keccakf1600.h can bring about: it clears the state, joins data
-- to it and permutes it, in any order.
pub data Reachable : List ℕ → Type 0 where
  cleared : Reachable (replicate 50 0)
  joined : (s d : List ℕ) (o : ℕ) → Reachable s → Reachable (state_xor_bytes s d o)
  permuted : (s t : List ℕ) → Reachable s → state_permute s ≡ some t → Reachable t

-- Every state that clearing, joining data and permuting, in any order, bring about is 50 words of
-- 32 bits.
pub Reachable-IsState : (s : List ℕ) → Reachable s → IsState s
Reachable-IsState s cleared = (refl, λ i. omega (arith, get_or-zeros 50 i))
Reachable-IsState s (joined s' d o r) =
    rw (state_xor_bytes_lem s' d o) (xor_from-IsState d s' o (Reachable-IsState s' r))
Reachable-IsState s (permuted s' t r e) =
    let next = state_permute-IsState s' (Reachable-IsState s' r) in
    let same : next.0 ≡ t = some-injective next.0 t (sym next.1 ∙ e) in rw (← same) next.2
