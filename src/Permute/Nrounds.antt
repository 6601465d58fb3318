-- ===== src/Permute/Nrounds.antt =====
-- fips202/keccakf1600.c: KeccakP1600_Permute_Nrounds and KeccakF1600_StatePermute. `nRounds` is at most
-- 24, so that the pointer to the round constants points into the table.
use mlkem_c_embedded.Base.{
  ℕ, zero, suc, ◌+◌, ◌-◌, ◌*◌, List, [], ◌∷◌, get_or, set, bit_and, bit_xor, ◌==◌, if◌then◌else◌,
  Option, none, some, true, false,
}
use mlkem_c_embedded.Permute.Words.{
  abe0, abi0, abo0, abu0, aga0, age0, agi0, ago0, aka0, ake0, aki0, ako0, ako1, aku0, ama0, ame0,
  ami0, ami1, amo0, amu0, asa0, asi0, aso0, asu0,
}
use mlkem_c_embedded.Permute.Plane.{run_round}
use mlkem_c_embedded.Permute.Round0.{round0_columns, round0_planes}
use mlkem_c_embedded.Permute.Round1.{round1_columns, round1_planes}
use mlkem_c_embedded.Permute.Round2.{round2_columns, round2_planes}
use mlkem_c_embedded.Permute.Round3.{round3_columns, round3_planes}

unfoldable pub round_constants : List ℕ
round_constants =
    1 ∷ 0 ∷ 0 ∷ 0x00000089 ∷ 0 ∷ 0x8000008B ∷ 0 ∷ 0x80008080 ∷ 1 ∷ 0x0000008B ∷ 1 ∷ 0x00008000 ∷ 1
    ∷ 0x80008088 ∷ 1 ∷ 0x80000082 ∷ 0 ∷ 0x0000000B ∷ 0 ∷ 0x0000000A ∷ 1 ∷ 0x00008082 ∷ 0
    ∷ 0x00008003 ∷ 1 ∷ 0x0000808B ∷ 1 ∷ 0x8000000B ∷ 1 ∷ 0x8000008A ∷ 1 ∷ 0x80000081 ∷ 0
    ∷ 0x80000081 ∷ 0 ∷ 0x80000008 ∷ 0 ∷ 0x00000083 ∷ 0 ∷ 0x80008003 ∷ 1 ∷ 0x80008088 ∷ 0
    ∷ 0x80000088 ∷ 1 ∷ 0x00008000 ∷ 0 ∷ 0x80008082 ∷ 0x000000FF ∷ []

-- The macros SwapPI13, SwapPI2 and SwapEO; a pointer to a word is its index.
unfoldable pub store_pair : List ℕ → ℕ → ℕ → ℕ → ℕ → List ℕ
store_pair s i eo x y = set (set s (i + eo) x) (i + bit_xor eo 1) y

-- The two words of `from` to `to`.
unfoldable pub move_pair : List ℕ → ℕ → ℕ → ℕ → List ℕ
move_pair s to eo from = store_pair s to eo (get_or s from 0) (get_or s (from + 1) 0)

unfoldable pub swap_pi13 : ℕ → ℕ → ℕ → ℕ → ℕ → ℕ → ℕ → ℕ → List ℕ → List ℕ
swap_pi13 in0 in1 in2 in3 eo0 eo1 eo2 eo3 s =
    store_pair (move_pair (move_pair (move_pair s in0 eo0 in1) in1 eo1 in2) in2 eo2 in3) in3 eo3
      (get_or s in0 0) (get_or s (in0 + 1) 0)

-- Two pairs change places, and their words too.
unfoldable pub swap_pairs : List ℕ → ℕ → ℕ → List ℕ
swap_pairs s a b = store_pair (move_pair s a 1 b) b 1 (get_or s a 0) (get_or s (a + 1) 0)

unfoldable pub swap_pi2 : ℕ → ℕ → ℕ → ℕ → List ℕ → List ℕ
swap_pi2 in0 in1 in2 in3 s = swap_pairs (swap_pairs s in0 in1) in2 in3

unfoldable pub swap_eo : ℕ → ℕ → List ℕ → List ℕ
swap_eo even odd s = set (set s even (get_or s odd 0)) odd (get_or s even 0)

-- The cases 1, 2 and 3 of the first switch.
unfoldable pub swap_case1 : List ℕ → List ℕ
swap_case1 s = swap_pi13 abu0 asu0 aku0 amu0 0 1 0 1 (
    swap_eo ako0 ako1 (
      swap_pi13 abo0 amo0 aso0 ago0 1 0 1 0 (
        swap_eo ami0 ami1 (
          swap_pi13 abi0 aki0 agi0 asi0 1 0 1 0
            (swap_pi13 abe0 age0 ame0 ake0 0 1 0 1 (swap_pi13 aga0 aka0 asa0 ama0 1 0 1 0 s))))))

unfoldable pub swap_case2 : List ℕ → List ℕ
swap_case2 s = swap_pi2 abu0 aku0 amu0 asu0 (
    swap_pi2 abo0 aso0 ago0 amo0 (
      swap_pi2 abi0 agi0 aki0 asi0 (swap_pi2 abe0 ame0 age0 ake0 (swap_pi2 aga0 asa0 aka0 ama0 s))))

unfoldable pub swap_case3 : List ℕ → List ℕ
swap_case3 s = swap_pi13 abu0 amu0 aku0 asu0 1 0 1 0 (
    swap_eo ako0 ako1 (
      swap_pi13 abo0 ago0 aso0 amo0 0 1 0 1 (
        swap_eo ami0 ami1 (
          swap_pi13 abi0 asi0 agi0 aki0 0 1 0 1
            (swap_pi13 abe0 ake0 ame0 age0 1 0 1 0 (swap_pi13 aga0 ama0 asa0 aka0 0 1 0 1 s))))))

-- The words, and the index that `pRoundConstants` points to.
pub record Cursor : Type 0 where
  pub words : List ℕ
  pub next : ℕ

-- One of the macros: it reads two constants.
unfoldable pub round0 : Cursor → Cursor
round0 c = record {
  words =
      run_round round0_columns round0_planes c.words (get_or round_constants c.next 0)
        (get_or round_constants (c.next + 1) 0);
  next = c.next + 2;
}

unfoldable pub round1 : Cursor → Cursor
round1 c = record {
  words =
      run_round round1_columns round1_planes c.words (get_or round_constants c.next 0)
        (get_or round_constants (c.next + 1) 0);
  next = c.next + 2;
}

unfoldable pub round2 : Cursor → Cursor
round2 c = record {
  words =
      run_round round2_columns round2_planes c.words (get_or round_constants c.next 0)
        (get_or round_constants (c.next + 1) 0);
  next = c.next + 2;
}

unfoldable pub round3 : Cursor → Cursor
round3 c = record {
  words =
      run_round round3_columns round3_planes c.words (get_or round_constants c.next 0)
        (get_or round_constants (c.next + 1) 0);
  next = c.next + 2;
}

-- The second switch, whose cases fall through.
unfoldable pub run_rounds : ℕ → Cursor → Cursor
run_rounds n c =
    if n == 0
    then round3 (round2 (round1 (round0 c)))
    else if n == 3
    then round3 (round2 (round1 c))
    else if n == 2
    then round3 (round2 c)
    else if n == 1
    then round3 c
    else c

-- `do … while (*pRoundConstants != 0xFF)`, with fuel.
unfoldable pub permute_loop : ℕ → ℕ → Cursor → Option (List ℕ)
permute_loop zero n c = none
permute_loop (suc fuel) n c =
    let c' = run_rounds n c in
    elim (get_or round_constants c'.next 0 == 0xFF) [
      | true ↦ some c'.words
      | false ↦ permute_loop fuel 0 c'
    ]

unfoldable pub permute_nrounds : List ℕ → ℕ → Option (List ℕ)
permute_nrounds s n =
    let k = bit_and n 3 in
    let swapped =
      if k == 1
      then swap_case1 s
      else if k == 2
      then swap_case2 s
      else if k == 3
      then swap_case3 s
      else s in
    permute_loop (n + 1) k (record { words = swapped; next = (24 - n) * 2 })

unfoldable pub state_permute : List ℕ → Option (List ℕ)
state_permute s = permute_nrounds s 24
