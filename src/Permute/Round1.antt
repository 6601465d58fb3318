-- ===== src/Permute/Round1.antt =====
-- fips202/keccakf1600.c: KeccakRound1.
use mlkem_c_embedded.Base.{List, [], ◌∷◌}
use mlkem_c_embedded.Permute.Words.{
  aba0, aba1, abe0, abe1, abi0, abi1, abo0, abo1, abu0, abu1, aga0, aga1, age0, age1, agi0, agi1,
  ago0, ago1, agu0, agu1, aka0, aka1, ake0, ake1, aki0, aki1, ako0, ako1, aku0, aku1, ama0, ama1,
  ame0, ame1, ami0, ami1, amo0, amo1, amu0, amu1, asa0, asa1, ase0, ase1, asi0, asi1, aso0, aso1,
  asu0, asu1,
}
use mlkem_c_embedded.Permute.Words.{da0, da1, de0, de1, di0, di1, do0, do1, du0, du1}
use mlkem_c_embedded.Permute.Plane.{column, plain, rolled, Plane, plane, Columns}

-- The five words of each column, in the order of the `^`.
unfoldable pub round1_columns : Columns
round1_columns = record {
  ca0 = column aba0 aka1 asa0 aga0 ama1;
  ca1 = column aba1 aka0 asa1 aga1 ama0;
  ce0 = column age0 ame1 abe1 ake0 ase0;
  ce1 = column age1 ame0 abe0 ake1 ase1;
  ci0 = column aki1 asi1 agi0 ami1 abi0;
  ci1 = column aki0 asi0 agi1 ami0 abi1;
  co0 = column amo1 abo0 ako1 aso0 ago1;
  co1 = column amo0 abo1 ako0 aso1 ago0;
  cu0 = column asu0 agu0 amu0 abu1 aku1;
  cu1 = column asu1 agu1 amu1 abu0 aku0;
}

-- Its assignments in groups of five `B` and the five words that they give.
unfoldable pub round1_planes : List Plane
round1_planes =
    plane (plain aba0 da0) (rolled ame1 de0 22) (rolled agi1 di1 22) (rolled aso1 do1 11)
      (rolled aku1 du0 7) (column aba0 ame1 agi1 aso1 aku1)
    ∷ plane (plain aba1 da1) (rolled ame0 de1 22) (rolled agi0 di0 21) (rolled aso0 do0 10)
        (rolled aku0 du1 7) (column aba1 ame0 agi0 aso0 aku0)
    ∷ plane (rolled amo1 do0 14) (rolled agu0 du0 10) (rolled asa1 da1 2) (rolled ake1 de1 23)
        (rolled abi1 di1 31) (column asa1 ake1 abi1 amo1 agu0)
    ∷ plane (rolled amo0 do1 14) (rolled agu1 du1 10) (rolled asa0 da0 1) (rolled ake0 de0 22)
        (rolled abi0 di0 30) (column asa0 ake0 abi0 amo0 agu1)
    ∷ plane (rolled age1 de1 1) (rolled asi1 di0 3) (rolled ako0 do1 13) (rolled abu1 du0 4)
        (rolled ama1 da0 9) (column ama1 age1 asi1 ako0 abu1)
    ∷ plane (plain age0 de0) (rolled asi0 di1 3) (rolled ako1 do0 12) (rolled abu0 du1 4)
        (rolled ama0 da1 9) (column ama0 age0 asi0 ako1 abu0)
    ∷ plane (rolled asu1 du1 14) (rolled aka1 da0 18) (rolled abe1 de0 5) (rolled ami0 di1 8)
        (rolled ago1 do0 28) (column aka1 abe1 ami0 ago1 asu1)
    ∷ plane (rolled asu0 du0 13) (rolled aka0 da1 18) (rolled abe0 de1 5) (rolled ami1 di0 7)
        (rolled ago0 do1 28) (column aka0 abe0 ami1 ago0 asu0)
    ∷ plane (rolled aki1 di0 31) (rolled abo1 do1 28) (rolled amu1 du1 20) (rolled aga1 da1 21)
        (rolled ase0 de0 1) (column aga1 ase0 aki1 abo1 amu1)
    ∷ plane (rolled aki0 di1 31) (rolled abo0 do0 27) (rolled amu0 du0 19) (rolled aga0 da0 20)
        (rolled ase1 de1 1) (column aga0 ase1 aki0 abo0 amu0)
    ∷ []
