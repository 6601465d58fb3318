-- ===== src/Permute/Round2.antt =====
-- fips202/keccakf1600.c: KeccakRound2.
use mlkem_c_embedded.Base.{List, [], ◌∷◌}
use mlkem_c_embedded.Permute.Words.{
  aba0, aba1, abe0, abe1, abi0, abi1, abo0, abo1, abu0, abu1, aga0, aga1, age0, age1, agi0, agi1,
  ago0, ago1, agu0, agu1, aka0, aka1, ake0, ake1, aki0, aki1, ako0, ako1, aku0, aku1, ama0, ama1,
  ame0, ame1, ami0, ami1, amo0, amo1, amu0, amu1, asa0, asa1, ase0, ase1, asi0, asi1, aso0, aso1,
  asu0, asu1,
}
use mlkem_c_embedded.Permute.Words.{da0, da1, de0, de1, di0, di1, do0, do1, du0, du1}
use mlkem_c_embedded.Permute.Plane.{column, plain, rolled, Plane, plane, Columns}

-- The five words of each column, in the order of the `^`.
unfoldable pub round2_columns : Columns
round2_columns = record {
  ca0 = column aba0 asa1 ama1 aka1 aga1;
  ca1 = column aba1 asa0 ama0 aka0 aga0;
  ce0 = column ame1 ake1 age1 abe1 ase0;
  ce1 = column ame0 ake0 age0 abe0 ase1;
  ci0 = column agi1 abi1 asi1 ami0 aki1;
  ci1 = column agi0 abi0 asi0 ami1 aki0;
  co0 = column aso1 amo1 ako0 ago1 abo1;
  co1 = column aso0 amo0 ako1 ago0 abo0;
  cu0 = column aku1 agu0 abu1 asu1 amu1;
  cu1 = column aku0 agu1 abu0 asu0 amu0;
}

-- Its assignments in groups of five `B` and the five words that they give.
unfoldable pub round2_planes : List Plane
round2_planes =
    plane (plain aba0 da0) (rolled ake1 de0 22) (rolled asi0 di1 22) (rolled ago0 do1 11)
      (rolled amu1 du0 7) (column aba0 ake1 asi0 ago0 amu1)
    ∷ plane (plain aba1 da1) (rolled ake0 de1 22) (rolled asi1 di0 21) (rolled ago1 do0 10)
        (rolled amu0 du1 7) (column aba1 ake0 asi1 ago1 amu0)
    ∷ plane (rolled aso1 do0 14) (rolled agu0 du0 10) (rolled ama0 da1 2) (rolled abe0 de1 23)
        (rolled aki0 di1 31) (column ama0 abe0 aki0 aso1 agu0)
    ∷ plane (rolled aso0 do1 14) (rolled agu1 du1 10) (rolled ama1 da0 1) (rolled abe1 de0 22)
        (rolled aki1 di0 30) (column ama1 abe1 aki1 aso0 agu1)
    ∷ plane (rolled ame0 de1 1) (rolled abi1 di0 3) (rolled ako1 do1 13) (rolled asu1 du0 4)
        (rolled aga1 da0 9) (column aga1 ame0 abi1 ako1 asu1)
    ∷ plane (plain ame1 de0) (rolled abi0 di1 3) (rolled ako0 do0 12) (rolled asu0 du1 4)
        (rolled aga0 da1 9) (column aga0 ame1 abi0 ako0 asu0)
    ∷ plane (rolled aku0 du1 14) (rolled asa1 da0 18) (rolled age1 de0 5) (rolled ami1 di1 8)
        (rolled abo1 do0 28) (column asa1 age1 ami1 abo1 aku0)
    ∷ plane (rolled aku1 du0 13) (rolled asa0 da1 18) (rolled age0 de1 5) (rolled ami0 di0 7)
        (rolled abo0 do1 28) (column asa0 age0 ami0 abo0 aku1)
    ∷ plane (rolled agi1 di0 31) (rolled amo0 do1 28) (rolled abu0 du1 20) (rolled aka0 da1 21)
        (rolled ase0 de0 1) (column aka0 ase0 agi1 amo0 abu0)
    ∷ plane (rolled agi0 di1 31) (rolled amo1 do0 27) (rolled abu1 du0 19) (rolled aka1 da0 20)
        (rolled ase1 de1 1) (column aka1 ase1 agi0 amo1 abu1)
    ∷ []
