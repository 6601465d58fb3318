-- ===== src/Permute/Round0.antt =====
-- fips202/keccakf1600.c: KeccakRound0.
use mlkem_c_embedded.Base.{List, [], ◌∷◌}
use mlkem_c_embedded.Permute.Words.{
  aba0, aba1, abe0, abe1, abi0, abi1, abo0, abo1, abu0, abu1, aga0, aga1, age0, age1, agi0, agi1,
  ago0, ago1, agu0, agu1, aka0, aka1, ake0, ake1, aki0, aki1, ako0, ako1, aku0, aku1, ama0, ama1,
  ame0, ame1, ami0, ami1, amo0, amo1, amu0, amu1, asa0, asa1, ase0, ase1, asi0, asi1, aso0, aso1,
  asu0, asu1,
}
use mlkem_c_embedded.Permute.Words.{da0, da1, de0, de1, di0, di1, do0, do1, du0, du1}
use mlkem_c_embedded.Permute.Plane.{column, plain, rolled, Plane, plane, Columns}

-- The five words of each column, in the order of the `^`.
unfoldable pub round0_columns : Columns
round0_columns = record {
  ca0 = column aba0 aga0 aka0 ama0 asa0;
  ca1 = column aba1 aga1 aka1 ama1 asa1;
  ce0 = column abe0 age0 ake0 ame0 ase0;
  ce1 = column abe1 age1 ake1 ame1 ase1;
  ci0 = column abi0 agi0 aki0 ami0 asi0;
  ci1 = column abi1 agi1 aki1 ami1 asi1;
  co0 = column abo0 ago0 ako0 amo0 aso0;
  co1 = column abo1 ago1 ako1 amo1 aso1;
  cu0 = column abu0 agu0 aku0 amu0 asu0;
  cu1 = column abu1 agu1 aku1 amu1 asu1;
}

-- Its assignments in groups of five `B` and the five words that they give.
unfoldable pub round0_planes : List Plane
round0_planes =
    plane (plain aba0 da0) (rolled age0 de0 22) (rolled aki1 di1 22) (rolled amo1 do1 11)
      (rolled asu0 du0 7) (column aba0 age0 aki1 amo1 asu0)
    ∷ plane (plain aba1 da1) (rolled age1 de1 22) (rolled aki0 di0 21) (rolled amo0 do0 10)
        (rolled asu1 du1 7) (column aba1 age1 aki0 amo0 asu1)
    ∷ plane (rolled abo0 do0 14) (rolled agu0 du0 10) (rolled aka1 da1 2) (rolled ame1 de1 23)
        (rolled asi1 di1 31) (column aka1 ame1 asi1 abo0 agu0)
    ∷ plane (rolled abo1 do1 14) (rolled agu1 du1 10) (rolled aka0 da0 1) (rolled ame0 de0 22)
        (rolled asi0 di0 30) (column aka0 ame0 asi0 abo1 agu1)
    ∷ plane (rolled abe1 de1 1) (rolled agi0 di0 3) (rolled ako1 do1 13) (rolled amu0 du0 4)
        (rolled asa0 da0 9) (column asa0 abe1 agi0 ako1 amu0)
    ∷ plane (plain abe0 de0) (rolled agi1 di1 3) (rolled ako0 do0 12) (rolled amu1 du1 4)
        (rolled asa1 da1 9) (column asa1 abe0 agi1 ako0 amu1)
    ∷ plane (rolled abu1 du1 14) (rolled aga0 da0 18) (rolled ake0 de0 5) (rolled ami1 di1 8)
        (rolled aso0 do0 28) (column aga0 ake0 ami1 aso0 abu1)
    ∷ plane (rolled abu0 du0 13) (rolled aga1 da1 18) (rolled ake1 de1 5) (rolled ami0 di0 7)
        (rolled aso1 do1 28) (column aga1 ake1 ami0 aso1 abu0)
    ∷ plane (rolled abi0 di0 31) (rolled ago1 do1 28) (rolled aku1 du1 20) (rolled ama1 da1 21)
        (rolled ase0 de0 1) (column ama1 ase0 abi0 ago1 aku1)
    ∷ plane (rolled abi1 di1 31) (rolled ago0 do0 27) (rolled aku0 du0 19) (rolled ama0 da0 20)
        (rolled ase1 de1 1) (column ama0 ase1 abi1 ago0 aku0)
    ∷ []
