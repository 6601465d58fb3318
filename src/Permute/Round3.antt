-- ===== src/Permute/Round3.antt =====
-- fips202/keccakf1600.c: KeccakRound3.
use mlkem_c_embedded.Base.{List, [], ◌∷◌}
use mlkem_c_embedded.Permute.Words.{
  aba0, aba1, abe0, abe1, abi0, abi1, abo0, abo1, abu0, abu1, aga0, aga1, age0, age1, agi0, agi1,
  ago0, ago1, agu0, agu1, aka0, aka1, ake0, ake1, aki0, aki1, ako0, ako1, aku0, aku1, ama0, ama1,
  ame0, ame1, ami0, ami1, amo0, amo1, amu0, amu1, asa0, asa1, ase0, ase1, asi0, asi1, aso0, aso1,
  asu0, asu1,
}
use mlkem_c_embedded.Permute.Words.{da0, da1, de0, de1, di0, di1, do0, do1, du0, du1}
use mlkem_c_embedded.Permute.Plane.{column, plain, rolled, Plane, plane, Columns}

-- The five words of each column, in the order of the `^`.
unfoldable pub round3_columns : Columns
round3_columns = record {
  ca0 = column aba0 ama0 aga1 asa1 aka0;
  ca1 = column aba1 ama1 aga0 asa0 aka1;
  ce0 = column ake1 abe0 ame0 age1 ase0;
  ce1 = column ake0 abe1 ame1 age0 ase1;
  ci0 = column asi0 aki0 abi1 ami1 agi1;
  ci1 = column asi1 aki1 abi0 ami0 agi0;
  co0 = column ago0 aso1 ako1 abo1 amo0;
  co1 = column ago1 aso0 ako0 abo0 amo1;
  cu0 = column amu1 agu0 asu1 aku0 abu0;
  cu1 = column amu0 agu1 asu0 aku1 abu1;
}

-- Its assignments in groups of five `B` and the five words that they give.
unfoldable pub round3_planes : List Plane
round3_planes =
    plane (plain aba0 da0) (rolled abe0 de0 22) (rolled abi0 di1 22) (rolled abo0 do1 11)
      (rolled abu0 du0 7) (column aba0 abe0 abi0 abo0 abu0)
    ∷ plane (plain aba1 da1) (rolled abe1 de1 22) (rolled abi1 di0 21) (rolled abo1 do0 10)
        (rolled abu1 du1 7) (column aba1 abe1 abi1 abo1 abu1)
    ∷ plane (rolled ago0 do0 14) (rolled agu0 du0 10) (rolled aga0 da1 2) (rolled age0 de1 23)
        (rolled agi0 di1 31) (column aga0 age0 agi0 ago0 agu0)
    ∷ plane (rolled ago1 do1 14) (rolled agu1 du1 10) (rolled aga1 da0 1) (rolled age1 de0 22)
        (rolled agi1 di0 30) (column aga1 age1 agi1 ago1 agu1)
    ∷ plane (rolled ake0 de1 1) (rolled aki0 di0 3) (rolled ako0 do1 13) (rolled aku0 du0 4)
        (rolled aka0 da0 9) (column aka0 ake0 aki0 ako0 aku0)
    ∷ plane (plain ake1 de0) (rolled aki1 di1 3) (rolled ako1 do0 12) (rolled aku1 du1 4)
        (rolled aka1 da1 9) (column aka1 ake1 aki1 ako1 aku1)
    ∷ plane (rolled amu0 du1 14) (rolled ama0 da0 18) (rolled ame0 de0 5) (rolled ami0 di1 8)
        (rolled amo0 do0 28) (column ama0 ame0 ami0 amo0 amu0)
    ∷ plane (rolled amu1 du0 13) (rolled ama1 da1 18) (rolled ame1 de1 5) (rolled ami1 di0 7)
        (rolled amo1 do1 28) (column ama1 ame1 ami1 amo1 amu1)
    ∷ plane (rolled asi0 di0 31) (rolled aso0 do1 28) (rolled asu0 du1 20) (rolled asa0 da1 21)
        (rolled ase0 de0 1) (column asa0 ase0 asi0 aso0 asu0)
    ∷ plane (rolled asi1 di1 31) (rolled aso1 do0 27) (rolled asu1 du0 19) (rolled asa1 da0 20)
        (rolled ase1 de1 1) (column asa1 ase1 asi1 aso1 asu1)
    ∷ []
