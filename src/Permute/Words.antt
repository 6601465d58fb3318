-- ===== src/Permute/Words.antt =====
-- fips202/keccakf1600.c: the names of the 50 words of a state, and of the ten words that theta adds.
use mlkem_c_embedded.Base.{ℕ}

abbrev pub aba0 : ℕ
aba0 = 0

abbrev pub aba1 : ℕ
aba1 = 1

abbrev pub abe0 : ℕ
abe0 = 2

abbrev pub abe1 : ℕ
abe1 = 3

abbrev pub abi0 : ℕ
abi0 = 4

abbrev pub abi1 : ℕ
abi1 = 5

abbrev pub abo0 : ℕ
abo0 = 6

abbrev pub abo1 : ℕ
abo1 = 7

abbrev pub abu0 : ℕ
abu0 = 8

abbrev pub abu1 : ℕ
abu1 = 9

abbrev pub aga0 : ℕ
aga0 = 10

abbrev pub aga1 : ℕ
aga1 = 11

abbrev pub age0 : ℕ
age0 = 12

abbrev pub age1 : ℕ
age1 = 13

abbrev pub agi0 : ℕ
agi0 = 14

abbrev pub agi1 : ℕ
agi1 = 15

abbrev pub ago0 : ℕ
ago0 = 16

abbrev pub ago1 : ℕ
ago1 = 17

abbrev pub agu0 : ℕ
agu0 = 18

abbrev pub agu1 : ℕ
agu1 = 19

abbrev pub aka0 : ℕ
aka0 = 20

abbrev pub aka1 : ℕ
aka1 = 21

abbrev pub ake0 : ℕ
ake0 = 22

abbrev pub ake1 : ℕ
ake1 = 23

abbrev pub aki0 : ℕ
aki0 = 24

abbrev pub aki1 : ℕ
aki1 = 25

abbrev pub ako0 : ℕ
ako0 = 26

abbrev pub ako1 : ℕ
ako1 = 27

abbrev pub aku0 : ℕ
aku0 = 28

abbrev pub aku1 : ℕ
aku1 = 29

abbrev pub ama0 : ℕ
ama0 = 30

abbrev pub ama1 : ℕ
ama1 = 31

abbrev pub ame0 : ℕ
ame0 = 32

abbrev pub ame1 : ℕ
ame1 = 33

abbrev pub ami0 : ℕ
ami0 = 34

abbrev pub ami1 : ℕ
ami1 = 35

abbrev pub amo0 : ℕ
amo0 = 36

abbrev pub amo1 : ℕ
amo1 = 37

abbrev pub amu0 : ℕ
amu0 = 38

abbrev pub amu1 : ℕ
amu1 = 39

abbrev pub asa0 : ℕ
asa0 = 40

abbrev pub asa1 : ℕ
asa1 = 41

abbrev pub ase0 : ℕ
ase0 = 42

abbrev pub ase1 : ℕ
ase1 = 43

abbrev pub asi0 : ℕ
asi0 = 44

abbrev pub asi1 : ℕ
asi1 = 45

abbrev pub aso0 : ℕ
aso0 = 46

abbrev pub aso1 : ℕ
aso1 = 47

abbrev pub asu0 : ℕ
asu0 = 48

abbrev pub asu1 : ℕ
asu1 = 49

abbrev pub da0 : ℕ
da0 = 0

abbrev pub da1 : ℕ
da1 = 1

abbrev pub de0 : ℕ
de0 = 2

abbrev pub de1 : ℕ
de1 = 3

abbrev pub di0 : ℕ
di0 = 4

abbrev pub di1 : ℕ
di1 = 5

abbrev pub do0 : ℕ
do0 = 6

abbrev pub do1 : ℕ
do1 = 7

abbrev pub du0 : ℕ
du0 = 8

abbrev pub du1 : ℕ
du1 = 9
