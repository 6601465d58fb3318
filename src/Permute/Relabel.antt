-- ===== src/Permute/Relabel.antt =====
-- fips202/keccakf1600.c: the words of a state at the places where the macros KeccakRound0 to
-- KeccakRound3 look for them.
use mlkem_c_embedded.Base.{ℕ, ◌≡◌, refl, List, [], ◌∷◌, get_or, emit}
use mlkem_c_embedded.Permute.Plane.{
  Column, column, Columns, parity, theta, read, chi, not32, rol32, write_plane, run_plane,
  run_planes,
}
use mlkem_c_embedded.Permute.Round0.{round0_columns, round0_planes}
use mlkem_c_embedded.Permute.Round1.{round1_columns, round1_planes}
use mlkem_c_embedded.Permute.Round2.{round2_columns, round2_planes}
use mlkem_c_embedded.Permute.Round3.{round3_columns, round3_planes}
use mlkem_c_embedded.Permute.Standard.{
  rotate_word, rotate_lane, offsets, lane_at, column_parity, after_theta, after_pi, after_chi,
  after_iota, theta_word, theta_words, standard_planes,
}

-- The word of a column in row `y`.
unfoldable pub place : Column → ℕ → ℕ
place (column a b c d e) y = get_or (a ∷ b ∷ c ∷ d ∷ e ∷ []) y 0

unfoldable pub row : List ℕ → Columns → ℕ → List ℕ
row s c y =
    get_or s (place c.ca0 y) 0
    ∷ get_or s (place c.ca1 y) 0
    ∷ get_or s (place c.ce0 y) 0
    ∷ get_or s (place c.ce1 y) 0
    ∷ get_or s (place c.ci0 y) 0
    ∷ get_or s (place c.ci1 y) 0
    ∷ get_or s (place c.co0 y) 0
    ∷ get_or s (place c.co1 y) 0
    ∷ get_or s (place c.cu0 y) 0
    ∷ get_or s (place c.cu1 y) 0
    ∷ []

-- The words in the order of the standard, before the round of these columns.
unfoldable pub gather : Columns → List ℕ → List ℕ
gather c s = emit 5 (row s c)

abbrev pub words : ℕ → (ℕ → ℕ) → List ℕ
words n f = emit n λ i. f i ∷ []

pub theta0-standard :
    (f : ℕ → ℕ)
    → theta (words 50 f) round0_columns ≡ theta_words (gather round0_columns (words 50 f))
unfolding emit gather row place theta parity rol32 round0_columns theta_words theta_word
    column_parity lane_at rotate_lane rotate_word
theta0-standard f = refl

pub planes0-standard :
    (f g : ℕ → ℕ) (rc0 rc1 : ℕ)
    → gather round1_columns (run_planes (words 50 f) (words 10 g) round0_planes (rc0 ∷ rc1 ∷ []))
      ≡ standard_planes (gather round0_columns (words 50 f)) (words 10 g) rc0 rc1
unfolding emit gather row place run_planes run_plane write_plane chi read not32 rol32 round0_columns
    round0_planes round1_columns standard_planes after_iota after_chi after_pi after_theta lane_at
    offsets rotate_lane rotate_word
planes0-standard f g rc0 rc1 = refl

pub theta1-standard :
    (f : ℕ → ℕ)
    → theta (words 50 f) round1_columns ≡ theta_words (gather round1_columns (words 50 f))
unfolding emit gather row place theta parity rol32 round1_columns theta_words theta_word
    column_parity lane_at rotate_lane rotate_word
theta1-standard f = refl

pub planes1-standard :
    (f g : ℕ → ℕ) (rc0 rc1 : ℕ)
    → gather round2_columns (run_planes (words 50 f) (words 10 g) round1_planes (rc0 ∷ rc1 ∷ []))
      ≡ standard_planes (gather round1_columns (words 50 f)) (words 10 g) rc0 rc1
unfolding emit gather row place run_planes run_plane write_plane chi read not32 rol32 round1_columns
    round1_planes round2_columns standard_planes after_iota after_chi after_pi after_theta lane_at
    offsets rotate_lane rotate_word
planes1-standard f g rc0 rc1 = refl

pub theta2-standard :
    (f : ℕ → ℕ)
    → theta (words 50 f) round2_columns ≡ theta_words (gather round2_columns (words 50 f))
unfolding emit gather row place theta parity rol32 round2_columns theta_words theta_word
    column_parity lane_at rotate_lane rotate_word
theta2-standard f = refl

pub planes2-standard :
    (f g : ℕ → ℕ) (rc0 rc1 : ℕ)
    → gather round3_columns (run_planes (words 50 f) (words 10 g) round2_planes (rc0 ∷ rc1 ∷ []))
      ≡ standard_planes (gather round2_columns (words 50 f)) (words 10 g) rc0 rc1
unfolding emit gather row place run_planes run_plane write_plane chi read not32 rol32 round2_columns
    round2_planes round3_columns standard_planes after_iota after_chi after_pi after_theta lane_at
    offsets rotate_lane rotate_word
planes2-standard f g rc0 rc1 = refl

pub theta3-standard :
    (f : ℕ → ℕ)
    → theta (words 50 f) round3_columns ≡ theta_words (gather round3_columns (words 50 f))
unfolding emit gather row place theta parity rol32 round3_columns theta_words theta_word
    column_parity lane_at rotate_lane rotate_word
theta3-standard f = refl

pub planes3-standard :
    (f g : ℕ → ℕ) (rc0 rc1 : ℕ)
    → gather round0_columns (run_planes (words 50 f) (words 10 g) round3_planes (rc0 ∷ rc1 ∷ []))
      ≡ standard_planes (gather round3_columns (words 50 f)) (words 10 g) rc0 rc1
unfolding emit gather row place run_planes run_plane write_plane chi read not32 rol32 round3_columns
    round3_planes round0_columns standard_planes after_iota after_chi after_pi after_theta lane_at
    offsets rotate_lane rotate_word
planes3-standard f g rc0 rc1 = refl
