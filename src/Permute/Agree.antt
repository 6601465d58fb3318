-- ===== src/Permute/Agree.antt =====
-- fips202/keccakf1600.c: KeccakF1600_StatePermute and the permutation of FIPS 202.
use mlkem_c_embedded.Base.{
  ℕ, zero, suc, ◌+◌, ◌≡◌, refl, sym, ap, ◌∙◌, arith, List, [], ◌∷◌, length, length-set, get_or,
  get_or-emit_one, length-emit_one, emit, list_ext, some,
}
use mlkem_c_embedded.Permute.Plane.{
  column, Columns, Plane, plane, theta, write_plane, run_plane, run_planes, run_round,
}
use mlkem_c_embedded.Permute.Round0.{round0_columns, round0_planes}
use mlkem_c_embedded.Permute.Round1.{round1_columns, round1_planes}
use mlkem_c_embedded.Permute.Round2.{round2_columns, round2_planes}
use mlkem_c_embedded.Permute.Round3.{round3_columns, round3_planes}
use mlkem_c_embedded.Permute.Standard.{
  theta_word, theta_words, standard_planes, standard_round, standard_rounds, even_bits, half_of,
  constants, keccak_f,
}
use mlkem_c_embedded.Permute.Relabel.{
  place, row, gather, words, theta0-standard, planes0-standard, theta1-standard, planes1-standard,
  theta2-standard, planes2-standard, theta3-standard, planes3-standard,
}
use mlkem_c_embedded.Permute.Nrounds.{
  Cursor, round_constants, round0, round1, round2, round3, state_permute,
}
use mlkem_c_embedded.Permute.Run.{four_rounds, state_permute_lem}

-- A state is its words.
words_lem : (s : List ℕ) → length s ≡ 50 → words 50 (λ i. get_or s i 0) ≡ s
words_lem s h =
    let t = words 50 (λ i. get_or s i 0) in
    let size = length-emit_one 50 (λ i. get_or s i 0) in
    list_ext 0 t s (size ∙ sym h)
      λ i l. get_or-emit_one 0 50 (λ i. get_or s i 0) i (omega (arith, size))

-- A round in place, when its theta and its planes are those of the standard.
module _ (from to : Columns) (planes : List Plane)
    (same_theta : (f : ℕ → ℕ) → theta (words 50 f) from ≡ theta_words (gather from (words 50 f)))
    (same_planes : (f g : ℕ → ℕ) (rc0 rc1 : ℕ)
      → gather to (run_planes (words 50 f) (words 10 g) planes (rc0 ∷ rc1 ∷ []))
        ≡ standard_planes (gather from (words 50 f)) (words 10 g) rc0 rc1) where
  run_round-words :
      (f : ℕ → ℕ) (rc0 rc1 : ℕ)
      → gather to (run_round from planes (words 50 f) rc0 rc1)
        ≡ standard_round (gather from (words 50 f)) rc0 rc1
  unfolding run_round standard_round theta_words
  run_round-words f rc0 rc1 =
      rw (same_theta f) (same_planes f (theta_word (gather from (words 50 f))) rc0 rc1)

  run_round-standard :
      (s : List ℕ) (rc0 rc1 : ℕ)
      → length s ≡ 50
      → gather to (run_round from planes s rc0 rc1) ≡ standard_round (gather from s) rc0 rc1
  run_round-standard s rc0 rc1 h =
      rw (words_lem s h) at (run_round-words (λ i. get_or s i 0) rc0 rc1)

length-run_plane : (s d : List ℕ) (p : Plane) (rc : ℕ) → length (run_plane s d p rc) ≡ length s
unfolding run_plane write_plane
length-run_plane s d (plane a e i o u (column wa we wi wo wu)) rc = simp length-set refl

length-run_planes :
    (s d : List ℕ) (ps : List Plane) (rcs : List ℕ) → length (run_planes s d ps rcs) ≡ length s
unfolding run_planes
length-run_planes s d [] rcs = refl
length-run_planes s d (p ∷ ps) [] =
    length-run_planes (run_plane s d p 0) d ps [] ∙ length-run_plane s d p 0
length-run_planes s d (p ∷ ps) (rc ∷ rcs) =
    length-run_planes (run_plane s d p rc) d ps rcs ∙ length-run_plane s d p rc

length-run_round :
    (c : Columns) (ps : List Plane) (s : List ℕ) (rc0 rc1 : ℕ)
    → length s ≡ 50
    → length (run_round c ps s rc0 rc1) ≡ 50
unfolding run_round
length-run_round c ps s rc0 rc1 h = length-run_planes s (theta s c) ps (rc0 ∷ rc1 ∷ []) ∙ h

-- Before the first of four rounds every word is at its place.
gather_id : (s : List ℕ) → length s ≡ 50 → gather round0_columns s ≡ s
unfolding gather row place round0_columns emit
gather_id s h = words_lem s h

-- Four rounds of the standard, with the constants from the cursor on.
standard_four : Cursor → Cursor
standard_four c =
    let rc : ℕ → ℕ = λ i. get_or round_constants i 0 in
    let n = c.next in
    record {
      words =
          standard_round
            (standard_round
              (standard_round (standard_round c.words (rc n) (rc (n + 1))) (rc (n + 2))
                (rc (n + 2 + 1)))
              (rc (n + 2 + 2)) (rc (n + 2 + 2 + 1)))
            (rc (n + 2 + 2 + 2)) (rc (n + 2 + 2 + 2 + 1));
      next = n + 2 + 2 + 2 + 2;
    }

four_standard :
    (c : Cursor)
    → length c.words ≡ 50
    → (round3 (round2 (round1 (round0 c))) ≡ standard_four c)
      × (length (round3 (round2 (round1 (round0 c)))).words ≡ 50)
unfolding round0 round1 round2 round3 standard_four
four_standard c h =
    let rc : ℕ → ℕ = λ i. get_or round_constants i 0 in
    let n = c.next in
    let s0 = run_round round0_columns round0_planes c.words (rc n) (rc (n + 1)) in
    let l0 = length-run_round round0_columns round0_planes c.words (rc n) (rc (n + 1)) h in
    let s1 = run_round round1_columns round1_planes s0 (rc (n + 2)) (rc (n + 2 + 1)) in
    let l1 = length-run_round round1_columns round1_planes s0 (rc (n + 2)) (rc (n + 2 + 1)) l0 in
    let s2 = run_round round2_columns round2_planes s1 (rc (n + 2 + 2)) (rc (n + 2 + 2 + 1)) in
    let l2 =
      length-run_round round2_columns round2_planes s1 (rc (n + 2 + 2)) (rc (n + 2 + 2 + 1)) l1 in
    let a = rc (n + 2 + 2 + 2) in
    let b = rc (n + 2 + 2 + 2 + 1) in
    let s3 = run_round round3_columns round3_planes s2 a b in
    let l3 = length-run_round round3_columns round3_planes s2 a b l2 in
    let e0 =
      run_round-standard round0_columns round1_columns round0_planes theta0-standard
        planes0-standard c.words (rc n) (rc (n + 1)) h
      ∙ ap (λ s. standard_round s (rc n) (rc (n + 1))) (gather_id c.words h) in
    let e1 =
      run_round-standard round1_columns round2_columns round1_planes theta1-standard
        planes1-standard s0 (rc (n + 2)) (rc (n + 2 + 1)) l0
      ∙ ap (λ s. standard_round s (rc (n + 2)) (rc (n + 2 + 1))) e0 in
    let e2 =
      run_round-standard round2_columns round3_columns round2_planes theta2-standard
        planes2-standard s1 (rc (n + 2 + 2)) (rc (n + 2 + 2 + 1)) l1
      ∙ ap (λ s. standard_round s (rc (n + 2 + 2)) (rc (n + 2 + 2 + 1))) e1 in
    let e3 =
      run_round-standard round3_columns round0_columns round3_planes theta3-standard
        planes3-standard s2 a b l2
      ∙ ap (λ s. standard_round s a b) e2 in
    (ap (λ s. record { words = s; next = n + 2 + 2 + 2 + 2 }) (sym (gather_id s3 l3) ∙ e3), l3)

groups : ℕ → Cursor → Cursor
groups zero c = c
groups (suc n) c = groups n (standard_four c)

four_rounds-groups : (n : ℕ) (c : Cursor) → length c.words ≡ 50 → four_rounds n c ≡ groups n c
unfolding four_rounds groups
four_rounds-groups zero c h = refl
four_rounds-groups (suc n) c h =
    let f = four_standard c h in
    four_rounds-groups n (round3 (round2 (round1 (round0 c)))) f.1 ∙ ap (groups n) f.0

groups-keccak_f : (s : List ℕ) → (groups 6 (record { words = s; next = 0 })).words ≡ keccak_f s
unfolding groups standard_four round_constants keccak_f standard_rounds constants half_of even_bits
groups-keccak_f s = refl

-- On 50 words, KeccakF1600_StatePermute is the permutation of FIPS 202: 24 rounds of theta, rho, pi,
-- chi and iota, with the constants of the standard, on lanes that are stored as even and odd bits.
pub state_permute-keccak_f : (s : List ℕ) → length s ≡ 50 → state_permute s ≡ some (keccak_f s)
state_permute-keccak_f s h =
    let start : Cursor = record { words = s; next = 0 } in
    state_permute_lem s
    ∙ ap (λ c. some c.words) (four_rounds-groups 6 start h)
    ∙ ap some (groups-keccak_f s)
