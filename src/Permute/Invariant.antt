-- ===== src/Permute/Invariant.antt =====
-- fips202/keccakf1600.c: the words of a state under the permutation.
use mlkem_c_embedded.Base.{
  ℕ, zero, suc, ◌+◌, ◌-◌, ◌%◌, ◌^◌, ◌<◌, ◌≡◌, refl, arith, List, [], ◌∷◌, get_or, set, bit_and,
  bit_and-le, bit_xor, bit_xor-lt, Bool, true, ◌&&◌, ltb, some, ◌<<<◌, ◌>>>◌,
}
use native.Mathlib.Nat.{div-le_self}
use mlkem_c_embedded.Interleaved.Bytes.{IsState, set-IsState}
use mlkem_c_embedded.Permute.Plane.{
  rol32, not32, Column, column, parity, Columns, theta, Read, plain, rolled, read, Plane, plane,
  chi, write_plane, run_plane, run_planes, run_round,
}
use mlkem_c_embedded.Permute.Round0.{round0_columns, round0_planes}
use mlkem_c_embedded.Permute.Round1.{round1_columns, round1_planes}
use mlkem_c_embedded.Permute.Round2.{round2_columns, round2_planes}
use mlkem_c_embedded.Permute.Round3.{round3_columns, round3_planes}
use mlkem_c_embedded.Permute.Nrounds.{
  Cursor, round_constants, round0, round1, round2, round3, state_permute,
}
use mlkem_c_embedded.Permute.Run.{four_rounds, state_permute_lem}

-- Every element is a word of 32 bits.
abbrev Words : List ℕ → Type 0
Words xs = (i : ℕ) → get_or xs i 0 < 2 ^ 32

cons-Words : (x : ℕ) (xs : List ℕ) → x < 2 ^ 32 → Words xs → Words (x ∷ xs)
cons-Words x xs h hs zero = h
cons-Words x xs h hs (suc i) = hs i

nil-Words : Words []
nil-Words i = omega arith

rol32-lt : (a offset : ℕ) → a < 2 ^ 32 → rol32 a offset < 2 ^ 32
unfolding rol32
rol32-lt a offset h =
    bit_xor-lt 32 ((a <<< offset) % 2 ^ 32) (a >>> (32 - offset)) (omega arith)
      (omega (arith, div-le_self a (2 ^ (32 - offset))))

parity-lt : (s : List ℕ) (c : Column) → Words s → parity s c < 2 ^ 32
unfolding parity
parity-lt s (column a b c d e) h =
    let w : ℕ → ℕ = λ i. get_or s i 0 in
    let ab = bit_xor-lt 32 (w a) (w b) (h a) (h b) in
    let abc = bit_xor-lt 32 (bit_xor (w a) (w b)) (w c) ab (h c) in
    let abcd = bit_xor-lt 32 (bit_xor (bit_xor (w a) (w b)) (w c)) (w d) abc (h d) in
    bit_xor-lt 32 (bit_xor (bit_xor (bit_xor (w a) (w b)) (w c)) (w d)) (w e) abcd (h e)

rolled_pair-lt :
    (s : List ℕ) (x y : Column) → Words s → bit_xor (parity s x) (rol32 (parity s y) 1) < 2 ^ 32
rolled_pair-lt s x y h =
    bit_xor-lt 32 (parity s x) (rol32 (parity s y) 1) (parity-lt s x h)
      (rol32-lt (parity s y) 1 (parity-lt s y h))

pair-lt : (s : List ℕ) (x y : Column) → Words s → bit_xor (parity s x) (parity s y) < 2 ^ 32
pair-lt s x y h = bit_xor-lt 32 (parity s x) (parity s y) (parity-lt s x h) (parity-lt s y h)

theta-Words : (s : List ℕ) (c : Columns) → Words s → Words (theta s c)
unfolding theta
theta-Words s c h zero = rolled_pair-lt s c.cu0 c.ce1 h
theta-Words s c h (suc zero) = pair-lt s c.cu1 c.ce0 h
theta-Words s c h (suc (suc zero)) = rolled_pair-lt s c.ca0 c.ci1 h
theta-Words s c h (suc (suc (suc zero))) = pair-lt s c.ca1 c.ci0 h
theta-Words s c h (suc (suc (suc (suc zero)))) = rolled_pair-lt s c.ce0 c.co1 h
theta-Words s c h (suc (suc (suc (suc (suc zero))))) = pair-lt s c.ce1 c.co0 h
theta-Words s c h (suc (suc (suc (suc (suc (suc zero)))))) = rolled_pair-lt s c.ci0 c.cu1 h
theta-Words s c h (suc (suc (suc (suc (suc (suc (suc zero))))))) = pair-lt s c.ci1 c.cu0 h
theta-Words s c h (suc (suc (suc (suc (suc (suc (suc (suc zero)))))))) =
    rolled_pair-lt s c.co0 c.ca1 h
theta-Words s c h (suc (suc (suc (suc (suc (suc (suc (suc (suc zero))))))))) =
    pair-lt s c.co1 c.ca0 h
theta-Words s c h (suc (suc (suc (suc (suc (suc (suc (suc (suc (suc i)))))))))) = omega arith

read-lt : (s d : List ℕ) (r : Read) → Words s → Words d → read s d r < 2 ^ 32
unfolding read
read-lt s d (plain i j) hs hd = bit_xor-lt 32 (get_or s i 0) (get_or d j 0) (hs i) (hd j)
read-lt s d (rolled i j offset) hs hd =
    rol32-lt (bit_xor (get_or s i 0) (get_or d j 0)) offset
      (bit_xor-lt 32 (get_or s i 0) (get_or d j 0) (hs i) (hd j))

chi-lt : (x y z : ℕ) → x < 2 ^ 32 → z < 2 ^ 32 → chi x y z < 2 ^ 32
unfolding chi
chi-lt x y z hx hz =
    bit_xor-lt 32 x (bit_and (not32 y) z) hx (omega (arith, bit_and-le (not32 y) z))

write_plane-IsState :
    (s : List ℕ) (c : Column) (rc ba be bi bo bu : ℕ)
    → IsState s
    → rc < 2 ^ 32
    → ba < 2 ^ 32
    → be < 2 ^ 32
    → bi < 2 ^ 32
    → bo < 2 ^ 32
    → bu < 2 ^ 32
    → IsState (write_plane s c rc ba be bi bo bu)
unfolding write_plane
write_plane-IsState s (column a e i o u) rc ba be bi bo bu hs hrc ha he hi ho hu =
    let x = bit_xor (chi ba be bi) rc in
    let s1 = set s a x in
    let s2 = set s1 e (chi be bi bo) in
    let s3 = set s2 i (chi bi bo bu) in
    let s4 = set s3 o (chi bo bu ba) in
    let h1 = set-IsState s a x hs (bit_xor-lt 32 (chi ba be bi) rc (chi-lt ba be bi ha hi) hrc) in
    let h2 = set-IsState s1 e (chi be bi bo) h1 (chi-lt be bi bo he ho) in
    let h3 = set-IsState s2 i (chi bi bo bu) h2 (chi-lt bi bo bu hi hu) in
    let h4 = set-IsState s3 o (chi bo bu ba) h3 (chi-lt bo bu ba ho ha) in
    set-IsState s4 u (chi bu ba be) h4 (chi-lt bu ba be hu he)

run_plane-IsState :
    (s d : List ℕ) (p : Plane) (rc : ℕ)
    → IsState s
    → Words d
    → rc < 2 ^ 32
    → IsState (run_plane s d p rc)
unfolding run_plane
run_plane-IsState s d (plane a e i o u words) rc hs hd hrc =
    write_plane-IsState s words rc (read s d a) (read s d e) (read s d i) (read s d o) (read s d u)
      hs hrc (read-lt s d a hs.1 hd) (read-lt s d e hs.1 hd) (read-lt s d i hs.1 hd)
      (read-lt s d o hs.1 hd) (read-lt s d u hs.1 hd)

run_planes-IsState :
    (planes : List Plane) (s d rcs : List ℕ)
    → IsState s
    → Words d
    → Words rcs
    → IsState (run_planes s d planes rcs)
unfolding run_planes
run_planes-IsState [] s d rcs hs hd hr = hs
run_planes-IsState (p ∷ planes) s d [] hs hd hr =
    run_planes-IsState planes (run_plane s d p 0) d []
      (run_plane-IsState s d p 0 hs hd (omega arith)) hd hr
run_planes-IsState (p ∷ planes) s d (rc ∷ rcs) hs hd hr =
    run_planes-IsState planes (run_plane s d p rc) d rcs (run_plane-IsState s d p rc hs hd (hr 0))
      hd (λ i. hr (suc i))

-- A round keeps the words in their bounds, whatever its table.
run_round-IsState :
    (columns : Columns) (planes : List Plane) (s : List ℕ) (rc0 rc1 : ℕ)
    → IsState s
    → rc0 < 2 ^ 32
    → rc1 < 2 ^ 32
    → IsState (run_round columns planes s rc0 rc1)
unfolding run_round
run_round-IsState columns planes s rc0 rc1 hs h0 h1 =
    run_planes-IsState planes s (theta s columns) (rc0 ∷ rc1 ∷ []) hs (theta-Words s columns hs.1)
      (cons-Words rc0 (rc1 ∷ []) h0 (cons-Words rc1 [] h1 nil-Words))

all_words : List ℕ → Bool
all_words [] = true
all_words (x ∷ xs) = ltb x (2 ^ 32) && all_words xs

all_words-Words : (xs : List ℕ) → all_words xs ≡ true → Words xs
unfolding all_words
all_words-Words [] h = nil-Words
all_words-Words (x ∷ xs) h = cons-Words x xs (ground arith) (all_words-Words xs (ground arith))

constants-Words : Words round_constants
constants-Words = all_words-Words round_constants (unfold all_words round_constants in refl)

next_round-IsState :
    (columns : Columns) (planes : List Plane) (s : List ℕ) (next : ℕ)
    → IsState s
    → IsState (
        run_round columns planes s
          (get_or round_constants next 0)
          (get_or round_constants (next + 1) 0))
next_round-IsState columns planes s next hs =
    run_round-IsState columns planes s (get_or round_constants next 0)
      (get_or round_constants (next + 1) 0) hs (constants-Words next) (constants-Words (next + 1))

round0-IsState : (c : Cursor) → IsState c.words → IsState (round0 c).words
unfolding round0
round0-IsState c = next_round-IsState round0_columns round0_planes c.words c.next

round1-IsState : (c : Cursor) → IsState c.words → IsState (round1 c).words
unfolding round1
round1-IsState c = next_round-IsState round1_columns round1_planes c.words c.next

round2-IsState : (c : Cursor) → IsState c.words → IsState (round2 c).words
unfolding round2
round2-IsState c = next_round-IsState round2_columns round2_planes c.words c.next

round3-IsState : (c : Cursor) → IsState c.words → IsState (round3 c).words
unfolding round3
round3-IsState c = next_round-IsState round3_columns round3_planes c.words c.next

four_rounds-IsState : (n : ℕ) (c : Cursor) → IsState c.words → IsState (four_rounds n c).words
unfolding four_rounds
four_rounds-IsState zero c h = h
four_rounds-IsState (suc n) c h =
    let c0 = round0 c in
    let c1 = round1 c0 in
    let c2 = round2 c1 in
    four_rounds-IsState n (round3 c2)
      (round3-IsState c2 (round2-IsState c1 (round1-IsState c0 (round0-IsState c h))))

-- On 50 words of 32 bits KeccakF1600_StatePermute ends and leaves 50 words of 32 bits.
pub state_permute-IsState :
    (s : List ℕ) → IsState s → (t : List ℕ) × (state_permute s ≡ some t) × IsState t
state_permute-IsState s hs =
    let c : Cursor = record { words = s; next = 0 } in
    ((four_rounds 6 c).words, state_permute_lem s, four_rounds-IsState 6 c hs)
