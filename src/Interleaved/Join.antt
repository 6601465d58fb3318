-- ===== src/Interleaved/Join.antt =====
-- fips202/keccakf1600.c with fips202/SnP-Relaned.h: SnP_AddBytes on any offset and length.
use mlkem_c_embedded.Base.{
  ℕ, zero, suc, ◌+◌, ◌*◌, ◌/◌, ◌%◌, ◌≤◌, ◌<◌, ◌≡◌, refl, sym, ap, ap₂, ◌∙◌, arith, List, [], ◌∷◌,
  length, take, drop, length-take, length-drop, take_all, drop_all, take-append-drop, ltb, ◌==◌,
  if◌then◌else◌, ◌⊎◌, inl, inr, true, false, Bool-cases, lt→ltb,
}
use native.Mathlib.Decide.{ℕ_discrete}
use mlkem_c_embedded.Interleaved.{add_bytes_in_lane, add_lanes, add_bytes_loop, state_xor_bytes}
use mlkem_c_embedded.Interleaved.Steps.{step_bytes, step_bytes_cases}
use mlkem_c_embedded.Interleaved.Add.{
  xor_from, xor_from-append, add_bytes_in_lane_lem, add_lanes_lem,
}

xor_from-take :
    (s d : List ℕ) (o o' n : ℕ)
    → (n ≡ length d) ⊎ (o' ≡ o + n)
    → n ≤ length d
    → xor_from (xor_from s o (take n d)) o' (drop n d) ≡ xor_from s o d
unfolding xor_from
xor_from-take s d o o' n (inl e) fits =
    ap₂ (λ x y. xor_from (xor_from s o x) o' y) (take_all n d (omega arith))
      (drop_all n d (omega arith))
xor_from-take s d o o' n (inr e) fits =
    let at : o' ≡ o + length (take n d) = omega (arith, length-take n d) in
    ap (λ k. xor_from (xor_from s o (take n d)) k (drop n d)) at
    ∙ sym (xor_from-append s o (take n d) (drop n d))
    ∙ ap (xor_from s o) (take-append-drop n d)

-- With as much fuel as bytes the loop ends by its own test.
add_bytes_loop_lem :
    (fuel : ℕ) (s d : List ℕ) (lane off : ℕ)
    → length d ≤ fuel
    → off < 8
    → add_bytes_loop fuel s d lane off ≡ xor_from s (lane * 8 + off) d
unfolding add_bytes_loop xor_from step_bytes
add_bytes_loop_lem zero s [] lane off h l = refl
add_bytes_loop_lem zero s (x ∷ d) lane off h l = absurd (omega arith)
add_bytes_loop_lem (suc fuel) s [] lane off h l = refl
add_bytes_loop_lem (suc fuel) s (x ∷ d) lane off h l =
    let n = step_bytes (length (x ∷ d)) off in
    let step = step_bytes_cases (length (x ∷ d)) off (omega arith) l in
    let first = take n (x ∷ d) in
    let rest = drop n (x ∷ d) in
    let next : (n ≡ length (x ∷ d)) ⊎ ((lane + 1) * 8 + 0 ≡ lane * 8 + off + n) = elim step.3 [
      | inl e ↦ inl e
      | inr e ↦ inr (omega arith)
    ] in
    let more : ltb 0 (length (x ∷ d)) ≡ true = lt→ltb 0 (length (x ∷ d)) (omega arith) in
    rw more (
      add_bytes_loop_lem fuel (add_bytes_in_lane s lane first off) rest (lane + 1) 0
        (omega (arith, step.0, length-drop n (x ∷ d))) (omega arith)
      ∙ ap (λ t. xor_from t ((lane + 1) * 8 + 0) rest)
          (add_bytes_in_lane_lem s lane first off
            (omega (arith, step.1, step.2, length-take n (x ∷ d))))
      ∙ xor_from-take s (x ∷ d) (lane * 8 + off) ((lane + 1) * 8 + 0) n next step.1)

-- For every state, data and offset, KeccakF1600_StateXORBytes, by whole lanes and by parts of
-- lanes, leaves the state that joining the bytes of the data one after the other does, each with
-- KeccakP1600_AddBytesInLane.
pub state_xor_bytes_lem : (s d : List ℕ) (o : ℕ) → state_xor_bytes s d o ≡ xor_from s o d
unfolding state_xor_bytes
state_xor_bytes_lem s d o = elim (ℕ_discrete o 0) [
  | no n ↦
      let e : (o == 0) ≡ false = ground arith in
      let at : o / 8 * 8 + o % 8 ≡ o = omega arith in
      rw e (
        add_bytes_loop_lem (length d) s d (o / 8) (o % 8) (omega arith) (omega arith)
        ∙ ap (λ k. xor_from s k d) at)
  | yes z ↦
      let e : (o == 0) ≡ true = ground arith in rw e (lanes ∙ ap (λ k. xor_from s k d) (sym z))
]
  where
    n : ℕ
    n = length d / 8

    all : add_lanes n 0 s d ≡ xor_from s 0 (take (n * 8) d)
    all = add_lanes_lem n 0 s d (omega arith)

    lanes :
        (if ltb 0 (length d % 8)
          then add_bytes_in_lane (add_lanes n 0 s d) n (drop (n * 8) d) 0
          else add_lanes n 0 s d)
        ≡ xor_from s 0 d
    lanes = elim (Bool-cases (ltb 0 (length d % 8))) [
      | inl e ↦
          let size = length-drop (n * 8) d in
          rw e (
            add_bytes_in_lane_lem (add_lanes n 0 s d) n (drop (n * 8) d) 0 (omega arith)
            ∙ ap (λ t. xor_from t (n * 8 + 0) (drop (n * 8) d)) all
            ∙ xor_from-take s d 0 (n * 8 + 0) (n * 8) (inr (omega arith)) (omega arith))
      | inr e ↦
          let whole : length d ≤ n * 8 = ground arith in
          rw e (all ∙ ap (xor_from s 0) (take_all (n * 8) d whole))
    ]

pub state_xor_bytes-nil : (s : List ℕ) (o : ℕ) → state_xor_bytes s [] o ≡ s
unfolding xor_from
state_xor_bytes-nil s o = state_xor_bytes_lem s [] o
