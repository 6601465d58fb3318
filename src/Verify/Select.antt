-- ===== src/Verify/Select.antt =====
-- mlkem/verify.c: what the comparison and the two conditional moves compute.
use mlkem_c_embedded.Base.{
  ℕ, zero, suc, ◌+◌, ◌-◌, ◌%◌, ◌^◌, ◌≤◌, ◌<◌, ◌≡◌, ◌↔◌, ◌∙◌, ap, refl, arith, List, length, get_or,
  set, bit_and, bit_or, bit_xor, IsBytes, list_ext, bit_or-eq-zero, bit_xor-eq-zero, bit_xor_self,
  ℤ, pos, negsuc, u32, int16, signed16, bit_xor-mod, ◌∙◌, IsInt16, leb, ◌&&◌, length-set, take,
  length-take, get_or-take, get_or-set_self, get_or-set_ne, bit_or-lt, bit_xor-lt, bit_and_mask,
  bit_and_comm, zero-bit_and, bit_xor_twice, bit_xor-zero, if◌then◌else◌, ◌==◌,
}
use native.Mathlib.Decide.{ℕ_discrete}
use mlkem_c_embedded.Verify.{verify_loop, top_of_negated, verify, cmov_loop, cmov, cmov_int16}

-- The accumulator ends at 0 just when it was 0 and the arrays agree on the indices left.
module _ (a b : List ℕ) (n : ℕ) (la : length a ≡ n) (lb : length b ≡ n) (ba : IsBytes a)
    (bb : IsBytes b) where
  abbrev next : ℕ → ℕ → ℕ
  next i r = bit_or r (bit_xor (get_or a i 0) (get_or b i 0)) % 2 ^ 8

  next_lem :
      (i r : ℕ)
      → i < n
      → r < 256
      → (next i r < 256) × ((next i r ≡ 0) ↔ ((r ≡ 0) × (get_or a i 0 ≡ get_or b i 0)))
  next_lem i r below small =
      let x = get_or a i 0 in
      let y = get_or b i 0 in
      let hx : x < 256 = ba i (omega arith) in
      let hy : y < 256 = bb i (omega arith) in
      let fits : bit_or r (bit_xor x y) < 256 =
        bit_or-lt 8 r (bit_xor x y) small (bit_xor-lt 8 x y hx hy) in
      (
        omega arith,
        (
          λ e.
              let both = bit_or-eq-zero r (bit_xor x y) (omega arith) in
              (both.0, bit_xor-eq-zero x y both.1),
          λ h. let same : bit_xor x y ≡ 0 = rw h.1 (bit_xor_self y) in rw (same, h.0) refl,
        ),
      )

  verify_loop_lem :
      (left i r : ℕ)
      → i + left ≡ n
      → r < 256
      → (verify_loop a b left i r < 256)
        × ((verify_loop a b left i r ≡ 0)
            ↔ ((r ≡ 0) × ((j : ℕ) → i ≤ j → j < n → get_or a j 0 ≡ get_or b j 0)))
  unfolding verify_loop
  verify_loop_lem zero i r e small = (small, ((λ z. (z, λ j h h'. absurd (omega arith))), λ h. h.0))
  verify_loop_lem (suc left) i r e small =
      let here = next_lem i r (omega arith) small in
      let rest = verify_loop_lem left (i + 1) (next i r) (omega arith) here.0 in
      (
        rest.0,
        (
          λ z.
              let later = rest.1.0 z in
              let now = here.1.0 later.0 in
              (
                now.0,
                λ j h h'. elim (ℕ_discrete i j) [
                  | yes p ↦ rw p at now.1
                  | no p ↦ later.1 j (omega arith) h'
                ],
              ),
          λ h.
              rest.1.1
                (here.1.1 (h.0, h.1 i (omega arith) (omega arith)), λ j p q. h.1 j (omega arith) q),
        ),
      )

  -- On two arrays of `n` bytes, verify returns 0 exactly if they are equal, and at most 1.
  pub verify_lem : ((verify a b n ≡ 0) ↔ (a ≡ b)) × (verify a b n ≤ 1)
  unfolding verify top_of_negated
  verify_lem =
      let r = verify_loop a b n 0 0 in
      let all = verify_loop_lem n 0 0 (omega arith) (omega arith) in
      (
        (
          λ z.
              let same = all.1.0 (omega (arith, all.0)) in
              list_ext 0 a b (omega arith) (λ j h. same.1 j (omega arith) (omega arith)),
          λ e.
              let zero_acc = all.1.1 (refl, λ j p q. ap (λ xs. get_or xs j 0) e) in
              omega (arith, zero_acc),
        ),
        omega (arith, all.0),
      )

-- The mask of `cmov` keeps a byte or clears it.
cmov_step :
    (old new b : ℕ)
    → old < 256
    → new < 256
    → b ≤ 1
    → bit_xor old (bit_and ((2 ^ 8 - b) % 2 ^ 8) (bit_xor old new)) % 2 ^ 8
      ≡ (if b == 1 then new else old)
cmov_step old new b h h' k = elim (ℕ_discrete b 0) [
  | yes e ↦ rw (e, zero-bit_and) (omega (arith, bit_xor-zero old))
  | no e ↦
      let one : b ≡ 1 = omega arith in
      let kept : bit_and 255 (bit_xor old new) ≡ bit_xor old new = omega (
        arith,
        bit_and_comm 255 (bit_xor old new),
        bit_and_mask 8 (bit_xor old new),
        bit_xor-lt 8 old new h h',
      ) in
      rw one (rw kept (rw bit_xor_twice (omega arith)))
]

module _ (x : List ℕ) (n b : ℕ) (lx : n ≤ length x) (bx : IsBytes x) (bit : b ≤ 1) where
  abbrev mask : ℕ
  mask = (2 ^ 8 - b) % 2 ^ 8

  -- From index `i` on, each byte is the one that the bit selects.
  cmov_loop_lem :
      (left i : ℕ) (r : List ℕ)
      → i + left ≡ n
      → length r ≡ n
      → IsBytes r
      → (length (cmov_loop mask x left i r) ≡ n)
        × ((j : ℕ)
            → j < n
            → get_or (cmov_loop mask x left i r) j 0
              ≡ (if leb i j && b == 1 then get_or x j 0 else get_or r j 0))
  unfolding cmov_loop
  cmov_loop_lem zero i r e lr br = (lr, λ j h. ground arith)
  cmov_loop_lem (suc left) i r e lr br =
      let old = get_or r i 0 in
      let new = get_or x i 0 in
      let v = bit_xor old (bit_and mask (bit_xor old new)) % 2 ^ 8 in
      let chosen : v ≡ (if b == 1 then new else old) =
        cmov_step old new b (br i (omega arith)) (bx i (omega arith)) bit in
      let written = get_or-set_self r i v 0 (omega arith) in
      let bytes : IsBytes (set r i v) = λ j h. elim (ℕ_discrete i j) [
        | yes p ↦ rw (← p, written) (omega arith)
        | no p ↦ rw (get_or-set_ne r i j v 0 p) (br j (omega (arith, length-set {0} r i v)))
      ] in
      let rest =
        cmov_loop_lem left (i + 1) (set r i v) (omega arith) (length-set r i v ∙ lr) bytes in
      (
        rest.0,
        λ j h. elim (ℕ_discrete i j) [
          | yes p ↦ ground (arith, rest.1 j h)
          | no p ↦ ground (arith, rest.1 j h, get_or-set_ne r i j v 0 p)
        ],
      )

  -- For an array of `n` bytes and a bit, cmov leaves the first `n` bytes of `x` if the bit is 1, and
  -- the old contents if it is 0; `x` is an array of at least `n` bytes.
  pub cmov_lem :
      (r : List ℕ) → length r ≡ n → IsBytes r → cmov r x n b ≡ (if b == 1 then take n x else r)
  unfolding cmov
  cmov_lem r lr br =
      let all = cmov_loop_lem n 0 r (omega arith) lr br in
      let longer = length-take n x in
      list_ext 0 (cmov r x n b) (if b == 1 then take n x else r) (ground (arith, all.0, longer))
        λ j h.
          let below : j < n = omega (arith, all.0) in
          ground (arith, all.1 j below, get_or-take n x j 0 below)

u32-lt : (a : ℤ) → u32 a < 2 ^ 32
u32-lt (pos n) = omega arith
u32-lt (negsuc n) = omega arith

int16-u32 : (a : ℤ) → IsInt16 a → int16 (pos (u32 a)) ≡ a
unfolding int16
int16-u32 (pos n) h = ground arith
int16-u32 (negsuc n) h = ground arith

-- Only the low 16 bits count.
int16_low : (m n : ℕ) → m % 2 ^ 16 ≡ n % 2 ^ 16 → int16 (pos m) ≡ int16 (pos n)
unfolding int16
int16_low m n e = ap signed16 e

low_mask : (y : ℕ) → y < 2 ^ 32 → bit_and 65535 y ≡ y % 2 ^ 16
low_mask y h = omega (arith, bit_and_comm 65535 y, bit_and_mask 16 y)

-- For two values of `int16_t` and a bit, cmov_int16 stores the new one if the bit is 1, and keeps
-- the old one if it is 0.
pub cmov_int16_lem :
    (r v : ℤ) (b : ℕ) → IsInt16 r → IsInt16 v → b ≤ 1 → cmov_int16 r v b ≡ (if b == 1 then v else r)
unfolding cmov_int16
cmov_int16_lem r v b hr hv bit = elim (ℕ_discrete b 0) [
  | yes e ↦ rw (e, zero-bit_and) (rw bit_xor-zero (int16-u32 r hr))
  | no e ↦
      let one : b ≡ 1 = omega arith in
      let old = u32 r in
      let new = u32 v in
      let y = bit_xor old new in
      let kept : bit_and 65535 y ≡ y % 2 ^ 16 =
        low_mask y (bit_xor-lt 32 old new (u32-lt r) (u32-lt v)) in
      let low : bit_and 65535 y % 2 ^ 16 ≡ bit_xor (old % 2 ^ 16) (new % 2 ^ 16) =
        omega (arith, kept, bit_xor-mod 16 old new) in
      let result : bit_xor old (bit_and 65535 y) % 2 ^ 16 ≡ new % 2 ^ 16 =
        bit_xor-mod 16 old (bit_and 65535 y)
        ∙ ap (λ (t : ℕ). bit_xor (old % 2 ^ 16) t) low
        ∙ bit_xor_twice (old % 2 ^ 16) (new % 2 ^ 16) in
      rw one (int16_low (bit_xor old (bit_and 65535 y)) new result ∙ int16-u32 v hv)
]
