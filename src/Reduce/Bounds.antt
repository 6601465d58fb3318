-- ===== src/Reduce/Bounds.antt =====
-- mlkem/reduce.c: residues and ranges of the two reductions.
use mlkem_c_embedded.Base.{
  ℕ, ◌+◌, ◌-◌, ◌*◌, ◌%◌, ◌^◌, ◌≤◌, ◌<◌, ◌≡◌, refl, arith, ℤ, pos, negsuc, abs, IsInt16, ◌+ℤ◌, ◌-ℤ◌,
  ◌*ℤ◌, int16, int32, u16, ◌>>ℤ◌, pos_part, neg_part, int32-id, abs-*ℤ, abs--ℤ,
}
use mlkem_c_embedded.Params.{mlkem_q}
use mlkem_c_embedded.Reduce.{
  montgomery_factor, montgomery_quotient, montgomery_reduce, barrett_reduce,
}

-- The residue modulo q, from 0 to q - 1.
abbrev pub residue : ℤ → ℕ
residue (pos n) = n % mlkem_q
residue (negsuc n) = mlkem_q - 1 - n % mlkem_q

pub residue-lt : (a : ℤ) → residue a < mlkem_q
residue-lt (pos n) = omega arith
residue-lt (negsuc n) = omega arith

pub abs-barrett_reduce : (a : ℤ) → IsInt16 a → abs (barrett_reduce a) ≤ 1664
unfolding barrett_reduce int16 int32 ◌+ℤ◌ ◌-ℤ◌ ◌*ℤ◌
abs-barrett_reduce (pos n) h = ground arith
abs-barrett_reduce (negsuc n) h = ground arith

pub residue-barrett_reduce : (a : ℤ) → IsInt16 a → residue (barrett_reduce a) ≡ residue a
unfolding barrett_reduce int16 int32 ◌+ℤ◌ ◌-ℤ◌ ◌*ℤ◌
residue-barrett_reduce (pos n) h = ground arith
residue-barrett_reduce (negsuc n) h = ground arith

-- The factor makes the low 16 bits of `a - t * q` zero.
factor_mod : (a : ℤ) → (mlkem_q * u16 (montgomery_factor a)) % 65536 ≡ u16 a
unfolding montgomery_factor int16 int32 ◌*ℤ◌
factor_mod (pos n) = ground arith
factor_mod (negsuc n) = ground arith

abs-factor : (a : ℤ) → abs (montgomery_factor a) ≤ 32768
unfolding montgomery_factor int16
abs-factor a = ground arith

-- Without its low 16 bits a number is shifted exactly.
shift_exact :
    (d : ℤ)
    → abs d < 2 ^ 31
    → u16 d ≡ 0
    → (pos_part (int16 (d >>ℤ 16)) * 65536 ≡ pos_part d)
      × (neg_part (int16 (d >>ℤ 16)) * 65536 ≡ neg_part d)
unfolding int16
shift_exact (pos n) h e = ground arith
shift_exact (negsuc n) h e = ground arith

difference_low : (a t : ℤ) → (mlkem_q * u16 t) % 65536 ≡ u16 a → u16 (a -ℤ t *ℤ pos mlkem_q) ≡ 0
unfolding ◌-ℤ◌ ◌*ℤ◌
difference_low (pos n) (pos t) e = ground arith
difference_low (pos n) (negsuc t) e = ground arith
difference_low (negsuc n) (pos t) e = ground arith
difference_low (negsuc n) (negsuc t) e = ground arith

difference_parts :
    (a t : ℤ)
    → let d = a -ℤ t *ℤ pos mlkem_q in
      pos_part d + neg_part a + pos_part t * mlkem_q
      ≡ neg_part d + pos_part a + neg_part t * mlkem_q
unfolding ◌-ℤ◌ ◌*ℤ◌
difference_parts (pos n) (pos t) = ground arith
difference_parts (pos n) (negsuc t) = ground arith
difference_parts (negsuc n) (pos t) = ground arith
difference_parts (negsuc n) (negsuc t) = ground arith

-- The conversions to 32 bits lose nothing.
quotient_shift :
    (a t : ℤ)
    → abs a ≤ mlkem_q * 2 ^ 15
    → abs t ≤ 32768
    → montgomery_quotient a t ≡ int16 ((a -ℤ t *ℤ pos mlkem_q) >>ℤ 16)
unfolding montgomery_quotient
quotient_shift a t h k =
    rw
      (
        int32-id (t *ℤ pos mlkem_q) (omega (arith, abs-*ℤ t (pos mlkem_q))),
        int32-id (a -ℤ t *ℤ pos mlkem_q)
            (omega (arith, abs-*ℤ t (pos mlkem_q), abs--ℤ a (t *ℤ pos mlkem_q))),
      )
      refl

-- `a` is the result times 2^16 plus a multiple of q.
montgomery_exact :
    (a : ℤ)
    → abs a ≤ mlkem_q * 2 ^ 15
    → let r = montgomery_reduce a in
      let t = montgomery_factor a in
      pos_part r * 65536 + pos_part t * mlkem_q + neg_part a
      ≡ neg_part r * 65536 + neg_part t * mlkem_q + pos_part a
unfolding montgomery_reduce
montgomery_exact a h =
    let t = montgomery_factor a in
    let d = a -ℤ t *ℤ pos mlkem_q in
    rw (quotient_shift a t h (abs-factor a)) (
      omega (
        arith,
        difference_parts a t,
        shift_exact d
            (omega (arith, abs-factor a, abs-*ℤ t (pos mlkem_q), abs--ℤ a (t *ℤ pos mlkem_q)))
            (difference_low a t (factor_mod a)),
      ))

bound_of_exact :
    (a r t : ℤ)
    → abs t ≤ 32768
    → pos_part r * 65536 + pos_part t * mlkem_q + neg_part a
      ≡ neg_part r * 65536 + neg_part t * mlkem_q + pos_part a
    → abs r * 65536 ≤ abs a + 109084672
bound_of_exact a (pos r) t k e = ground arith
bound_of_exact a (negsuc r) t k e = ground arith

residue_of_exact :
    (a r t : ℤ)
    → pos_part r * 65536 + pos_part t * mlkem_q + neg_part a
      ≡ neg_part r * 65536 + neg_part t * mlkem_q + pos_part a
    → residue a ≡ (residue r * 65536) % mlkem_q
residue_of_exact (pos n) (pos r) t e = omega arith
residue_of_exact (pos n) (negsuc r) t e = omega arith
residue_of_exact (negsuc n) (pos r) t e = omega arith
residue_of_exact (negsuc n) (negsuc r) t e = omega arith

-- For |a| at most q * 2^15, Montgomery reduction returns r with a = r * 2^16 modulo q, and
-- |r| is at most (|a| + q * 2^15) / 2^16.
pub montgomery_reduce_lem :
    (a : ℤ)
    → abs a ≤ mlkem_q * 2 ^ 15
    → (residue a ≡ (residue (montgomery_reduce a) * 65536) % mlkem_q)
      × (abs (montgomery_reduce a) * 65536 ≤ abs a + mlkem_q * 2 ^ 15)
montgomery_reduce_lem a h =
    let r = montgomery_reduce a in
    let t = montgomery_factor a in
    (
      residue_of_exact a r t (montgomery_exact a h),
      bound_of_exact a r t (abs-factor a) (montgomery_exact a h),
    )

-- For every `int16_t` Barrett reduction returns a number with the same residue modulo q, between
-- -1664 and 1664.
pub barrett_reduce_lem :
    (a : ℤ) → IsInt16 a → (residue (barrett_reduce a) ≡ residue a) × (abs (barrett_reduce a) ≤ 1664)
barrett_reduce_lem a h = (residue-barrett_reduce a h, abs-barrett_reduce a h)
