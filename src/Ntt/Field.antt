-- ===== src/Ntt/Field.antt =====
-- mlkem/reduce.c and mlkem/ntt.c: coefficients as elements of the field with q elements.
use mlkem_c_embedded.Base.{
  ℕ, zero, suc, ◌+◌, ◌*◌, ◌%◌, ◌≤◌, ◌≡◌, sym, ◌∙◌, arith, ℤ, pos, negsuc, abs, neg_ℤ, ◌+ℤ◌, ◌-ℤ◌,
  ◌*ℤ◌,
}
use mlkem_c_embedded.Params.{mlkem_q}
use mlkem_c_embedded.Reduce.Bounds.{residue}
use mlkem_c_embedded.Ntt.{fqmul}
use mlkem_c_embedded.Ntt.Bounds.{fqmul_lem}

-- Equality modulo q.
infix 50 ◌≈◌
abbrev pub ◌≈◌ : ℕ → ℕ → Type 0
a ≈ b = a % mlkem_q ≡ b % mlkem_q

pub ≈-scale : (c a b : ℕ) → a ≈ b → c * a ≈ c * b
≈-scale zero a b e = omega arith
≈-scale (suc c) a b e = omega (arith, ≈-scale c a b e)

pub ≈-mul : (a a' b b' : ℕ) → a ≈ a' → b ≈ b' → a * b ≈ a' * b'
≈-mul a a' b b' e e' = omega (arith, ≈-scale b a a' e, ≈-scale a' b b' e')

pub residue-+ℤ : (a b : ℤ) → residue (a +ℤ b) ≈ residue a + residue b
unfolding ◌+ℤ◌
residue-+ℤ (pos m) (pos n) = ground arith
residue-+ℤ (pos m) (negsuc n) = ground arith
residue-+ℤ (negsuc m) (pos n) = ground arith
residue-+ℤ (negsuc m) (negsuc n) = ground arith

pub residue--ℤ : (a b : ℤ) → residue (a -ℤ b) ≈ residue a + 3328 * residue b
unfolding ◌-ℤ◌
residue--ℤ (pos m) (pos n) = ground arith
residue--ℤ (pos m) (negsuc n) = ground arith
residue--ℤ (negsuc m) (pos n) = ground arith
residue--ℤ (negsuc m) (negsuc n) = ground arith

pub residue-neg_ℤ : (a : ℤ) → residue (neg_ℤ a) ≈ 3328 * residue a
unfolding neg_ℤ
residue-neg_ℤ (pos n) = ground arith
residue-neg_ℤ (negsuc n) = ground arith

-- A representative that is a product of a constant.
lift : ℤ → ℕ
lift (pos n) = n
lift (negsuc n) = 3328 * suc n

residue-lift : (a : ℤ) → residue a ≈ lift a
unfolding lift
residue-lift (pos n) = omega arith
residue-lift (negsuc n) = omega arith

lift_mul : (a b : ℤ) → lift (a *ℤ b) ≈ lift a * lift b
unfolding lift ◌*ℤ◌
lift_mul (pos m) (pos n) = ground arith
lift_mul (pos m) (negsuc n) = ground arith
lift_mul (negsuc m) (pos n) = ground arith
lift_mul (negsuc m) (negsuc n) = ground arith

pub residue-*ℤ : (a b : ℤ) → residue (a *ℤ b) ≈ residue a * residue b
residue-*ℤ a b = omega (
  arith,
  residue-lift (a *ℤ b),
  lift_mul a b,
  ≈-mul (residue a) (lift a) (residue b) (lift b) (residue-lift a) (residue-lift b),
)

-- 169 is the inverse of 2^16.
from_mont : (x y : ℕ) → x ≈ y * 65536 → y ≈ 169 * x
from_mont x y h = omega arith

pub residue-fqmul :
    (a b : ℤ) → abs a * abs b ≤ 109084672 → residue (fqmul a b) ≈ 169 * residue a * residue b
residue-fqmul a b h =
    let m = (fqmul_lem a b h).0 in
    let p : residue a * residue b ≈ residue (fqmul a b) * 65536 =
      sym (residue-*ℤ a b) ∙ omega (arith, m) in
    from_mont (residue a * residue b) (residue (fqmul a b)) p ∙ omega arith
