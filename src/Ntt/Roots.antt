-- ===== src/Ntt/Roots.antt =====
-- mlkem/ntt.c: the entries of `zetas` as roots of unity, in the tree of the rings that the layers
-- split: node 1 stands for all 256 coefficients, and the halves of node `k` are `2 * k` and
-- `2 * k + 1`.
use mlkem_c_embedded.Base.{
  ℕ, zero, suc, ◌+◌, ◌*◌, ◌-◌, ◌%◌, ◌/◌, ◌<◌, ◌≡◌, refl, arith, Bool, true, false, ◌&&◌, ◌==◌,
  ==_iff, if◌then◌else◌,
}
use native.Mathlib.Decide.{ℕ_discrete}
use mlkem_c_embedded.Params.{mlkem_q}
use mlkem_c_embedded.Reduce.Bounds.{residue}
use mlkem_c_embedded.Ntt.{zeta_at}
use mlkem_c_embedded.Ntt.Field.{◌≈◌}

-- The factor of `fqmul zetas[k]`: 169 is the inverse of 2^16 modulo q.
abbrev pub root : ℕ → ℕ
root k = 169 * residue (zeta_at k)

-- The ring of node `k` is that modulo x^m - modulus k.
unfoldable pub modulus : ℕ → ℕ
modulus k = if k % 2 == 0 then root (k / 2) else 3328 * root (k / 2)

pub modulus_even : (k : ℕ) → modulus (k + k) ≡ root k
unfolding modulus
modulus_even k =
    let e : ((k + k) % 2 == 0) ≡ true = ground arith in
    let h : (k + k) / 2 ≡ k = omega arith in rw (e, h) refl

pub modulus_odd : (k : ℕ) → modulus (k + k + 1) ≡ 3328 * root k
unfolding modulus
modulus_odd k =
    let e : ((k + k + 1) % 2 == 0) ≡ false = ground arith in
    let h : (k + k + 1) / 2 ≡ k = omega arith in rw (e, h) refl

all_below : ℕ → (ℕ → Bool) → Bool
all_below zero p = true
all_below (suc n) p = p n && all_below n p

all_below_at : (n : ℕ) (p : ℕ → Bool) (i : ℕ) → all_below n p ≡ true → i < n → p i ≡ true
unfolding all_below
all_below_at zero p i h l = absurd (omega arith)
all_below_at (suc n) p i h l = elim (ℕ_discrete i n) [
  | yes e ↦ rw e (ground arith)
  | no d ↦ all_below_at n p i (ground arith) (omega arith)
]

is_square_at : ℕ → Bool
is_square_at k = root k * root k % mlkem_q == modulus k % mlkem_q

squares_hold : all_below 128 is_square_at ≡ true
unfolding all_below is_square_at modulus
squares_hold = refl

pub root_square : (k : ℕ) → k < 128 → root k * root k ≈ modulus k
root_square k h =
    let t = all_below_at 128 is_square_at k squares_hold h in
    (==_iff (root k * root k % mlkem_q) (modulus k % mlkem_q)).0 (unfold is_square_at in t)

-- The entries that the layers of `n` and more blocks and those of the inverse transform use for the
-- same block are inverse to each other, up to the sign.
pub is_paired : ℕ → ℕ → Bool
is_paired zero n = true
is_paired (suc t) n =
    all_below n (λ b. root (n + b) * root (2 * n - 1 - b) % mlkem_q == 3328) && is_paired t (n + n)

pub all-is_paired : is_paired 7 1 ≡ true
unfolding is_paired all_below
all-is_paired = refl

pub is_paired_next : (t n : ℕ) → is_paired (suc t) n ≡ true → is_paired t (n + n) ≡ true
unfolding is_paired
is_paired_next t n h = ground arith

pub is_paired_at :
    (t n b : ℕ) → is_paired (suc t) n ≡ true → b < n → root (n + b) * root (2 * n - 1 - b) ≈ 3328
unfolding is_paired
is_paired_at t n b h l =
    let p : ℕ → Bool = λ b. root (n + b) * root (2 * n - 1 - b) % mlkem_q == 3328 in
    let all : all_below n p ≡ true = ground arith in
    (==_iff (root (n + b) * root (2 * n - 1 - b) % mlkem_q) 3328).0 (all_below_at n p b all l)
