-- ===== src/Ntt/Bounds.antt =====
-- mlkem/ntt.c: products of coefficients.
use mlkem_c_embedded.Base.{◌+◌, ◌*◌, ◌%◌, ◌≤◌, ◌≡◌, arith, ℤ, abs, abs-*ℤ, ◌*ℤ◌}
use mlkem_c_embedded.Params.{mlkem_q}
use mlkem_c_embedded.Reduce.Bounds.{residue, montgomery_reduce_lem}
use mlkem_c_embedded.Ntt.{fqmul}

-- For factors whose product has absolute value at most q * 2^15, fqmul returns r with
-- a * b = r * 2^16 modulo q, and |r| * 2^16 is at most |a| * |b| + q * 2^15.
pub fqmul_lem :
    (a b : ℤ)
    → abs a * abs b ≤ 109084672
    → (residue (a *ℤ b) ≡ (residue (fqmul a b) * 65536) % mlkem_q)
      × (abs (fqmul a b) * 65536 ≤ abs a * abs b + 109084672)
unfolding fqmul
fqmul_lem a b h =
    let m = montgomery_reduce_lem (a *ℤ b) (omega (arith, abs-*ℤ a b)) in
    (m.0, omega (arith, m.1, abs-*ℤ a b))
