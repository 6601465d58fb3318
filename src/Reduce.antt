-- ===== src/Reduce.antt =====
-- mlkem/reduce.c: reduction modulo q = 3329.
pub mod Bounds
use mlkem_c_embedded.Base.{ℕ, ◌+◌, ◌/◌, ◌^◌, ℤ, pos, negsuc, ◌+ℤ◌, ◌-ℤ◌, ◌*ℤ◌, int16, int32, ◌>>ℤ◌}
use mlkem_c_embedded.Params.{mlkem_q}

-- `QINV`, -3327: an inverse of q modulo 2^16.
abbrev pub qinv : ℤ
qinv = negsuc 3326

-- The first assignment to `t`, and the second.
montgomery_factor : ℤ → ℤ
montgomery_factor a = int16 (int32 (int16 a *ℤ qinv))

montgomery_quotient : ℤ → ℤ → ℤ
montgomery_quotient a t = int16 (int32 (a -ℤ int32 (t *ℤ pos mlkem_q)) >>ℤ 16)

unfoldable pub montgomery_reduce : ℤ → ℤ
unfolding montgomery_factor montgomery_quotient
montgomery_reduce a = montgomery_quotient a (montgomery_factor a)

abbrev pub barrett_v : ℤ
barrett_v = pos ((2 ^ 26 + mlkem_q / 2) / mlkem_q)

unfoldable pub barrett_reduce : ℤ → ℤ
barrett_reduce a =
    let t = int16 (int32 (barrett_v *ℤ a +ℤ pos (2 ^ 25)) >>ℤ 26) in
    let t' = int16 (t *ℤ pos mlkem_q) in int16 (a -ℤ t')
