-- ===== src/Poly/Arith/Bounds.antt =====
-- mlkem/poly.c: the coefficients after poly_reduce and poly_add.
use mlkem_c_embedded.Base.{
  ℕ, ◌≤◌, ◌<◌, ◌≡◌, abs, int16, IsInt16, int16-IsInt16, ◌+ℤ◌, get_or-emit_one, pos,
}
use mlkem_c_embedded.Params.{mlkem_n}
use mlkem_c_embedded.Reduce.{barrett_reduce}
use mlkem_c_embedded.Reduce.Bounds.{residue, barrett_reduce_lem}
use mlkem_c_embedded.Poly.{Poly, coeff}
use mlkem_c_embedded.Poly.Arith.{poly_reduce, poly_add}

pub coeff-poly_add :
    (a b : Poly) (i : ℕ) → i < mlkem_n → coeff (poly_add a b) i ≡ int16 (coeff a i +ℤ coeff b i)
unfolding poly_add
coeff-poly_add a b i h = get_or-emit_one (pos 0) mlkem_n (λ i. int16 (coeff a i +ℤ coeff b i)) i h

-- poly_reduce keeps the residue of each coefficient that is an `int16_t`, and leaves it between
-- -1664 and 1664.
pub poly_reduce_lem :
    (p : Poly) (i : ℕ)
    → i < mlkem_n
    → IsInt16 (coeff p i)
    → (residue (coeff (poly_reduce p) i) ≡ residue (coeff p i))
      × (abs (coeff (poly_reduce p) i) ≤ 1664)
unfolding poly_reduce
poly_reduce_lem p i h v =
    rw (get_or-emit_one (pos 0) mlkem_n (λ i. barrett_reduce (coeff p i)) i h)
      (barrett_reduce_lem (coeff p i) v)

pub poly_reduce-poly_add_bound :
    (a b : Poly) (i : ℕ) → i < mlkem_n → abs (coeff (poly_reduce (poly_add a b)) i) ≤ 1664
poly_reduce-poly_add_bound a b i h =
    (poly_reduce_lem (poly_add a b) i h
      (rw (coeff-poly_add a b i h) (int16-IsInt16 (coeff a i +ℤ coeff b i)))).1
