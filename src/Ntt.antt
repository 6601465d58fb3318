-- ===== src/Ntt.antt =====
-- mlkem/ntt.c: the number-theoretic transform on an array of 256 coefficients, in place, and the
-- multiplication of two polynomials of degree 1.
pub mod Bounds
pub mod Range
pub mod Field
pub mod Loop
pub mod Blocks
pub mod Layers
pub mod Product
pub mod Roots
pub mod Halves
pub mod Joined
pub mod Transform
pub mod Chain
pub mod Inverse
pub mod Surjective
use mlkem_c_embedded.Base.{
  ℕ, zero, suc, ◌+◌, ◌-◌, ◌*◌, ◌/◌, ◌<◌, ltb, leb, if◌then◌else◌, List, [], ◌∷◌, get_or, set, ℤ,
  pos, minus, int16, neg_ℤ, ◌+ℤ◌, ◌-ℤ◌, ◌*ℤ◌, emit,
}
use mlkem_c_embedded.Reduce.{montgomery_reduce, barrett_reduce}
use mlkem_c_embedded.Poly.{Poly, coeff}

-- The powers of the root of unity 17 in Montgomery form, in bit-reversed order.
abbrev pub zetas : List ℤ
zetas =
    minus 1044
    ∷ minus 758
    ∷ minus 359
    ∷ minus 1517
    ∷ pos 1493
    ∷ pos 1422
    ∷ pos 287
    ∷ pos 202
    ∷ minus 171
    ∷ pos 622
    ∷ pos 1577
    ∷ pos 182
    ∷ pos 962
    ∷ minus 1202
    ∷ minus 1474
    ∷ pos 1468
    ∷ pos 573
    ∷ minus 1325
    ∷ pos 264
    ∷ pos 383
    ∷ minus 829
    ∷ pos 1458
    ∷ minus 1602
    ∷ minus 130
    ∷ minus 681
    ∷ pos 1017
    ∷ pos 732
    ∷ pos 608
    ∷ minus 1542
    ∷ pos 411
    ∷ minus 205
    ∷ minus 1571
    ∷ pos 1223
    ∷ pos 652
    ∷ minus 552
    ∷ pos 1015
    ∷ minus 1293
    ∷ pos 1491
    ∷ minus 282
    ∷ minus 1544
    ∷ pos 516
    ∷ minus 8
    ∷ minus 320
    ∷ minus 666
    ∷ minus 1618
    ∷ minus 1162
    ∷ pos 126
    ∷ pos 1469
    ∷ minus 853
    ∷ minus 90
    ∷ minus 271
    ∷ pos 830
    ∷ pos 107
    ∷ minus 1421
    ∷ minus 247
    ∷ minus 951
    ∷ minus 398
    ∷ pos 961
    ∷ minus 1508
    ∷ minus 725
    ∷ pos 448
    ∷ minus 1065
    ∷ pos 677
    ∷ minus 1275
    ∷ minus 1103
    ∷ pos 430
    ∷ pos 555
    ∷ pos 843
    ∷ minus 1251
    ∷ pos 871
    ∷ pos 1550
    ∷ pos 105
    ∷ pos 422
    ∷ pos 587
    ∷ pos 177
    ∷ minus 235
    ∷ minus 291
    ∷ minus 460
    ∷ pos 1574
    ∷ pos 1653
    ∷ minus 246
    ∷ pos 778
    ∷ pos 1159
    ∷ minus 147
    ∷ minus 777
    ∷ pos 1483
    ∷ minus 602
    ∷ pos 1119
    ∷ minus 1590
    ∷ pos 644
    ∷ minus 872
    ∷ pos 349
    ∷ pos 418
    ∷ pos 329
    ∷ minus 156
    ∷ minus 75
    ∷ pos 817
    ∷ pos 1097
    ∷ pos 603
    ∷ pos 610
    ∷ pos 1322
    ∷ minus 1285
    ∷ minus 1465
    ∷ pos 384
    ∷ minus 1215
    ∷ minus 136
    ∷ pos 1218
    ∷ minus 1335
    ∷ minus 874
    ∷ pos 220
    ∷ minus 1187
    ∷ minus 1659
    ∷ minus 1185
    ∷ minus 1530
    ∷ minus 1278
    ∷ pos 794
    ∷ minus 1510
    ∷ minus 854
    ∷ minus 870
    ∷ pos 478
    ∷ minus 108
    ∷ minus 308
    ∷ pos 996
    ∷ pos 991
    ∷ pos 958
    ∷ minus 1460
    ∷ pos 1522
    ∷ pos 1628
    ∷ []

abbrev pub zeta_at : ℕ → ℤ
zeta_at k = get_or zetas k (pos 0)

unfoldable pub fqmul : ℤ → ℤ → ℤ
fqmul a b = montgomery_reduce (a *ℤ b)

-- The body of the innermost loop of ntt, at index `j`.
unfoldable pub butterfly : ℤ → ℕ → ℕ → Poly → Poly
butterfly zeta len j r =
    let t = fqmul zeta (coeff r (j + len)) in
    let r' = set r (j + len) (int16 (coeff r j -ℤ t)) in set r' j (int16 (coeff r' j +ℤ t))

-- The loop over `j`: `left` rounds from `j` on.
unfoldable pub butterflies : ℤ → ℕ → ℕ → ℕ → Poly → Poly
butterflies zeta len zero j r = r
butterflies zeta len (suc left) j r = butterflies zeta len left (j + 1) (butterfly zeta len j r)

-- The loop over `start`; the counter `k` goes through `zetas`.
unfoldable pub ntt_blocks : ℕ → ℕ → ℕ → ℕ → Poly → Poly × ℕ
ntt_blocks len zero start k r = (r, k)
ntt_blocks len (suc fuel) start k r =
    let rest =
      ntt_blocks len fuel (start + len + len) (k + 1) (butterflies (zeta_at k) len len start r) in
    if ltb start 256 then rest else (r, k)

-- The loop over `len`, halved in each round down to 2.
unfoldable pub ntt_layers : ℕ → ℕ → ℕ → Poly → Poly
ntt_layers zero len k r = r
ntt_layers (suc fuel) len k r =
    let step = ntt_blocks len (128 / len + 1) 0 k r in
    let rest = ntt_layers fuel (len / 2) step.1 step.0 in if leb 2 len then rest else r

-- Seven layers, from `len` 128 to 2; an eighth test ends the loop.
unfoldable pub ntt : Poly → Poly
ntt r = ntt_layers 8 128 1 r

-- The body of the innermost loop of invntt.
unfoldable pub inv_butterfly : ℤ → ℕ → ℕ → Poly → Poly
inv_butterfly zeta len j r =
    let t = coeff r j in
    let r1 = set r j (barrett_reduce (int16 (t +ℤ coeff r (j + len)))) in
    let r2 = set r1 (j + len) (int16 (coeff r1 (j + len) -ℤ t)) in
    set r2 (j + len) (fqmul zeta (coeff r2 (j + len)))

unfoldable pub inv_butterflies : ℤ → ℕ → ℕ → ℕ → Poly → Poly
inv_butterflies zeta len zero j r = r
inv_butterflies zeta len (suc left) j r =
    inv_butterflies zeta len left (j + 1) (inv_butterfly zeta len j r)

unfoldable pub invntt_blocks : ℕ → ℕ → ℕ → ℕ → Poly → Poly × ℕ
invntt_blocks len zero start k r = (r, k)
invntt_blocks len (suc fuel) start k r =
    let rest =
      invntt_blocks len fuel (start + len + len) (k - 1)
        (inv_butterflies (zeta_at k) len len start r) in
    if ltb start 256 then rest else (r, k)

unfoldable pub invntt_layers : ℕ → ℕ → ℕ → Poly → Poly
invntt_layers zero len k r = r
invntt_layers (suc fuel) len k r =
    let step = invntt_blocks len (128 / len + 1) 0 k r in
    let rest = invntt_layers fuel (len * 2) step.1 step.0 in if leb len 128 then rest else r

-- `f`, 2^32 / 128 modulo q.
abbrev pub inv_factor : ℤ
inv_factor = pos 1441

unfoldable pub scale_all : Poly → Poly
scale_all r = emit 256 λ j. fqmul (coeff r j) inv_factor ∷ []

unfoldable pub invntt : Poly → Poly
invntt r = scale_all (invntt_layers 8 2 127 r)

-- `r[0]` and `r[1]` from `a[0]`, `a[1]`, `b[0]`, `b[1]`.
unfoldable pub basemul : ℤ → ℤ → ℤ → ℤ → ℤ → Poly
basemul a0 a1 b0 b1 zeta =
    let r0 = fqmul a1 b1 in
    let r0' = fqmul r0 zeta in
    let r1 = fqmul a0 b1 in int16 (r0' +ℤ fqmul a0 b0) ∷ int16 (r1 +ℤ fqmul a1 b0) ∷ []

unfoldable pub basemul_acc : ℤ → ℤ → ℤ → ℤ → ℤ → ℤ → ℤ → Poly
basemul_acc r0 r1 a0 a1 b0 b1 zeta =
    let t = fqmul a1 b1 in
    let r0' = int16 (r0 +ℤ fqmul t zeta) in
    let r1' = int16 (r1 +ℤ fqmul a0 b1) in
    int16 (r0' +ℤ fqmul a0 b0) ∷ int16 (r1' +ℤ fqmul a1 b0) ∷ []
