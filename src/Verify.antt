-- ===== src/Verify.antt =====
-- mlkem/verify.c: comparison and selection without a branch on secret data. Bytes are numbers
-- below 256; the length is that of the arrays at every call of the program.
pub mod Select
use mlkem_c_embedded.Base.{ℕ, zero, suc, ◌+◌, ◌-◌, ◌%◌, ◌^◌, List, get_or, set, bit_and, bit_or}
use mlkem_c_embedded.Base.{bit_xor, ℤ, pos, u16, u32, int16, ◌>>>◌}

-- The loop at index `i`, with `left` rounds to go.
verify_loop : List ℕ → List ℕ → ℕ → ℕ → ℕ → ℕ
verify_loop a b zero i r = r
verify_loop a b (suc left) i r =
    verify_loop a b left (i + 1) (bit_or r (bit_xor (get_or a i 0) (get_or b i 0)) % 2 ^ 8)

-- `(-(uint64_t)r) >> 63`.
unfoldable pub top_of_negated : ℕ → ℕ
top_of_negated r = (2 ^ 64 - r) % 2 ^ 64 >>> 63

unfoldable pub verify : List ℕ → List ℕ → ℕ → ℕ
unfolding verify_loop top_of_negated
verify a b len = top_of_negated (verify_loop a b len 0 0)

-- `b` is the mask: 0 or 255.
cmov_loop : ℕ → List ℕ → ℕ → ℕ → List ℕ → List ℕ
cmov_loop b x zero i r = r
cmov_loop b x (suc left) i r =
    let old = get_or r i 0 in
    cmov_loop b x left (i + 1)
      (set r i (bit_xor old (bit_and b (bit_xor old (get_or x i 0))) % 2 ^ 8))

unfoldable pub cmov : List ℕ → List ℕ → ℕ → ℕ → List ℕ
unfolding cmov_loop
cmov r x len b = cmov_loop ((2 ^ 8 - b) % 2 ^ 8) x len 0 r

-- `*r` and `v` are widened to `int`, and the result is cut to 16 bits.
unfoldable pub cmov_int16 : ℤ → ℤ → ℕ → ℤ
cmov_int16 r v b =
    let mask = (2 ^ 16 - b) % 2 ^ 16 in
    int16 (pos (bit_xor (u32 r) (bit_and mask (bit_xor (u32 r) (u32 v)))))
