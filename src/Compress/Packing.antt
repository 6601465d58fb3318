-- ===== src/Compress/Packing.antt =====
-- The bit layouts of the packed formats: `t` is the local array of values in the source, `b` the
-- bytes from the read position on. A byte that is stored is cut to 8 bits by `bytes`.
pub mod Layout
pub mod Fields
pub mod RoundTrip
use mlkem_c_embedded.Base.{ℕ, ◌%◌, ◌^◌, List, [], ◌∷◌, bit_and, bit_or, ◌<<<◌, ◌>>>◌}

abbrev pub bytes : List ℕ → List ℕ
bytes [] = []
bytes (x ∷ xs) = x % 2 ^ 8 ∷ bytes xs

-- poly_compress and cmp_poly_compress, 4 and 5 bits.
unfoldable pub pack4 : (ℕ → ℕ) → List ℕ
pack4 t =
    bit_or (t 0) (t 1 <<< 4)
    ∷ bit_or (t 2) (t 3 <<< 4)
    ∷ bit_or (t 4) (t 5 <<< 4)
    ∷ bit_or (t 6) (t 7 <<< 4)
    ∷ []

unfoldable pub pack5 : (ℕ → ℕ) → List ℕ
pack5 t =
    bit_or (t 0 >>> 0) (t 1 <<< 5)
    ∷ bit_or (bit_or (t 1 >>> 3) (t 2 <<< 2)) (t 3 <<< 7)
    ∷ bit_or (t 3 >>> 1) (t 4 <<< 4)
    ∷ bit_or (bit_or (t 4 >>> 4) (t 5 <<< 1)) (t 6 <<< 6)
    ∷ bit_or (t 6 >>> 2) (t 7 <<< 3)
    ∷ []

-- poly_packcompress and cmp_poly_packcompress, 10 and 11 bits.
unfoldable pub pack10 : (ℕ → ℕ) → List ℕ
pack10 t =
    bit_and (t 0) 0xff
    ∷ bit_or (t 0 >>> 8) (bit_and (t 1) 0x3f <<< 2)
    ∷ bit_and (bit_or (t 1 >>> 6) (bit_and (t 2) 0x0f <<< 4)) 0xff
    ∷ bit_and (bit_or (t 2 >>> 4) (bit_and (t 3) 0x03 <<< 6)) 0xff
    ∷ bit_and (t 3 >>> 2) 0xff
    ∷ []

unfoldable pub pack11 : (ℕ → ℕ) → List ℕ
pack11 t =
    bit_and (t 0) 0xff
    ∷ bit_or (t 0 >>> 8) (bit_and (t 1) 0x1f <<< 3)
    ∷ bit_or (t 1 >>> 5) (bit_and (t 2) 0x03 <<< 6)
    ∷ bit_and (t 2 >>> 2) 0xff
    ∷ bit_or (t 2 >>> 10) (bit_and (t 3) 0x7f <<< 1)
    ∷ bit_or (t 3 >>> 7) (bit_and (t 4) 0x0f <<< 4)
    ∷ bit_or (t 4 >>> 4) (bit_and (t 5) 0x01 <<< 7)
    ∷ bit_and (t 5 >>> 1) 0xff
    ∷ bit_or (t 5 >>> 9) (bit_and (t 6) 0x3f <<< 2)
    ∷ bit_or (t 6 >>> 6) (bit_and (t 7) 0x07 <<< 5)
    ∷ (t 7 >>> 3)
    ∷ []

-- polyvec_compress, where only the store cuts.
unfoldable pub vec_pack10 : (ℕ → ℕ) → List ℕ
vec_pack10 t =
    (t 0 >>> 0)
    ∷ bit_or (t 0 >>> 8) (t 1 <<< 2)
    ∷ bit_or (t 1 >>> 6) (t 2 <<< 4)
    ∷ bit_or (t 2 >>> 4) (t 3 <<< 6)
    ∷ (t 3 >>> 2)
    ∷ []

unfoldable pub vec_pack11 : (ℕ → ℕ) → List ℕ
vec_pack11 t =
    (t 0 >>> 0)
    ∷ bit_or (t 0 >>> 8) (t 1 <<< 3)
    ∷ bit_or (t 1 >>> 5) (t 2 <<< 6)
    ∷ (t 2 >>> 2)
    ∷ bit_or (t 2 >>> 10) (t 3 <<< 1)
    ∷ bit_or (t 3 >>> 7) (t 4 <<< 4)
    ∷ bit_or (t 4 >>> 4) (t 5 <<< 7)
    ∷ (t 5 >>> 1)
    ∷ bit_or (t 5 >>> 9) (t 6 <<< 2)
    ∷ bit_or (t 6 >>> 6) (t 7 <<< 5)
    ∷ (t 7 >>> 3)
    ∷ []

-- poly_decompress, 4 and 5 bits; in the second `t` is an array of `uint8_t`.
unfoldable pub unpack4 : (ℕ → ℕ) → List ℕ
unpack4 b = bit_and (b 0) 15 ∷ (b 0 >>> 4) ∷ []

unfoldable pub unpack5 : (ℕ → ℕ) → List ℕ
unpack5 b =
    bit_and ((b 0 >>> 0) % 2 ^ 8) 31
    ∷ bit_and (bit_or (b 0 >>> 5) (b 1 <<< 3) % 2 ^ 8) 31
    ∷ bit_and ((b 1 >>> 2) % 2 ^ 8) 31
    ∷ bit_and (bit_or (b 1 >>> 7) (b 2 <<< 1) % 2 ^ 8) 31
    ∷ bit_and (bit_or (b 2 >>> 4) (b 3 <<< 4) % 2 ^ 8) 31
    ∷ bit_and ((b 3 >>> 1) % 2 ^ 8) 31
    ∷ bit_and (bit_or (b 3 >>> 6) (b 4 <<< 2) % 2 ^ 8) 31
    ∷ bit_and ((b 4 >>> 3) % 2 ^ 8) 31
    ∷ []

-- poly_unpackdecompress, 10 and 11 bits.
unfoldable pub unpack10 : (ℕ → ℕ) → List ℕ
unpack10 b =
    bit_or (b 0) (bit_and (b 1) 0x03 <<< 8)
    ∷ bit_or (b 1 >>> 2) (bit_and (b 2) 0x0f <<< 6)
    ∷ bit_or (b 2 >>> 4) (bit_and (b 3) 0x3f <<< 4)
    ∷ bit_or (b 3 >>> 6) (bit_and (b 4) 0xff <<< 2)
    ∷ []

unfoldable pub unpack11 : (ℕ → ℕ) → List ℕ
unpack11 b =
    bit_or (b 0) (bit_and (b 1) 0x07 <<< 8)
    ∷ bit_or (b 1 >>> 3) (bit_and (b 2) 0x3f <<< 5)
    ∷ bit_or (bit_or (b 2 >>> 6) (bit_and (b 3) 0xff <<< 2)) (bit_and (b 4) 0x01 <<< 10)
    ∷ bit_or (b 4 >>> 1) (bit_and (b 5) 0x0f <<< 7)
    ∷ bit_or (b 5 >>> 4) (bit_and (b 6) 0x7f <<< 4)
    ∷ bit_or (bit_or (b 6 >>> 7) (bit_and (b 7) 0xff <<< 1)) (bit_and (b 8) 0x03 <<< 9)
    ∷ bit_or (b 8 >>> 2) (bit_and (b 9) 0x1f <<< 6)
    ∷ bit_or (b 9 >>> 5) (bit_and (b 10) 0xff <<< 3)
    ∷ []

-- polyvec_decompress; `t` is an array of `uint16_t`.
unfoldable pub vec_unpack10 : (ℕ → ℕ) → List ℕ
vec_unpack10 b =
    bit_and (bit_or (b 0 >>> 0) (b 1 <<< 8) % 2 ^ 16) 0x3ff
    ∷ bit_and (bit_or (b 1 >>> 2) (b 2 <<< 6) % 2 ^ 16) 0x3ff
    ∷ bit_and (bit_or (b 2 >>> 4) (b 3 <<< 4) % 2 ^ 16) 0x3ff
    ∷ bit_and (bit_or (b 3 >>> 6) (b 4 <<< 2) % 2 ^ 16) 0x3ff
    ∷ []

unfoldable pub vec_unpack11 : (ℕ → ℕ) → List ℕ
vec_unpack11 b =
    bit_and (bit_or (b 0 >>> 0) (b 1 <<< 8) % 2 ^ 16) 0x7ff
    ∷ bit_and (bit_or (b 1 >>> 3) (b 2 <<< 5) % 2 ^ 16) 0x7ff
    ∷ bit_and (bit_or (bit_or (b 2 >>> 6) (b 3 <<< 2)) (b 4 <<< 10) % 2 ^ 16) 0x7ff
    ∷ bit_and (bit_or (b 4 >>> 1) (b 5 <<< 7) % 2 ^ 16) 0x7ff
    ∷ bit_and (bit_or (b 5 >>> 4) (b 6 <<< 4) % 2 ^ 16) 0x7ff
    ∷ bit_and (bit_or (bit_or (b 6 >>> 7) (b 7 <<< 1)) (b 8 <<< 9) % 2 ^ 16) 0x7ff
    ∷ bit_and (bit_or (b 8 >>> 2) (b 9 <<< 6) % 2 ^ 16) 0x7ff
    ∷ bit_and (bit_or (b 9 >>> 5) (b 10 <<< 3) % 2 ^ 16) 0x7ff
    ∷ []
