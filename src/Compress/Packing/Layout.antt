-- ===== src/Compress/Packing/Layout.antt =====
-- mlkem/poly.c and mlkem/polyvec.c: the packed bytes as the plain layout, in which bit `j` of value
-- `i` is bit `d * i + j` of the bytes.
use mlkem_c_embedded.Base.{
  ℕ, ◌+◌, ◌*◌, ◌/◌, ◌%◌, ◌<◌, ◌≡◌, arith, [], ◌∷◌, bit_or_low, bit_and_mask,
}
use mlkem_c_embedded.Compress.Packing.{bytes, pack4, pack5, pack10, pack11, vec_pack10, vec_pack11}

-- The first values of an array are below `w`.
abbrev pub Four : ℕ → (ℕ → ℕ) → Type 0
Four w t = (t 0 < w) × (t 1 < w) × (t 2 < w) × (t 3 < w)

abbrev pub Eight : ℕ → (ℕ → ℕ) → Type 0
Eight w t =
    (t 0 < w) × (t 1 < w) × (t 2 < w) × (t 3 < w) × (t 4 < w) × (t 5 < w) × (t 6 < w) × (t 7 < w)

pub pack4_layout :
    (t : ℕ → ℕ)
    → Eight 16 t
    → bytes (pack4 t)
      ≡ (t 0 + t 1 * 16) ∷ (t 2 + t 3 * 16) ∷ (t 4 + t 5 * 16) ∷ (t 6 + t 7 * 16) ∷ []
unfolding pack4
pack4_layout t h = ground (
  arith,
  bit_or_low 4 (t 0) (t 1),
  bit_or_low 4 (t 2) (t 3),
  bit_or_low 4 (t 4) (t 5),
  bit_or_low 4 (t 6) (t 7),
)

pub pack5_layout :
    (t : ℕ → ℕ)
    → Eight 32 t
    → bytes (pack5 t)
      ≡ (t 0 + t 1 % 8 * 32)
        ∷ (t 1 / 8 + t 2 * 4 + t 3 % 2 * 128)
        ∷ (t 3 / 2 + t 4 % 16 * 16)
        ∷ (t 4 / 16 + t 5 * 2 + t 6 % 4 * 64)
        ∷ (t 6 / 4 + t 7 * 8)
        ∷ []
unfolding pack5
pack5_layout t h = ground (
  arith,
  bit_or_low 5 ((t 0) / 1) (t 1),
  bit_or_low 2 ((t 1) / 8) (t 2),
  bit_or_low 7 (((t 1) / 8) + (t 2) * 4) (t 3),
  bit_or_low 4 ((t 3) / 2) (t 4),
  bit_or_low 1 ((t 4) / 16) (t 5),
  bit_or_low 6 (((t 4) / 16) + (t 5) * 2) (t 6),
  bit_or_low 3 ((t 6) / 4) (t 7),
)

pub pack10_layout :
    (t : ℕ → ℕ)
    → Four 1024 t
    → bytes (pack10 t)
      ≡ (t 0 % 256)
        ∷ (t 0 / 256 + t 1 % 64 * 4)
        ∷ (t 1 / 64 + t 2 % 16 * 16)
        ∷ (t 2 / 16 + t 3 % 4 * 64)
        ∷ (t 3 / 4)
        ∷ []
unfolding pack10
pack10_layout t h = ground (
  arith,
  bit_and_mask 8 (t 0),
  bit_and_mask 6 (t 1),
  bit_or_low 2 ((t 0) / 256) ((t 1) % 64),
  bit_and_mask 4 (t 2),
  bit_or_low 4 ((t 1) / 64) ((t 2) % 16),
  bit_and_mask 8 (((t 1) / 64) + ((t 2) % 16) * 16),
  bit_and_mask 2 (t 3),
  bit_or_low 6 ((t 2) / 16) ((t 3) % 4),
  bit_and_mask 8 (((t 2) / 16) + ((t 3) % 4) * 64),
  bit_and_mask 8 ((t 3) / 4),
)

pub pack11_layout :
    (t : ℕ → ℕ)
    → Eight 2048 t
    → bytes (pack11 t)
      ≡ (t 0 % 256)
        ∷ (t 0 / 256 + t 1 % 32 * 8)
        ∷ (t 1 / 32 + t 2 % 4 * 64)
        ∷ (t 2 / 4 % 256)
        ∷ (t 2 / 1024 + t 3 % 128 * 2)
        ∷ (t 3 / 128 + t 4 % 16 * 16)
        ∷ (t 4 / 16 + t 5 % 2 * 128)
        ∷ (t 5 / 2 % 256)
        ∷ (t 5 / 512 + t 6 % 64 * 4)
        ∷ (t 6 / 64 + t 7 % 8 * 32)
        ∷ (t 7 / 8)
        ∷ []
unfolding pack11
pack11_layout t h = ground (
  arith,
  bit_and_mask 8 (t 0),
  bit_and_mask 5 (t 1),
  bit_or_low 3 ((t 0) / 256) ((t 1) % 32),
  bit_and_mask 2 (t 2),
  bit_or_low 6 ((t 1) / 32) ((t 2) % 4),
  bit_and_mask 8 ((t 2) / 4),
  bit_and_mask 7 (t 3),
  bit_or_low 1 ((t 2) / 1024) ((t 3) % 128),
  bit_and_mask 4 (t 4),
  bit_or_low 4 ((t 3) / 128) ((t 4) % 16),
  bit_and_mask 1 (t 5),
  bit_or_low 7 ((t 4) / 16) ((t 5) % 2),
  bit_and_mask 8 ((t 5) / 2),
  bit_and_mask 6 (t 6),
  bit_or_low 2 ((t 5) / 512) ((t 6) % 64),
  bit_and_mask 3 (t 7),
  bit_or_low 5 ((t 6) / 64) ((t 7) % 8),
)

pub vec_pack10_layout :
    (t : ℕ → ℕ)
    → Four 1024 t
    → bytes (vec_pack10 t)
      ≡ (t 0 % 256)
        ∷ (t 0 / 256 + t 1 % 64 * 4)
        ∷ (t 1 / 64 + t 2 % 16 * 16)
        ∷ (t 2 / 16 + t 3 % 4 * 64)
        ∷ (t 3 / 4)
        ∷ []
unfolding vec_pack10
vec_pack10_layout t h = ground (
  arith,
  bit_or_low 2 ((t 0) / 256) (t 1),
  bit_or_low 4 ((t 1) / 64) (t 2),
  bit_or_low 6 ((t 2) / 16) (t 3),
)

pub vec_pack11_layout :
    (t : ℕ → ℕ)
    → Eight 2048 t
    → bytes (vec_pack11 t)
      ≡ (t 0 % 256)
        ∷ (t 0 / 256 + t 1 % 32 * 8)
        ∷ (t 1 / 32 + t 2 % 4 * 64)
        ∷ (t 2 / 4 % 256)
        ∷ (t 2 / 1024 + t 3 % 128 * 2)
        ∷ (t 3 / 128 + t 4 % 16 * 16)
        ∷ (t 4 / 16 + t 5 % 2 * 128)
        ∷ (t 5 / 2 % 256)
        ∷ (t 5 / 512 + t 6 % 64 * 4)
        ∷ (t 6 / 64 + t 7 % 8 * 32)
        ∷ (t 7 / 8)
        ∷ []
unfolding vec_pack11
vec_pack11_layout t h = ground (
  arith,
  bit_or_low 3 ((t 0) / 256) (t 1),
  bit_or_low 6 ((t 1) / 32) (t 2),
  bit_or_low 1 ((t 2) / 1024) (t 3),
  bit_or_low 4 ((t 3) / 128) (t 4),
  bit_or_low 7 ((t 4) / 16) (t 5),
  bit_or_low 2 ((t 5) / 512) (t 6),
  bit_or_low 5 ((t 6) / 64) (t 7),
)
