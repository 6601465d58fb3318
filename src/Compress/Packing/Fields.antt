-- ===== src/Compress/Packing/Fields.antt =====
-- mlkem/poly.c and mlkem/polyvec.c: what each unpacking reads, as fields of the plain layout.
use mlkem_c_embedded.Base.{
  ℕ, ◌+◌, ◌*◌, ◌/◌, ◌%◌, ◌<◌, ◌≡◌, arith, [], ◌∷◌, bit_or_low, bit_and_mask,
}
use mlkem_c_embedded.Compress.Packing.{
  unpack4, unpack5, unpack10, unpack11, vec_unpack10, vec_unpack11,
}

pub unpack4_fields : (b : ℕ → ℕ) → (b 0 < 256) → unpack4 b ≡ (b 0 % 16) ∷ (b 0 / 16) ∷ []
unfolding unpack4
unpack4_fields b h = ground (arith, bit_and_mask 4 (b 0))

pub unpack5_fields :
    (b : ℕ → ℕ)
    → (b 0 < 256) × (b 1 < 256) × (b 2 < 256) × (b 3 < 256) × (b 4 < 256)
    → unpack5 b
      ≡ (b 0 % 32)
        ∷ (b 0 / 32 + b 1 % 4 * 8)
        ∷ (b 1 / 4 % 32)
        ∷ (b 1 / 128 + b 2 % 16 * 2)
        ∷ (b 2 / 16 + b 3 % 2 * 16)
        ∷ (b 3 / 2 % 32)
        ∷ (b 3 / 64 + b 4 % 8 * 4)
        ∷ (b 4 / 8)
        ∷ []
unfolding unpack5
unpack5_fields b h = ground (
  arith,
  bit_and_mask 5 (((b 0) / 1) % 256),
  bit_or_low 3 ((b 0) / 32) (b 1),
  bit_and_mask 5 ((((b 0) / 32) + (b 1) * 8) % 256),
  bit_and_mask 5 (((b 1) / 4) % 256),
  bit_or_low 1 ((b 1) / 128) (b 2),
  bit_and_mask 5 ((((b 1) / 128) + (b 2) * 2) % 256),
  bit_or_low 4 ((b 2) / 16) (b 3),
  bit_and_mask 5 ((((b 2) / 16) + (b 3) * 16) % 256),
  bit_and_mask 5 (((b 3) / 2) % 256),
  bit_or_low 2 ((b 3) / 64) (b 4),
  bit_and_mask 5 ((((b 3) / 64) + (b 4) * 4) % 256),
  bit_and_mask 5 (((b 4) / 8) % 256),
)

pub unpack10_fields :
    (b : ℕ → ℕ)
    → (b 0 < 256) × (b 1 < 256) × (b 2 < 256) × (b 3 < 256) × (b 4 < 256)
    → unpack10 b
      ≡ (b 0 + b 1 % 4 * 256)
        ∷ (b 1 / 4 + b 2 % 16 * 64)
        ∷ (b 2 / 16 + b 3 % 64 * 16)
        ∷ (b 3 / 64 + b 4 * 4)
        ∷ []
unfolding unpack10
unpack10_fields b h = ground (
  arith,
  bit_and_mask 2 (b 1),
  bit_or_low 8 (b 0) ((b 1) % 4),
  bit_and_mask 4 (b 2),
  bit_or_low 6 ((b 1) / 4) ((b 2) % 16),
  bit_and_mask 6 (b 3),
  bit_or_low 4 ((b 2) / 16) ((b 3) % 64),
  bit_and_mask 8 (b 4),
  bit_or_low 2 ((b 3) / 64) ((b 4) % 256),
)

pub unpack11_fields :
    (b : ℕ → ℕ)
    → (b 0 < 256)
      × (b 1 < 256)
      × (b 2 < 256)
      × (b 3 < 256)
      × (b 4 < 256)
      × (b 5 < 256)
      × (b 6 < 256)
      × (b 7 < 256)
      × (b 8 < 256)
      × (b 9 < 256)
      × (b 10 < 256)
    → unpack11 b
      ≡ (b 0 + b 1 % 8 * 256)
        ∷ (b 1 / 8 + b 2 % 64 * 32)
        ∷ (b 2 / 64 + b 3 * 4 + b 4 % 2 * 1024)
        ∷ (b 4 / 2 + b 5 % 16 * 128)
        ∷ (b 5 / 16 + b 6 % 128 * 16)
        ∷ (b 6 / 128 + b 7 * 2 + b 8 % 4 * 512)
        ∷ (b 8 / 4 + b 9 % 32 * 64)
        ∷ (b 9 / 32 + b 10 * 8)
        ∷ []
unfolding unpack11
unpack11_fields b h = ground (
  arith,
  bit_and_mask 3 (b 1),
  bit_or_low 8 (b 0) ((b 1) % 8),
  bit_and_mask 6 (b 2),
  bit_or_low 5 ((b 1) / 8) ((b 2) % 64),
  bit_and_mask 8 (b 3),
  bit_or_low 2 ((b 2) / 64) ((b 3) % 256),
  bit_and_mask 1 (b 4),
  bit_or_low 10 (((b 2) / 64) + ((b 3) % 256) * 4) ((b 4) % 2),
  bit_and_mask 4 (b 5),
  bit_or_low 7 ((b 4) / 2) ((b 5) % 16),
  bit_and_mask 7 (b 6),
  bit_or_low 4 ((b 5) / 16) ((b 6) % 128),
  bit_and_mask 8 (b 7),
  bit_or_low 1 ((b 6) / 128) ((b 7) % 256),
  bit_and_mask 2 (b 8),
  bit_or_low 9 (((b 6) / 128) + ((b 7) % 256) * 2) ((b 8) % 4),
  bit_and_mask 5 (b 9),
  bit_or_low 6 ((b 8) / 4) ((b 9) % 32),
  bit_and_mask 8 (b 10),
  bit_or_low 3 ((b 9) / 32) ((b 10) % 256),
)

pub vec_unpack10_fields :
    (b : ℕ → ℕ)
    → (b 0 < 256) × (b 1 < 256) × (b 2 < 256) × (b 3 < 256) × (b 4 < 256)
    → vec_unpack10 b
      ≡ (b 0 + b 1 % 4 * 256)
        ∷ (b 1 / 4 + b 2 % 16 * 64)
        ∷ (b 2 / 16 + b 3 % 64 * 16)
        ∷ (b 3 / 64 + b 4 * 4)
        ∷ []
unfolding vec_unpack10
vec_unpack10_fields b h = ground (
  arith,
  bit_or_low 8 ((b 0) / 1) (b 1),
  bit_and_mask 10 ((((b 0) / 1) + (b 1) * 256) % 65536),
  bit_or_low 6 ((b 1) / 4) (b 2),
  bit_and_mask 10 ((((b 1) / 4) + (b 2) * 64) % 65536),
  bit_or_low 4 ((b 2) / 16) (b 3),
  bit_and_mask 10 ((((b 2) / 16) + (b 3) * 16) % 65536),
  bit_or_low 2 ((b 3) / 64) (b 4),
  bit_and_mask 10 ((((b 3) / 64) + (b 4) * 4) % 65536),
)

pub vec_unpack11_fields :
    (b : ℕ → ℕ)
    → (b 0 < 256)
      × (b 1 < 256)
      × (b 2 < 256)
      × (b 3 < 256)
      × (b 4 < 256)
      × (b 5 < 256)
      × (b 6 < 256)
      × (b 7 < 256)
      × (b 8 < 256)
      × (b 9 < 256)
      × (b 10 < 256)
    → vec_unpack11 b
      ≡ (b 0 + b 1 % 8 * 256)
        ∷ (b 1 / 8 + b 2 % 64 * 32)
        ∷ (b 2 / 64 + b 3 * 4 + b 4 % 2 * 1024)
        ∷ (b 4 / 2 + b 5 % 16 * 128)
        ∷ (b 5 / 16 + b 6 % 128 * 16)
        ∷ (b 6 / 128 + b 7 * 2 + b 8 % 4 * 512)
        ∷ (b 8 / 4 + b 9 % 32 * 64)
        ∷ (b 9 / 32 + b 10 * 8)
        ∷ []
unfolding vec_unpack11
vec_unpack11_fields b h = ground (
  arith,
  bit_or_low 8 ((b 0) / 1) (b 1),
  bit_and_mask 11 ((((b 0) / 1) + (b 1) * 256) % 65536),
  bit_or_low 5 ((b 1) / 8) (b 2),
  bit_and_mask 11 ((((b 1) / 8) + (b 2) * 32) % 65536),
  bit_or_low 2 ((b 2) / 64) (b 3),
  bit_or_low 10 (((b 2) / 64) + (b 3) * 4) (b 4),
  bit_and_mask 11 (((((b 2) / 64) + (b 3) * 4) + (b 4) * 1024) % 65536),
  bit_or_low 7 ((b 4) / 2) (b 5),
  bit_and_mask 11 ((((b 4) / 2) + (b 5) * 128) % 65536),
  bit_or_low 4 ((b 5) / 16) (b 6),
  bit_and_mask 11 ((((b 5) / 16) + (b 6) * 16) % 65536),
  bit_or_low 1 ((b 6) / 128) (b 7),
  bit_or_low 9 (((b 6) / 128) + (b 7) * 2) (b 8),
  bit_and_mask 11 (((((b 6) / 128) + (b 7) * 2) + (b 8) * 512) % 65536),
  bit_or_low 6 ((b 8) / 4) (b 9),
  bit_and_mask 11 ((((b 8) / 4) + (b 9) * 64) % 65536),
  bit_or_low 3 ((b 9) / 32) (b 10),
  bit_and_mask 11 ((((b 9) / 32) + (b 10) * 8) % 65536),
)
