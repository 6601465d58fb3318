-- ===== src/Compress/Packing/RoundTrip.antt =====
-- mlkem/poly.c and mlkem/polyvec.c: the unpacking of what was packed.
use mlkem_c_embedded.Base.{ℕ, ◌+◌, ◌*◌, ◌/◌, ◌%◌, ◌∙◌, sym, ◌≡◌, ap, arith, List, [], ◌∷◌, get_or}
use mlkem_c_embedded.Compress.Packing.{
  bytes, pack5, pack10, pack11, vec_pack10, vec_pack11, unpack5, unpack10, unpack11,
}
use mlkem_c_embedded.Compress.Packing.Layout.{
  Four, Eight, pack5_layout, pack10_layout, pack11_layout, vec_pack10_layout, vec_pack11_layout,
}
use mlkem_c_embedded.Compress.Packing.Fields.{unpack5_fields, unpack10_fields, unpack11_fields}

-- The bytes of a list as the array that is read.
abbrev pub from_list : List ℕ → ℕ → ℕ
from_list xs k = get_or xs k 0

-- Eight values below 32 come back from the bytes that hold 5 bits of each.
pub unpack5-pack5 :
    (t : ℕ → ℕ)
    → Eight 32 t
    → unpack5 (from_list (bytes (pack5 t))) ≡ t 0 ∷ t 1 ∷ t 2 ∷ t 3 ∷ t 4 ∷ t 5 ∷ t 6 ∷ t 7 ∷ []
unpack5-pack5 t h =
    ap (λ xs. unpack5 (from_list xs)) (pack5_layout t h)
    ∙ ground (
      arith,
      unpack5_fields (
          from_list (
            (t 0 + t 1 % 8 * 32)
            ∷ (t 1 / 8 + t 2 * 4 + t 3 % 2 * 128)
            ∷ (t 3 / 2 + t 4 % 16 * 16)
            ∷ (t 4 / 16 + t 5 * 2 + t 6 % 4 * 64)
            ∷ (t 6 / 4 + t 7 * 8)
            ∷ [])),
    )

-- Four values below 1024 come back from the bytes that hold 10 bits of each.
pub unpack10-pack10 :
    (t : ℕ → ℕ) → Four 1024 t → unpack10 (from_list (bytes (pack10 t))) ≡ t 0 ∷ t 1 ∷ t 2 ∷ t 3 ∷ []
unpack10-pack10 t h =
    ap (λ xs. unpack10 (from_list xs)) (pack10_layout t h)
    ∙ ground (
      arith,
      unpack10_fields (
          from_list (
            (t 0 % 256)
            ∷ (t 0 / 256 + t 1 % 64 * 4)
            ∷ (t 1 / 64 + t 2 % 16 * 16)
            ∷ (t 2 / 16 + t 3 % 4 * 64)
            ∷ (t 3 / 4)
            ∷ [])),
    )

-- Eight values below 2048 come back from the bytes that hold 11 bits of each.
pub unpack11-pack11 :
    (t : ℕ → ℕ)
    → Eight 2048 t
    → unpack11 (from_list (bytes (pack11 t))) ≡ t 0 ∷ t 1 ∷ t 2 ∷ t 3 ∷ t 4 ∷ t 5 ∷ t 6 ∷ t 7 ∷ []
unpack11-pack11 t h =
    ap (λ xs. unpack11 (from_list xs)) (pack11_layout t h)
    ∙ ground (
      arith,
      unpack11_fields (
          from_list (
            (t 0 % 256)
            ∷ (t 0 / 256 + t 1 % 32 * 8)
            ∷ (t 1 / 32 + t 2 % 4 * 64)
            ∷ (t 2 / 4 % 256)
            ∷ (t 2 / 1024 + t 3 % 128 * 2)
            ∷ (t 3 / 128 + t 4 % 16 * 16)
            ∷ (t 4 / 16 + t 5 % 2 * 128)
            ∷ (t 5 / 2 % 256)
            ∷ (t 5 / 512 + t 6 % 64 * 4)
            ∷ (t 6 / 64 + t 7 % 8 * 32)
            ∷ (t 7 / 8)
            ∷ [])),
    )

pub vec_pack10-pack10 : (t : ℕ → ℕ) → Four 1024 t → bytes (vec_pack10 t) ≡ bytes (pack10 t)
vec_pack10-pack10 t h = vec_pack10_layout t h ∙ sym (pack10_layout t h)

pub vec_pack11-pack11 : (t : ℕ → ℕ) → Eight 2048 t → bytes (vec_pack11 t) ≡ bytes (pack11 t)
vec_pack11-pack11 t h = vec_pack11_layout t h ∙ sym (pack11_layout t h)
