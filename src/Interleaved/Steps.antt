-- ===== src/Interleaved/Steps.antt =====
-- fips202/SnP-Relaned.h: the bytes that one step of the loops takes from a lane.
use mlkem_c_embedded.Base.{ℕ, ◌+◌, ◌-◌, ◌≤◌, ◌<◌, ◌≡◌, arith, ltb, if◌then◌else◌, ◌⊎◌}

-- `_bytesInLane`: as many bytes as the lane has, or as many as are left.
unfoldable pub step_bytes : ℕ → ℕ → ℕ
step_bytes left off = if ltb left (8 - off) then left else 8 - off

pub step_bytes_cases :
    (left off : ℕ)
    → 0 < left
    → off < 8
    → (0 < step_bytes left off)
      × (step_bytes left off ≤ left)
      × (off + step_bytes left off ≤ 8)
      × ((step_bytes left off ≡ left) ⊎ (step_bytes left off ≡ 8 - off))
unfolding step_bytes
step_bytes_cases left off pos h = ground arith
