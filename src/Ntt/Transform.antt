-- ===== src/Ntt/Transform.antt =====
-- mlkem/ntt.c: the seven layers of ntt and of invntt, on residues.
use mlkem_c_embedded.Base.{ℕ, zero, suc, ◌+◌, ◌*◌, ◌≤◌, ◌<◌, ◌≡◌, refl, arith, length}
use mlkem_c_embedded.Poly.{Poly}
use mlkem_c_embedded.Ntt.{ntt, invntt, scale_all}
use mlkem_c_embedded.Ntt.Field.{◌≈◌}
use mlkem_c_embedded.Ntt.Layers.{layer, inv_layer, ntt-layer, invntt-inv_layer}
use mlkem_c_embedded.Ntt.Halves.{
  IsAtMost, IsSplit, block, length-layer, length-inv_layer, layer_bound, inv_layer_bound,
  layer-IsSplit,
}

-- The size of the blocks when `t` layers are left.
abbrev pub size : ℕ → ℕ
size zero = 2
size (suc t) = 2 * size t

pub size_large : (t : ℕ) → 2 ≤ size t
size_large zero = omega arith
size_large (suc t) = omega (arith, size_large t)

-- A layer that is left has at most 64 blocks.
pub few_blocks : (t n : ℕ) → n * size (suc t) ≡ 256 → n ≤ 64
few_blocks t n whole =
    let l = size_large t in let p : n * 2 ≤ n * size t = grind arith in omega arith

pub size_pos : (t : ℕ) → 0 < size t
size_pos t = omega (arith, size_large t)

-- The number of blocks after `t` layers on `n` blocks.
abbrev pub count : ℕ → ℕ → ℕ
count zero n = n
count (suc t) n = count t (n + n)

-- The last `t` layers of ntt, and the first `t` of invntt.
unfoldable pub last_layers : ℕ → ℕ → Poly → Poly
last_layers zero n r = r
last_layers (suc t) n r = last_layers t (n + n) (layer (size t) n r)

unfoldable pub first_layers : ℕ → ℕ → Poly → Poly
first_layers zero n r = r
first_layers (suc t) n r = inv_layer (size t) n (first_layers t (n + n) r)

pub ntt-last_layers : (r : Poly) → ntt r ≡ last_layers 7 1 r
unfolding last_layers
ntt-last_layers r = ntt-layer r

pub invntt-first_layers : (r : Poly) → invntt r ≡ scale_all (first_layers 7 1 r)
unfolding first_layers
invntt-first_layers r = invntt-inv_layer r

-- `w` comes from `v` by `t` splits.
pub data IsTransform : ℕ → ℕ → (ℕ → ℕ → ℕ) → (ℕ → ℕ → ℕ) → Type 0 where
  done :
      {n : ℕ} {v w : ℕ → ℕ → ℕ}
      → ((c i : ℕ) → c < n → i < 2 → w c i ≈ v c i)
      → IsTransform zero n v w
  split :
      {t n : ℕ} {v w : ℕ → ℕ → ℕ} (x : ℕ → ℕ → ℕ)
      → IsSplit (size t) n v x
      → IsTransform t (n + n) x w
      → IsTransform (suc t) n v w

pub last_layers-IsTransform :
    (t n b : ℕ) (r : Poly)
    → n * size t ≡ 256
    → length r ≡ 256
    → b + t * 2496 ≤ 32767
    → IsAtMost b r
    → IsTransform t n (block (size t) r) (block 2 (last_layers t n r))
unfolding last_layers
last_layers-IsTransform zero n b r whole full fits all = done (λ c i h h'. refl)
last_layers-IsTransform (suc t) n b r whole full fits all =
    let r' = layer (size t) n r in
    let few : b + 2496 ≤ 32767 = omega arith in
    split (block (size t) r') (layer-IsSplit (size t) n b r (size_pos t) whole full all few) (
      last_layers-IsTransform t (n + n) (b + 2496) r' (omega arith)
        (length-layer (size t) n b r (size_pos t) whole full all) (omega arith)
        (layer_bound (size t) n b r (size_pos t) whole full all few))

-- What `t` layers of invntt do to the length and the bound.
pub first_layers_bound :
    (t n : ℕ) (r : Poly)
    → n * size t ≡ 256
    → length r ≡ 256
    → IsAtMost 16383 r
    → (length (first_layers t n r) ≡ 256) × IsAtMost 16383 (first_layers t n r)
unfolding first_layers
first_layers_bound zero n r whole full all = (full, all)
first_layers_bound (suc t) n r whole full all =
    let r' = first_layers t (n + n) r in
    let ih = first_layers_bound t (n + n) r (omega arith) full all in
    (
      length-inv_layer (size t) n 16383 r' (size_pos t) whole ih.0 ih.1,
      λ i h. omega (
        arith,
        inv_layer_bound (size t) n 16383 r' (size_pos t) whole ih.0 ih.1 (omega arith) i h,
      ),
    )

-- The factor of `t` layers.
abbrev pub twos : ℕ → ℕ
twos zero = 1
twos (suc t) = 2 * twos t
