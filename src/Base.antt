-- ===== src/Base.antt =====
-- The names that the other modules share: the libraries', passed on, and those of the children.
mod Tests
mod Lists
mod Int
mod Word
mod Bits
mod Xor
mod Blocks
mod Store
pub use Tests.*
pub use Lists.*
pub use Int.{ℤ, pos, negsuc, pos_part, neg_part, abs, minus, sub_ℕ}
unfoldable pub use Int.{◌+ℤ◌, ◌-ℤ◌, ◌*ℤ◌, neg_ℤ}
pub use Int.{abs-+ℤ, abs--ℤ, abs-*ℤ, abs-neg_ℤ}
pub use Bits.*
pub use Xor.*
unfoldable pub use Blocks.*
pub use Store.*
unfoldable pub use Word.*
pub use Prim.Native.Nat.{ℕ, zero, suc, ◌+◌, ◌-◌, ◌*◌, ◌/◌, ◌%◌, ◌^◌, ◌≤◌, ◌<◌, min, max}
pub use Prim.Native.Nat.{bit_and, bit_or, bit_xor}
pub use mathlib.Core.Path.{◌≡◌, refl, sym, ap, ap₂, ◌∙◌}
pub use mathlib.Core.Logic.{◌≢◌, ◌↔◌, ◌⊎◌, inl, inr}
pub use mathlib.Core.Bool.{Bool, true, false, not, ◌&&◌, ◌||◌}
pub use mathlib.Core.Option.{Option, none, some}
pub use mathlib.Core.List.{List, [], ◌∷◌, ◌++◌, map}
pub use native.Mathlib.Omega.{arith}
use native.Mathlib.Decide.{dec_lt}

-- An array of `uint8_t`: every element is below 256.
abbrev pub IsBytes : List ℕ → Type 0
IsBytes xs = (i : ℕ) → i < length xs → get_or xs i 0 < 256

pub append-IsBytes : (a b : List ℕ) → IsBytes a → IsBytes b → IsBytes (a ++ b)
append-IsBytes a b ha hb i h = elim (dec_lt i (length a)) [
  | yes p ↦ rw (get_or-append_left a b i 0 p) (ha i p)
  | no p ↦
      let k = i - length a in
      let at : length a + k ≡ i = omega arith in
      rw (← at) (rw (get_or-append_right a b k 0) (hb k (omega (arith, length-append a b))))
]

-- A computation that may run out of fuel.
infixl 5 ◌>>=◌
abbrev pub ◌>>=◌ {ℓ κ} : {A : Type ℓ} {B : Type κ} → Option A → (A → Option B) → Option B
none >>= f = none
some a >>= f = f a

-- The bytes `xs[off]`, …, `xs[off + n - 1]` behind a pointer.
abbrev pub slice : ℕ → ℕ → List ℕ → List ℕ
slice off n xs = take n (drop off xs)

pub >>=-eq-some {ℓ κ} :
    {A : Type ℓ} {B : Type κ} (m : Option A) (f : A → Option B) {b : B}
    → (m >>= f) ≡ some b
    → (a : A) × (m ≡ some a) × (f a ≡ some b)
>>=-eq-some none f h = cc
>>=-eq-some (some a) f h = (a, refl, h)
