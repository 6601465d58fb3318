-- ===== src/Interleaved/Access.antt =====
-- fips202/keccakf1600.c: KeccakF1600_StateXORBytes and KeccakF1600_StateExtractBytes as an
-- implementation of the interface of fips202/keccakf1600.h.
use mlkem_c_embedded.Base.{ℕ, ◌+◌, ◌≡◌, sym, ap, ap₂, ◌∙◌, List, ◌++◌, length, replicate}
use mlkem_c_embedded.Keccak.{Keccakf1600}
use mlkem_c_embedded.Interleaved.{state_xor_bytes, state_extract_bytes}
use mlkem_c_embedded.Interleaved.Add.{xor_from, xor_from-append, xor_from_zeros}
use mlkem_c_embedded.Interleaved.Join.{state_xor_bytes_lem, state_xor_bytes-nil}
use mlkem_c_embedded.Interleaved.Extract.{
  length-extract_from, extract_from-append, extract_from-IsBytes, state_extract_bytes_lem,
}

-- Joining data in two calls, wherever it is cut, is joining it in one.
pub state_xor_bytes-append :
    (s : List ℕ) (a b : List ℕ) (o : ℕ)
    → state_xor_bytes s (a ++ b) o ≡ state_xor_bytes (state_xor_bytes s a o) b (o + length a)
state_xor_bytes-append s a b o =
    state_xor_bytes_lem s (a ++ b) o
    ∙ xor_from-append s o a b
    ∙ ap (λ t. xor_from t (o + length a) b) (sym (state_xor_bytes_lem s a o))
    ∙ sym (state_xor_bytes_lem (state_xor_bytes s a o) b (o + length a))

-- Reading bytes in two calls, wherever they are cut, is reading them in one.
pub state_extract_bytes-append :
    (s : List ℕ) (o m n : ℕ)
    → state_extract_bytes s o (m + n) ≡ state_extract_bytes s o m ++ state_extract_bytes s (o + m) n
state_extract_bytes-append s o m n =
    state_extract_bytes_lem s o (m + n)
    ∙ extract_from-append s o m n
    ∙ sym (ap₂ ◌++◌ (state_extract_bytes_lem s o m) (state_extract_bytes_lem s (o + m) n))

-- The 50 words of a state that is all zero, the access to the bytes, and a permutation of the words.
unfoldable pub interleaved : (List ℕ → List ℕ) → Keccakf1600
interleaved permute = record {
  State = List ℕ;
  zero_state = replicate 50 0;
  xor_bytes = state_xor_bytes;
  extract_bytes = state_extract_bytes;
  permute = permute;
  xor_bytes-nil = state_xor_bytes-nil;
  xor_bytes-append = λ s a b o h. state_xor_bytes-append s a b o;
  xor_bytes_zeros = λ s n o h. state_xor_bytes_lem s (replicate n 0) o ∙ xor_from_zeros n s o;
  length-extract_bytes =
      λ s o n h. ap length (state_extract_bytes_lem s o n) ∙ length-extract_from s o n;
  extract_bytes-append = λ s o m n h. state_extract_bytes-append s o m n;
  extract_bytes-IsBytes =
      λ s o n h. rw (state_extract_bytes_lem s o n) (extract_from-IsBytes n s o);
}
