-- ===== src/Poly/Noise.antt =====
-- poly_noise_eta1 and poly_noise_eta2 of mlkem/poly.c; the flag `add` chooses between the macros
-- poly_getnoise and poly_addnoise of mlkem/poly.h.
use mlkem_c_embedded.Base.{ℕ, ◌*◌, ◌/◌, Bool, List}
use mlkem_c_embedded.Params.{ParamSet, mlkem_n, mlkem_eta1, mlkem_eta2}
use mlkem_c_embedded.Poly.{Poly}
use mlkem_c_embedded.Cbd.{poly_cbd_eta1, poly_cbd_eta2}
use mlkem_c_embedded.Symmetric.{Fips202, mlkem_shake256_prf}

module _ (f : Fips202) where
  unfoldable pub poly_noise_eta1 : ParamSet → Poly → List ℕ → ℕ → Bool → Poly
  poly_noise_eta1 ps r seed nonce add =
      poly_cbd_eta1 ps r (mlkem_shake256_prf f (mlkem_eta1 ps * mlkem_n / 4) seed nonce) add

  unfoldable pub poly_noise_eta2 : Poly → List ℕ → ℕ → Bool → Poly
  poly_noise_eta2 r seed nonce add =
      poly_cbd_eta2 r (mlkem_shake256_prf f (mlkem_eta2 * mlkem_n / 4) seed nonce) add
