-- ===== src/Params.antt =====
-- mlkem/params.h: the constants, and what the preprocessor chooses by `MLKEM_K`.
use mlkem_c_embedded.Base.{ℕ, ◌+◌, ◌*◌}

-- The three values of `MLKEM_K` that the header accepts.
pub data ParamSet : Type 0 where
  mlkem512 mlkem768 mlkem1024 : ParamSet

abbrev pub mlkem_n : ℕ
mlkem_n = 256

abbrev pub mlkem_q : ℕ
mlkem_q = 3329

abbrev pub mlkem_symbytes : ℕ
mlkem_symbytes = 32

abbrev pub mlkem_ssbytes : ℕ
mlkem_ssbytes = 32

abbrev pub mlkem_polybytes : ℕ
mlkem_polybytes = 384

abbrev pub mlkem_k : ParamSet → ℕ
mlkem_k ParamSet.mlkem512 = 2
mlkem_k ParamSet.mlkem768 = 3
mlkem_k ParamSet.mlkem1024 = 4

abbrev pub mlkem_polyvecbytes : ParamSet → ℕ
mlkem_polyvecbytes p = mlkem_k p * mlkem_polybytes

abbrev pub mlkem_eta1 : ParamSet → ℕ
mlkem_eta1 ParamSet.mlkem512 = 3
mlkem_eta1 ParamSet.mlkem768 = 2
mlkem_eta1 ParamSet.mlkem1024 = 2

abbrev pub mlkem_polycompressedbytes : ParamSet → ℕ
mlkem_polycompressedbytes ParamSet.mlkem512 = 128
mlkem_polycompressedbytes ParamSet.mlkem768 = 128
mlkem_polycompressedbytes ParamSet.mlkem1024 = 160

-- The bytes of one polynomial in a compressed vector.
abbrev pub mlkem_packedbytes : ParamSet → ℕ
mlkem_packedbytes ParamSet.mlkem512 = 320
mlkem_packedbytes ParamSet.mlkem768 = 320
mlkem_packedbytes ParamSet.mlkem1024 = 352

abbrev pub mlkem_polyveccompressedbytes : ParamSet → ℕ
mlkem_polyveccompressedbytes p = mlkem_k p * mlkem_packedbytes p

abbrev pub mlkem_eta2 : ℕ
mlkem_eta2 = 2

abbrev pub mlkem_indcpa_msgbytes : ℕ
mlkem_indcpa_msgbytes = mlkem_symbytes

abbrev pub mlkem_indcpa_publickeybytes : ParamSet → ℕ
mlkem_indcpa_publickeybytes p = mlkem_polyvecbytes p + mlkem_symbytes

abbrev pub mlkem_indcpa_secretkeybytes : ParamSet → ℕ
mlkem_indcpa_secretkeybytes p = mlkem_polyvecbytes p

abbrev pub mlkem_indcpa_bytes : ParamSet → ℕ
mlkem_indcpa_bytes p = mlkem_polyveccompressedbytes p + mlkem_polycompressedbytes p

abbrev pub mlkem_publickeybytes : ParamSet → ℕ
mlkem_publickeybytes p = mlkem_indcpa_publickeybytes p

abbrev pub mlkem_secretkeybytes : ParamSet → ℕ
mlkem_secretkeybytes p =
    mlkem_indcpa_secretkeybytes p + mlkem_indcpa_publickeybytes p + 2 * mlkem_symbytes

abbrev pub mlkem_ciphertextbytes : ParamSet → ℕ
mlkem_ciphertextbytes p = mlkem_indcpa_bytes p
