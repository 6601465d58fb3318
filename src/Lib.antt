-- ===== src/Lib.antt =====
-- ML-KEM for embedded devices: the algorithms under mlkem/, fips202/ and hal/, as functions on lists of
-- numbers.
--
-- The program and this library.
-- - mlkem/params.h: Params. The parameter sets are a data type; what the preprocessor chooses by
--   MLKEM_K is a function of it.
-- - mlkem/reduce.c: Reduce, with Reduce/Bounds.
-- - mlkem/verify.c: Verify, with Verify/Select.
-- - mlkem/poly.c: Poly and its children. Bytes has poly_tobytes and poly_frombytes; Compress has the
--   compressing, packing and comparing functions; Arith has the arithmetic and the products (Products,
--   Ring, Image, Inverse and Inner say which products modulo x^256 + 1 they are); Message
--   has poly_frommsg and poly_tomsg; Noise has poly_noise_eta1 and poly_noise_eta2. Compress at the
--   top has what these functions and mlkem/polyvec.c compute for one coefficient, and
--   Compress/Packing the bit layouts.
-- - mlkem/ntt.c: Ntt. Its children Bounds and Range have the ranges of products and of the forward
--   transform, Field the residues, Loop, Blocks and Layers what the three nested loops do to the
--   coefficients, Product the products modulo x^m - z, Roots the table of roots, Halves and Joined a
--   layer of each transform on residues, Transform and Chain all layers, Inverse what invntt
--   and basemul leave, and Surjective what every sequence of residues comes from.
-- - mlkem/cbd.c: Cbd, with Cbd/Range.
-- - mlkem/symmetric.h and mlkem/symmetric-shake.c: Symmetric.
-- - mlkem/matacc.c: Matacc, with Matacc/Sampling and Matacc/Reference.
-- - mlkem/polyvec.c: Polyvec.
-- - mlkem/indcpa.c: Indcpa, with Indcpa/Compare, Indcpa/Reencrypt, Indcpa/Decrypt,
--   Indcpa/SecretKey, Indcpa/Encrypt and Indcpa/Keygen.
-- - mlkem/kem.c: Kem, with Kem/Decaps and Kem/Layout.
-- - fips202/fips202.c: Keccak, over the interface of fips202/keccakf1600.h. Absorb, Squeeze and
--   OneShot are about its functions, Hash has what the scheme calls, and Sponge the construction of
--   FIPS 202.
-- - fips202/keccakf1600.c and fips202/SnP-Relaned.h: Interleaved has KeccakF1600_StateXORBytes and
--   KeccakF1600_StateExtractBytes with what they call (Linear, Mix, Words and Halves for the
--   interleaving of bits; Load, Add, Join and Extract for the bytes). Permute has
--   KeccakF1600_StatePermute: Words names the words, Plane has the statements that the macros
--   KeccakRound0 to KeccakRound3 are made of, Round0 to Round3 each macro as a table of them, and
--   Nrounds the switches and the loop. Standard has the permutation of FIPS 202 on the same words,
--   Relabel the places of its words in the code's rounds, and Agree the two side by side.
-- - hal/notrandombytes.c: Notrandombytes, with Notrandombytes/Stream and
--   Notrandombytes/Surf; hal/randombytes.c: Randombytes, with Randombytes/Words.
-- Base has what they share: tests, lists over native numbers, integers, the conversions between
-- widths, bitwise operations, loops that write blocks, and writes into buffers. Examples has the
-- theorems at concrete inputs.
--
-- How the code is read. An array is a list, and a pointer into an array is an offset or the list from
-- there on. A byte is a number below 256 and a coefficient an integer; each conversion to a narrower
-- type is written out, so that the functions say what the code does where it wraps around. A function
-- that fills a buffer returns it; where it leaves a part alone, the old buffer is an argument. The
-- preprocessor's choices of parameters are clauses; where fips202/keccakf1600.c has code for both
-- orders of the bytes in a word, the model has what both compute. In indcpa_enc and indcpa_enc_cmp the polynomial v is
-- the first of the vector sp: the products read each coefficient of it before they write it and do
-- not read it after, so that the model has two values.
--
-- Fuel. Only the rejection sampling of matacc has no bound in the code. It draws at most `fuel`
-- blocks, and a run that needs more is `none`; the theorems on encryption and decapsulation hold for
-- all fuel and say where the result is `none`. The loops of ntt and invntt have fuel for their
-- blocks and layers, one more than the rounds they make. The loops of fips202/fips202.c have fuel for
-- one round for each byte, and one more where they absorb; those of SnP-Relaned.h for one round for
-- each byte. Every round takes a byte at least. The loop of KeccakP1600_Permute_Nrounds has one more
-- round of fuel than rounds of the permutation, and each of its rounds makes one at least; its result
-- is `none` where the fuel ends.
--
-- Interfaces. Symmetric states what the scheme uses of fips202/fips202.h as the record Fips202 of
-- operations and what is known of their outputs; the modules of mlkem/ take such a record, and
-- Keccak/Hash makes one from the interface of fips202/keccakf1600.h, the record Keccakf1600 of
-- operations and laws. Permute/Run makes that one from the code. The generator of random bytes is a
-- parameter of crypto_kem_keypair and crypto_kem_enc.
--
-- Not modelled: the macros of SnP-Relaned.h and keccakf1600.c that nothing calls; the generator that
-- hal/randombytes.c calls on boards with esp_fill_random, which is their library's; the rest of hal/,
-- and test/, which are input, output and measurement on boards; the build. Running time and memory
-- are no part of the model.
pub mod Base
pub mod Params
pub mod Reduce
pub mod Verify
pub mod Poly
pub mod Compress
pub mod Ntt
pub mod Cbd
pub mod Symmetric
pub mod Matacc
pub mod Polyvec
pub mod Indcpa
pub mod Kem
pub mod Keccak
pub mod Interleaved
pub mod Permute
pub mod Notrandombytes
pub mod Randombytes
pub mod Examples
