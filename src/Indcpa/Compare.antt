-- ===== src/Indcpa/Compare.antt =====
-- mlkem/indcpa.c: the rows that indcpa_enc writes, and their comparison in indcpa_enc_cmp.
use mlkem_c_embedded.Base.{
  ℕ, zero, suc, ◌+◌, ◌-◌, ◌*◌, ◌≤◌, ◌<◌, ◌≡◌, ◌↔◌, inl, inr, ◌∙◌, sym, ap, ap₂, refl, arith, List,
  length, get_or, bit_or, bit_or-lt, bit_or-eq-zero, list_ext, IsBytes, >>=-eq-some, some,
}
use native.Mathlib.Decide.{dec_lt}
use mathlib.Core.Option.{some-injective}
use mlkem_c_embedded.Params.{ParamSet, mlkem_packedbytes}
use mlkem_c_embedded.Poly.{Poly}
use mlkem_c_embedded.Poly.Compress.{poly_packcompress, cmp_poly_packcompress}
use mlkem_c_embedded.Poly.Compress.Store.{
  cmp_poly_packcompress-poly_packcompress, length-poly_packcompress, poly_packcompress_outside,
  poly_packcompress_inside, cmp_poly_packcompress-lt,
}
use mlkem_c_embedded.Polyvec.{Polyvec}
use mlkem_c_embedded.Symmetric.{Fips202}
use mlkem_c_embedded.Indcpa.{enc_row, enc_rows, cmp_rows}

module _ (f : Fips202) (ps : ParamSet) (fuel : ℕ) (sp : Polyvec) (seed coins : List ℕ) where
  abbrev w : ℕ
  w = mlkem_packedbytes ps

  -- A row of encryption, and a row of the comparison, when row `i` of the vector is `b`.
  enc_rows-suc :
      (left i : ℕ) (c : List ℕ) (b : Poly)
      → enc_row f ps fuel sp seed coins i ≡ some b
      → enc_rows f ps fuel (suc left) i sp seed coins c
        ≡ enc_rows f ps fuel left (i + 1) sp seed coins (poly_packcompress ps c b i)
  unfolding enc_rows
  enc_rows-suc left i c b e = rw e

  enc_rows_row :
      (left i : ℕ) (c c' : List ℕ)
      → enc_rows f ps fuel (suc left) i sp seed coins c ≡ some c'
      → (b : Poly) × (enc_row f ps fuel sp seed coins i ≡ some b)
        × (enc_rows f ps fuel left (i + 1) sp seed coins (poly_packcompress ps c b i) ≡ some c')
  unfolding enc_rows
  enc_rows_row left i c c' h =
      >>=-eq-some (enc_row f ps fuel sp seed coins i)
        (λ b. enc_rows f ps fuel left (i + 1) sp seed coins (poly_packcompress ps c b i)) h

  pub length-enc_rows :
      (left i : ℕ) (c c' : List ℕ)
      → enc_rows f ps fuel left i sp seed coins c ≡ some c'
      → length c' ≡ length c
  length-enc_rows zero i c c' h = unfold enc_rows in ap length (sym (some-injective _ _ h))
  length-enc_rows (suc left) i c c' h =
      let (b, e, rest) = enc_rows_row left i c c' h in
      length-enc_rows left (i + 1) (poly_packcompress ps c b i) c' rest
      ∙ length-poly_packcompress ps c b i

  -- The bytes of the rows before `i` are left as they are.
  enc_rows_before :
      (left i : ℕ) (c c' : List ℕ) (k : ℕ)
      → enc_rows f ps fuel left i sp seed coins c ≡ some c'
      → k < w * i
      → get_or c' k 0 ≡ get_or c k 0
  enc_rows_before zero i c c' k h l =
      unfold enc_rows in ap (λ xs. get_or xs k 0) (sym (some-injective _ _ h))
  enc_rows_before (suc left) i c c' k h l =
      let (b, e, rest) = enc_rows_row left i c c' h in
      enc_rows_before left (i + 1) (poly_packcompress ps c b i) c' k rest (omega arith)
      ∙ poly_packcompress_outside ps c b i k (inl l)

  -- The bytes after the last row are left as they are.
  pub enc_rows_after :
      (left i : ℕ) (c c' : List ℕ) (k : ℕ)
      → enc_rows f ps fuel left i sp seed coins c ≡ some c'
      → w * (i + left) ≤ k
      → get_or c' k 0 ≡ get_or c k 0
  enc_rows_after zero i c c' k h l =
      unfold enc_rows in ap (λ xs. get_or xs k 0) (sym (some-injective _ _ h))
  enc_rows_after (suc left) i c c' k h l =
      let (b, e, rest) = enc_rows_row left i c c' h in
      enc_rows_after left (i + 1) (poly_packcompress ps c b i) c' k rest (omega arith)
      ∙ poly_packcompress_outside ps c b i k (inr (omega arith))

  -- A buffer that encryption leaves unchanged holds row `i` already.
  row_in_place :
      (left i : ℕ) (ct : List ℕ) (b : Poly)
      → enc_rows f ps fuel left (i + 1) sp seed coins (poly_packcompress ps ct b i) ≡ some ct
      → poly_packcompress ps ct b i ≡ ct
  row_in_place left i ct b h =
      list_ext 0 (poly_packcompress ps ct b i) ct (length-poly_packcompress ps ct b i) λ k l.
        elim (dec_lt k (w * (i + 1))) [
          | yes p ↦ sym (enc_rows_before left (i + 1) (poly_packcompress ps ct b i) ct k h p)
          | no p ↦ poly_packcompress_outside ps ct b i k (inr (omega arith))
        ]

  cmp_rows_row :
      (left i : ℕ) (ct : List ℕ) (rc r : ℕ)
      → cmp_rows f ps fuel (suc left) i sp seed coins ct rc ≡ some r
      → (b : Poly) × (enc_row f ps fuel sp seed coins i ≡ some b)
        × (cmp_rows f ps fuel left
              (i + 1)
              sp
              seed
              coins
              ct
              (bit_or rc (cmp_poly_packcompress ps ct b i))
            ≡ some r)
  unfolding cmp_rows
  cmp_rows_row left i ct rc r h =
      >>=-eq-some (enc_row f ps fuel sp seed coins i)
        (λ b.
          cmp_rows f ps fuel left (i + 1) sp seed coins ct
            (bit_or rc (cmp_poly_packcompress ps ct b i)))
        h

  -- The rows' comparison ends at 0 exactly if encryption into `ct` itself changes nothing.
  pub cmp_rows_lem :
      (left i : ℕ) (ct : List ℕ) (rc r : ℕ)
      → IsBytes ct
      → w * (i + left) ≤ length ct
      → rc < 256
      → cmp_rows f ps fuel left i sp seed coins ct rc ≡ some r
      → (r < 256) × ((r ≡ 0) ↔ ((rc ≡ 0) × (enc_rows f ps fuel left i sp seed coins ct ≡ some ct)))
  cmp_rows_lem zero i ct rc r br fits small h =
      unfold cmp_rows enc_rows in
      let e : rc ≡ r = some-injective _ _ h in
      (rw e at small, ((λ z. (e ∙ z, refl)), λ p. sym e ∙ p.0))
  cmp_rows_lem (suc left) i ct rc r br fits small h =
      let (b, e, later) = cmp_rows_row left i ct rc r h in
      let d = cmp_poly_packcompress ps ct b i in
      let fit : w * (i + 1) ≤ length ct = omega arith in
      let here = cmp_poly_packcompress-poly_packcompress ps ct b i br fit in
      let rest =
        cmp_rows_lem left (i + 1) ct (bit_or rc d) r br (omega arith)
          (bit_or-lt 8 rc d small (cmp_poly_packcompress-lt ps ct b i br)) later in
      (
        rest.0,
        (
          λ z.
              let both = rest.1.0 z in
              let zeros = bit_or-eq-zero rc d both.0 in
              (
                zeros.0,
                enc_rows-suc left i ct b e
                    ∙ ap (enc_rows f ps fuel left (i + 1) sp seed coins) (here.0 zeros.1)
                    ∙ both.1,
              ),
          λ p.
              let after = sym (enc_rows-suc left i ct b e) ∙ p.1 in
              let same = row_in_place left i ct b after in
              rest.1.1 (
                ap₂ bit_or p.0 (here.1 same),
                ap (enc_rows f ps fuel left (i + 1) sp seed coins) (sym same) ∙ after,
              ),
        ),
      )

  -- The comparison runs out of fuel only if encryption does.
  pub cmp_rows_total :
      (left i : ℕ) (c c' ct : List ℕ) (rc : ℕ)
      → enc_rows f ps fuel left i sp seed coins c ≡ some c'
      → (r : ℕ) × (cmp_rows f ps fuel left i sp seed coins ct rc ≡ some r)
  unfolding cmp_rows
  cmp_rows_total zero i c c' ct rc h = (rc, refl)
  cmp_rows_total (suc left) i c c' ct rc h =
      let (b, e, rest) = enc_rows_row left i c c' h in
      let more =
        cmp_rows_total left (i + 1) (poly_packcompress ps c b i) c' ct
          (bit_or rc (cmp_poly_packcompress ps ct b i)) rest in
      (more.0, rw e more.1)

  -- Encryption runs out of fuel only if the comparison does.
  pub enc_rows_total :
      (left i : ℕ) (c ct : List ℕ) (rc r : ℕ)
      → cmp_rows f ps fuel left i sp seed coins ct rc ≡ some r
      → (c' : List ℕ) × (enc_rows f ps fuel left i sp seed coins c ≡ some c')
  unfolding enc_rows
  enc_rows_total zero i c ct rc r h = (c, refl)
  enc_rows_total (suc left) i c ct rc r h =
      let (b, e, rest) = cmp_rows_row left i ct rc r h in
      let more =
        enc_rows_total left (i + 1) (poly_packcompress ps c b i) ct
          (bit_or rc (cmp_poly_packcompress ps ct b i)) r rest in
      (more.0, rw e more.1)

  -- What the rows leave in their part of the buffer does not depend on its old contents.
  pub enc_rows_fresh :
      (left i : ℕ) (c d c' : List ℕ)
      → length c ≡ length d
      → w * (i + left) ≤ length c
      → ((k : ℕ) → k < w * i → get_or c k 0 ≡ get_or d k 0)
      → enc_rows f ps fuel left i sp seed coins c ≡ some c'
      → (d' : List ℕ) × (enc_rows f ps fuel left i sp seed coins d ≡ some d')
        × ((k : ℕ) → k < w * (i + left) → get_or c' k 0 ≡ get_or d' k 0)
  enc_rows_fresh zero i c d c' e fits same h =
      unfold enc_rows in
      (d, refl, λ k l. ap (λ xs. get_or xs k 0) (sym (some-injective _ _ h)) ∙ same k (omega arith))
  enc_rows_fresh (suc left) i c d c' e fits same h =
      let (b, eb, rest) = enc_rows_row left i c c' h in
      let c1 = poly_packcompress ps c b i in
      let d1 = poly_packcompress ps d b i in
      let lc = length-poly_packcompress ps c b i in
      let ld = length-poly_packcompress ps d b i in
      let more =
        enc_rows_fresh left (i + 1) c1 d1 c' (lc ∙ e ∙ sym ld) (omega arith)
          (λ k l. elim (dec_lt k (w * i)) [
            | yes p ↦
                poly_packcompress_outside ps c b i k (inl p)
                ∙ same k p
                ∙ sym (poly_packcompress_outside ps d b i k (inl p))
            | no p ↦
                let o = k - w * i in
                let at : w * i + o ≡ k = omega arith in
                ap (λ n. get_or c1 n 0) (sym at)
                ∙ poly_packcompress_inside ps c b i o (omega arith) (omega arith)
                ∙ sym (poly_packcompress_inside ps d b i o (omega arith) (omega arith))
                ∙ ap (λ n. get_or d1 n 0) at
          ])
          rest in
      (more.0, enc_rows-suc left i d b eb ∙ more.1, λ k l. more.2 k (omega arith))
