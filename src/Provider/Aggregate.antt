-- ===== src/Provider/Aggregate.antt =====
-- The combination of the spooled rows by the challenges, as `finish` of
-- experiments/preprocessed-pbmo/src/provider.rs computes it.
use thinwallet.Prelude.{
  ℕ, zero, suc, List, [], ◌∷◌, ◌++◌, ◌≡◌, refl, sym, ap, ◌∙◌, length, replicate, map, false, All,
  arith, append_assoc, ltb, take-append, drop-append, length-append,
}
use thinwallet.Prelude.Outcome.{ok}
use thinwallet.Prelude.Bytes.{Bytes}
use thinwallet.Token.Codec.{concat}
use thinwallet.External.{External, GroupLaws, ScalarLaws}
use thinwallet.Provider.Finish.{aggregate_row, aggregate}
use thinwallet.Provider.Algebra.{add-identity, add-interchange}

module _ (X : External) where
  open X use {Point, Scalar}

  -- `a[i] += rho * row[i]`
  scaled_sum : Scalar → List Scalar → List Scalar → List Scalar
  scaled_sum rho [] row = []
  scaled_sum rho (a ∷ rest) [] = a ∷ rest
  scaled_sum rho (a ∷ rest) (x ∷ row) =
      X.add_scalar a (X.mul_scalar rho x) ∷ scaled_sum rho rest row

  unfoldable pub bytes_of_row : List Scalar → Bytes
  bytes_of_row row = concat (map X.scalar_to_bytes row)

  unfoldable pub bytes_of_rows : List (List Scalar) → Bytes
  bytes_of_rows [] = []
  bytes_of_rows (row ∷ rows) = bytes_of_row row ++ bytes_of_rows rows

  aggregate_row-sum :
      (rho : Scalar) (a row : List Scalar) (rest : Bytes)
      → ScalarLaws X
      → length a ≡ length row
      → aggregate_row X rho a (bytes_of_row row ++ rest) ≡ ok (scaled_sum rho a row, rest)
  unfolding aggregate_row bytes_of_row concat scaled_sum
  aggregate_row-sum rho [] [] rest S h = refl
  aggregate_row-sum rho [] (x ∷ row) rest S h = absurd (omega arith)
  aggregate_row-sum rho (a ∷ rs) [] rest S h = absurd (omega arith)
  aggregate_row-sum rho (a ∷ rs) (x ∷ row) rest S h =
      let tail = bytes_of_row row ++ rest in
      let size = S.scalar_length x in
      let long : ltb (length (X.scalar_to_bytes x ++ tail)) 32 ≡ false =
        ground (arith, length-append (X.scalar_to_bytes x) tail, size) in
      rw
        (
          append_assoc (X.scalar_to_bytes x) (bytes_of_row row) rest,
          long,
          take-append 32 (X.scalar_to_bytes x) tail size,
          S.scalar_back x,
          drop-append 32 (X.scalar_to_bytes x) tail size,
          aggregate_row-sum rho rs row rest S (omega arith),
        )
        refl

  length-scaled_sum :
      (rho : Scalar) (a row : List Scalar) → length (scaled_sum rho a row) ≡ length a
  unfolding scaled_sum
  length-scaled_sum rho [] row = refl
  length-scaled_sum rho (a ∷ rest) [] = refl
  length-scaled_sum rho (a ∷ rest) (x ∷ row) = ap suc (length-scaled_sum rho rest row)

  msm-scaled_sum :
      (rho : Scalar) (a row : List Scalar) (ps : List Point)
      → GroupLaws X
      → length a ≡ length ps
      → length row ≡ length ps
      → X.msm (scaled_sum rho a row) ps
        ≡ X.add_point (X.msm a ps) (X.msm (rho ∷ []) (X.msm row ps ∷ []))
  unfolding scaled_sum
  msm-scaled_sum rho [] [] [] G h g = sym (
      ap (λ t. X.add_point (X.msm [] []) t)
        (ap (λ p. X.msm (rho ∷ []) (p ∷ [])) G.msm-nil ∙ G.term-identity rho)
      ∙ add-identity X G (X.msm [] []))
  msm-scaled_sum rho [] row (p ∷ ps) G h g = absurd (omega arith)
  msm-scaled_sum rho [] (x ∷ row) [] G h g = absurd (omega arith)
  msm-scaled_sum rho (a ∷ rest) row [] G h g = absurd (omega arith)
  msm-scaled_sum rho (a ∷ rest) [] (p ∷ ps) G h g = absurd (omega arith)
  msm-scaled_sum rho (a ∷ rest) (x ∷ row) (p ∷ ps) G h g =
      let term : Scalar → Point = λ s. X.msm (s ∷ []) (p ∷ []) in
      let scaled : Point → Point = λ q. X.msm (rho ∷ []) (q ∷ []) in
      G.msm-cons (X.add_scalar a (X.mul_scalar rho x)) (scaled_sum rho rest row) p ps
      ∙ ap (λ t. X.add_point t (X.msm (scaled_sum rho rest row) ps))
          (G.add-term a (X.mul_scalar rho x) p
            ∙ ap (λ t. X.add_point (term a) t) (G.mul-term rho x p))
      ∙ ap (λ t. X.add_point (X.add_point (term a) (scaled (term x))) t)
          (msm-scaled_sum rho rest row ps G (omega arith) (omega arith))
      ∙ add-interchange X G (term a) (scaled (term x)) (X.msm rest ps) (scaled (X.msm row ps))
      ∙ ap (λ t. X.add_point t (X.add_point (scaled (term x)) (scaled (X.msm row ps))))
          (sym (G.msm-cons a rest p ps))
      ∙ ap (λ t. X.add_point (X.msm (a ∷ rest) (p ∷ ps)) t)
          (sym (ap scaled (G.msm-cons x row p ps) ∙ G.term-add rho (term x) (X.msm row ps)))

  -- Over the bytes of as many rows as there are challenges, the aggregation succeeds, and the
  -- product of its result is the combination of the products of the rows.
  pub aggregate-sums :
      (rhos a : List Scalar) (rows : List (List Scalar)) (ps : List Point)
      → GroupLaws X
      → ScalarLaws X
      → length rhos ≡ length rows
      → length a ≡ length ps
      → All (λ row. length row ≡ length ps) rows
      → (sums : List Scalar) × (aggregate X rhos a (bytes_of_rows rows) ≡ ok sums)
        × (X.msm sums ps ≡ X.add_point (X.msm a ps) (X.msm rhos (map (λ row. X.msm row ps) rows)))
  unfolding aggregate bytes_of_rows
  aggregate-sums [] a [] ps G S h wide full = (
    a,
    refl,
    sym (ap (λ t. X.add_point (X.msm a ps) t) G.msm-nil ∙ add-identity X G (X.msm a ps)),
  )
  aggregate-sums [] a (row ∷ rows) ps G S h wide full = absurd (omega arith)
  aggregate-sums (rho ∷ rhos) a [] ps G S h wide full = absurd (omega arith)
  aggregate-sums (rho ∷ rhos) a (row ∷ rows) ps G S h wide (whole, full) =
      let next = scaled_sum rho a row in
      let step = aggregate_row-sum rho a row (bytes_of_rows rows) S (wide ∙ sym whole) in
      let (sums, rest, product) =
        aggregate-sums rhos next rows ps G S (omega arith) (length-scaled_sum rho a row ∙ wide)
          full in
      let products = X.msm rhos (map (λ row. X.msm row ps) rows) in
      (
        sums,
        rw step rest,
        product
            ∙ ap (λ t. X.add_point t products) (msm-scaled_sum rho a row ps G wide whole)
            ∙ G.add_point_assoc (X.msm a ps) (X.msm (rho ∷ []) (X.msm row ps ∷ [])) products
            ∙ ap (λ t. X.add_point (X.msm a ps) t)
                (sym (G.msm-cons rho rhos (X.msm row ps) (map (λ row. X.msm row ps) rows))),
      )

  pub msm-zeros :
      (n : ℕ) (ps : List Point)
      → GroupLaws X
      → n ≡ length ps
      → X.msm (replicate n X.zero_scalar) ps ≡ X.identity
  msm-zeros zero [] G h = G.msm-nil
  msm-zeros zero (p ∷ ps) G h = absurd (omega arith)
  msm-zeros (suc n) [] G h = absurd (omega arith)
  msm-zeros (suc n) (p ∷ ps) G h =
      G.msm-cons X.zero_scalar (replicate n X.zero_scalar) p ps
      ∙ ap (λ t. X.add_point t (X.msm (replicate n X.zero_scalar) ps)) (G.zero-term p)
      ∙ G.identity-add _
      ∙ msm-zeros n ps G (omega arith)
