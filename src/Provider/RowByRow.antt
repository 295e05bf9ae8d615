-- ===== src/Provider/RowByRow.antt =====
-- The pieces of rows that are pushed one after the other
-- (experiments/preprocessed-pbmo/src/provider.rs).
use thinwallet.Prelude.{
  ℕ, suc, List, [], ◌∷◌, ◌++◌, ◌+◌, ◌<◌, ◌≡◌, refl, sym, ap, ◌∙◌, length, map, Bool, true, false,
  ◌==◌, nat_eq, eq_refl, if◌then◌else◌, arith, append_assoc, append-nil,
}
use thinwallet.Wire.Server.Rows.{range, row_of, map-range}
use thinwallet.Provider.Stream.{Push}
use thinwallet.Provider.Rows.{pieces_of}
use thinwallet.Provider.Combination.{join, chunk_pushes, row_pushes}

module _ {A : Type 0} where
  pub row_of-both :
      (ps qs : List (ℕ × List A)) (i : ℕ) → row_of (ps ++ qs) i ≡ row_of ps i ++ row_of qs i
  unfolding row_of
  row_of-both [] qs i = refl
  row_of-both ((r, xs) ∷ ps) qs i =
      ap (λ t. (if r == i then xs else []) ++ t) (row_of-both ps qs i)
      ∙ sym (append_assoc (if r == i then xs else []) (row_of ps i) (row_of qs i))

  pub pieces_of-both : (ps qs : List (Push A)) → pieces_of (ps ++ qs) ≡ pieces_of ps ++ pieces_of qs
  unfolding pieces_of
  pieces_of-both [] qs = refl
  pieces_of-both (p ∷ ps) qs = ap (λ t. (p.row, p.scalars) ∷ t) (pieces_of-both ps qs)

  if-nil : (b : Bool) → ◌≡◌ {A = List A} [] (if b then [] else [])
  if-nil true = refl
  if-nil false = refl

  if-append :
      (b : Bool) (xs ys : List A)
      → (if b then xs else []) ++ (if b then ys else []) ≡ (if b then xs ++ ys else [])
  if-append true xs ys = refl
  if-append false xs ys = refl

  pub row_of-chunks :
      (k col : ℕ) (chunks : List (List A)) (i : ℕ)
      → row_of (pieces_of (chunk_pushes k col chunks)) i ≡ (if k == i then join chunks else [])
  unfolding row_of pieces_of chunk_pushes join
  row_of-chunks k col [] i = if-nil (k == i)
  row_of-chunks k col (xs ∷ chunks) i =
      ap (λ t. (if k == i then xs else []) ++ t) (row_of-chunks k (col + length xs) chunks i)
      ∙ if-append (k == i) xs (join chunks)

  -- Rows from `k` on have no piece of an earlier row.
  pub row_of-later :
      (k : ℕ) (rows : List (List (List A))) (i : ℕ)
      → i < k
      → row_of (pieces_of (row_pushes k rows)) i ≡ []
  unfolding row_pushes row_of pieces_of
  row_of-later k [] i h = refl
  row_of-later k (chunks ∷ rows) i h =
      let other : (k == i) ≡ false = ground arith in
      ap (λ ps. row_of ps i) (pieces_of-both (chunk_pushes k 0 chunks) (row_pushes (suc k) rows))
      ∙ row_of-both (pieces_of (chunk_pushes k 0 chunks)) (pieces_of (row_pushes (suc k) rows)) i
      ∙ rw (row_of-chunks k 0 chunks i, other, row_of-later (suc k) rows i (omega arith)) refl

  -- The pieces of rows that are pushed in turn give these rows back.
  pub rows_of-row_pushes :
      (k : ℕ) (rows : List (List (List A)))
      → map (row_of (pieces_of (row_pushes k rows))) (range k (length rows)) ≡ map join rows
  unfolding row_pushes range
  rows_of-row_pushes k [] = refl
  rows_of-row_pushes k (chunks ∷ rows) =
      let here = pieces_of (chunk_pushes k 0 chunks) in
      let rest = pieces_of (row_pushes (suc k) rows) in
      ap (λ ps. map (row_of ps) (k ∷ range (suc k) (length rows)))
        (pieces_of-both (chunk_pushes k 0 chunks) (row_pushes (suc k) rows))
      ∙ ap (λ row. row ∷ map (row_of (here ++ rest)) (range (suc k) (length rows)))
          (row_of-both here rest k
            ∙ rw (row_of-chunks k 0 chunks k, eq_refl k, row_of-later (suc k) rows k (omega arith))
                (append-nil (join chunks)))
      ∙ ap (λ t. join chunks ∷ t)
          (map-range (row_of (here ++ rest)) (row_of rest) (suc k) (length rows) (λ j later.
              let other : (k == j) ≡ false = ground arith in
              row_of-both here rest j ∙ rw (row_of-chunks k 0 chunks j, other) refl)
            ∙ rows_of-row_pushes (suc k) rows)
