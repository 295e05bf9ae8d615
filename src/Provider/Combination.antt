-- ===== src/Provider/Combination.antt =====
-- What the check of the malicious mode establishes of the outputs
-- (experiments/preprocessed-pbmo/src/provider.rs), for rows that are pushed one after the other, as
-- the provers push them.
use thinwallet.Prelude.{
  ℕ, zero, suc, List, [], ◌∷◌, ◌++◌, ◌+◌, ◌^◌, ◌<◌, ◌≤◌, ◌≡◌, refl, sym, ap, ◌∙◌, length, map, some,
  All, arith, append_assoc,
}
use thinwallet.External.{External, GroupLaws}
use thinwallet.Token.{Token}
use thinwallet.Token.Codec.{concat}
use thinwallet.Token.Generate.{domain_metadata, mask_row, corrections}
use thinwallet.Wire.Server.Rows.{range}
use thinwallet.Provider.Stream.{Push, mask_from, masked}
use thinwallet.Provider.Algebra.{msm-mask_from}
use thinwallet.Provider.Aggregate.{bytes_of_row, bytes_of_rows}
use thinwallet.Provider.Sums.{sent, sent-append, length-sent}
use thinwallet.Provider.Spooled.{sent_bytes}

unfoldable pub join : {A : Type 0} → List (List A) → List A
join [] = []
join (xs ∷ xss) = xs ++ join xss

-- The pushes of one row's chunks, from a column on.
unfoldable pub chunk_pushes : {A : Type 0} → ℕ → ℕ → List (List A) → List (Push A)
chunk_pushes row col [] = []
chunk_pushes row col (xs ∷ chunks) =
    record { row = row; col_start = col; col_end = col + length xs; scalars = xs }
    ∷ chunk_pushes row (col + length xs) chunks

-- The pushes of rows in turn, each given by its chunks.
unfoldable pub row_pushes : {A : Type 0} → ℕ → List (List (List A)) → List (Push A)
row_pushes row [] = []
row_pushes row (chunks ∷ rows) = chunk_pushes row 0 chunks ++ row_pushes (suc row) rows

pub length-range : (k n : ℕ) → length (range k n) ≡ n
unfolding range
length-range k zero = refl
length-range k (suc n) = ap suc (length-range (suc k) n)

module _ (X : External) where
  open X use {Point, Scalar}

  -- Two lists of points, added one by one.
  unfoldable pub add_all : List Point → List Point → List Point
  add_all [] cs = []
  add_all (p ∷ ps) [] = p ∷ ps
  add_all (p ∷ ps) (c ∷ cs) = X.add_point p c ∷ add_all ps cs

  pub masked_rows : Token Point → ℕ → List (List (List Scalar)) → List (List Scalar)
  masked_rows token k [] = []
  masked_rows token k (chunks ∷ rows) =
      masked X token k 0 (join chunks) ∷ masked_rows token (suc k) rows

  bytes_of_row-append :
      (xs ys : List Scalar) → bytes_of_row X (xs ++ ys) ≡ bytes_of_row X xs ++ bytes_of_row X ys
  unfolding bytes_of_row concat
  bytes_of_row-append [] ys = refl
  bytes_of_row-append (x ∷ xs) ys =
      ap (λ t. X.scalar_to_bytes x ++ t) (bytes_of_row-append xs ys)
      ∙ sym (append_assoc (X.scalar_to_bytes x) (bytes_of_row X xs) (bytes_of_row X ys))

  masked-append :
      (token : Token Point) (row col : ℕ) (xs ys : List Scalar)
      → masked X token row col (xs ++ ys)
        ≡ masked X token row col xs ++ masked X token row (col + length xs) ys
  unfolding sent
  masked-append token row col xs ys = sent-append X (some token) row col xs ys

  sent_bytes-chunks :
      (token : Token Point) (row col : ℕ) (chunks : List (List Scalar)) (later : List (Push Scalar))
      → sent_bytes X token (chunk_pushes row col chunks ++ later)
        ≡ bytes_of_row X (masked X token row col (join chunks)) ++ sent_bytes X token later
  unfolding sent_bytes chunk_pushes join bytes_of_row masked mask_from concat
  sent_bytes-chunks token row col [] later = refl
  sent_bytes-chunks token row col (xs ∷ chunks) later =
      let here = bytes_of_row X (masked X token row col xs) in
      let next = masked X token row (col + length xs) (join chunks) in
      ap (λ t. here ++ t) (sent_bytes-chunks token row (col + length xs) chunks later)
      ∙ sym (append_assoc here (bytes_of_row X next) (sent_bytes X token later))
      ∙ ap (λ t. t ++ sent_bytes X token later)
          (sym (bytes_of_row-append (masked X token row col xs) next)
            ∙ ap (bytes_of_row X) (sym (masked-append token row col xs (join chunks))))

  pub sent_bytes-rows :
      (token : Token Point) (k : ℕ) (rows : List (List (List Scalar)))
      → sent_bytes X token (row_pushes k rows) ≡ bytes_of_rows X (masked_rows token k rows)
  unfolding sent_bytes row_pushes masked_rows bytes_of_rows
  sent_bytes-rows token k [] = refl
  sent_bytes-rows token k (chunks ∷ rows) =
      sent_bytes-chunks token k 0 chunks (row_pushes (suc k) rows)
      ∙ ap (λ t. bytes_of_row X (masked X token k 0 (join chunks)) ++ t)
          (sent_bytes-rows token (suc k) rows)

  pub length-masked_rows :
      (token : Token Point) (k : ℕ) (rows : List (List (List Scalar)))
      → length (masked_rows token k rows) ≡ length rows
  unfolding masked_rows
  length-masked_rows token k [] = refl
  length-masked_rows token k (chunks ∷ rows) = ap suc (length-masked_rows token (suc k) rows)

  pub masked_rows-whole :
      (token : Token Point) (k n : ℕ) (rows : List (List (List Scalar)))
      → All (λ chunks. length (join chunks) ≡ n) rows
      → All (λ row. length row ≡ n) (masked_rows token k rows)
  unfolding masked_rows sent
  masked_rows-whole token k n [] full = tt
  masked_rows-whole token k n (chunks ∷ rows) (whole, full) = (
    length-sent X (some token) k 0 (join chunks) ∙ whole,
    masked_rows-whole token (suc k) n rows full,
  )

  -- The products of the masked rows are those of the rows with the corrections.
  pub masked_rows-products :
      (token : Token Point) (bases : List Point) (m k : ℕ) (rows : List (List (List Scalar)))
      → GroupLaws X
      → k + length rows ≤ 2 ^ 32
      → m < 2 ^ 32
      → length bases ≡ m
      → All (λ chunks. length (join chunks) ≡ m) rows
      → map (λ row. X.msm row bases) (masked_rows token k rows)
        ≡ add_all (map (λ chunks. X.msm (join chunks) bases) rows) (
            corrections X token.seed
              (domain_metadata token.binding token.token_id)
              bases
              m
              k
              (length rows))
  unfolding masked_rows add_all corrections masked
  masked_rows-products token bases m k [] G small columns long full = refl
  masked_rows-products token bases m k (chunks ∷ rows) G small columns long (whole, full) =
      let meta = domain_metadata token.binding token.token_id in
      let row = join chunks in
      ap (λ t. t ∷ map (λ row. X.msm row bases) (masked_rows token (suc k) rows))
        (msm-mask_from X G token.seed meta k 0 row bases (omega arith) (omega arith) (omega arith)
          ∙ ap (λ n. X.add_point (X.msm row bases) (X.msm (mask_row X token.seed meta k 0 n) bases))
              whole)
      ∙ ap (λ t. X.add_point (X.msm row bases) (X.msm (mask_row X token.seed meta k 0 m) bases) ∷ t)
          (masked_rows-products token bases m (suc k) rows G (omega arith) columns long full)
