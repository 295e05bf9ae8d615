-- ===== src/Provider/Sums.antt =====
-- What the pushed chunks add up to in a session without a transport
-- (experiments/preprocessed-pbmo/src/provider.rs).
use thinwallet.Prelude.{
  ℕ, zero, suc, List, [], ◌∷◌, ◌++◌, ◌+◌, ◌%◌, ◌^◌, ◌≤◌, ◌≡◌, refl, sym, ap, ◌∙◌, length, take,
  drop, arith, append-nil, subst, eq_refl, map, false, ◌==◌, nat_eq, length-take, length-append,
  Option, none, some,
}
use thinwallet.External.{External, GroupLaws}
use thinwallet.Token.{Token}
use thinwallet.Token.Generate.{domain_metadata}
use thinwallet.Prelude.Bytes.{Bytes}
use thinwallet.Field.{DomainMetadata, derive_mask_scalar}
use thinwallet.Provider.Stream.{mask_from, masked, add_at}
use thinwallet.Provider.Algebra.{msm-append}
use thinwallet.Wire.Server.Rows.{range, map-range, row_of, row_of-append}

module _ {A : Type 0} where
  take-nil : (n : ℕ) → take {A = A} n [] ≡ []
  take-nil zero = refl
  take-nil (suc n) = refl

  take-add : (a b : ℕ) (xs : List A) → take (a + b) xs ≡ take a xs ++ take b (drop a xs)
  take-add zero b xs = ap (λ n. take n xs) (omega arith)
  take-add (suc a) b [] = take-nil (suc a + b) ∙ sym (take-nil b)
  take-add (suc a) b (x ∷ xs) =
      let sum : suc a + b ≡ suc (a + b) = omega arith in
      ap (λ n. take n (x ∷ xs)) sum ∙ ap (λ t. x ∷ t) (take-add a b xs)

module _ (X : External) where
  open X use {Point, Scalar}

  -- What a session sends for a part of a row: masked, if it has a token.
  unfoldable pub sent : Option (Token Point) → ℕ → ℕ → List Scalar → List Scalar
  sent none row col ss = ss
  sent (some token) row col ss = masked X token row col ss

  mask_from-append :
      (seed : Bytes) (meta : DomainMetadata) (row col : ℕ) (ss ts : List Scalar)
      → mask_from X seed meta row col (ss ++ ts)
        ≡ mask_from X seed meta row col ss ++ mask_from X seed meta row (col + length ss) ts
  unfolding mask_from
  mask_from-append seed meta row col [] ts = ap (λ c. mask_from X seed meta row c ts) (omega arith)
  mask_from-append seed meta row col (s ∷ ss) ts =
      let at = mask_from X seed meta row in
      ap
        (λ rest.
          X.add_scalar s (derive_mask_scalar X seed meta (row % 2 ^ 32) (col % 2 ^ 32) 0) ∷ rest)
        (mask_from-append seed meta row (suc col) ss ts
          ∙ ap (λ c. at (suc col) ss ++ at c ts) (omega arith))

  length-mask_from :
      (seed : Bytes) (meta : DomainMetadata) (row col : ℕ) (ss : List Scalar)
      → length (mask_from X seed meta row col ss) ≡ length ss
  unfolding mask_from
  length-mask_from seed meta row col [] = refl
  length-mask_from seed meta row col (s ∷ ss) = ap suc (length-mask_from seed meta row (suc col) ss)

  pub length-sent :
      (t : Option (Token Point)) (row col : ℕ) (ss : List Scalar)
      → length (sent t row col ss) ≡ length ss
  unfolding sent masked
  length-sent none row col ss = refl
  length-sent (some token) row col ss =
      length-mask_from token.seed (domain_metadata token.binding token.token_id) row col ss

  pub sent-append :
      (t : Option (Token Point)) (row col : ℕ) (ss ts : List Scalar)
      → sent t row col (ss ++ ts) ≡ sent t row col ss ++ sent t row (col + length ss) ts
  unfolding sent masked
  sent-append none row col ss ts = refl
  sent-append (some token) row col ss ts =
      mask_from-append token.seed (domain_metadata token.binding token.token_id) row col ss ts

  -- The product of what is sent of row `i`, with the bases of its columns.
  unfoldable pub sent_sum : Option (Token Point) → List Point → ℕ → List Scalar → Point
  sent_sum t bases i row = X.msm (sent t i 0 row) (take (length row) bases)

  unfoldable pub row_sum : Option (Token Point) → List Point → List (ℕ × List Scalar) → ℕ → Point
  row_sum t bases ps i = sent_sum t bases i (row_of ps i)

  -- One element of sums by row is added to.
  add_at-map :
      (f g : ℕ → Point) (p : Point) (k n i r : ℕ)
      → r ≡ k + i
      → g r ≡ X.add_point (f r) p
      → ((j : ℕ) → (r == j) ≡ false → g j ≡ f j)
      → add_at X (map f (range k n)) i p ≡ map g (range k n)
  unfolding add_at range
  add_at-map f g p k zero i r e at other = refl
  add_at-map f g p k (suc n) zero r e at other =
      let here : r ≡ k = omega arith in
      let first : g k ≡ X.add_point (f k) p = subst (λ j. g j ≡ X.add_point (f j) p) here at in
      rw first (
        ap (λ t. X.add_point (f k) p ∷ t)
          (sym (map-range g f (suc k) n (λ j later. other j (ground arith)))))
  add_at-map f g p k (suc n) (suc i) r e at other =
      rw (other k (ground arith))
        (ap (λ t. f k ∷ t) (add_at-map f g p (suc k) n i r (omega arith) at other))

  sent_sum-append :
      (t : Option (Token Point)) (bases : List Point) (r : ℕ) (row xs : List Scalar)
      → GroupLaws X
      → length row + length xs ≤ length bases
      → sent_sum t bases r (row ++ xs)
        ≡ X.add_point
            (sent_sum t bases r row)
            (X.msm (sent t r (length row) xs) (take (length xs) (drop (length row) bases)))
  unfolding sent_sum
  sent_sum-append t bases r row xs G fits =
      let before = sent t r 0 row in
      let added = sent t r (length row) xs in
      ap (λ ss. X.msm ss (take (length (row ++ xs)) bases)) (sent-append t r 0 row xs)
      ∙ ap (λ n. X.msm (before ++ sent t r (0 + length row) xs) (take n bases))
          (length-append row xs)
      ∙ ap (λ ps. X.msm (before ++ sent t r (0 + length row) xs) ps)
          (take-add (length row) (length xs) bases)
      ∙ ap
          (λ c.
            X.msm (before ++ sent t r c xs)
              (take (length row) bases ++ take (length xs) (drop (length row) bases)))
          zero_plus
      ∙ msm-append X G before (take (length row) bases) added _
          (length-sent t r 0 row ∙ sym (length-take (length row) bases (omega arith)))
    where
      zero_plus : 0 + length row ≡ length row
      zero_plus = omega arith

  -- A push to row `r` of what was sent to it.
  pub add_at-row_sum :
      (t : Option (Token Point)) (bases : List Point) (ps : List (ℕ × List Scalar)) (q r : ℕ)
      (xs : List Scalar)
      → GroupLaws X
      → length (row_of ps r) + length xs ≤ length bases
      → add_at X (map (row_sum t bases ps) (range 0 q)) r (
          X.msm
            (sent t r (length (row_of ps r)) xs)
            (take (length xs) (drop (length (row_of ps r)) bases)))
        ≡ map (row_sum t bases (ps ++ (r, xs) ∷ [])) (range 0 q)
  unfolding row_sum
  add_at-row_sum t bases ps q r xs G fits =
      add_at-map (row_sum t bases ps) (row_sum t bases (ps ++ (r, xs) ∷ [])) _ 0 q r r (omega arith)
        (ap (sent_sum t bases r) (row_of-append ps r xs r ∙ rw (eq_refl r) refl)
          ∙ sent_sum-append t bases r (row_of ps r) xs G fits)
        (λ j other.
          ap (sent_sum t bases j) (row_of-append ps r xs j ∙ rw other (append-nil (row_of ps j))))
