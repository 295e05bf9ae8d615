-- ===== src/Provider/Products.antt =====
-- The answer of a session without a transport, against the products of the private rows
-- (experiments/preprocessed-pbmo/src/provider.rs).
use thinwallet.Prelude.{
  ℕ, zero, suc, List, [], ◌∷◌, ◌+◌, ◌%◌, ◌^◌, ◌<◌, ◌≡◌, refl, sym, ap, subst, ◌∙◌, length, take,
  map, Bool, false, not, ◌==◌, nat_eq, bytes_eq, option_eq, not_eq-false, Option, none, some, All,
  arith,
}
use thinwallet.Prelude.Outcome.{ok, ok-injective, reject_if, reject_if-eq-ok, bind-eq-ok}
use thinwallet.External.{External, GroupLaws, PbmoContext}
use thinwallet.Token.{Token}
use thinwallet.Token.Generate.{domain_metadata, mask_row, corrections}
use thinwallet.Provider.{
  PbmoTransport, SessionMode, token_of, Session, token_differs, check_token, start_session,
}
use thinwallet.Provider.Stream.{Push, masked, mask_from}
use thinwallet.Provider.Finish.{recover, corrupt, collect_outputs, finish}
use thinwallet.Provider.Providers.{push_all}
use thinwallet.Provider.Algebra.{msm-mask_from, recover-corrections}
use thinwallet.Provider.Sums.{sent, sent_sum, row_sum}
use thinwallet.Provider.Rows.{Fits, pieces_of, Holds}
use thinwallet.Provider.Runs.{push_all-Holds, start_session-Holds}
use thinwallet.Provider.Answers.{answer, finish-Finished}
use thinwallet.Wire.Server.Rows.{range, row_of, rows_of, complete_rows}

module _ (X : External) where
  open X use {Point, Scalar}

  -- The corrections of the token are those of its seed over these bases.
  unfoldable pub Prepared : List Point → Option (Token Point) → Type 0
  Prepared bases none = Unit
  Prepared bases (some t) =
      t.correction_points
      ≡ corrections X t.seed (domain_metadata t.binding t.token_id) bases t.binding.m 0 t.binding.q

  -- Two functions agree on the rows of a range that have a property.
  map-range-rows :
      {A B : Type 0} (f : ℕ → List A) (P : List A → Type 0) (g h : ℕ → B) (k n : ℕ)
      → All P (map f (range k n))
      → ((j : ℕ) → j < k + n → P (f j) → g j ≡ h j)
      → map g (range k n) ≡ map h (range k n)
  unfolding range
  map-range-rows f P g h k zero full same = refl
  map-range-rows f P g h k (suc n) (p, full) same =
      rw (same k (omega arith) p)
        (ap (λ t. h k ∷ t) (map-range-rows f P g h (suc k) n full (λ j l. same j (omega arith))))

  pub map-rows_of :
      {A B : Type 0} (f : ℕ → A) (g : A → B) (k n : ℕ)
      → map (λ i. g (f i)) (range k n) ≡ map g (map f (range k n))
  unfolding range
  map-rows_of f g k zero = refl
  map-rows_of f g k (suc n) = ap (λ t. g (f k) ∷ t) (map-rows_of f g (suc k) n)

  take-all : {A : Type 0} (n : ℕ) (xs : List A) → n ≡ length xs → take n xs ≡ xs
  take-all zero [] e = refl
  take-all zero (x ∷ xs) e = absurd (omega arith)
  take-all (suc n) [] e = refl
  take-all (suc n) (x ∷ xs) e = ap (λ t. x ∷ t) (take-all n xs (omega arith))

  -- The dimensions that `start_session` has compared with the token's.
  unfoldable pub Sized : ℕ → ℕ → Option (Token Point) → Type 0
  Sized q m none = Unit
  Sized q m (some t) = (t.binding.q ≡ q) × (t.binding.m ≡ m)

  pub check_token-Sized :
      (c : PbmoContext) (q m : ℕ) (t : Option (Token Point))
      → q < 2 ^ 32
      → m < 2 ^ 32
      → check_token X c q m t ≡ ok tt
      → Sized q m t
  unfolding check_token token_differs Sized
  check_token-Sized c q m none rows columns h = tt
  check_token-Sized c q m (some t) rows columns h =
      let (_, e, _) = bind-eq-ok (reject_if (token_differs X t c q m) _) _ h in
      let e' = reject_if-eq-ok _ _ e in
      let same_q : not (t.binding.q == q % 2 ^ 32) ≡ false = ground arith in
      let same_m : not (t.binding.m == m % 2 ^ 32) ≡ false = ground arith in
      let eq_q = not_eq-false t.binding.q (q % 2 ^ 32) same_q in
      let eq_m = not_eq-false t.binding.m (m % 2 ^ 32) same_m in
      (omega (arith, eq_q, rows), omega (arith, eq_m, columns))

  masked_row_sum :
      (t : Token Point) (m : ℕ) (bases : List Point) (ps : List (ℕ × List Scalar)) (i : ℕ)
      → GroupLaws X
      → i < 2 ^ 32
      → m < 2 ^ 32
      → length bases ≡ m
      → length (row_of ps i) ≡ m
      → row_sum X (some t) bases ps i
        ≡ X.add_point
            (X.msm (row_of ps i) bases)
            (X.msm (mask_row X t.seed (domain_metadata t.binding t.token_id) i 0 m) bases)
  unfolding row_sum sent_sum sent masked
  masked_row_sum t m bases ps i G row columns long whole =
      let meta = domain_metadata t.binding t.token_id in
      ap (λ b. X.msm (mask_from X t.seed meta i 0 (row_of ps i)) b)
        (take-all (length (row_of ps i)) bases (omega arith))
      ∙ msm-mask_from X G t.seed meta i 0 (row_of ps i) bases row (omega arith) (omega arith)
      ∙ ap
          (λ n.
            X.add_point (X.msm (row_of ps i) bases) (X.msm (mask_row X t.seed meta i 0 n) bases))
          whole

  -- The corrections turn the products of what was sent into those of the rows.
  pub answer-row_sum :
      (t : Option (Token Point)) (q m : ℕ) (bases : List Point) (ps : List (ℕ × List Scalar))
      → GroupLaws X
      → q < 2 ^ 32
      → m < 2 ^ 32
      → length bases ≡ m
      → Sized q m t
      → Prepared bases t
      → All (λ row. length row ≡ m) (rows_of q ps)
      → answer X t (map (row_sum X t bases ps) (range 0 q))
        ≡ map (λ i. X.msm (row_of ps i) bases) (range 0 q)
  unfolding rows_of answer row_sum sent_sum sent Sized Prepared masked
  answer-row_sum none q m bases ps G rows columns long sized prepared full =
      map-range-rows (row_of ps) (λ row. length row ≡ m) _ _ 0 q full
        (λ i in_range whole.
          ap (λ b. X.msm (row_of ps i) b) (take-all (length (row_of ps i)) bases (omega arith)))
  answer-row_sum (some t) q m bases ps G rows columns long (same_q, same_m) prepared full =
      let meta = domain_metadata t.binding t.token_id in
      ap (λ os. recover X os t.correction_points)
        (map-range-rows (row_of ps) (λ row. length row ≡ m) _ _ 0 q full
          (λ i in_range whole. masked_row_sum t m bases ps i G (omega arith) columns long whole))
      ∙ ap
          (λ cs.
            recover X
              (map
                (λ i.
                  X.add_point (X.msm (row_of ps i) bases)
                    (X.msm (mask_row X t.seed meta i 0 m) bases))
                (range 0 q))
              cs)
          (prepared
            ∙ ap (λ n. corrections X t.seed meta bases n 0 t.binding.q) same_m
            ∙ ap (λ n. corrections X t.seed meta bases m 0 n) same_q)
      ∙ recover-corrections X G t.seed meta bases m 0 q (λ i. X.msm (row_of ps i) bases)

  module _ (T : PbmoTransport Point) where
    finish-sums :
        (same_point : Point → Point → Bool) (q m : ℕ) (bases : List Point)
        (t : Option (Token Point)) (ps : List (ℕ × List Scalar)) (s u : Session X T)
        {out : List Point}
        → Holds X T q m bases t ps s
        → finish X T same_point none s ≡ (ok out, u)
        → All (λ row. length row ≡ m) (rows_of q ps)
          × (out ≡ answer X t (map (row_sum X t bases ps) (range 0 q)))
    unfolding collect_outputs corrupt
    finish-sums same_point q m bases t ps s u held h =
        let f = finish-Finished X T same_point none s u h in
        let here : (ok s.accumulators, s) ≡ (ok f.received, f.after_upload) =
          subst (λ box. collect_outputs X T box s ≡ (ok f.received, f.after_upload)) held.local
            f.collected in
        (
          complete_rows (rows_of q ps) m (rw (sym held.next_col, sym held.columns_m) f.complete),
          f.recovered
              ∙ ap (λ r. answer X (token_of r.1.mode) f.received) (sym here)
              ∙ ap (λ token. answer X token f.received) held.same_token
              ∙ ap (answer X t) (ok-injective (sym (ap (λ r. r.0) here)) ∙ held.sums),
        )

    -- A session without a transport that is started with dimensions below 2^32, given pushes and
    -- finished, every step with success, has had every row pushed whole, and its answer is the
    -- products of the rows that were pushed with the bases, in the order of the rows. This holds in
    -- every mode; a token's corrections must be those of its seed over the bases.
    pub session-products :
        (same_point : Point → Point → Bool) (c : PbmoContext) (q m : ℕ) (bases : List Point)
        (mode : SessionMode Point) (pushes : List (Push Scalar)) (s t u : Session X T)
        (out : List Point)
        → GroupLaws X
        → q < 2 ^ 32
        → m < 2 ^ 32
        → Prepared bases (token_of mode)
        → All Fits pushes
        → start_session X T c q m bases mode none ≡ (ok tt, s)
        → push_all X T pushes s ≡ (ok tt, t)
        → finish X T same_point none t ≡ (ok out, u)
        → All (λ row. length row ≡ m) (rows_of q (pieces_of pushes))
          × (out ≡ map (λ row. X.msm row bases) (rows_of q (pieces_of pushes)))
    unfolding rows_of
    session-products same_point c q m bases mode pushes s t u out G rows columns prepared fits
          started pushed finished =
        let (long, held, checked) = start_session-Holds X T c q m bases mode s G started in
        let held' =
          push_all-Holds X T q m bases (token_of mode) [] pushes s t G columns long fits held
            pushed in
        let ps = pieces_of pushes in
        let (full, sums) = finish-sums same_point q m bases (token_of mode) ps t u held' finished in
        let sized = check_token-Sized c q m (token_of mode) rows columns checked in
        (
          full,
          sums
              ∙ answer-row_sum (token_of mode) q m bases ps G rows columns long sized prepared full
              ∙ map-rows_of (row_of ps) (λ row. X.msm row bases) 0 q,
        )
