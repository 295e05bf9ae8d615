-- ===== src/Provider/Total.antt =====
-- That a run with honest pushes gives the products of its rows
-- (experiments/preprocessed-pbmo/src/provider.rs).
use thinwallet.Prelude.{
  ℕ, List, [], ◌∷◌, ◌^◌, ◌<◌, ◌≡◌, refl, sym, ap, subst, ◌∙◌, length, map, Bool, true, false, not,
  any, ◌==◌, nat_eq, eq_refl, Option, none, some, All, arith,
}
use thinwallet.Prelude.Outcome.{ok}
use thinwallet.Prelude.Action.{after}
use thinwallet.External.{External, GroupLaws, StreamLaws, PbmoContext}
use thinwallet.Token.{Token}
use thinwallet.Wire.Server.Rows.{range, row_of, rows_of}
use thinwallet.Provider.{
  PbmoError, PbmoTransport, SessionMode, native, plain, semi, malicious, Corruption, token_of,
  Session, start_session, new_session,
}
use thinwallet.Provider.Finish.{
  corrupt, burn_if, collect_outputs, check_outputs, recover_outputs, finish,
}
use thinwallet.Provider.Providers.{push_all}
use thinwallet.Provider.Answers.{answer}
use thinwallet.Provider.Runs.{start_session-Holds}
use thinwallet.Provider.Products.{Prepared, Sized, check_token-Sized, answer-row_sum, map-rows_of}
use thinwallet.Provider.Rows.{pieces_of}
use thinwallet.Provider.Combination.{join, row_pushes}
use thinwallet.Provider.RowByRow.{rows_of-row_pushes}
use thinwallet.Provider.Spooled.{start-apart}
use thinwallet.Provider.Serves.{Unspooled}
use thinwallet.Provider.Served.{Serving, row_pushes-Serving}

module _ (X : External) (T : PbmoTransport X.Point) where
  open X use {Point, Scalar}

  check_outputs-free :
      (same_point : Point → Point → Bool) (corruption : Option Corruption)
      (mode : SessionMode Point) (outputs : List Point) (s : Session X T)
      → Unspooled mode
      → check_outputs X T same_point corruption mode outputs s ≡ (ok outputs, s)
  unfolding check_outputs Unspooled
  check_outputs-free same_point corruption native outputs s h = refl
  check_outputs-free same_point corruption plain outputs s h = refl
  check_outputs-free same_point corruption (semi token) outputs s h = refl
  check_outputs-free same_point corruption (malicious token spool) outputs s h = absurd h

  recover_outputs-runs :
      (token : Option (Token Point)) (outputs : List Point) (s : Session X T)
      → (t : Session X T) × (recover_outputs X T token outputs s ≡ (ok (answer X token outputs), t))
  unfolding recover_outputs answer
  recover_outputs-runs none outputs s = (s, refl)
  recover_outputs-runs (some token) outputs s =
      ((recover_outputs X T (some token) outputs s).1, refl)

  burn_if-runs :
      (b : Bool) (e : PbmoError) (s : Session X T) → b ≡ false → burn_if X T b e s ≡ (ok tt, s)
  unfolding burn_if
  burn_if-runs true e s h = absurd cc
  burn_if-runs false e s h = refl

  finish-runs :
      (same_point : Point → Point → Bool) (s : Session X T)
      → s.transport ≡ none
      → Unspooled s.mode
      → any (λ col. not (col == s.m)) s.next_col ≡ false
      → (u : Session X T) × (finish X T same_point none s
          ≡ (ok (answer X (token_of s.mode) s.accumulators), u))
  unfolding finish corrupt collect_outputs
  finish-runs same_point s here free complete =
      let (t, answered) = recover_outputs-runs (token_of s.mode) s.accumulators s in
      (
        record t { finalized = true },
        ap (after _) (burn_if-runs (any (λ col. not (col == s.m)) s.next_col) _ s complete)
            ∙ ap (after _) (collected s.transport here)
            ∙ ap (after _) (check_outputs-free same_point none s.mode s.accumulators s free)
            ∙ ap (after _) answered,
      )
    where
      collected :
          (box : Option T.Box) → box ≡ none → collect_outputs X T box s ≡ (ok s.accumulators, s)
      collected none h = refl
      collected (some box) h = absurd cc

  whole_rows :
      {A : Type 0} (rows : List (List (List A))) (m : ℕ)
      → All (λ chunks. length (join chunks) ≡ m) rows
      → (any (λ col. not (col == m)) (map length (map join rows)) ≡ false)
        × All (λ row. length row ≡ m) (map join rows)
  whole_rows [] m full = (refl, tt)
  whole_rows (chunks ∷ rows) m (whole, full) =
      let (none_short, each) = whole_rows rows m full in
      (rw (whole, eq_refl m) none_short, (whole, each))

  map-join :
      {A B : Type 0} (g : List A → B) (rows : List (List (List A)))
      → map g (map join rows) ≡ map (λ chunks. g (join chunks)) rows
  map-join g [] = refl
  map-join g (chunks ∷ rows) = ap (λ t. g (join chunks) ∷ t) (map-join g rows)

  -- A session that has received whole rows finishes with their products.
  Serving-finish :
      (same_point : Point → Point → Bool) (q m : ℕ) (bases : List Point)
      (token : Option (Token Point)) (rows : List (List (List Scalar))) (t : Session X T)
      → GroupLaws X
      → q < 2 ^ 32
      → m < 2 ^ 32
      → length bases ≡ m
      → Sized X q m token
      → Prepared X bases token
      → length rows ≡ q
      → All (λ chunks. length (join chunks) ≡ m) rows
      → Serving X T q m bases token (pieces_of (row_pushes 0 rows)) t
      → (u : Session X T) × (finish X T same_point none t
          ≡ (ok (map (λ chunks. X.msm (join chunks) bases) rows), u))
  unfolding rows_of
  Serving-finish same_point q m bases token rows t G few columns long sized prepared count full
        serving =
      let pieces = pieces_of (row_pushes 0 rows) in
      let same_rows : rows_of q pieces ≡ map join rows =
        ap (λ n. map (row_of pieces) (range 0 n)) (sym count) ∙ rows_of-row_pushes 0 rows in
      let (none_short, whole) = whole_rows rows m full in
      let complete : any (λ col. not (col == t.m)) t.next_col ≡ false =
        rw (serving.held.next_col, serving.held.columns_m, same_rows) none_short in
      let (u, finished) = finish-runs same_point t serving.held.local serving.free complete in
      let value =
        ap (λ tok. answer X tok t.accumulators) serving.held.same_token
        ∙ ap (answer X token) serving.held.sums
        ∙ answer-row_sum X token q m bases pieces G few columns long sized prepared
            (subst (All (λ row. length row ≡ m)) (sym same_rows) whole)
        ∙ map-rows_of X (row_of pieces) (λ row. X.msm row bases) 0 q
        ∙ ap (map (λ row. X.msm row bases)) same_rows
        ∙ map-join (λ row. X.msm row bases) rows in
      (u, finished ∙ ap (λ out. (ok out, u)) value)

  -- Let a session without a transport, in the native, the plain or the semihonest mode, be started
  -- with success with dimensions below 2^32, and let a token's corrections be those of its seed over
  -- the bases. Then pushing `q` rows of `m` scalars, row by row in any chunks, and finishing succeed,
  -- and the answer is the products of the rows with the bases.
  pub run-products :
      (same_point : Point → Point → Bool) (c : PbmoContext) (q m : ℕ) (bases : List Point)
      (mode : SessionMode Point) (rows : List (List (List Scalar))) (s : Session X T)
      → GroupLaws X
      → StreamLaws X
      → q < 2 ^ 32
      → m < 2 ^ 32
      → Unspooled mode
      → Prepared X bases (token_of mode)
      → length rows ≡ q
      → All (λ chunks. length (join chunks) ≡ m) rows
      → start_session X T c q m bases mode none ≡ (ok tt, s)
      → (t : Session X T) × (u : Session X T) × (push_all X T (row_pushes 0 rows) s ≡ (ok tt, t))
        × (finish X T same_point none t ≡ (ok (map (λ chunks. X.msm (join chunks) bases) rows), u))
  unfolding row_of new_session
  run-products same_point c q m bases mode rows s G L few columns free prepared count full started =
      let (long, held, checked) = start_session-Holds X T c q m bases mode s G started in
      let (_, _, new) = start-apart X T c q m bases mode none s started in
      let serving : Serving X T q m bases (token_of mode) [] s = record {
        held = held;
        free = subst Unspooled (sym (ap (λ s. s.mode) new)) free;
      } in
      let (t, works, serving') =
        row_pushes-Serving X T G L q m bases (token_of mode) few columns long [] 0 rows s serving
          (λ i later. refl) (omega arith) full in
      let sized = check_token-Sized X c q m (token_of mode) few columns checked in
      let (u, finished) =
        Serving-finish same_point q m bases (token_of mode) rows t G few columns long sized prepared
          count full serving' in
      (t, u, works, finished)
