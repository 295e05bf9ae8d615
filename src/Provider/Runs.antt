-- ===== src/Provider/Runs.antt =====
-- Whole sessions without a transport (experiments/preprocessed-pbmo/src/provider.rs): started,
-- given any list of pushes, and finished.
use thinwallet.Prelude.{
  ℕ, zero, suc, List, [], ◌∷◌, ◌++◌, ◌^◌, ◌<◌, ◌≡◌, refl, sym, ap, subst, ◌∙◌, length, map, false,
  not, ◌||◌, ◌==◌, nat_eq, bytes_eq, option_eq, not_eq-false, Option, none, some, All, arith,
  replicate, append_assoc, append-nil,
}
use thinwallet.Prelude.Outcome.{ok, reject_if, reject_if-eq-ok}
use thinwallet.Prelude.Action.{after-eq-ok, after-lift-ok}
use thinwallet.External.{External, GroupLaws, PbmoContext}
use thinwallet.Wire.Checks.{basis_digest}
use thinwallet.Token.{Token}
use thinwallet.Provider.{
  PbmoTransport, SessionMode, token_of, Session, check_token, start_session, open_transport,
  new_session,
}
use thinwallet.Provider.Stream.{Push, masked, mask_from, push_chunk}
use thinwallet.Provider.Providers.{push_all}
use thinwallet.Provider.Sums.{sent, row_sum, sent_sum}
use thinwallet.Wire.Server.Rows.{range, row_of, rows_of-none, lengths-none}
use thinwallet.Provider.Rows.{Fits, pieces_of, Holds, push_chunk-Holds}

module _ (X : External) (T : PbmoTransport X.Point) where
  open X use {Point, Scalar}

  sent-nil : (t : Option (Token Point)) (row : ℕ) → sent X t row 0 [] ≡ []
  unfolding sent masked mask_from
  sent-nil none row = refl
  sent-nil (some token) row = refl

  start-sums :
      (t : Option (Token Point)) (bases : List Point) (k q : ℕ)
      → GroupLaws X
      → replicate q X.identity ≡ map (row_sum X t bases []) (range k q)
  unfolding range row_sum sent_sum row_of
  start-sums t bases k zero G = refl
  start-sums t bases k (suc q) G =
      ap (λ rest. X.identity ∷ rest) (start-sums t bases (suc k) q G)
      ∙ ap (λ p. p ∷ map (row_sum X t bases []) (range (suc k) q))
          (sym G.msm-nil ∙ ap (λ ss. X.msm ss []) (sym (sent-nil t k)))

  new-Holds :
      (c : PbmoContext) (q m : ℕ) (bases : List Point) (mode : SessionMode Point)
      → GroupLaws X
      → Holds X T q m bases (token_of mode) [] (new_session X T c q m bases mode none)
  unfolding new_session row_of
  new-Holds c q m bases mode G = record {
    rows_q = refl;
    columns_m = refl;
    same_bases = refl;
    same_token = refl;
    local = refl;
    short = λ i. omega arith;
    next_col = lengths-none Scalar q ∙ ap (λ rows. map length rows) (rows_of-none q);
    sums = start-sums (token_of mode) bases 0 q G;
  }

  pub push_all-Holds :
      (q m : ℕ) (bases : List Point) (token : Option (Token Point)) (ps : List (ℕ × List Scalar))
      (pushes : List (Push Scalar)) (s t : Session X T)
      → GroupLaws X
      → m < 2 ^ 32
      → length bases ≡ m
      → All Fits pushes
      → Holds X T q m bases token ps s
      → push_all X T pushes s ≡ (ok tt, t)
      → Holds X T q m bases token (ps ++ pieces_of pushes) t
  unfolding push_all pieces_of
  push_all-Holds q m bases token ps [] s t G small long fits held h =
      subst (λ r. Holds X T q m bases token (ps ++ []) r.1) h
        (subst (λ l. Holds X T q m bases token l s) (sym (append-nil ps)) held)
  push_all-Holds q m bases token ps (p ∷ pushes) s t G small long (fits, later) held h =
      let (_, u, first, h) = after-eq-ok _ (push_chunk X T p s) h in
      let held' = push_chunk-Holds X T q m bases token ps p s u G small long fits held first in
      subst (λ l. Holds X T q m bases token l t)
        (append_assoc ps ((p.row, p.scalars) ∷ []) (pieces_of pushes))
        (push_all-Holds q m bases token (ps ++ (p.row, p.scalars) ∷ []) pushes u t G small long
          later held' h)

  pub start_session-Holds :
      (c : PbmoContext) (q m : ℕ) (bases : List Point) (mode : SessionMode Point) (s : Session X T)
      → GroupLaws X
      → start_session X T c q m bases mode none ≡ (ok tt, s)
      → (length bases ≡ m)
        × Holds X T q m bases (token_of mode) [] s
        × (check_token X c q m (token_of mode) ≡ ok tt)
  unfolding start_session open_transport new_session
  start_session-Holds c q m bases mode s G h =
      let (_, sizes, h) =
        after-lift-ok _
          (reject_if ((q == 0) || (m == 0) || not (length bases == m) || (c.expected_chunks == 0))
            _)
          _ h in
      let (_, _, h) =
        after-lift-ok _ (reject_if (not (c.basis_digest == basis_digest X bases)) _) _ h in
      let (_, checked, h) = after-lift-ok _ (check_token X c q m (token_of mode)) _ h in
      let sizes' = reject_if-eq-ok _ _ sizes in
      let wide : not (length bases == m) ≡ false = ground arith in
      (
        not_eq-false (length bases) m wide,
        subst (λ r. Holds X T q m bases (token_of mode) [] r.1) h (new-Holds c q m bases mode G),
        checked,
      )
