-- ===== src/Provider/Soundness.antt =====
-- The answers that a session of the malicious mode accepts
-- (experiments/preprocessed-pbmo/src/provider.rs).
use thinwallet.Prelude.{
  ℕ, List, [], ◌^◌, ◌<◌, ◌≡◌, sym, ap, subst, ◌∙◌, length, map, Bool, true, Option, some, All,
  arith, replicate, length-map, length-replicate,
}
use thinwallet.Prelude.Outcome.{ok, ok-injective}
use thinwallet.Prelude.Bytes.{Bytes}
use thinwallet.External.{External, GroupLaws, ScalarLaws, PbmoContext}
use thinwallet.Token.{Token}
use thinwallet.Token.Generate.{domain_metadata, corrections}
use thinwallet.Spool.{SecureSpool}
use thinwallet.Spool.Contents.{Writable}
use thinwallet.Wire.Server.Rows.{range}
use thinwallet.Provider.{
  PbmoTransport, malicious, Corruption, token_of, output_digest, Session, start_session,
}
use thinwallet.Provider.Finish.{recover, corrupt, first_base, aggregate, challenges, finish}
use thinwallet.Provider.Providers.{push_all}
use thinwallet.Provider.Aggregate.{aggregate-sums, msm-zeros}
use thinwallet.Provider.Answers.{answer, Balanced, Checked, finish-Finished}
use thinwallet.Provider.Products.{Prepared, Sized, check_token-Sized}
use thinwallet.Provider.Spooled.{
  sent_bytes, Spools, start-Spools, push_all-Spools, collect_outputs-Spools, seal_spool-Spools,
}
use thinwallet.Provider.Combination.{
  join, row_pushes, length-range, add_all, masked_rows, sent_bytes-rows, length-masked_rows,
  masked_rows-whole, masked_rows-products,
}

module _ (X : External) where
  open X use {Point, Scalar}

  -- The answer comes from outputs which agree with the products of the rows, corrections included,
  -- in the combination by the challenges that are derived from the digest of these outputs.
  pub record Combined (T : PbmoTransport Point) (c : PbmoContext) (q : ℕ) (bases : List Point)
      (token : Token Point) (rows : List (List (List Scalar))) (out : List Point) : Type 0 where
    pub outputs : List Point
    pub digest : Bytes
    pub transcript : Bytes
    pub count : length outputs ≡ q
    pub bound : output_digest X c outputs ≡ ok digest
    pub context_bytes : X.serialize_context c ≡ some transcript
    pub recovered : out ≡ recover X outputs token.correction_points
    pub combination :
        X.msm (challenges X T transcript token.token_id digest q) outputs
        ≡ X.msm
            (challenges X T transcript token.token_id digest q)
            (add_all X (map (λ chunks. X.msm (join chunks) bases) rows) token.correction_points)

  module _ (T : PbmoTransport Point) where
    length-challenges :
        (transcript token_id digest : Bytes) (q : ℕ)
        → length (challenges X T transcript token_id digest q) ≡ q
    unfolding challenges
    length-challenges transcript token_id digest q = length-map _ (range 0 q) ∙ length-range 0 q

    -- The aggregate of the spool gives the combination of the products of what was sent.
    aggregate-products :
        (token : Token Point) (m : ℕ) (bases : List Point) (rows : List (List (List Scalar)))
        (rho : List Scalar) {sums : List Scalar}
        → GroupLaws X
        → ScalarLaws X
        → length rho ≡ length rows
        → length bases ≡ m
        → All (λ chunks. length (join chunks) ≡ m) rows
        → aggregate X rho (replicate m X.zero_scalar) (sent_bytes X token (row_pushes 0 rows))
          ≡ ok sums
        → X.msm sums bases ≡ X.msm rho (map (λ row. X.msm row bases) (masked_rows X token 0 rows))
    aggregate-products token m bases rows rho G S count long full h =
        let (sums', runs, product) =
          aggregate-sums X rho (replicate m X.zero_scalar) (masked_rows X token 0 rows) bases G S
            (count ∙ sym (length-masked_rows X token 0 rows))
            (length-replicate m X.zero_scalar ∙ sym long)
            (subst (λ n. All (λ row. length row ≡ n) (masked_rows X token 0 rows)) (sym long)
              (masked_rows-whole X token 0 m rows full)) in
        let same = ok-injective (
          sym h
          ∙ ap (aggregate X rho (replicate m X.zero_scalar)) (sent_bytes-rows X token 0 rows)
          ∙ runs) in
        ap (λ a. X.msm a bases) same
        ∙ product
        ∙ ap
            (λ p.
              X.add_point p (X.msm rho (map (λ row. X.msm row bases) (masked_rows X token 0 rows))))
            (msm-zeros X m bases G (sym long))
        ∙ G.identity-add _

    -- The corrections of a prepared token, at the dimensions of the session.
    corrections_of_session :
        (token : Token Point) (q m : ℕ) (bases : List Point)
        → Prepared X bases (some token)
        → Sized X q m (some token)
        → token.correction_points
          ≡ corrections X token.seed (domain_metadata token.binding token.token_id) bases m 0 q
    unfolding Prepared Sized
    corrections_of_session token q m bases prepared (same_q, same_m) =
        let meta = domain_metadata token.binding token.token_id in
        prepared
        ∙ ap (λ n. corrections X token.seed meta bases n 0 token.binding.q) same_m
        ∙ ap (λ n. corrections X token.seed meta bases m 0 n) same_q

    Balanced-Combined :
        (same_point : Point → Point → Bool) (corruption : Option Corruption) (c : PbmoContext)
        (q m : ℕ) (bases : List Point) (token : Token Point) (rows : List (List (List Scalar)))
        (v : Session X T) (out outputs : List Point)
        → GroupLaws X
        → ScalarLaws X
        → ((a b : Point) → same_point a b ≡ true → a ≡ b)
        → q < 2 ^ 32
        → m < 2 ^ 32
        → length bases ≡ m
        → length rows ≡ q
        → All (λ chunks. length (join chunks) ≡ m) rows
        → token.correction_points
          ≡ corrections X token.seed (domain_metadata token.binding token.token_id) bases m 0 q
        → Spools X T c q m bases token (sent_bytes X token (row_pushes 0 rows)) v
        → Balanced X T same_point corruption token outputs v
        → out ≡ recover X outputs token.correction_points
        → Combined T c q bases token rows out
    Balanced-Combined same_point corruption c q m bases token rows v out outputs G S equal few
          columns long count full prepared held b recovered =
        let content = sent_bytes X token (row_pushes 0 rows) in
        let rho = challenges X T b.transcript token.token_id b.digest q in
        let same = seal_spool-Spools X T c q m bases token content b.spooled v held b.sealed in
        let added : aggregate X rho (replicate m X.zero_scalar) content ≡ ok b.sums =
          rw (sym held.rows_q, sym held.columns_m, sym same) b.added in
        let sent_products =
          aggregate-products token m bases rows rho G S
            (length-challenges b.transcript token.token_id b.digest q ∙ sym count) long full
            added in
        let products =
          masked_rows-products X token bases m 0 rows G (omega arith) columns long full
          ∙ ap (add_all X (map (λ chunks. X.msm (join chunks) bases) rows)) (
              ap (corrections X token.seed (domain_metadata token.binding token.token_id) bases m 0)
                count
              ∙ sym prepared) in
        record {
          outputs = outputs;
          digest = b.digest;
          transcript = b.transcript;
          count = b.count ∙ held.rows_q;
          bound = subst (λ d. output_digest X d outputs ≡ ok b.digest) held.context_c b.bound;
          context_bytes =
              subst (λ d. X.serialize_context d ≡ some b.transcript) held.context_c b.context_bytes;
          recovered = recovered;
          combination =
              ap (λ n. X.msm (challenges X T b.transcript token.token_id b.digest n) outputs)
                (sym held.rows_q)
              ∙ sym (equal _ _ b.equal)
              ∙ ap (λ bs. X.msm b.sums bs) held.same_bases
              ∙ sent_products
              ∙ ap (X.msm rho) products;
        }

    -- A session of the malicious mode, with dimensions below 2^32, with any transport or none and with
    -- any corruption, whose token has the corrections of its seed over the bases, that is started with
    -- a spool that is empty and open, given the chunks of `q` rows of `m` scalars, row
    -- by row, and finished, every step with success, has an answer that comes from `q` outputs whose
    -- combination by the challenges is that of the products of the rows with the token's
    -- corrections; the challenges are derived from the digest of those outputs, and the answer is the
    -- outputs without the corrections.
    pub accepted-Combined :
        (same_point : Point → Point → Bool) (corruption : Option Corruption) (c : PbmoContext)
        (q m : ℕ) (bases : List Point) (token : Token Point) (spool : SecureSpool)
        (box : Option T.Box) (rows : List (List (List Scalar))) (s t u : Session X T)
        (out : List Point)
        → GroupLaws X
        → ScalarLaws X
        → ((a b : Point) → same_point a b ≡ true → a ≡ b)
        → q < 2 ^ 32
        → m < 2 ^ 32
        → Prepared X bases (some token)
        → Writable [] spool
        → length rows ≡ q
        → All (λ chunks. length (join chunks) ≡ m) rows
        → start_session X T c q m bases (malicious token spool) box ≡ (ok tt, s)
        → push_all X T (row_pushes 0 rows) s ≡ (ok tt, t)
        → finish X T same_point corruption t ≡ (ok out, u)
        → Combined T c q bases token rows out
    unfolding Checked answer token_of
    accepted-Combined same_point corruption c q m bases token spool box rows s t u out G S equal few
          columns prepared ready count full started pushed finished =
        let (long, checked, held) =
          start-Spools X T c q m bases token spool [] box s ready started in
        let content = sent_bytes X token (row_pushes 0 rows) in
        let held' = push_all-Spools X T c q m bases token [] (row_pushes 0 rows) s t held pushed in
        let f = finish-Finished X T same_point corruption t u finished in
        let outputs = corrupt X corruption (first_base X t.bases) f.received in
        let after =
          collect_outputs-Spools X T c q m bases token content t f.after_upload held' f.collected in
        let balanced : Balanced X T same_point corruption token outputs f.after_upload =
          subst (λ mode. Checked X T same_point corruption mode outputs f.after_upload) after.mode
            f.checked in
        let sized = check_token-Sized X c q m (some token) few columns checked in
        Balanced-Combined same_point corruption c q m bases token rows f.after_upload out outputs G
          S equal few columns long count full
          (corrections_of_session token q m bases prepared sized) after balanced
          (f.recovered ∙ ap (λ mode. answer X (token_of mode) outputs) after.mode)
