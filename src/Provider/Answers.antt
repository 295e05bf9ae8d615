-- ===== src/Provider/Answers.antt =====
-- What a success of `finish` in experiments/preprocessed-pbmo/src/provider.rs says of its steps.
use thinwallet.Prelude.{
  List, ◌≡◌, refl, sym, ap, ◌∙◌, length, Bool, true, false, not, ◌||◌, any, ◌==◌, nat_eq,
  not_eq-false, Option, none, some, replicate, arith,
}
use thinwallet.Prelude.Outcome.{Result, ok, ok_or, ok_or-eq-ok, ok-injective}
use thinwallet.Prelude.Action.{after-eq-ok, after-lift-ok, after, ok-ne-err}
use thinwallet.Prelude.Bytes.{Bytes}
use thinwallet.External.{External}
use thinwallet.Token.{Token}
use thinwallet.Provider.{
  PbmoError, PbmoTransport, SessionMode, native, plain, semi, malicious, Corruption, token_of,
  output_digest, Session,
}
use thinwallet.Provider.Finish.{
  corrupt, first_base, is_after_challenge, aggregate, recover, seal_spool, remove_spool, on_mode,
  burn_if, collect_outputs, challenges, reject_outputs, aggregate_check, check_outputs,
  recover_outputs, finish,
}

module _ (X : External) where
  open X use {Point, Scalar}

  token_of-seal_spool : (mode : SessionMode Point) → token_of (seal_spool X mode).1 ≡ token_of mode
  unfolding seal_spool token_of
  token_of-seal_spool native = refl
  token_of-seal_spool plain = refl
  token_of-seal_spool (semi token) = refl
  token_of-seal_spool (malicious token spool) = refl

  pub token_of-remove_spool :
      (mode : SessionMode Point) → token_of (remove_spool X mode).1 ≡ token_of mode
  unfolding remove_spool token_of
  token_of-remove_spool native = refl
  token_of-remove_spool plain = refl
  token_of-remove_spool (semi token) = refl
  token_of-remove_spool (malicious token spool) = refl

  -- The outputs without the corrections of the token, if there is one.
  unfoldable pub answer : Option (Token Point) → List Point → List Point
  answer none outputs = outputs
  answer (some token) outputs = recover X outputs token.correction_points

  module _ (T : PbmoTransport Point) where
    -- A chain goes on after a test that burns or that rejects only where the test does not hold.
    after-burn_if :
        {B : Type 0} (f : Unit {0} → Session X T → Result PbmoError B × Session X T) (b : Bool)
        (e : PbmoError) (s : Session X T) {out : B} {t : Session X T}
        → after f (burn_if X T b e s) ≡ (ok out, t)
        → (b ≡ false) × (f tt s ≡ (ok out, t))
    unfolding burn_if
    after-burn_if f true e s h = absurd (ok-ne-err (ap (λ r. r.0) h))
    after-burn_if f false e s h = (refl, h)

    after-reject_outputs :
        {B : Type 0} (f : Unit {0} → Session X T → Result PbmoError B × Session X T) (b : Bool)
        (s : Session X T) {out : B} {t : Session X T}
        → after f (reject_outputs X T b s) ≡ (ok out, t)
        → (b ≡ false) × (f tt s ≡ (ok out, t))
    unfolding reject_outputs
    after-reject_outputs f true s h = absurd (ok-ne-err (ap (λ r. r.0) h))
    after-reject_outputs f false s h = (refl, h)

    -- The equation that the aggregate check has found to hold.
    pub record Balanced (same_point : Point → Point → Bool) (corruption : Option Corruption)
        (token : Token Point) (outputs : List Point) (s : Session X T) : Type 0 where
      pub count : length outputs ≡ s.q
      pub digest : Bytes
      pub transcript : Bytes
      pub spooled : Bytes
      pub sums : List Scalar
      pub bound : output_digest X s.context outputs ≡ ok digest
      pub context_bytes : X.serialize_context s.context ≡ some transcript
      pub sealed : (seal_spool X s.mode).0 ≡ ok spooled
      pub added :
          aggregate X
            (challenges X T transcript token.token_id digest s.q)
            (replicate s.m X.zero_scalar)
            spooled
          ≡ ok sums
      pub equal :
          same_point
            (X.msm sums s.bases)
            (X.msm (challenges X T transcript token.token_id digest s.q) outputs)
          ≡ true
      pub not_corrupted : is_after_challenge X corruption ≡ false

    pub aggregate_check-Balanced :
        (same_point : Point → Point → Bool) (corruption : Option Corruption) (token : Token Point)
        (outputs : List Point) (s t : Session X T) {out : List Point}
        → aggregate_check X T same_point corruption token outputs s ≡ (ok out, t)
        → (out ≡ outputs)
          × (token_of t.mode ≡ token_of s.mode)
          × Balanced same_point corruption token outputs s
    unfolding aggregate_check on_mode
    aggregate_check-Balanced same_point corruption token outputs s t h =
        let (count, h) = after-burn_if _ (not (length outputs == s.q)) _ s h in
        let (digest, bound, h) = after-lift-ok _ (output_digest X s.context outputs) s h in
        let (transcript, written, h) =
          after-lift-ok _ (ok_or _ (X.serialize_context s.context)) s h in
        let sealing = seal_spool X s.mode in
        let sealed_mode : Session X T = record s { mode = sealing.1 } in
        let (spooled, sealed, h) = after-lift-ok _ sealing.0 sealed_mode h in
        let rho = challenges X T transcript token.token_id digest s.q in
        let (sums, added, h) =
          after-lift-ok _ (aggregate X rho (replicate s.m X.zero_scalar) spooled) sealed_mode h in
        let same = same_point (X.msm sums s.bases) (X.msm rho outputs) in
        let (passed, h) =
          after-reject_outputs _ (not same || is_after_challenge X corruption) sealed_mode h in
        let removing = remove_spool X sealing.1 in
        let (_, _, h) = after-lift-ok _ removing.0 (record s { mode = removing.1 }) h in
        (
          ok-injective (sym (ap (λ r. r.0) h)),
          sym (ap (λ r. token_of r.1.mode) h)
              ∙ token_of-remove_spool sealing.1
              ∙ token_of-seal_spool s.mode,
          record {
            count = not_eq-false (length outputs) s.q count;
            digest = digest;
            transcript = transcript;
            spooled = spooled;
            sums = sums;
            bound = bound;
            context_bytes = ok_or-eq-ok _ (X.serialize_context s.context) written;
            sealed = sealed;
            added = added;
            equal = ground arith;
            not_corrupted = ground arith;
          },
        )

    -- What the outputs that are checked owe to the check, in each mode.
    unfoldable pub Checked :
        (Point → Point → Bool)
        → Option Corruption
        → SessionMode Point
        → List Point
        → Session X T
        → Type 0
    Checked same_point corruption native outputs s = Unit
    Checked same_point corruption plain outputs s = Unit
    Checked same_point corruption (semi token) outputs s = Unit
    Checked same_point corruption (malicious token spool) outputs s =
        Balanced same_point corruption token outputs s

    check_outputs-Checked :
        (same_point : Point → Point → Bool) (corruption : Option Corruption)
        (mode : SessionMode Point) (outputs : List Point) (s t : Session X T) {out : List Point}
        → check_outputs X T same_point corruption mode outputs s ≡ (ok out, t)
        → (out ≡ outputs)
          × (token_of t.mode ≡ token_of s.mode)
          × Checked same_point corruption mode outputs s
    unfolding check_outputs Checked
    check_outputs-Checked same_point corruption native outputs s t h =
        (ok-injective (sym (ap (λ r. r.0) h)), sym (ap (λ r. token_of r.1.mode) h), tt)
    check_outputs-Checked same_point corruption plain outputs s t h =
        (ok-injective (sym (ap (λ r. r.0) h)), sym (ap (λ r. token_of r.1.mode) h), tt)
    check_outputs-Checked same_point corruption (semi token) outputs s t h =
        (ok-injective (sym (ap (λ r. r.0) h)), sym (ap (λ r. token_of r.1.mode) h), tt)
    check_outputs-Checked same_point corruption (malicious token spool) outputs s t h =
        aggregate_check-Balanced same_point corruption token outputs s t h

    recover_outputs-answer :
        (token : Option (Token Point)) (outputs : List Point) (s t : Session X T) {out : List Point}
        → recover_outputs X T token outputs s ≡ (ok out, t)
        → out ≡ answer token outputs
    unfolding recover_outputs answer
    recover_outputs-answer none outputs s t h = ok-injective (sym (ap (λ r. r.0) h))
    recover_outputs-answer (some token) outputs s t h = ok-injective (sym (ap (λ r. r.0) h))

    -- The steps of a `finish` that has succeeded.
    pub record Finished (same_point : Point → Point → Bool) (corruption : Option Corruption)
        (out : List Point) (s : Session X T) : Type 0 where
      pub complete : any (λ col. not (col == s.m)) s.next_col ≡ false
      pub received : List Point
      pub after_upload : Session X T
      pub collected : collect_outputs X T s.transport s ≡ (ok received, after_upload)
      pub checked :
          Checked same_point corruption after_upload.mode
            (corrupt X corruption (first_base X s.bases) received)
            after_upload
      pub recovered :
          out
          ≡ answer
              (token_of after_upload.mode)
              (corrupt X corruption (first_base X s.bases) received)

    pub finish-Finished :
        (same_point : Point → Point → Bool) (corruption : Option Corruption) (s t : Session X T)
        {out : List Point}
        → finish X T same_point corruption s ≡ (ok out, t)
        → Finished same_point corruption out s
    unfolding finish
    finish-Finished same_point corruption s t {out} h =
        let (complete, h) = after-burn_if _ (any (λ col. not (col == s.m)) s.next_col) _ s h in
        let (received, u, collected, h) = after-eq-ok _ (collect_outputs X T s.transport s) h in
        let outputs = corrupt X corruption (first_base X s.bases) received in
        let (checked, v, passed, h) =
          after-eq-ok _ (check_outputs X T same_point corruption u.mode outputs u) h in
        let (kept, token, balanced) =
          check_outputs-Checked same_point corruption u.mode outputs u v passed in
        let (recovered, w, answered, h) =
          after-eq-ok _ (recover_outputs X T (token_of v.mode) checked v) h in
        record {
          complete = complete;
          received = received;
          after_upload = u;
          collected = collected;
          checked = balanced;
          recovered =
              ok-injective (sym (ap (λ r. r.0) h))
              ∙ recover_outputs-answer (token_of v.mode) checked v w answered
              ∙ ap (λ t. answer t checked) token
              ∙ ap (λ os. answer (token_of u.mode) os) kept;
        }
