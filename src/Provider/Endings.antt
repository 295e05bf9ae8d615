-- ===== src/Provider/Endings.antt =====
-- What is left of a session when it is finalized or dropped
-- (experiments/preprocessed-pbmo/src/provider.rs).
use thinwallet.Prelude.{
  List, ◌≡◌, refl, sym, ap, ◌∙◌, Bool, true, false, nat_eq, Option, none, some,
}
use mathlib.Core.Option as Opt
use thinwallet.Prelude.Outcome.{Result, ok, err}
use thinwallet.Prelude.Action.{after, lift, gets, pure, modify, ◌>>=◌, ◌>>◌}
use thinwallet.External.{External}
use thinwallet.Token.{Token, TokenState, spent}
use thinwallet.Token.Equality.{state_eq}
use thinwallet.Provider.{
  PbmoError, PbmoTransport, SessionMode, native, plain, semi, malicious, Corruption, token_of,
  with_token_state, Session, OnSession, on_transport,
}
use thinwallet.Provider.Finish.{
  corrupt, first_base, on_mode, burn_session, burn_if, collect_outputs, reject_outputs,
  aggregate_check, check_outputs, recover_outputs, finish,
}

module _ (X : External) (T : PbmoTransport X.Point) where
  open X use {Point, Scalar}

  -- An action after which a session that was not finalized is not, whatever the action gives.
  record LeavesOpen {A : Type 0} (m : OnSession X T A) : Type 0 where
    still_open : (s : Session X T) → s.finalized ≡ false → (m s).1.finalized ≡ false

  LeavesOpen-bind :
      {A B : Type 0} (m : OnSession X T A) (f : A → OnSession X T B)
      → LeavesOpen m
      → ((a : A) → LeavesOpen (f a))
      → LeavesOpen (m >>= f)
  LeavesOpen-bind {A} m f hm hf = record { still_open = λ s h. by_result (m s) (hm.still_open s h) }
    where
      by_result :
          (r : Result PbmoError A × Session X T)
          → r.1.finalized ≡ false
          → (after f r).1.finalized ≡ false
      by_result (ok a, t) h = (hf a).still_open t h
      by_result (err e, t) h = h

  LeavesOpen-lift : {A : Type 0} (r : Result PbmoError A) → LeavesOpen (lift r)
  LeavesOpen-lift r = record { still_open = λ s h. h }

  LeavesOpen-gets : {A : Type 0} (f : Session X T → A) → LeavesOpen (gets f)
  LeavesOpen-gets f = record { still_open = λ s h. h }

  LeavesOpen-on_mode :
      {A : Type 0} (f : SessionMode Point → Result PbmoError A × SessionMode Point)
      → LeavesOpen (on_mode X T f)
  unfolding on_mode
  LeavesOpen-on_mode f = record { still_open = λ s h. h }

  LeavesOpen-burn_if : (b : Bool) (e : PbmoError) → LeavesOpen (burn_if X T b e)
  unfolding burn_if burn_session
  LeavesOpen-burn_if true e = record { still_open = λ s h. h }
  LeavesOpen-burn_if false e = record { still_open = λ s h. h }

  LeavesOpen-reject_outputs : (b : Bool) → LeavesOpen (reject_outputs X T b)
  unfolding reject_outputs burn_session on_mode
  LeavesOpen-reject_outputs true = record { still_open = λ s h. h }
  LeavesOpen-reject_outputs false = record { still_open = λ s h. h }

  LeavesOpen-collect_outputs : (box : Option T.Box) → LeavesOpen (collect_outputs X T box)
  unfolding collect_outputs on_transport
  LeavesOpen-collect_outputs none = LeavesOpen-gets (λ s. s.accumulators)
  LeavesOpen-collect_outputs (some box) =
      LeavesOpen-bind (on_transport X T (T.finish_request >>= λ _. T.receive_response) box) _
        (record { still_open = λ s h. h })
        (λ response. search (LeavesOpen-bind, LeavesOpen-lift, LeavesOpen-gets) depth 9)

  LeavesOpen-aggregate_check :
      (same_point : Point → Point → Bool) (corruption : Option Corruption) (token : Token Point)
      (outputs : List Point)
      → LeavesOpen (aggregate_check X T same_point corruption token outputs)
  unfolding aggregate_check
  LeavesOpen-aggregate_check same_point corruption token outputs =
      search
        (
          LeavesOpen-bind, LeavesOpen-lift, LeavesOpen-gets, LeavesOpen-on_mode, LeavesOpen-burn_if,
          LeavesOpen-reject_outputs,
        )
        depth 20

  LeavesOpen-check_outputs :
      (same_point : Point → Point → Bool) (corruption : Option Corruption)
      (mode : SessionMode Point) (outputs : List Point)
      → LeavesOpen (check_outputs X T same_point corruption mode outputs)
  unfolding check_outputs
  LeavesOpen-check_outputs same_point corruption native outputs = LeavesOpen-lift (ok outputs)
  LeavesOpen-check_outputs same_point corruption plain outputs = LeavesOpen-lift (ok outputs)
  LeavesOpen-check_outputs same_point corruption (semi token) outputs = LeavesOpen-lift (ok outputs)
  LeavesOpen-check_outputs same_point corruption (malicious token spool) outputs =
      LeavesOpen-aggregate_check same_point corruption token outputs

  -- The token of a mode has a state like this.
  unfoldable pub TokenStateIs : (TokenState → Type 0) → SessionMode Point → Type 0
  TokenStateIs P mode = (t : Token Point) → token_of mode ≡ some t → P t.state

  -- A `finish` that gives outputs has finalized the session and spent the token; one that fails has
  -- not finalized it.
  unfoldable pub Finishes : {A : Type 0} → Result PbmoError A × Session X T → Type 0
  Finishes (ok a, s) = (s.finalized ≡ true) × TokenStateIs (λ state. state ≡ spent) s.mode
  Finishes (err e, s) = s.finalized ≡ false

  Finishes-bind :
      {A B : Type 0} (m : OnSession X T A) (f : A → OnSession X T B) (s : Session X T)
      → LeavesOpen m
      → s.finalized ≡ false
      → ((a : A) (t : Session X T) → t.finalized ≡ false → Finishes (f a t))
      → Finishes ((m >>= f) s)
  unfolding Finishes
  Finishes-bind {A} m f s hm h hf = by_result (m s) (hm.still_open s h)
    where
      by_result :
          (r : Result PbmoError A × Session X T) → r.1.finalized ≡ false → Finishes (after f r)
      by_result (ok a, t) h = hf a t h
      by_result (err e, t) h = h

  spent-TokenStateIs :
      (mode : SessionMode Point)
      → TokenStateIs (λ state. state ≡ spent) (with_token_state spent mode)
  unfolding TokenStateIs with_token_state token_of
  spent-TokenStateIs native t h = absurd cc
  spent-TokenStateIs plain t h = absurd cc
  spent-TokenStateIs (semi token) t h = ap (λ t. t.state) (sym (Opt.some-injective _ t h))
  spent-TokenStateIs (malicious token spool) t h =
      ap (λ t. t.state) (sym (Opt.some-injective _ t h))

  recovered-Finishes :
      (token : Option (Token Point)) (outputs : List Point) (s : Session X T)
      → token_of s.mode ≡ token
      → Finishes (
          (recover_outputs X T token outputs >>= λ recovered.
          modify (λ s. record s { finalized = true }) >> pure recovered)
            s)
  unfolding Finishes recover_outputs TokenStateIs
  recovered-Finishes none outputs s h = (refl, λ t e. absurd (Opt.none-ne-some t (sym h ∙ e)))
  recovered-Finishes (some token) outputs s h = (refl, spent-TokenStateIs s.mode)

  pub finish-Finishes :
      (same_point : Point → Point → Bool) (corruption : Option Corruption) (s : Session X T)
      → s.finalized ≡ false
      → Finishes (finish X T same_point corruption s)
  unfolding finish
  finish-Finishes same_point corruption s h =
      Finishes-bind (burn_if X T _ _) _ s (LeavesOpen-burn_if _ _) h (λ u s1 h1.
        Finishes-bind (collect_outputs X T s.transport) _ s1
          (LeavesOpen-collect_outputs s.transport) h1
          (λ received s2 h2.
            Finishes-bind
              (check_outputs X T same_point corruption s2.mode
                (corrupt X corruption (first_base X s.bases) received))
              _ s2 (LeavesOpen-check_outputs same_point corruption s2.mode _) h2
              (λ checked s3 h3. recovered-Finishes (token_of s3.mode) checked s3 refl)))
