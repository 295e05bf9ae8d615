-- ===== src/Provider/Finalized.antt =====
-- The token of a session that was finalized, and of a provider that began a session
-- (experiments/preprocessed-pbmo/src/provider.rs).
use thinwallet.Prelude.{
  ℕ, List, ◌≡◌, ◌≢◌, refl, sym, ap, ◌∙◌, Bool, true, false, ◌==◌, Option, none, some, if◌then◌else◌,
  eq_refl,
}
use mathlib.Core.Option as Opt
use thinwallet.Prelude.Outcome.{Result, ok, err}
use mathlib.Core.Bool.{true≢false}
use thinwallet.Prelude.Action.{after-lift-keeps}
use thinwallet.Prelude.Bytes.{Bytes}
use thinwallet.External.{External, PbmoContext}
use thinwallet.Token.{Token, reserved, spent, burned}
use thinwallet.Token.Equality.{state_eq}
use thinwallet.Provider.{
  PbmoError, token_error, io, map_err, PbmoTransport, SessionMode, native, plain, semi, malicious,
  token_of, Session,
}
use thinwallet.Provider.Finish.{remove_spool, finish, burn_reserved, abort_transport, drop_session}
use thinwallet.Spool.{SecureDirectory, create}
use thinwallet.Provider.Providers.{
  Provider, take_token, take_transport, descriptor_of, spool_path, begin_semi, begin_malicious,
  finalize,
}
use thinwallet.Provider.Answers.{token_of-remove_spool}
use thinwallet.Provider.Endings.{TokenStateIs, Finishes, finish-Finishes}

module _ (X : External) (T : PbmoTransport X.Point) where
  open X use {Point, Scalar}

  -- After a session is finalized its token is spent if there were outputs, and in any case is not
  -- reserved.
  unfoldable pub Ended : Result PbmoError (List Point) × Session X T → Type 0
  Ended (ok out, s) = TokenStateIs X T (λ state. state ≡ spent) s.mode
  Ended (err e, s) = TokenStateIs X T (λ state. state ≢ reserved) s.mode

  burned-not_reserved : burned ≢ reserved
  burned-not_reserved h = cc

  -- The two modes that `burn_reserved` may give have a token that is not reserved.
  not_reserved :
      (b : Bool) (token t : Token Point) (wrap : Token Point → SessionMode Point)
      → ((u : Token Point) → token_of (wrap u) ≡ some u)
      → (token.state == reserved) ≡ b
      → token_of (if b then wrap (record token { state = burned }) else wrap token) ≡ some t
      → t.state ≢ reserved
  not_reserved true token t wrap inside test h same =
      let is =
        Opt.some-injective (record token { state = burned }) t
          (sym (inside (record token { state = burned })) ∙ h) in
      burned-not_reserved (ap (λ u. u.state) is ∙ same)
  not_reserved false token t wrap inside test h same =
      let is = Opt.some-injective token t (sym (inside token) ∙ h) in
      true≢false (
        sym (eq_refl reserved)
        ∙ ap (λ state. state == reserved) (sym (ap (λ u. u.state) is ∙ same))
        ∙ test)

  burn_reserved-TokenStateIs :
      (mode : SessionMode Point)
      → TokenStateIs X T (λ state. state ≢ reserved) (burn_reserved X T mode)
  unfolding TokenStateIs burn_reserved token_of state_eq
  burn_reserved-TokenStateIs native t h = absurd cc
  burn_reserved-TokenStateIs plain t h = absurd cc
  burn_reserved-TokenStateIs (semi token) t h =
      not_reserved (token.state == reserved) token t semi (λ u. refl) refl h
  burn_reserved-TokenStateIs (malicious token spool) t h =
      not_reserved (token.state == reserved) token t (λ u. malicious u spool) (λ u. refl) refl h

  drop_session-TokenStateIs :
      (s : Session X T)
      → s.finalized ≡ false
      → TokenStateIs X T (λ state. state ≢ reserved) (drop_session X T s).mode
  unfolding TokenStateIs drop_session
  drop_session-TokenStateIs s h = dropped s.finalized h
    where
      dropped :
          (b : Bool)
          → b ≡ false
          → (t : Token Point)
          → token_of
              (if b then s else record s {
                transport = abort_transport X T s.transport;
                mode = (remove_spool X (burn_reserved X T s.mode)).1;
              }).mode
            ≡ some t
          → t.state ≢ reserved
      dropped true h = absurd (true≢false h)
      dropped false h = λ t e.
          burn_reserved-TokenStateIs s.mode t
            (sym (token_of-remove_spool X (burn_reserved X T s.mode)) ∙ e)

  -- Whatever the steps of `finalize` give, the token of the session is spent when outputs are given,
  -- and is no longer reserved when none are.
  pub finalize-Ended :
      (same_point : Point → Point → Bool) (p : Provider Point T.Box) (s : Session X T)
      → s.finalized ≡ false
      → Ended (finalize X T same_point p s)
  unfolding finalize Ended Finishes drop_session
  finalize-Ended same_point p s h =
      by_result (finish X T same_point p.corruption s)
        (finish-Finishes X T same_point p.corruption s h)
    where
      by_result :
          (r : Result PbmoError (List Point) × Session X T)
          → Finishes X T r
          → Ended (r.0, drop_session X T r.1)
      by_result (ok out, t) (done, ended) = rw done ended
      by_result (err e, t) h = drop_session-TokenStateIs t h

  begin_semi-takes :
      (c : PbmoContext) (q m : ℕ) (p : Provider Point T.Box) (o : Option (Token Point))
      → (begin_semi X T c q m (record p { token = o })).1.token ≡ none
  unfolding begin_semi take_token take_transport
  begin_semi-takes c q m p none = refl
  begin_semi-takes c q m p (some token) = refl

  begin_semi-none :
      (c : PbmoContext) (q m : ℕ) (p : Provider Point T.Box) (o : Option (Token Point))
      → o ≡ none
      → (begin_semi X T c q m (record p { token = o })).0
        ≡ err (token_error "token already consumed")
  unfolding begin_semi take_token
  begin_semi-none c q m p none h = refl
  begin_semi-none c q m p (some token) h = absurd (Opt.none-ne-some token (sym h))

  begin_malicious-takes :
      (d : SecureDirectory) (sequence suffix : Bytes) (c : PbmoContext) (q m : ℕ)
      (p : Provider Point T.Box) (o : Option (Token Point))
      → (begin_malicious X T d sequence suffix c q m (record p { token = o })).1.token ≡ none
  unfolding begin_malicious take_token take_transport
  begin_malicious-takes d sequence suffix c q m p none = refl
  begin_malicious-takes d sequence suffix c q m p (some token) =
      let taken = λ (p : Provider Point T.Box). p.token ≡ none in
      after-lift-keeps taken _ (descriptor_of X c q m) _ refl (λ descriptor.
        after-lift-keeps taken _
          (map_err io (create (spool_path X c sequence) suffix descriptor d).0) _ refl
          (λ spool. refl))

  begin_malicious-none :
      (d : SecureDirectory) (sequence suffix : Bytes) (c : PbmoContext) (q m : ℕ)
      (p : Provider Point T.Box) (o : Option (Token Point))
      → o ≡ none
      → (begin_malicious X T d sequence suffix c q m (record p { token = o })).0
        ≡ err (token_error "token already consumed")
  unfolding begin_malicious take_token
  begin_malicious-none d sequence suffix c q m p none h = refl
  begin_malicious-none d sequence suffix c q m p (some token) h =
      absurd (Opt.none-ne-some token (sym h))

  -- A provider of either preprocessed kind that has begun a session, with success or not, begins no
  -- other: the second call fails because the token is taken, whatever its arguments.
  pub begin-once :
      (d d' : SecureDirectory) (sequence sequence' suffix suffix' : Bytes) (c c' : PbmoContext)
      (q m q' m' : ℕ) (p : Provider Point T.Box)
      → ((begin_semi X T c' q' m' (begin_semi X T c q m p).1).0
          ≡ err (token_error "token already consumed"))
        × ((begin_malicious X T d' sequence' suffix' c' q' m'
              (begin_malicious X T d sequence suffix c q m p).1).0
            ≡ err (token_error "token already consumed"))
  begin-once d d' sequence sequence' suffix suffix' c c' q m q' m' p = (
    begin_semi-none c' q' m' (begin_semi X T c q m p).1 _ (begin_semi-takes c q m p p.token),
    begin_malicious-none d' sequence' suffix' c' q' m'
        (begin_malicious X T d sequence suffix c q m p).1 _
        (begin_malicious-takes d sequence suffix c q m p p.token),
  )
