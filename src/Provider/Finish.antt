-- ===== src/Provider/Finish.antt =====
-- `finish` and the drop of a session of experiments/preprocessed-pbmo/src/provider.rs.
use thinwallet.Prelude.{
  ℕ, ◌%◌, ◌^◌, Bool, true, false, not, ◌||◌, Option, none, some, List, [], ◌∷◌, any, map, length,
  take, drop, ltb, replicate, ◌==◌, nat_eq, bytes_eq, if◌then◌else◌,
}
use thinwallet.Prelude.Outcome.{Result, ok, err, reject_if, ok_or}
use thinwallet.Prelude.Outcome
use thinwallet.Prelude.Action.{pure, lift, gets, modify, ◌>>=◌, ◌>>◌}
use thinwallet.Prelude.Bytes.{Bytes}
use thinwallet.External.{External}
use thinwallet.Token.{Token, reserved, spent, burned}
use thinwallet.Token.Equality.{state_eq}
use thinwallet.Field.{derive_batch_challenge}
use thinwallet.Spool.{ErrorKind, os_error, seal_and_open_verified, remove}
use thinwallet.Wire.Server.Rows.{range}
use thinwallet.Provider.{
  PbmoError, stream_error, integrity, serialization, io, PbmoTransport, SessionMode, native, plain,
  semi, malicious, Corruption, one_output, correlated_outputs, reorder, omit, duplicate,
  after_challenge, replayed_vector, cross_session_swap, token_of, with_token_state, map_err,
  output_digest, Session, OnSession, on_transport,
}

module _ (X : External) where
  open X use {Point, Scalar}

  -- `outputs[0] += p` and `outputs[1] -= p`
  unfoldable pub add_first : Point → List Point → List Point
  add_first p [] = []
  add_first p (o ∷ os) = X.add_point o p ∷ os

  unfoldable pub sub_second : Point → List Point → List Point
  sub_second p [] = []
  sub_second p (o ∷ []) = o ∷ []
  sub_second p (o ∷ o' ∷ os) = o ∷ X.sub_point o' p ∷ os

  unfoldable pub swap_first : List Point → List Point
  swap_first [] = []
  swap_first (o ∷ []) = o ∷ []
  swap_first (o ∷ o' ∷ os) = o' ∷ o ∷ os

  unfoldable pub copy_first : List Point → List Point
  copy_first [] = []
  copy_first (o ∷ []) = o ∷ []
  copy_first (o ∷ o' ∷ os) = o ∷ o ∷ os

  unfoldable pub pop_last : List Point → List Point
  pop_last [] = []
  pop_last (o ∷ []) = []
  pop_last (o ∷ o' ∷ os) = o ∷ pop_last (o' ∷ os)

  unfoldable pub first_base : List Point → Point
  first_base [] = X.identity
  first_base (b ∷ bs) = b

  -- The corruptions that a provider can be made to apply to its outputs, by a base.
  unfoldable pub corrupt : Option Corruption → Point → List Point → List Point
  corrupt none b os = os
  corrupt (some one_output) b os = add_first b os
  corrupt (some correlated_outputs) b os =
      if ltb 1 (length os) then sub_second b (add_first b os) else os
  corrupt (some reorder) b os = swap_first os
  corrupt (some omit) b os = pop_last os
  corrupt (some duplicate) b os = copy_first os
  corrupt (some after_challenge) b os = os
  corrupt (some replayed_vector) b os = replicate (length os) X.identity
  corrupt (some cross_session_swap) b os = add_first b os

  unfoldable pub is_after_challenge : Option Corruption → Bool
  is_after_challenge (some after_challenge) = true
  is_after_challenge (some one_output) = false
  is_after_challenge (some correlated_outputs) = false
  is_after_challenge (some reorder) = false
  is_after_challenge (some omit) = false
  is_after_challenge (some duplicate) = false
  is_after_challenge (some replayed_vector) = false
  is_after_challenge (some cross_session_swap) = false
  is_after_challenge none = false

  -- The inner loop over the spool: each element of `a` gets `rho` times the next scalar.
  unfoldable pub aggregate_row :
      Scalar → List Scalar → Bytes → Result PbmoError (List Scalar × Bytes)
  aggregate_row rho [] b = ok ([], b)
  aggregate_row rho (a ∷ rest) b =
      Outcome.◌>>◌ (reject_if (ltb (length b) 32) (io (os_error ErrorKind.unexpected_eof))) (
        Outcome.◌>>=◌
          (ok_or (stream_error "non-canonical spool scalar")
            (X.scalar_from_canonical_bytes (take 32 b)))
          λ value.
            Outcome.◌>>=◌ (aggregate_row rho rest (drop 32 b))
              λ r. ok (X.add_scalar a (X.mul_scalar rho value) ∷ r.0, r.1))

  unfoldable pub aggregate : List Scalar → List Scalar → Bytes → Result PbmoError (List Scalar)
  aggregate [] a b = ok a
  aggregate (rho ∷ rhos) a b = Outcome.◌>>=◌ (aggregate_row rho a b) λ r. aggregate rhos r.0 r.1

  -- `outputs.iter_mut().zip(corrections)`
  unfoldable pub recover : List Point → List Point → List Point
  recover [] cs = []
  recover (o ∷ os) [] = o ∷ os
  recover (o ∷ os) (c ∷ cs) = X.sub_point o c ∷ recover os cs

  -- The spool of a session that has one.
  unfoldable pub seal_spool : SessionMode Point → Result PbmoError Bytes × SessionMode Point
  seal_spool (malicious token spool) =
      let r = seal_and_open_verified X spool in (map_err io r.0, malicious token r.1)
  seal_spool native = (err integrity, native)
  seal_spool plain = (err integrity, plain)
  seal_spool (semi token) = (err integrity, semi token)

  unfoldable pub remove_spool : SessionMode Point → Result PbmoError (Unit {0}) × SessionMode Point
  remove_spool (malicious token spool) =
      let r = remove spool in (map_err io r.0, malicious token r.1)
  remove_spool native = (ok tt, native)
  remove_spool plain = (ok tt, plain)
  remove_spool (semi token) = (ok tt, semi token)

  module _ (T : PbmoTransport Point) where
    unfoldable pub on_mode :
        {A : Type 0}
        → (SessionMode Point → Result PbmoError A × SessionMode Point)
        → OnSession X T A
    on_mode f s = let r = f s.mode in (r.0, record s { mode = r.1 })

    unfoldable pub burn_session : Session X T → Session X T
    burn_session s = record s { mode = with_token_state burned s.mode }

    -- A test that burns the token where it fails.
    unfoldable pub burn_if : Bool → PbmoError → OnSession X T (Unit {0})
    burn_if test e s = if test then (err e, burn_session s) else (ok tt, s)

    -- What the server gives: the response of the transport, or the sums made here.
    unfoldable pub collect_outputs : Option T.Box → OnSession X T (List Point)
    collect_outputs none = gets (λ s. s.accumulators)
    collect_outputs (some box) = do
      response ← on_transport X T (T.finish_request >>= λ _. T.receive_response) box
      q ← gets (λ s. s.q)
      lift (
          reject_if (not (length response.1 == q))
            (stream_error "transport returned wrong output count"))
      pure response.1

    unfoldable pub challenges : Bytes → Bytes → Bytes → ℕ → List Scalar
    challenges transcript token_id digest q =
        map (λ row. derive_batch_challenge X transcript token_id digest (row % 2 ^ 32)) (range 0 q)

    -- A check that fails burns the token and removes the spool, whatever that gives.
    unfoldable pub reject_outputs : Bool → OnSession X T (Unit {0})
    reject_outputs false s = (ok tt, s)
    reject_outputs true s = (err integrity, (on_mode remove_spool (burn_session s)).1)

    -- The aggregate check of a malicious session; `same_point` is the equality of points.
    unfoldable pub aggregate_check :
        (Point → Point → Bool)
        → Option Corruption
        → Token Point
        → List Point
        → OnSession X T (List Point)
    aggregate_check same_point corruption token outputs = do
      s ← gets (λ s. s)
      burn_if (not (length outputs == s.q)) integrity
      digest ← lift (output_digest X s.context outputs)
      transcript ← lift (ok_or serialization (X.serialize_context s.context))
      let rho = challenges transcript token.token_id digest s.q
      let y_rho = X.msm rho outputs
      spooled ← on_mode seal_spool
      a ← lift (aggregate rho (replicate s.m X.zero_scalar) spooled)
      let t = X.msm a s.bases
      reject_outputs (not (same_point t y_rho) || is_after_challenge corruption)
      on_mode remove_spool
      pure outputs

    unfoldable pub check_outputs :
        (Point → Point → Bool)
        → Option Corruption
        → SessionMode Point
        → List Point
        → OnSession X T (List Point)
    check_outputs same_point corruption native outputs = pure outputs
    check_outputs same_point corruption plain outputs = pure outputs
    check_outputs same_point corruption (semi token) outputs = pure outputs
    check_outputs same_point corruption (malicious token spool) outputs =
        aggregate_check same_point corruption token outputs

    -- The corrections are taken off, and the token is spent.
    unfoldable pub recover_outputs : Option (Token Point) → List Point → OnSession X T (List Point)
    recover_outputs none outputs = pure outputs
    recover_outputs (some token) outputs = do
      modify (λ s. record s { mode = with_token_state spent s.mode })
      pure (recover outputs token.correction_points)

    unfoldable pub finish : (Point → Point → Bool) → Option Corruption → OnSession X T (List Point)
    finish same_point corruption = do
      s ← gets (λ s. s)
      burn_if (any (λ col. not (col == s.m)) s.next_col) (stream_error "omitted row data")
      received ← collect_outputs s.transport
      let outputs = corrupt corruption (first_base s.bases) received
      s ← gets (λ s. s)
      checked ← check_outputs same_point corruption s.mode outputs
      s ← gets (λ s. s)
      recovered ← recover_outputs (token_of s.mode) checked
      modify (λ s. record s { finalized = true })
      pure recovered

    -- `token.state` when a session is dropped: a token that is still reserved is burned.
    unfoldable pub burn_reserved : SessionMode Point → SessionMode Point
    burn_reserved native = native
    burn_reserved plain = plain
    burn_reserved (semi token) =
        if token.state == reserved then semi (record token { state = burned }) else semi token
    burn_reserved (malicious token spool) =
        if token.state == reserved
        then malicious (record token { state = burned }) spool
        else malicious token spool

    unfoldable pub abort_transport : Option T.Box → Option T.Box
    abort_transport none = none
    abort_transport (some box) = some (T.abort_session box).1

    -- `Drop for PbmoSession`
    unfoldable pub drop_session : Session X T → Session X T
    drop_session s = if s.finalized then s else record s {
      transport = abort_transport s.transport;
      mode = (remove_spool (burn_reserved s.mode)).1;
    }
