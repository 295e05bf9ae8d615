-- ===== src/Provider/Providers.antt =====
-- The implementations of `PreprocessedPbmoProvider` in experiments/preprocessed-pbmo/src/provider.rs.
-- The directory of the spools and the texts of the counters in their names are arguments.
use thinwallet.Prelude.{ℕ, ◌*◌, ◌^◌, Bool, Option, none, List, [], ◌∷◌, ◌++◌, take, ltb, not}
use thinwallet.Prelude.Outcome
use thinwallet.Prelude.Outcome.{Result, ok, err, reject_if, ok_or}
use thinwallet.Prelude.Action.{Action, pure, lift, gets, ◌>>=◌, ◌>>◌}
use thinwallet.Prelude.Bytes.{Bytes, text}
use thinwallet.External.{External, PbmoContext}
use thinwallet.Token.{Token}
use thinwallet.Field.{digest32}
use thinwallet.Spool.{SpoolDescriptor, SecureDirectory, create}
use thinwallet.Wire.Messages.{hex}
use thinwallet.Provider.{
  PbmoError, context_error, token_error, io, PbmoTransport, native, plain, semi, malicious,
  Corruption, map_err, context_binding_digest, Session, start_session,
}
use thinwallet.Provider.Stream.{Push, push_chunk}
use thinwallet.Provider.Finish.{finish, drop_session}

-- The fields of the providers; the first two have no token, transport or corruption.
pub record Provider (Point Box : Type 0) : Type 0 where
  pub bases : List Point
  pub token : Option (Token Point)
  pub corruption : Option Corruption
  pub transport : Option Box

module _ (X : External) where
  open X use {Point, Scalar}

  -- `spool_path`, without the directory.
  unfoldable pub spool_path : PbmoContext → Bytes → Bytes
  spool_path c sequence =
      let digest =
        digest32 X (text "thinwallet/preprocessed-pbmo/spool-name/v2")
          (c.session_id ∷ c.proof_id ∷ []) in
      text "pbmo-" ++ (hex (take 12 digest) ++ (text "-" ++ (sequence ++ text ".spool")))

  unfoldable pub descriptor_of : PbmoContext → ℕ → ℕ → Result PbmoError SpoolDescriptor
  descriptor_of c q m = Outcome.◌>>=◌ (context_binding_digest X c q m) λ digest.
      Outcome.◌>>◌
        (reject_if (not (ltb (q * m) (2 ^ 64))) (context_error "PBMO spool element count overflow"))
        (ok (record {
          invocation_id = c.session_id;
          object_id = c.proof_id;
          context_digest = digest;
          logical_element_count = q * m;
        }))

  module _ (T : PbmoTransport Point) where
    abbrev pub OnProvider : Type 0 → Type 0
    OnProvider A = Action PbmoError (Provider Point T.Box) A

    -- A session that `start_session` does not give is dropped.
    unfoldable pub started :
        Result PbmoError (Unit {0}) × Session X T → Result PbmoError (Session X T)
    started (ok done, s) = ok s
    started (err e, s) = err e

    unfoldable pub begin_native : PbmoContext → ℕ → ℕ → OnProvider (Session X T)
    begin_native c q m = do
      p ← gets (λ p. p)
      lift (started (start_session X T c q m p.bases native none))

    unfoldable pub begin_plain : PbmoContext → ℕ → ℕ → OnProvider (Session X T)
    begin_plain c q m = do
      p ← gets (λ p. p)
      lift (started (start_session X T c q m p.bases plain none))

    -- `self.token.take()`
    unfoldable pub take_token : OnProvider (Token Point)
    take_token p = (ok_or (token_error "token already consumed") p.token, record p { token = none })

    -- `self.transport.take()`
    unfoldable pub take_transport : OnProvider (Option T.Box)
    take_transport p = (ok p.transport, record p { transport = none })

    unfoldable pub begin_semi : PbmoContext → ℕ → ℕ → OnProvider (Session X T)
    begin_semi c q m = do
      token ← take_token
      transport ← take_transport
      p ← gets (λ p. p)
      lift (started (start_session X T c q m p.bases (semi token) transport))

    unfoldable pub begin_malicious :
        SecureDirectory → Bytes → Bytes → PbmoContext → ℕ → ℕ → OnProvider (Session X T)
    begin_malicious directory sequence suffix c q m = do
      token ← take_token
      descriptor ← lift (descriptor_of c q m)
      spool ← lift (map_err io (create (spool_path c sequence) suffix descriptor directory).0)
      transport ← take_transport
      p ← gets (λ p. p)
      lift (started (start_session X T c q m p.bases (malicious token spool) transport))

    -- The session is dropped after `finish`, which takes it, whatever `finish` gives.
    unfoldable pub finalize :
        (Point → Point → Bool)
        → Provider Point T.Box
        → Session X T
        → Result PbmoError (List Point) × Session X T
    finalize same_point p s =
        let r = finish X T same_point p.corruption s in (r.0, drop_session X T r.1)

    -- `push_private_row_chunk` of each provider, called on the chunks in turn.
    unfoldable pub push_all : List (Push Scalar) → Action PbmoError (Session X T) (Unit {0})
    push_all [] = pure tt
    push_all (p ∷ ps) = do push_chunk X T p; push_all ps
