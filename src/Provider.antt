-- ===== src/Provider.antt =====
-- The sessions of experiments/preprocessed-pbmo/src/provider.rs. The phase markers, which the
-- environment turns on, and the timings are not kept. A `usize` subtraction wraps, as in a release
-- build.
pub mod Stream
pub mod Finish
pub mod Providers
pub mod Algebra
pub mod Aggregate
pub mod Sums
pub mod Pushes
pub mod Rows
pub mod Answers
pub mod Runs
pub mod Products
pub mod Spooled
pub mod Combination
pub mod Soundness
pub mod Endings
pub mod Finalized
pub mod Serves
pub mod RowByRow
pub mod Served
pub mod Total
pub mod Tally
use Prim.Native.String.{String}
use thinwallet.Prelude.{
  ℕ, zero, suc, ◌+◌, ◌-◌, ◌*◌, ◌%◌, ◌^◌, Bool, true, false, not, ◌||◌, ◌&&◌, Option, none, some,
  List, [], ◌∷◌, ◌++◌, any, map, length, take, drop, set, get_elem?, replicate, ltb, leb, is_some,
  ◌==◌, nat_eq, bytes_eq, option_eq, if◌then◌else◌,
}
use thinwallet.Prelude.Outcome.{Result, ok, err, reject_if, ok_or}
use thinwallet.Prelude.Outcome
use thinwallet.Prelude.Action.{Action, pure, lift, gets, modify, ◌>>=◌, ◌>>◌, after, zoom}
use thinwallet.Prelude.Bytes.{Bytes, text}
use thinwallet.External.{External, PbmoContext, StreamFrame}
use thinwallet.Token.{Token, TokenState, reserved, spent, burned}
use thinwallet.Token.Equality.{state_eq}
use thinwallet.Token.Codec.{concat}
use thinwallet.Token.Generate.{encoded_shape, domain_metadata, context_digest}
use thinwallet.Field.{digest32, derive_mask_scalar, derive_batch_challenge, DomainMetadata}
use thinwallet.Spool.{
  IoError, ErrorKind, os_error, SecureSpool, append, seal_and_open_verified, remove,
}
use thinwallet.Wire.{
  WireError, RequestHeader, Chunk, wire_protocol_version, curve_name, integrity_hmac_sha256,
}
use thinwallet.Wire.Checks.{basis_digest}
use thinwallet.Wire.Server.Rows.{range}

-- `PbmoError`
pub data PbmoError : Type 0 where
  context_error : String → PbmoError
  stream_error : String → PbmoError
  token_error : String → PbmoError
  integrity : PbmoError
  serialization : PbmoError
  io : IoError → PbmoError
  transport_error : WireError → PbmoError

-- The trait `PbmoTransport`: the state of a transport, and the methods.
pub record PbmoTransport (Point : Type 0) : Type 1 where
  pub Box : Type 0
  pub reserve_session : Bytes → Action WireError Box (Unit {0})
  pub send_request_header : RequestHeader → Action WireError Box (Unit {0})
  pub send_masked_chunk : Chunk → Action WireError Box (Unit {0})
  pub finish_request : Action WireError Box Bytes
  pub receive_response : Action WireError Box (Bytes × List Point)
  pub abort_session : Action WireError Box (Unit {0})

pub data SessionMode (Point : Type 0) : Type 0 where
  native : SessionMode Point
  plain : SessionMode Point
  semi : Token Point → SessionMode Point
  malicious : Token Point → SecureSpool → SessionMode Point

-- The counts of `PbmoMetrics`, of 64 bits each; they wrap, as in a release build.
pub record Counts : Type 0 where
  pub chunks : ℕ
  pub upload_bytes : ℕ
  pub client_mask_field_ops : ℕ
  pub server_group_terms : ℕ
  pub working_scalar_peak : ℕ
  pub spool_bytes_written : ℕ

pub record PbmoSession (Point Box : Type 0) : Type 0 where
  pub context : PbmoContext
  pub q : ℕ
  pub m : ℕ
  pub bases : List Point
  pub mode : SessionMode Point
  -- `ServerState`
  pub accumulators : List Point
  pub next_col : List ℕ
  pub metrics : Counts
  pub transport : Option Box
  pub finalized : Bool

pub data Corruption : Type 0 where
  one_output correlated_outputs reorder omit duplicate after_challenge replayed_vector
        cross_session_swap :
      Corruption

module _ {Point : Type 0} where
  unfoldable pub token_of : SessionMode Point → Option (Token Point)
  token_of native = none
  token_of plain = none
  token_of (semi token) = some token
  token_of (malicious token spool) = some token

  unfoldable pub is_preprocessed : SessionMode Point → Bool
  is_preprocessed native = false
  is_preprocessed plain = false
  is_preprocessed (semi token) = true
  is_preprocessed (malicious token spool) = true

  unfoldable pub is_native : SessionMode Point → Bool
  is_native native = true
  is_native plain = false
  is_native (semi token) = false
  is_native (malicious token spool) = false

  -- `token.state = state` through `token_mut`.
  unfoldable pub with_token_state : TokenState → SessionMode Point → SessionMode Point
  with_token_state state native = native
  with_token_state state plain = plain
  with_token_state state (semi token) = semi (record token { state = state })
  with_token_state state (malicious token spool) = malicious (record token { state = state }) spool

-- An error converted by `?`.
unfoldable pub map_err {ℓ} : {E F : Type 0} {A : Type ℓ} → (E → F) → Result E A → Result F A
map_err f (ok a) = ok a
map_err f (err e) = err (f e)

module _ (X : External) where
  open X use {Point, Scalar}

  unfoldable pub context_binding_digest : PbmoContext → ℕ → ℕ → Result PbmoError Bytes
  context_binding_digest c q m =
      Outcome.◌>>=◌ (ok_or serialization (X.serialize_request c q m)) λ encoded.
        ok (digest32 X (text "thinwallet/preprocessed-pbmo/stream-context/v2") (encoded ∷ []))

  unfoldable pub output_digest : PbmoContext → List Point → Result PbmoError Bytes
  output_digest c outputs =
      Outcome.◌>>=◌ (ok_or serialization (X.serialize_context c)) λ context_bytes. ok (
        digest32 X (text "thinwallet/preprocessed-pbmo/ordered-outputs/v2")
          (context_bytes ∷ concat (map X.compress outputs) ∷ []))

  -- The comparison of the token's binding with the context in `start_session`.
  unfoldable pub token_differs : Token Point → PbmoContext → ℕ → ℕ → Bool
  token_differs token c q m =
      not (token.binding.basis_digest == c.basis_digest)
      || not (token.binding.backend_revision == c.backend_revision)
      || not (token.binding.relation_shape.logical_commitment_id == c.logical_commitment_id)
      || not (encoded_shape token.binding == c.relation_shape)
      || not (token.binding.q == q % 2 ^ 32)
      || not (token.binding.m == m % 2 ^ 32)

  unfoldable pub check_token :
      PbmoContext → ℕ → ℕ → Option (Token Point) → Result PbmoError (Unit {0})
  check_token c q m none = ok tt
  check_token c q m (some token) =
      Outcome.◌>>◌
        (reject_if (token_differs token c q m) (token_error "token relation binding mismatch"))
        (Outcome.◌>>◌
          (reject_if (not (c.token_id == some token.token_id) || not (token.state == reserved))
            (token_error "token was not durably reserved"))
          (Outcome.◌>>=◌
            (ok_or (token_error "missing durable reservation binding") token.reservation_binding)
            λ reservation. Outcome.◌>>=◌ (context_binding_digest c q m) λ digest.
              reject_if
                (not (reservation.ctx_digest == context_digest X token.binding)
                  || not (reservation.sid == c.proof_id)
                  || not (reservation.iid == c.session_id)
                  || not (reservation.request_digest == digest))
                (token_error "PBMO context differs from durable reservation")))

  module _ (T : PbmoTransport Point) where
    abbrev pub Session : Type 0
    Session = PbmoSession Point T.Box

    abbrev pub OnSession : Type 0 → Type 0
    OnSession A = Action PbmoError Session A

    -- The end of `start_session`: the transport is given the session and the request's header.
    unfoldable pub request_header_of : PbmoContext → ℕ → ℕ → Bytes → RequestHeader
    request_header_of c q m session_digest = record {
      protocol_version = wire_protocol_version;
      backend_revision = c.backend_revision;
      curve_identifier = curve_name;
      basis_digest = c.basis_digest;
      q = q % 2 ^ 32;
      m = m % 2 ^ 32;
      output_count = q % 2 ^ 32;
      token_session_digest = session_digest;
      workload_identifier = c.relation_shape;
      expected_scalar_count = q * m % 2 ^ 64;
      request_byte_length = q * m * 32 % 2 ^ 64;
      integrity_mode = integrity_hmac_sha256;
      nonce_challenge_context =
          digest32 X (text "thinwallet/pbmo-transport/nonce-context/v1")
            (c.session_id ∷ c.proof_id ∷ []);
      expected_chunk_count = c.expected_chunks;
    }

    -- A call of a method of the transport, if there is one.
    unfoldable pub on_transport : {A : Type 0} → Action WireError T.Box A → T.Box → OnSession A
    on_transport call box s =
        (map_err transport_error (call box).0, record s { transport = some (call box).1 })

    unfoldable pub open_transport : PbmoContext → ℕ → ℕ → Option T.Box → OnSession (Unit {0})
    open_transport c q m none = pure tt
    open_transport c q m (some box) = do
      session_digest ← lift (context_binding_digest c q m)
      on_transport
          (T.reserve_session session_digest
            >> T.send_request_header (request_header_of c q m session_digest))
          box

    unfoldable pub new_session :
        PbmoContext → ℕ → ℕ → List Point → SessionMode Point → Option T.Box → Session
    new_session c q m bases mode transport = record {
      context = c;
      q = q;
      m = m;
      bases = bases;
      mode = mode;
      accumulators = replicate q X.identity;
      next_col = replicate q 0;
      metrics = record {
        chunks = 0;
        upload_bytes = 0;
        client_mask_field_ops = 0;
        server_group_terms = 0;
        working_scalar_peak = 0;
        spool_bytes_written = 0;
      };
      transport = transport;
      finalized = false;
    }

    unfoldable pub start_session :
        PbmoContext
        → ℕ
        → ℕ
        → List Point
        → SessionMode Point
        → Option T.Box
        → Result PbmoError (Unit {0}) × Session
    start_session c q m bases mode transport =
        (do
          lift (
              reject_if
                ((q == 0) || (m == 0) || not (length bases == m) || (c.expected_chunks == 0))
                (context_error "invalid dimensions"))
          lift (
              reject_if (not (c.basis_digest == basis_digest X bases))
                (context_error "wrong basis"))
          lift (check_token c q m (token_of mode))
          open_transport c q m transport)
          (new_session c q m bases mode transport)
