-- ===== src/Wire/Loopback.antt =====
-- `LoopbackTransport` of experiments/preprocessed-pbmo/src/transport.rs: the client and the service
-- in one process. Durations are not kept. A method returns its result and the transport after it.
pub mod Agrees
pub mod Request
pub mod Served
use thinwallet.Prelude.{
  ℕ, List, [], ◌∷◌, ◌+◌, ◌*◌, ◌%◌, ◌^◌, Option, none, some, not, map, length, set, replicate, ltb,
  ◌==◌, bytes_eq, option_eq, if◌then◌else◌,
}
use thinwallet.Prelude.Outcome.{Result, ok, err, reject_if, ok_or}
use thinwallet.Prelude.Bytes.{Bytes}
use thinwallet.External.{External}
use thinwallet.Token.{backend_revision}
use thinwallet.Wire.{
  WireError, protocol, state_error, RequestHeader, Chunk, frame_header_bytes, point_bytes,
}
use thinwallet.Wire.Messages.{
  encode_request_header, encode_chunk, request_hasher, update_request_hasher, finalize_digest,
}
use thinwallet.Wire.Checks.{validate_header, validate_chunk, validate_complete}
use thinwallet.Wire.Server.{push, msm_rows}

-- The counts of `TransportMetrics` that this transport keeps.
pub record Metrics : Type 0 where
  pub request_bytes : ℕ
  pub response_bytes : ℕ
  pub chunk_count : ℕ
  pub serialization_peak : ℕ

pub record LoopbackTransport (Scalar Point : Type 0) : Type 0 where
  pub bases : List Point
  pub session_digest : Option Bytes
  pub header : Option RequestHeader
  pub rows : List (List Scalar)
  pub next_col : List ℕ
  pub next_chunk : ℕ
  pub hasher : Option Bytes
  pub request_digest : Option Bytes
  pub response : Option (Bytes × List Point)
  pub metrics : Metrics
  pub scalar_count : ℕ

module _ (X : External) where
  open X use {Point, Scalar}

  abbrev pub Action : Type 0 → Type 0
  Action A = LoopbackTransport Scalar Point → Result WireError A × LoopbackTransport Scalar Point

  abbrev pub after :
      {A B : Type 0}
      → (A → Action B)
      → Result WireError A × LoopbackTransport Scalar Point
      → Result WireError B × LoopbackTransport Scalar Point
  after f (ok a, l) = f a l
  after f (err e, l) = (err e, l)

  infixl 5 ◌>>=◌ ◌>>◌
  abbrev pub ◌>>=◌ : {A B : Type 0} → Action A → (A → Action B) → Action B
  (m >>= f) l = after f (m l)

  abbrev pub ◌>>◌ : {B : Type 0} → Action (Unit {0}) → Action B → Action B
  m >> k = m >>= λ _. k

  abbrev pub lift : {A : Type 0} → Result WireError A → Action A
  lift r l = (r, l)

  abbrev pub gets : {A : Type 0} → (LoopbackTransport Scalar Point → A) → Action A
  gets f l = (ok (f l), l)

  abbrev pub modify :
      (LoopbackTransport Scalar Point → LoopbackTransport Scalar Point) → Action (Unit {0})
  modify f l = (ok tt, f l)

  -- `LoopbackTransport::new`
  unfoldable pub new_loopback : List Point → LoopbackTransport Scalar Point
  new_loopback bases = record {
    bases = bases;
    session_digest = none;
    header = none;
    rows = [];
    next_col = [];
    next_chunk = 0;
    hasher = none;
    request_digest = none;
    response = none;
    metrics = record {
      request_bytes = 0;
      response_bytes = 0;
      chunk_count = 0;
      serialization_peak = 0;
    };
    scalar_count = 0;
  }

  unfoldable pub reserve_session : Bytes → Action (Unit {0})
  reserve_session session_digest = modify (λ l. record l { session_digest = some session_digest })

  unfoldable pub header_sent :
      RequestHeader → Bytes → LoopbackTransport Scalar Point → LoopbackTransport Scalar Point
  header_sent h payload l = record l {
    metrics = record l.metrics {
      request_bytes = (l.metrics.request_bytes + (frame_header_bytes + length payload)) % 2 ^ 64;
      serialization_peak = length payload;
    };
    rows = replicate h.q [];
    next_col = replicate h.q 0;
    hasher = some (request_hasher X payload);
    header = some h;
  }

  unfoldable pub send_request_header : RequestHeader → Action (Unit {0})
  send_request_header h = do
    bases ← gets (λ l. l.bases)
    lift (validate_header X h bases backend_revision)
    session ← gets (λ l. l.session_digest)
    lift (
        reject_if (not (some h.token_session_digest == session))
          (protocol "session digest mismatch"))
    payload ← lift (encode_request_header h)
    modify (header_sent h payload)

  unfoldable pub push_one :
      Option Scalar
      → (Scalar → Result WireError (Unit {0}) × List (List Scalar))
      → List (List Scalar)
      → Result WireError (Unit {0}) × List (List Scalar)
  push_one none again rows = (err (protocol "malformed scalar"), rows)
  push_one (some s) again rows = again s

  -- The loop over the scalars, which stops at the first that is not canonical, with the earlier ones
  -- pushed.
  unfoldable pub push_scalars :
      ℕ → List Bytes → List (List Scalar) → Result WireError (Unit {0}) × List (List Scalar)
  push_scalars row [] rows = (ok tt, rows)
  push_scalars row (b ∷ bs) rows =
      push_one (X.scalar_from_canonical_bytes b) (λ s. push_scalars row bs (push rows row (s ∷ [])))
        rows

  unfoldable pub push_chunk : Chunk → Action (Unit {0})
  push_chunk c l =
      let pushed = push_scalars c.row c.scalars l.rows in (pushed.0, record l { rows = pushed.1 })

  unfoldable pub chunk_sent :
      Chunk → Bytes → Bytes → LoopbackTransport Scalar Point → LoopbackTransport Scalar Point
  chunk_sent c payload hasher l = record l {
    next_col = set l.next_col c.row c.col_end;
    next_chunk = (l.next_chunk + 1) % 2 ^ 32;
    scalar_count = (l.scalar_count + length c.scalars) % 2 ^ 64;
    metrics = record l.metrics {
      chunk_count = (l.metrics.chunk_count + 1) % 2 ^ 32;
      request_bytes = (l.metrics.request_bytes + (frame_header_bytes + length payload)) % 2 ^ 64;
      serialization_peak =
          if ltb l.metrics.serialization_peak (length payload)
          then length payload
          else l.metrics.serialization_peak;
    };
    hasher = some (update_request_hasher X hasher payload);
  }

  -- The header is set together with the hasher, so the `unwrap` of the hasher panics only after
  -- `finish_request` has taken it; a panic is an error here.
  unfoldable pub send_masked_chunk : Chunk → Action (Unit {0})
  send_masked_chunk c = do
    sent ← gets (λ l. l.header)
    h ← lift (ok_or (state_error "header not sent") sent)
    l ← gets (λ l. l)
    lift (validate_chunk c h l.next_chunk l.next_col)
    payload ← lift (encode_chunk c)
    push_chunk c
    hasher ← lift (ok_or (state_error "panic") l.hasher)
    modify (chunk_sent c payload hasher)

  unfoldable pub request_finished :
      Bytes → List Point → LoopbackTransport Scalar Point → LoopbackTransport Scalar Point
  request_finished digest points l = record l {
    hasher = none;
    request_digest = some digest;
    metrics = record l.metrics {
      request_bytes = (l.metrics.request_bytes + (frame_header_bytes + 44)) % 2 ^ 64;
    };
    response = some (digest, points);
  }

  unfoldable pub finish_request : Action Bytes
  finish_request = do
    l ← gets (λ l. l)
    h ← lift (ok_or (state_error "panic") l.header)
    lift (validate_complete h l.next_chunk l.scalar_count l.next_col)
    hasher ← lift (ok_or (state_error "panic") l.hasher)
    let digest = finalize_digest X hasher
    modify (request_finished digest (msm_rows X l.rows l.bases))
    lift (ok digest)

  unfoldable pub response_taken :
      List Point → LoopbackTransport Scalar Point → LoopbackTransport Scalar Point
  response_taken points l = record l {
    response = none;
    metrics = record l.metrics {
      response_bytes = 2 * frame_header_bytes + 74 + length points * point_bytes;
    };
  }

  unfoldable pub receive_response : Action (Bytes × List Point)
  receive_response = do
    found ← gets (λ l. l.response)
    r ← lift (ok_or (state_error "request not finished") found)
    modify (response_taken r.1)
    lift (ok r)

  unfoldable pub abort_session : Action (Unit {0})
  abort_session = modify (λ l. record l { rows = [] })
