-- ===== src/Wire/Server.antt =====
-- `handle_tcp_connection` of experiments/preprocessed-pbmo/src/transport.rs: what it does with the
-- frames that `read_frame` returns, in their order. A stream that ends is a read that fails.
pub mod Rows
pub mod Accept
use thinwallet.Prelude.{
  ℕ, zero, suc, List, [], ◌∷◌, ◌+◌, ◌%◌, ◌^◌, ◌++◌, Bool, not, ◌||◌, map, length, set, replicate,
  ◌==◌, ltb, nat_eq, bytes_eq, if◌then◌else◌, Option,
}
use thinwallet.Prelude.Outcome.{Result, ok, err, ◌>>=◌, ◌>>◌, reject_if, ok_or}
use thinwallet.Prelude.Bytes.{Bytes}
use thinwallet.External.{External}
use thinwallet.Token.Codec.{concat}
use thinwallet.Wire.{
  WireError, io, protocol, RequestHeader, Chunk, FrameType, request_header, masked_chunk,
  finish_request, response_header, response_body, error_frame, abort, WireFrame, frame_code,
  max_frame_payload,
}
use thinwallet.Wire.Messages.{
  decode_request_header, decode_chunk, decode_finish, request_hasher, update_request_hasher,
  finalize_digest, ResponseHeader, encode_response_header,
}
use thinwallet.Wire.Checks.{validate_header, validate_chunk, validate_complete}

-- What the loop keeps.
pub record Progress (Scalar : Type 0) : Type 0 where
  pub rows : List (List Scalar)
  pub next_col : List ℕ
  pub next_chunk : ℕ
  pub scalar_count : ℕ
  pub hasher : Bytes

-- The outputs, and the payloads of the two response frames.
pub record Reply (Point : Type 0) : Type 0 where
  pub request_digest : Bytes
  pub outputs : List Point
  pub header_payload : Bytes
  pub body : Bytes

pub data Turn (Scalar Point : Type 0) : Type 0 where
  more : Progress Scalar → Turn Scalar Point
  done : Reply Point → Turn Scalar Point

-- The three durations that the clock gives, and whether the stream takes the two frames of the
-- response.
pub record Surroundings : Type 0 where
  pub validation_ns : ℕ
  pub queue_ns : ℕ
  pub msm_ns : ℕ
  pub takes_header : Bool
  pub takes_body : Bool

-- `rows[row].push(scalar)` for each scalar.
unfoldable pub push {ℓ} : {A : Type ℓ} → List (List A) → ℕ → List A → List (List A)
push [] i new = []
push (row ∷ rows) zero new = (row ++ new) ∷ rows
push (row ∷ rows) (suc i) new = row ∷ push rows i new

module _ (X : External) where
  open X use {Point, Scalar}

  unfoldable pub parse_scalars : List Bytes → Result WireError (List Scalar)
  parse_scalars [] = ok []
  parse_scalars (b ∷ bs) = do
    s ← ok_or (protocol "malformed scalar") (X.scalar_from_canonical_bytes b)
    rest ← parse_scalars bs
    ok (s ∷ rest)

  -- The loop's state after an accepted chunk.
  unfoldable pub advanced : Progress Scalar → Bytes → Chunk → List Scalar → Progress Scalar
  advanced p payload chunk scalars = record {
    rows = push p.rows chunk.row scalars;
    next_col = set p.next_col chunk.row chunk.col_end;
    next_chunk = (p.next_chunk + 1) % 2 ^ 32;
    scalar_count = (p.scalar_count + length chunk.scalars) % 2 ^ 64;
    hasher = update_request_hasher X p.hasher payload;
  }

  -- The arm of `FrameType::MaskedChunk`.
  unfoldable pub on_chunk :
      RequestHeader → Progress Scalar → WireFrame → Result WireError (Progress Scalar)
  on_chunk h p frame = do
    reject_if (not (frame.sequence == (p.next_chunk + 1) % 2 ^ 32))
        (protocol "frame sequence mismatch")
    chunk ← decode_chunk frame.payload
    validate_chunk chunk h p.next_chunk p.next_col
    scalars ← parse_scalars chunk.scalars
    ok (advanced p frame.payload chunk scalars)

  -- `rows.iter().map(|row| vartime_multiscalar_mul(row, &bases))`
  unfoldable pub msm_rows : List (List Scalar) → List Point → List Point
  msm_rows rows bases = map (λ row. X.msm row bases) rows

  unfoldable pub reply : Surroundings → Bytes → List Point → Reply Point
  reply t digest outputs =
      let body = concat (map X.compress outputs) in
      record {
        request_digest = digest;
        outputs = outputs;
        header_payload = encode_response_header (record {
          request_digest = digest;
          outputs = length outputs % 2 ^ 32;
          response_len = length body;
          validation_ns = t.validation_ns;
          queue_ns = t.queue_ns;
          msm_ns = t.msm_ns;
        });
        body = body;
      }

  -- The two calls of `write_frame`; the second refuses a body that is too long.
  unfoldable pub send_reply : Surroundings → Reply Point → Result WireError (Reply Point)
  send_reply t r = do
    reject_if (not t.takes_header) io
    reject_if (ltb max_frame_payload (length r.body)) (protocol "oversized frame")
    reject_if (not t.takes_body) io
    ok r

  -- The arm of `FrameType::FinishRequest`.
  unfoldable pub on_finish :
      Surroundings
      → RequestHeader
      → List Point
      → Progress Scalar
      → WireFrame
      → Result WireError (Reply Point)
  on_finish t h bases p frame = do
    reject_if (not (frame.sequence == (p.next_chunk + 1) % 2 ^ 32))
        (protocol "finish sequence mismatch")
    (claimed_chunks, claimed_scalars, claimed_digest) ← decode_finish frame.payload
    validate_complete h p.next_chunk p.scalar_count p.next_col
    let actual_digest = finalize_digest X p.hasher
    reject_if
        (not (claimed_chunks == p.next_chunk)
          || not (claimed_scalars == p.scalar_count)
          || not (claimed_digest == actual_digest))
        (protocol "finish/request digest mismatch")
    send_reply t (reply t actual_digest (msm_rows p.rows bases))

  -- The `match` of the loop.
  unfoldable pub on_frame :
      Surroundings
      → RequestHeader
      → List Point
      → Progress Scalar
      → FrameType
      → WireFrame
      → Result WireError (Turn Scalar Point)
  on_frame t h bases p masked_chunk frame = do p' ← on_chunk h p frame; ok (more p')
  on_frame t h bases p finish_request frame = do r ← on_finish t h bases p frame; ok (done r)
  on_frame t h bases p abort frame = err (protocol "client aborted session")
  on_frame t h bases p request_header frame = err (protocol "unexpected request frame")
  on_frame t h bases p response_header frame = err (protocol "unexpected request frame")
  on_frame t h bases p response_body frame = err (protocol "unexpected request frame")
  on_frame t h bases p error_frame frame = err (protocol "unexpected request frame")

  -- One iteration of the loop, after the read.
  unfoldable pub turn :
      Surroundings
      → RequestHeader
      → Bytes
      → List Point
      → Progress Scalar
      → WireFrame
      → Result WireError (Turn Scalar Point)
  turn t h session bases p frame = do
    reject_if (not (frame.session_digest == session)) (protocol "request-session substitution")
    on_frame t h bases p frame.frame_type frame

  -- What follows an iteration.
  unfoldable pub resume :
      Turn Scalar Point
      → (Progress Scalar → Result WireError (Reply Point))
      → Result WireError (Reply Point)
  resume (more p') again = again p'
  resume (done r) again = ok r

  -- The loop.
  unfoldable pub upload :
      Surroundings
      → RequestHeader
      → Bytes
      → List Point
      → Progress Scalar
      → List (Result WireError WireFrame)
      → Result WireError (Reply Point)
  upload t h session bases p [] = err io
  upload t h session bases p (incoming ∷ rest) = do
    frame ← incoming
    next ← turn t h session bases p frame
    resume next (λ p'. upload t h session bases p' rest)

  unfoldable pub start_progress : RequestHeader → Bytes → Progress Scalar
  start_progress h payload = record {
    rows = replicate h.q [];
    next_col = replicate h.q 0;
    next_chunk = 0;
    scalar_count = 0;
    hasher = request_hasher X payload;
  }

  -- `handle_tcp_connection`; `resolve_bases` is the caller's.
  unfoldable pub handle_connection :
      Surroundings
      → (RequestHeader → Result WireError (List Point))
      → Bytes
      → List (Result WireError WireFrame)
      → Result WireError (Reply Point)
  handle_connection t resolve_bases expected_backend [] = err io
  handle_connection t resolve_bases expected_backend (incoming ∷ rest) = do
    first ← incoming
    reject_if
        (not (frame_code first.frame_type == frame_code request_header)
          || not (first.sequence == 0))
        (protocol "expected initial request header")
    h ← decode_request_header first.payload
    reject_if (not (h.token_session_digest == first.session_digest))
        (protocol "header/session substitution")
    bases ← resolve_bases h
    validate_header X h bases expected_backend
    upload t h first.session_digest bases (start_progress h first.payload) rest
