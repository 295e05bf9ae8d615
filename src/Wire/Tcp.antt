-- ===== src/Wire/Tcp.antt =====
-- `TcpTransport` of experiments/preprocessed-pbmo/src/transport.rs. Durations, the trace file and the
-- counts that follow from the others are not kept. A connection is the bytes that come, those that
-- were sent, and what becomes of the coming writes; where a read that fails leaves the stream is not
-- kept. A panic of `unwrap` is an error here.
pub mod Answered
use thinwallet.Prelude.{
  ℕ, zero, suc, List, [], ◌∷◌, ◌++◌, ◌+◌, ◌*◌, ◌%◌, ◌^◌, Option, none, some, not, ◌||◌, length,
  take, drop, ◌==◌, nat_eq, bytes_eq, option_eq, is_some, if◌then◌else◌, Bool,
}
use thinwallet.Prelude.Outcome
use thinwallet.Prelude.Outcome.{Result, ok, err, reject_if, ok_or}
use thinwallet.Prelude.Action.{Action, pure, lift, gets, modify, ◌>>=◌, ◌>>◌}
use thinwallet.Prelude.Bytes.{Bytes}
use thinwallet.External.{External}
use thinwallet.Wire.{
  WireError, protocol, protocol_message, state_error, RequestHeader, Chunk, FrameType, WireFrame,
  frame_code, request_header, masked_chunk, response_header, response_body, error_frame, abort,
  frame_header_bytes, point_bytes,
}
use thinwallet.Wire.Frame.{write_frame, read_frame}
use thinwallet.Wire.Messages.{
  encode_request_header, encode_chunk, encode_finish, ResponseHeader, decode_response_header,
  encode_error, decode_error, hex, request_hasher, update_request_hasher, finalize_digest,
}

-- The outcome of each coming write: done, or failed after some bytes; past the end all are done.
pub record Connection : Type 0 where
  pub incoming : Bytes
  pub sent : Bytes
  pub writes : List (Option ℕ)

pub record TcpTransport : Type 0 where
  pub key : Bytes
  -- What `connect_timeout` and the options of the socket give.
  pub service : Option Connection
  pub stream : Option Connection
  -- The connection that an abort shut down last.
  pub shut : Option Connection
  pub session_digest : Option Bytes
  pub sequence : ℕ
  pub hasher : Option Bytes
  pub scalar_count : ℕ
  -- The counts of `TransportMetrics`
  pub chunk_count : ℕ
  pub request_bytes : ℕ
  pub response_bytes : ℕ
  pub request_digest : Option Bytes

abbrev pub OnTcp : Type 0 → Type 0
OnTcp A = Action WireError TcpTransport A

-- `frame.frame_type == t`
abbrev pub is_type : WireFrame → FrameType → Bool
is_type f t = frame_code f.frame_type == frame_code t

-- `write_all` of the bytes of a frame.
unfoldable pub write_bytes :
    Bytes → Connection → List (Option ℕ) → Result WireError (Unit {0}) × Connection
write_bytes b c [] = (ok tt, record c { sent = c.sent ++ b })
write_bytes b c (none ∷ later) = (ok tt, record c { sent = c.sent ++ b; writes = later })
write_bytes b c (some n ∷ later) =
    (err WireError.io, record c { sent = c.sent ++ take n b; writes = later })

unfoldable pub new_tcp : Bytes → Option Connection → TcpTransport
new_tcp key service = record {
  key = key;
  service = service;
  stream = none;
  shut = none;
  session_digest = none;
  sequence = 0;
  hasher = none;
  scalar_count = 0;
  chunk_count = 0;
  request_bytes = 0;
  response_bytes = 0;
  request_digest = none;
}

-- `stream`
unfoldable pub stream : OnTcp Connection
stream = do s ← gets (λ s. s); lift (ok_or (state_error "TCP session not connected") s.stream)

unfoldable pub reserve_session : Bytes → OnTcp (Unit {0})
reserve_session session_digest = do
  s ← gets (λ s. s)
  lift (reject_if (is_some s.stream) (state_error "session already reserved"))
  connection ← lift (ok_or WireError.io s.service)
  modify (λ s. record s { session_digest = some session_digest; stream = some connection })

-- The value of a result, or a default.
abbrev from_result : Connection → Result WireError Connection → Connection
from_result d (ok c) = c
from_result d (err e) = d

module _ (X : External) where
  open X use {Point}

  -- A frame of the next sequence number, written to the stream; its bytes and the number are counted.
  unfoldable pub send_frame : FrameType → Bytes → Bytes → OnTcp (Unit {0})
  send_frame frame_type session payload = do
    s ← gets (λ s. s)
    connection ← stream
    b ← lift (
        write_frame X s.key (record {
          frame_type = frame_type;
          sequence = s.sequence;
          session_digest = session;
          payload = payload;
        }))
    let written = write_bytes b connection connection.writes
    modify (λ s. record s { stream = some written.1 })
    lift written.0
    modify (λ s. record s {
      request_bytes = (s.request_bytes + (frame_header_bytes + length payload)) % 2 ^ 64;
    })

  unfoldable pub next_sequence : OnTcp (Unit {0})
  next_sequence = modify (λ s. record s { sequence = (s.sequence + 1) % 2 ^ 32 })

  unfoldable pub send_request_header : RequestHeader → OnTcp (Unit {0})
  send_request_header h = do
    s ← gets (λ s. s)
    lift (
        reject_if (not (some h.token_session_digest == s.session_digest))
          (state_error "header/session digest mismatch"))
    payload ← lift (encode_request_header h)
    send_frame request_header h.token_session_digest payload
    next_sequence
    modify (λ s. record s { hasher = some (request_hasher X payload) })

  unfoldable pub send_masked_chunk : Chunk → OnTcp (Unit {0})
  send_masked_chunk c = do
    payload ← lift (encode_chunk c)
    s ← gets (λ s. s)
    session ← lift (ok_or (state_error "session not reserved") s.session_digest)
    send_frame masked_chunk session payload
    modify (λ s. record s {
      chunk_count = (s.chunk_count + 1) % 2 ^ 32;
      scalar_count = (s.scalar_count + length c.scalars) % 2 ^ 64;
    })
    next_sequence
    hasher ← lift (ok_or (state_error "header not sent") s.hasher)
    modify (λ s. record s { hasher = some (update_request_hasher X hasher payload) })

  unfoldable pub finish_request : OnTcp Bytes
  finish_request = do
    s ← gets (λ s. s)
    modify (λ s. record s { hasher = none })
    hasher ← lift (ok_or (state_error "header not sent") s.hasher)
    let digest = finalize_digest X hasher
    session ← lift (ok_or (state_error "panic") s.session_digest)
    send_frame FrameType.finish_request session (encode_finish s.chunk_count s.scalar_count digest)
    modify (λ s. record s { request_digest = some (hex digest) })
    next_sequence
    pure digest

  -- The next frame of the stream.
  unfoldable pub receive_frame : OnTcp WireFrame
  receive_frame = do
    s ← gets (λ s. s)
    connection ← stream
    r ← lift (read_frame X s.key connection.incoming)
    modify (λ s. record s { stream = some (record connection { incoming = r.1 }) })
    pure r.0

  unfoldable pub response_counted : WireFrame → OnTcp (Unit {0})
  response_counted f = modify (λ s. record s {
    response_bytes = (s.response_bytes + (frame_header_bytes + length f.payload)) % 2 ^ 64;
  })

  -- The points of a payload, which has as many chunks of 32 bytes.
  unfoldable pub points_of : ℕ → Bytes → Result WireError (List Point)
  points_of zero b = ok []
  points_of (suc n) b =
      Outcome.◌>>=◌
        (ok_or (protocol "malformed response point") (X.decompress (take point_bytes b)))
        λ p. Outcome.◌>>=◌ (points_of n (drop point_bytes b)) λ ps. ok (p ∷ ps)

  -- A frame of the service that reports an error.
  unfoldable pub check_error : WireFrame → Result WireError (Unit {0})
  check_error f =
      if is_type f error_frame
      then Outcome.◌>>=◌ (decode_error f.payload) (λ message. err (protocol_message message))
      else ok tt

  -- `receive_response` up to the header, and from there to its end.
  unfoldable pub receive_header : Bytes → OnTcp ResponseHeader
  receive_header session = do
    s ← gets (λ s. s)
    f ← receive_frame
    lift (reject_if (not (f.session_digest == session)) (protocol "response for another session"))
    lift (check_error f)
    lift (reject_if (not (is_type f response_header)) (protocol "expected response header"))
    response_counted f
    h ← lift (decode_response_header f.payload)
    lift (
        reject_if (not (s.request_digest == some (hex h.request_digest)))
          (protocol "response request digest mismatch"))
    pure h

  unfoldable pub receive_body : Bytes → ResponseHeader → OnTcp (List Point)
  receive_body session h = do
    body ← receive_frame
    lift (
        reject_if (not (is_type body response_body) || not (body.session_digest == session))
          (protocol "malformed response body"))
    lift (
        reject_if
          (not (length body.payload == h.response_len)
            || not (length body.payload == h.outputs * point_bytes))
          (protocol "response length mismatch"))
    points ← lift (points_of h.outputs body.payload)
    response_counted body
    pure points

  unfoldable pub receive_response : OnTcp (Bytes × List Point)
  receive_response = do
    s ← gets (λ s. s)
    session ← lift (ok_or (state_error "panic") s.session_digest)
    h ← receive_header session
    points ← receive_body session h
    pure (h.request_digest, points)

  -- An Abort frame is written, whatever comes of it, and the stream is shut down.
  unfoldable pub shut_down : Bytes → Connection → Bytes → TcpTransport → Connection
  shut_down reason c session s =
      let frame = write_frame X s.key (record {
        frame_type = abort;
        sequence = s.sequence;
        session_digest = session;
        payload = encode_error reason;
      }) in
      from_result c (Outcome.◌>>=◌ frame (λ b. ok (write_bytes b c c.writes).1))

  unfoldable pub abort_session : Bytes → OnTcp (Unit {0})
  abort_session reason s = aborted s.stream s.session_digest
    where
      aborted : Option Connection → Option Bytes → Result WireError (Unit {0}) × TcpTransport
      aborted (some c) (some session) =
          (ok tt, record s { stream = none; shut = some (shut_down reason c session s) })
      aborted (some c) none = (ok tt, record s { stream = none })
      aborted none session = (ok tt, s)
