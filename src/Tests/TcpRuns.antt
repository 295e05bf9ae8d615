-- ===== src/Tests/TcpRuns.antt =====
-- A request through the TCP transport, and its answer.
use mathlib.Core.Bool.{xor}
use thinwallet.Prelude.{◌≡◌, ◌∷◌, ◌++◌, refl, List, [], some, true, false, replicate}
use thinwallet.Prelude.Outcome.{Result, ok, err}
use thinwallet.Prelude.Action.{pure, ◌>>◌}
use thinwallet.Prelude.Bytes.{Bytes, IsBytes, le_bytes}
use thinwallet.Wire.{WireError, Chunk, FrameType, response_header, response_body, frame_type_of}
use thinwallet.Wire.Frame.{read_exact, tag_frame, write_frame, read_frame}
use thinwallet.Wire.Messages.{encode_response_header, decode_response_header, hex, hex_digit}
use thinwallet.Wire.Tcp.{
  Connection, TcpTransport, OnTcp, new_tcp, write_bytes, stream, reserve_session, send_frame,
  next_sequence, send_request_header, send_masked_chunk, finish_request, receive_frame,
  response_counted, points_of, check_error, receive_header, receive_body, receive_response,
}
use thinwallet.Wire.Tcp.Answered.{Answered, receive_response-Answered}
use thinwallet.Tests.Toy.{toy}
use thinwallet.Tests.WireRuns.{wire_code, basis, session, IsBytes-any}
use thinwallet.Tests.LoopbackRuns.{sent_header, sent_chunks}

tcp_code : Unit {0}
unfolding wire_code basis le_bytes xor write_bytes new_tcp stream reserve_session send_frame
    next_sequence send_request_header send_masked_chunk finish_request receive_frame
    response_counted points_of check_error receive_header receive_body receive_response read_exact
    tag_frame write_frame read_frame frame_type_of decode_response_header hex hex_digit
tcp_code = tt

abbrev service_key : Bytes
service_key = replicate 32 3

-- The request, up to its finish.
send_all : OnTcp Bytes
unfolding tcp_code
send_all =
    reserve_session session
    >> send_request_header toy sent_header
    >> send_chunks sent_chunks
    >> finish_request toy
  where
    send_chunks : List Chunk → OnTcp (Unit {0})
    send_chunks [] = pure tt
    send_chunks (c ∷ cs) = send_masked_chunk toy c >> send_chunks cs

abbrev silent : Connection
silent = record { incoming = []; sent = []; writes = [] }

requested : TcpTransport
unfolding tcp_code send_all
requested = (send_all (new_tcp service_key (some silent))).1

abbrev digest_of : Result WireError Bytes → Bytes
digest_of (ok b) = b
digest_of (err e) = []

request_digest : Bytes
unfolding tcp_code send_all
request_digest = digest_of (send_all (new_tcp service_key (some silent))).0

frame_of : FrameType → Bytes → Bytes
unfolding tcp_code
frame_of t payload = digest_of (
    write_frame toy service_key
      (record { frame_type = t; sequence = 0; session_digest = session; payload = payload }))

-- The service answers with two points.
reply_bytes : Bytes
unfolding tcp_code frame_of request_digest send_all
reply_bytes =
    frame_of response_header (
      encode_response_header (record {
        request_digest = request_digest;
        outputs = 2;
        response_len = 64;
        validation_ns = 0;
        queue_ns = 0;
        msm_ns = 0;
      }))
    ++ frame_of response_body ((1 ∷ replicate 31 0) ++ replicate 32 0)

abbrev answering : Connection
answering = record silent { incoming = reply_bytes }

waiting : TcpTransport
unfolding tcp_code requested send_all
waiting = record requested { stream = some answering }

received : TcpTransport
unfolding tcp_code waiting requested send_all reply_bytes frame_of request_digest
received = (receive_response toy waiting).1

receives : receive_response toy waiting ≡ (ok (request_digest, true ∷ false ∷ []), received)
unfolding tcp_code waiting requested send_all reply_bytes frame_of request_digest received
receives = refl

waiting-stream : waiting.stream ≡ some answering
unfolding waiting
waiting-stream = refl

reply_bytes-IsBytes : IsBytes reply_bytes
unfolding tcp_code reply_bytes frame_of request_digest send_all
reply_bytes-IsBytes = IsBytes-any reply_bytes refl

receive_response-Answered_example :
    Answered toy waiting answering request_digest (true ∷ false ∷ [])
receive_response-Answered_example =
    receive_response-Answered toy waiting received answering request_digest (true ∷ false ∷ [])
      waiting-stream reply_bytes-IsBytes receives
