-- ===== src/Tests/LoopbackRuns.antt =====
-- A request through the loopback transport.
use mathlib.Core.Bool.{xor}
use thinwallet.Prelude.{
  ◌≡◌, ◌≤◌, ◌∷◌, ◌++◌, length, refl, List, [], true, false, Bool, map, replicate, arith, All,
  nat_eq, bytes_eq, option_eq,
}
use thinwallet.Prelude.Outcome.{Result, ok, err}
use thinwallet.Prelude.Bytes.{Bytes, le_bytes}
use thinwallet.Token.Codec.{concat}
use thinwallet.Token.{backend_revision}
use thinwallet.Wire.{WireError, RequestHeader, Chunk, WireFrame, max_frame_payload}
use thinwallet.Wire.Messages.{encode_request_header}
use thinwallet.Wire.Messages.RoundTrip.{IsRequestHeader}
use thinwallet.Wire.Messages.Canonical.{IsChunk}
use thinwallet.Wire.Server.{reply, handle_connection}
use thinwallet.Wire.Loopback.{
  new_loopback, reserve_session, send_request_header, header_sent, push_one, push_scalars,
  push_chunk, chunk_sent, send_masked_chunk, request_finished, finish_request, response_taken,
  receive_response,
}
use thinwallet.Wire.Loopback.Request.{chunk_frames, send_chunks}
use thinwallet.Wire.Loopback.Served.{request, request-handle_connection}
use thinwallet.Tests.Toy.{toy}
use thinwallet.Tests.WireRuns.{
  wire_code, basis, bases, session, one, chunk, first_chunk, two_by_two, no_time,
}

loopback_code : Unit {0}
unfolding new_loopback reserve_session send_request_header header_sent push_one push_scalars
    push_chunk chunk_sent send_masked_chunk request_finished finish_request response_taken
    receive_response send_chunks request
loopback_code = tt

abbrev pub sent_header : RequestHeader
sent_header = record (two_by_two basis) {
  backend_revision = backend_revision;
  expected_chunk_count = 2;
}

abbrev last_chunk : Chunk
last_chunk = chunk 1 1 0 2 (replicate 32 0 ∷ one ∷ [])

abbrev pub sent_chunks : List Chunk
sent_chunks = record first_chunk { total_chunks = 2 } ∷ record last_chunk { total_chunks = 2 } ∷ []

sent_header-IsRequestHeader : IsRequestHeader sent_header
unfolding wire_code basis le_bytes
sent_header-IsRequestHeader = record {
  protocol_version = omega arith;
  backend_revision = refl;
  curve_identifier = refl;
  basis_digest = refl;
  q = omega arith;
  m = omega arith;
  output_count = omega arith;
  token_session_digest = refl;
  workload_identifier = refl;
  expected_scalar_count = omega arith;
  request_byte_length = omega arith;
  integrity_mode = refl;
  nonce_challenge_context = refl;
  expected_chunk_count = omega arith;
}

sent_chunks-IsChunk : All IsChunk sent_chunks
sent_chunks-IsChunk = (
  record {
    chunk_index = omega arith;
    total_chunks = omega arith;
    row = omega arith;
    col_start = omega arith;
    col_end = omega arith;
    scalars = (refl, (refl, tt));
    few = omega arith;
  },
  (
    record {
      chunk_index = omega arith;
      total_chunks = omega arith;
      row = omega arith;
      col_start = omega arith;
      col_end = omega arith;
      scalars = (refl, (refl, tt));
      few = omega arith;
    },
    tt,
  ),
)

digest_or : Result WireError (Bytes × List Bool) → Bytes
digest_or (ok r) = r.0
digest_or (err e) = []

loopback_digest : Bytes
unfolding loopback_code wire_code basis le_bytes digest_or xor
loopback_digest = digest_or (request toy session sent_header sent_chunks (new_loopback toy bases)).0

loopback_answers :
    (request toy session sent_header sent_chunks (new_loopback toy bases)).0
    ≡ ok (loopback_digest, true ∷ false ∷ [])
unfolding loopback_code wire_code basis le_bytes digest_or xor loopback_digest
loopback_answers = refl

answer_fits : length (concat (map toy.compress (true ∷ false ∷ []))) ≤ max_frame_payload
unfolding wire_code
answer_fits = omega arith

request-handle_connection_example :
    (first : WireFrame) × (chunks : List WireFrame) × (last : WireFrame) × (encode_request_header
        sent_header
      ≡ ok first.payload)
    × (chunk_frames session 0 sent_chunks ≡ ok chunks)
    × (handle_connection toy no_time
          (λ h. ok bases)
          backend_revision
          (ok first ∷ (map ok chunks ++ ok last ∷ []))
        ≡ ok (reply toy no_time loopback_digest (true ∷ false ∷ [])))
request-handle_connection_example =
    request-handle_connection toy no_time bases session sent_header sent_chunks (λ b. refl)
      sent_header-IsRequestHeader sent_chunks-IsChunk loopback_answers answer_fits refl refl
