-- ===== src/Tests/WireRuns.antt =====
-- An upload that the server accepts, and messages that are written and read.
use mathlib.Core.Bool.{xor}
use thinwallet.Prelude.{
  ℕ, ◌+◌, ◌^◌, ◌<◌, length, ◌≡◌, ◌∷◌, ◌++◌, refl, List, [], true, false, Bool, not, any, ltb, map,
  replicate, arith, nat_eq, bytes_eq, option_eq,
}
use thinwallet.Prelude.Outcome.{Result, ok, err}
use thinwallet.Prelude.Bytes.{Bytes, IsBytes, text, utf8_valid, be_bytes, from_be, le_bytes}
use thinwallet.Token.Codec.{concat}
use thinwallet.Field.{digest32, digest_parts}
use thinwallet.Wire.{
  WireError, RequestHeader, Chunk, WireFrame, request_header, masked_chunk, finish_request,
  curve_name, integrity_hmac_sha256, frame_code, frame_type_of,
}
use thinwallet.Wire.Frame.{read_exact, tag_frame, write_frame, read_frame}
use thinwallet.Wire.Frame.Authentic.{read_frame-written}
use thinwallet.Wire.Frame.Written.{read_frame-write}
use thinwallet.Wire.Parser.{put_string, take_bytes, uint, string, finish}
use thinwallet.Wire.Messages.{
  encode_request_header, decode_request_header, encode_chunk, decode_chunk, encode_finish,
  bad_dimensions, decode_finish, read_scalars, encode_response_header, request_hasher,
  update_request_hasher, finalize_digest,
}
use thinwallet.Wire.Messages.RoundTrip.{IsRequestHeader, decode_request_header-encode}
use thinwallet.Wire.Messages.Canonical.{IsChunk, decode_chunk-encode, encode_chunk-decode}
use thinwallet.Wire.Messages.{ResponseHeader, decode_response_header}
use thinwallet.Wire.Messages.Response.{decode_response_header-encode}
use thinwallet.Wire.Checks.{
  basis_digest, bad_size, validate_header, wrong_binding, wrong_range, validate_chunk,
  validate_complete,
}
use thinwallet.Wire.Server.{
  Reply, Surroundings, push, parse_scalars, advanced, on_chunk, msm_rows, reply, send_reply,
  on_finish, on_frame, turn, resume, upload, start_progress, handle_connection,
}
use thinwallet.Wire.Server.Accept.{Received, handle_connection-Received}
use thinwallet.Tests.Toy.{toy}

-- The code that the runs compute through.
unfoldable pub wire_code : Unit {0}
unfolding encode_request_header decode_request_header encode_chunk decode_chunk encode_finish
    bad_dimensions decode_finish read_scalars encode_response_header request_hasher
    update_request_hasher finalize_digest put_string take_bytes uint string finish concat digest32
    digest_parts utf8_valid be_bytes from_be basis_digest bad_size validate_header wrong_binding
    wrong_range validate_chunk validate_complete push parse_scalars advanced on_chunk msm_rows reply
    send_reply on_finish on_frame turn resume upload start_progress handle_connection frame_code
    nat_eq bytes_eq option_eq
wire_code = tt

abbrev bytes_or : {E : Type 0} → Result E Bytes → Bytes
bytes_or (ok b) = b
bytes_or (err e) = []

abbrev backend : Bytes
backend = text "revision"

abbrev pub bases : List Bool
bases = true ∷ false ∷ []

abbrev pub session : Bytes
session = replicate 32 7

abbrev pub one : Bytes
one = 1 ∷ replicate 31 0

abbrev pub two_by_two : Bytes → RequestHeader
two_by_two digest = record {
  protocol_version = 1;
  backend_revision = backend;
  curve_identifier = curve_name;
  basis_digest = digest;
  q = 2;
  m = 2;
  output_count = 2;
  token_session_digest = session;
  workload_identifier = text "w";
  expected_scalar_count = 4;
  request_byte_length = 128;
  integrity_mode = integrity_hmac_sha256;
  nonce_challenge_context = replicate 32 9;
  expected_chunk_count = 3;
}

abbrev some_header : RequestHeader
some_header = two_by_two (replicate 32 5)

some_header-IsRequestHeader : IsRequestHeader some_header
unfolding wire_code
some_header-IsRequestHeader = record {
  protocol_version = omega arith;
  backend_revision = refl;
  curve_identifier = refl;
  basis_digest = refl;
  q = omega arith;
  m = omega arith;
  output_count = omega arith;
  token_session_digest = refl;
  workload_identifier = refl;
  expected_scalar_count = omega arith;
  request_byte_length = omega arith;
  integrity_mode = refl;
  nonce_challenge_context = refl;
  expected_chunk_count = omega arith;
}

header_payload : Bytes
unfolding wire_code
header_payload = bytes_or (encode_request_header some_header)

header_encodes : encode_request_header some_header ≡ ok header_payload
unfolding wire_code header_payload
header_encodes = refl

decode_request_header-encode_example : decode_request_header header_payload ≡ ok some_header
decode_request_header-encode_example =
    decode_request_header-encode some_header some_header-IsRequestHeader header_encodes

abbrev pub chunk : ℕ → ℕ → ℕ → ℕ → List Bytes → Chunk
chunk index row col_start col_end scalars = record {
  chunk_index = index;
  total_chunks = 3;
  row = row;
  col_start = col_start;
  col_end = col_end;
  scalars = scalars;
}

abbrev pub first_chunk : Chunk
first_chunk = chunk 0 0 0 2 (one ∷ one ∷ [])

chunk_payload : Bytes
unfolding wire_code
chunk_payload = bytes_or (encode_chunk first_chunk)

chunk_encodes : encode_chunk first_chunk ≡ ok chunk_payload
unfolding wire_code chunk_payload
chunk_encodes = refl

first_chunk-IsChunk : IsChunk first_chunk
first_chunk-IsChunk = record {
  chunk_index = omega arith;
  total_chunks = omega arith;
  row = omega arith;
  col_start = omega arith;
  col_end = omega arith;
  scalars = (refl, (refl, tt));
  few = omega arith;
}

decode_chunk-encode_example : decode_chunk chunk_payload ≡ ok first_chunk
decode_chunk-encode_example = decode_chunk-encode first_chunk first_chunk-IsChunk chunk_encodes

pub IsBytes-any : (b : Bytes) → any (λ x. not (ltb x 256)) b ≡ false → IsBytes b
IsBytes-any [] h = tt
IsBytes-any (x ∷ b) h = (ground arith, IsBytes-any b (ground arith))

chunk_payload-IsBytes : IsBytes chunk_payload
unfolding wire_code chunk_payload
chunk_payload-IsBytes = IsBytes-any chunk_payload refl

encode_chunk-decode_example : encode_chunk first_chunk ≡ ok chunk_payload
encode_chunk-decode_example =
    encode_chunk-decode chunk_payload chunk_payload-IsBytes decode_chunk-encode_example

unfoldable pub basis : Bytes
unfolding wire_code
basis = basis_digest toy bases

first_frame : WireFrame
unfolding wire_code basis
first_frame = record {
  frame_type = request_header;
  sequence = 0;
  session_digest = session;
  payload = bytes_or (encode_request_header (two_by_two basis));
}

abbrev chunk_frame : Chunk → WireFrame
unfolding wire_code
chunk_frame c = record {
  frame_type = masked_chunk;
  sequence = c.chunk_index + 1;
  session_digest = session;
  payload = bytes_or (encode_chunk c);
}

-- Row 0 in one chunk, row 1 in two.
chunk_frames : List WireFrame
unfolding wire_code
chunk_frames =
    chunk_frame first_chunk
    ∷ chunk_frame (chunk 1 1 0 1 (one ∷ []))
    ∷ chunk_frame (chunk 2 1 1 2 (replicate 32 0 ∷ []))
    ∷ []

hash_all : Bytes → List WireFrame → Bytes
unfolding wire_code
hash_all before [] = before
hash_all before (f ∷ fs) = hash_all (update_request_hasher toy before f.payload) fs

upload_digest : Bytes
unfolding wire_code first_frame chunk_frames hash_all
upload_digest = finalize_digest toy (hash_all (request_hasher toy first_frame.payload) chunk_frames)

finish_frame : WireFrame
unfolding wire_code upload_digest
finish_frame = record {
  frame_type = finish_request;
  sequence = 4;
  session_digest = session;
  payload = encode_finish 3 4 upload_digest;
}

uploaded : List (Result WireError WireFrame)
unfolding first_frame chunk_frames finish_frame
uploaded = ok first_frame ∷ (map ok chunk_frames ++ ok finish_frame ∷ [])

abbrev pub no_time : Surroundings
no_time = record {
  validation_ns = 0;
  queue_ns = 0;
  msm_ns = 0;
  takes_header = true;
  takes_body = true;
}

answer : Reply Bool
unfolding wire_code uploaded
answer = reply toy no_time upload_digest (true ∷ true ∷ [])

answers : handle_connection toy no_time (λ h. ok bases) backend uploaded ≡ ok answer
unfolding wire_code uploaded answer upload_digest hash_all first_frame chunk_frames finish_frame
    basis le_bytes xor
answers = refl

handle_connection-Received_example :
    (first : WireFrame) × (rest : List (Result WireError WireFrame)) × (h : RequestHeader)
    × (points : List Bool) × (uploaded ≡ ok first ∷ rest)
    × (decode_request_header first.payload ≡ ok h)
    × (◌≡◌ {A = Result WireError (List Bool)} (ok bases) (ok points))
    × (validate_header toy h points backend ≡ ok tt)
    × Received toy h points [] (request_hasher toy first.payload) rest answer
handle_connection-Received_example =
    handle_connection-Received toy no_time (λ h. ok bases) backend uploaded answers

abbrev key : Bytes
key = replicate 32 3

frame_bytes : Bytes
unfolding wire_code finish_frame upload_digest hash_all first_frame chunk_frames basis tag_frame
    write_frame
frame_bytes = bytes_or (write_frame toy key finish_frame)

-- The frame is followed by a byte of the next one.
frame_stream : Bytes
unfolding frame_bytes
frame_stream = frame_bytes ++ 84 ∷ []

frame_reads : read_frame toy key frame_stream ≡ ok (finish_frame, 84 ∷ [])
unfolding wire_code frame_stream frame_bytes finish_frame upload_digest hash_all first_frame
    chunk_frames basis tag_frame write_frame read_exact read_frame frame_type_of le_bytes
frame_reads = refl

frame_stream-IsBytes : IsBytes frame_stream
unfolding wire_code frame_stream frame_bytes finish_frame upload_digest hash_all first_frame
    chunk_frames basis tag_frame write_frame le_bytes
frame_stream-IsBytes = IsBytes-any frame_stream refl

read_frame-written_example :
    (b : Bytes) × (write_frame toy key finish_frame ≡ ok b) × (frame_stream ≡ b ++ 84 ∷ [])
read_frame-written_example =
    read_frame-written toy key frame_stream frame_stream-IsBytes frame_reads

frame_writes : write_frame toy key finish_frame ≡ ok frame_bytes
unfolding wire_code frame_bytes finish_frame upload_digest hash_all first_frame chunk_frames basis
    tag_frame write_frame le_bytes
frame_writes = refl

finish_frame-session : length finish_frame.session_digest ≡ 32
unfolding finish_frame
finish_frame-session = refl

finish_frame-sequence : finish_frame.sequence < 2 ^ 32
unfolding finish_frame
finish_frame-sequence = omega arith

read_frame-write_example : read_frame toy key (frame_bytes ++ 84 ∷ []) ≡ ok (finish_frame, 84 ∷ [])
read_frame-write_example =
    read_frame-write toy key finish_frame (84 ∷ []) (λ k x. refl) finish_frame-sequence
      finish_frame-session frame_writes

abbrev some_response : ResponseHeader
some_response = record {
  request_digest = replicate 32 6;
  outputs = 2;
  response_len = 64;
  validation_ns = 10;
  queue_ns = 0;
  msm_ns = 300;
}

decode_response_header-encode_example :
    decode_response_header (encode_response_header some_response) ≡ ok some_response
decode_response_header-encode_example = decode_response_header-encode some_response (record {
  request_digest = refl;
  outputs = omega arith;
  response_len = omega arith;
  validation_ns = omega arith;
  queue_ns = omega arith;
  msm_ns = omega arith;
})
