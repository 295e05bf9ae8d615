-- ===== src/Wire/Messages.antt =====
-- The payloads of experiments/preprocessed-pbmo/src/transport.rs: each `encode_` function and its
-- `decode_` function.

pub mod RoundTrip
pub mod Canonical
pub mod Response
use thinwallet.Prelude.{
  ℕ, zero, suc, List, [], ◌∷◌, ◌+◌, ◌-◌, ◌*◌, ◌/◌, ◌%◌, ◌^◌, ◌++◌, Bool, not, ◌||◌, length, take,
  ltb, ◌==◌, nat_eq, if◌then◌else◌,
}
use thinwallet.Prelude.Outcome.{Result, ok, ◌>>=◌, ◌>>◌, reject_if}
use thinwallet.Prelude.Bytes.{Bytes, be_bytes, text}
use thinwallet.External.{External}
use thinwallet.Token.Codec.{concat}
use thinwallet.Wire.{
  WireError, protocol, RequestHeader, Chunk, max_frame_payload, scalar_bytes, point_bytes,
}
use thinwallet.Wire.Parser.{Parser, take_bytes, uint, string, finish, put_string}

unfoldable pub encode_request_header : RequestHeader → Result WireError Bytes
encode_request_header h = do
  backend ← put_string h.backend_revision
  curve ← put_string h.curve_identifier
  workload ← put_string h.workload_identifier
  mode ← put_string h.integrity_mode
  ok (
      concat (
        be_bytes 2 h.protocol_version
        ∷ backend
        ∷ curve
        ∷ h.basis_digest
        ∷ be_bytes 4 h.q
        ∷ be_bytes 4 h.m
        ∷ be_bytes 4 h.output_count
        ∷ h.token_session_digest
        ∷ workload
        ∷ be_bytes 8 h.expected_scalar_count
        ∷ be_bytes 8 h.request_byte_length
        ∷ mode
        ∷ h.nonce_challenge_context
        ∷ be_bytes 4 h.expected_chunk_count
        ∷ []))

unfoldable pub decode_request_header : Bytes → Result WireError RequestHeader
decode_request_header b = do
  (protocol_version, b) ← uint 2 b
  (backend_revision, b) ← string b
  (curve_identifier, b) ← string b
  (basis_digest, b) ← take_bytes 32 b
  (q, b) ← uint 4 b
  (m, b) ← uint 4 b
  (output_count, b) ← uint 4 b
  (token_session_digest, b) ← take_bytes 32 b
  (workload_identifier, b) ← string b
  (expected_scalar_count, b) ← uint 8 b
  (request_byte_length, b) ← uint 8 b
  (integrity_mode, b) ← string b
  (nonce_challenge_context, b) ← take_bytes 32 b
  (expected_chunk_count, b) ← uint 4 b
  finish b
  ok (record {
    protocol_version = protocol_version;
    backend_revision = backend_revision;
    curve_identifier = curve_identifier;
    basis_digest = basis_digest;
    q = q;
    m = m;
    output_count = output_count;
    token_session_digest = token_session_digest;
    workload_identifier = workload_identifier;
    expected_scalar_count = expected_scalar_count;
    request_byte_length = request_byte_length;
    integrity_mode = integrity_mode;
    nonce_challenge_context = nonce_challenge_context;
    expected_chunk_count = expected_chunk_count;
  })

-- The test at the start of `encode_chunk` and at the end of `decode_chunk`.
unfoldable pub bad_dimensions : Chunk → Bool
bad_dimensions c = ltb c.col_end c.col_start || not (length c.scalars == c.col_end - c.col_start)

unfoldable pub encode_chunk : Chunk → Result WireError Bytes
encode_chunk c = do
  reject_if (bad_dimensions c) (protocol "malformed chunk dimensions")
  ok (
      concat (
        be_bytes 4 c.chunk_index
        ∷ be_bytes 4 c.total_chunks
        ∷ be_bytes 4 c.row
        ∷ be_bytes 4 c.col_start
        ∷ be_bytes 4 c.col_end
        ∷ be_bytes 4 (length c.scalars % 2 ^ 32)
        ∷ c.scalars))

-- `(0..scalar_count).map(|_| cursor.array32()).collect()`
unfoldable pub read_scalars : ℕ → Parser (List Bytes)
read_scalars zero b = ok ([], b)
read_scalars (suc n) b = do (x, b) ← take_bytes 32 b; (xs, b) ← read_scalars n b; ok (x ∷ xs, b)

unfoldable pub decode_chunk : Bytes → Result WireError Chunk
decode_chunk b = do
  (chunk_index, b) ← uint 4 b
  (total_chunks, b) ← uint 4 b
  (row, b) ← uint 4 b
  (col_start, b) ← uint 4 b
  (col_end, b) ← uint 4 b
  (scalar_count, b) ← uint 4 b
  reject_if (ltb (max_frame_payload / scalar_bytes) scalar_count)
      (protocol "oversized scalar chunk")
  (scalars, b) ← read_scalars scalar_count b
  finish b
  let chunk : Chunk = record {
    chunk_index = chunk_index;
    total_chunks = total_chunks;
    row = row;
    col_start = col_start;
    col_end = col_end;
    scalars = scalars;
  }
  reject_if (bad_dimensions chunk) (protocol "malformed chunk dimensions")
  ok chunk

unfoldable pub encode_finish : ℕ → ℕ → Bytes → Bytes
encode_finish chunk_count scalar_count digest =
    concat (be_bytes 4 chunk_count ∷ be_bytes 8 scalar_count ∷ digest ∷ [])

unfoldable pub decode_finish : Bytes → Result WireError (ℕ × ℕ × Bytes)
decode_finish b = do
  (chunk_count, b) ← uint 4 b
  (scalar_count, b) ← uint 8 b
  (digest, b) ← take_bytes 32 b
  finish b
  ok (chunk_count, scalar_count, digest)

-- What a response header carries besides its status and the size of a point.
pub record ResponseHeader : Type 0 where
  pub request_digest : Bytes
  pub outputs : ℕ
  pub response_len : ℕ
  pub validation_ns : ℕ
  pub queue_ns : ℕ
  pub msm_ns : ℕ

unfoldable pub encode_response_header : ResponseHeader → Bytes
encode_response_header h = concat (
    be_bytes 2 0
    ∷ h.request_digest
    ∷ be_bytes 4 h.outputs
    ∷ be_bytes 2 point_bytes
    ∷ be_bytes 8 h.response_len
    ∷ be_bytes 8 h.validation_ns
    ∷ be_bytes 8 h.queue_ns
    ∷ be_bytes 8 h.msm_ns
    ∷ [])

unfoldable pub decode_response_header : Bytes → Result WireError ResponseHeader
decode_response_header b = do
  (status, b) ← uint 2 b
  reject_if (not (status == 0)) (protocol "server status failure")
  (request_digest, b) ← take_bytes 32 b
  (outputs, b) ← uint 4 b
  (size, b) ← uint 2 b
  reject_if (not (size == point_bytes)) (protocol "wrong encoded point size")
  (response_len, b) ← uint 8 b
  (validation_ns, b) ← uint 8 b
  (queue_ns, b) ← uint 8 b
  (msm_ns, b) ← uint 8 b
  finish b
  ok (record {
    request_digest = request_digest;
    outputs = outputs;
    response_len = response_len;
    validation_ns = validation_ns;
    queue_ns = queue_ns;
    msm_ns = msm_ns;
  })

unfoldable pub encode_error : Bytes → Bytes
encode_error message =
    let len = if ltb (length message) 512 then length message else 512 in
    be_bytes 2 len ++ take len message

unfoldable pub decode_error : Bytes → Result WireError Bytes
decode_error b = do (len, b) ← uint 2 b; (message, b) ← take_bytes len b; finish b; ok message

unfoldable pub hex_digit : ℕ → ℕ
hex_digit n = if ltb n 10 then n + 48 else n + 87

-- `hex`
unfoldable pub hex : Bytes → Bytes
hex [] = []
hex (b ∷ bs) = hex_digit (b / 16) ∷ hex_digit (b % 16) ∷ hex bs

module _ (X : External) where
  -- The hashers, as the bytes that they have been given.
  unfoldable pub request_hasher : Bytes → Bytes
  request_hasher header_payload =
      text "thinwallet/pbmo-wire-request/v1" ++ be_bytes 8 (length header_payload) ++ header_payload

  unfoldable pub update_request_hasher : Bytes → Bytes → Bytes
  update_request_hasher hasher chunk_payload =
      hasher ++ be_bytes 8 (length chunk_payload) ++ chunk_payload

  unfoldable pub finalize_digest : Bytes → Bytes
  finalize_digest hasher = X.sha256 hasher
