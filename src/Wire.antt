-- ===== src/Wire.antt =====
-- The data of experiments/preprocessed-pbmo/src/transport.rs, and its constants. A `[u8; 32]` or a
-- Rust `String` is the list of its bytes.
pub mod Parser
pub mod Frame
pub mod Messages
pub mod Checks
pub mod Server
pub mod Loopback
pub mod Tcp
use Prim.Native.String.{String}
use thinwallet.Prelude.{ℕ, List, ◌^◌, ◌/◌, ◌∷◌, [], ◌++◌, ◌==◌, nat_eq, if◌then◌else◌}
use thinwallet.Prelude.Outcome.{Result, ok, err}
use thinwallet.Prelude.Bytes.{Bytes, text}

-- `PbmoTransportError`
pub data WireError : Type 0 where
  io : WireError
  authentication : WireError
  protocol : String → WireError
  -- `Protocol` with a text that the other side has sent, before `from_utf8_lossy`.
  protocol_message : Bytes → WireError
  state_error : String → WireError

-- `TransportRequestHeader`
pub record RequestHeader : Type 0 where
  pub protocol_version : ℕ
  pub backend_revision : Bytes
  pub curve_identifier : Bytes
  pub basis_digest : Bytes
  pub q : ℕ
  pub m : ℕ
  pub output_count : ℕ
  pub token_session_digest : Bytes
  pub workload_identifier : Bytes
  pub expected_scalar_count : ℕ
  pub request_byte_length : ℕ
  pub integrity_mode : Bytes
  pub nonce_challenge_context : Bytes
  pub expected_chunk_count : ℕ

-- `TransportChunk`
pub record Chunk : Type 0 where
  pub chunk_index : ℕ
  pub total_chunks : ℕ
  pub row : ℕ
  pub col_start : ℕ
  pub col_end : ℕ
  pub scalars : List Bytes

pub data FrameType : Type 0 where
  request_header masked_chunk finish_request response_header response_body error_frame abort :
      FrameType

pub record WireFrame : Type 0 where
  pub frame_type : FrameType
  pub sequence : ℕ
  pub session_digest : Bytes
  pub payload : Bytes

abbrev pub wire_protocol_version : ℕ
wire_protocol_version = 1

abbrev pub curve_name : Bytes
curve_name = text "ristretto255/curve25519-dalek-4.1.3"

abbrev pub integrity_hmac_sha256 : Bytes
integrity_hmac_sha256 = text "hmac-sha256-psk"

abbrev pub frame_magic : Bytes
frame_magic = text "TWPBMO1" ++ 0 ∷ []

abbrev pub frame_header_bytes : ℕ
frame_header_bytes = 84

abbrev pub max_frame_payload : ℕ
max_frame_payload = 2 ^ 20

abbrev pub point_bytes : ℕ
point_bytes = 32

abbrev pub scalar_bytes : ℕ
scalar_bytes = 32

-- `frame_type as u8`
unfoldable pub frame_code : FrameType → ℕ
frame_code request_header = 1
frame_code masked_chunk = 2
frame_code finish_request = 3
frame_code response_header = 4
frame_code response_body = 5
frame_code error_frame = 6
frame_code abort = 7

-- `FrameType::try_from`
unfoldable pub frame_type_of : ℕ → Result WireError FrameType
frame_type_of value =
    if value == 1
    then ok request_header
    else if value == 2
    then ok masked_chunk
    else if value == 3
    then ok finish_request
    else if value == 4
    then ok response_header
    else if value == 5
    then ok response_body
    else if value == 6
    then ok error_frame
    else if value == 7
    then ok abort
    else err (protocol "unknown frame type")
