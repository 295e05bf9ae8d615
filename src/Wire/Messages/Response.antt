-- ===== src/Wire/Messages/Response.antt =====
-- The response header of the wire (experiments/preprocessed-pbmo/src/transport.rs), written and
-- read.
use thinwallet.Prelude.{[], ◌^◌, ◌≡◌, refl, ◌<◌, length, nat_eq, arith}
use thinwallet.Prelude.Outcome.{ok}
use thinwallet.Token.Codec.{concat}
use thinwallet.Wire.{point_bytes}
use thinwallet.Wire.Parser.{finish, take_bytes-append, uint-be}
use thinwallet.Wire.Messages.{ResponseHeader, encode_response_header, decode_response_header}

-- The fields are of their Rust types.
pub record IsResponseHeader (h : ResponseHeader) : Type 0 where
  pub request_digest : length h.request_digest ≡ 32
  pub outputs : h.outputs < 2 ^ 32
  pub response_len : h.response_len < 2 ^ 64
  pub validation_ns : h.validation_ns < 2 ^ 64
  pub queue_ns : h.queue_ns < 2 ^ 64
  pub msm_ns : h.msm_ns < 2 ^ 64

-- `decode_response_header` reads back the header that `encode_response_header` wrote, where the
-- fields are of their Rust types.
pub decode_response_header-encode :
    (h : ResponseHeader)
    → IsResponseHeader h
    → decode_response_header (encode_response_header h) ≡ ok h
unfolding decode_response_header encode_response_header concat finish nat_eq
decode_response_header-encode h is =
    rw
      (
        uint-be 2 0 _ (omega arith),
        take_bytes-append 32 h.request_digest _ is.request_digest,
        uint-be 4 h.outputs _ is.outputs,
        uint-be 2 point_bytes _ (omega arith),
        uint-be 8 h.response_len _ is.response_len,
        uint-be 8 h.validation_ns _ is.validation_ns,
        uint-be 8 h.queue_ns _ is.queue_ns,
        uint-be 8 h.msm_ns [] is.msm_ns,
      )
      refl
