-- ===== src/Wire/Messages/RoundTrip.antt =====
-- The request header of the wire (experiments/preprocessed-pbmo/src/transport.rs), written and read.
use thinwallet.Prelude.{[], ◌∷◌, ◌^◌, ◌≡◌, sym, ◌<◌, true, length, nat_eq}
use thinwallet.Prelude.Outcome.{ok, bind-eq-ok, ok-injective}
use thinwallet.Prelude.Bytes.{Bytes, be_bytes, utf8_valid}
use thinwallet.Token.Codec.{concat}
use thinwallet.Wire.{RequestHeader}
use thinwallet.Wire.Parser.{
  finish, put_string, take_bytes-append, uint-be, string-put, put_string-ok,
}
use thinwallet.Wire.Messages.{encode_request_header, decode_request_header}

-- The fields of a header are of their Rust types.
pub record IsRequestHeader (h : RequestHeader) : Type 0 where
  pub protocol_version : h.protocol_version < 2 ^ 16
  pub backend_revision : utf8_valid h.backend_revision ≡ true
  pub curve_identifier : utf8_valid h.curve_identifier ≡ true
  pub basis_digest : length h.basis_digest ≡ 32
  pub q : h.q < 2 ^ 32
  pub m : h.m < 2 ^ 32
  pub output_count : h.output_count < 2 ^ 32
  pub token_session_digest : length h.token_session_digest ≡ 32
  pub workload_identifier : utf8_valid h.workload_identifier ≡ true
  pub expected_scalar_count : h.expected_scalar_count < 2 ^ 64
  pub request_byte_length : h.request_byte_length < 2 ^ 64
  pub integrity_mode : utf8_valid h.integrity_mode ≡ true
  pub nonce_challenge_context : length h.nonce_challenge_context ≡ 32
  pub expected_chunk_count : h.expected_chunk_count < 2 ^ 32

-- `decode_request_header` reads back the header that `encode_request_header` wrote, where the
-- fields are of their Rust types.
pub decode_request_header-encode :
    (h : RequestHeader) {b : Bytes}
    → IsRequestHeader h
    → encode_request_header h ≡ ok b
    → decode_request_header b ≡ ok h
unfolding encode_request_header decode_request_header finish concat nat_eq
decode_request_header-encode h {b} is e =
    let (backend, eb, e) = bind-eq-ok (put_string h.backend_revision) _ e in
    let (curve, ec, e) = bind-eq-ok (put_string h.curve_identifier) _ e in
    let (workload, ew, e) = bind-eq-ok (put_string h.workload_identifier) _ e in
    let (mode, em, e) = bind-eq-ok (put_string h.integrity_mode) _ e in
    read backend curve workload mode eb ec ew em (ok-injective (sym e))
  where
    read :
        (backend curve workload mode : Bytes)
        → put_string h.backend_revision ≡ ok backend
        → put_string h.curve_identifier ≡ ok curve
        → put_string h.workload_identifier ≡ ok workload
        → put_string h.integrity_mode ≡ ok mode
        → b
          ≡ concat (
              be_bytes 2 h.protocol_version
              ∷ backend
              ∷ curve
              ∷ h.basis_digest
              ∷ be_bytes 4 h.q
              ∷ be_bytes 4 h.m
              ∷ be_bytes 4 h.output_count
              ∷ h.token_session_digest
              ∷ workload
              ∷ be_bytes 8 h.expected_scalar_count
              ∷ be_bytes 8 h.request_byte_length
              ∷ mode
              ∷ h.nonce_challenge_context
              ∷ be_bytes 4 h.expected_chunk_count
              ∷ [])
        → decode_request_header b ≡ ok h
    read backend curve workload mode eb ec ew em same =
        let (nb, xb) = put_string-ok h.backend_revision eb in
        let (nc, xc) = put_string-ok h.curve_identifier ec in
        let (nw, xw) = put_string-ok h.workload_identifier ew in
        let (nm, xm) = put_string-ok h.integrity_mode em in
        rw (
          same,
          xb,
          xc,
          xw,
          xm,
          uint-be 2 h.protocol_version _ is.protocol_version,
          string-put h.backend_revision _ nb is.backend_revision,
          string-put h.curve_identifier _ nc is.curve_identifier,
          take_bytes-append 32 h.basis_digest _ is.basis_digest,
          uint-be 4 h.q _ is.q,
          uint-be 4 h.m _ is.m,
          uint-be 4 h.output_count _ is.output_count,
          take_bytes-append 32 h.token_session_digest _ is.token_session_digest,
          string-put h.workload_identifier _ nw is.workload_identifier,
          uint-be 8 h.expected_scalar_count _ is.expected_scalar_count,
          uint-be 8 h.request_byte_length _ is.request_byte_length,
          string-put h.integrity_mode _ nm is.integrity_mode,
          take_bytes-append 32 h.nonce_challenge_context _ is.nonce_challenge_context,
          uint-be 4 h.expected_chunk_count [] is.expected_chunk_count,
        )
