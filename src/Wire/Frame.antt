-- ===== src/Wire/Frame.antt =====
-- `tag_frame`, `write_frame` and `read_frame` of experiments/preprocessed-pbmo/src/transport.rs. A
-- stream is the bytes that it delivers until it ends.

pub mod Authentic
pub mod Written
use thinwallet.Prelude.{
  ℕ, List, [], ◌∷◌, ◌%◌, ◌^◌, ◌++◌, not, length, take, drop, ltb, ◌==◌, nat_eq, bytes_eq,
  if◌then◌else◌,
}
use thinwallet.Prelude.Outcome.{Result, ok, ◌>>=◌, ◌>>◌, reject_if}
use thinwallet.Prelude.Bytes.{Bytes, text, be_bytes, from_be}
use thinwallet.External.{External}
use thinwallet.Token.Codec.{concat}
use thinwallet.Wire.{
  WireError, io, authentication, protocol, FrameType, WireFrame, frame_magic, frame_header_bytes,
  max_frame_payload, wire_protocol_version, frame_code, frame_type_of,
}

-- `read_exact`
unfoldable pub read_exact : ℕ → Bytes → Result WireError (Bytes × Bytes)
read_exact n stream = do reject_if (ltb (length stream) n) io; ok (take n stream, drop n stream)

module _ (X : External) (key : Bytes) where
  unfoldable pub tag_frame : FrameType → ℕ → Bytes → Bytes → Bytes
  tag_frame frame_type sequence session_digest payload = X.hmac_sha256 key (
      concat (
        text "thinwallet/pbmo-wire-frame/v1"
        ∷ frame_magic
        ∷ be_bytes 2 wire_protocol_version
        ∷ (frame_code frame_type ∷ 0 ∷ [])
        ∷ be_bytes 4 sequence
        ∷ be_bytes 4 (length payload % 2 ^ 32)
        ∷ session_digest
        ∷ payload
        ∷ []))

  -- `write_frame`, as the bytes that it writes.
  unfoldable pub write_frame : WireFrame → Result WireError Bytes
  write_frame f = do
    reject_if (ltb max_frame_payload (length f.payload)) (protocol "oversized frame")
    ok (
        concat (
          frame_magic
          ∷ be_bytes 2 wire_protocol_version
          ∷ be_bytes 1 (frame_code f.frame_type)
          ∷ be_bytes 1 0
          ∷ be_bytes 4 f.sequence
          ∷ be_bytes 4 (length f.payload % 2 ^ 32)
          ∷ f.session_digest
          ∷ tag_frame f.frame_type f.sequence f.session_digest f.payload
          ∷ f.payload
          ∷ []))

  -- `read_frame`; the header is cut at 8, 10, 11, 12, 16, 20 and 52.
  unfoldable pub read_frame : Bytes → Result WireError (WireFrame × Bytes)
  read_frame stream = do
    (header, stream) ← read_exact frame_header_bytes stream
    let header8 = drop 8 header
    let header10 = drop 2 header8
    let header11 = drop 1 header10
    let header12 = drop 1 header11
    let header16 = drop 4 header12
    let header20 = drop 4 header16
    let header52 = drop 32 header20
    reject_if (not (take 8 header == frame_magic)) (protocol "wrong frame magic")
    reject_if (not (from_be (take 2 header8) == wire_protocol_version))
        (protocol "unsupported wire version")
    frame_type ← frame_type_of (from_be (take 1 header10))
    reject_if (not (from_be (take 1 header11) == 0)) (protocol "unsupported frame flags")
    let sequence = from_be (take 4 header12)
    let payload_len = from_be (take 4 header16)
    reject_if (ltb max_frame_payload payload_len) (protocol "oversized frame")
    let session_digest = take 32 header20
    (payload, stream) ← read_exact payload_len stream
    reject_if (not (tag_frame frame_type sequence session_digest payload == header52))
        authentication
    ok (
      record {
        frame_type = frame_type;
        sequence = sequence;
        session_digest = session_digest;
        payload = payload;
      },
      stream,
    )
