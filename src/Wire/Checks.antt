-- ===== src/Wire/Checks.antt =====
-- `validate_header`, `validate_chunk` and `validate_complete` of
-- experiments/preprocessed-pbmo/src/transport.rs.
use thinwallet.Prelude.{
  ℕ, List, [], ◌∷◌, map, ◌-◌, ◌*◌, ◌%◌, ◌^◌, Bool, not, ◌||◌, any, length, ltb, leb, get_elem?,
  some, ◌==◌, nat_eq, bytes_eq, option_eq,
}
use thinwallet.Prelude.Outcome.{Result, ◌>>◌, reject_if}
use thinwallet.Prelude.Bytes.{Bytes, text}
use thinwallet.External.{External}
use thinwallet.Token.Codec.{concat}
use thinwallet.Field.{digest32}
use thinwallet.Wire.{
  WireError, protocol, RequestHeader, Chunk, wire_protocol_version, curve_name,
  integrity_hmac_sha256, scalar_bytes,
}

module _ (X : External) where
  -- `basis_digest` of experiments/preprocessed-pbmo/src/token.rs
  unfoldable pub basis_digest : List X.Point → Bytes
  basis_digest bases =
      digest32 X (text "thinwallet/preprocessed-pbmo/basis/v2") (concat (map X.compress bases) ∷ [])

  unfoldable pub bad_size : RequestHeader → List X.Point → Bool
  bad_size h bases =
      (h.q == 0) || (h.m == 0) || not (h.output_count == h.q) || not (h.m == length bases)

  unfoldable pub validate_header :
      RequestHeader → List X.Point → Bytes → Result WireError (Unit {0})
  validate_header h bases expected_backend = do
    reject_if (not (h.protocol_version == wire_protocol_version))
        (protocol "unsupported protocol version")
    reject_if (not (h.backend_revision == expected_backend)) (protocol "wrong backend revision")
    reject_if (not (h.curve_identifier == curve_name)) (protocol "wrong curve identifier")
    reject_if (bad_size h bases) (protocol "wrong q/m/output dimensions")
    reject_if (not (h.basis_digest == basis_digest bases)) (protocol "wrong basis digest")
    reject_if (not (h.expected_scalar_count == h.q * h.m)) (protocol "incorrect scalar count")
    reject_if (not (h.request_byte_length == h.expected_scalar_count * scalar_bytes % 2 ^ 64))
        (protocol "incorrect request byte length")
    reject_if ((h.expected_chunk_count == 0) || not (h.integrity_mode == integrity_hmac_sha256))
        (protocol "unsupported integrity mode/chunk count")

unfoldable pub wrong_binding : Chunk → RequestHeader → Bool
wrong_binding c h = not (c.total_chunks == h.expected_chunk_count) || leb h.q c.row

unfoldable pub wrong_range : Chunk → RequestHeader → List ℕ → Bool
wrong_range c h next_col =
    not (get_elem? next_col c.row == some c.col_start)
    || ltb h.m c.col_end
    || leb c.col_end c.col_start

-- `next_col` has an element for each of the `q` rows, so the index `next_col[row]` is in range once
-- the row has been compared with `q`.
unfoldable pub validate_chunk : Chunk → RequestHeader → ℕ → List ℕ → Result WireError (Unit {0})
validate_chunk c h next_chunk next_col = do
  reject_if (not (c.chunk_index == next_chunk))
      (protocol "duplicate, missing, or out-of-order chunk")
  reject_if (wrong_binding c h) (protocol "wrong chunk binding")
  reject_if (wrong_range c h next_col) (protocol "out-of-order chunk range")
  reject_if (not (length c.scalars == c.col_end - c.col_start))
      (protocol "chunk scalar count mismatch")

unfoldable pub validate_complete : RequestHeader → ℕ → ℕ → List ℕ → Result WireError (Unit {0})
validate_complete h chunks scalars next_col =
    reject_if
      (not (chunks == h.expected_chunk_count)
        || not (scalars == h.expected_scalar_count)
        || any (λ v. not (v == h.m)) next_col)
      (protocol "incomplete request")
