-- ===== src/Provider/Stream.antt =====
-- `push_chunk` of experiments/preprocessed-pbmo/src/provider.rs.
use thinwallet.Prelude.{
  ℕ, zero, suc, ◌+◌, ◌-◌, ◌*◌, ◌%◌, ◌^◌, Bool, not, ◌||◌, Option, none, some, List, [], ◌∷◌, map,
  length, take, drop, set, get_elem?, ltb, leb, ◌==◌, nat_eq, bytes_eq, option_eq, if◌then◌else◌,
}
use thinwallet.Prelude.Outcome.{Result, ok, reject_if, ok_or}
use thinwallet.Prelude.Action.{pure, lift, gets, modify, ◌>>=◌, ◌>>◌}
use thinwallet.Prelude.Bytes.{Bytes}
use thinwallet.External.{External, StreamFrame}
use thinwallet.Token.{Token}
use thinwallet.Token.Generate.{domain_metadata}
use thinwallet.Field.{DomainMetadata, derive_mask_scalar}
use thinwallet.Spool.{append}
use thinwallet.Wire.{Chunk}
use thinwallet.Provider.{
  PbmoError, stream_error, serialization, io, PbmoTransport, SessionMode, native, plain, semi,
  malicious, is_native, map_err, context_binding_digest, Session, OnSession, on_transport,
}

-- A chunk as it is pushed: its row, its columns and its scalars.
pub record Push (Scalar : Type 0) : Type 0 where
  pub row : ℕ
  pub col_start : ℕ
  pub col_end : ℕ
  pub scalars : List Scalar

unfoldable pub out_of_order : {Scalar : Type 0} → ℕ → ℕ → List ℕ → Push Scalar → Bool
out_of_order q m next_col p =
    leb q p.row
    || not (get_elem? next_col p.row == some p.col_start)
    || ltb m p.col_end
    || not ((p.col_end + 2 ^ 64 - p.col_start) % 2 ^ 64 == length p.scalars)

module _ (X : External) where
  open X use {Point, Scalar}

  -- The masked scalars of a row, from column `col` on.
  unfoldable pub mask_from : Bytes → DomainMetadata → ℕ → ℕ → List Scalar → List Scalar
  mask_from seed meta row col [] = []
  mask_from seed meta row col (s ∷ ss) =
      X.add_scalar s (derive_mask_scalar X seed meta (row % 2 ^ 32) (col % 2 ^ 32) 0)
      ∷ mask_from seed meta row (suc col) ss

  unfoldable pub masked : Token Point → ℕ → ℕ → List Scalar → List Scalar
  masked token = mask_from token.seed (domain_metadata token.binding token.token_id)

  -- `wire_scalars`
  unfoldable pub wire_scalars : SessionMode Point → ℕ → ℕ → List Scalar → List Scalar
  unfolding masked
  wire_scalars native row col ss = ss
  wire_scalars plain row col ss = ss
  wire_scalars (semi token) row col ss = masked token row col ss
  wire_scalars (malicious token spool) row col ss = masked token row col ss

  -- `accumulators[row] += chunk_point`
  unfoldable pub add_at : List Point → ℕ → Point → List Point
  add_at [] i p = []
  add_at (a ∷ rest) zero p = X.add_point a p ∷ rest
  add_at (a ∷ rest) (suc i) p = a ∷ add_at rest i p

  unfoldable pub append_spool :
      List Bytes → SessionMode Point → Result PbmoError (Unit {0}) × SessionMode Point
  append_spool encoded (malicious token spool) =
      let r = append encoded spool in (map_err io r.0, malicious token r.1)
  append_spool encoded native = (ok tt, native)
  append_spool encoded plain = (ok tt, plain)
  append_spool encoded (semi token) = (ok tt, semi token)

  unfoldable pub frame_of : Bytes → Push Scalar → List Bytes → StreamFrame
  frame_of digest p encoded = record {
    context_digest = digest;
    row = p.row % 2 ^ 32;
    col_start = p.col_start % 2 ^ 32;
    col_end = p.col_end % 2 ^ 32;
    scalars = encoded;
  }

  module _ (T : PbmoTransport Point) where
    unfoldable pub spool_chunk : List Bytes → OnSession X T (Unit {0})
    spool_chunk encoded s = let r = append_spool encoded s.mode in (r.0, record s { mode = r.1 })

    -- The frame that a session without a transport encodes and decodes again.
    unfoldable pub check_frame : Bytes → Push Scalar → List Bytes → OnSession X T (Unit {0})
    check_frame digest p encoded = do
      bytes ← lift (ok_or serialization (X.serialize_frame (frame_of digest p encoded)))
      modify (λ s. record s {
        metrics = record s.metrics {
          upload_bytes = (s.metrics.upload_bytes + length bytes) % 2 ^ 64;
        };
      })
      decoded ← lift (ok_or serialization (X.deserialize_frame bytes))
      lift (
          reject_if
            (not (decoded.context_digest == digest)
              || not (decoded.row == p.row)
              || not (decoded.col_start == p.col_start)
              || not (decoded.col_end == p.col_end))
            (stream_error "frame binding mismatch"))

    unfoldable pub add_locally : Push Scalar → List Scalar → OnSession X T (Unit {0})
    add_locally p wire = modify (λ s. record s {
      accumulators =
          add_at s.accumulators p.row
            (X.msm wire (take (p.col_end - p.col_start) (drop p.col_start s.bases)));
    })

    unfoldable pub chunk_of : Session X T → Push Scalar → List Bytes → Chunk
    chunk_of s p encoded = record {
      chunk_index = s.metrics.chunks % 2 ^ 32;
      total_chunks = s.context.expected_chunks;
      row = p.row % 2 ^ 32;
      col_start = p.col_start % 2 ^ 32;
      col_end = p.col_end % 2 ^ 32;
      scalars = encoded;
    }

    -- The chunk is sent, or, without a transport, checked and added here.
    unfoldable pub deliver :
        Bytes → Push Scalar → List Scalar → List Bytes → Option T.Box → OnSession X T (Unit {0})
    deliver digest p wire encoded (some box) = do
      s ← gets (λ s. s)
      on_transport X T (T.send_masked_chunk (chunk_of s p encoded)) box
    deliver digest p wire encoded none = do
      s ← gets (λ s. s)
      if is_native s.mode then pure tt else check_frame digest p encoded
      add_locally p wire

    unfoldable pub mask_count : SessionMode Point → ℕ → ℕ
    mask_count native n = 0
    mask_count plain n = 0
    mask_count (semi token) n = n
    mask_count (malicious token spool) n = n

    unfoldable pub spool_count : SessionMode Point → ℕ → ℕ
    spool_count native n = 0
    spool_count plain n = 0
    spool_count (semi token) n = 0
    spool_count (malicious token spool) n = n

    unfoldable pub masked_counted : List Scalar → Session X T → Session X T
    masked_counted wire s = record s {
      metrics = record s.metrics {
        client_mask_field_ops =
            (s.metrics.client_mask_field_ops + mask_count s.mode (length wire)) % 2 ^ 64;
        working_scalar_peak =
            if ltb s.metrics.working_scalar_peak (length wire)
            then length wire
            else s.metrics.working_scalar_peak;
      };
    }

    unfoldable pub spool_counted : List Scalar → Session X T → Session X T
    spool_counted wire s = record s {
      metrics = record s.metrics {
        spool_bytes_written =
            (s.metrics.spool_bytes_written + spool_count s.mode (length wire * 32)) % 2 ^ 64;
      };
    }

    unfoldable pub chunk_counted : Push Scalar → List Scalar → Session X T → Session X T
    chunk_counted p wire s = record s {
      next_col = set s.next_col p.row p.col_end;
      metrics = record s.metrics {
        chunks = (s.metrics.chunks + 1) % 2 ^ 64;
        server_group_terms = (s.metrics.server_group_terms + length wire) % 2 ^ 64;
      };
    }

    unfoldable pub push_chunk : Push Scalar → OnSession X T (Unit {0})
    push_chunk p = do
      s ← gets (λ s. s)
      lift (
          reject_if (out_of_order s.q s.m s.next_col p)
            (stream_error "out-of-order or malformed row chunk"))
      let wire = wire_scalars s.mode p.row p.col_start p.scalars
      let encoded = map X.scalar_to_bytes wire
      modify (masked_counted wire)
      spool_chunk encoded
      modify (spool_counted wire)
      digest ← lift (context_binding_digest X s.context s.q s.m)
      deliver digest p wire encoded s.transport
      modify (chunk_counted p wire)
