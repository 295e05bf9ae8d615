-- ===== src/Token/Generate.antt =====
-- `TokenBinding::domain_metadata`, `TokenBinding::context_digest`, `Token::generate` and `Token::generate_with_material` of
-- experiments/preprocessed-pbmo/src/token.rs. The clock's epoch and what the generator fills are
-- arguments.
use thinwallet.Prelude.{
  ℕ, zero, suc, List, [], ◌∷◌, ◌++◌, not, ◌||◌, none, length, replicate, ◌==◌, nat_eq, bytes_eq,
}
use thinwallet.Prelude.Outcome.{Result, ok, ◌>>◌, reject_if}
use thinwallet.Prelude.Bytes.{Bytes, text}
use thinwallet.Token.{
  Token, TokenBinding, TokenError, binding_mismatch, available, backend_revision, protocol_version,
}
use thinwallet.External.{External}
use thinwallet.Field.{DomainMetadata, derive_mask_scalar, digest32}

-- `format!("{}:{}", relation_id, layout_version)`
unfoldable pub encoded_shape : TokenBinding → Bytes
encoded_shape b = b.relation_shape.relation_id ++ (text ":" ++ b.relation_shape.layout_version)

unfoldable pub domain_metadata : TokenBinding → Bytes → DomainMetadata
domain_metadata b token_id = record {
  token_id = token_id;
  basis_digest = b.basis_digest;
  backend_revision = b.backend_revision;
  logical_commitment_id = b.relation_shape.logical_commitment_id;
  relation_shape = encoded_shape b;
  q = b.q;
  m = b.m;
}

module _ (X : External) where
  open X use {Point, Scalar}

  unfoldable pub context_digest : TokenBinding → Bytes
  context_digest b =
      digest32 X (text "thinwallet/preprocessed-pbmo/lifecycle-context/v3")
        (X.serialize_binding protocol_version b ∷ [])

  -- The masks of `n` columns of a row, from column `col` on.
  unfoldable pub mask_row : Bytes → DomainMetadata → ℕ → ℕ → ℕ → List Scalar
  mask_row seed meta row col zero = []
  mask_row seed meta row col (suc n) =
      derive_mask_scalar X seed meta row col 0 ∷ mask_row seed meta row (suc col) n

  -- The correction points of `n` rows, from row `row` on.
  unfoldable pub corrections : Bytes → DomainMetadata → List Point → ℕ → ℕ → ℕ → List Point
  corrections seed meta bases m row zero = []
  corrections seed meta bases m row (suc n) =
      X.msm (mask_row seed meta row 0 m) bases ∷ corrections seed meta bases m (suc row) n

  unfoldable pub generate_with_material :
      ℕ → TokenBinding → List Point → Bytes → Bytes → Result TokenError (Token Point)
  generate_with_material epoch b bases token_id seed = do
    reject_if ((b.q == 0) || (b.m == 0) || not (length bases == b.m))
        (binding_mismatch "invalid dimensions or basis")
    ok (record {
      token_id = token_id;
      binding = b;
      creation_epoch = epoch;
      state = available;
      journal_reference = replicate 32 0;
      correction_points = corrections seed (domain_metadata b token_id) bases b.m 0 b.q;
      seed = seed;
      key_id = text "software-test-key-v1";
      reservation_binding = none;
      record_generation = 0;
    })

  unfoldable pub generate :
      ℕ → TokenBinding → List Point → Bytes → Bytes → Result TokenError (Token Point)
  generate epoch b bases token_id seed = do
    reject_if (not (b.backend_revision == backend_revision)) (binding_mismatch "backend revision")
    reject_if ((b.q == 0) || (b.m == 0) || not (length bases == b.m))
        (binding_mismatch "invalid dimensions or basis")
    generate_with_material epoch b bases token_id seed
