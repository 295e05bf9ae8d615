-- ===== src/Field.antt =====
-- experiments/preprocessed-pbmo/src/field.rs: digests, mask scalars and batch challenges.
use thinwallet.Prelude.{ℕ, List, [], ◌∷◌, ◌++◌, length}
use thinwallet.Prelude.Bytes.{Bytes, text, le_bytes}
use thinwallet.Token.{protocol_version}
use thinwallet.External.{External}

pub record DomainMetadata : Type 0 where
  pub token_id : Bytes
  pub basis_digest : Bytes
  pub backend_revision : Bytes
  pub logical_commitment_id : Bytes
  pub relation_shape : Bytes
  pub q : ℕ
  pub m : ℕ

-- What `put_len_bytes` appends: `le_bytes 4` keeps the low 32 bits of the length.
unfoldable pub put_len_bytes : Bytes → Bytes
put_len_bytes value = le_bytes 4 (length value) ++ value

unfoldable pub mask_input : DomainMetadata → ℕ → ℕ → ℕ → Bytes
mask_input meta row col counter =
    put_len_bytes (text "thinwallet/preprocessed-pbmo/mask-to-field")
    ++ (le_bytes 2 protocol_version
        ++ (meta.token_id
            ++ (meta.basis_digest
                ++ (put_len_bytes meta.backend_revision
                    ++ (put_len_bytes meta.logical_commitment_id
                        ++ (put_len_bytes meta.relation_shape
                            ++ (le_bytes 4 meta.q
                                ++ (le_bytes 4 meta.m
                                    ++ (le_bytes 4 row
                                        ++ (le_bytes 4 col ++ le_bytes 8 counter))))))))))

module _ (X : External) where
  unfoldable pub derive_mask_scalar : Bytes → DomainMetadata → ℕ → ℕ → ℕ → X.Scalar
  derive_mask_scalar seed meta row col counter =
      X.scalar_from_wide (X.hmac_sha512 seed (mask_input meta row col counter))

  unfoldable pub derive_batch_challenge : Bytes → Bytes → Bytes → ℕ → X.Scalar
  derive_batch_challenge transcript token_id output_digest row = X.scalar_from_wide (
      X.sha512 (
        text "thinwallet/preprocessed-pbmo/batch-check/v2"
        ++ (le_bytes 2 protocol_version
            ++ (le_bytes 8 (length transcript)
                ++ (transcript ++ (token_id ++ (output_digest ++ le_bytes 4 row)))))))

-- The parts of a digest, each behind its length.
unfoldable pub digest_parts : List Bytes → Bytes
digest_parts [] = []
digest_parts (part ∷ parts) = le_bytes 8 (length part) ++ (part ++ digest_parts parts)

unfoldable pub digest32 : External → Bytes → List Bytes → Bytes
digest32 X domain parts = X.sha256 (le_bytes 4 (length domain) ++ (domain ++ digest_parts parts))
