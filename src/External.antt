-- ===== src/External.antt =====
-- The third-party code that the program calls, as a record of its functions: curve25519-dalek
-- (points, scalars), hmac and sha2, chacha20poly1305, and bincode. What the program relies on of
-- each is a record of laws, which a theorem takes as a hypothesis where it needs them.
use thinwallet.Prelude.{ℕ, List, [], ◌∷◌, Option, some, ◌≡◌, length}
use thinwallet.Prelude.Bytes.{Bytes}
use thinwallet.Token.{TokenHeader, TokenBinding, LifecycleSnapshot, AuthenticatedLifecycleSnapshot}

-- The manifest of a spool (experiments/preprocessed-pbmo/src/secure_spool.rs), which bincode writes.
pub record SpoolManifest : Type 0 where
  pub format_version : ℕ
  pub invocation_id : Bytes
  pub object_id : Bytes
  pub operator_tag : Bytes
  pub type_tag : Bytes
  pub context_digest : Bytes
  pub logical_element_count : ℕ
  pub byte_length : ℕ
  pub chunk_size_bytes : ℕ
  pub encoding : Bytes
  pub checksum_sha256 : Bytes
  pub state : Bytes

-- A context of a session (experiments/preprocessed-pbmo/src/provider.rs), which bincode writes.
pub record PbmoContext : Type 0 where
  pub protocol_version : ℕ
  pub session_id : Bytes
  pub proof_id : Bytes
  pub token_id : Option Bytes
  pub logical_commitment_id : Bytes
  pub basis_digest : Bytes
  pub backend_revision : Bytes
  pub relation_shape : Bytes
  pub expected_chunks : ℕ

-- A frame of a session without a transport, which bincode writes.
pub record StreamFrame : Type 0 where
  pub context_digest : Bytes
  pub row : ℕ
  pub col_start : ℕ
  pub col_end : ℕ
  pub scalars : List Bytes

pub record External : Type 1 where
  pub Point : Type 0
  pub Scalar : Type 0
  -- `RistrettoPoint::compress().to_bytes()` and `CompressedRistretto::decompress`
  pub compress : Point → Bytes
  pub decompress : Bytes → Option Point
  pub identity : Point
  pub add_point : Point → Point → Point
  pub sub_point : Point → Point → Point
  -- `RistrettoPoint::vartime_multiscalar_mul`
  pub msm : List Scalar → List Point → Point
  pub zero_scalar : Scalar
  pub add_scalar : Scalar → Scalar → Scalar
  pub mul_scalar : Scalar → Scalar → Scalar
  pub scalar_to_bytes : Scalar → Bytes
  pub scalar_from_canonical_bytes : Bytes → Option Scalar
  pub scalar_from_wide : Bytes → Scalar
  -- key, then message
  pub hmac_sha256 : Bytes → Bytes → Bytes
  pub hmac_sha512 : Bytes → Bytes → Bytes
  pub sha256 : Bytes → Bytes
  pub sha512 : Bytes → Bytes
  -- XChaCha20-Poly1305: key, nonce, associated data, message
  pub aead_encrypt : Bytes → Bytes → Bytes → Bytes → Option Bytes
  pub aead_decrypt : Bytes → Bytes → Bytes → Bytes → Option Bytes
  -- `bincode::serialize` and `bincode::deserialize` at each type
  pub serialize_header : TokenHeader → Option Bytes
  pub deserialize_header : Bytes → Option TokenHeader
  pub serialize_binding : ℕ → TokenBinding → Bytes
  pub serialize_snapshot : LifecycleSnapshot → Option Bytes
  pub serialize_envelope : AuthenticatedLifecycleSnapshot → Option Bytes
  pub deserialize_envelope : Bytes → Option AuthenticatedLifecycleSnapshot
  pub serialize_manifest : SpoolManifest → Option Bytes
  pub deserialize_manifest : Bytes → Option SpoolManifest
  pub serialize_context : PbmoContext → Option Bytes
  -- of the triple of a context, `q` and `m`
  pub serialize_request : PbmoContext → ℕ → ℕ → Option Bytes
  pub serialize_frame : StreamFrame → Option Bytes
  pub deserialize_frame : Bytes → Option StreamFrame

-- bincode reads back what it wrote.
pub record BincodeLaws (X : External) : Type 0 where
  pub header_back :
      (h : TokenHeader) (b : Bytes)
      → X.serialize_header h ≡ some b
      → X.deserialize_header b ≡ some h
  pub envelope_back :
      (e : AuthenticatedLifecycleSnapshot) (b : Bytes)
      → X.serialize_envelope e ≡ some b
      → X.deserialize_envelope b ≡ some e

-- The cipher opens what it sealed, and a point decompresses to itself.
pub record CipherLaws (X : External) : Type 0 where
  pub decrypt_back :
      (key nonce aad msg c : Bytes)
      → X.aead_encrypt key nonce aad msg ≡ some c
      → X.aead_decrypt key nonce aad c ≡ some msg
  pub decompress_back : (p : X.Point) → X.decompress (X.compress p) ≡ some p
  pub compress_length : (p : X.Point) → length (X.compress p) ≡ 32

-- bincode writes a manifest and reads it back.
pub record ManifestLaws (X : External) : Type 0 where
  pub manifest_written : (m : SpoolManifest) → (b : Bytes) × (X.serialize_manifest m ≡ some b)
  pub manifest_back :
      (m : SpoolManifest) (b : Bytes)
      → X.serialize_manifest m ≡ some b
      → X.deserialize_manifest b ≡ some m

-- bincode writes the frames and the requests of a session, and reads a frame back.
pub record StreamLaws (X : External) : Type 0 where
  pub context_written : (c : PbmoContext) → (b : Bytes) × (X.serialize_context c ≡ some b)
  pub request_written :
      (c : PbmoContext) (q m : ℕ) → (b : Bytes) × (X.serialize_request c q m ≡ some b)
  pub frame_written : (f : StreamFrame) → (b : Bytes) × (X.serialize_frame f ≡ some b)
  pub frame_back :
      (f : StreamFrame) (b : Bytes) → X.serialize_frame f ≡ some b → X.deserialize_frame b ≡ some f

-- The points are a commutative group and a module over the scalars, of which `msm` computes sums,
-- and a scalar is read back from its canonical bytes.
pub record GroupLaws (X : External) : Type 0 where
  pub add_point_assoc :
      (a b c : X.Point) → X.add_point (X.add_point a b) c ≡ X.add_point a (X.add_point b c)
  pub add_point_comm : (a b : X.Point) → X.add_point a b ≡ X.add_point b a
  pub identity-add : (a : X.Point) → X.add_point X.identity a ≡ a
  pub add-sub : (a b : X.Point) → X.sub_point (X.add_point a b) b ≡ a
  pub msm-nil : X.msm [] [] ≡ X.identity
  pub msm-cons :
      (s : X.Scalar) (ss : List X.Scalar) (p : X.Point) (ps : List X.Point)
      → X.msm (s ∷ ss) (p ∷ ps) ≡ X.add_point (X.msm (s ∷ []) (p ∷ [])) (X.msm ss ps)
  pub zero-term : (p : X.Point) → X.msm (X.zero_scalar ∷ []) (p ∷ []) ≡ X.identity
  pub add-term :
      (s t : X.Scalar) (p : X.Point)
      → X.msm (X.add_scalar s t ∷ []) (p ∷ [])
        ≡ X.add_point (X.msm (s ∷ []) (p ∷ [])) (X.msm (t ∷ []) (p ∷ []))
  pub mul-term :
      (s t : X.Scalar) (p : X.Point)
      → X.msm (X.mul_scalar s t ∷ []) (p ∷ []) ≡ X.msm (s ∷ []) (X.msm (t ∷ []) (p ∷ []) ∷ [])
  pub term-identity : (s : X.Scalar) → X.msm (s ∷ []) (X.identity ∷ []) ≡ X.identity
  pub term-add :
      (s : X.Scalar) (p q : X.Point)
      → X.msm (s ∷ []) (X.add_point p q ∷ [])
        ≡ X.add_point (X.msm (s ∷ []) (p ∷ [])) (X.msm (s ∷ []) (q ∷ []))

pub record ScalarLaws (X : External) : Type 0 where
  pub scalar_back : (s : X.Scalar) → X.scalar_from_canonical_bytes (X.scalar_to_bytes s) ≡ some s
  pub scalar_length : (s : X.Scalar) → length (X.scalar_to_bytes s) ≡ 32
