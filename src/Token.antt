-- ===== src/Token.antt =====
-- The data of experiments/preprocessed-pbmo/src/token.rs and of its errors. A byte array or a
-- Rust `String` is the list of its bytes.
pub mod Equality
pub mod Codec
pub mod Generate
use thinwallet.Prelude.{ℕ, List, Option, ◌*◌, ◌^◌}
use thinwallet.Prelude.Bytes.{Bytes, text}
use Prim.Native.String.{String}

pub data TokenState : Type 0 where
  available reserved spent burned : TokenState

-- The texts are the sources' messages.
pub data TokenError : Type 0 where
  io : TokenError
  serialization : TokenError
  authentication : TokenError
  malformed : String → TokenError
  binding_mismatch : String → TokenError
  invalid_transition : TokenState → TokenState → TokenError
  duplicate_token : TokenError
  not_available : TokenError
  journal_authentication : TokenError
  monotonic : String → TokenError
  stale_generation : TokenError

pub record RelationShape : Type 0 where
  pub relation_id : Bytes
  pub logical_commitment_id : Bytes
  pub layout_version : Bytes

pub record TokenBinding : Type 0 where
  pub basis_digest : Bytes
  pub backend_revision : Bytes
  pub relation_shape : RelationShape
  pub q : ℕ
  pub m : ℕ

pub record ReservationBinding : Type 0 where
  pub ctx_digest : Bytes
  pub sid : Bytes
  pub iid : Bytes
  pub request_digest : Bytes

pub record TokenHeader : Type 0 where
  pub protocol_version : ℕ
  pub token_id : Bytes
  pub binding : TokenBinding
  pub creation_epoch : ℕ
  pub state : TokenState
  pub journal_reference : Bytes
  pub key_id : Bytes

-- The points of a token lie in the curve library's group, a parameter.
pub record Token (Point : Type 0) : Type 0 where
  pub token_id : Bytes
  pub binding : TokenBinding
  pub creation_epoch : ℕ
  pub state : TokenState
  pub journal_reference : Bytes
  pub correction_points : List Point
  pub seed : Bytes
  pub key_id : Bytes
  pub reservation_binding : Option ReservationBinding
  pub record_generation : ℕ

pub record LifecycleRecord : Type 0 where
  pub format_version : ℕ
  pub store_generation : ℕ
  pub tid : Bytes
  pub ctx_digest : Bytes
  pub state : TokenState
  pub sid : Bytes
  pub iid : Bytes
  pub request_digest : Bytes

pub record LifecycleSnapshot : Type 0 where
  pub format_version : ℕ
  pub store_generation : ℕ
  pub records : List LifecycleRecord

pub record AuthenticatedLifecycleSnapshot : Type 0 where
  pub snapshot : LifecycleSnapshot
  pub tag : Bytes

abbrev pub magic : Bytes
magic = text "PBMOTOK2"

abbrev pub max_metadata : ℕ
max_metadata = 16 * 1024

abbrev pub max_points : ℕ
max_points = 2 ^ 20

abbrev pub lifecycle_format_version : ℕ
lifecycle_format_version = 3

abbrev pub max_lifecycle_records : ℕ
max_lifecycle_records = 2 ^ 20

abbrev pub max_binding_text : ℕ
max_binding_text = 4096

-- Of lib.rs.
abbrev pub backend_revision : Bytes
backend_revision = text "libspartan-0.9.0/curve25519-dalek-4.1.3"

abbrev pub protocol_version : ℕ
protocol_version = 2
