-- ===== src/Tests/Toy/Stream.antt =====
-- The same encoding for the manifest of a spool and for the frames and contexts of a session.
use thinwallet.Prelude.{
  ℕ, zero, suc, ◌≡◌, refl, ap, ◌∙◌, Option, none, some, List, [], ◌∷◌, ◌++◌, length, append_assoc,
}
use thinwallet.Prelude.Bytes.{Bytes}
use thinwallet.External.{SpoolManifest, PbmoContext, StreamFrame}
use thinwallet.Tests.Toy.Codec.{
  Reader, done, number, put, field, whole, ◌>>=◌, take_all, drop_all, take_end, drop_end, field-put,
  then,
}

ruleset stream = (append_assoc, take_all, drop_all, take_end, drop_end)

abbrev pub put_manifest : SpoolManifest → Bytes
put_manifest m =
    m.format_version
    ∷ m.logical_element_count
    ∷ m.byte_length
    ∷ m.chunk_size_bytes
    ∷ (put m.invocation_id
        ++ (put m.object_id
            ++ (put m.operator_tag
                ++ (put m.type_tag
                    ++ (put m.context_digest
                        ++ (put m.encoding ++ (put m.checksum_sha256 ++ put m.state)))))))

abbrev manifest : Reader SpoolManifest
manifest = do
  version ← number
  count ← number
  bytes ← number
  chunk ← number
  invocation ← field
  object ← field
  operator ← field
  type ← field
  context ← field
  encoding ← field
  checksum ← field
  state ← field
  done (record {
    format_version = version;
    invocation_id = invocation;
    object_id = object;
    operator_tag = operator;
    type_tag = type;
    context_digest = context;
    logical_element_count = count;
    byte_length = bytes;
    chunk_size_bytes = chunk;
    encoding = encoding;
    checksum_sha256 = checksum;
    state = state;
  })

abbrev pub get_manifest : Bytes → Option SpoolManifest
get_manifest b = whole (manifest b)

pub get_manifest-put : (m : SpoolManifest) → get_manifest (put_manifest m) ≡ some m
get_manifest-put m = simp stream

abbrev put_option : Option Bytes → Bytes
put_option none = 0 ∷ []
put_option (some b) = 1 ∷ put b

abbrev pub put_context : PbmoContext → Bytes
put_context c =
    c.protocol_version
    ∷ c.expected_chunks
    ∷ (put c.session_id
        ++ (put c.proof_id
            ++ (put_option c.token_id
                ++ (put c.logical_commitment_id
                    ++ (put c.basis_digest ++ (put c.backend_revision ++ put c.relation_shape))))))

abbrev put_all : List Bytes → Bytes
put_all [] = []
put_all (x ∷ xs) = put x ++ put_all xs

abbrev fields : ℕ → Reader (List Bytes)
fields zero = done []
fields (suc n) = do x ← field; xs ← fields n; done (x ∷ xs)

fields-put : (xs : List Bytes) → fields (length xs) (put_all xs) ≡ some (xs, [])
fields-put [] = refl
fields-put (x ∷ xs) =
    then field (put x ++ put_all xs) (λ y. do ys ← fields (length xs); done (y ∷ ys))
      (field-put x (put_all xs))
    ∙ then (fields (length xs)) (put_all xs) (λ ys. done (x ∷ ys)) (fields-put xs)

abbrev pub put_frame : StreamFrame → Bytes
put_frame f =
    f.row ∷ f.col_start ∷ f.col_end ∷ length f.scalars ∷ (put f.context_digest ++ put_all f.scalars)

abbrev frame : Reader StreamFrame
frame = do
  row ← number
  col_start ← number
  col_end ← number
  n ← number
  digest ← field
  scalars ← fields n
  done (record {
    context_digest = digest;
    row = row;
    col_start = col_start;
    col_end = col_end;
    scalars = scalars;
  })

abbrev pub get_frame : Bytes → Option StreamFrame
get_frame b = whole (frame b)

pub get_frame-put : (f : StreamFrame) → get_frame (put_frame f) ≡ some f
get_frame-put f =
    simp (take_all, drop_all)
      (ap whole (
        then (fields (length f.scalars)) (put_all f.scalars)
          (λ xs. done (record f { scalars = xs })) (fields-put f.scalars)))
