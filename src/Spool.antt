-- ===== src/Spool.antt =====
-- `SecureSpool` of experiments/preprocessed-pbmo/src/secure_spool.rs, on Unix. The directory is the
-- contents of its files by name. A file that is open is named by its entry: nobody else writes in a
-- directory that only its owner may enter. `faults` says of each coming system call whether it
-- fails; past its end none does.
pub mod Files
pub mod Contents
pub mod RoundTrip
use Prim.Native.String.{String}
use thinwallet.Prelude.{
  ℕ, ◌+◌, ◌*◌, ◌%◌, ◌^◌, Bool, true, false, not, ◌||◌, Option, none, some, List, [], ◌∷◌, ◌++◌, any,
  length, ltb, is_some, ◌==◌, nat_eq, bytes_eq, if◌then◌else◌,
}
use thinwallet.Prelude.Outcome.{Result, ok, err, reject_if, ok_or}
use thinwallet.Prelude.Action.{Action, pure, lift, gets, modify, ◌>>=◌, ◌>>◌, zoom}
use thinwallet.Prelude.Bytes.{Bytes, text}
use thinwallet.External.{External, SpoolManifest}
use thinwallet.Store.World.{lookup}

-- `io::ErrorKind`
pub data ErrorKind : Type 0 where
  invalid_input already_exists broken_pipe unexpected_eof invalid_data not_found other : ErrorKind

-- `io::Error`; what the operating system reports carries no text here.
pub record IoError : Type 0 where
  pub kind : ErrorKind
  pub message : String

abbrev pub os_error : ErrorKind → IoError
os_error kind = record { kind = kind; message = "" }

abbrev pub io_error : ErrorKind → String → IoError
io_error kind message = record { kind = kind; message = message }

pub record SpoolDescriptor : Type 0 where
  pub invocation_id : Bytes
  pub object_id : Bytes
  pub context_digest : Bytes
  pub logical_element_count : ℕ

pub record SecureDirectory : Type 0 where
  pub files : List (Bytes × Bytes)
  pub faults : List Bool

pub record SecureSpool : Type 0 where
  pub directory : SecureDirectory
  pub descriptor : SpoolDescriptor
  pub temp_name : Bytes
  pub final_name : Bytes
  pub manifest_temp_name : Bytes
  pub manifest_name : Bytes
  -- Whether the payload is open; it is the file `temp_name`.
  pub payload : Bool
  pub written_elements : ℕ
  pub sealed : Bool

abbrev pub format_version : ℕ
format_version = 1

abbrev pub encoding : Bytes
encoding = text "ristretto-scalar-canonical-v1"

abbrev pub OnDirectory : Type 0 → Type 0
OnDirectory A = Action IoError SecureDirectory A

-- `validate_name`
unfoldable pub validate_name : Bytes → Result IoError (Unit {0})
validate_name name =
    reject_if
      (length name == 0
        || (name == text ".")
        || (name == text "..")
        || any (λ b. b == b'/') name
        || any (λ b. b == 92) name
        || any (λ b. b == 0) name)
      (io_error ErrorKind.invalid_input "unsafe PBMO spool object name")

unfoldable pub after_fault :
    List Bool → SecureDirectory → Result IoError (Unit {0}) × SecureDirectory
after_fault [] d = (ok tt, d)
after_fault (true ∷ later) d = (err (os_error ErrorKind.other), record d { faults = later })
after_fault (false ∷ later) d = (ok tt, record d { faults = later })

unfoldable pub syscall : OnDirectory (Unit {0})
unfolding after_fault
syscall d = after_fault d.faults d

-- A file's entry replaced, and taken away.
unfoldable pub put_file : Bytes → Bytes → List (Bytes × Bytes) → List (Bytes × Bytes)
put_file name content files = (name, content) ∷ files

unfoldable pub drop_file : Bytes → List (Bytes × Bytes) → List (Bytes × Bytes)
drop_file name [] = []
drop_file name ((n, c) ∷ files) =
    if n == name then drop_file name files else (n, c) ∷ drop_file name files

unfoldable pub write_file : Bytes → Bytes → OnDirectory (Unit {0})
unfolding put_file
write_file name content = modify (λ d. record d { files = put_file name content d.files })

unfoldable pub read_file : Bytes → OnDirectory Bytes
read_file name = do
  content ← gets (λ d. lookup name d.files)
  lift (ok_or (os_error ErrorKind.not_found) content)

unfoldable pub create_file_exclusive : Bytes → OnDirectory (Unit {0})
create_file_exclusive name = do
  lift (validate_name name)
  syscall
  found ← gets (λ d. lookup name d.files)
  lift (reject_if (is_some found) (os_error ErrorKind.already_exists))
  write_file name []

-- `open_file`, which gives the content that the file has.
unfoldable pub open_file : Bytes → OnDirectory Bytes
open_file name = do lift (validate_name name); syscall; read_file name

unfoldable pub entry_exists : Bytes → OnDirectory Bool
entry_exists name = do
  lift (validate_name name)
  syscall
  found ← gets (λ d. lookup name d.files)
  pure (is_some found)

unfoldable pub rename : Bytes → Bytes → OnDirectory (Unit {0})
unfolding put_file
rename from to = do
  lift (validate_name from)
  lift (validate_name to)
  taken ← entry_exists to
  lift (
      reject_if taken
        (io_error ErrorKind.already_exists "refusing to replace an existing sealed spool object"))
  syscall
  content ← read_file from
  modify (λ d. record d { files = put_file to content (drop_file from d.files) })

unfoldable pub remove_file : Bytes → OnDirectory (Unit {0})
remove_file name = do
  lift (validate_name name)
  syscall
  modify (λ d. record d { files = drop_file name d.files })

abbrev pub OnSpool : Type 0 → Type 0
OnSpool A = Action IoError SecureSpool A

abbrev pub on_directory : {A : Type 0} → OnDirectory A → OnSpool A
on_directory = zoom (λ s. s.directory) (λ d s. record s { directory = d })

-- `SecureSpool::create` in the directory that `SecureDirectory::prepare` opened; `suffix` is made of
-- the process id and the count `NEXT_TEMP`.
unfoldable pub create : Bytes → Bytes → SpoolDescriptor → OnDirectory SecureSpool
create final_name suffix descriptor = do
  lift (validate_name final_name)
  let manifest_name = final_name ++ text ".manifest"
  final_found ← entry_exists final_name
  manifest_found ← if final_found then pure true else entry_exists manifest_name
  lift (
      reject_if (final_found || manifest_found)
        (io_error ErrorKind.already_exists "stale or reused PBMO spool object rejected"))
  let temp_name = text "." ++ (final_name ++ suffix)
  create_file_exclusive temp_name
  directory ← gets (λ d. d)
  pure (record {
    directory = directory;
    descriptor = descriptor;
    temp_name = temp_name;
    final_name = final_name;
    manifest_temp_name = text "." ++ (manifest_name ++ suffix);
    manifest_name = manifest_name;
    payload = true;
    written_elements = 0;
    sealed = false;
  })

-- The loop of `append`: each scalar is one `write_all`.
unfoldable pub write_scalars : Bytes → List Bytes → OnDirectory (Unit {0})
write_scalars name [] = pure tt
write_scalars name (x ∷ xs) = do
  syscall
  content ← read_file name
  write_file name (content ++ x)
  write_scalars name xs

unfoldable pub append : List Bytes → OnSpool (Unit {0})
append scalars = do
  s ← gets (λ s. s)
  lift (reject_if s.sealed (io_error ErrorKind.invalid_input "cannot append to sealed PBMO spool"))
  lift (reject_if (not s.payload) (io_error ErrorKind.broken_pipe "PBMO spool payload unavailable"))
  on_directory (write_scalars s.temp_name scalars)
  modify (λ s. record s { written_elements = (s.written_elements + length scalars) % 2 ^ 64 })

module _ (X : External) where
  -- `hash_file`, which reads a file to its end.
  unfoldable pub hash_file : Bytes → OnDirectory Bytes
  hash_file content = do syscall; pure (X.sha256 content)

  unfoldable pub manifest_of : SecureSpool → Bytes → SpoolManifest
  manifest_of s checksum = record {
    format_version = format_version;
    invocation_id = s.descriptor.invocation_id;
    object_id = s.descriptor.object_id;
    operator_tag = text "pbmo_aggregate_check";
    type_tag = text "Scalar";
    context_digest = s.descriptor.context_digest;
    logical_element_count = s.written_elements;
    byte_length = s.written_elements * 32;
    chunk_size_bytes = 32;
    encoding = encoding;
    checksum_sha256 = checksum;
    state = text "SEALED";
  }

  -- The comparison of `open_verified`.
  unfoldable pub manifest_differs : SpoolManifest → SpoolDescriptor → ℕ → Bool
  manifest_differs manifest descriptor expected_bytes =
      not (manifest.format_version == format_version)
      || not (manifest.invocation_id == descriptor.invocation_id)
      || not (manifest.object_id == descriptor.object_id)
      || not (manifest.operator_tag == text "pbmo_aggregate_check")
      || not (manifest.type_tag == text "Scalar")
      || not (manifest.context_digest == descriptor.context_digest)
      || not (manifest.logical_element_count == descriptor.logical_element_count)
      || not (manifest.byte_length == expected_bytes)
      || not (manifest.chunk_size_bytes == 32)
      || not (manifest.encoding == encoding)
      || not (manifest.state == text "SEALED")

  -- `open_verified`, which gives the content of the file, read from its start.
  unfoldable pub open_verified : SecureSpool → OnDirectory Bytes
  open_verified s = do
    encoded ← open_file s.manifest_name
    syscall
    manifest ← lift (ok_or (os_error ErrorKind.invalid_data) (X.deserialize_manifest encoded))
    lift (
        reject_if (not (ltb (s.descriptor.logical_element_count * 32) (2 ^ 64)))
          (io_error ErrorKind.invalid_data "spool length overflow"))
    let expected_bytes = s.descriptor.logical_element_count * 32
    lift (
        reject_if (manifest_differs manifest s.descriptor expected_bytes) (
          io_error ErrorKind.invalid_data
            "PBMO spool manifest does not match the active invocation"))
    payload ← open_file s.final_name
    syscall
    checksum ← if length payload == expected_bytes then hash_file payload else pure []
    lift (
        reject_if
          (not (length payload == expected_bytes) || not (checksum == manifest.checksum_sha256))
          (io_error ErrorKind.invalid_data "PBMO spool payload is incomplete or checksum-invalid"))
    syscall
    pure payload

  -- The two files that `seal_and_open_verified` installs: the payload's and the manifest's.
  unfoldable pub install : SecureSpool → Bytes → OnDirectory (Unit {0})
  install s encoded = do
    create_file_exclusive s.manifest_temp_name
    syscall
    write_file s.manifest_temp_name encoded
    syscall
    rename s.temp_name s.final_name
    rename s.manifest_temp_name s.manifest_name
    syscall

  unfoldable pub seal_and_open_verified : OnSpool Bytes
  seal_and_open_verified = do
    s ← gets (λ s. s)
    lift (reject_if s.sealed (io_error ErrorKind.already_exists "PBMO spool already sealed"))
    lift (
        reject_if (not (s.written_elements == s.descriptor.logical_element_count))
          (io_error ErrorKind.unexpected_eof "PBMO spool logical element count mismatch"))
    lift (
        reject_if (not s.payload) (io_error ErrorKind.broken_pipe "PBMO spool payload unavailable"))
    modify (λ s. record s { payload = false })
    on_directory syscall
    lift (
        reject_if (not (ltb (s.written_elements * 32) (2 ^ 64)))
          (io_error ErrorKind.invalid_data "PBMO spool length overflow"))
    content ← on_directory (open_file s.temp_name)
    checksum ← on_directory (hash_file content)
    encoded ←
        lift
          (ok_or (os_error ErrorKind.invalid_data) (X.serialize_manifest (manifest_of s checksum)))
    on_directory (install s encoded)
    modify (λ s. record s { sealed = true })
    on_directory (open_verified s)

-- `remove`
unfoldable pub remove : OnSpool (Unit {0})
remove = do
  modify (λ s. record s { payload = false })
  s ← gets (λ s. s)
  on_directory (remove_file s.temp_name)
  on_directory (remove_file s.manifest_temp_name)
  on_directory (remove_file s.final_name)
  on_directory (remove_file s.manifest_name)
  on_directory syscall
  modify (λ s. record s { sealed = false })
