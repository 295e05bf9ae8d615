-- ===== src/Tests/SpoolRuns.antt =====
-- Runs of the spool, and its theorems at these runs.
use thinwallet.Prelude.{
  List, [], ◌∷◌, ◌++◌, ◌*◌, ◌≡◌, refl, length, replicate, true, false, nat_eq, bytes_eq,
}
use thinwallet.Prelude.Bytes.{Bytes, text}
use thinwallet.Token.Codec.{concat}
use thinwallet.Store.World.{lookup}
use thinwallet.Spool.{
  SecureDirectory, SecureSpool, SpoolDescriptor, validate_name, after_fault, syscall, put_file,
  drop_file, write_file, read_file, create_file_exclusive, open_file, entry_exists, rename,
  remove_file, create, write_scalars, append, hash_file, manifest_of, manifest_differs,
  open_verified, install, seal_and_open_verified, remove,
}
use thinwallet.Spool.RoundTrip.{append_all, bytes_of, sealed-appended}
use thinwallet.Tests.Toy.{toy}

abbrev chunks : List (List Bytes)
chunks = (replicate 32 7 ∷ replicate 32 8 ∷ []) ∷ (replicate 32 9 ∷ []) ∷ []

abbrev three_scalars : SpoolDescriptor
three_scalars = record {
  invocation_id = text "session-a";
  object_id = text "proof-a";
  context_digest = replicate 32 1;
  logical_element_count = 3;
}

abbrev pub empty : SecureDirectory
empty = record { files = []; faults = [] }

unfoldable pub spool_code : Unit {0}
unfolding validate_name after_fault syscall put_file drop_file write_file read_file
    create_file_exclusive open_file entry_exists rename remove_file create write_scalars append
    hash_file manifest_of manifest_differs open_verified install seal_and_open_verified remove
    append_all bytes_of lookup concat nat_eq bytes_eq
spool_code = tt

abbrev pub new_spool : SecureSpool
new_spool = record {
  directory = record { files = (text ".a.spool.1.1.tmp", []) ∷ []; faults = [] };
  descriptor = three_scalars;
  temp_name = text ".a.spool.1.1.tmp";
  final_name = text "a.spool";
  manifest_temp_name = text ".a.spool.manifest.1.1.tmp";
  manifest_name = text "a.spool.manifest";
  payload = true;
  written_elements = 0;
  sealed = false;
}

abbrev filled : SecureSpool
filled = (append_all chunks new_spool).1

abbrev sealed : SecureSpool
sealed = (seal_and_open_verified toy filled).1

abbrev three : Bytes
three = replicate 32 7 ++ (replicate 32 8 ++ replicate 32 9)

sealed-appended_example : (three ≡ bytes_of chunks) × (length three ≡ 3 * 32)
unfolding spool_code
sealed-appended_example =
    sealed-appended toy (text "a.spool") (text ".1.1.tmp") three_scalars empty new_spool.directory
      chunks new_spool filled sealed three refl refl refl
