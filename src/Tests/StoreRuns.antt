-- ===== src/Tests/StoreRuns.antt =====
-- A store that takes in a token, reserves it and spends it.
use mathlib.Core.Bool.{xor}
use thinwallet.Prelude.{
  ℕ, ◌≡◌, ◌≢◌, refl, Bool, true, false, none, [], ◌∷◌, replicate, nat_eq, bytes_eq, any,
}
use thinwallet.Prelude.Outcome.{Result, ok, err}
use thinwallet.Prelude.Bytes.{Bytes, text, le_bytes, from_le, lex_lt}
use thinwallet.Token.{
  Token, TokenBinding, available, spent, burned, ReservationBinding, LifecycleSnapshot,
}
use thinwallet.Token.Equality.{state_eq, binding_eq}
use thinwallet.Token.Codec.{software_key, encode, decode, aad, concat}
use thinwallet.Token.Codec.Reader.{take_bytes, u32}
use thinwallet.Field.{digest32, digest_parts}
use thinwallet.Store.World.{
  World, Visible, pure, lift, gets, modify, ◌>>=◌, syscall, exists_after, lookup,
}
use thinwallet.Store.Snapshot.{
  empty_snapshot, is_malformed, out_of_order, empty_binding, validate_records, has_no_records,
  validate_snapshot, next_generation, lifecycle_tag, parse_envelope, parse_journal, print_journal,
  snapshot_head, find_record, update_record, sort_by_tid, is_reserved, recovered, reserve_record,
  with_record, terminal_record, uses_invocation, differs_from,
}
use thinwallet.Store.Operations.{
  Config, software_observe, collect, observe, journal_exists, file_exists, read_existing,
  read_journal, load_snapshot, install_journal, commit_snapshot, install_snapshot, read_token_file,
  install_token_file, persist_token, check_available_file, check_available_files, validate_binding,
  burn_reserved, open_store, new_record, inserted, insert, bad_request, reserve, rewrite_found,
  rewrite_token, mark_terminal,
}
use thinwallet.Store.Operations.History.{
  fresh_memory, restart, insert_token, run_all, Holds, run_all-Reaches,
}
use thinwallet.Store.Operations.OneTime.{
  one_reservation, one_invocation, one_ending, open_store-none_reserved,
}
use thinwallet.Store.Lifecycle.{Reserves, Ends, Reaches}
use thinwallet.Store.Operations.Commits.{Commits}
use thinwallet.Store.Operations.Methods.{reserve-Commits, mark_terminal-Commits}
use thinwallet.Token.Generate.{context_digest}
use thinwallet.Tests.Toy.{toy, toy-BincodeLaws}
use thinwallet.Tests.Toy.Codec.{state_code, state_of}

abbrev pub config : Config
config = record {
  keys = software_key (record { key_id = text "k"; key = replicate 32 9 });
  journal_key = replicate 32 7;
  observe = software_observe;
}

abbrev empty_world : World
empty_world = record {
  disk = record { journal = none; token_files = [] };
  memory = fresh_memory;
  faults = [];
  journal_stats = [];
  file_stats = [];
  observed = [];
}

abbrev pub toy_binding : TokenBinding
toy_binding = record {
  basis_digest = replicate 32 2;
  backend_revision = text "b";
  relation_shape = record {
    relation_id = text "r";
    logical_commitment_id = text "w";
    layout_version = text "v1";
  };
  q = 2;
  m = 1;
}

abbrev pub toy_token : Token Bool
toy_token = record {
  token_id = replicate 16 3;
  binding = toy_binding;
  creation_epoch = 5;
  state = available;
  journal_reference = replicate 32 0;
  correction_points = true ∷ false ∷ [];
  seed = replicate 32 4;
  key_id = text "k";
  reservation_binding = none;
  record_generation = 0;
}

abbrev pub nonce : Bytes
nonce = replicate 24 1

-- Everything that a run of the store computes with.
unfoldable pub store_code : ℕ
unfolding nat_eq bytes_eq state_eq binding_eq state_code state_of software_key encode decode aad
    concat take_bytes u32 digest32 digest_parts le_bytes from_le lex_lt pure lift gets modify ◌>>=◌
    syscall exists_after lookup is_malformed out_of_order empty_binding validate_records
    has_no_records validate_snapshot next_generation lifecycle_tag parse_envelope parse_journal
    print_journal snapshot_head find_record update_record sort_by_tid is_reserved recovered
    reserve_record with_record terminal_record uses_invocation differs_from collect context_digest
    observe journal_exists file_exists read_existing read_journal load_snapshot install_journal
    commit_snapshot install_snapshot read_token_file install_token_file persist_token
    check_available_file check_available_files validate_binding burn_reserved open_store new_record
    inserted insert bad_request reserve rewrite_found rewrite_token mark_terminal run_all xor
store_code = 0

stocked : World
unfolding store_code
stocked = (insert toy config nonce toy_token empty_world).1

insert_succeeds : (insert toy config nonce toy_token empty_world).0 ≡ ok tt
unfolding store_code
insert_succeeds = refl

abbrev pub id : Bytes
id = replicate 16 3

reservation : ReservationBinding
unfolding store_code
reservation = record {
  ctx_digest = context_digest toy toy_binding;
  sid = text "sid-1";
  iid = text "iid-1";
  request_digest = replicate 32 8;
}

abbrev token_or : {E : Type 0} → Result E (Token Bool) → Token Bool
token_or (ok t) = t
token_or (err e) = toy_token

reserved_world : World
unfolding store_code stocked reservation
reserved_world = (reserve toy config nonce id toy_binding reservation stocked).1

reserved_token : Token Bool
unfolding reserved_world
reserved_token = token_or (reserve toy config nonce id toy_binding reservation stocked).0

reserve_succeeds :
    (reserve toy config nonce id toy_binding reservation stocked).0 ≡ ok reserved_token
unfolding reserved_token
reserve_succeeds = refl

stocked-Visible : Visible stocked
unfolding stocked
stocked-Visible = refl

reserved-Visible : Visible reserved_world
unfolding reserved_world
reserved-Visible = refl

one_reservation_example :
    let w' =
      run_all toy config
        (restart ∷ [])
        (reserve toy config nonce id toy_binding reservation stocked).1 in
    (reserve toy config nonce id toy_binding reservation w').0 ≢ ok reserved_token
one_reservation_example =
    one_reservation toy config toy-BincodeLaws id nonce nonce toy_binding toy_binding reservation
      reservation stocked (restart ∷ []) stocked-Visible reserve_succeeds

mark_spent_succeeds :
    (mark_terminal toy config nonce id reservation 2 spent reserved_world).0 ≡ ok spent
unfolding reserved_token
mark_spent_succeeds = refl

one_ending_example :
    let w' =
      run_all toy config
        (restart ∷ [])
        (mark_terminal toy config nonce id reservation 2 spent reserved_world).1 in
    (mark_terminal toy config nonce id reservation 2 burned w').0 ≢ ok burned
one_ending_example =
    one_ending toy config toy-BincodeLaws id nonce nonce reservation reservation 2 2 spent burned
      reserved_world (restart ∷ []) reserved-Visible mark_spent_succeeds

-- A second token, reserved under another invocation id.
abbrev second_token : Token Bool
second_token = record toy_token { token_id = replicate 16 5 }

abbrev second_id : Bytes
second_id = replicate 16 5

second_reservation : ReservationBinding
unfolding reservation
second_reservation = record reservation { iid = text "iid-2" }

second_reserved_token : Token Bool
unfolding store_code reserved_world second_reservation
second_reserved_token =
    token_or
      (reserve toy config nonce second_id toy_binding second_reservation (
        run_all toy config (insert_token nonce second_token ∷ [])
          (reserve toy config nonce id toy_binding reservation stocked).1)).0

second_reserve_succeeds :
    let w' =
      run_all toy config
        (insert_token nonce second_token ∷ [])
        (reserve toy config nonce id toy_binding reservation stocked).1 in
    (reserve toy config nonce second_id toy_binding second_reservation w').0
    ≡ ok second_reserved_token
unfolding second_reserved_token
second_reserve_succeeds = refl

one_invocation_example : reservation.iid ≢ second_reservation.iid
one_invocation_example =
    one_invocation toy config toy-BincodeLaws id second_id nonce nonce toy_binding toy_binding
      reservation second_reservation stocked (insert_token nonce second_token ∷ []) stocked-Visible
      reserve_succeeds second_reserve_succeeds

open_succeeds : (open_store toy config reserved_world).0 ≡ ok tt
unfolding reserved_world
open_succeeds = refl

open_store-none_reserved_example :
    (s : LifecycleSnapshot) × Holds toy config (open_store toy config reserved_world).1 s
    × (any is_reserved s.records ≡ false)
open_store-none_reserved_example =
    open_store-none_reserved toy config toy-BincodeLaws reserved_world reserved-Visible
      open_succeeds

empty_world-Holds : Holds toy config empty_world empty_snapshot
unfolding parse_journal
empty_world-Holds = refl

run_all-Reaches_example :
    (s' : LifecycleSnapshot) × Holds toy config
      (run_all toy config (insert_token nonce toy_token ∷ restart ∷ []) empty_world)
      s'
    × Reaches empty_snapshot s'
run_all-Reaches_example =
    run_all-Reaches toy config toy-BincodeLaws (insert_token nonce toy_token ∷ restart ∷ [])
      empty_world empty_snapshot empty_world-Holds refl

reserve-Commits_example :
    Commits toy config
      (Reserves id reservation)
      stocked.disk.journal
      (reserve toy config nonce id toy_binding reservation stocked).0
      reserved_world.disk.journal
unfolding reserved_world
reserve-Commits_example =
    reserve-Commits toy config toy-BincodeLaws nonce id toy_binding reservation stocked
      stocked-Visible

mark_terminal-Commits_example :
    Commits toy config
      (Ends id reservation 2 spent)
      reserved_world.disk.journal
      (mark_terminal toy config nonce id reservation 2 spent reserved_world).0
      (mark_terminal toy config nonce id reservation 2 spent reserved_world).1.disk.journal
mark_terminal-Commits_example =
    mark_terminal-Commits toy config toy-BincodeLaws nonce id reservation 2 spent reserved_world
      reserved-Visible

-- Why the theorems leave out a failure of `Path::exists` on the journal: an `insert` that meets one
-- replaces the journal, and the invocation id of a reservation is then reserved again.
hidden : World
unfolding store_code reserved_world
hidden =
    (insert toy config nonce second_token (record reserved_world { journal_stats = true ∷ [] })).1

again_token : Token Bool
unfolding hidden
again_token = token_or (reserve toy config nonce second_id toy_binding reservation hidden).0

reserves_again :
    (reserve toy config nonce second_id toy_binding reservation hidden).0 ≡ ok again_token
unfolding again_token
reserves_again = refl
