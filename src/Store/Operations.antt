-- ===== src/Store/Operations.antt =====
-- The methods of `TokenStore` (experiments/preprocessed-pbmo/src/token.rs). A method that takes the
-- exclusive lock runs while no other holds it, so it is one action here; an early return drops the
-- lock file, which releases it.
pub mod Keeps
pub mod Steps
pub mod Commits
pub mod Methods
pub mod Restart
pub mod History
pub mod OneTime
use Prim.Native.String.{String}
use thinwallet.Prelude.{
  ℕ, ◌+◌, Bool, true, false, not, ◌&&◌, ◌||◌, Option, none, some, List, [], ◌∷◌, ◌++◌, map, any,
  length, ltb, is_some, ◌==◌, nat_eq, bytes_eq, if◌then◌else◌,
}
use thinwallet.Prelude.Outcome.{Result, ok, err, reject_if, ok_or}
use thinwallet.Prelude.Bytes.{Bytes, text}
use thinwallet.Token.{
  Token, TokenBinding, TokenState, available, reserved, spent, burned, TokenError, io, malformed,
  binding_mismatch, invalid_transition, duplicate_token, not_available, stale_generation,
  LifecycleRecord, LifecycleSnapshot, ReservationBinding, lifecycle_format_version,
  max_binding_text, protocol_version,
}
use thinwallet.Token.Equality.{state_eq, binding_eq}
use thinwallet.Token.Generate.{context_digest}
use thinwallet.Token.Codec.{KeyProvider, encode, decode}
use thinwallet.External.{External}
use thinwallet.Field.{digest32}
use thinwallet.Store.World.{
  World, Disk, Memory, Exec, pure, lift, gets, modify, syscall, exists_after, lookup, ◌>>=◌, ◌>>◌,
}
use thinwallet.Store.Snapshot.{
  zero_digest, is_empty, empty_snapshot, next_generation, parse_journal, print_journal,
  snapshot_head, find_record, is_reserved, recovered, reserve_record, terminal_record, with_record,
  sort_by_tid, reservation_binding, uses_invocation, differs_from,
}

-- What a `TokenStore` is opened with. `observe` is the monotonic provider's answer to a generation,
-- from the generations that it has seen.
pub record Config : Type 0 where
  pub keys : KeyProvider
  pub journal_key : Bytes
  pub observe : List ℕ → ℕ → Result TokenError (Unit {0})

-- `SoftwareCrashConsistentProvider`
abbrev pub software_observe : List ℕ → ℕ → Result TokenError (Unit {0})
software_observe seen generation = ok tt

abbrev pub fail_if : Bool → TokenError → Exec (Unit {0})
fail_if b e = lift (reject_if b e)

unfoldable pub collect {ℓ κ} :
    {V : Type ℓ} {W : Type κ} → (V → Bytes × W) → List V → List (Bytes × W) → List (Bytes × W)
collect f [] m = m
collect f (v ∷ vs) m = collect f vs (f v ∷ m)

module _ (X : External) (cfg : Config) where
  open X use {Point}

  unfoldable pub observe : ℕ → Exec (Unit {0})
  observe generation w =
      (cfg.observe w.observed generation, record w { observed = generation ∷ w.observed })

  -- `path.exists()` of the journal.
  unfoldable pub journal_exists : Exec Bool
  journal_exists w =
      let seen = exists_after w.journal_stats (is_some w.disk.journal) in
      (ok seen.0, record w { journal_stats = seen.1 })

  -- `path.exists()` of a token file.
  unfoldable pub file_exists : Bytes → Exec Bool
  file_exists token_id w =
      let seen = exists_after w.file_stats (is_some (lookup token_id w.disk.token_files)) in
      (ok seen.0, record w { file_stats = seen.1 })

  unfoldable pub read_existing : Bool → Exec (Option Bytes)
  read_existing false = pure none
  read_existing true = do syscall; gets (λ w. w.disk.journal)

  unfoldable pub read_journal : Exec (Option Bytes)
  read_journal = journal_exists >>= read_existing

  -- `load_snapshot`
  unfoldable pub load_snapshot : Exec LifecycleSnapshot
  load_snapshot = do
    journal ← read_journal
    snapshot ← lift (parse_journal X cfg.journal_key journal)
    if is_some journal then observe snapshot.store_generation else pure tt
    pure snapshot

  unfoldable pub install_journal : Bytes → Exec (Unit {0})
  install_journal bytes = modify (λ w. record w { disk = record w.disk { journal = some bytes } })

  -- `commit_snapshot`: create, write and sync the temporary file, rename it, open the directory and
  -- sync it. The rename is the step that changes the journal.
  unfoldable pub commit_snapshot : LifecycleSnapshot → Exec (Unit {0})
  commit_snapshot snapshot = do
    bytes ← lift (print_journal X cfg.journal_key snapshot)
    syscall
    syscall
    syscall
    syscall
    install_journal bytes
    syscall
    syscall
    observe snapshot.store_generation

  -- `install_snapshot`
  unfoldable pub install_snapshot : LifecycleSnapshot → Exec (Unit {0})
  install_snapshot snapshot = do
    head_hash ← lift (snapshot_head X snapshot)
    modify (λ w. record w {
      memory = record {
        sequence = snapshot.store_generation;
        token_states = collect (λ r. (r.tid, r.state)) snapshot.records [];
        head_hash = head_hash;
        records = collect (λ r. (r.tid, r)) snapshot.records [];
      };
    })

  -- `fs::read(self.token_path(id))`
  unfoldable pub read_token_file : Bytes → Exec Bytes
  read_token_file token_id = do
    syscall
    found ← gets (λ w. lookup token_id w.disk.token_files)
    lift (ok_or io found)

  unfoldable pub install_token_file : Bytes → Bytes → Exec (Unit {0})
  install_token_file token_id bytes = modify (λ w. record w {
    disk = record w.disk { token_files = (token_id, bytes) ∷ w.disk.token_files };
  })

  -- `persist_token`; the nonce is what the generator gives.
  unfoldable pub persist_token : Bytes → Token Point → Exec (Unit {0})
  persist_token nonce token = do
    bytes ← lift (encode X cfg.keys nonce token)
    syscall
    syscall
    syscall
    syscall
    install_token_file token.token_id bytes
    syscall
    syscall

  -- The body of the loop of `validate_available_token_files`.
  unfoldable pub check_available_file : LifecycleRecord → Exec (Unit {0})
  check_available_file r = do
    bytes ← read_token_file r.tid
    token ← lift (decode X cfg.keys bytes)
    fail_if (not (token.state == available) || not (context_digest X token.binding == r.ctx_digest))
        (binding_mismatch "available token file differs from lifecycle record")

  unfoldable pub check_available_files : List LifecycleRecord → Exec (Unit {0})
  check_available_files [] = pure tt
  check_available_files (r ∷ rs) = do
    if r.state == available then check_available_file r else pure tt
    check_available_files rs

  -- `validate_binding`
  unfoldable pub validate_binding : Token Point → TokenBinding → Result TokenError (Unit {0})
  validate_binding token expected =
      reject_if (not (token.binding == expected)) (binding_mismatch "token metadata differs")

  -- The end of `open` and of `recover_reserved`.
  unfoldable pub burn_reserved : LifecycleSnapshot → Exec LifecycleSnapshot
  burn_reserved snapshot =
      if any is_reserved snapshot.records
      then (do
        generation ← lift (next_generation snapshot.store_generation)
        let burned_snapshot = recovered generation snapshot
        commit_snapshot burned_snapshot
        pure burned_snapshot)
      else pure snapshot

  -- `open`, after `create_dir_all`; the lock is taken and released by a system call.
  unfoldable pub open_store : Exec (Unit {0})
  open_store = do
    syscall
    syscall
    snapshot ← load_snapshot
    check_available_files snapshot.records
    snapshot ← burn_reserved snapshot
    install_snapshot snapshot
    syscall

  -- `recover_reserved`
  unfoldable pub recover_reserved : Exec (Unit {0})
  recover_reserved = do
    syscall
    snapshot ← load_snapshot
    snapshot ← burn_reserved snapshot
    install_snapshot snapshot
    syscall

  unfoldable pub new_record : ℕ → Token Point → LifecycleRecord
  new_record generation token = record {
    format_version = lifecycle_format_version;
    store_generation = generation;
    tid = token.token_id;
    ctx_digest = context_digest X token.binding;
    state = available;
    sid = [];
    iid = [];
    request_digest = zero_digest;
  }

  unfoldable pub inserted : ℕ → Token Point → LifecycleSnapshot → LifecycleSnapshot
  inserted generation token s = record s {
    store_generation = generation;
    records = sort_by_tid (s.records ++ new_record generation token ∷ []);
  }

  -- `insert`
  unfoldable pub insert : Bytes → Token Point → Exec (Unit {0})
  insert nonce token = do
    syscall
    snapshot ← load_snapshot
    taken ←
        if any (λ r. r.tid == token.token_id) snapshot.records
        then pure true
        else file_exists token.token_id
    fail_if taken duplicate_token
    generation ← lift (next_generation snapshot.store_generation)
    persist_token nonce (record token {
      state = available;
      reservation_binding = none;
      record_generation = generation;
    })
    let after = inserted generation token snapshot
    commit_snapshot after
    install_snapshot after
    syscall

  -- `load`
  unfoldable pub load : Bytes → TokenBinding → Exec (Token Point)
  load token_id expected = do
    bytes ← read_token_file token_id
    token ← lift (decode X cfg.keys bytes)
    lift (validate_binding token expected)
    found ← gets (λ w. lookup token_id w.memory.records)
    r ← lift (ok_or not_available found)
    fail_if (not (r.ctx_digest == context_digest X expected))
        (binding_mismatch "lifecycle context digest")
    pure (record token {
      state = r.state;
      reservation_binding = reservation_binding r;
      record_generation = r.store_generation;
    })

  -- The first guard of `reserve`.
  unfoldable pub bad_request : TokenBinding → ReservationBinding → Bool
  bad_request expected b =
      is_empty b.sid
      || is_empty b.iid
      || ltb max_binding_text (length b.sid)
      || ltb max_binding_text (length b.iid)
      || (b.request_digest == zero_digest)
      || not (b.ctx_digest == context_digest X expected)

  -- `reserve`; the four arguments of the reservation are one record.
  unfoldable pub reserve : Bytes → Bytes → TokenBinding → ReservationBinding → Exec (Token Point)
  reserve nonce token_id expected b = do
    fail_if (bad_request expected b) (binding_mismatch "invalid reservation binding")
    syscall
    snapshot ← load_snapshot
    fail_if (any (uses_invocation b.iid) snapshot.records)
        (binding_mismatch "repeated invocation id")
    r ← lift (ok_or not_available (find_record token_id snapshot.records))
    fail_if (not (r.state == available)) not_available
    fail_if (not (r.ctx_digest == b.ctx_digest)) (binding_mismatch "reservation context digest")
    bytes ← read_token_file token_id
    token ← lift (decode X cfg.keys bytes)
    lift (validate_binding token expected)
    generation ← lift (next_generation snapshot.store_generation)
    let after =
        with_record generation token_id (reserve_record generation b.sid b.iid b.request_digest)
          snapshot
    commit_snapshot after
    head_hash ← lift (snapshot_head X after)
    let out : Token Point = record token {
      state = reserved;
      journal_reference = head_hash;
      reservation_binding = some b;
      record_generation = generation;
    }
    install_snapshot after
    persist_token nonce out
    syscall
    pure out

  unfoldable pub rewrite_found :
      Bytes → Bytes → ReservationBinding → ℕ → TokenState → Bytes → Exec (Unit {0})
  rewrite_found nonce token_id b generation target head_hash = do
    bytes ← read_token_file token_id
    token ← lift (decode X cfg.keys bytes)
    persist_token nonce (record token {
      state = target;
      journal_reference = head_hash;
      reservation_binding = some b;
      record_generation = generation;
    })

  -- The last step of `mark_terminal`: the token file, if there is one, is written again.
  unfoldable pub rewrite_token :
      Bytes → Bytes → ReservationBinding → ℕ → TokenState → Bytes → Exec (Unit {0})
  rewrite_token nonce token_id b generation target head_hash = do
    there ← file_exists token_id
    if there then rewrite_found nonce token_id b generation target head_hash else pure tt

  -- `mark_terminal`
  unfoldable pub mark_terminal :
      Bytes → Bytes → ReservationBinding → ℕ → TokenState → Exec TokenState
  mark_terminal nonce token_id b expected_generation target = do
    fail_if (not ((target == spent) || (target == burned))) (malformed "non-terminal target")
    syscall
    snapshot ← load_snapshot
    r ← lift (ok_or not_available (find_record token_id snapshot.records))
    fail_if (not (r.store_generation == expected_generation)) stale_generation
    fail_if (not (r.state == reserved)) (invalid_transition r.state target)
    fail_if (differs_from b r) (binding_mismatch "terminal reservation binding")
    generation ← lift (next_generation snapshot.store_generation)
    let after = with_record generation token_id (terminal_record generation target) snapshot
    commit_snapshot after
    head_hash ← lift (snapshot_head X after)
    install_snapshot after
    rewrite_token nonce token_id b generation target head_hash
    syscall
    pure target

  abbrev pub mark_spent : Bytes → Bytes → ReservationBinding → ℕ → Exec TokenState
  mark_spent nonce token_id b expected_generation =
      mark_terminal nonce token_id b expected_generation spent

  abbrev pub mark_burned : Bytes → Bytes → ReservationBinding → ℕ → Exec TokenState
  mark_burned nonce token_id b expected_generation =
      mark_terminal nonce token_id b expected_generation burned
