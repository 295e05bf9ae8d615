-- ===== src/Store/Snapshot.antt =====
-- Lifecycle snapshots: validation, the authenticated text of the journal, and the pure part of what
-- each operation does to a snapshot.
pub mod Valid
pub mod Journal
use Prim.Native.String.{String}
use mathlib.Core.Bool.{xor}
use thinwallet.Prelude.{
  ℕ, zero, suc, ◌+◌, ◌^◌, Bool, true, false, not, ◌&&◌, ◌||◌, Option, none, some, List, [], ◌∷◌,
  ◌++◌, map, any, length, ltb, leb, replicate, ◌==◌, nat_eq, bytes_eq, if◌then◌else◌,
}
use thinwallet.Prelude.Outcome.{Result, ok, err, ◌>>=◌, ◌>>◌, reject_if, ok_or}
use thinwallet.Prelude.Bytes.{Bytes, text, lex_lt}
use thinwallet.Token.{
  TokenState, available, reserved, spent, burned, TokenError, serialization, malformed,
  duplicate_token, journal_authentication, LifecycleRecord, LifecycleSnapshot,
  AuthenticatedLifecycleSnapshot, ReservationBinding, lifecycle_format_version,
  max_lifecycle_records, max_binding_text,
}
use thinwallet.Token.Equality.{state_eq}
use thinwallet.External.{External}
use thinwallet.Field.{digest32}

-- `[0; 32]`
abbrev pub zero_digest : Bytes
zero_digest = replicate 32 0

abbrev pub empty_snapshot : LifecycleSnapshot
empty_snapshot = record {
  format_version = lifecycle_format_version;
  store_generation = 0;
  records = [];
}

abbrev pub is_empty : Bytes → Bool
is_empty b = length b == 0

-- The first test of the loop of `validate_snapshot`.
unfoldable pub is_malformed : ℕ → LifecycleRecord → Bool
is_malformed generation r =
    not (r.format_version == lifecycle_format_version)
    || (r.store_generation == 0)
    || ltb generation r.store_generation
    || (r.ctx_digest == zero_digest)
    || ltb max_binding_text (length r.sid)
    || ltb max_binding_text (length r.iid)

-- `previous.is_some_and(|tid| tid >= record.tid)`
unfoldable pub out_of_order : Option Bytes → Bytes → Bool
out_of_order none tid = false
out_of_order (some previous) tid = not (lex_lt previous tid)

unfoldable pub empty_binding : LifecycleRecord → Bool
empty_binding r = is_empty r.sid && is_empty r.iid && (r.request_digest == zero_digest)

unfoldable pub validate_records :
    ℕ → Option Bytes → List LifecycleRecord → Result TokenError (Unit {0})
validate_records generation previous [] = ok tt
validate_records generation previous (r ∷ rs) = do
  reject_if (is_malformed generation r) (malformed "invalid lifecycle record")
  reject_if (out_of_order previous r.tid) duplicate_token
  reject_if (xor (r.state == available) (empty_binding r))
      (malformed "non-canonical lifecycle reservation binding")
  validate_records generation (some r.tid) rs

unfoldable pub has_no_records : LifecycleSnapshot → Bool
has_no_records s = length s.records == 0

-- `validate_snapshot`
unfoldable pub validate_snapshot : LifecycleSnapshot → Result TokenError (Unit {0})
validate_snapshot s = do
  reject_if (not (s.format_version == lifecycle_format_version))
      (malformed "unknown lifecycle format version")
  reject_if (ltb max_lifecycle_records (length s.records)) (malformed "too many lifecycle records")
  validate_records s.store_generation none s.records
  reject_if (has_no_records s && not (s.store_generation == 0))
      (malformed "empty snapshot has generation")

-- `next_generation`, a `u64` addition.
unfoldable pub next_generation : ℕ → Result TokenError ℕ
next_generation current =
    if ltb (current + 1) (2 ^ 64)
    then ok (current + 1)
    else err (malformed "lifecycle generation exhausted")

module _ (X : External) where
  -- `lifecycle_tag`
  unfoldable pub lifecycle_tag : Bytes → Bytes → Bytes
  lifecycle_tag key snapshot_bytes =
      X.hmac_sha256 key
        (text "thinwallet/preprocessed-pbmo/lifecycle-snapshot/v3" ++ snapshot_bytes)

  -- `load_snapshot` between the read of the file and the monotonic provider.
  unfoldable pub parse_envelope : Bytes → Bytes → Result TokenError LifecycleSnapshot
  parse_envelope key bytes = do
    envelope ←
        ok_or (malformed "unsupported or malformed lifecycle store") (X.deserialize_envelope bytes)
    canonical ← ok_or serialization (X.serialize_envelope envelope)
    reject_if (not (canonical == bytes)) (malformed "non-canonical lifecycle encoding")
    snapshot_bytes ← ok_or serialization (X.serialize_snapshot envelope.snapshot)
    reject_if (not (lifecycle_tag key snapshot_bytes == envelope.tag)) journal_authentication
    validate_snapshot envelope.snapshot
    ok envelope.snapshot

  -- The same where there may be no file, which is an empty store.
  unfoldable pub parse_journal : Bytes → Option Bytes → Result TokenError LifecycleSnapshot
  parse_journal key none = ok empty_snapshot
  parse_journal key (some bytes) = parse_envelope key bytes

  -- `commit_snapshot` up to the bytes that it writes.
  unfoldable pub print_journal : Bytes → LifecycleSnapshot → Result TokenError Bytes
  print_journal key s = do
    validate_snapshot s
    snapshot_bytes ← ok_or serialization (X.serialize_snapshot s)
    ok_or serialization
        (X.serialize_envelope (record { snapshot = s; tag = lifecycle_tag key snapshot_bytes }))

  -- `snapshot_head`
  unfoldable pub snapshot_head : LifecycleSnapshot → Result TokenError Bytes
  snapshot_head s = do
    bytes ← ok_or serialization (X.serialize_snapshot s)
    ok (digest32 X (text "thinwallet/preprocessed-pbmo/lifecycle-head/v3") (bytes ∷ []))

-- `iter().position(|record| &record.tid == token_id)`, as the record found.
unfoldable pub find_record : Bytes → List LifecycleRecord → Option LifecycleRecord
find_record token_id [] = none
find_record token_id (r ∷ rs) = if r.tid == token_id then some r else find_record token_id rs

-- A write to the record at that position.
unfoldable pub update_record :
    Bytes → (LifecycleRecord → LifecycleRecord) → List LifecycleRecord → List LifecycleRecord
update_record token_id f [] = []
update_record token_id f (r ∷ rs) =
    if r.tid == token_id then f r ∷ rs else r ∷ update_record token_id f rs

-- `sort_by_key(|record| record.tid)`, a stable sort.
unfoldable pub insert_sorted : LifecycleRecord → List LifecycleRecord → List LifecycleRecord
insert_sorted r [] = r ∷ []
insert_sorted r (x ∷ xs) = if lex_lt x.tid r.tid then x ∷ insert_sorted r xs else r ∷ x ∷ xs

unfoldable pub sort_by_tid : List LifecycleRecord → List LifecycleRecord
unfolding insert_sorted
sort_by_tid [] = []
sort_by_tid (r ∷ rs) = insert_sorted r (sort_by_tid rs)

unfoldable pub is_reserved : LifecycleRecord → Bool
is_reserved r = r.state == reserved

-- The loop of `recover_reserved` and of `open`.
unfoldable pub burn : ℕ → LifecycleRecord → LifecycleRecord
burn generation r =
    if r.state == reserved then record r { state = burned; store_generation = generation } else r

unfoldable pub recovered : ℕ → LifecycleSnapshot → LifecycleSnapshot
unfolding burn
recovered generation s = record s {
  store_generation = generation;
  records = map (burn generation) s.records;
}

unfoldable pub reserve_record : ℕ → Bytes → Bytes → Bytes → LifecycleRecord → LifecycleRecord
reserve_record generation sid iid request_digest r = record r {
  store_generation = generation;
  state = reserved;
  sid = sid;
  iid = iid;
  request_digest = request_digest;
}

unfoldable pub with_record :
    ℕ → Bytes → (LifecycleRecord → LifecycleRecord) → LifecycleSnapshot → LifecycleSnapshot
unfolding update_record
with_record generation token_id f s = record s {
  store_generation = generation;
  records = update_record token_id f s.records;
}

unfoldable pub terminal_record : ℕ → TokenState → LifecycleRecord → LifecycleRecord
terminal_record generation target r = record r { store_generation = generation; state = target }

-- `LifecycleRecord::reservation_binding`
unfoldable pub reservation_binding : LifecycleRecord → Option ReservationBinding
reservation_binding r =
    if r.state == available
    then none
    else some (record {
      ctx_digest = r.ctx_digest;
      sid = r.sid;
      iid = r.iid;
      request_digest = r.request_digest;
    })

-- The scan of `reserve` for a repeated invocation id.
unfoldable pub uses_invocation : Bytes → LifecycleRecord → Bool
uses_invocation iid r = not (r.state == available) && (r.iid == iid)

-- The comparison of `mark_terminal` with the reservation that was recorded.
unfoldable pub differs_from : ReservationBinding → LifecycleRecord → Bool
differs_from b r =
    not (r.ctx_digest == b.ctx_digest)
    || not (r.sid == b.sid)
    || not (r.iid == b.iid)
    || not (r.request_digest == b.request_digest)
