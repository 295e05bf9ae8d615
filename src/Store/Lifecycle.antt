-- ===== src/Store/Lifecycle.antt =====
-- The lifecycle of a token store as a step relation on snapshots: what a method may do to the
-- journal, without files, locks and errors.
pub mod Find
pub mod Order
pub mod SingleUse
use thinwallet.Prelude.{
  ℕ, ◌≡◌, ◌⊎◌, Bool, true, false, Option, some, List, [], ◌∷◌, ◌++◌, any, ◌==◌, bytes_eq,
}
use thinwallet.Prelude.Outcome.{ok}
use thinwallet.Prelude.Bytes.{Bytes}
use thinwallet.Token.{
  TokenState, available, reserved, spent, burned, LifecycleRecord, LifecycleSnapshot,
  ReservationBinding,
}
use thinwallet.Store.Snapshot.{
  next_generation, find_record, is_reserved, recovered, reserve_record, terminal_record,
  with_record, sort_by_tid, uses_invocation, differs_from,
}

-- A new token, of an id that no record has.
pub record Inserts (r : LifecycleRecord) (s s' : LifecycleSnapshot) : Type 0 where
  pub next : next_generation s.store_generation ≡ ok r.store_generation
  pub fresh : any (λ x. x.tid == r.tid) s.records ≡ false
  pub starts : r.state ≡ available
  pub after : s' ≡ record s {
    store_generation = r.store_generation;
    records = sort_by_tid (s.records ++ r ∷ []);
  }

-- The available token `id` is reserved for `b`, whose invocation id no used token has.
pub record Reserves (id : Bytes) (b : ReservationBinding) (s s' : LifecycleSnapshot) : Type 0 where
  pub generation : ℕ
  pub next : next_generation s.store_generation ≡ ok generation
  pub unused : any (uses_invocation b.iid) s.records ≡ false
  pub old : LifecycleRecord
  pub found : find_record id s.records ≡ some old
  pub was_available : old.state ≡ available
  pub bound : old.ctx_digest ≡ b.ctx_digest
  pub after :
      s' ≡ with_record generation id (reserve_record generation b.sid b.iid b.request_digest) s

-- The token `id`, reserved for `b` at the generation `expected`, becomes `target`.
pub record Ends (id : Bytes) (b : ReservationBinding) (expected : ℕ) (target : TokenState)
    (s s' : LifecycleSnapshot) : Type 0 where
  pub generation : ℕ
  pub next : next_generation s.store_generation ≡ ok generation
  pub terminal : (target ≡ spent) ⊎ (target ≡ burned)
  pub old : LifecycleRecord
  pub found : find_record id s.records ≡ some old
  pub was_reserved : old.state ≡ reserved
  pub current : old.store_generation ≡ expected
  pub matching : differs_from b old ≡ false
  pub after : s' ≡ with_record generation id (terminal_record generation target) s

-- A restart burns what was reserved.
pub record Recovers (s s' : LifecycleSnapshot) : Type 0 where
  pub generation : ℕ
  pub next : next_generation s.store_generation ≡ ok generation
  pub some_reserved : any is_reserved s.records ≡ true
  pub after : s' ≡ recovered generation s

pub data Step (s s' : LifecycleSnapshot) : Type 0 where
  inserts : (r : LifecycleRecord) → Inserts r s s' → Step s s'
  reserves : (id : Bytes) (b : ReservationBinding) → Reserves id b s s' → Step s s'
  ends :
      (id : Bytes) (b : ReservationBinding) (expected : ℕ) (target : TokenState)
      → Ends id b expected target s s'
      → Step s s'
  recovers : Recovers s s' → Step s s'

-- Any number of steps.
pub data Reaches (s : LifecycleSnapshot) : LifecycleSnapshot → Type 0 where
  here : Reaches s s
  next : {t u : LifecycleSnapshot} → Reaches s t → Step t u → Reaches s u
