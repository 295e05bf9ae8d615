-- ===== src/Store/Lifecycle/SingleUse.antt =====
-- Single use of tokens and invocation ids in the lifecycle
-- (experiments/preprocessed-pbmo/src/token.rs).
use mathlib.Core.Option
use thinwallet.Prelude.{
  ℕ, ◌≡◌, ◌≢◌, refl, sym, ap, ◌∙◌, Bool, false, Option, some, List, [], ◌∷◌, map, any, arith,
  bytes_eq, eq_refl,
}
use thinwallet.Prelude.Outcome.{ok}
use thinwallet.Prelude.Bytes.{Bytes}
use thinwallet.Token.{TokenState, reserved, LifecycleRecord, LifecycleSnapshot, ReservationBinding}
use thinwallet.Token.Equality.{state_eq}
use thinwallet.Store.Snapshot.{
  next_generation, find_record, is_reserved, recovered, burn, reserve_record, terminal_record,
  with_record, uses_invocation,
}
use thinwallet.Store.Lifecycle.{
  Reserves, Ends, Recovers, Step, inserts, reserves, ends, recovers, Reaches,
}
use thinwallet.Store.Lifecycle.Find.{find_record-update_record}
use thinwallet.Store.Lifecycle.Order.{Reaches-Persists}

-- The record that a successful `reserve` leaves.
pub record IsReservedFor (b : ReservationBinding) (r : LifecycleRecord) : Type 0 where
  pub state : r.state ≡ reserved
  pub ctx_digest : r.ctx_digest ≡ b.ctx_digest
  pub sid : r.sid ≡ b.sid
  pub iid : r.iid ≡ b.iid
  pub request_digest : r.request_digest ≡ b.request_digest

found-with_record :
    (id : Bytes) (g : ℕ) (f : LifecycleRecord → LifecycleRecord) (s : LifecycleSnapshot)
    (old : LifecycleRecord)
    → ((r : LifecycleRecord) → (f r).tid ≡ r.tid)
    → find_record id s.records ≡ some old
    → find_record id (with_record g id f s).records ≡ some (f old)
unfolding with_record
found-with_record id g f s old keeps found =
    find_record-update_record f keeps id id s.records ∙ rw (eq_refl, found) refl

pub Reserves-found :
    (id : Bytes) (b : ReservationBinding) {s s' : LifecycleSnapshot}
    → Reserves id b s s'
    → (r : LifecycleRecord) × (find_record id s'.records ≡ some r) × IsReservedFor b r
unfolding reserve_record
Reserves-found id b {s} v = (
  reserve_record v.generation b.sid b.iid b.request_digest v.old,
  ap (λ (t : LifecycleSnapshot). find_record id t.records) v.after
      ∙ found-with_record id v.generation _ s v.old (λ r. refl) v.found,
  record { state = refl; ctx_digest = v.bound; sid = refl; iid = refl; request_digest = refl },
)

Ends-found :
    (id : Bytes) (b : ReservationBinding) (expected : ℕ) (target : TokenState)
    {s s' : LifecycleSnapshot}
    → Ends id b expected target s s'
    → (r : LifecycleRecord) × (find_record id s'.records ≡ some r) × (r.state ≡ target)
unfolding terminal_record
Ends-found id b expected target {s} v = (
  terminal_record v.generation target v.old,
  ap (λ (t : LifecycleSnapshot). find_record id t.records) v.after
      ∙ found-with_record id v.generation _ s v.old (λ r. refl) v.found,
  refl,
)

some-same : {a b : LifecycleRecord} {o : Option LifecycleRecord} → o ≡ some a → o ≡ some b → a ≡ b
some-same {a} {b} h k = Option.some-injective a b (sym h ∙ k)

-- A token that was reserved is never reserved again.
pub reserved_once :
    (id : Bytes) (b b' : ReservationBinding) {s t u v : LifecycleSnapshot}
    → Reserves id b s t
    → Reaches t u
    → ¬ Reserves id b' u v
reserved_once id b b' first path again =
    let (r, found, bound) = Reserves-found id b first in
    let (r', found', later) = Reaches-Persists id path r found in
    let same = some-same found' again.found in
    ground (
      arith,
      bound.state,
      later.forward,
      again.was_available,
      ap (λ (x : LifecycleRecord). x.state) same,
    )

-- A token that was spent or burned is never spent or burned again.
pub ended_once :
    (id : Bytes) (b b' : ReservationBinding) (e e' : ℕ) (target target' : TokenState)
    {s t u v : LifecycleSnapshot}
    → Ends id b e target s t
    → Reaches t u
    → ¬ Ends id b' e' target' u v
ended_once id b b' e e' target target' first path again =
    let (r, found, state) = Ends-found id b e target first in
    let (r', found', later) = Reaches-Persists id path r found in
    let same = some-same found' again.found in
    ground (
      arith,
      state,
      later.forward,
      first.terminal,
      again.was_reserved,
      ap (λ (x : LifecycleRecord). x.state) same,
    )

any-found :
    (p : LifecycleRecord → Bool) (id : Bytes) (rs : List LifecycleRecord) (r : LifecycleRecord)
    → find_record id rs ≡ some r
    → any p rs ≡ false
    → p r ≡ false
unfolding find_record
any-found p id [] r h k = cc
any-found p id (x ∷ rs) r h k = ground (arith, any-found p id rs r)

-- Two reservations of one store, of whatever tokens, never have the same invocation id.
pub invocation_once :
    (id id' : Bytes) (b b' : ReservationBinding) {s t u v : LifecycleSnapshot}
    → Reserves id b s t
    → Reaches t u
    → Reserves id' b' u v
    → b.iid ≢ b'.iid
unfolding uses_invocation
invocation_once id id' b b' {u} first path again same =
    let (r, found, bound) = Reserves-found id b first in
    let (r', found', later) = Reaches-Persists id path r found in
    let clear = any-found (uses_invocation b'.iid) id u.records r' found' again.unused in
    let iid : r'.iid ≡ b'.iid = later.iid (λ e. ground arith) ∙ bound.iid ∙ same in
    ground (arith, bound.state, later.forward)

-- Every step makes the store's generation one more.
pub Step-generation :
    {s s' : LifecycleSnapshot}
    → Step s s'
    → next_generation s.store_generation ≡ ok s'.store_generation
unfolding with_record recovered
Step-generation {s} (inserts r i) = i.next ∙ rw i.after refl
Step-generation {s} (reserves id b v) = v.next ∙ rw v.after refl
Step-generation {s} (ends id b expected target v) = v.next ∙ rw v.after refl
Step-generation {s} (recovers v) = v.next ∙ rw v.after refl

none_reserved-map : (g : ℕ) (rs : List LifecycleRecord) → any is_reserved (map (burn g) rs) ≡ false
unfolding is_reserved burn
none_reserved-map g [] = refl
none_reserved-map g (r ∷ rs) = ground (arith, none_reserved-map g rs)

-- After a restart that committed, no record is reserved.
pub Recovers-none_reserved :
    {s s' : LifecycleSnapshot} → Recovers s s' → any is_reserved s'.records ≡ false
unfolding recovered
Recovers-none_reserved {s} v =
    ap (λ (t : LifecycleSnapshot). any is_reserved t.records) v.after
    ∙ none_reserved-map v.generation s.records
