-- ===== src/Store/Snapshot/Valid.antt =====
-- Well-formed snapshots and `validate_snapshot` (experiments/preprocessed-pbmo/src/token.rs).
use mathlib.Core.Bool.{xor}
use thinwallet.Prelude.{
  ℕ, ◌<◌, ◌≤◌, ◌≡◌, ◌≢◌, ◌↔◌, refl, Bool, true, false, not, ◌&&◌, Option, none, some, List, [], ◌∷◌,
  length, All, arith, ◌==◌, nat_eq, bytes_eq, inl, inr, ap, ltb-false, le→ltb-false, eq_refl,
  not_eq-false, list-cases,
}
use thinwallet.Prelude.Outcome.{ok, bind-eq-ok, reject_if-eq-ok}
use thinwallet.Prelude.Bytes.{Bytes, lex_lt}
use thinwallet.Token.{
  available, LifecycleRecord, LifecycleSnapshot, lifecycle_format_version, max_lifecycle_records,
  max_binding_text,
}
use thinwallet.Token.Equality.{state_eq}
use thinwallet.Store.Snapshot.{
  is_empty, zero_digest, is_malformed, out_of_order, empty_binding, validate_records,
  has_no_records, validate_snapshot,
}

-- A record of a store whose generation is `generation`. The reservation fields are empty exactly
-- on an available record.
pub record IsValidRecord (generation : ℕ) (r : LifecycleRecord) : Type 0 where
  pub version : r.format_version ≡ lifecycle_format_version
  pub started : 0 < r.store_generation
  pub current : r.store_generation ≤ generation
  pub bound : r.ctx_digest ≢ zero_digest
  pub sid_short : length r.sid ≤ max_binding_text
  pub iid_short : length r.iid ≤ max_binding_text
  pub canonical :
      (r.state ≡ available) ↔ ((r.sid ≡ []) × (r.iid ≡ []) × (r.request_digest ≡ zero_digest))

abbrev pub Follows : Option Bytes → Bytes → Type 0
Follows none tid = Unit
Follows (some previous) tid = lex_lt previous tid ≡ true

-- Token ids ascend strictly.
abbrev pub Ascends : Option Bytes → List LifecycleRecord → Type 0
Ascends previous [] = Unit
Ascends previous (r ∷ rs) = Follows previous r.tid × Ascends (some r.tid) rs

pub record IsValid (s : LifecycleSnapshot) : Type 0 where
  pub version : s.format_version ≡ lifecycle_format_version
  pub few : length s.records ≤ max_lifecycle_records
  pub each : All (IsValidRecord s.store_generation) s.records
  pub ascending : Ascends none s.records
  pub fresh : s.records ≡ [] → s.store_generation ≡ 0

length-zero : (b : Bytes) → length b ≡ 0 → b ≡ []
length-zero [] h = refl
length-zero (x ∷ xs) h = absurd (omega arith)

available_iff : (r : LifecycleRecord) → ((r.state == available) ≡ true) ↔ (r.state ≡ available)
available_iff r = (λ h. ground arith, λ h. ground arith)

empty_binding_iff :
    (r : LifecycleRecord)
    → (empty_binding r ≡ true) ↔ ((r.sid ≡ []) × (r.iid ≡ []) × (r.request_digest ≡ zero_digest))
unfolding empty_binding
empty_binding_iff r = (sound, complete)
  where
    sound :
        (is_empty r.sid && is_empty r.iid && (r.request_digest == zero_digest)) ≡ true
        → (r.sid ≡ []) × (r.iid ≡ []) × (r.request_digest ≡ zero_digest)
    sound h =
        let sid : length r.sid ≡ 0 = ground arith in
        let iid : length r.iid ≡ 0 = ground arith in
        let digest : r.request_digest ≡ zero_digest = ground arith in
        (length-zero r.sid sid, length-zero r.iid iid, digest)

    complete :
        (r.sid ≡ []) × (r.iid ≡ []) × (r.request_digest ≡ zero_digest)
        → (is_empty r.sid && is_empty r.iid && (r.request_digest == zero_digest)) ≡ true
    complete (sid, iid, digest) = rw (sid, iid, digest, eq_refl {A = ℕ} 0, eq_refl zero_digest) refl

-- Two tests agree exactly when what they test does.
agree_iff : {P Q : Type 0} (a b : Bool) → (a ≡ true) ↔ P → (b ≡ true) ↔ Q → (a ≡ b) ↔ (P ↔ Q)
agree_iff true true p q = (λ h. (λ x. q.0 refl, λ y. p.0 refl), λ h. refl)
agree_iff false false p q = (λ h. (λ x. cc (p.1 x), λ y. cc (q.1 y)), λ h. refl)
agree_iff true false p q = (λ h. cc, λ h. cc (q.1 (h.0 (p.0 refl))))
agree_iff false true p q = (λ h. cc, λ h. cc (p.1 (h.1 (q.0 refl))))

canonical_iff :
    (r : LifecycleRecord)
    → ((r.state == available) ≡ empty_binding r)
      ↔ ((r.state ≡ available) ↔ ((r.sid ≡ []) × (r.iid ≡ []) × (r.request_digest ≡ zero_digest)))
canonical_iff r = agree_iff _ _ (available_iff r) (empty_binding_iff r)

is_malformed_iff :
    (g : ℕ) (r : LifecycleRecord)
    → (is_malformed g r ≡ false) × ((r.state == available) ≡ empty_binding r) ↔ IsValidRecord g r
unfolding is_malformed
is_malformed_iff g r = (
  λ (h, c). record {
    version = ground arith;
    started = ground arith;
    current = ground arith;
    bound = ground arith;
    sid_short = ground arith;
    iid_short = ground arith;
    canonical = (canonical_iff r).0 c;
  },
  λ v. (ground arith, (canonical_iff r).1 v.canonical),
)

out_of_order_iff :
    (previous : Option Bytes) (tid : Bytes)
    → (out_of_order previous tid ≡ false) ↔ Follows previous tid
unfolding out_of_order
out_of_order_iff none tid = (λ h. tt, λ h. refl)
out_of_order_iff (some p) tid = (λ h. ground arith, λ h. ground arith)

xor-false : (a b : Bool) → (xor a b ≡ false) ↔ (a ≡ b)
unfolding xor
xor-false true true = (λ h. refl, λ h. refl)
xor-false true false = (λ h. cc, λ h. cc)
xor-false false true = (λ h. cc, λ h. cc)
xor-false false false = (λ h. refl, λ h. refl)

module _ (g : ℕ) where
  validate_records_sound :
      (previous : Option Bytes) (rs : List LifecycleRecord)
      → validate_records g previous rs ≡ ok tt
      → All (IsValidRecord g) rs × Ascends previous rs
  unfolding validate_records
  validate_records_sound previous [] h = (tt, tt)
  validate_records_sound previous (r ∷ rs) h =
      let (_, a, h) = bind-eq-ok _ _ h in
      let (_, b, h) = bind-eq-ok _ _ h in
      let (_, c, h) = bind-eq-ok _ _ h in
      let (each, ascending) = validate_records_sound (some r.tid) rs h in
      (
        (
          (is_malformed_iff g r).0
              (reject_if-eq-ok _ _ a, (xor-false _ _).0 (reject_if-eq-ok _ _ c)),
          each,
        ),
        ((out_of_order_iff previous r.tid).0 (reject_if-eq-ok _ _ b), ascending),
      )

  validate_records_complete :
      (previous : Option Bytes) (rs : List LifecycleRecord)
      → All (IsValidRecord g) rs
      → Ascends previous rs
      → validate_records g previous rs ≡ ok tt
  unfolding validate_records
  validate_records_complete previous [] each ascending = refl
  validate_records_complete previous (r ∷ rs) (v, each) (follows, ascending) =
      rw
        (
          ((is_malformed_iff g r).1 v).0,
          (out_of_order_iff previous r.tid).1 follows,
          (xor-false _ _).1 ((is_malformed_iff g r).1 v).1,
        )
        (validate_records_complete (some r.tid) rs each ascending)

has_no_records_sound :
    (s : LifecycleSnapshot)
    → (has_no_records s && not (s.store_generation == 0)) ≡ false
    → s.records ≡ []
    → s.store_generation ≡ 0
unfolding has_no_records
has_no_records_sound s h e = ground (arith, ap length e)

has_no_records_complete :
    (s : LifecycleSnapshot)
    → (s.records ≡ [] → s.store_generation ≡ 0)
    → (has_no_records s && not (s.store_generation == 0)) ≡ false
unfolding has_no_records
has_no_records_complete s h = elim (list-cases s.records) [
  | inl e ↦ ground (arith, h e)
  | inr e ↦ ground arith
]

-- `validate_snapshot` accepts a snapshot exactly when it is well formed: its version is 3, it has
-- at most 2^20 records, every record is well formed and of a generation from 1 to the store's, its
-- reservation fields are empty exactly when it is available, the
-- token ids ascend strictly, and an empty store has generation 0.
pub validate_snapshot_iff : (s : LifecycleSnapshot) → (validate_snapshot s ≡ ok tt) ↔ IsValid s
unfolding validate_snapshot has_no_records
validate_snapshot_iff s = (sound, complete)
  where
    sound : validate_snapshot s ≡ ok tt → IsValid s
    sound h =
        let (_, a, h) = bind-eq-ok _ _ h in
        let (_, b, h) = bind-eq-ok _ _ h in
        let (_, c, h) = bind-eq-ok _ _ h in
        let (each, ascending) = validate_records_sound s.store_generation none s.records c in
        record {
          version = not_eq-false _ _ (reject_if-eq-ok _ _ a);
          few = ltb-false _ _ (reject_if-eq-ok _ _ b);
          each = each;
          ascending = ascending;
          fresh = has_no_records_sound s (reject_if-eq-ok _ _ h);
        }

    complete : IsValid s → validate_snapshot s ≡ ok tt
    complete v = rw (
      v.version,
      eq_refl,
      le→ltb-false max_lifecycle_records (length s.records) v.few,
      validate_records_complete s.store_generation none s.records v.each v.ascending,
      has_no_records_complete s v.fresh,
    )
