-- ===== src/Store/Lifecycle/Order.antt =====
-- The order in which the record of a token may change
-- (experiments/preprocessed-pbmo/src/token.rs).
use thinwallet.Prelude.{
  ℕ, ◌≡◌, ◌≢◌, ◌⊎◌, refl, sym, subst, ap, ◌∙◌, inl, inr, Bool, true, false, some, [], ◌∷◌, ◌++◌,
  arith, ◌==◌, bytes_eq, Bool-cases, eq→≡,
}
use thinwallet.Prelude.Bytes.{Bytes}
use thinwallet.Token.{
  TokenState, available, reserved, spent, burned, LifecycleRecord, LifecycleSnapshot,
}
use mathlib.Core.Option.{some-injective}
use thinwallet.Token.Equality.{state_eq}
use thinwallet.Store.Snapshot.{
  find_record, recovered, burn, reserve_record, terminal_record, with_record,
}
use thinwallet.Store.Lifecycle.{
  Inserts, Step, inserts, reserves, ends, recovers, Reaches, here, next,
}
use thinwallet.Store.Lifecycle.Find.{
  find_record-append, find_record-sort_by_tid, find_record-update_record, find_record-map,
}

-- available, then reserved, then spent or burned; nothing comes back.
abbrev pub leads : TokenState → TokenState → Bool
leads available t = true
leads reserved available = false
leads reserved t = true
leads spent spent = true
leads burned burned = true
leads s t = false

-- The record `r` later, as `r'`: the reservation, once made, stays, and so does the context.
pub record Later (r r' : LifecycleRecord) : Type 0 where
  pub tid : r'.tid ≡ r.tid
  pub ctx_digest : r'.ctx_digest ≡ r.ctx_digest
  pub forward : leads r.state r'.state ≡ true
  pub sid : r.state ≢ available → r'.sid ≡ r.sid
  pub iid : r.state ≢ available → r'.iid ≡ r.iid
  pub request_digest : r.state ≢ available → r'.request_digest ≡ r.request_digest

leads_trans : (a b c : TokenState) → leads a b ≡ true → leads b c ≡ true → leads a c ≡ true
leads_trans available b c h k = refl
leads_trans reserved b c h k = ground arith
leads_trans spent b c h k = ground arith
leads_trans burned b c h k = ground arith

leads-ne-available : (a b : TokenState) → leads a b ≡ true → a ≢ available → b ≢ available
leads-ne-available a b h k e = ground arith

Later-refl : (r : LifecycleRecord) → Later r r
Later-refl r = record {
  tid = refl;
  ctx_digest = refl;
  forward = ground arith;
  sid = λ h. refl;
  iid = λ h. refl;
  request_digest = λ h. refl;
}

Later-trans : (a b c : LifecycleRecord) → Later a b → Later b c → Later a c
Later-trans a b c h k =
    let moved = leads-ne-available a.state b.state h.forward in
    record {
      tid = k.tid ∙ h.tid;
      ctx_digest = k.ctx_digest ∙ h.ctx_digest;
      forward = leads_trans a.state b.state c.state h.forward k.forward;
      sid = λ n. k.sid (moved n) ∙ h.sid n;
      iid = λ n. k.iid (moved n) ∙ h.iid n;
      request_digest = λ n. k.request_digest (moved n) ∙ h.request_digest n;
    }

-- The record of `id` is still there, later.
abbrev pub Persists : Bytes → LifecycleSnapshot → LifecycleSnapshot → Type 0
Persists id s s' =
    (r : LifecycleRecord)
    → find_record id s.records ≡ some r
    → (r' : LifecycleRecord) × (find_record id s'.records ≡ some r') × Later r r'

-- An update of the record of `id` that moves it forward.
Persists-update :
    (j id : Bytes) (g : ℕ) (f : LifecycleRecord → LifecycleRecord) (s : LifecycleSnapshot)
    (old : LifecycleRecord)
    → ((r : LifecycleRecord) → (f r).tid ≡ r.tid)
    → find_record id s.records ≡ some old
    → Later old (f old)
    → Persists j s (with_record g id f s)
unfolding with_record
Persists-update j id g f s old keeps found later r h = elim (Bool-cases (id == j)) [
  | inl e ↦
      let same : r ≡ old =
        some-injective _ _
          (sym h ∙ sym (ap (λ (x : Bytes). find_record x s.records) (eq→≡ id j e)) ∙ found) in
      (
        f r,
        find_record-update_record f keeps id j s.records ∙ rw (e, h) refl,
        subst (λ x. Later x (f x)) (sym same) later,
      )
  | inr e ↦ (r, find_record-update_record f keeps id j s.records ∙ rw e h, Later-refl r)
]

burn-Later : (g : ℕ) (r : LifecycleRecord) → Later r (burn g r)
unfolding burn
burn-Later g r = ground arith

burn-tid : (g : ℕ) (r : LifecycleRecord) → (burn g r).tid ≡ r.tid
unfolding burn
burn-tid g r = ground arith

reserve_record-Later :
    (g : ℕ) (sid iid digest : Bytes) (r : LifecycleRecord)
    → r.state ≡ available
    → Later r (reserve_record g sid iid digest r)
unfolding reserve_record
reserve_record-Later g sid iid digest r h = record {
  tid = refl;
  ctx_digest = refl;
  forward = rw h refl;
  sid = λ n. absurd (n h);
  iid = λ n. absurd (n h);
  request_digest = λ n. absurd (n h);
}

terminal_record-Later :
    (g : ℕ) (target : TokenState) (r : LifecycleRecord)
    → r.state ≡ reserved
    → (target ≡ spent) ⊎ (target ≡ burned)
    → Later r (terminal_record g target r)
unfolding terminal_record
terminal_record-Later g target r h t = record {
  tid = refl;
  ctx_digest = refl;
  forward = ground arith;
  sid = λ n. refl;
  iid = λ n. refl;
  request_digest = λ n. refl;
}

Inserts-Persists :
    (j : Bytes) (x : LifecycleRecord) (s s' : LifecycleSnapshot) → Inserts x s s' → Persists j s s'
Inserts-Persists j x s s' i r h = (
  r,
  ap (λ (t : LifecycleSnapshot). find_record j t.records) i.after
      ∙ find_record-sort_by_tid j (s.records ++ x ∷ [])
      ∙ find_record-append j s.records x
      ∙ rw h refl,
  Later-refl r,
)

pub Step-Persists : (j : Bytes) {s s' : LifecycleSnapshot} → Step s s' → Persists j s s'
unfolding recovered
Step-Persists j {s} {s'} (inserts x i) = Inserts-Persists j x s s' i
Step-Persists j {s} (reserves id b v) = subst (Persists j s) (sym v.after) (
    Persists-update j id v.generation _ s v.old (λ r. unfold reserve_record in refl) v.found
      (reserve_record-Later _ _ _ _ v.old v.was_available))
Step-Persists j {s} (ends id b expected target v) = subst (Persists j s) (sym v.after) (
    Persists-update j id v.generation _ s v.old (λ r. unfold terminal_record in refl) v.found
      (terminal_record-Later _ _ v.old v.was_reserved v.terminal))
Step-Persists j {s} (recovers v) = subst (Persists j s) (sym v.after) (λ r h. (
  burn v.generation r,
  find_record-map (burn v.generation) (burn-tid v.generation) j s.records ∙ rw h refl,
  burn-Later v.generation r,
))

-- However often a store is used and restarted, the record of a token stays: its context never
-- changes, its state only goes from available through reserved to spent or burned, and from its
-- reservation on the session, invocation and request that it is bound to are the same.
pub Reaches-Persists : (j : Bytes) {s s' : LifecycleSnapshot} → Reaches s s' → Persists j s s'
Reaches-Persists j here r h = (r, h, Later-refl r)
Reaches-Persists j (next rest st) r h =
    let (r1, h1, l1) = Reaches-Persists j rest r h in
    let (r2, h2, l2) = Step-Persists j st r1 h1 in (r2, h2, Later-trans r r1 r2 l1 l2)
