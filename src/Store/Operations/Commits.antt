-- ===== src/Store/Operations/Commits.antt =====
-- A commit of the journal as a step of the lifecycle
-- (experiments/preprocessed-pbmo/src/token.rs).
use thinwallet.Prelude.{◌≡◌, refl, sym, subst, false, Option, some, ◌⊎◌, inl, inr, bytes_eq, nat_eq}
use thinwallet.Prelude.Outcome.{Result, ok, err, is_ok}
use thinwallet.Prelude.Bytes.{Bytes}
use thinwallet.Token.{TokenError, LifecycleSnapshot}
use thinwallet.Token.Equality.{state_eq}
use thinwallet.External.{External, BincodeLaws}
use thinwallet.Store.World.{Exec, ◌>>=◌}
use thinwallet.Store.Snapshot.{parse_journal, print_journal}
use thinwallet.Store.Snapshot.Journal.{print_journal-Printed, parse_journal-print}
use thinwallet.Store.Operations.{Config, load_snapshot, commit_snapshot}
use thinwallet.Store.Operations.Keeps.{Keeps}
use thinwallet.Store.Operations.Steps.{
  Steps, Steps-bind, Steps-load_snapshot, Steps-commit_snapshot, Steps-Keeps,
}

module _ (X : External) (cfg : Config) where
  abbrev pub Parses : Option Bytes → LifecycleSnapshot → Type 0
  Parses j s = parse_journal X cfg.journal_key j ≡ ok s

  -- The journal Holds what it held, and the method failed; or it went from a snapshot to one that
  -- `R` relates to it.
  abbrev pub Commits {ℓ} :
      {A : Type ℓ}
      → (LifecycleSnapshot → LifecycleSnapshot → Type 0)
      → Option Bytes
      → Result TokenError A
      → Option Bytes
      → Type 0
  Commits R j r j' =
      ((j' ≡ j) × (is_ok r ≡ false))
      ⊎ ((s : LifecycleSnapshot) × (s' : LifecycleSnapshot) × Parses j s × R s s' × Parses j' s')

  module _ (B : BincodeLaws X) where
    pub Steps-load :
        {C : Type 0} {O : Result TokenError C → Option Bytes → Type 0} (j : Option Bytes)
        (f : LifecycleSnapshot → Exec C)
        → ((e : TokenError) → O (err e) j)
        → ((s : LifecycleSnapshot) → Parses j s → Steps j (f s) O)
        → Steps j (load_snapshot X cfg >>= f) O
    Steps-load {O} j f failed goes =
        Steps-bind j _ f _ (Steps-load_snapshot X cfg j)
          (λ e j' p. subst (O (err e)) (sym p.0) (failed e))
          (λ s j' p. subst (λ x. Steps x (f s) O) (sym p.0) (goes s (p.1 s refl)))

    -- After the commit nothing changes the journal again.
    pub Steps-commit :
        {C : Type 0} {O : Result TokenError C → Option Bytes → Type 0} (j : Option Bytes)
        (s' : LifecycleSnapshot) (f : Unit {0} → Exec C)
        → Keeps (f tt)
        → ((e : TokenError) → O (err e) j)
        → ((r : Result TokenError C) (j' : Option Bytes) → Parses j' s' → O r j')
        → Steps j (commit_snapshot X cfg s' >>= f) O
    Steps-commit {O} j s' f kf failed done =
        Steps-bind j _ f _ (Steps-commit_snapshot X cfg j s')
          (λ e j' p. elim p [
            | inl q ↦ subst (O (err e)) (sym q.0) (failed e)
            | inr q ↦ done (err e) j' (written j' q.0 q.1 q.2)
          ])
          (λ u j' p. elim p [
            | inl q ↦ cc (q.1)
            | inr q ↦ Steps-Keeps j' (f u) kf (λ r. done r j' (written j' q.0 q.1 q.2))
          ])
      where
        written :
            (j' : Option Bytes) (b : Bytes)
            → print_journal X cfg.journal_key s' ≡ ok b
            → j' ≡ some b
            → Parses j' s'
        written j' b printed is =
            subst (λ x. Parses x s') (sym is)
              (parse_journal-print X cfg.journal_key B s' b
                (print_journal-Printed X cfg.journal_key s' b printed))
