-- ===== src/Store/Operations/Restart.antt =====
-- `open` and `recover_reserved` as steps of the lifecycle
-- (experiments/preprocessed-pbmo/src/token.rs).
use thinwallet.Prelude.{◌≡◌, refl, false, Option, any, ◌⊎◌, inl, inr, bytes_eq, nat_eq, Bool-cases}
use thinwallet.Prelude.Outcome.{Result, err, is_ok}
use thinwallet.Prelude.Bytes.{Bytes}
use thinwallet.Token.{TokenError, LifecycleSnapshot}
use thinwallet.Token.Equality.{state_eq}
use thinwallet.External.{External, BincodeLaws}
use thinwallet.Store.World.{Exec, ◌>>=◌}
use thinwallet.Store.Snapshot.{is_reserved}
use thinwallet.Store.Lifecycle.{Recovers}
use thinwallet.Store.Operations.{Config, burn_reserved, open_store, recover_reserved}
use thinwallet.Store.Operations.Keeps.{
  Keeps, keeps_rules, Keeps-pure, Keeps-syscall, Keeps-install_snapshot,
  Keeps-check_available_files,
}
use thinwallet.Store.Operations.Steps.{
  Steps, Steps-bind, Steps-pure, Steps-skip, Steps-lift, Steps-Keeps,
}
use thinwallet.Store.Operations.Commits.{Parses, Steps-load, Steps-commit}

module _ (X : External) (cfg : Config) (B : BincodeLaws X) where
  -- The journal Holds what it held, and the method failed or no record is reserved; or it went
  -- through one `Recovers` step.
  abbrev pub Restarts {ℓ} :
      {A : Type ℓ} → Option Bytes → Result TokenError A → Option Bytes → Type 0
  Restarts j r j' =
      ((j' ≡ j) × (is_ok r ≡ false))
      ⊎ ((s : LifecycleSnapshot) × Parses X cfg j s
          × (any is_reserved s.records ≡ false)
          × (j' ≡ j))
      ⊎ ((s : LifecycleSnapshot) × (s' : LifecycleSnapshot) × Parses X cfg j s
          × Recovers s s'
          × Parses X cfg j' s')

  burn_reserved-Restarts :
      (s : LifecycleSnapshot) (j : Option Bytes)
      → Parses X cfg j s
      → Steps j (burn_reserved X cfg s) (Restarts j)
  unfolding burn_reserved
  burn_reserved-Restarts s j parsed = elim (Bool-cases (any is_reserved s.records)) [
    | inl some_reserved ↦ rw some_reserved (
        Steps-lift j _ _ failed λ g next.
          Steps-commit X cfg B j _ _ (Keeps-pure _) failed (λ r' j' parsed'. inr (
            inr (
              s,
              _,
              parsed,
              record { generation = g; next = next; some_reserved = some_reserved; after = refl },
              parsed',
            ))))
    | inr none_reserved ↦
        rw none_reserved (Steps-pure j s (inr (inl (s, parsed, none_reserved, refl))))
  ]
    where
      failed : (e : TokenError) → Restarts {A = LifecycleSnapshot} j (err e) j
      failed e = inl (refl, refl)

  Restarts-then :
      (s : LifecycleSnapshot) (j : Option Bytes) (f : LifecycleSnapshot → Exec (Unit {0}))
      → Parses X cfg j s
      → ((s' : LifecycleSnapshot) → Keeps (f s'))
      → Steps j (burn_reserved X cfg s >>= f) (Restarts j)
  Restarts-then s j f parsed kf =
      Steps-bind j _ f _ (burn_reserved-Restarts s j parsed)
        (λ e j' p. elim p [ inl q ↦ inl q | inr (inl q) ↦ inr (inl q) | inr (inr q) ↦ inr (inr q) ])
        (λ s' j' p. Steps-Keeps j' (f s') (kf s') (λ r. elim p [
          | inl q ↦ cc (q.1)
          | inr (inl q) ↦ inr (inl q)
          | inr (inr q) ↦ inr (inr q)
        ]))

  -- Unless `Path::exists` fails on the journal, and however the other system calls go, `recover_reserved` leaves the journal as it is, and then it failed
  -- or no record is reserved, or it takes the journal through one `Recovers` step.
  pub recover_reserved-Restarts : (j : Option Bytes) → Steps j (recover_reserved X cfg) (Restarts j)
  unfolding recover_reserved
  recover_reserved-Restarts j =
      let failed : (e : TokenError) → Restarts {A = Unit {0}} j (err e) j = λ e. inl (refl, refl) in
      Steps-skip j _ _ Keeps-syscall failed λ _. Steps-load X cfg B j _ failed λ s parsed.
        Restarts-then s j _ parsed
          (λ s'. search (keeps_rules, Keeps-install_snapshot X cfg) depth 9)

  -- The same of `open`, which also reads the file of every available token.
  pub open_store-Restarts : (j : Option Bytes) → Steps j (open_store X cfg) (Restarts j)
  unfolding open_store
  open_store-Restarts j =
      let failed : (e : TokenError) → Restarts {A = Unit {0}} j (err e) j = λ e. inl (refl, refl) in
      Steps-skip j _ _ Keeps-syscall failed λ _. Steps-skip j _ _ Keeps-syscall failed λ _.
        Steps-load X cfg B j _ failed λ s parsed.
          Steps-skip j _ _ (Keeps-check_available_files X cfg _) failed λ _.
            Restarts-then s j _ parsed
              (λ s'. search (keeps_rules, Keeps-install_snapshot X cfg) depth 9)
