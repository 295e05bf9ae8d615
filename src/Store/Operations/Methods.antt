-- ===== src/Store/Operations/Methods.antt =====
-- `insert`, `reserve` and `mark_terminal` as steps of the lifecycle
-- (experiments/preprocessed-pbmo/src/token.rs).
use thinwallet.Prelude.{
  ℕ, ◌≡◌, refl, Bool, true, false, if◌then◌else◌, not, ◌||◌, Option, any, ◌⊎◌, inl, inr, ◌==◌,
  bytes_eq, nat_eq, not_eq-false, arith,
}
use thinwallet.Prelude.Outcome.{Result, ok, err, ok_or-eq-ok}
use thinwallet.Prelude.Bytes.{Bytes}
use thinwallet.Token.{
  Token, TokenBinding, TokenState, spent, burned, TokenError, LifecycleSnapshot, ReservationBinding,
}
use thinwallet.Token.Equality.{state_eq}
use thinwallet.External.{External, BincodeLaws}
use thinwallet.Store.World.{World, Visible, Exec, pure, ◌>>=◌}
use thinwallet.Store.Snapshot.{next_generation}
use thinwallet.Store.Lifecycle.{Inserts, Reserves, Ends}
use thinwallet.Store.Operations.{
  Config, file_exists, new_record, inserted, insert, reserve, mark_terminal,
}
use thinwallet.Store.Operations.Keeps.{
  keeps_rules, Keeps-syscall, Keeps-file_exists, Keeps-read_token_file, Keeps-persist_token,
  Keeps-install_snapshot, Keeps-rewrite_token,
}
use thinwallet.Store.Operations.Steps.{
  Steps, Steps-bind, Steps-pure, Steps-skip, Steps-lift, Steps-guard,
}
use thinwallet.Store.Operations.Commits.{Commits, Steps-load, Steps-commit}

module _ (X : External) (cfg : Config) (B : BincodeLaws X) where
  pub Steps-reserve :
      (nonce id : Bytes) (expected : TokenBinding) (b : ReservationBinding) (j : Option Bytes)
      → Steps j (reserve X cfg nonce id expected b) (Commits X cfg (Reserves id b) j)
  unfolding reserve
  Steps-reserve nonce id expected b j =
      let failed : (e : TokenError)
          → Commits X cfg {A = Token X.Point} (Reserves id b) j (err e) j =
        λ e. inl (refl, refl) in
      Steps-guard j _ _ _ failed λ _. Steps-skip j _ _ Keeps-syscall failed λ _.
        Steps-load X cfg B j _ failed λ s parsed. Steps-guard j _ _ _ failed λ unused.
          Steps-lift j _ _ failed λ r found. Steps-guard j _ _ _ failed λ is_available.
            Steps-guard j _ _ _ failed λ bound.
              Steps-skip j _ _ (Keeps-read_token_file X cfg id) failed λ bytes.
                Steps-lift j _ _ failed λ token _. Steps-lift j _ _ failed λ _ _.
                  Steps-lift j _ _ failed λ g next.
                    Steps-commit X cfg B j _ _
                      (search (keeps_rules, Keeps-install_snapshot X cfg, Keeps-persist_token X cfg)
                        depth 12)
                      failed
                      (λ r' j' parsed'. inr (
                        s,
                        _,
                        parsed,
                        record {
                          generation = g;
                          next = next;
                          unused = unused;
                          old = r;
                          found = ok_or-eq-ok _ _ found;
                          was_available = not_eq-false _ _ is_available;
                          bound = not_eq-false _ _ bound;
                          after = refl;
                        },
                        parsed',
                      ))

  terminal_cases :
      (t : TokenState) → not ((t == spent) || (t == burned)) ≡ false → (t ≡ spent) ⊎ (t ≡ burned)
  terminal_cases t h = ground arith

  pub Steps-mark_terminal :
      (nonce id : Bytes) (b : ReservationBinding) (expected : ℕ) (target : TokenState)
      (j : Option Bytes)
      → Steps j
          (mark_terminal X cfg nonce id b expected target)
          (Commits X cfg (Ends id b expected target) j)
  unfolding mark_terminal
  Steps-mark_terminal nonce id b expected target j =
      let failed : (e : TokenError)
          → Commits X cfg {A = TokenState} (Ends id b expected target) j (err e) j =
        λ e. inl (refl, refl) in
      Steps-guard j _ _ _ failed λ terminal. Steps-skip j _ _ Keeps-syscall failed λ _.
        Steps-load X cfg B j _ failed λ s parsed. Steps-lift j _ _ failed λ r found.
          Steps-guard j _ _ _ failed λ current. Steps-guard j _ _ _ failed λ is_reserved.
            Steps-guard j _ _ _ failed λ matching. Steps-lift j _ _ failed λ g next.
              Steps-commit X cfg B j _ _
                (search (keeps_rules, Keeps-install_snapshot X cfg, Keeps-rewrite_token X cfg) depth
                  12)
                failed
                (λ r' j' parsed'. inr (
                  s,
                  _,
                  parsed,
                  record {
                    generation = g;
                    next = next;
                    terminal = terminal_cases target terminal;
                    old = r;
                    found = ok_or-eq-ok _ _ found;
                    was_reserved = not_eq-false _ _ is_reserved;
                    current = not_eq-false _ _ current;
                    matching = matching;
                    after = refl;
                  },
                  parsed',
                ))

  inserted-Inserts :
      (g : ℕ) (t : Token X.Point) (s : LifecycleSnapshot)
      → next_generation s.store_generation ≡ ok g
      → any (λ r. r.tid == t.token_id) s.records ≡ false
      → Inserts (new_record X cfg g t) s (inserted X cfg g t s)
  unfolding inserted new_record
  inserted-Inserts g t s next fresh = record {
    next = next;
    fresh = fresh;
    starts = refl;
    after = refl;
  }

  -- The test of `insert` for an id that is in use.
  Steps-taken :
      {O : Result TokenError (Unit {0}) → Option Bytes → Type 0} (j : Option Bytes) (id : Bytes)
      (b : Bool) (f : Bool → Exec (Unit {0}))
      → ((e : TokenError) → O (err e) j)
      → ((taken : Bool) → (taken ≡ false → b ≡ false) → Steps j (f taken) O)
      → Steps j ((if b then pure true else file_exists X cfg id) >>= f) O
  Steps-taken j id true f failed goes =
      Steps-bind j (pure true) f (λ r j'. (j' ≡ j) × (r ≡ ok true)) (Steps-pure j true (refl, refl))
        (λ e j' p. rw p.0 (failed e)) (λ a j' p. rw p.0 (goes a (λ h. cc (p.1))))
  Steps-taken j id false f failed goes =
      Steps-skip j _ f (Keeps-file_exists X cfg id) failed (λ a. goes a (λ h. refl))

  -- Unless `Path::exists` fails on the journal, and however the other system calls go, `insert` either fails and leaves the journal as it is, or takes it
  -- through one `Inserts` step that adds an available record of the token's id.
  pub Steps-insert :
      (nonce : Bytes) (t : Token X.Point) (j : Option Bytes)
      → Steps j
          (insert X cfg nonce t)
          (Commits X cfg (λ s s'. (g : ℕ) × Inserts (new_record X cfg g t) s s') j)
  unfolding insert
  Steps-insert nonce t j =
      let failed : (e : TokenError)
          → Commits X cfg {A = Unit {0}} (λ s s'. (g : ℕ) × Inserts (new_record X cfg g t) s s') j
              (err e) j =
        λ e. inl (refl, refl) in
      Steps-skip j _ _ Keeps-syscall failed λ _. Steps-load X cfg B j _ failed λ s parsed.
        Steps-taken j t.token_id _ _ failed λ taken unused. Steps-guard j _ _ _ failed λ fresh.
          Steps-lift j _ _ failed λ g next.
            Steps-skip j _ _ (Keeps-persist_token X cfg nonce _) failed λ _.
              Steps-commit X cfg B j _ _
                (search (keeps_rules, Keeps-install_snapshot X cfg) depth 12) failed
                (λ r' j' parsed'.
                  inr (s, _, parsed, (g, inserted-Inserts g t s next (unused fresh)), parsed'))

  -- When no failure of `Path::exists` on the journal is to come, and however the other system calls
  -- go, `reserve` either fails and leaves the journal as it is, or takes it through one `Reserves`
  -- step of the lifecycle for this token and this reservation.
  pub reserve-Commits :
      (nonce id : Bytes) (expected : TokenBinding) (b : ReservationBinding) (w : World)
      → Visible w
      → let (r, w') = reserve X cfg nonce id expected b w in
        Commits X cfg (Reserves id b) w.disk.journal r w'.disk.journal
  reserve-Commits nonce id expected b w v =
      (Steps-reserve nonce id expected b w.disk.journal).at w refl v

  -- When no failure of `Path::exists` on the journal is to come, and however the other system calls
  -- go, `mark_terminal` either fails and leaves the journal as it is, or takes it through one `Ends`
  -- step for this token, reservation, generation and target.
  pub mark_terminal-Commits :
      (nonce id : Bytes) (b : ReservationBinding) (expected : ℕ) (target : TokenState) (w : World)
      → Visible w
      → let (r, w') = mark_terminal X cfg nonce id b expected target w in
        Commits X cfg (Ends id b expected target) w.disk.journal r w'.disk.journal
  mark_terminal-Commits nonce id b expected target w v =
      (Steps-mark_terminal nonce id b expected target w.disk.journal).at w refl v
