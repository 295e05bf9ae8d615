-- ===== src/Store/Operations/OneTime.antt =====
-- What a caller of `TokenStore` can rely on over a history of calls
-- (experiments/preprocessed-pbmo/src/token.rs).
use thinwallet.Prelude.{◌≡◌, ◌≢◌, ℕ, refl, sym, subst, ap, ◌∙◌, false, Option, List, any, inl, inr}
use thinwallet.Prelude.Outcome.{Result, ok, is_ok, ok-injective}
use thinwallet.Prelude.Bytes.{Bytes}
use thinwallet.Token.{
  Token, TokenBinding, TokenState, TokenError, LifecycleSnapshot, ReservationBinding,
}
use thinwallet.External.{External, BincodeLaws}
use thinwallet.Store.World.{World, Visible}
use thinwallet.Store.Snapshot.{is_reserved}
use thinwallet.Store.Lifecycle.{Reserves, Ends}
use thinwallet.Store.Lifecycle.SingleUse.{
  reserved_once, ended_once, invocation_once, Recovers-none_reserved,
}
use thinwallet.Store.Operations.{Config, open_store, reserve, mark_terminal}
use thinwallet.Store.Operations.Commits.{Parses, Commits}
use thinwallet.Store.Operations.Methods.{
  reserve-Commits, mark_terminal-Commits, Steps-reserve, Steps-mark_terminal,
}
use thinwallet.Store.Operations.Restart.{Restarts, open_store-Restarts}
use thinwallet.Store.Operations.History.{Call, run_all, Holds, run_all-Reaches, run_all-Visible}

module _ (X : External) (cfg : Config) (B : BincodeLaws X) where
  -- The step that a method took if it succeeded.
  Taken : (LifecycleSnapshot → LifecycleSnapshot → Type 0) → World → World → Type 0
  Taken R w w' =
      (s : LifecycleSnapshot) × (s' : LifecycleSnapshot) × Holds X cfg w s
      × R s s'
      × Holds X cfg w' s'

  Commits-Taken :
      {A : Type 0} (R : LifecycleSnapshot → LifecycleSnapshot → Type 0) (w w' : World)
      (r : Result TokenError A) {a : A}
      → r ≡ ok a
      → Commits X cfg R w.disk.journal r w'.disk.journal
      → Taken R w w'
  unfolding Taken
  Commits-Taken R w w' r h (inl (_, failed)) = cc (ap is_ok h)
  Commits-Taken R w w' r h (inr p) = p

  reserve-Taken :
      (nonce id : Bytes) (expected : TokenBinding) (b : ReservationBinding) (w : World)
      {t : Token X.Point}
      → Visible w
      → (reserve X cfg nonce id expected b w).0 ≡ ok t
      → Taken (Reserves id b) w (reserve X cfg nonce id expected b w).1
  reserve-Taken nonce id expected b w v h =
      Commits-Taken _ w _ _ h (reserve-Commits X cfg B nonce id expected b w v)

  mark_terminal-Taken :
      (nonce id : Bytes) (b : ReservationBinding) (expected : ℕ) (target : TokenState) (w : World)
      {t : TokenState}
      → Visible w
      → (mark_terminal X cfg nonce id b expected target w).0 ≡ ok t
      → Taken (Ends id b expected target) w (mark_terminal X cfg nonce id b expected target w).1
  mark_terminal-Taken nonce id b expected target w v h =
      Commits-Taken _ w _ _ h (mark_terminal-Commits X cfg B nonce id b expected target w v)

  -- Once `reserve` has succeeded for a token id, it never succeeds for that id again, whatever is
  -- called in between, with restarts and failing system calls at any place, if no failure of
  -- `Path::exists` on the journal is to come.
  pub one_reservation :
      (id nonce nonce' : Bytes) (expected expected' : TokenBinding) (b b' : ReservationBinding)
      (w : World) (cs : List (Call X.Point)) {t t' : Token X.Point}
      → Visible w
      → (reserve X cfg nonce id expected b w).0 ≡ ok t
      → let w' = run_all X cfg cs (reserve X cfg nonce id expected b w).1 in
        (reserve X cfg nonce' id expected' b' w').0 ≢ ok t'
  unfolding Taken
  one_reservation id nonce nonce' expected expected' b b' w cs v h h' =
      let v1 = (Steps-reserve X cfg B nonce id expected b w.disk.journal).visible w refl v in
      let v2 = run_all-Visible X cfg B cs (reserve X cfg nonce id expected b w).1 v1 in
      let (s, s', _, first, at) = reserve-Taken nonce id expected b w v h in
      let (u, hu, path) =
        run_all-Reaches X cfg B cs (reserve X cfg nonce id expected b w).1 s' at v1 in
      let (u', v, hu', again, _) = reserve-Taken nonce' id expected' b' _ v2 h' in
      reserved_once id b b' first path
        (subst (λ x. Reserves id b' x v) (ok-injective (sym hu' ∙ hu)) again)

  -- Two successful calls of `reserve`, of any tokens and with any calls between them, never carry
  -- the same invocation id, if no failure of
  -- `Path::exists` on the journal is to come.
  pub one_invocation :
      (id id' nonce nonce' : Bytes) (expected expected' : TokenBinding) (b b' : ReservationBinding)
      (w : World) (cs : List (Call X.Point)) {t t' : Token X.Point}
      → Visible w
      → (reserve X cfg nonce id expected b w).0 ≡ ok t
      → let w' = run_all X cfg cs (reserve X cfg nonce id expected b w).1 in
        (reserve X cfg nonce' id' expected' b' w').0 ≡ ok t' → b.iid ≢ b'.iid
  unfolding Taken
  one_invocation id id' nonce nonce' expected expected' b b' w cs v h h' =
      let v1 = (Steps-reserve X cfg B nonce id expected b w.disk.journal).visible w refl v in
      let v2 = run_all-Visible X cfg B cs (reserve X cfg nonce id expected b w).1 v1 in
      let (s, s', _, first, at) = reserve-Taken nonce id expected b w v h in
      let (u, hu, path) =
        run_all-Reaches X cfg B cs (reserve X cfg nonce id expected b w).1 s' at v1 in
      let (u', v, hu', again, _) = reserve-Taken nonce' id' expected' b' _ v2 h' in
      invocation_once id id' b b' first path
        (subst (λ x. Reserves id' b' x v) (ok-injective (sym hu' ∙ hu)) again)

  -- Once `mark_spent` or `mark_burned` has succeeded for a token id, neither succeeds for it again,
  -- whatever is called in between, if no failure of
  -- `Path::exists` on the journal is to come.
  pub one_ending :
      (id nonce nonce' : Bytes) (b b' : ReservationBinding) (e e' : ℕ) (target target' : TokenState)
      (w : World) (cs : List (Call X.Point)) {t t' : TokenState}
      → Visible w
      → (mark_terminal X cfg nonce id b e target w).0 ≡ ok t
      → let w' = run_all X cfg cs (mark_terminal X cfg nonce id b e target w).1 in
        (mark_terminal X cfg nonce' id b' e' target' w').0 ≢ ok t'
  unfolding Taken
  one_ending id nonce nonce' b b' e e' target target' w cs v h h' =
      let v1 = (Steps-mark_terminal X cfg B nonce id b e target w.disk.journal).visible w refl v in
      let v2 = run_all-Visible X cfg B cs (mark_terminal X cfg nonce id b e target w).1 v1 in
      let (s, s', _, first, at) = mark_terminal-Taken nonce id b e target w v h in
      let (u, hu, path) =
        run_all-Reaches X cfg B cs (mark_terminal X cfg nonce id b e target w).1 s' at v1 in
      let (u', v, hu', again, _) = mark_terminal-Taken nonce' id b' e' target' _ v2 h' in
      ended_once id b b' e e' target target' first path
        (subst (λ x. Ends id b' e' target' x v) (ok-injective (sym hu' ∙ hu)) again)

  -- When no failure of `Path::exists` on the journal is to come and `open` succeeds, the journal is
  -- accepted and has no reserved record: every token that was reserved when the process stopped is
  -- burned.
  pub open_store-none_reserved :
      (w : World)
      → Visible w
      → (open_store X cfg w).0 ≡ ok tt
      → (s : LifecycleSnapshot) × Holds X cfg (open_store X cfg w).1 s
        × (any is_reserved s.records ≡ false)
  open_store-none_reserved w v h =
      restarted _ _ h ((open_store-Restarts X cfg B w.disk.journal).at w refl v)
    where
      restarted :
          (r : Result TokenError (Unit {0})) (j' : Option Bytes)
          → r ≡ ok tt
          → Restarts X cfg B w.disk.journal r j'
          → (s : LifecycleSnapshot) × Parses X cfg j' s × (any is_reserved s.records ≡ false)
      restarted r j' h (inl (_, failed)) = cc (ap is_ok h)
      restarted r j' h (inr (inl (s, was, none_reserved, same))) =
          (s, subst (λ x. Parses X cfg x s) (sym same) was, none_reserved)
      restarted r j' h (inr (inr (s, s', was, moved, is))) = (s', is, Recovers-none_reserved moved)
