-- ===== src/Store/Operations/History.antt =====
-- Any sequence of calls on a store, with restarts and failing system calls between and within them.
-- A failure of `Path::exists` on the journal is left out: the store then takes the journal for absent.
-- A process that dies inside a method leaves the files as a method that fails there does.
use thinwallet.Prelude.{ℕ, refl, sym, subst, ◌∙◌, Option, List, [], ◌∷◌, inl, inr}
use thinwallet.Prelude.Outcome.{Result, ok-injective}
use thinwallet.Prelude.Bytes.{Bytes}
use thinwallet.Token.{
  Token, TokenBinding, TokenState, TokenError, LifecycleSnapshot, ReservationBinding,
}
use thinwallet.External.{External, BincodeLaws}
use thinwallet.Store.World.{World, Memory, Visible}
use thinwallet.Store.Lifecycle.{Step, inserts, reserves, ends, recovers, Reaches, here, next}
use thinwallet.Store.Operations.{
  Config, open_store, recover_reserved, insert, reserve, mark_terminal,
}
use thinwallet.Store.Operations.Commits.{Parses, Commits}
use thinwallet.Store.Operations.Methods.{Steps-reserve, Steps-mark_terminal, Steps-insert}
use thinwallet.Store.Operations.Restart.{Restarts, recover_reserved-Restarts, open_store-Restarts}

-- `JournalState::default()` and no records.
abbrev pub fresh_memory : Memory
fresh_memory = record { sequence = 0; token_states = []; head_hash = []; records = [] }

-- The calls of the public interface that may write. `restart` drops the store and opens it again.
pub data Call (Point : Type 0) : Type 0 where
  restart : Call Point
  recover : Call Point
  insert_token : Bytes → Token Point → Call Point
  reserve_token : Bytes → Bytes → TokenBinding → ReservationBinding → Call Point
  end_token : Bytes → Bytes → ReservationBinding → ℕ → TokenState → Call Point

module _ (X : External) (cfg : Config) where
  unfoldable pub run : Call X.Point → World → World
  run restart w = (open_store X cfg (record w { memory = fresh_memory })).1
  run recover w = (recover_reserved X cfg w).1
  run (insert_token nonce t) w = (insert X cfg nonce t w).1
  run (reserve_token nonce id expected b) w = (reserve X cfg nonce id expected b w).1
  run (end_token nonce id b expected target) w =
      (mark_terminal X cfg nonce id b expected target w).1

  unfoldable pub run_all : List (Call X.Point) → World → World
  unfolding run
  run_all [] w = w
  run_all (c ∷ cs) w = run_all cs (run c w)

  abbrev pub Holds : World → LifecycleSnapshot → Type 0
  Holds w s = Parses X cfg w.disk.journal s

  module _ (B : BincodeLaws X) where
    Commits-Reaches :
        {A : Type 0} (R : LifecycleSnapshot → LifecycleSnapshot → Type 0) (j j' : Option Bytes)
        (r : Result TokenError A) (s : LifecycleSnapshot)
        → ((t t' : LifecycleSnapshot) → R t t' → Step t t')
        → Parses X cfg j s
        → Commits X cfg R j r j'
        → (s' : LifecycleSnapshot) × Parses X cfg j' s' × Reaches s s'
    Commits-Reaches R j j' r s step at (inl (same, _)) =
        (s, subst (λ x. Parses X cfg x s) (sym same) at, here)
    Commits-Reaches R j j' r s step at (inr (t, t', was, moved, is)) = (
      t',
      is,
      subst (λ x. Reaches x t') (ok-injective (sym was ∙ at)) (next here (step t t' moved)),
    )

    Restarts-Reaches :
        {A : Type 0} (j j' : Option Bytes) (r : Result TokenError A) (s : LifecycleSnapshot)
        → Parses X cfg j s
        → Restarts X cfg B j r j'
        → (s' : LifecycleSnapshot) × Parses X cfg j' s' × Reaches s s'
    Restarts-Reaches j j' r s at (inl (same, _)) =
        (s, subst (λ x. Parses X cfg x s) (sym same) at, here)
    Restarts-Reaches j j' r s at (inr (inl (t, was, none_reserved, same))) =
        (s, subst (λ x. Parses X cfg x s) (sym same) at, here)
    Restarts-Reaches j j' r s at (inr (inr (t, t', was, moved, is))) = (
      t',
      is,
      subst (λ x. Reaches x t') (ok-injective (sym was ∙ at)) (next here (recovers moved)),
    )

    run-Reaches :
        (c : Call X.Point) (w : World) (s : LifecycleSnapshot)
        → Holds w s
        → Visible w
        → (s' : LifecycleSnapshot) × Holds (run c w) s' × Reaches s s'
    unfolding run
    run-Reaches restart w s h v =
        Restarts-Reaches _ _ _ s h ((open_store-Restarts X cfg B w.disk.journal).at _ refl v)
    run-Reaches recover w s h v =
        Restarts-Reaches _ _ _ s h ((recover_reserved-Restarts X cfg B w.disk.journal).at w refl v)
    run-Reaches (insert_token nonce t) w s h v =
        Commits-Reaches _ _ _ _ s (λ a b m. inserts _ m.1) h
          ((Steps-insert X cfg B nonce t w.disk.journal).at w refl v)
    run-Reaches (reserve_token nonce id expected b) w s h v =
        Commits-Reaches _ _ _ _ s (λ x y m. reserves id b m) h
          ((Steps-reserve X cfg B nonce id expected b w.disk.journal).at w refl v)
    run-Reaches (end_token nonce id b expected target) w s h v =
        Commits-Reaches _ _ _ _ s (λ x y m. ends id b expected target m) h
          ((Steps-mark_terminal X cfg B nonce id b expected target w.disk.journal).at w refl v)

    run-Visible : (c : Call X.Point) (w : World) → Visible w → Visible (run c w)
    unfolding run
    run-Visible restart w v = (open_store-Restarts X cfg B w.disk.journal).visible _ refl v
    run-Visible recover w v = (recover_reserved-Restarts X cfg B w.disk.journal).visible w refl v
    run-Visible (insert_token nonce t) w v =
        (Steps-insert X cfg B nonce t w.disk.journal).visible w refl v
    run-Visible (reserve_token nonce id expected b) w v =
        (Steps-reserve X cfg B nonce id expected b w.disk.journal).visible w refl v
    run-Visible (end_token nonce id b expected target) w v =
        (Steps-mark_terminal X cfg B nonce id b expected target w.disk.journal).visible w refl v

    Reaches-trans : {s t u : LifecycleSnapshot} → Reaches s t → Reaches t u → Reaches s u
    Reaches-trans p here = p
    Reaches-trans p (next q st) = next (Reaches-trans p q) st

    -- Whatever is called, the journal goes from an accepted snapshot to an accepted snapshot by steps
    -- of the lifecycle, if no failure of `Path::exists` on the journal is to come, and whichever other
    -- system calls fail.
    pub run_all-Reaches :
        (cs : List (Call X.Point)) (w : World) (s : LifecycleSnapshot)
        → Holds w s
        → Visible w
        → (s' : LifecycleSnapshot) × Holds (run_all cs w) s' × Reaches s s'
    unfolding run_all
    run_all-Reaches [] w s h v = (s, h, here)
    run_all-Reaches (c ∷ cs) w s h v =
        let (t, ht, p) = run-Reaches c w s h v in
        let (u, hu, q) = run_all-Reaches cs (run c w) t ht (run-Visible c w v) in
        (u, hu, Reaches-trans p q)

    pub run_all-Visible :
        (cs : List (Call X.Point)) (w : World) → Visible w → Visible (run_all cs w)
    unfolding run_all
    run_all-Visible [] w v = v
    run_all-Visible (c ∷ cs) w v = run_all-Visible cs (run c w) (run-Visible c w v)
