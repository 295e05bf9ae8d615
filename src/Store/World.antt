-- ===== src/Store/World.antt =====
-- What a `TokenStore` reads and writes: its directory, the monotonic provider and its own fields;
-- and methods that change them and may fail. What was written before an error stays written.
use thinwallet.Prelude.{
  ℕ, Bool, true, false, Option, none, some, List, [], ◌∷◌, ◌==◌, ◌≡◌, ◌&&◌, not, any, bytes_eq,
  if◌then◌else◌,
}
use thinwallet.Prelude.Outcome.{Result, ok, err}
use thinwallet.Prelude.Bytes.{Bytes}
use thinwallet.Token.{TokenState, TokenError, io, LifecycleRecord}

-- The directory: `lifecycle.journal`, and the files of `tokens/` by token id. A temporary file is
-- private to the call that makes it and is read by none, so only what a rename installs is kept.
pub record Disk : Type 0 where
  pub journal : Option Bytes
  pub token_files : List (Bytes × Bytes)

-- `JournalState` and `records`
pub record Memory : Type 0 where
  pub sequence : ℕ
  pub token_states : List (Bytes × TokenState)
  pub head_hash : Bytes
  pub records : List (Bytes × LifecycleRecord)

-- `faults` says of each coming system call whether it fails; past its end none does. The calls by
-- which `Path::exists` looks for the journal and for a token file, and whose failure it gives as
-- `false`, are in `journal_stats` and `file_stats`. `observed` is the history of the monotonic
-- provider.
pub record World : Type 0 where
  pub disk : Disk
  pub memory : Memory
  pub faults : List Bool
  pub journal_stats : List Bool
  pub file_stats : List Bool
  pub observed : List ℕ

abbrev pub Exec {ℓ} : Type ℓ → Type ℓ
Exec A = World → Result TokenError A × World

module _ {ℓ} {A : Type ℓ} where
  unfoldable pub pure : A → Exec A
  pure a w = (ok a, w)

  unfoldable pub lift : Result TokenError A → Exec A
  lift r w = (r, w)

  unfoldable pub gets : (World → A) → Exec A
  gets f w = (ok (f w), w)

unfoldable pub modify : (World → World) → Exec (Unit {0})
modify f w = (ok tt, f w)

module _ {ℓ κ} {A : Type ℓ} {B : Type κ} where
  abbrev pub continue : (A → Exec B) → Result TokenError A × World → Result TokenError B × World
  continue f (ok a, w) = f a w
  continue f (err e, w) = (err e, w)

  infixl 5 ◌>>=◌
  unfoldable pub ◌>>=◌ : Exec A → (A → Exec B) → Exec B
  ◌>>=◌ m f w = continue f (m w)

infixl 5 ◌>>◌
abbrev pub ◌>>◌ {ℓ} : {B : Type ℓ} → Exec (Unit {0}) → Exec B → Exec B
m >> k = m >>= λ _. k

-- One system call with no other effect: it fails if the environment says so.
unfoldable pub after_fault : List Bool → World → Result TokenError (Unit {0}) × World
after_fault [] w = (ok tt, w)
after_fault (true ∷ later) w = (err io, record w { faults = later })
after_fault (false ∷ later) w = (ok tt, record w { faults = later })

unfoldable pub syscall : Exec (Unit {0})
unfolding after_fault
syscall w = after_fault w.faults w

-- Whether `Path::exists` finds what is there, and the outcomes that are left.
unfoldable pub exists_after : List Bool → Bool → Bool × List Bool
exists_after [] there = (there, [])
exists_after (failed ∷ later) there = (not failed && there, later)

-- No failure of `Path::exists` on the journal is to come.
abbrev pub Visible : World → Type 0
Visible w = any (λ failed. failed) w.journal_stats ≡ false

-- An association list as a map: the first entry of a key counts.
module _ {ℓ} {V : Type ℓ} where
  unfoldable pub lookup : Bytes → List (Bytes × V) → Option V
  lookup k [] = none
  lookup k ((j, v) ∷ m) = if j == k then some v else lookup k m
