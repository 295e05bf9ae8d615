-- ===== src/Spool/Files.antt =====
-- What the operations of `SecureDirectory` in experiments/preprocessed-pbmo/src/secure_spool.rs do
-- to the files when they succeed.
use thinwallet.Prelude.{
  List, [], ◌∷◌, ◌++◌, ◌≡◌, ◌≢◌, ◌⊎◌, Bool, refl, sym, ap, ◌∙◌, true, false, ◌==◌, bytes_eq,
  eq_refl, eq-false, eq→≡, Option, none, some, is_some, if◌then◌else◌, append_assoc, append-nil,
  Bool-cases, inl, inr,
}
use mathlib.Core.Option as Opt
use thinwallet.Prelude.Outcome.{ok, reject_if, ok_or-eq-ok, reject_if-eq-ok, ok-injective}
use thinwallet.Prelude.Action.{after-eq-ok, after-lift-ok, ok-ne-err}
use thinwallet.Prelude.Bytes.{Bytes}
use thinwallet.Token.Codec.{concat}
use thinwallet.Store.World.{lookup}
use thinwallet.Spool.{
  SecureDirectory, validate_name, after_fault, syscall, put_file, drop_file, write_file, read_file,
  create_file_exclusive, open_file, entry_exists, rename, write_scalars,
}

pub lookup-put_file :
    (name content : Bytes) (files : List (Bytes × Bytes))
    → lookup name (put_file name content files) ≡ some content
unfolding lookup put_file
lookup-put_file name content files = rw (eq_refl name) refl

pub lookup-put_other :
    (name other content : Bytes) (files : List (Bytes × Bytes))
    → other ≢ name
    → lookup name (put_file other content files) ≡ lookup name files
unfolding lookup put_file
lookup-put_other name other content files h = rw (eq-false other name h) refl

pub lookup-drop_file :
    (name other : Bytes) (files : List (Bytes × Bytes))
    → other ≢ name
    → lookup name (drop_file other files) ≡ lookup name files
unfolding lookup drop_file
lookup-drop_file name other [] h = refl
lookup-drop_file name other ((n, c) ∷ files) h =
    by_test (Bool-cases (n == other)) (lookup-drop_file name other files h)
  where
    by_test :
        ((n == other) ≡ true) ⊎ ((n == other) ≡ false)
        → lookup name (drop_file other files) ≡ lookup name files
        → lookup name (if n == other then drop_file other files else (n, c) ∷ drop_file other files)
          ≡ (if n == name then some c else lookup name files)
    by_test (inl same) rest = rw (same, eq-false n name (λ p. h (sym (eq→≡ n other same) ∙ p))) rest
    by_test (inr differs) rest = rw (differs, rest) refl

is_none : (o : Option Bytes) → is_some o ≡ false → o ≡ none
is_none none h = refl
is_none (some b) h = absurd cc

after_fault-files :
    (faults : List Bool) (d d' : SecureDirectory)
    → after_fault faults d ≡ (ok tt, d')
    → d'.files ≡ d.files
unfolding after_fault
after_fault-files [] d d' h = ap (λ r. r.1.files) (sym h)
after_fault-files (true ∷ later) d d' h = absurd (ok-ne-err (ap (λ r. r.0) h))
after_fault-files (false ∷ later) d d' h = ap (λ r. r.1.files) (sym h)

pub syscall-files : (d d' : SecureDirectory) → syscall d ≡ (ok tt, d') → d'.files ≡ d.files
unfolding syscall
syscall-files d d' h = after_fault-files d.faults d d' h

pub read_file-found :
    (name : Bytes) (d d' : SecureDirectory) {b : Bytes}
    → read_file name d ≡ (ok b, d')
    → (lookup name d.files ≡ some b) × (d' ≡ d)
unfolding read_file
read_file-found name d d' h =
    (ok_or-eq-ok _ (lookup name d.files) (ap (λ r. r.0) h), sym (ap (λ r. r.1) h))

pub open_file-found :
    (name : Bytes) (d d' : SecureDirectory) {b : Bytes}
    → open_file name d ≡ (ok b, d')
    → (lookup name d.files ≡ some b) × (d'.files ≡ d.files)
unfolding open_file
open_file-found name d d' h =
    let (_, _, h) = after-lift-ok _ (validate_name name) d h in
    let (_, e, called, h) = after-eq-ok _ (syscall d) h in
    let (found, same) = read_file-found name e d' h in
    let files = syscall-files d e called in
    (ap (lookup name) (sym files) ∙ found, ap (λ d. d.files) same ∙ files)

pub create_file-new :
    (name : Bytes) (d d' : SecureDirectory)
    → create_file_exclusive name d ≡ (ok tt, d')
    → (lookup name d.files ≡ none) × (d'.files ≡ put_file name [] d.files)
unfolding create_file_exclusive write_file
create_file-new name d d' h =
    let (_, _, h) = after-lift-ok _ (validate_name name) d h in
    let (_, e, called, h) = after-eq-ok _ (syscall d) h in
    let files = syscall-files d e called in
    let (_, absent, h) = after-lift-ok _ (reject_if (is_some (lookup name e.files)) _) e h in
    (
      ap (lookup name) (sym files) ∙ is_none (lookup name e.files) (reject_if-eq-ok _ _ absent),
      sym (ap (λ r. r.1.files) h) ∙ ap (put_file name []) files,
    )

entry_exists-found :
    (name : Bytes) (d d' : SecureDirectory) {b : Bool}
    → entry_exists name d ≡ (ok b, d')
    → (is_some (lookup name d.files) ≡ b) × (d'.files ≡ d.files)
unfolding entry_exists
entry_exists-found name d d' h =
    let (_, _, h) = after-lift-ok _ (validate_name name) d h in
    let (_, e, called, h) = after-eq-ok _ (syscall d) h in
    let files = syscall-files d e called in
    (
      ap (λ fs. is_some (lookup name fs)) (sym files) ∙ ok-injective (ap (λ r. r.0) h),
      sym (ap (λ r. r.1.files) h) ∙ files,
    )

pub rename-moves :
    (from to : Bytes) (d d' : SecureDirectory)
    → rename from to d ≡ (ok tt, d')
    → (content : Bytes) × (lookup from d.files ≡ some content)
      × (lookup to d.files ≡ none)
      × (d'.files ≡ put_file to content (drop_file from d.files))
unfolding rename
rename-moves from to d d' h =
    let (_, _, h) = after-lift-ok _ (validate_name from) d h in
    let (_, _, h) = after-lift-ok _ (validate_name to) d h in
    let (taken, e, there, h) = after-eq-ok _ (entry_exists to d) h in
    let (_, absent, h) = after-lift-ok _ (reject_if taken _) e h in
    let (_, f, called, h) = after-eq-ok _ (syscall e) h in
    let (content, g, read, h) = after-eq-ok _ (read_file from f) h in
    let (found, same) = read_file-found from f g read in
    let (entry, files_e) = entry_exists-found to d e there in
    let files_f = syscall-files e f called ∙ files_e in
    (
      content,
      ap (lookup from) (sym files_f) ∙ found,
      is_none (lookup to d.files) (entry ∙ reject_if-eq-ok taken _ absent),
      sym (ap (λ r. r.1.files) h)
          ∙ ap (λ fs. put_file to content (drop_file from fs)) (ap (λ d. d.files) same ∙ files_f),
    )

pub write_scalars-appends :
    (name : Bytes) (xs : List Bytes) (d d' : SecureDirectory) {b : Bytes}
    → lookup name d.files ≡ some b
    → write_scalars name xs d ≡ (ok tt, d')
    → lookup name d'.files ≡ some (b ++ concat xs)
unfolding write_scalars write_file concat
write_scalars-appends name [] d d' {b} found h =
    ap (λ r. lookup name r.1.files) (sym h) ∙ found ∙ ap some (sym (append-nil b))
write_scalars-appends name (x ∷ xs) d d' {b} found h =
    let (_, e, called, h) = after-eq-ok _ (syscall d) h in
    let (content, f, read, h) = after-eq-ok _ (read_file name e) h in
    let (content_e, same) = read_file-found name e f read in
    let found_e = ap (lookup name) (syscall-files d e called) ∙ found in
    let old : content ≡ b = Opt.some-injective content b (sym content_e ∙ found_e) in
    write_scalars-appends name xs _ d' (lookup-put_file name (content ++ x) f.files) h
    ∙ ap (λ c. some ((c ++ x) ++ concat xs)) old
    ∙ ap some (append_assoc b x (concat xs))
