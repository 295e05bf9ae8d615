-- ===== src/Store/Operations/Keeps.antt =====
-- The journal under the methods that do not write it
-- (experiments/preprocessed-pbmo/src/token.rs).
use thinwallet.Prelude.{
  ℕ, ◌≡◌, refl, ap, ◌∙◌, any, Bool, true, false, Option, List, [], ◌∷◌, if◌then◌else◌, ◌==◌,
}
use thinwallet.Prelude.Outcome.{Result, ok, err}
use thinwallet.Prelude.Bytes.{Bytes}
use thinwallet.Token.{
  Token, TokenState, available, TokenError, LifecycleRecord, LifecycleSnapshot, ReservationBinding,
}
use thinwallet.Token.Equality.{state_eq}
use thinwallet.External.{External}
use thinwallet.Store.World.{
  World, Exec, pure, lift, gets, modify, continue, after_fault, syscall, Visible, ◌>>=◌,
}
use thinwallet.Store.Operations.{
  Config, observe, file_exists, install_snapshot, read_token_file, install_token_file,
  persist_token, check_available_file, check_available_files, rewrite_found, rewrite_token,
}

abbrev pub journal_after {ℓ} : {A : Type ℓ} → Result TokenError A × World → Option Bytes
journal_after (r, w) = w.disk.journal

pub record Keeps {ℓ} {A : Type ℓ} (m : Exec A) : Type ℓ where
  pub same : (w : World) → journal_after (m w) ≡ w.disk.journal
  pub visible : (w : World) → Visible w → Visible (m w).1

module _ {ℓ} {A : Type ℓ} where
  pub Keeps-pure : (a : A) → Keeps (pure a)
  unfolding pure
  Keeps-pure a = record { same = λ w. refl; visible = λ w v. v }

  pub Keeps-lift : (r : Result TokenError A) → Keeps (lift r)
  unfolding lift
  Keeps-lift r = record { same = λ w. refl; visible = λ w v. v }

  pub Keeps-gets : (f : World → A) → Keeps (gets f)
  unfolding gets
  Keeps-gets f = record { same = λ w. refl; visible = λ w v. v }

  pub Keeps-if : (b : Bool) (m n : Exec A) → Keeps m → Keeps n → Keeps (if b then m else n)
  Keeps-if true m n km kn = km
  Keeps-if false m n km kn = kn

module _ {ℓ κ} {A : Type ℓ} {B : Type κ} where
  Keeps-continue :
      (f : A → Exec B)
      → ((a : A) → Keeps (f a))
      → (x : Result TokenError A × World) → journal_after (continue f x) ≡ x.1.disk.journal
  Keeps-continue f kf (ok a, w) = (kf a).same w
  Keeps-continue f kf (err e, w) = refl

  Keeps-continue-Visible :
      (f : A → Exec B)
      → ((a : A) → Keeps (f a))
      → (x : Result TokenError A × World) → Visible x.1
      → Visible (continue f x).1
  Keeps-continue-Visible f kf (ok a, w) v = (kf a).visible w v
  Keeps-continue-Visible f kf (err e, w) v = v

  pub Keeps-bind :
      (m : Exec A) (f : A → Exec B) → Keeps m → ((a : A) → Keeps (f a)) → Keeps (m >>= f)
  unfolding ◌>>=◌
  Keeps-bind m f km kf = record {
    same = λ w. Keeps-continue f kf (m w) ∙ km.same w;
    visible = λ w v. Keeps-continue-Visible f kf (m w) (km.visible w v);
  }

after_fault-same :
    (faults : List Bool) (w : World) → journal_after (after_fault faults w) ≡ w.disk.journal
unfolding after_fault
after_fault-same [] w = refl
after_fault-same (true ∷ later) w = refl
after_fault-same (false ∷ later) w = refl

after_fault-Visible :
    (faults : List Bool) (w : World) → Visible w → Visible (after_fault faults w).1
unfolding after_fault
after_fault-Visible [] w v = v
after_fault-Visible (true ∷ later) w v = v
after_fault-Visible (false ∷ later) w v = v

pub Keeps-syscall : Keeps syscall
unfolding syscall
Keeps-syscall = record {
  same = λ w. after_fault-same w.faults w;
  visible = λ w. after_fault-Visible w.faults w;
}

module _ (X : External) (cfg : Config) where
  pub Keeps-observe : (generation : ℕ) → Keeps (observe X cfg generation)
  unfolding observe
  Keeps-observe generation = record { same = λ w. refl; visible = λ w v. v }

  Keeps-install_token_file : (id bytes : Bytes) → Keeps (install_token_file X cfg id bytes)
  unfolding install_token_file modify
  Keeps-install_token_file id bytes = record { same = λ w. refl; visible = λ w v. v }

  pub Keeps-file_exists : (id : Bytes) → Keeps (file_exists X cfg id)
  unfolding file_exists
  Keeps-file_exists id = record { same = λ w. refl; visible = λ w v. v }

  pub Keeps-read_token_file : (id : Bytes) → Keeps (read_token_file X cfg id)
  unfolding read_token_file
  Keeps-read_token_file id = search (Keeps-bind, Keeps-lift, Keeps-gets, Keeps-syscall) depth 9

Keeps-modify :
    (f : World → World)
    → ((w : World) → (f w).disk.journal ≡ w.disk.journal)
    → ((w : World) → (f w).journal_stats ≡ w.journal_stats)
    → Keeps (modify f)
unfolding modify
Keeps-modify f h g = record { same = h; visible = λ w v. ap (any (λ failed. failed)) (g w) ∙ v }

pub ruleset keeps_rules = (Keeps-bind, Keeps-lift, Keeps-gets, Keeps-pure, Keeps-if, Keeps-syscall)

module _ (X : External) (cfg : Config) where
  pub Keeps-persist_token :
      (nonce : Bytes) (t : Token X.Point) → Keeps (persist_token X cfg nonce t)
  unfolding persist_token
  Keeps-persist_token nonce t = search (keeps_rules, Keeps-install_token_file X cfg) depth 20

  pub Keeps-check_available_file : (r : LifecycleRecord) → Keeps (check_available_file X cfg r)
  unfolding check_available_file
  Keeps-check_available_file r = search (keeps_rules, Keeps-read_token_file X cfg) depth 9

  pub Keeps-check_available_files :
      (rs : List LifecycleRecord) → Keeps (check_available_files X cfg rs)
  unfolding check_available_files
  Keeps-check_available_files [] = Keeps-pure tt
  Keeps-check_available_files (r ∷ rs) =
      Keeps-bind _ _
        (Keeps-if (r.state == available) _ _ (Keeps-check_available_file r) (Keeps-pure tt))
        (λ _. Keeps-check_available_files rs)

  pub Keeps-install_snapshot : (s : LifecycleSnapshot) → Keeps (install_snapshot X cfg s)
  unfolding install_snapshot
  Keeps-install_snapshot s =
      Keeps-bind _ _ (Keeps-lift _) (λ h. Keeps-modify _ (λ w. refl) (λ w. refl))

  Keeps-rewrite_found :
      (nonce id : Bytes) (b : ReservationBinding) (g : ℕ) (target : TokenState) (head : Bytes)
      → Keeps (rewrite_found X cfg nonce id b g target head)
  unfolding rewrite_found
  Keeps-rewrite_found nonce id b g target head =
      search (keeps_rules, Keeps-read_token_file X cfg, Keeps-persist_token) depth 9

  pub Keeps-rewrite_token :
      (nonce id : Bytes) (b : ReservationBinding) (g : ℕ) (target : TokenState) (head : Bytes)
      → Keeps (rewrite_token X cfg nonce id b g target head)
  unfolding rewrite_token
  Keeps-rewrite_token nonce id b g target head =
      search (keeps_rules, Keeps-rewrite_found, Keeps-file_exists) depth 9
