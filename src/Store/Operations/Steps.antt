-- ===== src/Store/Operations/Steps.antt =====
-- What a method leaves in the journal, step by step. `Steps j m O` says that `m`, run where the
-- journal holds `j` and no failure of `Path::exists` on the journal is to come, ends with a result and
-- a journal in the relation `O`, however the other system calls go. A step that keeps the journal is passed over, and `commit_snapshot` is the step that does not.
use thinwallet.Prelude.{
  ◌≡◌, refl, sym, subst, ap, ◌∙◌, Bool, true, false, List, [], ◌∷◌, any, is_some, Option, none,
  some, ◌⊎◌, inl, inr,
}
use thinwallet.Prelude.Outcome.{Result, ok, err, ok-injective, reject_if, reject_if-eq-ok, is_ok}
use thinwallet.Prelude.Bytes.{Bytes}
use thinwallet.Token.{TokenError, LifecycleSnapshot}
use thinwallet.External.{External}
use thinwallet.Store.World.{
  World, Exec, Visible, exists_after, pure, lift, gets, modify, continue, ◌>>=◌,
}
use thinwallet.Store.Snapshot.{parse_journal, print_journal}
use thinwallet.Store.Operations.{
  Config, journal_exists, read_existing, read_journal, load_snapshot, install_journal,
  commit_snapshot,
}
use thinwallet.Store.Operations.Keeps.{
  journal_after, Keeps, Keeps-syscall, Keeps-if, Keeps-pure, Keeps-observe,
}

pub record Steps {ℓ} {A : Type ℓ} (j : Option Bytes) (m : Exec A)
    (O : Result TokenError A → Option Bytes → Type 0) : Type ℓ where
  pub at : (w : World) → w.disk.journal ≡ j → Visible w → O (m w).0 (journal_after (m w))
  pub visible : (w : World) → w.disk.journal ≡ j → Visible w → Visible (m w).1

module _ {ℓ κ} {A : Type ℓ} {B : Type κ} {O : Result TokenError B → Option Bytes → Type 0} where
  Steps-continue :
      (f : A → Exec B) (P : Result TokenError A → Option Bytes → Type 0)
      → ((e : TokenError) (j' : Option Bytes) → P (err e) j' → O (err e) j')
      → ((a : A) (j' : Option Bytes) → P (ok a) j' → Steps j' (f a) O)
      → (x : Result TokenError A × World) → P x.0 (journal_after x)
      → Visible x.1
      → O (continue f x).0 (journal_after (continue f x)) × Visible (continue f x).1
  Steps-continue f P failed goes (ok a, w) p v =
      let rest = goes a w.disk.journal p in (rest.at w refl v, rest.visible w refl v)
  Steps-continue f P failed goes (err e, w) p v = (failed e w.disk.journal p, v)

  -- The rule of sequence; the others are its instances.
  pub Steps-bind :
      (j : Option Bytes) (m : Exec A) (f : A → Exec B)
      (P : Result TokenError A → Option Bytes → Type 0)
      → Steps j m P
      → ((e : TokenError) (j' : Option Bytes) → P (err e) j' → O (err e) j')
      → ((a : A) (j' : Option Bytes) → P (ok a) j' → Steps j' (f a) O)
      → Steps j (m >>= f) O
  unfolding ◌>>=◌
  Steps-bind j m f P first failed goes = record {
    at = λ w h v. (Steps-continue f P failed goes (m w) (first.at w h v) (first.visible w h v)).0;
    visible =
        λ w h v. (Steps-continue f P failed goes (m w) (first.at w h v) (first.visible w h v)).1;
  }

module _ {ℓ} {A : Type ℓ} {O : Result TokenError A → Option Bytes → Type 0} (j : Option Bytes) where
  pub Steps-pure : (a : A) → O (ok a) j → Steps j (pure a) O
  unfolding pure
  Steps-pure a o = record { at = λ w h v. rw h o; visible = λ w h v. v }

  pub Steps-Keeps : (m : Exec A) → Keeps m → ((r : Result TokenError A) → O r j) → Steps j m O
  Steps-Keeps m km o = record {
    at = λ w h v. subst (λ x. O (m w).0 x) (sym (km.same w ∙ h)) (o (m w).0);
    visible = λ w h v. km.visible w v;
  }

module _ {ℓ κ} {A : Type ℓ} {B : Type κ} {O : Result TokenError B → Option Bytes → Type 0}
    (j : Option Bytes) where
  -- A step that keeps the journal, and whose result does not matter.
  pub Steps-skip :
      (m : Exec A) (f : A → Exec B)
      → Keeps m
      → ((e : TokenError) → O (err e) j)
      → ((a : A) → Steps j (f a) O)
      → Steps j (m >>= f) O
  Steps-skip m f km failed goes =
      Steps-bind j m f (λ r j'. j' ≡ j)
        (record { at = λ w h v. km.same w ∙ h; visible = λ w h v. km.visible w v })
        (λ e j' same. rw same (failed e)) (λ a j' same. rw same (goes a))

  pub Steps-gets :
      (g : World → A) (f : A → Exec B)
      → ((w : World) → w.disk.journal ≡ j → Steps j (f (g w)) O)
      → Steps j (gets g >>= f) O
  unfolding ◌>>=◌ gets
  Steps-gets g f goes = record {
    at = λ w h v. (goes w h).at w h v;
    visible = λ w h v. (goes w h).visible w h v;
  }

  pub Steps-lift :
      (r : Result TokenError A) (f : A → Exec B)
      → ((e : TokenError) → O (err e) j)
      → ((a : A) → r ≡ ok a → Steps j (f a) O)
      → Steps j (lift r >>= f) O
  unfolding ◌>>=◌ lift
  Steps-lift (ok a) f failed goes = goes a refl
  Steps-lift (err e) f failed goes = record { at = λ w h v. rw h (failed e); visible = λ w h v. v }

pub Steps-guard {κ} :
    {B : Type κ} {O : Result TokenError B → Option Bytes → Type 0} (j : Option Bytes) (b : Bool)
    (e : TokenError) (f : Unit {0} → Exec B)
    → ((e : TokenError) → O (err e) j)
    → (b ≡ false → Steps j (f tt) O)
    → Steps j (lift (reject_if b e) >>= f) O
Steps-guard j b e f failed goes =
    Steps-lift j (reject_if b e) f failed (λ u h. goes (reject_if-eq-ok b e h))

exists_after-Visible :
    (stats : List Bool) (there : Bool)
    → any (λ failed. failed) stats ≡ false
    → ((exists_after stats there).0 ≡ there)
      × (any (λ failed. failed) (exists_after stats there).1 ≡ false)
unfolding exists_after
exists_after-Visible [] there v = (refl, v)
exists_after-Visible (true ∷ later) there v = cc
exists_after-Visible (false ∷ later) there v = (refl, v)

module _ (X : External) (cfg : Config) where
  Steps-journal_exists :
      (j : Option Bytes) → Steps j (journal_exists X cfg) (λ r j'. (j' ≡ j) × (r ≡ ok (is_some j)))
  unfolding journal_exists
  Steps-journal_exists j = record {
    at = λ w h v. (h, ap ok ((exists_after-Visible w.journal_stats _ v).0 ∙ ap is_some h));
    visible = λ w h v. (exists_after-Visible w.journal_stats (is_some w.disk.journal) v).1;
  }

  Steps-read_existing :
      (j : Option Bytes) (there : Bool)
      → there ≡ is_some j
      → Steps j
          (read_existing X cfg there)
          (λ r j'. (j' ≡ j) × ((x : Option Bytes) → r ≡ ok x → x ≡ j))
  unfolding read_existing gets
  Steps-read_existing none false h = Steps-pure none none (refl, λ x c. cc)
  Steps-read_existing (some b) false h = cc
  Steps-read_existing j true h =
      Steps-skip j _ _ Keeps-syscall (λ e. (refl, λ x c. cc))
        (λ _. record { at = λ w h v. (h, λ x c. sym (ok-injective c) ∙ h); visible = λ w h v. v })

  Steps-read_journal :
      (j : Option Bytes)
      → Steps j (read_journal X cfg) (λ r j'. (j' ≡ j) × ((x : Option Bytes) → r ≡ ok x → x ≡ j))
  unfolding read_journal
  Steps-read_journal j =
      Steps-bind j _ _ _ (Steps-journal_exists j) (λ e j' p. (p.0, λ x c. cc))
        (λ there j' p. rw (p.0, ok-injective (p.1)) (Steps-read_existing j (is_some j) refl))

  pub Steps-load_snapshot :
      (j : Option Bytes)
      → Steps j (load_snapshot X cfg) (λ r j'.
        (j' ≡ j) × ((s : LifecycleSnapshot) → r ≡ ok s → parse_journal X cfg.journal_key j ≡ ok s))
  unfolding load_snapshot
  Steps-load_snapshot j =
      Steps-bind j _ _ _ (Steps-read_journal j) (λ e j' p. (p.0, λ s c. cc))
        (λ x j' p.
          rw (p.0, p.1 x refl)
            (Steps-lift j _ _ (λ e. (refl, λ s c. cc))
              (λ s parsed.
                Steps-skip j _ _ (Keeps-if _ _ _ (Keeps-observe X cfg _) (Keeps-pure tt))
                  (λ e. (refl, λ s c. cc)) (λ _. Steps-pure j s (refl, λ t c. parsed ∙ c)))))

  Steps-install_journal :
      {B : Type 0} {O : Result TokenError B → Option Bytes → Type 0} (j : Option Bytes) (b : Bytes)
      (f : Unit {0} → Exec B)
      → Steps (some b) (f tt) O
      → Steps j (install_journal X cfg b >>= f) O
  unfolding ◌>>=◌ install_journal modify
  Steps-install_journal j b f goes = record {
    at = λ w h v. goes.at _ refl v;
    visible = λ w h v. goes.visible _ refl v;
  }

  -- What `commit_snapshot` leaves: nothing if it fails before the rename, and the new snapshot's
  -- text, which parses to the snapshot, whether it fails afterwards or not.
  pub Steps-commit_snapshot :
      (j : Option Bytes) (s : LifecycleSnapshot)
      → Steps j (commit_snapshot X cfg s) (λ r j'.
        ((j' ≡ j) × (is_ok r ≡ false))
        ⊎ ((b : Bytes) × (print_journal X cfg.journal_key s ≡ ok b) × (j' ≡ some b)))
  unfolding commit_snapshot
  Steps-commit_snapshot j s =
      Steps-lift j _ _ (λ e. inl (refl, refl))
        λ b printed.
          Steps-skip j _ _ Keeps-syscall (λ e. inl (refl, refl))
            λ _.
              Steps-skip j _ _ Keeps-syscall (λ e. inl (refl, refl))
                λ _.
                  Steps-skip j _ _ Keeps-syscall (λ e. inl (refl, refl))
                    λ _.
                      Steps-skip j _ _ Keeps-syscall (λ e. inl (refl, refl))
                        λ _. Steps-install_journal j b _ (
                          Steps-skip (some b) _ _ Keeps-syscall (λ e. inr (b, printed, refl))
                            λ _.
                              Steps-skip (some b) _ _ Keeps-syscall (λ e. inr (b, printed, refl))
                                λ _.
                                  Steps-Keeps (some b) _ (Keeps-observe X cfg _)
                                    (λ r. inr (b, printed, refl)))
