-- ===== src/Prelude/Action.antt =====
-- Methods that change a state and may fail: what was changed before an error stays changed.
use mathlib.Core.Path.{◌≡◌, refl, ap}
use thinwallet.Prelude.Outcome.{Result, ok, err, ok-injective}

abbrev pub Action {ℓ} : Type 0 → Type 0 → Type ℓ → Type ℓ
Action E S A = S → Result E A × S

module _ {ℓ} {E S : Type 0} {A : Type ℓ} where
  abbrev pub pure : A → Action E S A
  pure a s = (ok a, s)

  abbrev pub lift : Result E A → Action E S A
  lift r s = (r, s)

  abbrev pub gets : (S → A) → Action E S A
  gets f s = (ok (f s), s)

abbrev pub modify : {E S : Type 0} → (S → S) → Action E S (Unit {0})
modify f s = (ok tt, f s)

pub ok-ne-err {ℓ} :
    {E : Type 0} {A : Type ℓ} {e : E} {a : A} → ◌≡◌ {A = Result E A} (err e) (ok a) → ⊥
ok-ne-err h = cc

module _ {ℓ κ} {E S : Type 0} {A : Type ℓ} {B : Type κ} where
  -- The rest of a chain, after the first action.
  abbrev pub after : (A → Action E S B) → Result E A × S → Result E B × S
  after f (ok a, s) = f a s
  after f (err e, s) = (err e, s)

  infixl 5 ◌>>=◌
  abbrev pub ◌>>=◌ : Action E S A → (A → Action E S B) → Action E S B
  (m >>= f) s = after f (m s)

  -- A chain succeeds when each action does.
  pub after-ok :
      (f : A → Action E S B) (r : Result E A) (s : S) {b : B}
      → (after f (r, s)).0 ≡ ok b
      → (a : A) × (r ≡ ok a) × ((f a s).0 ≡ ok b)
  after-ok f (ok a) s h = (a, refl, h)
  after-ok f (err e) s h = cc

  -- The same for the result with its state.
  pub after-eq-ok :
      (f : A → Action E S B) (r : Result E A × S) {b : B} {t : S}
      → after f r ≡ (ok b, t)
      → (a : A) × (s : S) × (r ≡ (ok a, s)) × (f a s ≡ (ok b, t))
  after-eq-ok f (ok a, s) h = (a, s, refl, h)
  after-eq-ok f (err e, s) h = absurd (ok-ne-err (ap (λ r. r.0) h))

  -- The same where the first action does not touch the state.
  pub after-lift-ok :
      (f : A → Action E S B) (r : Result E A) (s : S) {b : B} {t : S}
      → after f (r, s) ≡ (ok b, t)
      → (a : A) × (r ≡ ok a) × (f a s ≡ (ok b, t))
  after-lift-ok f (ok a) s h = (a, refl, h)
  after-lift-ok f (err e) s h = absurd (ok-ne-err (ap (λ r. r.0) h))

  -- A chain whose parts succeed does.
  pub after-succeeds :
      (f : A → Action E S B) (r : Result E A × S) (a : A) {b : B}
      → r.0 ≡ ok a
      → (f a r.1).0 ≡ ok b
      → (after f r).0 ≡ ok b
  after-succeeds f (ok a', s) a h rest = rw (ok-injective h) rest
  after-succeeds f (err e, s) a h rest = absurd (ok-ne-err h)

  -- What holds of the state before and after the rest holds after the chain.
  pub after-lift-keeps :
      (P : S → Type 0) (f : A → Action E S B) (r : Result E A) (s : S)
      → P s
      → ((a : A) → P (f a s).1)
      → P (after f (r, s)).1
  after-lift-keeps P f (ok a) s before rest = rest a
  after-lift-keeps P f (err e) s before rest = before

  pub after-next :
      (f : A → Action E S B) (r : Result E A) (s : S) {a : A} → r ≡ ok a → after f (r, s) ≡ f a s
  after-next f r s h = rw h refl

infixl 5 ◌>>◌
abbrev pub ◌>>◌ {ℓ} :
    {E S : Type 0} {B : Type ℓ} → Action E S (Unit {0}) → Action E S B → Action E S B
m >> k = m >>= λ _. k

-- An action on a part of the state, by its `get` and `put`.
abbrev pub zoom {ℓ} :
    {E S T : Type 0} {A : Type ℓ} → (S → T) → (T → S → S) → Action E T A → Action E S A
zoom get put m s = ((m (get s)).0, put (m (get s)).1 s)
