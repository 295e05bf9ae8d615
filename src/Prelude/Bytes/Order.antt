-- ===== src/Prelude/Bytes/Order.antt =====
-- `Ord` of byte arrays, as a strict test.
use Prim.Native.Nat.{ℕ}
use mathlib.Core.Path.{◌≡◌, refl}
use mathlib.Core.Logic.{◌⊎◌, inl, inr}
use mathlib.Core.Bool.{Bool, true, false}
use mathlib.Core.List.{List, [], ◌∷◌}
use native.Mathlib.Omega.{arith}
use thinwallet.Prelude.Tests.{ltb, if◌then◌else◌}

unfoldable pub lex_lt : List ℕ → List ℕ → Bool
lex_lt [] [] = false
lex_lt [] (b ∷ bs) = true
lex_lt (a ∷ as') [] = false
lex_lt (a ∷ as') (b ∷ bs) =
    let rest = lex_lt as' bs in if ltb a b then true else if ltb b a then false else rest

pub lex_lt_irrefl : (a : List ℕ) → lex_lt a a ≡ false
unfolding lex_lt
lex_lt_irrefl [] = refl
lex_lt_irrefl (x ∷ a) = ground (arith, lex_lt_irrefl a)

pub lex_lt_trans : (a b c : List ℕ) → lex_lt a b ≡ true → lex_lt b c ≡ true → lex_lt a c ≡ true
unfolding lex_lt
lex_lt_trans [] b [] h k = ground arith
lex_lt_trans [] b (z ∷ c) h k = refl
lex_lt_trans (x ∷ a) [] c h k = ground arith
lex_lt_trans (x ∷ a) (y ∷ b) [] h k = ground arith
lex_lt_trans (x ∷ a) (y ∷ b) (z ∷ c) h k = ground (arith, lex_lt_trans a b c)

-- Of two arrays, one is before the other or they are equal.
pub lex_lt_total : (a b : List ℕ) → (lex_lt a b ≡ true) ⊎ (lex_lt b a ≡ true) ⊎ (a ≡ b)
unfolding lex_lt
lex_lt_total [] [] = inr (inr refl)
lex_lt_total [] (y ∷ b) = inl refl
lex_lt_total (x ∷ a) [] = inr (inl refl)
lex_lt_total (x ∷ a) (y ∷ b) = ground (arith, lex_lt_total a b)
