-- ===== src/Wire/Server/Rows.antt =====
-- The rows that the server's loop collects (experiments/preprocessed-pbmo/src/transport.rs),
-- described by the chunks that it accepted.
use thinwallet.Prelude.{
  ℕ, zero, suc, List, [], ◌∷◌, ◌+◌, ◌≡◌, refl, sym, ap, ◌∙◌, ◌<◌, ◌≤◌, ◌++◌, true, false, not, map,
  length, set, replicate, get_elem?, any, ◌==◌, nat_eq, if◌then◌else◌, arith, All, append-nil,
  append_assoc, length-append, Option, none, some, fun_ext,
}
use thinwallet.Wire.Server.{push}

some-injective : {a b : ℕ} → ◌≡◌ {A = Option ℕ} (some a) (some b) → a ≡ b
some-injective {a} h = ap (get_or a) h
  where
    get_or : ℕ → Option ℕ → ℕ
    get_or d none = d
    get_or d (some x) = x

-- `k`, `k + 1` and so on, `n` numbers.
unfoldable pub range : ℕ → ℕ → List ℕ
range k zero = []
range k (suc n) = k ∷ range (suc k) n

pub lengths-none : (A : Type 0) (q : ℕ) → replicate q 0 ≡ map length (replicate {A = List A} q [])
lengths-none A zero = refl
lengths-none A (suc q) = ap (λ (ns : List ℕ). 0 ∷ ns) (lengths-none A q)

module _ {A : Type 0} where
  -- What the pieces, each the row and the elements of a chunk, put in row `i`, in their order.
  unfoldable pub row_of : List (ℕ × List A) → ℕ → List A
  row_of [] i = []
  row_of ((r, xs) ∷ ps) i = (if r == i then xs else []) ++ row_of ps i

  unfoldable pub rows_of : ℕ → List (ℕ × List A) → List (List A)
  rows_of q ps = map (row_of ps) (range 0 q)

  pub row_of-append :
      (ps : List (ℕ × List A)) (r : ℕ) (xs : List A) (i : ℕ)
      → row_of (ps ++ (r, xs) ∷ []) i ≡ row_of ps i ++ (if r == i then xs else [])
  unfolding row_of
  row_of-append [] r xs i = append-nil (if r == i then xs else [])
  row_of-append ((s, ys) ∷ ps) r xs i =
      rw (row_of-append ps r xs i)
        (sym (append_assoc (if s == i then ys else []) (row_of ps i) (if r == i then xs else [])))

  untouched :
      (f : ℕ → List A) (k n t : ℕ) (xs : List A)
      → t < k
      → map (λ j. f j ++ (if t == j then xs else [])) (range k n) ≡ map f (range k n)
  unfolding range
  untouched f k zero t xs h = refl
  untouched f k (suc n) t xs h =
      let other : (t == k) ≡ false = ground arith in
      rw (other, append-nil (f k), untouched f (suc k) n t xs (omega arith)) refl

  -- A push at position `i` of rows numbered from `k`, which is row `t`.
  push-map :
      (f : ℕ → List A) (k n i t : ℕ) (xs : List A)
      → t ≡ k + i
      → push (map f (range k n)) i xs ≡ map (λ j. f j ++ (if t == j then xs else [])) (range k n)
  unfolding push range
  push-map f k zero i t xs h = refl
  push-map f k (suc n) zero t xs h =
      let same : (t == k) ≡ true = ground arith in
      rw (same, untouched f (suc k) n t xs (omega arith)) refl
  push-map f k (suc n) (suc i) t xs h =
      let other : (t == k) ≡ false = ground arith in
      rw (other, append-nil (f k))
        (ap (λ rows. f k ∷ rows) (push-map f (suc k) n i t xs (omega arith)))

  pub push-rows_of :
      (q : ℕ) (ps : List (ℕ × List A)) (r : ℕ) (xs : List A)
      → push (rows_of q ps) r xs ≡ rows_of q (ps ++ (r, xs) ∷ [])
  unfolding rows_of
  push-rows_of q ps r xs =
      push-map (row_of ps) 0 q r r xs (omega arith)
      ∙ ap (λ f. map f (range 0 q)) (fun_ext (λ i. sym (row_of-append ps r xs i)))

  replicate-range : (k n : ℕ) → replicate {A = List A} n [] ≡ map (row_of []) (range k n)
  unfolding range row_of
  replicate-range k zero = refl
  replicate-range k (suc n) = ap (λ rows. [] ∷ rows) (replicate-range (suc k) n)

  pub rows_of-none : (q : ℕ) → replicate {A = List A} q [] ≡ rows_of q []
  unfolding rows_of
  rows_of-none q = replicate-range 0 q

  pub set-push :
      (rows : List (List A)) (i lo hi : ℕ) (xs : List A)
      → get_elem? (map length rows) i ≡ some lo
      → hi ≡ lo + length xs
      → set (map length rows) i hi ≡ map length (push rows i xs)
  unfolding push
  set-push [] i lo hi xs h e = refl
  set-push (row ∷ rows) zero lo hi xs h e =
      let first : length row ≡ lo = some-injective h in
      let total : hi ≡ length (row ++ xs) = omega (arith, length-append row xs) in
      ap (λ n. n ∷ map length rows) total
  set-push (row ∷ rows) (suc i) lo hi xs h e =
      ap (λ (t : List ℕ). length row ∷ t) (set-push rows i lo hi xs h e)

  pub complete_rows :
      (rows : List (List A)) (m : ℕ)
      → any (λ v. not (v == m)) (map length rows) ≡ false
      → All (λ row. length row ≡ m) rows
  complete_rows [] m h = tt
  complete_rows (row ∷ rows) m h = (ground arith, complete_rows rows m (ground arith))

-- The length at a place `i` of rows numbered from `k`, which is row `t`.
pub get-lengths :
    {A : Type 0} (f : ℕ → List A) (k n i t : ℕ) {y : ℕ}
    → t ≡ k + i
    → get_elem? (map length (map f (range k n))) i ≡ some y
    → length (f t) ≡ y
unfolding range
get-lengths f k zero i t e h = absurd cc
get-lengths f k (suc n) zero t e h =
    let here : t ≡ k = omega arith in ap (λ j. length (f j)) here ∙ some-injective h
get-lengths f k (suc n) (suc i) t e h = get-lengths f (suc k) n i t (omega arith) h

-- Functions that agree from `k` on.
pub map-range :
    {A : Type 0} (f g : ℕ → A) (k n : ℕ)
    → ((j : ℕ) → k ≤ j → f j ≡ g j)
    → map f (range k n) ≡ map g (range k n)
unfolding range
map-range f g k zero h = refl
map-range f g k (suc n) h =
    rw (h k (omega arith)) (ap (λ t. g k ∷ t) (map-range f g (suc k) n (λ j l. h j (omega arith))))
