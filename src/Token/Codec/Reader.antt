-- ===== src/Token/Codec/Reader.antt =====
-- `Cursor` of experiments/preprocessed-pbmo/src/token.rs, on a 64-bit target.
use thinwallet.Prelude.{
  ℕ, zero, suc, List, [], ◌∷◌, ◌+◌, ◌^◌, ◌≡◌, sym, ap, ◌∙◌, ◌<◌, ◌≤◌, ◌++◌, arith, length, take,
  drop, ltb, leb, take-append, drop-append, length-append, length-drop, le→ltb-false, le→leb-false,
  drop-nil,
}
use thinwallet.Prelude.Outcome.{Result, ok, ◌>>=◌, ◌>>◌, reject_if}
use thinwallet.Prelude.Bytes.{Bytes, from_le, le_bytes, from_le-le_bytes, length-le_bytes}
use native.Mathlib.Nat.{zero-add, suc-add}
use thinwallet.Token.{TokenError, malformed}

pub record Cursor : Type 0 where
  pub bytes : Bytes
  pub position : ℕ

abbrev pub start : Bytes → Cursor
start bytes = record { bytes = bytes; position = 0 }

-- `take`; `checked_add` fails when the sum does not fit in a `usize`.
unfoldable pub take_bytes : ℕ → Cursor → Result TokenError (Bytes × Cursor)
take_bytes len c = do
  reject_if (leb (2 ^ 64) (c.position + len)) (malformed "length overflow")
  reject_if (ltb (length c.bytes) (c.position + len)) (malformed "truncated token")
  ok (take len (drop c.position c.bytes), record c { position = c.position + len })

unfoldable pub u32 : Cursor → Result TokenError (ℕ × Cursor)
u32 c = do (b, c) ← take_bytes 4 c; ok (from_le b, c)

-- The cursor stands in front of `rest`.
pub record At (c : Cursor) (rest : Bytes) : Type 0 where
  pub ahead : drop c.position c.bytes ≡ rest
  pub within : c.position ≤ length c.bytes
  pub addressable : length c.bytes < 2 ^ 64

abbrev pub advance : ℕ → Cursor → Cursor
advance n c = record c { position = c.position + n }

drop-add : {A : Type 0} (a b : ℕ) (xs : List A) → drop (a + b) xs ≡ drop b (drop a xs)
drop-add zero b xs = rw zero-add
drop-add (suc a) b [] = rw suc-add (sym (drop-nil b))
drop-add (suc a) b (x ∷ xs) = rw suc-add (drop-add a b xs)

module _ (n : ℕ) (c : Cursor) (x rest : Bytes) (at : At c (x ++ rest)) (long : length x ≡ n) where
  position_fits : c.position + n ≤ length c.bytes
  position_fits = omega (
    arith,
    length-drop c.position c.bytes,
    ap length at.ahead,
    length-append x rest,
    at.within,
    long,
  )

  pub take_bytes-At : take_bytes n c ≡ ok (x, advance n c)
  unfolding take_bytes
  take_bytes-At = rw (
    le→leb-false (2 ^ 64) (c.position + n) (omega (arith, position_fits, at.addressable)),
    le→ltb-false (length c.bytes) (c.position + n) position_fits,
    at.ahead,
    take-append n x rest long,
  )

  pub advance-At : At (advance n c) rest
  advance-At = record {
    ahead = drop-add c.position n c.bytes ∙ rw at.ahead (drop-append n x rest long);
    within = position_fits;
    addressable = at.addressable;
  }

module _ (n : ℕ) (c : Cursor) (rest : Bytes) (fits : n < 2 ^ 32)
    (at : At c (le_bytes 4 n ++ rest)) where
  pub u32-At : u32 c ≡ ok (n, advance 4 c)
  unfolding u32
  u32-At =
      rw (take_bytes-At 4 c (le_bytes 4 n) rest at (length-le_bytes 4 n), from_le-le_bytes 4 n fits)

  pub advance-u32 : At (advance 4 c) rest
  advance-u32 = advance-At 4 c (le_bytes 4 n) rest at (length-le_bytes 4 n)

pub start-At : (b whole : Bytes) → b ≡ whole → length b < 2 ^ 64 → At (start b) whole
start-At b whole same h = record { ahead = same; within = omega arith; addressable = h }

-- What lies before the cursor.
pub take-At :
    (c : Cursor) (before rest : Bytes)
    → At c rest
    → c.bytes ≡ before ++ rest
    → take c.position c.bytes ≡ before
take-At c before rest at whole = rw whole (
    take-append c.position before rest (
      omega (
        arith,
        length-drop c.position c.bytes,
        ap length at.ahead,
        ap length whole,
        length-append before rest,
        at.within,
      )))

pub position-At : (c : Cursor) → At c [] → c.position ≡ length c.bytes
position-At c at = omega (arith, length-drop c.position c.bytes, ap length at.ahead, at.within)
