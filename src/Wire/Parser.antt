-- ===== src/Wire/Parser.antt =====
-- `Cursor` of experiments/preprocessed-pbmo/src/transport.rs. The state of a cursor is what it has
-- not yet taken, `bytes[offset..]`; a length it takes is below 2^32, so `checked_add` succeeds.
use thinwallet.Prelude.{
  ℕ, [], ◌∷◌, ◌^◌, ◌≡◌, refl, sym, ap, subst, ◌<◌, ◌≤◌, ◌++◌, true, not, arith, length, take, drop,
  ltb, take-append, drop-append, length-append, le→ltb-false, append_assoc, ◌==◌, nat_eq,
  length-take, take-append-drop,
}
use thinwallet.Prelude.Outcome.{
  Result, ok, ◌>>=◌, ◌>>◌, reject_if, bind-eq-ok, reject_if-eq-ok, ok-injective,
}
use thinwallet.Prelude.Bytes.{
  Bytes, IsBytes, from_be, be_bytes, from_be-be_bytes, be_bytes-from_be, length-be_bytes,
  utf8_valid,
}
use thinwallet.Wire.{WireError, protocol}

abbrev pub Parser : Type 0 → Type 0
Parser A = Bytes → Result WireError (A × Bytes)

-- `Cursor::take`
unfoldable pub take_bytes : ℕ → Parser Bytes
take_bytes len b = do
  reject_if (ltb (length b) len) (protocol "truncated payload")
  ok (take len b, drop len b)

-- `Cursor::u16`, `u32` and `u64`, of `w` bytes.
unfoldable pub uint : ℕ → Parser ℕ
uint w b = do (x, b) ← take_bytes w b; ok (from_be x, b)

-- `Cursor::string`
unfoldable pub string : Parser Bytes
string b = do
  (len, b) ← uint 2 b
  (s, b) ← take_bytes len b
  reject_if (not (utf8_valid s)) (protocol "invalid UTF-8")
  ok (s, b)

-- `Cursor::finish`
unfoldable pub finish : Bytes → Result WireError (Unit {0})
finish b = reject_if (not (length b == 0)) (protocol "trailing payload bytes")

-- `put_string`, as the bytes that it appends.
unfoldable pub put_string : Bytes → Result WireError Bytes
put_string s = do
  reject_if (not (ltb (length s) (2 ^ 16))) (protocol "string too long")
  ok (be_bytes 2 (length s) ++ s)

pub take_bytes-append :
    (n : ℕ) (x rest : Bytes) → length x ≡ n → take_bytes n (x ++ rest) ≡ ok (x, rest)
unfolding take_bytes
take_bytes-append n x rest h = rw (
  le→ltb-false (length (x ++ rest)) n (omega (arith, length-append x rest)),
  take-append n x rest h,
  drop-append n x rest h,
)

pub uint-be : (w n : ℕ) (rest : Bytes) → n < 256 ^ w → uint w (be_bytes w n ++ rest) ≡ ok (n, rest)
unfolding uint
uint-be w n rest h =
    rw (take_bytes-append w (be_bytes w n) rest (length-be_bytes w n), from_be-be_bytes w n h)

-- A string as `put_string` writes it is read back.
pub string-put :
    (s rest : Bytes)
    → length s < 2 ^ 16
    → utf8_valid s ≡ true
    → string ((be_bytes 2 (length s) ++ s) ++ rest) ≡ ok (s, rest)
unfolding string
string-put s rest h valid = rw (
  append_assoc (be_bytes 2 (length s)) s rest,
  uint-be 2 (length s) (s ++ rest) h,
  take_bytes-append (length s) s rest refl,
  valid,
)

pub put_string-ok :
    (s : Bytes) {x : Bytes}
    → put_string s ≡ ok x
    → (length s < 2 ^ 16) × (x ≡ be_bytes 2 (length s) ++ s)
unfolding put_string
put_string-ok s h =
    let (_, fits, h) = bind-eq-ok (reject_if (not (ltb (length s) (2 ^ 16))) _) _ h in
    (ground (arith, reject_if-eq-ok _ _ fits), sym (ok-injective h))

pub take_bytes-ok :
    (n : ℕ) (b : Bytes) {x rest : Bytes}
    → take_bytes n b ≡ ok (x, rest)
    → (b ≡ x ++ rest) × (length x ≡ n)
unfolding take_bytes
take_bytes-ok n b h =
    let (_, fits, h) = bind-eq-ok (reject_if (ltb (length b) n) _) _ h in
    let same = ok-injective h in
    taken n b (ground (arith, reject_if-eq-ok _ _ fits)) (ap (λ p. p.0) same) (ap (λ p. p.1) same)
  where
    taken :
        (n : ℕ) (b : Bytes) {x rest : Bytes}
        → n ≤ length b
        → take n b ≡ x
        → drop n b ≡ rest
        → (b ≡ x ++ rest) × (length x ≡ n)
    taken n b h front back =
        (rw (sym front, sym back) (sym (take-append-drop n b)), rw (sym front) (length-take n b h))

All-append-left : (x y : Bytes) → IsBytes (x ++ y) → IsBytes x
All-append-left [] y h = tt
All-append-left (b ∷ x) y (h, hs) = (h, All-append-left x y hs)

All-append-right : (x y : Bytes) → IsBytes (x ++ y) → IsBytes y
All-append-right [] y h = h
All-append-right (b ∷ x) y (h, hs) = All-append-right x y hs

pub bytes_rest : {b : Bytes} (x rest : Bytes) → b ≡ x ++ rest → IsBytes b → IsBytes rest
bytes_rest x rest same h = All-append-right x rest (subst IsBytes same h)

-- An integer that was read stands in front of the rest as `to_be_bytes` writes it.
pub uint-ok :
    (w : ℕ) (b : Bytes) {n : ℕ} {rest : Bytes}
    → IsBytes b
    → uint w b ≡ ok (n, rest)
    → b ≡ be_bytes w n ++ rest
unfolding uint
uint-ok w b bytes h =
    let ((x, r), taken, h) = bind-eq-ok (take_bytes w b) _ h in
    let (same, long) = take_bytes-ok w b taken in
    let result = ok-injective h in
    joined x r same long (ap (λ p. p.0) result) (ap (λ p. p.1) result)
  where
    joined :
        (x r : Bytes) {n : ℕ} {rest : Bytes}
        → b ≡ x ++ r
        → length x ≡ w
        → from_be x ≡ n
        → r ≡ rest
        → b ≡ be_bytes w n ++ rest
    joined x r same long value back =
        rw
          (
            sym value,
            sym back,
            be_bytes-from_be w x long (All-append-left x r (subst IsBytes same bytes)),
          )
          same
