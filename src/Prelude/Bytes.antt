-- ===== src/Prelude/Bytes.antt =====
-- Byte strings: `to_be_bytes`, `to_le_bytes` and their inverses, the lexicographic order of byte
-- arrays, and the validity test of `String::from_utf8`. A Rust `String` is its UTF-8 bytes.
mod Order
pub mod Integers
unfoldable pub use Order.*
unfoldable pub use Integers.*
use Prim.Native.Nat.{ℕ, ◌+◌, ◌*◌, ◌≤◌, ◌<◌}
use Prim.Native.Char.{code}
use Prim.Native.String.{String}
use mathlib.Core.Bool.{Bool, true, false, ◌&&◌, ◌||◌}
use mathlib.Core.List.{List, [], ◌∷◌}
use thinwallet.Prelude.Tests.{leb, ltb, if◌then◌else◌}
use thinwallet.Prelude.Lists.{All}

abbrev pub Bytes : Type 0
Bytes = List ℕ

abbrev pub IsBytes : Bytes → Type 0
IsBytes = All (λ b. b < 256)

-- A byte-string literal of the source, all ASCII.
abbrev pub text : String → Bytes
text String.[] = []
text (String.◌∷◌ c s) = code c ∷ text s

-- 80..BF
abbrev tail_byte : ℕ → Bool
tail_byte b = leb 128 b && leb b 191

-- Bytes 2 to 4 of a sequence whose first byte is `a`, by the table of the Unicode standard.
abbrev two_bytes : ℕ → ℕ → Bool
two_bytes a b = leb 194 a && leb a 223 && tail_byte b

abbrev three_bytes : ℕ → ℕ → ℕ → Bool
three_bytes a b c =
    leb 224 a
    && leb a 239
    && tail_byte c
    && tail_byte b
    && (ltb 224 a || leb 160 b)
    && (ltb a 237 || ltb 237 a || leb b 159)

abbrev four_bytes : ℕ → ℕ → ℕ → ℕ → Bool
four_bytes a b c d =
    leb 240 a
    && leb a 244
    && tail_byte b
    && tail_byte c
    && tail_byte d
    && (ltb 240 a || leb 144 b)
    && (ltb a 244 || leb b 143)

-- `String::from_utf8(..).is_ok()`
unfoldable pub utf8_valid : Bytes → Bool
utf8_valid [] = true
utf8_valid (a ∷ []) = ltb a 128
utf8_valid (a ∷ b ∷ []) = let one = utf8_valid (b ∷ []) in if ltb a 128 then one else two_bytes a b
utf8_valid (a ∷ b ∷ c ∷ []) =
    let one = utf8_valid (b ∷ c ∷ []) in
    let two = utf8_valid (c ∷ []) in
    if ltb a 128 then one else if two_bytes a b then two else three_bytes a b c
utf8_valid (a ∷ b ∷ c ∷ d ∷ rest) =
    let one = utf8_valid (b ∷ c ∷ d ∷ rest) in
    let two = utf8_valid (c ∷ d ∷ rest) in
    let three = utf8_valid (d ∷ rest) in
    let four = utf8_valid rest in
    if ltb a 128
    then one
    else if two_bytes a b
    then two
    else if three_bytes a b c
    then three
    else four_bytes a b c d && four
