-- ===== src/Prelude/Bytes/Integers.antt =====
-- Integers of `w` bytes in big- and little-endian order.
use Prim.Native.Nat.{ℕ, zero, suc, ◌+◌, ◌*◌, ◌/◌, ◌%◌, ◌^◌, ◌<◌}
use mathlib.Core.Path.{◌≡◌, refl, ap, sym, subst}
use mathlib.Core.List.{List, [], ◌∷◌, ◌++◌, append-nil, append_assoc}
use native.Mathlib.Omega.{arith}
use native.Mathlib.Nat.{pow-suc, zero-add}
use thinwallet.Prelude.Lists.{length, length-append, All}

-- `to_be_bytes` of an integer of `w` bytes.
unfoldable pub be_bytes : ℕ → ℕ → List ℕ
be_bytes zero n = []
be_bytes (suc w) n = be_bytes w (n / 256) ++ (n % 256 ∷ [])

be_value : ℕ → List ℕ → ℕ
be_value acc [] = acc
be_value acc (b ∷ bs) = be_value (acc * 256 + b) bs

-- `from_be_bytes`
unfoldable pub from_be : List ℕ → ℕ
unfolding be_value
from_be bs = be_value 0 bs

-- `to_le_bytes` of an integer of `w` bytes.
unfoldable pub le_bytes : ℕ → ℕ → List ℕ
le_bytes zero n = []
le_bytes (suc w) n = n % 256 ∷ le_bytes w (n / 256)

-- `from_le_bytes`
unfoldable pub from_le : List ℕ → ℕ
from_le [] = 0
from_le (b ∷ bs) = b + 256 * from_le bs

pub length-be_bytes : (w n : ℕ) → length (be_bytes w n) ≡ w
unfolding be_bytes
length-be_bytes zero n = refl
length-be_bytes (suc w) n =
    omega (arith, length-append (be_bytes w (n / 256)) (n % 256 ∷ []), length-be_bytes w (n / 256))

pub length-le_bytes : (w n : ℕ) → length (le_bytes w n) ≡ w
unfolding le_bytes
length-le_bytes zero n = refl
length-le_bytes (suc w) n = ap suc (length-le_bytes w (n / 256))

be_value-append :
    (acc : ℕ) (bs : List ℕ) (b : ℕ) → be_value acc (bs ++ b ∷ []) ≡ be_value acc bs * 256 + b
unfolding be_value
be_value-append acc [] b = refl
be_value-append acc (c ∷ bs) b = be_value-append (acc * 256 + c) bs b

-- The quotient of a number that fits in one byte more fits.
quotient_fits : (w n : ℕ) → n < 256 ^ suc w → n / 256 < 256 ^ w
quotient_fits w n h = omega (arith, pow-suc 256 w)

pub from_be-be_bytes : (w n : ℕ) → n < 256 ^ w → from_be (be_bytes w n) ≡ n
unfolding be_bytes from_be
from_be-be_bytes zero n h = omega arith
from_be-be_bytes (suc w) n h =
    rw be_value-append (omega (arith, from_be-be_bytes w (n / 256) (quotient_fits w n h)))

pub from_le-le_bytes : (w n : ℕ) → n < 256 ^ w → from_le (le_bytes w n) ≡ n
unfolding le_bytes from_le
from_le-le_bytes zero n h = omega arith
from_le-le_bytes (suc w) n h = omega (arith, from_le-le_bytes w (n / 256) (quotient_fits w n h))

be_bytes-be_value :
    (k acc : ℕ) (bs : List ℕ)
    → All (λ b. b < 256) bs
    → be_bytes (length bs + k) (be_value acc bs) ≡ be_bytes k acc ++ bs
unfolding be_bytes be_value
be_bytes-be_value k acc [] fits = rw zero-add (sym (append-nil (be_bytes k acc)))
be_bytes-be_value k acc (b ∷ bs) (fit, fits) =
    let low : (acc * 256 + b) % 256 ≡ b = omega arith in
    let high : (acc * 256 + b) / 256 ≡ acc = omega arith in
    let count : suc (length bs) + k ≡ length bs + suc k = omega arith in
    rw (count, be_bytes-be_value (suc k) (acc * 256 + b) bs fits, low, high)
      (append_assoc (be_bytes k acc) (b ∷ []) bs)

-- A big-endian field of bytes is the encoding of its value.
pub be_bytes-from_be :
    (w : ℕ) (bs : List ℕ) → length bs ≡ w → All (λ b. b < 256) bs → be_bytes w (from_be bs) ≡ bs
unfolding from_be be_bytes
be_bytes-from_be w bs h fits =
    let count : length bs + 0 ≡ w = omega arith in
    subst (λ n. be_bytes n (be_value 0 bs) ≡ bs) count (be_bytes-be_value 0 0 bs fits)

-- A little-endian field of bytes is the encoding of its value.
pub le_bytes-from_le :
    (w : ℕ) (bs : List ℕ) → length bs ≡ w → All (λ b. b < 256) bs → le_bytes w (from_le bs) ≡ bs
unfolding le_bytes from_le
le_bytes-from_le zero [] h fits = refl
le_bytes-from_le zero (b ∷ bs) h fits = absurd (omega arith)
le_bytes-from_le (suc w) [] h fits = absurd (omega arith)
le_bytes-from_le (suc w) (b ∷ bs) h (fit, fits) =
    let low : (b + 256 * from_le bs) % 256 ≡ b = omega arith in
    let high : (b + 256 * from_le bs) / 256 ≡ from_le bs = omega arith in
    rw (low, high, le_bytes-from_le w bs (omega arith) fits)
