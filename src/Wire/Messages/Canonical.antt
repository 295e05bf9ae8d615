-- ===== src/Wire/Messages/Canonical.antt =====
-- The chunk payload of the wire (experiments/preprocessed-pbmo/src/transport.rs), written and read.
use thinwallet.Prelude.{
  ℕ, zero, suc, List, [], ◌∷◌, ◌/◌, ◌%◌, ◌^◌, ◌≡◌, refl, sym, ap, ◌∙◌, ◌<◌, ◌≤◌, ◌++◌, false, not,
  length, ltb, ◌==◌, nat_eq, arith, All, append-nil, append_assoc, le→ltb-false,
}
use thinwallet.Prelude.Outcome.{ok, reject_if, bind-eq-ok, reject_if-eq-ok, ok-injective}
use thinwallet.Prelude.Bytes.{Bytes, IsBytes, be_bytes}
use thinwallet.Token.Codec.{concat}
use thinwallet.Wire.{Chunk, max_frame_payload, scalar_bytes}
use thinwallet.Wire.Parser.{
  take_bytes, uint, finish, take_bytes-append, uint-be, take_bytes-ok, uint-ok, bytes_rest,
}
use thinwallet.Wire.Messages.{bad_dimensions, encode_chunk, read_scalars, decode_chunk}

-- The fields of a chunk are of their Rust types, and it has as many scalars as a frame can carry.
pub record IsChunk (c : Chunk) : Type 0 where
  pub chunk_index : c.chunk_index < 2 ^ 32
  pub total_chunks : c.total_chunks < 2 ^ 32
  pub row : c.row < 2 ^ 32
  pub col_start : c.col_start < 2 ^ 32
  pub col_end : c.col_end < 2 ^ 32
  pub scalars : All (λ x. length x ≡ 32) c.scalars
  pub few : length c.scalars ≤ max_frame_payload / scalar_bytes

read_scalars-concat :
    (xs : List Bytes)
    → All (λ x. length x ≡ 32) xs
    → read_scalars (length xs) (concat xs) ≡ ok (xs, [])
unfolding read_scalars concat
read_scalars-concat [] h = refl
read_scalars-concat (x ∷ xs) (h, hs) =
    rw (take_bytes-append 32 x (concat xs) h, read_scalars-concat xs hs)

read_scalars-ok :
    (n : ℕ) (b : Bytes) {xs : List Bytes} {rest : Bytes}
    → read_scalars n b ≡ ok (xs, rest)
    → (b ≡ concat xs ++ rest) × (length xs ≡ n)
unfolding read_scalars concat
read_scalars-ok zero b h =
    let same = ok-injective h in none_read (ap (λ p. p.0) same) (ap (λ p. p.1) same)
  where
    none_read :
        {xs : List Bytes} {rest : Bytes}
        → [] ≡ xs
        → b ≡ rest
        → (b ≡ concat xs ++ rest) × (length xs ≡ 0)
    none_read empty back = rw (sym empty) (back, refl)
read_scalars-ok (suc n) b h =
    let ((x, r), first, h) = bind-eq-ok (take_bytes 32 b) _ h in
    let ((ys, r'), others, h) = bind-eq-ok (read_scalars n r) _ h in
    let same = ok-injective h in
    more x r ys r' (take_bytes-ok 32 b first).0 (read_scalars-ok n r others) (ap (λ p. p.0) same)
      (ap (λ p. p.1) same)
  where
    more :
        (x r : Bytes) (ys : List Bytes) (r' : Bytes) {xs : List Bytes} {rest : Bytes}
        → b ≡ x ++ r
        → (r ≡ concat ys ++ r') × (length ys ≡ n)
        → x ∷ ys ≡ xs
        → r' ≡ rest
        → (b ≡ concat xs ++ rest) × (length xs ≡ suc n)
    more x r ys r' front (tail, count) all back =
        rw (sym all, sym back)
          (front ∙ ap (λ t. x ++ t) tail ∙ sym (append_assoc x (concat ys) r'), ap suc count)

finish-ok : (b : Bytes) {u : Unit {0}} → finish b ≡ ok u → b ≡ []
unfolding finish nat_eq
finish-ok [] h = refl
finish-ok (x ∷ b) h = ground (arith, reject_if-eq-ok (not (length (x ∷ b) == 0)) _ h)

-- `decode_chunk` reads back the chunk that `encode_chunk` wrote, where the fields are of their Rust
-- types and there are at most as many scalars as `decode_chunk` allows.
pub decode_chunk-encode :
    (c : Chunk) {b : Bytes} → IsChunk c → encode_chunk c ≡ ok b → decode_chunk b ≡ ok c
unfolding encode_chunk decode_chunk concat finish nat_eq
decode_chunk-encode c {b} is e =
    let (_, fits, e) = bind-eq-ok (reject_if (bad_dimensions c) _) _ e in
    read (reject_if-eq-ok _ _ fits) (ok-injective (sym e))
  where
    read :
        bad_dimensions c ≡ false
        → b
          ≡ concat (
              be_bytes 4 c.chunk_index
              ∷ be_bytes 4 c.total_chunks
              ∷ be_bytes 4 c.row
              ∷ be_bytes 4 c.col_start
              ∷ be_bytes 4 c.col_end
              ∷ be_bytes 4 (length c.scalars % 2 ^ 32)
              ∷ c.scalars)
        → decode_chunk b ≡ ok c
    read good same =
        let count : length c.scalars % 2 ^ 32 ≡ length c.scalars = omega (arith, is.few) in
        rw (
          same,
          count,
          uint-be 4 c.chunk_index _ is.chunk_index,
          uint-be 4 c.total_chunks _ is.total_chunks,
          uint-be 4 c.row _ is.row,
          uint-be 4 c.col_start _ is.col_start,
          uint-be 4 c.col_end _ is.col_end,
          uint-be 4 (length c.scalars) _ (omega (arith, is.few)),
          le→ltb-false (max_frame_payload / scalar_bytes) (length c.scalars) is.few,
          read_scalars-concat c.scalars is.scalars,
          good,
        )

-- What `decode_chunk` accepts is exactly what `encode_chunk` writes for its result.
pub encode_chunk-decode :
    (b : Bytes) {c : Chunk} → IsBytes b → decode_chunk b ≡ ok c → encode_chunk c ≡ ok b
unfolding encode_chunk decode_chunk concat
encode_chunk-decode b {c} bytes e =
    let ((i, b1), e1, e) = bind-eq-ok (uint 4 b) _ e in
    let s1 = uint-ok 4 b bytes e1 in
    let y1 = bytes_rest (be_bytes 4 i) b1 s1 bytes in
    let ((n, b2), e2, e) = bind-eq-ok (uint 4 b1) _ e in
    let s2 = uint-ok 4 b1 y1 e2 in
    let y2 = bytes_rest (be_bytes 4 n) b2 s2 y1 in
    let ((row, b3), e3, e) = bind-eq-ok (uint 4 b2) _ e in
    let s3 = uint-ok 4 b2 y2 e3 in
    let y3 = bytes_rest (be_bytes 4 row) b3 s3 y2 in
    let ((lo, b4), e4, e) = bind-eq-ok (uint 4 b3) _ e in
    let s4 = uint-ok 4 b3 y3 e4 in
    let y4 = bytes_rest (be_bytes 4 lo) b4 s4 y3 in
    let ((hi, b5), e5, e) = bind-eq-ok (uint 4 b4) _ e in
    let s5 = uint-ok 4 b4 y4 e5 in
    let y5 = bytes_rest (be_bytes 4 hi) b5 s5 y4 in
    let ((count, b6), e6, e) = bind-eq-ok (uint 4 b5) _ e in
    let s6 = uint-ok 4 b5 y5 e6 in
    let (_, few, e) = bind-eq-ok (reject_if (ltb (max_frame_payload / scalar_bytes) count) _) _ e in
    let ((xs, b7), e7, e) = bind-eq-ok (read_scalars count b6) _ e in
    let (_, e8, e) = bind-eq-ok (finish b7) _ e in
    let (_, good, e) =
      bind-eq-ok
        (reject_if
          (bad_dimensions (record {
            chunk_index = i;
            total_chunks = n;
            row = row;
            col_start = lo;
            col_end = hi;
            scalars = xs;
          }))
          _)
        _ e in
    written i b1 n b2 row b3 lo b4 hi b5 count b6 xs b7 s1 s2 s3 s4 s5 s6 (reject_if-eq-ok _ _ few)
      (read_scalars-ok count b6 e7) (finish-ok b7 e8) (reject_if-eq-ok _ _ good)
      (ok-injective (sym e))
  where
    written :
        (i : ℕ) (b1 : Bytes) (n : ℕ) (b2 : Bytes) (row : ℕ) (b3 : Bytes) (lo : ℕ) (b4 : Bytes)
        (hi : ℕ) (b5 : Bytes) (count : ℕ) (b6 : Bytes) (xs : List Bytes) (b7 : Bytes)
        → b ≡ be_bytes 4 i ++ b1
        → b1 ≡ be_bytes 4 n ++ b2
        → b2 ≡ be_bytes 4 row ++ b3
        → b3 ≡ be_bytes 4 lo ++ b4
        → b4 ≡ be_bytes 4 hi ++ b5
        → b5 ≡ be_bytes 4 count ++ b6
        → ltb (max_frame_payload / scalar_bytes) count ≡ false
        → (b6 ≡ concat xs ++ b7) × (length xs ≡ count)
        → b7 ≡ []
        → let chunk : Chunk = record {
          chunk_index = i;
          total_chunks = n;
          row = row;
          col_start = lo;
          col_end = hi;
          scalars = xs;
        } in
          bad_dimensions chunk ≡ false → c ≡ chunk → encode_chunk c ≡ ok b
    written i b1 n b2 row b3 lo b4 hi b5 count b6 xs b7 s1 s2 s3 s4 s5 s6 few (s7, long) s8 good
          is =
        let small : length xs % 2 ^ 32 ≡ count = ground (arith, few, long) in
        rw (is, good, small, s1, s2, s3, s4, s5, s6, s7, s8, append-nil (concat xs)) refl
