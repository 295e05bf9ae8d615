-- ===== src/Provider/Rows.antt =====
-- The rows that a session without a transport has received, over any list of pushes
-- (experiments/preprocessed-pbmo/src/provider.rs).
use thinwallet.Prelude.{
  ℕ, List, [], ◌∷◌, ◌++◌, ◌+◌, ◌-◌, ◌%◌, ◌^◌, ◌<◌, ◌≤◌, ◌≡◌, refl, sym, ap, subst, ◌∙◌, length,
  take, drop, set, get_elem?, map, true, false, not, ◌==◌, nat_eq, bytes_eq, option_eq,
  not_eq-false, if◌then◌else◌, Option, none, some, arith, length-append, inl, inr, ◌⊎◌, Bool-cases,
  eq→≡, append-nil,
}
use thinwallet.Prelude.Outcome.{ok}
use thinwallet.Prelude.Bytes.{Bytes}
use thinwallet.External.{External, GroupLaws}
use thinwallet.Token.{Token}
use thinwallet.Provider.{
  PbmoTransport, SessionMode, native, plain, semi, malicious, token_of, Session,
}
use thinwallet.Provider.Stream.{Push, out_of_order, wire_scalars, add_at, append_spool, push_chunk}
use thinwallet.Provider.Sums.{sent, row_sum, add_at-row_sum}
use thinwallet.Provider.Pushes.{uncounted, pushed, push_chunk-pushed}
use thinwallet.Wire.Server.Rows.{
  range, row_of, row_of-append, rows_of, set-push, push-rows_of, get-lengths,
}

-- The row and the scalars of each push.
unfoldable pub pieces_of : {A : Type 0} → List (Push A) → List (ℕ × List A)
pieces_of ps = map (λ p. (p.row, p.scalars)) ps

-- A slice of scalars, of 32 bytes each, has fewer than 2^58 of them.
unfoldable pub Fits : {A : Type 0} → Push A → Type 0
Fits p = length p.scalars < 2 ^ 58

module _ (X : External) (T : PbmoTransport X.Point) where
  open X use {Point, Scalar}

  pub wire_scalars-sent :
      (mode : SessionMode Point) (row col : ℕ) (ss : List Scalar)
      → wire_scalars X mode row col ss ≡ sent X (token_of mode) row col ss
  unfolding wire_scalars sent token_of
  wire_scalars-sent native row col ss = refl
  wire_scalars-sent plain row col ss = refl
  wire_scalars-sent (semi token) row col ss = refl
  wire_scalars-sent (malicious token spool) row col ss = refl

  token_of-append_spool :
      (encoded : List Bytes) (mode : SessionMode Point)
      → token_of (append_spool X encoded mode).1 ≡ token_of mode
  unfolding append_spool token_of
  token_of-append_spool encoded native = refl
  token_of-append_spool encoded plain = refl
  token_of-append_spool encoded (semi token) = refl
  token_of-append_spool encoded (malicious token spool) = refl

  -- The session has added up the pieces.
  pub record Holds (q m : ℕ) (bases : List Point) (token : Option (Token Point))
      (ps : List (ℕ × List Scalar)) (s : Session X T) : Type 0 where
    pub rows_q : s.q ≡ q
    pub columns_m : s.m ≡ m
    pub same_bases : s.bases ≡ bases
    pub same_token : token_of s.mode ≡ token
    pub local : s.transport ≡ none
    pub short : (i : ℕ) → length (row_of ps i) ≤ m
    pub next_col : s.next_col ≡ map length (rows_of q ps)
    pub sums : s.accumulators ≡ map (row_sum X token bases ps) (range 0 q)

  -- What a push that is in order says of its row.
  record InOrder (q m : ℕ) (ps : List (ℕ × List Scalar)) (p : Push Scalar) : Type 0 where
    found : get_elem? (map length (rows_of q ps)) p.row ≡ some p.col_start
    start : length (row_of ps p.row) ≡ p.col_start
    width : p.col_end ≡ p.col_start + length p.scalars
    high : p.col_end ≤ m

  not_out_of_order :
      (m q : ℕ) (ps : List (ℕ × List Scalar)) (p : Push Scalar)
      → m < 2 ^ 32
      → Fits p
      → ((i : ℕ) → length (row_of ps i) ≤ m)
      → out_of_order q m (map length (rows_of q ps)) p ≡ false
      → InOrder q m ps p
  unfolding out_of_order Fits rows_of
  not_out_of_order m q ps p small fits short h =
      let at : not (get_elem? (map length (rows_of q ps)) p.row == some p.col_start) ≡ false =
        ground arith in
      let found = not_eq-false _ (some p.col_start) at in
      let start = get-lengths (row_of ps) 0 q p.row p.row (omega arith) found in
      let count : (p.col_end + 2 ^ 64 - p.col_start) % 2 ^ 64 ≡ length p.scalars =
        not_eq-false _ (length p.scalars) (ground arith) in
      let high : p.col_end ≤ m = ground arith in
      let low = short p.row in
      record {
        found = found;
        start = start;
        width = omega (arith, count, high, low, start, small, fits);
        high = high;
      }

  short-append :
      (m : ℕ) (ps : List (ℕ × List Scalar)) (r : ℕ) (xs : List Scalar)
      → ((i : ℕ) → length (row_of ps i) ≤ m)
      → length (row_of ps r) + length xs ≤ m
      → (i : ℕ) → length (row_of (ps ++ (r, xs) ∷ []) i) ≤ m
  short-append m ps r xs short room i =
      subst (λ row. length row ≤ m) (sym (row_of-append ps r xs i)) (fits (Bool-cases (r == i)))
    where
      fits :
          ((r == i) ≡ true) ⊎ ((r == i) ≡ false)
          → length (row_of ps i ++ (if r == i then xs else [])) ≤ m
      fits (inl same) =
          let here = subst (λ j. length (row_of ps j) + length xs ≤ m) (eq→≡ r i same) room in
          rw same (omega (arith, length-append (row_of ps i) xs, here))
      fits (inr other) = rw (other, append-nil (row_of ps i)) (short i)

  pub push_chunk-Holds :
      (q m : ℕ) (bases : List Point) (token : Option (Token Point)) (ps : List (ℕ × List Scalar))
      (p : Push Scalar) (s t : Session X T)
      → GroupLaws X
      → m < 2 ^ 32
      → length bases ≡ m
      → Fits p
      → Holds q m bases token ps s
      → push_chunk X T p s ≡ (ok tt, t)
      → Holds q m bases token (ps ++ (p.row, p.scalars) ∷ []) t
  unfolding pushed
  push_chunk-Holds q m bases token ps p s t G small long fits held h =
      let (in_order, after) = push_chunk-pushed X T p s t held.local h in
      let in_order' : out_of_order q m (map length (rows_of q ps)) p ≡ false =
        rw (sym held.next_col, sym held.rows_q, sym held.columns_m) in_order in
      next after (not_out_of_order m q ps p small fits held.short in_order')
    where
      next :
          uncounted X T t ≡ uncounted X T (pushed X T p s)
          → InOrder q m ps p
          → Holds q m bases token (ps ++ (p.row, p.scalars) ∷ []) t
      next after o =
          let room : length (row_of ps p.row) + length p.scalars ≤ m =
            omega (arith, o.start, o.width, o.high) in
          let room' : length (row_of ps p.row) + length p.scalars ≤ length bases =
            omega (arith, room, long) in
          let width : p.col_end - p.col_start ≡ length p.scalars = omega (arith, o.width) in
          let sum : p.col_end ≡ p.col_start + length p.scalars = o.width in
          record {
            rows_q = ap (λ s. s.q) after ∙ held.rows_q;
            columns_m = ap (λ s. s.m) after ∙ held.columns_m;
            same_bases = ap (λ s. s.bases) after ∙ held.same_bases;
            same_token =
                ap (λ s. token_of s.mode) after ∙ token_of-append_spool _ s.mode ∙ held.same_token;
            local = ap (λ s. s.transport) after ∙ held.local;
            short = short-append m ps p.row p.scalars held.short room;
            next_col =
                ap (λ s. s.next_col) after
                ∙ ap (λ cols. set cols p.row p.col_end) held.next_col
                ∙ set-push (rows_of q ps) p.row p.col_start p.col_end p.scalars o.found sum
                ∙ ap (λ rows. map length rows) (push-rows_of q ps p.row p.scalars);
            sums =
                ap (λ s. s.accumulators) after
                ∙ product width
                ∙ add_at-row_sum X token bases ps q p.row p.scalars G room';
          }
        where
          product :
              p.col_end - p.col_start ≡ length p.scalars
              → add_at X s.accumulators p.row (
                  X.msm
                    (wire_scalars X s.mode p.row p.col_start p.scalars)
                    (take (p.col_end - p.col_start) (drop p.col_start s.bases)))
                ≡ add_at X (map (row_sum X token bases ps) (range 0 q)) p.row (
                    X.msm
                      (sent X token p.row (length (row_of ps p.row)) p.scalars)
                      (take (length p.scalars) (drop (length (row_of ps p.row)) bases)))
          product width =
              rw
                (
                  held.sums,
                  held.same_bases,
                  wire_scalars-sent s.mode p.row p.col_start p.scalars,
                  held.same_token,
                  width,
                  o.start,
                )
                refl
