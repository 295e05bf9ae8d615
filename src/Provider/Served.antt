-- ===== src/Provider/Served.antt =====
-- A whole run of a session without a transport and without a spool, row by row
-- (experiments/preprocessed-pbmo/src/provider.rs).
use thinwallet.Prelude.{
  ℕ, zero, suc, List, [], ◌∷◌, ◌++◌, ◌+◌, ◌-◌, ◌%◌, ◌^◌, ◌<◌, ◌≤◌, ◌≡◌, refl, sym, ap, subst, ◌∙◌,
  length, map, get_elem?, false, ◌==◌, nat_eq, option_eq, eq_refl, Option, some, All, arith,
  append_assoc, append-nil, length-append, ltb, leb,
}
use thinwallet.Prelude.Outcome.{ok}
use thinwallet.Prelude.Action.{after, after-eq-ok}
use thinwallet.External.{External, GroupLaws, StreamLaws}
use thinwallet.Token.{Token}
use thinwallet.Wire.Server.Rows.{range, row_of, row_of-append, rows_of}
use thinwallet.Provider.{PbmoTransport, Session}
use thinwallet.Provider.Stream.{Push, out_of_order, push_chunk}
use thinwallet.Provider.Providers.{push_all}
use thinwallet.Provider.Pushes.{pushed, push_chunk-pushed}
use thinwallet.Provider.Rows.{Fits, pieces_of, Holds, push_chunk-Holds}
use thinwallet.Provider.Combination.{join, chunk_pushes, row_pushes}
use thinwallet.Provider.RowByRow.{row_of-both, pieces_of-both, row_of-chunks}
use thinwallet.Provider.Serves.{Unspooled, append_spool-none, push_chunk-ok}

-- The length at a place of rows numbered from `k`.
lengths-get :
    {A : Type 0} (f : ℕ → List A) (k n i t : ℕ)
    → t ≡ k + i
    → i < n
    → get_elem? (map length (map f (range k n))) i ≡ some (length (f t))
unfolding range
lengths-get f k zero i t e h = absurd (omega arith)
lengths-get f k (suc n) zero t e h =
    let here : k ≡ t = omega arith in ap (λ j. some (length (f j))) here
lengths-get f k (suc n) (suc i) t e h = lengths-get f (suc k) n i t (omega arith) (omega arith)

next_chunk-in_order :
    {A : Type 0} (q m : ℕ) (ps : List (ℕ × List A)) (k col : ℕ) (xs : List A)
    → k < q
    → m < 2 ^ 32
    → length (row_of ps k) ≡ col
    → col + length xs ≤ m
    → out_of_order q m
        (map length (rows_of q ps))
        (record { row = k; col_start = col; col_end = col + length xs; scalars = xs })
      ≡ false
unfolding out_of_order rows_of
next_chunk-in_order q m ps k col xs row columns start room =
    let found = lengths-get (row_of ps) 0 q k k (omega arith) row in
    let below : leb q k ≡ false = ground arith in
    let fits : ltb m (col + length xs) ≡ false = ground arith in
    let width : (col + length xs + 2 ^ 64 - col) % 2 ^ 64 ≡ length xs =
      omega (arith, columns, room) in
    rw (below, found, start, eq_refl (some col), fits, width, eq_refl (length xs)) refl

module _ (X : External) (T : PbmoTransport X.Point) where
  open X use {Point, Scalar}

  push_all-both :
      (ps qs : List (Push Scalar)) (s t : Session X T)
      → push_all X T ps s ≡ (ok tt, t)
      → push_all X T (ps ++ qs) s ≡ push_all X T qs t
  unfolding push_all
  push_all-both [] qs s t h = ap (λ r. push_all X T qs r.1) h
  push_all-both (p ∷ ps) qs s t h =
      let (_, u, first, h) = after-eq-ok _ (push_chunk X T p s) h in
      ap (after (λ _. push_all X T (ps ++ qs))) first ∙ push_all-both ps qs u t h

  -- The session has added up the pieces, and has no spool.
  pub record Serving (q m : ℕ) (bases : List Point) (token : Option (Token Point))
      (ps : List (ℕ × List Scalar)) (s : Session X T) : Type 0 where
    pub held : Holds X T q m bases token ps s
    pub free : Unspooled s.mode

  module _ (G : GroupLaws X) (L : StreamLaws X) (q m : ℕ) (bases : List Point)
      (token : Option (Token Point)) (few : q < 2 ^ 32) (columns : m < 2 ^ 32)
      (long : length bases ≡ m) where
    push_chunk-Serving :
        (ps : List (ℕ × List Scalar)) (k col : ℕ) (xs : List Scalar) (s : Session X T)
        → Serving q m bases token ps s
        → k < q
        → length (row_of ps k) ≡ col
        → col + length xs ≤ m
        → (t : Session X T) × (push_chunk X T
              (record { row = k; col_start = col; col_end = col + length xs; scalars = xs })
              s
            ≡ (ok tt, t))
          × Serving q m bases token (ps ++ (k, xs) ∷ []) t
    unfolding Fits pushed
    push_chunk-Serving ps k col xs s serving row start room =
        let p : Push Scalar = record {
          row = k;
          col_start = col;
          col_end = col + length xs;
          scalars = xs;
        } in
        let in_order : out_of_order s.q s.m s.next_col p ≡ false =
          rw (serving.held.rows_q, serving.held.columns_m, serving.held.next_col)
            (next_chunk-in_order q m ps k col xs row columns start room) in
        let t = (push_chunk X T p s).1 in
        let works : push_chunk X T p s ≡ (ok tt, t) =
          ap (λ r. (r, t))
            (push_chunk-ok X L T p s serving.held.local serving.free (omega arith) (omega arith)
              (omega arith) in_order) in
        let (_, same) = push_chunk-pushed X T p s t serving.held.local works in
        (
          t,
          works,
          record {
            held =
                push_chunk-Holds X T q m bases token ps p s t G columns long (omega arith)
                  serving.held works;
            free =
                subst Unspooled
                  (sym (
                    ap (λ s. s.mode) same
                    ∙ ap (λ r. r.1) (append_spool-none X L _ s.mode serving.free)))
                  serving.free;
          },
        )

    chunk_pushes-Serving :
        (ps : List (ℕ × List Scalar)) (k col : ℕ) (chunks : List (List Scalar)) (s : Session X T)
        → Serving q m bases token ps s
        → k < q
        → length (row_of ps k) ≡ col
        → col + length (join chunks) ≤ m
        → (t : Session X T) × (push_all X T (chunk_pushes k col chunks) s ≡ (ok tt, t))
          × Serving q m bases token (ps ++ pieces_of (chunk_pushes k col chunks)) t
    unfolding push_all chunk_pushes pieces_of join
    chunk_pushes-Serving ps k col [] s serving row start room =
        (s, refl, subst (λ l. Serving q m bases token l s) (sym (append-nil ps)) serving)
    chunk_pushes-Serving ps k col (xs ∷ chunks) s serving row start room =
        let sizes = length-append xs (join chunks) in
        let (t, works, serving') =
          push_chunk-Serving ps k col xs s serving row start (omega (arith, room, sizes)) in
        let next : length (row_of (ps ++ (k, xs) ∷ []) k) ≡ col + length xs =
          ap length (row_of-append ps k xs k ∙ rw (eq_refl k) refl)
          ∙ length-append (row_of ps k) xs
          ∙ ap (λ n. n + length xs) start in
        let (u, rest, serving'') =
          chunk_pushes-Serving (ps ++ (k, xs) ∷ []) k (col + length xs) chunks t serving' row next
            (omega (arith, room, sizes)) in
        (
          u,
          ap (after (λ _. push_all X T (chunk_pushes k (col + length xs) chunks))) works ∙ rest,
          subst (λ l. Serving q m bases token l u)
              (append_assoc ps ((k, xs) ∷ []) (pieces_of (chunk_pushes k (col + length xs) chunks)))
              serving'',
        )

    pub row_pushes-Serving :
        (ps : List (ℕ × List Scalar)) (k : ℕ) (rows : List (List (List Scalar))) (s : Session X T)
        → Serving q m bases token ps s
        → ((i : ℕ) → k ≤ i → row_of ps i ≡ [])
        → k + length rows ≤ q
        → All (λ chunks. length (join chunks) ≡ m) rows
        → (t : Session X T) × (push_all X T (row_pushes k rows) s ≡ (ok tt, t))
          × Serving q m bases token (ps ++ pieces_of (row_pushes k rows)) t
    unfolding push_all row_pushes pieces_of
    row_pushes-Serving ps k [] s serving empty room full =
        (s, refl, subst (λ l. Serving q m bases token l s) (sym (append-nil ps)) serving)
    row_pushes-Serving ps k (chunks ∷ rows) s serving empty room (whole, full) =
        let here = pieces_of (chunk_pushes k 0 chunks) in
        let (t, works, serving') =
          chunk_pushes-Serving ps k 0 chunks s serving (omega arith)
            (ap length (empty k (omega arith))) (omega arith) in
        let (u, rest, serving'') =
          row_pushes-Serving (ps ++ here) (suc k) rows t serving'
            (λ i later.
              let other : (k == i) ≡ false = ground arith in
              row_of-both ps here i
              ∙ rw (row_of-chunks k 0 chunks i, other, empty i (omega arith)) refl)
            (omega arith) full in
        (
          u,
          push_all-both (chunk_pushes k 0 chunks) (row_pushes (suc k) rows) s t works ∙ rest,
          subst (λ l. Serving q m bases token l u)
              (append_assoc ps here (pieces_of (row_pushes (suc k) rows))
                ∙ ap (λ l. ps ++ l)
                    (sym (pieces_of-both (chunk_pushes k 0 chunks) (row_pushes (suc k) rows))))
              serving'',
        )
