-- ===== src/Wire/Loopback/Agrees.antt =====
-- `LoopbackTransport` beside the server's loop (experiments/preprocessed-pbmo/src/transport.rs).
use mathlib.Core.Option
use thinwallet.Prelude.{
  ℕ, zero, suc, List, [], ◌∷◌, ◌+◌, ◌%◌, ◌^◌, ◌≡◌, refl, sym, ap, subst, ◌∙◌, ◌<◌, some, length,
  set, nat_eq, bytes_eq, option_eq, eq_refl, arith, append_assoc, append-nil, Option-cases, inl,
  inr,
}
use thinwallet.Prelude.Outcome.{Result, ok, err, ok_or, ok_or-eq-ok}
use thinwallet.Prelude.Bytes.{Bytes}
use thinwallet.External.{External}
use thinwallet.Wire.{WireError, RequestHeader, Chunk, WireFrame, masked_chunk, state_error}
use thinwallet.Wire.Messages.{encode_chunk, update_request_hasher}
use thinwallet.Wire.Messages.Canonical.{IsChunk, decode_chunk-encode}
use thinwallet.Wire.Checks.{validate_chunk}
use thinwallet.Wire.Server.{Progress, push, parse_scalars, on_chunk, advanced}
use thinwallet.Wire.Loopback.{
  LoopbackTransport, Action, after, push_one, push_scalars, push_chunk, chunk_sent,
  send_masked_chunk,
}

push-none : {A : Type 0} (rows : List (List A)) (i : ℕ) → push rows i [] ≡ rows
unfolding push
push-none [] i = refl
push-none (row ∷ rows) zero = ap (λ (r : List _). r ∷ rows) (append-nil row)
push-none (row ∷ rows) (suc i) = ap (λ (t : List (List _)). row ∷ t) (push-none rows i)

push-push :
    {A : Type 0} (rows : List (List A)) (i : ℕ) (s : A) (xs : List A)
    → push (push rows i (s ∷ [])) i xs ≡ push rows i (s ∷ xs)
unfolding push
push-push [] i s xs = refl
push-push (row ∷ rows) zero s xs = ap (λ (r : List _). r ∷ rows) (append_assoc row (s ∷ []) xs)
push-push (row ∷ rows) (suc i) s xs = ap (λ (t : List (List _)). row ∷ t) (push-push rows i s xs)

module _ (X : External) where
  open X use {Point, Scalar}

  -- A chain of actions succeeds when each does.
  pub after-ok :
      {A B : Type 0} (f : A → Action X B) (r : Result WireError A)
      (l : LoopbackTransport Scalar Point) {b : B}
      → (after X f (r, l)).0 ≡ ok b
      → (a : A) × (r ≡ ok a) × ((f a l).0 ≡ ok b)
  after-ok f (ok a) l h = (a, refl, h)
  after-ok f (err e) l h = cc

  -- Then the first goes on to the second.
  pub after-next :
      {A B : Type 0} (f : A → Action X B) (r : Result WireError A)
      (l : LoopbackTransport Scalar Point) {a : A}
      → r ≡ ok a
      → after X f (r, l) ≡ f a l
  after-next f r l h = rw h refl

  push_scalars-parse :
      (row : ℕ) (bs : List Bytes) (rows : List (List Scalar)) {u : Unit {0}}
      → (push_scalars X row bs rows).0 ≡ ok u
      → (xs : List Scalar) × (parse_scalars X bs ≡ ok xs)
        × ((push_scalars X row bs rows).1 ≡ push rows row xs)
  unfolding push_scalars parse_scalars push_one
  push_scalars-parse row [] rows h = ([], refl, sym (push-none rows row))
  push_scalars-parse row (b ∷ bs) rows {u} h =
      elim (Option-cases (X.scalar_from_canonical_bytes b)) [
        | inl no_scalar ↦ cc (
            subst
              (λ o.
                (push_one X o (λ s. push_scalars X row bs (push rows row (s ∷ []))) rows).0 ≡ ok u)
              no_scalar h)
        | inr (s, is) ↦
            let again =
              subst
                (λ o.
                  (push_one X o (λ s. push_scalars X row bs (push rows row (s ∷ []))) rows).0
                  ≡ ok u)
                is h in
            let (xs, parsed, pushed) = push_scalars-parse row bs (push rows row (s ∷ [])) again in
            rw is (s ∷ xs, rw parsed refl, pushed ∙ push-push rows row s xs)
      ]

  -- The transport is in the middle of a request as the server's loop is.
  pub record Follows (l : LoopbackTransport Scalar Point) (h : RequestHeader) (p : Progress Scalar)
      : Type 0 where
    pub header : l.header ≡ some h
    pub rows : l.rows ≡ p.rows
    pub next_col : l.next_col ≡ p.next_col
    pub next_chunk : l.next_chunk ≡ p.next_chunk
    pub scalar_count : l.scalar_count ≡ p.scalar_count
    pub hasher : l.hasher ≡ some p.hasher
    pub few_chunks : p.next_chunk < 2 ^ 32
    pub few_scalars : p.scalar_count < 2 ^ 64

  -- The frame in which a client sends the payload of a chunk.
  abbrev pub chunk_frame : Bytes → ℕ → Bytes → WireFrame
  chunk_frame session next_chunk payload = record {
    frame_type = masked_chunk;
    sequence = (next_chunk + 1) % 2 ^ 32;
    session_digest = session;
    payload = payload;
  }

  -- A chunk that `send_masked_chunk` accepts is accepted by the server from the frame that carries
  -- it, and leaves the two in the same state; the bases stay, and
  -- the count of chunks is one more.
  pub send_masked_chunk-on_chunk :
      (l : LoopbackTransport Scalar Point) (h : RequestHeader) (p : Progress Scalar)
      (session : Bytes) (c : Chunk) {u : Unit {0}}
      → Follows l h p
      → IsChunk c
      → (send_masked_chunk X c l).0 ≡ ok u
      → (payload : Bytes) × (p' : Progress Scalar) × (encode_chunk c ≡ ok payload)
        × (on_chunk X h p (chunk_frame session p.next_chunk payload) ≡ ok p')
        × Follows (send_masked_chunk X c l).1 h p'
        × ((send_masked_chunk X c l).1.bases ≡ l.bases)
        × (p'.next_chunk ≡ (p.next_chunk + 1) % 2 ^ 32)
  unfolding send_masked_chunk push_chunk on_chunk advanced chunk_sent
  send_masked_chunk-on_chunk l h p session c {u} f is e =
      let (h', e1, e) = after-ok _ (ok_or (state_error "header not sent") l.header) l e in
      let (_, e2, e) = after-ok _ (validate_chunk c h' l.next_chunk l.next_col) l e in
      let (payload, e3, e) = after-ok _ (encode_chunk c) l e in
      let (_, e4, e) =
        after-ok _ (push_scalars X c.row c.scalars l.rows).0
          (record l { rows = (push_scalars X c.row c.scalars l.rows).1 }) e in
      let (hasher, e5, e) =
        after-ok _ (ok_or (state_error "panic") l.hasher)
          (record l { rows = (push_scalars X c.row c.scalars l.rows).1 }) e in
      let (xs, parsed, pushed) = push_scalars-parse c.row c.scalars l.rows e4 in
      agree h' payload hasher xs (ok_or-eq-ok _ l.header e1) e2 e3 e4 parsed pushed
        (ok_or-eq-ok _ l.hasher e5)
    where
      agree :
          (h' : RequestHeader) (payload hasher : Bytes) (xs : List Scalar) {u2 u4 : Unit {0}}
          → l.header ≡ some h'
          → validate_chunk c h' l.next_chunk l.next_col ≡ ok u2
          → encode_chunk c ≡ ok payload
          → (push_scalars X c.row c.scalars l.rows).0 ≡ ok u4
          → parse_scalars X c.scalars ≡ ok xs
          → (push_scalars X c.row c.scalars l.rows).1 ≡ push l.rows c.row xs
          → l.hasher ≡ some hasher
          → (payload : Bytes) × (p' : Progress Scalar) × (encode_chunk c ≡ ok payload)
            × (on_chunk X h p (chunk_frame session p.next_chunk payload) ≡ ok p')
            × Follows (send_masked_chunk X c l).1 h p'
            × ((send_masked_chunk X c l).1.bases ≡ l.bases)
            × (p'.next_chunk ≡ (p.next_chunk + 1) % 2 ^ 32)
      agree h' payload hasher xs sent valid encoded pushes parsed pushed hashing =
          let same : h' ≡ h = Option.some-injective h' h (sym sent ∙ f.header) in
          let hash : hasher ≡ p.hasher =
            Option.some-injective hasher p.hasher (sym hashing ∙ f.hasher) in
          let valid' : validate_chunk c h p.next_chunk p.next_col ≡ ok tt =
            rw (sym f.next_chunk, sym f.next_col, sym same) valid in
          let after_send : (send_masked_chunk X c l).1
              ≡ chunk_sent X c payload hasher (record l { rows = push l.rows c.row xs }) =
            rw (sent, valid, encoded, pushes, hashing, pushed) refl in
          (
            payload,
            advanced X p payload c xs,
            encoded,
            rw (eq_refl, decode_chunk-encode c is encoded, valid', parsed) refl,
            rw after_send (record {
              header = f.header;
              rows = ap (λ rows. push rows c.row xs) f.rows;
              next_col = ap (λ n. set n c.row c.col_end) f.next_col;
              next_chunk = ap (λ n. (n + 1) % 2 ^ 32) f.next_chunk;
              scalar_count = ap (λ n. (n + length c.scalars) % 2 ^ 64) f.scalar_count;
              hasher = ap (λ b. some (update_request_hasher X b payload)) hash;
              few_chunks = omega arith;
              few_scalars = omega arith;
            }),
            rw after_send refl,
            refl,
          )
