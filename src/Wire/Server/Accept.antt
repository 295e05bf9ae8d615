-- ===== src/Wire/Server/Accept.antt =====
-- What the server has received when it answers (experiments/preprocessed-pbmo/src/transport.rs).
use thinwallet.Prelude.{
  ltb, ℕ, suc, List, [], ◌∷◌, ◌+◌, ◌-◌, ◌%◌, ◌^◌, ◌≡◌, refl, sym, ap, subst, ◌∙◌, ◌<◌, ◌++◌, false,
  not, ◌||◌, map, length, set, get_elem?, any, ◌==◌, nat_eq, bytes_eq, option_eq, not_eq-false,
  arith, All, append-nil, append_assoc, some, ◌⊎◌, inl, inr,
}
use thinwallet.Prelude.Outcome.{
  Result, ok, ◌>>=◌, reject_if, ok_or, bind-eq-ok, reject_if-eq-ok, ok-injective,
}
use thinwallet.Prelude.Bytes.{Bytes}
use thinwallet.External.{External}
use thinwallet.Wire.{
  WireError, RequestHeader, Chunk, FrameType, WireFrame, frame_code, request_header, masked_chunk,
  finish_request, response_header, response_body, error_frame, abort, max_frame_payload,
}
use thinwallet.Wire.Messages.{
  decode_request_header, decode_chunk, decode_finish, request_hasher, update_request_hasher,
  finalize_digest,
}
use thinwallet.Wire.Checks.{
  validate_header, validate_chunk, validate_complete, wrong_range, wrong_binding,
}
use thinwallet.Wire.Server.{
  Progress, Reply, Turn, more, done, Surroundings, push, parse_scalars, advanced, on_chunk,
  msm_rows, reply, send_reply, on_finish, on_frame, turn, resume, upload, start_progress,
  handle_connection,
}
use thinwallet.Wire.Server.Rows.{
  rows_of, push-rows_of, rows_of-none, lengths-none, set-push, complete_rows,
}

module _ (X : External) where
  open X use {Point, Scalar}

  -- The row and the scalars that a chunk frame carries.
  unfoldable pub piece : WireFrame → Result WireError (ℕ × List Scalar)
  piece frame = do
    chunk ← decode_chunk frame.payload
    scalars ← parse_scalars X chunk.scalars
    ok (chunk.row, scalars)

  -- The frames carry these pieces, and the hash of their payloads goes from `before` to `after`.
  pub data Carries : List WireFrame → List (ℕ × List Scalar) → Bytes → Bytes → Type 0 where
    nothing : {hash : Bytes} → Carries [] [] hash hash
    then_frame :
        {frame : WireFrame} {frames : List WireFrame} {p : ℕ × List Scalar}
        {ps : List (ℕ × List Scalar)} {before after : Bytes}
        → piece frame ≡ ok p
        → Carries frames ps (update_request_hasher X before frame.payload) after
        → Carries (frame ∷ frames) (p ∷ ps) before after

  -- The loop's state is the rows of the pieces so far.
  record Built (q : ℕ) (ps : List (ℕ × List Scalar)) (p : Progress Scalar) : Type 0 where
    rows : p.rows ≡ rows_of q ps
    columns : p.next_col ≡ map length p.rows

  length-parse_scalars :
      (bs : List Bytes) {xs : List Scalar} → parse_scalars X bs ≡ ok xs → length xs ≡ length bs
  unfolding parse_scalars
  length-parse_scalars [] h = rw (sym (ok-injective h)) refl
  length-parse_scalars (b ∷ bs) h =
      let (x, _, h) = bind-eq-ok (ok_or _ (X.scalar_from_canonical_bytes b)) _ h in
      let (ys, others, h) = bind-eq-ok (parse_scalars X bs) _ h in
      rw (sym (ok-injective h)) (ap suc (length-parse_scalars bs others))

  start-Built : (h : RequestHeader) (payload : Bytes) → Built h.q [] (start_progress X h payload)
  unfolding start_progress
  start-Built h payload = record { rows = rows_of-none h.q; columns = lengths-none Scalar h.q }

  wrong_range-false :
      (c : Chunk) (h : RequestHeader) (next_col : List ℕ)
      → wrong_range c h next_col ≡ false
      → (get_elem? next_col c.row ≡ some c.col_start) × (c.col_start < c.col_end)
  unfolding wrong_range
  wrong_range-false c h next_col r =
      let at : not (get_elem? next_col c.row == some c.col_start) ≡ false = ground arith in
      (not_eq-false (get_elem? next_col c.row) (some c.col_start) at, ground arith)

  -- What an accepted chunk's range says.
  validate_chunk-range :
      (c : Chunk) (h : RequestHeader) (next_chunk : ℕ) (next_col : List ℕ) {u : Unit {0}}
      → validate_chunk c h next_chunk next_col ≡ ok u
      → (get_elem? next_col c.row ≡ some c.col_start) × (c.col_end ≡ c.col_start + length c.scalars)
  unfolding validate_chunk
  validate_chunk-range c h next_chunk next_col e =
      let (_, _, e) = bind-eq-ok (reject_if (not (c.chunk_index == next_chunk)) _) _ e in
      let (_, _, e) = bind-eq-ok (reject_if (wrong_binding c h) _) _ e in
      let (_, range, e) = bind-eq-ok (reject_if (wrong_range c h next_col) _) _ e in
      let count =
        not_eq-false (length c.scalars) (c.col_end - c.col_start) (reject_if-eq-ok _ _ e) in
      let (at, wide) = wrong_range-false c h next_col (reject_if-eq-ok _ _ range) in
      (at, omega (arith, count, wide))

  -- An accepted chunk adds its piece.
  on_chunk-Built :
      (h : RequestHeader) (ps : List (ℕ × List Scalar)) (p : Progress Scalar) (frame : WireFrame)
      {p' : Progress Scalar}
      → Built h.q ps p
      → on_chunk X h p frame ≡ ok p'
      → (new : ℕ × List Scalar) × (piece frame ≡ ok new)
        × Built h.q (ps ++ new ∷ []) p'
        × (p'.hasher ≡ update_request_hasher X p.hasher frame.payload)
  unfolding on_chunk piece advanced
  on_chunk-Built h ps p frame {p'} built e =
      let (_, _, e) =
        bind-eq-ok (reject_if (not (frame.sequence == (p.next_chunk + 1) % 2 ^ 32)) _) _ e in
      let (c, decoded, e) = bind-eq-ok (decode_chunk frame.payload) _ e in
      let (_, valid, e) = bind-eq-ok (validate_chunk c h p.next_chunk p.next_col) _ e in
      let (xs, parsed, e) = bind-eq-ok (parse_scalars X c.scalars) _ e in
      added c xs decoded parsed (validate_chunk-range c h p.next_chunk p.next_col valid)
        (ok-injective (sym e))
    where
      added :
          (c : Chunk) (xs : List Scalar)
          → decode_chunk frame.payload ≡ ok c
          → parse_scalars X c.scalars ≡ ok xs
          → (get_elem? p.next_col c.row ≡ some c.col_start)
            × (c.col_end ≡ c.col_start + length c.scalars)
          → p' ≡ advanced X p frame.payload c xs
          → (new : ℕ × List Scalar) × (piece frame ≡ ok new)
            × Built h.q (ps ++ new ∷ []) p'
            × (p'.hasher ≡ update_request_hasher X p.hasher frame.payload)
      added c xs decoded parsed (at, width) is =
          let long = length-parse_scalars c.scalars parsed in
          let sum : c.col_end ≡ c.col_start + length xs = omega (arith, width, long) in
          let at' = subst (λ cols. get_elem? cols c.row ≡ some c.col_start) built.columns at in
          let cols =
            ap (λ cols. set cols c.row c.col_end) built.columns
            ∙ set-push p.rows c.row c.col_start c.col_end xs at' sum in
          let rows = ap (λ rows. push rows c.row xs) built.rows ∙ push-rows_of h.q ps c.row xs in
          rw is
            ((c.row, xs), rw (decoded, parsed) refl, record { rows = rows; columns = cols }, refl)

  -- What the stream has brought when the loop answers, after earlier pieces and the hash `before`.
  pub record Received (h : RequestHeader) (bases : List Point) (earlier : List (ℕ × List Scalar))
      (before : Bytes) (incoming : List (Result WireError WireFrame)) (r : Reply Point)
      : Type 0 where
    pub frames : List WireFrame
    pub last : WireFrame
    pub rest : List (Result WireError WireFrame)
    pub pieces : List (ℕ × List Scalar)
    pub after : Bytes
    pub chunk_count : ℕ
    pub scalar_count : ℕ
    pub stream : incoming ≡ map ok frames ++ ok last ∷ rest
    pub carried : Carries frames pieces before after
    pub complete : All (λ row. length row ≡ h.m) (rows_of h.q (earlier ++ pieces))
    pub outputs : r.outputs ≡ msm_rows X (rows_of h.q (earlier ++ pieces)) bases
    pub digest : r.request_digest ≡ finalize_digest X after
    pub confirmed : decode_finish last.payload ≡ ok (chunk_count, scalar_count, r.request_digest)

  -- The finish frame is accepted when every row is full, and confirms the digest.
  on_finish-Received :
      (t : Surroundings) (h : RequestHeader) (bases : List Point) (ps : List (ℕ × List Scalar))
      (p : Progress Scalar) (frame : WireFrame) (rest : List (Result WireError WireFrame))
      {r : Reply Point}
      → Built h.q ps p
      → on_finish X t h bases p frame ≡ ok r
      → Received h bases ps p.hasher (ok frame ∷ rest) r
  unfolding on_finish validate_complete reply send_reply
  on_finish-Received t h bases ps p frame rest {r} built e =
      let (_, _, e) =
        bind-eq-ok (reject_if (not (frame.sequence == (p.next_chunk + 1) % 2 ^ 32)) _) _ e in
      let ((n, k, claimed), decoded, e) = bind-eq-ok (decode_finish frame.payload) _ e in
      let (_, full, e) =
        bind-eq-ok (validate_complete h p.next_chunk p.scalar_count p.next_col) _ e in
      let (_, same, e) =
        bind-eq-ok
          (reject_if
            (not (n == p.next_chunk)
              || not (k == p.scalar_count)
              || not (claimed == finalize_digest X p.hasher))
            _)
          _ e in
      let (_, _, e) = bind-eq-ok (reject_if (not t.takes_header) _) _ e in
      let (_, _, e) =
        bind-eq-ok
          (reject_if
            (ltb max_frame_payload
              (length (reply X t (finalize_digest X p.hasher) (msm_rows X p.rows bases)).body))
            _)
          _ e in
      let (_, _, e) = bind-eq-ok (reject_if (not t.takes_body) _) _ e in
      finished n k claimed decoded (reject_if-eq-ok _ _ full) (reject_if-eq-ok _ _ same)
        (ok-injective (sym e))
    where
      finished :
          (n k : ℕ) (claimed : Bytes)
          → decode_finish frame.payload ≡ ok (n, k, claimed)
          → (not (p.next_chunk == h.expected_chunk_count)
              || not (p.scalar_count == h.expected_scalar_count)
              || any (λ v. not (v == h.m)) p.next_col)
            ≡ false
          → (not (n == p.next_chunk)
              || not (k == p.scalar_count)
              || not (claimed == finalize_digest X p.hasher))
            ≡ false
          → r ≡ reply X t (finalize_digest X p.hasher) (msm_rows X p.rows bases)
          → Received h bases ps p.hasher (ok frame ∷ rest) r
      finished n k claimed decoded full same is =
          let none_short : any (λ v. not (v == h.m)) p.next_col ≡ false = ground arith in
          let agrees : not (claimed == finalize_digest X p.hasher) ≡ false = ground arith in
          let short' =
            subst (λ cols. any (λ v. not (v == h.m)) cols ≡ false) built.columns none_short in
          let rows_full =
            subst (All (λ row. length row ≡ h.m)) built.rows (complete_rows p.rows h.m short') in
          let all_pieces = sym (append-nil ps) in
          record {
            frames = [];
            last = frame;
            rest = rest;
            pieces = [];
            after = p.hasher;
            chunk_count = n;
            scalar_count = k;
            stream = refl;
            carried = nothing;
            complete =
                subst (λ qs. All (λ row. length row ≡ h.m) (rows_of h.q qs)) all_pieces rows_full;
            outputs =
                ap (λ x. x.outputs) is
                ∙ ap (λ rows. msm_rows X rows bases) (built.rows ∙ ap (rows_of h.q) all_pieces);
            digest = ap (λ x. x.request_digest) is;
            confirmed =
                decoded
                ∙ ap (λ d. ok (n, k, d))
                    (not_eq-false claimed (finalize_digest X p.hasher) agrees
                      ∙ sym (ap (λ x. x.request_digest) is));
          }

  Received-chunk :
      (h : RequestHeader) (bases : List Point) (ps : List (ℕ × List Scalar)) (before : Bytes)
      (frame : WireFrame) (new : ℕ × List Scalar) (incoming : List (Result WireError WireFrame))
      {r : Reply Point} {between : Bytes}
      → piece frame ≡ ok new
      → between ≡ update_request_hasher X before frame.payload
      → Received h bases (ps ++ new ∷ []) between incoming r
      → Received h bases ps before (ok frame ∷ incoming) r
  Received-chunk h bases ps before frame new incoming {r} {between} carries hash got =
      let joined : (ps ++ new ∷ []) ++ got.pieces ≡ ps ++ new ∷ got.pieces =
        append_assoc ps (new ∷ []) got.pieces in
      record {
        frames = frame ∷ got.frames;
        last = got.last;
        rest = got.rest;
        pieces = new ∷ got.pieces;
        after = got.after;
        chunk_count = got.chunk_count;
        scalar_count = got.scalar_count;
        stream = ap (λ (t : List (Result WireError WireFrame)). ok frame ∷ t) got.stream;
        carried =
            then_frame carries
              (subst (λ b. Carries got.frames got.pieces b got.after) hash got.carried);
        complete = subst (λ qs. All (λ row. length row ≡ h.m) (rows_of h.q qs)) joined got.complete;
        outputs = got.outputs ∙ ap (λ qs. msm_rows X (rows_of h.q qs) bases) joined;
        digest = got.digest;
        confirmed = got.confirmed;
      }

  -- A frame that the loop accepts is a chunk or the finish.
  on_frame-cases :
      (t : Surroundings) (h : RequestHeader) (bases : List Point) (p : Progress Scalar)
      (type : FrameType) (frame : WireFrame) {next : Turn Scalar Point}
      → on_frame X t h bases p type frame ≡ ok next
      → ((p' : Progress Scalar) × (on_chunk X h p frame ≡ ok p') × (more p' ≡ next))
        ⊎ ((r : Reply Point) × (on_finish X t h bases p frame ≡ ok r) × (done r ≡ next))
  unfolding on_frame
  on_frame-cases t h bases p masked_chunk frame e =
      let (p', chunk, e) = bind-eq-ok (on_chunk X h p frame) _ e in inl (p', chunk, ok-injective e)
  on_frame-cases t h bases p finish_request frame e =
      let (r, fin, e) = bind-eq-ok (on_finish X t h bases p frame) _ e in
      inr (r, fin, ok-injective e)
  on_frame-cases t h bases p abort frame e = cc
  on_frame-cases t h bases p request_header frame e = cc
  on_frame-cases t h bases p response_header frame e = cc
  on_frame-cases t h bases p response_body frame e = cc
  on_frame-cases t h bases p error_frame frame e = cc

  upload-Received :
      (t : Surroundings) (h : RequestHeader) (session : Bytes) (bases : List Point)
      (ps : List (ℕ × List Scalar)) (p : Progress Scalar)
      (incoming : List (Result WireError WireFrame)) {r : Reply Point}
      → Built h.q ps p
      → upload X t h session bases p incoming ≡ ok r
      → Received h bases ps p.hasher incoming r
  unfolding upload turn resume
  upload-Received t h session bases ps p [] built e = cc
  upload-Received t h session bases ps p (first ∷ incoming) {r} built e =
      let (frame, got, e) = bind-eq-ok first _ e in
      let (next, turned, e) = bind-eq-ok (turn X t h session bases p frame) _ e in
      let (_, _, framed) =
        bind-eq-ok (reject_if (not (frame.session_digest == session)) _) _ turned in
      subst (λ x. Received h bases ps p.hasher (x ∷ incoming) r) (sym got)
        (elim (on_frame-cases t h bases p frame.frame_type frame framed) [
          | inl (p', chunk, is) ↦
              let (new, carries, built', hash) = on_chunk-Built h ps p frame built chunk in
              let again : upload X t h session bases p' incoming ≡ ok r =
                subst (λ n. resume X n (λ p'. upload X t h session bases p' incoming) ≡ ok r)
                  (sym is) e in
              Received-chunk h bases ps p.hasher frame new incoming carries hash
                (upload-Received t h session bases (ps ++ new ∷ []) p' incoming built' again)
          | inr (r', fin, is) ↦
              let same : r' ≡ r = ok-injective (
                subst (λ n. resume X n (λ p'. upload X t h session bases p' incoming) ≡ ok r)
                  (sym is) e) in
              subst (Received h bases ps p.hasher (ok frame ∷ incoming)) same
                (on_finish-Received t h bases ps p frame incoming built fin)
        ])

  -- When the server answers, the request header was valid for the bases that it names, the masked
  -- chunks that came before the finish frame fill each of its `q` rows with exactly `m` scalars,
  -- the outputs are the multi-scalar products of those rows, in order, and the digest of the answer
  -- is the hash of the header and of every chunk, which the client has confirmed.
  pub handle_connection-Received :
      (t : Surroundings) (resolve_bases : RequestHeader → Result WireError (List Point))
      (expected_backend : Bytes) (incoming : List (Result WireError WireFrame)) {r : Reply Point}
      → handle_connection X t resolve_bases expected_backend incoming ≡ ok r
      → (first : WireFrame) × (rest : List (Result WireError WireFrame)) × (h : RequestHeader)
        × (bases : List Point) × (incoming ≡ ok first ∷ rest)
        × (decode_request_header first.payload ≡ ok h)
        × (resolve_bases h ≡ ok bases)
        × (validate_header X h bases expected_backend ≡ ok tt)
        × Received h bases [] (request_hasher X first.payload) rest r
  unfolding handle_connection start_progress
  handle_connection-Received t resolve_bases expected_backend [] e = cc
  handle_connection-Received t resolve_bases expected_backend (first ∷ rest) e =
      let (frame, got, e) = bind-eq-ok first _ e in
      let (_, _, e) =
        bind-eq-ok
          (reject_if
            (not (frame_code frame.frame_type == frame_code request_header)
              || not (frame.sequence == 0))
            _)
          _ e in
      let (h, decoded, e) = bind-eq-ok (decode_request_header frame.payload) _ e in
      let (_, _, e) =
        bind-eq-ok (reject_if (not (h.token_session_digest == frame.session_digest)) _) _ e in
      let (bases, resolved, e) = bind-eq-ok (resolve_bases h) _ e in
      let (_, valid, e) = bind-eq-ok (validate_header X h bases expected_backend) _ e in
      (
        frame,
        rest,
        h,
        bases,
        ap (λ (x : Result WireError WireFrame). x ∷ rest) got,
        decoded,
        resolved,
        valid,
        upload-Received t h frame.session_digest bases [] (start_progress X h frame.payload) rest
            (start-Built h frame.payload) e,
      )
