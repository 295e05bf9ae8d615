-- ===== src/Wire/Loopback/Request.antt =====
-- A whole request through `LoopbackTransport`, and the same request at the server
-- (experiments/preprocessed-pbmo/src/transport.rs).
use mathlib.Core.Option
use thinwallet.Prelude.{
  true, ℕ, List, [], ◌∷◌, ◌+◌, ◌%◌, ◌^◌, ◌≡◌, refl, sym, ap, subst, ◌∙◌, ◌<◌, ◌≤◌, le→ltb-false,
  ◌++◌, some, map, length, nat_eq, bytes_eq, option_eq, eq_refl, All,
}
use thinwallet.Prelude.Outcome.{Result, ok, ok_or, ok_or-eq-ok, ok-injective, ◌>>=◌}
use thinwallet.Prelude.Bytes.{Bytes}
use thinwallet.External.{External}
use thinwallet.Token.Codec.{concat}
use thinwallet.Wire.{
  WireError, RequestHeader, Chunk, WireFrame, masked_chunk, finish_request as finish_type,
  state_error, max_frame_payload,
}
use thinwallet.Wire.Parser.{finish, uint-be, take_bytes-append}
use thinwallet.Wire.Messages.{encode_chunk, encode_finish, decode_finish, finalize_digest}
use thinwallet.Wire.Messages.Canonical.{IsChunk}
use thinwallet.Wire.Checks.{validate_complete}
use thinwallet.Wire.Server.{
  Progress, Surroundings, on_chunk, on_finish, on_frame, turn, resume, upload, msm_rows, reply,
  send_reply,
}
use thinwallet.Wire.Loopback.{
  LoopbackTransport, Action, after, lift, gets, modify, new_loopback, send_masked_chunk,
  reserve_session, send_request_header, header_sent, finish_request, request_finished,
  receive_response,
}
use thinwallet.Wire.Loopback
use thinwallet.Wire.Loopback.Agrees.{
  Follows, after-ok, after-next, chunk_frame, send_masked_chunk-on_chunk,
}

-- The frames in which a client sends chunks, from a count of chunks on.
unfoldable pub chunk_frames : Bytes → ℕ → List Chunk → Result WireError (List WireFrame)
chunk_frames session n [] = ok []
chunk_frames session n (c ∷ cs) = do
  payload ← encode_chunk c
  frames ← chunk_frames session ((n + 1) % 2 ^ 32) cs
  ok (
      record {
        frame_type = masked_chunk;
        sequence = (n + 1) % 2 ^ 32;
        session_digest = session;
        payload = payload;
      }
      ∷ frames)

pub decode_finish-encode :
    (n k : ℕ) (digest : Bytes)
    → n < 2 ^ 32
    → k < 2 ^ 64
    → length digest ≡ 32
    → decode_finish (encode_finish n k digest) ≡ ok (n, k, digest)
unfolding decode_finish encode_finish concat finish nat_eq
decode_finish-encode n k digest hn hk hd =
    rw (uint-be 4 n _ hn, uint-be 8 k _ hk, take_bytes-append 32 digest [] hd) refl

module _ (X : External) where
  open X use {Point, Scalar}

  unfoldable pub send_chunks : List Chunk → Action X (Unit {0})
  send_chunks [] = lift X (ok tt)
  send_chunks (c ∷ cs) = Loopback.◌>>◌ X (send_masked_chunk X c) (send_chunks cs)

  chunk_upload :
      (t : Surroundings) (session : Bytes) (l : LoopbackTransport Scalar Point) (h : RequestHeader)
      (p : Progress Scalar) (rest : List (Result WireError WireFrame)) (payload : Bytes)
      (p' : Progress Scalar)
      → on_chunk X h p (chunk_frame X session p.next_chunk payload) ≡ ok p'
      → upload X t h session l.bases p (ok (chunk_frame X session p.next_chunk payload) ∷ rest)
        ≡ upload X t h session l.bases p' rest
  unfolding upload turn on_frame resume
  chunk_upload t session l h p rest payload p' taken = rw (eq_refl session, taken) refl

  -- Chunks that the transport accepts one after the other are accepted by the server's loop.
  pub send_chunks-upload :
      (t : Surroundings) (session : Bytes) (cs : List Chunk) (l : LoopbackTransport Scalar Point)
      (h : RequestHeader) (p : Progress Scalar) {u : Unit {0}}
      → Follows X l h p
      → All IsChunk cs
      → (send_chunks cs l).0 ≡ ok u
      → (frames : List WireFrame) × (p' : Progress Scalar) × (chunk_frames session p.next_chunk cs
          ≡ ok frames)
        × ((rest : List (Result WireError WireFrame))
            → upload X t h session l.bases p (map ok frames ++ rest)
              ≡ upload X t h session l.bases p' rest)
        × Follows X (send_chunks cs l).1 h p'
        × ((send_chunks cs l).1.bases ≡ l.bases)
  unfolding send_chunks chunk_frames upload turn on_frame resume
  send_chunks-upload t session [] l h p f is e = ([], p, refl, (λ rest. refl), f, refl)
  send_chunks-upload t session (c ∷ cs) l h p f (i, is) e =
      let (_, sent, e) =
        after-ok X (λ _. send_chunks cs) (send_masked_chunk X c l).0 (send_masked_chunk X c l).1
          e in
      let (payload, p', encoded, taken, f', same, next) =
        send_masked_chunk-on_chunk X l h p session c f i sent in
      let (frames, p'', framed, up, f'', same') =
        send_chunks-upload t session cs (send_masked_chunk X c l).1 h p' f' is e in
      let first = λ (rest : List (Result WireError WireFrame)).
        chunk_upload t session l h p rest payload p' taken in
      let second =
        subst
          (λ b.
            (rest : List (Result WireError WireFrame))
            → upload X t h session b p' (map ok frames ++ rest) ≡ upload X t h session b p'' rest)
          same up in
      let state : send_chunks (c ∷ cs) l ≡ send_chunks cs (send_masked_chunk X c l).1 =
        after-next X (λ _. send_chunks cs) (send_masked_chunk X c l).0 (send_masked_chunk X c l).1
          sent in
      (
        chunk_frame X session p.next_chunk payload ∷ frames,
        p'',
        rw (encoded, sym next, framed) refl,
        (λ rest. first (map ok frames ++ rest) ∙ second rest),
        rw state f'',
        rw state (same' ∙ same),
      )

  length-finalize_digest :
      ((b : Bytes) → length (X.sha256 b) ≡ 32)
      → (hash : Bytes) → length (finalize_digest X hash) ≡ 32
  unfolding finalize_digest
  length-finalize_digest sha hash = sha hash

  -- What `finish_request` accepts, the server answers with the same digest and points.
  pub finish_request-upload :
      (t : Surroundings) (session : Bytes) (l : LoopbackTransport Scalar Point) (h : RequestHeader)
      (p : Progress Scalar) (rest : List (Result WireError WireFrame)) {digest : Bytes}
      → ((b : Bytes) → length (X.sha256 b) ≡ 32)
      → Follows X l h p
      → (finish_request X l).0 ≡ ok digest
      → let last : WireFrame = record {
        frame_type = finish_type;
        sequence = (p.next_chunk + 1) % 2 ^ 32;
        session_digest = session;
        payload = encode_finish p.next_chunk p.scalar_count digest;
      } in
        (points : List Point) × ((finish_request X l).1.response ≡ some (digest, points))
        × (length (concat (map X.compress points)) ≤ max_frame_payload
            → t.takes_header ≡ true
            → t.takes_body ≡ true
            → upload X t h session l.bases p (ok last ∷ rest) ≡ ok (reply X t digest points))
  unfolding finish_request upload turn on_frame resume on_finish request_finished reply send_reply
  finish_request-upload t session l h p rest {digest} sha f e =
      let (h', e1, e) = after-ok X _ (ok_or (state_error "panic") l.header) l e in
      let (_, e2, e) =
        after-ok X _ (validate_complete h' l.next_chunk l.scalar_count l.next_col) l e in
      let (hash, e3, e) = after-ok X _ (ok_or (state_error "panic") l.hasher) l e in
      answered h' hash (ok_or-eq-ok _ l.header e1) e2 (ok_or-eq-ok _ l.hasher e3) (ok-injective e)
    where
      answered :
          (h' : RequestHeader) (hash : Bytes) {u : Unit {0}}
          → l.header ≡ some h'
          → validate_complete h' l.next_chunk l.scalar_count l.next_col ≡ ok u
          → l.hasher ≡ some hash
          → finalize_digest X hash ≡ digest
          → let last : WireFrame = record {
            frame_type = finish_type;
            sequence = (p.next_chunk + 1) % 2 ^ 32;
            session_digest = session;
            payload = encode_finish p.next_chunk p.scalar_count digest;
          } in
            (points : List Point) × ((finish_request X l).1.response ≡ some (digest, points))
            × (length (concat (map X.compress points)) ≤ max_frame_payload
                → t.takes_header ≡ true
                → t.takes_body ≡ true
                → upload X t h session l.bases p (ok last ∷ rest) ≡ ok (reply X t digest points))
      answered h' hash sent complete hashing is =
          let same : h' ≡ h = Option.some-injective h' h (sym sent ∙ f.header) in
          let hash' : hash ≡ p.hasher =
            Option.some-injective hash p.hasher (sym hashing ∙ f.hasher) in
          let complete' : validate_complete h p.next_chunk p.scalar_count p.next_col ≡ ok tt =
            rw (sym f.next_chunk, sym f.scalar_count, sym f.next_col, sym same) complete in
          let digest' : finalize_digest X p.hasher ≡ digest =
            ap (finalize_digest X) (sym hash') ∙ is in
          let long : length digest ≡ 32 = ap length (sym is) ∙ length-finalize_digest sha hash in
          (
            msm_rows X p.rows l.bases,
            rw (sent, complete, hashing)
                (ap (λ q. some q)
                  (ap (λ d. (d, msm_rows X l.rows l.bases)) is
                    ∙ ap (λ rows. (digest, msm_rows X rows l.bases)) f.rows)),
            λ fits header body.
                rw
                  (
                    eq_refl session,
                    eq_refl ((p.next_chunk + 1) % 2 ^ 32),
                    decode_finish-encode p.next_chunk p.scalar_count digest f.few_chunks
                        f.few_scalars long,
                    complete',
                    digest',
                    eq_refl p.next_chunk,
                    eq_refl p.scalar_count,
                    eq_refl digest,
                    le→ltb-false max_frame_payload
                        (length (concat (map X.compress (msm_rows X p.rows l.bases)))) fits,
                    header,
                    body,
                  )
                  refl,
          )
