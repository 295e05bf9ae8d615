-- ===== src/Wire/Loopback/Served.antt =====
-- A request on `LoopbackTransport` and over frames
-- (experiments/preprocessed-pbmo/src/transport.rs).
use mathlib.Core.Option
use thinwallet.Prelude.{
  true, ℕ, List, [], ◌∷◌, ◌+◌, ◌%◌, ◌^◌, ◌≡◌, refl, sym, ap, subst, ◌∙◌, ◌++◌, ◌≤◌, some, not, map,
  length, ◌==◌, nat_eq, bytes_eq, option_eq, not_eq-false, eq_refl, arith, All,
}
use thinwallet.Prelude.Outcome.{
  Result, ok, reject_if, reject_if-eq-ok, ok_or, ok_or-eq-ok, ok-injective,
}
use thinwallet.Prelude.Bytes.{Bytes}
use thinwallet.External.{External}
use thinwallet.Token.Codec.{concat}
use thinwallet.Token.{backend_revision}
use thinwallet.Wire.{
  WireError, RequestHeader, Chunk, WireFrame, request_header, finish_request as finish_type,
  state_error, frame_code, max_frame_payload,
}
use thinwallet.Wire.Messages.{encode_request_header, encode_finish}
use thinwallet.Wire.Messages.RoundTrip.{IsRequestHeader, decode_request_header-encode}
use thinwallet.Wire.Messages.Canonical.{IsChunk}
use thinwallet.Wire.Checks.{validate_header}
use thinwallet.Wire.Server.{
  Progress, Surroundings, upload, reply, start_progress, handle_connection,
}
use thinwallet.Wire.Loopback.{
  LoopbackTransport, Action, after, lift, gets, modify, new_loopback, reserve_session,
  send_request_header, header_sent, finish_request, receive_response, response_taken,
}
use thinwallet.Wire.Loopback
use thinwallet.Wire.Loopback.Agrees.{Follows, after-ok}
use thinwallet.Wire.Loopback.Request.{
  chunk_frames, send_chunks, send_chunks-upload, finish_request-upload,
}

module _ (X : External) where
  open X use {Point, Scalar}

  -- One request on a transport: the calls of a client in their order.
  unfoldable pub request : Bytes → RequestHeader → List Chunk → Action X (Bytes × List Point)
  request session h cs = Loopback.◌>>◌ X (reserve_session X session) (
      Loopback.◌>>◌ X (send_request_header X h) (
        Loopback.◌>>◌ X (send_chunks X cs)
          (Loopback.◌>>=◌ X (finish_request X) (λ _. receive_response X))))

  send_request_header-ok :
      (h : RequestHeader) (l : LoopbackTransport Scalar Point) {u : Unit {0}}
      → (send_request_header X h l).0 ≡ ok u
      → (payload : Bytes) × (validate_header X h l.bases backend_revision ≡ ok tt)
        × (some h.token_session_digest ≡ l.session_digest)
        × (encode_request_header h ≡ ok payload)
        × ((send_request_header X h l).1 ≡ header_sent X h payload l)
  unfolding send_request_header
  send_request_header-ok h l e =
      let (_, e1, e) = after-ok X _ (validate_header X h l.bases backend_revision) l e in
      let (_, e2, e) =
        after-ok X _ (reject_if (not (some h.token_session_digest == l.session_digest)) _) l e in
      let (payload, e3, e) = after-ok X _ (encode_request_header h) l e in
      (
        payload,
        e1,
        not_eq-false (some h.token_session_digest) l.session_digest (reject_if-eq-ok _ _ e2),
        e3,
        rw (e1, e2, e3) refl,
      )

  start-Follows :
      (h : RequestHeader) (payload session : Bytes) (bases : List Point)
      → Follows X
          (header_sent X h payload
            (record (new_loopback X bases) { session_digest = some session }))
          h
          (start_progress X h payload)
  unfolding header_sent new_loopback start_progress
  start-Follows h payload session bases = record {
    header = refl;
    rows = refl;
    next_col = refl;
    next_chunk = refl;
    scalar_count = refl;
    hasher = refl;
    few_chunks = omega arith;
    few_scalars = omega arith;
  }

  -- The same from the first chunk on.
  served_from :
      (t : Surroundings) (session : Bytes) (cs : List Chunk) (l : LoopbackTransport Scalar Point)
      (h : RequestHeader) (p : Progress Scalar) {digest : Bytes} {points : List Point}
      → ((b : Bytes) → length (X.sha256 b) ≡ 32)
      → Follows X l h p
      → All IsChunk cs
      → (Loopback.◌>>◌ X
          (send_chunks X cs)
          (Loopback.◌>>=◌ X (finish_request X) (λ _. receive_response X))
          l).0
        ≡ ok (digest, points)
      → (chunks : List WireFrame) × (last : WireFrame) × (chunk_frames session p.next_chunk cs
          ≡ ok chunks)
        × (length (concat (map X.compress points)) ≤ max_frame_payload
            → t.takes_header ≡ true
            → t.takes_body ≡ true
            → upload X t h session l.bases p (map ok chunks ++ ok last ∷ [])
              ≡ ok (reply X t digest points))
  unfolding receive_response
  served_from t session cs l h p {digest} {points} sha f are_chunks e =
      let (_, sent, e) = after-ok X _ (send_chunks X cs l).0 (send_chunks X cs l).1 e in
      let l' = (send_chunks X cs l).1 in
      let (d, finished, e) =
        after-ok X (λ _. receive_response X) (finish_request X l').0 (finish_request X l').1 e in
      let (answer, found, e) =
        after-ok X _ (ok_or (state_error "request not finished") (finish_request X l').1.response)
          (finish_request X l').1 e in
      let (chunks, p', framed, up, f', same) =
        send_chunks-upload X t session cs l h p f are_chunks sent in
      let (points', response, last_up) =
        finish_request-upload X t session l' h p' [] sha f' finished in
      let is : (d, points') ≡ (digest, points) =
        Option.some-injective (d, points') (digest, points)
          (sym response ∙ ok_or-eq-ok _ _ found ∙ ap (λ q. some q) (ok-injective e)) in
      let last : WireFrame = record {
        frame_type = finish_type;
        sequence = (p'.next_chunk + 1) % 2 ^ 32;
        session_digest = session;
        payload = encode_finish p'.next_chunk p'.scalar_count d;
      } in
      (
        chunks,
        last,
        framed,
        λ fits header body.
            up (ok last ∷ [])
            ∙ subst (λ b. upload X t h session b p' (ok last ∷ []) ≡ ok (reply X t d points')) same
                (last_up
                  (subst
                    (λ (r : Bytes × List Point).
                      length (concat (map X.compress r.1)) ≤ max_frame_payload)
                    (sym is) fits)
                  header body)
            ∙ ap (λ (r : Bytes × List Point). ok (reply X t r.0 r.1)) is,
      )

  abbrev header_frame : Bytes → Bytes → WireFrame
  header_frame session payload = record {
    frame_type = request_header;
    sequence = 0;
    session_digest = session;
    payload = payload;
  }

  -- The server's loop starts after a valid header.
  handle_connection-upload :
      (t : Surroundings) (bases : List Point) (session : Bytes) (h : RequestHeader)
      (payload : Bytes) (rest : List (Result WireError WireFrame))
      → IsRequestHeader h
      → encode_request_header h ≡ ok payload
      → validate_header X h bases backend_revision ≡ ok tt
      → h.token_session_digest ≡ session
      → handle_connection X t
          (λ _. ok bases)
          backend_revision
          (ok (header_frame session payload) ∷ rest)
        ≡ upload X t h session bases (start_progress X h payload) rest
  unfolding handle_connection
  handle_connection-upload t bases session h payload rest is encoded valid same =
      subst
        (λ d.
          handle_connection X t (λ _. ok bases) backend_revision
            (ok (header_frame d payload) ∷ rest)
          ≡ upload X t h d bases (start_progress X h payload) rest)
        same
        (rw
          (
            eq_refl (frame_code request_header),
            eq_refl {A = ℕ} 0,
            decode_request_header-encode h is encoded,
            eq_refl h.token_session_digest,
            valid,
          )
          refl)

  -- A request that a new `LoopbackTransport` answers is answered by the server, from the frames of
  -- its header, its chunks and a finish frame, with the same digest and the same points; the hash is
  -- of 32 bytes, the fields of the header and the chunks are of their types, no chunk has more
  -- scalars than `decode_chunk` allows, the compressed points fit in one frame, and
  -- the stream takes the response.
  pub request-handle_connection :
      (t : Surroundings) (bases : List Point) (session : Bytes) (h : RequestHeader)
      (cs : List Chunk) {digest : Bytes} {points : List Point}
      → ((b : Bytes) → length (X.sha256 b) ≡ 32)
      → IsRequestHeader h
      → All IsChunk cs
      → (request session h cs (new_loopback X bases)).0 ≡ ok (digest, points)
      → length (concat (map X.compress points)) ≤ max_frame_payload
      → t.takes_header ≡ true
      → t.takes_body ≡ true
      → (first : WireFrame) × (chunks : List WireFrame) × (last : WireFrame)
        × (encode_request_header h ≡ ok first.payload)
        × (chunk_frames session 0 cs ≡ ok chunks)
        × (handle_connection X t
              (λ _. ok bases)
              backend_revision
              (ok first ∷ (map ok chunks ++ ok last ∷ []))
            ≡ ok (reply X t digest points))
  unfolding request reserve_session header_sent new_loopback start_progress
  request-handle_connection t bases session h cs {digest} {points} sha is_header are_chunks e fits
        header body =
      let l1 = record (new_loopback X bases) { session_digest = some session } in
      let (_, e1, e) =
        after-ok X _ (send_request_header X h l1).0 (send_request_header X h l1).1 e in
      let (payload, valid, session_is, encoded, state) = send_request_header-ok h l1 e1 in
      let (chunks, last, framed, up) =
        served_from t session cs (header_sent X h payload l1) h (start_progress X h payload) sha
          (start-Follows h payload session bases) are_chunks
          (subst
            (λ l.
              (Loopback.◌>>◌ X (send_chunks X cs)
                (Loopback.◌>>=◌ X (finish_request X) (λ _. receive_response X)) l).0
              ≡ ok (digest, points))
            state e) in
      (
        header_frame session payload,
        chunks,
        last,
        encoded,
        framed,
        handle_connection-upload t bases session h payload (map ok chunks ++ ok last ∷ []) is_header
              encoded valid (Option.some-injective h.token_session_digest session session_is)
            ∙ up fits header body,
      )
