-- ===== src/Wire/Tcp/Answered.antt =====
-- What an answer that `TcpTransport::receive_response` returns stands on
-- (experiments/preprocessed-pbmo/src/transport.rs).
use thinwallet.Prelude.{
  List, [], ◌∷◌, ◌++◌, ◌*◌, ◌≡◌, refl, sym, ap, subst, ◌∙◌, some, not, ◌||◌, length, ◌==◌, true,
  Bool, false, not_eq-false, bytes_eq, nat_eq, option_eq,
}
use thinwallet.Prelude.Outcome.{ok, reject_if, reject_if-eq-ok, ok_or, ok_or-eq-ok, ok-injective}
use thinwallet.Prelude.Action.{after-eq-ok, after-lift-ok}
use thinwallet.Prelude.Bytes.{Bytes, IsBytes}
use thinwallet.External.{External}
use thinwallet.Wire.{WireFrame, response_header, response_body, point_bytes}
use thinwallet.Wire.Frame.{write_frame, read_frame}
use thinwallet.Wire.Frame.Authentic.{read_frame-written}
use thinwallet.Wire.Messages.{ResponseHeader, decode_response_header, hex}
use thinwallet.Wire.Tcp.{
  Connection, TcpTransport, stream, is_type, receive_frame, check_error, response_counted,
  points_of, receive_header, receive_body, receive_response,
}

IsBytes-back : (x y : Bytes) → IsBytes (x ++ y) → IsBytes y
IsBytes-back [] y h = h
IsBytes-back (b ∷ x) y (_, hs) = IsBytes-back x y hs

or-false : (a b : Bool) → (a || b) ≡ false → (a ≡ false) × (b ≡ false)
or-false true b h = cc
or-false false b h = (refl, h)

not-false : (a : Bool) → not a ≡ false → a ≡ true
not-false true h = refl
not-false false h = cc

some-injective : {A : Type 0} {a b : A} → some a ≡ some b → a ≡ b
some-injective h = cc

module _ (X : External) where
  -- A frame that is received is a signed frame at the front of what comes.
  record Arrived (s : TcpTransport) (c : Connection) (f : WireFrame) (t : TcpTransport)
      : Type 0 where
    rest : Bytes
    signed : Bytes
    written : write_frame X s.key f ≡ ok signed
    came : c.incoming ≡ signed ++ rest
    left : t ≡ record s { stream = some (record c { incoming = rest }) }

  receive_frame-Arrived :
      (s : TcpTransport) (c : Connection) {f : WireFrame} {t : TcpTransport}
      → s.stream ≡ some c
      → IsBytes c.incoming
      → receive_frame X s ≡ (ok f, t)
      → Arrived s c f t
  unfolding receive_frame stream
  receive_frame-Arrived s c {f} {t} opened bytes h =
      let (c', is, h) = after-lift-ok _ (ok_or _ s.stream) s h in
      let same : c' ≡ c = some-injective (sym (ok_or-eq-ok _ s.stream is) ∙ opened) in
      let (r, read, h) = after-lift-ok _ (read_frame X s.key c'.incoming) s h in
      let read : read_frame X s.key c.incoming ≡ ok (r.0, r.1) =
        subst (λ c. read_frame X s.key c.incoming ≡ ok r) same read in
      let (signed, written, came) = read_frame-written X s.key c.incoming bytes read in
      record {
        rest = r.1;
        signed = signed;
        written =
            subst (λ f. write_frame X s.key f ≡ ok signed) (ok-injective (ap (λ r. r.0) h)) written;
        came = came;
        left =
            sym (ap (λ r. r.1) h)
            ∙ ap (λ c. record s { stream = some (record c { incoming = r.1 }) }) same;
      }

  -- The header that comes first: a signed frame for the session, which repeats the digest of the
  -- request that was sent.
  record SignedHeader (s : TcpTransport) (c : Connection) (session : Bytes) (h : ResponseHeader)
      (rest : Bytes) : Type 0 where
    frame : WireFrame
    signed : Bytes
    written : write_frame X s.key frame ≡ ok signed
    came : c.incoming ≡ signed ++ rest
    type_is : is_type frame response_header ≡ true
    session_is : frame.session_digest ≡ session
    decoded : decode_response_header frame.payload ≡ ok h
    sent : s.request_digest ≡ some (hex h.request_digest)

  -- The body that follows: a signed frame for the session, of as many points as the header announces.
  record SignedBody (key : Bytes) (c : Connection) (session : Bytes) (h : ResponseHeader)
      (points : List X.Point) : Type 0 where
    frame : WireFrame
    signed : Bytes
    rest : Bytes
    written : write_frame X key frame ≡ ok signed
    came : c.incoming ≡ signed ++ rest
    type_is : is_type frame response_body ≡ true
    session_is : frame.session_digest ≡ session
    whole : length frame.payload ≡ h.outputs * point_bytes
    parsed : points_of X h.outputs frame.payload ≡ ok points

  receive_header-Signed :
      (session : Bytes) (s : TcpTransport) (c : Connection) {h : ResponseHeader} {t : TcpTransport}
      → s.stream ≡ some c
      → IsBytes c.incoming
      → receive_header X session s ≡ (ok h, t)
      → (rest : Bytes) × SignedHeader s c session h rest
        × (t.stream ≡ some (record c { incoming = rest }))
        × (t.key ≡ s.key)
  unfolding receive_header response_counted
  receive_header-Signed session s c {h} {t} opened bytes e =
      let (f, s1, received, e) = after-eq-ok _ (receive_frame X s) e in
      let a = receive_frame-Arrived s c opened bytes received in
      let (_, session_is, e) =
        after-lift-ok _ (reject_if (not (f.session_digest == session)) _) s1 e in
      let (_, _, e) = after-lift-ok _ (check_error X f) s1 e in
      let (_, type_is, e) = after-lift-ok _ (reject_if (not (is_type f response_header)) _) s1 e in
      let (h', decoded, e) =
        after-lift-ok _ (decode_response_header f.payload) (response_counted X f s1).1 e in
      let (_, sent, e) =
        after-lift-ok _ (reject_if (not (s.request_digest == some (hex h'.request_digest))) _)
          (response_counted X f s1).1 e in
      let same = ok-injective (ap (λ r. r.0) e) in
      let to = sym (ap (λ r. r.1) e) in
      (
        a.rest,
        record {
          frame = f;
          signed = a.signed;
          written = a.written;
          came = a.came;
          type_is = not-false (is_type f response_header) (reject_if-eq-ok _ _ type_is);
          session_is = not_eq-false f.session_digest session (reject_if-eq-ok _ _ session_is);
          decoded = decoded ∙ ap ok same;
          sent =
              not_eq-false s.request_digest (some (hex h'.request_digest))
                (reject_if-eq-ok _ _ sent)
              ∙ ap (λ h. some (hex h.request_digest)) same;
        },
        ap (λ t. t.stream) to ∙ ap (λ t. t.stream) a.left,
        ap (λ t. t.key) to ∙ ap (λ t. t.key) a.left,
      )

  receive_body-Signed :
      (session : Bytes) (h : ResponseHeader) (s : TcpTransport) (c : Connection)
      {points : List X.Point} {t : TcpTransport}
      → s.stream ≡ some c
      → IsBytes c.incoming
      → receive_body X session h s ≡ (ok points, t)
      → SignedBody s.key c session h points
  unfolding receive_body response_counted
  receive_body-Signed session h s c opened bytes e =
      let (f, s1, received, e) = after-eq-ok _ (receive_frame X s) e in
      let a = receive_frame-Arrived s c opened bytes received in
      let (_, kind, e) =
        after-lift-ok _
          (reject_if (not (is_type f response_body) || not (f.session_digest == session)) _) s1 e in
      let (_, lengths, e) =
        after-lift-ok _
          (reject_if
            (not (length f.payload == h.response_len)
              || not (length f.payload == h.outputs * point_bytes))
            _)
          s1 e in
      let (ps, parsed, e) = after-lift-ok _ (points_of X h.outputs f.payload) s1 e in
      let (type_is, session_is) =
        or-false (not (is_type f response_body)) (not (f.session_digest == session))
          (reject_if-eq-ok _ _ kind) in
      let (_, whole) =
        or-false (not (length f.payload == h.response_len))
          (not (length f.payload == h.outputs * point_bytes)) (reject_if-eq-ok _ _ lengths) in
      record {
        frame = f;
        signed = a.signed;
        rest = a.rest;
        written = a.written;
        came = a.came;
        type_is = not-false (is_type f response_body) type_is;
        session_is = not_eq-false f.session_digest session session_is;
        whole = not_eq-false (length f.payload) (h.outputs * point_bytes) whole;
        parsed = parsed ∙ ap (λ r. r.0) e;
      }

  -- What an answer stands on: a signed header and a signed body at the front of what comes in, both
  -- for the session of the transport.
  pub record Answered (s : TcpTransport) (c : Connection) (digest : Bytes) (points : List X.Point)
      : Type 0 where
    session : Bytes
    header : ResponseHeader
    rest : Bytes
    reserved : s.session_digest ≡ some session
    first : SignedHeader s c session header rest
    second : SignedBody s.key (record c { incoming = rest }) session header points
    digest_is : digest ≡ header.request_digest

  -- `receive_response` on a connection of bytes answers only from a header frame and a body frame at
  -- the front of what comes, each as `write_frame` gives it under the key of the transport; both are
  -- for the reserved session, the header repeats the digest of the request that was sent, and the
  -- points are those of the body.
  pub receive_response-Answered :
      (s t : TcpTransport) (c : Connection) (digest : Bytes) (points : List X.Point)
      → s.stream ≡ some c
      → IsBytes c.incoming
      → receive_response X s ≡ (ok (digest, points), t)
      → Answered s c digest points
  unfolding receive_response
  receive_response-Answered s t c digest points opened bytes e =
      let (session, reserved, e) = after-lift-ok _ (ok_or _ s.session_digest) s e in
      let (h, s1, headed, e) = after-eq-ok _ (receive_header X session s) e in
      let (rest, first, next, keyed) = receive_header-Signed session s c opened bytes headed in
      let (ps, s2, bodied, e) = after-eq-ok _ (receive_body X session h s1) e in
      let body =
        receive_body-Signed session h s1 (record c { incoming = rest }) next
          (IsBytes-back first.signed rest (subst IsBytes first.came bytes)) bodied in
      let answer = ok-injective (ap (λ r. r.0) e) in
      record {
        session = session;
        header = h;
        rest = rest;
        reserved = ok_or-eq-ok _ s.session_digest reserved;
        first = first;
        second =
            subst (λ key. SignedBody key (record c { incoming = rest }) session h points) keyed
              (subst (SignedBody s1.key (record c { incoming = rest }) session h)
                (ap (λ a. a.1) answer) body);
        digest_is = sym (ap (λ a. a.0) answer);
      }
