-- ===== src/Wire/Frame/Written.antt =====
-- `read_frame` on what `write_frame` wrote (experiments/preprocessed-pbmo/src/transport.rs).
use thinwallet.Prelude.{
  ℕ, ◌++◌, ◌^◌, ◌%◌, ◌<◌, ◌≤◌, ◌≡◌, refl, sym, ap, subst, ◌∙◌, length, ltb, length-append,
  take-append, drop-append, append_assoc, bytes_eq, nat_eq, eq_refl, ltb-false, le→ltb-false, arith,
}
use thinwallet.Prelude.Outcome.{ok, reject_if, reject_if-eq-ok, bind-eq-ok, ok-injective}
use thinwallet.Prelude.Bytes.{Bytes, be_bytes, from_be, length-be_bytes, from_be-be_bytes}
use thinwallet.External.{External}
use thinwallet.Wire.{
  FrameType, WireFrame, frame_magic, frame_header_bytes, max_frame_payload, wire_protocol_version,
  frame_code, frame_type_of, request_header, masked_chunk, finish_request, response_header,
  response_body, error_frame, abort,
}
use thinwallet.Wire.Frame.{read_exact, tag_frame, write_frame, read_frame}
use thinwallet.Wire.Frame.Authentic.{join}

frame_type_of-code : (t : FrameType) → frame_type_of (frame_code t) ≡ ok t
unfolding frame_type_of frame_code nat_eq
frame_type_of-code request_header = refl
frame_type_of-code masked_chunk = refl
frame_type_of-code finish_request = refl
frame_type_of-code response_header = refl
frame_type_of-code response_body = refl
frame_type_of-code error_frame = refl
frame_type_of-code abort = refl

frame_code-small : (t : FrameType) → frame_code t < 256
unfolding frame_code
frame_code-small request_header = omega arith
frame_code-small masked_chunk = omega arith
frame_code-small finish_request = omega arith
frame_code-small response_header = omega arith
frame_code-small response_body = omega arith
frame_code-small error_frame = omega arith
frame_code-small abort = omega arith

read_exact-append :
    (n : ℕ) (x rest : Bytes) → length x ≡ n → read_exact n (x ++ rest) ≡ ok (x, rest)
unfolding read_exact
read_exact-append n x rest h =
    let long : n ≤ length (x ++ rest) = omega (arith, length-append x rest) in
    rw (le→ltb-false (length (x ++ rest)) n long, take-append n x rest h, drop-append n x rest h)
      refl

-- The fields of a header in their places.
record Widths (m v c z q l session tag : Bytes) : Type 0 where
  m8 : length m ≡ 8
  v2 : length v ≡ 2
  c1 : length c ≡ 1
  z1 : length z ≡ 1
  q4 : length q ≡ 4
  l4 : length l ≡ 4
  s32 : length session ≡ 32
  t32 : length tag ≡ 32

module _ (X : External) (key : Bytes) where
  read_fields :
      (f : WireFrame) (m v c z q l tag rest : Bytes)
      → Widths m v c z q l f.session_digest tag
      → m ≡ frame_magic
      → from_be v ≡ wire_protocol_version
      → from_be c ≡ frame_code f.frame_type
      → from_be z ≡ 0
      → from_be q ≡ f.sequence
      → from_be l ≡ length f.payload
      → length f.payload ≤ max_frame_payload
      → tag_frame X key f.frame_type f.sequence f.session_digest f.payload ≡ tag
      → read_frame X key (
          (m ++ (v ++ (c ++ (z ++ (q ++ (l ++ (f.session_digest ++ tag)))))))
          ++ (f.payload ++ rest))
        ≡ ok (f, rest)
  unfolding read_frame
  read_fields f m v c z q l tag rest w is_magic is_version is_code is_zero is_sequence is_length
        small tagged =
      let t = l ++ (f.session_digest ++ tag) in
      let whole : length (m ++ (v ++ (c ++ (z ++ (q ++ t))))) ≡ frame_header_bytes = omega (
        arith,
        w.m8,
        w.v2,
        w.c1,
        w.z1,
        w.q4,
        w.l4,
        w.s32,
        w.t32,
        length-append m (v ++ (c ++ (z ++ (q ++ t)))),
        length-append v (c ++ (z ++ (q ++ t))),
        length-append c (z ++ (q ++ t)),
        length-append z (q ++ t),
        length-append q t,
        length-append l (f.session_digest ++ tag),
        length-append f.session_digest tag,
      ) in
      rw
        (
          read_exact-append frame_header_bytes (m ++ (v ++ (c ++ (z ++ (q ++ t)))))
              (f.payload ++ rest) whole,
          take-append 8 m (v ++ (c ++ (z ++ (q ++ t)))) w.m8,
          drop-append 8 m (v ++ (c ++ (z ++ (q ++ t)))) w.m8,
          take-append 2 v (c ++ (z ++ (q ++ t))) w.v2,
          drop-append 2 v (c ++ (z ++ (q ++ t))) w.v2,
          take-append 1 c (z ++ (q ++ t)) w.c1,
          drop-append 1 c (z ++ (q ++ t)) w.c1,
          take-append 1 z (q ++ t) w.z1,
          drop-append 1 z (q ++ t) w.z1,
          take-append 4 q t w.q4,
          drop-append 4 q t w.q4,
          take-append 4 l (f.session_digest ++ tag) w.l4,
          drop-append 4 l (f.session_digest ++ tag) w.l4,
          take-append 32 f.session_digest tag w.s32,
          drop-append 32 f.session_digest tag w.s32,
          is_magic,
          is_version,
          is_code,
          is_zero,
          is_sequence,
          is_length,
          eq_refl frame_magic,
          eq_refl wire_protocol_version,
          frame_type_of-code f.frame_type,
          le→ltb-false max_frame_payload (length f.payload) small,
          read_exact-append (length f.payload) f.payload rest refl,
          tagged,
          eq_refl tag,
          eq_refl {A = ℕ} 0,
        )
        refl

  length-tag_frame :
      (t : FrameType) (n : ℕ) (session payload : Bytes)
      → ((k x : Bytes) → length (X.hmac_sha256 k x) ≡ 32)
      → length (tag_frame X key t n session payload) ≡ 32
  unfolding tag_frame
  length-tag_frame t n session payload tags = tags key _

  -- `read_frame` reads back what `write_frame` wrote, and leaves what follows it, when the frame's
  -- sequence is a u32, its session digest has 32 bytes, and HMAC gives tags of 32 bytes.
  pub read_frame-write :
      (f : WireFrame) (rest : Bytes) {b : Bytes}
      → ((k x : Bytes) → length (X.hmac_sha256 k x) ≡ 32)
      → f.sequence < 2 ^ 32
      → length f.session_digest ≡ 32
      → write_frame X key f ≡ ok b
      → read_frame X key (b ++ rest) ≡ ok (f, rest)
  unfolding write_frame
  read_frame-write f rest {b} tags sequence session e =
      let (_, fits, e) = bind-eq-ok (reject_if (ltb max_frame_payload (length f.payload)) _) _ e in
      let small = ltb-false max_frame_payload (length f.payload) (reject_if-eq-ok _ _ fits) in
      let within : length f.payload % 2 ^ 32 ≡ length f.payload = omega (arith, small) in
      let tag = tag_frame X key f.frame_type f.sequence f.session_digest f.payload in
      let v = be_bytes 2 wire_protocol_version in
      let c = be_bytes 1 (frame_code f.frame_type) in
      let z = be_bytes 1 0 in
      let q = be_bytes 4 f.sequence in
      let l = be_bytes 4 (length f.payload % 2 ^ 32) in
      let header = frame_magic ++ (v ++ (c ++ (z ++ (q ++ (l ++ (f.session_digest ++ tag)))))) in
      let is : b ≡ header ++ f.payload =
        sym (ok-injective e) ∙ join frame_magic v c z q l f.session_digest tag f.payload in
      subst (λ s. read_frame X key s ≡ ok (f, rest))
        (sym (append_assoc header f.payload rest) ∙ ap (λ b. b ++ rest) (sym is))
        (read_fields f frame_magic v c z q l tag rest
          (record {
            m8 = refl;
            v2 = length-be_bytes 2 wire_protocol_version;
            c1 = length-be_bytes 1 (frame_code f.frame_type);
            z1 = length-be_bytes 1 0;
            q4 = length-be_bytes 4 f.sequence;
            l4 = length-be_bytes 4 (length f.payload % 2 ^ 32);
            s32 = session;
            t32 = length-tag_frame f.frame_type f.sequence f.session_digest f.payload tags;
          })
          refl (from_be-be_bytes 2 wire_protocol_version (omega arith))
          (from_be-be_bytes 1 (frame_code f.frame_type)
            (omega (arith, frame_code-small f.frame_type)))
          (from_be-be_bytes 1 0 (omega arith))
          (from_be-be_bytes 4 f.sequence (omega (arith, sequence)))
          (from_be-be_bytes 4 (length f.payload % 2 ^ 32) (omega (arith, small)) ∙ within) small
          refl)
