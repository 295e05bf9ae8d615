-- ===== src/Wire/Frame/Authentic.antt =====
-- Which streams `read_frame` accepts (experiments/preprocessed-pbmo/src/transport.rs).
use thinwallet.Prelude.{
  ℕ, zero, suc, [], ◌∷◌, ◌%◌, ◌^◌, ◌≡◌, sym, ap, subst, ◌∙◌, ◌≤◌, ◌++◌, not, length, take, drop,
  ltb, ◌==◌, nat_eq, bytes_eq, not_eq-false, arith, append-nil, append_assoc, length-take,
  length-drop, take-append-drop, ltb-false, le→ltb-false,
}
use thinwallet.Prelude.Outcome.{ok, reject_if, bind-eq-ok, reject_if-eq-ok, ok-injective}
use thinwallet.Prelude.Bytes.{Bytes, IsBytes, be_bytes, from_be, be_bytes-from_be}
use thinwallet.External.{External}
use thinwallet.Token.Codec.{concat}
use thinwallet.Wire.{
  FrameType, WireFrame, frame_magic, frame_header_bytes, max_frame_payload, wire_protocol_version,
  frame_code, frame_type_of,
}
use thinwallet.Wire.Frame.{read_exact, tag_frame, write_frame, read_frame}

frame_code-of : (v : ℕ) {t : FrameType} → frame_type_of v ≡ ok t → frame_code t ≡ v
unfolding frame_type_of frame_code
frame_code-of v h = ground arith

read_exact-ok :
    (n : ℕ) (s : Bytes) {x rest : Bytes}
    → read_exact n s ≡ ok (x, rest)
    → (s ≡ x ++ rest) × (length x ≡ n)
unfolding read_exact
read_exact-ok n s {x} {rest} h =
    let (_, fits, h) = bind-eq-ok (reject_if (ltb (length s) n) _) _ h in
    let same = ok-injective h in
    let long : n ≤ length s = ground (arith, reject_if-eq-ok _ _ fits) in
    let front : take n s ≡ x = ap (λ p. p.0) same in
    let back : drop n s ≡ rest = ap (λ p. p.1) same in
    (
      sym (take-append-drop n s) ∙ ap (λ t. t ++ drop n s) front ∙ ap (λ t. x ++ t) back,
      ap length (sym front) ∙ length-take n s long,
    )

IsBytes-take : (n : ℕ) (s : Bytes) → IsBytes s → IsBytes (take n s)
IsBytes-take zero s h = tt
IsBytes-take (suc n) [] h = tt
IsBytes-take (suc n) (b ∷ s) (h, hs) = (h, IsBytes-take n s hs)

IsBytes-drop : (n : ℕ) (s : Bytes) → IsBytes s → IsBytes (drop n s)
IsBytes-drop zero s h = h
IsBytes-drop (suc n) [] h = tt
IsBytes-drop (suc n) (b ∷ s) (h, hs) = IsBytes-drop n s hs

IsBytes-front : (x y : Bytes) → IsBytes (x ++ y) → IsBytes x
IsBytes-front [] y h = tt
IsBytes-front (b ∷ x) y (h, hs) = (h, IsBytes-front x y hs)

-- A field of `w` bytes at the front, and what follows it.
field :
    (w : ℕ) (s : Bytes) → w ≤ length s → IsBytes s → be_bytes w (from_be (take w s)) ++ drop w s ≡ s
field w s long h =
    ap (λ t. t ++ drop w s)
      (be_bytes-from_be w (take w s) (length-take w s long) (IsBytes-take w s h))
    ∙ take-append-drop w s

pub join :
    (a b c d e f g h p : Bytes)
    → concat (a ∷ b ∷ c ∷ d ∷ e ∷ f ∷ g ∷ h ∷ p ∷ [])
      ≡ (a ++ (b ++ (c ++ (d ++ (e ++ (f ++ (g ++ h))))))) ++ p
unfolding concat
join a b c d e f g h p = simp (append_assoc, append-nil)

-- The header is its fields, in their order.
header_fields :
    (header : Bytes)
    → length header ≡ 84
    → IsBytes header
    → let h8 = drop 8 header in
      let h10 = drop 2 h8 in
      let h11 = drop 1 h10 in
      let h12 = drop 1 h11 in
      let h16 = drop 4 h12 in
      let h20 = drop 4 h16 in
      take 8 header
        ++ (be_bytes 2 (from_be (take 2 h8))
            ++ (be_bytes 1 (from_be (take 1 h10))
                ++ (be_bytes 1 (from_be (take 1 h11))
                    ++ (be_bytes 4 (from_be (take 4 h12))
                        ++ (be_bytes 4 (from_be (take 4 h16)) ++ (take 32 h20 ++ drop 32 h20))))))
      ≡ header
header_fields header long bytes =
    let h8 = drop 8 header in
    let h10 = drop 2 h8 in
    let h11 = drop 1 h10 in
    let h12 = drop 1 h11 in
    let h16 = drop 4 h12 in
    let h20 = drop 4 h16 in
    let n8 : length h8 ≡ 76 = omega (arith, length-drop 8 header) in
    let n10 : length h10 ≡ 74 = omega (arith, length-drop 2 h8) in
    let n11 : length h11 ≡ 73 = omega (arith, length-drop 1 h10) in
    let n12 : length h12 ≡ 72 = omega (arith, length-drop 1 h11) in
    let n16 : length h16 ≡ 68 = omega (arith, length-drop 4 h12) in
    let y8 = IsBytes-drop 8 header bytes in
    let y10 = IsBytes-drop 2 h8 y8 in
    let y11 = IsBytes-drop 1 h10 y10 in
    let y12 = IsBytes-drop 1 h11 y11 in
    let y16 = IsBytes-drop 4 h12 y12 in
    rw
      (
        take-append-drop 32 h20,
        field 4 h16 (omega arith) y16,
        field 4 h12 (omega arith) y12,
        field 1 h11 (omega arith) y11,
        field 1 h10 (omega arith) y10,
        field 2 h8 (omega arith) y8,
      )
      (take-append-drop 8 header)

module _ (X : External) (key : Bytes) where
  -- A header with these fields, before the payload, is what `write_frame` writes.
  fields_written :
      (f : WireFrame) (v c z l : ℕ) (magic tag : Bytes)
      → magic ≡ frame_magic
      → v ≡ wire_protocol_version
      → c ≡ frame_code f.frame_type
      → z ≡ 0
      → l ≤ max_frame_payload
      → l ≡ length f.payload
      → tag_frame X key f.frame_type f.sequence f.session_digest f.payload ≡ tag
      → write_frame X key f
        ≡ ok (
            (magic
              ++ (be_bytes 2 v
                  ++ (be_bytes 1 c
                      ++ (be_bytes 1 z
                          ++ (be_bytes 4 f.sequence
                              ++ (be_bytes 4 l ++ (f.session_digest ++ tag)))))))
            ++ f.payload)
  unfolding write_frame
  fields_written f v c z l magic tag is_magic is_version is_code is_zero small long tagged =
      let within : length f.payload ≤ max_frame_payload = omega (arith, small, long) in
      let n : length f.payload % 2 ^ 32 ≡ length f.payload = omega (arith, small, long) in
      rw
        (
          le→ltb-false max_frame_payload (length f.payload) within,
          n,
          is_magic,
          is_version,
          is_code,
          is_zero,
          long,
          tagged,
        )
        (ap ok (
          join frame_magic (be_bytes 2 wire_protocol_version) (be_bytes 1 (frame_code f.frame_type))
            (be_bytes 1 0) (be_bytes 4 f.sequence) (be_bytes 4 (length f.payload)) f.session_digest
            tag f.payload))

  -- `read_frame` accepts only what `write_frame` writes under the same key: the stream starts with
  -- the bytes that `write_frame` gives for the frame, and goes on with what is left.
  pub read_frame-written :
      (stream : Bytes) {f : WireFrame} {rest : Bytes}
      → IsBytes stream
      → read_frame X key stream ≡ ok (f, rest)
      → (b : Bytes) × (write_frame X key f ≡ ok b) × (stream ≡ b ++ rest)
  unfolding read_frame
  read_frame-written stream {f} {rest} bytes e =
      let ((header, stream1), e1, e) = bind-eq-ok (read_exact frame_header_bytes stream) _ e in
      let h8 = drop 8 header in
      let h10 = drop 2 h8 in
      let h11 = drop 1 h10 in
      let h12 = drop 1 h11 in
      let h16 = drop 4 h12 in
      let h20 = drop 4 h16 in
      let (_, magic, e) = bind-eq-ok (reject_if (not (take 8 header == frame_magic)) _) _ e in
      let (_, version, e) =
        bind-eq-ok (reject_if (not (from_be (take 2 h8) == wire_protocol_version)) _) _ e in
      let (t, code, e) = bind-eq-ok (frame_type_of (from_be (take 1 h10))) _ e in
      let (_, flags, e) = bind-eq-ok (reject_if (not (from_be (take 1 h11) == 0)) _) _ e in
      let (_, small, e) =
        bind-eq-ok (reject_if (ltb max_frame_payload (from_be (take 4 h16))) _) _ e in
      let ((payload, stream2), e2, e) =
        bind-eq-ok (read_exact (from_be (take 4 h16)) stream1) _ e in
      let (_, tag, e) =
        bind-eq-ok
          (reject_if
            (not (tag_frame X key t (from_be (take 4 h12)) (take 32 h20) payload == drop 32 h20)) _)
          _ e in
      let (s1, n1) = read_exact-ok frame_header_bytes stream e1 in
      let (s2, n2) = read_exact-ok (from_be (take 4 h16)) stream1 e2 in
      let result = ok-injective e in
      read header stream1 t payload stream2 s1 n1 s2
        (header_fields header n1 (IsBytes-front header stream1 (subst IsBytes s1 bytes)))
        (fields_written
          (record {
            frame_type = t;
            sequence = from_be (take 4 h12);
            session_digest = take 32 h20;
            payload = payload;
          })
          (from_be (take 2 h8)) (from_be (take 1 h10)) (from_be (take 1 h11)) (from_be (take 4 h16))
          (take 8 header) (drop 32 h20)
          (not_eq-false (take 8 header) frame_magic (reject_if-eq-ok _ _ magic))
          (not_eq-false (from_be (take 2 h8)) wire_protocol_version (reject_if-eq-ok _ _ version))
          (sym (frame_code-of (from_be (take 1 h10)) code))
          (not_eq-false (from_be (take 1 h11)) 0 (reject_if-eq-ok _ _ flags))
          (ltb-false max_frame_payload (from_be (take 4 h16)) (reject_if-eq-ok _ _ small)) (sym n2)
          (not_eq-false (tag_frame X key t (from_be (take 4 h12)) (take 32 h20) payload)
            (drop 32 h20) (reject_if-eq-ok _ _ tag)))
        (ap (λ p. p.0) result) (ap (λ p. p.1) result)
    where
      read :
          (header stream1 : Bytes) (t : FrameType) (payload stream2 : Bytes)
          → stream ≡ header ++ stream1
          → length header ≡ 84
          → stream1 ≡ payload ++ stream2
          → {fields : Bytes} {g : WireFrame} → fields ≡ header
          → write_frame X key g ≡ ok (fields ++ payload)
          → g ≡ f
          → stream2 ≡ rest
          → (b : Bytes) × (write_frame X key f ≡ ok b) × (stream ≡ b ++ rest)
      read header stream1 t payload stream2 s1 n1 s2 fields written same back = (
        header ++ payload,
        subst (λ x. write_frame X key x ≡ ok (header ++ payload)) same
            (written ∙ ap (λ b. ok (b ++ payload)) fields),
        s1
            ∙ ap (λ x. header ++ x) (s2 ∙ ap (λ x. payload ++ x) back)
            ∙ sym (append_assoc header payload rest),
      )
