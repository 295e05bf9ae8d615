-- ===== src/Token/Codec/RoundTrip.antt =====
-- A token file, written and read (experiments/preprocessed-pbmo/src/token.rs).
use thinwallet.Prelude.{
  ◌+◌, ◌^◌, ◌<◌, ◌≤◌, ◌≡◌, refl, sym, ap, ◌∙◌, none, some, List, [], ◌∷◌, ◌++◌, append_assoc,
  append-nil, map, length, length-map, length-append, take, arith, ltb-false, eq_refl, nat_eq,
  bytes_eq, le→ltb-false,
}
use thinwallet.Prelude.Outcome.{ok, bind-eq-ok, ok-injective, ok_or-eq-ok, reject_if-eq-ok}
use thinwallet.Prelude.Bytes.{Bytes, le_bytes}
use thinwallet.Token.{Token, TokenHeader, magic, max_metadata, max_points, protocol_version}
use thinwallet.External.{External, BincodeLaws, CipherLaws}
use thinwallet.Token.Codec.{
  KeyProvider, aad, concat, header, encode, decode, read_points, open_token,
}
use thinwallet.Token.Codec.Reader.{
  Cursor, start, At, advance, take_bytes-At, advance-At, u32-At, advance-u32, start-At, take-At,
  position-At,
}

-- A correction point for each row, as `generate` makes them, a seed of its type, and no more points
-- than `decode` allows; neither `generate` nor `encode` bounds them.
pub record IsEncodable (X : External) (t : Token X.Point) : Type 0 where
  pub counted : t.binding.q ≡ length t.correction_points
  pub few : length t.correction_points ≤ max_points
  pub seed_length : length t.seed ≡ 32

module _ (X : External) (B : BincodeLaws X) (C : CipherLaws X) where
  -- What a successful `encode` has computed.
  record Encoded (keys : KeyProvider) (nonce : Bytes) (t : Token X.Point) (b : Bytes) : Type 0 where
    header_bytes : Bytes
    key : Bytes
    ciphertext : Bytes
    serialized : X.serialize_header (header X t) ≡ some header_bytes
    small : length header_bytes ≤ max_metadata
    keyed : keys t.key_id ≡ ok key
    sealed :
        X.aead_encrypt key nonce (aad header_bytes (map X.compress t.correction_points)) t.seed
        ≡ some ciphertext
    written :
        b
        ≡ aad header_bytes (map X.compress t.correction_points)
          ++ (nonce ++ (le_bytes 4 (length ciphertext) ++ ciphertext))

  encode-Encoded :
      (keys : KeyProvider) (nonce : Bytes) (t : Token X.Point) (b : Bytes)
      → encode X keys nonce t ≡ ok b
      → Encoded keys nonce t b
  unfolding encode
  encode-Encoded keys nonce t b h =
      let (hb, e1, h) = bind-eq-ok _ _ h in
      let (_, e2, h) = bind-eq-ok _ _ h in
      let (key, e3, h) = bind-eq-ok _ _ h in
      let (ct, e4, h) = bind-eq-ok _ _ h in
      record {
        header_bytes = hb;
        key = key;
        ciphertext = ct;
        serialized = ok_or-eq-ok _ _ e1;
        small = ltb-false _ _ (reject_if-eq-ok _ _ e2);
        keyed = e3;
        sealed = ok_or-eq-ok _ _ e4;
        written = sym (ok-injective h);
      }

  read_points-concat :
      (ps : List X.Point) (c : Cursor) (rest : Bytes)
      → At c (concat (map X.compress ps) ++ rest)
      → (c' : Cursor) × (read_points X (length ps) c ≡ ok (map X.compress ps, ps, c'))
        × At c' rest
        × (c'.bytes ≡ c.bytes)
  unfolding read_points concat
  read_points-concat [] c rest at = (c, refl, at, refl)
  read_points-concat (p ∷ ps) c rest at =
      let raw = X.compress p in
      let more = concat (map X.compress ps) ++ rest in
      let at' : At c (raw ++ more) = rw append_assoc at at in
      let (c', e, after, same) =
        read_points-concat ps (advance 32 c) rest
          (advance-At 32 c raw more at' (C.compress_length p)) in
      (
        c',
        rw (take_bytes-At 32 c raw more at' (C.compress_length p), C.decompress_back p, e) refl,
        after,
        same,
      )

  -- `decode` on the layout that `encode` writes, whatever its parts hold.
  module _ (keys : KeyProvider) (h : TokenHeader) (hb : Bytes) (ps : List X.Point)
      (nonce ct : Bytes) (hb_small : length hb ≤ max_metadata)
      (hb_back : X.deserialize_header hb ≡ some h) (version : h.protocol_version ≡ protocol_version)
      (few : length ps ≤ max_points) (counted : length ps ≡ h.binding.q)
      (nonce_length : length nonce ≡ 24) (ct_small : length ct < 2 ^ 32) where
    abbrev after_count : Bytes
    after_count = concat (map X.compress ps) ++ (nonce ++ (le_bytes 4 (length ct) ++ ct))

    abbrev after_length : Bytes
    after_length = hb ++ (le_bytes 4 (length ps) ++ after_count)

    abbrev layout : Bytes
    layout = aad hb (map X.compress ps) ++ (nonce ++ (le_bytes 4 (length ct) ++ ct))

    layout_parts : layout ≡ magic ++ (le_bytes 4 (length hb) ++ after_length)
    unfolding aad
    layout_parts = simp (append_assoc, length-map)

    decode-layout :
        (b : Bytes)
        → b ≡ layout
        → length b < 2 ^ 64
        → decode X keys b ≡ open_token X keys h ps (aad hb (map X.compress ps)) nonce ct
    unfolding decode
    decode-layout b whole short =
        let at0 = start-At b _ (whole ∙ layout_parts) short in
        let at1 = advance-At 8 (start b) magic _ at0 refl in
        let hb_fits : length hb < 2 ^ 32 = omega arith in
        let at2 = advance-u32 (length hb) (advance 8 (start b)) after_length hb_fits at1 in
        let at3 = advance-At (length hb) _ hb _ at2 refl in
        let ps_fit : length ps < 2 ^ 32 = omega arith in
        let at4 = advance-u32 (length ps) _ after_count ps_fit at3 in
        let (c5, e5, at5, same) = read_points-concat ps _ _ at4 in
        let at6 = advance-At 24 c5 nonce _ at5 nonce_length in
        let at7 = advance-u32 (length ct) _ ct ct_small at6 in
        let at8 =
          advance-At (length ct) (advance 4 (advance 24 c5)) ct [] (rw append-nil at7) refl in
        let whole5 : c5.bytes
            ≡ aad hb (map X.compress ps) ++ (nonce ++ (le_bytes 4 (length ct) ++ ct)) =
          same ∙ whole in
        let ended : c5.position + 24 + 4 + length ct ≡ length b =
          position-At (advance (length ct) (advance 4 (advance 24 c5))) at8 ∙ ap length same in
        let front : take c5.position b ≡ aad hb (map X.compress ps) =
          ap (λ (t : Bytes). take c5.position t) (sym same)
          ∙ take-At c5 (aad hb (map X.compress ps)) _ at5 whole5 in
        rw
          (
            take_bytes-At 8 (start b) magic _ at0 refl,
            eq_refl,
            u32-At (length hb) _ after_length hb_fits at1,
            le→ltb-false max_metadata (length hb) hb_small,
            take_bytes-At (length hb) _ hb _ at2 refl,
            hb_back,
            version,
            eq_refl,
            u32-At (length ps) _ after_count ps_fit at3,
            le→ltb-false max_points (length ps) few,
            ← counted,
            eq_refl,
            e5,
            take_bytes-At 24 c5 nonce _ at5 nonce_length,
            u32-At (length ct) _ ct ct_small at6,
            take_bytes-At (length ct) (advance 4 (advance 24 c5)) ct [] (rw append-nil at7) refl,
            ended,
            eq_refl,
            front,
            eq_refl,
          )
          refl

  -- A token file of less than 4 GiB that `encode` wrote with a 24-byte nonce, of a token that
  -- `IsEncodable` allows, is read by `decode`
  -- under the same keys, and gives the token with its header, points and seed; only the two fields
  -- that the file does not hold, the reservation and the record generation, are reset.
  pub decode-encode :
      (keys : KeyProvider) (nonce : Bytes) (t : Token X.Point) (b : Bytes)
      → IsEncodable X t
      → length nonce ≡ 24
      → encode X keys nonce t ≡ ok b
      → length b < 2 ^ 32
      → decode X keys b ≡ ok (record t { reservation_binding = none; record_generation = 0 })
  unfolding open_token header
  decode-encode keys nonce t b good n h short =
      let e = encode-Encoded keys nonce t b h in
      let a = aad e.header_bytes (map X.compress t.correction_points) in
      let tail = le_bytes 4 (length e.ciphertext) ++ e.ciphertext in
      let ct_small : length e.ciphertext < 2 ^ 32 = omega (
        arith,
        ap length e.written,
        length-append a (nonce ++ tail),
        length-append nonce tail,
        length-append (le_bytes 4 (length e.ciphertext)) e.ciphertext,
      ) in
      decode-layout keys (header X t) e.header_bytes t.correction_points nonce e.ciphertext e.small
        (B.header_back (header X t) e.header_bytes e.serialized) refl good.few (sym good.counted) n
        ct_small b e.written (omega arith)
      ∙ rw
          (
            e.keyed,
            C.decrypt_back e.key nonce a t.seed e.ciphertext e.sealed,
            good.seed_length,
            eq_refl,
          )
          refl
