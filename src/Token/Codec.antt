-- ===== src/Token/Codec.antt =====
-- `Cursor`, `Token::aad`, `encode` and `decode` of experiments/preprocessed-pbmo/src/token.rs.
pub mod Reader
pub mod RoundTrip
use thinwallet.Prelude.{
  ℕ, zero, suc, ◌+◌, ◌^◌, ◌≡◌, Bool, not, ◌||◌, Option, none, some, List, [], ◌∷◌, ◌++◌, map,
  length, take, ltb, ◌==◌, nat_eq, bytes_eq,
}
use thinwallet.Prelude.Outcome.{Result, ok, err, ◌>>=◌, ◌>>◌, reject_if, ok_or}
use thinwallet.Prelude.Bytes.{Bytes, le_bytes}
use thinwallet.Token.{
  Token, TokenHeader, TokenError, serialization, authentication, malformed, binding_mismatch, magic,
  max_metadata, max_points, protocol_version,
}
use thinwallet.External.{External}
use thinwallet.Token.Codec.Reader.{Cursor, start, take_bytes, u32}

-- `TokenStoreKeyProvider::key`
abbrev pub KeyProvider : Type 0
KeyProvider = Bytes → Result TokenError Bytes

pub record SoftwareTokenStoreKeyProvider : Type 0 where
  pub key_id : Bytes
  pub key : Bytes

unfoldable pub software_key : SoftwareTokenStoreKeyProvider → KeyProvider
software_key p key_id = do reject_if (not (key_id == p.key_id)) authentication; ok p.key

unfoldable pub concat : List Bytes → Bytes
concat [] = []
concat (b ∷ bs) = b ++ concat bs

-- `Token::aad`
unfoldable pub aad : Bytes → List Bytes → Bytes
aad header_bytes point_bytes =
    magic
    ++ (le_bytes 4 (length header_bytes)
        ++ (header_bytes ++ (le_bytes 4 (length point_bytes) ++ concat point_bytes)))

module _ (X : External) where
  -- `Token::header`
  unfoldable pub header : Token X.Point → TokenHeader
  header t = record {
    protocol_version = protocol_version;
    token_id = t.token_id;
    binding = t.binding;
    creation_epoch = t.creation_epoch;
    state = t.state;
    journal_reference = t.journal_reference;
    key_id = t.key_id;
  }

  -- `Token::encode`; the nonce is what the generator gives.
  unfoldable pub encode : KeyProvider → Bytes → Token X.Point → Result TokenError Bytes
  unfolding header
  encode keys nonce t = do
    header_bytes ← ok_or serialization (X.serialize_header (header t))
    reject_if (ltb max_metadata (length header_bytes)) (malformed "metadata too large")
    let a = aad header_bytes (map X.compress t.correction_points)
    key ← keys t.key_id
    ciphertext ← ok_or authentication (X.aead_encrypt key nonce a t.seed)
    ok (a ++ (nonce ++ (le_bytes 4 (length ciphertext) ++ ciphertext)))

  -- The loop over the points: their bytes, the points, and the cursor behind them.
  unfoldable pub read_points : ℕ → Cursor → Result TokenError (List Bytes × List X.Point × Cursor)
  read_points zero c = ok ([], [], c)
  read_points (suc n) c = do
    (raw, c) ← take_bytes 32 c
    point ← ok_or (malformed "non-canonical Ristretto point") (X.decompress raw)
    (raws, points, c) ← read_points n c
    ok (raw ∷ raws, point ∷ points, c)

  -- The end of `decode`, once the text is parsed: the seed is opened and the token built.
  unfoldable pub open_token :
      KeyProvider
      → TokenHeader
      → List X.Point
      → Bytes
      → Bytes
      → Bytes
      → Result TokenError (Token X.Point)
  open_token keys h points a nonce ciphertext = do
    key ← keys h.key_id
    plaintext ← ok_or authentication (X.aead_decrypt key nonce a ciphertext)
    reject_if (not (length plaintext == 32)) (malformed "seed length")
    ok (record {
      token_id = h.token_id;
      binding = h.binding;
      creation_epoch = h.creation_epoch;
      state = h.state;
      journal_reference = h.journal_reference;
      correction_points = points;
      seed = plaintext;
      key_id = h.key_id;
      reservation_binding = none;
      record_generation = 0;
    })

  -- `Token::decode`
  unfoldable pub decode : KeyProvider → Bytes → Result TokenError (Token X.Point)
  unfolding read_points open_token
  decode keys bytes = do
    (m, c) ← take_bytes 8 (start bytes)
    reject_if (not (m == magic)) (malformed "bad magic")
    (header_len, c) ← u32 c
    reject_if (ltb max_metadata header_len) (malformed "metadata too large")
    (header_bytes, c) ← take_bytes header_len c
    h ← ok_or serialization (X.deserialize_header header_bytes)
    reject_if (not (h.protocol_version == protocol_version)) (binding_mismatch "protocol version")
    (point_count, c) ← u32 c
    reject_if (ltb max_points point_count || not (point_count == h.binding.q))
        (malformed "wrong point count")
    (point_bytes, points, c) ← read_points point_count c
    let aad_end = c.position
    (nonce, c) ← take_bytes 24 c
    (ciphertext_len, c) ← u32 c
    (ciphertext, c) ← take_bytes ciphertext_len c
    reject_if (not (c.position == length bytes)) (malformed "trailing data")
    let a = take aad_end bytes
    reject_if (not (a == aad header_bytes point_bytes)) (malformed "non-canonical encoding")
    open_token keys h points a nonce ciphertext
