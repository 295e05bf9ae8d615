-- ===== src/Tests/CodecRuns.antt =====
-- A token that is written and read, and snapshots that are checked.
use thinwallet.Prelude.{◌≡◌, ◌↔◌, refl, none, [], ◌∷◌, replicate, length, arith}
use thinwallet.Prelude.Outcome.{Result, ok, err}
use thinwallet.Prelude.Bytes.{Bytes, text}
use thinwallet.Token.{LifecycleSnapshot, LifecycleRecord, reserved}
use thinwallet.Token.Codec.{encode, decode}
use thinwallet.Token.Codec.RoundTrip.{IsEncodable, decode-encode}
use thinwallet.Store.Snapshot.{validate_snapshot, recovered}
use thinwallet.Store.Snapshot.Valid.{IsValid, validate_snapshot_iff}
use thinwallet.Store.Lifecycle.{recovers, Reaches, here, next}
use thinwallet.Store.Lifecycle.Order.{Persists, Reaches-Persists}
use thinwallet.Tests.Toy.{toy, toy-BincodeLaws, toy-CipherLaws}
use thinwallet.Tests.StoreRuns.{config, toy_token, nonce, id, store_code}

abbrev bytes_or : {E : Type 0} → Result E Bytes → Bytes
bytes_or (ok b) = b
bytes_or (err e) = []

encoded_token : Bytes
unfolding store_code
encoded_token = bytes_or (encode toy config.keys nonce toy_token)

encode_succeeds : encode toy config.keys nonce toy_token ≡ ok encoded_token
unfolding encoded_token
encode_succeeds = refl

encoded_length : length encoded_token ≡ 240
unfolding encoded_token
encoded_length = refl

toy_token-IsEncodable : IsEncodable toy toy_token
toy_token-IsEncodable = record { counted = refl; few = omega arith; seed_length = refl }

decode-encode_example :
    decode toy config.keys encoded_token
    ≡ ok (record toy_token { reservation_binding = none; record_generation = 0 })
decode-encode_example =
    decode-encode toy toy-BincodeLaws toy-CipherLaws config.keys nonce toy_token encoded_token
      toy_token-IsEncodable refl encode_succeeds (omega (arith, encoded_length))

abbrev some_record : LifecycleRecord
some_record = record {
  format_version = 3;
  store_generation = 2;
  tid = id;
  ctx_digest = replicate 32 1;
  state = reserved;
  sid = text "s";
  iid = text "i";
  request_digest = replicate 32 8;
}

abbrev some_snapshot : LifecycleSnapshot
some_snapshot = record { format_version = 3; store_generation = 2; records = some_record ∷ [] }

validate_snapshot_iff_example : (validate_snapshot some_snapshot ≡ ok tt) ↔ IsValid some_snapshot
validate_snapshot_iff_example = validate_snapshot_iff some_snapshot

restarted : Reaches some_snapshot (recovered 3 some_snapshot)
unfolding store_code
restarted =
    next here
      (recovers (record { generation = 3; next = refl; some_reserved = refl; after = refl }))

Reaches-Persists_example : Persists id some_snapshot (recovered 3 some_snapshot)
Reaches-Persists_example = Reaches-Persists id restarted
