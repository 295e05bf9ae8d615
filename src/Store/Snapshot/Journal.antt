-- ===== src/Store/Snapshot/Journal.antt =====
-- The bytes of the journal, written and read (experiments/preprocessed-pbmo/src/token.rs).
use thinwallet.Prelude.{
  ◌≡◌, refl, sym, subst, ap, ◌∙◌, Option, none, some, bytes_eq, eq_refl, not_eq-false, arith,
}
use thinwallet.Prelude.Outcome.{ok, ok_or, bind-eq-ok, ok_or-eq-ok, ok-injective, reject_if-eq-ok}
use thinwallet.Prelude.Bytes.{Bytes}
use thinwallet.Token.{malformed, serialization, LifecycleSnapshot, AuthenticatedLifecycleSnapshot}
use thinwallet.External.{External, BincodeLaws}
use thinwallet.Store.Snapshot.{
  lifecycle_tag, validate_snapshot, parse_envelope, parse_journal, print_journal,
}
use thinwallet.Store.Snapshot.Valid.{IsValid, validate_snapshot_iff}

module _ (X : External) (key : Bytes) where
  -- What a snapshot's text consists of.
  pub record Printed (s : LifecycleSnapshot) (b : Bytes) : Type 0 where
    pub valid : validate_snapshot s ≡ ok tt
    pub snapshot_bytes : Bytes
    pub serialized : X.serialize_snapshot s ≡ some snapshot_bytes
    pub enveloped :
        X.serialize_envelope (record { snapshot = s; tag = lifecycle_tag X key snapshot_bytes })
        ≡ some b

  pub print_journal-Printed :
      (s : LifecycleSnapshot) (b : Bytes) → print_journal X key s ≡ ok b → Printed s b
  unfolding print_journal
  print_journal-Printed s b h =
      let (_, v, h) = bind-eq-ok _ _ h in
      let (bytes, e, h) = bind-eq-ok _ _ h in
      record {
        valid = v;
        snapshot_bytes = bytes;
        serialized = ok_or-eq-ok _ _ e;
        enveloped = ok_or-eq-ok _ _ h;
      }

  pub parse_journal-print :
      BincodeLaws X
      → (s : LifecycleSnapshot) (b : Bytes) → Printed s b
      → parse_journal X key (some b) ≡ ok s
  unfolding parse_journal parse_envelope
  parse_journal-print B s b p =
      rw (B.envelope_back _ b p.enveloped, p.enveloped, eq_refl, p.serialized, eq_refl, p.valid)

  envelope-Printed :
      (envelope : AuthenticatedLifecycleSnapshot) (b bytes : Bytes)
      → validate_snapshot envelope.snapshot ≡ ok tt
      → X.serialize_snapshot envelope.snapshot ≡ some bytes
      → lifecycle_tag X key bytes ≡ envelope.tag
      → X.serialize_envelope envelope ≡ some b
      → Printed envelope.snapshot b
  envelope-Printed envelope b bytes v serialized tagged written = record {
    valid = v;
    snapshot_bytes = bytes;
    serialized = serialized;
    enveloped =
        ap (λ (t : Bytes). X.serialize_envelope (record { snapshot = envelope.snapshot; tag = t }))
          tagged
        ∙ written;
  }

  parse_envelope-Printed :
      (b : Bytes) (s : LifecycleSnapshot) → parse_envelope X key b ≡ ok s → Printed s b
  unfolding parse_envelope
  parse_envelope-Printed b s h =
      let (envelope, e1, h) =
        bind-eq-ok
          (ok_or (malformed "unsupported or malformed lifecycle store") (X.deserialize_envelope b))
          _ h in
      let (canonical, e2, h) = bind-eq-ok _ _ h in
      let (_, e3, h) = bind-eq-ok _ _ h in
      let (bytes, e4, h) =
        bind-eq-ok (ok_or serialization (X.serialize_snapshot envelope.snapshot)) _ h in
      let (_, e5, h) = bind-eq-ok _ _ h in
      let (_, v, h) = bind-eq-ok (validate_snapshot envelope.snapshot) _ h in
      subst (λ x. Printed x b) (ok-injective h)
        (envelope-Printed envelope b bytes v (ok_or-eq-ok _ _ e4)
          (not_eq-false _ _ (reject_if-eq-ok _ _ e5))
          (ok_or-eq-ok _ _ e2 ∙ ap some (not_eq-false _ _ (reject_if-eq-ok _ _ e3))))

  -- A journal that is accepted was written from this snapshot under this key: nothing else that
  -- decodes is accepted.
  pub parse_journal-Printed :
      (b : Bytes) (s : LifecycleSnapshot) → parse_journal X key (some b) ≡ ok s → Printed s b
  unfolding parse_journal
  parse_journal-Printed b s h = parse_envelope-Printed b s h

  pub parse_journal-IsValid :
      (j : Option Bytes) (s : LifecycleSnapshot) → parse_journal X key j ≡ ok s → IsValid s
  unfolding parse_journal
  parse_journal-IsValid none s h =
      rw (sym (ok-injective h))
        (record { version = refl; few = omega arith; each = tt; ascending = tt; fresh = λ e. refl })
  parse_journal-IsValid (some b) s h =
      (validate_snapshot_iff s).0 (parse_journal-Printed b s h).valid
