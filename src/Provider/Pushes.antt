-- ===== src/Provider/Pushes.antt =====
-- What `push_chunk` of experiments/preprocessed-pbmo/src/provider.rs does to a session without a
-- transport.
use thinwallet.Prelude.{
  List, [], ◌-◌, ◌≡◌, refl, sym, ap, ◌∙◌, take, drop, set, map, Bool, true, false, nat_eq, bytes_eq,
  if◌then◌else◌, Option, none, some,
}
use thinwallet.Prelude.Outcome.{Result, ok, reject_if, ok_or, reject_if-eq-ok}
use thinwallet.Prelude.Action.{after-eq-ok, after-lift-ok, pure}
use thinwallet.Prelude.Bytes.{Bytes}
use thinwallet.External.{External}
use thinwallet.Provider.{
  PbmoError, PbmoTransport, SessionMode, is_native, on_transport, context_binding_digest, Session,
}
use thinwallet.Provider.Stream.{
  Push, out_of_order, wire_scalars, add_at, append_spool, spool_chunk, check_frame, add_locally,
  deliver, masked_counted, spool_counted, chunk_counted, push_chunk,
}

module _ (X : External) (T : PbmoTransport X.Point) where
  open X use {Point, Scalar}

  -- A session apart from its counts.
  abbrev pub uncounted : Session X T → Session X T
  uncounted s = record s {
    metrics = record {
      chunks = 0;
      upload_bytes = 0;
      client_mask_field_ops = 0;
      server_group_terms = 0;
      working_scalar_peak = 0;
      spool_bytes_written = 0;
    };
  }

  abbrev pub local_product : Push Scalar → Session X T → Point
  local_product p s =
      X.msm (wire_scalars X s.mode p.row p.col_start p.scalars)
        (take (p.col_end - p.col_start) (drop p.col_start s.bases))

  -- The session after a chunk was added here.
  unfoldable pub pushed : Push Scalar → Session X T → Session X T
  pushed p s = record s {
    mode =
        (append_spool X (map X.scalar_to_bytes (wire_scalars X s.mode p.row p.col_start p.scalars))
          s.mode).1;
    accumulators = add_at X s.accumulators p.row (local_product p s);
    next_col = set s.next_col p.row p.col_end;
  }

  check_frame-uncounted :
      (digest : Bytes) (p : Push Scalar) (encoded : List Bytes) (s t : Session X T)
      → check_frame X T digest p encoded s ≡ (ok tt, t)
      → uncounted t ≡ uncounted s
  unfolding check_frame
  check_frame-uncounted digest p encoded s t h =
      let (bytes, _, h) = after-lift-ok _ (ok_or _ (X.serialize_frame _)) s h in
      let (_, _, h) = after-lift-ok _ (ok_or _ (X.deserialize_frame bytes)) _ h in
      ap (λ r. uncounted r.1) (sym h)

  deliver-here :
      (digest : Bytes) (p : Push Scalar) (wire : List Scalar) (encoded : List Bytes)
      (box : Option T.Box) (s t : Session X T)
      → box ≡ none
      → deliver X T digest p wire encoded box s ≡ (ok tt, t)
      → uncounted t ≡ record (uncounted s) {
        accumulators =
            add_at X s.accumulators p.row
              (X.msm wire (take (p.col_end - p.col_start) (drop p.col_start s.bases)));
      }
  unfolding deliver add_locally
  deliver-here digest p wire encoded (some there) s t none_there h = absurd cc
  deliver-here digest p wire encoded none s t none_there h =
      let (_, u, checked, h) =
        after-eq-ok _ ((if is_native s.mode then pure tt else check_frame X T digest p encoded) s)
          h in
      ap (λ r. uncounted r.1) (sym h) ∙ ap added (if-uncounted (is_native s.mode) checked)
    where
      added : Session X T → Session X T
      added u = record u {
        accumulators =
            add_at X u.accumulators p.row
              (X.msm wire (take (p.col_end - p.col_start) (drop p.col_start u.bases)));
      }

      if-uncounted :
          (b : Bool) {u : Session X T}
          → (if b then pure tt else check_frame X T digest p encoded) s ≡ (ok tt, u)
          → uncounted u ≡ uncounted s
      if-uncounted true h = ap (λ r. uncounted r.1) (sym h)
      if-uncounted false h = check_frame-uncounted digest p encoded s _ h

  abbrev pub spooled : Push Scalar → Session X T → Result PbmoError (Unit {0}) × SessionMode Point
  spooled p s =
      append_spool X (map X.scalar_to_bytes (wire_scalars X s.mode p.row p.col_start p.scalars))
        s.mode

  -- The session when a chunk is masked and spooled, before it is delivered.
  undelivered : Push Scalar → Session X T → Session X T
  undelivered p s =
      let wire = wire_scalars X s.mode p.row p.col_start p.scalars in
      spool_counted X T wire (record (masked_counted X T wire s) { mode = (spooled p s).1 })

  abbrev columns : Push Scalar → Session X T → Session X T
  columns p s = record s { next_col = set s.next_col p.row p.col_end }

  -- The steps of a push that has succeeded.
  push_chunk-steps :
      (p : Push Scalar) (s t : Session X T)
      → push_chunk X T p s ≡ (ok tt, t)
      → (out_of_order s.q s.m s.next_col p ≡ false)
        × ((spooled p s).0 ≡ ok tt)
        × (digest : Bytes) × (u : Session X T) × (deliver X T digest p
              (wire_scalars X s.mode p.row p.col_start p.scalars)
              (map X.scalar_to_bytes (wire_scalars X s.mode p.row p.col_start p.scalars))
              s.transport
              (undelivered p s)
            ≡ (ok tt, u))
        × (uncounted t ≡ uncounted (columns p u))
  unfolding push_chunk spool_chunk masked_counted spool_counted chunk_counted undelivered
  push_chunk-steps p s t h =
      let (_, e, h) = after-lift-ok _ (reject_if (out_of_order s.q s.m s.next_col p) _) s h in
      let wire = wire_scalars X s.mode p.row p.col_start p.scalars in
      let (_, spool_ok, h) =
        after-lift-ok _ (spooled p s).0
          (record (masked_counted X T wire s) { mode = (spooled p s).1 }) h in
      let (digest, _, h) = after-lift-ok _ (context_binding_digest X s.context s.q s.m) _ h in
      let (_, u, sent_ok, h) =
        after-eq-ok _ (deliver X T digest p wire (map X.scalar_to_bytes wire) s.transport _) h in
      (reject_if-eq-ok _ _ e, spool_ok, digest, u, sent_ok, ap (λ r. uncounted r.1) (sym h))

  pub push_chunk-pushed :
      (p : Push Scalar) (s t : Session X T)
      → s.transport ≡ none
      → push_chunk X T p s ≡ (ok tt, t)
      → (out_of_order s.q s.m s.next_col p ≡ false) × (uncounted t ≡ uncounted (pushed p s))
  unfolding pushed undelivered spool_counted masked_counted
  push_chunk-pushed p s t here h =
      let (in_order, _, digest, u, sent_ok, last) = push_chunk-steps p s t h in
      (
        in_order,
        last
            ∙ ap (columns p)
                (deliver-here digest p _ _ s.transport (undelivered p s) u here sent_ok),
      )

  -- A session apart from its counts, its transport and what was added up here.
  abbrev pub apart : Session X T → Session X T
  apart s = record (uncounted s) { transport = none; accumulators = [] }

  deliver-apart :
      (digest : Bytes) (p : Push Scalar) (wire : List Scalar) (encoded : List Bytes)
      (box : Option T.Box) (s t : Session X T)
      → deliver X T digest p wire encoded box s ≡ (ok tt, t)
      → apart t ≡ apart s
  unfolding deliver on_transport
  deliver-apart digest p wire encoded (some box) s t h = ap (λ r. apart r.1) (sym h)
  deliver-apart digest p wire encoded none s t h =
      ap cleared (deliver-here digest p wire encoded none s t refl h)
    where
      cleared : Session X T → Session X T
      cleared s = record s { transport = none; accumulators = [] }

  -- What a push does to the spool and the columns, whatever the transport does.
  pub push_chunk-apart :
      (p : Push Scalar) (s t : Session X T)
      → push_chunk X T p s ≡ (ok tt, t)
      → ((spooled p s).0 ≡ ok tt) × (apart t ≡ apart (pushed p s))
  unfolding pushed undelivered spool_counted masked_counted
  push_chunk-apart p s t h =
      let (_, spool_ok, digest, u, sent_ok, last) = push_chunk-steps p s t h in
      (
        spool_ok,
        ap apart last
            ∙ ap (columns p) (deliver-apart digest p _ _ s.transport (undelivered p s) u sent_ok),
      )
