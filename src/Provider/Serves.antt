-- ===== src/Provider/Serves.antt =====
-- That `push_chunk` and `finish` of experiments/preprocessed-pbmo/src/provider.rs succeed, in a
-- session without a transport and without a spool.
use thinwallet.Prelude.{
  ℕ, List, [], ◌∷◌, ◌^◌, ◌<◌, ◌≡◌, refl, ap, map, Bool, true, false, nat_eq, bytes_eq, option_eq,
  eq_refl, if◌then◌else◌, Option, none, some,
}
use thinwallet.Prelude.Outcome.{ok, reject_if}
use thinwallet.Prelude.Action.{after-succeeds, pure}
use thinwallet.Prelude.Bytes.{Bytes, text}
use thinwallet.Provider.Algebra.{u32_small}
use thinwallet.External.{External, StreamLaws, PbmoContext}
use thinwallet.Field.{digest32}
use thinwallet.Provider.{
  PbmoTransport, SessionMode, native, plain, semi, malicious, is_native, Session,
  context_binding_digest,
}
use thinwallet.Provider.Stream.{
  Push, out_of_order, wire_scalars, append_spool, spool_chunk, frame_of, check_frame, add_locally,
  deliver, masked_counted, spool_counted, push_chunk,
}

-- A mode without a spool.
unfoldable pub Unspooled : {Point : Type 0} → SessionMode Point → Type 0
Unspooled native = Unit
Unspooled plain = Unit
Unspooled (semi token) = Unit
Unspooled (malicious token spool) = ⊥

module _ (X : External) (L : StreamLaws X) where
  open X use {Point, Scalar}

  pub append_spool-none :
      (encoded : List Bytes) (mode : SessionMode Point)
      → Unspooled mode
      → append_spool X encoded mode ≡ (ok tt, mode)
  unfolding append_spool Unspooled
  append_spool-none encoded native h = refl
  append_spool-none encoded plain h = refl
  append_spool-none encoded (semi token) h = refl
  append_spool-none encoded (malicious token spool) h = absurd h

  context_binding_digest-ok :
      (c : PbmoContext) (q m : ℕ) → (d : Bytes) × (context_binding_digest X c q m ≡ ok d)
  unfolding context_binding_digest
  context_binding_digest-ok c q m =
      let (b, written) = L.request_written c q m in
      (digest32 X (text "thinwallet/preprocessed-pbmo/stream-context/v2") (b ∷ []), rw written refl)

  module _ (T : PbmoTransport Point) where
    -- The frame of a chunk whose place fits its fields passes its check.
    check_frame-ok :
        (digest : Bytes) (p : Push Scalar) (encoded : List Bytes) (s : Session X T)
        → p.row < 2 ^ 32
        → p.col_start < 2 ^ 32
        → p.col_end < 2 ^ 32
        → (check_frame X T digest p encoded s).0 ≡ ok tt
    unfolding check_frame frame_of
    check_frame-ok digest p encoded s row start end =
        let (b, written) = L.frame_written (frame_of X digest p encoded) in
        let back = L.frame_back (frame_of X digest p encoded) b written in
        rw
          (
            written,
            back,
            u32_small p.row row,
            u32_small p.col_start start,
            u32_small p.col_end end,
            eq_refl digest,
            eq_refl p.row,
            eq_refl p.col_start,
            eq_refl p.col_end,
          )
          refl

    deliver-ok :
        (digest : Bytes) (p : Push Scalar) (wire : List Scalar) (encoded : List Bytes)
        (box : Option T.Box) (s : Session X T)
        → box ≡ none
        → p.row < 2 ^ 32
        → p.col_start < 2 ^ 32
        → p.col_end < 2 ^ 32
        → (deliver X T digest p wire encoded box s).0 ≡ ok tt
    unfolding deliver add_locally
    deliver-ok digest p wire encoded (some box) s h row start end = absurd cc
    deliver-ok digest p wire encoded none s h row start end =
        after-succeeds _
          ((if is_native s.mode then pure tt else check_frame X T digest p encoded) s) tt
          (checked (is_native s.mode)) refl
      where
        checked :
            (b : Bool) → ((if b then pure tt else check_frame X T digest p encoded) s).0 ≡ ok tt
        checked true = refl
        checked false = check_frame-ok digest p encoded s row start end

    pub push_chunk-ok :
        (p : Push Scalar) (s : Session X T)
        → s.transport ≡ none
        → Unspooled s.mode
        → p.row < 2 ^ 32
        → p.col_start < 2 ^ 32
        → p.col_end < 2 ^ 32
        → out_of_order s.q s.m s.next_col p ≡ false
        → (push_chunk X T p s).0 ≡ ok tt
    unfolding push_chunk spool_chunk spool_counted masked_counted
    push_chunk-ok p s here unspooled row start end in_order =
        let wire = wire_scalars X s.mode p.row p.col_start p.scalars in
        let encoded = map X.scalar_to_bytes wire in
        let s1 = masked_counted X T wire s in
        let (digest, bound) = context_binding_digest-ok s.context s.q s.m in
        let spooled = append_spool X encoded s.mode in
        let s2 = spool_counted X T wire (record s1 { mode = spooled.1 }) in
        after-succeeds _ (reject_if (out_of_order s.q s.m s.next_col p) _, s) tt (rw in_order refl)
          (after-succeeds _ (spooled.0, record s1 { mode = spooled.1 }) tt
            (ap (λ r. r.0) (append_spool-none encoded s.mode unspooled))
            (after-succeeds _ (context_binding_digest X s.context s.q s.m, s2) digest bound
              (after-succeeds _ (deliver X T digest p wire encoded s.transport s2) tt
                (deliver-ok digest p wire encoded s.transport s2 here row start end) refl)))
