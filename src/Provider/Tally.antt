-- ===== src/Provider/Tally.antt =====
-- The counts of a session over its pushes (experiments/preprocessed-pbmo/src/provider.rs).
use thinwallet.Prelude.{
  ℕ, List, [], ◌∷◌, ◌+◌, ◌%◌, ◌^◌, ◌<◌, ◌≤◌, ◌≡◌, sym, ap, subst, ◌∙◌, length, map, Bool, true,
  false, ltb, All, arith, Option, none, some, if◌then◌else◌, nat_eq, bytes_eq,
}
use thinwallet.Prelude.Outcome.{ok, reject_if, ok_or}
use thinwallet.Prelude.Action.{after-eq-ok, after-lift-ok, pure}
use thinwallet.Prelude.Bytes.{Bytes}
use thinwallet.External.{External}
use thinwallet.Provider.{
  PbmoTransport, is_native, token_of, context_binding_digest, on_transport, Session,
}
use thinwallet.Provider.Stream.{
  Push, out_of_order, wire_scalars, append_spool, spool_chunk, check_frame, add_locally, deliver,
  masked_counted, spool_counted, chunk_counted, push_chunk,
}
use thinwallet.Provider.Providers.{push_all}
use thinwallet.Provider.Sums.{length-sent}
use thinwallet.Provider.Rows.{wire_scalars-sent}

-- The scalars of all the pushes.
unfoldable pub total : {A : Type 0} → List (Push A) → ℕ
total [] = 0
total (p ∷ ps) = length p.scalars + total ps

module _ (X : External) (T : PbmoTransport X.Point) where
  open X use {Point, Scalar}

  -- The chunks, the terms of the service and the peak of scalars that were held.
  abbrev pub tally : Session X T → ℕ × ℕ × ℕ
  tally s = (s.metrics.chunks, s.metrics.server_group_terms, s.metrics.working_scalar_peak)

  check_frame-tally :
      (digest : Bytes) (p : Push Scalar) (encoded : List Bytes) (s t : Session X T)
      → check_frame X T digest p encoded s ≡ (ok tt, t)
      → tally t ≡ tally s
  unfolding check_frame
  check_frame-tally digest p encoded s t h =
      let (bytes, _, h) = after-lift-ok _ (ok_or _ (X.serialize_frame _)) s h in
      let (_, _, h) = after-lift-ok _ (ok_or _ (X.deserialize_frame bytes)) _ h in
      ap (λ r. tally r.1) (sym h)

  deliver-tally :
      (digest : Bytes) (p : Push Scalar) (wire : List Scalar) (encoded : List Bytes)
      (box : Option T.Box) (s t : Session X T)
      → deliver X T digest p wire encoded box s ≡ (ok tt, t)
      → tally t ≡ tally s
  unfolding deliver on_transport add_locally
  deliver-tally digest p wire encoded (some box) s t h = ap (λ r. tally r.1) (sym h)
  deliver-tally digest p wire encoded none s t h =
      let (_, u, checked, h) =
        after-eq-ok _ ((if is_native s.mode then pure tt else check_frame X T digest p encoded) s)
          h in
      ap (λ r. tally r.1) (sym h) ∙ by_kind (is_native s.mode) checked
    where
      by_kind :
          (b : Bool) {u : Session X T}
          → (if b then pure tt else check_frame X T digest p encoded) s ≡ (ok tt, u)
          → tally u ≡ tally s
      by_kind true h = ap (λ r. tally r.1) (sym h)
      by_kind false h = check_frame-tally digest p encoded s _ h

  push_chunk-tally :
      (p : Push Scalar) (s t : Session X T)
      → push_chunk X T p s ≡ (ok tt, t)
      → tally t ≡ (
        (s.metrics.chunks + 1) % 2 ^ 64,
        (s.metrics.server_group_terms + length p.scalars) % 2 ^ 64,
        (if ltb s.metrics.working_scalar_peak (length p.scalars)
            then length p.scalars
            else s.metrics.working_scalar_peak),
      )
  unfolding push_chunk spool_chunk masked_counted spool_counted chunk_counted
  push_chunk-tally p s t h =
      let (_, _, h) = after-lift-ok _ (reject_if (out_of_order s.q s.m s.next_col p) _) s h in
      let wire = wire_scalars X s.mode p.row p.col_start p.scalars in
      let spooled = append_spool X (map X.scalar_to_bytes wire) s.mode in
      let (_, _, h) =
        after-lift-ok _ spooled.0 (record (masked_counted X T wire s) { mode = spooled.1 }) h in
      let (digest, _, h) = after-lift-ok _ (context_binding_digest X s.context s.q s.m) _ h in
      let (_, u, delivered, h) =
        after-eq-ok _ (deliver X T digest p wire (map X.scalar_to_bytes wire) s.transport _) h in
      let same =
        deliver-tally digest p wire (map X.scalar_to_bytes wire) s.transport _ u delivered in
      let size : length wire ≡ length p.scalars =
        ap length (wire_scalars-sent X T s.mode p.row p.col_start p.scalars)
        ∙ length-sent X (token_of s.mode) p.row p.col_start p.scalars in
      ap (λ r. tally r.1) (sym h)
      ∙ ap (λ (c : ℕ × ℕ × ℕ). ((c.0 + 1) % 2 ^ 64, (c.1 + length wire) % 2 ^ 64, c.2)) same
      ∙ ap
          (λ n. (
            (s.metrics.chunks + 1) % 2 ^ 64,
            (s.metrics.server_group_terms + n) % 2 ^ 64,
            (if ltb s.metrics.working_scalar_peak n then n else s.metrics.working_scalar_peak),
          ))
          size

  -- Pushes that all succeed are counted exactly, chunks and scalars, where the counts stay below
  -- 2^64, and the client has at no time held more masked scalars than `k`, if no push has more than
  -- `k` and no more were held before.
  pub push_all-tally :
      (k : ℕ) (pushes : List (Push Scalar)) (s t : Session X T)
      → All (λ p. length p.scalars ≤ k) pushes
      → s.metrics.working_scalar_peak ≤ k
      → s.metrics.chunks + length pushes < 2 ^ 64
      → s.metrics.server_group_terms + total pushes < 2 ^ 64
      → push_all X T pushes s ≡ (ok tt, t)
      → (t.metrics.chunks ≡ s.metrics.chunks + length pushes)
        × (t.metrics.server_group_terms ≡ s.metrics.server_group_terms + total pushes)
        × (t.metrics.working_scalar_peak ≤ k)
  unfolding push_all total
  push_all-tally k [] s t small before few short h =
      let same = sym (ap (λ r. tally r.1) h) in
      let chunks : t.metrics.chunks ≡ s.metrics.chunks = ap (λ c. c.0) same in
      let terms : t.metrics.server_group_terms ≡ s.metrics.server_group_terms =
        ap (λ c. c.1) same in
      let peak : t.metrics.working_scalar_peak ≡ s.metrics.working_scalar_peak =
        ap (λ c. c.2) same in
      (omega arith, omega arith, omega arith)
  push_all-tally k (p ∷ pushes) s t (fits, small) before few short h =
      let (_, u, first, h) = after-eq-ok _ (push_chunk X T p s) h in
      let same = push_chunk-tally p s u first in
      let peak : u.metrics.working_scalar_peak ≤ k =
        subst (λ n. n ≤ k) (sym (ap (λ c. c.2) same)) (ground arith) in
      let wrapped : u.metrics.chunks ≡ (s.metrics.chunks + 1) % 2 ^ 64 = ap (λ c. c.0) same in
      let counted : u.metrics.chunks ≡ s.metrics.chunks + 1 = omega (arith, wrapped, few) in
      let wrapped' : u.metrics.server_group_terms
          ≡ (s.metrics.server_group_terms + length p.scalars) % 2 ^ 64 =
        ap (λ c. c.1) same in
      let terms : u.metrics.server_group_terms ≡ s.metrics.server_group_terms + length p.scalars =
        omega (arith, wrapped', short) in
      let (chunks', terms', peak') =
        push_all-tally k pushes u t small peak (omega (arith, counted, few))
          (omega (arith, terms, short)) h in
      (omega arith, omega arith, peak')
