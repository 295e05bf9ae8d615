-- ===== src/Provider/Spooled.antt =====
-- What a session of the malicious mode has spooled, with any transport
-- (experiments/preprocessed-pbmo/src/provider.rs).
use thinwallet.Prelude.{
  ℕ, List, [], ◌∷◌, ◌++◌, ◌≡◌, sym, ap, subst, ◌∙◌, map, append_assoc, append-nil, Option, none,
  some, length, not, ◌||◌, ◌==◌, nat_eq, bytes_eq, not_eq-false, arith, false,
}
use thinwallet.Prelude.Outcome.{Result, ok, err, reject_if, reject_if-eq-ok}
use thinwallet.Prelude.Action.{after-eq-ok, after-lift-ok, ◌>>=◌}
use thinwallet.Prelude.Bytes.{Bytes}
use thinwallet.External.{External, PbmoContext}
use thinwallet.Token.{Token}
use thinwallet.Spool.{SecureSpool, append, seal_and_open_verified}
use thinwallet.Spool.Contents.{Writable, append-Writable, seal-payload}
use thinwallet.Wire.Checks.{basis_digest}
use thinwallet.Provider.{
  io, transport_error, PbmoTransport, SessionMode, malicious, map_err, token_of, Session,
  on_transport, check_token, context_binding_digest, open_transport, new_session, start_session,
}
use thinwallet.Provider.Stream.{Push, masked, wire_scalars, append_spool, push_chunk}
use thinwallet.Provider.Finish.{seal_spool, collect_outputs}
use thinwallet.Provider.Providers.{push_all}
use thinwallet.Provider.Aggregate.{bytes_of_row}
use thinwallet.Provider.Pushes.{apart, pushed, push_chunk-apart}

map_err-eq-ok :
    {E F A : Type 0} (f : E → F) (r : Result E A) {a : A} → map_err f r ≡ ok a → r ≡ ok a
unfolding map_err
map_err-eq-ok f (ok b) h = cc
map_err-eq-ok f (err e) h = absurd cc

module _ (X : External) where
  open X use {Point, Scalar}

  -- The bytes of what the pushes send.
  unfoldable pub sent_bytes : Token Point → List (Push Scalar) → Bytes
  sent_bytes token [] = []
  sent_bytes token (p ∷ ps) =
      bytes_of_row X (masked X token p.row p.col_start p.scalars) ++ sent_bytes token ps

  module _ (T : PbmoTransport Point) where
    -- A session of the malicious mode whose spool has this content.
    pub record Spools (c : PbmoContext) (q m : ℕ) (bases : List Point) (token : Token Point)
        (content : Bytes) (s : Session X T) : Type 0 where
      pub context_c : s.context ≡ c
      pub rows_q : s.q ≡ q
      pub columns_m : s.m ≡ m
      pub same_bases : s.bases ≡ bases
      pub spool : SecureSpool
      pub mode : s.mode ≡ malicious token spool
      pub ready : Writable content spool

    open_transport-apart :
        (c : PbmoContext) (q m : ℕ) (box : Option T.Box) (s t : Session X T)
        → open_transport X T c q m box s ≡ (ok tt, t)
        → apart X T t ≡ apart X T s
    unfolding open_transport on_transport
    open_transport-apart c q m none s t h = ap (λ r. apart X T r.1) (sym h)
    open_transport-apart c q m (some box) s t h =
        let (digest, _, h) = after-lift-ok _ (context_binding_digest X c q m) s h in
        ap (λ r. apart X T r.1) (sym h)

    collect_outputs-apart :
        (box : Option T.Box) (s t : Session X T) {received : List Point}
        → collect_outputs X T box s ≡ (ok received, t)
        → apart X T t ≡ apart X T s
    unfolding collect_outputs on_transport
    collect_outputs-apart none s t h = ap (λ r. apart X T r.1) (sym h)
    collect_outputs-apart (some box) s t h =
        let call = (T.finish_request >>= λ _. T.receive_response) box in
        let (response, _, h) = after-lift-ok _ (map_err transport_error call.0) _ h in
        let (_, _, h) = after-lift-ok _ (reject_if (not (length response.1 == s.q)) _) _ h in
        ap (λ r. apart X T r.1) (sym h)

    pub start-apart :
        (c : PbmoContext) (q m : ℕ) (bases : List Point) (mode : SessionMode Point)
        (box : Option T.Box) (s : Session X T)
        → start_session X T c q m bases mode box ≡ (ok tt, s)
        → (length bases ≡ m)
          × (check_token X c q m (token_of mode) ≡ ok tt)
          × (apart X T s ≡ apart X T (new_session X T c q m bases mode box))
    unfolding start_session
    start-apart c q m bases mode box s h =
        let s0 = new_session X T c q m bases mode box in
        let (_, sizes, h) =
          after-lift-ok _
            (reject_if ((q == 0) || (m == 0) || not (length bases == m) || (c.expected_chunks == 0))
              _)
            s0 h in
        let (_, _, h) =
          after-lift-ok _ (reject_if (not (c.basis_digest == basis_digest X bases)) _) s0 h in
        let (_, checked, h) = after-lift-ok _ (check_token X c q m (token_of mode)) s0 h in
        let sizes' = reject_if-eq-ok _ _ sizes in
        let wide : not (length bases == m) ≡ false = ground arith in
        (not_eq-false (length bases) m wide, checked, opened box h)
      where
        opened :
            (b : Option T.Box)
            → open_transport X T c q m b (new_session X T c q m bases mode box) ≡ (ok tt, s)
            → apart X T s ≡ apart X T (new_session X T c q m bases mode box)
        opened b h = open_transport-apart c q m b (new_session X T c q m bases mode box) s h

    pub start-Spools :
        (c : PbmoContext) (q m : ℕ) (bases : List Point) (token : Token Point) (spool : SecureSpool)
        (content : Bytes) (box : Option T.Box) (s : Session X T)
        → Writable content spool
        → start_session X T c q m bases (malicious token spool) box ≡ (ok tt, s)
        → (length bases ≡ m)
          × (check_token X c q m (some token) ≡ ok tt)
          × Spools c q m bases token content s
    unfolding new_session token_of
    start-Spools c q m bases token spool content box s ready h =
        let (long, checked, same) = start-apart c q m bases (malicious token spool) box s h in
        (
          long,
          checked,
          record {
            context_c = ap (λ s. s.context) same;
            rows_q = ap (λ s. s.q) same;
            columns_m = ap (λ s. s.m) same;
            same_bases = ap (λ s. s.bases) same;
            spool = spool;
            mode = ap (λ s. s.mode) same;
            ready = ready;
          },
        )

    push_chunk-Spools :
        (c : PbmoContext) (q m : ℕ) (bases : List Point) (token : Token Point) (content : Bytes)
        (p : Push Scalar) (s t : Session X T)
        → Spools c q m bases token content s
        → push_chunk X T p s ≡ (ok tt, t)
        → Spools c q m bases token
            (content ++ bytes_of_row X (masked X token p.row p.col_start p.scalars))
            t
    unfolding pushed append_spool wire_scalars bytes_of_row
    push_chunk-Spools c q m bases token content p s t held h =
        let (appended, same) = push_chunk-apart X T p s t h in
        let wire = map X.scalar_to_bytes (masked X token p.row p.col_start p.scalars) in
        let after = append wire held.spool in
        let appended' : map_err io after.0 ≡ ok tt =
          subst
            (λ mode.
              (append_spool X
                (map X.scalar_to_bytes (wire_scalars X mode p.row p.col_start p.scalars)) mode).0
              ≡ ok tt)
            held.mode appended in
        let (ready, _, _) =
          append-Writable content wire held.spool after.1 held.ready
            (ap (λ r. (r, after.1)) (map_err-eq-ok io after.0 appended')) in
        record {
          context_c = ap (λ s. s.context) same ∙ held.context_c;
          rows_q = ap (λ s. s.q) same ∙ held.rows_q;
          columns_m = ap (λ s. s.m) same ∙ held.columns_m;
          same_bases = ap (λ s. s.bases) same ∙ held.same_bases;
          spool = after.1;
          mode =
              ap (λ s. s.mode) same
              ∙ ap
                  (λ mode.
                    (append_spool X
                      (map X.scalar_to_bytes (wire_scalars X mode p.row p.col_start p.scalars))
                      mode).1)
                  held.mode;
          ready = ready;
        }

    pub push_all-Spools :
        (c : PbmoContext) (q m : ℕ) (bases : List Point) (token : Token Point) (content : Bytes)
        (pushes : List (Push Scalar)) (s t : Session X T)
        → Spools c q m bases token content s
        → push_all X T pushes s ≡ (ok tt, t)
        → Spools c q m bases token (content ++ sent_bytes token pushes) t
    unfolding push_all sent_bytes
    push_all-Spools c q m bases token content [] s t held h =
        subst (λ r. Spools c q m bases token (content ++ []) r.1) h
          (subst (λ b. Spools c q m bases token b s) (sym (append-nil content)) held)
    push_all-Spools c q m bases token content (p ∷ pushes) s t held h =
        let (_, u, first, h) = after-eq-ok _ (push_chunk X T p s) h in
        let wire = bytes_of_row X (masked X token p.row p.col_start p.scalars) in
        let held' = push_chunk-Spools c q m bases token content p s u held first in
        subst (λ b. Spools c q m bases token b t)
          (append_assoc content wire (sent_bytes token pushes))
          (push_all-Spools c q m bases token (content ++ wire) pushes u t held' h)

    -- Receiving the outputs leaves the spool as it is.
    pub collect_outputs-Spools :
        (c : PbmoContext) (q m : ℕ) (bases : List Point) (token : Token Point) (content : Bytes)
        (s t : Session X T) {received : List Point}
        → Spools c q m bases token content s
        → collect_outputs X T s.transport s ≡ (ok received, t)
        → Spools c q m bases token content t
    collect_outputs-Spools c q m bases token content s t held h =
        let same = collect_outputs-apart s.transport s t h in
        record {
          context_c = ap (λ s. s.context) same ∙ held.context_c;
          rows_q = ap (λ s. s.q) same ∙ held.rows_q;
          columns_m = ap (λ s. s.m) same ∙ held.columns_m;
          same_bases = ap (λ s. s.bases) same ∙ held.same_bases;
          spool = held.spool;
          mode = ap (λ s. s.mode) same ∙ held.mode;
          ready = held.ready;
        }

    -- A sealed spool gives its content.
    pub seal_spool-Spools :
        (c : PbmoContext) (q m : ℕ) (bases : List Point) (token : Token Point) (content b : Bytes)
        (s : Session X T)
        → Spools c q m bases token content s
        → (seal_spool X s.mode).0 ≡ ok b
        → b ≡ content
    unfolding seal_spool
    seal_spool-Spools c q m bases token content b s held h =
        let sealed = seal_and_open_verified X held.spool in
        let h' : map_err io sealed.0 ≡ ok b =
          subst (λ mode. (seal_spool X mode).0 ≡ ok b) held.mode h in
        let (same, _, _) =
          seal-payload X content b held.spool sealed.1 held.ready
            (ap (λ r. (r, sealed.1)) (map_err-eq-ok io sealed.0 h')) in
        same
