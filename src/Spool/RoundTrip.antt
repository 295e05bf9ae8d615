-- ===== src/Spool/RoundTrip.antt =====
-- A spool from `create` to `seal_and_open_verified`
-- (experiments/preprocessed-pbmo/src/secure_spool.rs).
use thinwallet.Prelude.{
  List, [], ◌∷◌, ◌++◌, ◌*◌, ◌≡◌, refl, sym, ap, subst, ◌∙◌, length, true, ◌||◌, append_assoc,
  append-nil, if◌then◌else◌,
}
use thinwallet.Prelude.Outcome.{ok, reject_if, ok-injective}
use thinwallet.Prelude.Action.{after-eq-ok, after-lift-ok, pure, ◌>>◌}
use thinwallet.Prelude.Bytes.{Bytes, text}
use thinwallet.Token.Codec.{concat}
use thinwallet.External.{External}
use thinwallet.Store.World.{lookup}
use thinwallet.Spool.{
  SecureDirectory, SecureSpool, SpoolDescriptor, OnSpool, validate_name, create_file_exclusive,
  entry_exists, create, append, seal_and_open_verified,
}
use thinwallet.Spool.Files.{lookup-put_file, create_file-new}
use thinwallet.Spool.Contents.{Writable, append-Writable, seal-payload}

-- `append` for each chunk in turn.
unfoldable pub append_all : List (List Bytes) → OnSpool (Unit {0})
append_all [] = pure tt
append_all (chunk ∷ chunks) = append chunk >> append_all chunks

-- The bytes of all the chunks.
unfoldable pub bytes_of : List (List Bytes) → Bytes
bytes_of [] = []
bytes_of (chunk ∷ chunks) = concat chunk ++ bytes_of chunks

pub create-Writable :
    (name suffix : Bytes) (descriptor : SpoolDescriptor) (d d' : SecureDirectory) (s : SecureSpool)
    → create name suffix descriptor d ≡ (ok s, d')
    → Writable [] s × (s.descriptor ≡ descriptor) × (s.written_elements ≡ 0)
unfolding create
create-Writable name suffix descriptor d d' s h =
    let (_, _, h) = after-lift-ok _ (validate_name name) d h in
    let (taken, d1, _, h) = after-eq-ok _ (entry_exists name d) h in
    let (manifest, d2, _, h) =
      after-eq-ok _ ((if taken then pure true else entry_exists (name ++ text ".manifest")) d1) h in
    let (_, _, h) = after-lift-ok _ (reject_if (taken || manifest) _) d2 h in
    let temp = text "." ++ (name ++ suffix) in
    let (_, d3, created, h) = after-eq-ok _ (create_file_exclusive temp d2) h in
    let (_, files) = create_file-new temp d2 d3 created in
    let is = ok-injective (ap (λ r. r.0) h) in
    (
      subst (λ s. Writable [] s) is
          (record {
            found = ap (lookup temp) files ∙ lookup-put_file temp [] d2.files;
            writable = refl;
            unsealed = refl;
          }),
      ap (λ s. s.descriptor) (sym is),
      ap (λ s. s.written_elements) (sym is),
    )

append_all-Writable :
    (content : Bytes) (chunks : List (List Bytes)) (s t : SecureSpool)
    → Writable content s
    → append_all chunks s ≡ (ok tt, t)
    → Writable (content ++ bytes_of chunks) t × (t.descriptor ≡ s.descriptor)
unfolding append_all bytes_of
append_all-Writable content [] s t ready h = (
  subst (λ r. Writable (content ++ []) r.1) h
      (subst (λ c. Writable c s) (sym (append-nil content)) ready),
  ap (λ r. r.1.descriptor) (sym h),
)
append_all-Writable content (chunk ∷ chunks) s t ready h =
    let (_, u, appended, h) = after-eq-ok _ (append chunk s) h in
    let (ready', _, same) = append-Writable content chunk s u ready appended in
    let (ready'', same') = append_all-Writable (content ++ concat chunk) chunks u t ready' h in
    (
      subst (λ c. Writable c t) (append_assoc content (concat chunk) (bytes_of chunks)) ready'',
      same' ∙ same,
    )

-- A spool that was created, given chunks and sealed, every call with success, reads back as the
-- bytes of the chunks in the order in which they were appended, whatever files the directory has,
-- and these are 32 bytes for each element that its descriptor announced.
pub sealed-appended :
    (X : External) (name suffix : Bytes) (descriptor : SpoolDescriptor) (d d' : SecureDirectory)
    (chunks : List (List Bytes)) (s t u : SecureSpool) (b : Bytes)
    → create name suffix descriptor d ≡ (ok s, d')
    → append_all chunks s ≡ (ok tt, t)
    → seal_and_open_verified X t ≡ (ok b, u)
    → (b ≡ bytes_of chunks) × (length b ≡ descriptor.logical_element_count * 32)
sealed-appended X name suffix descriptor d d' chunks s t u b created appended sealed =
    let (ready, same, _) = create-Writable name suffix descriptor d d' s created in
    let (ready', same') = append_all-Writable [] chunks s t ready appended in
    let (content, whole, _) = seal-payload X (bytes_of chunks) b t u ready' sealed in
    (content, whole ∙ ap (λ d. d.logical_element_count * 32) (same' ∙ same))
