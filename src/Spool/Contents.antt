-- ===== src/Spool/Contents.antt =====
-- The payload of a spool through `append` and `seal_and_open_verified`
-- (experiments/preprocessed-pbmo/src/secure_spool.rs).
use thinwallet.Prelude.{
  List, [], ◌++◌, ◌+◌, ◌*◌, ◌%◌, ◌^◌, ◌≡◌, ◌≢◌, sym, ap, subst, ◌∙◌, true, false, not, ◌==◌, nat_eq,
  bytes_eq, not_eq-false, length, none, some, if◌then◌else◌, arith, ltb, ◌||◌,
}
use mathlib.Core.Option as Opt
use thinwallet.Prelude.Outcome.{ok, reject_if, ok_or, reject_if-eq-ok, ok-injective}
use thinwallet.Prelude.Action.{after-eq-ok, after-lift-ok, pure}
use thinwallet.Prelude.Bytes.{Bytes}
use thinwallet.Token.Codec.{concat}
use thinwallet.External.{External}
use thinwallet.Store.World.{lookup}
use thinwallet.Spool.{
  SecureDirectory, SecureSpool, syscall, put_file, drop_file, write_file, create_file_exclusive,
  open_file, rename, write_scalars, append, hash_file, manifest_of, manifest_differs, open_verified,
  install, seal_and_open_verified,
}
use thinwallet.Spool.Files.{
  lookup-put_file, lookup-put_other, lookup-drop_file, syscall-files, open_file-found,
  create_file-new, rename-moves, write_scalars-appends,
}

-- The spool is open for writing and its file has this content.
pub record Writable (content : Bytes) (s : SecureSpool) : Type 0 where
  pub found : lookup s.temp_name s.directory.files ≡ some content
  pub writable : s.payload ≡ true
  pub unsealed : s.sealed ≡ false

pub append-Writable :
    (content : Bytes) (xs : List Bytes) (s t : SecureSpool)
    → Writable content s
    → append xs s ≡ (ok tt, t)
    → Writable (content ++ concat xs) t
      × (t.written_elements ≡ (s.written_elements + length xs) % 2 ^ 64)
      × (t.descriptor ≡ s.descriptor)
unfolding append
append-Writable content xs s t ready h =
    let (_, _, h) = after-lift-ok _ (reject_if s.sealed _) s h in
    let (_, _, h) = after-lift-ok _ (reject_if (not s.payload) _) s h in
    let written = write_scalars s.temp_name xs s.directory in
    let (_, w, h) = after-lift-ok _ written.0 (record s { directory = written.1 }) h in
    let found =
      write_scalars-appends s.temp_name xs s.directory written.1 ready.found
        (ap (λ r. (r, written.1)) w) in
    (
      subst (λ r. Writable (content ++ concat xs) r.1) h
          (record { found = found; writable = ready.writable; unsealed = ready.unsealed }),
      ap (λ r. r.1.written_elements) (sym h),
      ap (λ r. r.1.descriptor) (sym h),
    )

names-differ :
    (a b : Bytes) (files : List (Bytes × Bytes)) {content : Bytes}
    → lookup a files ≡ none
    → lookup b files ≡ some content
    → a ≢ b
names-differ a b files {content} absent found same =
    Opt.none-ne-some content (sym absent ∙ ap (λ n. lookup n files) same ∙ found)

module _ (X : External) where
  -- The payload stands under its final name once the two files are installed.
  install-payload :
      (s : SecureSpool) (encoded content : Bytes) (d d' : SecureDirectory)
      → lookup s.temp_name d.files ≡ some content
      → install X s encoded d ≡ (ok tt, d')
      → lookup s.final_name d'.files ≡ some content
  unfolding install write_file
  install-payload s encoded content d d' found h =
      let (_, d1, created, h) = after-eq-ok _ (create_file_exclusive s.manifest_temp_name d) h in
      let (_, d2, called2, h) = after-eq-ok _ (syscall d1) h in
      let d3 : SecureDirectory = record d2 {
        files = put_file s.manifest_temp_name encoded d2.files;
      } in
      let (_, d4, called4, h) = after-eq-ok _ (syscall d3) h in
      let (_, d5, moved, h) = after-eq-ok _ (rename s.temp_name s.final_name d4) h in
      let (_, d6, manifest_moved, h) =
        after-eq-ok _ (rename s.manifest_temp_name s.manifest_name d5) h in
      let (absent_temp, files1) = create_file-new s.manifest_temp_name d d1 created in
      let temp_differs = names-differ s.manifest_temp_name s.temp_name d.files absent_temp found in
      let files2 = syscall-files d1 d2 called2 ∙ files1 in
      let files4 = syscall-files d3 d4 called4 in
      let temp4 =
        ap (lookup s.temp_name) files4
        ∙ lookup-put_other s.temp_name s.manifest_temp_name encoded d2.files temp_differs
        ∙ ap (lookup s.temp_name) files2
        ∙ lookup-put_other s.temp_name s.manifest_temp_name [] d.files temp_differs
        ∙ found in
      let (payload, payload4, absent_final, files5) =
        rename-moves s.temp_name s.final_name d4 d5 moved in
      let same = Opt.some-injective payload content (sym payload4 ∙ temp4) in
      let final5 =
        ap (lookup s.final_name) files5
        ∙ lookup-put_file s.final_name payload (drop_file s.temp_name d4.files)
        ∙ ap some same in
      let manifest4 =
        ap (lookup s.manifest_temp_name) files4
        ∙ lookup-put_file s.manifest_temp_name encoded d2.files in
      let kept = names-differ s.final_name s.manifest_temp_name d4.files absent_final manifest4 in
      let (manifest, _, absent_manifest, files6) =
        rename-moves s.manifest_temp_name s.manifest_name d5 d6 manifest_moved in
      ap (lookup s.final_name) (syscall-files d6 d' h ∙ files6)
      ∙ lookup-put_other s.final_name s.manifest_name manifest
          (drop_file s.manifest_temp_name d5.files)
          (names-differ s.manifest_name s.final_name d5.files absent_manifest final5)
      ∙ lookup-drop_file s.final_name s.manifest_temp_name d5.files (λ p. kept (sym p))
      ∙ final5

  open_verified-payload :
      (s : SecureSpool) (d d' : SecureDirectory) {b : Bytes}
      → open_verified X s d ≡ (ok b, d')
      → (lookup s.final_name d.files ≡ some b)
        × (length b ≡ s.descriptor.logical_element_count * 32)
  unfolding open_verified
  open_verified-payload s d d' {b} h =
      let (encoded, d1, opened, h) = after-eq-ok _ (open_file s.manifest_name d) h in
      let (_, d2, called2, h) = after-eq-ok _ (syscall d1) h in
      let (manifest, _, h) = after-lift-ok _ (ok_or _ (X.deserialize_manifest encoded)) d2 h in
      let expected = s.descriptor.logical_element_count * 32 in
      let (_, _, h) = after-lift-ok _ (reject_if (not (ltb expected (2 ^ 64))) _) d2 h in
      let (_, _, h) =
        after-lift-ok _ (reject_if (manifest_differs X manifest s.descriptor expected) _) d2 h in
      let (payload, d3, opened3, h) = after-eq-ok _ (open_file s.final_name d2) h in
      let (_, d4, called4, h) = after-eq-ok _ (syscall d3) h in
      let (checksum, d5, hashed, h) =
        after-eq-ok _ ((if length payload == expected then hash_file X payload else pure []) d4)
          h in
      let (_, right, h) =
        after-lift-ok _
          (reject_if
            (not (length payload == expected) || not (checksum == manifest.checksum_sha256)) _)
          d5 h in
      let (_, d6, called6, h) = after-eq-ok _ (syscall d5) h in
      let right' = reject_if-eq-ok _ _ right in
      let whole : not (length payload == expected) ≡ false = ground arith in
      let same : payload ≡ b = ok-injective (ap (λ r. r.0) h) in
      let (_, files1) = open_file-found s.manifest_name d d1 opened in
      let (found, _) = open_file-found s.final_name d2 d3 opened3 in
      (
        ap (lookup s.final_name) (sym (syscall-files d1 d2 called2 ∙ files1))
            ∙ found
            ∙ ap some same,
        ap length (sym same) ∙ not_eq-false (length payload) expected whole,
      )

  hash_file-files :
      (content : Bytes) (d d' : SecureDirectory) {checksum : Bytes}
      → hash_file X content d ≡ (ok checksum, d')
      → d'.files ≡ d.files
  unfolding hash_file
  hash_file-files content d d' h =
      let (_, e, called, h) = after-eq-ok _ (syscall d) h in
      ap (λ r. r.1.files) (sym h) ∙ syscall-files d e called

  -- What is read back of a spool that was sealed is the content that was appended.
  pub seal-payload :
      (content b : Bytes) (s t : SecureSpool)
      → Writable content s
      → seal_and_open_verified X s ≡ (ok b, t)
      → (b ≡ content)
        × (length b ≡ s.descriptor.logical_element_count * 32)
        × (s.written_elements ≡ s.descriptor.logical_element_count)
  unfolding seal_and_open_verified
  seal-payload content b s t ready h =
      let (_, _, h) = after-lift-ok _ (reject_if s.sealed _) s h in
      let (_, count, h) =
        after-lift-ok _
          (reject_if (not (s.written_elements == s.descriptor.logical_element_count)) _) s h in
      let (_, _, h) = after-lift-ok _ (reject_if (not s.payload) _) s h in
      let s1 : SecureSpool = record s { payload = false } in
      let d1 = syscall s.directory in
      let (_, called, h) = after-lift-ok _ d1.0 (record s1 { directory = d1.1 }) h in
      let (_, _, h) =
        after-lift-ok _ (reject_if (not (ltb (s.written_elements * 32) (2 ^ 64))) _) _ h in
      let d2 = open_file s.temp_name d1.1 in
      let (read, opened, h) = after-lift-ok _ d2.0 (record s1 { directory = d2.1 }) h in
      let d3 = hash_file X read d2.1 in
      let (checksum, hashed, h) = after-lift-ok _ d3.0 (record s1 { directory = d3.1 }) h in
      let (encoded, _, h) =
        after-lift-ok _ (ok_or _ (X.serialize_manifest (manifest_of X s checksum))) _ h in
      let d4 = install X s encoded d3.1 in
      let (_, installed, h) = after-lift-ok _ d4.0 (record s1 { directory = d4.1 }) h in
      let (found1, files2) = open_file-found s.temp_name d1.1 d2.1 (ap (λ r. (r, d2.1)) opened) in
      let files1 = syscall-files s.directory d1.1 (ap (λ r. (r, d1.1)) called) in
      let files3 = hash_file-files read d2.1 d3.1 (ap (λ r. (r, d3.1)) hashed) in
      let content_found : lookup s.temp_name d3.1.files ≡ some content =
        ap (lookup s.temp_name) (files3 ∙ files2 ∙ files1) ∙ ready.found in
      let payload =
        install-payload s encoded content d3.1 d4.1 content_found (ap (λ r. (r, d4.1)) installed) in
      let (found, whole) =
        open_verified-payload s d4.1 (open_verified X s d4.1).1
          (ap (λ r. (r.0, (open_verified X s d4.1).1)) h) in
      (
        Opt.some-injective b content (sym found ∙ payload),
        whole,
        not_eq-false s.written_elements s.descriptor.logical_element_count
            (reject_if-eq-ok _ _ count),
      )
