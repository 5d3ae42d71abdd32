-- ===== src/Multipart/Parts.antt =====
-- The parts of an upload, and the list of them that a client sends to complete it
-- (internal/storage/multipart.go).
use byte_bucket.Prelude.{
  ℕ, ◌+◌, ◌<◌, Bool, true, false, not, List, [], ◌∷◌, none, some, ◌==◌, ==_refl, nat_equality,
  list_equality, if◌then◌else◌, length, ◌≡◌, refl, ap, ◌∙◌, arith,
}
use byte_bucket.Prelude.Int.{pos, lte}
use byte_bucket.Bytes.{Bytes}
use byte_bucket.Table.{Table, lookup, insert, lookup-insert}
use byte_bucket.Multipart.{
  UploadedPart, Disk, Result, normalize_etag, ascending, part_of, etag_of, upload_part, bodies_of,
}

numbers_differ : (m n : ℕ) → m < n → (n == m) ≡ false
numbers_differ m n h = ground arith

step_up : (n : ℕ) → lte (pos (n + 1)) (pos n) ≡ false
step_up n = ground arith

-- The bodies as parts `n`, `n + 1` and so on of a staging directory.
abbrev pub parts_after : ℕ → List Bytes → Table ℕ Bytes → Table ℕ Bytes
parts_after n [] parts = parts
parts_after n (body ∷ bodies) parts = parts_after (n + 1) bodies (insert n body parts)

lookup-parts_after :
    (m n : ℕ) (bodies : List Bytes) (parts : Table ℕ Bytes)
    → m < n
    → lookup m (parts_after n bodies parts) ≡ lookup m parts
lookup-parts_after m n [] parts h = refl
lookup-parts_after m n (body ∷ bodies) parts h =
    lookup-parts_after m (n + 1) bodies (insert n body parts) (omega arith)
    ∙ lookup-insert n m body parts
    ∙ ap (λ (b : Bool). if b then some body else lookup m parts) (numbers_differ m n h)

module _ (md5 : Bytes → Bytes) (uploads_root objects_root : Bytes) where
  -- What `UploadPart` answers, which the client names when it completes the upload.
  abbrev pub expected : ℕ → List Bytes → List UploadedPart
  expected n [] = []
  expected n (body ∷ bodies) =
      record {
        part_number = pos n;
        etag = etag_of md5 uploads_root objects_root body;
        size = length body;
      }
      ∷ expected (n + 1) bodies

  -- Calls of `UploadPart` for the parts from `n` on, with their answers.
  abbrev pub upload_parts :
      Bytes → Bytes → Bytes → ℕ → List Bytes → Disk → List (Result UploadedPart) × Disk
  upload_parts bucket key id n [] disk = ([], disk)
  upload_parts bucket key id n (body ∷ bodies) disk =
      let (answer, next) =
        upload_part md5 uploads_root objects_root bucket key id (pos n) body disk in
      let (answers, final) = upload_parts bucket key id (n + 1) bodies next in
      (answer ∷ answers, final)

  pub ascending-expected : (n : ℕ) (bodies : List Bytes) → ascending (expected n bodies) ≡ true
  unfolding ascending
  ascending-expected n [] = refl
  ascending-expected n (a ∷ []) = refl
  ascending-expected n (a ∷ b ∷ bodies) = rw (step_up n) (ascending-expected (n + 1) (b ∷ bodies))

  bodies_of_step :
      (want : UploadedPart) (rest : List UploadedPart) (parts : Table ℕ Bytes) (body : Bytes)
      (bodies : List Bytes)
      → part_of want.part_number parts ≡ some body
      → want.etag ≡ etag_of md5 uploads_root objects_root body
      → bodies_of md5 uploads_root objects_root rest parts ≡ some bodies
      → bodies_of md5 uploads_root objects_root (want ∷ rest) parts ≡ some (body ∷ bodies)
  unfolding bodies_of
  bodies_of_step want rest parts body bodies p e r =
      let more = bodies_of md5 uploads_root objects_root rest parts in
      let same : (normalize_etag (etag_of md5 uploads_root objects_root body)
            == normalize_etag want.etag)
          ≡ true =
        ap
          (λ (t : Bytes).
            normalize_etag (etag_of md5 uploads_root objects_root body) == normalize_etag t)
          e
        ∙ ==_refl (normalize_etag (etag_of md5 uploads_root objects_root body)) in
      ap
        (λ o. elim o [
          | none ↦ none
          | some b ↦
              if not (
                normalize_etag (etag_of md5 uploads_root objects_root b)
                == normalize_etag want.etag)
              then none
              else elim more [ none ↦ none | some bs ↦ some (b ∷ bs) ]
        ])
        p
      ∙ ap (λ b. if not b then none else elim more [ none ↦ none | some bs ↦ some (body ∷ bs) ])
          same
      ∙ ap (λ o. elim o [ none ↦ none | some bs ↦ some (body ∷ bs) ]) r

  stored :
      (n : ℕ) (body : Bytes) (bodies : List Bytes) (parts : Table ℕ Bytes)
      → part_of (pos n) (parts_after (n + 1) bodies (insert n body parts)) ≡ some body
  unfolding part_of
  stored n body bodies parts =
      lookup-parts_after n (n + 1) bodies (insert n body parts) (omega arith)
      ∙ lookup-insert n n body parts
      ∙ ap (λ (b : Bool). if b then some body else lookup n parts) (==_refl n)

  pub bodies_of-expected :
      (n : ℕ) (bodies : List Bytes) (parts : Table ℕ Bytes)
      → bodies_of md5 uploads_root objects_root (expected n bodies) (parts_after n bodies parts)
        ≡ some bodies
  bodies_of-expected n [] parts = unfold bodies_of in refl
  bodies_of-expected n (body ∷ bodies) parts =
      bodies_of_step _ (expected (n + 1) bodies) (parts_after (n + 1) bodies (insert n body parts))
        body bodies (stored n body bodies parts) refl
        (bodies_of-expected (n + 1) bodies (insert n body parts))
