-- ===== src/Multipart/Assembly.antt =====
-- An upload from its creation to the object (internal/storage/multipart.go).
use byte_bucket.Prelude.{
  ℕ, ◌≤◌, Bool, true, false, ◌||◌, List, [], ◌∷◌, none, some, ◌==◌, ==_refl, nat_equality,
  list_equality, if◌then◌else◌, length, map, ◌≡◌, refl, ap, ◌∙◌, arith,
}
use byte_bucket.Bytes.{Bytes}
use byte_bucket.Path.{safe_join}
use byte_bucket.Table.{Table, lookup, lookup-insert, lookup-erase}
use byte_bucket.Multipart.{
  MultipartUpload, Staging, Disk, ok, ascending, upload_dir, create_multipart_upload, bodies_of,
  concat, composite_etag, assemble, complete_checked, complete_multipart_upload, all_succeeds,
}
use byte_bucket.Multipart.Parts.{
  parts_after, expected, upload_parts, ascending-expected, bodies_of-expected,
}
use byte_bucket.Multipart.Staged.{Opened, open_upload-Opened, upload_parts-Opened}

module _ (md5 : Bytes → Bytes) (uploads_root objects_root : Bytes) where
  complete_checked-expected :
      (bucket key dir path : Bytes) (staging : Staging) (disk : Disk) (body : Bytes)
      (bodies : List Bytes)
      → ascending (expected md5 uploads_root objects_root 1 (body ∷ bodies)) ≡ true
      → bodies_of md5 uploads_root objects_root
          (expected md5 uploads_root objects_root 1 (body ∷ bodies))
          staging.parts
        ≡ some (body ∷ bodies)
      → safe_join objects_root (bucket ∷ key ∷ []) ≡ some path
      → complete_checked md5 uploads_root objects_root all_succeeds bucket key dir staging
          (expected md5 uploads_root objects_root 1 (body ∷ bodies))
          disk
        ≡ assemble md5 uploads_root objects_root all_succeeds path dir staging (body ∷ bodies) disk
  unfolding complete_checked
  complete_checked-expected bucket key dir path staging disk body bodies sorted found p =
      rw (sorted, complete_checked) (rw (found, complete_checked) (rw (p, complete_checked) refl))

  complete-Opened :
      (bucket key id dir path : Bytes) (staging : Staging) (disk : Disk) (body : Bytes)
      (bodies : List Bytes) (parts : Table ℕ Bytes)
      → Opened md5 uploads_root objects_root bucket key id dir
          (record staging { parts = parts_after 1 (body ∷ bodies) parts })
          disk
      → safe_join objects_root (bucket ∷ key ∷ []) ≡ some path
      → complete_multipart_upload md5 uploads_root objects_root all_succeeds bucket key id
          (expected md5 uploads_root objects_root 1 (body ∷ bodies))
          disk
        ≡ assemble md5 uploads_root objects_root all_succeeds path dir
            (record staging { parts = parts_after 1 (body ∷ bodies) parts })
            (body ∷ bodies)
            disk
  unfolding complete_multipart_upload complete_checked
  complete-Opened bucket key id dir path staging disk body bodies parts o p =
      let staged : Staging = record staging { parts = parts_after 1 (body ∷ bodies) parts } in
      rw
        (
          open_upload-Opened md5 uploads_root objects_root bucket key id dir staged disk o,
          complete_multipart_upload,
        )
        (complete_checked-expected bucket key dir path staged disk body bodies
          (ascending-expected md5 uploads_root objects_root 1 (body ∷ bodies))
          (bodies_of-expected md5 uploads_root objects_root 1 (body ∷ bodies) parts) p)

  new_upload : Bytes → ℕ → Bytes → Bytes → Table Bytes Bytes → MultipartUpload
  new_upload id now bucket key metadata = record {
    upload_id = id;
    bucket = bucket;
    key = key;
    initiated = now;
    metadata = metadata;
  }

  create-Opened :
      (id : Bytes) (now : ℕ) (bucket key : Bytes) (metadata : Table Bytes Bytes) (disk : Disk)
      (dir : Bytes)
      → (bucket == [] || key == []) ≡ false
      → upload_dir md5 uploads_root objects_root bucket id ≡ some dir
      → Opened md5 uploads_root objects_root bucket key id dir
          (record { manifest = new_upload id now bucket key metadata; parts = [] })
          (create_multipart_upload md5 uploads_root objects_root id now bucket key metadata disk).1
  unfolding create_multipart_upload new_upload
  create-Opened id now bucket key metadata disk dir given p = rw given (
      rw p (record {
        path = p;
        staged =
            lookup-insert dir dir
              (record { manifest = new_upload id now bucket key metadata; parts = [] }) disk.uploads
            ∙ ap
                (λ (b : Bool).
                  if b
                  then some
                      (record { manifest = new_upload id now bucket key metadata; parts = [] })
                  else lookup dir disk.uploads)
                (==_refl dir);
        same_key = refl;
        same_bucket = refl;
      }))

  assembled :
      (path dir : Bytes) (staging : Staging) (bodies : List Bytes) (disk : Disk)
      → ((assemble md5 uploads_root objects_root all_succeeds path dir staging bodies disk).0
          ≡ ok (
            composite_etag md5 uploads_root objects_root bodies,
            length (concat md5 uploads_root objects_root bodies),
          ))
        × (lookup path
              (assemble md5 uploads_root objects_root all_succeeds path dir staging bodies
                disk).1.objects
            ≡ some (concat md5 uploads_root objects_root bodies))
        × (lookup dir
              (assemble md5 uploads_root objects_root all_succeeds path dir staging bodies
                disk).1.uploads
            ≡ none)
  unfolding assemble
  assembled path dir staging bodies disk = (
    refl,
    lookup-insert path path (concat md5 uploads_root objects_root bodies) disk.objects
        ∙ ap
            (λ (b : Bool).
              if b
              then some (concat md5 uploads_root objects_root bodies)
              else lookup path disk.objects)
            (==_refl path),
    lookup-erase dir dir disk.uploads
        ∙ ap (λ (b : Bool). if b then none else lookup dir disk.uploads) (==_refl dir),
  )

  -- An upload that is created for a bucket and a key, receives one to 10000 parts from number 1 on
  -- and is completed with the answers to them, where the directory of the new upload and the path
  -- of the object resolve and no step of the file system fails: every part is accepted, the request answers the composite tag and the
  -- length, the object holds the parts' bytes in their order, and the staging directory is gone.
  pub complete-upload_parts :
      (id : Bytes) (now : ℕ) (bucket key : Bytes) (metadata : Table Bytes Bytes) (disk : Disk)
      (dir path body : Bytes) (bodies : List Bytes)
      → (bucket == [] || key == []) ≡ false
      → upload_dir md5 uploads_root objects_root bucket id ≡ some dir
      → safe_join objects_root (bucket ∷ key ∷ []) ≡ some path
      → length (body ∷ bodies) ≤ 10000
      → let created =
          (create_multipart_upload md5 uploads_root objects_root id now bucket key metadata
            disk).1 in
        let (answers, filled) =
          upload_parts md5 uploads_root objects_root bucket key id 1 (body ∷ bodies) created in
        let (result, final) =
          complete_multipart_upload md5 uploads_root objects_root all_succeeds bucket key id
            (expected md5 uploads_root objects_root 1 (body ∷ bodies))
            filled in
        (answers ≡ map ok (expected md5 uploads_root objects_root 1 (body ∷ bodies)))
        × (result
            ≡ ok (
              composite_etag md5 uploads_root objects_root (body ∷ bodies),
              length (concat md5 uploads_root objects_root (body ∷ bodies)),
            ))
        × (lookup path final.objects ≡ some (concat md5 uploads_root objects_root (body ∷ bodies)))
        × (lookup dir final.uploads ≡ none)
  complete-upload_parts id now bucket key metadata disk dir path body bodies given d p few =
      let created =
        (create_multipart_upload md5 uploads_root objects_root id now bucket key metadata disk).1 in
      let empty : Staging = record {
        manifest = new_upload id now bucket key metadata;
        parts = [];
      } in
      let opened = create-Opened id now bucket key metadata disk dir given d in
      let (answers, filled) =
        upload_parts-Opened md5 uploads_root objects_root bucket key id dir empty created 1
          (body ∷ bodies) opened (omega arith) (omega arith) in
      let done =
        complete-Opened bucket key id dir path empty
          (upload_parts md5 uploads_root objects_root bucket key id 1 (body ∷ bodies) created).1
          body bodies [] filled p in
      let (tag, object, gone) =
        assembled path dir (record empty { parts = parts_after 1 (body ∷ bodies) [] })
          (body ∷ bodies)
          (upload_parts md5 uploads_root objects_root bucket key id 1 (body ∷ bodies) created).1 in
      (
        answers,
        ap (λ r. r.0) done ∙ tag,
        ap (λ r. lookup path r.1.objects) done ∙ object,
        ap (λ r. lookup dir r.1.uploads) done ∙ gone,
      )
