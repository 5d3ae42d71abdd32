-- ===== src/Multipart/Staged.antt =====
-- The staging directory of an upload while its parts arrive (internal/storage/multipart.go).
use byte_bucket.Prelude.{
  ℕ, ◌+◌, ◌≤◌, Bool, true, ◌||◌, not, List, [], ◌∷◌, none, some, ◌==◌, ==_refl, list_test_iff,
  nat_equality, list_equality, if◌then◌else◌, length, map, ◌≡◌, refl, ap, ◌∙◌, arith,
}
use byte_bucket.Prelude.Int.{pos, within}
use byte_bucket.Bytes.{Bytes}
use byte_bucket.Table.{Table, lookup, insert, lookup-insert}
use byte_bucket.Multipart.{
  UploadedPart, Staging, Disk, Result, ok, failed, no_such_upload, upload_dir, check_owner,
  open_upload, etag_of, upload_part,
}
use byte_bucket.Multipart.Parts.{parts_after, expected, upload_parts}

in_bounds : (n : ℕ) → 1 ≤ n → n ≤ 10000 → within (pos n) 1 10000 ≡ true
in_bounds n h k = ground arith

module _ (md5 : Bytes → Bytes) (uploads_root objects_root : Bytes) where
  -- The staging directory of an upload that the caller owns.
  pub record Opened (bucket key id dir : Bytes) (staging : Staging) (disk : Disk) : Type 0 where
    pub path : upload_dir md5 uploads_root objects_root bucket id ≡ some dir
    pub staged : lookup dir disk.uploads ≡ some staging
    pub same_key : staging.manifest.key ≡ key
    pub same_bucket : staging.manifest.bucket ≡ bucket

  owned :
      (bucket key dir : Bytes) (staging : Staging)
      → staging.manifest.key ≡ key
      → staging.manifest.bucket ≡ bucket
      → check_owner md5 uploads_root objects_root bucket key dir staging ≡ ok (dir, staging)
  unfolding check_owner
  owned bucket key dir staging k b =
      let key_ok : (staging.manifest.key == key) ≡ true = (list_test_iff _ _).1 k in
      let bucket_ok : (staging.manifest.bucket == bucket) ≡ true = (list_test_iff _ _).1 b in
      ap
        (λ x.
          if not x || not (staging.manifest.bucket == bucket)
          then failed no_such_upload
          else ok (dir, staging))
        key_ok
      ∙ ap (λ x. if not x then failed no_such_upload else ok (dir, staging)) bucket_ok

  pub open_upload-Opened :
      (bucket key id dir : Bytes) (staging : Staging) (disk : Disk)
      → Opened bucket key id dir staging disk
      → open_upload md5 uploads_root objects_root bucket key id disk ≡ ok (dir, staging)
  unfolding open_upload
  open_upload-Opened bucket key id dir staging disk o =
      ap
        (λ d. elim d [
          | none ↦ failed no_such_upload
          | some dir ↦ elim (lookup dir disk.uploads) [
            | none ↦ failed no_such_upload
            | some staging ↦ check_owner md5 uploads_root objects_root bucket key dir staging
          ]
        ])
        o.path
      ∙ ap
          (λ st. elim st [
            | none ↦ failed no_such_upload
            | some staging ↦ check_owner md5 uploads_root objects_root bucket key dir staging
          ])
          o.staged
      ∙ owned bucket key dir staging o.same_key o.same_bucket

  -- The disk with new parts in a staging directory.
  abbrev with_parts : Bytes → Staging → Table ℕ Bytes → Disk → Disk
  with_parts dir staging parts disk = record disk {
    uploads = insert dir (record staging { parts = parts }) disk.uploads;
  }

  upload_part-Opened :
      (bucket key id dir : Bytes) (staging : Staging) (disk : Disk) (n : ℕ) (body : Bytes)
      → Opened bucket key id dir staging disk
      → 1 ≤ n
      → n ≤ 10000
      → upload_part md5 uploads_root objects_root bucket key id (pos n) body disk ≡ (
        ok (record {
          part_number = pos n;
          etag = etag_of md5 uploads_root objects_root body;
          size = length body;
        }),
        with_parts dir staging (insert n body staging.parts) disk,
      )
  unfolding upload_part
  upload_part-Opened bucket key id dir staging disk n body o low high =
      rw (in_bounds n low high) (rw (open_upload-Opened bucket key id dir staging disk o) refl)

  Opened-with_parts :
      (bucket key id dir : Bytes) (staging : Staging) (disk : Disk) (parts : Table ℕ Bytes)
      → Opened bucket key id dir staging disk
      → Opened bucket key id dir
          (record staging { parts = parts })
          (with_parts dir staging parts disk)
  Opened-with_parts bucket key id dir staging disk parts o = record {
    path = o.path;
    staged =
        lookup-insert dir dir (record staging { parts = parts }) disk.uploads
        ∙ ap
            (λ (b : Bool).
              if b then some (record staging { parts = parts }) else lookup dir disk.uploads)
            (==_refl dir);
    same_key = o.same_key;
    same_bucket = o.same_bucket;
  }

  pub upload_parts-Opened :
      (bucket key id dir : Bytes) (staging : Staging) (disk : Disk) (n : ℕ) (bodies : List Bytes)
      → Opened bucket key id dir staging disk
      → 1 ≤ n
      → n + length bodies ≤ 10001
      → ((upload_parts md5 uploads_root objects_root bucket key id n bodies disk).0
          ≡ map ok (expected md5 uploads_root objects_root n bodies))
        × Opened bucket key id dir
            (record staging { parts = parts_after n bodies staging.parts })
            (upload_parts md5 uploads_root objects_root bucket key id n bodies disk).1
  upload_parts-Opened bucket key id dir staging disk n [] o low high = (refl, o)
  upload_parts-Opened bucket key id dir staging disk n (body ∷ bodies) o low high =
      let parts = insert n body staging.parts in
      let first : Result UploadedPart = ok (record {
        part_number = pos n;
        etag = etag_of md5 uploads_root objects_root body;
        size = length body;
      }) in
      let (answers, opened) =
        upload_parts-Opened bucket key id dir (record staging { parts = parts })
          (with_parts dir staging parts disk) (n + 1) bodies
          (Opened-with_parts bucket key id dir staging disk parts o) (omega arith) (omega arith) in
      rw (upload_part-Opened bucket key id dir staging disk n body o low (omega arith))
        (ap (λ (rs : List (Result UploadedPart)). first ∷ rs) answers, opened)
