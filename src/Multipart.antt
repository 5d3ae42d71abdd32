-- ===== src/Multipart.antt =====
-- Multipart uploads of internal/storage/multipart.go. The file system is the state: the staging
-- directories by their path, and the objects with their sidecars by theirs. A staging directory is
-- its manifest and the parts by their number, which the file name `%05d` stands for. A completion
-- is given the step of it that fails, if one does; elsewhere reads and writes of files succeed.
-- Decoded documents stand for their JSON text, and empty directories and the times of parts are left
-- out.
mod Atomic
mod Parts
mod Staged
mod Assembly
mod Tests
use byte_bucket.Prelude.{
  ℕ, zero, suc, ◌+◌, ◌*◌, ◌-◌, ◌/◌, ◌%◌, Bool, true, false, ◌&&◌, ◌||◌, not, List, [], ◌∷◌, ◌++◌,
  Option, none, some, ◌==◌, nat_equality, list_equality, if◌then◌else◌, leb, ltb, length, map,
}
use byte_bucket.Prelude.Int.{ℤ, pos, negsuc, within, lte, to_ℕ}
use byte_bucket.Bytes.{Bytes, bytes, trim_byte}
use byte_bucket.Bytes.Digits.{hex, decimal}
use byte_bucket.Path.{safe_join}
use byte_bucket.Table.{Table, lookup, insert, erase}

abbrev pub min_part_number : ℕ
min_part_number = 1

abbrev pub max_part_number : ℕ
max_part_number = 10000

pub record MultipartUpload : Type 0 where
  pub upload_id : Bytes
  pub bucket : Bytes
  pub key : Bytes
  pub initiated : ℕ
  pub metadata : Table Bytes Bytes

pub record UploadedPart : Type 0 where
  pub part_number : ℤ
  pub etag : Bytes
  pub size : ℕ

pub record Staging : Type 0 where
  pub manifest : MultipartUpload
  pub parts : Table ℕ Bytes

-- The `.mpu.tmp` files of completions stand apart from the objects.
pub record Disk : Type 0 where
  pub uploads : Table Bytes Staging
  pub temps : Table Bytes Bytes
  pub objects : Table Bytes Bytes
  pub sidecars : Table Bytes (Table Bytes Bytes)

pub data UploadError : Type 0 where
  no_such_upload invalid_part invalid_part_order invalid_part_range : UploadError
  path_escape bucket_and_key_required io_error : UploadError

-- The first step of an assembly that fails. A copy that fails has written some bytes, or finds that
-- the part is gone; a write of the sidecar leaves the document that the file then holds, if any.
pub data Fault : Type 0 where
  mkdir_fails create_fails : Fault
  copy_fails part_gone : Bytes → Fault
  close_fails rename_fails : Fault
  sidecar_fails : Option (Table Bytes Bytes) → Fault

-- What the file system does during a completion.
pub record Io : Type 0 where
  pub lists : Bool
  pub fault : Option Fault
  pub removes_temp : Bool
  pub removes_staging : Bool

abbrev pub all_succeeds : Io
all_succeeds = record { lists = true; fault = none; removes_temp = true; removes_staging = true }

pub data Result {ℓ} (A : Type ℓ) : Type ℓ where
  ok : A → Result A
  failed : UploadError → Result A

abbrev pub quote : Bytes
quote = 34 ∷ []

-- Insertion into the parts that are sorted by their number.
insert_part : UploadedPart → List UploadedPart → List UploadedPart
insert_part p [] = p ∷ []
insert_part p (r ∷ rest) =
    let more = insert_part p rest in
    if lte p.part_number r.part_number then p ∷ r ∷ rest else r ∷ more

sort_parts : List UploadedPart → List UploadedPart
unfolding insert_part
sort_parts [] = []
sort_parts (p ∷ ps) = insert_part p (sort_parts ps)

-- `strings.Trim(s, "\"")`
pub normalize_etag : Bytes → Bytes
unfolding trim_byte
normalize_etag s = trim_byte 34 s

pub ascending : List UploadedPart → Bool
ascending [] = true
ascending (p ∷ []) = true
ascending (p ∷ r ∷ rest) =
    let more = ascending (r ∷ rest) in if lte r.part_number p.part_number then false else more

pub part_of : ℤ → Table ℕ Bytes → Option Bytes
part_of (pos n) parts = lookup n parts
part_of (negsuc n) parts = none

-- MD5 is a parameter, and so are the two roots.
module _ (md5 : Bytes → Bytes) (uploads_root objects_root : Bytes) where
  pub upload_dir : Bytes → Bytes → Option Bytes
  upload_dir bucket upload_id = safe_join uploads_root (bucket ∷ upload_id ∷ [])

  -- The new identifier and the time are arguments.
  pub create_multipart_upload :
      Bytes → ℕ → Bytes → Bytes → Table Bytes Bytes → Disk → Result MultipartUpload × Disk
  unfolding upload_dir
  create_multipart_upload new_id now bucket key metadata disk =
      if bucket == [] || key == []
      then (failed bucket_and_key_required, disk)
      else let up : MultipartUpload = record {
        upload_id = new_id;
        bucket = bucket;
        key = key;
        initiated = now;
        metadata = metadata;
      } in
        elim (upload_dir bucket new_id) [
          | none ↦ (failed path_escape, disk)
          | some dir ↦ (
            ok up,
            record disk {
              uploads = insert dir (record { manifest = up; parts = [] }) disk.uploads;
            },
          )
        ]

  pub check_owner : Bytes → Bytes → Bytes → Staging → Result (Bytes × Staging)
  check_owner bucket key dir staging =
      if not (staging.manifest.key == key) || not (staging.manifest.bucket == bucket)
      then failed no_such_upload
      else ok (dir, staging)

  pub open_upload : Bytes → Bytes → Bytes → Disk → Result (Bytes × Staging)
  unfolding upload_dir check_owner
  open_upload bucket key upload_id disk = elim (upload_dir bucket upload_id) [
    | none ↦ failed no_such_upload
    | some dir ↦ elim (lookup dir disk.uploads) [
      | none ↦ failed no_such_upload
      | some staging ↦ check_owner bucket key dir staging
    ]
  ]

  pub get_multipart_upload : Bytes → Bytes → Bytes → Disk → Result MultipartUpload
  unfolding open_upload
  get_multipart_upload bucket key upload_id disk = elim (open_upload bucket key upload_id disk) [
    | failed e ↦ failed e
    | ok (dir, staging) ↦ ok staging.manifest
  ]

  pub etag_of : Bytes → Bytes
  unfolding hex
  etag_of body = quote ++ (hex (md5 body) ++ quote)

  pub upload_part : Bytes → Bytes → Bytes → ℤ → Bytes → Disk → Result UploadedPart × Disk
  unfolding open_upload etag_of
  upload_part bucket key upload_id part_number body disk =
      if not (within part_number min_part_number max_part_number)
      then (failed invalid_part_range, disk)
      else elim (open_upload bucket key upload_id disk) [
        | failed e ↦ (failed e, disk)
        | ok (dir, staging) ↦ (
          ok (record { part_number = part_number; etag = etag_of body; size = length body }),
          record disk {
            uploads =
                insert dir (record staging { parts = insert (to_ℕ part_number) body staging.parts })
                  disk.uploads;
          },
        )
      ]

  uploaded : ℕ × Bytes → UploadedPart
  unfolding etag_of
  uploaded (n, body) = record { part_number = pos n; etag = etag_of body; size = length body }

  pub list_parts : Bytes → Bytes → Bytes → Disk → Result (List UploadedPart)
  unfolding open_upload sort_parts uploaded
  list_parts bucket key upload_id disk = elim (open_upload bucket key upload_id disk) [
    | failed e ↦ failed e
    | ok (dir, staging) ↦ ok (sort_parts (map uploaded staging.parts))
  ]

  -- The bodies of the expected parts in their order, if each is stored under the tag that the
  -- client names.
  pub bodies_of : List UploadedPart → Table ℕ Bytes → Option (List Bytes)
  unfolding part_of etag_of normalize_etag
  bodies_of [] parts = some []
  bodies_of (want ∷ rest) parts =
      let more = bodies_of rest parts in
      elim (part_of want.part_number parts) [
        | none ↦ none
        | some body ↦
            if not (normalize_etag (etag_of body) == normalize_etag want.etag)
            then none
            else elim more [ none ↦ none | some bodies ↦ some (body ∷ bodies) ]
      ]

  pub concat : List Bytes → Bytes
  concat [] = []
  concat (s ∷ ss) = s ++ concat ss

  pub composite_etag : List Bytes → Bytes
  unfolding hex decimal concat
  composite_etag bodies =
      quote
      ++ (hex (md5 (concat (map md5 bodies))) ++ (bytes "-" ++ (decimal (length bodies) ++ quote)))

  pub sidecar_of : MultipartUpload → Bytes → ℕ → ℕ → Table Bytes Bytes
  unfolding decimal
  sidecar_of up etag total count =
      insert (bytes "x-amz-multipart-parts") (decimal count)
        (insert (bytes "Content-Length") (decimal total) (insert (bytes "ETag") etag up.metadata))

  -- After a failure between the creation of the temporary file and its rename.
  pub abandon : Io → Bytes → Bytes → Disk → Disk
  abandon io path written disk = record disk {
    temps = if io.removes_temp then erase path disk.temps else insert path written disk.temps;
  }

  -- After the rename, with what the sidecar then holds.
  pub install : Bytes → Bytes → Option (Table Bytes Bytes) → Disk → Disk
  install path content sidecar disk = record disk {
    temps = erase path disk.temps;
    objects = insert path content disk.objects;
    sidecars = elim sidecar [
      | none ↦ erase path disk.sidecars
      | some meta ↦ insert path meta disk.sidecars
    ];
  }

  -- From `MkdirAll` on: the object with its sidecar, and the staging directory gone.
  pub assemble : Io → Bytes → Bytes → Staging → List Bytes → Disk → Result (Bytes × ℕ) × Disk
  unfolding concat composite_etag sidecar_of abandon install
  assemble io path dir staging bodies disk =
      let content = concat bodies in
      let etag = composite_etag bodies in
      let sidecar = sidecar_of staging.manifest etag (length content) (length bodies) in
      let done = install path content (some sidecar) disk in
      elim io.fault [
        | some mkdir_fails ↦ (failed io_error, disk)
        | some create_fails ↦ (failed io_error, disk)
        | some (copy_fails written) ↦ (failed io_error, abandon io path written disk)
        | some (part_gone written) ↦ (failed invalid_part, abandon io path written disk)
        | some close_fails ↦ (failed io_error, abandon io path content disk)
        | some rename_fails ↦ (failed io_error, abandon io path content disk)
        | some (sidecar_fails left) ↦ (failed io_error, install path content left disk)
        | none ↦ (
          ok (etag, length content),
          record done {
            uploads = if io.removes_staging then erase dir disk.uploads else disk.uploads;
          },
        )
      ]

  pub complete_checked :
      Io → Bytes → Bytes → Bytes → Staging → List UploadedPart → Disk → Result (Bytes × ℕ) × Disk
  unfolding ascending bodies_of assemble
  complete_checked io bucket key dir staging expected disk =
      if not (ascending expected)
      then (failed invalid_part_order, disk)
      else if not io.lists
      then (failed io_error, disk)
      else elim (bodies_of expected staging.parts) [
        | none ↦ (failed invalid_part, disk)
        | some bodies ↦ elim (safe_join objects_root (bucket ∷ key ∷ [])) [
          | none ↦ (failed path_escape, disk)
          | some path ↦ assemble io path dir staging bodies disk
        ]
      ]

  pub complete_multipart_upload :
      Io → Bytes → Bytes → Bytes → List UploadedPart → Disk → Result (Bytes × ℕ) × Disk
  unfolding open_upload complete_checked
  complete_multipart_upload io bucket key upload_id expected disk =
      elim (open_upload bucket key upload_id disk) [
        | failed e ↦ (failed e, disk)
        | ok (dir, staging) ↦ elim expected [
          | [] ↦ (failed invalid_part, disk)
          | p ∷ ps ↦ complete_checked io bucket key dir staging (p ∷ ps) disk
        ]
      ]

  pub abort_multipart_upload : Bytes → Bytes → Bytes → Disk → Result {0} Unit × Disk
  unfolding open_upload
  abort_multipart_upload bucket key upload_id disk = elim (open_upload bucket key upload_id disk) [
    | failed e ↦ (failed e, disk)
    | ok (dir, staging) ↦ (ok tt, record disk { uploads = erase dir disk.uploads })
  ]
