-- ===== src/Multipart/Tests.antt =====
-- An upload of two parts, with a digest that sums the bytes up.
use byte_bucket.Prelude.{
  list_equality, nat_equality, ◌+◌, ◌≤◌, ◌%◌, length, map, [], ◌∷◌, ◌≡◌, refl, List, some, none,
  arith,
}
use byte_bucket.Bytes.{Bytes, bytes}
use byte_bucket.Path.Tests.{upload_path, object_path}
use byte_bucket.Table.{lookup}
use byte_bucket.Multipart.{
  Disk, Staging, UploadedPart, Io, all_succeeds, sidecar_fails, ok, upload_dir,
  create_multipart_upload, complete_multipart_upload, composite_etag, concat,
}
use byte_bucket.Multipart.Assembly.{complete-upload_parts}
use byte_bucket.Multipart.Parts.{upload_parts, expected}

abbrev digest : Bytes → Bytes
digest [] = 0 ∷ []
digest (c ∷ s) = (c + 1) % 256 ∷ []

abbrev empty_disk : Disk
empty_disk = record { uploads = []; temps = []; objects = []; sidecars = [] }

staging_path :
    upload_dir digest (bytes "/data/uploads") (bytes "/data/objects") (bytes "b") (bytes "id")
    ≡ some (bytes "/data/uploads/b/id")
unfolding upload_dir
staging_path = upload_path

two_parts : length (bytes "xy" ∷ bytes "z" ∷ []) ≤ 10000
two_parts = omega arith

complete-upload_parts_example :
    let created =
      (create_multipart_upload digest
        (bytes "/data/uploads")
        (bytes "/data/objects")
        (bytes "id")
        7
        (bytes "b")
        (bytes "k")
        []
        empty_disk).1 in
    let (answers, filled) =
      upload_parts digest
        (bytes "/data/uploads")
        (bytes "/data/objects")
        (bytes "b")
        (bytes "k")
        (bytes "id")
        1
        (bytes "xy" ∷ bytes "z" ∷ [])
        created in
    let (result, final) =
      complete_multipart_upload digest
        (bytes "/data/uploads")
        (bytes "/data/objects")
        all_succeeds
        (bytes "b")
        (bytes "k")
        (bytes "id")
        (expected digest
          (bytes "/data/uploads")
          (bytes "/data/objects")
          1
          (bytes "xy" ∷ bytes "z" ∷ []))
        filled in
    (answers
      ≡ map ok (
          expected digest
            (bytes "/data/uploads")
            (bytes "/data/objects")
            1
            (bytes "xy" ∷ bytes "z" ∷ [])))
    × (result
        ≡ ok (
          composite_etag digest
              (bytes "/data/uploads")
              (bytes "/data/objects")
              (bytes "xy" ∷ bytes "z" ∷ []),
          length (
              concat digest
                (bytes "/data/uploads")
                (bytes "/data/objects")
                (bytes "xy" ∷ bytes "z" ∷ [])),
        ))
    × (lookup (bytes "/data/objects/b/k") final.objects
        ≡ some (
            concat digest
              (bytes "/data/uploads")
              (bytes "/data/objects")
              (bytes "xy" ∷ bytes "z" ∷ [])))
    × (lookup (bytes "/data/uploads/b/id") final.uploads ≡ none)
complete-upload_parts_example =
    complete-upload_parts digest (bytes "/data/uploads") (bytes "/data/objects") (bytes "id") 7
      (bytes "b") (bytes "k") [] empty_disk (bytes "/data/uploads/b/id") (bytes "/data/objects/b/k")
      (bytes "xy") (bytes "z" ∷ []) refl staging_path object_path two_parts

abbrev part : Bytes
part = bytes "xy"

abbrev staged : Staging
staged = record {
  manifest = record {
    upload_id = bytes "id";
    bucket = bytes "b";
    key = bytes "k";
    initiated = 7;
    metadata = [];
  };
  parts = (1, part) ∷ [];
}

abbrev staged_disk : Disk
staged_disk = record empty_disk { uploads = (bytes "/data/uploads/b/id", staged) ∷ [] }

-- The write of the sidecar leaves an empty file.
abbrev full_disk : Io
full_disk = record all_succeeds { fault = some (sidecar_fails none) }

abbrev request : List UploadedPart
request = expected digest (bytes "/data/uploads") (bytes "/data/objects") 1 (part ∷ [])
