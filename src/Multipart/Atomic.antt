-- ===== src/Multipart/Atomic.antt =====
-- What a completion that fails leaves on the disk (internal/storage/multipart.go).
use byte_bucket.Prelude.{
  List, [], ◌∷◌, ◌≡◌, refl, Option, none, some, if◌then◌else◌, ◌==◌, nat_equality, list_equality,
  ◌⊎◌,
}
use byte_bucket.Bytes.{Bytes}
use byte_bucket.Path.{safe_join}
use byte_bucket.Table.{lookup, insert, lookup-insert, lookup-erase, Table}
use byte_bucket.Multipart.{
  UploadedPart, Staging, Disk, Io, sidecar_fails, ok, bodies_of, concat, install, open_upload,
}

-- Every object and every sidecar is as it was.
pub record IsUntouched (before after : Disk) : Type 0 where
  pub same_objects : after.objects ≡ before.objects
  pub same_sidecars : after.sidecars ≡ before.sidecars

module _ (md5 : Bytes → Bytes) (uploads_root objects_root : Bytes) where
  -- The new object is in place, but the write of its sidecar failed.
  pub record IsInstalled (io : Io) (path : Bytes) (bodies : List Bytes) (before after : Disk)
      : Type 0 where
    pub left : Option (Table Bytes Bytes)
    pub broken : io.fault ≡ some (sidecar_fails left)
    pub object :
        after.objects ≡ insert path (concat md5 uploads_root objects_root bodies) before.objects
    pub sidecars :
        (other : Bytes)
        → lookup other after.sidecars
          ≡ (if path == other then left else lookup other before.sidecars)

  -- The object whose parts the request names is installed at the path of its key.
  pub record IsHalfDone (io : Io) (bucket key id : Bytes) (expected : List UploadedPart)
      (before after : Disk) : Type 0 where
    pub dir : Bytes
    pub staging : Staging
    pub opened : open_upload md5 uploads_root objects_root bucket key id before ≡ ok (dir, staging)
    pub bodies : List Bytes
    pub found : bodies_of md5 uploads_root objects_root expected staging.parts ≡ some bodies
    pub path : Bytes
    pub inside : safe_join objects_root (bucket ∷ key ∷ []) ≡ some path
    pub installed : IsInstalled io path bodies before after

  left_sidecar :
      (path content other : Bytes) (left : Option (Table Bytes Bytes)) (disk : Disk)
      → lookup other (install md5 uploads_root objects_root path content left disk).sidecars
        ≡ (if path == other then left else lookup other disk.sidecars)
  unfolding install
  left_sidecar path content other none disk = lookup-erase path other disk.sidecars
  left_sidecar path content other (some meta) disk = lookup-insert path other meta disk.sidecars

  same_object :
      (path content : Bytes) (left : Option (Table Bytes Bytes)) (disk : Disk)
      → (install md5 uploads_root objects_root path content left disk).objects
        ≡ insert path content disk.objects
  unfolding install
  same_object path content left disk = refl

  abbrev Outcome : Io → Bytes → List Bytes → Disk → Disk → Type 0
  Outcome io path bodies before after =
      (after.uploads ≡ before.uploads)
      × (IsUntouched before after ⊎ IsInstalled io path bodies before after)

  installed :
      (io : Io) (path : Bytes) (bodies : List Bytes) (left : Option (Table Bytes Bytes))
      (disk : Disk)
      → io.fault ≡ some (sidecar_fails left)
      → IsInstalled io path bodies disk (
          install md5 uploads_root objects_root path
            (concat md5 uploads_root objects_root bodies)
            left
            disk)
  installed io path bodies left disk broken =
      let content = concat md5 uploads_root objects_root bodies in
      record {
        left = left;
        broken = broken;
        object = same_object path content left disk;
        sidecars = λ other. left_sidecar path content other left disk;
      }

  abbrev pub Failed : Io → Bytes → Bytes → Bytes → List UploadedPart → Disk → Disk → Type 0
  Failed io bucket key id expected before after =
      (after.uploads ≡ before.uploads)
      × (IsUntouched before after ⊎ IsHalfDone io bucket key id expected before after)
