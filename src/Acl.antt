-- ===== src/Acl.antt =====
-- Canned ACLs of internal/storage/acl.go. The files that the code reads and writes, the sidecars of
-- one bucket and one object, are the state; decoded documents stand for their JSON text.
mod Access
mod Tests
use byte_bucket.Prelude.{
  Bool, true, false, not, List, [], ◌∷◌, Option, none, some, ◌==◌, nat_equality, list_equality,
  if◌then◌else◌, map,
}
use byte_bucket.Bytes.{Bytes, bytes, trim_space, to_lower_byte}
use byte_bucket.Table.{Table, lookup, insert}
use byte_bucket.Path.{safe_join}

abbrev pub acl_private : Bytes
acl_private = bytes "private"

abbrev pub acl_public_read : Bytes
acl_public_read = bytes "public-read"

unfoldable pub to_lower : Bytes → Bytes
unfolding to_lower_byte
to_lower s = map to_lower_byte s

-- `none` is the error "unsupported canned ACL".
pub normalize_canned_acl : Bytes → Option Bytes
unfolding to_lower trim_space
normalize_canned_acl v =
    let s = to_lower (trim_space v) in
    if s == []
    then some acl_private
    else if s == acl_private
    then some acl_private
    else if s == acl_public_read
    then some acl_public_read
    else none

-- `strings.EqualFold(acl, ACLPublicRead)`, for ASCII text
unfoldable pub is_public_read : Bytes → Bool
unfolding to_lower
is_public_read acl = to_lower acl == to_lower acl_public_read

pub data AclError : Type 0 where
  no_such_bucket_acl unsupported_canned_acl path_escape io_error bad_json nil_bucket_acl : AclError

pub data Result {ℓ} (A : Type ℓ) : Type ℓ where
  ok : A → Result A
  failed : AclError → Result A

-- A sidecar: not there, there but not readable, not the JSON that is expected, or a document.
pub data File {ℓ} (A : Type ℓ) : Type ℓ where
  missing unreadable garbage : File A
  document : A → File A

pub record BucketAcl : Type 0 where
  pub canned : Bytes

-- The bucket's .acl.json and the object's .meta.
pub record Sidecars : Type 0 where
  pub bucket_acl : File BucketAcl
  pub object_meta : File (Table Bytes Bytes)

pub data AclSource : Type 0 where
  acl_source_object acl_source_bucket acl_source_default : AclSource

unfoldable pub effective_of : Result BucketAcl → Result Bytes
effective_of (ok acl) = ok acl.canned
effective_of (failed no_such_bucket_acl) = ok acl_private
effective_of (failed e) = failed e

-- `meta["acl"]`, which is empty for a missing key
pub acl_of : Table Bytes Bytes → Bytes
acl_of meta = elim (lookup (bytes "acl") meta) [ none ↦ [] | some acl ↦ acl ]

unfoldable pub object_acl_from_sidecar : Sidecars → Result Bytes
unfolding acl_of
object_acl_from_sidecar files = elim files.object_meta [
  | missing ↦ ok []
  | unreadable ↦ failed io_error
  | garbage ↦ failed bad_json
  | document meta ↦ ok (acl_of meta)
]

pub resolve_bucket : Result BucketAcl → Result (Bytes × AclSource)
resolve_bucket (ok acl) = ok (acl.canned, acl_source_bucket)
resolve_bucket (failed no_such_bucket_acl) = ok (acl_private, acl_source_default)
resolve_bucket (failed e) = failed e

module _ (objects_root : Bytes) where
  unfoldable pub bucket_acl_path : Bytes → Option Bytes
  bucket_acl_path bucket = safe_join objects_root (bucket ∷ bytes ".acl.json" ∷ [])

  unfoldable pub get_bucket_acl : Bytes → Sidecars → Result BucketAcl
  unfolding bucket_acl_path
  get_bucket_acl bucket files = elim (bucket_acl_path bucket) [
    | none ↦ failed path_escape
    | some path ↦ elim files.bucket_acl [
      | missing ↦ failed no_such_bucket_acl
      | unreadable ↦ failed io_error
      | garbage ↦ failed bad_json
      | document acl ↦ ok acl
    ]
  ]

  -- The write to the temporary file and its rename may fail, which leaves the sidecar as it was.
  pub put_bucket_acl : Bool → Bytes → Option BucketAcl → Sidecars → Result {0} Unit × Sidecars
  unfolding bucket_acl_path normalize_canned_acl
  put_bucket_acl write_ok bucket none files = (failed nil_bucket_acl, files)
  put_bucket_acl write_ok bucket (some acl) files = elim (normalize_canned_acl acl.canned) [
    | none ↦ (failed unsupported_canned_acl, files)
    | some canned ↦ elim (bucket_acl_path bucket) [
      | none ↦ (failed path_escape, files)
      | some path ↦
          if write_ok
          then (ok tt, record files { bucket_acl = document (record { canned = canned }) })
          else (failed io_error, files)
    ]
  ]

  unfoldable pub effective_bucket_acl : Bytes → Sidecars → Result Bytes
  unfolding effective_of get_bucket_acl
  effective_bucket_acl bucket files = effective_of (get_bucket_acl bucket files)

  pub resolve_object_acl : Bytes → Sidecars → Result (Bytes × AclSource)
  unfolding object_acl_from_sidecar resolve_bucket get_bucket_acl to_lower
  resolve_object_acl bucket files = elim (object_acl_from_sidecar files) [
    | failed e ↦ failed e
    | ok [] ↦ resolve_bucket (get_bucket_acl bucket files)
    | ok (c ∷ acl) ↦ ok (to_lower (c ∷ acl), acl_source_object)
  ]

  unfoldable pub effective_object_acl : Bytes → Sidecars → Result Bytes
  unfolding object_acl_from_sidecar effective_bucket_acl to_lower
  effective_object_acl bucket files = elim (object_acl_from_sidecar files) [
    | failed e ↦ failed e
    | ok [] ↦ effective_bucket_acl bucket files
    | ok (c ∷ acl) ↦ ok (to_lower (c ∷ acl))
  ]

pub store_acl : Bool → Bytes → Table Bytes Bytes → Sidecars → Result {0} Unit × Sidecars
store_acl write_ok canned meta files =
    if write_ok
    then (ok tt, record files { object_meta = document (insert (bytes "acl") canned meta) })
    else (failed io_error, files)

pub set_object_acl : Bool → Bytes → Sidecars → Result {0} Unit × Sidecars
unfolding normalize_canned_acl store_acl
set_object_acl write_ok v files = elim (normalize_canned_acl v) [
  | none ↦ (failed unsupported_canned_acl, files)
  | some canned ↦ elim files.object_meta [
    | missing ↦ store_acl write_ok canned [] files
    | unreadable ↦ (failed io_error, files)
    | garbage ↦ (failed bad_json, files)
    | document meta ↦ store_acl write_ok canned meta files
  ]
]
