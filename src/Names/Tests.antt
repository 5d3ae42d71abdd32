-- ===== src/Names/Tests.antt =====
-- Names that pass the validation, and names that do not.
use byte_bucket.Prelude.{[], ◌∷◌, ◌++◌, ◌≡◌, refl, Bool, true, false, none, some, ◌↔◌, ◌≤◌, length}
use byte_bucket.Bytes.{
  Bytes, bytes, slash, split, has_suffix, has_prefix, trim_prefix, strip_prefix,
}
use byte_bucket.Path.{safe_join, clean}
use byte_bucket.Path.Tests.{absolute, not_the_root}
use byte_bucket.Names.{
  validate_bucket_name, scan_name, validate_object_key, has_control, all_safe, segment_is_safe,
  is_member, ends_with_one_of,
}
use byte_bucket.Names.Buckets.{IsLabels, validate_bucket_name_iff}
use byte_bucket.Names.Keys.{validate_object_key-safe_join}

abbrev pub any_utf8 : Bytes → Bool
any_utf8 s = true

two_labels : validate_bucket_name (bytes "my-bucket1") ≡ true
unfolding validate_bucket_name scan_name
two_labels = refl

double_hyphen : validate_bucket_name (bytes "my--bucket") ≡ false
unfolding validate_bucket_name scan_name
double_hyphen = refl

pub nested_key : validate_object_key any_utf8 (bytes "/a/b.txt") ≡ some (bytes "a/b.txt")
unfolding validate_object_key has_control all_safe segment_is_safe is_member ends_with_one_of split
    trim_prefix strip_prefix has_suffix has_prefix
nested_key = refl

sidecar_key : validate_object_key any_utf8 (bytes "a/b.txt.meta") ≡ none
unfolding validate_object_key has_control all_safe segment_is_safe is_member ends_with_one_of split
    trim_prefix strip_prefix has_suffix has_prefix
sidecar_key = refl

validate_bucket_name_iff_example :
    (validate_bucket_name (bytes "my-bucket1") ≡ true)
    ↔ (IsLabels (bytes "my-bucket1") × (length (bytes "my-bucket1") ≤ 63))
validate_bucket_name_iff_example = validate_bucket_name_iff (bytes "my-bucket1")

validate_object_key-safe_join_example :
    safe_join (bytes "/data/objects") (bytes "my-bucket1" ∷ bytes "a/b.txt" ∷ [])
    ≡ some (
        (clean (bytes "/data/objects") ++ (slash ∷ bytes "my-bucket1"))
        ++ (slash ∷ bytes "a/b.txt"))
validate_object_key-safe_join_example =
    validate_object_key-safe_join any_utf8 (bytes "/data/objects") (bytes "my-bucket1")
      (bytes "/a/b.txt") (bytes "a/b.txt") absolute not_the_root two_labels nested_key
