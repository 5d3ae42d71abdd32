-- ===== src/Names.antt =====
-- `ValidateBucketName` and `ValidateObjectKey` of internal/storage/names.go.
pub mod Buckets
pub mod Keys
pub mod Tests
use byte_bucket.Prelude.{
  ℕ, Bool, true, false, ◌&&◌, ◌||◌, not, List, [], ◌∷◌, Option, none, some, ◌==◌, nat_equality,
  list_equality, if◌then◌else◌, leb, ltb, length,
}
use byte_bucket.Bytes.{Bytes, bytes, slash, split, has_suffix, trim_prefix}
use byte_bucket.Path.{dot, dot_dot}

abbrev pub hyphen : ℕ
hyphen = b'-'

-- `[a-z0-9]`
abbrev pub is_label_byte : ℕ → Bool
is_label_byte c = (leb b'a' c && leb c b'z') || (leb b'0' c && leb c b'9')

-- The scan that the expression `^[a-z0-9]+(-[a-z0-9]+)*$` compiles to: `in_label` says whether
-- the last byte was of a label, which a hyphen and the end of the name need.
unfoldable pub scan_name : Bool → Bytes → Bool
scan_name in_label [] = in_label
scan_name in_label (c ∷ s) =
    let label = scan_name true s in
    let after_hyphen = scan_name false s in
    if is_label_byte c then label else if in_label && c == hyphen then after_hyphen else false

-- `bucketNameRe.MatchString`
abbrev pub matches_bucket_name : Bytes → Bool
matches_bucket_name s = scan_name false s

abbrev pub bucket_name_max_len : ℕ
bucket_name_max_len = 63

-- `false` is ErrInvalidBucketName.
unfoldable pub validate_bucket_name : Bytes → Bool
unfolding scan_name
validate_bucket_name name =
    if name == [] || ltb bucket_name_max_len (length name)
    then false
    else if not (matches_bucket_name name)
    then false
    else true

abbrev pub reserved_sidecar_suffixes : List Bytes
reserved_sidecar_suffixes = bytes ".meta" ∷ bytes ".tags.json" ∷ []

abbrev pub reserved_bucket_sidecars : List Bytes
reserved_bucket_sidecars = bytes ".acl.json" ∷ bytes ".cors.json" ∷ []

pub is_member : Bytes → List Bytes → Bool
is_member s [] = false
is_member s (t ∷ ts) = s == t || is_member s ts

pub ends_with_one_of : Bytes → List Bytes → Bool
unfolding has_suffix
ends_with_one_of s [] = false
ends_with_one_of s (t ∷ ts) = has_suffix s t || ends_with_one_of s ts

pub segment_is_safe : Bytes → Bool
unfolding is_member ends_with_one_of
segment_is_safe seg =
    if seg == [] || seg == dot || seg == dot_dot
    then false
    else if is_member seg reserved_bucket_sidecars
    then false
    else if ends_with_one_of seg reserved_sidecar_suffixes
    then false
    else true

pub all_safe : List Bytes → Bool
unfolding segment_is_safe
all_safe [] = true
all_safe (seg ∷ segs) =
    let rest = all_safe segs in if not (segment_is_safe seg) then false else rest

pub has_control : Bytes → Bool
has_control [] = false
has_control (b ∷ s) = (ltb b 0x20 || b == 0x7F) || has_control s

-- `unicode/utf8` is a parameter: its `ValidString`. `none` is ErrInvalidObjectKey.
module _ (valid_utf8 : Bytes → Bool) where
  pub validate_object_key : Bytes → Option Bytes
  unfolding has_control all_safe split trim_prefix
  validate_object_key key =
      if key == []
      then none
      else if has_control key
      then none
      else if not (valid_utf8 key)
      then none
      else let clean = trim_prefix key (slash ∷ []) in
        if clean == []
        then none
        else if not (all_safe (split slash clean))
        then none
        else some clean
