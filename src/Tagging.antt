-- ===== src/Tagging.antt =====
-- The tags of an object: internal/storage/tagging.go, on the files by their paths. Counting the
-- code points of a text and checking that it is UTF-8 are parameters, and so is the JSON encoding.
mod Limits
mod Stored
mod Tests
use byte_bucket.Prelude.{
  ℕ, Bool, true, false, ◌&&◌, ◌||◌, not, List, [], ◌∷◌, ◌++◌, Option, none, some, ◌==◌,
  nat_equality, list_equality, if◌then◌else◌, ltb, length,
}
use byte_bucket.Bytes.{Bytes, bytes}
use byte_bucket.Table.{Table, lookup, insert, erase}

abbrev pub max_object_tags : ℕ
max_object_tags = 10

abbrev pub max_tag_key_len : ℕ
max_tag_key_len = 128

abbrev pub max_tag_value_len : ℕ
max_tag_value_len = 256

pub record ObjectTag : Type 0 where
  pub key : Bytes
  pub value : Bytes

pub record Utf8 : Type 0 where
  pub rune_count : Bytes → ℕ
  pub is_valid : Bytes → Bool

pub data TagError : Type 0 where
  invalid_tag_set io_error bad_json : TagError

pub data Result {ℓ} (A : Type ℓ) : Type ℓ where
  ok : A → Result A
  failed : TagError → Result A

pub object_tags_path : Bytes → Bytes
object_tags_path object_path = object_path ++ bytes ".tags.json"

pub is_seen : Bytes → List Bytes → Bool
is_seen key [] = false
is_seen key (k ∷ seen) = k == key || is_seen key seen

module _ (utf8 : Utf8) where
  -- The loop of `ValidateObjectTags`, with the keys that it has seen.
  pub check_tags : List Bytes → List ObjectTag → Bool
  unfolding is_seen
  check_tags seen [] = true
  check_tags seen (t ∷ tags) =
      let kl = utf8.rune_count t.key in
      let rest = check_tags (t.key ∷ seen) tags in
      if ltb kl 1 || ltb max_tag_key_len kl
      then false
      else if ltb max_tag_value_len (utf8.rune_count t.value)
      then false
      else if not (utf8.is_valid t.key) || not (utf8.is_valid t.value)
      then false
      else if is_seen t.key seen
      then false
      else rest

  pub validate_object_tags : List ObjectTag → Bool
  unfolding check_tags
  validate_object_tags tags =
      if ltb max_object_tags (length tags) then false else check_tags [] tags

-- The encoder and the decoder of a tag set; either may refuse.
pub record Json : Type 0 where
  pub marshal : List ObjectTag → Option Bytes
  pub unmarshal : Bytes → Option (List ObjectTag)

-- The contents of the files by their paths.
abbrev pub Files : Type 0
Files = Table Bytes Bytes

-- What a write of the temporary file and its rename do. A write that fails leaves some content, or
-- no file.
pub data Write : Type 0 where
  write_fails : Option Bytes → Write
  rename_fails written : Write

pub leave : Bytes → Option Bytes → Files → Files
leave path none files = erase path files
leave path (some text) files = insert path text files

pub replace_file : Write → Bytes → Bytes → Files → Result (Unit {0}) × Files
unfolding leave
replace_file (write_fails left) path text files =
    (failed io_error, leave (path ++ bytes ".tmp") left files)
replace_file rename_fails path text files =
    (failed io_error, insert (path ++ bytes ".tmp") text files)
replace_file written path text files =
    (ok tt, insert path text (erase (path ++ bytes ".tmp") files))

module _ (utf8 : Utf8) (json : Json) where
  pub set_object_tags : Write → Bytes → List ObjectTag → Files → Result (Unit {0}) × Files
  unfolding validate_object_tags object_tags_path replace_file
  set_object_tags io object_path tags files =
      if not (validate_object_tags utf8 tags)
      then (failed invalid_tag_set, files)
      else elim (json.marshal tags) [
        | none ↦ (failed bad_json, files)
        | some text ↦ replace_file io (object_tags_path object_path) text files
      ]

module _ (json : Json) where
  -- What is read of a sidecar: `reads` is false where it is there but cannot be read.
  pub read_tags : Bool → Option Bytes → Result (List ObjectTag)
  read_tags reads none = ok []
  read_tags reads (some text) =
      if not reads
      then failed io_error
      else elim (json.unmarshal text) [ none ↦ failed bad_json | some tags ↦ ok tags ]

  pub get_object_tags : Bool → Bytes → Files → Result (List ObjectTag)
  unfolding object_tags_path read_tags
  get_object_tags reads object_path files =
      read_tags reads (lookup (object_tags_path object_path) files)

pub delete_object_tags : Bool → Bytes → Files → Result (Unit {0}) × Files
unfolding object_tags_path
delete_object_tags removes object_path files = elim (lookup (object_tags_path object_path) files) [
  | none ↦ (ok tt, files)
  | some text ↦
      if removes
      then (ok tt, erase (object_tags_path object_path) files)
      else (failed io_error, files)
]
