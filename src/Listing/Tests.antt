-- ===== src/Listing/Tests.antt =====
-- A bucket with a few files.
use byte_bucket.Base64.{IsBytes}
use byte_bucket.Listing.{encode_continuation, cursor}
use byte_bucket.Listing.Continuation.{cursor-encode_continuation}
use byte_bucket.Prelude.{
  suc, some, ◌≤◌, List, [], ◌∷◌, ◌++◌, true, false, length, ◌≡◌, refl, arith, nat_equality,
  list_equality,
}
use byte_bucket.Bytes.{Bytes, bytes, has_prefix, has_suffix, split}
use byte_bucket.Names.Tests.{any_utf8, nested_key}
use byte_bucket.Listing.{
  EmitItem, is_sidecar, base_name, last_segment, collect, bucket_is_empty, up_to, common_prefix,
  out_of_scope, select_objects, select_prefixes, add_once, text_le, insert_item, sort_items, merged,
  cut_page, list_page, parse_max_keys,
}
use byte_bucket.Listing.Paging.{Ascending, length-list_page}
use byte_bucket.Listing.Merged.{Distinct}
use byte_bucket.Listing.Following.{follow, follow-merged}
use byte_bucket.Listing.Visible.{collect-validate_object_key}

abbrev files : List Bytes
files = bytes "b" ∷ bytes "a/x" ∷ bytes "a/y" ∷ bytes "b.meta" ∷ bytes "c" ∷ []

abbrev entries : List EmitItem
entries =
    record { is_prefix = true; key = bytes "a/" }
    ∷ record { is_prefix = false; key = bytes "b" }
    ∷ record { is_prefix = false; key = bytes "c" }
    ∷ []

rolled_up : merged [] (bytes "/") files ≡ entries
unfolding merged select_objects select_prefixes collect base_name last_segment is_sidecar up_to
    common_prefix out_of_scope add_once sort_items insert_item text_le has_prefix has_suffix split
rolled_up = refl

in_order : Ascending entries
unfolding text_le
in_order = ((refl, (refl, tt)), ((refl, tt), (tt, tt)))

cut_short : (cut_page 2 entries).truncated ≡ true
unfolding cut_page
cut_short = refl

collect-validate_object_key_example :
    (collect (files ++ (bytes "a/b.txt" ∷ [])) ≡ collect files ++ (bytes "a/b.txt" ∷ collect []))
    × (bucket_is_empty (files ++ (bytes "a/b.txt" ∷ [])) ≡ false)
collect-validate_object_key_example =
    collect-validate_object_key any_utf8 (bytes "/a/b.txt") (bytes "a/b.txt") files [] nested_key

length-list_page_example :
    (1 ≤ parse_max_keys (bytes "99999999999999999999"))
    × (length
          (list_page [] (bytes "/") (parse_max_keys (bytes "99999999999999999999")) [] files).items
        ≤ 1000)
length-list_page_example = length-list_page [] (bytes "/") (bytes "99999999999999999999") [] files

key_bytes : IsBytes (bytes "a/x")
key_bytes = (omega arith, (omega arith, (omega arith, tt)))

cursor-encode_continuation_example :
    cursor true (encode_continuation (bytes "a/x")) (bytes "b") [] ≡ bytes "a/x"
cursor-encode_continuation_example =
    cursor-encode_continuation true (bytes "a/x") (bytes "b") [] key_bytes (λ p. cc p)

files_differ : Distinct files
files_differ = (
  (refl, (refl, (refl, (refl, tt)))),
  ((refl, (refl, (refl, tt))), ((refl, (refl, tt)), ((refl, tt), (tt, tt)))),
)

follow-merged_example :
    (follow (suc (length (merged [] (bytes "/") files))) [] (bytes "/") 2 [] files
      ≡ some (merged [] (bytes "/") files))
    × Ascending (merged [] (bytes "/") files)
follow-merged_example =
    follow-merged [] (bytes "/") 2 files (omega arith) files_differ
      (refl, (refl, (refl, (refl, (refl, tt)))))
