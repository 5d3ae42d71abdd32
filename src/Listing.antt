-- ===== src/Listing.antt =====
-- Listing the objects of a bucket (internal/handlers/bucket.go): the names that are skipped, prefix
-- and delimiter, the order, and paging. The walk over the directory is the argument: the files of
-- the bucket by their keys, in the order in which the walk meets them.
mod Paging
mod Order
mod Rolled
mod Merged
mod Following
mod Continuation
mod Visible
mod Tests
use byte_bucket.Prelude.{
  ℕ, zero, suc, ◌+◌, ◌-◌, Bool, true, false, ◌&&◌, ◌||◌, not, List, [], ◌∷◌, ◌++◌, Option, none,
  some, ◌==◌, nat_equality, list_equality, if◌then◌else◌, leb, ltb, length, take, drop, map,
}
use byte_bucket.Prelude.Int.{ℤ, pos, negsuc}
use byte_bucket.Range.{Parsed, parsed, err_syntax, err_range, parse_int}
use byte_bucket.Base64.{encode, decode}
use byte_bucket.Bytes.{Bytes, bytes, slash, has_prefix, has_suffix, split}

-- `isSidecar`
pub is_sidecar : Bytes → Bool
unfolding has_suffix
is_sidecar name =
    has_suffix name (bytes ".meta")
    || has_suffix name (bytes ".tags.json")
    || name == bytes ".cors.json"
    || name == bytes ".acl.json"

pub last_segment : List Bytes → Bytes
last_segment [] = []
last_segment (s ∷ []) = s
last_segment (s ∷ t ∷ ss) = last_segment (t ∷ ss)

-- The name of a file in its directory, `d.Name()`.
pub base_name : Bytes → Bytes
unfolding last_segment split
base_name key = last_segment (split slash key)

-- The files that the walk of the handler collects.
pub collect : List Bytes → List Bytes
unfolding is_sidecar base_name
collect [] = []
collect (key ∷ keys) =
    let all = collect keys in if is_sidecar (base_name key) then all else key ∷ all

-- `bucketIsEmpty`
pub bucket_is_empty : List Bytes → Bool
unfolding is_sidecar base_name
bucket_is_empty [] = true
bucket_is_empty (key ∷ keys) =
    let rest = bucket_is_empty keys in if is_sidecar (base_name key) then rest else false

-- The text up to the end of the first `delimiter`, if there is one: `rest[:idx+len(delimiter)]`.
pub up_to : Bytes → Bytes → Option Bytes
unfolding has_prefix
up_to delimiter [] = if has_prefix [] delimiter then some delimiter else none
up_to delimiter (c ∷ s) =
    let later = up_to delimiter s in
    if has_prefix (c ∷ s) delimiter
    then some delimiter
    else elim later [ none ↦ none | some before ↦ some (c ∷ before) ]

-- The common prefix that a key is rolled up into.
pub common_prefix : Bytes → Bytes → Bytes → Option Bytes
unfolding up_to
common_prefix prefix delimiter key =
    if delimiter == [] then none else elim (up_to delimiter (drop (length prefix) key)) [
      | none ↦ none
      | some cp ↦ some (prefix ++ cp)
    ]

pub out_of_scope : Bytes → Bytes → Bool
unfolding has_prefix
out_of_scope prefix key = not (prefix == []) && not (has_prefix key prefix)

-- Objects that are listed as such.
pub select_objects : Bytes → Bytes → List Bytes → List Bytes
unfolding out_of_scope common_prefix
select_objects prefix delimiter [] = []
select_objects prefix delimiter (key ∷ keys) =
    let objects = select_objects prefix delimiter keys in
    if out_of_scope prefix key
    then objects
    else elim (common_prefix prefix delimiter key) [ none ↦ key ∷ objects | some cp ↦ objects ]

pub add_once : Bytes → List Bytes → List Bytes
add_once p [] = p ∷ []
add_once p (r ∷ rest) = let more = add_once p rest in if p == r then r ∷ rest else r ∷ more

-- The set of common prefixes.
pub select_prefixes : Bytes → Bytes → List Bytes → List Bytes
unfolding out_of_scope common_prefix add_once
select_prefixes prefix delimiter [] = []
select_prefixes prefix delimiter (key ∷ keys) =
    let prefixes = select_prefixes prefix delimiter keys in
    if out_of_scope prefix key then prefixes else elim (common_prefix prefix delimiter key) [
      | none ↦ prefixes
      | some cp ↦ add_once cp prefixes
    ]

-- `a <= b` on Go strings
pub text_le : Bytes → Bytes → Bool
text_le [] b = true
text_le (x ∷ a) [] = false
text_le (x ∷ a) (y ∷ b) = let rest = text_le a b in if x == y then rest else ltb x y

pub record EmitItem : Type 0 where
  pub is_prefix : Bool
  pub key : Bytes

insert_item : EmitItem → List EmitItem → List EmitItem
unfolding text_le
insert_item i [] = i ∷ []
insert_item i (j ∷ rest) =
    let more = insert_item i rest in if text_le i.key j.key then i ∷ j ∷ rest else j ∷ more

pub sort_items : List EmitItem → List EmitItem
unfolding insert_item
sort_items [] = []
sort_items (i ∷ is) = insert_item i (sort_items is)

abbrev object_item : Bytes → EmitItem
object_item key = record { is_prefix = false; key = key }

abbrev prefix_item : Bytes → EmitItem
prefix_item key = record { is_prefix = true; key = key }

pub merged : Bytes → Bytes → List Bytes → List EmitItem
unfolding sort_items select_objects select_prefixes collect
merged prefix delimiter files = sort_items (
    map object_item (select_objects prefix delimiter (collect files))
    ++ map prefix_item (select_prefixes prefix delimiter (collect files)))

-- Drops what is at or before the cursor.
pub seek : Bytes → List EmitItem → List EmitItem
unfolding text_le
seek start_after [] = []
seek start_after (i ∷ is) =
    let rest = seek start_after is in if text_le i.key start_after then rest else i ∷ is

pub seek_unless_empty : Bytes → List EmitItem → List EmitItem
unfolding seek
seek_unless_empty start_after items = if start_after == [] then items else seek start_after items

-- One page: its items, whether it was cut short, and its last key if it was.
pub record Page : Type 0 where
  pub items : List EmitItem
  pub truncated : Bool
  pub last_key : Bytes

-- `merged[n].key` within bounds
pub key_at : ℕ → List EmitItem → Bytes
key_at n [] = []
key_at zero (i ∷ is) = i.key
key_at (suc n) (i ∷ is) = key_at n is

pub cut_page : ℕ → List EmitItem → Page
unfolding key_at
cut_page max_keys items =
    if ltb max_keys (length items)
    then record {
      items = take max_keys items;
      truncated = true;
      last_key = key_at (max_keys - 1) items;
    }
    else record { items = items; truncated = false; last_key = [] }

pub list_page : Bytes → Bytes → ℕ → Bytes → List Bytes → Page
unfolding merged seek_unless_empty cut_page
list_page prefix delimiter max_keys start_after files =
    cut_page max_keys (seek_unless_empty start_after (merged prefix delimiter files))

abbrev pub list_max_keys : ℕ
list_max_keys = 1000

clamp : Parsed → ℕ
clamp (parsed (pos zero)) = list_max_keys
clamp (parsed (pos (suc n))) = if ltb list_max_keys (suc n) then list_max_keys else suc n
clamp (parsed (negsuc n)) = list_max_keys
clamp err_syntax = list_max_keys
clamp err_range = list_max_keys

-- `parseMaxKeys`; `strconv.Atoi` parses an int of 64 bits.
pub parse_max_keys : Bytes → ℕ
unfolding clamp
parse_max_keys raw = if raw == [] then list_max_keys else clamp (parse_int raw)

-- `encodeContinuation`
pub encode_continuation : Bytes → Bytes
encode_continuation key = encode key

-- `decodeContinuation`, which ignores what does not decode.
pub decode_continuation : Bytes → Bytes
decode_continuation token =
    if token == [] then [] else elim (decode token) [ none ↦ [] | some key ↦ key ]

-- Where a request resumes, from its parameters `continuation-token`, `start-after` and `marker`.
pub cursor : Bool → Bytes → Bytes → Bytes → Bytes
unfolding decode_continuation
cursor list_type_v2 cont_token start_after marker =
    if not (cont_token == [])
    then decode_continuation cont_token
    else if list_type_v2
    then start_after
    else marker
