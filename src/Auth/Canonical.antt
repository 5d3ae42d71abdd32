-- ===== src/Auth/Canonical.antt =====
-- The canonical request of Signature Version 4 (internal/auth/auth.go).
use byte_bucket.Prelude.{
  Bool, false, ◌||◌, List, [], ◌∷◌, ◌++◌, Option, none, some, ◌==◌, nat_equality, list_equality,
  if◌then◌else◌, map,
}
use byte_bucket.Bytes.{Bytes, bytes, split, trim_space, is_space}
use byte_bucket.Table.{Table, lookup}
use byte_bucket.Acl.{to_lower}
use byte_bucket.Listing.{text_le}
use byte_bucket.Auth.Request.{Request}
use byte_bucket.Auth.Escape.{query_escape}

-- `strings.Join(ss, sep)`
unfoldable pub join_with : Bytes → List Bytes → Bytes
join_with sep [] = []
join_with sep (s ∷ []) = s
join_with sep (s ∷ t ∷ ss) = s ++ (sep ++ join_with sep (t ∷ ss))

unfoldable pub insert_text : Bytes → List Bytes → List Bytes
insert_text s [] = s ∷ []
insert_text s (t ∷ ts) = let more = insert_text s ts in if text_le s t then s ∷ t ∷ ts else t ∷ more

-- `sort.Strings`
unfoldable pub sort_texts : List Bytes → List Bytes
unfolding insert_text
sort_texts [] = []
sort_texts (s ∷ ss) = insert_text s (sort_texts ss)

unfoldable pub pair_texts : Bytes → List Bytes → List Bytes
pair_texts key [] = []
pair_texts key (value ∷ values) =
    (query_escape key ++ (bytes "=" ++ query_escape value)) ∷ pair_texts key values

unfoldable pub query_parts : Table Bytes (List Bytes) → List Bytes
unfolding pair_texts
query_parts [] = []
query_parts ((key, values) ∷ query) = pair_texts key values ++ query_parts query

unfoldable pub build_canonical_query : Table Bytes (List Bytes) → Bytes
unfolding query_parts sort_texts join_with
build_canonical_query query = join_with (bytes "&") (sort_texts (query_parts query))

-- The words of a text, with the one that is being read.
words : Bytes → Bytes → List Bytes
words word [] = if word == [] then [] else word ∷ []
words word (c ∷ s) =
    let next = words [] s in
    let more = words (word ++ c ∷ []) s in
    if is_space c then (if word == [] then next else word ∷ next) else more

-- `strings.Fields`
unfoldable pub fields : Bytes → List Bytes
unfolding words
fields s = words [] s

header_value : Option (List Bytes) → Bytes
unfolding join_with fields
header_value none = []
header_value (some []) = []
header_value (some (v ∷ vs)) = join_with (bytes " ") (fields (join_with (bytes ",") (v ∷ vs)))

unfoldable pub header_line : Request → Bytes → Bytes
unfolding header_value
header_line req name =
    name
    ++ (bytes ":"
        ++ ((if name == bytes "host" then req.host else header_value (lookup name req.headers))
            ++ 10 ∷ []))

unfoldable pub header_name : Bytes → Bytes
header_name name = trim_space (to_lower name)

unfoldable pub build_canonical_headers : Request → Bytes → Bytes
unfolding header_line header_name join_with split
build_canonical_headers req signed_headers =
    join_with [] (map (λ name. header_line req (header_name name)) (split b';' signed_headers))

unfoldable pub any_header : List Bytes → Bytes → Bool
unfolding header_name
any_header [] name = false
any_header (h ∷ hs) name = header_name h == name || any_header hs name

unfoldable pub signed_headers_contains : Bytes → Bytes → Bool
unfolding any_header split
signed_headers_contains signed_headers name = any_header (split b';' signed_headers) name

-- The six lines of a canonical request.
unfoldable pub canonical_text : Bytes → Bytes → Bytes → Bytes → Bytes → Bytes → Bytes
unfolding join_with
canonical_text method uri query headers signed_headers payload_hash =
    join_with (10 ∷ []) (method ∷ uri ∷ query ∷ headers ∷ signed_headers ∷ payload_hash ∷ [])

-- `buildCanonicalRequest` with the request's own query
unfoldable pub build_canonical_request : Request → Bytes → Bytes → Bytes
unfolding build_canonical_query build_canonical_headers canonical_text
build_canonical_request req signed_headers payload_hash =
    canonical_text req.method req.escaped_path (build_canonical_query req.query)
      (build_canonical_headers req signed_headers) signed_headers payload_hash
