-- ===== src/Cors.antt =====
-- The CORS configuration of a bucket: internal/storage/bucket_cors.go and
-- internal/middleware/bucket_cors.go.
pub mod Patterns
pub mod Granted
mod Tests
use byte_bucket.Prelude.{
  ℕ, ◌+◌, zero, suc, Bool, true, false, ◌&&◌, ◌||◌, not, List, [], ◌∷◌, Option, none, some, ◌==◌,
  nat_equality, list_equality, if◌then◌else◌, ltb, length,
}
use byte_bucket.Prelude.Int.{ℤ, pos, negsuc}
use byte_bucket.Bytes.{
  Bytes, bytes, slash, split, trim_space, trim_prefix, has_prefix, has_suffix, cut,
}
use byte_bucket.Bytes.Digits.{decimal}
use byte_bucket.Path.{safe_join}
use byte_bucket.Acl.{to_lower, File, missing, unreadable, garbage, document}
use byte_bucket.Auth.Canonical.{join_with}

pub record BucketCorsRule : Type 0 where
  pub id : Bytes
  pub allowed_methods : List Bytes
  pub allowed_origins : List Bytes
  pub allowed_headers : List Bytes
  pub expose_headers : List Bytes
  pub max_age_seconds : ℤ

abbrev pub BucketCorsConfig : Type 0
BucketCorsConfig = List BucketCorsRule

pub data CorsError : Type 0 where
  no_such_cors_configuration path_escape io_error bad_json nil_config : CorsError

pub data Found {ℓ} (A : Type ℓ) : Type ℓ where
  found : A → Found A
  failed : CorsError → Found A

module _ (objects_root : Bytes) where
  unfoldable pub bucket_cors_path : Bytes → Option Bytes
  bucket_cors_path bucket = safe_join objects_root (bucket ∷ bytes ".cors.json" ∷ [])

  -- `file` is the sidecar of the bucket.
  unfoldable pub get_bucket_cors : Bytes → File BucketCorsConfig → Found BucketCorsConfig
  unfolding bucket_cors_path
  get_bucket_cors bucket file = elim (bucket_cors_path bucket) [
    | none ↦ failed path_escape
    | some path ↦ elim file [
      | missing ↦ failed no_such_cors_configuration
      | unreadable ↦ failed io_error
      | garbage ↦ failed bad_json
      | document cfg ↦ found cfg
    ]
  ]

  -- The write to the temporary file and its rename may fail, which leaves the sidecar as it was.
  unfoldable pub put_bucket_cors :
      Bool
      → Bytes
      → Option BucketCorsConfig
      → File BucketCorsConfig
      → Found (Unit {0}) × File BucketCorsConfig
  unfolding bucket_cors_path
  put_bucket_cors write_ok bucket none file = (failed nil_config, file)
  put_bucket_cors write_ok bucket (some cfg) file = elim (bucket_cors_path bucket) [
    | none ↦ (failed path_escape, file)
    | some path ↦ if write_ok then (found tt, document cfg) else (failed io_error, file)
  ]

  unfoldable pub delete_bucket_cors :
      Bool → Bytes → File BucketCorsConfig → Found (Unit {0}) × File BucketCorsConfig
  unfolding bucket_cors_path
  delete_bucket_cors remove_ok bucket file = elim (bucket_cors_path bucket) [
    | none ↦ (failed path_escape, file)
    | some path ↦ elim file [
      | missing ↦ (failed no_such_cors_configuration, missing)
      | unreadable ↦ if remove_ok then (found tt, missing) else (failed io_error, unreadable)
      | garbage ↦ if remove_ok then (found tt, missing) else (failed io_error, garbage)
      | document cfg ↦ if remove_ok then (found tt, missing) else (failed io_error, document cfg)
    ]
  ]

unfoldable pub around : Bytes → Option (Bytes × Bytes) → Bool
around s none = false
around s (some (prefix, suffix)) =
    if ltb (length s) (length prefix + length suffix)
    then false
    else has_prefix s prefix && has_suffix s suffix

-- `matchList`
unfoldable pub match_list : List Bytes → Bytes → Bool
unfolding around
match_list [] s = false
match_list (a ∷ allowed) s =
    let rest = match_list allowed s in
    if a == s then true else if around s (cut b'*' a) then true else rest

unfoldable pub allows_header : List Bytes → Bytes → Bool
allows_header [] h = false
allows_header (a ∷ allowed) h =
    to_lower a == bytes "*" || to_lower a == h || allows_header allowed h

unfoldable pub all_allowed : List Bytes → List Bytes → Bool
unfolding allows_header
all_allowed allowed [] = true
all_allowed allowed (part ∷ parts) =
    let h = trim_space (to_lower part) in
    let rest = all_allowed allowed parts in
    if h == [] then rest else if not (allows_header allowed h) then false else rest

-- `headersAllowed`
unfoldable pub headers_allowed : List Bytes → Bytes → Bool
unfolding all_allowed
headers_allowed allowed req_headers =
    if req_headers == [] then true else all_allowed allowed (split b',' req_headers)

unfoldable pub rule_matches : Bytes → Bytes → Bytes → BucketCorsRule → Bool
unfolding match_list headers_allowed
rule_matches origin method req_headers r =
    if not (match_list r.allowed_origins origin)
    then false
    else if not (method == []) && not (match_list r.allowed_methods method)
    then false
    else if not (headers_allowed r.allowed_headers req_headers)
    then false
    else true

-- `matchCORSRule`
unfoldable pub match_cors_rule : List BucketCorsRule → Bytes → Bytes → Bytes → Option BucketCorsRule
unfolding rule_matches
match_cors_rule [] origin method req_headers = none
match_cors_rule (r ∷ rules) origin method req_headers =
    let rest = match_cors_rule rules origin method req_headers in
    if rule_matches origin method req_headers r then some r else rest

-- `bucketFromPath`
unfoldable pub bucket_from_path : Bytes → Bytes
bucket_from_path p =
    let rest = trim_prefix p (slash ∷ []) in
    if rest == [] then [] else elim (cut slash rest) [ none ↦ rest | some (before, after) ↦ before ]

-- The Access-Control headers that `applyCORSHeaders` sets; an empty text is a header that is not set.
pub record CorsHeaders : Type 0 where
  pub allow_origin : Bytes
  pub vary : Bytes
  pub allow_methods : Bytes
  pub allow_headers : Bytes
  pub expose_headers : Bytes
  pub max_age : Bytes

unfoldable pub max_age_text : ℤ → Bytes
max_age_text (pos zero) = []
max_age_text (pos (suc n)) = decimal (suc n)
max_age_text (negsuc n) = []

unfoldable pub apply_cors_headers : BucketCorsRule → Bytes → CorsHeaders
unfolding max_age_text
apply_cors_headers r origin = record {
  allow_origin = origin;
  vary = bytes "Origin";
  allow_methods = join_with (bytes ", ") r.allowed_methods;
  allow_headers = join_with (bytes ", ") r.allowed_headers;
  expose_headers = join_with (bytes ", ") r.expose_headers;
  max_age = max_age_text r.max_age_seconds;
}

pub record Request : Type 0 where
  pub method : Bytes
  pub path : Bytes
  pub origin : Bytes
  pub request_method : Bytes
  pub request_headers : Bytes

abbrev pub options_method : Bytes
options_method = bytes "OPTIONS"

-- What the middleware does: it passes the request on or answers it with a status, with the headers
-- or without.
pub data Outcome : Type 0 where
  passed_on : Option CorsHeaders → Outcome
  answered : ℕ → Option CorsHeaders → Outcome

unfoldable pub without_headers : Bool → Outcome
without_headers preflight = if preflight then answered 403 none else passed_on none

unfoldable pub apply_rule : Bool → Bytes → Option BucketCorsRule → Outcome
unfolding apply_cors_headers without_headers
apply_rule preflight origin none = without_headers preflight
apply_rule preflight origin (some rule) =
    if preflight
    then answered 204 (some (apply_cors_headers rule origin))
    else passed_on (some (apply_cors_headers rule origin))

unfoldable pub is_absent : CorsError → Bool
is_absent no_such_cors_configuration = true
is_absent _ = false

unfoldable pub with_config : Request → Found BucketCorsConfig → Outcome
unfolding apply_rule is_absent match_cors_rule
with_config r (failed e) = without_headers (is_absent e && r.method == options_method)
with_config r (found cfg) =
    let preflight = r.method == options_method in
    apply_rule preflight r.origin (
      match_cors_rule cfg r.origin (if preflight then r.request_method else r.method)
        r.request_headers)

-- `BucketCORSMiddleware`
unfoldable pub bucket_cors_middleware : Bytes → (Bytes → File BucketCorsConfig) → Request → Outcome
unfolding with_config get_bucket_cors bucket_from_path
bucket_cors_middleware objects_root files r =
    let bucket = bucket_from_path r.path in
    if r.origin == []
    then passed_on none
    else if bucket == []
    then without_headers (r.method == options_method)
    else with_config r (get_bucket_cors objects_root bucket (files bucket))
