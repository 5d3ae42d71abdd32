-- ===== src/Cors/Tests.antt =====
-- A bucket with one rule.
use byte_bucket.Prelude.{true, List, [], ◌∷◌, some, ◌≡◌, refl, nat_equality, list_equality}
use byte_bucket.Prelude.Int.{pos}
use byte_bucket.Bytes.{Bytes, bytes, trim_prefix, cut, has_prefix, has_suffix, split, trim_space}
use byte_bucket.Path.{safe_join}
use byte_bucket.Acl.{File, document, to_lower}
use byte_bucket.Cors.{
  BucketCorsRule, BucketCorsConfig, Request, match_list, apply_cors_headers, bucket_cors_middleware,
}
use byte_bucket.Cors.Patterns.{Covered, match_list_iff}
use byte_bucket.Cors.Granted.{headers_of, IsGranted, bucket_cors_middleware-IsGranted}

abbrev subdomains : List Bytes
subdomains = bytes "https://other.org" ∷ bytes "https://*.example.com" ∷ []

match_list_iff_example :
    (match_list subdomains (bytes "https://app.example.com") ≡ true
      → Covered subdomains (bytes "https://app.example.com"))
    × (Covered subdomains (bytes "https://app.example.com")
        → match_list subdomains (bytes "https://app.example.com") ≡ true)
match_list_iff_example = match_list_iff subdomains (bytes "https://app.example.com")

abbrev rule : BucketCorsRule
rule = record {
  id = [];
  allowed_methods = bytes "GET" ∷ bytes "HEAD" ∷ [];
  allowed_origins = subdomains;
  allowed_headers = bytes "*" ∷ [];
  expose_headers = [];
  max_age_seconds = pos 60;
}

abbrev files : Bytes → File BucketCorsConfig
files bucket = document (rule ∷ [])

abbrev preflight : Request
preflight = record {
  method = bytes "OPTIONS";
  path = bytes "/docs/a";
  origin = bytes "https://app.example.com";
  request_method = bytes "GET";
  request_headers = bytes "X-A, Range";
}

granted :
    headers_of (bucket_cors_middleware (bytes "/data") files preflight)
    ≡ some (apply_cors_headers rule preflight.origin)
unfolding bucket_cors_middleware trim_prefix cut has_prefix has_suffix split trim_space safe_join
    to_lower
granted = refl

bucket_cors_middleware-IsGranted_example :
    IsGranted (bytes "/data") files preflight (apply_cors_headers rule preflight.origin)
bucket_cors_middleware-IsGranted_example =
    bucket_cors_middleware-IsGranted (bytes "/data") files preflight
      (apply_cors_headers rule preflight.origin) granted
