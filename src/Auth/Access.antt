-- ===== src/Auth/Access.antt =====
-- Who gets past the authentication of the S3 surface: `AuthMiddleware` and `allowAnonymousRead` of
-- internal/auth/auth.go.
pub mod Anonymous
pub mod Writing
use byte_bucket.Prelude.{
  ℕ, Bool, true, false, ◌&&◌, ◌||◌, not, List, [], ◌∷◌, ◌++◌, Option, none, some, ◌==◌,
  nat_equality, list_equality, if◌then◌else◌,
}
use byte_bucket.Bytes.{Bytes, bytes, slash, trim_prefix, has_prefix}
use byte_bucket.Table.{Table}
use byte_bucket.Path.{safe_join}
use byte_bucket.Acl
use byte_bucket.Acl.{to_lower, is_public_read, effective_bucket_acl, effective_object_acl}
use byte_bucket.Auth.Request.{
  User, Request, Platform, Server, Refusal, missing_authentication, invalid_authorization, Result,
  ok, refused, get_header, query_param,
}
use byte_bucket.Auth.Permission.{get_method, head_method}
use byte_bucket.Auth.Signing.{process_header_auth, header_prefix}
use byte_bucket.Auth.Presigned.{process_presigned_auth}

-- The subresources that an anonymous request may name.
abbrev pub listing_params : List Bytes
listing_params =
    bytes "prefix"
    ∷ bytes "marker"
    ∷ bytes "max-keys"
    ∷ bytes "delimiter"
    ∷ bytes "encoding-type"
    ∷ bytes "list-type"
    ∷ bytes "continuation-token"
    ∷ bytes "start-after"
    ∷ bytes "fetch-owner"
    ∷ []

unfoldable pub is_one_of : Bytes → List Bytes → Bool
is_one_of s [] = false
is_one_of s (t ∷ ts) = s == t || is_one_of s ts

unfoldable pub only_listing_params : Table Bytes (List Bytes) → Bool
unfolding is_one_of
only_listing_params [] = true
only_listing_params ((key, values) ∷ query) =
    let rest = only_listing_params query in
    if is_one_of (to_lower key) listing_params then rest else false

-- `objectACL`: the effective ACL of an object whose key stays in its bucket
unfoldable pub object_acl : Server → Bytes → Bytes → Acl.Result Bytes
object_acl server bucket key = elim (safe_join server.objects_root (bucket ∷ key ∷ [])) [
  | none ↦ Acl.failed Acl.path_escape
  | some path ↦ effective_object_acl server.objects_root bucket (server.sidecars bucket path)
]

unfoldable pub effective_acl : Server → Request → Acl.Result Bytes
unfolding object_acl
effective_acl server req =
    let key = trim_prefix req.object_key (slash ∷ []) in
    if key == []
    then effective_bucket_acl server.objects_root req.bucket (server.sidecars req.bucket [])
    else object_acl server req.bucket key

grants_read : Acl.Result Bytes → Bool
grants_read (Acl.ok acl) = is_public_read acl
grants_read (Acl.failed e) = false

unfoldable pub allow_anonymous_read : Server → Request → Bool
unfolding only_listing_params effective_acl grants_read
allow_anonymous_read server req =
    if not (req.method == get_method) && not (req.method == head_method)
    then false
    else if not (only_listing_params req.query)
    then false
    else if req.bucket == []
    then false
    else grants_read (effective_acl server req)

-- Who the handlers see.
pub data Identity : Type 0 where
  sigv4 : User → Identity
  anonymous : Identity

unfoldable pub identify : Result User → Result Identity
identify (ok user) = ok (sigv4 user)
identify (refused e) = refused e

module _ (p : Platform) where
  unfoldable pub auth_middleware : Server → Request → Result Identity
  unfolding identify allow_anonymous_read
  auth_middleware server req =
      let auth_header = get_header req (bytes "authorization") in
      if not (auth_header == [])
      then (if not (has_prefix auth_header header_prefix)
          then refused invalid_authorization
          else identify (process_header_auth p server req auth_header))
      else if not (query_param req (bytes "X-Amz-Algorithm") == [])
      then identify (process_presigned_auth p server req)
      else if allow_anonymous_read server req
      then ok anonymous
      else refused missing_authentication
