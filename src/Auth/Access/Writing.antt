-- ===== src/Auth/Access/Writing.antt =====
-- Which rights the middleware asks of a write that is signed in its header (internal/auth/auth.go).
use byte_bucket.Prelude.{
  true, false, [], ◌==◌, nat_equality, list_equality, list_test_iff, Bool-cases, ◌≡◌, ◌≢◌, ◌⊎◌,
  subst, inl, inr, sym, ap, ◌∙◌,
}
use byte_bucket.Bytes.{Bytes, bytes, has_prefix}
use byte_bucket.Names.{validate_bucket_name}
use byte_bucket.Auth.Request.{User, Request, Platform, Server, ok, get_header}
use byte_bucket.Auth.Permission.{put_method, delete_method, is_user_allowed}
use byte_bucket.Auth.Permission.Rights.{LacksAction, is_user_allowed-writes}
use byte_bucket.Auth.Signing.{process_header_auth, header_prefix}
use byte_bucket.Auth.Signing.Verified.{IsHeaderSigned, process_header_auth-IsHeaderSigned}
use byte_bucket.Auth.Access.{sigv4, auth_middleware}
use byte_bucket.Auth.Access.Anonymous.{identified}

module _ (p : Platform) (server : Server) (req : Request) (user : User) where
  -- A request with an Authorization header passes only with the user's rules.
  header_passes :
      get_header req (bytes "authorization") ≢ []
      → auth_middleware p server req ≡ ok (sigv4 user)
      → is_user_allowed user req.method req.bucket ≡ true
  unfolding auth_middleware
  header_passes given h =
      let auth_header = get_header req (bytes "authorization") in
      elim (Bool-cases (auth_header == [])) [
        | inl absent ↦ absurd (given ((list_test_iff auth_header []).0 absent))
        | inr there ↦ elim (Bool-cases (has_prefix auth_header header_prefix)) [
          | inr other ↦ absurd (cc (rw (there, other) at h))
          | inl valid ↦
              let signed : IsHeaderSigned p server req auth_header user =
                process_header_auth-IsHeaderSigned p server req auth_header user (
                  identified (process_header_auth p server req auth_header) user
                    (rw (there, valid) at h)) in
              signed.allowed
        ]
      ]

  -- The right that the method of the request needs.
  abbrev pub Needs : Bytes → Type 0
  Needs right =
      ((req.method ≡ put_method) × (right ≡ bytes "s3:CreateBucket"))
      ⊎ ((req.method ≡ delete_method) × (right ≡ bytes "s3:DeleteBucket"))

  no_right :
      (right : Bytes)
      → validate_bucket_name req.bucket ≡ true
      → Needs right
      → LacksAction user.acl right
      → is_user_allowed user req.method req.bucket ≡ false
  no_right right valid (inl (put, create)) lacks =
      ap (λ m. is_user_allowed user m req.bucket) put
      ∙ (is_user_allowed-writes user req.bucket valid).0
          (subst (λ (r : Bytes). LacksAction user.acl r) create lacks)
  no_right right valid (inr (delete, remove)) lacks =
      ap (λ m. is_user_allowed user m req.bucket) delete
      ∙ (is_user_allowed-writes user req.bucket valid).1
          (subst (λ (r : Bytes). LacksAction user.acl r) remove lacks)

  -- A request with an Authorization header in a bucket with a valid name does not pass the
  -- middleware as a user if it is a PUT, of an object too, and no rule of the user names the right
  -- to create buckets or every right, nor if it is a DELETE and none names the right to delete them
  -- or every right, whatever the rules permit on objects.
  pub auth_middleware-writes :
      (right : Bytes)
      → get_header req (bytes "authorization") ≢ []
      → validate_bucket_name req.bucket ≡ true
      → Needs right
      → LacksAction user.acl right
      → auth_middleware p server req ≢ ok (sigv4 user)
  auth_middleware-writes right given valid needs lacks =
      λ passes. cc (sym (header_passes given passes) ∙ no_right right valid needs lacks)
