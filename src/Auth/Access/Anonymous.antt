-- ===== src/Auth/Access/Anonymous.antt =====
-- What the middleware lets through (internal/auth/auth.go).
use byte_bucket.Prelude.{
  Bool, true, false, ◌&&◌, not, List, [], ◌∷◌, ◌==◌, nat_equality, list_equality, list_test_iff,
  if◌then◌else◌, ◌≡◌, ◌≢◌, ◌⊎◌, inl, inr, refl, sym, ◌∙◌, Bool-cases, arith,
}
use byte_bucket.Bytes.{Bytes, bytes, has_prefix}
use byte_bucket.Table.{Table}
use byte_bucket.Acl
use byte_bucket.Acl.{is_public_read, to_lower}
use byte_bucket.Auth.Request.{
  User, Request, Platform, Server, Result, ok, refused, get_header, query_param,
}
use byte_bucket.Auth.Permission.{get_method, head_method}
use byte_bucket.Auth.Signing.{process_header_auth, header_prefix}
use byte_bucket.Auth.Signing.Verified.{IsHeaderSigned, process_header_auth-IsHeaderSigned}
use byte_bucket.Auth.Presigned.{process_presigned_auth}
use byte_bucket.Auth.Presigned.Verified.{IsPresigned, process_presigned_auth-IsPresigned}
use byte_bucket.Auth.Access.{
  listing_params, is_one_of, only_listing_params, effective_acl, grants_read, allow_anonymous_read,
  sigv4, anonymous, identify, auth_middleware,
}

-- Every parameter of the query is one of a listing's.
abbrev pub OnlyListing : Table Bytes (List Bytes) → Type 0
OnlyListing [] = Unit
OnlyListing ((key, values) ∷ query) =
    (is_one_of (to_lower key) listing_params ≡ true) × OnlyListing query

pub record IsAnonymousRead (server : Server) (req : Request) : Type 0 where
  pub unsigned : get_header req (bytes "authorization") ≡ []
  pub not_presigned : query_param req (bytes "X-Amz-Algorithm") ≡ []
  pub reads : (req.method ≡ get_method) ⊎ (req.method ≡ head_method)
  pub plain : OnlyListing req.query
  pub in_bucket : req.bucket ≢ []
  pub acl : Bytes
  pub effective : effective_acl server req ≡ Acl.ok acl
  pub is_public : is_public_read acl ≡ true

only_listing :
    (query : Table Bytes (List Bytes)) → only_listing_params query ≡ true → OnlyListing query
unfolding only_listing_params
only_listing [] h = tt
only_listing ((key, values) ∷ query) h =
    elim (Bool-cases (is_one_of (to_lower key) listing_params)) [
      | inl safe ↦ (safe, only_listing query (rw safe at h))
      | inr other ↦ absurd (cc (rw other at h))
    ]

granted :
    (r : Acl.Result Bytes)
    → grants_read r ≡ true
    → (acl : Bytes) × (r ≡ Acl.ok acl) × (is_public_read acl ≡ true)
unfolding grants_read
granted (Acl.ok acl) h = (acl, refl, h)
granted (Acl.failed e) h = cc

read_guards :
    (get head plain bucket grant : Bool)
    → (if not get && not head
        then false
        else if not plain
        then false
        else if bucket
        then false
        else grant)
      ≡ true
    → ((get ≡ true) ⊎ (head ≡ true)) × (plain ≡ true) × (bucket ≡ false) × (grant ≡ true)
read_guards true head plain bucket grant h = (inl refl, ground arith, ground arith, ground arith)
read_guards false true plain bucket grant h = (inr refl, ground arith, ground arith, ground arith)
read_guards false false plain bucket grant h = cc

text_eq : (s t : Bytes) → (s == t) ≡ true → s ≡ t
text_eq s t h = (list_test_iff s t).0 h

text_ne : (s t : Bytes) → (s == t) ≡ false → s ≢ t
text_ne s t h e = cc (sym h ∙ (list_test_iff s t).1 e)

method_read :
    (m : Bytes)
    → ((m == get_method) ≡ true) ⊎ ((m == head_method) ≡ true)
    → (m ≡ get_method) ⊎ (m ≡ head_method)
method_read m (inl h) = inl (text_eq m get_method h)
method_read m (inr h) = inr (text_eq m head_method h)

allow-IsAnonymousRead :
    (server : Server) (req : Request)
    → get_header req (bytes "authorization") ≡ []
    → query_param req (bytes "X-Amz-Algorithm") ≡ []
    → allow_anonymous_read server req ≡ true
    → IsAnonymousRead server req
unfolding allow_anonymous_read
allow-IsAnonymousRead server req unsigned plain_url h =
    let (reads, plain, bucket, grant) = read_guards _ _ (only_listing_params req.query) _ _ h in
    let (acl, effective, is_public) = granted (effective_acl server req) grant in
    record {
      unsigned = unsigned;
      not_presigned = plain_url;
      reads = method_read req.method reads;
      plain = only_listing req.query plain;
      in_bucket = text_ne req.bucket [] bucket;
      acl = acl;
      effective = effective;
      is_public = is_public;
    }

pub identified : (r : Result User) (user : User) → identify r ≡ ok (sigv4 user) → r ≡ ok user
unfolding identify
identified (ok u) user h = cc
identified (refused e) user h = cc

not_identified : (r : Result User) → identify r ≢ ok anonymous
unfolding identify
not_identified (ok u) = λ h. cc
not_identified (refused e) = λ h. cc

module _ (p : Platform) (server : Server) (req : Request) where
  -- A request that gets past the middleware as a user was signed by that user: in an Authorization
  -- header, and the user's rules permit the request, or in the query of a URL that has not expired.
  -- Either way the signature is that of the request's canonical text under the user's secret, and
  -- its date is within a quarter of an hour of the server's clock. The canonical text of a header
  -- has the hash of the body that x-amz-content-sha256 declares: the body that is read has this
  -- hash, unless the declared value is UNSIGNED-PAYLOAD or starts with STREAMING-, where nothing is
  -- said of the body, as for a presigned request.
  pub auth_middleware-sigv4 :
      (user : User)
      → auth_middleware p server req ≡ ok (sigv4 user)
      → IsHeaderSigned p server req (get_header req (bytes "authorization")) user
        ⊎ IsPresigned p server req user
  unfolding auth_middleware
  auth_middleware-sigv4 user h =
      let auth_header = get_header req (bytes "authorization") in
      elim (Bool-cases (auth_header == [])) [
        | inr given ↦ elim (Bool-cases (has_prefix auth_header header_prefix)) [
          | inr other ↦ absurd (cc (rw (given, other) at h))
          | inl valid ↦ inl (
              process_header_auth-IsHeaderSigned p server req auth_header user (
                identified (process_header_auth p server req auth_header) user
                  (rw (given, valid) at h)))
        ]
        | inl absent ↦ elim (Bool-cases (query_param req (bytes "X-Amz-Algorithm") == [])) [
          | inr presigned ↦ inr (
              process_presigned_auth-IsPresigned p server req user (
                identified (process_presigned_auth p server req) user
                  (rw (absent, presigned) at h)))
          | inl plain ↦ elim (Bool-cases (allow_anonymous_read server req)) [
            | inl allowed ↦ absurd (cc (rw (absent, plain, allowed) at h))
            | inr denied ↦ absurd (cc (rw (absent, plain, denied) at h))
          ]
        ]
      ]

  -- A request gets past the middleware without a signature only to read: by GET or HEAD, in a named
  -- bucket, with no query parameter but a listing's, and where the ACL in force, of the object or
  -- else of its bucket, is public-read.
  pub auth_middleware-anonymous :
      auth_middleware p server req ≡ ok anonymous → IsAnonymousRead server req
  unfolding auth_middleware
  auth_middleware-anonymous h =
      let auth_header = get_header req (bytes "authorization") in
      elim (Bool-cases (auth_header == [])) [
        | inr given ↦ elim (Bool-cases (has_prefix auth_header header_prefix)) [
          | inr other ↦ absurd (cc (rw (given, other) at h))
          | inl valid ↦ absurd (
              not_identified (process_header_auth p server req auth_header)
                (rw (given, valid) at h))
        ]
        | inl absent ↦ elim (Bool-cases (query_param req (bytes "X-Amz-Algorithm") == [])) [
          | inr presigned ↦
              absurd
                (not_identified (process_presigned_auth p server req) (rw (absent, presigned) at h))
          | inl plain ↦ elim (Bool-cases (allow_anonymous_read server req)) [
            | inl allowed ↦
                allow-IsAnonymousRead server req (text_eq auth_header [] absent)
                  (text_eq (query_param req (bytes "X-Amz-Algorithm")) [] plain) allowed
            | inr denied ↦ absurd (cc (rw (absent, plain, denied) at h))
          ]
        ]
      ]
