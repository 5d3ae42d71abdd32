-- ===== src/Auth/Presigned/Verified.antt =====
-- What a presigned URL passes (internal/auth/auth.go).
use byte_bucket.Prelude.{
  ℕ, Bool, true, false, not, [], ◌∷◌, ◌++◌, some, Bool-cases, inl, inr, ap, ◌∙◌, ◌==◌, nat_equality,
  list_equality, ◌≡◌, refl,
}
use byte_bucket.Prelude.Int.{ℤ}
use byte_bucket.Bytes.{Bytes, bytes}
use byte_bucket.Table.{Table, lookup}
use mathlib.Core.Option.{some-injective}
use byte_bucket.Auth.Request.{
  User, Request, Platform, Server, missing_parameters, invalid_expires, invalid_date, url_expired,
  ok, passed, guard_passed, require_passed, require_step, guard_step, ok_step,
}
use byte_bucket.Auth.Signing.{Scope, split_credential}
use byte_bucket.Auth.Signing.Verified.{
  IsVerified, verify_signature-IsVerified, IsVerified-verify_signature,
}
use byte_bucket.Auth.Presigned.{
  read_presigned, is_complete, is_expired, presigned_text, presigned_payload,
  process_presigned_auth,
}

pub record IsPresigned (p : Platform) (server : Server) (req : Request) (user : User) : Type 0 where
  pub scope : Scope
  pub credential : split_credential (read_presigned req).credential ≡ ok scope
  pub expiration : ℤ
  pub lifetime : p.parse_duration ((read_presigned req).expires ++ bytes "s") ≡ some expiration
  pub issued : ℕ
  pub dated : p.parse_time (read_presigned req).amz_date ≡ some issued
  pub live : is_expired server.now issued expiration ≡ false
  pub verified :
      IsVerified p server scope
        (read_presigned req).amz_date
        (presigned_text req
          (read_presigned req).signed_headers
          (presigned_payload req (read_presigned req).signed_headers))
        (read_presigned req).signature
        user

flip_true : (b : Bool) → not b ≡ true → b ≡ false
flip_true true h = cc
flip_true false h = refl

pub process_presigned_auth-IsPresigned :
    (p : Platform) (server : Server) (req : Request) (user : User)
    → process_presigned_auth p server req ≡ ok user
    → IsPresigned p server req user
unfolding process_presigned_auth
process_presigned_auth-IsPresigned p server req user h =
    let q = read_presigned req in
    let (given, h1) = guard_passed (is_complete q) missing_parameters _ user h in
    let (scope, credential, h2) = passed (split_credential q.credential) _ user h1 in
    let (expiration, lifetime, h3) =
      require_passed (p.parse_duration (q.expires ++ bytes "s")) invalid_expires _ user h2 in
    let (t, dated, h4) = require_passed (p.parse_time q.amz_date) invalid_date _ user h3 in
    let (live, h5) =
      guard_passed (not (is_expired server.now t expiration)) url_expired _ user h4 in
    record {
      scope = scope;
      credential = credential;
      expiration = expiration;
      lifetime = lifetime;
      issued = t;
      dated = dated;
      live = flip_true _ live;
      verified = verify_signature-IsVerified p server scope q.amz_date _ q.signature user h5;
    }

flip_false : (b : Bool) → b ≡ false → not b ≡ true
flip_false true h = cc
flip_false false h = refl

pub IsPresigned-process_presigned_auth :
    (p : Platform) (server : Server) (req : Request) (user : User)
    → is_complete (read_presigned req) ≡ true
    → IsPresigned p server req user
    → process_presigned_auth p server req ≡ ok user
unfolding process_presigned_auth
IsPresigned-process_presigned_auth p server req user given v =
    let q = read_presigned req in
    guard_step (is_complete q) missing_parameters _ given
    ∙ ok_step (split_credential q.credential) _ v.scope v.credential
    ∙ require_step (p.parse_duration (q.expires ++ bytes "s")) invalid_expires _ v.expiration
        v.lifetime
    ∙ require_step (p.parse_time q.amz_date) invalid_date _ v.issued v.dated
    ∙ guard_step (not (is_expired server.now v.issued v.expiration)) url_expired _
        (flip_false _ v.live)
    ∙ IsVerified-verify_signature p server v.scope q.amz_date _ q.signature user v.verified

complete :
    (p : Platform) (server : Server) (req : Request) (user : User)
    → process_presigned_auth p server req ≡ ok user
    → is_complete (read_presigned req) ≡ true
unfolding process_presigned_auth
complete p server req user h =
    (guard_passed (is_complete (read_presigned req)) missing_parameters _ user h).0

-- A user without any rule.
abbrev pub without_rules : User → User
without_rules user = record user { acl = [] }

abbrev pub strip_rules : Table Bytes User → Table Bytes User
strip_rules [] = []
strip_rules ((key, user) ∷ users) = (key, without_rules user) ∷ strip_rules users

lookup-strip_rules :
    (key : Bytes) (users : Table Bytes User) (user : User)
    → lookup key users ≡ some user
    → lookup key (strip_rules users) ≡ some (without_rules user)
unfolding lookup
lookup-strip_rules key [] user h = cc
lookup-strip_rules key ((k, u) ∷ users) user h = elim (Bool-cases (k == key)) [
  | inl here ↦
      let same : u ≡ user = some-injective _ _ (rw here at h) in
      rw here (ap (λ v. some (without_rules v)) same)
  | inr there ↦ rw there (lookup-strip_rules key users user (rw there at h))
]

-- A presigned URL that is accepted is accepted from a user who has no rule at all: the rules of a
-- user do not limit what a URL that the user signs may do, by whatever method and in whatever
-- bucket.
pub process_presigned_auth-strip_rules :
    (p : Platform) (server : Server) (req : Request) (user : User)
    → process_presigned_auth p server req ≡ ok user
    → process_presigned_auth p (record server { users = strip_rules server.users }) req
      ≡ ok (without_rules user)
process_presigned_auth-strip_rules p server req user h =
    let v = process_presigned_auth-IsPresigned p server req user h in
    let w = v.verified in
    IsPresigned-process_presigned_auth p (record server { users = strip_rules server.users }) req
      (without_rules user) (complete p server req user h)
      (record {
        scope = v.scope;
        credential = v.credential;
        expiration = v.expiration;
        lifetime = v.lifetime;
        issued = v.issued;
        dated = v.dated;
        live = v.live;
        verified = record {
          found = lookup-strip_rules v.scope.access_key server.users user w.found;
          secret = w.secret;
          decrypted = w.decrypted;
          signed = w.signed;
          time = w.time;
          dated = w.dated;
          not_late = w.not_late;
          not_early = w.not_early;
        };
      })
