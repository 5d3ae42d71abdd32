-- ===== src/Admin.antt =====
-- The authentication of the admin surface: internal/auth/admin_session.go, and
-- `AdminAuthMiddleware` of internal/auth/auth.go.
pub mod Handlers
pub mod Checked
pub mod Guessing
pub mod Login
mod Tests
use byte_bucket.Prelude.{
  ℕ, ◌*◌, zero, suc, Bool, true, false, ◌&&◌, ◌||◌, not, List, [], ◌∷◌, Option, none, some, ◌⊎◌,
  inl, inr, ◌==◌, nat_equality, list_equality, if◌then◌else◌, ltb, length,
}
use byte_bucket.Prelude.Int.{ℤ, pos, negsuc}
use byte_bucket.Bytes.{Bytes, bytes, cut, trim_space}
use byte_bucket.Table.{Table, lookup}
use byte_bucket.Limiter
use byte_bucket.Limiter.{FailureLimiter}
use byte_bucket.Session
use byte_bucket.Session.{SessionStore}
use byte_bucket.Auth.Request.{AclRule, User, Platform}
use byte_bucket.Auth.Permission.{equal_fold, get_method, head_method}

-- A header that is absent is empty; `none` is a cookie that is absent or a body that cannot be read.
pub record Request : Type 0 where
  pub method : Bytes
  pub host : Bytes
  pub sec_fetch_site : Bytes
  pub origin : Bytes
  pub admin_access_key : Bytes
  pub admin_secret : Bytes
  pub cookie : Option Bytes
  pub body : Option Bytes
  pub is_tls : Bool
  pub forwarded_proto : Bytes
  pub client_ip : Bytes

-- The user table, the clock, the host of a URL that parses, the JSON of a login, and the random
-- bytes of a new token.
pub record Environment : Type 0 where
  pub users : Table Bytes User
  pub now : ℕ
  pub host_of : Bytes → Option Bytes
  pub read_login : Bytes → Option (Bytes × Bytes)
  pub random : List ℕ

-- The two stores that the handlers share: `failures` and `sessions`.
pub record State : Type 0 where
  pub failures : FailureLimiter
  pub sessions : SessionStore

abbrev pub options_method : Bytes
options_method = bytes "OPTIONS"

abbrev pub login_body_limit : ℕ
login_body_limit = 4 * 1024

unfoldable pub contains_wildcard : List Bytes → Bool
contains_wildcard [] = false
contains_wildcard (it ∷ items) = it == bytes "*" || contains_wildcard items

unfoldable pub is_admin_rule : AclRule → Bool
unfolding contains_wildcard
is_admin_rule rule =
    equal_fold rule.effect (bytes "Allow")
    && (contains_wildcard rule.buckets && contains_wildcard rule.actions)

unfoldable pub any_admin_rule : List AclRule → Bool
unfolding is_admin_rule
any_admin_rule [] = false
any_admin_rule (rule ∷ rules) = is_admin_rule rule || any_admin_rule rules

-- `isAdmin`
unfoldable pub is_admin : User → Bool
unfolding any_admin_rule
is_admin u = any_admin_rule u.acl

-- How `verifyAdmin` ends.
pub data Check : Type 0 where
  accepted : User → Check
  invalid_credentials not_admin decrypt_failed : Check

pub data OriginVerdict : Type 0 where
  origin_unknown origin_same origin_cross : OriginVerdict

unfoldable pub is_cross : OriginVerdict → Bool
is_cross origin_unknown = false
is_cross origin_same = false
is_cross origin_cross = true

unfoldable pub same_host : Bytes → Option Bytes → OriginVerdict
same_host host none = origin_cross
same_host host (some h) = if h == [] || not (equal_fold h host) then origin_cross else origin_same

-- `checkOrigin`
unfoldable pub check_origin : Environment → Request → OriginVerdict
unfolding same_host
check_origin env r =
    if not (r.sec_fetch_site == [])
    then (if r.sec_fetch_site == bytes "same-origin" then origin_same else origin_cross)
    else if r.origin == []
    then origin_unknown
    else same_host r.host (env.host_of r.origin)

unfoldable pub is_safe_method : Bytes → Bool
is_safe_method m = m == get_method || m == head_method || m == options_method

unfoldable pub first_proto : Bytes → Bytes
first_proto s = elim (cut b',' s) [ none ↦ s | some (before, after) ↦ before ]

-- `requestIsHTTPS`
unfoldable pub request_is_https : Request → Bool
unfolding first_proto
request_is_https r =
    if r.is_tls
    then true
    else equal_fold (trim_space (first_proto r.forwarded_proto)) (bytes "https")

-- The session cookie; a negative `max_age` deletes it.
pub record Cookie : Type 0 where
  pub value : Bytes
  pub max_age : ℤ
  pub secure : Bool

unfoldable pub set_session_cookie : Request → Bytes → ℤ → Cookie
unfolding request_is_https
set_session_cookie r token max_age = record {
  value = token;
  max_age = max_age;
  secure = request_is_https r;
}

unfoldable pub clear_session_cookie : Request → Cookie
unfolding set_session_cookie
clear_session_cookie r = set_session_cookie r [] (negsuc 0)

-- How a request came to be an admin's.
pub data AuthMethod : Type 0 where
  admin_headers admin_session : AuthMethod

-- The answers: the handler chain goes on, or one of the responses.
pub data Answer : Type 0 where
  published : User → AuthMethod → Answer
  missing_credentials cross_origin malformed_login : Answer
  session_expired session_revoked : Cookie → Answer
  refused : Check → Answer
  locked_out : ℕ → Answer
  logged_in : Bytes → Cookie → Answer
  logged_out : Cookie → Answer

module _ (p : Platform) where
  unfoldable pub secrets_equal : Bytes → Bytes → Bool
  secrets_equal a b = p.sha256 a == p.sha256 b

  unfoldable pub verify_user : Bytes → User → Option Bytes → Check
  unfolding secrets_equal is_admin
  verify_user secret user none = decrypt_failed
  verify_user secret user (some stored) =
      if not (secrets_equal secret stored)
      then invalid_credentials
      else if not (is_admin user)
      then not_admin
      else accepted user

  unfoldable pub verify_found : Bytes → Option User → Check
  unfolding verify_user
  verify_found secret none = invalid_credentials
  verify_found secret (some user) = verify_user secret user (p.decrypt user.encrypted_secret)

module _ (p : Platform) (env : Environment) where
  -- `verifyAdmin`
  unfoldable pub verify_admin : Bytes → Bytes → Check
  unfolding verify_found
  verify_admin access_key secret = verify_found p secret (lookup access_key env.users)

  -- What a check does to the caller's lockout: `failCredentials`, and the reset of a success.
  unfoldable pub count_check : State → Bytes → Check → State
  count_check s ip (accepted user) = record s { failures = Limiter.reset s.failures ip }
  count_check s ip invalid_credentials = record s { failures = Limiter.fail s.failures env.now ip }
  count_check s ip not_admin = s
  count_check s ip decrypt_failed = s

  -- `checkCredentials`: a lockout, or the outcome of the check.
  unfoldable pub check_unless : State → Bytes → Bytes → Bytes → ℕ × Bool → State × (ℕ ⊎ Check)
  unfolding verify_admin count_check
  check_unless s ip access_key secret (retry, true) = (s, inl retry)
  check_unless s ip access_key secret (retry, false) =
      let check = verify_admin access_key secret in (count_check s ip check, inr check)

  unfoldable pub check_credentials : State → Request → Bytes → Bytes → State × (ℕ ⊎ Check)
  unfolding check_unless
  check_credentials s r access_key secret =
      check_unless s r.client_ip access_key secret (Limiter.blocked s.failures env.now r.client_ip)
