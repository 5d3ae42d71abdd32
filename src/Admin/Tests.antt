-- ===== src/Admin/Tests.antt =====
-- An admin who logs in, and a guesser.
use byte_bucket.Prelude.{
  ℕ, true, false, List, [], ◌∷◌, none, some, ◌⊎◌, inl, ◌≡◌, refl, arith, ◌==◌, nat_equality,
  list_equality,
}
use byte_bucket.Prelude.Int.{pos}
use byte_bucket.Bytes.{bytes, trim_space, cut}
use byte_bucket.Base64.{raw_encode}
use byte_bucket.Table.{lookup}
use byte_bucket.Limiter
use byte_bucket.Limiter.{FailureWindow, new_failure_limiter}
use byte_bucket.Limiter.Lockout.{IsIdle}
use byte_bucket.Session
use byte_bucket.Session.{new_session_store}
use byte_bucket.Session.Bounds.{IsBounded}
use byte_bucket.Auth.Request.{User, Platform}
use byte_bucket.Acl.{to_lower}
use byte_bucket.Auth.Permission.{equal_fold}
use byte_bucket.Admin.{
  is_cross, check_origin, set_session_cookie, Request, Environment, State, Cookie, Answer,
  published, admin_headers, admin_session, logged_in, check_credentials, verify_admin,
  invalid_credentials,
}
use byte_bucket.Admin.Handlers.{admin_auth_middleware, login_handler}
use byte_bucket.Admin.Checked.{IsHeaderAdmin, IsLoggedIn, admin_auth_middleware-published}
use byte_bucket.Admin.Guessing.{at, tries, check_credentials-tries}
use byte_bucket.Admin.Login.{login_handler-lookup, login_handler-old_token}

abbrev platform : Platform
platform = record {
  sha256 = λ text. text;
  hmac = λ message key. message;
  decrypt = λ stored. some stored;
  parse_time = λ text. none;
  parse_duration = λ text. none;
}

abbrev root : User
root = record {
  access_key_id = bytes "root";
  encrypted_secret = bytes "shh";
  acl = record { effect = bytes "allow"; buckets = bytes "*" ∷ []; actions = bytes "*" ∷ [] } ∷ [];
}

abbrev raw_bytes : List ℕ
raw_bytes =
    1 ∷ 2 ∷ 3 ∷ 4 ∷ 5 ∷ 6 ∷ 7 ∷ 8 ∷ 1 ∷ 2 ∷ 3 ∷ 4 ∷ 5 ∷ 6 ∷ 7 ∷ 8 ∷ 1 ∷ 2 ∷ 3 ∷ 4 ∷ 5 ∷ 6 ∷ 7 ∷ 8
    ∷ 1 ∷ 2 ∷ 3 ∷ 4 ∷ 5 ∷ 6 ∷ 7 ∷ 8 ∷ []

abbrev environment : Environment
environment = record {
  users = (bytes "root", root) ∷ [];
  now = 100;
  host_of = λ url. some url;
  read_login = λ raw. some (bytes "root", raw);
  random = raw_bytes;
}

abbrev start : State
start = record { failures = new_failure_limiter 2 900 8; sessions = new_session_store 4 30 100 }

abbrev request : Request
request = record {
  method = bytes "POST";
  host = bytes "h";
  sec_fetch_site = [];
  origin = [];
  admin_access_key = bytes "root";
  admin_secret = bytes "shh";
  cookie = some (bytes "old");
  body = some (bytes "shh");
  is_tls = false;
  forwarded_proto = bytes "https, http";
  client_ip = bytes "1.2.3.4";
}

passes : (admin_auth_middleware platform environment start request).1 ≡ published root admin_headers
unfolding admin_auth_middleware check_credentials Limiter.blocked lookup verify_admin equal_fold
    to_lower
passes = refl

admin_auth_middleware-published_example :
    ((admin_headers ≡ admin_headers) × IsHeaderAdmin platform environment start request root)
    ⊎ ((admin_headers ≡ admin_session) × IsLoggedIn platform environment start request root)
admin_auth_middleware-published_example =
    admin_auth_middleware-published platform environment start request root admin_headers passes

nobody_failed : IsIdle start.failures 10 (bytes "1.2.3.4")
unfolding lookup
nobody_failed w h = cc h

wrong_guess : verify_admin platform environment (bytes "root") (bytes "x") ≡ invalid_credentials
unfolding verify_admin lookup
wrong_guess = refl

check_credentials-tries_example :
    check_credentials platform
      (at platform environment request (bytes "root") 60)
      (tries platform environment request
        (bytes "root")
        start
        ((10, bytes "x") ∷ (20, bytes "x") ∷ []))
      request
      (bytes "root")
      (bytes "shh")
    ≡ (
      tries platform environment request
          (bytes "root")
          start
          ((10, bytes "x") ∷ (20, bytes "x") ∷ []),
      inl 850,
    )
check_credentials-tries_example =
    check_credentials-tries platform environment request (bytes "root") start 10 60 (bytes "x")
      (bytes "root") (bytes "shh") ((20, bytes "x") ∷ []) nobody_failed
      (omega arith, wrong_guess, (omega arith, wrong_guess, tt)) refl (omega arith)

abbrev after : State × Answer
after = login_handler platform environment start request

abbrev cookie : Cookie
cookie = record { value = raw_encode raw_bytes; max_age = pos 0; secure = true }

logged :
    login_handler platform environment start request ≡ (after.0, logged_in (bytes "root") cookie)
unfolding login_handler is_cross check_origin check_credentials Limiter.blocked lookup equal_fold
    to_lower set_session_cookie raw_encode Session.create trim_space cut
logged = refl

login_handler-lookup_example :
    (Session.lookup platform.sha256 after.0.sessions 120 (raw_encode raw_bytes)).1
    ≡ some (bytes "root")
login_handler-lookup_example =
    login_handler-lookup platform environment start after.0 request (bytes "root") cookie 120 logged
      refl (omega arith) (omega arith)

empty-IsBounded : IsBounded start.sessions
empty-IsBounded = record { distinct = tt; within = omega arith; room = omega arith }

other_token : (raw_encode raw_bytes == bytes "old") ≡ false
unfolding raw_encode
other_token = refl

login_handler-old_token_example :
    (Session.lookup platform.sha256 after.0.sessions 120 (bytes "old")).1 ≡ none
login_handler-old_token_example =
    login_handler-old_token platform environment start after.0 request (bytes "root") (bytes "old")
      cookie 120 logged empty-IsBounded refl other_token
