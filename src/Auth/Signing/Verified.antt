-- ===== src/Auth/Signing/Verified.antt =====
-- What a verified signature says (internal/auth/auth.go).
use byte_bucket.Prelude.{
  ℕ, ◌+◌, ◌≤◌, Bool, true, false, ◌||◌, not, [], Option, none, some, ◌==◌, nat_equality,
  list_equality, ==_refl, ◌∙◌, list_test_iff, Bool-cases, ◌≡◌, ◌⊎◌, inl, inr, refl, sym, ap, arith,
}
use byte_bucket.Bytes.{Bytes, bytes, has_prefix}
use byte_bucket.Bytes.Digits.{unhex}
use byte_bucket.Table.{lookup}
use byte_bucket.Auth.Request.{
  User, Request, Platform, Server, Refusal, user_not_found, decrypt_error, signature_mismatch,
  invalid_date, timestamp_expired, missing_date, date_mismatch, missing_payload_hash,
  incomplete_body, payload_mismatch, not_permitted, ok, guard, passed, guard_passed, require_passed,
  require_step, guard_step, ok_step, get_header,
}
use byte_bucket.Auth.Permission.{is_user_allowed}
use byte_bucket.Auth.Canonical.{build_canonical_request}
use byte_bucket.Auth.Signing.{
  Scope, unsigned_payload, quarter_hour, hash_sha256, expected_signature, signature_matches,
  is_skewed, validate_timestamp, verify_signature, check_body, Authorization, read_authorization,
  starts_with_date, process_header_auth,
}

-- The user with the access key of the scope signed the text, within a quarter of an hour of now.
pub record IsVerified (p : Platform) (server : Server) (scope : Scope)
    (amz_date text signature : Bytes) (user : User) : Type 0 where
  pub found : lookup scope.access_key server.users ≡ some user
  pub secret : Bytes
  pub decrypted : p.decrypt user.encrypted_secret ≡ some secret
  pub signed : unhex signature ≡ some (expected_signature p secret amz_date scope text)
  pub time : ℕ
  pub dated : p.parse_time amz_date ≡ some time
  pub not_late : server.now ≤ time + quarter_hour
  pub not_early : time ≤ server.now + quarter_hour

matching :
    (expected : Bytes) (provided : Option Bytes)
    → signature_matches expected provided ≡ true
    → provided ≡ some expected
unfolding signature_matches
matching expected none h = cc
matching expected (some given) h = ap some (sym ((list_test_iff expected given).0 h))

on_time :
    (now t : ℕ) → not (is_skewed now t) ≡ true → (now ≤ t + quarter_hour) × (t ≤ now + quarter_hour)
unfolding is_skewed
on_time now t h = ground arith

last_guard : (test : Bool) (e : Refusal) {u : Unit {0}} → guard test e ≡ ok u → test ≡ true
last_guard true e h = refl
last_guard false e h = cc

module _ (p : Platform) (server : Server) where
  stamped :
      (amz_date : Bytes) {u : Unit {0}}
      → validate_timestamp p server.now amz_date ≡ ok u
      → (t : ℕ) × (p.parse_time amz_date ≡ some t) × (not (is_skewed server.now t) ≡ true)
  unfolding validate_timestamp
  stamped amz_date h =
      let (t, dated, rest) =
        require_passed (p.parse_time amz_date) invalid_date
          (λ t. guard (not (is_skewed server.now t)) timestamp_expired) _ h in
      (t, dated, last_guard _ _ rest)

  pub verify_signature-IsVerified :
      (scope : Scope) (amz_date text signature : Bytes) (user : User)
      → verify_signature p server scope amz_date text signature ≡ ok user
      → IsVerified p server scope amz_date text signature user
  unfolding verify_signature
  verify_signature-IsVerified scope amz_date text signature user h =
      let (u, found, h1) =
        require_passed (lookup scope.access_key server.users) user_not_found _ user h in
      let (secret, decrypted, h2) =
        require_passed (p.decrypt u.encrypted_secret) decrypt_error _ user h1 in
      let (matches, h3) =
        guard_passed
          (signature_matches (expected_signature p secret amz_date scope text) (unhex signature))
          signature_mismatch _ user h2 in
      let (done, stamp, h4) = passed (validate_timestamp p server.now amz_date) _ user h3 in
      let (t, dated, fresh) = stamped amz_date stamp in
      let same : u ≡ user = cc h4 in
      record {
        found = rw (← same) found;
        secret = secret;
        decrypted = rw (← same) decrypted;
        signed = matching _ _ matches;
        time = t;
        dated = dated;
        not_late = (on_time server.now t fresh).0;
        not_early = (on_time server.now t fresh).1;
      }

  -- The body is the one that was hashed, unless the client declares that it signs none.
  abbrev pub IsCovered : Bytes → Option Bytes → Type 0
  IsCovered payload_hash body =
      ((payload_hash == unsigned_payload || has_prefix payload_hash (bytes "STREAMING-")) ≡ true)
      ⊎ ((read : Bytes) × (body ≡ some read) × (hash_sha256 p read ≡ payload_hash))

  check_body-IsCovered :
      (payload_hash : Bytes) (body : Option Bytes) {u : Unit {0}}
      → check_body p payload_hash body ≡ ok u
      → IsCovered payload_hash body
  unfolding check_body
  check_body-IsCovered payload_hash body h =
      elim (Bool-cases
        (payload_hash == unsigned_payload || has_prefix payload_hash (bytes "STREAMING-"))) [
          | inl unsigned ↦ inl unsigned
          | inr signed ↦
              let (read, found, rest) =
                require_passed body incomplete_body
                  (λ b. guard (hash_sha256 p b == payload_hash) payload_mismatch) _
                  (rw signed at h) in
              inr (read, found, (list_test_iff _ _).0 (last_guard _ _ rest))
        ]

  -- What a request passes that is signed by its Authorization header.
  pub record IsHeaderSigned (req : Request) (auth_header : Bytes) (user : User) : Type 0 where
    pub authorization : Authorization
    pub read : read_authorization auth_header ≡ ok authorization
    pub amz_date : Bytes
    pub sent_date : get_header req (bytes "x-amz-date") ≡ amz_date
    pub same_day : starts_with_date amz_date authorization.scope.date ≡ true
    pub payload_hash : Bytes
    pub sent_hash : get_header req (bytes "x-amz-content-sha256") ≡ payload_hash
    pub covered : IsCovered payload_hash req.body
    pub verified :
        IsVerified p server authorization.scope amz_date
          (build_canonical_request req authorization.signed_headers payload_hash)
          authorization.signature
          user
    pub allowed : is_user_allowed user req.method req.bucket ≡ true

  pub process_header_auth-IsHeaderSigned :
      (req : Request) (auth_header : Bytes) (user : User)
      → process_header_auth p server req auth_header ≡ ok user
      → IsHeaderSigned req auth_header user
  unfolding process_header_auth
  process_header_auth-IsHeaderSigned req auth_header user h =
      let amz_date = get_header req (bytes "x-amz-date") in
      let payload_hash = get_header req (bytes "x-amz-content-sha256") in
      let (a, read, h1) = passed (read_authorization auth_header) _ user h in
      let (dated, h2) = guard_passed (not (amz_date == [])) missing_date _ user h1 in
      let (same_day, h3) =
        guard_passed (starts_with_date amz_date a.scope.date) date_mismatch _ user h2 in
      let (hashed, h4) = guard_passed (not (payload_hash == [])) missing_payload_hash _ user h3 in
      let (done, checked, h5) = passed (check_body p payload_hash req.body) _ user h4 in
      let (u, verified, h6) =
        passed
          (verify_signature p server a.scope amz_date
            (build_canonical_request req a.signed_headers payload_hash) a.signature)
          _ user h5 in
      let (allowed, h7) =
        guard_passed (is_user_allowed u req.method req.bucket) not_permitted _ user h6 in
      let same : u ≡ user = cc h7 in
      record {
        authorization = a;
        read = read;
        amz_date = amz_date;
        sent_date = refl;
        same_day = same_day;
        payload_hash = payload_hash;
        sent_hash = refl;
        covered = check_body-IsCovered payload_hash req.body checked;
        verified =
            verify_signature-IsVerified a.scope amz_date _ a.signature user (rw same at verified);
        allowed = rw (← same) allowed;
      }

  fresh :
      (now t : ℕ) → now ≤ t + quarter_hour → t ≤ now + quarter_hour → not (is_skewed now t) ≡ true
  unfolding is_skewed
  fresh now t h k = ground arith

  same_signature :
      (expected : Bytes) (provided : Option Bytes)
      → provided ≡ some expected
      → signature_matches expected provided ≡ true
  unfolding signature_matches
  same_signature expected provided h = ap (signature_matches expected) h ∙ ==_refl expected

  validate_timestamp-ok :
      (amz_date : Bytes) (t : ℕ)
      → p.parse_time amz_date ≡ some t
      → not (is_skewed server.now t) ≡ true
      → validate_timestamp p server.now amz_date ≡ ok tt
  unfolding validate_timestamp
  validate_timestamp-ok amz_date t dated h =
      require_step (p.parse_time amz_date) invalid_date
        (λ t. guard (not (is_skewed server.now t)) timestamp_expired) t dated
      ∙ ap (λ b. guard b timestamp_expired) h

  -- What is verified is accepted.
  pub IsVerified-verify_signature :
      (scope : Scope) (amz_date text signature : Bytes) (user : User)
      → IsVerified p server scope amz_date text signature user
      → verify_signature p server scope amz_date text signature ≡ ok user
  unfolding verify_signature
  IsVerified-verify_signature scope amz_date text signature user v =
      require_step (lookup scope.access_key server.users) user_not_found _ user v.found
      ∙ require_step (p.decrypt user.encrypted_secret) decrypt_error _ v.secret v.decrypted
      ∙ guard_step
          (signature_matches (expected_signature p v.secret amz_date scope text) (unhex signature))
          signature_mismatch _ (same_signature _ _ v.signed)
      ∙ ok_step (validate_timestamp p server.now amz_date) _ tt (
          validate_timestamp-ok amz_date v.time v.dated
            (fresh server.now v.time v.not_late v.not_early))
