-- ===== src/Auth/Signing.antt =====
-- Signatures of Signature Version 4 and their verification (internal/auth/auth.go).
pub mod Verified
use byte_bucket.Prelude.{
  ℕ, ◌+◌, ◌*◌, zero, suc, Bool, true, false, ◌&&◌, ◌||◌, not, List, [], ◌∷◌, ◌++◌, Option, none,
  some, ◌==◌, nat_equality, list_equality, if◌then◌else◌, ltb, leb, length, take,
}
use byte_bucket.Prelude.Int.{ℤ, pos, negsuc}
use byte_bucket.Bytes.{Bytes, bytes, slash, split, trim_space, trim_prefix, has_prefix, cut}
use byte_bucket.Bytes.Digits.{hex, unhex}
use byte_bucket.Table.{Table, lookup, insert}
use byte_bucket.Auth.Request.{
  User, Request, Platform, Server, Refusal, missing_authentication, invalid_authorization,
  missing_credential, missing_signed_headers, missing_signature, invalid_credential,
  invalid_terminal, missing_date, date_mismatch, missing_payload_hash, incomplete_body,
  payload_mismatch, user_not_found, decrypt_error, signature_mismatch, invalid_date,
  timestamp_expired, not_permitted, missing_parameters, invalid_expires, url_expired, Result, ok,
  refused, ◌>>=◌, ◌>>◌, guard, require, get_header, query_param,
}
use byte_bucket.Auth.Permission.{is_user_allowed}
use byte_bucket.Auth.Canonical.{
  join_with, canonical_text, build_canonical_query, build_canonical_headers,
  build_canonical_request, signed_headers_contains,
}

-- The parts of a credential, `key/date/region/service/aws4_request`.
pub record Scope : Type 0 where
  pub access_key : Bytes
  pub date : Bytes
  pub region : Bytes
  pub service : Bytes

abbrev pub terminal_word : Bytes
terminal_word = bytes "aws4_request"

abbrev pub unsigned_payload : Bytes
unsigned_payload = bytes "UNSIGNED-PAYLOAD"

unfoldable pub scope_of : List Bytes → Result Scope
scope_of (key ∷ date ∷ region ∷ service ∷ terminal ∷ []) =
    if terminal == terminal_word
    then ok (record { access_key = key; date = date; region = region; service = service })
    else refused invalid_terminal
scope_of _ = refused invalid_credential

unfoldable pub split_credential : Bytes → Result Scope
unfolding scope_of split
split_credential credential = scope_of (split slash credential)

abbrev pub quarter_hour : ℕ
quarter_hour = 15 * 60 * 1_000_000_000

unfoldable pub signature_matches : Bytes → Option Bytes → Bool
signature_matches expected none = false
signature_matches expected (some provided) = expected == provided

-- `now.Sub(t) > 15*time.Minute || t.Sub(now) > 15*time.Minute`
unfoldable pub is_skewed : ℕ → ℕ → Bool
is_skewed now t = ltb (t + quarter_hour) now || ltb (now + quarter_hour) t

-- The parameters of an Authorization header, the last one of a name counting.
collect_params : List Bytes → Table Bytes Bytes → Table Bytes Bytes
unfolding cut trim_space
collect_params [] params = params
collect_params (part ∷ parts) params = collect_params parts (elim (cut b'=' (trim_space part)) [
  | none ↦ params
  | some (name, value) ↦ insert name value params
])

abbrev pub header_prefix : Bytes
header_prefix = bytes "AWS4-HMAC-SHA256 "

unfoldable pub parse_auth_params : Bytes → Table Bytes Bytes
unfolding collect_params split trim_prefix
parse_auth_params auth_header =
    collect_params (split b',' (trim_prefix auth_header header_prefix)) []

-- What an Authorization header says.
pub record Authorization : Type 0 where
  pub scope : Scope
  pub signed_headers : Bytes
  pub signature : Bytes

unfoldable pub read_authorization : Bytes → Result Authorization
unfolding parse_auth_params split_credential
read_authorization auth_header = do
  let params = parse_auth_params auth_header
  credential ← require (lookup (bytes "Credential") params) missing_credential
  signed_headers ← require (lookup (bytes "SignedHeaders") params) missing_signed_headers
  signature ← require (lookup (bytes "Signature") params) missing_signature
  scope ← split_credential credential
  ok (record { scope = scope; signed_headers = signed_headers; signature = signature })

unfoldable pub starts_with_date : Bytes → Bytes → Bool
starts_with_date amz_date date = leb 8 (length amz_date) && take 8 amz_date == date

module _ (p : Platform) where
  -- `hashSHA256`
  pub hash_sha256 : Bytes → Bytes
  unfolding hex
  hash_sha256 text = hex (p.sha256 text)

  -- `getSigningKey`; `p.hmac` takes the message and the key.
  unfoldable pub signing_key : Bytes → Scope → Bytes
  signing_key secret scope =
      p.hmac terminal_word (p.hmac scope.service (p.hmac scope.region (p.hmac scope.date secret)))

  unfoldable pub string_to_sign : Bytes → Scope → Bytes → Bytes
  unfolding hash_sha256
  string_to_sign amz_date scope canonical_request = join_with (10 ∷ []) (
      bytes "AWS4-HMAC-SHA256"
      ∷ amz_date
      ∷ join_with (bytes "/") (scope.date ∷ scope.region ∷ scope.service ∷ terminal_word ∷ [])
      ∷ hash_sha256 canonical_request
      ∷ [])

  unfoldable pub expected_signature : Bytes → Bytes → Scope → Bytes → Bytes
  unfolding signing_key string_to_sign
  expected_signature secret amz_date scope canonical_request =
      p.hmac (string_to_sign amz_date scope canonical_request)
        (signing_key (bytes "AWS4" ++ secret) scope)

  unfoldable pub validate_timestamp : ℕ → Bytes → Result {0} Unit
  unfolding is_skewed
  validate_timestamp now amz_date = do
    t ← require (p.parse_time amz_date) invalid_date
    guard (not (is_skewed now t)) timestamp_expired

  -- The steps that both ways of signing share: the user, the secret, the signature and the clock.
  unfoldable pub verify_signature : Server → Scope → Bytes → Bytes → Bytes → Result User
  unfolding expected_signature signature_matches validate_timestamp unhex
  verify_signature server scope amz_date canonical_request signature = do
    user ← require (lookup scope.access_key server.users) user_not_found
    secret ← require (p.decrypt user.encrypted_secret) decrypt_error
    guard
        (signature_matches (expected_signature secret amz_date scope canonical_request)
          (unhex signature))
        signature_mismatch
    validate_timestamp server.now amz_date
    ok user

  -- A body is hashed unless the client says that it is not signed.
  unfoldable pub check_body : Bytes → Option Bytes → Result {0} Unit
  unfolding hash_sha256 has_prefix
  check_body payload_hash body =
      if payload_hash == unsigned_payload || has_prefix payload_hash (bytes "STREAMING-")
      then ok tt
      else do
        bytes_read ← require body incomplete_body
        guard (hash_sha256 bytes_read == payload_hash) payload_mismatch

  unfoldable pub process_header_auth : Server → Request → Bytes → Result User
  unfolding read_authorization starts_with_date check_body verify_signature get_header
  process_header_auth server req auth_header = do
    a ← read_authorization auth_header
    let amz_date = get_header req (bytes "x-amz-date")
    guard (not (amz_date == [])) missing_date
    guard (starts_with_date amz_date a.scope.date) date_mismatch
    let payload_hash = get_header req (bytes "x-amz-content-sha256")
    guard (not (payload_hash == [])) missing_payload_hash
    check_body payload_hash req.body
    user ←
        verify_signature server a.scope amz_date
          (build_canonical_request req a.signed_headers payload_hash) a.signature
    guard (is_user_allowed user req.method req.bucket) not_permitted
    ok user
