-- ===== src/Auth/Presigned.antt =====
-- Presigned URLs: `processPresignedAuth` of internal/auth/auth.go, which verifies them, and
-- `PresignGetURL` of internal/auth/presign.go, which signs them.
pub mod Verified
pub mod RoundTrip
use byte_bucket.Prelude.{
  ℕ, ◌+◌, ◌*◌, ◌/◌, zero, suc, Bool, true, false, ◌&&◌, ◌||◌, not, List, [], ◌∷◌, ◌++◌, Option,
  none, some, ◌==◌, nat_equality, list_equality, if◌then◌else◌, ltb, leb, length, take, map,
}
use byte_bucket.Prelude.Int.{ℤ, pos, negsuc}
use byte_bucket.Bytes.{Bytes, bytes, slash, split}
use byte_bucket.Bytes.Digits.{hex, decimal}
use byte_bucket.Path.{join}
use byte_bucket.Table.{Table, lookup, insert, erase}
use byte_bucket.Auth.Request.{
  User, Request, Platform, Server, Refusal, invalid_date, missing_parameters, invalid_expires,
  url_expired, Result, ok, refused, ◌>>=◌, ◌>>◌, guard, require, query_param,
}
use byte_bucket.Auth.Permission.{get_method}
use byte_bucket.Auth.Escape.{path_escape, escaped_path}
use byte_bucket.Auth.Canonical.{
  canonical_text, build_canonical_query, build_canonical_headers, signed_headers_contains,
}
use byte_bucket.Auth.Signing.{
  Scope, split_credential, unsigned_payload, terminal_word, expected_signature, verify_signature,
}

-- `time.Now().UTC().After(t.Add(expiration))`, for a duration that may be negative
abbrev pub is_expired : ℕ → ℕ → ℤ → Bool
is_expired now t (pos d) = ltb (t + d) now
is_expired now t (negsuc d) = ltb t (now + suc d)

-- The query without its signature, as both sides sign it.
unfoldable pub presigned_text : Request → Bytes → Bytes → Bytes
presigned_text req signed_headers payload_hash =
    canonical_text req.method req.escaped_path
      (build_canonical_query (erase (bytes "X-Amz-Signature") req.query))
      (build_canonical_headers req signed_headers) signed_headers payload_hash

unfoldable pub presigned_payload : Request → Bytes → Bytes
presigned_payload req signed_headers =
    let given = query_param req (bytes "X-Amz-Content-Sha256") in
    if given == [] && not (signed_headers_contains signed_headers (bytes "x-amz-content-sha256"))
    then unsigned_payload
    else given

-- The parameters that a presigned URL must have.
pub record Presigned : Type 0 where
  pub algorithm : Bytes
  pub credential : Bytes
  pub amz_date : Bytes
  pub expires : Bytes
  pub signature : Bytes
  pub signed_headers : Bytes

unfoldable pub read_presigned : Request → Presigned
read_presigned req = record {
  algorithm = query_param req (bytes "X-Amz-Algorithm");
  credential = query_param req (bytes "X-Amz-Credential");
  amz_date = query_param req (bytes "X-Amz-Date");
  expires = query_param req (bytes "X-Amz-Expires");
  signature = query_param req (bytes "X-Amz-Signature");
  signed_headers = query_param req (bytes "X-Amz-SignedHeaders");
}

unfoldable pub is_complete : Presigned → Bool
is_complete q = not (
    q.algorithm == []
    || q.credential == []
    || q.amz_date == []
    || q.expires == []
    || q.signature == []
    || q.signed_headers == [])

module _ (p : Platform) where
  unfoldable pub process_presigned_auth : Server → Request → Result User
  process_presigned_auth server req = do
    let q = read_presigned req
    guard (is_complete q) missing_parameters
    scope ← split_credential q.credential
    expiration ← require (p.parse_duration (q.expires ++ bytes "s")) invalid_expires
    t ← require (p.parse_time q.amz_date) invalid_date
    guard (not (is_expired server.now t expiration)) url_expired
    verify_signature p server scope q.amz_date
        (presigned_text req q.signed_headers (presigned_payload req q.signed_headers)) q.signature

-- What `PresignGetURL` refuses to sign.
pub data PresignError : Type 0 where
  missing_credentials missing_target not_positive : PresignError

pub data Presign {ℓ} (A : Type ℓ) : Type ℓ where
  signed : A → Presign A
  unsigned : PresignError → Presign A

-- The signed URL: the host of the base URL, the path as it is sent, and the query.
pub record SignedUrl : Type 0 where
  pub host : Bytes
  pub path : Bytes
  pub query : Table Bytes (List Bytes)

-- `u.Path`, which is set to a path whose segments are escaped already.
unfoldable pub object_path : Bytes → Bytes → Bytes
object_path bucket object_key =
    slash ∷ (path_escape bucket ++ (slash ∷ join (map path_escape (split slash object_key))))

-- `q.Set` of the parameters in the order of the code
unfoldable pub unsigned_query : Bytes → Bytes → Bytes → Bytes → Table Bytes (List Bytes)
unsigned_query credential amz_date expires headers =
    (bytes "X-Amz-Algorithm", bytes "AWS4-HMAC-SHA256" ∷ [])
    ∷ (bytes "X-Amz-Credential", credential ∷ [])
    ∷ (bytes "X-Amz-Date", amz_date ∷ [])
    ∷ (bytes "X-Amz-Expires", expires ∷ [])
    ∷ (bytes "X-Amz-SignedHeaders", headers ∷ [])
    ∷ []

unfoldable pub get_scope : Bytes → Bytes → Scope
get_scope access_key amz_date = record {
  access_key = access_key;
  date = take 8 amz_date;
  region = bytes "us-east-1";
  service = bytes "s3";
}

-- `accessKey/date/region/service/aws4_request`
unfoldable pub credential_text : Scope → Bytes
credential_text scope =
    join (scope.access_key ∷ scope.date ∷ scope.region ∷ scope.service ∷ terminal_word ∷ [])

abbrev pub nanoseconds : ℕ
nanoseconds = 1_000_000_000

module _ (p : Platform) where
  -- `amz_date` is the clock's text and `base_host` the host of the parsed base URL; `expires` is in
  -- nanoseconds.
  unfoldable pub presign_get_url :
      Bytes → Bytes → Bytes → Bytes → Bytes → Bytes → ℤ → Presign SignedUrl
  presign_get_url amz_date base_host access_key secret bucket object_key expires =
      if access_key == [] || secret == []
      then unsigned missing_credentials
      else if bucket == [] || object_key == []
      then unsigned missing_target
      else elim expires [
        | negsuc d ↦ unsigned not_positive
        | pos zero ↦ unsigned not_positive
        | pos (suc d) ↦
            let scope = get_scope access_key amz_date in
            let path = escaped_path (object_path bucket object_key) in
            let query =
              unsigned_query (credential_text scope) amz_date (decimal (suc d / nanoseconds))
                (bytes "host") in
            let text =
              canonical_text get_method path (build_canonical_query query)
                (bytes "host:" ++ (base_host ++ 10 ∷ [])) (bytes "host") unsigned_payload in
            signed (record {
              host = base_host;
              path = path;
              query =
                  insert (bytes "X-Amz-Signature")
                    (hex (expected_signature p secret amz_date scope text) ∷ []) query;
            })
      ]
