-- ===== src/Auth/Tests.antt =====
-- Concrete requests, signed and anonymous.
use byte_bucket.Prelude.{
  ◌+◌, ◌*◌, ◌<◌, ◌%◌, true, false, [], ◌∷◌, some, ◌==◌, nat_equality, list_equality, length, take,
  ◌≡◌, ◌≢◌, ◌⊎◌, inl, refl, arith,
}
use byte_bucket.Prelude.Int.{pos}
use byte_bucket.Bytes.{Bytes, bytes, trim_prefix}
use byte_bucket.Bytes.Digits.{hex}
use byte_bucket.Table.{lookup, insert}
use byte_bucket.Acl
use byte_bucket.Acl.{Sidecars, effective_object_acl, is_public_read}
use byte_bucket.Path.Render.{NoSlash}
use byte_bucket.Path.{safe_join}
use byte_bucket.Auth.Request.{User, Request, Platform, Server, ok, get_header, query_param}
use byte_bucket.Auth.Permission.Rights.{LacksAction}
use byte_bucket.Auth.Permission.{get_method, put_method, names_action}
use byte_bucket.Auth.Signing.Verified.{IsHeaderSigned}
use byte_bucket.Auth.Presigned.{
  unsigned_query, Presign, presign_get_url, signed, unsigned, SignedUrl, process_presigned_auth,
  nanoseconds,
}
use byte_bucket.Auth.Presigned.Verified.{
  IsPresigned, without_rules, strip_rules, process_presigned_auth-strip_rules,
}
use byte_bucket.Auth.Presigned.RoundTrip.{request_for, process_presigned_auth-presign_get_url}
use byte_bucket.Auth.Access.{auth_middleware, sigv4, anonymous}
use byte_bucket.Auth.Access.Writing.{auth_middleware-writes}
use byte_bucket.Auth.Access.Anonymous.{
  IsAnonymousRead, auth_middleware-sigv4, auth_middleware-anonymous,
}
use byte_bucket.Names.{validate_bucket_name, scan_name}

abbrev platform : Platform
platform = record {
  sha256 = λ text. length text % 256 ∷ [];
  hmac = λ message key. (length message + length key) % 256 ∷ [];
  decrypt = λ stored. some stored;
  parse_time = λ text. some 5000;
  parse_duration = λ text. some (pos (60 * nanoseconds));
}

abbrev uploader : User
uploader = record {
  access_key_id = bytes "AK";
  encrypted_secret = bytes "shh";
  acl =
      record {
        effect = bytes "Allow";
        buckets = bytes "docs" ∷ [];
        actions = bytes "s3:PutObject" ∷ bytes "s3:DeleteObject" ∷ [];
      }
      ∷ [];
}

docs_valid : validate_bucket_name (bytes "docs") ≡ true
unfolding validate_bucket_name scan_name
docs_valid = refl

abbrev no_files : Bytes → Bytes → Sidecars
no_files bucket path = record {
  bucket_acl = Acl.document (record { canned = bytes "public-read" });
  object_meta = Acl.missing;
}

abbrev server : Server
server = record {
  users = (bytes "AK", uploader) ∷ [];
  now = 6000;
  objects_root = bytes "/data";
  sidecars = no_files;
}

abbrev plain : Request
plain = record {
  method = get_method;
  bucket = bytes "docs";
  object_key = bytes "/a.txt";
  host = bytes "h";
  escaped_path = bytes "/docs/a.txt";
  query = [];
  headers = [];
  body = some [];
}

plain_passes : auth_middleware platform server plain ≡ ok anonymous
unfolding auth_middleware get_header lookup query_param trim_prefix safe_join effective_object_acl
    is_public_read
plain_passes = refl

auth_middleware-anonymous_example : IsAnonymousRead server plain
auth_middleware-anonymous_example = auth_middleware-anonymous platform server plain plain_passes

abbrev date : Bytes
date = bytes "20260101T000000Z"

abbrev url_in : Presign SignedUrl → SignedUrl
url_in (signed url) = url
url_in (unsigned e) = record { host = []; path = []; query = [] }

abbrev link : SignedUrl
link = url_in (
    presign_get_url platform date (bytes "h") (bytes "AK") (bytes "shh") (bytes "docs")
      (bytes "a.txt") (pos (60 * nanoseconds)))

link_signed :
    presign_get_url platform date
      (bytes "h")
      (bytes "AK")
      (bytes "shh")
      (bytes "docs")
      (bytes "a.txt")
      (pos (60 * nanoseconds))
    ≡ signed link
unfolding presign_get_url
link_signed = refl

uploader_found : lookup (bytes "AK") server.users ≡ some uploader
unfolding lookup
uploader_found = refl

mac_small : (message key : Bytes) → ((length message + length key) % 256 < 256) × Unit {0}
mac_small message key = (omega arith, tt)

NoSlash-date : NoSlash (take 8 date)
NoSlash-date = (refl, (refl, (refl, (refl, (refl, (refl, (refl, (refl, tt))))))))

mac_hex : (message key : Bytes) → (hex (platform.hmac message key) == []) ≡ false
unfolding hex
mac_hex message key = refl

abbrev another : Request
another = record plain { bucket = bytes "other"; headers = (bytes "x-a", bytes "1" ∷ []) ∷ [] }

process_presigned_auth-presign_get_url_example :
    process_presigned_auth platform server (request_for link another) ≡ ok uploader
process_presigned_auth-presign_get_url_example =
    process_presigned_auth-presign_get_url platform server another uploader date (bytes "h")
      (bytes "AK") (bytes "shh") (bytes "docs") (bytes "a.txt") (60 * nanoseconds) 5000 link
      link_signed uploader_found refl refl refl (omega arith) (omega arith) (omega arith) refl
      (refl, (refl, tt)) NoSlash-date (λ message key. (mac_small message key, mac_hex message key))

link_accepted : process_presigned_auth platform server (request_for link plain) ≡ ok uploader
link_accepted =
    process_presigned_auth-presign_get_url platform server plain uploader date (bytes "h")
      (bytes "AK") (bytes "shh") (bytes "docs") (bytes "a.txt") (60 * nanoseconds) 5000 link
      link_signed uploader_found refl refl refl (omega arith) (omega arith) (omega arith) refl
      (refl, (refl, tt)) NoSlash-date (λ message key. (mac_small message key, mac_hex message key))

process_presigned_auth-strip_rules_example :
    process_presigned_auth platform
      (record server { users = strip_rules server.users })
      (request_for link plain)
    ≡ ok (without_rules uploader)
process_presigned_auth-strip_rules_example =
    process_presigned_auth-strip_rules platform server (request_for link plain) uploader
      link_accepted

link_passes : auth_middleware platform server (request_for link plain) ≡ ok (sigv4 uploader)
unfolding auth_middleware get_header query_param lookup presign_get_url insert unsigned_query
link_passes = rw link_accepted refl

auth_middleware-sigv4_example :
    IsHeaderSigned platform server
      (request_for link plain)
      (get_header (request_for link plain) (bytes "authorization"))
      uploader
    ⊎ IsPresigned platform server (request_for link plain) uploader
auth_middleware-sigv4_example =
    auth_middleware-sigv4 platform server (request_for link plain) uploader link_passes

abbrev signed_put : Request
signed_put = record plain {
  method = put_method;
  headers =
      (
        bytes "authorization",
        bytes
              "AWS4-HMAC-SHA256 Credential=AK/20260101/us-east-1/s3/aws4_request, SignedHeaders=host, Signature=00"
            ∷ [],
      )
      ∷ [];
}

has_header : get_header signed_put (bytes "authorization") ≢ []
unfolding get_header lookup
has_header = λ e. cc e

no_create : LacksAction uploader.acl (bytes "s3:CreateBucket")
unfolding names_action
no_create = (refl, tt)

auth_middleware-writes_example : auth_middleware platform server signed_put ≢ ok (sigv4 uploader)
auth_middleware-writes_example =
    auth_middleware-writes platform server signed_put uploader (bytes "s3:CreateBucket") has_header
      docs_valid (inl (refl, refl)) no_create
