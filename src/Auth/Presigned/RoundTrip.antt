-- ===== src/Auth/Presigned/RoundTrip.antt =====
-- A URL that `PresignGetURL` signs passes `processPresignedAuth` (internal/auth/presign.go,
-- internal/auth/auth.go).
use byte_bucket.Prelude.{
  ℕ, zero, suc, ◌+◌, ◌*◌, ◌/◌, ◌≤◌, Bool, true, false, ◌||◌, List, [], ◌∷◌, ◌++◌, some, ◌==◌,
  nat_equality, list_equality, if◌then◌else◌, le→ltb_false, take, ◌≡◌, refl, ap, arith,
}
use byte_bucket.Prelude.Int.{pos}
use byte_bucket.Bytes.{Bytes, bytes, trim_space}
use byte_bucket.Bytes.Digits.{hex, decimal}
use byte_bucket.Bytes.Digits.Laws.{AllBelow, unhex-hex, decimal-ne_nil}
use byte_bucket.Path.Render.{NoSlash, split-join_slashless, join-ne_nil}
use byte_bucket.Table.{Table, lookup, insert, erase}
use byte_bucket.Acl.{to_lower}
use byte_bucket.Auth.Request.{User, Request, Platform, Server, ok, query_param}
use byte_bucket.Auth.Permission.{get_method}
use byte_bucket.Auth.Escape.{escaped_path}
use byte_bucket.Auth.Canonical.{
  canonical_text, build_canonical_query, build_canonical_headers, signed_headers_contains,
  header_name, header_line,
}
use byte_bucket.Auth.Signing.{
  Scope, terminal_word, unsigned_payload, quarter_hour, scope_of, split_credential,
  expected_signature,
}
use byte_bucket.Auth.Presigned.{
  read_presigned, is_complete, presigned_text, presigned_payload, process_presigned_auth, Presign,
  signed, unsigned, missing_credentials, missing_target, not_positive, SignedUrl, object_path,
  unsigned_query, get_scope, credential_text, nanoseconds, presign_get_url,
}
use byte_bucket.Auth.Presigned.Verified.{IsPresigned, IsPresigned-process_presigned_auth}

-- The request for a signed URL: GET with the URL's host, path and query, and whatever else.
abbrev pub request_for : SignedUrl → Request → Request
request_for url req = record req {
  method = get_method;
  host = url.host;
  escaped_path = url.path;
  query = url.query;
}

NoSlash-terminal_word : NoSlash terminal_word
NoSlash-terminal_word = (
  refl,
  (refl, (refl, (refl, (refl, (refl, (refl, (refl, (refl, (refl, (refl, (refl, tt))))))))))),
)

NoSlash-region : NoSlash (bytes "us-east-1")
NoSlash-region = (refl, (refl, (refl, (refl, (refl, (refl, (refl, (refl, (refl, tt)))))))))

NoSlash-service : NoSlash (bytes "s3")
NoSlash-service = (refl, (refl, tt))

split-credential_text :
    (scope : Scope)
    → NoSlash scope.access_key
    → NoSlash scope.date
    → NoSlash scope.region
    → NoSlash scope.service
    → split_credential (credential_text scope) ≡ ok scope
unfolding split_credential credential_text scope_of
split-credential_text scope a d r s = ap scope_of (
    split-join_slashless scope.access_key
      (scope.date ∷ scope.region ∷ scope.service ∷ terminal_word ∷ [])
      (a, (d, (r, (s, (NoSlash-terminal_word, tt))))))

credential_text-ne_nil : (scope : Scope) → (credential_text scope == []) ≡ false
unfolding credential_text
credential_text-ne_nil scope = join-ne_nil scope.access_key scope.date _

-- The URL that is signed, when it is.
module _ (p : Platform) (amz_date base_host access_key secret bucket object_key : Bytes)
    (seconds : ℕ) where
  abbrev pub link_scope : Scope
  link_scope = get_scope access_key amz_date

  abbrev link_query : Table Bytes (List Bytes)
  link_query = unsigned_query (credential_text link_scope) amz_date (decimal seconds) (bytes "host")

  abbrev link_path : Bytes
  link_path = escaped_path (object_path bucket object_key)

  abbrev link_text : Bytes
  link_text =
      canonical_text get_method link_path (build_canonical_query link_query)
        (bytes "host:" ++ (base_host ++ 10 ∷ [])) (bytes "host") unsigned_payload

  abbrev pub link_signature : Bytes
  link_signature = expected_signature p secret amz_date link_scope link_text

  abbrev link : SignedUrl
  link = record {
    host = base_host;
    path = link_path;
    query = insert (bytes "X-Amz-Signature") (hex link_signature ∷ []) link_query;
  }

  read-link :
      (req : Request)
      → read_presigned (request_for link req) ≡ record {
        algorithm = bytes "AWS4-HMAC-SHA256";
        credential = credential_text link_scope;
        amz_date = amz_date;
        expires = decimal seconds;
        signature = hex link_signature;
        signed_headers = bytes "host";
      }
  unfolding read_presigned query_param unsigned_query lookup insert
  read-link req = refl

  erase-link :
      (req : Request) → erase (bytes "X-Amz-Signature") (request_for link req).query ≡ link_query
  unfolding unsigned_query insert erase
  erase-link req = refl

  link-headers :
      (req : Request)
      → build_canonical_headers (request_for link req) (bytes "host")
        ≡ bytes "host:" ++ (base_host ++ 10 ∷ [])
  unfolding build_canonical_headers header_line header_name trim_space to_lower
  link-headers req = refl

  payload-link :
      (req : Request) → presigned_payload (request_for link req) (bytes "host") ≡ unsigned_payload
  unfolding presigned_payload query_param unsigned_query insert lookup signed_headers_contains
      trim_space to_lower
  payload-link req = refl

  text-link :
      (req : Request)
      → presigned_text (request_for link req) (bytes "host") unsigned_payload ≡ link_text
  unfolding presigned_text
  text-link req = rw (erase-link req, link-headers req) refl

  complete-link :
      (req : Request)
      → (amz_date == []) ≡ false
      → (hex link_signature == []) ≡ false
      → is_complete (read_presigned (request_for link req)) ≡ true
  unfolding is_complete
  complete-link req h1 h2 =
      rw (read-link req, credential_text-ne_nil link_scope, h1, decimal-ne_nil seconds, h2) refl

  link-IsPresigned :
      (server : Server) (req : Request) (user : User) (t : ℕ)
      → lookup access_key server.users ≡ some user
      → p.decrypt user.encrypted_secret ≡ some secret
      → p.parse_time amz_date ≡ some t
      → p.parse_duration (decimal seconds ++ bytes "s") ≡ some (pos (seconds * nanoseconds))
      → t ≤ server.now + quarter_hour
      → server.now ≤ t + quarter_hour
      → server.now ≤ t + seconds * nanoseconds
      → NoSlash access_key
      → NoSlash (take 8 amz_date)
      → AllBelow link_signature
      → IsPresigned p server (request_for link req) user
  unfolding get_scope
  link-IsPresigned server req user t found decrypted dated lifetime early late live h1 h2 small =
      let q = read-link req in
      record {
        scope = link_scope;
        credential = rw q (split-credential_text link_scope h1 h2 NoSlash-region NoSlash-service);
        expiration = pos (seconds * nanoseconds);
        lifetime = rw q lifetime;
        issued = t;
        dated = rw q dated;
        live = le→ltb_false (t + seconds * nanoseconds) server.now live;
        verified =
            rw (q, payload-link req, text-link req)
              (record {
                found = found;
                secret = secret;
                decrypted = decrypted;
                signed = unhex-hex link_signature small;
                time = t;
                dated = dated;
                not_late = late;
                not_early = early;
              });
      }

guards_passed :
    (keyless targetless : Bool) (rest : Presign SignedUrl) (url : SignedUrl)
    → (if keyless
        then unsigned missing_credentials
        else if targetless
        then unsigned missing_target
        else rest)
      ≡ signed url
    → rest ≡ signed url
guards_passed true targetless rest url h = cc
guards_passed false true rest url h = cc
guards_passed false false rest url h = h

signed_injective : {a b : SignedUrl} → signed a ≡ signed b → b ≡ a
signed_injective h = cc

nothing_signed : (a url : SignedUrl) → unsigned not_positive ≡ signed url → url ≡ a
nothing_signed a url h = cc

-- What is signed, when something is.
sign-link :
    (p : Platform) (amz_date base_host access_key secret bucket object_key : Bytes) (expires : ℕ)
    (url : SignedUrl)
    → presign_get_url p amz_date base_host access_key secret bucket object_key (pos expires)
      ≡ signed url
    → url ≡ link p amz_date base_host access_key secret bucket object_key (expires / nanoseconds)
unfolding presign_get_url
sign-link p amz_date base_host access_key secret bucket object_key zero url h =
    nothing_signed _ url
      (guards_passed (access_key == [] || secret == []) (bucket == [] || object_key == []) _ url h)
sign-link p amz_date base_host access_key secret bucket object_key (suc d) url h =
    signed_injective
      (guards_passed (access_key == [] || secret == []) (bucket == [] || object_key == []) _ url h)

-- A URL that `presign_get_url` signs is accepted.
pub process_presigned_auth-presign_get_url :
    (p : Platform) (server : Server) (req : Request) (user : User)
    (amz_date base_host access_key secret bucket object_key : Bytes) (expires t : ℕ)
    (url : SignedUrl)
    → presign_get_url p amz_date base_host access_key secret bucket object_key (pos expires)
      ≡ signed url
    → lookup access_key server.users ≡ some user
    → p.decrypt user.encrypted_secret ≡ some secret
    → p.parse_time amz_date ≡ some t
    → p.parse_duration (decimal (expires / nanoseconds) ++ bytes "s")
      ≡ some (pos (expires / nanoseconds * nanoseconds))
    → t ≤ server.now
    → server.now ≤ t + quarter_hour
    → server.now ≤ t + expires / nanoseconds * nanoseconds
    → (amz_date == []) ≡ false
    → NoSlash access_key
    → NoSlash (take 8 amz_date)
    → ((message key : Bytes)
        → AllBelow (p.hmac message key) × ((hex (p.hmac message key) == []) ≡ false))
    → process_presigned_auth p server (request_for url req) ≡ ok user
unfolding expected_signature
process_presigned_auth-presign_get_url p server req user amz_date base_host access_key secret bucket
      object_key expires t url h found decrypted dated lifetime past late live some_date h1 h2 mac =
    let n = expires / nanoseconds in
    rw (sign-link p amz_date base_host access_key secret bucket object_key expires url h) (
      IsPresigned-process_presigned_auth p server _ user
        (complete-link p amz_date base_host access_key secret bucket object_key n req some_date
          (mac _ _).1)
        (link-IsPresigned p amz_date base_host access_key secret bucket object_key n server req user
          t found decrypted dated lifetime (omega arith) late live h1 h2 (mac _ _).0))
