-- ===== src/Auth/Request.antt =====
-- What the authentication of internal/auth/auth.go reads: a request, the server's users and
-- clock, and the functions of other packages that it calls.
use byte_bucket.Prelude.{
  ℕ, Bool, true, false, List, [], ◌∷◌, Option, none, some, ◌≡◌, refl, ap, nat_equality,
  list_equality,
}
use byte_bucket.Prelude.Int.{ℤ}
use byte_bucket.Bytes.{Bytes}
use byte_bucket.Table.{Table, lookup}
use byte_bucket.Acl.{Sidecars}

pub record AclRule : Type 0 where
  pub effect : Bytes
  pub buckets : List Bytes
  pub actions : List Bytes

pub record User : Type 0 where
  pub access_key_id : Bytes
  pub encrypted_secret : Bytes
  pub acl : List AclRule

-- A request with its route parameters. Header names are in lower case; a body that cannot be read
-- is `none`.
pub record Request : Type 0 where
  pub method : Bytes
  pub bucket : Bytes
  pub object_key : Bytes
  pub host : Bytes
  pub escaped_path : Bytes
  pub query : Table Bytes (List Bytes)
  pub headers : Table Bytes (List Bytes)
  pub body : Option Bytes

-- Hashes, the decryption of stored secrets, and the parsers of times (nanoseconds since the year 0)
-- and durations (nanoseconds).
pub record Platform : Type 0 where
  pub sha256 : Bytes → Bytes
  pub hmac : Bytes → Bytes → Bytes
  pub decrypt : Bytes → Option Bytes
  pub parse_time : Bytes → Option ℕ
  pub parse_duration : Bytes → Option ℤ

pub record Server : Type 0 where
  pub users : Table Bytes User
  pub now : ℕ
  pub objects_root : Bytes
  pub sidecars : Bytes → Bytes → Sidecars

first : Option (List Bytes) → Bytes
first none = []
first (some []) = []
first (some (v ∷ vs)) = v

-- `c.GetHeader(name)`
unfoldable pub get_header : Request → Bytes → Bytes
unfolding first
get_header req name = first (lookup name req.headers)

-- `c.Query(key)`
unfoldable pub query_param : Request → Bytes → Bytes
unfolding first
query_param req key = first (lookup key req.query)

-- The responses of `abortWithError`.
pub data Refusal : Type 0 where
  invalid_authorization missing_authentication missing_credential missing_signed_headers : Refusal
  missing_signature invalid_credential invalid_terminal missing_date date_mismatch : Refusal
  missing_payload_hash incomplete_body payload_mismatch user_not_found decrypt_error : Refusal
  signature_mismatch invalid_date timestamp_expired not_permitted : Refusal
  missing_parameters invalid_expires url_expired : Refusal

pub data Result {ℓ} (A : Type ℓ) : Type ℓ where
  ok : A → Result A
  refused : Refusal → Result A

infixl 5 ◌>>=◌ ◌>>◌
abbrev pub ◌>>=◌ {ℓ κ} : {A : Type ℓ} {B : Type κ} → Result A → (A → Result B) → Result B
ok a >>= f = f a
refused e >>= f = refused e

abbrev pub ◌>>◌ {ℓ} : {B : Type ℓ} → Result (Unit {0}) → Result B → Result B
m >> k = m >>= λ _. k

abbrev pub guard : Bool → Refusal → Result (Unit {0})
guard true e = ok tt
guard false e = refused e

abbrev pub require {ℓ} : {A : Type ℓ} → Option A → Refusal → Result A
require none e = refused e
require (some a) e = ok a

-- A chain that ends well passed its first step.
pub passed {ℓ κ} :
    {A : Type ℓ} {B : Type κ} (step : Result A) (next : A → Result B) (b : B)
    → (step >>= next) ≡ ok b
    → (a : A) × (step ≡ ok a) × (next a ≡ ok b)
passed (refused e) next b h = cc
passed (ok a) next b h = (a, refl, h)

pub guard_passed {κ} :
    {B : Type κ} (test : Bool) (e : Refusal) (next : Result B) (b : B)
    → (guard test e >> next) ≡ ok b
    → (test ≡ true) × (next ≡ ok b)
guard_passed true e next b h = (refl, h)
guard_passed false e next b h = cc

pub require_passed {ℓ κ} :
    {A : Type ℓ} {B : Type κ} (found : Option A) (e : Refusal) (next : A → Result B) (b : B)
    → (require found e >>= next) ≡ ok b
    → (a : A) × (found ≡ some a) × (next a ≡ ok b)
require_passed none e next b h = cc
require_passed (some a) e next b h = (a, refl, h)

pub require_step {ℓ κ} :
    {A : Type ℓ} {B : Type κ} (found : Option A) (e : Refusal) (next : A → Result B) (a : A)
    → found ≡ some a
    → (require found e >>= next) ≡ next a
require_step found e next a h = ap (λ o. require o e >>= next) h

pub guard_step {κ} :
    {B : Type κ} (test : Bool) (e : Refusal) (next : Result B)
    → test ≡ true
    → (guard test e >> next) ≡ next
guard_step test e next h = ap (λ b. guard b e >> next) h

pub ok_step {ℓ κ} :
    {A : Type ℓ} {B : Type κ} (step : Result A) (next : A → Result B) (a : A)
    → step ≡ ok a
    → (step >>= next) ≡ next a
ok_step step next a h = ap (λ r. r >>= next) h
