-- ===== src/Listing/Continuation.antt =====
-- The opaque continuation tokens of a listing (internal/handlers/bucket.go).
use byte_bucket.Prelude.{
  Bool, false, [], ◌∷◌, Option, none, some, ◌==◌, nat_equality, list_equality, ◌≡◌, ◌≢◌, refl, ap,
}
use byte_bucket.Base64.{IsBytes, encode, decode}
use byte_bucket.Base64.RoundTrip.{decode-encode, encode-ne-nil}
use byte_bucket.Bytes.{Bytes}
use byte_bucket.Listing.{encode_continuation, decode_continuation, cursor}

some_text : (s : Bytes) → s ≢ [] → (s == []) ≡ false
some_text [] h = absurd (h refl)
some_text (c ∷ s) h = refl

token_given : (key : Bytes) → key ≢ [] → (encode_continuation key == []) ≡ false
unfolding encode_continuation
token_given [] h = absurd (h refl)
token_given (c ∷ key) h = some_text (encode (c ∷ key)) (encode-ne-nil c key)

decoded : (key : Bytes) → IsBytes key → decode (encode_continuation key) ≡ some key
unfolding encode_continuation
decoded key bytes = decode-encode key bytes

-- A request with the token for a key resumes at that key, whatever its other parameters are.
pub cursor-encode_continuation :
    (list_type_v2 : Bool) (key start_after marker : Bytes)
    → IsBytes key
    → key ≢ []
    → cursor list_type_v2 (encode_continuation key) start_after marker ≡ key
unfolding cursor decode_continuation
cursor-encode_continuation v2 key start_after marker bytes named =
    rw (token_given key named)
      (ap (λ (o : Option Bytes). elim o [ none ↦ [] | some k ↦ k ]) (decoded key bytes))
