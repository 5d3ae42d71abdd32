-- ===== src/Base64.antt =====
-- The parts of Go's encoding/base64 that the program uses: RawURLEncoding for session tokens
-- (internal/auth/session.go) and URLEncoding for continuation tokens (internal/handlers/bucket.go).
-- Bytes are numbers below 256.
pub mod RoundTrip
use byte_bucket.Prelude.{
  ℕ, ◌+◌, ◌-◌, ◌*◌, ◌/◌, ◌%◌, List, [], ◌∷◌, ◌++◌, Option, none, some, ◌==◌, nat_equality, ◌&&◌,
  ltb, leb, if◌then◌else◌, Bool, ◌||◌, not, true, false, ◌<◌, list_equality,
}
use mathlib.Core.Option

abbrev pub IsBytes : List ℕ → Type 0
IsBytes [] = Unit
IsBytes (b ∷ bs) = (b < 256) × IsBytes bs

-- A-Z, a-z, 0-9, - and _.
pub sextet_char : ℕ → ℕ
sextet_char n =
    if ltb n 26
    then n + 65
    else if ltb n 52
    then n + 71
    else if ltb n 62
    then n - 4
    else if n == 62
    then b'-'
    else b'_'

pub char_sextet : ℕ → Option ℕ
char_sextet c =
    if leb b'A' c && leb c b'Z'
    then some (c - 65)
    else if leb b'a' c && leb c b'z'
    then some (c - 71)
    else if leb b'0' c && leb c b'9'
    then some (c + 4)
    else if c == b'-'
    then some 62
    else if c == b'_'
    then some 63
    else none

-- The characters for one, two and three bytes.
abbrev pub chars_1 : ℕ → List ℕ
chars_1 a = sextet_char (a / 4) ∷ sextet_char (a % 4 * 16) ∷ []

abbrev pub chars_2 : ℕ → ℕ → List ℕ
chars_2 a b =
    sextet_char (a / 4) ∷ sextet_char (a % 4 * 16 + b / 16) ∷ sextet_char (b % 16 * 4) ∷ []

abbrev pub chars_3 : ℕ → ℕ → ℕ → List ℕ
chars_3 a b c =
    sextet_char (a / 4)
    ∷ sextet_char (a % 4 * 16 + b / 16)
    ∷ sextet_char (b % 16 * 4 + c / 64)
    ∷ sextet_char (c % 64)
    ∷ []

-- `base64.RawURLEncoding.EncodeToString`
unfoldable pub raw_encode : List ℕ → List ℕ
unfolding sextet_char
raw_encode [] = []
raw_encode (a ∷ []) = chars_1 a
raw_encode (a ∷ b ∷ []) = chars_2 a b
raw_encode (a ∷ b ∷ c ∷ rest) = chars_3 a b c ++ raw_encode rest

-- `base64.URLEncoding.EncodeToString`
unfoldable pub encode : List ℕ → List ℕ
unfolding sextet_char
encode [] = []
encode (a ∷ []) = chars_1 a ++ b'=' ∷ b'=' ∷ []
encode (a ∷ b ∷ []) = chars_2 a b ++ b'=' ∷ []
encode (a ∷ b ∷ c ∷ rest) = chars_3 a b c ++ encode rest

infixl 5 ◌>>=◌
abbrev pub ◌>>=◌ {ℓ κ} : {A : Type ℓ} {B : Type κ} → Option A → (A → Option B) → Option B
none >>= f = none
some a >>= f = f a

-- One group of four characters with no padding, with two padding characters, and with one.
abbrev pub bytes_3 : ℕ → ℕ → ℕ → ℕ → Option (List ℕ)
bytes_3 w x y z = do
  p ← char_sextet w
  q ← char_sextet x
  r ← char_sextet y
  s ← char_sextet z
  some ((p * 4 + q / 16) ∷ (q % 16 * 16 + r / 4) ∷ (r % 4 * 64 + s) ∷ [])

abbrev pub bytes_1 : ℕ → ℕ → Option (List ℕ)
bytes_1 w x = do p ← char_sextet w; q ← char_sextet x; some ((p * 4 + q / 16) ∷ [])

abbrev pub bytes_2 : ℕ → ℕ → ℕ → Option (List ℕ)
bytes_2 w x y = do
  p ← char_sextet w
  q ← char_sextet x
  r ← char_sextet y
  some ((p * 4 + q / 16) ∷ (q % 16 * 16 + r / 4) ∷ [])

-- The groups of a text without line breaks; padding may only close the last group.
decode_groups : List ℕ → Option (List ℕ)
decode_groups [] = some []
decode_groups (w ∷ x ∷ y ∷ z ∷ []) =
    if y == b'='
    then (if z == b'=' then bytes_1 w x else none)
    else if z == b'='
    then bytes_2 w x y
    else bytes_3 w x y z
decode_groups (w ∷ x ∷ y ∷ z ∷ rest) =
    let more = decode_groups rest in
    do group ← bytes_3 w x y z; others ← more; some (group ++ others)
decode_groups _ = none

-- The decoder passes over line breaks.
drop_breaks : List ℕ → List ℕ
drop_breaks [] = []
drop_breaks (c ∷ cs) = let rest = drop_breaks cs in if c == 10 || c == 13 then rest else c ∷ rest

-- `base64.URLEncoding.DecodeString`; `none` is its error.
unfoldable pub decode : List ℕ → Option (List ℕ)
unfolding decode_groups drop_breaks char_sextet
decode text = decode_groups (drop_breaks text)
