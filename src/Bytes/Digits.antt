-- ===== src/Bytes/Digits.antt =====
-- Numbers and bytes in digits: what the program uses of encoding/hex and strconv.
pub mod Laws
use byte_bucket.Prelude.{
  ℕ, zero, suc, ◌+◌, ◌-◌, ◌/◌, ◌%◌, ◌*◌, Bool, ◌&&◌, Option, none, some, leb, [], ◌∷◌,
  if◌then◌else◌, ltb,
}
use byte_bucket.Bytes.{Bytes}

hex_digit : ℕ → ℕ
hex_digit n = if ltb n 10 then b'0' + n else (b'a' + n) - 10

-- `hex.EncodeToString`
unfoldable pub hex : Bytes → Bytes
unfolding hex_digit
hex [] = []
hex (b ∷ s) = hex_digit (b / 16) ∷ hex_digit (b % 16) ∷ hex s

-- The decimal digits of `n`, in front of `after`; the fuel `n` is enough, as `n / 10 < n`.
decimal_from : ℕ → ℕ → Bytes → Bytes
decimal_from zero n after = (b'0' + n % 10) ∷ after
decimal_from (suc fuel) n after =
    let rest = decimal_from fuel (n / 10) ((b'0' + n % 10) ∷ after) in
    if ltb n 10 then (b'0' + n) ∷ after else rest

-- `strconv.Itoa` of a count
unfoldable pub decimal : ℕ → Bytes
unfolding decimal_from
decimal n = decimal_from n n []

-- The value of a hexadecimal digit, of either case.
from_hex_digit : ℕ → Option ℕ
from_hex_digit c =
    if leb b'0' c && leb c b'9'
    then some (c - b'0')
    else if leb b'a' c && leb c b'f'
    then some ((c - b'a') + 10)
    else if leb b'A' c && leb c b'F'
    then some ((c - b'A') + 10)
    else none

byte_of : Option ℕ → Option ℕ → Option Bytes → Option Bytes
byte_of (some h) (some l) (some rest) = some ((h * 16 + l) ∷ rest)
byte_of _ _ _ = none

-- `hex.DecodeString`
unfoldable pub unhex : Bytes → Option Bytes
unfolding from_hex_digit byte_of
unhex [] = some []
unhex (h ∷ []) = none
unhex (h ∷ l ∷ s) = byte_of (from_hex_digit h) (from_hex_digit l) (unhex s)
