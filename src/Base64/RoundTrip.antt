-- ===== src/Base64/RoundTrip.antt =====
-- Encoding then decoding gives the bytes back, and the length of an unpadded encoding.
use byte_bucket.Prelude.{
  ◌++◌, length, refl, ℕ, ◌+◌, ◌*◌, ◌/◌, ◌%◌, ◌<◌, ◌≡◌, ◌≢◌, ap, List, [], ◌∷◌, Option, some,
  nat_equality, arith,
}
use byte_bucket.Base64.{
  IsBytes, decode, encode, raw_encode, decode_groups, drop_breaks, sextet_char, char_sextet,
  bytes_1, bytes_2, bytes_3,
}

char_sextet-sextet_char : (n : ℕ) → n < 64 → char_sextet (sextet_char n) ≡ some n
unfolding char_sextet sextet_char
char_sextet-sextet_char n h = ground arith

sextet_char-ne : (n : ℕ) → (sextet_char n ≢ 10) × (sextet_char n ≢ 13) × (sextet_char n ≢ b'=')
unfolding sextet_char
sextet_char-ne n = (ground arith, ground arith, ground arith)

bytes_1-chars :
    (a : ℕ) → a < 256 → bytes_1 (sextet_char (a / 4)) (sextet_char (a % 4 * 16)) ≡ some (a ∷ [])
bytes_1-chars a h = rw (char_sextet-sextet_char (a / 4) (omega arith)) (
    rw (char_sextet-sextet_char (a % 4 * 16) (omega arith))
      (ap {B = Option (List ℕ)} (λ (x : ℕ). some (x ∷ [])) (omega arith)))

bytes_2-chars :
    (a b : ℕ)
    → a < 256
    → b < 256
    → bytes_2 (sextet_char (a / 4)) (sextet_char (a % 4 * 16 + b / 16)) (sextet_char (b % 16 * 4))
      ≡ some (a ∷ b ∷ [])
bytes_2-chars a b h k = rw (char_sextet-sextet_char (a / 4) (omega arith)) (
    rw (char_sextet-sextet_char (a % 4 * 16 + b / 16) (omega arith))
      (rw (char_sextet-sextet_char (b % 16 * 4) (omega arith)) (ground arith)))

bytes_3-chars :
    (a b c : ℕ)
    → a < 256
    → b < 256
    → c < 256
    → bytes_3
        (sextet_char (a / 4))
        (sextet_char (a % 4 * 16 + b / 16))
        (sextet_char (b % 16 * 4 + c / 64))
        (sextet_char (c % 64))
      ≡ some (a ∷ b ∷ c ∷ [])
bytes_3-chars a b c h k l = rw (char_sextet-sextet_char (a / 4) (omega arith)) (
    rw (char_sextet-sextet_char (a % 4 * 16 + b / 16) (omega arith)) (
      rw (char_sextet-sextet_char (b % 16 * 4 + c / 64) (omega arith))
        (rw (char_sextet-sextet_char (c % 64) (omega arith)) (ground arith))))

drop_breaks-char :
    (n : ℕ) (cs : List ℕ) → drop_breaks (sextet_char n ∷ cs) ≡ sextet_char n ∷ drop_breaks cs
unfolding drop_breaks
drop_breaks-char n cs = ground (arith, sextet_char-ne n)

drop_breaks-encode : (bs : List ℕ) → drop_breaks (encode bs) ≡ encode bs
unfolding encode
drop_breaks-encode [] = unfold drop_breaks in refl
drop_breaks-encode (a ∷ []) = simp drop_breaks-char (unfold drop_breaks in refl)
drop_breaks-encode (a ∷ b ∷ []) = simp drop_breaks-char (unfold drop_breaks in refl)
drop_breaks-encode (a ∷ b ∷ c ∷ rest) = simp (drop_breaks-char, drop_breaks-encode rest)

decode_groups-step :
    (w x y z : ℕ) (t g o : List ℕ)
    → t ≢ []
    → bytes_3 w x y z ≡ some g
    → decode_groups t ≡ some o
    → decode_groups (w ∷ x ∷ y ∷ z ∷ t) ≡ some (g ++ o)
unfolding decode_groups
decode_groups-step w x y z [] g o ne p q = absurd (ne refl)
decode_groups-step w x y z (u ∷ us) g o ne p q = rw p (rw q)

pub encode-ne-nil : (b : ℕ) (bs : List ℕ) → encode (b ∷ bs) ≢ []
unfolding encode
encode-ne-nil a [] = λ p. cc p
encode-ne-nil a (b ∷ []) = λ p. cc p
encode-ne-nil a (b ∷ c ∷ rest) = λ p. cc p

decode_groups-encode : (bs : List ℕ) → IsBytes bs → decode_groups (encode bs) ≡ some bs
unfolding encode decode_groups
decode_groups-encode [] h = refl
decode_groups-encode (a ∷ []) h = bytes_1-chars a h.0
decode_groups-encode (a ∷ b ∷ []) h =
    ground (arith, sextet_char-ne (b % 16 * 4), bytes_2-chars a b h.0 h.1.0)
decode_groups-encode (a ∷ b ∷ c ∷ []) h = ground (
  arith,
  sextet_char-ne (b % 16 * 4 + c / 64),
  sextet_char-ne (c % 64),
  bytes_3-chars a b c h.0 h.1.0 h.1.1.0,
)
decode_groups-encode (a ∷ b ∷ c ∷ d ∷ rest) h =
    decode_groups-step _ _ _ _ (encode (d ∷ rest)) _ _ (encode-ne-nil d rest)
      (bytes_3-chars a b c h.0 h.1.0 h.1.1.0) (decode_groups-encode (d ∷ rest) h.1.1.1)

-- Every byte sequence survives the padded encoding.
pub decode-encode : (bs : List ℕ) → IsBytes bs → decode (encode bs) ≡ some bs
unfolding decode
decode-encode bs h = rw (drop_breaks-encode bs) (decode_groups-encode bs h)

-- 32 bytes make 43 characters, and in general ⌈8n / 6⌉.
pub length-raw_encode : (bs : List ℕ) → length (raw_encode bs) ≡ (length bs * 8 + 5) / 6
unfolding raw_encode
length-raw_encode [] = refl
length-raw_encode (a ∷ []) = refl
length-raw_encode (a ∷ b ∷ []) = refl
length-raw_encode (a ∷ b ∷ c ∷ rest) = omega (arith, length-raw_encode rest)
