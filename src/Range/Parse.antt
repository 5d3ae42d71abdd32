-- ===== src/Range/Parse.antt =====
-- What `strconv.ParseInt` makes of a string of digits.
use byte_bucket.Prelude.{
  ℕ, ◌+◌, ◌*◌, ◌-◌, ◌≤◌, true, false, [], ◌∷◌, ◌==◌, nat_equality, list_equality, if◌then◌else◌,
  ltb, ◌≡◌, ◌≢◌, refl, ap, ◌∙◌, arith, Bool-cases, inl, inr, ltb_false→le, le→ltb_false,
}
use byte_bucket.Prelude.Int.{pos}
use byte_bucket.Bytes.{Bytes}
use byte_bucket.Range.{
  parsed, err_range, is_digit, max_uint64, min_int64_abs, parsed_uint, uint_range, parse_digits,
  parse_uint, to_signed, parse_int,
}

-- The number that a string of decimal digits denotes.
abbrev value_from : ℕ → Bytes → ℕ
value_from n [] = n
value_from n (c ∷ s) = value_from (n * 10 + (c - b'0')) s

abbrev pub value : Bytes → ℕ
value s = value_from 0 s

abbrev pub AllDigits : Bytes → Type 0
AllDigits [] = Unit
AllDigits (c ∷ s) = (is_digit c ≡ true) × AllDigits s

value_from-le : (n : ℕ) (s : Bytes) → n ≤ value_from n s
value_from-le n [] = omega arith
value_from-le n (c ∷ s) = omega (arith, value_from-le (n * 10 + (c - b'0')) s)

parse_digits-value :
    (n : ℕ) (s : Bytes)
    → n ≤ max_uint64
    → AllDigits s
    → parse_digits n s
      ≡ (if ltb max_uint64 (value_from n s) then uint_range else parsed_uint (value_from n s))
unfolding parse_digits
parse_digits-value n [] b d = rw (le→ltb_false max_uint64 n b) refl
parse_digits-value n (c ∷ s) b d = elim (Bool-cases (ltb max_uint64 (n * 10 + (c - b'0')))) [
  | inl over ↦
      let le = value_from-le (n * 10 + (c - b'0')) s in
      let big : ltb max_uint64 (value_from (n * 10 + (c - b'0')) s) ≡ true = ground (arith, le) in
      rw (d.0, over, big) refl
  | inr fits ↦
      rw (d.0, fits) (parse_digits-value (n * 10 + (c - b'0')) s (ltb_false→le _ _ fits) d.1)
]

to_signed-value :
    (v : ℕ)
    → to_signed false (if ltb max_uint64 v then uint_range else parsed_uint v)
      ≡ (if ltb v min_int64_abs then parsed (pos v) else err_range)
unfolding to_signed
to_signed-value v = ground arith

no_sign : (c : ℕ) → is_digit c ≡ true → ((c == b'+') ≡ false) × ((c == b'-') ≡ false)
no_sign c h = (ground arith, ground arith)

-- A nonempty string of digits parses to its value, or is out of range from 2 ^ 63 on.
pub parse_int-value :
    (s : Bytes)
    → s ≢ []
    → AllDigits s
    → parse_int s ≡ (if ltb (value s) min_int64_abs then parsed (pos (value s)) else err_range)
unfolding parse_int parse_uint
parse_int-value [] h d = absurd (h refl)
parse_int-value (c ∷ s) h d =
    rw ((no_sign c d.0).0, (no_sign c d.0).1)
      (ap (to_signed false) (parse_digits-value 0 (c ∷ s) (omega arith) d)
        ∙ to_signed-value (value (c ∷ s)))
