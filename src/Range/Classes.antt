-- ===== src/Range/Classes.antt =====
-- What `classifyRange` makes of the forms that S3 serves.
use byte_bucket.Prelude.{
  ℕ, zero, suc, ◌≤◌, Bool, true, false, ◌&&◌, ◌||◌, [], ◌∷◌, ◌++◌, some, ◌==◌, nat_equality,
  list_equality, if◌then◌else◌, leb, ltb, ◌≡◌, ◌≢◌, refl, ap, ◌∙◌, arith,
}
use byte_bucket.Prelude.Int.{pos}
use byte_bucket.Bytes.{has_byte, Bytes, bytes, has_prefix, trim_space, trim_left, cut, is_space}
use byte_bucket.Range.{
  parsed, err_range, is_digit, min_int64_abs, parse_int, range_ignore, range_satisfiable,
  range_unsatisfiable, suffix_of, end_of, start_of, classify_suffix_range, classify_offset_range,
  classify_spec, classify_range,
}
use byte_bucket.Range.Parse.{value, AllDigits, parse_int-value}
use mathlib.Core.List.{reverse, reverse-cons, reverse-reverse}

-- A byte of a range: a digit or the hyphen.
abbrev is_range_byte : ℕ → Bool
is_range_byte c = is_digit c || c == b'-'

abbrev AllRangeBytes : Bytes → Type 0
AllRangeBytes [] = Unit
AllRangeBytes (c ∷ s) = (is_range_byte c ≡ true) × AllRangeBytes s

digit-is_range_byte : (c : ℕ) → is_digit c ≡ true → is_range_byte c ≡ true
digit-is_range_byte c h = ground arith

AllDigits-AllRangeBytes : (s t : Bytes) → AllDigits s → AllRangeBytes t → AllRangeBytes (s ++ t)
AllDigits-AllRangeBytes [] t d r = r
AllDigits-AllRangeBytes (c ∷ s) t d r =
    (digit-is_range_byte c d.0, AllDigits-AllRangeBytes s t d.1 r)

no_space : (c : ℕ) → is_range_byte c ≡ true → is_space c ≡ false
no_space c h = ground arith

no_comma : (c : ℕ) → is_range_byte c ≡ true → (c == b',') ≡ false
no_comma c h = ground arith

trim_left-id : (s : Bytes) → AllRangeBytes s → trim_left s ≡ s
unfolding trim_left
trim_left-id [] r = refl
trim_left-id (c ∷ s) r = rw (no_space c r.0) refl

AllRangeBytes-append : (s t : Bytes) → AllRangeBytes s → AllRangeBytes t → AllRangeBytes (s ++ t)
AllRangeBytes-append [] t r q = q
AllRangeBytes-append (c ∷ s) t r q = (r.0, AllRangeBytes-append s t r.1 q)

AllRangeBytes-reverse : (s : Bytes) → AllRangeBytes s → AllRangeBytes (reverse s)
AllRangeBytes-reverse [] r = tt
AllRangeBytes-reverse (c ∷ s) r =
    rw (reverse-cons c s)
      (AllRangeBytes-append (reverse s) (c ∷ []) (AllRangeBytes-reverse s r.1) (r.0, tt))

trim_space-id : (s : Bytes) → AllRangeBytes s → trim_space s ≡ s
unfolding trim_space
trim_space-id s r =
    rw (trim_left-id s r)
      (rw (trim_left-id (reverse s) (AllRangeBytes-reverse s r)) (reverse-reverse s))

has_comma : (s : Bytes) → AllRangeBytes s → has_byte b',' s ≡ false
unfolding has_byte
has_comma [] r = refl
has_comma (c ∷ s) r = rw (no_comma c r.0) (has_comma s r.1)

digit_not_hyphen : (c : ℕ) → is_digit c ≡ true → (c == b'-') ≡ false
digit_not_hyphen c h = ground arith

cut_digits : (s e : Bytes) → AllDigits s → cut b'-' (s ++ (b'-' ∷ e)) ≡ some (s, e)
unfolding cut
cut_digits [] e d = refl
cut_digits (c ∷ s) e d = rw (digit_not_hyphen c d.0, cut_digits s e d.1) refl

digits : (s : Bytes) → AllDigits s → AllRangeBytes s
digits [] d = tt
digits (c ∷ s) d = (digit-is_range_byte c d.0, digits s d.1)

spec_bytes : (s e : Bytes) → AllDigits s → AllDigits e → AllRangeBytes (s ++ (b'-' ∷ e))
spec_bytes s e d f = AllDigits-AllRangeBytes s (b'-' ∷ e) d (refl, digits e f)

not_empty : (s : Bytes) (c : ℕ) (e : Bytes) → ((s ++ (c ∷ e)) == []) ≡ false
not_empty [] c e = refl
not_empty (d ∷ s) c e = refl

spec_of :
    (s e : Bytes) (size : ℕ)
    → AllDigits s
    → AllDigits e
    → classify_spec (s ++ (b'-' ∷ e)) size
      ≡ (if s == [] then classify_suffix_range e size else classify_offset_range s e size)
unfolding classify_spec
spec_of s e size d f =
    rw (not_empty s b'-' e, has_comma _ (spec_bytes s e d f))
      (rw (cut_digits s e d) (rw (trim_space-id s (digits s d), trim_space-id e (digits e f)) refl))

classify_header :
    (s e : Bytes) (size : ℕ)
    → AllDigits s
    → AllDigits e
    → classify_range (bytes "bytes=" ++ (s ++ (b'-' ∷ e))) size
      ≡ (if s == [] then classify_suffix_range e size else classify_offset_range s e size)
unfolding classify_range has_prefix
classify_header s e size d f =
    rw (trim_space-id (s ++ (b'-' ∷ e)) (spec_bytes s e d f)) (spec_of s e size d f)

named : (s : Bytes) → s ≢ [] → (s == []) ≡ false
named [] h = absurd (h refl)
named (c ∷ s) h = refl

end_class :
    (n v : ℕ)
    → end_of (if ltb v min_int64_abs then parsed (pos v) else err_range) n
      ≡ (if leb n v && ltb v min_int64_abs then range_satisfiable else range_ignore)
unfolding end_of
end_class n v = ground arith

-- The class of a range with the start `n` whose end is the text `e`.
end_text :
    (e : Bytes) (n : ℕ)
    → AllDigits e
    → (if e == [] then range_satisfiable else end_of (parse_int e) n) ≡ (
        if e == [] || (leb n (value e) && ltb (value e) min_int64_abs)
        then range_satisfiable
        else range_ignore)
end_text [] n d = refl
end_text (c ∷ e) n d =
    ap (λ p. end_of p n) (parse_int-value (c ∷ e) (λ p. cc p) d) ∙ end_class n (value (c ∷ e))

start_class :
    (v size : ℕ) (e : Bytes)
    → size ≤ min_int64_abs
    → start_of (if ltb v min_int64_abs then parsed (pos v) else err_range) e size ≡ (
        if leb size v
        then range_unsatisfiable
        else if e == []
        then range_satisfiable
        else end_of (parse_int e) v)
unfolding start_of
start_class v size e small = ground arith

-- For a start of one or more digits and an end of digits or nothing, on an object of at most 2 ^ 63
-- bytes, whatever the lengths of the numbers: a start at or past the object's size is
-- unsatisfiable; else the range is satisfiable if there is no end, or an end that is not before
-- the start and below 2 ^ 63; else the header is ignored.
pub classify_range-offset :
    (s e : Bytes) (size : ℕ)
    → s ≢ []
    → AllDigits s
    → AllDigits e
    → size ≤ min_int64_abs
    → classify_range (bytes "bytes=" ++ (s ++ (b'-' ∷ e))) size ≡ (
        if leb size (value s)
        then range_unsatisfiable
        else if e == [] || (leb (value s) (value e) && ltb (value e) min_int64_abs)
        then range_satisfiable
        else range_ignore)
unfolding classify_offset_range
classify_range-offset s e size h d f small =
    classify_header s e size d f
    ∙ ap (λ b. if b then classify_suffix_range e size else classify_offset_range s e size)
        (named s h)
    ∙ ap (λ p. start_of p e size) (parse_int-value s h d)
    ∙ start_class (value s) size e small
    ∙ ap (λ r. if leb size (value s) then range_unsatisfiable else r) (end_text e (value s) f)

suffix_class :
    (v size : ℕ)
    → suffix_of (if ltb v min_int64_abs then parsed (pos v) else err_range) size ≡ (
        if v == 0 || leb min_int64_abs v
        then range_ignore
        else if size == 0
        then range_unsatisfiable
        else range_satisfiable)
unfolding suffix_of
suffix_class zero size = refl
suffix_class (suc v) size = ground arith

suffix_text :
    (e : Bytes) (size : ℕ)
    → AllDigits e
    → classify_suffix_range e size ≡ (
        if value e == 0 || leb min_int64_abs (value e)
        then range_ignore
        else if size == 0
        then range_unsatisfiable
        else range_satisfiable)
unfolding classify_suffix_range
suffix_text [] size d = unfold parse_int suffix_of in refl
suffix_text (c ∷ e) size d =
    ap (λ p. suffix_of p size) (parse_int-value (c ∷ e) (λ p. cc p) d)
    ∙ suffix_class (value (c ∷ e)) size

-- A request for the last bytes, with digits or nothing after the hyphen: ignored for the count 0 or
-- one of 2 ^ 63 or more, unsatisfiable on an empty object, and satisfiable on any other.
pub classify_range-suffix :
    (e : Bytes) (size : ℕ)
    → AllDigits e
    → classify_range (bytes "bytes=-" ++ e) size ≡ (
        if value e == 0 || leb min_int64_abs (value e)
        then range_ignore
        else if size == 0
        then range_unsatisfiable
        else range_satisfiable)
classify_range-suffix e size f = classify_header [] e size tt f ∙ suffix_text e size f
