-- ===== src/Range.antt =====
-- The classification of `Range` headers of internal/handlers/object.go, with `strconv.ParseInt`
-- of base 10 and 64 bits as it behaves. An object's size is an int64 that is not negative.
mod Parse
mod Classes
mod Tests
use byte_bucket.Prelude.{
  ℕ, zero, suc, ◌+◌, ◌*◌, ◌-◌, ◌^◌, Bool, true, false, ◌&&◌, ◌||◌, not, List, [], ◌∷◌, Option, none,
  some, ◌==◌, nat_equality, list_equality, if◌then◌else◌, leb, ltb, drop,
}
use byte_bucket.Prelude.Int.{ℤ, pos, negsuc}
use byte_bucket.Bytes.{has_byte, Bytes, bytes, has_prefix, trim_space, cut}

pub data Parsed : Type 0 where
  parsed : ℤ → Parsed
  err_syntax err_range : Parsed

abbrev pub is_digit : ℕ → Bool
is_digit c = leb b'0' c && leb c b'9'

abbrev pub max_uint64 : ℕ
max_uint64 = 18446744073709551615

abbrev pub min_int64_abs : ℕ
min_int64_abs = 9223372036854775808

pub data ParsedUint : Type 0 where
  parsed_uint : ℕ → ParsedUint
  uint_syntax uint_range : ParsedUint

-- The loop of `strconv.ParseUint`, which stops at the first byte that is no digit or overflows.
pub parse_digits : ℕ → Bytes → ParsedUint
parse_digits n [] = parsed_uint n
parse_digits n (c ∷ s) =
    let rest = parse_digits (n * 10 + (c - b'0')) s in
    if not (is_digit c)
    then uint_syntax
    else if ltb max_uint64 (n * 10 + (c - b'0'))
    then uint_range
    else rest

pub parse_uint : Bytes → ParsedUint
unfolding parse_digits
parse_uint [] = uint_syntax
parse_uint (c ∷ s) = parse_digits 0 (c ∷ s)

negate : ℕ → ℤ
negate zero = pos 0
negate (suc n) = negsuc n

pub to_signed : Bool → ParsedUint → Parsed
unfolding negate
to_signed neg uint_syntax = err_syntax
to_signed neg uint_range = err_range
to_signed true (parsed_uint n) = if ltb min_int64_abs n then err_range else parsed (negate n)
to_signed false (parsed_uint n) = if leb min_int64_abs n then err_range else parsed (pos n)

-- `strconv.ParseInt(s, 10, 64)`
pub parse_int : Bytes → Parsed
unfolding to_signed parse_uint
parse_int [] = err_syntax
parse_int (c ∷ s) =
    if c == b'+'
    then to_signed false (parse_uint s)
    else if c == b'-'
    then to_signed true (parse_uint s)
    else to_signed false (parse_uint (c ∷ s))

pub data RangeClass : Type 0 where
  range_ignore range_satisfiable range_unsatisfiable : RangeClass

suffix_of : Parsed → ℕ → RangeClass
suffix_of (parsed (pos zero)) size = range_ignore
suffix_of (parsed (pos (suc n))) size = if size == 0 then range_unsatisfiable else range_satisfiable
suffix_of (parsed (negsuc n)) size = range_ignore
suffix_of err_syntax size = range_ignore
suffix_of err_range size = range_ignore

pub classify_suffix_range : Bytes → ℕ → RangeClass
unfolding suffix_of parse_int
classify_suffix_range suffix size = suffix_of (parse_int suffix) size

-- `end < start` for a start that is not negative
end_of : Parsed → ℕ → RangeClass
end_of (parsed (pos e)) start = if ltb e start then range_ignore else range_satisfiable
end_of (parsed (negsuc e)) start = range_ignore
end_of err_syntax start = range_ignore
end_of err_range start = range_ignore

start_of : Parsed → Bytes → ℕ → RangeClass
unfolding end_of parse_int
start_of err_range end_str size = range_unsatisfiable
start_of err_syntax end_str size = range_ignore
start_of (parsed (negsuc n)) end_str size = range_ignore
start_of (parsed (pos start)) end_str size =
    if leb size start
    then range_unsatisfiable
    else if end_str == []
    then range_satisfiable
    else end_of (parse_int end_str) start

pub classify_offset_range : Bytes → Bytes → ℕ → RangeClass
unfolding start_of parse_int
classify_offset_range start_str end_str size = start_of (parse_int start_str) end_str size

pub classify_spec : Bytes → ℕ → RangeClass
unfolding has_byte classify_suffix_range classify_offset_range cut trim_space
classify_spec spec size =
    if spec == [] || has_byte b',' spec then range_ignore else elim (cut b'-' spec) [
      | none ↦ range_ignore
      | some (start_str, end_str) ↦
          if trim_space start_str == []
          then classify_suffix_range (trim_space end_str) size
          else classify_offset_range (trim_space start_str) (trim_space end_str) size
    ]

pub classify_range : Bytes → ℕ → RangeClass
unfolding classify_spec has_prefix trim_space
classify_range header size =
    if header == [] || not (has_prefix header (bytes "bytes="))
    then range_ignore
    else classify_spec (trim_space (drop 6 header)) size
