-- ===== src/Range/Tests.antt =====
-- Ranges of an object of 100 bytes.
use byte_bucket.Prelude.{◌≡◌, refl, arith}
use byte_bucket.Bytes.{has_byte, bytes, trim_space, trim_left, cut, has_prefix}
use byte_bucket.Range.{
  range_ignore, range_satisfiable, range_unsatisfiable, classify_range, classify_spec,
  classify_suffix_range, classify_offset_range, parse_int, parse_uint, parse_digits, to_signed,
  end_of, start_of,
}
use byte_bucket.Range.Parse.{AllDigits}
use byte_bucket.Range.Classes.{classify_range-offset}

two_ranges : classify_range (bytes "bytes=0-1,5-6") 100 ≡ range_ignore
unfolding classify_range classify_spec has_byte trim_space trim_left has_prefix
two_ranges = refl

spaces : classify_range (bytes "bytes= 7 - 9 ") 100 ≡ range_satisfiable
unfolding classify_range classify_spec has_byte trim_space trim_left has_prefix cut
    classify_suffix_range classify_offset_range parse_int parse_uint parse_digits to_signed start_of
    end_of
spaces = refl

twenty : AllDigits (bytes "99999999999999999999")
twenty = (
  refl,
  (
    refl,
    (
      refl,
      (
        refl,
        (
          refl,
          (
            refl,
            (
              refl,
              (
                refl,
                (
                  refl,
                  (
                    refl,
                    (
                      refl,
                      (refl, (refl, (refl, (refl, (refl, (refl, (refl, (refl, (refl, tt))))))))),
                    ),
                  ),
                ),
              ),
            ),
          ),
        ),
      ),
    ),
  ),
)

classify_range-offset_example :
    classify_range (bytes "bytes=99999999999999999999-3") 100 ≡ range_unsatisfiable
classify_range-offset_example =
    classify_range-offset (bytes "99999999999999999999") (bytes "3") 100 (λ p. cc p) twenty
      (refl, tt) (omega arith)
