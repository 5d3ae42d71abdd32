-- ===== src/Conditional/Tests.antt =====
-- A write with both preconditions on an object with a known tag.
use byte_bucket.Prelude.{[], ◌==◌, nat_equality, list_equality, if◌then◌else◌, ◌≡◌, ◌⊎◌, ◌↔◌}
use byte_bucket.Bytes.{Bytes, bytes}
use byte_bucket.Conditional.{
  Headers, proceed, precondition_failed, absent, present, evaluate_put_conditional,
}
use byte_bucket.Conditional.Writing.{Names, evaluate_put_conditional_iff}

abbrev stored : Bytes
stored = bytes "\"b\""

abbrev either_tag : Headers
either_tag = record {
  if_match = bytes "\"a\", W/\"b\"";
  if_none_match = bytes "\"c\"";
  if_modified_since = [];
  if_unmodified_since = [];
}

evaluate_put_conditional_iff_example :
    ((evaluate_put_conditional either_tag (present stored) ≡ proceed) ↔ (
      ((either_tag.if_match ≡ []) ⊎ Names either_tag.if_match stored)
      × ((either_tag.if_none_match ≡ []) ⊎ (¬ Names either_tag.if_none_match stored))))
    × (evaluate_put_conditional either_tag absent
        ≡ (if either_tag.if_match == [] then proceed else precondition_failed))
evaluate_put_conditional_iff_example = evaluate_put_conditional_iff either_tag stored
