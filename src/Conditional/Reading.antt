-- ===== src/Conditional/Reading.antt =====
-- Revalidation of what a client has cached (internal/handlers/conditional.go).
use byte_bucket.Prelude.{
  ℕ, false, not, Option, [], ◌∷◌, ◌==◌, nat_equality, list_equality, if◌then◌else◌, ◌≡◌, refl, ap,
  ◌∙◌,
}
use byte_bucket.Bytes.{Bytes}
use byte_bucket.Conditional.{
  Headers, proceed, not_modified, precondition_failed, fails_match, is_current,
  evaluate_get_conditional,
}
use byte_bucket.Conditional.Matching.{IsTag, etag_matches-tag}

tag_given : (tag : Bytes) → IsTag tag → (tag == []) ≡ false
tag_given [] t = absurd t
tag_given (c ∷ s) t = refl

module _ (parse_time : Bytes → Option ℕ) where
  -- A read with the tags that the client expects and has, and any dates.
  abbrev pub holding : Bytes → Bytes → Bytes → Bytes → Headers
  holding wanted held since unless = record {
    if_match = wanted;
    if_none_match = held;
    if_modified_since = since;
    if_unmodified_since = unless;
  }

  fails-tag :
      (wanted held since unless etag : Bytes) (mod_time : ℕ)
      → IsTag wanted
      → fails_match parse_time (holding wanted held since unless) etag mod_time
        ≡ not (wanted == etag)
  unfolding fails_match
  fails-tag wanted held since unless etag mod_time t =
      rw (tag_given wanted t, etag_matches-tag wanted etag t) refl

  is_current-tag :
      (wanted held since unless etag : Bytes) (mod_time : ℕ)
      → IsTag held
      → is_current parse_time (holding wanted held since unless) etag mod_time ≡ (held == etag)
  unfolding is_current
  is_current-tag wanted held since unless etag mod_time t =
      rw (tag_given held t, etag_matches-tag held etag t) refl

  -- With a tag in If-Match and one in If-None-Match the dates do not count: an object with another
  -- tag than the wanted one is answered 412, one with the held tag 304, and any other is served.
  pub evaluate_get_conditional-tags :
      (wanted held since unless etag : Bytes) (mod_time : ℕ)
      → IsTag wanted
      → IsTag held
      → evaluate_get_conditional parse_time (holding wanted held since unless) etag mod_time ≡ (
          if not (wanted == etag)
          then precondition_failed
          else if held == etag
          then not_modified
          else proceed)
  unfolding evaluate_get_conditional
  evaluate_get_conditional-tags wanted held since unless etag mod_time t u =
      ap
        (λ b.
          if b
          then precondition_failed
          else if is_current parse_time (holding wanted held since unless) etag mod_time
          then not_modified
          else proceed)
        (fails-tag wanted held since unless etag mod_time t)
      ∙ ap
          (λ b.
            if not (wanted == etag)
            then precondition_failed
            else if b
            then not_modified
            else proceed)
          (is_current-tag wanted held since unless etag mod_time u)

  -- With If-None-Match alone among the tags, and no If-Unmodified-Since: 304 just for the held tag,
  -- whatever If-Modified-Since says.
  pub evaluate_get_conditional-none_match :
      (held since etag : Bytes) (mod_time : ℕ)
      → IsTag held
      → evaluate_get_conditional parse_time (holding [] held since []) etag mod_time
        ≡ (if held == etag then not_modified else proceed)
  unfolding evaluate_get_conditional fails_match
  evaluate_get_conditional-none_match held since etag mod_time u =
      ap (λ b. if b then not_modified else proceed)
        (is_current-tag [] held since [] etag mod_time u)
