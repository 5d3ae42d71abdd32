-- ===== src/Conditional.antt =====
-- The preconditions of internal/handlers/conditional.go: reads with 304 and 412, and optimistic
-- concurrency on writes. Times are nanoseconds; `http.ParseTime` is a parameter.
mod Matching
mod Reading
mod Writing
mod Tests
use byte_bucket.Prelude.{
  ℕ, ◌-◌, ◌%◌, Bool, true, false, ◌&&◌, ◌||◌, not, List, [], ◌∷◌, Option, none, some, ◌==◌,
  nat_equality, list_equality, if◌then◌else◌, leb, ltb,
}
use byte_bucket.Bytes.{Bytes, bytes, split, trim_space, trim_prefix}

abbrev pub star : Bytes
star = b'*' ∷ []

-- One member of the header, without white space and a weak prefix.
pub candidate : Bytes → Bytes
unfolding trim_space trim_prefix
candidate cand = trim_space (trim_prefix (trim_space cand) (bytes "W/"))

pub any_matches : List Bytes → Bytes → Bool
unfolding candidate
any_matches [] etag = false
any_matches (cand ∷ cands) etag = candidate cand == etag || any_matches cands etag

pub etag_matches : Bytes → Bytes → Bool
unfolding any_matches trim_space split
etag_matches header etag =
    trim_space header == star || any_matches (split b',' (trim_space header)) etag

-- The headers of a request that the preconditions read; `[]` is an absent one.
pub record Headers : Type 0 where
  pub if_match : Bytes
  pub if_none_match : Bytes
  pub if_modified_since : Bytes
  pub if_unmodified_since : Bytes

abbrev pub strip_conditional_headers : Headers → Headers
strip_conditional_headers h = record {
  if_match = [];
  if_none_match = [];
  if_modified_since = [];
  if_unmodified_since = [];
}

-- What the caller must emit; `proceed` is the result (0, false).
pub data Verdict : Type 0 where
  proceed not_modified precondition_failed internal_server_error : Verdict

abbrev pub second : ℕ
second = 1_000_000_000

-- `t.Truncate(time.Second)`, for times from 1970 on
abbrev pub truncate_second : ℕ → ℕ
truncate_second t = t - t % second

module _ (parse_time : Bytes → Option ℕ) where
  -- `modTime.After(t)` for a header that parses
  pub modified_after : ℕ → Bytes → Bool
  modified_after mod_time header = elim (parse_time header) [
    | none ↦ false
    | some t ↦ ltb t mod_time
  ]

  pub unmodified_since : ℕ → Bytes → Bool
  unmodified_since mod_time header = elim (parse_time header) [
    | none ↦ false
    | some t ↦ not (ltb t (truncate_second mod_time))
  ]

  -- Step 1: If-Match, else If-Unmodified-Since.
  pub fails_match : Headers → Bytes → ℕ → Bool
  unfolding etag_matches modified_after
  fails_match h etag mod_time =
      if not (h.if_match == [])
      then not (etag_matches h.if_match etag)
      else if not (h.if_unmodified_since == [])
      then modified_after mod_time h.if_unmodified_since
      else false

  -- Step 2: If-None-Match, else If-Modified-Since.
  pub is_current : Headers → Bytes → ℕ → Bool
  unfolding etag_matches unmodified_since
  is_current h etag mod_time =
      if not (h.if_none_match == [])
      then etag_matches h.if_none_match etag
      else if not (h.if_modified_since == [])
      then unmodified_since mod_time h.if_modified_since
      else false

  pub evaluate_get_conditional : Headers → Bytes → ℕ → Verdict
  unfolding fails_match is_current
  evaluate_get_conditional h etag mod_time =
      if fails_match h etag mod_time
      then precondition_failed
      else if is_current h etag mod_time
      then not_modified
      else proceed

  -- The response that was written, if any, and the headers that are left for ServeContent.
  pub apply_get_conditional : Headers → Bytes → ℕ → Verdict × Headers
  unfolding evaluate_get_conditional
  apply_get_conditional h etag mod_time = (
    (elim (evaluate_get_conditional h etag mod_time) [
      | proceed ↦ proceed
      | not_modified ↦ not_modified
      | precondition_failed ↦ precondition_failed
      | internal_server_error ↦ precondition_failed
    ]),
    strip_conditional_headers h,
  )

-- The object at the destination: absent (or a directory), or a file whose ETag loads or does not.
pub data Current : Type 0 where
  absent unreadable : Current
  present : Bytes → Current

pub exists : Current → Bool
exists absent = false
exists unreadable = true
exists (present etag) = true

-- An If-None-Match other than `*` against what is stored.
pub none_match_fails : Bytes → Current → Bool
unfolding etag_matches
none_match_fails header absent = false
none_match_fails header unreadable = false
none_match_fails header (present etag) = etag_matches header etag

pub match_verdict : Bytes → Current → Verdict
unfolding etag_matches
match_verdict header absent = precondition_failed
match_verdict header unreadable = internal_server_error
match_verdict header (present etag) =
    if not (etag_matches header etag) then precondition_failed else proceed

pub evaluate_put_conditional : Headers → Current → Verdict
unfolding exists none_match_fails match_verdict
evaluate_put_conditional h current =
    let none_match =
      if h.if_none_match == []
      then false
      else if h.if_none_match == star
      then exists current
      else none_match_fails h.if_none_match current in
    if h.if_match == [] && h.if_none_match == []
    then proceed
    else if none_match
    then precondition_failed
    else if h.if_match == []
    then proceed
    else match_verdict h.if_match current
