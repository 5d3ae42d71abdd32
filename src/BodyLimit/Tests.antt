-- ===== src/BodyLimit/Tests.antt =====
-- A handler that fails on the body and answers with an error of its own.
use byte_bucket.Prelude.{true, List, [], ◌∷◌, ◌++◌, ◌≡◌, refl, false, none}
use byte_bucket.Prelude.Int.{pos}
use byte_bucket.Bytes.{bytes}
use byte_bucket.BodyLimit.{
  Caller, Action, reads, more, over_limit, writes_header, writes, sets_type, fresh, plain,
  body_limit,
}
use byte_bucket.BodyLimit.Silenced.{too_large, body_limit-plain, body_limit-over_limit}

abbrev sdk : Caller
sdk = record {
  path = bytes "/docs/a";
  accepts_json = false;
  json_error = bytes "{}";
  xml_error = bytes "<Error/>";
}

abbrev complaint : List Action
complaint =
    sets_type (bytes "text/plain")
    ∷ writes_header 500
    ∷ writes (bytes "oops")
    ∷ reads over_limit
    ∷ []

body_limit-plain_example :
    body_limit (pos 10) true sdk (reads more ∷ writes (bytes "ok") ∷ []) fresh
    ≡ plain (reads more ∷ writes (bytes "ok") ∷ []) fresh
body_limit-plain_example =
    body_limit-plain (pos 10) true sdk (reads more ∷ writes (bytes "ok") ∷ []) fresh tt

uncommitted : (plain (reads more ∷ sets_type (bytes "a/b") ∷ []) fresh).status ≡ none
unfolding plain
uncommitted = refl

body_limit-over_limit_example :
    body_limit
      (pos 10)
      true
      sdk
      ((reads more ∷ sets_type (bytes "a/b") ∷ []) ++ (reads over_limit ∷ complaint))
      fresh
    ≡ too_large sdk
body_limit-over_limit_example =
    body_limit-over_limit 9 sdk (reads more ∷ sets_type (bytes "a/b") ∷ []) complaint tt uncommitted
