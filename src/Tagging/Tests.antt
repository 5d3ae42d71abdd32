-- ===== src/Tagging/Tests.antt =====
-- Two tags of an object, stored beside those of another.
use byte_bucket.Prelude.{
  ℕ, zero, suc, true, List, [], ◌∷◌, some, length, ◌≡◌, refl, ap, ◌∙◌, arith, nat_equality,
  list_equality,
}
use byte_bucket.Bytes.{Bytes, bytes}
use byte_bucket.Tagging.{
  ObjectTag, Utf8, Json, Files, written, rename_fails, ok, failed, io_error, validate_object_tags,
  replace_file, set_object_tags, get_object_tags, delete_object_tags,
}
use byte_bucket.Tagging.Limits.{IsTagSet, validate_object_tags_iff}
use byte_bucket.Tagging.Stored.{IsFaithful, get-set_object_tags, set_object_tags-failed}

abbrev ascii : Utf8
ascii = record { rune_count = λ s. length s; is_valid = λ s. true }

abbrev tags : List ObjectTag
tags =
    record { key = bytes "team"; value = bytes "a" } ∷ record { key = bytes "env"; value = [] } ∷ []

tags-IsTagSet : IsTagSet ascii tags
tags-IsTagSet = record {
  few = omega arith;
  all = (
    record {
      some_key = omega arith;
      short_key = omega arith;
      short_value = omega arith;
      valid_key = refl;
      valid_value = refl;
    },
    (refl, tt),
    (
      record {
        some_key = omega arith;
        short_key = omega arith;
        short_value = omega arith;
        valid_key = refl;
        valid_value = refl;
      },
      tt,
      tt,
    ),
  );
}

validate_object_tags_iff_example :
    (validate_object_tags ascii tags ≡ true → IsTagSet ascii tags)
    × (IsTagSet ascii tags → validate_object_tags ascii tags ≡ true)
validate_object_tags_iff_example = validate_object_tags_iff ascii tags

-- A code in place of JSON: every byte plus one, and a zero after each text.
abbrev code : Bytes → Bytes → Bytes
code [] rest = 0 ∷ rest
code (c ∷ s) rest = suc c ∷ code s rest

abbrev encode : List ObjectTag → Bytes
encode [] = []
encode (t ∷ ts) = code t.key (code t.value (encode ts))

abbrev onto_first : ℕ → List Bytes → List Bytes
onto_first c [] = (c ∷ []) ∷ []
onto_first c (s ∷ rest) = (c ∷ s) ∷ rest

abbrev texts : Bytes → List Bytes
texts [] = []
texts (zero ∷ s) = [] ∷ texts s
texts (suc c ∷ s) = onto_first c (texts s)

abbrev pairs : List Bytes → List ObjectTag
pairs (key ∷ value ∷ rest) = record { key = key; value = value } ∷ pairs rest
pairs [] = []
pairs (s ∷ []) = []

texts-code : (s rest : Bytes) → texts (code s rest) ≡ s ∷ texts rest
texts-code [] rest = refl
texts-code (c ∷ s) rest = ap (onto_first c) (texts-code s rest)

texts-encode : (ts : List ObjectTag) → pairs (texts (encode ts)) ≡ ts
texts-encode [] = refl
texts-encode (t ∷ ts) =
    ap pairs (texts-code t.key (code t.value (encode ts)))
    ∙ ap (λ rest. pairs (t.key ∷ rest)) (texts-code t.value (encode ts))
    ∙ ap (◌∷◌ t) (texts-encode ts)

abbrev codec : Json
codec = record { marshal = λ ts. some (encode ts); unmarshal = λ s. some (pairs (texts s)) }

codec-IsFaithful : IsFaithful ascii codec
codec-IsFaithful ts v = (encode ts, refl, ap some (texts-encode ts))

abbrev other_file : Files
other_file = (bytes "/b/other.tags.json", bytes "x") ∷ []

get-set_object_tags_example :
    let (answer, after) = set_object_tags ascii codec written (bytes "/b/k") tags other_file in
    (answer ≡ ok tt)
    × (get_object_tags codec true (bytes "/b/k") after ≡ ok tags)
    × (get_object_tags codec true (bytes "/b/k") (delete_object_tags true (bytes "/b/k") after).1
        ≡ ok [])
get-set_object_tags_example =
    get-set_object_tags ascii codec (bytes "/b/k") tags other_file true (bytes "/b/k")
      codec-IsFaithful tags-IsTagSet

not_renamed :
    (set_object_tags ascii codec rename_fails (bytes "/b/k") tags other_file).0 ≡ failed io_error
unfolding set_object_tags validate_object_tags replace_file
not_renamed = refl

set_object_tags-failed_example :
    get_object_tags codec true
      (bytes "/b/k")
      (set_object_tags ascii codec rename_fails (bytes "/b/k") tags other_file).1
    ≡ get_object_tags codec true (bytes "/b/k") other_file
set_object_tags-failed_example =
    set_object_tags-failed ascii codec rename_fails (bytes "/b/k") tags other_file io_error true
      (bytes "/b/k") not_renamed
