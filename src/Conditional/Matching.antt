-- ===== src/Conditional/Matching.antt =====
-- Entity tags as the server emits them, against precondition headers.
use byte_bucket.Prelude.{
  ℕ, Bool, true, false, ◌&&◌, ◌||◌, [], ◌∷◌, ◌==◌, nat_equality, list_equality, leb, ◌≡◌, refl,
  arith,
}
use byte_bucket.Bytes.{Bytes, bytes, trim_space, is_space, trim_prefix, strip_prefix}
use byte_bucket.Bytes.Trim.{AllBytes, trim_space-id, split_one}
use byte_bucket.Conditional.{star, candidate, any_matches, etag_matches}

abbrev quote : ℕ
quote = 34

-- What stands in a tag: quotes, hexadecimal digits and the hyphen of a multipart upload.
abbrev pub is_tag_byte : ℕ → Bool
is_tag_byte c = c == quote || (leb b'0' c && leb c b'9') || (leb b'a' c && leb c b'f') || c == b'-'

-- A tag as it is stored and sent, in quotes.
abbrev pub IsTag : Bytes → Type 0
IsTag [] = ⊥
IsTag (c ∷ s) = (c ≡ quote) × AllBytes is_tag_byte s

tag-no_space : (c : ℕ) → is_tag_byte c ≡ true → is_space c ≡ false
tag-no_space c h = ground arith

tag-no_comma : (c : ℕ) → is_tag_byte c ≡ true → (c == b',') ≡ false
tag-no_comma c h = ground arith

quote-is_tag_byte : (c : ℕ) → c ≡ quote → is_tag_byte c ≡ true
quote-is_tag_byte c p = ground arith

IsTag-AllBytes : (s : Bytes) → IsTag s → AllBytes is_tag_byte s
IsTag-AllBytes [] t = absurd t
IsTag-AllBytes (c ∷ s) t = (quote-is_tag_byte c t.0, t.1)

not_weak : (s : Bytes) → IsTag s → trim_prefix s (bytes "W/") ≡ s
unfolding trim_prefix strip_prefix
not_weak [] t = absurd t
not_weak (c ∷ s) t = rw t.0 refl

not_star : (s : Bytes) → IsTag s → (s == star) ≡ false
not_star [] t = absurd t
not_star (c ∷ s) t = rw t.0 refl

or_nothing : (b : Bool) → (b || false) ≡ b
or_nothing true = refl
or_nothing false = refl

trimmed : (s : Bytes) → IsTag s → trim_space s ≡ s
trimmed s t = trim_space-id is_tag_byte tag-no_space s (IsTag-AllBytes s t)

candidate-id : (s : Bytes) → IsTag s → candidate s ≡ s
unfolding candidate
candidate-id s t = rw (trimmed s t) (rw (not_weak s t) (trimmed s t))

-- A header that is one tag matches just the object with that tag.
pub etag_matches-tag : (tag etag : Bytes) → IsTag tag → etag_matches tag etag ≡ (tag == etag)
unfolding etag_matches any_matches
etag_matches-tag tag etag t = rw (trimmed tag t) (
    rw (not_star tag t) (
      rw (split_one is_tag_byte b',' tag-no_comma tag (IsTag-AllBytes tag t))
        (rw (candidate-id tag t) (or_nothing (tag == etag)))))
