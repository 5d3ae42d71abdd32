-- ===== src/Tagging/Limits.antt =====
-- What a legal tag set is (internal/storage/tagging.go).
use byte_bucket.Prelude.{
  ◌≤◌, Bool, true, false, ◌||◌, not, List, [], ◌∷◌, ◌==◌, nat_equality, list_equality,
  if◌then◌else◌, ltb, ltb_false→le, le→ltb_false, length, ◌≡◌, refl, Bool-cases, inl, inr, arith,
}
use byte_bucket.Bytes.{Bytes}
use byte_bucket.Tagging.{
  ObjectTag, Utf8, max_object_tags, is_seen, check_tags, validate_object_tags,
}

-- No later tag has this key.
abbrev pub Unused : Bytes → List ObjectTag → Type 0
Unused key [] = Unit
Unused key (t ∷ tags) = ((key == t.key) ≡ false) × Unused key tags

neither : (a b : Bool) → (a || b) ≡ false → (a ≡ false) × (b ≡ false)
neither a b h = (ground arith, ground arith)

module _ (utf8 : Utf8) where
  pub record IsTag (t : ObjectTag) : Type 0 where
    pub some_key : 1 ≤ utf8.rune_count t.key
    pub short_key : utf8.rune_count t.key ≤ 128
    pub short_value : utf8.rune_count t.value ≤ 256
    pub valid_key : utf8.is_valid t.key ≡ true
    pub valid_value : utf8.is_valid t.value ≡ true

  abbrev pub AllTags : List ObjectTag → Type 0
  AllTags [] = Unit
  AllTags (t ∷ tags) = IsTag t × Unused t.key tags × AllTags tags

  -- At most ten tags, each within the limits, with keys that differ.
  pub record IsTagSet (tags : List ObjectTag) : Type 0 where
    pub few : length tags ≤ 10
    pub all : AllTags tags

  guards :
      (a b c d e f rest : Bool)
      → (if a || b
          then false
          else if c
          then false
          else if not d || not e
          then false
          else if f
          then false
          else rest)
        ≡ true
      → (a ≡ false)
        × (b ≡ false)
        × (c ≡ false)
        × (d ≡ true)
        × (e ≡ true)
        × (f ≡ false)
        × (rest ≡ true)
  guards a b c d e f rest h = (
    ground arith,
    ground arith,
    ground arith,
    ground arith,
    ground arith,
    ground arith,
    ground arith,
  )

  AllUnseen : List Bytes → List ObjectTag → Type 0
  AllUnseen seen [] = Unit
  AllUnseen seen (t ∷ tags) = (is_seen t.key seen ≡ false) × AllUnseen seen tags

  later_unseen :
      (key : Bytes) (seen : List Bytes) (tags : List ObjectTag)
      → AllUnseen (key ∷ seen) tags
      → Unused key tags × AllUnseen seen tags
  unfolding is_seen AllUnseen
  later_unseen key seen [] h = (tt, tt)
  later_unseen key seen (t ∷ tags) h =
      let (here, there) = neither (key == t.key) (is_seen t.key seen) h.0 in
      let (unused, unseen) = later_unseen key seen tags h.1 in ((here, unused), (there, unseen))

  check-AllTags :
      (seen : List Bytes) (tags : List ObjectTag)
      → check_tags utf8 seen tags ≡ true
      → AllUnseen seen tags × AllTags tags
  unfolding check_tags AllUnseen
  check-AllTags seen [] h = (tt, tt)
  check-AllTags seen (t ∷ tags) h =
      let kl = utf8.rune_count t.key in
      let (low, high, size, valid_key, valid_value, fresh, rest) =
        guards (ltb kl 1) (ltb 128 kl) (ltb 256 (utf8.rune_count t.value)) (utf8.is_valid t.key)
          (utf8.is_valid t.value) (is_seen t.key seen) _ h in
      let (unseen, all) = check-AllTags (t.key ∷ seen) tags rest in
      let (unused, others) = later_unseen t.key seen tags unseen in
      let tag : IsTag t = record {
        some_key = ltb_false→le kl 1 low;
        short_key = ltb_false→le 128 kl high;
        short_value = ltb_false→le 256 (utf8.rune_count t.value) size;
        valid_key = valid_key;
        valid_value = valid_value;
      } in
      ((fresh, others), (tag, unused, all))

  validate-IsTagSet :
      (tags : List ObjectTag) → validate_object_tags utf8 tags ≡ true → IsTagSet tags
  unfolding validate_object_tags
  validate-IsTagSet tags h = elim (Bool-cases (ltb max_object_tags (length tags))) [
    | inl many ↦ absurd (cc (rw many at h))
    | inr few ↦ record {
      few = ltb_false→le max_object_tags (length tags) few;
      all = (check-AllTags [] tags (rw few at h)).1;
    }
  ]

  keep_unseen :
      (key : Bytes) (seen : List Bytes) (tags : List ObjectTag)
      → Unused key tags
      → AllUnseen seen tags
      → AllUnseen (key ∷ seen) tags
  unfolding is_seen AllUnseen
  keep_unseen key seen [] u h = tt
  keep_unseen key seen (t ∷ tags) u h = (rw (u.0, h.0) refl, keep_unseen key seen tags u.1 h.1)

  AllTags-check :
      (seen : List Bytes) (tags : List ObjectTag)
      → AllUnseen seen tags
      → AllTags tags
      → check_tags utf8 seen tags ≡ true
  unfolding check_tags AllUnseen
  AllTags-check seen [] u h = refl
  AllTags-check seen (t ∷ tags) u (tag, unused, all) =
      let kl = utf8.rune_count t.key in
      rw
        (
          le→ltb_false kl 1 tag.some_key,
          le→ltb_false 128 kl tag.short_key,
          le→ltb_false 256 (utf8.rune_count t.value) tag.short_value,
          tag.valid_key,
          tag.valid_value,
          u.0,
          AllTags-check (t.key ∷ seen) tags (keep_unseen t.key seen tags unused u.1) all,
        )
        refl

  none_seen : (tags : List ObjectTag) → AllUnseen [] tags
  unfolding AllUnseen is_seen
  none_seen [] = tt
  none_seen (t ∷ tags) = (refl, none_seen tags)

  pub IsTagSet-validate :
      (tags : List ObjectTag) → IsTagSet tags → validate_object_tags utf8 tags ≡ true
  unfolding validate_object_tags
  IsTagSet-validate tags v =
      rw (le→ltb_false max_object_tags (length tags) v.few)
        (AllTags-check [] tags (none_seen tags) v.all)

  -- A set of tags is accepted just when it has at most ten tags, each with a key of 1 to 128 code
  -- points and a value of at most 256, both of valid UTF-8, and no key twice.
  pub validate_object_tags_iff :
      (tags : List ObjectTag)
      → (validate_object_tags utf8 tags ≡ true → IsTagSet tags)
        × (IsTagSet tags → validate_object_tags utf8 tags ≡ true)
  validate_object_tags_iff tags = (validate-IsTagSet tags, IsTagSet-validate tags)
