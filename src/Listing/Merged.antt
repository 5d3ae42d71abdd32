-- ===== src/Listing/Merged.antt =====
-- The entries of a listing have different keys (internal/handlers/bucket.go).
use byte_bucket.Prelude.{
  false, List, [], ◌∷◌, ◌++◌, none, some, ◌==◌, nat_equality, list_equality, list_test_iff, map,
  ◌≡◌, ◌⊎◌, refl, Bool-cases, Option-cases, inl, inr,
}
use byte_bucket.Bytes.{Bytes, has_prefix}
use byte_bucket.Listing.{
  object_item, prefix_item, is_sidecar, base_name, collect, up_to, common_prefix, out_of_scope,
  select_objects, add_once, select_prefixes, merged,
}
use byte_bucket.Listing.Paging.{Ascending}
use byte_bucket.Listing.Rolled.{common_prefix_again}
use byte_bucket.Listing.Order.{Absent, Absent-sort_items, AllDistinct, sort_items-Ascending}

abbrev pub Missing : Bytes → List Bytes → Type 0
Missing k [] = Unit
Missing k (l ∷ ls) = ((l == k) ≡ false) × Missing k ls

abbrev pub Distinct : List Bytes → Type 0
Distinct [] = Unit
Distinct (k ∷ ks) = Missing k ks × Distinct ks

Missing-collect : (k : Bytes) (files : List Bytes) → Missing k files → Missing k (collect files)
unfolding collect
Missing-collect k [] a = tt
Missing-collect k (f ∷ files) a = elim (Bool-cases (is_sidecar (base_name f))) [
  | inl skip ↦ rw skip (Missing-collect k files a.1)
  | inr keep ↦ rw keep (a.0, Missing-collect k files a.1)
]

collect-Distinct : (files : List Bytes) → Distinct files → Distinct (collect files)
unfolding collect
collect-Distinct [] d = tt
collect-Distinct (f ∷ files) d = elim (Bool-cases (is_sidecar (base_name f))) [
  | inl skip ↦ rw skip (collect-Distinct files d.1)
  | inr keep ↦ rw keep (Missing-collect f files d.0, collect-Distinct files d.1)
]

-- Keys of objects and prefixes that are listed.
module _ (p d : Bytes) where
  object_step :
      (l : Bytes) (keys : List Bytes)
      → (select_objects p d (l ∷ keys) ≡ select_objects p d keys)
        ⊎ ((common_prefix p d l ≡ none)
            × (select_objects p d (l ∷ keys) ≡ l ∷ select_objects p d keys))
  unfolding select_objects
  object_step l keys = elim (Bool-cases (out_of_scope p l)) [
    | inl out ↦ inl (rw out refl)
    | inr inside ↦ elim (Option-cases (common_prefix p d l)) [
      | inl plain ↦ inr (plain, rw (inside, plain) refl)
      | inr (cp, rolled) ↦ inl (rw (inside, rolled) refl)
    ]
  ]

  prefix_step :
      (l : Bytes) (keys : List Bytes)
      → (select_prefixes p d (l ∷ keys) ≡ select_prefixes p d keys)
        ⊎ ((cp : Bytes) × (common_prefix p d l ≡ some cp)
            × (select_prefixes p d (l ∷ keys) ≡ add_once cp (select_prefixes p d keys)))
  unfolding select_prefixes
  prefix_step l keys = elim (Bool-cases (out_of_scope p l)) [
    | inl out ↦ inl (rw out refl)
    | inr inside ↦ elim (Option-cases (common_prefix p d l)) [
      | inl plain ↦ inl (rw (inside, plain) refl)
      | inr (cp, rolled) ↦ inr (cp, rolled, rw (inside, rolled) refl)
    ]
  ]

  Missing-select_objects :
      (k : Bytes) (keys : List Bytes) → Missing k keys → Missing k (select_objects p d keys)
  unfolding select_objects
  Missing-select_objects k [] a = tt
  Missing-select_objects k (l ∷ keys) a = elim (object_step l keys) [
    | inl e ↦ rw e (Missing-select_objects k keys a.1)
    | inr (plain, e) ↦ rw e (a.0, Missing-select_objects k keys a.1)
  ]

  select_objects-Distinct : (keys : List Bytes) → Distinct keys → Distinct (select_objects p d keys)
  unfolding select_objects
  select_objects-Distinct [] a = tt
  select_objects-Distinct (l ∷ keys) a = elim (object_step l keys) [
    | inl e ↦ rw e (select_objects-Distinct keys a.1)
    | inr (plain, e) ↦ rw e (Missing-select_objects l keys a.0, select_objects-Distinct keys a.1)
  ]

  -- No key of these is rolled up.
  abbrev AllPlain : List Bytes → Type 0
  AllPlain [] = Unit
  AllPlain (k ∷ ks) = (common_prefix p d k ≡ none) × AllPlain ks

  select_objects-AllPlain : (keys : List Bytes) → AllPlain (select_objects p d keys)
  unfolding select_objects
  select_objects-AllPlain [] = tt
  select_objects-AllPlain (l ∷ keys) = elim (object_step l keys) [
    | inl e ↦ rw e (select_objects-AllPlain keys)
    | inr (plain, e) ↦ rw e (plain, select_objects-AllPlain keys)
  ]

  -- Each of these is rolled up into itself.
  abbrev AllRolled : List Bytes → Type 0
  AllRolled [] = Unit
  AllRolled (k ∷ ks) = (common_prefix p d k ≡ some k) × AllRolled ks

  AllRolled-add_once :
      (cp : Bytes) (ks : List Bytes)
      → common_prefix p d cp ≡ some cp
      → AllRolled ks
      → AllRolled (add_once cp ks)
  unfolding add_once
  AllRolled-add_once cp [] h a = (h, tt)
  AllRolled-add_once cp (k ∷ ks) h a = elim (Bool-cases (cp == k)) [
    | inl same ↦ rw same a
    | inr other ↦ rw other (a.0, AllRolled-add_once cp ks h a.1)
  ]

  select_prefixes-AllRolled : (keys : List Bytes) → AllRolled (select_prefixes p d keys)
  unfolding select_prefixes
  select_prefixes-AllRolled [] = tt
  select_prefixes-AllRolled (l ∷ keys) = elim (prefix_step l keys) [
    | inl e ↦ rw e (select_prefixes-AllRolled keys)
    | inr (cp, rolled, e) ↦ rw e (
        AllRolled-add_once cp (select_prefixes p d keys) (common_prefix_again p d l cp rolled)
          (select_prefixes-AllRolled keys))
  ]

  Missing-add_once :
      (k cp : Bytes) (ks : List Bytes)
      → (cp == k) ≡ false
      → Missing k ks
      → Missing k (add_once cp ks)
  unfolding add_once
  Missing-add_once k cp [] h a = (h, tt)
  Missing-add_once k cp (l ∷ ks) h a = elim (Bool-cases (cp == l)) [
    | inl same ↦ rw same a
    | inr other ↦ rw other (a.0, Missing-add_once k cp ks h a.1)
  ]

  add_once-Distinct : (cp : Bytes) (ks : List Bytes) → Distinct ks → Distinct (add_once cp ks)
  unfolding add_once
  add_once-Distinct cp [] a = (tt, tt)
  add_once-Distinct cp (l ∷ ks) a = elim (Bool-cases (cp == l)) [
    | inl same ↦ rw same a
    | inr other ↦ rw other (Missing-add_once l cp ks other a.0, add_once-Distinct cp ks a.1)
  ]

  select_prefixes-Distinct : (keys : List Bytes) → Distinct (select_prefixes p d keys)
  unfolding select_prefixes
  select_prefixes-Distinct [] = tt
  select_prefixes-Distinct (l ∷ keys) = elim (prefix_step l keys) [
    | inl e ↦ rw e (select_prefixes-Distinct keys)
    | inr (cp, rolled, e) ↦
        rw e (add_once-Distinct cp (select_prefixes p d keys) (select_prefixes-Distinct keys))
  ]

  plain_rolled :
      (k l : Bytes) → common_prefix p d k ≡ none → common_prefix p d l ≡ some l → (l == k) ≡ false
  plain_rolled k l h r = elim (Bool-cases (l == k)) [
    | inl same ↦ let e : l ≡ k = (list_test_iff l k).0 same in cc (h, r, e)
    | inr other ↦ other
  ]

  Absent-prefixes :
      (k : Bytes) (ps : List Bytes)
      → common_prefix p d k ≡ none
      → AllRolled ps
      → Absent k (map prefix_item ps)
  Absent-prefixes k [] h a = tt
  Absent-prefixes k (l ∷ ps) h a = (plain_rolled k l h a.0, Absent-prefixes k ps h a.1)

  Absent-objects :
      (k : Bytes) (os ps : List Bytes)
      → Missing k os
      → Absent k (map prefix_item ps)
      → Absent k (map object_item os ++ map prefix_item ps)
  Absent-objects k [] ps m a = a
  Absent-objects k (o ∷ os) ps m a = (m.0, Absent-objects k os ps m.1 a)

  Missing-prefixes : (k : Bytes) (ps : List Bytes) → Missing k ps → Absent k (map prefix_item ps)
  Missing-prefixes k [] a = tt
  Missing-prefixes k (l ∷ ps) a = (a.0, Missing-prefixes k ps a.1)

  AllDistinct-prefixes : (ps : List Bytes) → Distinct ps → AllDistinct (map prefix_item ps)
  AllDistinct-prefixes [] a = tt
  AllDistinct-prefixes (l ∷ ps) a = (Missing-prefixes l ps a.0, AllDistinct-prefixes ps a.1)

  AllDistinct-entries :
      (os ps : List Bytes)
      → Distinct os
      → AllPlain os
      → Distinct ps
      → AllRolled ps
      → AllDistinct (map object_item os ++ map prefix_item ps)
  AllDistinct-entries [] ps a b c r = AllDistinct-prefixes ps c
  AllDistinct-entries (o ∷ os) ps a b c r = (
    Absent-objects o os ps a.0 (Absent-prefixes o ps b.0 r),
    AllDistinct-entries os ps a.1 b.1 c r,
  )

-- When the walk meets no key twice, the entries of a listing, objects and common prefixes
-- together, are in strictly ascending order: none is listed twice, and no prefix is also an object.
pub merged-Ascending :
    (prefix delimiter : Bytes) (files : List Bytes)
    → Distinct files
    → Ascending (merged prefix delimiter files)
unfolding merged
merged-Ascending prefix delimiter files a =
    let keys = collect files in
    sort_items-Ascending _ (
      AllDistinct-entries prefix delimiter (select_objects prefix delimiter keys)
        (select_prefixes prefix delimiter keys)
        (select_objects-Distinct prefix delimiter keys (collect-Distinct files a))
        (select_objects-AllPlain prefix delimiter keys)
        (select_prefixes-Distinct prefix delimiter keys)
        (select_prefixes-AllRolled prefix delimiter keys))

rolled_some : (p d : Bytes) (l : Bytes) → common_prefix p d l ≡ some l → (l == []) ≡ false
unfolding common_prefix up_to has_prefix
rolled_some p [] l h = cc h
rolled_some p (c ∷ d) (b ∷ l) h = refl
rolled_some [] (c ∷ d) [] h = cc h
rolled_some (a ∷ p) (c ∷ d) [] h = cc h

rolled_named : (p d : Bytes) (ps : List Bytes) → AllRolled p d ps → Missing [] ps
rolled_named p d [] a = tt
rolled_named p d (l ∷ ps) a = (rolled_some p d l a.0, rolled_named p d ps a.1)

-- No entry has an empty key when no file has.
pub merged_named :
    (prefix delimiter : Bytes) (files : List Bytes)
    → Missing [] files
    → Absent [] (merged prefix delimiter files)
unfolding merged
merged_named prefix delimiter files a =
    let keys = collect files in
    let prefixes = select_prefixes prefix delimiter keys in
    Absent-sort_items [] _ (
      Absent-objects prefix delimiter [] (select_objects prefix delimiter keys) prefixes
        (Missing-select_objects prefix delimiter [] keys (Missing-collect [] files a))
        (Missing-prefixes prefix delimiter [] prefixes (
          rolled_named prefix delimiter prefixes
            (select_prefixes-AllRolled prefix delimiter keys))))
