-- ===== src/Listing/Visible.antt =====
-- Every object that a client may store is listed, and keeps its bucket from being deleted
-- (internal/handlers/bucket.go, internal/storage/names.go).
use byte_bucket.Prelude.{
  Bool, false, List, [], ◌∷◌, ◌++◌, some, nat_equality, list_equality, ◌≡◌, refl, subst, ap, ◌∙◌,
  Bool-cases, inl, inr,
}
use byte_bucket.Bytes.{Bytes, slash, split}
use byte_bucket.Names.{validate_object_key}
use byte_bucket.Names.Keys.{IsPlain, AllPlain, key-AllPlain}
use byte_bucket.Path.Render.{split-cons}
use byte_bucket.Listing.{is_sidecar, last_segment, base_name, collect, bucket_is_empty}

IsPlain-not_sidecar : (s : Bytes) → IsPlain s → is_sidecar s ≡ false
unfolding is_sidecar
IsPlain-not_sidecar s p = rw (p.no_meta, p.no_tags, p.no_cors, p.no_acl) refl

AllPlain-last_segment :
    (s : Bytes) (ss : List Bytes) → AllPlain (s ∷ ss) → IsPlain (last_segment (s ∷ ss))
unfolding last_segment
AllPlain-last_segment s [] p = p.0
AllPlain-last_segment s (t ∷ ss) p = AllPlain-last_segment t ss p.1

AllPlain-base_name : (key : Bytes) → AllPlain (split slash key) → is_sidecar (base_name key) ≡ false
unfolding base_name
AllPlain-base_name key p =
    let (s, ss, parts) = split-cons key in
    ap (λ ts. is_sidecar (last_segment ts)) parts
    ∙ IsPlain-not_sidecar (last_segment (s ∷ ss))
        (AllPlain-last_segment s ss (subst AllPlain parts p))

collect-append_plain :
    (xs : List Bytes) (key : Bytes) (ys : List Bytes)
    → is_sidecar (base_name key) ≡ false
    → collect (xs ++ (key ∷ ys)) ≡ collect xs ++ (key ∷ collect ys)
unfolding collect
collect-append_plain [] key ys h = rw h refl
collect-append_plain (x ∷ xs) key ys h = elim (Bool-cases (is_sidecar (base_name x))) [
  | inl hidden ↦ rw hidden (collect-append_plain xs key ys h)
  | inr shown ↦ rw shown (ap (◌∷◌ x) (collect-append_plain xs key ys h))
]

empty-append_plain :
    (xs : List Bytes) (key : Bytes) (ys : List Bytes)
    → is_sidecar (base_name key) ≡ false
    → bucket_is_empty (xs ++ (key ∷ ys)) ≡ false
unfolding bucket_is_empty
empty-append_plain [] key ys h = rw h refl
empty-append_plain (x ∷ xs) key ys h = elim (Bool-cases (is_sidecar (base_name x))) [
  | inl hidden ↦ rw hidden (empty-append_plain xs key ys h)
  | inr shown ↦ rw shown refl
]

-- Wherever the walk meets the file of a key that passed the validation, the listing collects it,
-- in its place among the others, and the bucket does not count as empty.
pub collect-validate_object_key :
    (valid : Bytes → Bool) (key out : Bytes) (before after : List Bytes)
    → validate_object_key valid key ≡ some out
    → (collect (before ++ (out ∷ after)) ≡ collect before ++ (out ∷ collect after))
      × (bucket_is_empty (before ++ (out ∷ after)) ≡ false)
collect-validate_object_key valid key out before after h =
    let shown = AllPlain-base_name out (key-AllPlain valid key out h) in
    (collect-append_plain before out after shown, empty-append_plain before out after shown)
