-- ===== src/Path/Tests.antt =====
-- Joins at concrete names.
use byte_bucket.Prelude.{List, [], ◌∷◌, ◌++◌, none, some, true, ◌≡◌, ◌≢◌, refl}
use byte_bucket.Path.Render.{AllProper}
use byte_bucket.Bytes.{Bytes, bytes, slash, split}
use byte_bucket.Path.{
  safe_join, join, render, push, push_all, up, is_abs, clean, is_local, join_path, has_dots,
}
use byte_bucket.Path.Joining.{safe_join-below}

safe_join-inside :
    safe_join (bytes "/data/objects") (bytes "a" ∷ bytes "b/../c" ∷ [])
    ≡ some (bytes "/data/objects/a/c")
unfolding safe_join join render push push_all up is_abs clean is_local join_path has_dots split
safe_join-inside = refl

safe_join-outside : safe_join (bytes "/data/objects") (bytes "a" ∷ bytes "b/../../c" ∷ []) ≡ none
unfolding safe_join join render push push_all up is_abs clean is_local join_path has_dots split
safe_join-outside = refl

pub not_the_root : clean (bytes "/data/objects") ≢ slash ∷ []
unfolding clean join render push push_all up is_abs split
not_the_root = λ p. cc p

pub absolute : is_abs (bytes "/data/objects") ≡ true
unfolding is_abs
absolute = refl

safe_join-below_example :
    (segments : List Bytes) × (bytes "/data/objects/a/c"
      ≡ clean (bytes "/data/objects") ++ (slash ∷ join segments))
    × AllProper segments
    × (segments ≢ [])
safe_join-below_example =
    safe_join-below (bytes "/data/objects") (bytes "a") (bytes "b/../c" ∷ [])
      (bytes "/data/objects/a/c") absolute not_the_root safe_join-inside

pub upload_path :
    safe_join (bytes "/data/uploads") (bytes "b" ∷ bytes "id" ∷ [])
    ≡ some (bytes "/data/uploads/b/id")
unfolding safe_join join render push push_all up is_abs clean is_local join_path has_dots split
upload_path = refl

pub object_path :
    safe_join (bytes "/data/objects") (bytes "b" ∷ bytes "k" ∷ [])
    ≡ some (bytes "/data/objects/b/k")
unfolding safe_join join render push push_all up is_abs clean is_local join_path has_dots split
object_path = refl
