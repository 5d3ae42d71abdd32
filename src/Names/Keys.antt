-- ===== src/Names/Keys.antt =====
-- What the validation of object keys lets through, and that it is stored inside its bucket
-- (internal/storage/names.go).
use byte_bucket.Bytes.{has_suffix, bytes}
use byte_bucket.Path.{dot, dot_dot}
use byte_bucket.Names.{is_member, ends_with_one_of}
use byte_bucket.Prelude.{
  Bool, true, false, ◌||◌, not, List, [], ◌∷◌, ◌++◌, none, some, ◌==◌, nat_equality, list_equality,
  if◌then◌else◌, ◌≡◌, ◌≢◌, sym, ap, subst, ◌∙◌, arith,
}
use byte_bucket.Bytes.{Bytes, slash, split, trim_prefix}
use byte_bucket.Path.{join, safe_join, is_abs, clean}
use byte_bucket.Path.Render.{
  NoSlash, IsProper, AllProper, AllNoSlash, AllNoSlash-split, join-split, split-cons,
}
use byte_bucket.Path.Proper.{joined_key}
use byte_bucket.Names.{
  segment_is_safe, all_safe, has_control, validate_object_key, validate_bucket_name,
}
use byte_bucket.Names.Buckets.{bucket-IsProper}

not_relative :
    (a b c x y : Bool)
    → (if a || b || c then false else if x then false else if y then false else true) ≡ true
    → (a ≡ false) × (b ≡ false) × (c ≡ false)
not_relative a b c x y h = ground arith

safe-IsProper : (s : Bytes) → segment_is_safe s ≡ true → NoSlash s → IsProper s
unfolding segment_is_safe
safe-IsProper s h n =
    let (named, other, proper) = not_relative _ _ _ _ _ h in
    record { some_name = named; not_dot = other; not_dot_dot = proper; no_slash = n }

all_safe_step : (a x : Bool) → (if not a then false else x) ≡ true → (a ≡ true) × (x ≡ true)
all_safe_step a x h = ground arith

AllSafe-AllProper : (ss : List Bytes) → all_safe ss ≡ true → AllNoSlash ss → AllProper ss
unfolding all_safe
AllSafe-AllProper [] h n = tt
AllSafe-AllProper (s ∷ ss) h n =
    let (safe, rest) = all_safe_step _ _ h in
    (safe-IsProper s safe n.0, AllSafe-AllProper ss rest n.1)

key_guards :
    (a b c d e : Bool) (v out : Bytes)
    → (if a
        then none
        else if b
        then none
        else if not c
        then none
        else if d
        then none
        else if not e
        then none
        else some v)
      ≡ some out
    → (b ≡ false) × (c ≡ true) × (e ≡ true) × (v ≡ out)
key_guards a b c d e v out h = ground arith

record Accepted (valid : Bytes → Bool) (key out : Bytes) : Type 0 where
  no_control : has_control key ≡ false
  is_utf8 : valid key ≡ true
  stripped : trim_prefix key (slash ∷ []) ≡ out
  safe : all_safe (split slash out) ≡ true

accepted :
    (valid : Bytes → Bool) (key out : Bytes)
    → validate_object_key valid key ≡ some out
    → Accepted valid key out
unfolding validate_object_key
accepted valid key out h =
    let clean = trim_prefix key (slash ∷ []) in
    let (control, utf8, safe, same) =
      key_guards (key == []) (has_control key) (valid key) (clean == [])
        (all_safe (split slash clean)) clean out h in
    record {
      no_control = control;
      is_utf8 = utf8;
      stripped = same;
      safe = subst (λ v. all_safe (split slash v) ≡ true) same safe;
    }

key-AllProper :
    (valid : Bytes → Bool) (key out : Bytes)
    → validate_object_key valid key ≡ some out
    → AllProper (split slash out)
key-AllProper valid key out h =
    AllSafe-AllProper (split slash out) (accepted valid key out h).safe (AllNoSlash-split out)

-- An object key and a bucket name that pass the validation always resolve, to the file that has
-- the key, as the validation returned it, as its path below the bucket's directory.
pub validate_object_key-safe_join :
    (valid : Bytes → Bool) (base name key out : Bytes)
    → is_abs base ≡ true
    → clean base ≢ slash ∷ []
    → validate_bucket_name name ≡ true
    → validate_object_key valid key ≡ some out
    → safe_join base (name ∷ out ∷ []) ≡ some ((clean base ++ (slash ∷ name)) ++ (slash ∷ out))
validate_object_key-safe_join valid base name key out a root bucket h =
    let (s, ss, parts) = split-cons out in
    let whole : join (s ∷ ss) ≡ out = ap join (sym parts) ∙ join-split out in
    subst
      (λ k. safe_join base (name ∷ k ∷ []) ≡ some ((clean base ++ (slash ∷ name)) ++ (slash ∷ k)))
      whole
      (joined_key base name s ss a root (bucket-IsProper name bucket)
        (subst AllProper parts (key-AllProper valid key out h)))

-- A segment that is the name of no sidecar.
pub record IsPlain (s : Bytes) : Type 0 where
  pub no_meta : has_suffix s (bytes ".meta") ≡ false
  pub no_tags : has_suffix s (bytes ".tags.json") ≡ false
  pub no_cors : (s == bytes ".cors.json") ≡ false
  pub no_acl : (s == bytes ".acl.json") ≡ false

abbrev pub AllPlain : List Bytes → Type 0
AllPlain [] = Unit
AllPlain (s ∷ ss) = IsPlain s × AllPlain ss

not_reserved :
    (a x y : Bool)
    → (if a then false else if x then false else if y then false else true) ≡ true
    → (x ≡ false) × (y ≡ false)
not_reserved a x y h = ground arith

neither : (a b : Bool) → (a || (b || false)) ≡ false → (a ≡ false) × (b ≡ false)
neither a b h = ground arith

safe-IsPlain : (s : Bytes) → segment_is_safe s ≡ true → IsPlain s
unfolding segment_is_safe is_member ends_with_one_of
safe-IsPlain s h =
    let (member, suffix) = not_reserved (s == [] || s == dot || s == dot_dot) _ _ h in
    let (acl, cors) = neither (s == bytes ".acl.json") (s == bytes ".cors.json") member in
    let (meta, tags) =
      neither (has_suffix s (bytes ".meta")) (has_suffix s (bytes ".tags.json")) suffix in
    record { no_meta = meta; no_tags = tags; no_cors = cors; no_acl = acl }

AllSafe-AllPlain : (ss : List Bytes) → all_safe ss ≡ true → AllPlain ss
unfolding all_safe
AllSafe-AllPlain [] h = tt
AllSafe-AllPlain (s ∷ ss) h =
    let (safe, rest) = all_safe_step _ _ h in (safe-IsPlain s safe, AllSafe-AllPlain ss rest)

pub key-AllPlain :
    (valid : Bytes → Bool) (key out : Bytes)
    → validate_object_key valid key ≡ some out
    → AllPlain (split slash out)
key-AllPlain valid key out h = AllSafe-AllPlain (split slash out) (accepted valid key out h).safe
