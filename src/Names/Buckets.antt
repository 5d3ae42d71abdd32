-- ===== src/Names/Buckets.antt =====
-- Which bucket names pass the validation (internal/storage/names.go).
use byte_bucket.Prelude.{
  ℕ, Bool, true, false, ◌&&◌, not, [], ◌∷◌, ◌==◌, nat_equality, list_equality, if◌then◌else◌, ◌≡◌,
  ◌≤◌, refl, ltb, length, ltb_false→le, le→ltb_false, suc, arith, Bool-cases, inl, inr, ◌↔◌,
}
use mathlib.Core.Bool.{false≢true}
use byte_bucket.Bytes.{Bytes, slash}
use byte_bucket.Path.Render.{NoSlash, IsProper}
use byte_bucket.Names.{hyphen, is_label_byte, scan_name, validate_bucket_name}

-- The language of the expression, by its grammar: labels of one or more bytes, with single
-- hyphens between them.
pub data IsLabels : Bytes → Type 0 where
  last_byte : (c : ℕ) → is_label_byte c ≡ true → IsLabels (c ∷ [])
  more : (c : ℕ) (s : Bytes) → is_label_byte c ≡ true → IsLabels s → IsLabels (c ∷ s)
  next_label : (c : ℕ) (s : Bytes) → is_label_byte c ≡ true → IsLabels s → IsLabels (c ∷ hyphen ∷ s)

IsLabels-scan : (b : Bool) (s : Bytes) → IsLabels s → scan_name b s ≡ true
unfolding scan_name
IsLabels-scan b _ (last_byte c h) = ground arith
IsLabels-scan b _ (more c s h rest) = rw h (IsLabels-scan true s rest)
IsLabels-scan b _ (next_label c s h rest) = rw h (IsLabels-scan false s rest)

hyphen_follows :
    (d : ℕ) (x : Bool)
    → (if true && d == hyphen then x else false) ≡ true
    → (d ≡ hyphen) × (x ≡ true)
hyphen_follows d x h = ground arith

label_follows :
    (a x : Bool) → (if a then x else if false then x else false) ≡ true → (a ≡ true) × (x ≡ true)
label_follows a x h = ground arith

one_more :
    (c d : ℕ) (s : Bytes) → is_label_byte c ≡ true → d ≡ hyphen → IsLabels s → IsLabels (c ∷ d ∷ s)
one_more c d s h p rest = rw p (next_label c s h rest)

scan→IsLabels :
    (c : ℕ) (s : Bytes) → is_label_byte c ≡ true → scan_name true s ≡ true → IsLabels (c ∷ s)
unfolding scan_name
scan→IsLabels c [] h k = last_byte c h
scan→IsLabels c (d ∷ []) h k = elim (Bool-cases (is_label_byte d)) [
  | inl label ↦ more c (d ∷ []) h (last_byte d label)
  | inr other ↦ absurd (false≢true (hyphen_follows d false (rw other at k)).1)
]
scan→IsLabels c (d ∷ e ∷ s) h k = elim (Bool-cases (is_label_byte d)) [
  | inl label ↦ more c (d ∷ e ∷ s) h (scan→IsLabels d (e ∷ s) label (rw label at k))
  | inr other ↦
      let (sep, rest) = hyphen_follows d (scan_name false (e ∷ s)) (rw other at k) in
      let (label, tail) = label_follows (is_label_byte e) (scan_name true s) rest in
      one_more c d (e ∷ s) h sep (scan→IsLabels e s label tail)
]

scan_start→IsLabels : (s : Bytes) → scan_name false s ≡ true → IsLabels s
unfolding scan_name
scan_start→IsLabels [] h = absurd (false≢true h)
scan_start→IsLabels (c ∷ s) h = elim (Bool-cases (is_label_byte c)) [
  | inl label ↦ scan→IsLabels c s label (rw label at h)
  | inr other ↦ absurd (false≢true (rw other at h))
]

guards :
    (long m : Bool)
    → (if long then false else if not m then false else true) ≡ true
    → (long ≡ false) × (m ≡ true)
guards long m h = ground arith

passes :
    (long m : Bool)
    → long ≡ false
    → m ≡ true
    → (if long then false else if not m then false else true) ≡ true
passes long m h k = ground arith

no_empty_name : IsLabels [] → false ≡ true
no_empty_name labels = unfold scan_name in IsLabels-scan false [] labels

-- A bucket name is valid just when it has at most 63 bytes and is one or more labels of `a` to `z`
-- and `0` to `9` with single hyphens between them.
pub validate_bucket_name_iff :
    (name : Bytes) → (validate_bucket_name name ≡ true) ↔ (IsLabels name × (length name ≤ 63))
unfolding validate_bucket_name
validate_bucket_name_iff [] = ((λ h. absurd (false≢true h)), (λ x. no_empty_name x.0))
validate_bucket_name_iff (c ∷ s) = (
  (λ h.
      let (short, match) = guards (ltb 63 (suc (length s))) (scan_name false (c ∷ s)) h in
      (scan_start→IsLabels (c ∷ s) match, omega (arith, ltb_false→le 63 (suc (length s)) short))),
  (λ x. passes _ _ (le→ltb_false 63 (suc (length s)) x.1) (IsLabels-scan false (c ∷ s) x.0)),
)

label_byte-not_slash : (c : ℕ) → is_label_byte c ≡ true → (c == slash) ≡ false
label_byte-not_slash c h = ground arith

label_byte-not_dot : (c : ℕ) → is_label_byte c ≡ true → (c == b'.') ≡ false
label_byte-not_dot c h = ground arith

IsLabels-NoSlash : (s : Bytes) → IsLabels s → NoSlash s
IsLabels-NoSlash _ (last_byte c h) = (label_byte-not_slash c h, tt)
IsLabels-NoSlash _ (more c s h rest) = (label_byte-not_slash c h, IsLabels-NoSlash s rest)
IsLabels-NoSlash _ (next_label c s h rest) =
    (label_byte-not_slash c h, (refl, IsLabels-NoSlash s rest))

IsProper-start : (c : ℕ) (s : Bytes) → is_label_byte c ≡ true → NoSlash (c ∷ s) → IsProper (c ∷ s)
IsProper-start c s h n = record {
  some_name = refl;
  not_dot = rw (label_byte-not_dot c h) refl;
  not_dot_dot = rw (label_byte-not_dot c h) refl;
  no_slash = n;
}

IsLabels-IsProper : (s : Bytes) → IsLabels s → IsProper s
IsLabels-IsProper _ (last_byte c h) = IsProper-start c [] h (IsLabels-NoSlash _ (last_byte c h))
IsLabels-IsProper _ (more c s h rest) = IsProper-start c s h (IsLabels-NoSlash _ (more c s h rest))
IsLabels-IsProper _ (next_label c s h rest) =
    IsProper-start c (hyphen ∷ s) h (IsLabels-NoSlash _ (next_label c s h rest))

pub bucket-IsProper : (name : Bytes) → validate_bucket_name name ≡ true → IsProper name
bucket-IsProper name h = IsLabels-IsProper name ((validate_bucket_name_iff name).0 h).0
