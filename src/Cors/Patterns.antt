-- ===== src/Cors/Patterns.antt =====
-- What the patterns of a CORS rule match (internal/middleware/bucket_cors.go).
use byte_bucket.Prelude.{
  ℕ, suc, ◌+◌, ◌≤◌, Bool, true, false, ◌&&◌, List, [], ◌∷◌, ◌++◌, Option, none, some, ◌⊎◌, inl, inr,
  ◌==◌, ==_refl, nat_equality, list_equality, list_test_iff, nat_beq_iff, ltb_false→le,
  le→ltb_false, length, ◌≡◌, refl, sym, ap, ◌∙◌, Bool-cases, Option-cases, arith,
}
use byte_bucket.Bytes.{Bytes, has_prefix, has_suffix, cut}
use byte_bucket.Cors.{around, match_list}
use mathlib.Core.List.{reverse, reverse-append, reverse-reverse, append_assoc}
use mathlib.Core.Option.{some-injective}

first_part : (c y : ℕ) (p : Bool) → (c == y && p) ≡ true → (c ≡ y) × (p ≡ true)
first_part c y p h = (ground arith, ground arith)

prefix_split : (s p : Bytes) → has_prefix s p ≡ true → (t : Bytes) × (s ≡ p ++ t)
unfolding has_prefix
prefix_split s [] h = (s, refl)
prefix_split [] (y ∷ p) h = cc h
prefix_split (c ∷ s) (y ∷ p) h =
    let (same, more) = first_part c y (has_prefix s p) h in
    let (t, e) = prefix_split s p more in (t, ap (λ (z : ℕ). z ∷ s) same ∙ ap (◌∷◌ y) e)

prefix_append : (p t : Bytes) → has_prefix (p ++ t) p ≡ true
unfolding has_prefix
prefix_append [] t = refl
prefix_append (y ∷ p) t = rw (==_refl y) (prefix_append p t)

suffix_split : (s q : Bytes) → has_suffix s q ≡ true → (u : Bytes) × (s ≡ u ++ q)
unfolding has_suffix
suffix_split s q h =
    let (t, e) = prefix_split (reverse s) (reverse q) h in
    (
      reverse t,
      sym (reverse-reverse s)
          ∙ ap reverse e
          ∙ reverse-append (reverse q) t
          ∙ ap (◌++◌ (reverse t)) (reverse-reverse q),
    )

suffix_append : (u q : Bytes) → has_suffix (u ++ q) q ≡ true
unfolding has_suffix
suffix_append u q = rw (reverse-append u q) (prefix_append (reverse q) (reverse u))

length_join : (xs ys : Bytes) → length (xs ++ ys) ≡ length xs + length ys
length_join [] ys = omega arith
length_join (x ∷ xs) ys = omega (arith, length_join xs ys)

tail_of : Bytes → Bytes
tail_of [] = []
tail_of (c ∷ s) = s

-- What starts with `p` and ends with `q`, and has room for both.
middle : (p t u q : Bytes) → p ++ t ≡ u ++ q → length q ≤ length t → (m : Bytes) × (t ≡ m ++ q)
unfolding tail_of
middle [] t u q e h = (u, e)
middle (c ∷ p) t [] q e h =
    let size : suc (length (p ++ t)) ≡ length q = ap (λ (s : Bytes). length s) e in
    absurd (omega (arith, size, length_join p t, h))
middle (c ∷ p) t (d ∷ u) q e h = middle p t u q (ap tail_of e) h

-- `a` is `s` itself, or has its first star where `s` has any text.
abbrev pub NoStar : Bytes → Type 0
NoStar [] = Unit
NoStar (c ∷ s) = ((c == b'*') ≡ false) × NoStar s

pub record IsStar (a s : Bytes) : Type 0 where
  pub before : Bytes
  pub middle : Bytes
  pub after : Bytes
  pub plain : NoStar before
  pub pattern_is : a ≡ before ++ (b'*' ∷ after)
  pub text_is : s ≡ before ++ (middle ++ after)

abbrev pub Covered : List Bytes → Bytes → Type 0
Covered [] s = ⊥
Covered (a ∷ allowed) s = (a ≡ s) ⊎ (IsStar a s ⊎ Covered allowed s)

abbrev put_first : ℕ → Option (Bytes × Bytes) → Option (Bytes × Bytes)
put_first c o = elim o [ none ↦ none | some (before, after) ↦ some (c ∷ before, after) ]

later_cut :
    (c : ℕ) (o : Option (Bytes × Bytes)) (x y : Bytes)
    → put_first c o ≡ some (x, y)
    → (w : Bytes) × (o ≡ some (w, y)) × (x ≡ c ∷ w)
later_cut c none x y h = cc h
later_cut c (some (before, after)) x y h =
    let e : ◌≡◌ {A = Bytes × Bytes} (c ∷ before, after) (x, y) = some-injective _ _ h in
    (
      before,
      ap (λ (z : Bytes). some (before, z)) (ap (λ (q : Bytes × Bytes). q.1) e),
      sym (ap (λ (q : Bytes × Bytes). q.0) e),
    )

cut-some : (a x y : Bytes) → cut b'*' a ≡ some (x, y) → NoStar x × (a ≡ x ++ (b'*' ∷ y))
unfolding cut
cut-some [] x y h = cc h
cut-some (c ∷ a) x y h = elim (Bool-cases (c == b'*')) [
  | inl star ↦
      let e : ◌≡◌ {A = Bytes × Bytes} ([], a) (x, y) = some-injective _ _ (rw star at h) in
      let none_before : [] ≡ x = ap (λ (q : Bytes × Bytes). q.0) e in
      let same : a ≡ y = ap (λ (q : Bytes × Bytes). q.1) e in
      rw (← none_before) (
        tt,
        ap (λ (z : ℕ). z ∷ a) ((nat_beq_iff c b'*').0 star) ∙ ap (λ (z : Bytes). b'*' ∷ z) same,
      )
  | inr char ↦
      let (w, found, e) = later_cut c (cut b'*' a) x y (rw char at h) in
      let (plain, whole) = cut-some a w y found in rw e ((char, plain), ap (◌∷◌ c) whole)
]

cut_star : (x y : Bytes) → NoStar x → cut b'*' (x ++ (b'*' ∷ y)) ≡ some (x, y)
unfolding cut
cut_star [] y h = refl
cut_star (c ∷ x) y h = rw (h.0, cut_star x y h.1) refl

around_parts :
    (s x y : Bytes)
    → around s (some (x, y)) ≡ true
    → (length x + length y ≤ length s) × (has_prefix s x ≡ true) × (has_suffix s y ≡ true)
unfolding around
around_parts s x y h =
    (ground (arith, ltb_false→le (length s) (length x + length y)), ground arith, ground arith)

around-IsStar : (a s : Bytes) → around s (cut b'*' a) ≡ true → IsStar a s
unfolding around
around-IsStar a s h = elim (Option-cases (cut b'*' a)) [
  | inl plain ↦ absurd (cc (rw plain at h))
  | inr ((x, y), found) ↦
      let (room, starts, ends) = around_parts s x y (rw found at h) in
      let (t, split) = prefix_split s x starts in
      let (u, whole) = suffix_split s y ends in
      let size : length s ≡ length (x ++ t) = ap (λ (z : Bytes). length z) split in
      let (m, e) =
        middle x t u y (sym split ∙ whole) (omega (arith, room, size, length_join x t)) in
      let (plain, pattern) = cut-some a x y found in
      record {
        before = x;
        middle = m;
        after = y;
        plain = plain;
        pattern_is = pattern;
        text_is = split ∙ ap (◌++◌ x) e;
      }
]

IsStar-around : (a s : Bytes) → IsStar a s → around s (cut b'*' a) ≡ true
unfolding around
IsStar-around a s v =
    let starts : has_prefix s v.before ≡ true =
      ap (λ (z : Bytes). has_prefix z v.before) v.text_is
      ∙ prefix_append v.before (v.middle ++ v.after) in
    let regrouped : s ≡ (v.before ++ v.middle) ++ v.after =
      v.text_is ∙ sym (append_assoc v.before v.middle v.after) in
    let ends : has_suffix s v.after ≡ true =
      ap (λ (z : Bytes). has_suffix z v.after) regrouped
      ∙ suffix_append (v.before ++ v.middle) v.after in
    let size : length s ≡ length (v.before ++ (v.middle ++ v.after)) =
      ap (λ (z : Bytes). length z) v.text_is in
    let room = le→ltb_false (length s) (length v.before + length v.after) (
      omega
        (arith, size, length_join v.before (v.middle ++ v.after), length_join v.middle v.after)) in
    let found : cut b'*' a ≡ some (v.before, v.after) =
      ap (cut b'*') v.pattern_is ∙ cut_star v.before v.after v.plain in
    rw found (rw (room, starts, ends) refl)

-- A list of patterns matches a text just when one of them is the text itself, or is the text with
-- some part of it, an empty one too, replaced by the first star of the pattern.
pub match_list_iff :
    (allowed : List Bytes) (s : Bytes)
    → (match_list allowed s ≡ true → Covered allowed s)
      × (Covered allowed s → match_list allowed s ≡ true)
unfolding match_list
match_list_iff [] s = ((λ h. cc h), (λ h. absurd h))
match_list_iff (a ∷ allowed) s = elim (Bool-cases (a == s)) [
  | inl same ↦ ((λ h. inl ((list_test_iff a s).0 same)), (λ c. rw same refl))
  | inr other ↦ elim (Bool-cases (around s (cut b'*' a))) [
    | inl star ↦ ((λ h. inr (inl (around-IsStar a s star))), (λ c. rw (other, star) refl))
    | inr apart ↦ (
      (λ h. inr (inr ((match_list_iff allowed s).0 (rw (other, apart) at h)))),
      (λ c.
          rw (other, apart)
            (elim c [
              | inl e ↦ absurd (cc (sym other ∙ (list_test_iff a s).1 e))
              | inr (inl v) ↦ absurd (cc (sym apart ∙ IsStar-around a s v))
              | inr (inr later) ↦ (match_list_iff allowed s).1 later
            ])),
    )
  ]
]
