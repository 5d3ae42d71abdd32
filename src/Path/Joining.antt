-- ===== src/Path/Joining.antt =====
-- What `SafeJoin` of internal/storage/names.go returns: a path strictly below its base.
use byte_bucket.Prelude.{
  true, false, List, [], ◌∷◌, ◌++◌, some, ◌==◌, nat_equality, list_equality, ◌≡◌, ◌≢◌, refl, sym,
  ap, ◌∙◌, Bool-cases, inl, inr,
}
use byte_bucket.Bytes.{Bytes, slash}
use byte_bucket.Path.{dot, join, render, is_abs, clean, is_local, join_path, safe_join}
use byte_bucket.Path.Render.{AllProper, AllProper-reverse, stack_of, join-append}
use byte_bucket.Path.Containment.{
  below, join_path-render, below-AllProper, below-ne-nil, clean_abs, step_below, AllProper-append,
  reverse-ne-nil,
}
use mathlib.Core.List.{reverse, reverse-append, append_assoc}
use mathlib.Core.Option.{some-injective}

safe_join_step :
    (base n : Bytes) (names : List Bytes) (p : Bytes)
    → safe_join base (n ∷ names) ≡ some p
    → (is_local n ≡ true)
      × ((clean n == dot) ≡ false)
      × (safe_join (join_path base n) names ≡ some p)
unfolding safe_join
safe_join_step base n names p h = elim (Bool-cases (is_local n)) [
  | inr far ↦ absurd (cc (rw far at h))
  | inl near ↦ elim (Bool-cases (clean n == dot)) [
    | inl here ↦ absurd (cc (rw (near, here) at h))
    | inr there ↦ (near, there, rw (near, there) at h)
  ]
]

append-ne-nil : (xs ys : List Bytes) → ys ≢ [] → xs ++ ys ≢ []
append-ne-nil [] ys h = h
append-ne-nil (x ∷ xs) ys h = λ p. cc p

-- The segments that the names add to those of the base.
added :
    (base n : Bytes) (names : List Bytes) (p : Bytes)
    → is_abs base ≡ true
    → safe_join base (n ∷ names) ≡ some p
    → (new : List Bytes) × (p ≡ render true (new ++ stack_of base)) × AllProper new × (new ≢ [])
added base n [] p a h =
    let (near, there, rest) = safe_join_step base n [] p h in
    let same : join_path base n ≡ p = some-injective _ _ (unfold safe_join in rest) in
    (
      below n,
      sym same ∙ join_path-render base n a near,
      below-AllProper n near,
      below-ne-nil n near there,
    )
added base n (m ∷ names) p a h =
    let (near, there, rest) = safe_join_step base n (m ∷ names) p h in
    let (abs, stack) = step_below base n a near in
    let (new, path, proper, some_new) = added (join_path base n) m names p abs rest in
    (
      new ++ below n,
      path
          ∙ ap (render true)
              (ap (◌++◌ new) stack ∙ sym (append_assoc new (below n) (stack_of base))),
      AllProper-append new (below n) proper (below-AllProper n near),
      append-ne-nil new (below n) (below-ne-nil n near there),
    )

pub join-append_ne :
    (xs ys : List Bytes) → xs ≢ [] → ys ≢ [] → join (xs ++ ys) ≡ join xs ++ (slash ∷ join ys)
join-append_ne [] ys h k = absurd (h refl)
join-append_ne (x ∷ xs) [] h k = absurd (k refl)
join-append_ne (x ∷ xs) (y ∷ ys) h k = join-append x xs y ys

pub reverse-ne : (xs : List Bytes) → xs ≢ [] → reverse xs ≢ []
reverse-ne [] h = absurd (h refl)
reverse-ne (x ∷ xs) h = reverse-ne-nil x xs

pub render-append :
    (new stack : List Bytes)
    → new ≢ []
    → stack ≢ []
    → render true (new ++ stack) ≡ render true stack ++ (slash ∷ join (reverse new))
unfolding render
render-append new stack h k =
    ap (λ (r : Bytes). slash ∷ r)
      (ap join (reverse-append new stack)
        ∙ join-append_ne (reverse stack) (reverse new) (reverse-ne stack k) (reverse-ne new h))

pub not_root : (base : Bytes) → is_abs base ≡ true → clean base ≢ slash ∷ [] → stack_of base ≢ []
unfolding render join
not_root base a h p = h (clean_abs base a ∙ ap (render true) p)

-- Under an absolute base other than the root, a join of one or more names either fails or is the
-- cleaned base, a slash, and one or more proper segments: none of them empty, `.`, `..` or with a
-- slash in it.
pub safe_join-below :
    (base n : Bytes) (names : List Bytes) (p : Bytes)
    → is_abs base ≡ true
    → clean base ≢ slash ∷ []
    → safe_join base (n ∷ names) ≡ some p
    → (segments : List Bytes) × (p ≡ clean base ++ (slash ∷ join segments))
      × AllProper segments
      × (segments ≢ [])
safe_join-below base n names p a root h =
    let (new, path, proper, some_new) = added base n names p a h in
    (
      reverse new,
      path
          ∙ render-append new (stack_of base) some_new (not_root base a root)
          ∙ ap (λ (r : Bytes). r ++ (slash ∷ join (reverse new))) (sym (clean_abs base a)),
      AllProper-reverse new proper,
      reverse-ne new some_new,
    )
