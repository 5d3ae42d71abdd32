-- ===== src/Path/Render.antt =====
-- Splitting and joining paths, and the stack of a rendered path.
use byte_bucket.Prelude.{
  ℕ, Bool, true, false, List, [], ◌∷◌, ◌++◌, ◌==◌, nat_equality, list_equality, ◌≡◌, ◌≢◌, refl, sym,
  ap, ◌∙◌, Bool-cases, inl, inr,
}
use byte_bucket.Bytes.{Bytes, slash, split, cons_head}
use byte_bucket.Path.{dot, dot_dot, push, push_all, join, render, up}
use mathlib.Core.List.{reverse, reverse-reverse, reverse-cons, append-nil, append_assoc}

abbrev pub NoSlash : Bytes → Type 0
NoSlash [] = Unit
NoSlash (c ∷ s) = ((c == slash) ≡ false) × NoSlash s

-- A segment that names something below its directory.
pub record IsProper (s : Bytes) : Type 0 where
  pub some_name : (s == []) ≡ false
  pub not_dot : (s == dot) ≡ false
  pub not_dot_dot : (s == dot_dot) ≡ false
  pub no_slash : NoSlash s

abbrev pub AllProper : List Bytes → Type 0
AllProper [] = Unit
AllProper (s ∷ ss) = IsProper s × AllProper ss

abbrev pub AllNoSlash : List Bytes → Type 0
AllNoSlash [] = Unit
AllNoSlash (s ∷ ss) = NoSlash s × AllNoSlash ss

AllNoSlash-cons_head :
    (c : ℕ) (ss : List Bytes) → (c == slash) ≡ false → AllNoSlash ss → AllNoSlash (cons_head c ss)
AllNoSlash-cons_head c [] h a = ((h, tt), tt)
AllNoSlash-cons_head c (s ∷ ss) h a = ((h, a.0), a.1)

pub AllNoSlash-split : (s : Bytes) → AllNoSlash (split slash s)
unfolding split
AllNoSlash-split [] = (tt, tt)
AllNoSlash-split (c ∷ s) = elim (Bool-cases (c == slash)) [
  | inl sep ↦ rw sep (tt, AllNoSlash-split s)
  | inr char ↦ rw char (AllNoSlash-cons_head c (split slash s) char (AllNoSlash-split s))
]

cons_head-append :
    (c : ℕ) (xs ys : List Bytes) → xs ≢ [] → cons_head c (xs ++ ys) ≡ cons_head c xs ++ ys
cons_head-append c [] ys h = absurd (h refl)
cons_head-append c (x ∷ xs) ys h = refl

cons_head-ne-nil : (c : ℕ) (ss : List Bytes) → cons_head c ss ≢ []
cons_head-ne-nil c [] = λ p. cc p
cons_head-ne-nil c (s ∷ ss) = λ p. cc p

split-ne-nil : (s : Bytes) → split slash s ≢ []
unfolding split
split-ne-nil [] = λ p. cc p
split-ne-nil (c ∷ s) = elim (Bool-cases (c == slash)) [
  | inl sep ↦ rw sep (λ p. cc p)
  | inr char ↦ rw char (cons_head-ne-nil c (split slash s))
]

pub split-append : (s t : Bytes) → split slash (s ++ slash ∷ t) ≡ split slash s ++ split slash t
unfolding split
split-append [] t = refl
split-append (c ∷ s) t = elim (Bool-cases (c == slash)) [
  | inl sep ↦ rw sep (ap (◌∷◌ []) (split-append s t))
  | inr char ↦ rw char (
      ap (cons_head c) (split-append s t)
      ∙ cons_head-append c (split slash s) (split slash t) (split-ne-nil s))
]

split_one : (s : Bytes) → NoSlash s → split slash s ≡ s ∷ []
unfolding split
split_one [] h = refl
split_one (c ∷ s) h = rw h.0 (ap (cons_head c) (split_one s h.1))

-- Texts without a slash are split where they were joined.
pub split-join_slashless :
    (s : Bytes) (ss : List Bytes) → AllNoSlash (s ∷ ss) → split slash (join (s ∷ ss)) ≡ s ∷ ss
unfolding join
split-join_slashless s [] a = split_one s a.0
split-join_slashless s (t ∷ ss) a =
    split-append s (join (t ∷ ss))
    ∙ rw (split_one s a.0) (ap (◌∷◌ s) (split-join_slashless t ss a.1))

pub split-join :
    (s : Bytes) (ss : List Bytes) → AllProper (s ∷ ss) → split slash (join (s ∷ ss)) ≡ s ∷ ss
unfolding join
split-join s [] a = split_one s a.0.no_slash
split-join s (t ∷ ss) a =
    split-append s (join (t ∷ ss))
    ∙ rw (split_one s a.0.no_slash) (ap (◌∷◌ s) (split-join t ss a.1))

pub push_all-append :
    (rooted : Bool) (stack xs ys : List Bytes)
    → push_all rooted stack (xs ++ ys) ≡ push_all rooted (push_all rooted stack xs) ys
unfolding push_all
push_all-append rooted stack [] ys = refl
push_all-append rooted stack (x ∷ xs) ys = push_all-append rooted (push rooted stack x) xs ys

-- Proper segments all go on the stack.
pub push_all-proper :
    (rooted : Bool) (stack xs : List Bytes)
    → AllProper xs
    → push_all rooted stack xs ≡ reverse xs ++ stack
unfolding push_all push
push_all-proper rooted stack [] a = refl
push_all-proper rooted stack (x ∷ xs) a =
    rw (a.0.some_name, a.0.not_dot, a.0.not_dot_dot)
      (push_all-proper rooted (x ∷ stack) xs a.1
        ∙ rw (reverse-cons x xs) (sym (append_assoc (reverse xs) (x ∷ []) stack)))

AllProper-append : (xs ys : List Bytes) → AllProper xs → AllProper ys → AllProper (xs ++ ys)
AllProper-append [] ys a b = b
AllProper-append (x ∷ xs) ys a b = (a.0, AllProper-append xs ys a.1 b)

pub AllProper-reverse : (xs : List Bytes) → AllProper xs → AllProper (reverse xs)
AllProper-reverse [] a = tt
AllProper-reverse (x ∷ xs) a =
    rw (reverse-cons x xs)
      (AllProper-append (reverse xs) (x ∷ []) (AllProper-reverse xs a.1) (a.0, tt))

-- The stack that `clean` builds for an absolute path.
abbrev pub stack_of : Bytes → List Bytes
stack_of path = push_all true [] (split slash path)

stack_of-rooted : (ss : List Bytes) → AllProper ss → stack_of (slash ∷ join ss) ≡ reverse ss
unfolding push_all push split join
stack_of-rooted [] a = refl
stack_of-rooted (s ∷ ss) a =
    rw (split-join s ss a) (push_all-proper true [] (s ∷ ss) a ∙ append-nil (reverse (s ∷ ss)))

pub stack_of-render : (stack : List Bytes) → AllProper stack → stack_of (render true stack) ≡ stack
unfolding render
stack_of-render stack a =
    stack_of-rooted (reverse stack) (AllProper-reverse stack a) ∙ reverse-reverse stack

up-AllProper : (stack : List Bytes) → AllProper stack → AllProper (up true stack)
unfolding up
up-AllProper [] a = tt
up-AllProper (s ∷ stack) a = rw a.0.not_dot_dot a.1

push-AllProper :
    (stack : List Bytes) (s : Bytes) → NoSlash s → AllProper stack → AllProper (push true stack s)
unfolding push
push-AllProper stack s n a = elim (Bool-cases (s == [])) [
  | inl empty ↦ rw empty a
  | inr named ↦ elim (Bool-cases (s == dot)) [
    | inl here ↦ rw (named, here) a
    | inr other ↦ elim (Bool-cases (s == dot_dot)) [
      | inl parent ↦ rw (named, other, parent) (up-AllProper stack a)
      | inr proper ↦
          rw (named, other, proper)
            (record { some_name = named; not_dot = other; not_dot_dot = proper; no_slash = n }, a)
    ]
  ]
]

pub push_all-AllProper :
    (stack ss : List Bytes) → AllNoSlash ss → AllProper stack → AllProper (push_all true stack ss)
unfolding push_all
push_all-AllProper stack [] n a = a
push_all-AllProper stack (s ∷ ss) n a =
    push_all-AllProper (push true stack s) ss n.1 (push-AllProper stack s n.0 a)

pub join-append :
    (x : Bytes) (xs : List Bytes) (y : Bytes) (ys : List Bytes)
    → join ((x ∷ xs) ++ (y ∷ ys)) ≡ join (x ∷ xs) ++ (slash ∷ join (y ∷ ys))
unfolding join
join-append x [] y ys = refl
join-append x (z ∷ xs) y ys =
    ap (λ (r : Bytes). x ++ (slash ∷ r)) (join-append z xs y ys)
    ∙ sym (append_assoc x (slash ∷ join (z ∷ xs)) (slash ∷ join (y ∷ ys)))

join-cons_head : (c : ℕ) (ss : List Bytes) → ss ≢ [] → join (cons_head c ss) ≡ c ∷ join ss
unfolding join
join-cons_head c [] h = absurd (h refl)
join-cons_head c (s ∷ []) h = refl
join-cons_head c (s ∷ t ∷ ss) h = refl

join-nil_cons : (ss : List Bytes) → ss ≢ [] → join ([] ∷ ss) ≡ slash ∷ join ss
unfolding join
join-nil_cons [] h = absurd (h refl)
join-nil_cons (s ∷ ss) h = refl

pub join-split : (s : Bytes) → join (split slash s) ≡ s
unfolding split
join-split [] = unfold join in refl
join-split (c ∷ s) = elim (Bool-cases (c == slash)) [
  | inl sep ↦
      let same : c ≡ slash = (nat_equality.test_iff c slash).0 sep in
      rw sep (
        join-nil_cons (split slash s) (split-ne-nil s)
        ∙ ap (λ (t : Bytes). slash ∷ t) (join-split s)
        ∙ ap (λ (d : ℕ). d ∷ s) (sym same))
  | inr char ↦
      rw char (join-cons_head c (split slash s) (split-ne-nil s) ∙ ap (◌∷◌ c) (join-split s))
]

pub split-cons : (s : Bytes) → (t : Bytes) × (ts : List Bytes) × (split slash s ≡ t ∷ ts)
split-cons s = cons_of (split slash s) (split-ne-nil s)
  where
    cons_of : (ss : List Bytes) → ss ≢ [] → (t : Bytes) × (ts : List Bytes) × (ss ≡ t ∷ ts)
    cons_of [] h = absurd (h refl)
    cons_of (t ∷ ts) h = (t, ts, refl)

pub join-ne_nil : (s t : Bytes) (ss : List Bytes) → (join (s ∷ t ∷ ss) == []) ≡ false
unfolding join
join-ne_nil [] t ss = refl
join-ne_nil (c ∷ s) t ss = refl
