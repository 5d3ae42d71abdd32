-- ===== src/Path/Containment.antt =====
-- A path that `safe_join` returns lies below the directory that it was joined to.
use byte_bucket.Prelude.{
  ℕ, Bool, true, false, ◌||◌, not, List, [], ◌∷◌, ◌++◌, ◌==◌, ==_refl, nat_equality, list_equality,
  list_test_iff, ◌≡◌, ◌≢◌, refl, sym, ap, subst, ◌∙◌, arith, Bool-cases, inl, inr, ◌⊎◌,
}
use byte_bucket.Bytes.{Bytes, slash, split, has_prefix}
use byte_bucket.Path.{
  dot, dot_dot, push, push_all, join, render, is_abs, clean, up, has_dots, is_local, join_path,
}
use byte_bucket.Path.Render.{
  AllProper, AllNoSlash-split, split-append, push_all-append, stack_of, stack_of-render,
  push_all-AllProper, join-append,
}
use mathlib.Core.Bool.{false≢true}
use mathlib.Core.List.{reverse, reverse-cons, append-nil}

has_up : List Bytes → Bool
has_up [] = false
has_up (s ∷ ss) = s == dot_dot || has_up ss

has_up-push :
    (stack : List Bytes) (s : Bytes) → has_up stack ≡ true → has_up (push false stack s) ≡ true
unfolding has_up push up
has_up-push [] s h = absurd (false≢true h)
has_up-push (t ∷ stack) s h = ground (arith, ==_refl dot_dot)

has_up-push_all :
    (stack ss : List Bytes) → has_up stack ≡ true → has_up (push_all false stack ss) ≡ true
unfolding push_all
has_up-push_all stack [] h = h
has_up-push_all stack (s ∷ ss) h = has_up-push_all (push false stack s) ss (has_up-push stack s h)

-- Below a root, segments that never go above their start leave what was there.
push-append :
    (stack base : List Bytes) (s : Bytes)
    → has_up (push false stack s) ≡ false
    → push true (stack ++ base) s ≡ push false stack s ++ base
unfolding has_up push up
push-append [] base s h = ground (arith, ==_refl dot_dot)
push-append (t ∷ stack) base s h = ground (arith, ==_refl dot_dot)

push_all-append_base :
    (stack base ss : List Bytes)
    → has_up (push_all false stack ss) ≡ false
    → push_all true (stack ++ base) ss ≡ push_all false stack ss ++ base
unfolding push_all
push_all-append_base stack base [] h = refl
push_all-append_base stack base (s ∷ ss) h = elim (Bool-cases (has_up (push false stack s))) [
  | inl above ↦ absurd (false≢true (sym h ∙ has_up-push_all (push false stack s) ss above))
  | inr below ↦
      rw (push-append stack base s below) (push_all-append_base (push false stack s) base ss h)
]

-- Parents collect at the bottom of a stack.
abbrev AllUp : List Bytes → Type 0
AllUp [] = Unit
AllUp (s ∷ ss) = ((s == dot_dot) ≡ true) × AllUp ss

abbrev IsStack : List Bytes → Type 0
IsStack [] = Unit
IsStack (s ∷ ss) = (((s == dot_dot) ≡ true) × AllUp ss) ⊎ (((s == dot_dot) ≡ false) × IsStack ss)

AllUp→IsStack : (ss : List Bytes) → AllUp ss → IsStack ss
AllUp→IsStack [] a = tt
AllUp→IsStack (s ∷ ss) a = inl (a.0, a.1)

push-IsStack : (stack : List Bytes) (s : Bytes) → IsStack stack → IsStack (push false stack s)
unfolding push up
push-IsStack [] s k = ground (arith, ==_refl dot_dot)
push-IsStack (t ∷ stack) s k = ground (arith, ==_refl dot_dot)

push_all-IsStack : (stack ss : List Bytes) → IsStack stack → IsStack (push_all false stack ss)
unfolding push_all
push_all-IsStack stack [] k = k
push_all-IsStack stack (s ∷ ss) k =
    push_all-IsStack (push false stack s) ss (push-IsStack stack s k)

-- `..`, or a path that starts with `../`
abbrev pub escapes : Bytes → Bool
escapes p = p == dot_dot || has_prefix p (dot_dot ++ slash ∷ [])

escapes-append : (p s : Bytes) → escapes p ≡ true → escapes (p ++ (slash ∷ s)) ≡ true
unfolding has_prefix
escapes-append [] s h = ground arith
escapes-append (a ∷ []) s h = ground arith
escapes-append (a ∷ b ∷ []) s h = ground arith
escapes-append (a ∷ b ∷ c ∷ p) s h = ground arith

join-snoc : (ss : List Bytes) (s : Bytes) → ss ≢ [] → join (ss ++ s ∷ []) ≡ join ss ++ (slash ∷ s)
unfolding join
join-snoc [] s h = absurd (h refl)
join-snoc (t ∷ ss) s h = join-append t ss s []

snoc-ne-nil : (ss : List Bytes) (s : Bytes) → ss ++ s ∷ [] ≢ []
snoc-ne-nil [] s = λ p. cc p
snoc-ne-nil (t ∷ ss) s = λ p. cc p

pub reverse-ne-nil : (s : Bytes) (ss : List Bytes) → reverse (s ∷ ss) ≢ []
reverse-ne-nil s ss p = snoc-ne-nil (reverse ss) s (rw (reverse-cons s ss) at p)

parents_below :
    (s t : Bytes) (stack : List Bytes)
    → IsStack (s ∷ t ∷ stack)
    → has_up (s ∷ t ∷ stack) ≡ true
    → IsStack (t ∷ stack) × (has_up (t ∷ stack) ≡ true)
unfolding has_up
parents_below s t stack (inl (parent, all)) h = (AllUp→IsStack (t ∷ stack) all, ground arith)
parents_below s t stack (inr (name, rest)) h = (rest, ground arith)

has_up-escapes :
    (stack : List Bytes)
    → IsStack stack
    → has_up stack ≡ true
    → escapes (join (reverse stack)) ≡ true
unfolding has_up
has_up-escapes [] k h = absurd (false≢true h)
has_up-escapes (s ∷ []) k h = unfold join in ground arith
has_up-escapes (s ∷ t ∷ stack) k h =
    let (rest, up_rest) = parents_below s t stack k h in
    rw (reverse-cons s (t ∷ stack)) (
      rw (join-snoc (reverse (t ∷ stack)) s (reverse-ne-nil t stack))
        (escapes-append (join (reverse (t ∷ stack))) s (has_up-escapes (t ∷ stack) rest up_rest)))

has_up-push_no_dots :
    (stack : List Bytes) (s : Bytes)
    → (s == dot || s == dot_dot) ≡ false
    → has_up stack ≡ false
    → has_up (push false stack s) ≡ false
unfolding has_up push
has_up-push_no_dots stack s h k = ground arith

has_up-push_all_no_dots :
    (stack ss : List Bytes)
    → has_dots ss ≡ false
    → has_up stack ≡ false
    → has_up (push_all false stack ss) ≡ false
unfolding has_dots push_all
has_up-push_all_no_dots stack [] h k = k
has_up-push_all_no_dots stack (s ∷ ss) h k =
    has_up-push_all_no_dots (push false stack s) ss (ground arith)
      (has_up-push_no_dots stack s (ground arith) k)

-- The segments of a path that does not start at the root.
abbrev pub below : Bytes → List Bytes
below n = push_all false [] (split slash n)

render-has_up :
    (stack : List Bytes)
    → IsStack stack
    → escapes (render false stack) ≡ false
    → has_up stack ≡ false
unfolding render has_up
render-has_up [] k h = refl
render-has_up (s ∷ stack) k h = elim (Bool-cases (has_up (s ∷ stack))) [
  | inr none_above ↦ none_above
  | inl above ↦ absurd (false≢true (sym h ∙ has_up-escapes (s ∷ stack) k above))
]

is_local→not_abs : (n : Bytes) → is_local n ≡ true → is_abs n ≡ false
unfolding is_local
is_local→not_abs n h = ground arith

pub false_of_not : (b : Bool) → not b ≡ true → b ≡ false
false_of_not true h = absurd (false≢true h)
false_of_not false h = refl

escapes-clean :
    (n : Bytes)
    → is_abs n ≡ false
    → escapes (clean n) ≡ false
    → escapes (render false (below n)) ≡ false
unfolding clean
escapes-clean n a h = rw a at h

is_local→below : (n : Bytes) → is_local n ≡ true → has_up (below n) ≡ false
unfolding is_local
is_local→below n h = elim (Bool-cases (is_abs n || n == [])) [
  | inl bad ↦ absurd (false≢true (rw bad at h))
  | inr good ↦ elim (Bool-cases (has_dots (split slash n))) [
    | inr plain ↦ has_up-push_all_no_dots [] (split slash n) plain (unfold has_up in refl)
    | inl dots ↦
        let local : not (escapes (clean n)) ≡ true = rw dots at (rw good at h) in
        render-has_up (below n) (push_all-IsStack [] (split slash n) tt)
          (escapes-clean n (is_local→not_abs n h) (false_of_not _ local))
  ]
]

is_abs_append :
    (b : ℕ) (base n : Bytes) → is_abs (b ∷ base) ≡ true → is_abs ((b ∷ base) ++ (slash ∷ n)) ≡ true
unfolding is_abs
is_abs_append b base n a = a

pub clean_abs : (p : Bytes) → is_abs p ≡ true → clean p ≡ render true (stack_of p)
unfolding clean
clean_abs p a = ap (λ r. render r (push_all r [] (split slash p))) a

-- One name joined to a base directory: the base's segments stay, and some are added.
pub join_path-render :
    (base n : Bytes)
    → is_abs base ≡ true
    → is_local n ≡ true
    → join_path base n ≡ render true (below n ++ stack_of base)
unfolding join_path
join_path-render [] n a h = absurd (false≢true (unfold is_abs in a))
join_path-render (b ∷ base) n a h =
    clean_abs ((b ∷ base) ++ (slash ∷ n)) (is_abs_append b base n a)
    ∙ ap (render true) (
        ap (push_all true []) (split-append (b ∷ base) n)
        ∙ push_all-append true [] (split slash (b ∷ base)) (split slash n)
        ∙ push_all-append_base [] (stack_of (b ∷ base)) (split slash n) (is_local→below n h))

pub below-AllProper : (n : Bytes) → is_local n ≡ true → AllProper (below n)
below-AllProper n h =
    subst AllProper
      (push_all-append_base [] [] (split slash n) (is_local→below n h) ∙ append-nil (below n))
      (push_all-AllProper [] (split slash n) (AllNoSlash-split n) tt)

pub below-ne-nil : (n : Bytes) → is_local n ≡ true → (clean n == dot) ≡ false → below n ≢ []
unfolding clean render
below-ne-nil n h ne p =
    let empty : clean n ≡ dot =
      ap (λ r. render r (push_all r [] (split slash n))) (is_local→not_abs n h)
      ∙ ap (render false) p in
    false≢true (sym ne ∙ (list_test_iff (clean n) dot).1 empty)

stack_of-AllProper : (base : Bytes) → AllProper (stack_of base)
stack_of-AllProper base = push_all-AllProper [] (split slash base) (AllNoSlash-split base) tt

pub AllProper-append : (xs ys : List Bytes) → AllProper xs → AllProper ys → AllProper (xs ++ ys)
AllProper-append [] ys a b = b
AllProper-append (x ∷ xs) ys a b = (a.0, AllProper-append xs ys a.1 b)

-- Where a joined path lies: proper segments on top of the base's.
abbrev Below : Bytes → Bytes → Type 0
Below base p = (added : List Bytes) × (p ≡ render true (added ++ stack_of base)) × AllProper added

pub is_abs-render : (stack : List Bytes) → is_abs (render true stack) ≡ true
unfolding is_abs render
is_abs-render stack = refl

pub step_below :
    (base n : Bytes)
    → is_abs base ≡ true
    → is_local n ≡ true
    → (is_abs (join_path base n) ≡ true) × (stack_of (join_path base n) ≡ below n ++ stack_of base)
step_below base n a h = rw (join_path-render base n a h) (
  is_abs-render (below n ++ stack_of base),
  stack_of-render (below n ++ stack_of base)
      (AllProper-append (below n) (stack_of base) (below-AllProper n h) (stack_of-AllProper base)),
)
