-- ===== src/Path/Proper.antt =====
-- Proper segments are joined as they are (internal/storage/names.go).
use byte_bucket.Prelude.{
  Bool, true, false, ◌||◌, List, [], ◌∷◌, ◌++◌, some, ◌==◌, nat_equality, list_equality, ◌≡◌, ◌≢◌,
  refl, sym, ap, subst, ◌∙◌, arith,
}
use byte_bucket.Bytes.{Bytes, slash, split, has_prefix}
use byte_bucket.Path.{
  dot, dot_dot, join, render, is_abs, clean, has_dots, is_local, join_path, safe_join, push_all,
}
use byte_bucket.Path.Render.{NoSlash, IsProper, AllProper, stack_of, split-join, push_all-proper}
use byte_bucket.Path.Containment.{
  below, escapes, join_path-render, clean_abs, step_below, is_abs-render,
}
use byte_bucket.Path.Joining.{render-append, not_root, reverse-ne}
use mathlib.Core.Bool.{false≢true}
use mathlib.Core.List.{reverse, append-nil, reverse-reverse}

no_escape : (s : Bytes) → NoSlash s → (s == dot_dot) ≡ false → escapes s ≡ false
unfolding has_prefix
no_escape [] n h = ground arith
no_escape (a ∷ []) n h = ground arith
no_escape (a ∷ b ∷ []) n h = ground arith
no_escape (a ∷ b ∷ c ∷ s) n h = ground arith

no_escape_append :
    (s r : Bytes)
    → NoSlash s
    → (s == []) ≡ false
    → (s == dot_dot) ≡ false
    → escapes (s ++ (slash ∷ r)) ≡ false
unfolding has_prefix
no_escape_append [] r n e h = absurd (cc e)
no_escape_append (a ∷ []) r n e h = ground arith
no_escape_append (a ∷ b ∷ []) r n e h = ground arith
no_escape_append (a ∷ b ∷ c ∷ s) r n e h = ground arith

join-no_escape :
    (s : Bytes) (ss : List Bytes) → AllProper (s ∷ ss) → escapes (join (s ∷ ss)) ≡ false
unfolding join
join-no_escape s [] a = no_escape s a.0.no_slash a.0.not_dot_dot
join-no_escape s (t ∷ ss) a =
    no_escape_append s (join (t ∷ ss)) a.0.no_slash a.0.some_name a.0.not_dot_dot

join-not_abs :
    (s : Bytes) (ss : List Bytes)
    → AllProper (s ∷ ss)
    → (is_abs (join (s ∷ ss)) || join (s ∷ ss) == []) ≡ false
unfolding join is_abs
join-not_abs [] ss a = absurd (cc (a.0.some_name))
join-not_abs (c ∷ s) [] a = ground (arith, a.0.no_slash.0)
join-not_abs (c ∷ s) (t ∷ ss) a = ground (arith, a.0.no_slash.0)

proper-no_dots : (ss : List Bytes) → AllProper ss → has_dots ss ≡ false
unfolding has_dots
proper-no_dots [] a = refl
proper-no_dots (s ∷ ss) a = rw (a.0.not_dot, a.0.not_dot_dot) (proper-no_dots ss a.1)

join-is_local : (s : Bytes) (ss : List Bytes) → AllProper (s ∷ ss) → is_local (join (s ∷ ss)) ≡ true
unfolding is_local
join-is_local s ss a =
    rw (join-not_abs s ss a)
      (rw (split-join s ss a) (rw (proper-no_dots (s ∷ ss) a) (rw (join-no_escape s ss a))))

pub proper-stack :
    (s : Bytes) (ss : List Bytes) → AllProper (s ∷ ss) → below (join (s ∷ ss)) ≡ reverse (s ∷ ss)
proper-stack s ss a =
    rw (split-join s ss a) (push_all-proper false [] (s ∷ ss) a ∙ append-nil (reverse (s ∷ ss)))

or_false : (a b : Bool) → (a || b) ≡ false → a ≡ false
or_false a b h = ground arith

render_some : (stack : List Bytes) → stack ≢ [] → render false stack ≡ join (reverse stack)
unfolding render
render_some [] h = absurd (h refl)
render_some (s ∷ stack) h = refl

-- A path of proper segments is clean as it stands.
pub clean-join :
    (s : Bytes) (ss : List Bytes) → AllProper (s ∷ ss) → clean (join (s ∷ ss)) ≡ join (s ∷ ss)
unfolding clean
clean-join s ss a =
    let relative : is_abs (join (s ∷ ss)) ≡ false = or_false _ _ (join-not_abs s ss a) in
    ap (λ r. render r (push_all r [] (split slash (join (s ∷ ss))))) relative
    ∙ ap (render false) (proper-stack s ss a)
    ∙ render_some (reverse (s ∷ ss)) (reverse-ne (s ∷ ss) (λ p. cc p))
    ∙ ap join (reverse-reverse (s ∷ ss))

join-not_dot : (s : Bytes) (ss : List Bytes) → AllProper (s ∷ ss) → (join (s ∷ ss) == dot) ≡ false
unfolding join
join-not_dot s [] a = a.0.not_dot
join-not_dot [] (t ∷ ss) a = absurd (cc (a.0.some_name))
join-not_dot (c ∷ []) (t ∷ ss) a = ground arith
join-not_dot (c ∷ d ∷ s) (t ∷ ss) a = ground arith

safe_join_one :
    (base n : Bytes) (names : List Bytes)
    → is_local n ≡ true
    → (clean n == dot) ≡ false
    → safe_join base (n ∷ names) ≡ safe_join (join_path base n) names
unfolding safe_join
safe_join_one base n names near there = rw (near, there) refl

pub join_path-proper :
    (base s : Bytes) (ss : List Bytes)
    → is_abs base ≡ true
    → clean base ≢ slash ∷ []
    → AllProper (s ∷ ss)
    → join_path base (join (s ∷ ss)) ≡ clean base ++ (slash ∷ join (s ∷ ss))
join_path-proper base s ss a root proper =
    join_path-render base (join (s ∷ ss)) a (join-is_local s ss proper)
    ∙ ap (λ st. render true (st ++ stack_of base)) (proper-stack s ss proper)
    ∙ render-append (reverse (s ∷ ss)) (stack_of base) (reverse-ne (s ∷ ss) (λ p. cc p))
        (not_root base a root)
    ∙ ap (λ (r : Bytes). r ++ (slash ∷ join (reverse (reverse (s ∷ ss))))) (sym (clean_abs base a))
    ∙ ap (λ ts. clean base ++ (slash ∷ join ts)) (reverse-reverse (s ∷ ss))

join-ne_nil : (s : Bytes) (ss : List Bytes) → AllProper (s ∷ ss) → (join (s ∷ ss) == []) ≡ false
unfolding join
join-ne_nil [] ss a = absurd (cc (a.0.some_name))
join-ne_nil (c ∷ s) [] a = refl
join-ne_nil (c ∷ s) (t ∷ ss) a = refl

-- Names made of proper segments are joined as they stand.
pub safe_join-proper :
    (base s : Bytes) (ss : List Bytes) (names : List Bytes)
    → is_abs base ≡ true
    → clean base ≢ slash ∷ []
    → AllProper (s ∷ ss)
    → safe_join base (join (s ∷ ss) ∷ names)
      ≡ safe_join (clean base ++ (slash ∷ join (s ∷ ss))) names
safe_join-proper base s ss names a root proper =
    safe_join_one base (join (s ∷ ss)) names (join-is_local s ss proper)
      (ap (λ p. p == dot) (clean-join s ss proper) ∙ join-not_dot s ss proper)
    ∙ ap (λ p. safe_join p names) (join_path-proper base s ss a root proper)

slash_start : (p q : Bytes) → is_abs p ≡ true → p ++ (slash ∷ q) ≢ slash ∷ []
unfolding is_abs
slash_start [] q a = absurd (false≢true a)
slash_start (c ∷ []) q a = λ h. cc h
slash_start (c ∷ d ∷ p) q a = λ h. cc h

is_abs-clean : (base : Bytes) → is_abs base ≡ true → is_abs (clean base) ≡ true
is_abs-clean base a = ap is_abs (clean_abs base a) ∙ is_abs-render (stack_of base)

-- A directory with a proper name below it is an absolute clean path, and not the root.
pub below_base :
    (base s : Bytes) (ss : List Bytes)
    → is_abs base ≡ true
    → clean base ≢ slash ∷ []
    → AllProper (s ∷ ss)
    → (is_abs (clean base ++ (slash ∷ join (s ∷ ss))) ≡ true)
      × (clean (clean base ++ (slash ∷ join (s ∷ ss))) ≡ clean base ++ (slash ∷ join (s ∷ ss)))
      × (clean base ++ (slash ∷ join (s ∷ ss)) ≢ slash ∷ [])
below_base base s ss a root proper =
    let local = join-is_local s ss proper in
    let (abs, stack) = step_below base (join (s ∷ ss)) a local in
    let stays : clean (join_path base (join (s ∷ ss))) ≡ join_path base (join (s ∷ ss)) =
      clean_abs (join_path base (join (s ∷ ss))) abs
      ∙ ap (render true) stack
      ∙ sym (join_path-render base (join (s ∷ ss)) a local) in
    let path = join_path-proper base s ss a root proper in
    (
      subst (λ p. is_abs p ≡ true) path abs,
      subst (λ p. clean p ≡ p) path stays,
      slash_start (clean base) (join (s ∷ ss)) (is_abs-clean base a),
    )

pub joined_key :
    (base name s : Bytes) (ss : List Bytes)
    → is_abs base ≡ true
    → clean base ≢ slash ∷ []
    → IsProper name
    → AllProper (s ∷ ss)
    → safe_join base (name ∷ join (s ∷ ss) ∷ [])
      ≡ some ((clean base ++ (slash ∷ name)) ++ (slash ∷ join (s ∷ ss)))
unfolding join safe_join
joined_key base name s ss a root proper segments =
    let (abs, stays, below_root) = below_base base name [] a root (proper, tt) in
    safe_join-proper base name [] (join (s ∷ ss) ∷ []) a root (proper, tt)
    ∙ safe_join-proper (clean base ++ (slash ∷ name)) s ss [] abs (λ p. below_root (sym stays ∙ p))
        segments
    ∙ ap (λ (p : Bytes). some (p ++ (slash ∷ join (s ∷ ss)))) stays
