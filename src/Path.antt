-- ===== src/Path.antt =====
-- `SafeJoin` of internal/storage/names.go, with the parts of package path/filepath that it uses,
-- as they behave on Unix. A cleaned path is kept as the stack of its segments, the last on top.
pub mod Render
mod Containment
pub mod Joining
pub mod Proper
pub mod Tests
use byte_bucket.Prelude.{
  ℕ, Bool, true, false, ◌&&◌, ◌||◌, not, List, [], ◌∷◌, ◌++◌, Option, none, some, ◌==◌,
  nat_equality, list_equality, if◌then◌else◌,
}
use byte_bucket.Bytes.{Bytes, bytes, slash, split, has_prefix}
use mathlib.Core.List.{reverse}

abbrev pub dot : Bytes
dot = b'.' ∷ []

abbrev pub dot_dot : Bytes
dot_dot = b'.' ∷ b'.' ∷ []

-- `..` drops the segment above it, or stays where there is none; at the root it goes nowhere.
up : Bool → List Bytes → List Bytes
up rooted [] = if rooted then [] else dot_dot ∷ []
up rooted (s ∷ stack) = if s == dot_dot then dot_dot ∷ s ∷ stack else stack

push : Bool → List Bytes → Bytes → List Bytes
unfolding up
push rooted stack s =
    if s == [] || s == dot then stack else if s == dot_dot then up rooted stack else s ∷ stack

unfoldable pub push_all : Bool → List Bytes → List Bytes → List Bytes
unfolding push
push_all rooted stack [] = stack
push_all rooted stack (s ∷ ss) = push_all rooted (push rooted stack s) ss

-- `strings.Join(ss, "/")`
unfoldable pub join : List Bytes → Bytes
join [] = []
join (s ∷ []) = s
join (s ∷ t ∷ ss) = s ++ (slash ∷ join (t ∷ ss))

unfoldable pub render : Bool → List Bytes → Bytes
unfolding join
render true stack = slash ∷ join (reverse stack)
render false [] = dot
render false (s ∷ stack) = join (reverse (s ∷ stack))

unfoldable pub is_abs : Bytes → Bool
is_abs [] = false
is_abs (c ∷ path) = c == slash

-- `filepath.Clean`
unfoldable pub clean : Bytes → Bytes
unfolding render push_all is_abs split
clean path = render (is_abs path) (push_all (is_abs path) [] (split slash path))

has_dots : List Bytes → Bool
has_dots [] = false
has_dots (s ∷ ss) = (s == dot || s == dot_dot) || has_dots ss

-- `filepath.IsLocal`
unfoldable pub is_local : Bytes → Bool
unfolding is_abs has_dots clean split has_prefix
is_local path =
    if is_abs path || path == []
    then false
    else let p = if has_dots (split slash path) then clean path else path in
      not (p == dot_dot || has_prefix p (dot_dot ++ slash ∷ []))

-- `filepath.Join` of two elements
unfoldable pub join_path : Bytes → Bytes → Bytes
unfolding clean
join_path [] [] = []
join_path [] (c ∷ n) = clean (c ∷ n)
join_path (b ∷ base) n = clean ((b ∷ base) ++ slash ∷ n)

-- `none` is ErrPathEscape.
unfoldable pub safe_join : Bytes → List Bytes → Option Bytes
unfolding is_local join_path clean
safe_join base [] = some base
safe_join base (n ∷ names) =
    let rest = safe_join (join_path base n) names in
    if not (is_local n) || clean n == dot then none else rest
