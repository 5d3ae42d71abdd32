-- ===== src/Listing/Rolled.antt =====
-- What a common prefix is rolled up into (internal/handlers/bucket.go).
use byte_bucket.Prelude.{
  ℕ, Bool, true, false, ◌&&◌, [], ◌∷◌, ◌++◌, Option, none, some, ◌==◌, ==_refl, nat_equality,
  list_equality, length, drop, ◌≡◌, ◌⊎◌, refl, sym, ◌∙◌, arith, Bool-cases, inl, inr,
}
use mathlib.Core.Option.{some-injective}
use mathlib.Core.Bool.{false≢true}
use byte_bucket.Bytes.{Bytes, has_prefix}
use byte_bucket.Listing.{up_to, common_prefix}

-- The first delimiter of a text ends its rolled-up part as well.
has_prefix_nil : (d : Bytes) → has_prefix [] d ≡ true → d ≡ []
unfolding has_prefix
has_prefix_nil [] h = refl
has_prefix_nil (c ∷ d) h = cc h

has_prefix_refl : (s : Bytes) → has_prefix s s ≡ true
unfolding has_prefix
has_prefix_refl [] = refl
has_prefix_refl (c ∷ s) = rw (==_refl c) (has_prefix_refl s)

chain :
    (a b c : ℕ) (p q r : Bool)
    → (a == b && p) ≡ true
    → (b == c && q) ≡ true
    → (p ≡ true → q ≡ true → r ≡ true)
    → (a == c && r) ≡ true
chain a b c p q r h k next = ground arith

has_prefix_trans :
    (s b d : Bytes) → has_prefix s b ≡ true → has_prefix b d ≡ true → has_prefix s d ≡ true
unfolding has_prefix
has_prefix_trans s b [] h k = refl
has_prefix_trans s [] (z ∷ d) h k = cc k
has_prefix_trans [] (y ∷ b) (z ∷ d) h k = cc h
has_prefix_trans (x ∷ s) (y ∷ b) (z ∷ d) h k =
    chain x y z (has_prefix s b) (has_prefix b d) (has_prefix s d) h k (has_prefix_trans s b d)

up_to_found : (d : Bytes) → up_to d d ≡ some d
unfolding up_to has_prefix
up_to_found [] = refl
up_to_found (c ∷ d) = rw (has_prefix_refl (c ∷ d)) refl

later_part :
    (c : ℕ) (o : Option Bytes) (b : Bytes)
    → (elim o [ none ↦ none | some before ↦ some (c ∷ before) ]) ≡ some b
    → (before : Bytes) × (o ≡ some before) × (b ≡ c ∷ before)
later_part c none b h = cc h
later_part c (some before) b h = (before, refl, sym (some-injective _ _ h))

up_to_nil : (d b : Bytes) → up_to d [] ≡ some b → (b ≡ d) × (d ≡ [])
unfolding up_to has_prefix
up_to_nil [] b h = (sym (some-injective _ _ h), refl)
up_to_nil (c ∷ d) b h = cc h

up_to_cons :
    (d : Bytes) (c : ℕ) (s b : Bytes)
    → up_to d (c ∷ s) ≡ some b
    → ((has_prefix (c ∷ s) d ≡ true) × (b ≡ d))
      ⊎ ((has_prefix (c ∷ s) d ≡ false)
          × ((before : Bytes) × (up_to d s ≡ some before) × (b ≡ c ∷ before)))
unfolding up_to
up_to_cons d c s b h = elim (Bool-cases (has_prefix (c ∷ s) d)) [
  | inl here ↦ inl (here, sym (some-injective _ _ (rw here at h)))
  | inr later ↦ inr (later, later_part c (up_to d s) b (rw later at h))
]

has_prefix_same : (c : ℕ) (s b : Bytes) → has_prefix s b ≡ true → has_prefix (c ∷ s) (c ∷ b) ≡ true
unfolding has_prefix
has_prefix_same c s b h = rw (==_refl c) h

prefix-up_to : (d s b : Bytes) → up_to d s ≡ some b → has_prefix s b ≡ true
prefix-up_to d [] b h = let (e, n) = up_to_nil d b h in rw (e, n) (has_prefix_refl [])
prefix-up_to d (c ∷ s) b h = elim (up_to_cons d c s b h) [
  | inl (here, e) ↦ rw e here
  | inr (later, (before, found, e)) ↦
      rw e (has_prefix_same c s before (prefix-up_to d s before found))
]

-- What is rolled up once is rolled up into itself.
up_to_again : (d s b : Bytes) → up_to d s ≡ some b → up_to d b ≡ some b
unfolding up_to
up_to_again d [] b h = let (e, n) = up_to_nil d b h in rw e (up_to_found d)
up_to_again d (c ∷ s) b h = elim (up_to_cons d c s b h) [
  | inl (here, e) ↦ rw e (up_to_found d)
  | inr (later, (before, found, e)) ↦
      let longer = has_prefix_same c s before (prefix-up_to d s before found) in
      rw e (elim (Bool-cases (has_prefix (c ∷ before) d)) [
        | inl here ↦
            absurd (false≢true (sym later ∙ has_prefix_trans (c ∷ s) (c ∷ before) d longer here))
        | inr away ↦ rw (away, up_to_again d s before found) refl
      ])
]

drop-append : (p s : Bytes) → drop (length p) (p ++ s) ≡ s
drop-append [] s = refl
drop-append (c ∷ p) s = drop-append p s

rolled_part :
    (p : Bytes) (o : Option Bytes) (b : Bytes)
    → (elim o [ none ↦ none | some cp ↦ some (p ++ cp) ]) ≡ some b
    → (cp : Bytes) × (o ≡ some cp) × (b ≡ p ++ cp)
rolled_part p none b h = cc h
rolled_part p (some cp) b h = (cp, refl, sym (some-injective _ _ h))

pub common_prefix_again :
    (p d key b : Bytes) → common_prefix p d key ≡ some b → common_prefix p d b ≡ some b
unfolding common_prefix
common_prefix_again p d key b h = elim (Bool-cases (d == [])) [
  | inl no_delimiter ↦ cc (rw no_delimiter at h)
  | inr some_delimiter ↦
      let (cp, found, e) =
        rolled_part p (up_to d (drop (length p) key)) b (rw some_delimiter at h) in
      rw (some_delimiter, e, drop-append p cp, up_to_again d (drop (length p) key) cp found) refl
]
