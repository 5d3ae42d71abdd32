-- ===== src/Table/Distinct.antt =====
-- Each operation keeps the keys distinct, and `retain` filters what lookup shows.
use byte_bucket.Prelude.{
  true, ℕ, ◌≡◌, Option-cases, inl, inr, refl, Bool, Option, none, some, [], ◌∷◌, Equality,
  if◌then◌else◌, arith, inl, inr,
}
use byte_bucket.Table.Defs.{Table, lookup, erase, insert, retain, oldest, evict_oldest, IsMap}
use byte_bucket.Table.Laws.{lookup-erase, lookup-insert}

-- What is left of a looked-up entry under `retain`.
abbrev pub keep_if {κ} : {V : Type κ} → (V → Bool) → Option V → Option V
keep_if p none = none
keep_if p (some v) = if p v then some v else none

pub keep_if-eq-some {κ} :
    {V : Type κ} (p : V → Bool) (o : Option V) (v : V)
    → keep_if p o ≡ some v
    → (o ≡ some v) × (p v ≡ true)
keep_if-eq-some p none v h = (h, ground arith)
keep_if-eq-some p (some w) v h = (ground arith, ground arith)

module _ {ℓ κ} {K : Type ℓ} {V : Type κ} ⦃e : Equality K⦄ where
  pub erase-IsMap : (k : K) (m : Table K V) → IsMap m → IsMap (erase k m)
  unfolding erase
  erase-IsMap k [] d = tt
  erase-IsMap k ((i, w) ∷ m) d = ground (arith, erase-IsMap k m d.1, lookup-erase k i m)

  pub insert-IsMap : (k : K) (v : V) (m : Table K V) → IsMap m → IsMap (insert k v m)
  unfolding insert lookup
  insert-IsMap k v [] d = (refl, tt)
  insert-IsMap k v ((i, w) ∷ m) d =
      ground (arith, insert-IsMap k v m d.1, lookup-insert k i v m, e.test_iff i k, e.test_iff k i)

  lookup-retain-none :
      (p : V → Bool) (j : K) (m : Table K V) → lookup j m ≡ none → lookup j (retain p m) ≡ none
  unfolding lookup retain
  lookup-retain-none p j [] h = refl
  lookup-retain-none p j ((i, w) ∷ m) h = ground (arith, lookup-retain-none p j m)

  pub lookup-retain :
      (p : V → Bool) (j : K) (m : Table K V)
      → IsMap m
      → lookup j (retain p m) ≡ keep_if p (lookup j m)
  unfolding lookup retain
  lookup-retain p j [] d = refl
  lookup-retain p j ((i, w) ∷ m) d =
      ground (arith, lookup-retain p j m d.1, lookup-retain-none p j m, e.test_iff i j, d.0)

  pub retain-IsMap : (p : V → Bool) (m : Table K V) → IsMap m → IsMap (retain p m)
  unfolding retain
  retain-IsMap p [] d = tt
  retain-IsMap p ((i, w) ∷ m) d = ground (arith, retain-IsMap p m d.1, lookup-retain-none p i m d.0)

  pub evict_oldest-IsMap : (at : V → ℕ) (m : Table K V) → IsMap m → IsMap (evict_oldest at m)
  unfolding evict_oldest
  evict_oldest-IsMap at m d = elim (Option-cases (oldest at m)) [
    | inl h ↦ rw (h, evict_oldest) d
    | inr ((k, t), h) ↦ rw (h, evict_oldest) (erase-IsMap k m d)
  ]
