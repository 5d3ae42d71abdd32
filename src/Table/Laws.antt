-- ===== src/Table/Laws.antt =====
-- Lookup and size after each operation on a table.
use byte_bucket.Prelude.{
  ◌+◌, ◌≤◌, ◌<◌, ◌≡◌, ◌≢◌, refl, Bool, none, some, [], ◌∷◌, Equality, ◌==◌, if◌then◌else◌, length,
  arith,
}
use byte_bucket.Table.Defs.{Table, lookup, erase, insert, retain}

module _ {ℓ κ} {K : Type ℓ} {V : Type κ} ⦃q : Equality K⦄ where
  pub lookup-erase :
      (gone key : K) (m : Table K V)
      → lookup key (erase gone m) ≡ (if gone == key then none else lookup key m)
  unfolding lookup erase
  lookup-erase gone key [] = ground arith
  lookup-erase gone key ((i, w) ∷ rest) =
      ground (
        arith,
        lookup-erase gone key rest,
        q.test_iff i gone,
        q.test_iff i key,
        q.test_iff gone key,
      )

  pub lookup-insert :
      (new key : K) (value : V) (m : Table K V)
      → lookup key (insert new value m) ≡ (if new == key then some value else lookup key m)
  unfolding lookup insert
  lookup-insert new key value [] = refl
  lookup-insert new key value ((i, w) ∷ rest) = ground (
    arith,
    lookup-insert new key value rest,
    q.test_iff i new,
    q.test_iff i key,
    q.test_iff new key,
  )

  pub length-erase-le : (k : K) (m : Table K V) → length (erase k m) ≤ length m
  unfolding erase
  length-erase-le k [] = omega arith
  length-erase-le k ((i, w) ∷ m) = ground (arith, length-erase-le k m)

  pub length-erase-lt : (k : K) (m : Table K V) → lookup k m ≢ none → length (erase k m) < length m
  unfolding lookup erase
  length-erase-lt k [] h = absurd (h refl)
  length-erase-lt k ((i, w) ∷ m) h = ground (arith, length-erase-le k m, length-erase-lt k m)

  pub length-insert-le : (k : K) (v : V) (m : Table K V) → length (insert k v m) ≤ length m + 1
  unfolding insert
  length-insert-le k v [] = omega arith
  length-insert-le k v ((i, w) ∷ m) = ground (arith, length-insert-le k v m)

  pub length-insert_old :
      (k : K) (v : V) (m : Table K V) → lookup k m ≢ none → length (insert k v m) ≡ length m
  unfolding lookup insert
  length-insert_old k v [] h = absurd (h refl)
  length-insert_old k v ((i, w) ∷ m) h = ground (arith, length-insert_old k v m)

module _ {ℓ κ} {K : Type ℓ} {V : Type κ} where
  pub length-retain-le : (p : V → Bool) (m : Table K V) → length (retain p m) ≤ length m
  unfolding retain
  length-retain-le p [] = omega arith
  length-retain-le p ((k, v) ∷ m) = ground (arith, length-retain-le p m)
