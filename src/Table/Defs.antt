-- ===== src/Table/Defs.antt =====
-- A Go map with the program's loops over it. The order of the list stands for the iteration order
-- of `range`, which Go leaves open: every statement ranges over all lists.
use byte_bucket.Prelude.{
  ℕ, ◌≡◌, Bool, Option, none, some, List, [], ◌∷◌, Equality, ◌==◌, ltb, if◌then◌else◌,
}

abbrev pub Table {ℓ κ} : Type ℓ → Type κ → Type (ℓ ⊔ κ)
Table K V = List (K × V)

module _ {ℓ κ} {K : Type ℓ} {V : Type κ} ⦃q : Equality K⦄ where
  -- `m[k] = v`
  unfoldable pub insert : K → V → Table K V → Table K V
  insert key value [] = (key, value) ∷ []
  insert key value ((i, w) ∷ rest) =
      let more = insert key value rest in if i == key then (key, value) ∷ rest else (i, w) ∷ more

  -- `delete(m, k)`
  unfoldable pub erase : K → Table K V → Table K V
  erase key [] = []
  erase key ((i, w) ∷ rest) = let less = erase key rest in if i == key then less else (i, w) ∷ less

  -- `v, ok := m[k]`
  unfoldable pub lookup : K → Table K V → Option V
  lookup key [] = none
  lookup key ((i, w) ∷ rest) = let more = lookup key rest in if i == key then some w else more

module _ {ℓ κ} {K : Type ℓ} {V : Type κ} where
  -- `for k, v := range m { if !keep(v) { delete(m, k) } }`
  unfoldable pub retain : (V → Bool) → Table K V → Table K V
  retain keep [] = []
  retain keep ((k, v) ∷ m) = let rest = retain keep m in if keep v then (k, v) ∷ rest else rest

  -- The scan for the earliest timestamp, with the best key so far and its time.
  unfoldable pub oldest_from : (V → ℕ) → Option (K × ℕ) → Table K V → Option (K × ℕ)
  oldest_from at best [] = best
  oldest_from at none ((k, v) ∷ m) = oldest_from at (some (k, at v)) m
  oldest_from at (some (b, t)) ((k, v) ∷ m) =
      oldest_from at (some (if ltb (at v) t then (k, at v) else (b, t))) m

  unfoldable pub oldest : (V → ℕ) → Table K V → Option (K × ℕ)
  unfolding oldest_from
  oldest at m = oldest_from at none m

module _ {ℓ κ} {K : Type ℓ} {V : Type κ} ⦃q : Equality K⦄ where
  -- Deletes the entry with the earliest timestamp, if there is any.
  unfoldable pub evict_oldest : (V → ℕ) → Table K V → Table K V
  evict_oldest at m = elim (oldest at m) [ none ↦ m | some (k, t) ↦ erase k m ]

  -- No key stands twice.
  abbrev pub IsMap : Table K V → Type κ
  IsMap [] = Unit
  IsMap ((k, v) ∷ m) = (lookup k m ≡ none) × IsMap m
