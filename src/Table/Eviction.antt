-- ===== src/Table/Eviction.antt =====
-- The scan for the earliest entry finds an entry, and no entry of the table is earlier.
use byte_bucket.Prelude.{
  ◌∙◌, ◌<◌, length, none, ℕ, ◌≤◌, ◌<◌, ◌≡◌, refl, none, some, [], ◌∷◌, Equality, ◌==◌, ltb,
  if◌then◌else◌, length, Option-cases, arith, ◌⊎◌, inl, inr, ap, ltb→lt, ltb_false→le, Bool-cases,
  sym, subst,
}
use byte_bucket.Table.Defs.{
  erase, oldest, evict_oldest, Table, lookup, oldest_from, oldest, evict_oldest, IsMap,
}
use byte_bucket.Table.Laws.{length-erase-lt, length-erase-le, lookup-erase}

module _ {ℓ κ} {K : Type ℓ} {V : Type κ} (at : V → ℕ) where
  -- Every entry's time is at least `t`.
  abbrev pub AllFrom : ℕ → Table K V → Type 0
  AllFrom t [] = Unit
  AllFrom t ((k, v) ∷ m) = (t ≤ at v) × AllFrom t m

  pub AllFrom-mono : (s t : ℕ) (m : Table K V) → s ≤ t → AllFrom t m → AllFrom s m
  AllFrom-mono s t [] h a = tt
  AllFrom-mono s t ((k, v) ∷ m) h a = (omega arith, AllFrom-mono s t m h a.1)

  oldest_from-total :
      (b : K × ℕ) (m : Table K V) → (r : K × ℕ) × (oldest_from at (some b) m ≡ some r)
  unfolding oldest_from
  oldest_from-total b [] = (b, refl)
  oldest_from-total (b, t) ((k, v) ∷ m) =
      oldest_from-total (if ltb (at v) t then (k, at v) else (b, t)) m

  oldest_from_least :
      (b : K) (t : ℕ) (m : Table K V) (k : K) (u : ℕ)
      → oldest_from at (some (b, t)) m ≡ some (k, u)
      → (u ≤ t) × AllFrom u m
  unfolding oldest_from
  oldest_from_least b t [] k u h = ground arith
  oldest_from_least b t ((i, v) ∷ m) k u h = elim (Bool-cases (ltb (at v) t)) [
    | inl e ↦
        let r : (u ≤ at v) × AllFrom u m = oldest_from_least i (at v) m k u (rw e at h) in
        (omega (arith, ltb→lt (at v) t e), (r.0, r.1))
    | inr e ↦
        let r : (u ≤ t) × AllFrom u m = oldest_from_least b t m k u (rw e at h) in
        (r.0, (omega (arith, ltb_false→le (at v) t e), r.1))
  ]

  -- The entry that the scan returns is the least.
  pub oldest_least : (m : Table K V) (k : K) (u : ℕ) → oldest at m ≡ some (k, u) → AllFrom u m
  unfolding oldest oldest_from
  oldest_least [] k u h = tt
  oldest_least ((i, v) ∷ m) k u h = oldest_from_least i (at v) m k u h

module _ {ℓ κ} {K : Type ℓ} {V : Type κ} ⦃e : Equality K⦄ (at : V → ℕ) where
  pub AllFrom-lookup :
      (t : ℕ) (m : Table K V) (j : K) (w : V) → AllFrom at t m → lookup j m ≡ some w → t ≤ at w
  unfolding lookup
  AllFrom-lookup t [] j w a h = ground arith
  AllFrom-lookup t ((k, v) ∷ m) j w a h =
      ground (arith, AllFrom-lookup t m j w a.1, ap at {x = v} {y = w})

  lookup_tail :
      (i k : K) (v w : V) (m : Table K V)
      → lookup i m ≡ none
      → lookup k m ≡ some w
      → lookup k ((i, v) ∷ m) ≡ some w
  unfolding lookup
  lookup_tail i k v w m d h = ground (arith, e.test_iff i k)

  lookup_head : (i k : K) (v : V) (m : Table K V) → k ≡ i → lookup k ((i, v) ∷ m) ≡ some v
  unfolding lookup
  lookup_head i k v m h = ground (arith, e.test_iff i k)

  -- `k` is a key of the table, and its entry has the time `u`.
  oldest_from_found :
      (b : K) (t : ℕ) (m : Table K V) (k : K) (u : ℕ)
      → IsMap m
      → oldest_from at (some (b, t)) m ≡ some (k, u)
      → ((k ≡ b) × (u ≡ t)) ⊎ ((v : V) × (lookup k m ≡ some v) × (at v ≡ u))
  unfolding oldest_from
  oldest_from_found b t [] k u d h = inl (ground arith, ground arith)
  oldest_from_found b t ((i, v) ∷ m) k u d h = elim (Bool-cases (ltb (at v) t)) [
    | inl q ↦ elim (oldest_from_found i (at v) m k u d.1 (rw q at h)) [
      | inl (a, b') ↦ inr (v, lookup_head i k v m a, sym b')
      | inr (w, x, y) ↦ inr (w, lookup_tail i k v w m d.0 x, y)
    ]
    | inr q ↦ elim (oldest_from_found b t m k u d.1 (rw q at h)) [
      | inl r ↦ inl r
      | inr (w, x, y) ↦ inr (w, lookup_tail i k v w m d.0 x, y)
    ]
  ]

  -- In a map the scan returns an entry's key and its time.
  pub oldest_found :
      (m : Table K V) (k : K) (u : ℕ)
      → IsMap m
      → oldest at m ≡ some (k, u)
      → (v : V) × (lookup k m ≡ some v) × (at v ≡ u)
  unfolding oldest oldest_from
  oldest_found [] k u d h = absurd (ground arith)
  oldest_found ((i, v) ∷ m) k u d h = elim (oldest_from_found i (at v) m k u d.1 h) [
    | inl (a, b') ↦ (v, lookup_head i k v m a, sym b')
    | inr (w, x, y) ↦ (w, lookup_tail i k v w m d.0 x, y)
  ]

  pub oldest-total : (x : K × V) (m : Table K V) → (r : K × ℕ) × (oldest at (x ∷ m) ≡ some r)
  unfolding oldest oldest_from
  oldest-total (k, v) m = oldest_from-total at (k, at v) m

  -- Eviction makes room in every table that holds anything, and leaves the rest as it was.
  pub length-evict_oldest-lt :
      (m : Table K V) → IsMap m → 0 < length m → length (evict_oldest at m) < length m
  unfolding evict_oldest
  length-evict_oldest-lt [] d h = absurd (omega arith)
  length-evict_oldest-lt (x ∷ m) d h =
      let ((k, u), q) = oldest-total x m in
      let found = oldest_found (x ∷ m) k u d q in
      rw (q, evict_oldest) (length-erase-lt k (x ∷ m) (λ z. cc (z, found.1)))

  pub length-evict_oldest-le : (m : Table K V) → length (evict_oldest at m) ≤ length m
  unfolding evict_oldest
  length-evict_oldest-le m = elim (Option-cases (oldest at m)) [
    | inl h ↦ rw (h, evict_oldest) (omega arith)
    | inr ((k, u), h) ↦ rw (h, evict_oldest) (length-erase-le k m)
  ]

  evicted_time :
      (k j : K) (v : V) (u : ℕ) (m : Table K V)
      → (w : V) × (lookup k m ≡ some w) × (at w ≡ u)
      → k ≡ j
      → lookup j m ≡ some v
      → u ≡ at v
  evicted_time k j v u m (w, x, y) s h =
      let l : lookup k m ≡ some v = subst (λ i. lookup i m ≡ some v) (sym s) h in cc (x, y, l)

  -- Eviction takes out at most one key, whose entry is among the earliest.
  pub lookup-evict_oldest :
      (m : Table K V) (j : K) (v : V)
      → IsMap m
      → lookup j m ≡ some v
      → (lookup j (evict_oldest at m) ≡ some v) ⊎ AllFrom at (at v) m
  unfolding evict_oldest
  lookup-evict_oldest m j v d h = elim (Option-cases (oldest at m)) [
    | inl q ↦ inl (rw (q, evict_oldest) h)
    | inr ((k, u), q) ↦ elim (Bool-cases (k == j)) [
      | inl s ↦
          let found = oldest_found m k u d q in
          let same : u ≡ at v = evicted_time k j v u m found ((e.test_iff k j).0 s) h in
          inr (subst (λ t. AllFrom at t m) same (oldest_least at m k u q))
      | inr s ↦ inl (rw (q, evict_oldest) (rw (lookup-erase k j m, s) h))
    ]
  ]

  lookup-evict_oldest-none :
      (m : Table K V) (j : K) → lookup j m ≡ none → lookup j (evict_oldest at m) ≡ none
  unfolding evict_oldest
  lookup-evict_oldest-none m j h = elim (Option-cases (oldest at m)) [
    | inl q ↦ rw (q, evict_oldest) h
    | inr ((k, u), q) ↦ rw (q, evict_oldest) (rw (lookup-erase k j m) (ground arith))
  ]

  -- Eviction leaves a key as it was, or that key's entry is among the earliest.
  pub lookup-evict_oldest_cases :
      (m : Table K V) (j : K)
      → IsMap m
      → (lookup j (evict_oldest at m) ≡ lookup j m)
        ⊎ ((v : V) × (lookup j m ≡ some v) × AllFrom at (at v) m)
  lookup-evict_oldest_cases m j d = elim (Option-cases (lookup j m)) [
    | inl h ↦ inl (lookup-evict_oldest-none m j h ∙ sym h)
    | inr (v, h) ↦ elim (lookup-evict_oldest m j v d h) [
      | inl same ↦ inl (same ∙ sym h)
      | inr least ↦ inr (v, h, least)
    ]
  ]

  -- What is there after eviction was there before.
  pub lookup-evict_oldest-some :
      (m : Table K V) (j : K) (v : V) → lookup j (evict_oldest at m) ≡ some v → lookup j m ≡ some v
  unfolding evict_oldest
  lookup-evict_oldest-some m j v h = elim (Option-cases (oldest at m)) [
    | inl q ↦ rw (q, evict_oldest) at h
    | inr ((k, u), q) ↦
        let h' : lookup j (erase k m) ≡ some v = rw (q, evict_oldest) at h in
        ground (arith, lookup-erase k j m)
  ]
