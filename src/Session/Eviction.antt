-- ===== src/Session/Eviction.antt =====
-- Which live session a login can cost (internal/auth/session.go).
use byte_bucket.Prelude.{
  ℕ, ◌≤◌, ◌≡◌, List, length, arith, false, some, not, ◌⊎◌, inl, inr, Bool-cases, list_equality,
  nat_equality, leb, leb→le, ◌==◌,
}
use byte_bucket.Bytes.{Bytes}
use byte_bucket.Table
use byte_bucket.Table.{
  IsMap, AllFrom, lookup-insert, lookup-retain, keep_if, retain, insert, evict_oldest, retain-IsMap,
  lookup-evict_oldest,
}
use byte_bucket.Base64.{raw_encode}
use byte_bucket.Session.{
  SessionStore, Session, Token, Digest, expired, prune_locked, evict_lru_locked, prune_if_full,
  evict_if_full, create,
}

prune_if_full-IsMap :
    (s : SessionStore) (now : ℕ) → IsMap s.by_digest → IsMap (prune_if_full s now).by_digest
unfolding prune_locked
prune_if_full-IsMap s now d =
    ground (arith, retain-IsMap (λ (x : Session). not (expired s x now)) s.by_digest d)

-- Pruning keeps every session that has not expired.
prune_if_full-lookup :
    (s : SessionStore) (now : ℕ) (key : Digest) (x : Session)
    → IsMap s.by_digest
    → Table.lookup key s.by_digest ≡ some x
    → expired s x now ≡ false
    → Table.lookup key (prune_if_full s now).by_digest ≡ some x
unfolding prune_locked
prune_if_full-lookup s now key x d h alive =
    elim (Bool-cases (leb s.capacity (length s.by_digest))) [
      | inr free ↦ rw free h
      | inl full ↦ rw full (
          rw (lookup-retain (λ (y : Session). not (expired s y now)) key s.by_digest d)
            (rw h (rw alive)))
    ]

-- The table is full, and the session is among the least recently used.
abbrev pub IsVictim : SessionStore → Session → Type 0
IsVictim s x =
    (s.capacity ≤ length s.by_digest)
    × AllFrom (λ (y : Session). y.last_seen) x.last_seen s.by_digest

evict_if_full-lookup :
    (s : SessionStore) (key : Digest) (x : Session)
    → IsMap s.by_digest
    → Table.lookup key s.by_digest ≡ some x
    → (Table.lookup key (evict_if_full s).by_digest ≡ some x) ⊎ IsVictim s x
unfolding evict_lru_locked
evict_if_full-lookup s key x d h = elim (Bool-cases (leb s.capacity (length s.by_digest))) [
  | inr free ↦ rw free (inl h)
  | inl full ↦ elim (lookup-evict_oldest (λ (y : Session). y.last_seen) s.by_digest key x d h) [
    | inl same ↦ rw full (inl same)
    | inr least ↦ inr (leb→le _ _ full, least)
  ]
]

module _ (digest : Token → Digest) where
  -- A login leaves the entry of every other digest whose session has not expired, unless even
  -- without the expired sessions the table is full and that session is among the least recently
  -- used.
  pub lookup-create_other :
      (s : SessionStore) (now : ℕ) (raw : List ℕ) (access_key : Bytes) (key : Digest) (x : Session)
      → IsMap s.by_digest
      → (digest (raw_encode raw) == key) ≡ false
      → Table.lookup key s.by_digest ≡ some x
      → expired s x now ≡ false
      → (Table.lookup key (create digest s now raw access_key).0.by_digest ≡ some x)
        ⊎ IsVictim (prune_if_full s now) x
  unfolding create
  lookup-create_other s now raw access_key key x d ne h alive =
      elim (evict_if_full-lookup (prune_if_full s now) key x (prune_if_full-IsMap s now d)
        (prune_if_full-lookup s now key x d h alive)) [
          | inl kept ↦ inl (
              rw
                (lookup-insert (digest (raw_encode raw)) key _
                  (evict_if_full (prune_if_full s now)).by_digest)
                (rw ne kept))
          | inr victim ↦ inr victim
        ]
