-- ===== src/Limiter/Others.antt =====
-- What a failure or a success of one client does to the others (internal/auth/limiter.go).
use byte_bucket.Prelude.{
  ℕ, ◌+◌, ◌≤◌, ◌≡◌, refl, ◌∙◌, length, arith, Option, none, some, inl, inr, ◌⊎◌, false, Bool-cases,
  Option-cases, ltb, leb, leb→le, if◌then◌else◌, ◌==◌, list_equality, nat_equality,
}
use byte_bucket.Bytes.{Bytes}
use byte_bucket.Table.{
  erase, insert, lookup, lookup-insert, lookup-erase, lookup-retain, keep_if, IsMap, AllFrom,
  lookup-evict_oldest_cases, evict_oldest, erase-IsMap, retain-IsMap,
}
use byte_bucket.Limiter.{
  FailureLimiter, FailureWindow, fail, fail_window, open_window, reset, make_room, blocked,
  blocked_window, prune_locked, evict_oldest_locked, prune_if_full, evict_if_full,
}

-- A success forgets the failures of its own client and nothing else.
pub blocked-reset :
    (l : FailureLimiter) (now : ℕ) (key j : Bytes)
    → blocked (reset l key) now j ≡ (if key == j then (0, false) else blocked l now j)
unfolding blocked reset blocked_window
blocked-reset l now key j = rw (lookup-erase key j l.by_key, blocked_window) (ground arith)

-- The answer for `j` depends on its entry and the settings.
same_entry :
    (l l' : FailureLimiter) (now : ℕ) (j : Bytes)
    → lookup j l'.by_key ≡ lookup j l.by_key
    → l'.max ≡ l.max
    → l'.window ≡ l.window
    → blocked l' now j ≡ blocked l now j
unfolding blocked
same_entry l l' now j e m w = rw e (blocked_window_same (lookup j l.by_key))
  where
    blocked_window_same :
        (o : Option FailureWindow) → blocked_window l' now o ≡ blocked_window l now o
    blocked_window_same none = refl
    blocked_window_same (some v) = rw (m, w)

pruned_entry :
    (l : FailureLimiter) (now : ℕ) (o : Option FailureWindow)
    → blocked_window (prune_locked l now) now (keep_if (λ w. ltb now (w.start + l.window)) o)
      ≡ blocked_window l now o
unfolding blocked_window prune_locked
pruned_entry l now none = refl
pruned_entry l now (some w) = ground arith

prune_locked-blocked :
    (l : FailureLimiter) (now : ℕ) (j : Bytes)
    → IsMap l.by_key
    → blocked (prune_locked l now) now j ≡ blocked l now j
unfolding blocked prune_locked
prune_locked-blocked l now j d =
    rw (lookup-retain (λ (w : FailureWindow). ltb now (w.start + l.window)) j l.by_key d)
      (pruned_entry l now (lookup j l.by_key))

-- `j` has the earliest window of a full table, so it is the one that is evicted.
abbrev pub IsVictim : FailureLimiter → Bytes → Type 0
IsVictim l j =
    (l.capacity ≤ length l.by_key)
    × (w : FailureWindow) × (lookup j l.by_key ≡ some w)
    × AllFrom (λ (v : FailureWindow). v.start) w.start l.by_key

evict_if_full-lookup :
    (l : FailureLimiter) (j : Bytes)
    → IsMap l.by_key
    → (lookup j (evict_if_full l).by_key ≡ lookup j l.by_key) ⊎ IsVictim l j
unfolding evict_oldest_locked
evict_if_full-lookup l j d = elim (Bool-cases (leb l.capacity (length l.by_key))) [
  | inl full ↦ rw full (evicted (leb→le _ _ full))
  | inr free ↦ rw free (inl refl)
]
  where
    evicted :
        l.capacity ≤ length l.by_key
        → (lookup j (evict_oldest (λ (v : FailureWindow). v.start) l.by_key) ≡ lookup j l.by_key)
          ⊎ IsVictim l j
    evicted full = elim (lookup-evict_oldest_cases (λ (v : FailureWindow). v.start) l.by_key j d) [
      | inl same ↦ inl same
      | inr least ↦ inr (full, least.0, least.1, least.2)
    ]

prune_if_full-blocked :
    (l : FailureLimiter) (now : ℕ) (j : Bytes)
    → IsMap l.by_key
    → blocked (prune_if_full l now) now j ≡ blocked l now j
prune_if_full-blocked l now j d = elim (Bool-cases (leb l.capacity (length l.by_key))) [
  | inl full ↦ rw full (prune_locked-blocked l now j d)
  | inr free ↦ rw free refl
]

prune_if_full-IsMap :
    (l : FailureLimiter) (now : ℕ) → IsMap l.by_key → IsMap (prune_if_full l now).by_key
unfolding prune_locked
prune_if_full-IsMap l now d =
    ground (arith, retain-IsMap (λ (w : FailureWindow). ltb now (w.start + l.window)) l.by_key d)

evict_if_full-blocked :
    (l : FailureLimiter) (now : ℕ) (j : Bytes)
    → IsMap l.by_key
    → (blocked (evict_if_full l) now j ≡ blocked l now j) ⊎ IsVictim l j
unfolding evict_oldest_locked
evict_if_full-blocked l now j d = elim (evict_if_full-lookup l j d) [
  | inl same ↦ inl (same_entry l (evict_if_full l) now j same (ground arith) (ground arith))
  | inr victim ↦ inr victim
]

insert-blocked :
    (l : FailureLimiter) (now : ℕ) (key j : Bytes) (w : FailureWindow)
    → (key == j) ≡ false
    → blocked (record l { by_key = insert key w l.by_key }) now j ≡ blocked l now j
insert-blocked l now key j w ne =
    same_entry l _ now j (rw (lookup-insert key j w l.by_key, ne)) refl refl

-- The table as it stands when a new window of `key` asks for room: without the old one of `key`,
-- and without elapsed windows if it was full.
abbrev pub before_eviction : FailureLimiter → ℕ → Bytes → FailureLimiter
before_eviction l now key = prune_if_full (record l { by_key = erase key l.by_key }) now

open_window-blocked :
    (l : FailureLimiter) (now : ℕ) (key j : Bytes)
    → IsMap l.by_key
    → (key == j) ≡ false
    → (blocked (open_window l now key) now j ≡ blocked l now j)
      ⊎ IsVictim (before_eviction l now key) j
unfolding open_window
open_window-blocked l now key j d ne =
    elim (evict_if_full-blocked (before_eviction l now key) now j
      (prune_if_full-IsMap erased now d')) [
        | inl same ↦ inl (
            insert-blocked (make_room l now key) now key j _ ne
            ∙ same
            ∙ prune_if_full-blocked erased now j d'
            ∙ same_entry l erased now j (rw (lookup-erase key j l.by_key, ne)) refl refl)
        | inr victim ↦ inr victim
      ]
  where
    erased : FailureLimiter
    erased = record l { by_key = erase key l.by_key }

    d' : IsMap erased.by_key
    d' = erase-IsMap key l.by_key d

-- Recording a failure of `key` leaves every other client as blocked or as free as it was, and for
-- as long, unless the table is full of active windows and the other client's began no later than
-- any of them: that one is evicted.
pub fail-blocked_other :
    (l : FailureLimiter) (now : ℕ) (key j : Bytes)
    → IsMap l.by_key
    → (key == j) ≡ false
    → (blocked (fail l now key) now j ≡ blocked l now j) ⊎ IsVictim (before_eviction l now key) j
unfolding fail
fail-blocked_other l now key j d ne = elim (Option-cases (lookup key l.by_key)) [
  | inl e ↦ rw (e, fail, fail_window) (open_window-blocked l now key j d ne)
  | inr (w, e) ↦ elim (Bool-cases (ltb now (w.start + l.window))) [
    | inl active ↦ rw (e, fail, fail_window) (rw active (inl (insert-blocked l now key j _ ne)))
    | inr over ↦ rw (e, fail, fail_window) (rw over (open_window-blocked l now key j d ne))
  ]
]
