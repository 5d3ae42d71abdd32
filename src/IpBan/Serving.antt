-- ===== src/IpBan/Serving.antt =====
-- A ban that has been imposed is served to its end (internal/middleware/ipban.go).
use mathlib.Core.Option.{some-injective}
use byte_bucket.Prelude.{
  ℕ, ◌≤◌, ◌<◌, ◌+◌, ◌≡◌, refl, sym, subst, ◌∙◌, String, length, arith, Option, none, some, false,
  Bool-cases, string_equality, inl, inr, ◌⊎◌, ltb, leb, leb→le, ltb_false→le, ◌==◌, nat_equality,
}
use byte_bucket.Table.{
  IsMap, AllFrom, erase, evict_oldest, lookup, lookup-insert, lookup-erase, lookup-evict_oldest,
  erase-IsMap, length-erase-lt,
}
use byte_bucket.IpBan.Bounds.{IsBounded}
use byte_bucket.IpBan.{
  BanStore, FailEntry, banned_until, banned_locked, fresh_entry, entry_of, fail_entry_locked,
  impose, count_failure, fail_unless, fail,
}

-- The ban table is full and no ban in it ends before `until`.
abbrev pub IsVictim : BanStore → ℕ → Type 0
IsVictim s until = (s.limit ≤ length s.bans) × AllFrom (λ (t : ℕ). t) until s.bans

abbrev Serves : BanStore → String → ℕ → Type 0
Serves s ip until = lookup ip s.bans ≡ some until

entry_of-bans :
    (s : BanStore) (j : String) (now : ℕ) (o : Option FailEntry)
    → ((entry_of s j now o).0.bans ≡ s.bans) × ((entry_of s j now o).0.limit ≡ s.limit)
unfolding entry_of fresh_entry
entry_of-bans s j now none = (refl, refl)
entry_of-bans s j now (some f) = (ground arith, ground arith)

impose-Serves :
    (s : BanStore) (ip j : String) (end until : ℕ)
    → (j == ip) ≡ false
    → IsMap s.bans
    → Serves s ip until
    → Serves (impose s j end) ip until ⊎ IsVictim s until
unfolding impose
impose-Serves s ip j end until ne d h = elim (Bool-cases (leb s.limit (length s.bans))) [
  | inr free ↦ inl (rw free (rw (lookup-insert j ip end s.bans) (rw ne h)))
  | inl full ↦ elim (lookup-evict_oldest (λ (t : ℕ). t) s.bans ip until d h) [
    | inl kept ↦
        inl
          (rw full (rw (lookup-insert j ip end (evict_oldest (λ (t : ℕ). t) s.bans)) (rw ne kept)))
    | inr least ↦ inr (leb→le _ _ full, least)
  ]
]

count_failure-Serves :
    (s : BanStore) (ip j : String) (now : ℕ) (e : FailEntry) (until : ℕ)
    → (j == ip) ≡ false
    → IsMap s.bans
    → Serves s ip until
    → Serves (count_failure s j now e).0 ip until ⊎ IsVictim s until
unfolding count_failure
count_failure-Serves s ip j now e until ne d h = elim (Bool-cases (ltb (e.count + 1) s.max)) [
  | inl less ↦ rw less (inl h)
  | inr full ↦ rw full (impose-Serves s ip j (now + s.ban) until ne d h)
]

-- The failure of an address that is not banned, from a store with room or without.
unbanned-Serves :
    (s : BanStore) (ip j : String) (now until : ℕ)
    → (j == ip) ≡ false
    → IsMap s.bans
    → Serves s ip until
    → Serves (fail_unless (s, false) j now).0 ip until ⊎ IsVictim s until
unfolding fail_unless fail_entry_locked
unbanned-Serves s ip j now until ne d h =
    let (bans, limit) = entry_of-bans s j now (lookup j s.fails) in
    let s' = (entry_of s j now (lookup j s.fails)).0 in
    elim (count_failure-Serves s' ip j now (entry_of s j now (lookup j s.fails)).1 until ne
      (rw bans d) (rw bans h)) [
        | inl kept ↦ inl kept
        | inr (full, least) ↦
            inr
              (subst (λ b. s.limit ≤ length b) bans (omega (arith, full, limit)), rw bans at least)
      ]

other_than :
    (s : BanStore) (ip j : String) (now until : ℕ) (o : Option ℕ)
    → lookup j s.bans ≡ o
    → Serves s ip until
    → now < until
    → ((t : ℕ) → o ≡ some t → t ≤ now)
    → (j == ip) ≡ false
other_than s ip j now until o e h k over = elim (Bool-cases (j == ip)) [
  | inr ne ↦ ne
  | inl same ↦
      let l : lookup ip s.bans ≡ o =
        subst (λ i. lookup i s.bans ≡ o) ((string_equality.test_iff j ip).0 same) e in
      absurd (omega (arith, over until (sym l ∙ h), k))
]

fail_with :
    (s : BanStore) (ip j : String) (now until : ℕ) (o : Option ℕ)
    → lookup j s.bans ≡ o
    → IsBounded s
    → Serves s ip until
    → now < until
    → Serves (fail_unless (banned_until s j now o) j now).0 ip until ⊎ IsVictim s until
unfolding banned_until
fail_with s ip j now until none e v h k =
    unbanned-Serves s ip j now until (other_than s ip j now until none e h k (λ t p. cc p))
      v.distinct_bans h
fail_with s ip j now until (some other) e v h k = elim (Bool-cases (ltb now other)) [
  | inl on ↦ rw on (unfold fail_unless in inl h)
  | inr over ↦
      let ended : (t : ℕ) → some other ≡ some t → t ≤ now =
        λ t p. omega (arith, some-injective other t p, ltb_false→le now other over) in
      let ne = other_than s ip j now until (some other) e h k ended in
      let s' : BanStore = record s { bans = erase j s.bans } in
      let fewer : length (erase j s.bans) < length s.bans =
        length-erase-lt j s.bans (λ z. cc (z, e)) in
      rw over
        (elim (unbanned-Serves s' ip j now until ne (erase-IsMap j s.bans v.distinct_bans)
          (rw (lookup-erase j ip s.bans) (rw ne h))) [
            | inl kept ↦ inl kept
            | inr (full, least) ↦ absurd (omega (arith, full, fewer, v.few_bans))
          ])
]

-- A failure of any address, the banned one included, neither lifts a running ban nor moves its
-- end, unless the ban table is full and no ban in it ends sooner: that one is evicted.
pub fail-Serves :
    (s : BanStore) (ip j : String) (now until : ℕ)
    → IsBounded s
    → lookup ip s.bans ≡ some until
    → now < until
    → (lookup ip (fail s j now).0.bans ≡ some until) ⊎ IsVictim s until
unfolding fail banned_locked
fail-Serves s ip j now until v h k = fail_with s ip j now until (lookup j s.bans) refl v h k
