-- ===== src/IpBan/Banning.antt =====
-- When an address is banned, and for how long (internal/middleware/ipban.go).
use byte_bucket.Prelude.{
  ℕ, suc, ◌+◌, ◌≤◌, ◌<◌, ◌≡◌, refl, sym, ap, subst, ◌∙◌, String, List, [], ◌∷◌, length, arith,
  Option, none, some, Bool, true, false, Option-cases, string_equality, ==_refl, inl, inr, ltb, leb,
  lt→ltb, le→ltb_false, if◌then◌else◌, nat_equality,
}
use byte_bucket.Table.{evict_oldest, lookup, lookup-insert}
use byte_bucket.IpBan.{
  BanStore, FailEntry, banned_until, banned_locked, fresh_entry, entry_of, fail_entry_locked,
  impose, count_failure, fail_unless, fail,
}

-- Whether `ip` is banned at `now`.
abbrev pub is_banned : BanStore → String → ℕ → Bool
is_banned s ip now = (banned_locked s ip now).1

-- `ip` is not in the ban table, and has no active counting window at `now`.
pub record IsIdle (s : BanStore) (ip : String) (now : ℕ) : Type 0 where
  pub no_ban : lookup ip s.bans ≡ none
  pub no_window : (e : FailEntry) → lookup ip s.fails ≡ some e → e.start + s.window ≤ now

-- `ip` has failed `count` times in its window, and the thresholds are those given.
record Counting (s : BanStore) (ip : String) (count start max window ban : ℕ) : Type 0 where
  no_ban : lookup ip s.bans ≡ none
  entry : lookup ip s.fails ≡ some (record { count = count; start = start })
  same_max : s.max ≡ max
  same_window : s.window ≡ window
  same_ban : s.ban ≡ ban

fail_unbanned :
    (s : BanStore) (ip : String) (now : ℕ)
    → lookup ip s.bans ≡ none
    → fail s ip now
      ≡ count_failure (fail_entry_locked s ip now).0 ip now (fail_entry_locked s ip now).1
unfolding fail banned_locked fail_unless banned_until
fail_unbanned s ip now h = rw (h, banned_until)

count_failure-Counting :
    (s : BanStore) (ip : String) (now : ℕ) (e : FailEntry)
    → lookup ip s.bans ≡ none
    → e.count + 1 < s.max
    → Counting (count_failure s ip now e).0 ip (e.count + 1) e.start s.max s.window s.ban
unfolding count_failure
count_failure-Counting s ip now e h less = rw (lt→ltb _ _ less) (record {
  no_ban = h;
  entry = rw (lookup-insert ip ip (record e { count = e.count + 1 }) s.fails) (rw (==_refl ip));
  same_max = refl;
  same_window = refl;
  same_ban = refl;
})

-- The failure that reaches `max` imposes the ban.
Imposes : BanStore × Option (ℕ × ℕ) → String → ℕ → ℕ → Type 0
Imposes (s, r) ip until n = (lookup ip s.bans ≡ some until) × (r ≡ some (until, n))

count_failure-Imposes :
    (s : BanStore) (ip : String) (now : ℕ) (e : FailEntry)
    → e.count + 1 ≡ s.max
    → Imposes (count_failure s ip now e) ip (now + s.ban) s.max
unfolding count_failure impose Imposes
count_failure-Imposes s ip now e full = rw (le→ltb_false (e.count + 1) s.max (omega arith)) (
  rw
      (lookup-insert ip ip (now + s.ban)
        (if leb s.limit (length s.bans) then evict_oldest (λ (t : ℕ). t) s.bans else s.bans))
      (rw (==_refl ip)),
  ground arith,
)

idle_entry :
    (s : BanStore) (ip : String) (now : ℕ)
    → IsIdle s ip now
    → (o : Option FailEntry) × (fail_entry_locked s ip now ≡ fresh_entry s ip now o)
unfolding fail_entry_locked
idle_entry s ip now i = elim (Option-cases (lookup ip s.fails)) [
  | inl e ↦ (none, rw (e, entry_of))
  | inr (f, e) ↦ (some f, rw (e, entry_of) (rw (le→ltb_false _ _ (i.no_window f e))))
]

Counting-entry :
    (s : BanStore) (ip : String) (now count start max window ban : ℕ)
    → Counting s ip count start max window ban
    → now < start + window
    → fail_entry_locked s ip now ≡ (s, record { count = count; start = start })
unfolding fail_entry_locked
Counting-entry s ip now count start max window ban c h =
    let active : ltb now (start + s.window) ≡ true = lt→ltb _ _ (omega (arith, c.same_window)) in
    rw (c.entry, entry_of) (rw active)

first-Counting :
    (s : BanStore) (ip : String) (now : ℕ)
    → IsIdle s ip now
    → 1 < s.max
    → Counting (fail s ip now).0 ip 1 now s.max s.window s.ban
unfolding fresh_entry
first-Counting s ip now i less =
    let (o, e) = idle_entry s ip now i in
    rw (fail_unbanned s ip now i.no_ban) (
      rw e (
        count_failure-Counting (fresh_entry s ip now o).0 ip now (record { count = 0; start = now })
          i.no_ban less))

first-Imposes :
    (s : BanStore) (ip : String) (now : ℕ)
    → IsIdle s ip now
    → s.max ≡ 1
    → Imposes (fail s ip now) ip (now + s.ban) s.max
unfolding fresh_entry
first-Imposes s ip now i one =
    let (o, e) = idle_entry s ip now i in
    rw (fail_unbanned s ip now i.no_ban) (
      rw e (
        count_failure-Imposes (fresh_entry s ip now o).0 ip now (record { count = 0; start = now })
          (sym one)))

module _ (ip : String) (start max window ban : ℕ) where
  next-Counting :
      (s : BanStore) (now count : ℕ)
      → Counting s ip count start max window ban
      → now < start + window
      → count + 1 < max
      → Counting (fail s ip now).0 ip (count + 1) start max window ban
  next-Counting s now count c h less = rw (fail_unbanned s ip now c.no_ban) (
      rw (Counting-entry s ip now count start max window ban c h) (
        let next =
          count_failure-Counting s ip now (record { count = count; start = start }) c.no_ban
            (omega (arith, c.same_max)) in
        record {
          no_ban = next.no_ban;
          entry = next.entry;
          same_max = next.same_max ∙ c.same_max;
          same_window = next.same_window ∙ c.same_window;
          same_ban = next.same_ban ∙ c.same_ban;
        }))

  next-Imposes :
      (s : BanStore) (now count : ℕ)
      → Counting s ip count start max window ban
      → now < start + window
      → count + 1 ≡ max
      → Imposes (fail s ip now) ip (now + ban) max
  next-Imposes s now count c h full = rw (fail_unbanned s ip now c.no_ban) (
      rw (Counting-entry s ip now count start max window ban c h) (
        rw (← c.same_ban) (
          rw (← c.same_max) (
            count_failure-Imposes s ip now (record { count = count; start = start })
              (omega (arith, c.same_max, full))))))

-- The failures of one address at the times `ts`.
pub fails_at : BanStore → String → List ℕ → BanStore
fails_at s ip [] = s
fails_at s ip (t ∷ ts) = fails_at (fail s ip t).0 ip ts

abbrev pub AllBefore : ℕ → List ℕ → Type 0
AllBefore end [] = Unit
AllBefore end (t ∷ ts) = (t < end) × AllBefore end ts

fails_at-Counting :
    (s : BanStore) (ip : String) (ts : List ℕ) (start count max window ban : ℕ)
    → Counting s ip count start max window ban
    → AllBefore (start + window) ts
    → count + length ts < max
    → Counting (fails_at s ip ts) ip (count + length ts) start max window ban
unfolding fails_at
fails_at-Counting s ip [] start count max window ban c h less =
    let same : count ≡ count + 0 = omega arith in
    subst (λ n. Counting s ip n start max window ban) same c
fails_at-Counting s ip (t ∷ ts) start count max window ban c h less =
    let rest =
      fails_at-Counting (fail s ip t).0 ip ts start (count + 1) max window ban
        (next-Counting ip start max window ban s t count c h.0 (omega (arith, less))) h.1
        (omega (arith, less)) in
    let same : (count + 1) + length ts ≡ count + suc (length ts) = omega arith in
    subst (λ n. Counting (fails_at (fail s ip t).0 ip ts) ip n start max window ban) same rest

no_ban→free :
    (s : BanStore) (ip : String) (u : ℕ) → lookup ip s.bans ≡ none → is_banned s ip u ≡ false
unfolding banned_locked banned_until
no_ban→free s ip u h = ap (λ o. (banned_until s ip u o).1) h

until→is_banned :
    (s : BanStore) (ip : String) (u until : ℕ)
    → lookup ip s.bans ≡ some until
    → is_banned s ip u ≡ ltb u until
unfolding banned_locked banned_until
until→is_banned s ip u until h = ap (λ o. (banned_until s ip u o).1) h ∙ ground arith

-- An address with no ban and no active window fails at `start` and at the times `ts`, all within
-- the window that `start` opens. With fewer than `max` failures it is not banned at any time.
pub is_banned-fails_at :
    (s : BanStore) (ip : String) (start : ℕ) (ts : List ℕ) (u : ℕ)
    → IsIdle s ip start
    → AllBefore (start + s.window) ts
    → 1 + length ts < s.max
    → is_banned (fails_at s ip (start ∷ ts)) ip u ≡ false
unfolding fails_at
is_banned-fails_at s ip start ts u idle before less =
    no_ban→free (fails_at (fail s ip start).0 ip ts) ip u
      (fails_at-Counting (fail s ip start).0 ip ts start 1 s.max s.window s.ban
        (first-Counting s ip start idle (omega (arith, less))) before less).no_ban

abbrev pub first_of : List ℕ → ℕ → ℕ
first_of [] now = now
first_of (t ∷ ts) now = t

-- A ban of `ip` until `until`, with the answer that reports it.
abbrev pub IsBan : BanStore × Option (ℕ × ℕ) → String → ℕ → ℕ → Type 0
IsBan r ip until n = (r.1 ≡ some (until, n)) × ((u : ℕ) → is_banned r.0 ip u ≡ ltb u until)

Imposes→IsBan :
    (r : BanStore × Option (ℕ × ℕ)) (ip : String) (until n : ℕ)
    → Imposes r ip until n
    → IsBan r ip until n
unfolding Imposes
Imposes→IsBan (s, r) ip until n h = (h.1, λ u. until→is_banned s ip u until h.0)

-- The failure at `now` is the `max`-th in the window that the first one opened, the others being
-- at the times `ts`. It imposes the ban and reports it with its expiry and the count, and the
-- address is banned exactly until `ban` after `now`.
pub fail-fails_at :
    (s : BanStore) (ip : String) (ts : List ℕ) (now : ℕ)
    → IsIdle s ip (first_of ts now)
    → AllBefore (first_of ts now + s.window) ts
    → now < first_of ts now + s.window
    → length ts + 1 ≡ s.max
    → IsBan (fail (fails_at s ip ts) ip now) ip (now + s.ban) s.max
unfolding fails_at
fail-fails_at s ip [] now idle before within full =
    Imposes→IsBan (fail s ip now) ip (now + s.ban) s.max (first-Imposes s ip now idle (sym full))
fail-fails_at s ip (t ∷ ts) now idle before within full = Imposes→IsBan _ ip (now + s.ban) s.max (
    next-Imposes ip t s.max s.window s.ban (fails_at (fail s ip t).0 ip ts) now (1 + length ts)
      (fails_at-Counting (fail s ip t).0 ip ts t 1 s.max s.window s.ban
        (first-Counting s ip t idle (omega (arith, full))) before.1 (omega (arith, full)))
      within (omega (arith, full)))
