-- ===== src/Limiter/Lockout.antt =====
-- When a client is locked out, for how long, and how it gets out (internal/auth/limiter.go).
use byte_bucket.Prelude.{
  ℕ, ◌+◌, ◌-◌, ◌≤◌, ◌<◌, ◌≡◌, refl, ◌∙◌, List, [], ◌∷◌, length, arith, Option, none, some, inl, inr,
  true, false, Option-cases, ltb, leb, if◌then◌else◌, ==_refl, lt→ltb, le→ltb_false, list_equality,
  nat_equality,
}
use byte_bucket.Bytes.{Bytes}
use byte_bucket.Table.{lookup, lookup-insert}
use byte_bucket.Limiter.{
  FailureLimiter, FailureWindow, fail, fail_window, open_window, make_room, blocked, blocked_window,
  prune_locked, evict_oldest_locked,
}

-- No window of `key` is active at `now`: it never failed, or its last window has elapsed.
abbrev pub IsIdle : FailureLimiter → ℕ → Bytes → Type 0
IsIdle l now key = (w : FailureWindow) → lookup key l.by_key ≡ some w → w.start + l.window ≤ now

-- The entry of `key` and the settings that decide whether it is locked out.
abbrev pub Counts : FailureLimiter → Bytes → ℕ → ℕ → ℕ → ℕ → Type 0
Counts l key max window count start =
    (lookup key l.by_key ≡ some (record { count = count; start = start }))
    × (l.max ≡ max)
    × (l.window ≡ window)

open_window-Counts :
    (l : FailureLimiter) (now : ℕ) (key : Bytes)
    → Counts (open_window l now key) key l.max l.window 1 now
unfolding open_window prune_locked evict_oldest_locked
open_window-Counts l now key = (
  rw (lookup-insert key key (record { count = 1; start = now }) (make_room l now key).by_key)
      (rw (==_refl key)),
  ground arith,
  ground arith,
)

pub fail_idle-Counts :
    (l : FailureLimiter) (now : ℕ) (key : Bytes)
    → IsIdle l now key
    → Counts (fail l now key) key l.max l.window 1 now
unfolding fail
fail_idle-Counts l now key idle = elim (Option-cases (lookup key l.by_key)) [
  | inl e ↦ rw (e, fail, fail_window) (open_window-Counts l now key)
  | inr (w, e) ↦
      rw (e, fail, fail_window) (rw (le→ltb_false _ _ (idle w e)) (open_window-Counts l now key))
]

pub fail-Counts :
    (l : FailureLimiter) (now : ℕ) (key : Bytes) (max window count start : ℕ)
    → Counts l key max window count start
    → now < start + window
    → Counts (fail l now key) key max window (count + 1) start
unfolding fail fail_window
fail-Counts l now key max window count start (e, m, w) h =
    let active : ltb now (start + l.window) ≡ true = lt→ltb _ _ (omega arith) in
    rw (e, fail, fail_window)
      (rw active (
        rw (lookup-insert key key (record { count = count + 1; start = start }) l.by_key)
            (rw (==_refl key)),
        m,
        w,
      ))

-- Further failures of `key` at the given times.
pub fails : FailureLimiter → Bytes → List ℕ → FailureLimiter
fails l key [] = l
fails l key (t ∷ ts) = fails (fail l t key) key ts

abbrev pub AllBefore : ℕ → List ℕ → Type 0
AllBefore end [] = Unit
AllBefore end (t ∷ ts) = (t < end) × AllBefore end ts

fails-Counts :
    (l : FailureLimiter) (key : Bytes) (ts : List ℕ) (max window count start : ℕ)
    → Counts l key max window count start
    → AllBefore (start + window) ts
    → Counts (fails l key ts) key max window (count + length ts) start
unfolding fails
fails-Counts l key [] max window count start (e, m, w) h = (ground arith, m, w)
fails-Counts l key (t ∷ ts) max window count start c h =
    let rest =
      fails-Counts (fail l t key) key ts max window (count + 1) start
        (fail-Counts l t key max window count start c h.0) h.1 in
    ground (arith, rest)

pub blocked-Counts :
    (l : FailureLimiter) (now : ℕ) (key : Bytes) (max window count start : ℕ)
    → Counts l key max window count start
    → now < start + window
    → blocked l now key ≡ (if leb max count then ((start + window) - now, true) else (0, false))
unfolding blocked blocked_window
blocked-Counts l now key max window count start (e, m, w) h = rw (e, blocked_window) (ground arith)

-- A client with no active window fails at `start` and then at the times `ts`, all before the
-- window ends. As long as the window lasts it is locked out exactly when the failures have reached
-- the limit, and the answer is the time that is left of the window.
pub blocked-fails :
    (l : FailureLimiter) (key : Bytes) (start : ℕ) (ts : List ℕ) (now : ℕ)
    → IsIdle l start key
    → AllBefore (start + l.window) ts
    → now < start + l.window
    → blocked (fails (fail l start key) key ts) now key
      ≡ (if leb l.max (1 + length ts) then ((start + l.window) - now, true) else (0, false))
blocked-fails l key start ts now idle before within =
    blocked-Counts _ now key l.max l.window (1 + length ts) start
      (fails-Counts (fail l start key) key ts l.max l.window 1 start
        (fail_idle-Counts l start key idle) before)
      within

blocked_window_ends :
    (l : FailureLimiter) (now left d : ℕ) (w : Option FailureWindow)
    → blocked_window l now w ≡ (left, true)
    → blocked_window l (now + d) w ≡ (if ltb d left then (left - d, true) else (0, false))
unfolding blocked_window
blocked_window_ends l now left d none h = absurd (ground arith)
blocked_window_ends l now left d (some w) h = ground arith

-- A lockout lasts exactly as long as was announced: `left` at `now` is `left - d` at `now + d`,
-- and from `now + left` on the client is free.
pub blocked_ends :
    (l : FailureLimiter) (now left d : ℕ) (key : Bytes)
    → blocked l now key ≡ (left, true)
    → blocked l (now + d) key ≡ (if ltb d left then (left - d, true) else (0, false))
unfolding blocked
blocked_ends l now left d key h = blocked_window_ends l now left d (lookup key l.by_key) h

none_not_blocked :
    (l : FailureLimiter) (now left : ℕ) → blocked_window l now none ≡ (left, true) → ⊥
unfolding blocked_window
none_not_blocked l now left h = ground arith

blocked_window→active :
    (l : FailureLimiter) (now left : ℕ) (w : FailureWindow)
    → blocked_window l now (some w) ≡ (left, true)
    → (left ≡ (w.start + l.window) - now) × (l.max ≤ w.count) × (now < w.start + l.window)
unfolding blocked_window
blocked_window→active l now left w h = (ground arith, ground arith, ground arith)

-- A failure that is recorded while the client is locked out neither lengthens nor shortens the
-- lockout.
pub blocked-fail :
    (l : FailureLimiter) (now left : ℕ) (key : Bytes)
    → blocked l now key ≡ (left, true)
    → blocked (fail l now key) now key ≡ (left, true)
unfolding blocked
blocked-fail l now left key h = elim (Option-cases (lookup key l.by_key)) [
  | inl e ↦ absurd (none_not_blocked l now left (rw e at h))
  | inr (w, e) ↦
      let (same, reached, active) = blocked_window→active l now left w (rw e at h) in
      let c = fail-Counts l now key l.max l.window w.count w.start (e, refl, refl) active in
      blocked-Counts (fail l now key) now key l.max l.window (w.count + 1) w.start c active
      ∙ ground arith
]

not_blocked_idle :
    (l : FailureLimiter) (now : ℕ) (w : Option FailureWindow)
    → ((v : FailureWindow) → w ≡ some v → v.start + l.window ≤ now)
    → blocked_window l now w ≡ (0, false)
unfolding blocked_window
not_blocked_idle l now none h = refl
not_blocked_idle l now (some v) h = let over = h v refl in ground arith

pub blocked_idle :
    (l : FailureLimiter) (now : ℕ) (key : Bytes) → IsIdle l now key → blocked l now key ≡ (0, false)
unfolding blocked
blocked_idle l now key idle = not_blocked_idle l now (lookup key l.by_key) idle
