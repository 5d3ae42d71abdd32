-- ===== src/Limiter.antt =====
-- internal/auth/limiter.go: the brute-force limiter of the admin credentials. The clock is an
-- argument of each call, in nanoseconds; `now.Sub(start) < window` is read as
-- `now < start + window`, which also holds where the difference is negative.
mod Bounds
pub mod Lockout
mod Others
mod Tests
use byte_bucket.Prelude.{
  ℕ, ◌+◌, ◌-◌, ◌*◌, Bool, true, false, ◌||◌, Option, none, some, List, [], ◌∷◌, ltb, leb,
  if◌then◌else◌, length, list_equality, nat_equality,
}
use byte_bucket.Bytes.{Bytes, bytes}
use byte_bucket.Table.{Table, lookup, erase, insert, retain, evict_oldest}

abbrev pub login_max_failures : ℕ
login_max_failures = 10

-- 15 minutes
abbrev pub login_failure_window : ℕ
login_failure_window = 15 * 60 * 1000000000

abbrev pub login_limiter_cap : ℕ
login_limiter_cap = 4096

pub record FailureWindow : Type 0 where
  pub count : ℕ
  pub start : ℕ

pub record FailureLimiter : Type 0 where
  pub by_key : Table Bytes FailureWindow
  pub max : ℕ
  pub window : ℕ
  pub capacity : ℕ

abbrev pub new_failure_limiter : ℕ → ℕ → ℕ → FailureLimiter
new_failure_limiter max window capacity = record {
  by_key = [];
  max = max;
  window = window;
  capacity = capacity;
}

-- `left` is `window - now.Sub(start)`; it is at most 0 exactly where the truncated difference is 0.
blocked_window : FailureLimiter → ℕ → Option FailureWindow → ℕ × Bool
blocked_window l now none = (0, false)
blocked_window l now (some w) =
    let left = (w.start + l.window) - now in
    if leb left 0 || ltb w.count l.max then (0, false) else (left, true)

unfoldable pub blocked : FailureLimiter → ℕ → Bytes → ℕ × Bool
unfolding blocked_window
blocked l now key = blocked_window l now (lookup key l.by_key)

prune_locked : FailureLimiter → ℕ → FailureLimiter
prune_locked l now = record l { by_key = retain (λ w. ltb now (w.start + l.window)) l.by_key }

evict_oldest_locked : FailureLimiter → FailureLimiter
evict_oldest_locked l = record l { by_key = evict_oldest (λ w. w.start) l.by_key }

-- `delete`, then prune and evict while the table is full, then the fresh window.
abbrev prune_if_full : FailureLimiter → ℕ → FailureLimiter
prune_if_full l now = if leb l.capacity (length l.by_key) then prune_locked l now else l

abbrev evict_if_full : FailureLimiter → FailureLimiter
evict_if_full l = if leb l.capacity (length l.by_key) then evict_oldest_locked l else l

abbrev make_room : FailureLimiter → ℕ → Bytes → FailureLimiter
make_room l now key = evict_if_full (prune_if_full (record l { by_key = erase key l.by_key }) now)

open_window : FailureLimiter → ℕ → Bytes → FailureLimiter
unfolding prune_locked evict_oldest_locked
open_window l now key =
    let room = make_room l now key in
    record room { by_key = insert key (record { count = 1; start = now }) room.by_key }

fail_window : FailureLimiter → ℕ → Bytes → Option FailureWindow → FailureLimiter
unfolding open_window
fail_window l now key none = open_window l now key
fail_window l now key (some w) =
    if ltb now (w.start + l.window)
    then record l { by_key = insert key (record w { count = w.count + 1 }) l.by_key }
    else open_window l now key

unfoldable pub fail : FailureLimiter → ℕ → Bytes → FailureLimiter
unfolding fail_window
fail l now key = fail_window l now key (lookup key l.by_key)

unfoldable pub reset : FailureLimiter → Bytes → FailureLimiter
reset l key = record l { by_key = erase key l.by_key }

-- What the credential checks do to the limiter: a wrong secret, or a successful login.
pub data Call : Type 0 where
  wrong right : Bytes → Call

pub step : FailureLimiter → ℕ × Call → FailureLimiter
step l (now, wrong key) = fail l now key
step l (now, right key) = reset l key

pub run : FailureLimiter → List (ℕ × Call) → FailureLimiter
run l [] = l
run l (c ∷ cs) = run (step l c) cs
