-- ===== src/Limiter/Tests.antt =====
-- Concrete runs of the limiter.
use byte_bucket.Prelude.{ℕ, ◌≡◌, refl, List, [], ◌∷◌, arith, true, list_equality, nat_equality}
use byte_bucket.Bytes.{bytes}
use byte_bucket.Table.{lookup}
use byte_bucket.Limiter.{FailureLimiter, new_failure_limiter, fail, blocked, wrong, right, Call}
use byte_bucket.Limiter.Lockout.{IsIdle, fails, blocked-fails}

abbrev small : FailureLimiter
small = new_failure_limiter 3 100 2

abbrev history : List (ℕ × Call)
history =
    (0, wrong (bytes "a"))
    ∷ (1, wrong (bytes "b"))
    ∷ (2, wrong (bytes "c"))
    ∷ (3, right (bytes "b"))
    ∷ []

small-IsIdle : IsIdle small 10 (bytes "a")
unfolding lookup
small-IsIdle w h = cc

blocked-fails_example :
    blocked (fails (fail small 10 (bytes "a")) (bytes "a") (20 ∷ 30 ∷ [])) 40 (bytes "a")
    ≡ (70, true)
blocked-fails_example =
    blocked-fails small (bytes "a") 10 (20 ∷ 30 ∷ []) 40 small-IsIdle (omega arith) (omega arith)

abbrev locked : FailureLimiter
locked = record small { by_key = ((bytes "a"), record { count = 3; start = 10 }) ∷ [] }

locked-blocked : blocked locked 40 (bytes "a") ≡ (70, true)
unfolding blocked lookup
locked-blocked = refl
