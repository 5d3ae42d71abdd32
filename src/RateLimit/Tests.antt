-- ===== src/RateLimit/Tests.antt =====
-- A limiter of two tokens that refills at a sweep's pace.
use byte_bucket.Prelude.{ℕ, zero, suc, Bool, true, false, List, [], ◌∷◌, ltb, ◌≡◌, arith}
use byte_bucket.Prelude.Int.{ℤ, pos, negsuc}
use byte_bucket.Bytes.{bytes}
use byte_bucket.RateLimit.{
  TokenBuckets, Event, requests, reaps, applies, new_rate_limiter, run, allow,
}
use byte_bucket.RateLimit.Bounds.{IsBounded, run-new_rate_limiter}
use byte_bucket.RateLimit.Clients.{
  new_client, client_run, serve, HasRoom, length-HasRoom, allow-run,
}

abbrev tokens_of : ℤ → ℕ
tokens_of (pos n) = n
tokens_of (negsuc n) = 0

abbrev spend : ℕ → ℕ → Bool × ℕ
spend zero now = (false, 0)
spend (suc n) now = (true, n)

abbrev counters : TokenBuckets ℕ ℕ
counters = record {
  one = 1;
  at_most_zero = λ r. ltb r 1;
  new_limiter = λ rate burst. tokens_of burst;
  allow = spend;
}

abbrev history : List (ℕ × Event ℕ)
history =
    (0, requests (bytes "a"))
    ∷ (1, requests (bytes "b"))
    ∷ (2, reaps)
    ∷ (3, requests (bytes "a"))
    ∷ (4, applies (record { enabled = true; rps = 0; burst = negsuc 4 }))
    ∷ (5, requests (bytes "a"))
    ∷ []

run-new_rate_limiter_example :
    IsBounded counters (run counters (new_rate_limiter counters 5 (pos 0)) history)
run-new_rate_limiter_example = run-new_rate_limiter counters 5 (pos 0) history

room : HasRoom counters (new_rate_limiter counters 5 (pos 2)) history
unfolding new_rate_limiter
room = length-HasRoom counters (new_rate_limiter counters 5 (pos 2)) history (omega arith)

allow-run_example :
    (allow counters (run counters (new_rate_limiter counters 5 (pos 2)) history) (bytes "a") 6).1
    ≡ (serve counters (client_run counters (bytes "a") (new_client counters 5 (pos 2)) history) 6).0
allow-run_example = allow-run counters 5 (pos 2) history (bytes "a") 6 room
