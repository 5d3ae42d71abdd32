-- ===== src/RateLimit/Bounds.antt =====
-- The table of the rate limiter stays a map within its capacity (internal/middleware/ratelimit.go).
use byte_bucket.Prelude.{
  ℕ, zero, suc, ◌+◌, ◌≤◌, ◌<◌, ◌≡◌, ◌∙◌, refl, Bool, not, List, [], ◌∷◌, length, arith, Option,
  none, some, ltb, leb, le→ltb_false, if◌then◌else◌, ap, leb→le, false, Bool-cases, inl, inr,
  nat_equality, list_equality,
}
use byte_bucket.Prelude.Int.{ℤ, pos, negsuc}
use byte_bucket.Bytes.{Bytes}
use byte_bucket.Table.{
  IsMap, insert-IsMap, retain-IsMap, evict_oldest-IsMap, length-insert-le, length-insert_old,
  length-retain-le, length-evict_oldest-lt, lookup, insert,
}
use byte_bucket.RateLimit.{
  TokenBuckets, max_limiter_entries, limiter_ttl, at_least_one, LimiterEntry, RateLimiter,
  new_rate_limiter, reconfigure, make_room, evict_oldest_locked, take_token, allow_entry, allow,
  reap_idle, Event, requests, reaps, applies, step, run,
}

not_full : (n : ℕ) → leb max_limiter_entries n ≡ false → n < max_limiter_entries
not_full n h = ground arith

module _ {Rate Limiter : Type 0} (buckets : TokenBuckets Rate Limiter) where
  pub record IsBounded (rl : RateLimiter Rate Limiter) : Type 0 where
    pub distinct : IsMap rl.entries
    pub within : length rl.entries ≤ max_limiter_entries
    pub some_burst : (n : ℕ) × (rl.burst ≡ pos (suc n))

  positive : (z : ℤ) → (n : ℕ) × (at_least_one z ≡ pos (suc n))
  positive (pos zero) = (0, refl)
  positive (pos (suc n)) = (
    n,
    ap (λ (b : Bool). if b then pos 1 else pos (suc n)) (le→ltb_false (suc n) 1 (omega arith)),
  )
  positive (negsuc n) = (0, refl)

  -- There is a free place after eviction.
  pub make_room-room :
      (rl : RateLimiter Rate Limiter)
      → IsMap rl.entries
      → length rl.entries ≤ max_limiter_entries
      → IsMap (make_room buckets rl).entries
        × (length (make_room buckets rl).entries < max_limiter_entries)
  unfolding make_room evict_oldest_locked
  make_room-room rl d b = elim (Bool-cases (leb max_limiter_entries (length rl.entries))) [
    | inl full ↦ rw full (
      evict_oldest-IsMap (λ (e : LimiterEntry Limiter). e.last_seen) rl.entries d,
      omega (
        arith,
        length-evict_oldest-lt (λ (e : LimiterEntry Limiter). e.last_seen) rl.entries d
            (omega (arith, leb→le _ _ full)),
        b,
      ),
    )
    | inr free ↦ rw free (d, not_full (length rl.entries) free)
  ]

  pub make_room-rates :
      (rl : RateLimiter Rate Limiter)
      → ((make_room buckets rl).rps ≡ rl.rps) × ((make_room buckets rl).burst ≡ rl.burst)
  unfolding make_room evict_oldest_locked
  make_room-rates rl = elim (Bool-cases (leb max_limiter_entries (length rl.entries))) [
    | inl full ↦ rw full (refl, refl)
    | inr free ↦ rw free (refl, refl)
  ]

  take_token-IsBounded :
      (rl : RateLimiter Rate Limiter) (key : Bytes) (now : ℕ) (lim : Limiter)
      → IsMap rl.entries
      → ((e : LimiterEntry Limiter) → length (insert key e rl.entries) ≤ max_limiter_entries)
      → (n : ℕ) × (rl.burst ≡ pos (suc n))
      → IsBounded (take_token buckets rl key now lim).0
  unfolding take_token
  take_token-IsBounded rl key now lim d b s = record {
    distinct = insert-IsMap key _ rl.entries d;
    within = b _;
    some_burst = s;
  }

  allow_entry-IsBounded :
      (rl : RateLimiter Rate Limiter) (key : Bytes) (now : ℕ) (o : Option (LimiterEntry Limiter))
      → lookup key rl.entries ≡ o
      → IsBounded rl
      → IsBounded (allow_entry buckets rl key now o).0
  unfolding allow_entry
  allow_entry-IsBounded rl key now (some e) h v =
      take_token-IsBounded rl key now e.limiter v.distinct
        (λ w.
          omega (arith, length-insert_old key w rl.entries (λ absent. cc (h, absent)), v.within))
        v.some_burst
  allow_entry-IsBounded rl key now none h v =
      let (d, room) = make_room-room rl v.distinct v.within in
      let (n, some_burst) = v.some_burst in
      take_token-IsBounded (make_room buckets rl) key now _ d
        (λ w. omega (arith, length-insert-le key w (make_room buckets rl).entries, room))
        (n, (make_room-rates rl).1 ∙ some_burst)

  step-IsBounded :
      (now : ℕ) (e : Event Rate) (rl : RateLimiter Rate Limiter)
      → IsBounded rl
      → IsBounded (step buckets now e rl)
  unfolding step allow reap_idle reconfigure
  step-IsBounded now (requests key) rl v =
      allow_entry-IsBounded rl key now (lookup key rl.entries) refl v
  step-IsBounded now reaps rl v =
      let keep : LimiterEntry Limiter → Bool = λ e. not (ltb (e.last_seen + limiter_ttl) now) in
      record {
        distinct = retain-IsMap keep rl.entries v.distinct;
        within = omega (arith, length-retain-le keep rl.entries, v.within);
        some_burst = v.some_burst;
      }
  step-IsBounded now (applies cfg) rl v = record {
    distinct = tt;
    within = omega arith;
    some_burst = positive cfg.burst;
  }

  run-IsBounded :
      (rl : RateLimiter Rate Limiter) (history : List (ℕ × Event Rate))
      → IsBounded rl
      → IsBounded (run buckets rl history)
  unfolding run
  run-IsBounded rl [] v = v
  run-IsBounded rl ((now, e) ∷ es) v =
      run-IsBounded (step buckets now e rl) es (step-IsBounded now e rl v)

  -- After any history of requests, sweeps and new settings since the start, the table holds each
  -- client once and at most 65536 of them, and the burst that new buckets are made with is at least
  -- 1, whatever the settings ask for.
  pub run-new_rate_limiter :
      (rps : Rate) (burst : ℤ) (history : List (ℕ × Event Rate))
      → IsBounded (run buckets (new_rate_limiter buckets rps burst) history)
  unfolding new_rate_limiter
  run-new_rate_limiter rps burst history =
      run-IsBounded _ history
        (record { distinct = tt; within = omega arith; some_burst = positive burst })
