-- ===== src/RateLimit/Clients.antt =====
-- What one client sees of the rate limiter: a token bucket of its own
-- (internal/middleware/ratelimit.go).
use byte_bucket.Prelude.{
  ℕ, ◌+◌, ◌≤◌, ◌<◌, ◌≡◌, ◌∙◌, refl, sym, subst, ap, Bool, not, List, [], ◌∷◌, length, arith, Option,
  none, some, ◌==◌, if◌then◌else◌, ltb, leb, leb→le, list_test_iff, Bool-cases, inl, inr,
  nat_equality, list_equality,
}
use byte_bucket.Prelude.Int.{ℤ}
use byte_bucket.Bytes.{Bytes}
use byte_bucket.Table.{
  IsMap, insert-IsMap, retain-IsMap, length-insert-le, length-retain-le, lookup-insert,
  lookup-retain, lookup, keep_if,
}
use byte_bucket.RateLimit.{
  TokenBuckets, max_limiter_entries, limiter_ttl, at_least_one, LimiterEntry, RateLimiter,
  clamp_rps, new_rate_limiter, reconfigure, make_room, take_token, allow_entry, allow, reap_idle,
  Event, requests, reaps, applies, step, run,
}

-- The abstract limiter of one client: the settings, and its bucket with the time of its last
-- request, if it has one.
pub record Client (Rate Limiter : Type 0) : Type 0 where
  pub bucket : Option (LimiterEntry Limiter)
  pub rps : Rate
  pub burst : ℤ

module _ {Rate Limiter : Type 0} (buckets : TokenBuckets Rate Limiter) where
  pub new_client : Rate → ℤ → Client Rate Limiter
  new_client rps burst = record {
    bucket = none;
    rps = clamp_rps buckets rps;
    burst = at_least_one burst;
  }

  -- The bucket that a request is charged to: a full one for a client that has none.
  current : Rate → ℤ → Option (LimiterEntry Limiter) → Limiter
  current rps burst none = buckets.new_limiter rps burst
  current rps burst (some e) = e.limiter

  pub serve : Client Rate Limiter → ℕ → Bool × Limiter
  unfolding current
  serve c now = buckets.allow (current c.rps c.burst c.bucket) now

  is_fresh : ℕ → LimiterEntry Limiter → Bool
  is_fresh now e = not (ltb (e.last_seen + limiter_ttl) now)

  -- Other clients' requests do nothing.
  client_step : Bytes → ℕ → Event Rate → Client Rate Limiter → Client Rate Limiter
  unfolding serve is_fresh
  client_step key now (requests k) c =
      if k == key
      then record c { bucket = some (record { limiter = (serve c now).1; last_seen = now }) }
      else c
  client_step key now reaps c = record c { bucket = keep_if (is_fresh now) c.bucket }
  client_step key now (applies cfg) c = new_client cfg.rps cfg.burst

  pub client_run : Bytes → Client Rate Limiter → List (ℕ × Event Rate) → Client Rate Limiter
  unfolding client_step
  client_run key c [] = c
  client_run key c ((now, e) ∷ es) = client_run key (client_step key now e c) es

  -- The table shows the client's own limiter.
  record Shows (key : Bytes) (rl : RateLimiter Rate Limiter) (c : Client Rate Limiter)
      : Type 0 where
    distinct : IsMap rl.entries
    bucket : lookup key rl.entries ≡ c.bucket
    same_rps : rl.rps ≡ c.rps
    same_burst : rl.burst ≡ c.burst

  no_eviction :
      (rl : RateLimiter Rate Limiter)
      → length rl.entries < max_limiter_entries
      → make_room buckets rl ≡ rl
  unfolding make_room
  no_eviction rl h = elim (Bool-cases (leb max_limiter_entries (length rl.entries))) [
    | inl full ↦ absurd (omega (arith, leb→le max_limiter_entries (length rl.entries) full, h))
    | inr free ↦ rw free refl
  ]

  -- Below the capacity a request is charged to the bucket of the table or a new one.
  allow_plain :
      (rl : RateLimiter Rate Limiter) (k : Bytes) (now : ℕ) (o : Option (LimiterEntry Limiter))
      → length rl.entries < max_limiter_entries
      → allow_entry buckets rl k now o ≡ take_token buckets rl k now (current rl.rps rl.burst o)
  unfolding allow_entry current
  allow_plain rl k now none h =
      ap (λ r. take_token buckets r k now (buckets.new_limiter rl.rps rl.burst)) (no_eviction rl h)
  allow_plain rl k now (some e) h = refl

  same_bucket :
      (key k : Bytes) (rl : RateLimiter Rate Limiter) (c : Client Rate Limiter)
      → Shows key rl c
      → k ≡ key
      → current rl.rps rl.burst (lookup k rl.entries) ≡ current c.rps c.burst c.bucket
  same_bucket key k rl c s same =
      rw (s.same_rps, s.same_burst)
        (ap (current c.rps c.burst) (ap (λ (j : Bytes). lookup j rl.entries) same ∙ s.bucket))

  allow-Shows :
      (key k : Bytes) (now : ℕ) (rl : RateLimiter Rate Limiter) (c : Client Rate Limiter)
      → length rl.entries < max_limiter_entries
      → Shows key rl c
      → Shows key (allow buckets rl k now).0 (client_step key now (requests k) c)
  unfolding allow client_step take_token serve
  allow-Shows key k now rl c h s =
      let lim = (buckets.allow (current rl.rps rl.burst (lookup k rl.entries)) now).1 in
      rw (allow_plain rl k now (lookup k rl.entries) h) (elim (Bool-cases (k == key)) [
        | inl same ↦
            let e = same_bucket key k rl c s ((list_test_iff k key).0 same) in
            rw same (record {
              distinct = insert-IsMap k _ rl.entries s.distinct;
              bucket =
                  lookup-insert k key _ rl.entries
                  ∙ rw same (
                      ap (λ l. some (record { limiter = (buckets.allow l now).1; last_seen = now }))
                        e);
              same_rps = s.same_rps;
              same_burst = s.same_burst;
            })
        | inr other ↦ rw other (record {
          distinct = insert-IsMap k _ rl.entries s.distinct;
          bucket = lookup-insert k key _ rl.entries ∙ rw other s.bucket;
          same_rps = s.same_rps;
          same_burst = s.same_burst;
        })
      ])

  step-Shows :
      (key : Bytes) (now : ℕ) (e : Event Rate) (rl : RateLimiter Rate Limiter)
      (c : Client Rate Limiter)
      → length rl.entries < max_limiter_entries
      → Shows key rl c
      → Shows key (step buckets now e rl) (client_step key now e c)
  unfolding step client_step reap_idle reconfigure is_fresh new_client lookup
  step-Shows key now (requests k) rl c h s = allow-Shows key k now rl c h s
  step-Shows key now reaps rl c h s = record {
    distinct = retain-IsMap (is_fresh now) rl.entries s.distinct;
    bucket =
        lookup-retain (is_fresh now) key rl.entries s.distinct
        ∙ ap (keep_if (is_fresh now)) s.bucket;
    same_rps = s.same_rps;
    same_burst = s.same_burst;
  }
  step-Shows key now (applies cfg) rl c h s = record {
    distinct = tt;
    bucket = refl;
    same_rps = refl;
    same_burst = refl;
  }

  length-step :
      (now : ℕ) (e : Event Rate) (rl : RateLimiter Rate Limiter)
      → length rl.entries < max_limiter_entries
      → length (step buckets now e rl).entries ≤ length rl.entries + 1
  unfolding step allow take_token reap_idle reconfigure is_fresh
  length-step now (requests k) rl h =
      subst (λ (r : RateLimiter Rate Limiter × Bool). length r.0.entries ≤ length rl.entries + 1)
        (sym (allow_plain rl k now (lookup k rl.entries) h)) (length-insert-le k _ rl.entries)
  length-step now reaps rl h = omega (arith, length-retain-le (is_fresh now) rl.entries)
  length-step now (applies cfg) rl h = omega arith

  -- The table is below its capacity before every event of the history.
  abbrev pub HasRoom : RateLimiter Rate Limiter → List (ℕ × Event Rate) → Type 0
  HasRoom rl [] = Unit
  HasRoom rl ((now, e) ∷ es) =
      (length rl.entries < max_limiter_entries) × HasRoom (step buckets now e rl) es

  -- A short history fills no table.
  pub length-HasRoom :
      (rl : RateLimiter Rate Limiter) (es : List (ℕ × Event Rate))
      → length rl.entries + length es ≤ max_limiter_entries
      → HasRoom rl es
  length-HasRoom rl [] h = tt
  length-HasRoom rl ((now, e) ∷ es) h = (
    omega (arith, h),
    length-HasRoom (step buckets now e rl) es
        (omega (arith, length-step now e rl (omega arith), h)),
  )

  run-Shows :
      (key : Bytes) (es : List (ℕ × Event Rate)) (rl : RateLimiter Rate Limiter)
      (c : Client Rate Limiter)
      → HasRoom rl es
      → Shows key rl c
      → Shows key (run buckets rl es) (client_run key c es)
  unfolding run client_run
  run-Shows key [] rl c h s = s
  run-Shows key ((now, e) ∷ es) rl c (h, room) s =
      run-Shows key es (step buckets now e rl) (client_step key now e c) room
        (step-Shows key now e rl c h s)

  granted :
      (rl : RateLimiter Rate Limiter) (k : Bytes) (now : ℕ) (o : Option (LimiterEntry Limiter))
      → (allow_entry buckets rl k now o).1 ≡ (buckets.allow (current rl.rps rl.burst o) now).0
  unfolding allow_entry take_token current
  granted rl k now none = refl
  granted rl k now (some e) = refl

  -- As long as the table is below its capacity of 65536 clients at every event, the limiter answers each client
  -- as a token bucket of its own would: the full bucket of the settings in force, charged with the
  -- client's own requests since they were set or since it was last idle for ten minutes at a sweep.
  -- The requests of other clients change nothing.
  pub allow-run :
      (rps : Rate) (burst : ℤ) (history : List (ℕ × Event Rate)) (key : Bytes) (now : ℕ)
      → HasRoom (new_rate_limiter buckets rps burst) history
      → (allow buckets (run buckets (new_rate_limiter buckets rps burst) history) key now).1
        ≡ (serve (client_run key (new_client rps burst) history) now).0
  unfolding allow take_token serve new_rate_limiter new_client lookup
  allow-run rps burst history key now room =
      let rl = run buckets (new_rate_limiter buckets rps burst) history in
      let c = client_run key (new_client rps burst) history in
      let s : Shows key rl c =
        run-Shows key history (new_rate_limiter buckets rps burst) (new_client rps burst) room
          (record { distinct = tt; bucket = refl; same_rps = refl; same_burst = refl }) in
      granted rl key now (lookup key rl.entries)
      ∙ ap (λ l. (buckets.allow l now).0) (same_bucket key key rl c s refl)
