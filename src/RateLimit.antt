-- ===== src/RateLimit.antt =====
-- The rate limiter of internal/middleware/ratelimit.go: one token bucket for each client in a
-- bounded table. The buckets are those of golang.org/x/time/rate.
pub mod Bounds
pub mod Clients
mod Tests
use byte_bucket.Prelude.{
  ℕ, ◌+◌, ◌*◌, Bool, true, false, not, List, [], ◌∷◌, Option, none, some, nat_equality,
  list_equality, if◌then◌else◌, leb, ltb, length,
}
use byte_bucket.Prelude.Int.{ℤ, pos, negsuc}
use byte_bucket.Bytes.{Bytes}
use byte_bucket.Table.{Table, lookup, insert, evict_oldest, retain}
use byte_bucket.ClientIp.{Request, Net, resolve_client_ip}

-- `rate.NewLimiter` and `Limiter.AllowN` at a time, over rates that are floating-point numbers.
pub record TokenBuckets (Rate Limiter : Type 0) : Type 0 where
  pub one : Rate
  pub at_most_zero : Rate → Bool
  pub new_limiter : Rate → ℤ → Limiter
  pub allow : Limiter → ℕ → Bool × Limiter

abbrev pub max_limiter_entries : ℕ
max_limiter_entries = 65_536

abbrev pub limiter_ttl : ℕ
limiter_ttl = 10 * 60 * 1_000_000_000

abbrev pub at_least_one : ℤ → ℤ
at_least_one (pos n) = if ltb n 1 then pos 1 else pos n
at_least_one (negsuc n) = pos 1

-- What an operator sets: the rate for each client in requests a second, and the depth of a bucket.
pub record RateLimitConfig (Rate : Type 0) : Type 0 where
  pub enabled : Bool
  pub rps : Rate
  pub burst : ℤ

pub record LimiterEntry (Limiter : Type 0) : Type 0 where
  pub limiter : Limiter
  pub last_seen : ℕ

pub record RateLimiter (Rate Limiter : Type 0) : Type 0 where
  pub entries : Table Bytes (LimiterEntry Limiter)
  pub rps : Rate
  pub burst : ℤ

pub record RateLimitController (Rate Limiter : Type 0) : Type 0 where
  pub rl : RateLimiter Rate Limiter
  pub cfg : RateLimitConfig Rate

-- What happens to a limiter: a request by the key of its client, a sweep, or new settings.
pub data Event (Rate : Type 0) : Type 0 where
  requests : Bytes → Event Rate
  reaps : Event Rate
  applies : RateLimitConfig Rate → Event Rate

module _ {Rate Limiter : Type 0} (buckets : TokenBuckets Rate Limiter) where
  unfoldable pub clamp_rps : Rate → Rate
  clamp_rps r = if buckets.at_most_zero r then buckets.one else r

  unfoldable pub new_rate_limiter : Rate → ℤ → RateLimiter Rate Limiter
  unfolding clamp_rps
  new_rate_limiter rps burst = record {
    entries = [];
    rps = clamp_rps rps;
    burst = at_least_one burst;
  }

  unfoldable pub reconfigure : RateLimiter Rate Limiter → Rate → ℤ → RateLimiter Rate Limiter
  unfolding clamp_rps
  reconfigure rl rps burst = record rl {
    rps = clamp_rps rps;
    burst = at_least_one burst;
    entries = [];
  }

  unfoldable pub evict_oldest_locked : RateLimiter Rate Limiter → RateLimiter Rate Limiter
  evict_oldest_locked rl = record rl { entries = evict_oldest (λ e. e.last_seen) rl.entries }

  unfoldable pub make_room : RateLimiter Rate Limiter → RateLimiter Rate Limiter
  unfolding evict_oldest_locked
  make_room rl = if leb max_limiter_entries (length rl.entries) then evict_oldest_locked rl else rl

  -- One token of a bucket; the bucket is shared with its entry.
  unfoldable pub take_token :
      RateLimiter Rate Limiter → Bytes → ℕ → Limiter → RateLimiter Rate Limiter × Bool
  take_token rl key now lim =
      let (granted, lim') = buckets.allow lim now in
      (
        record rl { entries = insert key (record { limiter = lim'; last_seen = now }) rl.entries },
        granted,
      )

  unfoldable pub allow_entry :
      RateLimiter Rate Limiter
      → Bytes
      → ℕ
      → Option (LimiterEntry Limiter)
      → RateLimiter Rate Limiter × Bool
  unfolding take_token make_room
  allow_entry rl key now (some e) = take_token rl key now e.limiter
  allow_entry rl key now none =
      take_token (make_room rl) key now (buckets.new_limiter rl.rps rl.burst)

  -- `rateLimiter.allow`
  unfoldable pub allow : RateLimiter Rate Limiter → Bytes → ℕ → RateLimiter Rate Limiter × Bool
  unfolding allow_entry
  allow rl key now = allow_entry rl key now (lookup key rl.entries)

  -- `reapIdle`: what was last seen before `now - limiterTTL` is dropped.
  unfoldable pub reap_idle : RateLimiter Rate Limiter → ℕ → RateLimiter Rate Limiter
  reap_idle rl now = record rl {
    entries = retain (λ e. not (ltb (e.last_seen + limiter_ttl) now)) rl.entries;
  }

  unfoldable pub new_rate_limit_controller : RateLimitConfig Rate → RateLimitController Rate Limiter
  unfolding new_rate_limiter
  new_rate_limit_controller cfg = record { rl = new_rate_limiter cfg.rps cfg.burst; cfg = cfg }

  -- `Apply`
  unfoldable pub apply :
      RateLimitController Rate Limiter → RateLimitConfig Rate → RateLimitController Rate Limiter
  unfolding reconfigure
  apply rc cfg = record { rl = reconfigure rc.rl cfg.rps cfg.burst; cfg = cfg }

  -- `Middleware`: whether the request goes on; if not, it is answered by 503 SlowDown.
  unfoldable pub middleware :
      Net
      → List Bytes
      → Bool
      → RateLimitController Rate Limiter
      → Request
      → ℕ
      → RateLimitController Rate Limiter × Bool
  unfolding allow
  middleware net headers use_leftmost rc r now =
      let (rl, granted) = allow rc.rl (resolve_client_ip net r headers use_leftmost) now in
      if not rc.cfg.enabled then (rc, true) else (record rc { rl = rl }, granted)

  unfoldable pub step : ℕ → Event Rate → RateLimiter Rate Limiter → RateLimiter Rate Limiter
  unfolding allow reap_idle reconfigure
  step now (requests key) rl = (allow rl key now).0
  step now reaps rl = reap_idle rl now
  step now (applies cfg) rl = reconfigure rl cfg.rps cfg.burst

  unfoldable pub run : RateLimiter Rate Limiter → List (ℕ × Event Rate) → RateLimiter Rate Limiter
  unfolding step
  run rl [] = rl
  run rl ((now, e) ∷ es) = run (step now e rl) es
