-- ===== src/Admin/Guessing.antt =====
-- What a guesser of the admin secret meets: `checkCredentials` of internal/auth/admin_session.go
-- over the limiter of internal/auth/limiter.go.
use byte_bucket.Prelude.{
  ℕ, suc, ◌+◌, ◌-◌, ◌≤◌, ◌<◌, true, false, List, [], ◌∷◌, length, inl, leb, if◌then◌else◌, ◌≡◌,
  refl, sym, subst, ap, ◌∙◌, arith, nat_equality, list_equality,
}
use byte_bucket.Bytes.{Bytes}
use byte_bucket.Limiter
use byte_bucket.Limiter.{FailureLimiter, FailureWindow}
use byte_bucket.Limiter.Lockout.{
  IsIdle, Counts, fail_idle-Counts, fail-Counts, blocked-Counts, blocked_idle,
}
use byte_bucket.Auth.Request.{Platform}
use byte_bucket.Admin.{
  Request, Environment, State, invalid_credentials, verify_admin, count_check, check_unless,
  check_credentials,
}

plus_zero : (n : ℕ) → n ≡ n + 0
plus_zero n = omega arith

plus_one : (n k : ℕ) → (n + 1) + k ≡ n + suc k
plus_one n k = omega arith

not_full : (max count : ℕ) → count < max → leb max count ≡ false
not_full max count h = ground arith

reached : (max count : ℕ) → max ≤ count → leb max count ≡ true
reached max count h = ground arith

module _ (p : Platform) (env : Environment) (r : Request) (access_key : Bytes) where
  abbrev pub at : ℕ → Environment
  at t = record env { now = t }

  -- Attempts with the given secrets at the given times.
  pub tries : State → List (ℕ × Bytes) → State
  tries s [] = s
  tries s ((t, secret) ∷ ts) = tries (check_credentials p (at t) s r access_key secret).0 ts

  -- Every secret is wrong, and every attempt comes before the end.
  abbrev pub AllWrong : ℕ → List (ℕ × Bytes) → Type 0
  AllWrong end [] = Unit
  AllWrong end ((t, secret) ∷ ts) =
      (t < end) × (verify_admin p env access_key secret ≡ invalid_credentials) × AllWrong end ts

  wrong-fail :
      (s : State) (t : ℕ) (secret : Bytes)
      → Limiter.blocked s.failures t r.client_ip ≡ (0, false)
      → verify_admin p env access_key secret ≡ invalid_credentials
      → (check_credentials p (at t) s r access_key secret).0
        ≡ record s { failures = Limiter.fail s.failures t r.client_ip }
  unfolding check_credentials check_unless verify_admin count_check
  wrong-fail s t secret clear wrong = rw (clear, wrong) refl

  -- Attempts while the count is below the limit are counted.
  tries-Counts :
      (s : State) (ts : List (ℕ × Bytes)) (max window count start : ℕ)
      → Counts s.failures r.client_ip max window count start
      → AllWrong (start + window) ts
      → count + length ts ≤ max
      → Counts (tries s ts).failures r.client_ip max window (count + length ts) start
  unfolding tries
  tries-Counts s [] max window count start c w few =
      subst (λ n. Counts s.failures r.client_ip max window n start) (plus_zero count) c
  tries-Counts s ((t, secret) ∷ ts) max window count start c (early, wrong, rest) few =
      let clear : Limiter.blocked s.failures t r.client_ip ≡ (0, false) =
        blocked-Counts s.failures t r.client_ip max window count start c early
        ∙ ap (λ full. if full then (start + window - t, true) else (0, false))
            (not_full max count (omega (arith, few))) in
      let counted = fail-Counts s.failures t r.client_ip max window count start c early in
      let next : State = record s { failures = Limiter.fail s.failures t r.client_ip } in
      let all =
        tries-Counts next ts max window (count + 1) start counted rest (omega (arith, few)) in
      subst
        (λ (z : State).
          Counts (tries z ts).failures r.client_ip max window (count + suc (length ts)) start)
        (sym (wrong-fail s t secret clear wrong))
        (subst (λ n. Counts (tries next ts).failures r.client_ip max window n start)
          (plus_one count (length ts)) all)

  locked-check_credentials :
      (s : State) (now left : ℕ) (key secret : Bytes)
      → Limiter.blocked s.failures now r.client_ip ≡ (left, true)
      → check_credentials p (at now) s r key secret ≡ (s, inl left)
  unfolding check_credentials check_unless
  locked-check_credentials s now left key secret h = rw h refl

  -- A client with no recent failure sends wrong secrets, as many as the limit allows, within one
  -- window. Until the window ends it is then locked out, whatever access key and secret it sends,
  -- the right ones too: the answer is the time that is left, and the attempt changes nothing.
  pub check_credentials-tries :
      (s : State) (start now : ℕ) (guess other_key secret : Bytes) (ts : List (ℕ × Bytes))
      → IsIdle s.failures start r.client_ip
      → AllWrong (start + s.failures.window) ((start, guess) ∷ ts)
      → suc (length ts) ≡ s.failures.max
      → now < start + s.failures.window
      → check_credentials p (at now) (tries s ((start, guess) ∷ ts)) r other_key secret
        ≡ (tries s ((start, guess) ∷ ts), inl ((start + s.failures.window) - now))
  unfolding tries
  check_credentials-tries s start now guess other_key secret ts idle (early, wrong, rest) full
        within =
      let l = s.failures in
      let next : State = record s { failures = Limiter.fail l start r.client_ip } in
      let first : (check_credentials p (at start) s r access_key guess).0 ≡ next =
        wrong-fail s start guess (blocked_idle l start r.client_ip idle) wrong in
      let counts = fail_idle-Counts l start r.client_ip idle in
      let all = tries-Counts next ts l.max l.window 1 start counts rest (omega (arith, full)) in
      let locked : Limiter.blocked (tries next ts).failures now r.client_ip
          ≡ ((start + l.window) - now, true) =
        blocked-Counts (tries next ts).failures now r.client_ip l.max l.window (1 + length ts) start
          all within
        ∙ ap (λ b. if b then ((start + l.window) - now, true) else (0, false))
            (reached l.max (1 + length ts) (omega (arith, full))) in
      subst
        (λ (z : State).
          check_credentials p (at now) (tries z ts) r other_key secret
          ≡ (tries z ts, inl ((start + l.window) - now)))
        (sym first) (locked-check_credentials (tries next ts) now _ other_key secret locked)
