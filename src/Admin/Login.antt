-- ===== src/Admin/Login.antt =====
-- The session that a login opens, and the one that it replaces (internal/auth/admin_session.go,
-- internal/auth/session.go).
use byte_bucket.Prelude.{
  ℕ, ◌+◌, ◌<◌, Bool, true, false, [], ◌∷◌, length, Option, none, some, ◌⊎◌, inl, inr, ◌==◌, lt→ltb,
  nat_equality, list_equality, ◌≡◌, refl, sym, subst, ap, ◌∙◌, Bool-cases,
}
use byte_bucket.Bytes.{Bytes}
use byte_bucket.Base64.{raw_encode}
use byte_bucket.Limiter
use byte_bucket.Session
use byte_bucket.Session.{SessionStore, creates}
use byte_bucket.Session.Bounds.{IsBounded}
use byte_bucket.Session.Lifetime.{lookup-looks, looks}
use byte_bucket.Session.Ending.{lookup-run-revoke}
use byte_bucket.Auth.Request.{User, Platform}
use byte_bucket.Admin.{
  Request, Environment, State, Cookie, is_cross, check_origin, Check, accepted, invalid_credentials,
  not_admin, decrypt_failed, Answer, logged_in, verify_admin, count_check, check_unless,
  check_credentials, set_session_cookie,
}
use byte_bucket.Admin.Handlers.{
  read_login_body, drop_cookie, open_session, finish_login, login_with, login_handler,
}

key_in : Answer → Bytes
key_in (logged_in access_key cookie) = access_key
key_in _ = []

token_in : Answer → Bytes
token_in (logged_in access_key cookie) = cookie.value
token_in _ = []

module _ (p : Platform) (env : Environment) where
  count-sessions :
      (s : State) (ip : Bytes) (c : Check) → (count_check p env s ip c).sessions ≡ s.sessions
  unfolding count_check
  count-sessions s ip (accepted u) = refl
  count-sessions s ip invalid_credentials = refl
  count-sessions s ip not_admin = refl
  count-sessions s ip decrypt_failed = refl

  check-sessions :
      (s : State) (ip access_key secret : Bytes) (b : ℕ × Bool)
      → (check_unless p env s ip access_key secret b).0.sessions ≡ s.sessions
  unfolding check_unless
  check-sessions s ip access_key secret (retry, true) = refl
  check-sessions s ip access_key secret (retry, false) =
      count-sessions s ip (verify_admin p env access_key secret)

  -- What a login leaves: the session store `kept` without the replaced session, and a new session.
  record IsOpened (kept : SessionStore) (s' : State) (access_key : Bytes) (cookie : Cookie)
      : Type 0 where
    stored : s'.sessions ≡ (Session.create p.sha256 kept env.now env.random access_key).0
    token : cookie.value ≡ raw_encode env.random

  opened :
      (s s' : State) (r : Request) (user : User) (access_key : Bytes) (cookie : Cookie)
      → open_session p env s r user ≡ (s', logged_in access_key cookie)
      → IsOpened s.sessions s' access_key cookie
  unfolding open_session Session.create key_in token_in set_session_cookie
  opened s s' r user access_key cookie h =
      let key : user.access_key_id ≡ access_key = ap (λ (x : State × Answer). key_in x.1) h in
      record {
        stored =
            sym (ap (λ (x : State × Answer). x.0.sessions) h)
            ∙ ap (λ k. (Session.create p.sha256 s.sessions env.now env.random k).0) key;
        token = sym (ap (λ (x : State × Answer). token_in x.1) h);
      }

  finished :
      (r : Request) (s s' : State) (o : ℕ ⊎ Check) (access_key : Bytes) (cookie : Cookie)
      → finish_login p env r (s, o) ≡ (s', logged_in access_key cookie)
      → IsOpened (drop_cookie p env s r.cookie).sessions s' access_key cookie
  unfolding finish_login
  finished r s s' (inl retry) access_key cookie h = cc h
  finished r s s' (inr (accepted user)) access_key cookie h =
      opened (drop_cookie p env s r.cookie) s' r user access_key cookie h
  finished r s s' (inr invalid_credentials) access_key cookie h = cc h
  finished r s s' (inr not_admin) access_key cookie h = cc h
  finished r s s' (inr decrypt_failed) access_key cookie h = cc h

  drop-same :
      (s z : State) (o : Option Bytes)
      → z.sessions ≡ s.sessions
      → (drop_cookie p env z o).sessions ≡ (drop_cookie p env s o).sessions
  unfolding drop_cookie
  drop-same s z none e = e
  drop-same s z (some old) e = ap (λ l. Session.revoke p.sha256 l old) e

  logged_with :
      (s s' : State) (r : Request) (o : Option (Bytes × Bytes)) (access_key : Bytes)
      (cookie : Cookie)
      → login_with p env s r o ≡ (s', logged_in access_key cookie)
      → IsOpened (drop_cookie p env s r.cookie).sessions s' access_key cookie
  unfolding login_with check_credentials
  logged_with s s' r none access_key cookie h = cc h
  logged_with s s' r (some (key, secret)) access_key cookie h =
      let b = Limiter.blocked s.failures env.now r.client_ip in
      let z = check_unless p env s r.client_ip key secret b in
      subst (λ (l : SessionStore). IsOpened l s' access_key cookie)
        (drop-same s z.0 r.cookie (check-sessions s r.client_ip key secret b))
        (finished r z.0 s' z.1 access_key cookie h)

  login-IsOpened :
      (s s' : State) (r : Request) (access_key : Bytes) (cookie : Cookie)
      → login_handler p env s r ≡ (s', logged_in access_key cookie)
      → IsOpened (drop_cookie p env s r.cookie).sessions s' access_key cookie
  unfolding login_handler
  login-IsOpened s s' r access_key cookie h = elim (Bool-cases (is_cross (check_origin env r))) [
    | inl cross ↦ absurd (cc (rw cross at h))
    | inr plain ↦ logged_with s s' r (read_login_body env r.body) access_key cookie (rw plain at h)
  ]

  drop-times :
      (s : State) (o : Option Bytes)
      → ((drop_cookie p env s o).sessions.idle ≡ s.sessions.idle)
        × ((drop_cookie p env s o).sessions.absolute ≡ s.sessions.absolute)
  unfolding drop_cookie Session.revoke
  drop-times s none = (refl, refl)
  drop-times s (some old) = (refl, refl)

  -- After a login the token of its cookie is that of a live session with the login's own access
  -- key, as long as neither the idle timeout nor the absolute lifetime has passed.
  pub login_handler-lookup :
      (s s' : State) (r : Request) (access_key : Bytes) (cookie : Cookie) (t : ℕ)
      → login_handler p env s r ≡ (s', logged_in access_key cookie)
      → length env.random ≡ 32
      → t < env.now + s.sessions.idle
      → t < env.now + s.sessions.absolute
      → (Session.lookup p.sha256 s'.sessions t cookie.value).1 ≡ some access_key
  unfolding looks
  login_handler-lookup s s' r access_key cookie t h len soon alive =
      let new = login-IsOpened s s' r access_key cookie h in
      let kept = (drop_cookie p env s r.cookie).sessions in
      let (idle, absolute) = drop-times s r.cookie in
      rw (new.stored, new.token)
        (lookup-looks p.sha256 kept env.now env.random access_key [] t len tt
          ∙ rw
              (
                idle,
                absolute,
                lt→ltb t (env.now + s.sessions.idle) soon,
                lt→ltb t (env.now + s.sessions.absolute) alive,
              )
              refl)

  -- A login ends the session that its own request still carried a cookie of: the old token is
  -- refused, unless it has the digest of the new one.
  pub login_handler-old_token :
      (s s' : State) (r : Request) (access_key old : Bytes) (cookie : Cookie) (t : ℕ)
      → login_handler p env s r ≡ (s', logged_in access_key cookie)
      → IsBounded s.sessions
      → r.cookie ≡ some old
      → (p.sha256 cookie.value == p.sha256 old) ≡ false
      → (Session.lookup p.sha256 s'.sessions t old).1 ≡ none
  unfolding Session.run Session.step drop_cookie
  login_handler-old_token s s' r access_key old cookie t h bounded carried differ =
      let new = login-IsOpened s s' r access_key cookie h in
      let kept : (drop_cookie p env s r.cookie).sessions ≡ Session.revoke p.sha256 s.sessions old =
        ap (λ o. (drop_cookie p env s o).sessions) carried in
      let other : (p.sha256 (raw_encode env.random) == p.sha256 old) ≡ false =
        ap (λ v. p.sha256 v == p.sha256 old) (sym new.token) ∙ differ in
      rw (new.stored, kept)
        (lookup-run-revoke p.sha256 s.sessions bounded old
          ((env.now, creates env.random access_key) ∷ []) t (other, tt))
