-- ===== src/Admin/Handlers.antt =====
-- The handlers of the admin surface's authentication: internal/auth/admin_session.go, and
-- `AdminAuthMiddleware` of internal/auth/auth.go. Each returns the stores and its answer.
use byte_bucket.Prelude.{
  ℕ, Bool, true, false, ◌||◌, not, [], Option, none, some, ◌⊎◌, inl, inr, ◌==◌, nat_equality,
  list_equality, if◌then◌else◌, ltb, length,
}
use byte_bucket.Prelude.Int.{pos}
use byte_bucket.Bytes.{Bytes}
use byte_bucket.Table.{lookup}
use byte_bucket.Session
use byte_bucket.Auth.Request.{User, Platform}
use byte_bucket.Admin.{
  Request, Environment, State, login_body_limit, is_admin, Check, accepted, invalid_credentials,
  not_admin, decrypt_failed, OriginVerdict, origin_unknown, origin_same, origin_cross, is_cross,
  check_origin, is_safe_method, set_session_cookie, clear_session_cookie, admin_headers,
  admin_session, Answer, published, missing_credentials, cross_origin, malformed_login,
  session_expired, session_revoked, refused, locked_out, logged_in, logged_out, check_credentials,
}

-- `verdict == originCross || (verdict == originUnknown && !isSafeMethod(method))`
unfoldable pub is_suspect : OriginVerdict → Bytes → Bool
is_suspect origin_cross method = true
is_suspect origin_unknown method = not (is_safe_method method)
is_suspect origin_same method = false

-- `readLoginBody`
unfoldable pub read_login_body : Environment → Option Bytes → Option (Bytes × Bytes)
read_login_body env none = none
read_login_body env (some raw) =
    if ltb login_body_limit (length raw) then none else elim (env.read_login raw) [
      | none ↦ none
      | some (access_key, secret) ↦
          if access_key == [] || secret == [] then none else some (access_key, secret)
    ]

module _ (p : Platform) (env : Environment) where
  -- The stored session of a user who is no admin any more is revoked.
  unfoldable pub session_user : State → Request → Bytes → Option User → State × Answer
  session_user s r token none = (
    record s { sessions = Session.revoke p.sha256 s.sessions token },
    session_revoked (clear_session_cookie r),
  )
  session_user s r token (some user) =
      if is_admin user then (s, published user admin_session) else (
        record s { sessions = Session.revoke p.sha256 s.sessions token },
        session_revoked (clear_session_cookie r),
      )

  unfoldable pub session_found : State → Request → Bytes → Option Bytes → State × Answer
  unfolding session_user
  session_found s r token none = (s, session_expired (clear_session_cookie r))
  session_found s r token (some access_key) = session_user s r token (lookup access_key env.users)

  -- `cookieAuth`
  unfoldable pub cookie_auth : State → Request → Bytes → State × Answer
  unfolding session_found is_suspect
  cookie_auth s r token =
      if is_suspect (check_origin env r) r.method
      then (s, cross_origin)
      else (let (sessions, found) = Session.lookup p.sha256 s.sessions env.now token in
          session_found (record s { sessions = sessions }) r token found)

  unfoldable pub publish_admin : State × (ℕ ⊎ Check) → State × Answer
  publish_admin (s, inl retry) = (s, locked_out retry)
  publish_admin (s, inr (accepted user)) = (s, published user admin_headers)
  publish_admin (s, inr invalid_credentials) = (s, refused invalid_credentials)
  publish_admin (s, inr not_admin) = (s, refused not_admin)
  publish_admin (s, inr decrypt_failed) = (s, refused decrypt_failed)

  unfoldable pub by_cookie : State → Request → Option Bytes → State × Answer
  unfolding cookie_auth
  by_cookie s r none = (s, missing_credentials)
  by_cookie s r (some token) =
      if token == [] then (s, missing_credentials) else cookie_auth s r token

  unfoldable pub admin_auth_middleware : State → Request → State × Answer
  unfolding by_cookie publish_admin
  admin_auth_middleware s r =
      if not (r.admin_access_key == []) || not (r.admin_secret == [])
      then (if r.admin_access_key == [] || r.admin_secret == []
          then (s, missing_credentials)
          else publish_admin (check_credentials p env s r r.admin_access_key r.admin_secret))
      else by_cookie s r r.cookie

  unfoldable pub drop_cookie : State → Option Bytes → State
  drop_cookie s none = s
  drop_cookie s (some old) = record s { sessions = Session.revoke p.sha256 s.sessions old }

  unfoldable pub open_session : State → Request → User → State × Answer
  open_session s r user =
      let (sessions, token) =
        Session.create p.sha256 s.sessions env.now env.random user.access_key_id in
      (
        record s { sessions = sessions },
        logged_in user.access_key_id (set_session_cookie r token (pos 0)),
      )

  unfoldable pub finish_login : Request → State × (ℕ ⊎ Check) → State × Answer
  unfolding drop_cookie open_session
  finish_login r (s, inl retry) = (s, locked_out retry)
  finish_login r (s, inr (accepted user)) = open_session (drop_cookie s r.cookie) r user
  finish_login r (s, inr invalid_credentials) = (s, refused invalid_credentials)
  finish_login r (s, inr not_admin) = (s, refused not_admin)
  finish_login r (s, inr decrypt_failed) = (s, refused decrypt_failed)

  unfoldable pub login_with : State → Request → Option (Bytes × Bytes) → State × Answer
  unfolding finish_login
  login_with s r none = (s, malformed_login)
  login_with s r (some (access_key, secret)) =
      finish_login r (check_credentials p env s r access_key secret)

  -- `LoginHandler`
  unfoldable pub login_handler : State → Request → State × Answer
  unfolding login_with read_login_body
  login_handler s r =
      if is_cross (check_origin env r)
      then (s, cross_origin)
      else login_with s r (read_login_body env r.body)

  -- `LogoutHandler`
  unfoldable pub logout_handler : State → Request → State × Answer
  unfolding drop_cookie
  logout_handler s r =
      if is_cross (check_origin env r)
      then (s, cross_origin)
      else (drop_cookie s r.cookie, logged_out (clear_session_cookie r))
