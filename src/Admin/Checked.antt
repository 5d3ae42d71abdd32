-- ===== src/Admin/Checked.antt =====
-- Who counts as an admin (internal/auth/admin_session.go, internal/auth/auth.go).
use byte_bucket.Prelude.{
  ℕ, Bool, true, false, ◌||◌, not, [], Option, none, some, ◌⊎◌, inl, inr, ◌==◌, nat_equality,
  list_equality, list_test_iff, if◌then◌else◌, ◌≡◌, refl, sym, ap, ◌∙◌, Bool-cases, Option-cases,
}
use byte_bucket.Bytes.{Bytes}
use byte_bucket.Table.{lookup}
use byte_bucket.Limiter
use byte_bucket.Session
use byte_bucket.Auth.Request.{User, Platform}
use byte_bucket.Admin.{
  Request, Environment, State, is_admin, Check, accepted, invalid_credentials, not_admin,
  decrypt_failed, check_origin, AuthMethod, admin_headers, admin_session, published, secrets_equal,
  verify_user, verify_found, verify_admin, check_unless, check_credentials, OriginVerdict,
  origin_same, origin_unknown, origin_cross, is_safe_method,
}
use byte_bucket.Admin.Handlers.{
  is_suspect, session_user, session_found, cookie_auth, publish_admin, by_cookie,
  admin_auth_middleware,
}

unsafe : (b : Bool) → not b ≡ false → b ≡ true
unsafe true h = refl
unsafe false h = cc h

not_suspect :
    (verdict : OriginVerdict) (method : Bytes)
    → is_suspect verdict method ≡ false
    → (verdict ≡ origin_same) ⊎ ((verdict ≡ origin_unknown) × (is_safe_method method ≡ true))
unfolding is_suspect
not_suspect origin_cross method h = cc h
not_suspect origin_unknown method h = inr (refl, unsafe (is_safe_method method) h)
not_suspect origin_same method h = inl refl

module _ (p : Platform) (env : Environment) where
  -- The access key and the secret are those of a user with admin rights.
  pub record IsCredentialed (access_key secret : Bytes) (user : User) : Type 0 where
    pub found : lookup access_key env.users ≡ some user
    pub stored : Bytes
    pub decrypted : p.decrypt user.encrypted_secret ≡ some stored
    pub same_digest : p.sha256 secret ≡ p.sha256 stored
    pub admin : is_admin user ≡ true

  verify_guards :
      (same admin : Bool) (user u : User)
      → (if not same then invalid_credentials else if not admin then not_admin else accepted u)
        ≡ accepted user
      → (same ≡ true) × (admin ≡ true) × (u ≡ user)
  verify_guards true true user u h = (refl, refl, cc h)
  verify_guards true false user u h = cc h
  verify_guards false admin user u h = cc h

  verified :
      (secret : Bytes) (u user : User) (o : Option Bytes)
      → verify_user p secret u o ≡ accepted user
      → (u ≡ user)
        × ((stored : Bytes) × (o ≡ some stored) × (p.sha256 secret ≡ p.sha256 stored))
        × (is_admin user ≡ true)
  unfolding verify_user secrets_equal
  verified secret u user none h = cc h
  verified secret u user (some stored) h =
      let (same, admin, e) =
        verify_guards (p.sha256 secret == p.sha256 stored) (is_admin u) user u h in
      (e, (stored, refl, (list_test_iff _ _).0 same), ap is_admin (sym e) ∙ admin)

  pub verify_admin-IsCredentialed :
      (access_key secret : Bytes) (user : User)
      → verify_admin p env access_key secret ≡ accepted user
      → IsCredentialed access_key secret user
  unfolding verify_admin verify_found
  verify_admin-IsCredentialed access_key secret user h =
      elim (Option-cases (lookup access_key env.users)) [
        | inl absent ↦ absurd (cc (rw absent at h))
        | inr (u, found) ↦
            let (e, (stored, decrypted, same), admin) =
              verified secret u user (p.decrypt u.encrypted_secret) (rw found at h) in
            record {
              found = found ∙ ap some e;
              stored = stored;
              decrypted = ap (λ (v : User). p.decrypt v.encrypted_secret) (sym e) ∙ decrypted;
              same_digest = same;
              admin = admin;
            }
      ]

  outcome :
      (s : State) (c : Check) (user : User) (m : AuthMethod)
      → (publish_admin p env (s, inr c)).1 ≡ published user m
      → (m ≡ admin_headers) × (c ≡ accepted user)
  unfolding publish_admin
  outcome s (accepted u) user m h = (cc h, cc h)
  outcome s invalid_credentials user m h = cc h
  outcome s not_admin user m h = cc h
  outcome s decrypt_failed user m h = cc h

  -- The session of the token is live and its user has admin rights still.
  pub record IsLoggedIn (s : State) (r : Request) (user : User) : Type 0 where
    pub token : Bytes
    pub cookie : r.cookie ≡ some token
    pub own_origin :
        (check_origin env r ≡ origin_same)
        ⊎ ((check_origin env r ≡ origin_unknown) × (is_safe_method r.method ≡ true))
    pub access_key : Bytes
    pub live : (Session.lookup p.sha256 s.sessions env.now token).1 ≡ some access_key
    pub found : lookup access_key env.users ≡ some user
    pub admin : is_admin user ≡ true

  -- The client was not locked out and sent the credentials in headers.
  pub record IsHeaderAdmin (s : State) (r : Request) (user : User) : Type 0 where
    pub not_locked : (Limiter.blocked s.failures env.now r.client_ip).1 ≡ false
    pub credentialed : IsCredentialed r.admin_access_key r.admin_secret user

  from_headers :
      (s : State) (r : Request) (access_key secret : Bytes) (b : ℕ × Bool) (user : User)
      (m : AuthMethod)
      → (publish_admin p env (check_unless p env s r.client_ip access_key secret b)).1
        ≡ published user m
      → (b.1 ≡ false) × (m ≡ admin_headers) × IsCredentialed access_key secret user
  unfolding check_unless publish_admin
  from_headers s r access_key secret (retry, true) user m h = cc h
  from_headers s r access_key secret (retry, false) user m h =
      let (how, good) = outcome _ (verify_admin p env access_key secret) user m h in
      (refl, how, verify_admin-IsCredentialed access_key secret user good)

  user_admin :
      (s : State) (r : Request) (token : Bytes) (o : Option User) (user : User) (m : AuthMethod)
      → (session_user p env s r token o).1 ≡ published user m
      → (m ≡ admin_session) × (o ≡ some user) × (is_admin user ≡ true)
  unfolding session_user
  user_admin s r token none user m h = cc h
  user_admin s r token (some u) user m h = elim (Bool-cases (is_admin u)) [
    | inl admin ↦
        let e : published u admin_session ≡ published user m = rw admin at h in
        let same : u ≡ user = cc e in (cc e, ap some same, ap is_admin (sym same) ∙ admin)
    | inr other ↦ absurd (cc (rw other at h))
  ]

  session_admin :
      (s : State) (r : Request) (token : Bytes) (o : Option Bytes) (user : User) (m : AuthMethod)
      → (session_found p env s r token o).1 ≡ published user m
      → (m ≡ admin_session)
        × ((access_key : Bytes) × (o ≡ some access_key) × (lookup access_key env.users ≡ some user))
        × (is_admin user ≡ true)
  unfolding session_found
  session_admin s r token none user m h = cc h
  session_admin s r token (some access_key) user m h =
      let (how, found, admin) = user_admin s r token (lookup access_key env.users) user m h in
      (how, (access_key, refl, found), admin)

  from_cookie :
      (s : State) (r : Request) (o : Option Bytes) (user : User) (m : AuthMethod)
      → r.cookie ≡ o
      → (by_cookie p env s r o).1 ≡ published user m
      → (m ≡ admin_session) × IsLoggedIn s r user
  unfolding by_cookie cookie_auth
  from_cookie s r none user m c h = cc h
  from_cookie s r (some token) user m c h = elim (Bool-cases (token == [])) [
    | inl empty ↦ absurd (cc (rw empty at h))
    | inr given ↦ elim (Bool-cases (is_suspect (check_origin env r) r.method)) [
      | inl suspect ↦ absurd (cc (rw (given, suspect) at h))
      | inr clear ↦
          let (how, (access_key, live, found), admin) =
            session_admin _ r token (Session.lookup p.sha256 s.sessions env.now token).1 user m
              (rw (given, clear) at h) in
          (
            how,
            record {
              token = token;
              cookie = c;
              own_origin = not_suspect (check_origin env r) r.method clear;
              access_key = access_key;
              live = live;
              found = found;
              admin = admin;
            },
          )
    ]
  ]

  -- Whoever the middleware passes on as an admin has admin rights at that moment. By headers, the
  -- secret has the digest of the user's own and the client is not locked out. By cookie, the session
  -- is live, and the request is known to come from the console's own origin or is one of a safe
  -- method that shows no other origin.
  pub admin_auth_middleware-published :
      (s : State) (r : Request) (user : User) (m : AuthMethod)
      → (admin_auth_middleware p env s r).1 ≡ published user m
      → ((m ≡ admin_headers) × IsHeaderAdmin s r user) ⊎ ((m ≡ admin_session) × IsLoggedIn s r user)
  unfolding admin_auth_middleware check_credentials
  admin_auth_middleware-published s r user m h =
      elim (Bool-cases (not (r.admin_access_key == []) || not (r.admin_secret == []))) [
        | inl headers ↦ elim (Bool-cases (r.admin_access_key == [] || r.admin_secret == [])) [
          | inl partial ↦ absurd (cc (rw (headers, partial) at h))
          | inr whole ↦
              let (clear, how, good) =
                from_headers s r r.admin_access_key r.admin_secret
                  (Limiter.blocked s.failures env.now r.client_ip) user m
                  (rw (headers, whole) at h) in
              inl (how, record { not_locked = clear; credentialed = good })
        ]
        | inr bare ↦ inr (from_cookie s r r.cookie user m refl (rw bare at h))
      ]
