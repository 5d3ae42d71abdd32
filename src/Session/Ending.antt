-- ===== src/Session/Ending.antt =====
-- What no history can undo: the absolute lifetime, and a logout (internal/auth/session.go).
use byte_bucket.Prelude.{
  list_test_iff, list_test_refl, ℕ, ◌+◌, ◌<◌, ◌≡◌, refl, sym, subst, ◌∙◌, List, [], ◌∷◌, length,
  arith, true, false, Option, none, some, not, inl, inr, Option-cases, Bool-cases, list_equality,
  nat_equality, leb, ◌==◌,
}
use byte_bucket.Bytes.{Bytes}
use byte_bucket.Table
use byte_bucket.Table.{
  IsMap, lookup-insert, lookup-erase, lookup-retain, keep_if, keep_if-eq-some,
  lookup-evict_oldest-some, retain, erase, insert, evict_oldest, lookup-evict_oldest_cases,
}
use byte_bucket.Base64.{raw_encode}
use byte_bucket.Session.{
  SessionStore, Session, Token, Digest, expired, prune_locked, evict_lru_locked, prune_if_full,
  evict_if_full, create, lookup_session, lookup, revoke, Call, creates, looks_up, revokes, step,
  run, session_token_len,
}
use byte_bucket.Session.Bounds.{
  IsBounded, step-IsBounded, create-IsBounded, revoke-IsBounded, prune_if_full-IsBounded,
}

-- If `key` has a session then it satisfies `P`, and the absolute lifetime is `a`.
record Only (P : Session → Type 0) (key : Digest) (a : ℕ) (s : SessionStore) : Type 0 where
  entry : (x : Session) → Table.lookup key s.by_digest ≡ some x → P x
  absolute : s.absolute ≡ a

-- No login in the history draws a token with the digest `key`.
abbrev pub DrawsOther : (Token → Digest) → Digest → List (ℕ × Call) → Type 0
DrawsOther digest key [] = Unit
DrawsOther digest key ((t, creates raw k) ∷ cs) =
    ((digest (raw_encode raw) == key) ≡ false) × DrawsOther digest key cs
DrawsOther digest key ((t, looks_up token) ∷ cs) = DrawsOther digest key cs
DrawsOther digest key ((t, revokes token) ∷ cs) = DrawsOther digest key cs

module _ (P : Session → Type 0) (key : Digest) (a : ℕ) (s : SessionStore) (o : Only P key a s) where
  erase-Only : (j : Digest) → Only P key a (record s { by_digest = erase j s.by_digest })
  erase-Only j = record {
    entry = λ x e. o.entry x (ground (arith, lookup-erase j key s.by_digest));
    absolute = o.absolute;
  }

  insert-Only :
      (j : Digest) (x : Session)
      → ((j == key) ≡ true → P x)
      → Only P key a (record s { by_digest = insert j x s.by_digest })
  insert-Only j x h = record {
    entry = λ y e. elim (Bool-cases (j == key)) [
      | inl same ↦
          let found : some x ≡ some y = rw (lookup-insert j key x s.by_digest, same) at e in
          let eq : x ≡ y = cc found in subst P eq (h same)
      | inr other ↦ o.entry y (rw (lookup-insert j key x s.by_digest, other) at e)
    ];
    absolute = o.absolute;
  }

  prune-Only : (now : ℕ) → IsMap s.by_digest → Only P key a (prune_if_full s now)
  unfolding prune_locked
  prune-Only now d = elim (Bool-cases (leb s.capacity (length s.by_digest))) [
    | inr free ↦ rw free o
    | inl full ↦ rw full (record {
      entry = λ y e.
          o.entry y
            (keep_if-eq-some (λ x. not (expired s x now)) _ y
              (rw (lookup-retain (λ x. not (expired s x now)) key s.by_digest d) at e)).0;
      absolute = o.absolute;
    })
  ]

  evict-Only : IsMap s.by_digest → Only P key a (evict_if_full s)
  unfolding evict_lru_locked
  evict-Only d = elim (Bool-cases (leb s.capacity (length s.by_digest))) [
    | inr free ↦ rw free o
    | inl full ↦ rw full (record {
      entry = λ y e.
          o.entry y (lookup-evict_oldest-some (λ (x : Session). x.last_seen) s.by_digest key y e);
      absolute = o.absolute;
    })
  ]

-- What holds of a session holds after it has been used.
module _ (digest : Token → Digest) (P : Session → Type 0)
    (stable : (x : Session) (t : ℕ) → P x → P (record x { last_seen = t })) (key : Digest)
    (a : ℕ) where
  lookup_session-Only :
      (s : SessionStore) (now : ℕ) (j : Digest) (e : Option Session)
      → Table.lookup j s.by_digest ≡ e
      → Only P key a s
      → Only P key a (lookup_session digest s now j e).0
  unfolding lookup_session
  lookup_session-Only s now j none h o = o
  lookup_session-Only s now j (some x) h o = elim (Bool-cases (expired s x now)) [
    | inl over ↦ rw over (erase-Only P key a s o j)
    | inr alive ↦ rw alive (
        insert-Only P key a s o j _ (λ same. stable x now (
          o.entry x
            (subst (λ k. Table.lookup k s.by_digest ≡ some x) ((list_test_iff j key).0 same) h))))
  ]

  used-Only :
      (s : SessionStore) (now : ℕ) (token : Token)
      → Only P key a s
      → Only P key a (lookup digest s now token).0
  unfolding lookup
  used-Only s now token o = elim (Bool-cases (length token == session_token_len)) [
    | inl fits ↦ rw fits (lookup_session-Only s now (digest token) _ refl o)
    | inr odd ↦ rw odd o
  ]

  step-Only :
      (s : SessionStore) (c : ℕ × Call)
      → DrawsOther digest key (c ∷ [])
      → IsBounded s
      → Only P key a s
      → Only P key a (step digest s c)
  unfolding step lookup revoke create
  step-Only s (now, creates raw k) other v o =
      let pruned = prune-Only P key a s o now v.distinct in
      let distinct = (prune_if_full-IsBounded s now v).distinct in
      let room = evict-Only P key a (prune_if_full s now) pruned distinct in
      insert-Only P key a (evict_if_full (prune_if_full s now)) room (digest (raw_encode raw)) _
        (λ same. absurd (cc (same, other.0)))
  step-Only s (now, looks_up token) other v o = used-Only s now token o
  step-Only s (now, revokes token) other v o = erase-Only P key a s o (digest token)

  run-Only :
      (s : SessionStore) (cs : List (ℕ × Call))
      → DrawsOther digest key cs
      → IsBounded s
      → Only P key a s
      → Only P key a (run digest s cs)
  unfolding run
  run-Only s [] other v o = o
  run-Only s ((t, creates raw k) ∷ cs) other v o =
      run-Only (step digest s (t, creates raw k)) cs other.1
        (step-IsBounded digest s (t, creates raw k) v)
        (step-Only s (t, creates raw k) (other.0, tt) v o)
  run-Only s ((t, looks_up token) ∷ cs) other v o =
      run-Only (step digest s (t, looks_up token)) cs other
        (step-IsBounded digest s (t, looks_up token) v) (step-Only s (t, looks_up token) tt v o)
  run-Only s ((t, revokes token) ∷ cs) other v o =
      run-Only (step digest s (t, revokes token)) cs other
        (step-IsBounded digest s (t, revokes token) v) (step-Only s (t, revokes token) tt v o)

  session_reply :
      (s : SessionStore) (now : ℕ) (j : Digest) (e : Option Session) (k : Bytes)
      → (lookup_session digest s now j e).1 ≡ some k
      → (x : Session) × (e ≡ some x) × (x.access_key ≡ k) × (now < x.created + s.absolute)
  unfolding lookup_session expired
  session_reply s now j none k h = absurd (ground arith)
  session_reply s now j (some x) k h = (x, refl, ground arith, ground arith)

  -- An answer comes from an entry that satisfies `P`, within its absolute lifetime.
  lookup-Only :
      (s : SessionStore) (now : ℕ) (token : Token) (k : Bytes)
      → digest token ≡ key
      → Only P key a s
      → (lookup digest s now token).1 ≡ some k
      → (x : Session) × P x × (x.access_key ≡ k) × (now < x.created + a)
  unfolding lookup
  lookup-Only s now token k e o h = elim (Bool-cases (length token == session_token_len)) [
    | inl fits ↦
        let (x, found, same, alive) =
          session_reply s now (digest token) (Table.lookup (digest token) s.by_digest) k
            (rw fits at h) in
        (
          x,
          o.entry x (subst (λ j. Table.lookup j s.by_digest ≡ some x) e found),
          same,
          omega (arith, o.absolute, alive),
        )
    | inr odd ↦ absurd (cc (rw odd at h))
  ]

-- The session of one login.
abbrev Mine : Bytes → ℕ → Session → Type 0
Mine access_key now x = (x.access_key ≡ access_key) × (x.created ≡ now)

create-Only :
    (digest : Token → Digest) (s : SessionStore) (now : ℕ) (raw : List ℕ) (access_key : Bytes)
    → Only
        (Mine access_key now)
        (digest (raw_encode raw))
        s.absolute
        (create digest s now raw access_key).0
unfolding create prune_locked evict_lru_locked
create-Only digest s now raw access_key = record {
  entry = λ x e.
      let key = digest (raw_encode raw) in
      let mine : Session = record { access_key = access_key; created = now; last_seen = now } in
      let found : some mine ≡ some x =
        rw
          (
            lookup-insert key key mine (evict_if_full (prune_if_full s now)).by_digest,
            list_test_refl key,
          )
          at e in
      let eq : mine ≡ x = cc found in subst (Mine access_key now) eq (refl, refl);
  absolute = ground arith;
}

revoke-Only :
    (digest : Token → Digest) (s : SessionStore) (token : Token)
    → Only (λ x. ⊥) (digest token) s.absolute (revoke digest s token)
unfolding revoke
revoke-Only digest s token = record {
  entry = λ x e. cc (
      rw (lookup-erase (digest token) (digest token) s.by_digest, list_test_refl (digest token)) at
        e);
  absolute = refl;
}

module _ (digest : Token → Digest) (s : SessionStore) (v : IsBounded s) where
  -- After a login at `now`, whatever follows, as long as no later login draws a token of the same
  -- digest: a lookup of the token answers with the login's own access key or not at all, and not
  -- at all once the absolute lifetime is over, however often the token was used.
  pub lookup-run-create :
      (now : ℕ) (raw : List ℕ) (access_key : Bytes) (cs : List (ℕ × Call)) (t : ℕ) (k : Bytes)
      → DrawsOther digest (digest (raw_encode raw)) cs
      → (lookup digest (run digest (create digest s now raw access_key).0 cs) t (raw_encode raw)).1
        ≡ some k
      → (k ≡ access_key) × (t < now + s.absolute)
  lookup-run-create now raw access_key cs t k other h =
      let key = digest (raw_encode raw) in
      let fresh = create-Only digest s now raw access_key in
      let after =
        run-Only digest (Mine access_key now) (λ x t p. p) key s.absolute _ cs other
          (create-IsBounded digest s now raw access_key v) fresh in
      let (x, mine, same, alive) =
        lookup-Only digest (Mine access_key now) (λ x t p. p) key s.absolute _ t (raw_encode raw) k
          refl after h in
      (sym same ∙ mine.0, omega (arith, mine.1, alive))

  -- After a logout, whatever follows, as long as no later login draws a token of the same digest,
  -- the token is refused.
  pub lookup-run-revoke :
      (token : Token) (cs : List (ℕ × Call)) (t : ℕ)
      → DrawsOther digest (digest token) cs
      → (lookup digest (run digest (revoke digest s token) cs) t token).1 ≡ none
  lookup-run-revoke token cs t other =
      elim (Option-cases (lookup digest (run digest (revoke digest s token) cs) t token).1) [
        | inl refused ↦ refused
        | inr (k, h) ↦
            let after =
              run-Only digest (λ x. ⊥) (λ x t p. p) (digest token) s.absolute _ cs other
                (revoke-IsBounded digest s token v) (revoke-Only digest s token) in
            absurd
              (lookup-Only digest (λ x. ⊥) (λ x t p. p) (digest token) s.absolute _ t token k refl
                after h).1
      ]
