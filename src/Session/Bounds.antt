-- ===== src/Session/Bounds.antt =====
-- The session table of internal/auth/session.go stays a map within its capacity.
use byte_bucket.Prelude.{
  ℕ, ◌≤◌, ◌<◌, ◌≡◌, refl, List, [], ◌∷◌, length, arith, Option, none, some, not, list_equality,
  nat_equality,
}
use byte_bucket.Bytes.{Bytes}
use byte_bucket.Table
use byte_bucket.Table.{
  IsMap, erase-IsMap, insert-IsMap, retain-IsMap, evict_oldest-IsMap, length-erase-le, erase,
  length-insert-le, length-insert_old, length-retain-le, length-evict_oldest-lt, evict_oldest,
  retain, insert,
}
use byte_bucket.Base64.{raw_encode}
use byte_bucket.Session.{
  SessionStore, Session, Token, Digest, expired, prune_locked, evict_lru_locked, prune_if_full,
  evict_if_full, create, lookup_session, lookup, revoke, Call, creates, looks_up, revokes, step,
  run, new_session_store,
}

pub record IsBounded (s : SessionStore) : Type 0 where
  pub distinct : IsMap s.by_digest
  pub within : length s.by_digest ≤ s.capacity
  pub room : 0 < s.capacity

pub prune_if_full-IsBounded :
    (s : SessionStore) (now : ℕ) → IsBounded s → IsBounded (prune_if_full s now)
unfolding prune_locked
prune_if_full-IsBounded s now v = ground (
  arith,
  retain-IsMap (λ (x : Session). not (expired s x now)) s.by_digest v.distinct,
  length-retain-le (λ (x : Session). not (expired s x now)) s.by_digest,
)

pub evict_if_full-room :
    (s : SessionStore)
    → IsBounded s
    → (IsMap (evict_if_full s).by_digest)
      × (length (evict_if_full s).by_digest < s.capacity)
      × ((evict_if_full s).capacity ≡ s.capacity)
unfolding evict_lru_locked
evict_if_full-room s v = ground (
  arith,
  evict_oldest-IsMap (λ (x : Session). x.last_seen) s.by_digest v.distinct,
  length-evict_oldest-lt (λ (x : Session). x.last_seen) s.by_digest v.distinct,
)

module _ (digest : Token → Digest) where
  pub create-IsBounded :
      (s : SessionStore) (now : ℕ) (raw : List ℕ) (access_key : Bytes)
      → IsBounded s
      → IsBounded (create digest s now raw access_key).0
  unfolding create
  create-IsBounded s now raw access_key v =
      let pruned = prune_if_full-IsBounded s now v in
      let q = evict_if_full-room (prune_if_full s now) pruned in
      let key = digest (raw_encode raw) in
      let sess : Session = record { access_key = access_key; created = now; last_seen = now } in
      record {
        distinct = insert-IsMap key sess _ q.0;
        within = omega (
          arith,
          q.1,
          q.2,
          length-insert-le key sess (evict_if_full (prune_if_full s now)).by_digest,
        );
        room = omega (arith, q.2, pruned.room);
      }

  lookup_session-IsBounded :
      (s : SessionStore) (now : ℕ) (key : Digest) (o : Option Session)
      → Table.lookup key s.by_digest ≡ o
      → IsBounded s
      → IsBounded (lookup_session digest s now key o).0
  unfolding lookup_session
  lookup_session-IsBounded s now key none e v = v
  lookup_session-IsBounded s now key (some x) e v = ground (
    arith,
    erase-IsMap key s.by_digest v.distinct,
    length-erase-le key s.by_digest,
    insert-IsMap key (record x { last_seen = now }) s.by_digest v.distinct,
    length-insert_old key (record x { last_seen = now }) s.by_digest,
  )

  lookup-IsBounded :
      (s : SessionStore) (now : ℕ) (token : Token)
      → IsBounded s
      → IsBounded (lookup digest s now token).0
  unfolding lookup
  lookup-IsBounded s now token v = ground (
    arith,
    lookup_session-IsBounded s now (digest token) (Table.lookup (digest token) s.by_digest) refl v,
  )

  pub revoke-IsBounded :
      (s : SessionStore) (token : Token) → IsBounded s → IsBounded (revoke digest s token)
  unfolding revoke
  revoke-IsBounded s token v = record {
    distinct = erase-IsMap (digest token) s.by_digest v.distinct;
    within = omega (arith, length-erase-le (digest token) s.by_digest, v.within);
    room = v.room;
  }

  pub step-IsBounded : (s : SessionStore) (c : ℕ × Call) → IsBounded s → IsBounded (step digest s c)
  unfolding step
  step-IsBounded s (now, creates raw access_key) v = create-IsBounded s now raw access_key v
  step-IsBounded s (now, looks_up token) v = lookup-IsBounded s now token v
  step-IsBounded s (now, revokes token) v = revoke-IsBounded s token v

  run_from-IsBounded :
      (s : SessionStore) (cs : List (ℕ × Call)) → IsBounded s → IsBounded (run digest s cs)
  unfolding run
  run_from-IsBounded s [] v = v
  run_from-IsBounded s (c ∷ cs) v = run_from-IsBounded (step digest s c) cs (step-IsBounded s c v)

  -- After any history of logins, lookups and logouts, a store that was made with a positive
  -- capacity holds each digest once and at most `capacity` sessions.
  pub run-new_session_store :
      (capacity idle absolute : ℕ) (cs : List (ℕ × Call))
      → 0 < capacity
      → IsBounded (run digest (new_session_store capacity idle absolute) cs)
  run-new_session_store capacity idle absolute cs h =
      run_from-IsBounded _ cs (record { distinct = tt; within = omega arith; room = h })
