-- ===== src/Session/Lifetime.antt =====
-- How long a session of internal/auth/session.go lives, and what ends it.
use byte_bucket.Prelude.{
  ◌*◌, ◌/◌, ℕ, ◌+◌, ◌<◌, ◌≡◌, ap, ◌∙◌, List, [], ◌∷◌, length, arith, ◌&&◌, none, some,
  list_equality, nat_equality, ltb, ==_refl, if◌then◌else◌,
}
use byte_bucket.Bytes.{Bytes}
use byte_bucket.Table
use byte_bucket.Table.{
  IsMap, lookup-insert, lookup-erase, lookup-retain, keep_if, retain, erase, insert, evict_oldest,
  lookup-evict_oldest_cases,
}
use byte_bucket.Base64.{raw_encode}
use byte_bucket.Base64.RoundTrip.{length-raw_encode}
use byte_bucket.Session.{
  SessionStore, Session, Token, Digest, expired, prune_locked, evict_lru_locked, prune_if_full,
  evict_if_full, create, lookup_session, lookup, session_token_len,
}

module _ (digest : Token → Digest) where
  -- A token of the right length is answered from its entry.
  lookup_lem :
      (s : SessionStore) (now : ℕ) (token : Token)
      → length token ≡ session_token_len
      → lookup digest s now token
        ≡ lookup_session digest s now (digest token) (Table.lookup (digest token) s.by_digest)
  unfolding lookup
  lookup_lem s now token h = rw h

  lookup_session-reply :
      (s : SessionStore) (now : ℕ) (key : Digest) (x : Session)
      → (lookup_session digest s now key (some x)).1 ≡ (
          if ltb now (x.last_seen + s.idle) && ltb now (x.created + s.absolute)
          then some x.access_key
          else none)
  unfolding lookup_session expired
  lookup_session-reply s now key x = ground arith

  -- The lookups of one token at the times `ts`.
  unfoldable pub looks : SessionStore → Token → List ℕ → SessionStore
  looks s token [] = s
  looks s token (t ∷ ts) = looks (lookup digest s t token).0 token ts

  create-entry :
      (s : SessionStore) (now : ℕ) (raw : List ℕ) (access_key : Bytes)
      → (Table.lookup (digest (raw_encode raw)) (create digest s now raw access_key).0.by_digest
          ≡ some (record { access_key = access_key; created = now; last_seen = now }))
        × ((create digest s now raw access_key).0.idle ≡ s.idle)
        × ((create digest s now raw access_key).0.absolute ≡ s.absolute)
  unfolding create prune_locked evict_lru_locked
  create-entry s now raw access_key = (
    rw
        (lookup-insert (digest (raw_encode raw)) (digest (raw_encode raw))
          (record { access_key = access_key; created = now; last_seen = now })
          (evict_if_full (prune_if_full s now)).by_digest)
        (rw (==_refl (digest (raw_encode raw)))),
    ground arith,
    ground arith,
  )

  -- The entry of the key and the two timeouts.
  abbrev Holds : SessionStore → Digest → ℕ → ℕ → Session → Type 0
  Holds s key idle absolute x =
      (Table.lookup key s.by_digest ≡ some x) × (s.idle ≡ idle) × (s.absolute ≡ absolute)

  lookup-Holds :
      (s : SessionStore) (now : ℕ) (token : Token) (idle absolute : ℕ) (x : Session)
      → length token ≡ session_token_len
      → Holds s (digest token) idle absolute x
      → now < x.last_seen + idle
      → now < x.created + absolute
      → Holds
          (lookup digest s now token).0
          (digest token)
          idle
          absolute
          (record x { last_seen = now })
  unfolding lookup_session expired
  lookup-Holds s now token idle absolute x len (e, i, a) h k = rw (lookup_lem s now token len) (
      rw (e, lookup_session)
        (ground (
          arith,
          lookup-insert (digest token) (digest token) (record x { last_seen = now }) s.by_digest,
          ==_refl (digest token),
        )))

  -- Each use comes less than `idle` after the one before, and before `end`.
  abbrev pub IsTimely : ℕ → ℕ → ℕ → List ℕ → Type 0
  IsTimely last idle end [] = Unit
  IsTimely last idle end (t ∷ ts) = (t < last + idle) × (t < end) × IsTimely t idle end ts

  abbrev pub last_use : ℕ → List ℕ → ℕ
  last_use last [] = last
  last_use last (t ∷ ts) = last_use t ts

  looks-Holds :
      (s : SessionStore) (token : Token) (ts : List ℕ) (idle absolute : ℕ) (x : Session)
      → length token ≡ session_token_len
      → Holds s (digest token) idle absolute x
      → IsTimely x.last_seen idle (x.created + absolute) ts
      → Holds
          (looks s token ts)
          (digest token)
          idle
          absolute
          (record x { last_seen = last_use x.last_seen ts })
  unfolding looks
  looks-Holds s token [] idle absolute x len h timely = h
  looks-Holds s token (t ∷ ts) idle absolute x len h timely =
      looks-Holds (lookup digest s t token).0 token ts idle absolute (record x { last_seen = t })
        len (lookup-Holds s t token idle absolute x len h timely.0 timely.1) timely.2

  lookup-reply :
      (s : SessionStore) (now : ℕ) (token : Token) (idle absolute : ℕ) (x : Session)
      → length token ≡ session_token_len
      → Holds s (digest token) idle absolute x
      → (lookup digest s now token).1 ≡ (
          if ltb now (x.last_seen + idle) && ltb now (x.created + absolute)
          then some x.access_key
          else none)
  lookup-reply s now token idle absolute x len (e, i, a) =
      rw (lookup_lem s now token len)
        (rw e (rw (lookup_session-reply s now (digest token) x) (rw (i, a))))

  -- A token of 32 random bytes is issued at `now` and looked up at the times `ts`, each less than
  -- the idle timeout after the one before and all within the absolute lifetime. The next lookup
  -- answers with the login's access key exactly when it, too, comes within the idle timeout of the
  -- last use and within the absolute lifetime of the login.
  pub lookup-looks :
      (s : SessionStore) (now : ℕ) (raw : List ℕ) (access_key : Bytes) (ts : List ℕ) (t : ℕ)
      → length raw ≡ 32
      → IsTimely now s.idle (now + s.absolute) ts
      → (lookup digest
          (looks (create digest s now raw access_key).0 (raw_encode raw) ts)
          t
          (raw_encode raw)).1
        ≡ (if ltb t (last_use now ts + s.idle) && ltb t (now + s.absolute)
            then some access_key
            else none)
  lookup-looks s now raw access_key ts t len timely =
      let size : length (raw_encode raw) ≡ session_token_len =
        length-raw_encode raw ∙ ap (λ (n : ℕ). (n * 8 + 5) / 6) len in
      lookup-reply _ t (raw_encode raw) s.idle s.absolute _ size (
        looks-Holds (create digest s now raw access_key).0 (raw_encode raw) ts s.idle s.absolute _
          size (create-entry s now raw access_key) timely)
