-- ===== src/Session.antt =====
-- internal/auth/session.go: the admin browser sessions. The clock is an argument, in nanoseconds,
-- and so are the 32 random bytes of a new token. SHA-256 is the parameter `digest`; of it the
-- program relies on nothing but that it is a function.
pub mod Bounds
pub mod Lifetime
mod Eviction
pub mod Ending
mod Tests
use byte_bucket.Prelude.{
  ℕ, ◌+◌, ◌-◌, ◌*◌, ◌/◌, Bool, true, false, ◌&&◌, ◌||◌, not, Option, none, some, List, [], ◌∷◌,
  Equality, ltb, list_equality, nat_equality, ◌==◌, leb, if◌then◌else◌, length,
}
use byte_bucket.Bytes.{Bytes, bytes}
use byte_bucket.Base64.{raw_encode}
use byte_bucket.Table
use byte_bucket.Table.{Table, erase, insert, retain, evict_oldest}

-- 30 minutes
abbrev pub session_idle_timeout : ℕ
session_idle_timeout = 30 * 60 * 1000000000

-- 8 hours
abbrev pub session_absolute_ttl : ℕ
session_absolute_ttl = 8 * 60 * 60 * 1000000000

abbrev pub session_cap : ℕ
session_cap = 1024

abbrev pub session_token_bytes : ℕ
session_token_bytes = 32

-- `base64.RawURLEncoding.EncodedLen(sessionTokenBytes)`
abbrev pub session_token_len : ℕ
session_token_len = (session_token_bytes * 8 + 5) / 6

abbrev pub Token : Type 0
Token = List ℕ

abbrev pub Digest : Type 0
Digest = List ℕ

pub record Session : Type 0 where
  pub access_key : Bytes
  pub created : ℕ
  pub last_seen : ℕ

pub record SessionStore : Type 0 where
  pub by_digest : Table Digest Session
  pub capacity : ℕ
  pub idle : ℕ
  pub absolute : ℕ

abbrev pub new_session_store : ℕ → ℕ → ℕ → SessionStore
new_session_store capacity idle absolute = record {
  by_digest = [];
  capacity = capacity;
  idle = idle;
  absolute = absolute;
}

pub expired : SessionStore → Session → ℕ → Bool
expired s sess now = leb (sess.last_seen + s.idle) now || leb (sess.created + s.absolute) now

pub prune_locked : SessionStore → ℕ → SessionStore
unfolding expired
prune_locked s now = record s { by_digest = retain (λ sess. not (expired s sess now)) s.by_digest }

pub evict_lru_locked : SessionStore → SessionStore
evict_lru_locked s = record s { by_digest = evict_oldest (λ sess. sess.last_seen) s.by_digest }

abbrev pub prune_if_full : SessionStore → ℕ → SessionStore
prune_if_full s now = if leb s.capacity (length s.by_digest) then prune_locked s now else s

abbrev pub evict_if_full : SessionStore → SessionStore
evict_if_full s = if leb s.capacity (length s.by_digest) then evict_lru_locked s else s

-- What the admin surface does with the store.
pub data Call : Type 0 where
  creates : List ℕ → Bytes → Call
  looks_up revokes : Token → Call

module _ (digest : Token → Digest) where
  -- The new store and the token that is handed out.
  unfoldable pub create : SessionStore → ℕ → List ℕ → Bytes → SessionStore × Token
  unfolding prune_locked evict_lru_locked
  create s now raw access_key =
      let token = raw_encode raw in
      let room = evict_if_full (prune_if_full s now) in
      let sess : Session = record { access_key = access_key; created = now; last_seen = now } in
      (record room { by_digest = insert (digest token) sess room.by_digest }, token)

  lookup_session : SessionStore → ℕ → Digest → Option Session → SessionStore × Option Bytes
  lookup_session s now key none = (s, none)
  lookup_session s now key (some sess) =
      if expired s sess now then (record s { by_digest = erase key s.by_digest }, none) else (
        record s { by_digest = insert key (record sess { last_seen = now }) s.by_digest },
        some sess.access_key,
      )

  -- `none` stands for the answer `"", false`.
  pub lookup : SessionStore → ℕ → Token → SessionStore × Option Bytes
  unfolding lookup_session expired
  lookup s now token =
      if length token == session_token_len
      then lookup_session s now (digest token) (Table.lookup (digest token) s.by_digest)
      else (s, none)

  unfoldable pub revoke : SessionStore → Token → SessionStore
  revoke s token = record s { by_digest = erase (digest token) s.by_digest }

  unfoldable pub step : SessionStore → ℕ × Call → SessionStore
  step s (now, creates raw access_key) = (create s now raw access_key).0
  step s (now, looks_up token) = (lookup s now token).0
  step s (now, revokes token) = revoke s token

  unfoldable pub run : SessionStore → List (ℕ × Call) → SessionStore
  run s [] = s
  run s (c ∷ cs) = run (step s c) cs
