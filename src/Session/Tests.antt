-- ===== src/Session/Tests.antt =====
-- Concrete runs of the session store, with the identity in place of SHA-256.
use byte_bucket.Prelude.{
  ℕ, zero, suc, ◌≡◌, refl, List, [], ◌∷◌, arith, some, none, list_equality, nat_equality, ◌<◌,
}
use byte_bucket.Bytes.{Bytes, bytes}
use byte_bucket.Table
use byte_bucket.Base64.{raw_encode}
use byte_bucket.Session.{
  SessionStore, Session, Token, Digest, creates, new_session_store, create, lookup, revoke, run,
  step, expired,
}
use byte_bucket.Session.Bounds.{IsBounded, run-new_session_store}
use byte_bucket.Session.Lifetime.{looks, lookup-looks}
use byte_bucket.Session.Ending.{lookup-run-create, lookup-run-revoke}

abbrev digest : Token → Digest
digest token = token

abbrev zeros : ℕ → List ℕ
zeros n = elim n [ zero ↦ [] | suc (k → ih) ↦ 0 ∷ ih ]

abbrev raw_a : List ℕ
raw_a = zeros 32

abbrev raw_b : List ℕ
raw_b = 1 ∷ zeros 31

abbrev small : SessionStore
small = new_session_store 2 30 100

run-new_session_store_example : IsBounded (
    run digest
      (new_session_store 1 30 100)
      ((0, creates raw_a (bytes "k")) ∷ (5, creates raw_b (bytes "m")) ∷ []))
run-new_session_store_example =
    run-new_session_store digest 1 30 100
      ((0, creates raw_a (bytes "k")) ∷ (5, creates raw_b (bytes "m")) ∷ []) (omega arith)

lookup-looks_example :
    (lookup digest
      (looks digest (create digest small 7 raw_a (bytes "k")).0 (raw_encode raw_a) (20 ∷ 40 ∷ []))
      60
      (raw_encode raw_a)).1
    ≡ some (bytes "k")
lookup-looks_example =
    lookup-looks digest small 7 raw_a (bytes "k") (20 ∷ 40 ∷ []) 60 refl (omega arith)

small-IsBounded : IsBounded small
small-IsBounded = record { distinct = tt; within = omega arith; room = omega arith }

first_reply :
    (lookup digest
      (run digest (create digest small 7 raw_a (bytes "k")).0 ((9, creates raw_b (bytes "m")) ∷ []))
      20
      (raw_encode raw_a)).1
    ≡ some (bytes "k")
unfolding lookup run step create raw_encode expired Table.insert Table.lookup
first_reply = refl

lookup-run-create_example : (◌≡◌ {A = Bytes} (bytes "k") (bytes "k")) × (20 < 107)
unfolding raw_encode
lookup-run-create_example =
    lookup-run-create digest small small-IsBounded 7 raw_a (bytes "k")
      ((9, creates raw_b (bytes "m")) ∷ []) 20 (bytes "k") (refl, tt) first_reply

lookup-run-revoke_example :
    (lookup digest
      (run digest (revoke digest small (raw_encode raw_a)) ((9, creates raw_b (bytes "m")) ∷ []))
      20
      (raw_encode raw_a)).1
    ≡ none
unfolding raw_encode
lookup-run-revoke_example =
    lookup-run-revoke digest small small-IsBounded (raw_encode raw_a)
      ((9, creates raw_b (bytes "m")) ∷ []) 20 (refl, tt)

abbrev session_a : Session
session_a = record { access_key = (bytes "k"); created = 7; last_seen = 7 }

abbrev one : SessionStore
one = record small { by_digest = (raw_encode raw_a, session_a) ∷ [] }
