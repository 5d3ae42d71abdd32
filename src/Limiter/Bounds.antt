-- ===== src/Limiter/Bounds.antt =====
-- The table of internal/auth/limiter.go stays a map within its capacity.
use byte_bucket.Prelude.{
  ℕ, ◌+◌, ◌≤◌, ◌<◌, ◌≡◌, refl, List, [], ◌∷◌, length, arith, Option, none, some, ltb, list_equality,
  nat_equality,
}
use byte_bucket.Bytes.{Bytes}
use byte_bucket.Table.{
  IsMap, erase-IsMap, insert-IsMap, retain-IsMap, evict_oldest-IsMap, length-erase-le, erase,
  length-insert-le, length-insert_old, length-retain-le, length-evict_oldest-lt, lookup,
}
use byte_bucket.Limiter.{
  FailureLimiter, FailureWindow, fail, fail_window, open_window, reset, Call, wrong, right, step,
  run, new_failure_limiter, prune_locked, evict_oldest_locked, make_room, prune_if_full,
  evict_if_full,
}

pub record IsBounded (l : FailureLimiter) : Type 0 where
  pub distinct : IsMap l.by_key
  pub within : length l.by_key ≤ l.capacity
  pub room : 0 < l.capacity

-- After eviction the table has a free place.
evict_if_full-room :
    (l : FailureLimiter)
    → IsMap l.by_key
    → 0 < l.capacity
    → length l.by_key ≤ l.capacity
    → (IsMap (evict_if_full l).by_key)
      × (length (evict_if_full l).by_key < l.capacity)
      × ((evict_if_full l).capacity ≡ l.capacity)
unfolding evict_oldest_locked
evict_if_full-room l d r b = ground (
  arith,
  evict_oldest-IsMap (λ (w : FailureWindow). w.start) l.by_key d,
  length-evict_oldest-lt (λ (w : FailureWindow). w.start) l.by_key d,
)

prune_if_full-within :
    (l : FailureLimiter) (now : ℕ)
    → IsMap l.by_key
    → length l.by_key ≤ l.capacity
    → (IsMap (prune_if_full l now).by_key)
      × (length (prune_if_full l now).by_key ≤ l.capacity)
      × ((prune_if_full l now).capacity ≡ l.capacity)
unfolding prune_locked
prune_if_full-within l now d b = ground (
  arith,
  retain-IsMap (λ (w : FailureWindow). ltb now (w.start + l.window)) l.by_key d,
  length-retain-le (λ (w : FailureWindow). ltb now (w.start + l.window)) l.by_key,
)

open_window-IsBounded :
    (l : FailureLimiter) (now : ℕ) (key : Bytes) → IsBounded l → IsBounded (open_window l now key)
unfolding open_window
open_window-IsBounded l now key v =
    let l' : FailureLimiter = record l { by_key = erase key l.by_key } in
    let p =
      prune_if_full-within l' now (erase-IsMap key l.by_key v.distinct)
        (omega (arith, length-erase-le key l.by_key, v.within)) in
    let q =
      evict_if_full-room (prune_if_full l' now) p.0 (omega (arith, p.2, v.room))
        (omega (arith, p.1, p.2)) in
    record {
      distinct = insert-IsMap key (record { count = 1; start = now }) _ q.0;
      within = omega (
        arith,
        q.1,
        q.2,
        p.2,
        length-insert-le key (record { count = 1; start = now }) (make_room l now key).by_key,
      );
      room = omega (arith, q.2, p.2, v.room);
    }

fail_window-IsBounded :
    (l : FailureLimiter) (now : ℕ) (key : Bytes) (w : Option FailureWindow)
    → lookup key l.by_key ≡ w
    → IsBounded l
    → IsBounded (fail_window l now key w)
unfolding fail_window
fail_window-IsBounded l now key none e v = open_window-IsBounded l now key v
fail_window-IsBounded l now key (some w) e v = ground (
  arith,
  insert-IsMap key (record w { count = w.count + 1 }) l.by_key v.distinct,
  length-insert_old key (record w { count = w.count + 1 }) l.by_key,
  open_window-IsBounded l now key v,
)

-- Recording a failure keeps the keys distinct and the table within its capacity, whichever branch
-- it takes.
pub fail-IsBounded :
    (l : FailureLimiter) (now : ℕ) (key : Bytes) → IsBounded l → IsBounded (fail l now key)
unfolding fail
fail-IsBounded l now key v = fail_window-IsBounded l now key _ refl v

reset-IsBounded : (l : FailureLimiter) (key : Bytes) → IsBounded l → IsBounded (reset l key)
unfolding reset
reset-IsBounded l key v = record {
  distinct = erase-IsMap key l.by_key v.distinct;
  within = omega (arith, length-erase-le key l.by_key, v.within);
  room = v.room;
}

step-IsBounded : (l : FailureLimiter) (c : ℕ × Call) → IsBounded l → IsBounded (step l c)
unfolding step
step-IsBounded l (now, wrong key) v = fail-IsBounded l now key v
step-IsBounded l (now, right key) v = reset-IsBounded l key v

run_from-IsBounded :
    (l : FailureLimiter) (cs : List (ℕ × Call)) → IsBounded l → IsBounded (run l cs)
unfolding run
run_from-IsBounded l [] v = v
run_from-IsBounded l (c ∷ cs) v = run_from-IsBounded (step l c) cs (step-IsBounded l c v)

-- After any history of failures and successes, from any sources and at any times, a limiter that
-- was made with a positive capacity holds each key once and at most `capacity` keys.
pub run-IsBounded :
    (max window capacity : ℕ) (cs : List (ℕ × Call))
    → 0 < capacity
    → IsBounded (run (new_failure_limiter max window capacity) cs)
run-IsBounded max window capacity cs h =
    run_from-IsBounded _ cs (record { distinct = tt; within = omega arith; room = h })
