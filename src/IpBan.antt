-- ===== src/IpBan.antt =====
-- internal/middleware/ipban.go: the failed-auth ban of the storage surface. The clock is an
-- argument, in nanoseconds. A request is two steps, its arrival and its end, so that any
-- interleaving of requests, sweeps and settings changes is a sequence of steps.
pub mod Config
pub mod Address
mod Bounds
mod Banning
mod Serving
mod Innocent
mod Tests
use byte_bucket.Prelude.{
  ℕ, ◌+◌, ◌*◌, String, Bool, true, false, ◌&&◌, ◌||◌, not, Option, none, some, List, [], ◌∷◌,
  Equality, string_equality, nat_equality, ◌==◌, ltb, leb, if◌then◌else◌, length,
}
use byte_bucket.Prelude.Int.{to_ℕ}
use byte_bucket.Table.{Table, lookup, erase, insert, retain, evict_oldest}
use Config.{IpBanConfig, normalized, max_ban_entries}

pub record FailEntry : Type 0 where
  pub count : ℕ
  pub start : ℕ

pub record BanStore : Type 0 where
  pub fails : Table String FailEntry
  pub bans : Table String ℕ
  pub limit : ℕ
  pub max : ℕ
  pub window : ℕ
  pub ban : ℕ

abbrev pub second : ℕ
second = 1000000000

-- New thresholds, and both tables flushed.
pub reconfigure : BanStore → IpBanConfig → BanStore
reconfigure s cfg = record {
  fails = [];
  bans = [];
  limit = s.limit;
  max = to_ℕ cfg.max_failures;
  window = to_ℕ cfg.window_seconds * second;
  ban = to_ℕ cfg.ban_seconds * second;
}

pub new_ban_store : IpBanConfig → ℕ → BanStore
unfolding reconfigure
new_ban_store cfg limit =
    reconfigure (record { fails = []; bans = []; limit = limit; max = 0; window = 0; ban = 0 }) cfg

banned_until : BanStore → String → ℕ → Option ℕ → BanStore × Bool
banned_until s ip now none = (s, false)
banned_until s ip now (some until) =
    if ltb now until then (s, true) else (record s { bans = erase ip s.bans }, false)

pub banned_locked : BanStore → String → ℕ → BanStore × Bool
unfolding banned_until
banned_locked s ip now = banned_until s ip now (lookup ip s.bans)

-- Inserting a new key enforces the cap first.
room_for : BanStore → Option FailEntry → Table String FailEntry
room_for s none =
    if leb s.limit (length s.fails) then evict_oldest (λ f. f.start) s.fails else s.fails
room_for s (some e) = s.fails

fresh_entry : BanStore → String → ℕ → Option FailEntry → BanStore × FailEntry
unfolding room_for
fresh_entry s ip now old =
    let e : FailEntry = record { count = 0; start = now } in
    (record s { fails = insert ip e (room_for s old) }, e)

entry_of : BanStore → String → ℕ → Option FailEntry → BanStore × FailEntry
unfolding fresh_entry
entry_of s ip now none = fresh_entry s ip now none
entry_of s ip now (some e) =
    if ltb now (e.start + s.window) then (s, e) else fresh_entry s ip now (some e)

pub fail_entry_locked : BanStore → String → ℕ → BanStore × FailEntry
unfolding entry_of
fail_entry_locked s ip now = entry_of s ip now (lookup ip s.fails)

-- A new ban, with the soonest-expiring one evicted if the table is full.
impose : BanStore → String → ℕ → BanStore
impose s ip until =
    let room = if leb s.limit (length s.bans) then evict_oldest (λ t. t) s.bans else s.bans in
    record s { fails = erase ip s.fails; bans = insert ip until room }

-- `e.count++` on the shared entry, and the ban once the count has reached `max`. The answer is the
-- expiry and the count of a ban that this failure imposed.
count_failure : BanStore → String → ℕ → FailEntry → BanStore × Option (ℕ × ℕ)
unfolding impose
count_failure s ip now e =
    let n = e.count + 1 in
    if ltb n s.max
    then (record s { fails = insert ip (record e { count = n }) s.fails }, none)
    else (impose s ip (now + s.ban), some (now + s.ban, n))

fail_unless : BanStore × Bool → String → ℕ → BanStore × Option (ℕ × ℕ)
unfolding fail_entry_locked count_failure
fail_unless (s, true) ip now = (s, none)
fail_unless (s, false) ip now =
    let (s', e) = fail_entry_locked s ip now in count_failure s' ip now e

pub fail : BanStore → String → ℕ → BanStore × Option (ℕ × ℕ)
unfolding banned_locked fail_unless
fail s ip now = fail_unless (banned_locked s ip now) ip now

pub reap : BanStore → ℕ → BanStore
reap s now = record s {
  fails = retain (λ e. ltb now (e.start + s.window)) s.fails;
  bans = retain (λ until. ltb now until) s.bans;
}

pub record IpBanController : Type 0 where
  pub store : BanStore
  pub cfg : IpBanConfig

pub new_ip_ban_controller : IpBanConfig → IpBanController
new_ip_ban_controller cfg =
    let n = normalized cfg in record { store = new_ban_store n max_ban_entries; cfg = n }

pub apply : IpBanController → IpBanConfig → IpBanController
apply bc cfg = let n = normalized cfg in record { store = reconfigure bc.store n; cfg = n }

-- What the middleware does with an arriving request: hand it on uncounted, hand it on and count
-- its outcome for the address, or refuse it with 403 AccessDenied.
pub data Admission : Type 0 where
  uncounted : Admission
  counted : String → Admission
  refused : Admission

check_ban : IpBanController → ℕ → Option String → IpBanController × Admission
check_ban bc now none = (bc, uncounted)
check_ban bc now (some ip) =
    let (s, hit) = banned_locked bc.store ip now in
    (record bc { store = s }, if hit then refused else counted ip)

module _ (bannable_ip : String → Option String) where
  pub arrive : IpBanController → ℕ → String → IpBanController × Admission
  unfolding check_ban banned_locked
  arrive bc now client =
      if not bc.cfg.enabled then (bc, uncounted) else check_ban bc now (bannable_ip client)

-- After the handlers: 401 and 403 count as a failure of the address that was let in.
pub finish : IpBanController → ℕ → String → ℕ → IpBanController
unfolding fail
finish bc now ip status =
    if status == 401 || status == 403 then record bc { store = (fail bc.store ip now).0 } else bc

pub data Event : Type 0 where
  arrives : String → Event
  ends : String → ℕ → Event
  reaps : Event
  applies : IpBanConfig → Event

module _ (bannable_ip : String → Option String) where
  pub step : IpBanController → ℕ × Event → IpBanController
  step bc (now, arrives client) = (arrive bannable_ip bc now client).0
  step bc (now, ends ip status) = finish bc now ip status
  step bc (now, reaps) = record bc { store = reap bc.store now }
  step bc (now, applies cfg) = apply bc cfg

  pub run : IpBanController → List (ℕ × Event) → IpBanController
  run bc [] = bc
  run bc (e ∷ es) = run (step bc e) es
