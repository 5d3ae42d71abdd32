-- ===== src/IpBan/Bounds.antt =====
-- Both tables of internal/middleware/ipban.go stay maps within their cap.
use byte_bucket.Prelude.{
  ℕ, ◌+◌, ◌≤◌, ◌<◌, ◌≡◌, refl, String, List, [], ◌∷◌, length, arith, Option, none, some, Bool, true,
  false, Bool-cases, string_equality, ==_refl, inl, inr, ltb, if◌then◌else◌, not, ◌||◌, ◌==◌,
  nat_equality,
}
use byte_bucket.Table.{
  IsMap, erase-IsMap, insert-IsMap, retain-IsMap, evict_oldest-IsMap, length-erase-le,
  length-insert-le, length-insert_old, length-retain-le, length-evict_oldest-lt, evict_oldest,
  lookup, lookup-insert,
}
use byte_bucket.IpBan.Config.{IpBanConfig, normalized, max_ban_entries}
use byte_bucket.IpBan.{
  BanStore, FailEntry, reconfigure, new_ban_store, banned_until, banned_locked, room_for,
  fresh_entry, entry_of, fail_entry_locked, impose, count_failure, fail_unless, fail, reap,
  IpBanController, new_ip_ban_controller, apply, check_ban, uncounted, arrive, finish, Event,
  arrives, ends, reaps, applies, step, run,
}

pub record IsBounded (s : BanStore) : Type 0 where
  pub distinct_fails : IsMap s.fails
  pub distinct_bans : IsMap s.bans
  pub few_fails : length s.fails ≤ s.limit
  pub few_bans : length s.bans ≤ s.limit
  pub room : 0 < s.limit

reconfigure-IsBounded :
    (s : BanStore) (cfg : IpBanConfig) → 0 < s.limit → IsBounded (reconfigure s cfg)
unfolding reconfigure
reconfigure-IsBounded s cfg h = record {
  distinct_fails = tt;
  distinct_bans = tt;
  few_fails = omega arith;
  few_bans = omega arith;
  room = h;
}

new_ban_store-IsBounded :
    (cfg : IpBanConfig) (limit : ℕ) → 0 < limit → IsBounded (new_ban_store cfg limit)
unfolding new_ban_store
new_ban_store-IsBounded cfg limit h =
    reconfigure-IsBounded
      (record { fails = []; bans = []; limit = limit; max = 0; window = 0; ban = 0 }) cfg h

banned_until-IsBounded :
    (s : BanStore) (ip : String) (now : ℕ) (o : Option ℕ)
    → IsBounded s
    → IsBounded (banned_until s ip now o).0
unfolding banned_until
banned_until-IsBounded s ip now none v = v
banned_until-IsBounded s ip now (some until) v =
    ground (arith, erase-IsMap ip s.bans v.distinct_bans, length-erase-le ip s.bans)

pub banned_locked-IsBounded :
    (s : BanStore) (ip : String) (now : ℕ) → IsBounded s → IsBounded (banned_locked s ip now).0
unfolding banned_locked
banned_locked-IsBounded s ip now v = banned_until-IsBounded s ip now (lookup ip s.bans) v

fresh_entry-IsBounded :
    (s : BanStore) (ip : String) (now : ℕ) (o : Option FailEntry)
    → lookup ip s.fails ≡ o
    → IsBounded s
    → IsBounded (fresh_entry s ip now o).0
unfolding fresh_entry room_for
fresh_entry-IsBounded s ip now none e v =
    let x : FailEntry = record { count = 0; start = now } in
    let cut = evict_oldest (λ (f : FailEntry). f.start) s.fails in
    ground (
      arith,
      evict_oldest-IsMap (λ (f : FailEntry). f.start) s.fails v.distinct_fails,
      length-evict_oldest-lt (λ (f : FailEntry). f.start) s.fails v.distinct_fails,
      insert-IsMap ip x cut,
      length-insert-le ip x cut,
      insert-IsMap ip x s.fails v.distinct_fails,
      length-insert-le ip x s.fails,
    )
fresh_entry-IsBounded s ip now (some f) e v =
    let x : FailEntry = record { count = 0; start = now } in
    ground (arith, insert-IsMap ip x s.fails v.distinct_fails, length-insert_old ip x s.fails)

entry_of-IsBounded :
    (s : BanStore) (ip : String) (now : ℕ) (o : Option FailEntry)
    → lookup ip s.fails ≡ o
    → IsBounded s
    → IsBounded (entry_of s ip now o).0
unfolding entry_of
entry_of-IsBounded s ip now none e v = fresh_entry-IsBounded s ip now none e v
entry_of-IsBounded s ip now (some f) e v = elim (Bool-cases (ltb now (f.start + s.window))) [
  | inl active ↦ rw active v
  | inr over ↦ rw over (fresh_entry-IsBounded s ip now (some f) e v)
]

-- The entry that is counted up is in the table.
fresh_entry-lookup :
    (s : BanStore) (ip : String) (now : ℕ) (o : Option FailEntry)
    → lookup ip (fresh_entry s ip now o).0.fails ≡ some (fresh_entry s ip now o).1
unfolding fresh_entry
fresh_entry-lookup s ip now o =
    rw (lookup-insert ip ip (record { count = 0; start = now }) (room_for s o)) (rw (==_refl ip))

entry_of-lookup :
    (s : BanStore) (ip : String) (now : ℕ) (o : Option FailEntry)
    → lookup ip s.fails ≡ o
    → lookup ip (entry_of s ip now o).0.fails ≡ some (entry_of s ip now o).1
unfolding entry_of
entry_of-lookup s ip now none e = fresh_entry-lookup s ip now none
entry_of-lookup s ip now (some f) e = elim (Bool-cases (ltb now (f.start + s.window))) [
  | inl active ↦ rw active e
  | inr over ↦ rw over (fresh_entry-lookup s ip now (some f))
]

pub fail_entry_locked-lookup :
    (s : BanStore) (ip : String) (now : ℕ)
    → lookup ip (fail_entry_locked s ip now).0.fails ≡ some (fail_entry_locked s ip now).1
unfolding fail_entry_locked
fail_entry_locked-lookup s ip now = entry_of-lookup s ip now (lookup ip s.fails) refl

impose-IsBounded :
    (s : BanStore) (ip : String) (until : ℕ) → IsBounded s → IsBounded (impose s ip until)
unfolding impose
impose-IsBounded s ip until v =
    let cut = evict_oldest (λ (t : ℕ). t) s.bans in
    ground (
      arith,
      erase-IsMap ip s.fails v.distinct_fails,
      length-erase-le ip s.fails,
      evict_oldest-IsMap (λ (t : ℕ). t) s.bans v.distinct_bans,
      length-evict_oldest-lt (λ (t : ℕ). t) s.bans v.distinct_bans,
      insert-IsMap ip until cut,
      length-insert-le ip until cut,
      insert-IsMap ip until s.bans v.distinct_bans,
      length-insert-le ip until s.bans,
    )

count_failure-IsBounded :
    (s : BanStore) (ip : String) (now : ℕ) (e : FailEntry)
    → lookup ip s.fails ≡ some e
    → IsBounded s
    → IsBounded (count_failure s ip now e).0
unfolding count_failure
count_failure-IsBounded s ip now e h v =
    let x : FailEntry = record e { count = e.count + 1 } in
    ground (
      arith,
      insert-IsMap ip x s.fails v.distinct_fails,
      length-insert_old ip x s.fails,
      impose-IsBounded s ip (now + s.ban) v,
    )

fail_unless-IsBounded :
    (r : BanStore × Bool) (ip : String) (now : ℕ)
    → IsBounded r.0
    → IsBounded (fail_unless r ip now).0
unfolding fail_unless fail_entry_locked
fail_unless-IsBounded (s, true) ip now v = v
fail_unless-IsBounded (s, false) ip now v =
    count_failure-IsBounded (entry_of s ip now (lookup ip s.fails)).0 ip now
      (entry_of s ip now (lookup ip s.fails)).1 (entry_of-lookup s ip now (lookup ip s.fails) refl)
      (entry_of-IsBounded s ip now (lookup ip s.fails) refl v)

pub fail-IsBounded :
    (s : BanStore) (ip : String) (now : ℕ) → IsBounded s → IsBounded (fail s ip now).0
unfolding fail
fail-IsBounded s ip now v =
    fail_unless-IsBounded (banned_locked s ip now) ip now (banned_locked-IsBounded s ip now v)

reap-IsBounded : (s : BanStore) (now : ℕ) → IsBounded s → IsBounded (reap s now)
unfolding reap
reap-IsBounded s now v = record {
  distinct_fails = retain-IsMap _ s.fails v.distinct_fails;
  distinct_bans = retain-IsMap _ s.bans v.distinct_bans;
  few_fails = omega (
    arith,
    length-retain-le (λ (e : FailEntry). ltb now (e.start + s.window)) s.fails,
    v.few_fails,
  );
  few_bans = omega (arith, length-retain-le (λ (t : ℕ). ltb now t) s.bans, v.few_bans);
  room = v.room;
}

check_ban-IsBounded :
    (bc : IpBanController) (now : ℕ) (o : Option String)
    → IsBounded bc.store
    → IsBounded (check_ban bc now o).0.store
unfolding check_ban
check_ban-IsBounded bc now none v = v
check_ban-IsBounded bc now (some ip) v = banned_locked-IsBounded bc.store ip now v

finish-IsBounded :
    (bc : IpBanController) (now : ℕ) (ip : String) (status : ℕ)
    → IsBounded bc.store
    → IsBounded (finish bc now ip status).store
unfolding finish
finish-IsBounded bc now ip status v = elim (Bool-cases (status == 401 || status == 403)) [
  | inl denied ↦ rw denied (fail-IsBounded bc.store ip now v)
  | inr served ↦ rw served v
]

pub new-IsBounded : (cfg : IpBanConfig) → IsBounded (new_ip_ban_controller cfg).store
unfolding new_ip_ban_controller
new-IsBounded cfg = new_ban_store-IsBounded (normalized cfg) max_ban_entries (omega arith)

module _ (bannable_ip : String → Option String) where
  arrive-IsBounded :
      (bc : IpBanController) (now : ℕ) (client : String)
      → IsBounded bc.store
      → IsBounded (arrive bannable_ip bc now client).0.store
  unfolding arrive
  arrive-IsBounded bc now client v =
      elim bc.cfg.enabled
        as (λ on.
          IsBounded
            (if not on then (bc, uncounted) else check_ban bc now (bannable_ip client)).0.store) [
              | true ↦ check_ban-IsBounded bc now (bannable_ip client) v
              | false ↦ v
            ]

  pub step-IsBounded :
      (bc : IpBanController) (e : ℕ × Event)
      → IsBounded bc.store
      → IsBounded (step bannable_ip bc e).store
  unfolding step apply
  step-IsBounded bc (now, arrives client) v = arrive-IsBounded bc now client v
  step-IsBounded bc (now, ends ip status) v = finish-IsBounded bc now ip status v
  step-IsBounded bc (now, reaps) v = reap-IsBounded bc.store now v
  step-IsBounded bc (now, applies cfg) v = reconfigure-IsBounded bc.store (normalized cfg) v.room

  run_from-IsBounded :
      (bc : IpBanController) (es : List (ℕ × Event))
      → IsBounded bc.store
      → IsBounded (run bannable_ip bc es).store
  unfolding run
  run_from-IsBounded bc [] v = v
  run_from-IsBounded bc (e ∷ es) v =
      run_from-IsBounded (step bannable_ip bc e) es (step-IsBounded bc e v)

  -- Whatever requests arrive and end, in whatever order, with sweeps and settings changes between
  -- them, each table holds a key once and the cap is never passed.
  pub run-new_ip_ban_controller :
      (cfg : IpBanConfig) (es : List (ℕ × Event))
      → IsBounded (run bannable_ip (new_ip_ban_controller cfg) es).store
  run-new_ip_ban_controller cfg es =
      run_from-IsBounded (new_ip_ban_controller cfg) es (new-IsBounded cfg)
