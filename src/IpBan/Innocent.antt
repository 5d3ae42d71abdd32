-- ===== src/IpBan/Innocent.antt =====
-- No address is banned without its own failures (internal/middleware/ipban.go).
use byte_bucket.Prelude.{
  ℕ, ◌+◌, ◌≤◌, ◌≡◌, refl, subst, String, List, [], ◌∷◌, length, arith, Option, none, some, Bool,
  true, false, ◌&&◌, ◌||◌, not, Bool-cases, string_equality, inl, inr, ltb, leb, ltb_false→le,
  if◌then◌else◌, ◌==◌, nat_equality,
}
use byte_bucket.Table.{
  Table, evict_oldest, insert, lookup, lookup-insert, lookup-erase, lookup-evict_oldest-some,
  lookup-retain, keep_if-eq-some,
}
use byte_bucket.IpBan.Config.{IpBanConfig, normalized, max_ban_entries}
use byte_bucket.IpBan.Bounds.{IsBounded, step-IsBounded, new-IsBounded}
use byte_bucket.IpBan.{
  BanStore, FailEntry, reconfigure, banned_until, banned_locked, room_for, fresh_entry, entry_of,
  fail_entry_locked, impose, count_failure, fail_unless, fail, reap, IpBanController, check_ban,
  arrive, finish, Event, arrives, ends, reaps, applies, step, run, apply, uncounted,
  new_ip_ban_controller, new_ban_store,
}
use byte_bucket.IpBan.Banning.{is_banned}

-- The tables hold at most `n` failures against `ip`, and a ban only if `n` reaches the limit.
record IsFair (s : BanStore) (ip : String) (n : ℕ) : Type 0 where
  counted : (e : FailEntry) → lookup ip s.fails ≡ some e → e.count ≤ n
  banned : (t : ℕ) → lookup ip s.bans ≡ some t → s.max ≤ n

-- The count after an outcome of `j`.
abbrev charged : String → String → ℕ → ℕ
charged ip j n = if j == ip then n + 1 else n

module _ (ip : String) (n : ℕ) where
  banned_until-IsFair :
      (s : BanStore) (j : String) (now : ℕ) (o : Option ℕ)
      → IsFair s ip n
      → IsFair (banned_until s j now o).0 ip n
  unfolding banned_until
  banned_until-IsFair s j now none f = f
  banned_until-IsFair s j now (some t) f = elim (Bool-cases (ltb now t)) [
    | inl on ↦ rw on f
    | inr over ↦ rw over (record {
      counted = f.counted;
      banned = λ u p. ground (arith, lookup-erase j ip s.bans, f.banned u);
    })
  ]

  room_for-shrinks :
      (s : BanStore) (o : Option FailEntry) (e : FailEntry)
      → lookup ip (room_for s o) ≡ some e
      → lookup ip s.fails ≡ some e
  unfolding room_for
  room_for-shrinks s (some x) e h = h
  room_for-shrinks s none e h = elim (Bool-cases (leb s.limit (length s.fails))) [
    | inl full ↦ lookup-evict_oldest-some (λ (f : FailEntry). f.start) s.fails ip e (rw full at h)
    | inr free ↦ rw free at h
  ]

  fresh_entry-IsFair :
      (s : BanStore) (j : String) (now : ℕ) (o : Option FailEntry)
      → IsFair s ip n
      → IsFair (fresh_entry s j now o).0 ip n
  unfolding fresh_entry
  fresh_entry-IsFair s j now o f = record {
    counted = λ e p.
        let x : FailEntry = record { count = 0; start = now } in
        ground (arith, lookup-insert j ip x (room_for s o), room_for-shrinks s o e, f.counted e);
    banned = f.banned;
  }

  entry_of-IsFair :
      (s : BanStore) (j : String) (now : ℕ) (o : Option FailEntry)
      → lookup j s.fails ≡ o
      → IsFair s ip n
      → IsFair (entry_of s j now o).0 ip n × ((j == ip) ≡ true → (entry_of s j now o).1.count ≤ n)
  unfolding entry_of
  entry_of-IsFair s j now none h f =
      (fresh_entry-IsFair s j now none f, λ same. unfold fresh_entry in omega arith)
  entry_of-IsFair s j now (some x) h f = elim (Bool-cases (ltb now (x.start + s.window))) [
    | inl active ↦ rw active (
      f,
      λ same.
          f.counted x
            (subst (λ i. lookup i s.fails ≡ some x) ((string_equality.test_iff j ip).0 same) h),
    )
    | inr over ↦
        rw over (fresh_entry-IsFair s j now (some x) f, λ same. unfold fresh_entry in omega arith)
  ]

  count_failure-IsFair :
      (s : BanStore) (j : String) (now : ℕ) (e : FailEntry)
      → IsFair s ip n
      → ((j == ip) ≡ true → e.count ≤ n)
      → IsFair (count_failure s j now e).0 ip (charged ip j n)
  unfolding count_failure impose
  count_failure-IsFair s j now e f low = elim (Bool-cases (ltb (e.count + 1) s.max)) [
    | inl less ↦ rw less (record {
      counted = λ x p.
          ground (
            arith,
            lookup-insert j ip (record e { count = e.count + 1 }) s.fails,
            f.counted x,
            low,
          );
      banned = λ t p. ground (arith, f.banned t p);
    })
    | inr full ↦ rw full (record {
      counted = λ x p. ground (arith, lookup-erase j ip s.fails, f.counted x);
      banned = λ t p. new_ban t full p;
    })
  ]
    where
      room : Table String ℕ
      room = if leb s.limit (length s.bans) then evict_oldest (λ (t : ℕ). t) s.bans else s.bans

      room-shrinks : (t : ℕ) → lookup ip room ≡ some t → lookup ip s.bans ≡ some t
      room-shrinks t h = elim (Bool-cases (leb s.limit (length s.bans))) [
        | inl full ↦ lookup-evict_oldest-some (λ (u : ℕ). u) s.bans ip t (rw full at h)
        | inr free ↦ rw free at h
      ]

      new_ban :
          (t : ℕ)
          → ltb (e.count + 1) s.max ≡ false
          → lookup ip (insert j (now + s.ban) room) ≡ some t
          → s.max ≤ charged ip j n
      new_ban t full p = ground (
        arith,
        lookup-insert j ip (now + s.ban) room,
        room-shrinks t,
        f.banned t,
        low,
        ltb_false→le (e.count + 1) s.max full,
      )

  fail_unless-IsFair :
      (r : BanStore × Bool) (j : String) (now : ℕ)
      → IsFair r.0 ip n
      → IsFair (fail_unless r j now).0 ip (charged ip j n)
  unfolding fail_unless fail_entry_locked
  fail_unless-IsFair (s, true) j now f = record {
    counted = λ e p. ground (arith, f.counted e p);
    banned = λ t p. ground (arith, f.banned t p);
  }
  fail_unless-IsFair (s, false) j now f =
      let (fair, low) = entry_of-IsFair s j now (lookup j s.fails) refl f in
      count_failure-IsFair (entry_of s j now (lookup j s.fails)).0 j now
        (entry_of s j now (lookup j s.fails)).1 fair low

  fail-IsFair :
      (s : BanStore) (j : String) (now : ℕ)
      → IsFair s ip n
      → IsFair (fail s j now).0 ip (charged ip j n)
  unfolding fail banned_locked
  fail-IsFair s j now f =
      fail_unless-IsFair (banned_locked s j now) j now
        (banned_until-IsFair s j now (lookup j s.bans) f)

  reap-IsFair : (s : BanStore) (now : ℕ) → IsBounded s → IsFair s ip n → IsFair (reap s now) ip n
  unfolding reap
  reap-IsFair s now v f = record {
    counted = λ e p.
        f.counted e
          (keep_if-eq-some _ (lookup ip s.fails) e
            (rw (lookup-retain _ ip s.fails v.distinct_fails) at p)).0;
    banned = λ t p.
        f.banned t
          (keep_if-eq-some _ (lookup ip s.bans) t
            (rw (lookup-retain _ ip s.bans v.distinct_bans) at p)).0;
  }

-- The denied outcomes of `ip` since the settings were last changed, after one more event.
abbrev pub charge : String → ℕ → Event → ℕ
charge ip n (arrives client) = n
charge ip n (ends j status) = if (status == 401 || status == 403) && j == ip then n + 1 else n
charge ip n reaps = n
charge ip n (applies cfg) = 0

abbrev pub charges : String → ℕ → List (ℕ × Event) → ℕ
charges ip n [] = n
charges ip n ((now, e) ∷ es) = charges ip (charge ip n e) es

flushed-IsFair :
    (ip : String) (n : ℕ) (s : BanStore) (cfg : IpBanConfig) → IsFair (reconfigure s cfg) ip n
unfolding reconfigure lookup
flushed-IsFair ip n s cfg = record { counted = λ e p. absurd (cc p); banned = λ t p. absurd (cc p) }

check_ban-IsFair :
    (ip : String) (n : ℕ) (bc : IpBanController) (now : ℕ) (o : Option String)
    → IsFair bc.store ip n
    → IsFair (check_ban bc now o).0.store ip n
unfolding check_ban banned_locked
check_ban-IsFair ip n bc now none f = f
check_ban-IsFair ip n bc now (some j) f =
    banned_until-IsFair ip n bc.store j now (lookup j bc.store.bans) f

finish-IsFair :
    (ip : String) (n : ℕ) (bc : IpBanController) (now : ℕ) (j : String) (status : ℕ)
    → IsFair bc.store ip n
    → IsFair (finish bc now j status).store ip (charge ip n (ends j status))
unfolding finish
finish-IsFair ip n bc now j status f = elim (Bool-cases (status == 401 || status == 403)) [
  | inl denied ↦ rw denied (fail-IsFair ip n bc.store j now f)
  | inr served ↦ rw served f
]

module _ (bannable_ip : String → Option String) (ip : String) where
  arrive-IsFair :
      (n : ℕ) (bc : IpBanController) (now : ℕ) (client : String)
      → IsFair bc.store ip n
      → IsFair (arrive bannable_ip bc now client).0.store ip n
  unfolding arrive
  arrive-IsFair n bc now client f =
      elim bc.cfg.enabled
        as (λ on.
          IsFair (if not on then (bc, uncounted) else check_ban bc now (bannable_ip client)).0.store
            ip n) [ true ↦ check_ban-IsFair ip n bc now (bannable_ip client) f | false ↦ f ]

  step-IsFair :
      (n now : ℕ) (bc : IpBanController) (e : Event)
      → IsBounded bc.store
      → IsFair bc.store ip n
      → IsFair (step bannable_ip bc (now, e)).store ip (charge ip n e)
  unfolding step apply
  step-IsFair n now bc (arrives client) v f = arrive-IsFair n bc now client f
  step-IsFair n now bc (ends j status) v f = finish-IsFair ip n bc now j status f
  step-IsFair n now bc reaps v f = reap-IsFair ip n bc.store now v f
  step-IsFair n now bc (applies cfg) v f = flushed-IsFair ip 0 bc.store (normalized cfg)

  run-IsFair :
      (n : ℕ) (bc : IpBanController) (es : List (ℕ × Event))
      → IsBounded bc.store
      → IsFair bc.store ip n
      → IsFair (run bannable_ip bc es).store ip (charges ip n es)
  unfolding run
  run-IsFair n bc [] v f = f
  run-IsFair n bc ((now, e) ∷ es) v f =
      run-IsFair (charge ip n e) (step bannable_ip bc (now, e)) es
        (step-IsBounded bannable_ip bc (now, e) v) (step-IsFair n now bc e v f)

  banned→entry :
      (s : BanStore) (u : ℕ) (o : Option ℕ)
      → lookup ip s.bans ≡ o
      → (banned_until s ip u o).1 ≡ true
      → (t : ℕ) × (lookup ip s.bans ≡ some t)
  unfolding banned_until
  banned→entry s u none e h = absurd (cc h)
  banned→entry s u (some t) e h = (t, e)

  new-IsFair : (cfg : IpBanConfig) → IsFair (new_ip_ban_controller cfg).store ip 0
  unfolding new_ip_ban_controller new_ban_store
  new-IsFair cfg =
      flushed-IsFair ip 0
        (record { fails = []; bans = []; limit = max_ban_entries; max = 0; window = 0; ban = 0 })
        (normalized cfg)

  -- If an address is banned after a history, the history holds, since the settings were last
  -- changed, at least `max` requests of that very address that were answered 401 or 403.
  pub run-is_banned :
      (cfg : IpBanConfig) (es : List (ℕ × Event)) (u : ℕ)
      → is_banned (run bannable_ip (new_ip_ban_controller cfg) es).store ip u ≡ true
      → (run bannable_ip (new_ip_ban_controller cfg) es).store.max ≤ charges ip 0 es
  unfolding banned_locked
  run-is_banned cfg es u h =
      let s = (run bannable_ip (new_ip_ban_controller cfg) es).store in
      let (t, e) = banned→entry s u (lookup ip s.bans) refl h in
      (run-IsFair 0 (new_ip_ban_controller cfg) es (new-IsBounded cfg) (new-IsFair cfg)).banned t e
