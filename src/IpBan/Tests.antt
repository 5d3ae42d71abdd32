-- ===== src/IpBan/Tests.antt =====
-- Concrete runs of the ban.
use byte_bucket.Prelude.{
  ℕ, ◌≡◌, ◌≤◌, refl, String, List, [], ◌∷◌, arith, Option, some, true, ◌⊎◌, string_equality,
  nat_equality,
}
use byte_bucket.Prelude.Int.{pos, negsuc}
use byte_bucket.Table.{Table, lookup, insert, erase}
use byte_bucket.IpBan.Config.{IpBanConfig, normalized}
use byte_bucket.IpBan.{
  BanStore, FailEntry, IpBanController, new_ip_ban_controller, new_ban_store, reconfigure, Event,
  arrives, ends, reaps, applies, step, run, arrive, finish, fail, banned_locked, check_ban,
}
use byte_bucket.IpBan.Bounds.{IsBounded, run-new_ip_ban_controller}
use byte_bucket.IpBan.Banning.{is_banned, IsIdle, IsBan, fails_at, fail-fails_at}
use byte_bucket.IpBan.Serving.{IsVictim, fail-Serves}
use byte_bucket.IpBan.Innocent.{charges, run-is_banned}

abbrev hostile : IpBanConfig
hostile = record {
  enabled = true;
  max_failures = negsuc 3;
  window_seconds = pos 9999;
  ban_seconds = pos 60;
}

abbrev everyone : String → Option String
everyone ip = some ip

abbrev strict : IpBanConfig
strict = record {
  enabled = true;
  max_failures = pos 2;
  window_seconds = pos 10;
  ban_seconds = pos 60;
}

abbrev history : List (ℕ × Event)
history =
    (0, arrives "a")
    ∷ (1, ends "a" 403)
    ∷ (2, ends "b" 401)
    ∷ (3, ends "a" 401)
    ∷ (4, reaps)
    ∷ (5, arrives "a")
    ∷ []

run-new_ip_ban_controller_example :
    IsBounded (run everyone (new_ip_ban_controller strict) history).store
run-new_ip_ban_controller_example = run-new_ip_ban_controller everyone strict history

history_bans : is_banned (run everyone (new_ip_ban_controller strict) history).store "a" 6 ≡ true
unfolding run step arrive finish new_ip_ban_controller new_ban_store normalized
    byte_bucket.Table.lookup byte_bucket.Table.insert byte_bucket.Table.erase
    byte_bucket.Table.retain byte_bucket.IpBan.reap
history_bans = refl

run-is_banned_example : 2 ≤ charges "a" 0 history
unfolding run step arrive finish new_ip_ban_controller new_ban_store normalized
    byte_bucket.Table.lookup byte_bucket.Table.insert byte_bucket.Table.erase
    byte_bucket.Table.retain byte_bucket.IpBan.reap
run-is_banned_example = run-is_banned everyone "a" strict history 6 history_bans

abbrev empty : BanStore
empty = record { fails = []; bans = []; limit = 2; max = 3; window = 100; ban = 1000 }

empty-IsIdle : (now : ℕ) → IsIdle empty "a" now
unfolding lookup
empty-IsIdle now = record { no_ban = refl; no_window = λ e h. absurd (cc h) }

fail-fails_at_example : IsBan (fail (fails_at empty "a" (10 ∷ 20 ∷ [])) "a" 109) "a" 1109 3
fail-fails_at_example =
    fail-fails_at empty "a" (10 ∷ 20 ∷ []) 109 (empty-IsIdle 10) (omega arith) (omega arith) refl

abbrev one_ban : BanStore
one_ban = record empty { bans = ("a", 500) ∷ [] }

one_ban-IsBounded : IsBounded one_ban
unfolding lookup
one_ban-IsBounded = record {
  distinct_fails = tt;
  distinct_bans = (refl, tt);
  few_fails = omega arith;
  few_bans = omega arith;
  room = omega arith;
}

fail-Serves_example : (lookup "a" (fail one_ban "b" 7).0.bans ≡ some 500) ⊎ IsVictim one_ban 500
unfolding lookup
fail-Serves_example = fail-Serves one_ban "a" "b" 7 500 one_ban-IsBounded refl (omega arith)
