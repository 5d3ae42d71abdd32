-- ===== src/IpBan/Config.antt =====
-- The settings of the ban and their validation (internal/middleware/ipban.go).
use byte_bucket.Prelude.{ℕ, ◌*◌, ◌≡◌, Bool, false, not, arith, if◌then◌else◌}
use byte_bucket.Prelude.Int.{ℤ, pos, within}

abbrev pub default_ip_ban_max_failures : ℕ
default_ip_ban_max_failures = 20

abbrev pub default_ip_ban_window_seconds : ℕ
default_ip_ban_window_seconds = 60

abbrev pub default_ip_ban_seconds : ℕ
default_ip_ban_seconds = 15 * 60

abbrev pub max_ip_ban_failures : ℕ
max_ip_ban_failures = 10_000

abbrev pub max_ip_ban_window_seconds : ℕ
max_ip_ban_window_seconds = 3600

abbrev pub max_ip_ban_seconds : ℕ
max_ip_ban_seconds = 7 * 24 * 3600

abbrev pub max_ban_entries : ℕ
max_ban_entries = 65536

pub record IpBanConfig : Type 0 where
  pub enabled : Bool
  pub max_failures : ℤ
  pub window_seconds : ℤ
  pub ban_seconds : ℤ

abbrev pub default_ip_ban_config : IpBanConfig
default_ip_ban_config = record {
  enabled = false;
  max_failures = pos default_ip_ban_max_failures;
  window_seconds = pos default_ip_ban_window_seconds;
  ban_seconds = pos default_ip_ban_seconds;
}

abbrev pub in_range : ℤ → ℕ → ℕ → Bool
in_range v lo hi = within v lo hi

-- The field that `Validate` complains of.
pub data ConfigError : Type 0 where
  bad_max_failures bad_window_seconds bad_ban_seconds : ConfigError

pub data Validation : Type 0 where
  valid : Validation
  invalid : ConfigError → Validation

unfoldable pub validate : IpBanConfig → Validation
validate c =
    if not (in_range c.max_failures 1 max_ip_ban_failures)
    then invalid bad_max_failures
    else if not (in_range c.window_seconds 1 max_ip_ban_window_seconds)
    then invalid bad_window_seconds
    else if not (in_range c.ban_seconds 1 max_ip_ban_seconds)
    then invalid bad_ban_seconds
    else valid

or_default : ℤ → ℕ → ℕ → ℤ
or_default v hi d = if not (in_range v 1 hi) then pos d else v

unfoldable pub normalized : IpBanConfig → IpBanConfig
unfolding or_default
normalized c = record c {
  max_failures = or_default c.max_failures max_ip_ban_failures default_ip_ban_max_failures;
  window_seconds =
      or_default c.window_seconds max_ip_ban_window_seconds default_ip_ban_window_seconds;
  ban_seconds = or_default c.ban_seconds max_ip_ban_seconds default_ip_ban_seconds;
}

-- Whatever the operator sends, the settings in force pass the validation, and settings that pass
-- it are taken as they are.
pub validate-normalized :
    (c : IpBanConfig) → (validate (normalized c) ≡ valid) × (validate c ≡ valid → normalized c ≡ c)
unfolding validate normalized
validate-normalized c = (ground arith, λ h. ground arith)
