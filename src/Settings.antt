-- ===== src/Settings.antt =====
-- internal/config/store_settings.go: the settings that cascade from the workspace to the user's
-- defaults to built-in values. `none` is a nil workspace or config.
use altclaw.Common.{ℕ, Bool, false, ◌||◌, Option, none, some, List, Bytes, ltb, if◌then◌else◌}

-- The fields of `CommonSettings` (internal/config/models.go) that the resolver reads. A negative
-- limit is handled like 0, so the limits are natural numbers.
pub record CommonSettings : Type 0 where
  pub rate_limit : ℕ
  pub daily_prompt_cap : ℕ
  pub daily_completion_cap : ℕ
  pub message_window : ℕ
  pub ignore_restricted : Bool
  pub ip_whitelist : List Bytes

pub record SettingsResolver : Type 0 where
  pub ws : Option CommonSettings
  pub cfg : Option CommonSettings

-- The common shape of the four numeric settings.
abbrev cascade : (CommonSettings → ℕ) → ℕ → SettingsResolver → ℕ
cascade field default r = from_ws r.ws r.cfg
  where
    from_cfg : Option CommonSettings → ℕ
    from_cfg none = default
    from_cfg (some c) = if ltb 0 (field c) then field c else default

    from_ws : Option CommonSettings → Option CommonSettings → ℕ
    from_ws none c = from_cfg c
    from_ws (some w) c = if ltb 0 (field w) then field w else from_cfg c

unfoldable pub rate_limit : SettingsResolver → ℕ
rate_limit = cascade (λ s. s.rate_limit) 10

unfoldable pub daily_prompt_cap : SettingsResolver → ℕ
daily_prompt_cap = cascade (λ s. s.daily_prompt_cap) 1000000

unfoldable pub daily_completion_cap : SettingsResolver → ℕ
daily_completion_cap = cascade (λ s. s.daily_completion_cap) 100000

unfoldable pub message_window : SettingsResolver → ℕ
message_window = cascade (λ s. s.message_window) 10

abbrev pub flag_of : (CommonSettings → Bool) → Option CommonSettings → Bool
flag_of field none = false
flag_of field (some s) = field s

-- `IgnoreRestricted`
unfoldable pub ignore_restricted : SettingsResolver → Bool
ignore_restricted r =
    flag_of (λ s. s.ignore_restricted) r.ws || flag_of (λ s. s.ignore_restricted) r.cfg
