-- ===== src/Agent/Gate/Refusals.antt =====
-- When a turn is refused before the provider is called.
use altclaw.Common.{ℕ, ◌<◌, ◌≡◌, ◌↔◌, true, Option, none, some, Bytes, arith}
use altclaw.RateLimit.{Limiter, allowed, allow}
use altclaw.Settings.{SettingsResolver, daily_prompt_cap, daily_completion_cap}
use altclaw.Agent.World.{TokenCounts}
use altclaw.Agent.Turn.{Agent, ProviderCfg}
use altclaw.Agent.Gate.{Usage, requests_per_minute, check_today, check_provider, gate}

-- The usage of a day leaves room under both caps; a cap of 0 for a provider is none.
abbrev pub HasRoom : (prompt completion : ℕ) → Option TokenCounts → Type 0
HasRoom p c none = Unit
HasRoom p c (some u) = (u.prompt < p) × (u.completion < c)

abbrev pub HasProviderRoom : Option ProviderCfg → Option TokenCounts → Type 0
HasProviderRoom none u = Unit
HasProviderRoom (some p) none = Unit
HasProviderRoom (some p) (some u) =
    ((0 < p.daily_prompt_cap) → u.prompt < p.daily_prompt_cap)
    × ((0 < p.daily_completion_cap) → u.completion < p.daily_completion_cap)

check_today_iff :
    (s : SettingsResolver) (u : Option TokenCounts)
    → (check_today s u ≡ none) ↔ HasRoom (daily_prompt_cap s) (daily_completion_cap s) u
unfolding check_today
check_today_iff s none = ground arith
check_today_iff s (some u) = ground arith

check_provider_iff :
    (p : Option ProviderCfg) (u : Option TokenCounts)
    → (check_provider p u ≡ none) ↔ HasProviderRoom p u
unfolding check_provider
check_provider_iff none u = ground arith
check_provider_iff (some p) none = ground arith
check_provider_iff (some p) (some u) = ground arith

-- With a store and a workspace a turn passes exactly if the workspace's rate limiter allows it,
-- and the day's tokens are below both caps of the workspace and below those that the provider has.
pub gate_iff :
    (a : Agent) (u : Usage) (l : Limiter) (ws : Bytes)
    → a.has_store ≡ true
    → a.workspace ≡ some ws
    → ((gate a u l).1 ≡ none) ↔ (
        ((allow l u.now ws (requests_per_minute a.provider_cfg u.settings)).1 ≡ allowed)
        × HasRoom (daily_prompt_cap u.settings) (daily_completion_cap u.settings) u.today
        × HasProviderRoom a.provider_cfg u.provider_today)
unfolding gate
gate_iff a u l ws store here =
    ground (
      arith,
      check_today_iff u.settings u.today,
      check_provider_iff a.provider_cfg u.provider_today,
    )
