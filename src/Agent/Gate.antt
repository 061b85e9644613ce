-- ===== src/Agent/Gate.antt =====
-- internal/agent/agent.go: the rate limit and the daily caps that `Send` checks before it calls
-- the provider. The token counts of the day are the store's.
pub mod Refusals
use altclaw.Common.{
  ℕ, Bool, true, false, Option, none, some, List, ◌&&◌, ◌||◌, not, Bytes, ltb, leb, if◌then◌else◌,
}
use altclaw.RateLimit.{Limiter, Verdict, allowed, rate_exceeded, allow}
use altclaw.Settings.{SettingsResolver, rate_limit, daily_prompt_cap, daily_completion_cap}
use altclaw.Agent.World.{TokenCounts}
use altclaw.Agent.Turn.{
  Agent, ProviderCfg, Failure, rate_limited, input_cap, output_cap, provider_input_cap,
  provider_output_cap,
}

-- `today` and `provider_today` are what `TodayTokenUsage` returns; `none` is nil.
pub record Usage : Type 0 where
  pub settings : SettingsResolver
  pub now : ℕ
  pub today : Option TokenCounts
  pub provider_today : Option TokenCounts

-- The per-provider limit overrides the settings' one.
unfoldable pub requests_per_minute : Option ProviderCfg → SettingsResolver → ℕ
requests_per_minute none s = rate_limit s
requests_per_minute (some p) s = if ltb 0 p.rate_limit then p.rate_limit else rate_limit s

unfoldable pub check_today : SettingsResolver → Option TokenCounts → Option Failure
check_today s none = none
check_today s (some u) =
    if leb (daily_prompt_cap s) u.prompt
    then some input_cap
    else if leb (daily_completion_cap s) u.completion
    then some output_cap
    else none

unfoldable pub check_provider : Option ProviderCfg → Option TokenCounts → Option Failure
check_provider none u = none
check_provider (some p) none = none
check_provider (some p) (some u) =
    if ltb 0 p.daily_prompt_cap && leb p.daily_prompt_cap u.prompt
    then some provider_input_cap
    else if ltb 0 p.daily_completion_cap && leb p.daily_completion_cap u.completion
    then some provider_output_cap
    else none

abbrev first_failure : Option Failure → Option Failure → Option Failure
first_failure none next = next
first_failure (some f) next = some f

abbrev after_limit : Verdict → Option Failure → Option Failure
after_limit allowed next = next
after_limit (rate_exceeded _ _) next = some rate_limited

unfoldable pub gate_in : Agent → Usage → Bytes → Limiter → Limiter × Option Failure
unfolding requests_per_minute check_today check_provider
gate_in a u ws l =
    let (l', v) = allow l u.now ws (requests_per_minute a.provider_cfg u.settings) in
    (
      l',
      after_limit v (
          first_failure (check_today u.settings u.today)
            (check_provider a.provider_cfg u.provider_today)),
    )

-- Without a workspace or a store nothing is checked.
unfoldable pub gate : Agent → Usage → Limiter → Limiter × Option Failure
unfolding gate_in
gate a u l = by_workspace a.workspace
  where
    by_workspace : Option Bytes → Limiter × Option Failure
    by_workspace none = (l, none)
    by_workspace (some ws) = if a.has_store then gate_in a u ws l else (l, none)
