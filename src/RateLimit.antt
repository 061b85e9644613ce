-- ===== src/RateLimit.antt =====
-- internal/util/ratelimit.go: the sliding-window limiter that internal/agent/agent.go keys by
-- workspace and internal/provider/provider.go by endpoint.
pub mod History
pub mod Refines
pub mod Bounded
pub mod Examples
use altclaw.Common.{
  ℕ, zero, suc, ◌+◌, ◌*◌, Bool, Option, none, some, List, [], ◌∷◌, ◌++◌, Bytes, bytes_eq, leb, ltb,
  if◌then◌else◌, length, keep, lookup, insert,
}

-- int64(60*time.Second), in nanoseconds
abbrev pub minute : ℕ
minute = 60 * 1000000000

-- The map from a key to the `timestamps` of its `limiterState`.
abbrev pub Limiter : Type 0
Limiter = List (Bytes × List ℕ)

pub data Verdict : Type 0 where
  allowed : Verdict
  rate_exceeded : ℕ → Bytes → Verdict

-- `t > window`, where `window := now - int64(60*time.Second)`
abbrev pub is_recent : ℕ → ℕ → Bool
is_recent now t = ltb now (t + minute)

-- `LoadOrStore(key, &limiterState{})`
unfoldable pub timestamps : Limiter → Bytes → List ℕ
timestamps l key = elim (lookup key l) [ none ↦ [] | some ts ↦ ts ]

-- The part of `Allow` under the key's mutex: the kept timestamps, and the verdict.
unfoldable pub admit : ℕ → ℕ → Bytes → List ℕ → List ℕ × Verdict
admit now limit key ts =
    let valid = keep (is_recent now) ts in
    if leb limit (length valid)
    then (valid, rate_exceeded limit key)
    else (valid ++ now ∷ [], allowed)

-- A limit of 0 or less means unlimited: the source's negative limits are this 0.
unfoldable pub allow : Limiter → ℕ → Bytes → ℕ → Limiter × Verdict
unfolding admit timestamps
allow l now key zero = (l, allowed)
allow l now key (suc n) =
    let (ts, v) = admit now (suc n) key (timestamps l key) in (insert key ts l, v)
