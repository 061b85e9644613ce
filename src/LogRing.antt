-- ===== src/LogRing.antt =====
-- internal/bridge/log.go: the ring buffer that keeps the last log records for the agent.
pub mod Refines
pub mod Search
pub mod Examples
use altclaw.Common.{
  ℕ, zero, suc, ◌+◌, ◌-◌, ◌%◌, Bool, Option, none, some, List, [], ◌∷◌, ◌||◌, Bytes, ltb, ◌==◌,
  if◌then◌else◌, replicate, set, get_elem?,
}

pub record LogEntry : Type 0 where
  pub time : ℕ
  pub level : Bytes
  pub msg : Bytes
  pub attrs : List (Bytes × Bytes)

pub record LogBuffer : Type 0 where
  pub entries : List LogEntry
  pub size : ℕ
  pub head : ℕ
  pub count : ℕ

-- Go's zero value, which `make` puts in every place.
abbrev pub zero_entry : LogEntry
zero_entry = record { time = 0; level = []; msg = []; attrs = [] }

-- A size of 0 or less becomes 200: the source's negative sizes are this 0.
pub new_log_buffer : ℕ → LogBuffer
new_log_buffer size =
    let n = if size == 0 then 200 else size in
    record { entries = replicate n zero_entry; size = n; head = 0; count = 0 }

pub handle : LogBuffer → LogEntry → LogBuffer
handle b entry = record b {
  entries = set b.entries b.head entry;
  head = (b.head + 1) % b.size;
  count = if ltb b.count b.size then b.count + 1 else b.count;
}

-- (b.head - 1 - i + b.size) % b.size, with the addition first: `i < count ≤ size`, so that no
-- subtraction goes below 0.
pub slot : LogBuffer → ℕ → ℕ
slot b i = (b.head + b.size - 1 - i) % b.size

pub read : LogBuffer → ℕ → LogEntry
read b i = elim (get_elem? b.entries (slot b i)) [ none ↦ zero_entry | some e ↦ e ]

-- The loop of `Recent`, from `i` on, for `n` rounds.
pub recent_from : LogBuffer → ℕ → ℕ → List LogEntry
recent_from b i zero = []
recent_from b i (suc n) = read b i ∷ recent_from b (suc i) n

pub recent : LogBuffer → ℕ → List LogEntry
recent b n = recent_from b 0 (if n == 0 || ltb b.count n then b.count else n)
