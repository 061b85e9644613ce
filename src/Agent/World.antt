-- ===== src/Agent/World.antt =====
-- What internal/agent/agent.go meets from outside during one turn, and what the turn does to it.
use altclaw.Common.{ℕ, Bool, Option, List, Bytes}
use altclaw.Agent.{Role, Message}
use altclaw.Agent.Blocks.{Patterns}

pub record TokenCounts : Type 0 where
  pub prompt : ℕ
  pub completion : ℕ

-- One call of the provider.
pub data ChatReply : Type 0 where
  replied : Bytes → TokenCounts → ChatReply
  chat_failed : Bytes → ChatReply

-- One run of the engine: its error or its value, and how many messages it logged.
pub data RunOutcome : Type 0 where
  run_value : Bytes → (logs : ℕ) → RunOutcome
  run_error : Bytes → (logs : ℕ) → RunOutcome

-- A row that an earlier turn left in the history.
pub record HistoryRow : Type 0 where
  pub turn_id : Bytes
  pub code : Bytes
  pub result : Bytes

-- The provider, the engine, the user's cancellation and messages, and the library functions, as
-- functions of the number of observations made so far.
pub record World : Type 0 where
  pub chat : ℕ → List Message → ChatReply
  pub run : ℕ → Bytes → RunOutcome
  pub cancelled : ℕ → Bool
  pub pending : ℕ → List Bytes
  pub files : ℕ → List Bytes
  pub history_id : ℕ → ℕ
  pub patterns : Patterns
  pub hash : Bytes → ℕ
  pub show : ℕ → Bytes
  pub sanitize : Bytes → Bytes

-- What a turn does to the store, the provider and the engine, in order.
pub data Effect : Type 0 where
  persisted : Role → Bytes → TokenCounts → Effect
  called : List Message → Effect
  counted_tokens : Bytes → TokenCounts → Option ℕ → Effect
  saved_history : (iteration block : ℕ) → (code response : Bytes) → TokenCounts → Effect
  executed : Bytes → Effect
  saved_result : (history : ℕ) → Bytes → Effect
  saved_memory : (workspace kind content : Bytes) → Effect
  committed : Effect
