-- ===== src/Agent/Turn.antt =====
-- internal/agent/agent.go: the state of a turn of `Send`, and how a turn is stopped.
pub mod Calls
pub mod Exec
pub mod Feedback
pub mod Progress
pub mod Steps
pub mod Loop
use altclaw.Common.{
  ℕ, zero, suc, ◌+◌, ◌*◌, Bool, true, false, Option, none, some, List, [], ◌∷◌, ◌++◌, ◌&&◌, ◌||◌,
  not, Bytes, codes, ltb, leb, ◌==◌, if◌then◌else◌, length, take, has_prefix, contains, set,
  get_elem?, lookup, all, any, text_eq, nat_eq, map,
}
use altclaw.Agent.{
  Role, system, user, assistant, Message, text_message, is_results, is_code, compact_messages,
  ledger_preview,
}
use altclaw.Agent.Blocks.{Blocks, MemEntry, extract_blocks, extract_call_signatures, compact_code}
use altclaw.Agent.World.{
  TokenCounts, ChatReply, replied, chat_failed, RunOutcome, run_value, run_error, World, Effect,
  persisted, called, counted_tokens, saved_history, executed, saved_result, saved_memory, committed,
}

pub record ProviderCfg : Type 0 where
  pub id : ℕ
  pub rate_limit : ℕ
  pub daily_prompt_cap : ℕ
  pub daily_completion_cap : ℕ

-- The fields of `Agent` that a turn reads. `workspace` is `a.Ws` with its ID.
pub record Agent : Type 0 where
  pub has_store : Bool
  pub workspace : Option Bytes
  pub chat_id : ℕ
  pub is_sub_agent : Bool
  pub max_iter : ℕ
  pub provider_cfg : Option ProviderCfg

pub data Failure : Type 0 where
  rate_limited input_cap output_cap provider_input_cap provider_output_cap : Failure
  provider_error : Bytes → Failure
  stopped : Failure
  iterations_exhausted : Failure

pub data Reply : Type 0 where
  answer : Bytes → Reply
  failed : Failure → Reply

-- `messages` is `a.Messages`, `msgs` the list for the provider, `tick` the observations made.
pub record Turn : Type 0 where
  pub messages : List Message
  pub msgs : List Message
  pub tick : ℕ
  pub effects : List Effect
  pub total : TokenCounts
  pub consecutive_errors : ℕ
  pub small_results : ℕ
  pub seen : List (ℕ × Bytes)
  pub ledger : List Bytes

-- A step goes on with a value, or ends the turn.
pub data Step (A : Type 0) : Type 0 where
  go : A → Turn → Step A
  stop : Reply → Turn → Step A

infixl 5 ◌>>=◌
abbrev pub ◌>>=◌ : {A B : Type 0} → Step A → (A → Turn → Step B) → Step B
go a t >>= k = k a t
stop r t >>= k = stop r t

abbrev pub emit : Effect → Turn → Turn
emit e t = record t { effects = t.effects ++ e ∷ [] }

abbrev pub ticked : Turn → Turn
ticked t = record t { tick = t.tick + 1 }

abbrev pub no_tokens : TokenCounts
no_tokens = record { prompt = 0; completion = 0 }

-- `persistMessage`. An agent with a store has a workspace: a nil `Ws` would be a panic.
unfoldable pub persist_message : Agent → Role → Bytes → TokenCounts → Turn → Turn
persist_message a role content tc t =
    if not a.has_store || a.chat_id == 0 || a.is_sub_agent
    then t
    else emit (persisted role content tc) t

abbrev pub is_some {ℓ} : {A : Type ℓ} → Option A → Bool
is_some none = false
is_some (some _) = true

-- `autoCommitGit`
unfoldable pub auto_commit_git : Agent → Turn → Turn
auto_commit_git a t = if not (is_some a.workspace) || a.is_sub_agent then t else emit committed t

-- `a.compactMessages()`, then `a.autoCommitGit()`
unfoldable pub close_turn : Agent → Turn → Turn
unfolding auto_commit_git
close_turn a t = auto_commit_git a (record t { messages = compact_messages t.messages })

abbrev pub stopped_message : Bytes
stopped_message = codes "Stopped by user."

abbrev pub exhausted_message : Bytes
exhausted_message = codes "Maximum execution iterations reached. Please try a simpler request."

-- `handleStop`
unfoldable pub handle_stop : {A : Type 0} → Agent → Turn → Step A
unfolding close_turn persist_message
handle_stop a t =
    let closed = close_turn a t in
    if a.is_sub_agent
    then stop (failed stopped) closed
    else stop (answer stopped_message) (persist_message a assistant stopped_message t.total closed)

module _ (w : World) (a : Agent) where
  -- `if ctx.Err() != nil { return a.handleStop(…) }`
  unfoldable pub check_stop : Turn → Step (Unit {0})
  unfolding handle_stop
  check_stop t = if w.cancelled t.tick then handle_stop a (ticked t) else go tt (ticked t)
