-- ===== src/Agent/Send.antt =====
-- internal/agent/agent.go: `Send`, one turn of the conversation.
pub mod Outcome
pub mod Context
use altclaw.Common.{
  ℕ, zero, suc, ◌+◌, Bool, true, false, Option, none, some, List, [], ◌∷◌, ◌++◌, ◌&&◌, ◌||◌, not,
  Bytes, codes, ltb, leb, ◌==◌, if◌then◌else◌, length, take, has_prefix, text_eq, any,
}
use altclaw.RateLimit.{Limiter}
use altclaw.Settings.{message_window}
use altclaw.Agent.{system, user, assistant, Message, text_message, prior_window, ellipsis}
use altclaw.Agent.World.{HistoryRow, World, TokenCounts}
use altclaw.Agent.Turn.{
  Agent, Failure, Reply, answer, failed, Turn, no_tokens, persist_message, is_some,
}
use altclaw.Agent.Turn.Loop.{loop}
use altclaw.Agent.Gate.{Usage, gate}

-- What a turn reads before its loop: the usage, the turn's ID, the system prompt and the rows that
-- `ListHistoryByChat` returns.
pub record Start : Type 0 where
  pub usage : Usage
  pub turn_id : Bytes
  pub system_prompt : Bytes
  pub rows : List HistoryRow

unfoldable pub max_prior_messages : Agent → Start → ℕ
max_prior_messages a s =
    if is_some a.workspace && a.has_store then message_window s.usage.settings else 10

abbrev short_result : Bytes → Bytes
short_result r = if ltb 200 (length r) then take 200 r ++ ellipsis else r

abbrev context_line : HistoryRow → Bytes
context_line h = codes "```js\n" ++ (h.code ++ (codes "\n```\nResult: " ++ short_result h.result))

abbrev is_skipped : Bytes → List Bytes → HistoryRow → Bool
is_skipped turn_id seen h =
    text_eq h.turn_id turn_id || has_prefix h.result (codes "Error:") || any (text_eq h.code) seen

-- Successful runs of earlier turns, each code once, until `room` lines are found.
unfoldable pub context_rows : ℕ → Bytes → List Bytes → List HistoryRow → List HistoryRow
context_rows zero turn_id seen hs = []
context_rows (suc room) turn_id seen [] = []
context_rows (suc room) turn_id seen (h ∷ hs) =
    let skipped = context_rows (suc room) turn_id seen hs in
    let taken = context_rows room turn_id (h.code ∷ seen) hs in
    if is_skipped turn_id seen h then skipped else h ∷ taken

-- `strings.Join lines "\n\n"`
unfoldable pub join_context : List HistoryRow → Bytes
join_context [] = []
join_context (h ∷ []) = context_line h
join_context (h ∷ k ∷ hs) = context_line h ++ (codes "\n\n" ++ join_context (k ∷ hs))

-- "—" is written out in UTF-8.
abbrev context_title : Bytes
context_title =
    codes "[Recent successful executions in this chat "
    ++ (0xe2 ∷ 0x80 ∷ 0x94 ∷ codes " reuse these patterns]\n")

abbrev context_reply : Bytes
context_reply = codes "Noted " ++ (0xe2 ∷ 0x80 ∷ 0x94 ∷ codes " I'll reuse these working patterns.")

unfoldable pub context_messages : List HistoryRow → List Message
unfolding join_context
context_messages [] = []
context_messages (h ∷ hs) =
    text_message user (context_title ++ join_context (h ∷ hs))
    ∷ text_message assistant context_reply
    ∷ []

unfoldable pub context : Agent → Start → List Message
unfolding context_messages context_rows
context a s =
    if not a.has_store || a.chat_id == 0 || a.is_sub_agent
    then []
    else context_messages (context_rows 3 s.turn_id [] s.rows)

-- The list for the provider's first call.
unfoldable pub first_messages : Agent → Start → List Message → Bytes → List Message
unfolding context max_prior_messages
first_messages a s old text =
    text_message system s.system_prompt
    ∷ (prior_window (max_prior_messages a s) old ++ (context a s ++ text_message user text ∷ []))

-- The user's message joins the conversation and the chat before anything can refuse it.
unfoldable pub open_turn : Agent → List Message → Bytes → Turn
unfolding persist_message
open_turn a old text = persist_message a user text no_tokens (record {
  messages = old ++ text_message user text ∷ [];
  msgs = [];
  tick = 0;
  effects = [];
  total = no_tokens;
  consecutive_errors = 0;
  small_results = 0;
  seen = [];
  ledger = [];
})

unfoldable pub admitted :
    World → Agent → Start → List Message → Bytes → Option Failure → Reply × Turn
unfolding open_turn first_messages
admitted w a s old text (some f) = (failed f, open_turn a old text)
admitted w a s old text none =
    loop w a a.max_iter 0 (record (open_turn a old text) { msgs = first_messages a s old text })

-- The reply, the state of the agent after the turn, and the limiter.
unfoldable pub send :
    World → Agent → Start → Limiter → List Message → Bytes → Reply × Turn × Limiter
unfolding admitted gate
send w a s l old text =
    let (l', refusal) = gate a s.usage l in
    let (r, t) = admitted w a s old text refusal in (r, t, l')
