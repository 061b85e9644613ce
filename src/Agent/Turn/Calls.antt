-- ===== src/Agent/Turn/Calls.antt =====
-- internal/agent/agent.go: a call of the provider with its retries, and what follows a response.
use altclaw.Common.{
  ℕ, zero, suc, ◌+◌, Option, none, some, List, [], ◌∷◌, ◌++◌, ◌&&◌, ◌||◌, Bytes, codes, ltb,
  if◌then◌else◌, text_eq, nat_eq, map,
}
use altclaw.Agent.{user, assistant, Message, text_message}
use altclaw.Agent.Blocks.{Blocks, MemEntry}
use altclaw.Agent.World.{
  TokenCounts, ChatReply, replied, chat_failed, World, called, counted_tokens, saved_memory,
}
use altclaw.Agent.Turn.{
  Agent, ProviderCfg, provider_error, answer, failed, Turn, Step, go, stop, ◌>>=◌, emit, ticked,
  persist_message, close_turn, check_stop,
}

module _ (w : World) (a : Agent) where
  -- After the last failure the error stands; before another call the wait may be interrupted.
  unfoldable pub retry : ℕ → (Turn → Step ChatReply) → Bytes → Turn → Step ChatReply
  unfolding check_stop
  retry zero again e t = go (chat_failed e) t
  retry (suc _) again e t = check_stop w a t >>= λ _. again

  unfoldable pub after_call : ℕ → (Turn → Step ChatReply) → ChatReply → Turn → Step ChatReply
  unfolding check_stop retry
  after_call left again (replied r tc) t = go (replied r tc) t
  after_call left again (chat_failed e) t = check_stop w a t >>= λ _. retry left again e

  -- The calls of the provider, `maxRetries` at most.
  unfoldable pub attempt : ℕ → Turn → Step ChatReply
  unfolding after_call
  attempt zero t = go (chat_failed []) t
  attempt (suc left) t =
      after_call left (attempt left) (w.chat t.tick t.msgs) (ticked (emit (called t.msgs) t))

  -- The response, or the end of the turn.
  unfoldable pub settle_call : ChatReply → Turn → Step (Bytes × TokenCounts)
  unfolding check_stop
  settle_call (replied r tc) t = go (r, tc) t
  settle_call (chat_failed e) t =
      check_stop w a t >>= λ _ t'. stop (failed (provider_error (w.sanitize e))) t'

  unfoldable pub ask_provider : Turn → Step (Bytes × TokenCounts)
  unfolding attempt settle_call
  ask_provider t = attempt 3 t >>= settle_call

  -- Messages that the user sent during execution.
  abbrev injected : Bytes → Message
  injected pm = text_message user (
      codes "[User Message (sent during execution)]: "
      ++ (pm
          ++ codes
              "\nThe user sent this while you were working. Address it now if urgent, or note it as a to-do for later."))

  unfoldable pub drain_pending : Turn → Turn
  drain_pending t =
      let new = map injected (w.pending t.tick) in
      record t { messages = t.messages ++ new; msgs = t.msgs ++ new; tick = t.tick + 1 }

  -- The row of the workspace, and of the provider if it is configured.
  abbrev pub provider_id : Option ProviderCfg → Option ℕ
  provider_id none = none
  provider_id (some p) = if ltb 0 p.id then some p.id else none

  abbrev pub in_workspace : Option Bytes → (Bytes → Turn → Turn) → Turn → Turn
  in_workspace none f t = t
  in_workspace (some ws) f t = f ws t

  unfoldable pub count_tokens : TokenCounts → Turn → Turn
  count_tokens tc t =
      if a.has_store && (ltb 0 tc.prompt || ltb 0 tc.completion)
      then in_workspace a.workspace (λ ws. emit (counted_tokens ws tc (provider_id a.provider_cfg)))
          t
      else t

  -- Core memories belong to the user, the others to the workspace.
  abbrev pub memory_scope : Bytes → Bytes → Bytes
  memory_scope ws kind = if text_eq kind (codes "core") then [] else ws

  unfoldable pub save_memories : Bytes → List MemEntry → Turn → Turn
  save_memories ws [] t = t
  save_memories ws (m ∷ ms) t =
      save_memories ws ms (emit (saved_memory (memory_scope ws m.kind) m.kind m.content) t)

  abbrev pub displayed : Bytes → Bytes → Bytes
  displayed [] response = response
  displayed (c ∷ md) response = c ∷ md

  -- No code blocks: the end of the turn with the answer.
  unfoldable pub finish : Blocks → Bytes → TokenCounts → Turn → Step (Unit {0})
  unfolding save_memories persist_message close_turn
  finish bs response tc t =
      let display = displayed bs.md response in
      let t1 =
        if a.has_store then in_workspace a.workspace (λ ws. save_memories ws bs.mem) t else t in
      stop (answer display) (close_turn a (persist_message a assistant display tc t1))
