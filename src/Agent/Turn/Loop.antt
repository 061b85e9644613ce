-- ===== src/Agent/Turn/Loop.antt =====
-- internal/agent/agent.go: the loop of `Send`.
pub mod Outcome
use altclaw.Common.{
  ℕ, zero, suc, ◌+◌, ◌*◌, Bool, true, false, Option, none, some, List, [], ◌∷◌, ◌++◌, ◌&&◌, ◌||◌,
  not, Bytes, codes, ltb, leb, ◌==◌, if◌then◌else◌, length, take, has_prefix, contains, set,
  get_elem?, lookup, all, any, text_eq, nat_eq, map,
}
use altclaw.Agent.{
  Role, system, user, assistant, Message, text_message, is_results, is_code, compact_messages,
  ledger_preview,
}
use altclaw.Agent.Blocks.{Blocks, MemEntry, extract_blocks, extract_call_signatures, compact_code}
use altclaw.Agent.World.{
  TokenCounts, ChatReply, replied, chat_failed, RunOutcome, run_value, run_error, World, Effect,
  persisted, called, counted_tokens, saved_history, executed, saved_result, saved_memory, committed,
}
use altclaw.Agent.Turn.{
  Agent, ProviderCfg, Failure, provider_error, Reply, answer, failed, Turn, Step, go, stop, ◌>>=◌,
  emit, ticked, no_tokens, persist_message, is_some, close_turn, handle_stop, check_stop,
}
use altclaw.Agent.Turn.Calls.{ask_provider, drain_pending, count_tokens, finish}
use altclaw.Agent.Turn.Exec.{run_blocks, track_small}
use altclaw.Agent.Turn.Feedback.{feed_back}
use altclaw.Agent.Turn.{exhausted_message, iterations_exhausted}

abbrev add_tokens : TokenCounts → TokenCounts → TokenCounts
add_tokens s tc = record {
  prompt = s.prompt + tc.prompt;
  completion = s.completion + tc.completion;
}

module _ (w : World) (a : Agent) where
  -- The code blocks of a response, and the feedback to the provider.
  unfoldable pub execute : ℕ → List Bytes → Bytes → TokenCounts → Turn → Step (Unit {0})
  unfolding run_blocks check_stop track_small feed_back
  execute i code response tc t =
      run_blocks w a i 0 code response tc (record t { total = add_tokens t.total tc })
      >>= λ results t1. check_stop w a t1 >>= λ _ t2.
          go tt (feed_back w a i response results (track_small w a results t2))

  unfoldable pub act_on : ℕ → List Bytes → Blocks → Bytes → TokenCounts → Turn → Step (Unit {0})
  unfolding execute finish
  act_on i [] bs response tc t = finish w a bs response tc t
  act_on i (c ∷ cs) bs response tc t = execute i (c ∷ cs) response tc t

  -- One round of the loop.
  unfoldable pub iterate : ℕ → Turn → Step (Unit {0})
  unfolding check_stop drain_pending ask_provider count_tokens act_on
  iterate i t = check_stop w a t >>= λ _ t1. ask_provider w a (drain_pending w a t1) >>= λ r t2.
      let (response, tc) = r in
      let t3 = record t2 { messages = t2.messages ++ text_message assistant response ∷ [] } in
      let bs = extract_blocks w.patterns response in
      act_on i bs.code bs response tc (count_tokens w a tc t3)

  unfoldable pub exhaust : Turn → Reply × Turn
  unfolding close_turn persist_message
  exhaust t =
      let closed = close_turn a t in
      if a.is_sub_agent
      then (failed iterations_exhausted, closed)
      else (answer exhausted_message, persist_message a assistant exhausted_message t.total closed)

  abbrev pub settle : Step (Unit {0}) → (Turn → Reply × Turn) → Reply × Turn
  settle (go _ t) next = next t
  settle (stop r t) next = (r, t)

  -- `for i := 0; i < a.MaxIter; i++`, with the rounds that are left.
  unfoldable pub loop : ℕ → ℕ → Turn → Reply × Turn
  unfolding iterate exhaust
  loop zero i t = exhaust t
  loop (suc left) i t = settle (iterate i t) (loop left (i + 1))
