-- ===== src/Agent/Turn/Exec.antt =====
-- internal/agent/agent.go: the code blocks of a response, run in order, with their ledger.
use altclaw.Common.{
  ℕ, zero, suc, ◌+◌, Bool, true, false, Option, none, some, List, [], ◌∷◌, ◌++◌, ◌&&◌, ◌||◌, not,
  Bytes, codes, ltb, leb, ◌==◌, if◌then◌else◌, length, take, lookup, all, nat_eq,
}
use altclaw.Agent.{ledger_preview}
use altclaw.Agent.Blocks.{extract_call_signatures}
use altclaw.Agent.{arrow, em_dash}
use altclaw.Agent.World.{
  TokenCounts, RunOutcome, run_value, run_error, World, saved_history, executed, saved_result,
}
use altclaw.Agent.Turn.{Agent, Turn, Step, go, ◌>>=◌, emit, ticked, no_tokens, check_stop}

module _ (w : World) (a : Agent) where
  -- What one code block reports, and the count of errors in a row after it.
  unfoldable pub result_text : RunOutcome → Bytes
  result_text (run_error e logs) = codes "Error: " ++ e
  result_text (run_value [] zero) = codes "Executed successfully (no output)"
  result_text (run_value [] (suc n)) =
      codes "Executed successfully (" ++ (w.show (suc n) ++ codes " log messages shown to user)")
  result_text (run_value (c ∷ v) logs) = codes "Result: " ++ (c ∷ v)

  abbrev errors_after : RunOutcome → ℕ → ℕ
  errors_after (run_error _ _) n = n + 1
  errors_after (run_value _ _) n = 0

  -- Large results are cut before they go back to the provider.
  unfoldable pub fed_back : Bytes → Bytes
  fed_back r = if ltb 4000 (length r) then take 4000 r ++ codes "\n... (truncated)" else r

  abbrev label : ℕ → ℕ → Bytes
  label i j = codes "#" ++ (w.show (i + 1) ++ (codes "." ++ w.show (j + 1)))

  -- The ledger entry of a result: in full the first time, by reference after that.
  unfoldable pub log_result : ℕ → ℕ → Bytes → Bytes → Turn → Turn
  unfolding ledger_preview
  log_result i j code result t = entry (lookup (w.hash result) t.seen)
    where
      action : Bytes
      action = extract_call_signatures w.patterns code

      line : Bytes → Bytes
      line rest = label i j ++ (codes ": " ++ (action ++ rest))

      entry : Option Bytes → Turn
      entry (some first) = record t {
        ledger =
            t.ledger
            ++ line (
                arrow
                ++ (codes "[same as "
                    ++ (first
                        ++ (codes ", "
                            ++ (w.show (length result)
                                ++ (codes " chars " ++ (em_dash ++ codes " already seen]")))))))
              ∷ [];
      }
      entry none = record t {
        seen = (w.hash result, label i j) ∷ t.seen;
        ledger =
            t.ledger
            ++ line (
                arrow
                ++ (w.show (length result) ++ (codes " chars\n  " ++ ledger_preview result i)))
              ∷ [];
      }

  abbrev saved_id : ℕ → ℕ
  saved_id tick = if a.has_store then w.history_id tick else 0

  -- `saveToHistory`: the tokens of a response are stored with its first block.
  unfoldable pub save_to_history : ℕ → ℕ → Bytes → Bytes → TokenCounts → Turn → Turn
  save_to_history i j code response tc t =
      let counts = if j == 0 then tc else no_tokens in
      ticked (if a.has_store then emit (saved_history i j code response counts) t else t)

  unfoldable pub update_history_result : ℕ → Bytes → Turn → Turn
  update_history_result id result t =
      if not a.has_store || id == 0 then t else emit (saved_result id result) t

  unfoldable pub run_block : ℕ → ℕ → Bytes → Bytes → TokenCounts → Turn → Step Bytes
  unfolding check_stop save_to_history update_history_result log_result result_text fed_back
  run_block i j code response tc t = check_stop w a t >>= λ _ t1.
      let t2 = save_to_history i j code response tc t1 in
      let outcome = w.run t2.tick code in
      let result = result_text outcome in
      let t3 = ticked (emit (executed code) t2) in
      let t4 =
        update_history_result (saved_id t1.tick) result
          (record t3 { consecutive_errors = errors_after outcome t3.consecutive_errors }) in
      go (fed_back result) (log_result i j code result t4)

  unfoldable pub run_blocks : ℕ → ℕ → List Bytes → Bytes → TokenCounts → Turn → Step (List Bytes)
  unfolding run_block
  run_blocks i j [] response tc t = go [] t
  run_blocks i j (code ∷ codes) response tc t = run_block i j code response tc t >>= λ r t1.
      run_blocks i (j + 1) codes response tc t1 >>= λ rs t2. go (r ∷ rs) t2

  abbrev is_small : Bytes → Bool
  is_small r = leb (length r) 50

  abbrev has_results : List Bytes → Bool
  has_results [] = false
  has_results _ = true

  unfoldable pub track_small : List Bytes → Turn → Turn
  track_small rs t = record t {
    small_results =
        if t.consecutive_errors == 0 && has_results rs && all is_small rs
        then t.small_results + 1
        else 0;
  }
