-- ===== src/Agent/Turn/Feedback.antt =====
-- internal/agent/agent.go: what goes back to the provider after the code blocks of a response.
use altclaw.Common.{
  ℕ, ◌+◌, Option, none, some, List, [], ◌∷◌, ◌++◌, Bytes, codes, leb, if◌then◌else◌, contains, set,
  get_elem?, nat_eq,
}
use altclaw.Agent.{user, assistant, Message, text_message, is_results, is_code}
use altclaw.Agent.Blocks.{compact_code}
use altclaw.Agent.{results_tag, em_dash}
use altclaw.Agent.World.{World}
use altclaw.Agent.Turn.{Agent, Turn}

-- The hint for the next response, by the first condition that holds.
unfoldable pub hint : (show : ℕ → Bytes) → (i max_iter : ℕ) → Bytes → (errors small : ℕ) → Bytes
hint show i max_iter summary errors small =
    if leb max_iter (i + 1)
    then codes "This is your final iteration. Respond with a ```md block now "
      ++ (em_dash ++ codes " no more code.")
    else if contains summary (codes "user rejected:")
    then codes
        "The user explicitly rejected this action. Do NOT retry or re-prompt for the same action. Respond with a ```md block acknowledging the rejection."
    else if leb 3 errors
    then codes
        "You have failed multiple times in a row. Use ui.ask() to ask the user for clarification or guidance, or respond with a ```md block explaining what went wrong."
    else if leb 2 errors
    then codes
        "You have failed twice consecutively. Try a COMPLETELY different approach, use ui.ask() to ask the user for help, or respond with a ```md block."
    else if leb max_iter (i + 2)
    then codes
        "You have 1 iteration left after this. Wrap up your work and prepare a ```md response."
    else if leb 2 small
    then codes "Your last "
      ++ (show small
          ++ codes " attempts returned empty or minimal results. Empty results ARE valid data "
          ++ (em_dash
              ++ codes
                  " the resource may genuinely be empty. Present your findings to the user with a ```md block instead of retrying."))
    else codes
        "Review the results. Respond with ```md to present the answer, or ```exec to continue working."

-- `strings.Join rs "\n"`
unfoldable pub join_lines : List Bytes → Bytes
join_lines [] = []
join_lines (s ∷ []) = s
join_lines (s ∷ t ∷ ss) = s ++ (codes "\n" ++ join_lines (t ∷ ss))

-- The ledger is left out while it has one entry.
unfoldable pub ledger_block : List Bytes → Bytes
unfolding join_lines
ledger_block [] = []
ledger_block (e ∷ []) = []
ledger_block (e ∷ f ∷ es) =
    codes "\n[Iteration Log "
    ++ (em_dash
        ++ (codes " do NOT re-read/repeat data you already have]\n"
            ++ (join_lines (e ∷ f ∷ es) ++ codes "\n")))

unfoldable pub feedback : World → Agent → ℕ → List Bytes → Turn → Message
unfolding hint join_lines ledger_block
feedback w a i results t =
    let summary = join_lines results in
    record {
      role = user;
      content =
          results_tag
          ++ (codes " (iteration "
              ++ (w.show (i + 1)
                  ++ (codes "/"
                      ++ (w.show a.max_iter
                          ++ (codes ")\n"
                              ++ (summary
                                  ++ (ledger_block t.ledger
                                      ++ (codes "\n\n"
                                          ++ hint w.show i a.max_iter summary t.consecutive_errors
                                              t.small_results))))))));
      files = w.files t.tick;
    }

-- The scan that compacts earlier messages: where the last feedback and the last code response
-- that it has passed stand.
pub record Scan : Type 0 where
  pub view : List Message
  pub last_results : Option ℕ
  pub last_code : Option ℕ

abbrev rewrite_at : Option ℕ → (Message → Message) → List Message → List Message
rewrite_at none f ms = ms
rewrite_at (some i) f ms = rewrite (get_elem? ms i)
  where
    rewrite : Option Message → List Message
    rewrite none = ms
    rewrite (some m) = set ms i (f m)

abbrev see_log : Message → Message
see_log m = record m { content = codes "[Execution Results] (see iteration log in latest results)" }

unfoldable pub scan_step : (Bytes → Bytes) → ℕ → Message → Scan → Scan
unfolding is_results is_code
scan_step compact idx m s =
    let s1 =
      if is_results m
      then record s { view = rewrite_at s.last_results see_log s.view; last_results = some idx }
      else s in
    if is_code m
    then record s1 {
      view = rewrite_at s1.last_code (λ c. record c { content = compact c.content }) s1.view;
      last_code = some idx;
    }
    else s1

-- `for idx := range msgs`. A step rewrites earlier messages only, so that `msgs[idx]` is as it was.
unfoldable pub scan_from : (Bytes → Bytes) → ℕ → List Message → Scan → Scan
unfolding scan_step
scan_from compact idx [] s = s
scan_from compact idx (m ∷ ms) s = scan_from compact (idx + 1) ms (scan_step compact idx m s)

unfoldable pub compact_view : (Bytes → Bytes) → List Message → List Message
unfolding scan_from
compact_view compact ms =
    (scan_from compact 0 ms (record { view = ms; last_results = none; last_code = none })).view

-- The feedback joins both lists; the provider's is compacted before it.
unfoldable pub feed_back : World → Agent → ℕ → Bytes → List Bytes → Turn → Turn
unfolding feedback compact_view
feed_back w a i response results t =
    let fb = feedback w a i results t in
    record t {
      messages = t.messages ++ fb ∷ [];
      msgs =
          compact_view (compact_code w.patterns) t.msgs
          ++ text_message assistant response ∷ fb ∷ [];
      tick = t.tick + 1;
    }
