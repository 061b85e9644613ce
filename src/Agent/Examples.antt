-- ===== src/Agent/Examples.antt =====
-- A turn that runs one code block and then answers.
use altclaw.Common.{
  ℕ, ◌+◌, ◌≤◌, ◌≡◌, refl, Bool, true, false, none, some, List, [], ◌∷◌, ◌++◌, codes, length, All,
  if◌then◌else◌, has_prefix, text_eq, contains, index, last_index, lookup, insert, remove, ◌↔◌, min,
}
use altclaw.RateLimit.{allow, allowed}
use altclaw.Settings.{rate_limit, message_window, daily_prompt_cap, daily_completion_cap}
use altclaw.Agent.{
  user, assistant, Message, text_message, exec_fence, prior_window, compact_messages, is_noise,
}
use altclaw.Agent.History.{IsClean, prior_window-suffix}
use altclaw.Agent.Blocks.{Patterns}
use altclaw.Agent.World.{World, TokenCounts, ChatReply, replied, run_value, HistoryRow}
use altclaw.Agent.Turn.{Agent, answer}
use altclaw.Agent.Turn.Progress.{calls, stored}
use altclaw.Agent.Blocks.{extract_blocks}
use altclaw.Agent.Turn.Loop.{loop}
use altclaw.Agent.Gate.{Usage, requests_per_minute, gate}
use altclaw.Agent.Gate.Refusals.{HasRoom, HasProviderRoom, gate_iff}
use altclaw.Agent.Turn.Loop.{iterate}
use altclaw.Agent.Send.{Start, open_turn, context_rows, send}
use altclaw.Agent.Send.Outcome.{
  turn_after, user_row, reply_rows, Conversation, send-stored, send-calls, send-Conversation,
}
use altclaw.Agent.Send.Context.{IsQuotable, HasDistinctCodes, context_rows_sound}

abbrev patterns : Patterns
patterns = record {
  exec_matches = λ t. if has_prefix t exec_fence then codes "output(1)" ∷ [] else [];
  mem_matches = λ t. [];
  strip_mem = λ t. t;
  call_matches = λ t. [];
  instance_matches = λ t. [];
  replace_blocks = λ f t. t;
  block_code = λ t. none;
  trim_space = λ t. t;
}

abbrev tokens : TokenCounts
tokens = record { prompt = 5; completion = 2 }

-- The provider sends code first, and an answer after its results.
abbrev chat_at : ℕ → List Message → ChatReply
chat_at n ms =
    if contains_results ms
    then replied (codes "done") tokens
    else replied (codes "```exec\noutput(1)\n```") tokens
  where
    contains_results : List Message → Bool
    contains_results [] = false
    contains_results (m ∷ []) = has_prefix m.content (codes "[Execution Results]")
    contains_results (m ∷ n ∷ ns) = contains_results (n ∷ ns)

abbrev world : World
world = record {
  chat = chat_at;
  run = λ n code. run_value (codes "1") 0;
  cancelled = λ n. false;
  pending = λ n. [];
  files = λ n. [];
  history_id = λ n. n;
  patterns = patterns;
  hash = length;
  show = λ n. [];
  sanitize = λ e. e;
}

abbrev agent : Agent
agent = record {
  has_store = true;
  workspace = some (codes "ws");
  chat_id = 7;
  is_sub_agent = false;
  max_iter = 3;
  provider_cfg = none;
}

abbrev usage : Usage
usage = record {
  settings = record { ws = none; cfg = none };
  now = 9;
  today = some tokens;
  provider_today = none;
}

abbrev rows : List HistoryRow
rows =
    record { turn_id = codes "1"; code = codes "a"; result = codes "Error: x" }
    ∷ record { turn_id = codes "1"; code = codes "b"; result = codes "Result: 2" }
    ∷ []

abbrev start : Start
start = record { usage = usage; turn_id = codes "2"; system_prompt = codes "You are"; rows = rows }

abbrev earlier : List Message
earlier = text_message user (codes "hi") ∷ text_message assistant (codes "```exec") ∷ []

send_answers : (send world agent start [] earlier (codes "go")).0 ≡ answer (codes "done")
unfolding send gate loop extract_blocks prior_window is_noise allow lookup insert remove contains
    text_eq index last_index has_prefix rate_limit message_window daily_prompt_cap
    daily_completion_cap
send_answers = refl

send-stored_example :
    let (r, t, l') = send world agent start [] earlier (codes "go") in
    stored t.effects ≡ user_row agent (codes "go") ++ reply_rows agent r
send-stored_example = send-stored world agent start earlier (codes "go") []

send-calls_example :
    let t = open_turn agent earlier (codes "go") in
    (calls (turn_after (iterate world agent 0 t)).effects ≤ calls t.effects + 3)
    × (calls (send world agent start [] earlier (codes "go")).1.effects ≤ 9)
send-calls_example =
    send-calls world agent start earlier (codes "go") [] 0 (open_turn agent earlier (codes "go"))

send-Conversation_example :
    let (r, t, l') = send world agent start [] earlier (codes "go") in
    Conversation (earlier ++ text_message user (codes "go") ∷ []) (gate agent usage []).1 r t
send-Conversation_example = send-Conversation world agent start earlier (codes "go") []

context_rows_sound_example :
    let quoted = context_rows 3 (codes "2") [] rows in
    (length quoted ≤ 3) × All (IsQuotable (codes "2")) quoted × HasDistinctCodes quoted
context_rows_sound_example = context_rows_sound (codes "2") rows

gate_iff_example : ((gate agent usage []).1 ≡ none) ↔ (
    ((allow [] 9 (codes "ws") (requests_per_minute none usage.settings)).1 ≡ allowed)
    × HasRoom (daily_prompt_cap usage.settings) (daily_completion_cap usage.settings) usage.today
    × HasProviderRoom none none)
gate_iff_example = gate_iff agent usage [] (codes "ws") refl refl

prior_window-suffix_example :
    (older : List Message) × (older ++ prior_window 10 earlier ≡ compact_messages earlier)
    × (length (prior_window 10 earlier) ≡ min 10 (length (compact_messages earlier)))
    × All IsClean (prior_window 10 earlier)
prior_window-suffix_example = prior_window-suffix 10 earlier
