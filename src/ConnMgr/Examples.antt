-- ===== src/ConnMgr/Examples.antt =====
-- Tests and examples of the connections.
use altclaw.Common.{
  ◌*◌, arith, Bool, true, false, none, some, [], ◌∷◌, Bytes, codes, ◌≡◌, refl, all, contains, index,
  text_eq, lookup,
}
use altclaw.ConnMgr.{
  ConnEntry, Call, on_message, on_error, Handled, Outside, Round, again, start, rounds,
  is_retryable_error, second,
}
use altclaw.Netx.Examples.{resolver, rules}
use altclaw.ConnMgr.Runs.{conn_of}
use altclaw.ConnMgr.Closing.{keeps_open, rounds-StaysOpen}
use altclaw.ConnMgr.Registry.{Request, load}
use altclaw.ConnMgr.Registry.Sync.{WellFormed, apply_all, apply_all-WellFormed, adds, removes}

abbrev feed : ConnEntry
feed = record {
  id = 1;
  chat_id = 0;
  conn_type = codes "ws";
  url = codes "wss://example.com";
  handler = codes "feed.js";
  headers = [];
  reconnect = true;
}

abbrev quiet : Handled
quiet = record { value = []; has_failed = false; closes = false }

-- A server that drops every connection after a message.
abbrev flaky : Outside
flaky = record {
  is_stopping = λ _. false;
  dial = λ _. none;
  session =
      λ _. record { messages = codes "hi" ∷ []; ending = some (codes "EOF"); is_stable = false };
  init = λ _. true;
  handle = λ _ _. quiet;
}

-- A handler that closes the connection at its first message, and whose `onError` returns the value.
abbrev answer_close : Bytes → Call → Handled
answer_close value (on_message _) = record { value = []; has_failed = false; closes = true }
answer_close value (on_error _) = record { value = value; has_failed = false; closes = false }
answer_close value call = quiet

abbrev closing : Bytes → Outside
closing value = record flaky { handle = λ _. answer_close value }

abbrev is_again : Round → Bool
is_again (again _) = true
is_again _ = false

closed_for_good : is_again (rounds (closing []) 1 (start feed)) ≡ false
unfolding rounds text_eq contains index
closed_for_good = refl

reconnects_after_close : is_again (rounds (closing (codes "true")) 1 (start feed)) ≡ true
unfolding rounds text_eq contains index
reconnects_after_close = refl

waits_of_flaky :
    (conn_of (rounds flaky 3 (start feed))).waits ≡ second ∷ second * 2 ∷ second * 4 ∷ []
unfolding rounds text_eq contains index
waits_of_flaky = refl

not_found_is_final : is_retryable_error (some (codes "SSE: HTTP 404 Not Found")) ≡ false
unfolding is_retryable_error contains
not_found_is_final = refl

rounds-StaysOpen_example : all keeps_open (conn_of (rounds flaky 2 (start feed))).calls ≡ true
unfolding rounds text_eq contains index
rounds-StaysOpen_example =
    rounds-StaysOpen flaky 2 feed (conn_of (rounds flaky 2 (start feed))) refl refl

abbrev request : Request
request = record {
  chat_id = 0;
  conn_type = [];
  url = codes "wss://a.org/feed";
  handler = codes "feed.js";
  headers = [];
  reconnect = true;
}

empty-WellFormed : WellFormed (load [])
unfolding lookup
empty-WellFormed = record { distinct = λ i j a b h. absurd (ground arith); saved = λ i a h. h }

apply_all-WellFormed_example : WellFormed (
    apply_all resolver rules
      (adds request (some 4) ∷ adds request (some 5) ∷ removes true 4 ∷ adds request (some 6) ∷ [])
      (load []))
apply_all-WellFormed_example =
    apply_all-WellFormed resolver rules
      (adds request (some 4) ∷ adds request (some 5) ∷ removes true 4 ∷ adds request (some 6) ∷ [])
      (load []) empty-WellFormed
