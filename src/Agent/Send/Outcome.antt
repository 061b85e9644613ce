-- ===== src/Agent/Send/Outcome.antt =====
-- What a turn has done when it is over, however the provider, the engine and the user behave.
use altclaw.Common.{
  ℕ, ◌+◌, ◌*◌, ◌≤◌, ◌≡◌, refl, sym, ◌∙◌, ap, subst, Option, none, some, List, [], ◌∷◌, ◌++◌, ◌||◌,
  not, ◌==◌, arith, Bytes, if◌then◌else◌, append-nil, All,
}
use altclaw.RateLimit.{Limiter}
use altclaw.Agent.{Role, user, Message, text_message, compact_messages}
use altclaw.Agent.History.{IsClean, compact_messages-IsClean, compact_messages-append}
use altclaw.Agent.World.{World}
use altclaw.Agent.Turn.{
  Agent, Failure, provider_error, stopped, iterations_exhausted, Reply, answer, failed, Turn, Step,
  go, stop,
}
use altclaw.Agent.Turn.Progress.{calls, stored, Closes, After, answer_row}
use altclaw.Agent.Turn.Loop.{iterate, loop}
use altclaw.Agent.Turn.Loop.Outcome.{iterate-After, loop-Ends}
use altclaw.Agent.Gate.{gate}
use altclaw.Agent.Send.{Start, first_messages, open_turn, admitted, send}

-- The chat messages that a turn should store.
abbrev pub user_row : Agent → Bytes → List (Role × Bytes)
user_row a text =
    if not a.has_store || a.chat_id == 0 || a.is_sub_agent then [] else (user, text) ∷ []

abbrev pub reply_rows : Agent → Reply → List (Role × Bytes)
reply_rows a (answer m) = answer_row a m
reply_rows a (failed _) = []

-- The turn when a step is over.
abbrev pub turn_after : Step (Unit {0}) → Turn
turn_after (go _ t) = t
turn_after (stop _ t) = t

open_turn_lem :
    (a : Agent) (old : List Message) (text : Bytes)
    → (stored (open_turn a old text).effects ≡ user_row a text)
      × (calls (open_turn a old text).effects ≡ 0)
      × ((open_turn a old text).messages ≡ old ++ text_message user text ∷ [])
unfolding open_turn
open_turn_lem a old text = ground arith

Closes-stored :
    (a : Agent) (r : Reply) (u t : Turn)
    → Closes a r u t
    → stored t.effects ≡ stored u.effects ++ reply_rows a r
Closes-stored a (answer m) u t c = c.1
Closes-stored a (failed (provider_error e)) u t c = c.1 ∙ sym (append-nil _)
Closes-stored a (failed stopped) u t c = c.1 ∙ sym (append-nil _)
Closes-stored a (failed iterations_exhausted) u t c = c.1 ∙ sym (append-nil _)
Closes-stored a (failed _) u t c = absurd c

Closes-calls :
    (a : Agent) (r : Reply) (u t : Turn) → Closes a r u t → calls t.effects ≡ calls u.effects
Closes-calls a (answer m) u t c = c.2
Closes-calls a (failed (provider_error e)) u t c = c.2
Closes-calls a (failed stopped) u t c = c.2
Closes-calls a (failed iterations_exhausted) u t c = c.2
Closes-calls a (failed _) u t c = absurd c

-- The conversation after a turn that was not refused, from the conversation `begun` that ends with
-- the user's message: compacted, or as it stood when the provider failed for good.
abbrev pub Talked : List Message → Reply → Turn → Type 0
Talked begun (failed (provider_error e)) t = (new : List Message) × (t.messages ≡ begun ++ new)
Talked begun r t =
    (new : List Message) × (t.messages ≡ compact_messages begun ++ new) × All IsClean t.messages

abbrev pub Conversation : List Message → Option Failure → Reply → Turn → Type 0
Conversation begun (some f) r t = (r ≡ failed f) × (t.messages ≡ begun) × (calls t.effects ≡ 0)
Conversation begun none r t = Talked begun r t

compacted :
    (begun new ms : List Message)
    → ms ≡ compact_messages (begun ++ new)
    → (new' : List Message) × (ms ≡ compact_messages begun ++ new') × All IsClean ms
compacted begun new ms e = (
  compact_messages new,
  e ∙ compact_messages-append begun new,
  subst (All IsClean) (sym e) (compact_messages-IsClean (begun ++ new)),
)

Closes-Talked :
    (a : Agent) (begun new : List Message) (r : Reply) (u t : Turn)
    → u.messages ≡ begun ++ new
    → Closes a r u t
    → Talked begun r t
Closes-Talked a begun new (answer m) u t e c =
    compacted begun new t.messages (c.0 ∙ ap compact_messages e)
Closes-Talked a begun new (failed (provider_error x)) u t e c = (new, c.0 ∙ e)
Closes-Talked a begun new (failed stopped) u t e c =
    compacted begun new t.messages (c.0 ∙ ap compact_messages e)
Closes-Talked a begun new (failed iterations_exhausted) u t e c =
    compacted begun new t.messages (c.0 ∙ ap compact_messages e)
Closes-Talked a begun new (failed _) u t e c = absurd c

module _ (w : World) (a : Agent) (s : Start) (old : List Message) (text : Bytes) where
  admitted-stored :
      (refusal : Option Failure)
      → let (r, t) = admitted w a s old text refusal in
        stored t.effects ≡ user_row a text ++ reply_rows a r
  unfolding admitted
  admitted-stored (some f) = (open_turn_lem a old text).0 ∙ sym (append-nil _)
  admitted-stored none =
      let t = open_turn a old text in
      let e = loop-Ends w a a.max_iter 0 (record t { msgs = first_messages a s old text }) in
      let r = (loop w a a.max_iter 0 (record t { msgs = first_messages a s old text })).0 in
      Closes-stored a r e.last _ e.closes
      ∙ ap (λ rows. rows ++ reply_rows a r) (e.extends.quiet ∙ (open_turn_lem a old text).0)

  admitted-calls :
      (refusal : Option Failure)
      → calls (admitted w a s old text refusal).1.effects ≤ 3 * a.max_iter
  unfolding admitted
  admitted-calls (some f) = omega (arith, (open_turn_lem a old text).1)
  admitted-calls none =
      let t = open_turn a old text in
      let e = loop-Ends w a a.max_iter 0 (record t { msgs = first_messages a s old text }) in
      omega
        (arith, Closes-calls a _ e.last _ e.closes, e.extends.cost, (open_turn_lem a old text).1)

  -- An agent with a store and a chat that is no sub-agent stores the user's message first, and then
  -- its answer if it gives one, and nothing else: an error stores no answer. Any other agent stores
  -- no chat message.
  pub send-stored :
      (l : Limiter)
      → let (r, t, l') = send w a s l old text in
        stored t.effects ≡ user_row a text ++ reply_rows a r
  unfolding send
  send-stored l = admitted-stored (gate a s.usage l).1

  -- One iteration, however it begins and ends, calls the provider at most three times.
  iterate-calls :
      (i : ℕ) (t : Turn) → calls (turn_after (iterate w a i t)).effects ≤ calls t.effects + 3
  iterate-calls i t = by_step (iterate w a i t) (iterate-After w a i t)
    where
      by_step :
          (x : Step (Unit {0})) → After a 3 t x → calls (turn_after x).effects ≤ calls t.effects + 3
      by_step (go _ u) e = e.cost
      by_step (stop r u) e = omega (arith, Closes-calls a r e.last u e.closes, e.extends.cost)

  -- Each single iteration, from any state of the turn and with any number, calls the provider at most
  -- three times, and a whole turn at most three times the limit of its iterations.
  pub send-calls :
      (l : Limiter) (i : ℕ) (t : Turn)
      → (calls (turn_after (iterate w a i t)).effects ≤ calls t.effects + 3)
        × (calls (send w a s l old text).1.effects ≤ 3 * a.max_iter)
  unfolding send
  send-calls l i t = (iterate-calls i t, admitted-calls (gate a s.usage l).1)

  admitted-Conversation :
      (refusal : Option Failure)
      → let (r, t) = admitted w a s old text refusal in
        Conversation (old ++ text_message user text ∷ []) refusal r t
  unfolding admitted
  admitted-Conversation (some f) =
      (refl, (open_turn_lem a old text).2, (open_turn_lem a old text).1)
  admitted-Conversation none =
      let t = open_turn a old text in
      let t0 : Turn = record t { msgs = first_messages a s old text } in
      let e = loop-Ends w a a.max_iter 0 t0 in
      Closes-Talked a (old ++ text_message user text ∷ []) e.extends.new
        (loop w a a.max_iter 0 t0).0 e.last _
        (e.extends.talk ∙ ap (λ ms. ms ++ e.extends.new) (open_turn_lem a old text).2) e.closes

  -- A turn that the limits refuse makes no call of the provider and leaves the conversation with the
  -- user's message at its end. Any other turn keeps the conversation up to the user's message and
  -- adds to it: after an answer, a stop or the last iteration it is compacted, so that no execution
  -- feedback and no code response is left; only a provider's error leaves it as it stood.
  pub send-Conversation :
      (l : Limiter)
      → let (r, t, l') = send w a s l old text in
        Conversation (old ++ text_message user text ∷ []) (gate a s.usage l).1 r t
  unfolding send
  send-Conversation l = admitted-Conversation (gate a s.usage l).1
