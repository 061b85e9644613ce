-- ===== src/Agent/Turn/Progress.antt =====
-- What every step of a turn leaves as it was, and how a turn ends.
use altclaw.Common.{
  ℕ, suc, ◌+◌, ◌≤◌, ◌≡◌, refl, sym, ◌∙◌, ap, Bool, true, false, List, [], ◌∷◌, ◌++◌, ◌||◌, not,
  ◌==◌, arith, Bytes, if◌then◌else◌, append_assoc, append-nil,
}
use altclaw.Agent.{Role, assistant, Message, compact_messages}
use altclaw.Agent.World.{TokenCounts, World, Effect, persisted, called, committed}
use altclaw.Agent.Turn.{
  Agent, provider_error, stopped, iterations_exhausted, Reply, answer, failed, Turn, Step, go, stop,
  ◌>>=◌, emit, ticked, persist_message, close_turn, handle_stop, check_stop, stopped_message,
}

-- How often the provider was called.
abbrev pub calls : List Effect → ℕ
calls [] = 0
calls (called _ ∷ es) = suc (calls es)
calls (_ ∷ es) = calls es

-- The chat messages that were stored.
abbrev pub stored : List Effect → List (Role × Bytes)
stored [] = []
stored (persisted r m _ ∷ es) = (r, m) ∷ stored es
stored (_ ∷ es) = stored es

pub calls-append : (es fs : List Effect) → calls (es ++ fs) ≡ calls es + calls fs
calls-append [] fs = omega arith
calls-append (called _ ∷ es) fs = omega (arith, calls-append es fs)
calls-append (_ ∷ es) fs = calls-append es fs

pub stored-append : (es fs : List Effect) → stored (es ++ fs) ≡ stored es ++ stored fs
stored-append [] fs = refl
stored-append (persisted r m _ ∷ es) fs = ap (λ ms. (r, m) ∷ ms) (stored-append es fs)
stored-append (_ ∷ es) fs = stored-append es fs

-- A running turn only adds to the conversation, calls the provider at most `n` times, and stores
-- no chat message.
pub record Extends (n : ℕ) (t u : Turn) : Type 0 where
  pub new : List Message
  pub talk : u.messages ≡ t.messages ++ new
  pub cost : calls u.effects ≤ calls t.effects + n
  pub quiet : stored u.effects ≡ stored t.effects

-- The chat message that an agent stores with its answer: none without a store or a chat, and none
-- for a sub-agent.
abbrev pub answer_row : Agent → Bytes → List (Role × Bytes)
answer_row a m =
    if not a.has_store || a.chat_id == 0 || a.is_sub_agent then [] else (assistant, m) ∷ []

-- The end of a turn, from its last running state: an answer, and a sub-agent's stop or exhaustion,
-- compact the conversation, an answer is stored; a provider's error leaves all as it is.
abbrev pub Closes : Agent → Reply → Turn → Turn → Type 0
Closes a (answer m) u t =
    (t.messages ≡ compact_messages u.messages)
    × (stored t.effects ≡ stored u.effects ++ answer_row a m)
    × (calls t.effects ≡ calls u.effects)
Closes a (failed (provider_error e)) u t =
    (t.messages ≡ u.messages)
    × (stored t.effects ≡ stored u.effects)
    × (calls t.effects ≡ calls u.effects)
Closes a (failed stopped) u t =
    (t.messages ≡ compact_messages u.messages)
    × (stored t.effects ≡ stored u.effects)
    × (calls t.effects ≡ calls u.effects)
    × (a.is_sub_agent ≡ true)
Closes a (failed iterations_exhausted) u t =
    (t.messages ≡ compact_messages u.messages)
    × (stored t.effects ≡ stored u.effects)
    × (calls t.effects ≡ calls u.effects)
    × (a.is_sub_agent ≡ true)
Closes a (failed _) u t = ⊥

-- A turn that was `t` ended as `t'` with a reply.
pub record Ends (a : Agent) (n : ℕ) (t : Turn) (r : Reply) (t' : Turn) : Type 0 where
  pub last : Turn
  pub extends : Extends n t last
  pub closes : Closes a r last t'

abbrev pub After : {A : Type 0} → Agent → ℕ → Turn → Step A → Type 0
After a n t (go x u) = Extends n t u
After a n t (stop r u) = Ends a n t r u

pub Extends-refl : (n : ℕ) (t : Turn) → Extends n t t
Extends-refl n t = record { new = []; talk = sym (append-nil _); cost = omega arith; quiet = refl }

pub Extends-trans :
    (m n k : ℕ) (t u v : Turn) → m + n ≤ k → Extends m t u → Extends n u v → Extends k t v
Extends-trans m n k t u v le d e = record {
  new = d.new ++ e.new;
  talk = e.talk ∙ ap (λ ms. ms ++ e.new) d.talk ∙ append_assoc t.messages d.new e.new;
  cost = omega (arith, d.cost, e.cost);
  quiet = e.quiet ∙ d.quiet;
}

pub After-trans :
    {A : Type 0} (a : Agent) (m n k : ℕ) (t u : Turn) (s : Step A)
    → m + n ≤ k
    → Extends m t u
    → After a n u s
    → After a k t s
After-trans a m n k t u (go x v) le d e = Extends-trans m n k t u v le d e
After-trans a m n k t u (stop r v) le d e = record {
  last = e.last;
  extends = Extends-trans m n k t u e.last le d e.extends;
  closes = e.closes;
}

-- A step, and what follows it.
pub After-bind :
    {A B : Type 0} (a : Agent) (m n k : ℕ) (t : Turn) (s : Step A) (f : A → Turn → Step B)
    → m + n ≤ k
    → After a m t s
    → ((x : A) (u : Turn) → After a n u (f x u))
    → After a k t (s >>= f)
After-bind a m n k t (go x u) f le d e = After-trans a m n k t u (f x u) le d (e x u)
After-bind a m n k t (stop r u) f le d e = record {
  last = d.last;
  extends = Extends-trans m n k t d.last d.last le d.extends (Extends-refl n d.last);
  closes = d.closes;
}

-- A turn with the same conversation and one more effect, which is no call and no chat message.
pub Extends-of_same :
    (t u : Turn)
    → u.messages ≡ t.messages
    → calls u.effects ≡ calls t.effects
    → stored u.effects ≡ stored t.effects
    → Extends 0 t u
Extends-of_same t u e c s = record {
  new = [];
  talk = e ∙ sym (append-nil _);
  cost = omega (arith, c);
  quiet = s;
}

-- One more effect that is neither a call nor a chat message.
pub emit-Extends :
    (e : Effect) (t : Turn) → calls (e ∷ []) ≡ 0 → stored (e ∷ []) ≡ [] → Extends 0 t (emit e t)
emit-Extends e t c s =
    Extends-of_same t (emit e t) refl (omega (arith, calls-append t.effects (e ∷ []), c))
      (stored-append t.effects (e ∷ []) ∙ ap (λ ms. stored t.effects ++ ms) s ∙ append-nil _)

pub if-Extends :
    (b : Bool) (t u v : Turn) → Extends 0 t u → Extends 0 t v → Extends 0 t (if b then u else v)
if-Extends true t u v d e = d
if-Extends false t u v d e = e

stored-persist_message :
    (a : Agent) (m : Bytes) (tc : TokenCounts) (t : Turn)
    → (stored (persist_message a assistant m tc t).effects ≡ stored t.effects ++ answer_row a m)
      × (calls (persist_message a assistant m tc t).effects ≡ calls t.effects)
      × ((persist_message a assistant m tc t).messages ≡ t.messages)
unfolding persist_message
stored-persist_message a m tc t = ground (
  arith,
  stored-append t.effects (persisted assistant m tc ∷ []),
  calls-append t.effects (persisted assistant m tc ∷ []),
  append-nil (stored t.effects),
)

pub close_turn_lem :
    (a : Agent) (t : Turn)
    → ((close_turn a t).messages ≡ compact_messages t.messages)
      × (stored (close_turn a t).effects ≡ stored t.effects)
      × (calls (close_turn a t).effects ≡ calls t.effects)
unfolding close_turn
close_turn_lem a t = ground (
  arith,
  stored-append t.effects (committed ∷ []),
  calls-append t.effects (committed ∷ []),
  append-nil (stored t.effects),
)

-- The closing of a turn, and its answer stored after it.
pub answer-Closes :
    (a : Agent) (t : Turn) (m : Bytes) (tc : TokenCounts)
    → Closes a (answer m) t (persist_message a assistant m tc (close_turn a t))
answer-Closes a t m tc =
    let (row, cost, talk) = stored-persist_message a m tc (close_turn a t) in
    let (compacted, same, same_cost) = close_turn_lem a t in
    (talk ∙ compacted, row ∙ ap (λ ms. ms ++ answer_row a m) same, cost ∙ same_cost)

-- An answer that is stored before the turn is closed.
pub answer_first-Closes :
    (a : Agent) (t : Turn) (m : Bytes) (tc : TokenCounts)
    → Closes a (answer m) t (close_turn a (persist_message a assistant m tc t))
answer_first-Closes a t m tc =
    let (row, cost, talk) = stored-persist_message a m tc t in
    let (compacted, same, same_cost) = close_turn_lem a (persist_message a assistant m tc t) in
    (compacted ∙ ap compact_messages talk, same ∙ row, same_cost ∙ cost)

handle_stop_by :
    (A : Type 0) (a : Agent) (t : Turn) (sub : Bool)
    → a.is_sub_agent ≡ sub
    → After {A = A} a 0 t (
        if sub
        then stop (failed stopped) (close_turn a t)
        else stop
            (answer stopped_message)
            (persist_message a assistant stopped_message t.total (close_turn a t)))
handle_stop_by A a t true e = record {
  last = t;
  extends = Extends-refl 0 t;
  closes = ((close_turn_lem a t).0, (close_turn_lem a t).1, (close_turn_lem a t).2, e);
}
handle_stop_by A a t false e = record {
  last = t;
  extends = Extends-refl 0 t;
  closes = answer-Closes a t stopped_message t.total;
}

pub handle_stop-After : (A : Type 0) (a : Agent) (t : Turn) → After a 0 t (handle_stop {A = A} a t)
unfolding handle_stop
handle_stop-After A a t = handle_stop_by A a t a.is_sub_agent refl

check_stop_by :
    (a : Agent) (t : Turn) (halt : Bool)
    → After a 0 t (if halt then handle_stop a (ticked t) else go tt (ticked t))
check_stop_by a t true =
    After-trans a 0 0 0 t (ticked t) (handle_stop a (ticked t)) (omega arith)
      (Extends-of_same t (ticked t) refl refl refl) (handle_stop-After (Unit {0}) a (ticked t))
check_stop_by a t false = Extends-of_same t (ticked t) refl refl refl

pub check_stop-After : (w : World) (a : Agent) (t : Turn) → After a 0 t (check_stop w a t)
unfolding check_stop
check_stop-After w a t = check_stop_by a t (w.cancelled t.tick)
