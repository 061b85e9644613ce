-- ===== src/Agent/Turn/Loop/Outcome.antt =====
-- How the loop of `Send` ends.
use altclaw.Common.{
  ℕ, zero, suc, ◌+◌, ◌*◌, ◌≤◌, ◌≡◌, refl, Bool, true, false, List, [], ◌∷◌, ◌++◌, arith, Bytes,
  if◌then◌else◌,
}
use altclaw.Agent.{assistant, text_message}
use altclaw.Agent.Blocks.{Blocks, extract_blocks}
use altclaw.Agent.World.{TokenCounts, World}
use altclaw.Agent.Turn.{
  Agent, iterations_exhausted, Reply, answer, failed, Turn, Step, go, stop, persist_message,
  close_turn, check_stop, exhausted_message,
}
use altclaw.Agent.Turn.Calls.{ask_provider, drain_pending, count_tokens}
use altclaw.Agent.Turn.Exec.{run_blocks, track_small}
use altclaw.Agent.Turn.Feedback.{feed_back}
use altclaw.Agent.Turn.Progress.{
  Extends, Extends-refl, Extends-trans, Extends-of_same, Ends, After, After-trans, After-bind,
  check_stop-After, close_turn_lem, answer-Closes,
}
use altclaw.Agent.Turn.Steps.{
  ask_provider-After, drain_pending-Extends, count_tokens-Extends, finish-After, run_blocks-After,
  feed_back-Extends,
}
use altclaw.Agent.Turn.Loop.{add_tokens, execute, act_on, iterate, exhaust, settle, loop}

module _ (w : World) (a : Agent) where
  fed-Extends :
      (i : ℕ) (response : Bytes) (rs : List Bytes) (t : Turn)
      → Extends 0 t (feed_back w a i response rs (track_small w a rs t))
  fed-Extends i response rs t =
      Extends-trans 0 0 0 t (track_small w a rs t) _ (omega arith)
        (unfold track_small in Extends-of_same t (track_small w a rs t) refl refl refl)
        (feed_back-Extends w a i response rs (track_small w a rs t))

  execute-After :
      (i : ℕ) (code : List Bytes) (response : Bytes) (tc : TokenCounts) (t : Turn)
      → After a 0 t (execute w a i code response tc t)
  unfolding execute
  execute-After i code response tc t =
      let u : Turn = record t { total = add_tokens t.total tc } in
      After-trans a 0 0 0 t u _ (omega arith) (Extends-of_same t u refl refl refl) (
        After-bind a 0 0 0 u (run_blocks w a i 0 code response tc u) _ (omega arith)
          (run_blocks-After w a i 0 code response tc u)
          (λ rs t1.
            After-bind a 0 0 0 t1 (check_stop w a t1) _ (omega arith) (check_stop-After w a t1)
              (λ _ t2. fed-Extends i response rs t2)))

  act_on-After :
      (i : ℕ) (code : List Bytes) (bs : Blocks) (response : Bytes) (tc : TokenCounts) (t : Turn)
      → After a 0 t (act_on w a i code bs response tc t)
  unfolding act_on
  act_on-After i [] bs response tc t = finish-After w a bs response tc t
  act_on-After i (c ∷ cs) bs response tc t = execute-After i (c ∷ cs) response tc t

  responded-After :
      (i : ℕ) (bs : Blocks) (response : Bytes) (tc : TokenCounts) (t : Turn)
      → let t3 : Turn = record t {
        messages = t.messages ++ text_message assistant response ∷ [];
      } in
        After a 0 t (act_on w a i bs.code bs response tc (count_tokens w a tc t3))
  responded-After i bs response tc t =
      let t3 : Turn = record t { messages = t.messages ++ text_message assistant response ∷ [] } in
      After-trans a 0 0 0 t (count_tokens w a tc t3) _ (omega arith)
        (Extends-trans 0 0 0 t t3 _ (omega arith)
          (record { new = _; talk = refl; cost = omega arith; quiet = refl })
          (count_tokens-Extends w a tc t3))
        (act_on-After i bs.code bs response tc (count_tokens w a tc t3))

  pub iterate-After : (i : ℕ) (t : Turn) → After a 3 t (iterate w a i t)
  unfolding iterate
  iterate-After i t =
      After-bind a 0 3 3 t (check_stop w a t) _ (omega arith) (check_stop-After w a t) (λ _ t1.
        After-trans a 0 3 3 t1 (drain_pending w a t1) _ (omega arith) (drain_pending-Extends w a t1)
          (After-bind a 3 0 3 (drain_pending w a t1) (ask_provider w a (drain_pending w a t1)) _
            (omega arith) (ask_provider-After w a (drain_pending w a t1))
            (λ r t2. responded-After i (extract_blocks w.patterns r.0) r.0 r.1 t2)))

  exhausted_by :
      (t : Turn) (sub : Bool)
      → a.is_sub_agent ≡ sub
      → let closed = close_turn a t in
        let end : Reply × Turn = if sub then (failed iterations_exhausted, closed) else (
          answer exhausted_message,
          persist_message a assistant exhausted_message t.total closed,
        ) in
        Ends a 0 t end.0 end.1
  exhausted_by t true e = record {
    last = t;
    extends = Extends-refl 0 t;
    closes = ((close_turn_lem a t).0, (close_turn_lem a t).1, (close_turn_lem a t).2, e);
  }
  exhausted_by t false e = record {
    last = t;
    extends = Extends-refl 0 t;
    closes = answer-Closes a t exhausted_message t.total;
  }

  settle-Ends :
      (m n k : ℕ) (t : Turn) (s : Step (Unit {0})) (next : Turn → Reply × Turn)
      → m + n ≤ k
      → After a m t s
      → ((u : Turn) → Ends a n u (next u).0 (next u).1)
      → Ends a k t (settle w a s next).0 (settle w a s next).1
  settle-Ends m n k t (go x u) next le d e = record {
    last = (e u).last;
    extends = Extends-trans m n k t u (e u).last le d (e u).extends;
    closes = (e u).closes;
  }
  settle-Ends m n k t (stop r u) next le d e = record {
    last = d.last;
    extends = Extends-trans m n k t d.last d.last le d.extends (Extends-refl n d.last);
    closes = d.closes;
  }

  -- The loop always ends, in one of the ways of `Closes`, after at most three calls a round.
  pub loop-Ends :
      (left i : ℕ) (t : Turn) → Ends a (3 * left) t (loop w a left i t).0 (loop w a left i t).1
  unfolding loop
  loop-Ends zero i t = unfold exhaust in exhausted_by t a.is_sub_agent refl
  loop-Ends (suc left) i t =
      settle-Ends 3 (3 * left) (3 * suc left) t (iterate w a i t) (loop w a left (i + 1))
        (omega arith) (iterate-After i t) (loop-Ends left (i + 1))
