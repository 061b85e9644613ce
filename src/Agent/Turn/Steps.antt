-- ===== src/Agent/Turn/Steps.antt =====
-- Each step of a turn keeps the conversation, stores no chat message, and calls the provider no
-- more often than it may.
use altclaw.Common.{
  ℕ, zero, suc, ◌+◌, refl, sym, ◌∙◌, Option, none, some, List, [], ◌∷◌, ◌||◌, ◌&&◌, not, ◌==◌, ltb,
  arith, Bytes, if◌then◌else◌, append-nil, Option-cases, inl, inr, lookup, nat_eq,
}
use altclaw.Agent.Blocks.{Blocks, MemEntry}
use altclaw.Agent.World.{
  TokenCounts, World, ChatReply, replied, chat_failed, called, counted_tokens, saved_history,
  executed, saved_result, saved_memory,
}
use altclaw.Agent.Turn.{
  Agent, provider_error, failed, Turn, Step, stop, emit, ticked, check_stop, no_tokens,
}
use altclaw.Agent.Turn.Progress.{
  calls-append, stored-append, Extends, Extends-refl, Extends-trans, Extends-of_same, emit-Extends,
  if-Extends, After, After-trans, After-bind, check_stop-After, answer_first-Closes,
}
use altclaw.Agent.Turn.Calls.{
  retry, after_call, attempt, settle_call, ask_provider, drain_pending, count_tokens, save_memories,
  finish, displayed, in_workspace, provider_id, memory_scope,
}
use altclaw.Agent.Turn.Exec.{
  run_block, run_blocks, save_to_history, update_history_result, log_result,
}
use altclaw.Agent.Turn.Feedback.{feed_back}

module _ (w : World) (a : Agent) where
  retry-After :
      (left n : ℕ) (again : Turn → Step ChatReply) (e : Bytes) (t : Turn)
      → ((u : Turn) → After a n u (again u))
      → After a n t (retry w a left again e t)
  unfolding retry
  retry-After zero n again e t h = Extends-refl n t
  retry-After (suc _) n again e t h =
      After-bind a 0 n n t (check_stop w a t) (λ _. again) (omega arith) (check_stop-After w a t)
        (λ _ u. h u)

  after_call-After :
      (left n : ℕ) (again : Turn → Step ChatReply) (r : ChatReply) (t : Turn)
      → ((u : Turn) → After a n u (again u))
      → After a n t (after_call w a left again r t)
  unfolding after_call
  after_call-After left n again (replied r tc) t h = Extends-refl n t
  after_call-After left n again (chat_failed e) t h =
      After-bind a 0 n n t (check_stop w a t) (λ _. retry w a left again e) (omega arith)
        (check_stop-After w a t) (λ _ u. retry-After left n again e u h)

  call-Extends : (t : Turn) → Extends 1 t (ticked (emit (called t.msgs) t))
  call-Extends t = record {
    new = [];
    talk = sym (append-nil _);
    cost = omega (arith, calls-append t.effects (called t.msgs ∷ []));
    quiet = stored-append t.effects (called t.msgs ∷ []) ∙ append-nil _;
  }

  attempt-After : (left : ℕ) (t : Turn) → After a left t (attempt w a left t)
  unfolding attempt
  attempt-After zero t = Extends-refl 0 t
  attempt-After (suc left) t =
      let u = ticked (emit (called t.msgs) t) in
      After-trans a 1 left (suc left) t u
        (after_call w a left (attempt w a left) (w.chat t.tick t.msgs) u) (omega arith)
        (call-Extends t)
        (after_call-After left left (attempt w a left) (w.chat t.tick t.msgs) u
          (attempt-After left))

  settle_call-After : (r : ChatReply) (t : Turn) → After a 0 t (settle_call w a r t)
  unfolding settle_call
  settle_call-After (replied r tc) t = Extends-refl 0 t
  settle_call-After (chat_failed e) t =
      After-bind a 0 0 0 t (check_stop w a t)
        (λ _ u. stop (failed (provider_error (w.sanitize e))) u) (omega arith)
        (check_stop-After w a t)
        (λ _ u. record { last = u; extends = Extends-refl 0 u; closes = (refl, refl, refl) })

  pub ask_provider-After : (t : Turn) → After a 3 t (ask_provider w a t)
  unfolding ask_provider
  ask_provider-After t =
      After-bind a 3 0 3 t (attempt w a 3 t) (settle_call w a) (omega arith) (attempt-After 3 t)
        settle_call-After

  pub drain_pending-Extends : (t : Turn) → Extends 0 t (drain_pending w a t)
  unfolding drain_pending
  drain_pending-Extends t = record { new = _; talk = refl; cost = omega arith; quiet = refl }

  in_workspace-Extends :
      (ws : Option Bytes) (f : Bytes → Turn → Turn) (t : Turn)
      → ((x : Bytes) → Extends 0 t (f x t))
      → Extends 0 t (in_workspace w a ws f t)
  in_workspace-Extends none f t h = Extends-refl 0 t
  in_workspace-Extends (some x) f t h = h x

  pub count_tokens-Extends : (tc : TokenCounts) (t : Turn) → Extends 0 t (count_tokens w a tc t)
  unfolding count_tokens
  count_tokens-Extends tc t =
      if-Extends (a.has_store && (ltb 0 tc.prompt || ltb 0 tc.completion)) t _ t
        (in_workspace-Extends a.workspace
          (λ ws. emit (counted_tokens ws tc (provider_id w a a.provider_cfg))) t
          (λ ws. emit-Extends (counted_tokens ws tc (provider_id w a a.provider_cfg)) t refl refl))
        (Extends-refl 0 t)

  save_memories-Extends :
      (ws : Bytes) (ms : List MemEntry) (t : Turn) → Extends 0 t (save_memories w a ws ms t)
  unfolding save_memories
  save_memories-Extends ws [] t = Extends-refl 0 t
  save_memories-Extends ws (m ∷ ms) t =
      Extends-trans 0 0 0 t _ _ (omega arith)
        (emit-Extends (saved_memory (memory_scope w a ws m.kind) m.kind m.content) t refl refl)
        (save_memories-Extends ws ms _)

  pub finish-After :
      (bs : Blocks) (response : Bytes) (tc : TokenCounts) (t : Turn)
      → After a 0 t (finish w a bs response tc t)
  unfolding finish
  finish-After bs response tc t =
      let t1 =
        if a.has_store
        then in_workspace w a a.workspace (λ ws. save_memories w a ws bs.mem) t
        else t in
      record {
        last = t1;
        extends =
            if-Extends a.has_store t _ t
              (in_workspace-Extends a.workspace (λ ws. save_memories w a ws bs.mem) t
                (λ ws. save_memories-Extends ws bs.mem t))
              (Extends-refl 0 t);
        closes = answer_first-Closes a t1 (displayed w a bs.md response) tc;
      }

  save_to_history-Extends :
      (i j : ℕ) (code response : Bytes) (tc : TokenCounts) (t : Turn)
      → Extends 0 t (save_to_history w a i j code response tc t)
  unfolding save_to_history
  save_to_history-Extends i j code response tc t =
      let row = saved_history i j code response (if j == 0 then tc else no_tokens) in
      let u = if a.has_store then emit row t else t in
      Extends-trans 0 0 0 t u (ticked u) (omega arith)
        (if-Extends a.has_store t (emit row t) t (emit-Extends row t refl refl) (Extends-refl 0 t))
        (Extends-of_same u (ticked u) refl refl refl)

  update_history_result-Extends :
      (id : ℕ) (result : Bytes) (t : Turn) → Extends 0 t (update_history_result w a id result t)
  unfolding update_history_result
  update_history_result-Extends id result t =
      if-Extends (not a.has_store || id == 0) t t _ (Extends-refl 0 t)
        (emit-Extends (saved_result id result) t refl refl)

  log_result-Extends :
      (i j : ℕ) (code result : Bytes) (t : Turn) → Extends 0 t (log_result w a i j code result t)
  unfolding log_result
  log_result-Extends i j code result t = elim (Option-cases (lookup (w.hash result) t.seen)) [
    | inl e ↦ rw e (Extends-of_same t _ refl refl refl)
    | inr (first, e) ↦ rw e (Extends-of_same t _ refl refl refl)
  ]

  -- The run of a block, once it is not cancelled.
  ran-Extends :
      (i j : ℕ) (code response : Bytes) (tc : TokenCounts) (t : Turn) (n id : ℕ) (result : Bytes)
      → let t2 = save_to_history w a i j code response tc t in
        let t3 = ticked (emit (executed code) t2) in
        let t4 = update_history_result w a id result (record t3 { consecutive_errors = n }) in
        Extends 0 t (log_result w a i j code result t4)
  ran-Extends i j code response tc t n id result =
      let t2 = save_to_history w a i j code response tc t in
      let t3 = ticked (emit (executed code) t2) in
      let t3' : Turn = record t3 { consecutive_errors = n } in
      let t4 = update_history_result w a id result t3' in
      Extends-trans 0 0 0 t t2 _ (omega arith) (save_to_history-Extends i j code response tc t) (
        Extends-trans 0 0 0 t2 t3' _ (omega arith)
          (Extends-trans 0 0 0 t2 (emit (executed code) t2) t3' (omega arith)
            (emit-Extends (executed code) t2 refl refl)
            (Extends-of_same (emit (executed code) t2) t3' refl refl refl))
          (Extends-trans 0 0 0 t3' t4 _ (omega arith) (update_history_result-Extends id result t3')
            (log_result-Extends i j code result t4)))

  run_block-After :
      (i j : ℕ) (code response : Bytes) (tc : TokenCounts) (t : Turn)
      → After a 0 t (run_block w a i j code response tc t)
  unfolding run_block
  run_block-After i j code response tc t =
      After-bind a 0 0 0 t (check_stop w a t) _ (omega arith) (check_stop-After w a t)
        (λ _ u. ran-Extends i j code response tc u _ _ _)

  pub run_blocks-After :
      (i j : ℕ) (code : List Bytes) (response : Bytes) (tc : TokenCounts) (t : Turn)
      → After a 0 t (run_blocks w a i j code response tc t)
  unfolding run_blocks
  run_blocks-After i j [] response tc t = Extends-refl 0 t
  run_blocks-After i j (c ∷ cs) response tc t =
      After-bind a 0 0 0 t (run_block w a i j c response tc t) _ (omega arith)
        (run_block-After i j c response tc t)
        (λ r u.
          After-bind a 0 0 0 u (run_blocks w a i (j + 1) cs response tc u) _ (omega arith)
            (run_blocks-After i (j + 1) cs response tc u) (λ rs v. Extends-refl 0 v))

  pub feed_back-Extends :
      (i : ℕ) (response : Bytes) (rs : List Bytes) (t : Turn)
      → Extends 0 t (feed_back w a i response rs t)
  unfolding feed_back
  feed_back-Extends i response rs t = record {
    new = _;
    talk = refl;
    cost = omega arith;
    quiet = refl;
  }
