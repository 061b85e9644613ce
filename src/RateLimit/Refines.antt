-- ===== src/RateLimit/Refines.antt =====
-- The limiter, which forgets expired events, against the contract over the whole history.
use altclaw.Common.{
  ℕ, zero, suc, ◌≤◌, ◌≡◌, refl, sym, ◌∙◌, ap, subst, ap₂, append-nil, lookup, false, List, [], ◌∷◌,
  arith, Bytes, if◌then◌else◌, keep, keep-append, text_eq, text_eq_iff, lookup-insert, insert,
  bytes_eq, Bool-cases, inl, inr,
}
use altclaw.RateLimit.{Limiter, is_recent, Verdict, timestamps, admit, allow}
use altclaw.RateLimit.History.{History, times_of, spec_allow, times_of-append, keep_recent_later}

-- At `now` and later the limiter remembers what the history holds.
pub Agrees : ℕ → Limiter → History → Type 0
Agrees now l h =
    (key : Bytes) → keep (is_recent now) (timestamps l key) ≡ keep (is_recent now) (times_of key h)

Agrees-later :
    (now later : ℕ) (l : Limiter) (h : History) → now ≤ later → Agrees now l h → Agrees later l h
unfolding Agrees
Agrees-later now later l h le a key =
    sym (keep_recent_later now later (timestamps l key) le)
    ∙ ap (keep (is_recent later)) (a key)
    ∙ keep_recent_later now later (times_of key h) le

timestamps-insert :
    (l : Limiter) (key j : Bytes) (ts : List ℕ)
    → timestamps (insert key ts l) j ≡ (if text_eq key j then ts else timestamps l j)
unfolding timestamps
timestamps-insert l key j ts = ground (arith, lookup-insert key j ts l)

module _ (now : ℕ) (key : Bytes) (l : Limiter) (h : History) (a : Agrees now l h) where
  -- At equal times the limiter answers as the contract does.
  allow-verdict : (n : ℕ) → (allow l now key n).1 ≡ (spec_allow h now key n).1
  unfolding allow admit spec_allow Agrees
  allow-verdict zero = refl
  allow-verdict (suc n) = ground (arith, a key)

  admit-recent :
      (n : ℕ)
      → keep (is_recent now) (admit now (suc n) key (timestamps l key)).0
        ≡ keep (is_recent now) (times_of key (spec_allow h now key (suc n)).0)
  unfolding admit spec_allow Agrees
  admit-recent n = ground (
    arith,
    a key,
    text_eq_iff key key,
    keep_recent_later now now (timestamps l key),
    times_of-append key h ((key, now) ∷ []),
    keep-append (is_recent now) (keep (is_recent now) (timestamps l key)) (now ∷ []),
    keep-append (is_recent now) (times_of key h) (now ∷ []),
  )

  times_of-spec_allow :
      (j : Bytes) (n : ℕ)
      → text_eq key j ≡ false
      → times_of j (spec_allow h now key n).0 ≡ times_of j h
  unfolding spec_allow
  times_of-spec_allow j zero other = refl
  times_of-spec_allow j (suc n) other =
      ground (arith, times_of-append j h ((key, now) ∷ []), append-nil (times_of j h))

  allow-Agrees : (n : ℕ) → Agrees now (allow l now key n).0 (spec_allow h now key n).0
  unfolding Agrees allow
  allow-Agrees zero j = unfold spec_allow in a j
  allow-Agrees (suc n) j = elim (Bool-cases (text_eq key j)) [
    | inl same ↦ rw timestamps-insert (
        rw same (
          subst
            (λ k.
              keep (is_recent now) (admit now (suc n) key (timestamps l key)).0
              ≡ keep (is_recent now) (times_of k (spec_allow h now key (suc n)).0))
            ((text_eq_iff key j).0 same) (admit-recent n)))
    | inr other ↦ rw timestamps-insert (rw other (rw (times_of-spec_allow j (suc n) other) (a j)))
  ]

-- A request: its time, its key and the limit asked for.
abbrev pub Request : Type 0
Request = ℕ × Bytes × ℕ

unfoldable pub run : Limiter → List Request → List Verdict
run l [] = []
run l ((now, key, limit) ∷ rs) = let (l', v) = allow l now key limit in v ∷ run l' rs

unfoldable pub spec_run : History → List Request → List Verdict
spec_run h [] = []
spec_run h ((now, key, limit) ∷ rs) = let (h', v) = spec_allow h now key limit in v ∷ spec_run h' rs

-- The clock does not go back.
abbrev pub IsOrdered : ℕ → List Request → Type 0
IsOrdered since [] = Unit
IsOrdered since ((now, key, limit) ∷ rs) = (since ≤ now) × IsOrdered now rs

run_from-refines :
    (since : ℕ) (l : Limiter) (h : History) (rs : List Request)
    → IsOrdered since rs
    → Agrees since l h
    → run l rs ≡ spec_run h rs
unfolding run spec_run
run_from-refines since l h [] _ _ = refl
run_from-refines since l h ((now, key, limit) ∷ rs) (le, o) a =
    let b = Agrees-later since now l h le a in
    ap₂ (λ v vs. v ∷ vs) (allow-verdict now key l h b limit)
      (run_from-refines now _ _ rs o (allow-Agrees now key l h b limit))

-- With a clock that does not go back, the limiter, which drops what has expired, answers every
-- sequence of requests for any keys and limits as the contract over the full history does: a
-- request passes exactly if fewer than its limit passed for its key in the last minute.
pub run-refines : (rs : List Request) → IsOrdered 0 rs → run [] rs ≡ spec_run [] rs
unfolding Agrees timestamps lookup
run-refines rs o = run_from-refines 0 [] [] rs o (λ key. refl)
