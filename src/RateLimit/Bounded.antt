-- ===== src/RateLimit/Bounded.antt =====
-- How many events the limiter lets through in a minute.
use altclaw.Common.{
  ℕ, zero, suc, ◌≤◌, ◌<◌, ◌≡◌, subst, Bool, true, false, List, [], ◌∷◌, ◌++◌, arith, Bytes,
  if◌then◌else◌, length, keep, keep-append, text_eq, text_eq_iff, append_assoc, append-nil,
  length-append, length-keep, ◌&&◌,
}
use altclaw.RateLimit.{is_recent, Verdict, allowed, rate_exceeded}
use altclaw.RateLimit.History.{
  History, times_of, recent_count, spec_allow, times_of-append, keep_recent_later,
}
use altclaw.RateLimit.Refines.{Request, run, spec_run, IsOrdered, run-refines}

abbrev is_allowed : Verdict → Bool
is_allowed allowed = true
is_allowed (rate_exceeded _ _) = false

-- The times at which requests for the key were let through.
abbrev pub passed : Bytes → List Request → List Verdict → List ℕ
passed key [] vs = []
passed key ((now, k, limit) ∷ rs) [] = []
passed key ((now, k, limit) ∷ rs) (v ∷ vs) =
    if text_eq k key && is_allowed v then now ∷ passed key rs vs else passed key rs vs

-- Every request for the key states a limit from 1 to `most`.
abbrev pub IsLimited : Bytes → ℕ → List Request → Type 0
IsLimited key most [] = Unit
IsLimited key most ((now, k, limit) ∷ rs) =
    (k ≡ key → (0 < limit) × (limit ≤ most)) × IsLimited key most rs

-- The clock has reached `until` at the end.
abbrev pub EndsBy : ℕ → List Request → Type 0
EndsBy until [] = Unit
EndsBy until ((now, k, limit) ∷ rs) = (now ≤ until) × EndsBy until rs

keep_recent-le :
    (now later : ℕ) (ts : List ℕ)
    → now ≤ later
    → length (keep (is_recent later) ts) ≤ length (keep (is_recent now) ts)
keep_recent-le now later ts h =
    subst (λ us. length us ≤ length (keep (is_recent now) ts)) (keep_recent_later now later ts h)
      (length-keep (is_recent later) (keep (is_recent now) ts))

module _ (key : Bytes) (most : ℕ) where
  spec_allow-count :
      (now : ℕ) (h : History) (k : Bytes) (limit : ℕ)
      → (k ≡ key → (0 < limit) × (limit ≤ most))
      → recent_count now key h ≤ most
      → recent_count now key (spec_allow h now k limit).0 ≤ most
  unfolding spec_allow
  spec_allow-count now h k zero lim c = c
  spec_allow-count now h k (suc n) lim c = ground (
    arith,
    text_eq_iff k key,
    times_of-append key h ((k, now) ∷ []),
    keep-append (is_recent now) (times_of key h) (now ∷ []),
    length-append (keep (is_recent now) (times_of key h)) (now ∷ []),
    append-nil (times_of key h),
  )

  spec_allow-times_of :
      (now : ℕ) (h : History) (k : Bytes) (limit : ℕ) (rs : List Request) (vs : List Verdict)
      → (k ≡ key → (0 < limit) × (limit ≤ most))
      → times_of key (spec_allow h now k limit).0 ++ passed key rs vs
        ≡ times_of key h ++ passed key ((now, k, limit) ∷ rs) ((spec_allow h now k limit).1 ∷ vs)
  unfolding spec_allow
  spec_allow-times_of now h k zero rs vs lim = ground (arith, text_eq_iff k key)
  spec_allow-times_of now h k (suc n) rs vs lim = ground (
    arith,
    times_of-append key h ((k, now) ∷ []),
    append-nil (times_of key h),
    append_assoc (times_of key h) (now ∷ []) (passed key rs vs),
  )

  spec_run-bounded :
      (since until : ℕ) (h : History) (rs : List Request)
      → IsOrdered since rs
      → IsLimited key most rs
      → EndsBy until rs
      → since ≤ until
      → recent_count since key h ≤ most
      → length (keep (is_recent until) (times_of key h ++ passed key rs (spec_run h rs))) ≤ most
  unfolding spec_run
  spec_run-bounded since until h [] _ _ _ le c =
      rw append-nil (omega (arith, keep_recent-le since until (times_of key h) le))
  spec_run-bounded since until h ((now, k, limit) ∷ rs) (later, o) (lim, ls) (e, es) le c =
      let h' = (spec_allow h now k limit).0 in
      let c' =
        spec_allow-count now h k limit lim
          (omega (arith, keep_recent-le since now (times_of key h) later)) in
      subst (λ ts. length (keep (is_recent until) ts) ≤ most)
        (spec_allow-times_of now h k limit rs (spec_run h' rs) lim)
        (spec_run-bounded now until h' rs o ls es e c')

-- If every request for a key states a limit between 1 and `most`, then with a clock that does not
-- go back at most `most` requests for that key are let through in the minute that ends when the
-- sequence has ended, or at any later time.
pub run-bounded :
    (key : Bytes) (most until : ℕ) (rs : List Request)
    → IsOrdered 0 rs
    → IsLimited key most rs
    → EndsBy until rs
    → length (keep (is_recent until) (passed key rs (run [] rs))) ≤ most
run-bounded key most until rs o ls es =
    rw (run-refines rs o)
      (spec_run-bounded key most 0 until [] rs o ls es (omega arith) (omega arith))
