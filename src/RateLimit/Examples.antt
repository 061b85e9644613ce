-- ===== src/RateLimit/Examples.antt =====
-- Three requests at a limit of two, for a key and another one.
use altclaw.Common.{
  ◌≤◌, ◌≡◌, refl, List, [], ◌∷◌, ◌+◌, codes, arith, length, keep, text_eq, lookup, insert, remove,
}
use altclaw.RateLimit.{minute, is_recent, allowed, rate_exceeded, timestamps, admit, allow}
use altclaw.RateLimit.Refines.{Request, run, spec_run, run-refines}
use altclaw.RateLimit.Bounded.{passed, run-bounded}

abbrev burst : List Request
burst =
    (1, codes "ws", 2)
    ∷ (2, codes "ws", 2)
    ∷ (3, codes "ws", 2)
    ∷ (3, codes "api", 1)
    ∷ (minute + 2, codes "ws", 2)
    ∷ []

run_burst : run [] burst ≡ allowed ∷ allowed ∷ rate_exceeded 2 (codes "ws") ∷ allowed ∷ allowed ∷ []
unfolding run allow admit timestamps lookup insert remove text_eq
run_burst = refl

run-refines_example : run [] burst ≡ spec_run [] burst
run-refines_example = run-refines burst (omega arith)

run-bounded_example :
    length (keep (is_recent (minute + 2)) (passed (codes "ws") burst (run [] burst))) ≤ 2
run-bounded_example =
    run-bounded (codes "ws") 2 (minute + 2) burst (omega arith) (ground arith) (omega arith)
