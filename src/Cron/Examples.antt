-- ===== src/Cron/Examples.antt =====
-- Runs of the job manager at concrete inputs.
use altclaw.Common.{
  ◌+◌, ◌≤◌, true, false, Option, none, some, List, [], ◌∷◌, codes, text_eq, lookup, insert, remove,
  nat_eq, if◌then◌else◌, ◌≡◌, refl,
}
use altclaw.Cron.{Library, Manager, no_jobs, invalid_schedule, bad_expression, add}
use altclaw.Cron.Steps.{
  Event, adds, removes, expires, runs_one, finishes, passes, restarts, step, run_all,
}
use altclaw.Cron.Adding.{SameJobs, add-invalid}
use altclaw.Cron.Scheduling.{one_shot_runs}
use altclaw.Cron.Once.{run_all-once}

-- A duration is written 5m, a time is its own digits, and the only expression is @daily.
abbrev small_library : Library
small_library = record {
  parse_duration = λ s now. if text_eq s (codes "5m") then some (now + 300) else none;
  parse_in_location = λ f s. none;
  format = λ t. t ∷ [];
  parse = λ s. elim s [ [] ↦ none | t ∷ _ ↦ some t ];
  accepts = λ s. text_eq s (codes "@daily");
}

abbrev one_shot : List Event
one_shot =
    adds 7 (codes "5m") (codes "hi") false true true
    ∷ passes 300
    ∷ expires 1
    ∷ runs_one 0
    ∷ finishes 0 true
    ∷ []

abbrev reached : Option Manager → Manager
reached none = no_jobs
reached (some s) = s

one_shot_run :
    run_all small_library one_shot no_jobs ≡ some (reached (run_all small_library one_shot no_jobs))
unfolding run_all step lookup insert remove text_eq
one_shot_run = refl

run_all-once_example : one_shot_runs 1 (reached (run_all small_library one_shot no_jobs)).runs ≤ 1
run_all-once_example =
    run_all-once small_library 1 one_shot (reached (run_all small_library one_shot no_jobs)) refl
      one_shot_run

-- It was run, and neither the manager nor the store has it any more.
one_shot_ran : one_shot_runs 1 (reached (run_all small_library one_shot no_jobs)).runs ≡ 1
unfolding run_all step lookup insert remove text_eq
one_shot_ran = refl

one_shot_gone : lookup 1 (reached (run_all small_library one_shot no_jobs)).rows ≡ none
unfolding run_all step lookup insert remove text_eq
one_shot_gone = refl

-- A restart between the run and the end runs it again.
run_again :
    one_shot_runs 1
      (reached (
        run_all small_library
          (adds 7 (codes "5m") (codes "hi") false true true
            ∷ passes 300
            ∷ expires 1
            ∷ runs_one 0
            ∷ restarts
            ∷ runs_one 0
            ∷ [])
          no_jobs)).runs
    ≡ 2
unfolding run_all step lookup insert remove text_eq
run_again = refl

-- A job that is removed while it runs is gone, and its end changes nothing.
removed_while_running :
    lookup 1
      (reached (
        run_all small_library
          (adds 7 (codes "5m") (codes "hi") false true true
            ∷ passes 300
            ∷ expires 1
            ∷ runs_one 0
            ∷ removes 1 true
            ∷ finishes 0 true
            ∷ [])
          no_jobs)).entries
    ≡ none
unfolding run_all step lookup insert remove text_eq
removed_while_running = refl

bad_schedule :
    (add small_library 7 (codes "often") (codes "hi") false true true no_jobs).0
    ≡ invalid_schedule bad_expression
unfolding add text_eq
bad_schedule = refl

add-invalid_example :
    SameJobs no_jobs (add small_library 7 (codes "often") (codes "hi") false true true no_jobs).1
unfolding lookup
add-invalid_example =
    add-invalid small_library 7 (codes "often") (codes "hi") false no_jobs bad_expression refl refl
      bad_schedule
