-- ===== src/Tasks/Examples.antt =====
-- Runs of the task queues at concrete inputs.
use altclaw.Common.{
  ℕ, ◌≤◌, ◌<◌, true, false, Option, none, some, List, [], ◌∷◌, all, codes, lookup, insert, remove,
  bytes_eq, text_eq, ◌≡◌, refl, arith, length,
}
use altclaw.Tasks.{
  value, Phase, waiting, running, settled, Task, Tasks, no_tasks, Event, runs, starts, finishes,
  step, run_all, done, returned,
}
use altclaw.Tasks.Placed.{running_in}
use altclaw.Tasks.Progress.{work_of, is_goroutine, step-work}
use altclaw.Tasks.Finishing.{IsAtRest, run_all-finishes}
use altclaw.Tasks.Queues.{run_all-queue_bounded}
use altclaw.Tasks.Settling.{run_all-settles}

-- Three tasks on a queue of two slots; two of them run, and the first is finished.
abbrev three : List Event
three =
    runs (some (codes "q", some 2))
    ∷ runs (some (codes "q", some 2))
    ∷ runs (some (codes "q", some 2))
    ∷ starts 0
    ∷ starts 1
    ∷ []

abbrev task_of : Phase → Task
task_of p = record {
  name = some (codes "q");
  channel = some 0;
  phase = p;
  is_cancelled = false;
  has_handle = true;
}

abbrev three_after : Tasks
three_after = record {
  tasks = task_of running ∷ task_of running ∷ task_of waiting ∷ [];
  channels = record { limit = 2; held = 2 } ∷ [];
  queues = (codes "q", 0) ∷ [];
  is_stopped = false;
}

three_run : run_all three no_tasks ≡ some three_after
unfolding run_all step lookup insert remove text_eq
three_run = refl

-- The third waits for a slot.
third_waits : step (starts 2) three_after ≡ none
unfolding step
third_waits = refl

run_all-queue_bounded_example : running_in (codes "q") three_after.tasks ≤ 2
unfolding text_eq
run_all-queue_bounded_example = run_all-queue_bounded (codes "q") 2 three three_after refl three_run

abbrev rest : List Event
rest =
    finishes 0 (value (codes "1"))
    ∷ starts 2
    ∷ finishes 2 (value (codes "2"))
    ∷ finishes 1 (value [])
    ∷ []

abbrev rest_after : Tasks
rest_after = record three_after {
  tasks =
      task_of (settled (value (codes "1")))
      ∷ task_of (settled (value []))
      ∷ task_of (settled (value (codes "2")))
      ∷ [];
  channels = record { limit = 2; held = 0 } ∷ [];
}

rest_run : run_all rest three_after ≡ some rest_after
unfolding run_all step
rest_run = refl

run_all-settles_example :
    (fs : List Event) × (s' : Tasks) × (all is_goroutine fs ≡ true)
    × (run_all fs three_after ≡ some s')
    × (work_of s'.tasks ≡ 0)
run_all-settles_example = run_all-settles three three_after three_run

at_rest : IsAtRest rest_after
at_rest e u g h =
    let less : work_of u.tasks < 0 = step-work e rest_after u g h in absurd (omega (arith, less))

run_all-finishes_example :
    (work_of rest_after.tasks ≡ 0) × (length rest ≤ work_of three_after.tasks)
run_all-finishes_example =
    run_all-finishes three rest three_after rest_after three_run refl rest_run at_rest

-- An outcome is returned once.
done_twice : (done 0 rest_after).0 ≡ returned (value (codes "1"))
unfolding done
done_twice = refl

-- With another limit the queue gets another channel: three tasks run, under limits 1 and 2.
abbrev other_limit : List Event
other_limit =
    runs (some (codes "q", none))
    ∷ starts 0
    ∷ runs (some (codes "q", some 2))
    ∷ runs (some (codes "q", some 2))
    ∷ starts 1
    ∷ starts 2
    ∷ []

abbrev running_after : Option Tasks → ℕ
running_after none = 0
running_after (some s) = running_in (codes "q") s.tasks

other_limit_runs_three : running_after (run_all other_limit no_tasks) ≡ 3
unfolding run_all step lookup insert remove text_eq
other_limit_runs_three = refl
