-- ===== src/Thermos/Runner/Samples.antt =====
-- A runner on which the theorems are run, with tests.
use aurora_client.Base.Int.{◌+ℤ◌}
use aurora_client.Thermos.Runner.Loop.{Machine, regular_plan, on_task, begin_cleaning, kill}
use aurora_client.Thermos.Ckpt.{active, task_lost}
use aurora_client.Base.{
  true, false, ◌≡◌, refl, false, none, some, List, [], ◌∷◌, ok, take, string_eq,
}
use aurora_client.Base.Int.{pos, ◌-ℤ◌}
use aurora_client.Thermos.TaskPlanner.Samples.{fresh_task, fresh-IsSound}
use aurora_client.Thermos.Planner.{Name}
use aurora_client.Thermos.Planner.Samples.{abc}
use aurora_client.Thermos.Ckpt.{cleaning, task_killed}
use aurora_client.Thermos.Runner.{
  Runner, finalization_remaining, deadlocked, pick_processes, terminal_state, transition_to,
}
use aurora_client.Thermos.Runner.Healthy.{deadlocked-free}
use aurora_client.Base.Dicts.{get}
use aurora_client.Thermos.Ckpt.{beq_key, key_eq}
use aurora_client.Thermos.Ckpt.Samples.{forked_state, forked_run}
use aurora_client.Thermos.Runner.Status.{current_process_run, is_process_lost}

abbrev runner : Runner
runner = record {
  regular_plan = fresh_task;
  finalizing_plan = fresh_task;
  max_failures = 1;
  max_concurrency = 2;
  finalization_wait = pos 30;
  finalization_start = some (pos 100);
  preemption_deadline = none;
  forced_state = some task_killed;
}

time_left : finalization_remaining runner (pos 110) ≡ pos 20
unfolding finalization_remaining ◌-ℤ◌
time_left = refl

deadlocked-free_example : deadlocked fresh_task (pos 0) ≡ ok false
deadlocked-free_example = deadlocked-free fresh_task fresh-IsSound refl (pos 0)

abbrev one_running : List Name
one_running = "x" ∷ []

picks_one : pick_processes 2 one_running abc ≡ "a" ∷ []
unfolding pick_processes take
picks_one = refl

-- Past the finalization wait the stage FINALIZING is left out.
too_late : transition_to runner (pos 130) cleaning ≡ some (ok task_killed)
unfolding transition_to terminal_state finalization_remaining ◌-ℤ◌
too_late = refl

main_known :
    get forked_state.processes (some "main") ≡ some (record { earlier = []; current = forked_run })
unfolding get beq_key
main_known = refl

-- The process was forked at 100 and has not come up in more than a minute.
never_came_up : is_process_lost forked_state "main" (pos 161) none false ≡ ok true
unfolding is_process_lost current_process_run get beq_key ◌-ℤ◌
never_came_up = refl

abbrev machine : Machine
machine = record { runner = runner; plan = some regular_plan; recovery = false }

abbrev killed_machine : Machine
killed_machine = record machine {
  runner = record runner {
    preemption_deadline = some (pos 160);
    forced_state = some task_lost;
    finalization_start = some (pos 100);
  };
}

kill_starts : kill machine active (pos 100) (pos 60) task_lost ≡ some (killed_machine, cleaning)
unfolding kill begin_cleaning on_task ◌+ℤ◌
kill_starts = refl
