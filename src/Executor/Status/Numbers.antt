-- ===== src/Executor/Status/Numbers.antt =====
-- Numbers as the values of the Mesos enum `TaskState`, on which the theorems are run.
use aurora_client.Base.{refl, nat_eq, ℕ}
use aurora_client.Executor.Status.{TaskStates}

abbrev pub numbered : TaskStates
numbered = record {
  State = ℕ;
  eq = nat_eq;
  task_starting = 0;
  task_running = 1;
  task_failed = 3;
  task_killed = 4;
  starting_running = refl;
  killed_starting = refl;
  killed_running = refl;
  failed_starting = refl;
  failed_running = refl;
}
