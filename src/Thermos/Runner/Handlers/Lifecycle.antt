-- ===== src/Thermos/Runner/Handlers/Lifecycle.antt =====
-- The life of a process from its launch to its end, as the plan sees it.
use mathlib.Core.Option
use aurora_client.Base.{
  ◌≡◌, Bool, true, false, Option, none, some, List, [], ◌∷◌, arith, string_eq, ==_iff, ok,
  Bool-cases, inl, inr,
}
use aurora_client.Base.Int.{ℤ, pos, ◌+ℤ◌, ◌-ℤ◌}
use aurora_client.Base.Sets.{member, add, member-add}
use aurora_client.Base.Dicts.{get, put, has, get-put_self}
use aurora_client.Thermos.Planner
use aurora_client.Thermos.Planner.{Name, Error, assertion_error, runnable, Planner, runs, apply}
use aurora_client.Thermos.Planner.Runnable.{member-runnable}
use aurora_client.Thermos.Planner.Invariant.{IsValid, apply-IsValid}
use aurora_client.Thermos.Planner.Phases
use aurora_client.Thermos.Planner.Phases.{phase}
use aurora_client.Thermos.TaskPlanner.Outcome.{report_outcomes}
use aurora_client.Thermos.TaskPlanner
use aurora_client.Thermos.TaskPlanner.{
  TaskPlanner, Outcome, TaskAttributes, add_failure, failure_transition, has_reached_run_limit,
}
use aurora_client.Thermos.Ckpt.{
  ProcessState, waiting, forked, running, success, killed, failed, RunnerHeader, Runs, key_eq,
}
use aurora_client.Thermos.Helper.{Signal}
use aurora_client.Thermos.Helper.Consistent.{IsReadable}
use aurora_client.Thermos.Helper.Killing.{kill_process_accepted}
use aurora_client.Thermos.Muxer.{register, unregister}
use aurora_client.Thermos.Runner.Handlers.{
  of_plan, Live, Around, Event, make_process, on_waiting, cleanup, forget, ended, on_process,
  on_all,
}

-- A failure report on a process that is not running in the plan raises an AssertionError.
add_failure_idle :
    (t : TaskPlanner) (k : Name) (a : TaskAttributes) (now : ℤ)
    → get t.attributes k ≡ some a
    → member k t.planner.running ≡ false
    → (add_failure t k now).1 ≡ some assertion_error
unfolding add_failure failure_transition has_reached_run_limit Planner.reset Planner.set_finished
    Planner.set_failed
add_failure_idle t k a now known idle = ground arith

-- What `_cleanup` of a process finds: in recovery nothing is killed; otherwise the state has a header and
-- keeps the pids of the runs with their times.
pub record IsKnown (a : Around) (k : Name) : Type 0 where
  pub readable : IsReadable a.state
  pub header : RunnerHeader
  pub begun_with : a.state.header ≡ some header
  pub runs : Runs
  pub listed : get a.state.processes (some k) ≡ some runs

cleanup_accepted :
    (a : Around) (k : Name) → IsKnown a k → (sent : List Signal) × (cleanup a k ≡ ok sent)
unfolding cleanup
cleanup_accepted a k h = elim (Bool-cases a.recovery) [
  | inl replayed ↦ ([], ground (arith, replayed))
  | inr live ↦
      let (found, e) =
        kill_process_accepted a.platform h.header (some k) h.runs.current
          (h.readable.runs (some k) h.runs h.listed) in
      (found.1, ground (arith, live, e, h.begun_with, h.listed))
]

-- What a process has that is to begin: the multiplexer does not know it, and a `Process` is made of it.
pub record IsFresh (a : Around) (l : Live) (k : Name) : Type 0 where
  pub unwatched : get l.watcher k ≡ none
  pub makes : make_process a k ≡ none

-- What the handlers know of a process that is under way.
abbrev listed : Live → Name → ℤ → Live
listed l k seq = record l {
  task_processes = add k l.task_processes;
  watcher = put l.watcher k (record { fp = none; watermark = seq -ℤ pos 1 });
}

wait_accepted :
    (a : Around) (l : Live) (k : Name) (seq : ℤ)
    → IsFresh a l k
    → on_waiting a l k (some seq) ≡ (listed l k seq, none)
unfolding on_waiting register
wait_accepted a l k seq h = ground (arith, h.makes, h.unwatched)

is_listed : (l : Live) (k : Name) → member k (add k l.task_processes) ≡ true
is_listed l k = ground (arith, member-add k l.task_processes k, ==_iff k k)

-- The end of a process that is listed comes to the report of its plan.
ended_accepted :
    (a : Around) (l : Live) (k : Name) (report : TaskPlanner → Outcome)
    → IsKnown a k
    → member k l.task_processes ≡ true
    → has l.watcher k ≡ true
    → (ended a l k report).1 ≡ Option.map of_plan (report l.plan).1
unfolding ended forget unregister
ended_accepted a l k report h there watched =
    let (sent, e) = cleanup_accepted a k h in ground (arith, e, there, watched)

watched_listed : (l : Live) (k : Name) (seq : ℤ) → has (listed l k seq).watcher k ≡ true
watched_listed l k seq =
    ground (arith, get-put_self l.watcher k (record { fp = none; watermark = seq -ℤ pos 1 }))

abbrev event : Around → Option ℤ → ℤ → ProcessState → Event
event a seq now to = record { around = a; seq = seq; now = now; to = to }

-- Where a process cannot be launched the runner takes it from WAITING to FAILED. For a process that
-- the plan offers as runnable this raises an AssertionError: the plan only counts failures of
-- processes that it knows as running, which they are from FORKED on.
pub launch_fails :
    (l : Live) (k : Name) (t : TaskAttributes) (a b : Around) (seq now later : ℤ)
    → get l.plan.attributes k ≡ some t
    → member k (runnable l.plan.planner) ≡ true
    → IsFresh a l k
    → IsKnown b k
    → (on_all l k
        (event a (some seq) now waiting ∷ event b (some (seq +ℤ pos 1)) later failed ∷ [])).1
      ≡ some (of_plan assertion_error)
unfolding on_all on_process
launch_fails l k t a b seq now later known offered fresh_ there = ground (
  arith,
  wait_accepted a l k seq fresh_,
  ended_accepted b (listed l k seq) k (λ plan. add_failure plan k later) there (is_listed l k)
      (watched_listed l k seq),
  add_failure_idle l.plan k t later known,
  member-runnable l.plan.planner k,
)

-- The last state of a process run.
abbrev pub ends_run : ProcessState → Bool
ends_run success = true
ends_run failed = true
ends_run ProcessState.lost = true
ends_run killed = true
ends_run _ = false

module _ (p : Planner) (v : IsValid p) (k : Name) (offered : member k (runnable p) ≡ true) where
  abbrev begun : Planner
  begun = record p { running = add k p.running }

  abbrev begun_again : Planner
  begun_again = record begun { running = add k begun.running }

  first_start : Planner.set_running p k ≡ ok begun
  unfolding Planner.set_running
  first_start = ground (arith, member-runnable p k)

  second_start : Planner.set_running begun k ≡ ok begun_again
  unfolding Planner.set_running
  second_start = ground (arith, member-runnable p k, member-add k p.running k, ==_iff k k)

  begun-IsValid : IsValid begun
  begun-IsValid = apply-IsValid p (runs k) v (unfold apply in first_start)

  begun_again-IsValid : IsValid begun_again
  begun_again-IsValid = apply-IsValid begun (runs k) begun-IsValid (unfold apply in second_start)

  is_up : phase begun_again k ≡ Phases.running
  unfolding phase
  is_up = ground (
    arith,
    begun_again-IsValid.run_fin k,
    begun_again-IsValid.run_fail k,
    member-add k begun.running k,
    ==_iff k k,
  )

-- The four transitions of a process, each with what its handler reads.
pub record Life : Type 0 where
  pub at_waiting : Around
  pub at_forked : Around
  pub at_running : Around
  pub at_end : Around
  pub seq : ℤ
  pub now : ℤ
  pub last : ProcessState

abbrev pub events : Life → List Event
events life =
    event life.at_waiting (some life.seq) life.now waiting
    ∷ event life.at_forked (some (life.seq +ℤ pos 1)) life.now forked
    ∷ event life.at_running (some (life.seq +ℤ pos 2)) life.now running
    ∷ event life.at_end (some (life.seq +ℤ pos 3)) life.now life.last
    ∷ []

module _ (l : Live) (k : Name) (a : TaskAttributes) (v : IsValid l.plan.planner)
    (known : get l.plan.attributes k ≡ some a) (offered : member k (runnable l.plan.planner) ≡ true)
    (life : Life) where
  abbrev waiting_live : Live
  waiting_live = listed l k life.seq

  abbrev forked_live : Live
  forked_live = record waiting_live {
    plan = record l.plan { planner = begun l.plan.planner v k offered };
  }

  abbrev running_live : Live
  running_live = record waiting_live {
    plan = record l.plan { planner = begun_again l.plan.planner v k offered };
  }

  wait_process :
      IsFresh life.at_waiting l k
      → on_process life.at_waiting l k (some life.seq) life.now waiting ≡ (waiting_live, none)
  unfolding on_process
  wait_process fresh_ = wait_accepted life.at_waiting l k life.seq fresh_

  fork_accepted :
      (b : Around) (seq : Option ℤ)
      → on_process b waiting_live k seq life.now forked ≡ (forked_live, none)
  unfolding on_process TaskPlanner.set_running
  fork_accepted b seq = ground (arith, is_listed l k, first_start l.plan.planner v k offered)

  run_accepted :
      (b : Around) (seq : Option ℤ)
      → on_process b forked_live k seq life.now running ≡ (running_live, none)
  unfolding on_process TaskPlanner.set_running
  run_accepted b seq = ground (arith, second_start l.plan.planner v k offered)

  end_accepted :
      (b : Around) (seq : Option ℤ) (last : ProcessState)
      → IsKnown b k
      → ends_run last ≡ true
      → (on_process b running_live k seq life.now last).1 ≡ none
  unfolding on_process
  end_accepted b seq last there e =
      let p = l.plan.planner in
      let (on_failure, on_success, on_loss) =
        report_outcomes running_live.plan (begun_again-IsValid p v k offered) k
          (is_up p v k offered) a known life.now in
      let reported = λ (report : TaskPlanner → Outcome).
        ended_accepted b running_live k report there (is_listed l k)
          (watched_listed l k life.seq) in
      by_state last e on_failure.0 on_success.0 on_loss.0 reported
    where
      by_state :
          (last : ProcessState)
          → ends_run last ≡ true
          → (TaskPlanner.add_failure running_live.plan k life.now).1 ≡ none
          → (TaskPlanner.add_success running_live.plan k life.now).1 ≡ none
          → (TaskPlanner.lost running_live.plan k life.now).1 ≡ none
          → ((report : TaskPlanner → Outcome)
              → (ended b running_live k report).1 ≡ Option.map of_plan (report running_live.plan).1)
          → (on_process b running_live k seq life.now last).1 ≡ none
      by_state success e f g h r =
          ground (arith, r (λ plan. TaskPlanner.add_success plan k life.now), g)
      by_state failed e f g h r =
          ground (arith, r (λ plan. TaskPlanner.add_failure plan k life.now), f)
      by_state ProcessState.lost e f g h r =
          ground (arith, r (λ plan. TaskPlanner.lost plan k life.now), h)
      by_state killed e f g h r = ground (arith, r (λ plan. TaskPlanner.lost plan k life.now), h)
      by_state waiting e f g h r = cc
      by_state forked e f g h r = cc
      by_state running e f g h r = cc

  -- Let the multiplexer not know a process yet, a `Process` be made of it, and the state of the runner
  -- at its end have a header, the process, and in every current run the fields of its state. When the
  -- plan offers the process as runnable, it goes from WAITING over FORKED and RUNNING to any of its four
  -- ends, and no handler on the way raises, neither for the plan nor for the multiplexer, the table of
  -- processes or a kill.
  pub life_accepted :
      IsFresh life.at_waiting l k
      → IsKnown life.at_end k
      → ends_run life.last ≡ true
      → (on_all l k (events life)).1 ≡ none
  unfolding on_all
  life_accepted fresh_ there e = ground (
    arith,
    wait_process fresh_,
    fork_accepted life.at_forked (some (life.seq +ℤ pos 1)),
    run_accepted life.at_running (some (life.seq +ℤ pos 2)),
    end_accepted life.at_end (some (life.seq +ℤ pos 3)) life.last there e,
  )
