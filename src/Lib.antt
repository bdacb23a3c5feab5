-- ===== src/Lib.antt =====
-- Verification of the core of the Aurora client, executor and Thermos.
--
-- Thermos runs the processes of a task. `Thermos` models seven of its parts:
--  * Thermos/Planner is class `Planner` of src/main/python/apache/thermos/common/planner.py: which
--    process may run, by its dependencies. Python's sets and dicts are the lists of Base/Sets and
--    Base/Dicts; a method whose assertion fails returns an error. The loop of `satisfiable` runs on
--    fuel: one round more than there are processes, which is shown to be enough.
--  * Thermos/TaskPlanner is class `TaskPlanner` of the same file, on top of `Planner`: dependencies
--    from the constraints of a task, throttling, limits on failures and on runs.
--  * Thermos/Ckpt is src/main/python/apache/thermos/common/ckpt.py: `CheckpointDispatcher` applies
--    the records of a checkpoint to the state of a runner and calls handlers. The fields come from
--    api/src/main/thrift/org/apache/thermos/thermos_internal.thrift. A record file is the list of
--    the records that its reader yields, with whether it ends in a reader's error.
--  * Thermos/Runner is the decisions of `TaskRunner` of src/main/python/apache/thermos/core/runner.py
--    on its plans: deadlock, health, the time left, and the stages of a task. Below it, Handlers is
--    `TaskRunnerProcessHandler` with the multiplexer of Thermos/Muxer and `kill_process` of
--    Thermos/Helper (whether a `Process` is made is a parameter), Status is `_set_process_status` and
--    `is_process_lost`, and Loop is `TaskRunnerTaskHandler` and `kill`, with the transitions of `_run`.
--  * Thermos/Helper is src/main/python/apache/thermos/core/helper.py: `kill` of a task from the
--    outside, which signals its processes and ends its checkpoint. What psutil says of a pid is a
--    parameter; the lock, the files of the task and the clocks are one record, `Host`. That the
--    records it writes are read again is shown with Thermos/Ckpt.
--  * Thermos/Muxer is src/main/python/apache/thermos/core/muxer.py: `ProcessMuxer` reads the
--    checkpoints of the processes of a runner. A file is the list of the records that can be read,
--    a position in it a number of records.
--  * Thermos/RotatingLog is `RotatingFileHandler` of src/main/python/apache/thermos/core/process.py:
--    the log of a process with its numbered backups, as a function from suffixes to bytes.
--
-- The executor reports the state of a task to Mesos. `Executor` models how it is found:
--  * Executor/Status is src/main/python/apache/aurora/executor/common/status_checker.py and
--    kill_manager.py beside it: a chain of checkers and the kill switch. The values of the Mesos
--    enum `TaskState` are a parameter, of which only the inequality of four values is assumed.
--  * Executor/Health is `ThreadedHealthChecker`, and `HealthChecker.status`, of
--    src/main/python/apache/aurora/executor/common/health_checker.py. The thread is a fold over its
--    probes: what the snooze file and the check say at each turn.
--  * Executor/StatusManager is src/main/python/apache/aurora/executor/status_manager.py, the loop that
--    polls a chain of Executor/Status and calls back, and the disk check of resource_manager.py in
--    common beside it.
--
-- The client updates, restarts and watches jobs:
--  * Client/Updater is src/main/python/apache/aurora/client/api/updater_util.py: the checks of
--    `UpdaterConfig`, the ranges of instances, and the counts of `FailureThreshold`. Its Settings are
--    `to_thrift_update_settings`, with `create_update_strategy_config` of
--    src/main/python/apache/aurora/config/thrift.py; the attribute `groupSize` is a parameter.
--  * Client/Watcher is instance_watcher.py and health_check.py beside it. The scheduler and the clock
--    are a list of polls, which ends where the watch is terminated.
--  * Client/Restarter is restarter.py beside it: a rolling restart, with `FailureThreshold` of
--    Client/Updater; what the scheduler and the watcher answer for each batch is a list.
--  * Client/Monitor is job_monitor.py beside it, over a list of polls as well.
--  * Common/JobKey is src/main/python/apache/aurora/common/aurora_job_key.py: the path of a job, its
--    order and its form in thrift. The characters that `\w` matches are a parameter, of which only
--    that '/' is none of them is used.
--  * Common/PortResolver is src/main/python/apache/aurora/config/port_resolver.py: the aliases of a map
--    of ports. `int(text)` is a parameter. Its loop runs on fuel, one round more than there are ports,
--    which is shown to be enough.
--  * Client/Scheduler is `SchedulerProxy` and `_connect_scheduler` of
--    src/main/python/apache/aurora/client/api/scheduler_client.py: the retries of a call. A turn of
--    its loop is a record: the connection, the replies to the method, the time that passes and whether
--    the terminating event is set. The call keeps the clock and the event, which is never cleared: it
--    has 600 seconds and waits 5 between two attempts. A method that raises TypeError is invoked again
--    with one more `None`, as long as parameters are missing.
--  * Client/Sla is src/main/python/apache/aurora/client/api/sla.py: uptimes and waits of a job, below
--    it Domain for the hosts that can go down and Query for the calls to the scheduler. Percentages
--    are whole numbers, uptimes whole seconds, events in milliseconds; a share of instances is a
--    fraction, and the one product of floats that is floored is the parameter `scaled`.
--  * Client/Grouping is the grouping of hosts of src/main/python/apache/aurora/client/base.py.
--
-- `Admin` models the maintenance of hosts:
--  * Admin/Maintenance is src/main/python/apache/aurora/admin/host_maintenance.py, with
--    `format_sla_results` of admin_util.py beside it, on top of Client/Sla and Client/Grouping. The
--    scheduler is a record of its answers at each time. The wait for drained hosts has fuel for 61
--    polls: it stops by itself after 60, which is shown.
--
-- A list of polls or answers takes the place of fuel: a loop that runs out of them is terminated or
-- waiting, which its result says.
--
-- Base holds the shared helpers: tests, lists, keys with decidable equality, results, integers over
-- the native numbers, sets and dicts. Numbers are unbounded as in Python; times are integers of one
-- unit. `TaskPlanner.TOTAL_RUN_LIMIT` and `INFINITY` have their values.
--
-- Not modelled: the file system, forks, threads, HTTP, ZooKeeper, logging and the command lines, the
-- pystachio schemas, the observer, and the runner's passes over a plan, which use the parts above.
pub mod Base
pub mod Thermos
pub mod Executor
pub mod Client
pub mod Common
pub mod Admin
