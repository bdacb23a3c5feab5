-- ===== src/Thermos/Helper/Killing.antt =====
-- src/main/python/apache/thermos/core/helper.py: the status that `kill` writes for one process.
use aurora_client.Base.{
  ◌≡◌, refl, Bool, true, false, not, ◌&&◌, ◌||◌, Option, none, some, List, [], arith, is_some,
  Option-cases, Bool-cases, Result-cases, ok, inl, inr,
}
use aurora_client.Base.Int.{ℤ, pos, ◌+ℤ◌}
use aurora_client.Thermos.Planner.{Name}
use aurora_client.Thermos.Ckpt.{
  ProcessState, waiting, forked, running, success, killed, failed, lost, ProcessStatus,
  RunnerHeader, key_eq, update_process_state, advance, terminal, is_state,
}
use aurora_client.Thermos.Helper.{
  Platform, PsProcess, Signal, find_ours, scan_process, kill_process, is_pid, kill_status,
  status_after, killed_status, lost_status,
}
use aurora_client.Thermos.Helper.Consistent.{is_consistent, has_fields}

find_ours_total :
    (platform : Platform) (header : RunnerHeader) (pid time : Option ℤ)
    → (not (is_some pid) || is_some time) ≡ true
    → (found : Option PsProcess) × (find_ours platform header pid time ≡ ok found)
unfolding find_ours
find_ours_total platform header none time h = (none, refl)
find_ours_total platform header (some pid) none h = cc
find_ours_total platform header (some pid) (some time) h =
    elim (Result-cases (find_ours platform header (some pid) (some time))) [
      | inl (found, e) ↦ (found, unfold find_ours in e)
      | inr (e, raised) ↦ absurd (ground (arith, raised))
    ]

-- A run that waits has no pids, so that there is nothing to kill.
kill_waiting :
    (platform : Platform) (header : RunnerHeader) (r : ProcessStatus)
    → has_fields (some waiting) r ≡ true
    → kill_process platform header r ≡ ok (false, [])
unfolding has_fields kill_process scan_process find_ours is_pid
kill_waiting platform header r h = ground arith

kill_started :
    (platform : Platform) (header : RunnerHeader) (r : ProcessStatus)
    → (not (is_some r.coordinator_pid) || is_some r.fork_time) ≡ true
    → (not (is_some r.pid) || is_some r.start_time) ≡ true
    → (found : Bool × List Signal) × (kill_process platform header r ≡ ok found)
unfolding kill_process scan_process
kill_started platform header r h k =
    let (coordinator, e) = find_ours_total platform header r.coordinator_pid r.fork_time h in
    let (process, e') = find_ours_total platform header r.pid r.start_time k in
    elim (Result-cases (kill_process platform header r)) [
      | inl (found, e'') ↦ (found, e'')
      | inr (raised, e'') ↦ absurd (ground (arith, e, e', e''))
    ]

timed_pids :
    (state : Option ProcessState) (r : ProcessStatus)
    → has_fields state r ≡ true
    → ((not (is_some r.coordinator_pid) || is_some r.fork_time) ≡ true)
      × ((not (is_some r.pid) || is_some r.start_time) ≡ true)
unfolding has_fields
timed_pids none r h = cc
timed_pids (some waiting) r h = (ground arith, ground arith)
timed_pids (some forked) r h = (ground arith, ground arith)
timed_pids (some running) r h = (ground arith, ground arith)
timed_pids (some success) r h = (ground arith, ground arith)
timed_pids (some failed) r h = (ground arith, ground arith)
timed_pids (some killed) r h = (ground arith, ground arith)
timed_pids (some lost) r h = (ground arith, ground arith)

-- Killing a process raises nothing where its run has the times of its pids.
pub kill_process_accepted :
    (platform : Platform) (header : RunnerHeader) (key : Option Name) (r : ProcessStatus)
    → is_consistent key r ≡ true
    → (found : Bool × List Signal) × (kill_process platform header r ≡ ok found)
unfolding is_consistent
kill_process_accepted platform header key r h =
    let (forked_at, started_at) = timed_pids r.state r (ground arith) in
    kill_started platform header r forked_at started_at

-- What `kill` finds of a run that has not ended.
kill_process_total :
    (platform : Platform) (header : RunnerHeader) (state : Option ProcessState) (r : ProcessStatus)
    → has_fields state r ≡ true
    → terminal state ≡ false
    → (found : Bool × List Signal) × (kill_process platform header r ≡ ok found)
      × ((is_state state (some waiting) && found.0) ≡ false)
unfolding has_fields
kill_process_total platform header none r h live = cc
kill_process_total platform header (some waiting) r h live =
    ((false, []), kill_waiting platform header r (unfold has_fields in h), refl)
kill_process_total platform header (some forked) r h live =
    let (found, e) = kill_started platform header r (ground arith) (ground arith) in
    (found, e, ground arith)
kill_process_total platform header (some running) r h live =
    let (found, e) = kill_started platform header r (ground arith) (ground arith) in
    (found, e, ground arith)
kill_process_total platform header (some success) r h live = cc
kill_process_total platform header (some killed) r h live = cc
kill_process_total platform header (some failed) r h live = cc
kill_process_total platform header (some lost) r h live = cc

-- What a run is once the status has been applied to it.
unfoldable pub settle : ProcessStatus → Option ProcessStatus → ProcessStatus
settle r none = r
settle r (some u) = (update_process_state r u).0

unfoldable pub is_settled : ProcessStatus → Bool
is_settled r = terminal r.state || is_state r.state (some waiting)

-- That the status can be applied to the run of the process, and what it does.
unfoldable pub Applies : Option Name → ProcessStatus → Option ProcessStatus → Type 0
Applies key r none = Unit
Applies key r (some u) =
    (u.process ≡ key)
    × (is_state u.state (some waiting) ≡ false)
    × (is_some u.state ≡ true)
    × ((update_process_state r u).1 ≡ none)
    × ((seq : ℤ) × (r.seq ≡ some seq) × (u.seq ≡ some (seq +ℤ pos 1)))

killed-Applies :
    (key : Option Name) (now : ℤ) (r : ProcessStatus) (seq : ℤ)
    → is_consistent key r ≡ true
    → terminal r.state ≡ false
    → is_state r.state (some waiting) ≡ false
    → r.seq ≡ some seq
    → Applies key r (some (killed_status now key (seq +ℤ pos 1)))
      × (is_settled (settle r (some (killed_status now key (seq +ℤ pos 1)))) ≡ true)
unfolding Applies settle is_settled update_process_state advance is_consistent has_fields
killed-Applies key now r seq h live started numbered =
    ((refl, refl, refl, ground arith, (seq, numbered, refl)), ground arith)

lost-Applies :
    (key : Option Name) (r : ProcessStatus) (seq : ℤ)
    → is_consistent key r ≡ true
    → terminal r.state ≡ false
    → is_state r.state (some waiting) ≡ false
    → r.seq ≡ some seq
    → Applies key r (some (lost_status key (seq +ℤ pos 1)))
      × (is_settled (settle r (some (lost_status key (seq +ℤ pos 1)))) ≡ true)
unfolding Applies settle is_settled update_process_state advance is_consistent has_fields
lost-Applies key r seq h live started numbered =
    ((refl, refl, refl, ground arith, (seq, numbered, refl)), ground arith)

seq-is_consistent :
    (key : Option Name) (r : ProcessStatus)
    → is_consistent key r ≡ true
    → (seq : ℤ) × (r.seq ≡ some seq)
seq-is_consistent key r h = elim (Option-cases r.seq) [
  | inl missing ↦ absurd (unfold is_consistent in ground (arith, missing))
  | inr (seq, numbered) ↦ (seq, numbered)
]

-- `kill` comes to a status for every run of a readable checkpoint; the status can be applied to the
-- run, which has ended or waits after it.
pub kill_status_lem :
    (platform : Platform) (header : RunnerHeader) (now : ℤ) (key : Option Name) (r : ProcessStatus)
    → is_consistent key r ≡ true
    → (status : Option ProcessStatus) × (kill_status platform header now key r ≡ ok status)
      × Applies key r status
      × (is_settled (settle r status) ≡ true)
unfolding kill_status status_after
kill_status_lem platform header now key r h = elim (Bool-cases (terminal r.state)) [
  | inl ended ↦ (
    none,
    ground (arith, ended),
    unfold Applies in tt,
    unfold settle is_settled in ground (arith, ended),
  )
  | inr live ↦
      let (seq, numbered) = seq-is_consistent key r h in
      let (found, e, apart) =
        kill_process_total platform header r.state r (unfold is_consistent in ground arith) live in
      elim (Bool-cases (is_state r.state (some waiting))) [
        | inl waits ↦ (
          none,
          ground (arith, live, e, apart, waits),
          unfold Applies in tt,
          unfold settle is_settled in ground (arith, waits),
        )
        | inr started ↦ elim (Bool-cases found.0) [
          | inl there ↦
              let (applies, settled) = killed-Applies key now r seq h live started numbered in
              (
                some (killed_status now key (seq +ℤ pos 1)),
                ground (arith, live, e, there, numbered),
                applies,
                settled,
              )
          | inr gone ↦
              let (applies, settled) = lost-Applies key r seq h live started numbered in
              (
                some (lost_status key (seq +ℤ pos 1)),
                ground (arith, live, e, gone, started, numbered),
                applies,
                settled,
              )
        ]
      ]
]
