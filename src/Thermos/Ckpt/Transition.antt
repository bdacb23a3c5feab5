-- ===== src/Thermos/Ckpt/Transition.antt =====
-- The state machine of one process run, against the diagram of `ProcessStateHandler`.
use aurora_client.Base.{◌≡◌, refl, Bool, true, false, not, ◌&&◌, Option, none, some, arith, is_some}
use aurora_client.Thermos.Ckpt.{
  ProcessState, waiting, forked, running, success, killed, failed, lost, ProcessStatus, advance,
  update_process_state, terminal,
}

-- The arrows that the comments of `_update_process_state` name, from the states of a run (none
-- before WAITING) to the state of the update.
abbrev pub edge : Option ProcessState → ProcessState → Bool
edge none waiting = true
edge (some waiting) forked = true
edge (some forked) running = true
edge (some running) success = true
edge (some waiting) failed = true
edge (some running) failed = true
edge (some forked) killed = true
edge (some running) killed = true
edge (some forked) lost = true
edge (some running) lost = true
edge _ _ = false

-- The fields that an update must carry.
abbrev pub complete : ProcessState → ProcessStatus → Bool
complete waiting u = is_some u.process
complete forked u = is_some u.fork_time && is_some u.coordinator_pid
complete running u = is_some u.start_time && is_some u.pid
complete success u = is_some u.stop_time && is_some u.return_code
complete failed u = true
complete killed u = is_some u.stop_time && is_some u.return_code
complete lost u = true

abbrev pub accepts : Option ProcessState → ProcessStatus → ProcessStatus → Bool
accepts none s u = false
accepts (some state) s u = edge s.state state && complete state u

advance-accepts :
    (state : Option ProcessState) (s u : ProcessStatus)
    → u.state ≡ state
    → is_some (advance state s u).1 ≡ not (accepts state s u)
unfolding advance
advance-accepts none s u e = refl
advance-accepts (some waiting) s u e = ground arith
advance-accepts (some forked) s u e = ground arith
advance-accepts (some running) s u e = ground arith
advance-accepts (some success) s u e = ground arith
advance-accepts (some killed) s u e = ground arith
advance-accepts (some failed) s u e = ground arith
advance-accepts (some lost) s u e = ground arith

advance-state :
    (state : Option ProcessState) (s u : ProcessStatus)
    → u.state ≡ state
    → (advance state s u).1 ≡ none
    → ((advance state s u).0.state ≡ state) × ((advance state s u).0.seq ≡ s.seq)
unfolding advance
advance-state none s u e h = cc
advance-state (some waiting) s u e h = ground arith
advance-state (some forked) s u e h = ground arith
advance-state (some running) s u e h = ground arith
advance-state (some success) s u e h = ground arith
advance-state (some killed) s u e h = ground arith
advance-state (some failed) s u e h = ground arith
advance-state (some lost) s u e h = ground arith

-- An update raises unless it carries a sequence number, its state follows that of the run by an
-- arrow of the diagram, and the fields of its state are there; then it does not raise.
pub update_process_state-accepts :
    (s u : ProcessStatus)
    → is_some (update_process_state s u).1 ≡ not (is_some u.seq && accepts u.state s u)
unfolding update_process_state
update_process_state-accepts s u =
    ground (arith, advance-accepts u.state (record s { seq = u.seq }) u refl)

-- An update that does not raise sets the state and the sequence number of the run to its own.
pub update_process_state-state :
    (s u : ProcessStatus)
    → (update_process_state s u).1 ≡ none
    → ((update_process_state s u).0.state ≡ u.state) × ((update_process_state s u).0.seq ≡ u.seq)
unfolding update_process_state
update_process_state-state s u h =
    ground (arith, advance-state u.state (record s { seq = u.seq }) u refl)

-- A terminal run accepts no update: nothing follows SUCCESS, FAILED, KILLED or LOST.
pub terminal_rejects :
    (s u : ProcessStatus) → terminal s.state ≡ true → is_some (update_process_state s u).1 ≡ true
terminal_rejects s u h = ground (arith, update_process_state-accepts s u)

-- An update to FAILED never takes over its stop time and return code, also where the run was
-- RUNNING and the update carries both: the run keeps the values that it had.
pub failed_keeps :
    (s u : ProcessStatus)
    → u.state ≡ some failed
    → ((update_process_state s u).0.stop_time ≡ s.stop_time)
      × ((update_process_state s u).0.return_code ≡ s.return_code)
unfolding update_process_state advance
failed_keeps s u h = ground arith
