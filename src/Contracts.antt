-- ===== src/Contracts.antt =====
-- The statuses and the events of native runs that src/lib/contracts.ts declares. Ids are numbers, and
-- so are the instants that its timestamps name.
use hack_the_north.Common.{ℕ, Bool, true, false, Option}

pub data RunStatus : Type 0 where
  queued running succeeded gave_up cancelled blocked limit_reached : RunStatus
  infrastructure_failed target_failed : RunStatus

-- `isTerminal` of src/lib/live-wall.ts, and `terminalStatusSchema`.
abbrev pub is_terminal : RunStatus → Bool
is_terminal queued = false
is_terminal running = false
is_terminal _ = true

pub data EventKind : Type 0 where
  run_created run_cancel_requested run_finished attempt_started attempt_finished : EventKind
  evidence_recorded finding_recorded attempt_observation attempt_decision : EventKind
  attempt_action attempt_recovering attempt_control : EventKind

-- Of the data of an event only the status is read by the code that is modelled.
pub record RunEvent : Type 0 where
  pub run_id : ℕ
  pub sequence : ℕ
  pub attempt_id : Option ℕ
  pub timestamp : ℕ
  pub kind : EventKind
  pub status : Option RunStatus
