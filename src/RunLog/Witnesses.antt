-- ===== src/RunLog/Witnesses.antt =====
-- A run of two attempts: one is started and finished, the other is cancelled with the run.
use hack_the_north.Common.{All, ℕ, ◌≡◌, ◌⊎◌, refl, true, false, none, some, [], ◌∷◌, ok}
use hack_the_north.Contracts.{RunStatus, EventKind}
use hack_the_north.RunLog.{
  JobStatus, RunAttempt, RunRows, append, reconcile, settled_status, any_status,
}
use hack_the_north.RunLog.Sequence.{RunOp, Logged, live, live-Logged}
use hack_the_north.RunLog.Settling.{Agrees, live-Agrees, Outranks, reconcile_status}

abbrev waiting : ℕ → RunAttempt
waiting n = record {
  id = n;
  status = RunStatus.queued;
  updated_at = 0;
  job_status = JobStatus.queued;
  job_cancel_requested_at = none;
  is_launched = false;
}

abbrev two_attempts : RunRows
two_attempts = record {
  id = 1;
  owner = 9;
  status = RunStatus.queued;
  cancel_requested_at = none;
  updated_at = 0;
  next_sequence = 1;
  attempts = waiting 4 ∷ waiting 5 ∷ [];
  events = [];
}

live-Logged_example : Logged (
    live
      ((10, RunOp.starts 9 1 4)
        ∷ (20, RunOp.cancels 9 1)
        ∷ (30, RunOp.finishes 9 1 4 RunStatus.succeeded)
        ∷ [])
      two_attempts)
live-Logged_example =
    live-Logged
      ((10, RunOp.starts 9 1 4)
        ∷ (20, RunOp.cancels 9 1)
        ∷ (30, RunOp.finishes 9 1 4 RunStatus.succeeded)
        ∷ [])
      two_attempts refl

live-Agrees_example : Agrees (
    live
      ((10, RunOp.starts 9 1 4)
        ∷ (20, RunOp.cancels 9 1)
        ∷ (30, RunOp.finishes 9 1 4 RunStatus.succeeded)
        ∷ [])
      two_attempts)
live-Agrees_example =
    live-Agrees
      ((10, RunOp.starts 9 1 4)
        ∷ (20, RunOp.cancels 9 1)
        ∷ (30, RunOp.finishes 9 1 4 RunStatus.succeeded)
        ∷ [])
      two_attempts refl

abbrev ended : RunRows
ended = record two_attempts {
  attempts =
      record (waiting 4) { status = RunStatus.gave_up }
      ∷ record (waiting 5) { status = RunStatus.blocked }
      ∷ [];
}

abbrev blocked_rows : RunRows
blocked_rows =
    append 40 none EventKind.run_finished (some RunStatus.blocked)
      (record ended { status = RunStatus.blocked; updated_at = 40 })

reconciles : reconcile 40 ended ≡ ok blocked_rows
unfolding reconcile settled_status
reconciles = refl

reconcile_status_example :
    ((false ≡ true)
      × (any_status RunStatus.infrastructure_failed ended.attempts ≡ false)
      × (blocked_rows.status ≡ RunStatus.cancelled))
    ⊎ (((false ≡ false) ⊎ (any_status RunStatus.infrastructure_failed ended.attempts ≡ true))
        × (any_status blocked_rows.status ended.attempts ≡ true)
        × All (Outranks blocked_rows.status) ended.attempts)
reconcile_status_example = reconcile_status 40 ended blocked_rows refl reconciles
