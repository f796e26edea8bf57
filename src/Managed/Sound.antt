-- ===== src/Managed/Sound.antt =====
-- What holds of every row of the attempts table between two transactions, and what no transaction
-- undoes.
use hack_the_north.Common.{ℕ, ◌+◌, ◌-◌, ◌≡◌, ◌≤◌, true, false, none, arith, max, is_some}
use hack_the_north.Managed.Rows.{AttemptState, Status, Cleanup, Attempt}
use hack_the_north.Managed.Queries.{Redaction}
use hack_the_north.Managed.Claims.{leased, reserved, exhausted, is_leasable}
use hack_the_north.Managed.Journal.{dispatched, identified}
use hack_the_north.Managed.Lifecycle.{cancelled, finished}
use hack_the_north.Managed.Steps.{
  RowStep, same, recover, start, exhaust, beat, send, fail_create, identify, report, show, finish,
  cancel,
}

pub record Sound (a : Attempt) : Type 0 where
  pub queued_status : a.state ≡ AttemptState.queued → a.status ≡ Status.queued
  pub queued_unlimited : a.state ≡ AttemptState.queued → a.cancel_requested_at ≡ none
  pub queued_free : a.state ≡ AttemptState.queued → a.reserved_seconds + a.consumed_seconds ≡ 0
  pub queued_unsent : a.state ≡ AttemptState.queued → a.dispatch_started ≡ false
  pub reserved_status : a.state ≡ AttemptState.reserved → a.status ≡ Status.running
  pub reserved_unsent : a.state ≡ AttemptState.reserved → a.dispatch_started ≡ false
  pub dispatched_status : a.state ≡ AttemptState.dispatched → a.status ≡ Status.running
  pub dispatched_sent : a.state ≡ AttemptState.dispatched → a.dispatch_started ≡ true
  pub quarantined_status : a.state ≡ AttemptState.quarantined → a.status ≡ Status.cleanup_required
  pub settled_closed : a.state ≡ AttemptState.settled → a.cleanup ≡ Cleanup.closed
  pub closed_settled : a.cleanup ≡ Cleanup.closed → a.state ≡ AttemptState.settled
  pub settled_committed :
      a.state ≡ AttemptState.settled
      → max (a.reserved_seconds - a.released_seconds) a.consumed_seconds ≡ a.consumed_seconds
  pub released_within : a.released_seconds ≤ a.reserved_seconds
  pub held_in_full : is_leasable a.state ≡ true → a.released_seconds ≡ 0
  pub leasable_started : is_leasable a.state ≡ true → is_some a.started_at ≡ true
  pub identified_sent : is_some a.provider_run_id ≡ true → a.dispatch_started ≡ true
  pub sent_reference :
      a.dispatch_started ≡ true
      → (is_some a.provider_agent_id ≡ true) × (is_some a.provider_task ≡ true)

pub RowStep-Sound :
    (rd : Redaction) (now : ℕ) (a b : Attempt) → RowStep rd now a b → Sound a → Sound b
unfolding leased reserved exhausted dispatched identified cancelled finished
RowStep-Sound rd now a b (same e) s = ground arith
RowStep-Sound rd now a b (recover w p h e) s = ground arith
RowStep-Sound rd now a b (start w p h c e) s = ground arith
RowStep-Sound rd now a b (exhaust h e) s = ground arith
RowStep-Sound rd now a b (beat t h e) s = ground arith
RowStep-Sound rd now a b (send g t h u r c e) s = ground arith
RowStep-Sound rd now a b (fail_create f h u n e) s = ground arith
RowStep-Sound rd now a b (identify r t h u d d' e) s = ground arith
RowStep-Sound rd now a b (report t h e) s = ground arith
RowStep-Sound rd now a b (show l r h e) s = ground arith
RowStep-Sound rd now a b (finish o h k e) s = ground arith
RowStep-Sound rd now a b (cancel e) s = ground arith
