-- ===== src/Managed/Steps.antt =====
-- The life of one managed attempt as a relation between its row before and after a transaction: one
-- constructor for each UPDATE of src/server/managed/store.ts, with the guards that the code tests
-- before it.
use hack_the_north.Common.{ℕ, ◌≡◌, true, false, Option, none, some, Text, arith}
use hack_the_north.Capacity.{WorkerPolicy}
use hack_the_north.Managed.Rows.{AttemptState, Attempt, CreateFailure, Outcome}
use hack_the_north.Managed.Queries.{Redaction}
use hack_the_north.Managed.Claims.{leased, reserved, exhausted, is_leasable}
use hack_the_north.Managed.Journal.{dispatched, identified, differs, differs_if_both}
use hack_the_north.Managed.Lifecycle.{cancelled, finished, is_outcome}

pub data RowStep (rd : Redaction) (now : ℕ) (a b : Attempt) : Type 0 where
  same : b ≡ a → RowStep rd now a b
  recover :
      (w : ℕ) (p : WorkerPolicy)
      → is_leasable a.state ≡ true
      → b ≡ leased now w p true a
      → RowStep rd now a b
  start :
      (w : ℕ) (p : WorkerPolicy)
      → a.state ≡ AttemptState.queued
      → a.cancel_requested_at ≡ none
      → b ≡ leased now w p false (reserved now p.session_seconds a)
      → RowStep rd now a b
  exhaust : a.state ≡ AttemptState.queued → b ≡ exhausted now a → RowStep rd now a b
  beat :
      (t : ℕ)
      → is_leasable a.state ≡ true
      → b ≡ record a { lease_expires_at = some t }
      → RowStep rd now a b
  send :
      (agent task : Text)
      → a.state ≡ AttemptState.reserved
      → a.dispatch_started ≡ false
      → a.recovery_count ≡ 0
      → a.cancel_requested_at ≡ none
      → b ≡ dispatched agent task a
      → RowStep rd now a b
  fail_create :
      (f : CreateFailure)
      → is_leasable a.state ≡ true
      → a.dispatch_started ≡ true
      → a.first_create_failure ≡ none
      → b ≡ record a { first_create_failure = some f }
      → RowStep rd now a b
  identify :
      (run : Text) (session : Option Text)
      → is_leasable a.state ≡ true
      → a.dispatch_started ≡ true
      → differs a.provider_run_id run ≡ false
      → differs_if_both a.provider_session_id session ≡ false
      → b ≡ identified run session a
      → RowStep rd now a b
  report :
      (t : Text)
      → is_leasable a.state ≡ true
      → b ≡ record a { provider_status = some t }
      → RowStep rd now a b
  show :
      (live replay : Text)
      → is_leasable a.state ≡ true
      → b ≡ record a { live_view_url = some live; replay_url = some replay }
      → RowStep rd now a b
  finish :
      (o : Outcome)
      → is_leasable a.state ≡ true
      → is_outcome o.status ≡ true
      → b ≡ finished rd now a o a
      → RowStep rd now a b
  cancel : b ≡ cancelled now a → RowStep rd now a b

pub RowStep-id : (rd : Redaction) (now : ℕ) (a b : Attempt) → RowStep rd now a b → b.id ≡ a.id
unfolding leased reserved exhausted dispatched identified cancelled finished
RowStep-id rd now a b (same e) = ground arith
RowStep-id rd now a b (recover w p h e) = ground arith
RowStep-id rd now a b (start w p h c e) = ground arith
RowStep-id rd now a b (exhaust h e) = ground arith
RowStep-id rd now a b (beat t h e) = ground arith
RowStep-id rd now a b (send g t h u r c e) = ground arith
RowStep-id rd now a b (fail_create f h u n e) = ground arith
RowStep-id rd now a b (identify r t h u d d' e) = ground arith
RowStep-id rd now a b (report t h e) = ground arith
RowStep-id rd now a b (show l r h e) = ground arith
RowStep-id rd now a b (finish o h k e) = ground arith
RowStep-id rd now a b (cancel e) = ground arith
