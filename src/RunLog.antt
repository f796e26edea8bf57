-- ===== src/RunLog.antt =====
-- The life of a native run: `append`, `events`, `cancelRun`, `startAttempt`, `finishAttempt` and
-- `reconcile` of src/server/repository.ts. A record holds the rows of one run: its attempts, each with its
-- job (`attempt_id` is UNIQUE in jobs) and whether a launch of that job is stored, and its events.
pub mod Sequence
pub mod Settling
mod Witnesses
use hack_the_north.Common.{
  ℕ, ◌+◌, Bool, true, false, not, ◌&&◌, ◌||◌, Option, none, some, List, [], ◌∷◌, ◌++◌, Result, ok,
  err, ◌>>=◌, ◌>>◌, throw_if, ◌==◌, leb, ltb, if◌then◌else◌, length, take, keep, find?, any,
  is_some, coalesce,
}
use hack_the_north.Contracts.{RunStatus, EventKind, RunEvent, is_terminal}

pub data JobStatus : Type 0 where
  queued leased completed cancelled : JobStatus

pub record RunAttempt : Type 0 where
  pub id : ℕ
  pub status : RunStatus
  pub updated_at : ℕ
  pub job_status : JobStatus
  pub job_cancel_requested_at : Option ℕ
  pub is_launched : Bool

pub record RunRows : Type 0 where
  pub id : ℕ
  pub owner : ℕ
  pub status : RunStatus
  pub cancel_requested_at : Option ℕ
  pub updated_at : ℕ
  pub next_sequence : ℕ
  pub attempts : List RunAttempt
  pub events : List RunEvent

pub data RunError : Type 0 where
  not_found conflict invalid : RunError

-- `append`: the sequence number is taken from the run.
unfoldable pub append : ℕ → Option ℕ → EventKind → Option RunStatus → RunRows → RunRows
append now attempt_id kind status r = record r {
  next_sequence = r.next_sequence + 1;
  events =
      r.events
      ++ (record {
        run_id = r.id;
        sequence = r.next_sequence;
        attempt_id = attempt_id;
        timestamp = now;
        kind = kind;
        status = status;
      }
          ∷ []);
}

abbrev pub same_status : RunStatus → RunStatus → Bool
same_status RunStatus.queued RunStatus.queued = true
same_status RunStatus.running RunStatus.running = true
same_status RunStatus.succeeded RunStatus.succeeded = true
same_status RunStatus.gave_up RunStatus.gave_up = true
same_status RunStatus.cancelled RunStatus.cancelled = true
same_status RunStatus.blocked RunStatus.blocked = true
same_status RunStatus.limit_reached RunStatus.limit_reached = true
same_status RunStatus.infrastructure_failed RunStatus.infrastructure_failed = true
same_status RunStatus.target_failed RunStatus.target_failed = true
same_status _ _ = false

-- `UPDATE attempts ... WHERE id=?` and `UPDATE jobs ... WHERE attempt_id=?`.
unfoldable pub update_attempts : (RunAttempt → RunAttempt) → ℕ → List RunAttempt → List RunAttempt
update_attempts f id [] = []
update_attempts f id (a ∷ rest) = (if a.id == id then f a else a) ∷ update_attempts f id rest

unfoldable pub set_attempt : ℕ → (RunAttempt → RunAttempt) → RunRows → RunRows
unfolding update_attempts
set_attempt id f r = record r { attempts = update_attempts f id r.attempts }

abbrev pub is_pending : RunAttempt → Bool
is_pending a = not (is_terminal a.status)

abbrev pub priority : List RunStatus
priority =
    RunStatus.infrastructure_failed ∷ RunStatus.limit_reached ∷ RunStatus.blocked
    ∷ RunStatus.target_failed ∷ RunStatus.gave_up ∷ RunStatus.cancelled ∷ RunStatus.succeeded ∷ []

abbrev pub any_status : RunStatus → List RunAttempt → Bool
any_status s attempts = any (λ a. same_status a.status s) attempts

unfoldable pub settled_status : RunRows → Option RunStatus
settled_status r =
    if is_some r.cancel_requested_at && not (any_status RunStatus.infrastructure_failed r.attempts)
    then some RunStatus.cancelled
    else find? (λ s. any_status s r.attempts) priority

-- Without an attempt the status is undefined, and the UPDATE throws.
unfoldable pub reconcile : ℕ → RunRows → Result RunError RunRows
unfolding settled_status append
reconcile now r = if any is_pending r.attempts then ok r else elim (settled_status r) [
  | none ↦ err invalid
  | some s ↦
      ok (
        append now none EventKind.run_finished (some s) (record r { status = s; updated_at = now }))
]

-- `getRun`.
unfoldable pub owned : ℕ → ℕ → RunRows → Bool
owned owner id r = r.owner == owner && r.id == id

abbrev pub is_status_queued : RunStatus → Bool
is_status_queued RunStatus.queued = true
is_status_queued _ = false

abbrev pub is_status_running : RunStatus → Bool
is_status_running RunStatus.running = true
is_status_running _ = false

abbrev is_open : JobStatus → Bool
is_open queued = true
is_open leased = true
is_open _ = false

unfoldable pub cancel_job : ℕ → RunAttempt → RunAttempt
cancel_job now a =
    if is_open a.job_status then record a { job_cancel_requested_at = some now } else a

unfoldable pub cancel_jobs : ℕ → List RunAttempt → List RunAttempt
unfolding cancel_job
cancel_jobs now [] = []
cancel_jobs now (a ∷ rest) = cancel_job now a ∷ cancel_jobs now rest

abbrev pub cancelled_attempt : ℕ → RunAttempt → RunAttempt
cancelled_attempt now a = record a {
  status = RunStatus.cancelled;
  updated_at = now;
  job_status = JobStatus.cancelled;
}

-- The loop of `cancelRun` over the attempts as they were read.
unfoldable pub cancel_queued : ℕ → List RunAttempt → RunRows → RunRows
unfolding append set_attempt
cancel_queued now [] r = r
cancel_queued now (a ∷ rest) r =
    if is_status_queued a.status
    then cancel_queued now rest (
        append now (some a.id) EventKind.attempt_finished (some RunStatus.cancelled)
          (set_attempt a.id (cancelled_attempt now) r))
    else cancel_queued now rest r

-- The run and its jobs are marked, and the request is an event.
unfoldable pub cancel_marked : ℕ → RunRows → RunRows
unfolding append cancel_jobs
cancel_marked now r = append now none EventKind.run_cancel_requested none (record r {
  cancel_requested_at = some now;
  updated_at = now;
  attempts = cancel_jobs now r.attempts;
})

unfoldable pub cancel_run : ℕ → (owner id : ℕ) → RunRows → Result RunError RunRows
unfolding owned cancel_marked cancel_queued reconcile
cancel_run now owner id r = do
  throw_if (not (owned owner id r)) not_found
  if is_some r.cancel_requested_at || is_terminal r.status
      then ok r
      else reconcile now (cancel_queued now (cancel_marked now r).attempts (cancel_marked now r))

unfoldable pub find_attempt : ℕ → RunRows → Result RunError RunAttempt
find_attempt id r = elim (find? (λ a. a.id == id) r.attempts) [
  | none ↦ err not_found
  | some a ↦ ok a
]

-- `SELECT ... FROM launches ... WHERE j.attempt_id=?`.
abbrev launched : ℕ → RunRows → Bool
launched id r = any (λ a. a.id == id && a.is_launched) r.attempts

unfoldable pub start_attempt : ℕ → (owner id attempt_id : ℕ) → RunRows → Result RunError RunRows
unfolding owned find_attempt set_attempt append
start_attempt now owner id attempt_id r = do
  throw_if (launched attempt_id r) conflict
  throw_if (not (owned owner id r)) not_found
  a ← find_attempt attempt_id r
  throw_if (is_some r.cancel_requested_at || not (is_status_queued a.status)) conflict
  ok (
      append now (some attempt_id) EventKind.attempt_started (some RunStatus.running)
        (record (set_attempt attempt_id
          (λ b. record b {
            status = RunStatus.running;
            updated_at = now;
            job_status = JobStatus.leased;
          })
          r) { status = RunStatus.running; updated_at = now }))

abbrev pub is_infrastructure : RunStatus → Bool
is_infrastructure s = same_status s RunStatus.infrastructure_failed

abbrev is_cancelled : RunStatus → Bool
is_cancelled s = same_status s RunStatus.cancelled

-- A cancelled run's attempts end as cancelled, unless the infrastructure failed.
unfoldable pub outcome_of : RunRows → RunStatus → RunStatus
outcome_of r outcome =
    if is_some r.cancel_requested_at && not (is_infrastructure outcome)
    then RunStatus.cancelled
    else outcome

abbrev pub ended_attempt : ℕ → RunStatus → RunAttempt → RunAttempt
ended_attempt now s a = record a {
  status = s;
  updated_at = now;
  job_status = if is_cancelled s then JobStatus.cancelled else JobStatus.completed;
}

unfoldable pub finish_attempt :
    ℕ → (owner id attempt_id : ℕ) → RunStatus → RunRows → Result RunError RunRows
unfolding owned find_attempt set_attempt append reconcile outcome_of
finish_attempt now owner id attempt_id outcome r = do
  throw_if (not (is_terminal outcome)) invalid
  throw_if (launched attempt_id r) conflict
  throw_if (not (owned owner id r)) not_found
  a ← find_attempt attempt_id r
  let s = outcome_of r outcome
  if same_status a.status outcome || same_status a.status s
      then ok r
      else if not (is_status_running a.status)
      then err conflict
      else reconcile now (
          append now (some attempt_id) EventKind.attempt_finished (some s)
            (set_attempt attempt_id (ended_attempt now s) r))

-- `events`, for an owner of the run and an accepted pagination.
pub record EventPage : Type 0 where
  pub items : List RunEvent
  pub next_cursor : Option ℕ

abbrev pub last_sequence : List RunEvent → Option ℕ
last_sequence [] = none
last_sequence (e ∷ []) = some e.sequence
last_sequence (e ∷ f ∷ rest) = last_sequence (f ∷ rest)

unfoldable pub events : (after limit : ℕ) → RunRows → EventPage
events after limit r =
    let rows = take (limit + 1) (keep (λ e. ltb after e.sequence) r.events) in
    let items = take limit rows in
    record {
      items = items;
      next_cursor = if ltb limit (length rows) then last_sequence items else none;
    }
