-- ===== src/Managed/Rows.antt =====
-- The tables of src/server/managed/store.ts (as src/server/migrations.ts declares them), the types
-- of src/server/managed/types.ts and the errors that the store throws.
--
-- UUIDs, owner ids, worker ids and digests are compared for equality only, and are numbers here.
-- Times are milliseconds; a text is its code units. `actual_browser_seconds` is a multiple of a
-- millisecond, and is kept in milliseconds.
use hack_the_north.Common.{ℕ, Bool, Option, List, Text}
use hack_the_north.Capacity.{WorkerPolicy, Usage}

pub data AttemptState : Type 0 where
  queued reserved dispatched quarantined settled : AttemptState

pub data Status : Type 0 where
  queued running completed failed cancelled cleanup_required : Status

pub data Cleanup : Type 0 where
  not_started unconfirmed closed : Cleanup

pub data ProgressKind : Type 0 where
  status text tool error : ProgressKind

pub data Verdict : Type 0 where
  met not_met inconclusive : Verdict

pub data FailureCategory : Type 0 where
  http connection timeout aborted unknown : FailureCategory

pub data RequestIdHeader : Type 0 where
  x_request_id request_id : RequestIdHeader

pub record CreateFailure : Type 0 where
  pub category : FailureCategory
  pub http_status : Option ℕ
  pub request_id : Option Text
  pub request_id_header : Option RequestIdHeader

pub record CriterionResult : Type 0 where
  pub criterion : Text
  pub status : Verdict
  pub observation : Text

pub record ManagedResult : Type 0 where
  pub summary : Text
  pub final_url : Text
  pub criteria : List CriterionResult
  pub limitations : List Text

pub record TargetScope : Type 0 where
  pub target_url : Text
  pub allowed_subdomains : List Text
  pub path_prefixes : List Text

pub record Persona : Type 0 where
  pub id : ℕ
  pub snapshot : Text

-- A row of `managed_runs`; the list's order is that of `cursor`.
pub record Run : Type 0 where
  pub id : ℕ
  pub owner : ℕ
  pub idempotency_key : Text
  pub request_hash : ℕ
  pub scope : TargetScope
  pub created_at : ℕ
  pub updated_at : ℕ
  pub cancel_requested_at : Option ℕ

-- A row of `managed_attempts`; the list's order is that of `rowid`.
pub record Attempt : Type 0 where
  pub id : ℕ
  pub run_id : ℕ
  pub persona : Persona
  pub goal : Text
  pub criteria : List Text
  pub correlation_token : Text
  pub status : Status
  pub state : AttemptState
  pub cleanup : Cleanup
  pub cancel_requested_at : Option ℕ
  pub provider_status : Option Text
  pub result : Option ManagedResult
  pub error : Option Text
  pub reserved_seconds : ℕ
  pub consumed_seconds : ℕ
  pub released_seconds : ℕ
  pub actual_browser_ms : Option ℕ
  pub started_at : Option ℕ
  pub finished_at : Option ℕ
  pub dispatch_started : Bool
  pub provider_run_id : Option Text
  pub provider_session_id : Option Text
  pub provider_agent_id : Option Text
  pub provider_task : Option Text
  pub live_view_url : Option Text
  pub replay_url : Option Text
  pub lease_owner : Option ℕ
  pub lease_generation : ℕ
  pub lease_expires_at : Option ℕ
  pub recovery_count : ℕ
  pub recovery_after : Option ℕ
  pub first_create_failure : Option CreateFailure

-- A row of `managed_progress`.
pub record Progress : Type 0 where
  pub attempt_id : ℕ
  pub event_hash : ℕ
  pub sequence : ℕ
  pub timestamp : ℕ
  pub kind : ProgressKind
  pub text : Text

-- The tables that the store reads and writes. `native` is what it reads of the native queue: one
-- row for each reservation there (`launches`, `usage_reservations`, `jobs` and `runs` joined).
pub record Store : Type 0 where
  pub runs : List Run
  pub attempts : List Attempt
  pub progress : List Progress
  pub policy : Option WorkerPolicy
  pub native : List Usage

pub record Claim : Type 0 where
  pub id : ℕ
  pub run_id : ℕ
  pub owner : ℕ
  pub worker : ℕ
  pub generation : ℕ
  pub correlation_token : Text
  pub persona : Persona
  pub goal : Text
  pub criteria : List Text
  pub scope : TargetScope
  pub reserved_seconds : ℕ
  pub started_at : ℕ
  pub recovery : Bool
  pub dispatch_started : Bool
  pub provider_run_id : Option Text
  pub provider_session_id : Option Text
  pub provider_agent_id : Option Text
  pub provider_task : Option Text

pub record Outcome : Type 0 where
  pub status : Status
  pub provider_status : Option Text
  pub closed : Bool
  pub result : Option ManagedResult
  pub error : Option Text
  pub actual_browser_ms : Option ℕ
  pub allocation_attempted : Bool

pub data StoreError : Type 0 where
  not_found conflict invalid_input policy_mismatch lease_lost cancel_requested : StoreError
  dispatch_reference_invalid recovery_cannot_dispatch dispatch_reference_changed : StoreError
  dispatch_already_started dispatch_not_started create_failure_invalid : StoreError
  recovery_cannot_record_create_failure create_failure_already_recorded : StoreError
  identity_changed identity_missing progress_limit constraint_violation : StoreError
