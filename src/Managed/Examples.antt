-- ===== src/Managed/Examples.antt =====
-- Concrete stores: one attempt of one run, as it waits, as a worker holds it and as it is dispatched.
use hack_the_north.Common.{true, false, none, some, [], ◌∷◌, arith, codes}
use hack_the_north.Capacity.{WorkerPolicy}
use hack_the_north.Managed.Rows.{
  AttemptState, Status, Cleanup, Persona, TargetScope, Run, Attempt, Store, Claim, Outcome,
}
use hack_the_north.Managed.Queries.{Redaction}
use hack_the_north.Managed.Lifecycle.{Assignment, ManagedCreate}
use hack_the_north.Managed.Histories.{Platform, Valid}

abbrev pub redaction : Redaction
redaction = record { sanitize = λ hidden t. t; public_page_url = λ hidden t. some t }

abbrev pub platform : Platform
platform = record { redaction = redaction; digest = λ q. 70; view_ok = λ live replay. true }

abbrev pub policy : WorkerPolicy
policy = record {
  global_concurrency = 2;
  owner_concurrency = 1;
  development_budget_seconds = 1800;
  owner_budget_seconds = 600;
  baseline_seconds = 363;
  session_seconds = 300;
  max_steps = 30;
  max_model_calls = 30;
  lease_ms = 30000;
  recovery_limit = 3;
  lifetime_reservation_limit_seconds = 3600;
}

abbrev pub scope : TargetScope
scope = record {
  target_url = codes "https://a.example";
  allowed_subdomains = [];
  path_prefixes = codes "/" ∷ [];
}

abbrev pub persona : Persona
persona = record { id = 5; snapshot = codes "reader" }

abbrev pub assignment : Assignment
assignment = record { persona_id = 5; goal = codes "order"; criteria = codes "ordered" ∷ [] }

abbrev pub request : ManagedCreate
request = record {
  authorization_acknowledged = true;
  managed_policy_acknowledged = true;
  scope = scope;
  assignments = assignment ∷ [];
}

abbrev pub the_run : Run
the_run = record {
  id = 1;
  owner = 9;
  idempotency_key = codes "key";
  request_hash = 70;
  scope = scope;
  created_at = 1000;
  updated_at = 1000;
  cancel_requested_at = none;
}

-- The row that `create` inserts.
abbrev pub waiting_row : Attempt
waiting_row = record {
  id = 2;
  run_id = 1;
  persona = persona;
  goal = codes "order";
  criteria = codes "ordered" ∷ [];
  correlation_token = codes "t";
  status = Status.queued;
  state = AttemptState.queued;
  cleanup = Cleanup.not_started;
  cancel_requested_at = none;
  provider_status = none;
  result = none;
  error = none;
  reserved_seconds = 0;
  consumed_seconds = 0;
  released_seconds = 0;
  actual_browser_ms = none;
  started_at = none;
  finished_at = none;
  dispatch_started = false;
  provider_run_id = none;
  provider_session_id = none;
  provider_agent_id = none;
  provider_task = none;
  live_view_url = none;
  replay_url = none;
  lease_owner = none;
  lease_generation = 0;
  lease_expires_at = none;
  recovery_count = 0;
  recovery_after = none;
  first_create_failure = none;
}

-- The row once worker 7 has claimed it.
abbrev pub held_row : Attempt
held_row = record waiting_row {
  state = AttemptState.reserved;
  status = Status.running;
  reserved_seconds = 300;
  started_at = some 2000;
  lease_owner = some 7;
  lease_generation = 1;
  lease_expires_at = some 32000;
}

-- The row once it is dispatched.
abbrev pub sent_row : Attempt
sent_row = record held_row {
  state = AttemptState.dispatched;
  dispatch_started = true;
  cleanup = Cleanup.unconfirmed;
  provider_agent_id = some (codes "agent");
  provider_task = some (codes "task");
}

abbrev pub store_of : Attempt → Store
store_of a = record {
  runs = the_run ∷ [];
  attempts = a ∷ [];
  progress = [];
  policy = some policy;
  native = [];
}

abbrev pub touched : Attempt → Store
touched a = record (store_of a) { runs = record the_run { updated_at = 2000 } ∷ [] }

abbrev pub the_claim : Claim
the_claim = record {
  id = 2;
  run_id = 1;
  owner = 9;
  worker = 7;
  generation = 1;
  correlation_token = codes "t";
  persona = persona;
  goal = codes "order";
  criteria = codes "ordered" ∷ [];
  scope = scope;
  reserved_seconds = 300;
  started_at = 2000;
  recovery = false;
  dispatch_started = false;
  provider_run_id = none;
  provider_session_id = none;
  provider_agent_id = none;
  provider_task = none;
}

abbrev pub closing : Outcome
closing = record {
  status = Status.completed;
  provider_status = none;
  closed = true;
  result = none;
  error = none;
  actual_browser_ms = some 90500;
  allocation_attempted = true;
}

pub waiting-Valid : Valid (store_of waiting_row)
waiting-Valid = record { distinct = (tt, tt); sound = (ground arith, tt) }

pub held-Valid : Valid (store_of held_row)
held-Valid = record { distinct = (tt, tt); sound = (ground arith, tt) }

pub sent-Valid : Valid (store_of sent_row)
sent-Valid = record { distinct = (tt, tt); sound = (ground arith, tt) }
