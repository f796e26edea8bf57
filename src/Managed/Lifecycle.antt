-- ===== src/Managed/Lifecycle.antt =====
-- The beginning and the end of a managed run: `existing`, `create`, `cancel` and `finish` of
-- src/server/managed/store.ts, with the request schema of src/lib/managed-contracts.ts.
use hack_the_north.Common.{
  ℕ, suc, ◌+◌, ◌-◌, ◌*◌, ◌/◌, ◌^◌, min, max, Bool, true, false, not, ◌&&◌, ◌||◌, Option, none, some,
  List, [], ◌∷◌, ◌++◌, Text, ok, err, ◌>>=◌, ◌>>◌, throw_if, ◌==◌, leb, if◌then◌else◌, length,
  find?, any, all, text_eq, is_some, coalesce, or_else,
}
use hack_the_north.Managed.Rows.{
  AttemptState, Status, Cleanup, Persona, TargetScope, Run, Attempt, Store, Claim, Outcome,
  not_found, conflict, invalid_input, constraint_violation,
}
use hack_the_north.Managed.Queries.{
  M, row, update_attempt, touch, secrets, Redaction, safe_text, safe_result, RunView, get,
  map_option,
}
use hack_the_north.Managed.Claims.{assert_lease, is_waiting}

pub record Assignment : Type 0 where
  pub persona_id : ℕ
  pub goal : Text
  pub criteria : List Text

pub record ManagedCreate : Type 0 where
  pub authorization_acknowledged : Bool
  pub managed_policy_acknowledged : Bool
  pub scope : TargetScope
  pub assignments : List Assignment

abbrev within : ℕ → ℕ → ℕ → Bool
within lo hi n = leb lo n && leb n hi

scope_ok : TargetScope → Bool
scope_ok s =
    within 1 4096 (length s.target_url)
    && (leb (length s.allowed_subdomains) 16
        && (all (λ h. within 1 253 (length h)) s.allowed_subdomains
            && (within 1 16 (length s.path_prefixes)
                && all (λ p. within 1 1024 (length p)) s.path_prefixes)))

assignment_ok : Assignment → Bool
assignment_ok a =
    within 1 2000 (length a.goal)
    && (within 1 6 (length a.criteria) && all (λ c. within 1 500 (length c)) a.criteria)

distinct_personas : List Assignment → Bool
distinct_personas [] = true
distinct_personas (a ∷ rest) =
    not (any (λ b. b.persona_id == a.persona_id) rest) && distinct_personas rest

-- `managedCreateSchema`, for texts that are trimmed already.
unfoldable pub create_ok : ManagedCreate → Bool
unfolding scope_ok assignment_ok distinct_personas
create_ok q =
    q.authorization_acknowledged
    && (q.managed_policy_acknowledged
        && (scope_ok q.scope
            && (within 1 8 (length q.assignments)
                && (all assignment_ok q.assignments && distinct_personas q.assignments))))

-- The values of `randomUUID` that a call of `create` draws, by the index of the assignment.
pub record Fresh : Type 0 where
  pub run : ℕ
  pub attempt : ℕ → ℕ
  pub token : ℕ → Text

abbrev pub of_key : ℕ → Text → Run → Bool
of_key owner key r = r.owner == owner && text_eq r.idempotency_key key

unfoldable pub new_attempt : ℕ → ℕ → Text → Persona → Assignment → Attempt
new_attempt id run_id token persona a = record {
  id = id;
  run_id = run_id;
  persona = persona;
  goal = a.goal;
  criteria = a.criteria;
  correlation_token = token;
  status = Status.queued;
  state = AttemptState.queued;
  cleanup = Cleanup.not_started;
  cancel_requested_at = none;
  provider_status = none;
  result = none;
  error = none;
  reserved_seconds = 0;
  consumed_seconds = 0;
  released_seconds = 0;
  actual_browser_ms = none;
  started_at = none;
  finished_at = none;
  dispatch_started = false;
  provider_run_id = none;
  provider_session_id = none;
  provider_agent_id = none;
  provider_task = none;
  live_view_url = none;
  replay_url = none;
  lease_owner = none;
  lease_generation = 0;
  lease_expires_at = none;
  recovery_count = 0;
  recovery_after = none;
  first_create_failure = none;
}

-- `INSERT INTO managed_attempts`: a repeated id or correlation token is refused.
unfoldable pub insert_attempt : Attempt → List Attempt → M (List Attempt)
insert_attempt a rows =
    if any (λ b. b.id == a.id || text_eq b.correlation_token a.correlation_token) rows
    then err constraint_violation
    else ok (rows ++ (a ∷ []))

-- `personas.find(...)`, for each assignment.
unfoldable pub snapshots : List Persona → List Assignment → M (List (Persona × Assignment))
snapshots personas [] = ok []
snapshots personas (a ∷ rest) = elim (find? (λ p. p.id == a.persona_id) personas) [
  | none ↦ err not_found
  | some p ↦ do more ← snapshots personas rest; ok ((p, a) ∷ more)
]

unfoldable pub insert_attempts :
    Fresh → ℕ → List (Persona × Assignment) → List Attempt → M (List Attempt)
unfolding new_attempt
insert_attempts fresh index [] rows = ok rows
insert_attempts fresh index ((p, a) ∷ rest) rows = do
  more ← insert_attempt (new_attempt (fresh.attempt index) fresh.run (fresh.token index) p a) rows
  insert_attempts fresh (suc index) rest more

-- `digest` is the hash of the request's JSON text.
module _ (rd : Redaction) (digest : ManagedCreate → ℕ) where
  unfoldable pub existing : Store → (owner : ℕ) → (key : Text) → ManagedCreate → M (Option RunView)
  existing s owner key q = do
    throw_if (not (create_ok q)) invalid_input
    elim (find? (of_key owner key) s.runs) [
      | none ↦ ok none
      | some r ↦
          if r.request_hash == digest q
          then (do v ← get rd s owner r.id; ok (some v))
          else err conflict
    ]

  new_run : ℕ → ℕ → ℕ → Text → ManagedCreate → Run
  new_run now id owner key q = record {
    id = id;
    owner = owner;
    idempotency_key = key;
    request_hash = digest q;
    scope = q.scope;
    created_at = now;
    updated_at = now;
    cancel_requested_at = none;
  }

  -- The inserts of `create`, when the key is new.
  unfoldable pub create_new :
      ℕ
      → Store
      → Fresh
      → (owner : ℕ) → (key : Text) → ManagedCreate
      → List Persona
      → M ((RunView × Bool) × Store)
  unfolding new_run
  create_new now s fresh owner key q personas = do
    chosen ← snapshots personas q.assignments
    throw_if (any (λ r. r.id == fresh.run) s.runs) constraint_violation
    rows ← insert_attempts fresh 0 chosen s.attempts
    let t = record s { runs = s.runs ++ (new_run now fresh.run owner key q ∷ []); attempts = rows }
    v ← get rd t owner fresh.run
    ok ((v, true), t)

  -- The Boolean says whether the run is new.
  unfoldable pub create :
      ℕ
      → Store
      → Fresh
      → (owner : ℕ) → (key : Text) → ManagedCreate
      → List Persona
      → M ((RunView × Bool) × Store)
  create now s fresh owner key q personas = do
    found ← existing s owner key q
    elim found [ some v ↦ ok ((v, false), s) | none ↦ create_new now s fresh owner key q personas ]

abbrev pub is_settled : AttemptState → Bool
is_settled AttemptState.settled = true
is_settled _ = false

-- The two UPDATE statements of `cancel` on the rows of the run.
unfoldable pub cancelled : ℕ → Attempt → Attempt
cancelled now a =
    if is_settled a.state
    then a
    else if is_waiting a.state
    then record a {
      cancel_requested_at = coalesce a.cancel_requested_at (some now);
      state = AttemptState.settled;
      status = Status.cancelled;
      cleanup = Cleanup.closed;
      actual_browser_ms = some 0;
      finished_at = some now;
    }
    else record a { cancel_requested_at = coalesce a.cancel_requested_at (some now) }

unfoldable pub cancel_attempts : ℕ → ℕ → List Attempt → List Attempt
unfolding cancelled
cancel_attempts now id [] = []
cancel_attempts now id (a ∷ rest) =
    (if a.run_id == id then cancelled now a else a) ∷ cancel_attempts now id rest

unfoldable pub cancel_runs : ℕ → ℕ → List Run → List Run
cancel_runs now id [] = []
cancel_runs now id (r ∷ rest) =
    (if r.id == id
      then record r {
        cancel_requested_at = coalesce r.cancel_requested_at (some now);
        updated_at = now;
      }
      else r)
    ∷ cancel_runs now id rest

-- Milliseconds to whole seconds, rounded up.
abbrev ceil_seconds : ℕ → ℕ
ceil_seconds ms = (ms + 999) / 1000

abbrev max_option : Option ℕ → Option ℕ → Option ℕ
max_option previous none = previous
max_option previous (some n) = some (max (or_else previous 0) n)

-- `consumed_seconds`: a closed attempt that may have allocated a browser, and of which the
-- browser time is not reported, is charged all that was reserved for it.
unfoldable pub consumed_after : Attempt → Outcome → Bool → ℕ
consumed_after a o allocated = max a.consumed_seconds (
    ceil_seconds (
      max (or_else (max_option a.actual_browser_ms o.actual_browser_ms) 0) (
        if o.closed && (allocated && not (is_some o.actual_browser_ms))
        then a.reserved_seconds * 1000
        else 0)))

unfoldable pub is_allocated : Attempt → Outcome → Bool
is_allocated a o = a.dispatch_started || (is_some a.provider_run_id || o.allocation_attempted)

abbrev pub is_outcome : Status → Bool
is_outcome Status.completed = true
is_outcome Status.failed = true
is_outcome Status.cancelled = true
is_outcome _ = false

module _ (rd : Redaction) where
  unfoldable pub cancel : ℕ → Store → (owner : ℕ) → (id : ℕ) → M (RunView × Store)
  unfolding cancel_attempts cancel_runs
  cancel now s owner id = do
    before ← get rd s owner id
    let t = record s {
      runs = cancel_runs now id s.runs;
      attempts = cancel_attempts now id s.attempts;
    }
    if any (λ a. a.run_id == id && not (is_settled a.state)) s.attempts
        then (do after ← get rd t owner id; ok (after, t))
        else ok (before, s)

  unfoldable pub finished : ℕ → Attempt → Outcome → Attempt → Attempt
  unfolding consumed_after is_allocated
  finished now a o b =
      let consumed = consumed_after a o (is_allocated a o) in
      let hidden = secrets a in
      record b {
        state = if o.closed then AttemptState.settled else AttemptState.quarantined;
        status =
            if o.closed
            then (if is_some a.cancel_requested_at then Status.cancelled else o.status)
            else Status.cleanup_required;
        cleanup = if o.closed then Cleanup.closed else Cleanup.unconfirmed;
        provider_status = map_option (λ t. safe_text rd t 64 hidden) o.provider_status;
        result = map_option (λ r. safe_result rd r hidden) o.result;
        error = map_option (λ t. safe_text rd t 2000 hidden) o.error;
        actual_browser_ms =
            coalesce (max_option a.actual_browser_ms o.actual_browser_ms)
              (if o.closed && not (is_allocated a o) then some 0 else none);
        consumed_seconds = consumed;
        released_seconds = if o.closed then a.reserved_seconds - consumed else 0;
        lease_owner = none;
        lease_expires_at = none;
        recovery_after =
            if o.closed then none else some (now + min 60000 (2000 * 2 ^ a.recovery_count));
        finished_at = coalesce b.finished_at (if o.closed then some now else none);
      }

  unfoldable pub finish : ℕ → Store → Claim → Outcome → M Store
  unfolding finished
  finish now s c o = do
    throw_if (not (is_outcome o.status)) invalid_input
    held ← assert_lease now s c true
    a ← row s c.id
    ok (touch now c.run_id (update_attempt s c.id (finished now a o)))
