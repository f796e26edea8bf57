-- ===== src/Managed/Claims.antt =====
-- Claiming work and keeping a lease (`claim`, `acquire`, `assertLease`, `heartbeat` and
-- `assertPolicy` of src/server/managed/store.ts). `now` is what the clock gives in the transaction.
use hack_the_north.Common.{
  ℕ, ◌+◌, Bool, true, false, not, ◌&&◌, Option, none, some, List, [], ◌∷◌, ◌++◌, ok, err, ◌>>=◌,
  ◌>>◌, throw_if, ◌==◌, leb, ltb, if◌then◌else◌, take, find?, text_eq, is_some, codes,
}
use hack_the_north.Capacity.{
  WorkerPolicy, policy_ok, new_policy_ok, worker_concurrency_limits, occupancy, owner_occupancy,
  accounting, owner_accounting, over_budget,
}
use hack_the_north.Managed.Rows.{
  AttemptState, Status, Cleanup, Run, Attempt, Store, Claim, policy_mismatch, lease_lost,
  cancel_requested, invalid_input,
}
use hack_the_north.Managed.Queries.{M, row, update_attempt, touch, find_run, usages}

-- `IN ('reserved','dispatched','quarantined')`.
abbrev pub is_leasable : AttemptState → Bool
is_leasable AttemptState.reserved = true
is_leasable AttemptState.dispatched = true
is_leasable AttemptState.quarantined = true
is_leasable _ = false

abbrev pub is_waiting : AttemptState → Bool
is_waiting AttemptState.queued = true
is_waiting _ = false

-- Two policies have the same JSON text.
unfoldable pub same_policy : WorkerPolicy → WorkerPolicy → Bool
same_policy p q =
    p.global_concurrency == q.global_concurrency
    && (p.owner_concurrency == q.owner_concurrency
        && (p.development_budget_seconds == q.development_budget_seconds
            && (p.owner_budget_seconds == q.owner_budget_seconds
                && (p.baseline_seconds == q.baseline_seconds
                    && (p.session_seconds == q.session_seconds
                        && (p.max_steps == q.max_steps
                            && (p.max_model_calls == q.max_model_calls
                                && (p.lease_ms == q.lease_ms
                                    && (p.recovery_limit == q.recovery_limit
                                        && p.lifetime_reservation_limit_seconds
                                          == q.lifetime_reservation_limit_seconds)))))))))

unfoldable pub assert_policy : Store → WorkerPolicy → M Store
unfolding same_policy
assert_policy s p = elim s.policy [
  | some stored ↦ if same_policy stored p then ok s else err policy_mismatch
  | none ↦ if new_policy_ok p then ok (record s { policy = some p }) else err invalid_input
]

abbrev or_null : Option ℕ → (ℕ → Bool) → Bool
or_null none p = true
or_null (some n) p = p n

-- The rows that the first query of `claim` selects.
unfoldable pub is_expired : ℕ → ℕ → Attempt → Bool
is_expired now limit a =
    is_leasable a.state
    && (or_null a.lease_expires_at (λ t. leb t now)
        && (or_null a.recovery_after (λ t. leb t now) && ltb a.recovery_count limit))

-- The two UPDATE statements of `acquire`.
unfoldable pub leased : ℕ → ℕ → WorkerPolicy → Bool → Attempt → Attempt
leased now worker p recovery a =
    let b = record a {
      lease_owner = some worker;
      lease_generation = a.lease_generation + 1;
      lease_expires_at = some (now + p.lease_ms);
      recovery_count = a.recovery_count + (if recovery then 1 else 0);
    } in
    if recovery
    then record b {
      state = AttemptState.quarantined;
      status = Status.cleanup_required;
      cleanup = Cleanup.unconfirmed;
    }
    else b

unfoldable pub claim_of : ℕ → Bool → Attempt → Run → ℕ → Claim
claim_of worker recovery a r started = record {
  id = a.id;
  run_id = a.run_id;
  owner = r.owner;
  worker = worker;
  generation = a.lease_generation;
  correlation_token = a.correlation_token;
  persona = a.persona;
  goal = a.goal;
  criteria = a.criteria;
  scope = r.scope;
  reserved_seconds = a.reserved_seconds;
  started_at = started;
  recovery = recovery;
  dispatch_started = a.dispatch_started;
  provider_run_id = a.provider_run_id;
  provider_session_id = a.provider_session_id;
  provider_agent_id = a.provider_agent_id;
  provider_task = a.provider_task;
}

-- A null `started_at`, or a missing run, is an error of the parser.
unfoldable pub acquire : ℕ → Store → ℕ → ℕ → WorkerPolicy → Bool → M (Claim × Store)
unfolding leased claim_of
acquire now s id worker p recovery = do
  let t = update_attempt s id (leased now worker p recovery)
  a ← row t id
  elim (find_run a.run_id t.runs) [
    | none ↦ err invalid_input
    | some r ↦ elim a.started_at [
      | none ↦ err invalid_input
      | some started ↦ ok (claim_of worker recovery a r started, touch now a.run_id t)
    ]
  ]

-- The UPDATE that rejects an attempt for which no budget is left.
unfoldable pub exhausted : ℕ → Attempt → Attempt
exhausted now a = record a {
  state = AttemptState.settled;
  status = Status.failed;
  cleanup = Cleanup.closed;
  actual_browser_ms = some 0;
  error = some (codes "budget_exhausted");
  finished_at = some now;
}

-- The UPDATE that reserves a session.
unfoldable pub reserved : ℕ → ℕ → Attempt → Attempt
reserved now seconds a = record a {
  state = AttemptState.reserved;
  status = Status.running;
  reserved_seconds = seconds;
  started_at = some now;
}

abbrev pub owner_of : List Run → Attempt → Option ℕ
owner_of runs a = elim (find_run a.run_id runs) [ none ↦ none | some r ↦ some r.owner ]

-- The tests on one queued row: skip it, fail it for want of budget, or reserve a session.
pub data Admission : Type 0 where
  skip exhaust admit : Admission

unfoldable pub admission : WorkerPolicy → ℕ → Store → Admission
admission p owner s =
    if leb (worker_concurrency_limits p).owner_limit (owner_occupancy owner (usages s))
    then skip
    else if over_budget p (accounting (usages s)) (owner_accounting owner (usages s))
    then exhaust
    else admit

-- The loop over the queued rows. Each is an attempt joined to its run.
unfoldable pub claim_queued :
    ℕ → ℕ → WorkerPolicy → List (Attempt × ℕ) → Store → M (Option Claim × Store)
claim_queued now worker p [] s = ok (none, s)
claim_queued now worker p ((a, owner) ∷ rest) s = elim (admission p owner s) [
  | skip ↦ claim_queued now worker p rest s
  | exhaust ↦
      claim_queued now worker p rest (touch now a.run_id (update_attempt s a.id (exhausted now)))
  | admit ↦ do
    (c, t) ←
        acquire now (update_attempt s a.id (reserved now p.session_seconds)) a.id worker p false
    ok (some c, t)
]

-- `a.state='queued'` and neither the attempt nor its run is cancelled.
unfoldable pub queued_row : List Run → Attempt → List (Attempt × ℕ)
queued_row runs a = elim (find_run a.run_id runs) [
  | none ↦ []
  | some r ↦
      if is_waiting a.state
        && (not (is_some a.cancel_requested_at) && not (is_some r.cancel_requested_at))
      then (a, r.owner) ∷ []
      else []
]

unfoldable pub queued_rows : List Run → List Attempt → List (Attempt × ℕ)
unfolding queued_row
queued_rows runs [] = []
queued_rows runs (a ∷ rest) = queued_row runs a ++ (queued_rows runs rest)

-- `claim`, once the policy is accepted.
unfoldable pub claim_from : ℕ → Store → ℕ → WorkerPolicy → M (Option Claim × Store)
claim_from now s worker p = elim (find? (is_expired now p.recovery_limit) s.attempts) [
  | some a ↦ do (c, t) ← acquire now s a.id worker p true; ok (some c, t)
  | none ↦
      if leb (worker_concurrency_limits p).global_limit (occupancy (usages s))
      then ok (none, s)
      else claim_queued now worker p (take 100 (queued_rows s.runs s.attempts)) s
]

unfoldable pub claim : ℕ → Store → ℕ → WorkerPolicy → M (Option Claim × Store)
claim now s worker p = do
  throw_if (not (policy_ok p)) invalid_input
  s' ← assert_policy s p
  claim_from now s' worker p

abbrev is_at : Option ℕ → ℕ → Bool
is_at none n = false
is_at (some m) n = m == n

abbrev is_after : Option ℕ → ℕ → Bool
is_after none n = false
is_after (some m) n = ltb n m

-- The row that the query of `assertLease` selects.
unfoldable pub holds : ℕ → Claim → List Run → Attempt → Bool
holds now c runs a =
    a.id == c.id
    && (a.run_id == c.run_id
        && (text_eq a.correlation_token c.correlation_token
            && (is_leasable a.state
                && (is_at a.lease_owner c.worker
                    && (a.lease_generation == c.generation
                        && (is_after a.lease_expires_at now && is_at (owner_of runs a) c.owner))))))

unfoldable pub assert_lease : ℕ → Store → Claim → Bool → M Attempt
unfolding holds
assert_lease now s c allow_cancelled = elim (find? (holds now c s.runs) s.attempts) [
  | none ↦ err lease_lost
  | some a ↦
      if not allow_cancelled && is_some a.cancel_requested_at then err cancel_requested else ok a
]

unfoldable pub heartbeat : ℕ → Store → Claim → ℕ → M (Bool × Store)
heartbeat now s c lease_ms = do
  throw_if (not (leb 5000 lease_ms && leb lease_ms 120000)) invalid_input
  held ← assert_lease now s c true
  let t = update_attempt s c.id (λ a. record a { lease_expires_at = some (now + lease_ms) })
  a ← row t c.id
  ok (is_some a.cancel_requested_at, t)
