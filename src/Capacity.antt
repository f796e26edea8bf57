-- ===== src/Capacity.antt =====
-- src/server/worker/config.ts, src/lib/execution-capacity.ts and the two accounting queries that
-- src/server/managed/store.ts and src/server/worker/repository.ts share: the worker policy, the
-- ceilings on concurrent sessions, and the seconds of browser time that are reserved and committed.
pub mod Bounds
mod Witnesses
use hack_the_north.Common.{
  ℕ, ◌+◌, ◌-◌, ◌*◌, min, max, Bool, ◌&&◌, ◌||◌, Option, List, leb, ltb, ◌==◌, count_of, sum_of,
  keep, or_else,
}

abbrev pub max_concurrent_agents : ℕ
max_concurrent_agents = 8

abbrev pub historical_max_concurrent_agents : ℕ
historical_max_concurrent_agents = 12

pub record WorkerPolicy : Type 0 where
  pub global_concurrency : ℕ
  pub owner_concurrency : ℕ
  pub development_budget_seconds : ℕ
  pub owner_budget_seconds : ℕ
  pub baseline_seconds : ℕ
  pub session_seconds : ℕ
  pub max_steps : ℕ
  pub max_model_calls : ℕ
  pub lease_ms : ℕ
  pub recovery_limit : ℕ
  pub lifetime_reservation_limit_seconds : ℕ

abbrev between : ℕ → ℕ → ℕ → Bool
between lo hi n = leb lo n && leb n hi

-- The ranges of `workerPolicySchema`.
unfoldable pub policy_ok : WorkerPolicy → Bool
policy_ok p =
    between 1 historical_max_concurrent_agents p.global_concurrency
    && (between 1 historical_max_concurrent_agents p.owner_concurrency
        && (between 363 324000 p.development_budget_seconds
            && (between 1 324000 p.owner_budget_seconds
                && (between 363 324000 p.baseline_seconds
                    && (between 60 300 p.session_seconds
                        && (between 1 30 p.max_steps
                            && (between 1 30 p.max_model_calls
                                && (between 5000 120000 p.lease_ms
                                    && (between 1 10 p.recovery_limit
                                        && between 60 324000
                                            p.lifetime_reservation_limit_seconds)))))))))

-- `newWorkerPolicySchema`: what a policy must satisfy when it is first stored.
unfoldable pub new_policy_ok : WorkerPolicy → Bool
unfolding policy_ok
new_policy_ok p =
    policy_ok p
    && (leb p.global_concurrency max_concurrent_agents
        && leb p.owner_concurrency max_concurrent_agents)

pub record ConcurrencyLimits : Type 0 where
  pub global_limit : ℕ
  pub owner_limit : ℕ

unfoldable pub worker_concurrency_limits : WorkerPolicy → ConcurrencyLimits
worker_concurrency_limits p = record {
  global_limit = min p.global_concurrency max_concurrent_agents;
  owner_limit = min (min p.owner_concurrency p.global_concurrency) max_concurrent_agents;
}

-- `ExecutionLimits` as requested (each may be absent) and as required.
pub record RequestedLimits : Type 0 where
  pub steps : Option ℕ
  pub model_calls : Option ℕ
  pub duration_ms : Option ℕ

pub record ExecutionLimits : Type 0 where
  pub max_steps : ℕ
  pub max_model_calls : ℕ
  pub max_duration_ms : ℕ

-- `policy.sessionSeconds` is at least 60, so the truncated difference is exact.
unfoldable pub worker_execution_limits : WorkerPolicy → RequestedLimits → ExecutionLimits
worker_execution_limits p r = record {
  max_steps = min p.max_steps (or_else r.steps p.max_steps);
  max_model_calls = min p.max_model_calls (or_else r.model_calls p.max_model_calls);
  max_duration_ms = min (max 1000 ((p.session_seconds - 60) * 1000)) (or_else r.duration_ms 240000);
}

-- One row of the union over native reservations and managed attempts that both accounting queries
-- and both occupancy counts read: who owns it, whether it holds a session, and its seconds.
pub record Usage : Type 0 where
  pub owner : ℕ
  pub occupied : Bool
  pub reserved : ℕ
  pub consumed : ℕ
  pub released : ℕ

-- `max(reserved_seconds - released_seconds, consumed_seconds)`; a released amount is at most the
-- reserved one (a CHECK of the table), so the truncated difference is exact.
abbrev pub committed_of : Usage → ℕ
committed_of u = max (u.reserved - u.released) u.consumed

abbrev pub owned_by : ℕ → Usage → Bool
owned_by o u = u.owner == o

unfoldable pub occupancy : List Usage → ℕ
occupancy us = count_of (λ u. u.occupied) us

unfoldable pub owner_occupancy : ℕ → List Usage → ℕ
owner_occupancy o us = count_of (λ u. owned_by o u && u.occupied) us

pub record Accounting : Type 0 where
  pub reserved : ℕ
  pub committed : ℕ

unfoldable pub accounting : List Usage → Accounting
accounting us = record {
  reserved = sum_of (λ u. u.reserved) us;
  committed = sum_of committed_of us;
}

unfoldable pub owner_accounting : ℕ → List Usage → Accounting
unfolding accounting
owner_accounting o us = accounting (keep (owned_by o) us)

-- The three tests that both `claim` methods make before they reserve a session.
unfoldable pub over_budget : WorkerPolicy → Accounting → Accounting → Bool
over_budget p global owned =
    ltb p.development_budget_seconds (global.committed + p.baseline_seconds + p.session_seconds)
    || (ltb p.owner_budget_seconds (owned.committed + p.session_seconds)
        || ltb p.lifetime_reservation_limit_seconds (global.reserved + p.session_seconds))
