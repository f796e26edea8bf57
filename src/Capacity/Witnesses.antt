-- ===== src/Capacity/Witnesses.antt =====
-- The bounds on the ceilings at a concrete policy.
use hack_the_north.Common.{some, ◌⊎◌, ◌≡◌, ◌≤◌, ◌*◌, ◌+◌, refl, true, none}
use hack_the_north.Capacity.{
  WorkerPolicy, policy_ok, worker_concurrency_limits, worker_execution_limits,
}
use hack_the_north.Capacity.Bounds.{
  worker_concurrency_limits_bounds, worker_execution_limits_bounds,
}

abbrev small : WorkerPolicy
small = record {
  global_concurrency = 12;
  owner_concurrency = 3;
  development_budget_seconds = 1800;
  owner_budget_seconds = 600;
  baseline_seconds = 363;
  session_seconds = 60;
  max_steps = 20;
  max_model_calls = 30;
  lease_ms = 30000;
  recovery_limit = 3;
  lifetime_reservation_limit_seconds = 3600;
}

accepted : policy_ok small ≡ true
unfolding policy_ok
accepted = refl

worker_concurrency_limits_bounds_example :
    let l = worker_concurrency_limits small in
    (1 ≤ l.owner_limit)
    × (l.owner_limit ≤ l.global_limit)
    × (l.global_limit ≤ 8)
    × (l.global_limit ≤ 12)
    × (l.owner_limit ≤ 3)
worker_concurrency_limits_bounds_example = worker_concurrency_limits_bounds small accepted

worker_execution_limits_bounds_example :
    let l =
      worker_execution_limits small
        (record { steps = some 6; model_calls = none; duration_ms = some 90000 }) in
    (l.max_steps ≤ 20)
    × (l.max_model_calls ≤ 30)
    × (l.max_duration_ms + 59000 ≤ 60 * 1000)
    × (l.max_steps ≤ 6)
    × (l.max_model_calls ≤ l.max_model_calls)
    × (l.max_duration_ms ≤ 90000)
    × ((l.max_steps ≡ 20) ⊎ (some 6 ≡ some l.max_steps))
    × ((l.max_model_calls ≡ 30) ⊎ (none ≡ some l.max_model_calls))
worker_execution_limits_bounds_example =
    worker_execution_limits_bounds small
      (record { steps = some 6; model_calls = none; duration_ms = some 90000 }) accepted
