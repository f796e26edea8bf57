-- ===== src/Capacity/Bounds.antt =====
-- Bounds on the ceilings of src/server/worker/config.ts.
use hack_the_north.Common.{or_else, some, ◌⊎◌, ◌+◌, ◌*◌, ◌≤◌, ◌≡◌, true, arith}
use hack_the_north.Capacity.{
  WorkerPolicy, RequestedLimits, policy_ok, worker_concurrency_limits, worker_execution_limits,
}

-- For a policy that the schema accepts, each ceiling lets a session run, an owner's ceiling is at
-- most the global one, and the global one is at most 8 and at most what the policy asks.
pub worker_concurrency_limits_bounds :
    (p : WorkerPolicy)
    → policy_ok p ≡ true
    → let l = worker_concurrency_limits p in
      (1 ≤ l.owner_limit)
      × (l.owner_limit ≤ l.global_limit)
      × (l.global_limit ≤ 8)
      × (l.global_limit ≤ p.global_concurrency)
      × (l.owner_limit ≤ p.owner_concurrency)
unfolding policy_ok worker_concurrency_limits
worker_concurrency_limits_bounds p h = ground arith

-- For a policy that the schema accepts and any request, the limits of an attempt never exceed the
-- policy's steps and model calls, nor the steps, the model calls and the duration of the request
-- where it names them, nor 240 seconds where it names no duration, and leave 59 seconds of the
-- reserved session; the steps and the model calls are each the policy's or what the request names.
pub worker_execution_limits_bounds :
    (p : WorkerPolicy) (r : RequestedLimits)
    → policy_ok p ≡ true
    → let l = worker_execution_limits p r in
      (l.max_steps ≤ p.max_steps)
      × (l.max_model_calls ≤ p.max_model_calls)
      × (l.max_duration_ms + 59000 ≤ p.session_seconds * 1000)
      × (l.max_steps ≤ or_else r.steps l.max_steps)
      × (l.max_model_calls ≤ or_else r.model_calls l.max_model_calls)
      × (l.max_duration_ms ≤ or_else r.duration_ms 240000)
      × ((l.max_steps ≡ p.max_steps) ⊎ (r.steps ≡ some l.max_steps))
      × ((l.max_model_calls ≡ p.max_model_calls) ⊎ (r.model_calls ≡ some l.max_model_calls))
unfolding policy_ok worker_execution_limits
worker_execution_limits_bounds p r h = ground arith
