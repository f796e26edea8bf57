-- ===== src/Managed/Budget/Ceilings.antt =====
-- The ceilings of `claim` (src/server/managed/store.ts), as what holds after it starts a session.
use hack_the_north.Common.{
  ℕ, ◌+◌, ◌≡◌, ◌≤◌, ◌<◌, refl, false, some, List, ◌&&◌, arith, if◌then◌else◌, sum_of,
}
use hack_the_north.Capacity.{
  WorkerPolicy, Usage, occupancy, owner_occupancy, accounting, owner_accounting, over_budget,
  committed_of, owned_by, worker_concurrency_limits,
}
use hack_the_north.Managed.Rows.{AttemptState, Run, Attempt, Store}
use hack_the_north.Managed.Queries.{update_attempt, usages, usage_of}
use hack_the_north.Managed.Claims.{reserved, admission, admit, leased}
use hack_the_north.Managed.Tables.{Distinct, by_id}
use hack_the_north.Managed.Sound.{Sound}
use hack_the_north.Managed.Budget.Measures.{sum_usages-update, one_if, count-eq-sum, sum_of-keep}

-- The usages fit the policy's ceilings, for all and for this owner.
pub record Within (p : WorkerPolicy) (owner : ℕ) (us : List Usage) : Type 0 where
  pub sessions : occupancy us ≤ (worker_concurrency_limits p).global_limit
  pub owner_sessions : owner_occupancy owner us ≤ (worker_concurrency_limits p).owner_limit
  pub seconds : (accounting us).committed + p.baseline_seconds ≤ p.development_budget_seconds
  pub owner_seconds : (owner_accounting owner us).committed ≤ p.owner_budget_seconds
  pub lifetime : (accounting us).reserved ≤ p.lifetime_reservation_limit_seconds

-- What is left before a session is started.
pub record Room (p : WorkerPolicy) (owner : ℕ) (us : List Usage) : Type 0 where
  sessions : occupancy us < (worker_concurrency_limits p).global_limit
  owner_sessions : owner_occupancy owner us < (worker_concurrency_limits p).owner_limit
  seconds :
      (accounting us).committed + p.baseline_seconds + p.session_seconds
      ≤ p.development_budget_seconds
  owner_seconds : (owner_accounting owner us).committed + p.session_seconds ≤ p.owner_budget_seconds
  lifetime : (accounting us).reserved + p.session_seconds ≤ p.lifetime_reservation_limit_seconds

pub admission-Room :
    (p : WorkerPolicy) (owner : ℕ) (s : Store)
    → admission p owner s ≡ admit
    → occupancy (usages s) < (worker_concurrency_limits p).global_limit
    → Room p owner (usages s)
unfolding admission over_budget
admission-Room p owner s e h = ground arith

-- The row that is started, in each measure.
module _ (now worker : ℕ) (p : WorkerPolicy) (runs : List Run) (a : Attempt) where
  unfoldable pub start : Attempt → Attempt
  start x = leased now worker p false (reserved now p.session_seconds x)

  module _ (sound : Sound a) (waits : a.state ≡ AttemptState.queued) where
    start_occupies :
        sum_of (one_if (λ u. u.occupied)) (usage_of runs (start a))
        ≤ sum_of (one_if (λ u. u.occupied)) (usage_of runs a) + 1
    unfolding start leased reserved usage_of
    start_occupies = ground arith

    start_owner_occupies :
        (o : ℕ)
        → sum_of (one_if (λ u. owned_by o u && u.occupied)) (usage_of runs (start a))
          ≤ sum_of (one_if (λ u. owned_by o u && u.occupied)) (usage_of runs a) + 1
    unfolding start leased reserved usage_of
    start_owner_occupies o = ground arith

    start_commits :
        sum_of committed_of (usage_of runs (start a))
        ≤ sum_of committed_of (usage_of runs a) + p.session_seconds
    unfolding start leased reserved usage_of
    start_commits = ground arith

    start_owner_commits :
        (o : ℕ)
        → sum_of (λ u. if owned_by o u then committed_of u else 0) (usage_of runs (start a))
          ≤ sum_of (λ u. if owned_by o u then committed_of u else 0) (usage_of runs a)
            + p.session_seconds
    unfolding start leased reserved usage_of
    start_owner_commits o = ground arith

    start_reserves :
        sum_of (λ u. u.reserved) (usage_of runs (start a))
        ≤ sum_of (λ u. u.reserved) (usage_of runs a) + p.session_seconds
    unfolding start leased reserved usage_of
    start_reserves = ground arith

-- Starting a waiting row where there is room leaves the usages within the ceilings.
pub started-Within :
    (now worker : ℕ) (p : WorkerPolicy) (owner : ℕ) (s : Store) (a : Attempt)
    → Distinct s.attempts
    → by_id a.id s.attempts ≡ some a
    → Sound a
    → a.state ≡ AttemptState.queued
    → Room p owner (usages s)
    → Within p owner (usages (update_attempt s a.id (start now worker p s.runs a)))
unfolding occupancy owner_occupancy accounting owner_accounting
started-Within now worker p owner s a d e sound waits room =
    let g = start now worker p s.runs a in
    let us = usages s in
    let us' = usages (update_attempt s a.id g) in
    record {
      sessions = omega (
        arith,
        count-eq-sum (λ u. u.occupied) us,
        count-eq-sum (λ u. u.occupied) us',
        room.sessions,
        sum_usages-update (one_if (λ u. u.occupied)) s.runs g 1 s a.id refl d e refl
            (start_occupies now worker p s.runs a sound waits),
      );
      owner_sessions = omega (
        arith,
        count-eq-sum (λ u. owned_by owner u && u.occupied) us,
        count-eq-sum (λ u. owned_by owner u && u.occupied) us',
        room.owner_sessions,
        sum_usages-update (one_if (λ u. owned_by owner u && u.occupied)) s.runs g 1 s a.id refl d e
            refl (start_owner_occupies now worker p s.runs a sound waits owner),
      );
      seconds = omega (
        arith,
        room.seconds,
        sum_usages-update committed_of s.runs g p.session_seconds s a.id refl d e refl
            (start_commits now worker p s.runs a sound waits),
      );
      owner_seconds = omega (
        arith,
        room.owner_seconds,
        sum_of-keep committed_of (owned_by owner) us,
        sum_of-keep committed_of (owned_by owner) us',
        sum_usages-update (λ u. if owned_by owner u then committed_of u else 0) s.runs g
            p.session_seconds s a.id refl d e refl
            (start_owner_commits now worker p s.runs a sound waits owner),
      );
      lifetime = omega (
        arith,
        room.lifetime,
        sum_usages-update (λ u. u.reserved) s.runs g p.session_seconds s a.id refl d e refl
            (start_reserves now worker p s.runs a sound waits),
      );
    }
