-- ===== src/Managed/Queries.antt =====
-- The queries of `ManagedStore` (src/server/managed/store.ts): a row by id, the rows of both queues
-- that the ceilings count, and what an owner is shown.
use hack_the_north.Common.{
  ℕ, Bool, true, false, ◌&&◌, Option, none, some, List, [], ◌∷◌, ◌++◌, map, Text, Result, ok, err,
  ◌>>=◌, ◌==◌, if◌then◌else◌, take, keep, find?, any, or_else, is_some,
}
use mathlib.Core.List.{reverse}
use hack_the_north.Capacity.{Usage}
use hack_the_north.Managed.Rows.{
  AttemptState, Status, Cleanup, ManagedResult, CriterionResult, Run, Attempt, Progress, Store,
  StoreError, not_found, lease_lost, Persona, TargetScope,
}

abbrev pub M : Type 0 → Type 0
M A = Result StoreError A

-- `SELECT * FROM managed_attempts WHERE id=?`.
unfoldable pub row : Store → ℕ → M Attempt
row s id = elim (find? (λ a. a.id == id) s.attempts) [ none ↦ err lease_lost | some a ↦ ok a ]

-- `UPDATE managed_attempts SET ... WHERE id=?`.
unfoldable pub update : (Attempt → Attempt) → ℕ → List Attempt → List Attempt
update f id [] = []
update f id (a ∷ rest) = (if a.id == id then f a else a) ∷ update f id rest

unfoldable pub update_attempt : Store → ℕ → (Attempt → Attempt) → Store
unfolding update
update_attempt s id f = record s { attempts = update f id s.attempts }

unfoldable pub touch_runs : ℕ → ℕ → List Run → List Run
touch_runs now id [] = []
touch_runs now id (r ∷ rs) =
    (if r.id == id then record r { updated_at = now } else r) ∷ touch_runs now id rs

unfoldable pub touch : ℕ → ℕ → Store → Store
unfolding touch_runs
touch now run_id s = record s { runs = touch_runs now run_id s.runs }

unfoldable pub find_run : ℕ → List Run → Option Run
find_run id [] = none
find_run id (r ∷ rs) = if r.id == id then some r else find_run id rs

abbrev pub holds_session : AttemptState → Bool
holds_session AttemptState.queued = false
holds_session AttemptState.settled = false
holds_session _ = true

-- One row of the union that `occupancy` and `accounting` count: an attempt joined to its run.
unfoldable pub usage_of : List Run → Attempt → List Usage
unfolding find_run
usage_of runs a = elim (find_run a.run_id runs) [
  | none ↦ []
  | some r ↦
      record {
        owner = r.owner;
        occupied = holds_session a.state;
        reserved = a.reserved_seconds;
        consumed = a.consumed_seconds;
        released = a.released_seconds;
      }
      ∷ []
]

unfoldable pub attempt_usages : List Run → List Attempt → List Usage
attempt_usages runs [] = []
attempt_usages runs (a ∷ rest) = usage_of runs a ++ attempt_usages runs rest

unfoldable pub usages : Store → List Usage
unfolding attempt_usages usage_of
usages s = s.native ++ attempt_usages s.runs s.attempts

-- `secrets`: the columns that must not show in text, where they are not null and not empty.
abbrev shown : Option Text → List Text
shown none = []
shown (some []) = []
shown (some (c ∷ t)) = (c ∷ t) ∷ []

unfoldable pub secrets : Attempt → List Text
secrets a =
    shown a.provider_run_id
    ++ (shown a.provider_session_id
        ++ (shown a.provider_agent_id
            ++ (shown a.provider_task
                ++ (shown (some a.correlation_token)
                    ++ (shown a.live_view_url ++ shown a.replay_url)))))

-- What the store takes from src/server/execution/artifacts.ts (`sanitizeEvidence` on a text) and
-- from src/server/public-page-url.ts: each is given the secrets of the row.
pub record Redaction : Type 0 where
  pub sanitize : List Text → Text → Text
  pub public_page_url : List Text → Text → Option Text

pub record PublicAttempt : Type 0 where
  pub id : ℕ
  pub persona : Persona
  pub goal : Text
  pub criteria : List Text
  pub status : Status
  pub provider_status : Option Text
  pub cleanup : Cleanup
  pub cancel_requested : Bool
  pub progress : List Progress
  pub result : Option ManagedResult
  pub error : Option Text
  pub reserved_seconds : ℕ
  pub started_at : Option ℕ
  pub finished_at : Option ℕ
  pub actual_browser_ms : Option ℕ

pub record RunView : Type 0 where
  pub id : ℕ
  pub scope : TargetScope
  pub created_at : ℕ
  pub updated_at : ℕ
  pub status : Status
  pub attempts : List PublicAttempt

abbrev pub is_cleanup_required : Status → Bool
is_cleanup_required Status.cleanup_required = true
is_cleanup_required _ = false

abbrev pub is_running : Status → Bool
is_running Status.running = true
is_running _ = false

abbrev pub is_queued : Status → Bool
is_queued Status.queued = true
is_queued _ = false

abbrev pub is_failed : Status → Bool
is_failed Status.failed = true
is_failed _ = false

abbrev pub is_cancelled : Status → Bool
is_cancelled Status.cancelled = true
is_cancelled _ = false

-- The status of a run, from those of its attempts.
unfoldable pub run_status : List Status → Status
run_status statuses =
    if any is_cleanup_required statuses
    then Status.cleanup_required
    else if any is_running statuses
    then Status.running
    else if any is_queued statuses
    then Status.queued
    else if any is_failed statuses
    then Status.failed
    else if any is_cancelled statuses
    then Status.cancelled
    else Status.completed

abbrev pub map_option {ℓ} : {A B : Type ℓ} → (A → B) → Option A → Option B
map_option f none = none
map_option f (some a) = some (f a)

module _ (rd : Redaction) where
  unfoldable pub safe_text : Text → ℕ → List Text → Text
  safe_text value maximum hidden = take maximum (rd.sanitize hidden value)

  safe_criterion : CriterionResult → List Text → CriterionResult
  safe_criterion c hidden = record {
    criterion = safe_text c.criterion 500 hidden;
    status = c.status;
    observation = safe_text c.observation 1500 hidden;
  }

  unfoldable pub safe_result : ManagedResult → List Text → ManagedResult
  unfolding safe_text safe_criterion
  safe_result r hidden = record {
    summary = safe_text r.summary 4000 hidden;
    final_url = or_else (rd.public_page_url hidden r.final_url) [];
    criteria = map (λ c. safe_criterion c hidden) r.criteria;
    limitations = map (λ l. safe_text l 500 hidden) r.limitations;
  }

  safe_progress : List Text → Progress → Progress
  safe_progress hidden p = record p { text = safe_text p.text 2000 hidden }

  -- `ORDER BY sequence`: the rows of one attempt are inserted in that order.
  unfoldable pub public_attempt : Store → Attempt → PublicAttempt
  unfolding safe_text safe_result safe_progress
  public_attempt s a = record {
    id = a.id;
    persona = a.persona;
    goal = a.goal;
    criteria = a.criteria;
    status = a.status;
    provider_status = map_option (λ t. safe_text t 64 (secrets a)) a.provider_status;
    cleanup = a.cleanup;
    cancel_requested = is_some a.cancel_requested_at;
    progress = map (safe_progress (secrets a)) (keep (λ p. p.attempt_id == a.id) s.progress);
    result = map_option (λ r. safe_result r (secrets a)) a.result;
    error = map_option (λ t. safe_text t 2000 (secrets a)) a.error;
    reserved_seconds = a.reserved_seconds;
    started_at = a.started_at;
    finished_at = a.finished_at;
    actual_browser_ms = a.actual_browser_ms;
  }

  unfoldable pub get : Store → (owner : ℕ) → (id : ℕ) → M RunView
  get s owner id = elim (find? (λ r. r.id == id && r.owner == owner) s.runs) [
    | none ↦ err not_found
    | some r ↦
        let attempts = map (public_attempt s) (keep (λ a. a.run_id == id) s.attempts) in
        ok (record {
          id = r.id;
          scope = r.scope;
          created_at = r.created_at;
          updated_at = r.updated_at;
          status = run_status (map (λ a. a.status) attempts);
          attempts = attempts;
        })
  ]

  get_all : Store → ℕ → List Run → M (List RunView)
  get_all s owner [] = ok []
  get_all s owner (r ∷ rs) = do v ← get s owner r.id; vs ← get_all s owner rs; ok (v ∷ vs)

  -- `ORDER BY cursor DESC LIMIT 30`.
  unfoldable pub list : Store → ℕ → M (List RunView)
  unfolding get_all
  list s owner = get_all s owner (take 30 (reverse (keep (λ r. r.owner == owner) s.runs)))

abbrev pub is_closed : Cleanup → Bool
is_closed Cleanup.closed = true
is_closed _ = false

-- The replay link of an attempt, once its cleanup is closed; the live view is never handed out.
unfoldable pub view : Store → (owner : ℕ) → (run_id : ℕ) → (id : ℕ) → M (Option Text)
view s owner run_id id = elim (find? (λ a. a.id == id && a.run_id == run_id) s.attempts) [
  | none ↦ err not_found
  | some a ↦
      if any (λ r. r.id == run_id && r.owner == owner) s.runs
      then (if is_closed a.cleanup then ok (replay a.replay_url) else ok none)
      else err not_found
]
  where
    replay : Option Text → Option Text
    replay (some (c ∷ t)) = some (c ∷ t)
    replay _ = none
