-- ===== src/Managed/Requests.antt =====
-- What an owner's requests do: `cancel` and `view` of src/server/managed/store.ts.
use hack_the_north.Common.{
  ℕ, ◌≡◌, ◌≢◌, ◌⊎◌, true, false, some, List, [], ◌∷◌, ok, arith, Text, All, find?, is_some, ◌&&◌,
  not, any, ◌==◌, inl, inr,
}
use hack_the_north.Managed.Rows.{AttemptState, Cleanup, Attempt, Store}
use hack_the_north.Managed.Queries.{Redaction, RunView, view}
use hack_the_north.Managed.Lifecycle.{cancel, cancelled, cancel_attempts, is_settled}

-- What a cancelled run has left to do: an attempt of it is settled, or it is asked to stop and its
-- browser is still to be closed.
abbrev pub Stopping : ℕ → Attempt → Type 0
Stopping id a =
    (a.run_id ≢ id)
    ⊎ ((a.state ≡ AttemptState.settled)
        ⊎ ((is_some a.cancel_requested_at ≡ true) × (a.state ≢ AttemptState.queued)))

cancel_attempts-Stopping :
    (now id : ℕ) (rows : List Attempt) → All (Stopping id) (cancel_attempts now id rows)
unfolding cancel_attempts cancelled
cancel_attempts-Stopping now id [] = tt
cancel_attempts-Stopping now id (a ∷ rest) = (ground arith, cancel_attempts-Stopping now id rest)

-- A run with no attempt to stop.
idle_run :
    (id : ℕ) (rows : List Attempt)
    → any (λ a. a.run_id == id && not (is_settled a.state)) rows ≡ false
    → All (Stopping id) rows
idle_run id [] e = tt
idle_run id (a ∷ rest) e = (ground arith, idle_run id rest (ground arith))

module _ (rd : Redaction) where
  cancel_cases :
      (now : ℕ) (s : Store) (owner id : ℕ) {v : RunView} {t : Store}
      → cancel rd now s owner id ≡ ok (v, t)
      → (t.attempts ≡ cancel_attempts now id s.attempts)
        ⊎ ((t.attempts ≡ s.attempts)
            × (any (λ a. a.run_id == id && not (is_settled a.state)) s.attempts ≡ false))
  unfolding cancel
  cancel_cases now s owner id e = ground arith

  -- After a `cancel` that succeeds every attempt of the run is settled, or it is asked to stop and is
  -- not waiting in the queue: no worker can start it.
  pub cancel-Stopping :
      (now : ℕ) (s : Store) (owner id : ℕ) (v : RunView) (t : Store)
      → cancel rd now s owner id ≡ ok (v, t)
      → All (Stopping id) t.attempts
  cancel-Stopping now s owner id v t e = elim (cancel_cases now s owner id e) [
    | inl moved ↦ rw moved (cancel_attempts-Stopping now id s.attempts)
    | inr (same, idle) ↦ rw same (idle_run id s.attempts idle)
  ]

-- A replay link is handed out only to the owner of the attempt's run, and only when the cleanup of
-- the attempt is closed; it is then the stored link.
pub view_private :
    (s : Store) (owner run_id id : ℕ) (link : Text)
    → view s owner run_id id ≡ ok (some link)
    → (a : Attempt) × (find? (λ x. x.id == id && x.run_id == run_id) s.attempts ≡ some a)
      × (any (λ r. r.id == run_id && r.owner == owner) s.runs ≡ true)
      × (a.cleanup ≡ Cleanup.closed)
      × (a.replay_url ≡ some link)
unfolding view
view_private s owner run_id id link e = ground arith
