-- ===== src/RunLog/Settling.antt =====
-- When a run is over (`reconcile` of src/server/repository.ts): exactly when each of its attempts is.
use hack_the_north.Common.{
  All, is_some, ◌≤◌, ℕ, ◌≡◌, ◌⊎◌, refl, sym, subst, true, false, not, some, List, [], ◌∷◌, ok,
  arith, Bool-cases, Result-cases, inl, inr, any, find?, ◌==◌,
}
use hack_the_north.Contracts.{RunStatus, is_terminal}
use hack_the_north.RunLog.{
  RunRows, RunAttempt, append, set_attempt, update_attempts, cancel_queued, cancel_marked,
  reconcile, settled_status, is_status_queued, is_pending, find_attempt, any_status, same_status,
  priority, is_status_running,
}
use hack_the_north.RunLog.Sequence.{
  RunOp, perform_run, live, reconcile_cases, cancel_cases, start_cases, finish_cases, started,
}

-- The run has a terminal status exactly if each attempt has one.
abbrev pub Agrees : RunRows → Type 0
Agrees r = is_terminal r.status ≡ not (any is_pending r.attempts)

settled-is_terminal :
    (r : RunRows) (s : RunStatus) → settled_status r ≡ some s → is_terminal s ≡ true
unfolding settled_status
settled-is_terminal r s e = ground arith

reconcile-Agrees :
    (now : ℕ) (r : RunRows) {t : RunRows}
    → is_terminal r.status ≡ false
    → reconcile now r ≡ ok t
    → Agrees t
unfolding append
reconcile-Agrees now r {t} going e = elim (reconcile_cases now r e) [
  | inl (same, pending) ↦ subst Agrees (sym same) (rw (going, pending) refl)
  | inr (s, settled, idle, ended) ↦
      subst Agrees (sym ended) (rw (idle, settled-is_terminal r s settled) refl)
]

cancel_queued-status :
    (now : ℕ) (as_read : List RunAttempt) (r : RunRows)
    → (cancel_queued now as_read r).status ≡ r.status
unfolding cancel_queued append set_attempt
cancel_queued-status now [] r = refl
cancel_queued-status now (a ∷ rest) r = elim (Bool-cases (is_status_queued a.status)) [
  | inl waits ↦ rw waits (cancel_queued-status now rest _)
  | inr other ↦ rw other (cancel_queued-status now rest r)
]

-- An attempt that is found and starts leaves one that is pending.
started-pending :
    (now id : ℕ) (rows : List RunAttempt) {a : RunAttempt}
    → find? (λ x. x.id == id) rows ≡ some a
    → any is_pending (update_attempts (started now) id rows) ≡ true
unfolding update_attempts
started-pending now id [] e = ground arith
started-pending now id (x ∷ rest) {a} e = elim (Bool-cases (x.id == id)) [
  | inl hit ↦ rw hit refl
  | inr miss ↦ ground (arith, started-pending now id rest {a = a})
]

running-pending :
    (id : ℕ) (rows : List RunAttempt) {a : RunAttempt}
    → find? (λ x. x.id == id) rows ≡ some a
    → is_status_running a.status ≡ true
    → any is_pending rows ≡ true
running-pending id [] e h = ground arith
running-pending id (x ∷ rest) {a} e h = elim (Bool-cases (x.id == id)) [
  | inl hit ↦ let here : x ≡ a = ground arith in rw here (ground arith)
  | inr miss ↦ ground (arith, running-pending id rest {a = a})
]

found_attempt :
    (id : ℕ) (r : RunRows) {a : RunAttempt}
    → find_attempt id r ≡ ok a
    → find? (λ x. x.id == id) r.attempts ≡ some a
unfolding find_attempt
found_attempt id r e = ground arith

perform-Agrees :
    (now : ℕ) (op : RunOp) (r : RunRows) {t : RunRows}
    → Agrees r
    → perform_run now op r ≡ ok t
    → Agrees t
unfolding perform_run append set_attempt cancel_marked
perform-Agrees now (RunOp.cancels owner id) r {t} g e = elim (cancel_cases now owner id r e) [
  | inl same ↦ subst Agrees (sym same) g
  | inr (going, h) ↦
      let kept = cancel_queued-status now (cancel_marked now r).attempts (cancel_marked now r) in
      reconcile-Agrees now _ (rw kept going) h
]
perform-Agrees now (RunOp.starts owner id attempt_id) r {t} g e =
    let (a, found, moved) = start_cases now owner id attempt_id r e in
    subst Agrees (sym moved)
      (rw (started-pending now attempt_id r.attempts (found_attempt attempt_id r found)) refl)
perform-Agrees now (RunOp.finishes owner id attempt_id s) r {t} g e =
    elim (finish_cases now owner id attempt_id s r e) [
      | inl same ↦ subst Agrees (sym same) g
      | inr (a, found, runs, h) ↦
          let busy : any is_pending r.attempts ≡ true =
            running-pending attempt_id r.attempts (found_attempt attempt_id r found) runs in
          reconcile-Agrees now _ (ground (arith, busy)) h
    ]

-- After any history of cancellations, starts and finishes, a run for which it was so has a terminal
-- status exactly if each of its attempts has one.
pub live-Agrees : (os : List (ℕ × RunOp)) (r : RunRows) → Agrees r → Agrees (live os r)
unfolding live
live-Agrees [] r g = g
live-Agrees ((now, op) ∷ rest) r g = elim (Result-cases (perform_run now op r)) [
  | inl (t, e) ↦ live-Agrees rest _ (rw e (perform-Agrees now op r g e))
  | inr (x, e) ↦ live-Agrees rest _ (rw e g)
]

-- What an ended run makes of its attempts: the smaller the number, the more it counts.
abbrev pub rank : RunStatus → ℕ
rank RunStatus.infrastructure_failed = 1
rank RunStatus.limit_reached = 2
rank RunStatus.blocked = 3
rank RunStatus.target_failed = 4
rank RunStatus.gave_up = 5
rank RunStatus.cancelled = 6
rank RunStatus.succeeded = 7
rank _ = 8

abbrev pub Outranks : RunStatus → RunAttempt → Type 0
Outranks s a = rank s ≤ rank a.status

same_status_refl : (s : RunStatus) → same_status s s ≡ true
same_status_refl s = ground arith

first_ranked :
    (rows : List RunAttempt) (s u : RunStatus)
    → find? (λ x. any_status x rows) priority ≡ some s
    → is_terminal u ≡ true
    → any_status u rows ≡ true
    → rank s ≤ rank u
first_ranked rows s u e final h = ground arith

ranked_rows :
    (rows part : List RunAttempt) (s : RunStatus)
    → find? (λ x. any_status x rows) priority ≡ some s
    → ((u : RunStatus) → any_status u part ≡ true → any_status u rows ≡ true)
    → any is_pending part ≡ false
    → All (Outranks s) part
ranked_rows rows [] s e within idle = tt
ranked_rows rows (a ∷ rest) s e within idle = (
  first_ranked rows s a.status e (ground arith)
      (within a.status (rw (same_status_refl a.status) refl)),
  ranked_rows rows rest s e (λ u h. within u (ground arith)) (ground arith),
)

settled_cases :
    (now : ℕ) (r t : RunRows)
    → any is_pending r.attempts ≡ false
    → reconcile now r ≡ ok t
    → ((is_some r.cancel_requested_at ≡ true)
        × (any_status RunStatus.infrastructure_failed r.attempts ≡ false)
        × (t.status ≡ RunStatus.cancelled))
      ⊎ (((is_some r.cancel_requested_at ≡ false)
            ⊎ (any_status RunStatus.infrastructure_failed r.attempts ≡ true))
          × (any_status t.status r.attempts ≡ true)
          × (find? (λ x. any_status x r.attempts) priority ≡ some t.status))
unfolding reconcile settled_status append
settled_cases now r t idle e = ground arith

-- A run that `reconcile` ends is cancelled if its cancellation was requested and no attempt of it
-- failed for the infrastructure; otherwise it takes the status of one of its attempts, which no
-- status of another one precedes in the order: failed for the infrastructure, limit reached,
-- blocked, target failed, gave up, cancelled, succeeded.
pub reconcile_status :
    (now : ℕ) (r t : RunRows)
    → any is_pending r.attempts ≡ false
    → reconcile now r ≡ ok t
    → ((is_some r.cancel_requested_at ≡ true)
        × (any_status RunStatus.infrastructure_failed r.attempts ≡ false)
        × (t.status ≡ RunStatus.cancelled))
      ⊎ (((is_some r.cancel_requested_at ≡ false)
            ⊎ (any_status RunStatus.infrastructure_failed r.attempts ≡ true))
          × (any_status t.status r.attempts ≡ true)
          × All (Outranks t.status) r.attempts)
reconcile_status now r t idle e = elim (settled_cases now r t idle e) [
  | inl asked ↦ inl asked
  | inr (other, found, first) ↦
      inr (other, found, ranked_rows r.attempts r.attempts t.status first (λ u h. h) idle)
]
