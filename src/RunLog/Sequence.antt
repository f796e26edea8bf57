-- ===== src/RunLog/Sequence.antt =====
-- The event log of a run: events are numbered from 1 without a gap, and none is rewritten.
use hack_the_north.Common.{
  ℕ, ◌+◌, ◌≡◌, refl, sym, subst, true, false, Option, none, some, List, [], ◌∷◌, ◌++◌, ok, err,
  arith, Bool-cases, Result, Result-cases, inl, inr, any, ◌⊎◌,
}
use hack_the_north.Contracts.{RunStatus, EventKind, RunEvent, is_terminal}
use hack_the_north.RunLog.{
  RunRows, RunAttempt, RunError, JobStatus, cancel_jobs, append, set_attempt, cancelled_attempt,
  cancel_queued, cancel_marked, cancel_run, reconcile, settled_status, start_attempt,
  finish_attempt, is_status_queued, is_pending, find_attempt, ended_attempt, outcome_of,
  is_status_running,
}

-- Events of one run with consecutive numbers, from one to before the other.
abbrev pub Numbered : (run_id lo next : ℕ) → List RunEvent → Type 0
Numbered run_id lo next [] = lo ≡ next
Numbered run_id lo next (e ∷ rest) =
    (e.sequence ≡ lo) × (e.run_id ≡ run_id) × Numbered run_id (lo + 1) next rest

abbrev pub Logged : RunRows → Type 0
Logged r = Numbered r.id 1 r.next_sequence r.events

Numbered-append :
    (run_id lo next : ℕ) (es : List RunEvent) (e : RunEvent)
    → Numbered run_id lo next es
    → e.sequence ≡ next
    → e.run_id ≡ run_id
    → Numbered run_id lo (next + 1) (es ++ (e ∷ []))
Numbered-append run_id lo next [] e n s i = (ground arith, i, ground arith)
Numbered-append run_id lo next (x ∷ rest) e (here, mine, n) s i =
    (here, mine, Numbered-append run_id (lo + 1) next rest e n s i)

append-Logged :
    (now : ℕ) (a : Option ℕ) (k : EventKind) (s : Option RunStatus) (r : RunRows)
    → Logged r
    → Logged (append now a k s r)
unfolding append
append-Logged now a k s r l = Numbered-append r.id 1 r.next_sequence r.events _ l refl refl

cancel_queued-Logged :
    (now : ℕ) (as_read : List RunAttempt) (r : RunRows)
    → Logged r
    → Logged (cancel_queued now as_read r)
unfolding cancel_queued set_attempt
cancel_queued-Logged now [] r l = l
cancel_queued-Logged now (a ∷ rest) r l = elim (Bool-cases (is_status_queued a.status)) [
  | inl waits ↦ rw waits (
      cancel_queued-Logged now rest _
        (append-Logged now _ _ _ (set_attempt a.id (cancelled_attempt now) r) l))
  | inr other ↦ rw other (cancel_queued-Logged now rest r l)
]

pub reconcile_cases :
    (now : ℕ) (r : RunRows) {t : RunRows}
    → reconcile now r ≡ ok t
    → ((t ≡ r) × (any is_pending r.attempts ≡ true))
      ⊎ ((s : RunStatus) × (settled_status r ≡ some s)
          × (any is_pending r.attempts ≡ false)
          × (t
              ≡ append now none EventKind.run_finished
                  (some s)
                  (record r { status = s; updated_at = now })))
unfolding reconcile
reconcile_cases now r e = ground arith

pub cancel_cases :
    (now owner id : ℕ) (r : RunRows) {t : RunRows}
    → cancel_run now owner id r ≡ ok t
    → (t ≡ r)
      ⊎ ((is_terminal r.status ≡ false)
          × (reconcile now (cancel_queued now (cancel_marked now r).attempts (cancel_marked now r))
              ≡ ok t))
unfolding cancel_run
cancel_cases now owner id r e = ground arith

-- The row of an attempt once it has started.
abbrev pub started : ℕ → RunAttempt → RunAttempt
started now a = record a {
  status = RunStatus.running;
  updated_at = now;
  job_status = JobStatus.leased;
}

pub start_cases :
    (now owner id attempt_id : ℕ) (r : RunRows) {t : RunRows}
    → start_attempt now owner id attempt_id r ≡ ok t
    → (a : RunAttempt) × (find_attempt attempt_id r ≡ ok a)
      × (t
          ≡ append now
              (some attempt_id)
              EventKind.attempt_started
              (some RunStatus.running)
              (record (set_attempt attempt_id (started now) r) {
                status = RunStatus.running;
                updated_at = now;
              }))
unfolding start_attempt
start_cases now owner id attempt_id r e = ground arith

-- The run when an attempt has ended with a status, before it is reconciled.
abbrev pub finished_rows : ℕ → ℕ → RunStatus → RunRows → RunRows
finished_rows now attempt_id s r =
    append now (some attempt_id) EventKind.attempt_finished (some s)
      (set_attempt attempt_id (ended_attempt now s) r)

pub finish_cases :
    (now owner id attempt_id : ℕ) (outcome : RunStatus) (r : RunRows) {t : RunRows}
    → finish_attempt now owner id attempt_id outcome r ≡ ok t
    → (t ≡ r)
      ⊎ ((a : RunAttempt) × (find_attempt attempt_id r ≡ ok a)
          × (is_status_running a.status ≡ true)
          × (reconcile now (finished_rows now attempt_id (outcome_of r outcome) r) ≡ ok t))
unfolding finish_attempt
finish_cases now owner id attempt_id outcome r e = ground arith

reconcile-Logged :
    (now : ℕ) (r : RunRows) {t : RunRows} → Logged r → reconcile now r ≡ ok t → Logged t
reconcile-Logged now r {t} l e = elim (reconcile_cases now r e) [
  | inl (same, _) ↦ subst Logged (sym same) l
  | inr (s, _, _, ended) ↦ subst Logged (sym ended) (
      append-Logged now none EventKind.run_finished (some s)
        (record r { status = s; updated_at = now }) l)
]

pub data RunOp : Type 0 where
  cancels : (owner id : ℕ) → RunOp
  starts : (owner id attempt_id : ℕ) → RunOp
  finishes : (owner id attempt_id : ℕ) → RunStatus → RunOp

unfoldable pub perform_run : ℕ → RunOp → RunRows → Result RunError RunRows
perform_run now (cancels owner id) r = cancel_run now owner id r
perform_run now (starts owner id attempt_id) r = start_attempt now owner id attempt_id r
perform_run now (finishes owner id attempt_id s) r = finish_attempt now owner id attempt_id s r

perform-Logged :
    (now : ℕ) (op : RunOp) (r : RunRows) {t : RunRows}
    → Logged r
    → perform_run now op r ≡ ok t
    → Logged t
unfolding perform_run cancel_marked set_attempt
perform-Logged now (cancels owner id) r {t} l e = elim (cancel_cases now owner id r e) [
  | inl same ↦ subst Logged (sym same) l
  | inr (going, h) ↦
      reconcile-Logged now _
        (cancel_queued-Logged now (cancel_marked now r).attempts (cancel_marked now r) (
          append-Logged now none EventKind.run_cancel_requested none
            (record r {
              cancel_requested_at = some now;
              updated_at = now;
              attempts = cancel_jobs now r.attempts;
            })
            l))
        h
]
perform-Logged now (starts owner id attempt_id) r {t} l e =
    let (a, found, moved) = start_cases now owner id attempt_id r e in
    subst Logged (sym moved) (
      append-Logged now (some attempt_id) EventKind.attempt_started (some RunStatus.running)
        (record (set_attempt attempt_id (started now) r) {
          status = RunStatus.running;
          updated_at = now;
        })
        l)
perform-Logged now (finishes owner id attempt_id s) r {t} l e =
    elim (finish_cases now owner id attempt_id s r e) [
      | inl same ↦ subst Logged (sym same) l
      | inr (a, found, runs, h) ↦
          reconcile-Logged now (finished_rows now attempt_id (outcome_of r s) r)
            (append-Logged now (some attempt_id) EventKind.attempt_finished (some (outcome_of r s))
              (set_attempt attempt_id (ended_attempt now (outcome_of r s)) r) l)
            h
    ]

abbrev pub committed : RunRows → Result RunError RunRows → RunRows
committed r (ok t) = t
committed r (err e) = r

-- A history: each operation is a transaction, which is committed or rolled back.
unfoldable pub live : List (ℕ × RunOp) → RunRows → RunRows
live [] r = r
live ((now, op) ∷ rest) r = live rest (committed r (perform_run now op r))

-- After any history of cancellations, starts and finishes, refused ones included, the events of a
-- run whose log was so are numbered from 1 without a gap up to its next number, and are its own.
pub live-Logged : (os : List (ℕ × RunOp)) (r : RunRows) → Logged r → Logged (live os r)
unfolding live
live-Logged [] r l = l
live-Logged ((now, op) ∷ rest) r l = elim (Result-cases (perform_run now op r)) [
  | inl (t, e) ↦ live-Logged rest _ (rw e (perform-Logged now op r l e))
  | inr (x, e) ↦ live-Logged rest _ (rw e l)
]
