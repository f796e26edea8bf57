-- ===== src/Managed/KeptRuns.antt =====
-- The rows of `managed_runs` in src/server/managed/store.ts: what every operation keeps of them.
use hack_the_north.Common.{
  ℕ, ◌≡◌, ◌∙◌, ◌⊎◌, refl, subst, Bool, true, false, Option, List, [], ◌∷◌, ◌++◌, ok, arith, find?,
  ◌==◌, Text, Bool-cases, inl, inr, >>=-eq-ok, Option-cases, leb, take,
}
use hack_the_north.Capacity.{worker_concurrency_limits, occupancy, WorkerPolicy}
use hack_the_north.Managed.Rows.{Attempt, Run, Store, Claim, CreateFailure, ProgressKind, Outcome}
use hack_the_north.Managed.Queries.{
  RunView, row, usages, Redaction, touch, touch_runs, update_attempt,
}
use hack_the_north.Managed.Claims.{
  leased, exhausted, reserved, is_expired, queued_rows, claim, claim_from, claim_queued, acquire,
  heartbeat, assert_policy, admission,
}
use hack_the_north.Managed.Journal.{dispatch, create_failure, identity, progress, session_view}
use hack_the_north.Managed.Lifecycle.{cancel, cancel_runs, finish}
use hack_the_north.Managed.Histories.{run}
use hack_the_north.Managed.Refinement.Claims.{
  acquired, Admission-cases, admit_inversion, claim_inversion,
}

-- The rows of a table are still there in their order, with what a request is found and compared by;
-- new ones come after them.
abbrev pub KeepsRuns : List Run → List Run → Type 0
KeepsRuns [] ys = Unit
KeepsRuns (x ∷ xs) [] = true ≡ false
KeepsRuns (x ∷ xs) (y ∷ ys) =
    (y.id ≡ x.id)
    × (y.owner ≡ x.owner)
    × (y.idempotency_key ≡ x.idempotency_key)
    × (y.request_hash ≡ x.request_hash)
    × KeepsRuns xs ys

pub KeepsRuns-refl : (xs : List Run) → KeepsRuns xs xs
KeepsRuns-refl [] = tt
KeepsRuns-refl (x ∷ xs) = (refl, refl, refl, refl, KeepsRuns-refl xs)

pub KeepsRuns-trans : (xs ys zs : List Run) → KeepsRuns xs ys → KeepsRuns ys zs → KeepsRuns xs zs
KeepsRuns-trans [] ys zs h k = tt
KeepsRuns-trans (x ∷ xs) [] zs h k = ground arith
KeepsRuns-trans (x ∷ xs) (y ∷ ys) [] h k = ground arith
KeepsRuns-trans (x ∷ xs) (y ∷ ys) (z ∷ zs) (a, b, c, d, h) (a', b', c', d', k) =
    (a' ∙ a, b' ∙ b, c' ∙ c, d' ∙ d, KeepsRuns-trans xs ys zs h k)

pub KeepsRuns-append : (xs ys : List Run) → KeepsRuns xs (xs ++ ys)
KeepsRuns-append [] ys = tt
KeepsRuns-append (x ∷ xs) ys = (refl, refl, refl, refl, KeepsRuns-append xs ys)

pub KeepsRuns-touch_runs : (now id : ℕ) (xs : List Run) → KeepsRuns xs (touch_runs now id xs)
unfolding touch_runs
KeepsRuns-touch_runs now id [] = tt
KeepsRuns-touch_runs now id (x ∷ xs) = elim (Bool-cases (x.id == id)) [
  | inl hit ↦ rw hit (refl, refl, refl, refl, KeepsRuns-touch_runs now id xs)
  | inr miss ↦ rw miss (refl, refl, refl, refl, KeepsRuns-touch_runs now id xs)
]

KeepsRuns-cancel_runs : (now id : ℕ) (xs : List Run) → KeepsRuns xs (cancel_runs now id xs)
unfolding cancel_runs
KeepsRuns-cancel_runs now id [] = tt
KeepsRuns-cancel_runs now id (x ∷ xs) = elim (Bool-cases (x.id == id)) [
  | inl hit ↦ rw hit (refl, refl, refl, refl, KeepsRuns-cancel_runs now id xs)
  | inr miss ↦ rw miss (refl, refl, refl, refl, KeepsRuns-cancel_runs now id xs)
]

-- At most the time of a run's last change differs.
abbrev Touched : ℕ → List Run → List Run → Type 0
Touched now xs ys = (ys ≡ xs) ⊎ ((id : ℕ) × (ys ≡ touch_runs now id xs))

Touched-KeepsRuns : (now : ℕ) (xs ys : List Run) → Touched now xs ys → KeepsRuns xs ys
Touched-KeepsRuns now xs ys (inl same) = rw same (KeepsRuns-refl xs)
Touched-KeepsRuns now xs ys (inr (id, moved)) = rw moved (KeepsRuns-touch_runs now id xs)

module _ (now : ℕ) where
  acquire-Touched :
      (s : Store) (id worker : ℕ) (p : WorkerPolicy) (b : Bool) {c : Claim} {t : Store}
      → acquire now s id worker p b ≡ ok (c, t)
      → (run_id : ℕ) × (t.runs ≡ touch_runs now run_id s.runs)
  unfolding acquire touch update_attempt
  acquire-Touched s id worker p b e =
      let (a, read, rest) = >>=-eq-ok (row (update_attempt s id (leased now worker p b)) id) _ e in
      (a.run_id, ground arith)

  acquire-KeepsRuns :
      (s : Store) (id worker : ℕ) (p : WorkerPolicy) (b : Bool) {c : Claim} {t : Store}
      → acquire now s id worker p b ≡ ok (c, t)
      → KeepsRuns s.runs t.runs
  acquire-KeepsRuns s id worker p b {c} {t} e =
      Touched-KeepsRuns now s.runs t.runs (inr (acquire-Touched s id worker p b e))

  module _ (rd : Redaction) (worker : ℕ) (p : WorkerPolicy) where
    claim_queued-KeepsRuns :
        (rows : List (Attempt × ℕ)) (s : Store) {o : Option Claim} {t : Store}
        → claim_queued now worker p rows s ≡ ok (o, t)
        → KeepsRuns s.runs t.runs
    unfolding claim_queued touch update_attempt
    claim_queued-KeepsRuns [] s {o} {t} e =
        let same : t ≡ s = ground arith in rw same (KeepsRuns-refl s.runs)
    claim_queued-KeepsRuns ((a, owner) ∷ rest) s {o} {t} e =
        elim (Admission-cases (admission p owner s)) [
          | inl left ↦ claim_queued-KeepsRuns rest s (rw (left, claim_queued) at e)
          | inr (inl spent) ↦
              KeepsRuns-trans s.runs (touch_runs now a.run_id s.runs) t.runs
                (KeepsRuns-touch_runs now a.run_id s.runs)
                (claim_queued-KeepsRuns rest
                  (touch now a.run_id (update_attempt s a.id (exhausted now)))
                  (rw (spent, claim_queued) at e))
          | inr (inr free) ↦
              let (c, h, returned) = admit_inversion rd now worker p a owner rest s free e in
              acquire-KeepsRuns (update_attempt s a.id (reserved now p.session_seconds)) a.id worker
                p false h
        ]

    claim_from-KeepsRuns :
        (s : Store) {o : Option Claim} {t : Store}
        → claim_from now s worker p ≡ ok (o, t)
        → KeepsRuns s.runs t.runs
    unfolding claim_from
    claim_from-KeepsRuns s {o} {t} e =
        elim (Option-cases (find? (is_expired now p.recovery_limit) s.attempts)) [
          | inr (a, expired) ↦
              let (c, h, returned) =
                acquired (acquire _ _ _ _ _ _) (rw (expired, claim_from) at e) in
              acquire-KeepsRuns s a.id worker p true h
          | inl idle ↦
              elim (Bool-cases
                (leb (worker_concurrency_limits p).global_limit (occupancy (usages s)))) [
                  | inl full ↦ let kept : t ≡ s = ground arith in rw kept (KeepsRuns-refl s.runs)
                  | inr room ↦
                      claim_queued-KeepsRuns (take 100 (queued_rows s.runs s.attempts)) s
                        (rw room at (rw (idle, claim_from) at e))
                ]
        ]

    policy_kept : (s : Store) {t : Store} → assert_policy s p ≡ ok t → t.runs ≡ s.runs
    unfolding assert_policy
    policy_kept s e = ground arith

    pub claim-KeepsRuns :
        (s : Store) {o : Option Claim} {t : Store}
        → claim now s worker p ≡ ok (o, t)
        → KeepsRuns s.runs t.runs
    claim-KeepsRuns s {o} {t} e =
        let (u, accepted, h) = claim_inversion rd now worker p s e in
        subst (λ rows. KeepsRuns rows t.runs) (policy_kept s accepted) (claim_from-KeepsRuns u h)

  pub heartbeat-runs :
      (s : Store) (c : Claim) (ms : ℕ) {b : Bool} {t : Store}
      → heartbeat now s c ms ≡ ok (b, t)
      → t.runs ≡ s.runs
  unfolding heartbeat update_attempt
  heartbeat-runs s c ms e = ground arith

  pub dispatch-runs :
      (s : Store) (c : Claim) (agent task : Text) {t : Store}
      → dispatch now s c agent task ≡ ok t
      → t.runs ≡ touch_runs now c.run_id s.runs
  unfolding dispatch touch update_attempt
  dispatch-runs s c agent task e = ground arith

  pub identity-runs :
      (s : Store) (c : Claim) (run : Text) (session : Option Text) {t : Store}
      → identity now s c run session ≡ ok t
      → t.runs ≡ touch_runs now c.run_id s.runs
  unfolding identity touch update_attempt
  identity-runs s c run session e = ground arith

  pub session_view-runs :
      (view_ok : Text → Text → Bool) (s : Store) (c : Claim) (live replay : Text) {t : Store}
      → session_view view_ok now s c live replay ≡ ok t
      → t.runs ≡ touch_runs now c.run_id s.runs
  unfolding session_view touch update_attempt
  session_view-runs view_ok s c live replay e = ground arith

  module _ (rd : Redaction) where
    pub create_failure-runs :
        (s : Store) (c : Claim) (f : CreateFailure) {t : Store}
        → create_failure rd now s c f ≡ ok t
        → t.runs ≡ touch_runs now c.run_id s.runs
    unfolding create_failure touch update_attempt
    create_failure-runs s c f e = ground arith

    pub progress-Touched :
        (s : Store) (c : Claim) (hash : ℕ) (kind : ProgressKind) (text : Text) {t : Store}
        → progress rd now s c hash kind text ≡ ok t
        → (t.runs ≡ s.runs) ⊎ (t.runs ≡ touch_runs now c.run_id s.runs)
    unfolding progress touch update_attempt
    progress-Touched s c hash kind text e = ground arith

    pub finish-runs :
        (s : Store) (c : Claim) (o : Outcome) {t : Store}
        → finish rd now s c o ≡ ok t
        → t.runs ≡ touch_runs now c.run_id s.runs
    unfolding finish touch update_attempt
    finish-runs s c o e = ground arith

    cancel-runs :
        (s : Store) (owner id : ℕ) {v : RunView} {t : Store}
        → cancel rd now s owner id ≡ ok (v, t)
        → (t.runs ≡ s.runs) ⊎ (t.runs ≡ cancel_runs now id s.runs)
    unfolding cancel
    cancel-runs s owner id e = ground arith

    pub cancel-KeepsRuns :
        (s : Store) (owner id : ℕ) {v : RunView} {t : Store}
        → cancel rd now s owner id ≡ ok (v, t)
        → KeepsRuns s.runs t.runs
    cancel-KeepsRuns s owner id e = elim (cancel-runs s owner id e) [
      | inl same ↦ rw same (KeepsRuns-refl s.runs)
      | inr moved ↦ rw moved (KeepsRuns-cancel_runs now id s.runs)
    ]
