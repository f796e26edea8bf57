-- ===== src/Managed/Budget/Claiming.antt =====
-- The ceilings across the loop of `claim`.
use hack_the_north.Common.{
  ℕ, ◌+◌, ◌≡◌, ◌≤◌, ◌<◌, refl, subst, inl, inr, Bool, true, false, some, List, [], ◌∷◌, ok, arith,
  Bool-cases, Option-cases, All, find?, leb, sum_of, take,
}
use hack_the_north.Capacity.{WorkerPolicy, occupancy, worker_concurrency_limits}
use hack_the_north.Managed.Rows.{AttemptState, Run, Attempt, Store, Claim}
use hack_the_north.Managed.Queries.{
  row, update, update_attempt, usages, usage_of, touch, touch_runs,
}
use hack_the_north.Managed.Claims.{
  acquire, reserved, exhausted, admission, admit, leased, owner_of, claim_of, claim_queued,
  claim_from, claim, queued_rows, is_expired,
}
use hack_the_north.Managed.Tables.{Distinct, by_id, by_id-update, update-Distinct, update-update}
use hack_the_north.Managed.Sound.{Sound}
use hack_the_north.Managed.Histories.{Valid}
use hack_the_north.Managed.Leases.{row-by_id}
use hack_the_north.Managed.Refinement.Waiting.{
  Waits, Unlike, Waits-update, queued_rows-Waits, queued_rows-Unlike, queued_rows-All,
  queued_rows-owner, All-take, Unlike-take,
}
use hack_the_north.Managed.Refinement.Claims.{
  exhausted-id, admit_inversion, acquired, Admission-cases, claim_inversion, assert_policy-attempts,
}
use hack_the_north.Managed.Queries.{Redaction}
use hack_the_north.Managed.Budget.Measures.{
  sum_usages-update, one_if, count-eq-sum, usages-touch, owner_of-touch,
}
use hack_the_north.Managed.Budget.Ceilings.{Within, started-Within, admission-Room, start}

module _ (now worker : ℕ) (p : WorkerPolicy) where
  -- The claim that `acquire` makes, and the store that it leaves.
  acquire_claim :
      (s : Store) (id : ℕ) (recovery : Bool) {c : Claim} {t : Store}
      → acquire now s id worker p recovery ≡ ok (c, t)
      → (a : Attempt) × (row (update_attempt s id (leased now worker p recovery)) id ≡ ok a)
        × (owner_of s.runs a ≡ some c.owner)
        × (c.recovery ≡ recovery)
        × (t ≡ touch now a.run_id (update_attempt s id (leased now worker p recovery)))
  unfolding acquire claim_of update_attempt
  acquire_claim s id recovery e = ground arith

  exhausted_occupies :
      (runs : List Run) (a : Attempt)
      → a.state ≡ AttemptState.queued
      → sum_of (one_if (λ u. u.occupied)) (usage_of runs (exhausted now a))
        ≤ sum_of (one_if (λ u. u.occupied)) (usage_of runs a) + 0
  unfolding usage_of exhausted
  exhausted_occupies runs a h = ground arith

  -- Failing a row for want of budget frees and takes no session.
  exhausted-occupancy :
      (s : Store) (a : Attempt)
      → Distinct s.attempts
      → by_id a.id s.attempts ≡ some a
      → a.state ≡ AttemptState.queued
      → occupancy (usages (touch now a.run_id (update_attempt s a.id (exhausted now))))
        ≤ occupancy (usages s)
  unfolding occupancy
  exhausted-occupancy s a d e h =
      rw (usages-touch now a.run_id (update_attempt s a.id (exhausted now))) (
        omega (
          arith,
          count-eq-sum (λ u. u.occupied) (usages s),
          count-eq-sum (λ u. u.occupied) (usages (update_attempt s a.id (exhausted now))),
          sum_usages-update (one_if (λ u. u.occupied)) s.runs (exhausted now) 0 s a.id refl d e refl
              (exhausted_occupies s.runs a h),
        ))

  reserved-id : (x : Attempt) → (reserved now p.session_seconds x).id ≡ x.id
  unfolding reserved
  reserved-id x = refl

  started-owner :
      (runs : List Run) (a : Attempt)
      → owner_of runs (start now worker p runs a a) ≡ owner_of runs a
  unfolding start leased reserved
  started-owner runs a = refl

  -- The row that `acquire` reads back is the one that was started.
  started_row :
      (s : Store) (a : Attempt)
      → by_id a.id s.attempts ≡ some a
      → by_id a.id (
          update
            (leased now worker p false)
            a.id
            (update (reserved now p.session_seconds) a.id s.attempts))
        ≡ some (start now worker p s.runs a a)
  unfolding start leased reserved
  started_row s a e = by_id-update _ a.id _ (by_id-update _ a.id s.attempts e refl) refl

  update_twice :
      (s : Store) (a : Attempt)
      → update_attempt
          (update_attempt s a.id (reserved now p.session_seconds))
          a.id
          (leased now worker p false)
        ≡ update_attempt s a.id (start now worker p s.runs a)
  unfolding update_attempt start
  update_twice s a = rw (
      update-update (leased now worker p false) (reserved now p.session_seconds) a.id s.attempts
        reserved-id)

  -- The branch that starts a session.
  admitted-Within :
      (s : Store) (a : Attempt) (o : ℕ) {c : Claim} {t : Store}
      → Distinct s.attempts
      → Waits s.attempts (a, o)
      → Sound a
      → owner_of s.runs a ≡ some o
      → occupancy (usages s) < (worker_concurrency_limits p).global_limit
      → admission p o s ≡ admit
      → acquire now (update_attempt s a.id (reserved now p.session_seconds)) a.id worker p false
        ≡ ok (c, t)
      → Within p c.owner (usages t)
  unfolding update_attempt
  admitted-Within s a o {c} {t} d (e, w, active) sound owned free admitted h =
      let (b, read, own, plain, left) = acquire_claim _ a.id false h in
      let same : b ≡ start now worker p s.runs a a =
        ground (arith, row-by_id _ a.id read, started_row s a e) in
      let owner : c.owner ≡ o = ground (arith, started-owner s.runs a) in
      rw (left, usages-touch, owner, update_twice s a)
        (started-Within now worker p o s a d e sound w (admission-Room p o s admitted free))

  owners-touch :
      (id : ℕ) (runs : List Run) (qs : List (Attempt × ℕ))
      → All (λ q. owner_of runs q.0 ≡ some q.1) qs
      → All (λ q. owner_of (touch_runs now id runs) q.0 ≡ some q.1) qs
  owners-touch id runs [] h = tt
  owners-touch id runs (q ∷ qs) (e, h) =
      (rw (owner_of-touch now id runs q.0) e, owners-touch id runs qs h)

  claim_queued-Within :
      (rd : Redaction) (qs : List (Attempt × ℕ)) (s : Store) {c : Claim} {t : Store}
      → Distinct s.attempts
      → All (Waits s.attempts) qs
      → Unlike qs
      → All (λ q. Sound q.0) qs
      → All (λ q. owner_of s.runs q.0 ≡ some q.1) qs
      → occupancy (usages s) < (worker_concurrency_limits p).global_limit
      → claim_queued now worker p qs s ≡ ok (some c, t)
      → Within p c.owner (usages t)
  unfolding claim_queued touch update_attempt
  claim_queued-Within rd [] s d w u so ow free e = cc
  claim_queued-Within rd ((a, o) ∷ rest) s {c} {t} d (w, ws) (n, u) (so, sos) (ow, ows) free e =
      elim (Admission-cases (admission p o s)) [
        | inl skipped ↦
            claim_queued-Within rd rest s d ws u sos ows free (rw (skipped, claim_queued) at e)
        | inr (inl failed) ↦
            claim_queued-Within rd rest (touch now a.run_id (update_attempt s a.id (exhausted now)))
              (update-Distinct _ a.id s.attempts (exhausted-id rd now worker p) d)
              (Waits-update _ a.id s.attempts rest (exhausted-id rd now worker p) n ws) u sos
              (owners-touch a.run_id s.runs rest ows)
              (omega (arith, exhausted-occupancy s a d w.0 w.1)) (rw (failed, claim_queued) at e)
        | inr (inr admitted) ↦
            let (c', h, returned) = admit_inversion rd now worker p a o rest s admitted e in
            let same : c' ≡ c = ground arith in
            subst (λ x. Within p x.owner (usages t)) same
              (admitted-Within s a o d w so ow free admitted h)
      ]

  claim_from-Within :
      (rd : Redaction) (s : Store) {c : Claim} {t : Store}
      → Valid s
      → claim_from now s worker p ≡ ok (some c, t)
      → c.recovery ≡ false
      → Within p c.owner (usages t)
  unfolding claim_from
  claim_from-Within rd s {c} {t} v e new =
      elim (Option-cases (find? (is_expired now p.recovery_limit) s.attempts)) [
        | inr (a, expired) ↦
            let (c', h, returned) =
              acquired (acquire _ _ _ _ _ _) (rw (expired, claim_from) at e) in
            let (b, read, own, again, left) = acquire_claim s a.id true h in absurd (ground arith)
        | inl idle ↦
            let limit = (worker_concurrency_limits p).global_limit in
            elim (Bool-cases (leb limit (occupancy (usages s)))) [
              | inl full ↦ absurd (ground arith)
              | inr free ↦
                  claim_queued-Within rd (take 100 (queued_rows s.runs s.attempts)) s v.distinct
                    (All-take (Waits s.attempts) 100 _
                      (queued_rows-Waits s.runs s.attempts v.distinct))
                    (Unlike-take 100 _ (queued_rows-Unlike s.runs s.attempts v.distinct))
                    (All-take (λ q. Sound q.0) 100 _
                      (queued_rows-All Sound s.runs s.attempts v.sound))
                    (All-take (λ q. owner_of s.runs q.0 ≡ some q.1) 100 _
                      (queued_rows-owner s.runs s.attempts))
                    (ground arith) (rw free at (rw (idle, claim_from) at e))
            ]
      ]

  -- In a valid store, a claim that starts an attempt (and is no recovery) leaves the usages of both
  -- queues within every ceiling of the policy: the sessions in use and those of the claim's owner,
  -- the committed seconds with the baseline, the owner's committed seconds, and all that was reserved.
  pub claim-Within :
      (rd : Redaction) (s : Store) (c : Claim) (t : Store)
      → Valid s
      → claim now s worker p ≡ ok (some c, t)
      → c.recovery ≡ false
      → Within p c.owner (usages t)
  claim-Within rd s c t v e new =
      let (s', policy, h) = claim_inversion rd now worker p s e in
      let same : s'.attempts ≡ s.attempts = assert_policy-attempts rd now worker p s policy in
      let v' : Valid s' = record { distinct = rw same v.distinct; sound = rw same v.sound } in
      claim_from-Within rd s' v' h new
