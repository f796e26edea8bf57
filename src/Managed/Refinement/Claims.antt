-- ===== src/Managed/Refinement/Claims.antt =====
-- `claim`: it takes over an expired lease, or starts the first queued attempt that the ceilings
-- admit, after failing those for which no budget is left.
use hack_the_north.Common.{
  ℕ, ◌≡◌, ◌⊎◌, refl, subst, inl, inr, Bool, false, true, some, Option, List, [], ◌∷◌, ok, err,
  ◌>>=◌, arith, All, find?, find?_sound, leb, Option-cases, Bool-cases, take,
}
use hack_the_north.Capacity.{WorkerPolicy, worker_concurrency_limits, occupancy}
use hack_the_north.Managed.Rows.{Attempt, Store, Claim}
use hack_the_north.Managed.Queries.{M, Redaction, usages, touch, update, update_attempt}
use hack_the_north.Managed.Claims.{
  Admission, skip, exhaust, admit, admission, acquire, leased, reserved, exhausted, claim_queued,
  claim_from, claim, is_expired, is_leasable, assert_policy, queued_rows,
}
use hack_the_north.Managed.Tables.{Distinct, update-update, update-Distinct}
use hack_the_north.Managed.Steps.{RowStep}
use hack_the_north.Managed.Leases.{by_id_of_found}
use hack_the_north.Managed.Transitions.{
  KeepsRows, KeepsRows-refl, update-KeepsRows, KeepsRows-trans,
}
use hack_the_north.Managed.Refinement.Waiting.{
  Waits, Unlike, Waits-update, queued_rows-Waits, queued_rows-Unlike, All-take, Unlike-take,
}

-- A claim that is returned after `acquire` is the one that it made.
pub acquired :
    (m : M (Claim × Store)) {c : Option Claim} {t : Store}
    → ◌>>=◌ {B = Option Claim × Store} m (λ x. ok (some x.0, x.1)) ≡ ok (c, t)
    → (c' : Claim) × (m ≡ ok (c', t)) × (c ≡ some c')
acquired (ok (c', t')) {t = t} e = let last : t' ≡ t = ground arith in (c', rw last, ground arith)
acquired (err x) e = cc

pub Admission-cases : (a : Admission) → (a ≡ skip) ⊎ ((a ≡ exhaust) ⊎ (a ≡ admit))
Admission-cases skip = inl refl
Admission-cases exhaust = inr (inl refl)
Admission-cases admit = inr (inr refl)

module _ (rd : Redaction) (now : ℕ) (worker : ℕ) (p : WorkerPolicy) where
  acquire_inversion :
      (s : Store) (id : ℕ) (recovery : Bool) {c : Claim} {t : Store}
      → acquire now s id worker p recovery ≡ ok (c, t)
      → t.attempts ≡ update (leased now worker p recovery) id s.attempts
  unfolding acquire touch update_attempt
  acquire_inversion s id recovery e = ground arith

  -- Taking over a lease.
  recovered-KeepsRows :
      (s : Store) (a : Attempt) {c : Claim} {t : Store}
      → Distinct s.attempts
      → find? (is_expired now p.recovery_limit) s.attempts ≡ some a
      → acquire now s a.id worker p true ≡ ok (c, t)
      → KeepsRows rd now s.attempts t.attempts
  unfolding is_expired
  recovered-KeepsRows s a d e h =
      let expired : is_leasable a.state ≡ true =
        ground (arith, find?_sound (is_expired now p.recovery_limit) s.attempts e) in
      rw (acquire_inversion s a.id true h) (
        update-KeepsRows rd now _ a.id s.attempts d (by_id_of_found _ s.attempts d e)
          (RowStep.recover worker p expired refl))

  -- Reserving a session for a waiting row, and leasing it.
  started-KeepsRows :
      (s : Store) (a : Attempt) (o : ℕ) {c : Claim} {t : Store}
      → Distinct s.attempts
      → Waits s.attempts (a, o)
      → acquire now (update_attempt s a.id (reserved now p.session_seconds)) a.id worker p false
        ≡ ok (c, t)
      → KeepsRows rd now s.attempts t.attempts
  unfolding update_attempt reserved
  started-KeepsRows s a o d (found, waits, active) h =
      rw
        (
          acquire_inversion _ a.id false h,
          update-update (leased now worker p false) (reserved now p.session_seconds) a.id s.attempts
              (λ x. refl),
        )
        (update-KeepsRows rd now _ a.id s.attempts d found
          (RowStep.start worker p waits active refl))

  pub exhausted-id : (x : Attempt) → (exhausted now x).id ≡ x.id
  unfolding exhausted
  exhausted-id x = refl

  pub admit_inversion :
      (a : Attempt) (o : ℕ) (rest : List (Attempt × ℕ)) (s : Store) {c : Option Claim} {t : Store}
      → admission p o s ≡ admit
      → claim_queued now worker p ((a, o) ∷ rest) s ≡ ok (c, t)
      → (c' : Claim) × (acquire now
            (update_attempt s a.id (reserved now p.session_seconds))
            a.id
            worker
            p
            false
          ≡ ok (c', t))
        × (c ≡ some c')
  unfolding claim_queued
  admit_inversion a o rest s {c} {t} admitted e =
      acquired (acquire _ _ _ _ _ _) (rw (admitted, claim_queued) at e)

  -- The loop over the rows that were read.
  claim_queued-KeepsRows :
      (qs : List (Attempt × ℕ)) (s : Store) {c : Option Claim} {t : Store}
      → Distinct s.attempts
      → All (Waits s.attempts) qs
      → Unlike qs
      → claim_queued now worker p qs s ≡ ok (c, t)
      → KeepsRows rd now s.attempts t.attempts
  unfolding claim_queued touch update_attempt
  claim_queued-KeepsRows [] s {t} d w u e =
      let same : t ≡ s = ground arith in rw same (KeepsRows-refl rd now s.attempts)
  claim_queued-KeepsRows ((a, o) ∷ rest) s {t} d (w, ws) (n, u) e =
      elim (Admission-cases (admission p o s)) [
        | inl skipped ↦ claim_queued-KeepsRows rest s d ws u (rw (skipped, claim_queued) at e)
        | inr (inl failed) ↦
            KeepsRows-trans rd now s.attempts (update (exhausted now) a.id s.attempts) t.attempts
              (update-KeepsRows rd now _ a.id s.attempts d w.0 (RowStep.exhaust w.1 refl))
              (claim_queued-KeepsRows rest
                (touch now a.run_id (update_attempt s a.id (exhausted now)))
                (update-Distinct _ a.id s.attempts exhausted-id d)
                (Waits-update _ a.id s.attempts rest exhausted-id n ws) u
                (rw (failed, claim_queued) at e))
        | inr (inr admitted) ↦
            let (c', h, returned) = admit_inversion a o rest s admitted e in
            started-KeepsRows s a o d w h
      ]

  pub assert_policy-attempts :
      (s : Store) {t : Store} → assert_policy s p ≡ ok t → t.attempts ≡ s.attempts
  unfolding assert_policy
  assert_policy-attempts s e = ground arith

  pub claim_inversion :
      (s : Store) {c : Option Claim} {t : Store}
      → claim now s worker p ≡ ok (c, t)
      → (s' : Store) × (assert_policy s p ≡ ok s') × (claim_from now s' worker p ≡ ok (c, t))
  unfolding claim
  claim_inversion s e = ground arith

  claim_from-KeepsRows :
      (s : Store) {c : Option Claim} {t : Store}
      → Distinct s.attempts
      → claim_from now s worker p ≡ ok (c, t)
      → KeepsRows rd now s.attempts t.attempts
  unfolding claim_from
  claim_from-KeepsRows s {t} d e =
      elim (Option-cases (find? (is_expired now p.recovery_limit) s.attempts)) [
        | inr (a, expired) ↦
            let (c', h, returned) =
              acquired (acquire _ _ _ _ _ _) (rw (expired, claim_from) at e) in
            recovered-KeepsRows s a d expired h
        | inl idle ↦ elim (Bool-cases (leb global_limit (occupancy (usages s)))) [
          | inl full ↦ let kept : t ≡ s = ground arith in rw kept (KeepsRows-refl rd now s.attempts)
          | inr room ↦
              claim_queued-KeepsRows (take 100 (queued_rows s.runs s.attempts)) s d
                (All-take (Waits s.attempts) 100 _ (queued_rows-Waits s.runs s.attempts d))
                (Unlike-take 100 _ (queued_rows-Unlike s.runs s.attempts d))
                (rw room at (rw (idle, claim_from) at e))
        ]
      ]
    where
      global_limit : ℕ
      global_limit = (worker_concurrency_limits p).global_limit

  -- A claim, on each of its ways.
  pub claim-KeepsRows :
      (s : Store) {c : Option Claim} {t : Store}
      → Distinct s.attempts
      → claim now s worker p ≡ ok (c, t)
      → KeepsRows rd now s.attempts t.attempts
  claim-KeepsRows s {t} d e =
      let (s', policy, h) = claim_inversion s e in
      let same : s'.attempts ≡ s.attempts = assert_policy-attempts s policy in
      subst (λ rows. KeepsRows rd now rows t.attempts) same (claim_from-KeepsRows s' (rw same d) h)
