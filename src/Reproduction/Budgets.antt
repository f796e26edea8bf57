-- ===== src/Reproduction/Budgets.antt =====
-- src/server/workflows/reproduction.ts: what a job is charged.
use hack_the_north.Common.{
  ℕ, ◌≤◌, ◌≡◌, refl, Bool, false, ◌&&◌, List, [], ◌∷◌, arith, Result, ok, err, inl, inr, Bool-cases,
  find?, ◌==◌,
}
use hack_the_north.Reproduction.{
  CouponStep, Status, Limits, Job, Search, SearchError, is, cancel, passed, recover_expired, finish,
  finished, next_steps, over_limits, charged, dispatched, dispatch_queued, dispatch_recovered,
  committed, dispatch_next,
}
use hack_the_north.Reproduction.Completion.{
  CandidateResult, is_untrusted, concluded, settled, complete_candidate,
}
use hack_the_north.Reproduction.Cases.{dispatch_queued-cases, concluded-cases, complete_found-cases}
use hack_the_north.Reproduction.Histories.{
  Event, dispatching, completing, recovering, cancelling, step, run, prepared,
}

-- A job is charged no more candidates, steps, seconds of browsers and time than its limits.
unfoldable pub Within : Job → Type 0
Within j =
    (j.candidate_count ≤ j.limits.candidates)
    × (j.steps_charged ≤ j.limits.steps)
    × (j.seconds_charged ≤ j.limits.reserved_seconds)
    × (j.time_charged ≤ j.limits.duration_ms)

finish-Within : (t : Status) (j : Job) → Within j → Within (finish t j)
unfolding Within finish
finish-Within t j h = h

charged-Within :
    (now id reservation : ℕ) (steps : List CouponStep) (j : Job)
    → over_limits now reservation steps j ≡ false
    → Within (charged now id reservation steps j)
unfolding Within charged over_limits
charged-Within now id reservation steps j h =
    (ground arith, ground arith, ground arith, ground arith)

recover_expired-Within : (now : ℕ) (s : Search) → Within s.job → Within (recover_expired now s).job
unfolding Within recover_expired
recover_expired-Within now s h =
    elim (Bool-cases (is s.job.status Status.running && passed s.job.deadline now)) [
      | inl late ↦ simp late h
      | inr early ↦ simp early h
    ]

cancel-Within : (s : Search) → Within s.job → Within (cancel s).job
unfolding Within cancel
cancel-Within s h = elim (Bool-cases (is s.job.status Status.queued)) [
  | inl waiting ↦ simp waiting h
  | inr other ↦ elim (Bool-cases (is s.job.status Status.running)) [
    | inl going ↦ simp (other, going) h
    | inr done ↦ simp (other, done) h
  ]
]

dispatch_queued-Within :
    (now id reservation : ℕ) (s : Search) (r : Result SearchError (Bool × Search))
    → dispatch_queued now id reservation s ≡ r
    → Within s.job
    → Within (committed s r).job
unfolding committed dispatched finished
dispatch_queued-Within now id reservation s (err e) h w = w
dispatch_queued-Within now id reservation s (ok (b, t)) h w =
    elim (dispatch_queued-cases now id reservation s h) [
      | inl (st, ended, e) ↦ rw e (finish-Within st s.job w)
      | inr (unused, affordable, e) ↦
          rw e (charged-Within now id reservation (next_steps s.job) s.job affordable)
    ]

concluded-Within :
    (untrusted is_cancelled : Bool) (r : CandidateResult) (steps : List CouponStep) (j : Job)
    → Within j
    → Within (concluded untrusted is_cancelled r steps j)
unfolding Within finish
concluded-Within untrusted is_cancelled r steps j w =
    elim (concluded-cases untrusted is_cancelled r steps j) [
      | inl (st, final, other, e) ↦ rw e w
      | inr (inl (good, hit, e)) ↦ rw e w
      | inr (inr (good, miss, best, e)) ↦ rw e w
    ]

complete_candidate-Within :
    (now id : ℕ) (elsewhere is_cancelled : Bool) (r : CandidateResult) (s : Search)
    → Within s.job
    → Within (complete_candidate now id elsewhere is_cancelled r s).1.job
unfolding complete_candidate settled
complete_candidate-Within now id elsewhere is_cancelled r s w =
    elim (complete_found-cases now id elsewhere is_cancelled r s
      (find? (λ c. c.id == id) s.candidates)) [
        | inl stale ↦ rw stale w
        | inr (c, is_there, going, mine, e) ↦
            rw e
              (concluded-Within (is_untrusted now id elsewhere r s) is_cancelled r c.steps s.job w)
      ]

dispatch_recovered-Within :
    (now id reservation : ℕ) (s : Search)
    → Within s.job
    → Within (committed s (dispatch_recovered now id reservation s)).job
unfolding dispatch_recovered committed
dispatch_recovered-Within now id reservation s w =
    elim (Bool-cases (is s.job.status Status.queued)) [
      | inl waiting ↦ simp waiting (
          dispatch_queued-Within now id reservation s (dispatch_queued now id reservation s) refl w)
      | inr other ↦ simp other w
    ]

dispatch_next-Within :
    (now id reservation : ℕ) (s : Search)
    → Within s.job
    → Within (dispatch_next now id reservation s).job
unfolding dispatch_next
dispatch_next-Within now id reservation s w =
    dispatch_recovered-Within now id reservation (recover_expired now s)
      (recover_expired-Within now s w)

step-Within : (e : Event) (s : Search) → Within s.job → Within (step e s).job
unfolding step
step-Within (dispatching now id reservation) s w = dispatch_next-Within now id reservation s w
step-Within (completing now id elsewhere is_cancelled r) s w =
    complete_candidate-Within now id elsewhere is_cancelled r s w
step-Within (recovering now) s w = recover_expired-Within now s w
step-Within cancelling s w = cancel-Within s w

run-Within : (es : List Event) (s : Search) → Within s.job → Within (run es s).job
unfolding run
run-Within [] s w = w
run-Within (e ∷ es) s w = run-Within es (step e s) (step-Within e s w)

prepared-Within :
    (now : ℕ) (recipe : List CouponStep) (limits : Limits) → Within (prepared now recipe limits).job
unfolding Within prepared
prepared-Within now recipe limits = (omega arith, omega arith, omega arith, omega arith)

-- After any history a prepared search is charged no more candidates, steps, browser seconds and time
-- than its limits.
pub charges-Within :
    (now : ℕ) (recipe : List CouponStep) (limits : Limits) (es : List Event)
    → Within (run es (prepared now recipe limits)).job
charges-Within now recipe limits es =
    run-Within es (prepared now recipe limits) (prepared-Within now recipe limits)
