-- ===== src/Reproduction/Cases.antt =====
-- src/server/workflows/reproduction.ts: what the transactions can come to.
use hack_the_north.Common.{
  ℕ, ◌+◌, ◌≡◌, refl, Bool, true, false, not, ◌&&◌, ◌||◌, Option, none, some, List, arith, ok, any,
  ◌==◌, ◌⊎◌, inl, inr, Bool-cases, Option-cases, length, is_some,
}
use hack_the_north.Reproduction.{
  CouponStep, Status, Job, Candidate, Search, is, is_id, finish, finished, next_steps, exhausted,
  over_limits, ending, dispatched, dispatch_queued,
}
use hack_the_north.Reproduction.Completion.{
  CandidateResult, is_reproduced, concluded, settled, complete_found,
}

abbrev pub is_final : Status → Bool
is_final t = not (is t Status.queued || is t Status.running)

-- The end of a search, before any candidate.
unfoldable pub Ended : Job → Status → Type 0
Ended j t =
    (is_final t ≡ true)
    × (is t Status.found ≡ true → (exhausted j || length (next_steps j) == 0) ≡ true)

ending-Ended :
    (now reservation : ℕ) (j : Job) {t : Status} → ending now reservation j ≡ some t → Ended j t
unfolding ending Ended
ending-Ended now reservation j {t} h = (ground arith, λ e. ground arith)

ending-affordable :
    (now reservation : ℕ) (j : Job)
    → ending now reservation j ≡ none
    → over_limits now reservation (next_steps j) j ≡ false
unfolding ending
ending-affordable now reservation j h = ground arith

pub dispatch_queued-cases :
    (now id reservation : ℕ) (s : Search) {b : Bool} {t : Search}
    → dispatch_queued now id reservation s ≡ ok (b, t)
    → ((st : Status) × Ended s.job st × (t ≡ finished st s))
      ⊎ ((any (λ c. c.id == id) s.candidates ≡ false)
          × (over_limits now reservation (next_steps s.job) s.job ≡ false)
          × (t ≡ dispatched now id reservation (next_steps s.job) s))
unfolding dispatch_queued
dispatch_queued-cases now id reservation s {b} {t} h =
    elim (Option-cases (ending now reservation s.job)) [
      | inr (st, e) ↦ inl (st, ending-Ended now reservation s.job e, ground arith)
      | inl e ↦ inr (ground arith, ending-affordable now reservation s.job e, ground arith)
    ]

-- What a result makes of a job.
pub concluded-cases :
    (untrusted is_cancelled : Bool) (r : CandidateResult) (steps : List CouponStep) (j : Job)
    → ((st : Status) × (is_final st ≡ true)
        × (is st Status.found ≡ false)
        × (concluded untrusted is_cancelled r steps j ≡ finish st j))
      ⊎ (((untrusted ≡ false)
            × (is_reproduced r ≡ true)
            × (concluded untrusted is_cancelled r steps j
                ≡ finish Status.queued (record j { best = some steps; cursor = 0 })))
          ⊎ ((untrusted ≡ false)
              × (is_reproduced r ≡ false)
              × (is_some j.best ≡ true)
              × (concluded untrusted is_cancelled r steps j
                  ≡ finish Status.queued (record j { cursor = j.cursor + 1 }))))
unfolding concluded
concluded-cases untrusted is_cancelled r steps j = elim (Bool-cases r.cleanup_confirmed) [
  | inr unclean ↦ inl (Status.unknown_cleanup, refl, refl, simp unclean refl)
  | inl clean ↦ elim (Bool-cases (j.cancel_requested || is_cancelled)) [
    | inl stop ↦ inl (Status.cancelled, refl, refl, simp (clean, stop) refl)
    | inr going ↦ elim (Bool-cases untrusted) [
      | inl bad ↦ inl (Status.uncertain_environment, refl, refl, simp (clean, going, bad) refl)
      | inr good ↦ elim (Bool-cases (is_reproduced r)) [
        | inl hit ↦
            let known : not (is_some j.best) && not (is_reproduced r) ≡ false = ground arith in
            inr (inl (good, hit, simp (clean, going, good, known) (simp hit refl)))
        | inr miss ↦ elim (Bool-cases (is_some j.best)) [
          | inl best ↦ inr (inr (good, miss, best, simp (clean, going, good, miss, best) refl))
          | inr baseline ↦
              inl
                (Status.not_reproduced, refl, refl, simp (clean, going, good, miss, baseline) refl)
        ]
      ]
    ]
  ]
]

pub complete_found-cases :
    (now id : ℕ) (elsewhere is_cancelled : Bool) (r : CandidateResult) (s : Search)
    (o : Option Candidate)
    → (complete_found now id elsewhere is_cancelled r s o ≡ (false, s))
      ⊎ ((c : Candidate) × (o ≡ some c)
          × (is s.job.status Status.running ≡ true)
          × (is_id s.job.active_candidate id ≡ true)
          × (complete_found now id elsewhere is_cancelled r s o
              ≡ (true, settled now id elsewhere is_cancelled r c s)))
unfolding complete_found
complete_found-cases now id elsewhere is_cancelled r s none = inl refl
complete_found-cases now id elsewhere is_cancelled r s (some c) =
    elim (Bool-cases (is s.job.status Status.running)) [
      | inr stopped ↦ inl (simp stopped refl)
      | inl going ↦ elim (Bool-cases (is_id s.job.active_candidate id)) [
        | inr stale ↦ inl (simp (going, stale) refl)
        | inl mine ↦ inr (c, refl, going, mine, simp (going, mine) refl)
      ]
    ]
