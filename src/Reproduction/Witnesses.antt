-- ===== src/Reproduction/Witnesses.antt =====
-- Runs of a search.
use hack_the_north.Common.{
  ◌⊎◌, ◌≤◌, ℕ, ◌+◌, ◌*◌, ◌≡◌, refl, true, false, some, List, [], ◌∷◌, arith,
}
use hack_the_north.Reproduction.{CouponStep, Status, Limits, CandidateStatus}
use hack_the_north.Reproduction.Completion.{Outcome, CandidateResult, export_available}
use hack_the_north.Reproduction.Cases.{is_final}
use hack_the_north.Reproduction.Histories.{
  Event, dispatching, completing, recovering, cancelling, run, prepared,
}
use hack_the_north.Reproduction.Budgets.{Within, charges-Within}
use hack_the_north.Reproduction.Ending.{Turn, take_turns, Unused, search_ends}
use hack_the_north.Reproduction.Tracing.{Tried}
use hack_the_north.Reproduction.Minimal.{RefutedBelow, found_minimal}

abbrev limits : Limits
limits = record {
  candidates = 4;
  steps = 160;
  duration_ms = 180000;
  candidate_ms = 15000;
  reserved_seconds = 240;
}

abbrev recipe : List CouponStep
recipe = CouponStep.fill_save10 ∷ CouponStep.apply_coupon ∷ []

abbrev result : Outcome → ℕ → CandidateResult
result o session = record {
  outcome = o;
  has_signature = elim o [ Outcome.reproduced ↦ true | _ ↦ false ];
  cleanup_confirmed = true;
  trusted_fixture = true;
  session = some session;
}

-- The whole recipe fails as recorded, and without either step it does not.
abbrev whole : List Event
whole =
    dispatching 1000 1 30
    ∷ completing 2000 1 false false (result Outcome.reproduced 51)
    ∷ completing 2001 1 false false (result Outcome.reproduced 51)
    ∷ dispatching 3000 2 30
    ∷ completing 4000 2 false false (result Outcome.missed 52)
    ∷ recovering 4500
    ∷ dispatching 5000 3 30
    ∷ completing 6000 3 false false (result Outcome.missed 53)
    ∷ dispatching 7000 4 30
    ∷ []

whole_exported : export_available (run whole (prepared 0 recipe limits)).job ≡ true
unfolding export_available run prepared
whole_exported = refl

found_minimal_example :
    Tried CandidateStatus.succeeded recipe (run whole (prepared 0 recipe limits)).candidates
    × ((2 ≤ 1) ⊎ RefutedBelow 2 recipe (run whole (prepared 0 recipe limits)).candidates)
unfolding run prepared
found_minimal_example = found_minimal 0 recipe limits whole recipe refl refl

charges-Within_example : Within (run whole (prepared 0 recipe limits)).job
charges-Within_example = charges-Within 0 recipe limits whole

abbrev turn : ℕ → Outcome → Turn
turn n o = record {
  dispatched_at = 1000 * n;
  id = n;
  reservation = 30;
  completed_at = 1000 * n + 500;
  elsewhere = false;
  is_cancelled = false;
  result = result o n;
}

abbrev turns : List Turn
turns =
    turn 1 Outcome.reproduced
    ∷ turn 2 Outcome.missed
    ∷ turn 3 Outcome.missed
    ∷ turn 4 Outcome.missed
    ∷ turn 5 Outcome.missed
    ∷ []

search_ends_example : is_final (take_turns turns (prepared 0 recipe limits)).job.status ≡ true
unfolding prepared Unused
search_ends_example =
    search_ends turns (prepared 0 recipe limits) refl
      (
        refl,
        (refl, (refl, (refl, (refl, tt)))),
        (
          refl,
          (refl, (refl, (refl, tt))),
          (refl, (refl, (refl, tt)), (refl, (refl, tt), (refl, tt, tt))),
        ),
      )
      (omega arith)

cancelled_while_running :
    (run
      (dispatching 1000 1 30
        ∷ cancelling
        ∷ completing 2000 1 false false (result Outcome.reproduced 51)
        ∷ [])
      (prepared 0 recipe limits)).job.status
    ≡ Status.cancelled
unfolding run prepared
cancelled_while_running = refl
