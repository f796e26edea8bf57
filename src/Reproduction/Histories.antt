-- ===== src/Reproduction/Histories.antt =====
-- src/server/workflows/reproduction.ts: the histories of a job.
use hack_the_north.Common.{ℕ, Bool, List, [], ◌∷◌, none}
use hack_the_north.Reproduction.{
  CouponStep, Status, Limits, Search, cancel, recover_expired, dispatch_next,
}
use hack_the_north.Reproduction.Completion.{CandidateResult, complete_candidate}

pub data Event : Type 0 where
  dispatching : (now id reservation : ℕ) → Event
  completing : (now id : ℕ) → (elsewhere is_cancelled : Bool) → CandidateResult → Event
  recovering : (now : ℕ) → Event
  cancelling : Event

unfoldable pub step : Event → Search → Search
unfolding dispatch_next complete_candidate recover_expired cancel
step (dispatching now id reservation) s = dispatch_next now id reservation s
step (completing now id elsewhere is_cancelled r) s =
    (complete_candidate now id elsewhere is_cancelled r s).1
step (recovering now) s = recover_expired now s
step cancelling s = cancel s

unfoldable pub run : List Event → Search → Search
unfolding step
run [] s = s
run (e ∷ es) s = run es (step e s)

-- The row that `prepare` inserts for a recipe that is ready.
unfoldable pub prepared : (now : ℕ) → List CouponStep → Limits → Search
prepared now recipe limits = record {
  job = record {
    status = Status.queued;
    recipe = recipe;
    best = none;
    limits = limits;
    candidate_count = 0;
    steps_charged = 0;
    seconds_charged = 0;
    time_charged = 0;
    cursor = 0;
    cancel_requested = Bool.false;
    active_candidate = none;
    deadline = none;
    created_at = now;
  };
  candidates = [];
}
