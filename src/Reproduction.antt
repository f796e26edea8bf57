-- ===== src/Reproduction.antt =====
-- src/server/workflows/reproduction.ts: the search for a short reproduction of a failure of the
-- coupon fixture, one job of it with its candidates. Ids and digests are numbers, and times are
-- milliseconds. The values of `randomUUID`, the reservation of the worker and whether a session was
-- used by a candidate of another job are arguments.
pub mod Completion
pub mod Candidates
pub mod Cases
pub mod Histories
pub mod Budgets
pub mod Tracing
pub mod Minimal
pub mod Ending
mod Witnesses
use hack_the_north.Common.{
  ℕ, zero, suc, ◌+◌, ◌*◌, min, Bool, true, false, not, ◌&&◌, ◌||◌, Option, none, some, List, [],
  ◌∷◌, ◌++◌, Result, ok, err, ◌==◌, leb, ltb, if◌then◌else◌, find?, any, length, is_some,
}

pub data CouponStep : Type 0 where
  fill_save10 fill_cozy5 apply_coupon wait : CouponStep

pub data Status : Type 0 where
  queued running found not_reproduced limit_reached cancelled : Status
  unsupported setup_required uncertain_environment unknown_cleanup : Status

pub record Limits : Type 0 where
  pub candidates : ℕ
  pub steps : ℕ
  pub duration_ms : ℕ
  pub candidate_ms : ℕ
  pub reserved_seconds : ℕ

-- A row of `reproductions`; the reason of a status is left out.
pub record Job : Type 0 where
  pub status : Status
  pub recipe : List CouponStep
  pub best : Option (List CouponStep)
  pub limits : Limits
  pub candidate_count : ℕ
  pub steps_charged : ℕ
  pub seconds_charged : ℕ
  pub time_charged : ℕ
  pub cursor : ℕ
  pub cancel_requested : Bool
  pub active_candidate : Option ℕ
  pub deadline : Option ℕ
  pub created_at : ℕ

pub data CandidateStatus : Type 0 where
  in_flight unknown succeeded refuted : CandidateStatus

-- A row of `reproduction_candidates`.
pub record Candidate : Type 0 where
  pub id : ℕ
  pub ordinal : ℕ
  pub steps : List CouponStep
  pub status : CandidateStatus
  pub session_hash : Option ℕ
  pub charged_steps : ℕ
  pub charged_seconds : ℕ
  pub charged_ms : ℕ

pub record Search : Type 0 where
  pub job : Job
  pub candidates : List Candidate

pub data SearchError : Type 0 where
  constraint : SearchError

abbrev pub setup_steps : ℕ
setup_steps = 3

abbrev number : Status → ℕ
number queued = 0
number running = 1
number found = 2
number not_reproduced = 3
number limit_reached = 4
number cancelled = 5
number unsupported = 6
number setup_required = 7
number uncertain_environment = 8
number unknown_cleanup = 9

abbrev pub is : Status → Status → Bool
is s t = number s == number t

-- `filter((_, index) => index !== cursor)`.
unfoldable pub without : ℕ → List CouponStep → List CouponStep
without n [] = []
without zero (x ∷ xs) = xs
without (suc n) (x ∷ xs) = x ∷ without n xs

unfoldable pub cancel : Search → Search
cancel s =
    if is s.job.status queued
    then record s { job = record s.job { cancel_requested = true; status = cancelled } }
    else if is s.job.status running
    then record s { job = record s.job { cancel_requested = true } }
    else s

abbrev pub passed : Option ℕ → ℕ → Bool
passed none now = false
passed (some t) now = leb t now

abbrev pub is_id : Option ℕ → ℕ → Bool
is_id none id = false
is_id (some x) id = x == id

unfoldable pub change : (id : Option ℕ) → (Candidate → Candidate) → List Candidate → List Candidate
change id f [] = []
change id f (c ∷ cs) = (if is_id id c.id then f c else c) ∷ change id f cs

unfoldable pub give_up : Candidate → Candidate
give_up c = record c { status = unknown }

unfoldable pub recover_expired : (now : ℕ) → Search → Search
unfolding change give_up
recover_expired now s =
    if is s.job.status running && passed s.job.deadline now
    then (record s {
      job = record s.job { status = unknown_cleanup };
      candidates = change s.job.active_candidate give_up s.candidates;
    })
    else s

unfoldable pub finish : Status → Job → Job
finish t j = record j { status = t; active_candidate = none; deadline = none }

unfoldable pub finished : Status → Search → Search
unfolding finish
finished t s = record s { job = finish t s.job }

-- The steps of the next candidate.
unfoldable pub next_steps : Job → List CouponStep
unfolding without
next_steps j = elim j.best [ none ↦ j.recipe | some b ↦ without j.cursor b ]

abbrev pub exhausted : Job → Bool
exhausted j = elim j.best [ none ↦ false | some b ↦ leb (length b) j.cursor ]

unfoldable pub over_limits : (now reservation : ℕ) → List CouponStep → Job → Bool
over_limits now reservation steps j =
    ltb j.limits.candidates (j.candidate_count + 1)
    || (ltb j.limits.steps (j.steps_charged + (length steps + setup_steps))
        || (ltb j.limits.reserved_seconds (j.seconds_charged + reservation)
            || (ltb j.limits.duration_ms (j.time_charged + j.limits.candidate_ms)
                || leb (j.created_at + j.limits.duration_ms) now)))

unfoldable pub deadline_of : (now reservation : ℕ) → Job → ℕ
deadline_of now reservation j =
    min (j.created_at + j.limits.duration_ms) (now + reservation * 1000 + 5000)

-- The row of a candidate that is dispatched, and the job that is charged for it.
unfoldable pub new_candidate : (id reservation : ℕ) → List CouponStep → Job → Candidate
new_candidate id reservation steps j = record {
  id = id;
  ordinal = j.candidate_count + 1;
  steps = steps;
  status = in_flight;
  session_hash = none;
  charged_steps = length steps + setup_steps;
  charged_seconds = reservation;
  charged_ms = j.limits.candidate_ms;
}

unfoldable pub charged : (now id reservation : ℕ) → List CouponStep → Job → Job
unfolding deadline_of
charged now id reservation steps j = record j {
  status = running;
  candidate_count = j.candidate_count + 1;
  steps_charged = j.steps_charged + (length steps + setup_steps);
  seconds_charged = j.seconds_charged + reservation;
  time_charged = j.time_charged + j.limits.candidate_ms;
  active_candidate = some id;
  deadline = some (deadline_of now reservation j);
}

unfoldable pub dispatched : (now id reservation : ℕ) → List CouponStep → Search → Search
unfolding charged new_candidate
dispatched now id reservation steps s = record {
  job = charged now id reservation steps s.job;
  candidates = s.candidates ++ (new_candidate id reservation steps s.job ∷ []);
}

-- The status in which `dispatchNext` finishes a job that is queued, if it does.
unfoldable pub ending : (now reservation : ℕ) → Job → Option Status
unfolding next_steps over_limits deadline_of
ending now reservation j =
    if j.cancel_requested
    then some cancelled
    else if exhausted j
    then some found
    else if length (next_steps j) == 0
    then some found
    else if over_limits now reservation (next_steps j) j
    then some limit_reached
    else if leb (deadline_of now reservation j) (now + 5000)
    then some limit_reached
    else none

-- The transaction of `dispatchNext` for a job that is queued: whether a candidate was dispatched.
unfoldable pub dispatch_queued :
    (now id reservation : ℕ) → Search → Result SearchError (Bool × Search)
unfolding finished ending dispatched
dispatch_queued now id reservation s = elim (ending now reservation s.job) [
  | some t ↦ ok (false, finished t s)
  | none ↦
      if any (λ c. c.id == id) s.candidates
      then err constraint
      else ok (true, dispatched now id reservation (next_steps s.job) s)
]

unfoldable pub dispatch_recovered :
    (now id reservation : ℕ) → Search → Result SearchError (Bool × Search)
unfolding dispatch_queued
dispatch_recovered now id reservation s =
    if is s.job.status queued then dispatch_queued now id reservation s else ok (false, s)

-- A transaction that throws is rolled back.
unfoldable pub committed : Search → Result SearchError (Bool × Search) → Search
committed s (ok (b, t)) = t
committed s (err e) = s

-- `dispatchNext`, whose recovery is a transaction of its own.
unfoldable pub dispatch_next : (now id reservation : ℕ) → Search → Search
unfolding recover_expired dispatch_recovered committed
dispatch_next now id reservation s =
    committed (recover_expired now s)
      (dispatch_recovered now id reservation (recover_expired now s))

-- `candidateDispatch`, and the test of `pendingCandidates`: the steps that a worker may still run.
unfoldable pub candidate_dispatch : (now id : ℕ) → Search → Option Candidate
candidate_dispatch now id s = elim (find? (λ c. c.id == id) s.candidates) [
  | none ↦ none
  | some c ↦
      if (elim c.status [ in_flight ↦ true | _ ↦ false ])
        && (is s.job.status running
            && (is_id s.job.active_candidate id
                && (not s.job.cancel_requested
                    && (is_some s.job.deadline && not (passed s.job.deadline now)))))
      then some c
      else none
]
