-- ===== src/Reproduction/Completion.antt =====
-- src/server/workflows/reproduction.ts: `completeCandidate`, and whether a result can be exported.
use hack_the_north.Common.{
  ℕ, ◌+◌, Bool, true, false, not, ◌&&◌, ◌||◌, Option, none, some, List, ◌==◌, if◌then◌else◌, find?,
  any, is_some,
}
use hack_the_north.Reproduction.{
  CouponStep, Job, Candidate, Search, is, passed, is_id, change, finish, queued, running, found,
  not_reproduced, limit_reached, cancelled, uncertain_environment, unknown_cleanup, unknown,
  succeeded, refuted,
}

pub data Outcome : Type 0 where
  reproduced missed unclear : Outcome

-- A result that fits its schema, with the digest of the session if its identity is not empty.
pub record CandidateResult : Type 0 where
  pub outcome : Outcome
  pub has_signature : Bool
  pub cleanup_confirmed : Bool
  pub trusted_fixture : Bool
  pub session : Option ℕ

unfoldable pub is_reproduced : CandidateResult → Bool
is_reproduced r = elim r.outcome [ reproduced ↦ r.has_signature | _ ↦ false ]

-- An outcome that the signature contradicts.
abbrev contradicted : CandidateResult → Bool
contradicted r = elim r.outcome [
  | reproduced ↦ not r.has_signature
  | missed ↦ r.has_signature
  | unclear ↦ true
]

-- Whether a session is that of another candidate.
unfoldable reused : (id : ℕ) → (elsewhere : Bool) → Option ℕ → List Candidate → Bool
reused id elsewhere none cs = false
reused id elsewhere (some h) cs =
    elsewhere || any (λ c. is_id c.session_hash h && not (c.id == id)) cs

unfoldable pub is_untrusted : (now id : ℕ) → (elsewhere : Bool) → CandidateResult → Search → Bool
unfolding reused
is_untrusted now id elsewhere r s =
    not (is_some r.session)
    || (reused id elsewhere r.session s.candidates
        || (passed s.job.deadline now || (not r.trusted_fixture || contradicted r)))

unfoldable pub resolved : (untrusted : Bool) → CandidateResult → Candidate → Candidate
unfolding is_reproduced
resolved untrusted r c = record c {
  status = if untrusted then unknown else if is_reproduced r then succeeded else refuted;
  session_hash = r.session;
}

-- The job after a result.
unfoldable pub concluded :
    (untrusted is_cancelled : Bool) → CandidateResult → List CouponStep → Job → Job
unfolding finish is_reproduced
concluded untrusted is_cancelled r steps j =
    if not r.cleanup_confirmed
    then finish unknown_cleanup j
    else if j.cancel_requested || is_cancelled
    then finish cancelled j
    else if untrusted
    then finish uncertain_environment j
    else if not (is_some j.best) && not (is_reproduced r)
    then finish not_reproduced j
    else if is_reproduced r
    then finish queued (record j { best = some steps; cursor = 0 })
    else finish queued (record j { cursor = j.cursor + 1 })

unfoldable pub settled :
    (now id : ℕ) → (elsewhere is_cancelled : Bool) → CandidateResult → Candidate → Search → Search
unfolding is_untrusted resolved change concluded
settled now id elsewhere is_cancelled r c s =
    let untrusted = is_untrusted now id elsewhere r s in
    (record {
      job = concluded untrusted is_cancelled r c.steps s.job;
      candidates = change (some id) (resolved untrusted r) s.candidates;
    })

unfoldable pub complete_found :
    (now id : ℕ)
    → (elsewhere is_cancelled : Bool) → CandidateResult
    → Search
    → Option Candidate
    → Bool × Search
unfolding settled
complete_found now id elsewhere is_cancelled r s none = (false, s)
complete_found now id elsewhere is_cancelled r s (some c) =
    if not (is s.job.status running) || not (is_id s.job.active_candidate id)
    then (false, s)
    else (true, settled now id elsewhere is_cancelled r c s)

unfoldable pub complete_candidate :
    (now id : ℕ) → (elsewhere is_cancelled : Bool) → CandidateResult → Search → Bool × Search
unfolding complete_found
complete_candidate now id elsewhere is_cancelled r s =
    complete_found now id elsewhere is_cancelled r s (find? (λ c. c.id == id) s.candidates)

unfoldable pub export_available : Job → Bool
export_available j = is_some j.best && (is j.status found || is j.status limit_reached)
