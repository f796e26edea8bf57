-- ===== src/Takeover.antt =====
-- src/server/workflows/takeover.ts: a human takes over the browser of an attempt and hands it back.
-- A desk holds what the service reads and writes of one attempt. Ids and digests are numbers, and
-- times are milliseconds. `takeoverViewerUrl` of src/lib/takeover-contracts.ts, which rests on the
-- URL parser of the platform, and the digest of a command are parameters.
pub mod Commands
pub mod Worker
pub mod History
pub mod Keeping
pub mod Operations
pub mod Service
pub mod Histories
pub mod Lateness
mod Witnesses
use hack_the_north.Common.{
  ℕ, ◌+◌, ◌-◌, min, max, Bool, true, false, not, ◌&&◌, ◌||◌, Option, none, some, List, [], ◌∷◌,
  ◌++◌, map, Text, Result, ok, err, ◌>>=◌, ◌>>◌, throw_if, ◌==◌, leb, ltb, if◌then◌else◌, find?,
  is_some, or_else, text_eq,
}
use hack_the_north.Contracts.{RunStatus}

pub data Phase : Type 0 where
  agent requested quiescing human handback resuming closed : Phase

pub data Action : Type 0 where
  request hand_back : Action

pub record Command : Type 0 where
  pub action : Action
  pub expected_version : ℕ
  pub controller_id : ℕ

pub record Session : Type 0 where
  pub session_id : ℕ
  pub live_view_url : Text

-- The row that `attempt` selects.
pub record AttemptRow : Type 0 where
  pub owner : ℕ
  pub status : RunStatus
  pub is_public : Bool
  pub run_cancelled : Bool
  pub job_id : ℕ
  pub job_cancelled : Bool
  pub job_leased : Bool
  pub lease_expires_at : Option ℕ
  pub lease_generation : ℕ
  pub launch_active : Bool
  pub session : Option Session

-- A row of `takeover_controls`.
pub record Control : Type 0 where
  pub phase : Phase
  pub version : ℕ
  pub controller_id : Option ℕ
  pub lease_generation : ℕ
  pub deadline : Option ℕ
  pub viewer_until : ℕ

pub data EndReason : Type 0 where
  timeout control_unavailable handed_back execution_ended : EndReason

-- A row of `takeover_intervals`.
pub record Interval : Type 0 where
  pub version : ℕ
  pub started_at : ℕ
  pub ended_at : Option ℕ
  pub end_reason : Option EndReason

-- A row of `takeover_commands`.
pub record Stored : Type 0 where
  pub owner : ℕ
  pub key : Text
  pub request_hash : ℕ

pub record Desk : Type 0 where
  pub attempt : AttemptRow
  pub control : Option Control
  pub intervals : List Interval
  pub commands : List Stored
  pub bindings : List (ℕ × ℕ)

pub data TakeoverError : Type 0 where
  not_found public_takeover_unsupported conflict : TakeoverError
  lease_lost control_gone control_timeout interrupted nested_transaction : TakeoverError

abbrev pub human_timeout_ms : ℕ
human_timeout_ms = 60000

abbrev pub viewer_grant_ms : ℕ
viewer_grant_ms = 1500

abbrev is_running : RunStatus → Bool
is_running RunStatus.running = true
is_running _ = false

abbrev pub is_agent : Phase → Bool
is_agent agent = true
is_agent _ = false

abbrev pub is_human : Phase → Bool
is_human human = true
is_human _ = false

abbrev pub is_closed : Phase → Bool
is_closed closed = true
is_closed _ = false

abbrev later : Option ℕ → ℕ → Bool
later none now = false
later (some t) now = ltb now t

-- `deadline !== null && deadline <= clock`.
abbrev pub elapsed : Option ℕ → ℕ → Bool
elapsed none now = false
elapsed (some t) now = leb t now

unfoldable pub attempt_of : (owner : ℕ) → Desk → Result TakeoverError AttemptRow
attempt_of owner d =
    if not (d.attempt.owner == owner)
    then err not_found
    else if d.attempt.is_public
    then err public_takeover_unsupported
    else ok d.attempt

unfoldable pub is_active : (now : ℕ) → AttemptRow → Bool
is_active now a =
    is_running a.status
    && (a.job_leased
        && (a.launch_active
            && (not a.job_cancelled && (not a.run_cancelled && later a.lease_expires_at now))))

unfoldable pub transition : Phase → Desk → Desk
transition p d = elim d.control [
  | none ↦ d
  | some c ↦ record d { control = some (record c { phase = p; version = c.version + 1 }) }
]

unfoldable ended : (now : ℕ) → EndReason → Interval → Interval
ended now reason i = elim i.ended_at [
  | none ↦ record i { ended_at = some now; end_reason = some reason }
  | some t ↦ i
]

unfoldable pub end_intervals : (now : ℕ) → EndReason → List Interval → List Interval
unfolding ended
end_intervals now reason [] = []
end_intervals now reason (i ∷ rest) = ended now reason i ∷ end_intervals now reason rest

unfoldable pub end_interval : (now : ℕ) → EndReason → Desk → Desk
unfolding end_intervals
end_interval now reason d = record d { intervals = end_intervals now reason d.intervals }

abbrev pub already_closed : Option Control → Bool
already_closed none = false
already_closed (some c) = is_closed c.phase

unfoldable pub close : (now : ℕ) → EndReason → Desk → Desk
unfolding transition end_interval
close now reason d =
    if already_closed d.control then d else transition Phase.closed (end_interval now reason d)

unfoldable pub timed_out : (now : ℕ) → Control → Bool
timed_out now c = not (is_agent c.phase) && elapsed c.deadline now

-- Whether an attempt, its lease or its deadline has ended the control.
unfoldable pub unavailable : (now : ℕ) → AttemptRow → Option Control → Bool
unfolding is_active timed_out
unavailable now a none = false
unavailable now a (some c) =
    not (is_active now a) || (not (c.lease_generation == a.lease_generation) || timed_out now c)

abbrev expiry : (now : ℕ) → Option Control → EndReason
expiry now none = EndReason.control_unavailable
expiry now (some c) = if timed_out now c then EndReason.timeout else EndReason.control_unavailable

unfoldable pub expire : (now : ℕ) → AttemptRow → Desk → Desk
unfolding unavailable close timed_out
expire now a d = if unavailable now a d.control then close now (expiry now d.control) d else d
