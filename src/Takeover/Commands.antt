-- ===== src/Takeover/Commands.antt =====
-- src/server/workflows/takeover.ts: `status` and `command`, what an owner asks of the service.
use hack_the_north.Common.{
  ℕ, ◌+◌, ◌-◌, min, max, Bool, true, false, not, ◌&&◌, ◌||◌, Option, none, some, List, [], ◌∷◌,
  ◌++◌, Text, Result, ok, err, ◌>>=◌, ◌>>◌, throw_if, ◌==◌, if◌then◌else◌, find?, or_else, text_eq,
}
use hack_the_north.Takeover.{
  Phase, Command, Session, AttemptRow, Desk, Control, Stored, TakeoverError, human_timeout_ms,
  viewer_grant_ms, is_agent, is_human, later, attempt_of, is_active, transition, expire, not_found,
  conflict, request, hand_back,
}

pub record Status : Type 0 where
  pub phase : Phase
  pub version : ℕ
  pub controller_id : Option ℕ
  pub deadline : Option ℕ
  pub interactive_url : Option Text
  pub valid_until : Option ℕ
  pub valid_for_ms : Option ℕ

abbrev same_controller : Option ℕ → Option ℕ → Bool
same_controller (some a) (some b) = a == b
same_controller _ _ = false

abbrev bound_to : ℕ → List (ℕ × ℕ) → Option ℕ
bound_to session [] = none
bound_to session ((s, job) ∷ rest) = if s == session then some job else bound_to session rest

abbrev is_job : Option ℕ → ℕ → Bool
is_job none job = false
is_job (some j) job = j == job

abbrev is_empty : Text → Bool
is_empty [] = true
is_empty (c ∷ t) = false

-- Until when a viewer may be used that is handed out now.
unfoldable pub grant_until : (now : ℕ) → AttemptRow → Control → ℕ
grant_until now a c =
    min (now + viewer_grant_ms) (min (or_else c.deadline 0) (or_else a.lease_expires_at 0))

-- The session whose viewer is handed out, if one is.
unfoldable pub granted :
    AttemptRow → Option ℕ → List (ℕ × ℕ) → Option Control → Result TakeoverError (Option Session)
granted a controller bindings none = ok none
granted a controller bindings (some c) =
    if not (is_human c.phase && same_controller c.controller_id controller)
    then ok none
    else elim a.session [
      | none ↦ ok none
      | some s ↦
          if not (is_job (bound_to s.session_id bindings) a.job_id)
          then err not_found
          else if is_empty s.live_view_url
          then ok none
          else ok (some s)
    ]

unfoldable pub extended : ℕ → Option Control → Option Control
extended until none = none
extended until (some c) = some (record c { viewer_until = max c.viewer_until until })

unfoldable pub extend_viewer : ℕ → Desk → Desk
unfolding extended
extend_viewer until d = record d { control = extended until d.control }

-- The answer, which reads the control as it was before `viewer_until` was extended.
unfoldable pub status_view :
    (now : ℕ) → AttemptRow → Option ℕ → Option Control → Option (Text × ℕ) → Status
unfolding is_active
status_view now a controller none grant = record {
  phase = if is_active now a then Phase.agent else Phase.closed;
  version = 0;
  controller_id = none;
  deadline = none;
  interactive_url = none;
  valid_until = none;
  valid_for_ms = none;
}
status_view now a controller (some c) grant = record {
  phase = c.phase;
  version = c.version;
  controller_id = if same_controller c.controller_id controller then c.controller_id else none;
  deadline = c.deadline;
  interactive_url = elim grant [ none ↦ none | some g ↦ some g.0 ];
  valid_until = elim grant [ none ↦ none | some g ↦ some g.1 ];
  valid_for_ms = elim grant [ none ↦ none | some g ↦ some (g.1 - now) ];
}

pub record Parameters : Type 0 where
  pub viewer_url : Text → Text
  pub digest : Command → ℕ

abbrev pub until_of : (now : ℕ) → AttemptRow → Option Control → ℕ
until_of now a none = 0
until_of now a (some c) = grant_until now a c

module _ (ps : Parameters) where
  unfoldable pub answer : (now : ℕ) → AttemptRow → Option ℕ → Desk → Option Session → Status × Desk
  unfolding grant_until extend_viewer status_view
  answer now a controller d none = (status_view now a controller d.control none, d)
  answer now a controller d (some s) =
      let until = until_of now a d.control in
      (
        status_view now a controller d.control (some (ps.viewer_url s.live_view_url, until)),
        extend_viewer until d,
      )

  unfoldable pub status_in_transaction :
      (now owner : ℕ) → Option ℕ → Desk → Result TakeoverError (Status × Desk)
  unfolding attempt_of expire granted answer
  status_in_transaction now owner controller d = do
    a ← attempt_of owner d
    let e = expire now a d
    g ← granted a controller e.bindings e.control
    ok (answer now a controller e g)

  abbrev pub is_key : ℕ → Text → Stored → Bool
  is_key owner key s = s.owner == owner && text_eq s.key key

  -- The control that a command reads, inserted when the attempt has none.
  unfoldable pub opened : AttemptRow → Option Control → Control
  opened a (some c) = c
  opened a none = record {
    phase = Phase.agent;
    version = 0;
    controller_id = none;
    lease_generation = a.lease_generation;
    deadline = none;
    viewer_until = 0;
  }

  -- What a command does to the control, before its transition.
  unfoldable pub applied : (now : ℕ) → Command → Control → Result TakeoverError (Control × Phase)
  applied now c k = elim c.action [
    | request ↦
        if not (is_agent k.phase)
        then err conflict
        else ok (
          record k {
            controller_id = some c.controller_id;
            deadline = some (now + human_timeout_ms);
            viewer_until = 0;
          },
          Phase.requested,
        )
    | hand_back ↦
        if not (is_human k.phase)
          || (not (same_controller k.controller_id (some c.controller_id))
              || not (later k.deadline now))
        then err conflict
        else ok (k, Phase.handback)
  ]

  -- The desk after a command with a new key.
  unfoldable pub enacted : (owner : ℕ) → (key : Text) → Command → Desk → Control × Phase → Desk
  unfolding transition
  enacted owner key c d (next, phase) =
      record (transition phase (record d { control = some next })) {
        commands =
            d.commands ++ (record { owner = owner; key = key; request_hash = ps.digest c } ∷ []);
      }

  abbrev pub outdated : Command → AttemptRow → Control → Bool
  outdated c a k =
      not (k.version == c.expected_version) || not (k.lease_generation == a.lease_generation)

  unfoldable pub ordered :
      (now owner : ℕ) → (key : Text) → Command → AttemptRow → Desk → Result TakeoverError Desk
  unfolding opened applied enacted is_active
  ordered now owner key c a d = do
    throw_if (not (is_active now a)) conflict
    throw_if (outdated c a (opened a d.control)) conflict
    next ← applied now c (opened a d.control)
    ok (enacted owner key c d next)

  unfoldable pub command :
      (now owner : ℕ) → (key : Text) → Command → Desk → Result TakeoverError (Status × Desk)
  unfolding attempt_of ordered status_in_transaction
  command now owner key c d = do
    a ← attempt_of owner d
    elim (find? (is_key owner key) d.commands) [
      | some s ↦ do
        throw_if (not (s.request_hash == ps.digest c)) conflict
        status_in_transaction now owner (some c.controller_id) d
      | none ↦ do
        moved ← ordered now owner key c a d
        status_in_transaction now owner (some c.controller_id) moved
    ]
