-- ===== src/LiveWall/Witnesses.antt =====
-- The live wall at concrete events.
use hack_the_north.Common.{ℕ, ◌≡◌, ◌+◌, refl, true, false, none, some, [], ◌∷◌, All, codes}
use hack_the_north.Contracts.{RunStatus, EventKind, RunEvent}
use hack_the_north.LiveWall.{has, merge_events, LaunchState, WallSnapshot, project_wall}
use hack_the_north.LiveWall.Keeping.{event_at, merge_events-event_at}
use hack_the_north.LiveWall.Merging.{KnownTo, merge_events-cursor}
use hack_the_north.LiveWall.Viewers.{Guarded, project_wall-Guarded}

abbrev seen : ℕ → EventKind → RunEvent
seen n k = record {
  run_id = 1;
  sequence = n;
  attempt_id = some 4;
  timestamp = 0;
  kind = k;
  status = none;
}

-- A second event 1 does not replace the known one.
merge_events-event_at_example :
    event_at 1
      (merge_events
        (seen 1 EventKind.attempt_started ∷ [])
        (seen 1 EventKind.attempt_action ∷ [])
        1).events
    ≡ some (seen 1 EventKind.attempt_started)
merge_events-event_at_example =
    merge_events-event_at (seen 1 EventKind.attempt_started ∷ [])
      (seen 1 EventKind.attempt_action ∷ []) 1 1

-- Event 2 is missing: the cursor stays at 1.
merge_events-cursor_example :
    let m =
      merge_events
        (seen 1 EventKind.attempt_started ∷ [])
        (seen 3 EventKind.attempt_action ∷ [])
        1 in
    (has (m.cursor + 1) m.events ≡ false) × KnownTo m.cursor m.events
merge_events-cursor_example =
    merge_events-cursor (seen 1 EventKind.attempt_started ∷ [])
      (seen 3 EventKind.attempt_action ∷ []) 1 refl refl

abbrev wall : WallSnapshot
wall = record {
  run = some (record { id = 1; status = RunStatus.running; cancel_requested_at = none });
  attempts = record { id = 4; status = RunStatus.running } ∷ [];
  summaries = record { attempt_id = 4; launch_state = LaunchState.active } ∷ [];
  sessions =
      record { attempt_id = 4; available = true; live_view_url = some (codes "https://v.example") }
      ∷ [];
  events = seen 1 EventKind.attempt_started ∷ seen 3 EventKind.attempt_recovering ∷ [];
  cursor = 1;
}

project_wall-Guarded_example : All (Guarded wall.events) (project_wall wall).sessions
project_wall-Guarded_example = project_wall-Guarded wall
