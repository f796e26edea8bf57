-- ===== src/LiveWall.antt =====
-- src/lib/live-wall.ts: what the live wall of a run knows from its events, and what it shows.
pub mod Merging
pub mod Keeping
pub mod Viewers
mod Witnesses
use hack_the_north.Common.{
  ℕ, ◌+◌, Bool, true, false, not, ◌&&◌, ◌||◌, Option, none, some, List, [], ◌∷◌, ◌++◌, map, Text,
  ◌==◌, leb, ltb, if◌then◌else◌, length, any, keep, find?, is_some, coalesce, take,
}
use hack_the_north.Contracts.{RunStatus, EventKind, RunEvent, is_terminal}

abbrev pub max_viewers : ℕ
max_viewers = 3

abbrev pub has : ℕ → List RunEvent → Bool
has n events = any (λ e. e.sequence == n) events

-- `Map.set` on the map by sequence number: an entry keeps its place.
unfoldable pub set_event : RunEvent → List RunEvent → List RunEvent
set_event e [] = e ∷ []
set_event e (x ∷ rest) = if x.sequence == e.sequence then e ∷ rest else x ∷ set_event e rest

unfoldable pub by_sequence : List RunEvent → List RunEvent → List RunEvent
unfolding set_event
by_sequence known [] = known
by_sequence known (e ∷ rest) = by_sequence (set_event e known) rest

unfoldable pub add_incoming : ℕ → List RunEvent → List RunEvent → List RunEvent
unfolding set_event
add_incoming run_id known [] = known
add_incoming run_id known (e ∷ rest) =
    add_incoming run_id
      (if e.run_id == run_id && not (has e.sequence known) then set_event e known else known) rest

-- `sort((a, b) => a.sequence - b.sequence)`, which is stable.
unfoldable pub insert_sorted : RunEvent → List RunEvent → List RunEvent
insert_sorted e [] = e ∷ []
insert_sorted e (x ∷ rest) =
    if leb e.sequence x.sequence then e ∷ x ∷ rest else x ∷ insert_sorted e rest

unfoldable pub sort_events : List RunEvent → List RunEvent
unfolding insert_sorted
sort_events [] = []
sort_events (e ∷ rest) = insert_sorted e (sort_events rest)

unfoldable pub prefix_cursor : ℕ → List RunEvent → ℕ
prefix_cursor cursor [] = cursor
prefix_cursor cursor (e ∷ rest) =
    if e.sequence == cursor + 1 then prefix_cursor e.sequence rest else cursor

pub record Merged : Type 0 where
  pub events : List RunEvent
  pub cursor : ℕ
  pub gap : Bool

unfoldable pub merge_events : List RunEvent → List RunEvent → (run_id : ℕ) → Merged
unfolding by_sequence add_incoming sort_events prefix_cursor
merge_events current incoming run_id =
    let events = sort_events (add_incoming run_id (by_sequence [] current) incoming) in
    let cursor = prefix_cursor 0 events in
    record { events = events; cursor = cursor; gap = any (λ e. ltb cursor e.sequence) events }

pub record WallRun : Type 0 where
  pub id : ℕ
  pub status : RunStatus
  pub cancel_requested_at : Option ℕ

pub record WallAttempt : Type 0 where
  pub id : ℕ
  pub status : RunStatus

pub data LaunchState : Type 0 where
  not_launched intent active recovering quarantined settled : LaunchState

pub record AttemptSummary : Type 0 where
  pub attempt_id : ℕ
  pub launch_state : LaunchState

pub record SessionView : Type 0 where
  pub attempt_id : ℕ
  pub available : Bool
  pub live_view_url : Option Text

pub record WallSnapshot : Type 0 where
  pub run : Option WallRun
  pub attempts : List WallAttempt
  pub summaries : List AttemptSummary
  pub sessions : List SessionView
  pub events : List RunEvent
  pub cursor : ℕ

abbrev hides : LaunchState → Bool
hides recovering = true
hides quarantined = true
hides settled = true
hides _ = false

abbrev pub member : ℕ → List ℕ → Bool
member n ns = any (λ m. m == n) ns

unfoldable pub hidden_by_summary : List AttemptSummary → List ℕ
hidden_by_summary ss = map (λ s. s.attempt_id) (keep (λ s. hides s.launch_state) ss)

abbrev pub is_finished : EventKind → Bool
is_finished EventKind.attempt_finished = true
is_finished _ = false

abbrev pub is_recovering : EventKind → Bool
is_recovering EventKind.attempt_recovering = true
is_recovering _ = false

abbrev is_started : EventKind → Bool
is_started EventKind.attempt_started = true
is_started _ = false

abbrev pub is_run_finished : EventKind → Bool
is_run_finished EventKind.run_finished = true
is_run_finished _ = false

abbrev pub is_cancel_requested : EventKind → Bool
is_cancel_requested EventKind.run_cancel_requested = true
is_cancel_requested _ = false

abbrev terminal_status : Option RunStatus → Option RunStatus
terminal_status none = none
terminal_status (some s) = if is_terminal s then some s else none

abbrev is_queued : RunStatus → Bool
is_queued RunStatus.queued = true
is_queued _ = false

abbrev pub is_running : RunStatus → Bool
is_running RunStatus.running = true
is_running _ = false

pub record Projection : Type 0 where
  pub run : Option WallRun
  pub attempts : List WallAttempt
  pub hidden : List ℕ

unfoldable pub hide : RunEvent → List ℕ → List ℕ
hide e hidden = elim e.attempt_id [
  | none ↦ hidden
  | some id ↦ if is_recovering e.kind || is_finished e.kind then id ∷ hidden else hidden
]

unfoldable pub cancel_overlay : RunEvent → Option WallRun → Option WallRun
cancel_overlay e none = none
cancel_overlay e (some r) =
    if is_cancel_requested e.kind
    then some (record r { cancel_requested_at = coalesce r.cancel_requested_at (some e.timestamp) })
    else some r

finished_run : RunEvent → WallRun → WallRun
finished_run e r = elim (terminal_status e.status) [
  | none ↦ r
  | some s ↦ if is_run_finished e.kind then record r { status = s } else r
]

started_run : RunEvent → WallRun → WallRun
started_run e r =
    if is_queued r.status && is_started e.kind then record r { status = RunStatus.running } else r

unfoldable pub run_overlay : RunEvent → Option WallRun → Option WallRun
unfolding finished_run started_run
run_overlay e none = none
run_overlay e (some r) = some (started_run e (finished_run e r))

-- The last test reads the attempt as it was before the event.
unfoldable pub attempt_overlay : RunEvent → WallAttempt → WallAttempt
attempt_overlay e a =
    let b : WallAttempt = elim (terminal_status e.status) [
      | none ↦ a
      | some s ↦ if is_finished e.kind then record a { status = s } else a
    ] in
    if is_started e.kind && not (is_terminal a.status)
    then record a { status = RunStatus.running }
    else b

-- `attempts` is a map by id.
unfoldable pub overlay_attempts : RunEvent → List WallAttempt → List WallAttempt
unfolding attempt_overlay
overlay_attempts e attempts = elim e.attempt_id [
  | none ↦ attempts
  | some id ↦ map (λ a. if a.id == id then attempt_overlay e a else a) attempts
]

unfoldable pub project_event : ℕ → Projection → RunEvent → Projection
unfolding hide cancel_overlay run_overlay overlay_attempts
project_event cursor p e =
    let hidden = hide e p.hidden in
    let run = cancel_overlay e p.run in
    if ltb cursor e.sequence
    then record { run = run; attempts = p.attempts; hidden = hidden }
    else record {
      run = run_overlay e run;
      attempts = overlay_attempts e p.attempts;
      hidden = hidden;
    }

unfoldable pub project_events : ℕ → Projection → List RunEvent → Projection
unfolding project_event
project_events cursor p [] = p
project_events cursor p (e ∷ rest) = project_events cursor (project_event cursor p e) rest

unfoldable pub run_watchable : Option WallRun → Bool
run_watchable none = false
run_watchable (some r) = not (is_terminal r.status) && not (is_some r.cancel_requested_at)

unfoldable pub attempt_running : ℕ → List WallAttempt → Bool
attempt_running id [] = false
attempt_running id (a ∷ rest) = if a.id == id then is_running a.status else attempt_running id rest

unfoldable pub project_session : Projection → Bool → SessionView → SessionView
unfolding run_watchable attempt_running
project_session p ended s =
    let available =
      s.available
      && (run_watchable p.run
          && (not ended
              && (not (member s.attempt_id p.hidden)
                  && attempt_running s.attempt_id p.attempts))) in
    record {
      attempt_id = s.attempt_id;
      available = available;
      live_view_url = if available then s.live_view_url else none;
    }

unfoldable pub projection : WallSnapshot → Projection
unfolding hidden_by_summary project_events
projection w =
    project_events w.cursor
      (record { run = w.run; attempts = w.attempts; hidden = hidden_by_summary w.summaries })
      w.events

unfoldable pub project_wall : WallSnapshot → WallSnapshot
unfolding projection project_session
project_wall w =
    let p = projection w in
    let ended = any (λ e. is_run_finished e.kind) w.events in
    record w {
      run = p.run;
      attempts = p.attempts;
      sessions = map (project_session p ended) w.sessions;
    }

abbrev settles : LaunchState → Bool
settles not_launched = true
settles settled = true
settles _ = false

unfoldable pub needs_cleanup : List AttemptSummary → Bool
needs_cleanup ss = any (λ s. not (settles s.launch_state)) ss

unfoldable pub select_viewers : (selected eligible : List ℕ) → (requested : Option ℕ) → List ℕ
select_viewers selected eligible none = take max_viewers (keep (λ id. member id eligible) selected)
select_viewers selected eligible (some r) =
    let next = take max_viewers (keep (λ id. member id eligible) selected) in
    if member r next
    then keep (λ id. not (id == r)) next
    else if member r eligible && ltb (length next) max_viewers
    then next ++ (r ∷ [])
    else next
