-- ===== src/Takeover/Witnesses.antt =====
-- Runs of the takeover of one attempt.
use hack_the_north.Common.{count_of, ℕ, ◌≡◌, refl, true, false, some, List, [], ◌∷◌, ok, err, All}
use hack_the_north.Contracts.{RunStatus}
use hack_the_north.Takeover.{
  Phase, Action, Command, AttemptRow, Control, TakeoverError, timed_out, already_closed,
}
use hack_the_north.Takeover.Commands.{Parameters}
use hack_the_north.Takeover.Worker.{read, quiesce, acknowledge, resume, assert_dispatch}
use hack_the_north.Takeover.Keeping.{Logged, is_open}
use hack_the_north.Takeover.History.{
  Event, elsewhere, look, order, begin_quiet, give_over, take_back, fresh, run,
}
use hack_the_north.Takeover.Histories.{Over, dispatch_unviewed, intervals-Logged}
use hack_the_north.Takeover.Lateness.{fails, late_read}

abbrev parameters : Parameters
parameters = record { viewer_url = λ url. url; digest = λ c. c.expected_version }

abbrev an_attempt : AttemptRow
an_attempt = record {
  owner = 1;
  status = RunStatus.running;
  is_public = false;
  run_cancelled = false;
  job_id = 7;
  job_cancelled = false;
  job_leased = true;
  lease_expires_at = some 500000;
  lease_generation = 3;
  launch_active = true;
  session = some (record { session_id = 9; live_view_url = 104 ∷ [] });
}

abbrev asking : Action → ℕ → Command
asking a version = record { action = a; expected_version = version; controller_id = 5 }

-- A takeover that is asked for, granted, looked at, handed back and ended by the worker.
abbrev whole : List (ℕ × Event)
whole =
    (10, elsewhere an_attempt ((9, 7) ∷ []))
    ∷ (10, order 1 (1 ∷ []) (asking Action.request 0))
    ∷ (10, begin_quiet 3 true)
    ∷ (10, give_over 3 true)
    ∷ (10, look 1 (some 5))
    ∷ (500, order 1 (2 ∷ []) (asking Action.hand_back 3))
    ∷ (10, take_back 3 true)
    ∷ (10, take_back 3 true)
    ∷ (1000, take_back 3 true)
    ∷ []

whole_grants : (run parameters 0 whole (fresh an_attempt)).1.grants ≡ 1550 ∷ []
unfolding run fresh
whole_grants = refl

whole_dispatch :
    (assert_dispatch
      (run parameters 0 whole (fresh an_attempt)).0
      3
      true
      (run parameters 0 whole (fresh an_attempt)).1.desk).1
    ≡ ok (record { phase = Phase.agent; version = 6; viewer_until = 1550 })
unfolding run fresh assert_dispatch
whole_dispatch = refl

dispatch_unviewed_example :
    All
      (Over (run parameters 0 whole (fresh an_attempt)).0)
      (run parameters 0 whole (fresh an_attempt)).1.grants
dispatch_unviewed_example = dispatch_unviewed parameters 0 an_attempt whole 3 true whole_dispatch

intervals-Logged_example :
    Logged
      (run parameters 0 whole (fresh an_attempt)).1.desk.control
      (run parameters 0 whole (fresh an_attempt)).1.desk.intervals
intervals-Logged_example = intervals-Logged parameters 0 an_attempt whole

-- A takeover that is asked for and then forgotten for longer than a minute.
abbrev forgotten : List (ℕ × Event)
forgotten =
    (10, elsewhere an_attempt ((9, 7) ∷ []))
    ∷ (10, order 1 (1 ∷ []) (asking Action.request 0))
    ∷ (10, begin_quiet 3 true)
    ∷ (10, give_over 3 true)
    ∷ (70000, elsewhere an_attempt ((9, 7) ∷ []))
    ∷ []

abbrev held : Control
held = record {
  phase = Phase.human;
  version = 3;
  controller_id = some 5;
  lease_generation = 3;
  deadline = some 60020;
  viewer_until = 0;
}

forgotten_control : (run parameters 0 forgotten (fresh an_attempt)).1.desk.control ≡ some held
unfolding run fresh
forgotten_control = refl

forgotten_late : timed_out (run parameters 0 forgotten (fresh an_attempt)).0 held ≡ true
unfolding run fresh timed_out
forgotten_late = refl

late_read_example :
    let seen =
      read
        (run parameters 0 forgotten (fresh an_attempt)).0
        3
        true
        (run parameters 0 forgotten (fresh an_attempt)).1.desk in
    (seen.1 ≡ err TakeoverError.control_timeout)
    × (already_closed seen.0.control ≡ true)
    × (count_of is_open seen.0.intervals ≡ 0)
    × (fails (assert_dispatch 80000 4 true seen.0).1 ≡ true)
    × (fails (quiesce 80000 4 true seen.0) ≡ true)
    × (fails (acknowledge 80000 4 true seen.0) ≡ true)
    × (fails (resume 80000 4 true seen.0) ≡ true)
late_read_example =
    late_read parameters 0 an_attempt forgotten held 80000 4 true forgotten_control forgotten_late
