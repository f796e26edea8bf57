-- ===== src/Takeover/Histories.antt =====
-- src/server/workflows/takeover.ts: what holds after every history of an attempt.
use hack_the_north.Common.{
  ℕ, ◌+◌, ◌≤◌, ◌≡◌, refl, Bool, true, not, Option, none, some, List, [], ◌∷◌, Result, ok, err,
  >>=-eq-ok, throw_if-eq-ok, All, arith, inl, inr, Option-cases,
}
use hack_the_north.Takeover.{AttemptRow, Desk, Control, TakeoverError, is_agent}
use hack_the_north.Takeover.Commands.{Status, Parameters, status_in_transaction, command}
use hack_the_north.Takeover.Worker.{
  Reading, inspect, read, quiesce, acknowledge, resume, finish, assert_dispatch,
}
use hack_the_north.Takeover.Keeping.{horizon, Logged, Kept}
use hack_the_north.Takeover.Operations.{
  Seen, inspect-Seen, read-Kept, quiesce-Kept, acknowledge-Kept, resume-Kept, finish-Kept,
}
use hack_the_north.Takeover.Service.{Granted, status-Granted, command-Granted}
use hack_the_north.Takeover.History.{
  Event, elsewhere, look, order, look_from_worker, begin_quiet, give_over, take_back, end_execution,
  World, answered, worked, fresh, step, run,
}

abbrev pub Over : ℕ → ℕ → Type 0
Over bound g = g ≤ bound

-- Every grant that was handed out is over by the horizon, and the intervals are as the control says.
unfoldable pub Guarded : (now : ℕ) → World → Type 0
Guarded now w =
    All (Over (horizon now w.desk.control)) w.grants × Logged w.desk.control w.desk.intervals

All-Over : (a b : ℕ) (gs : List ℕ) → a ≤ b → All (Over a) gs → All (Over b) gs
All-Over a b [] le h = tt
All-Over a b (g ∷ gs) le (here, h) = (omega arith, All-Over a b gs le h)

horizon-later : (now later : ℕ) (o : Option Control) → horizon now o ≤ horizon (now + later) o
unfolding horizon
horizon-later now later none = omega arith
horizon-later now later (some c) = ground arith

worked-Guarded :
    (now : ℕ) (w : World) (r : Result TakeoverError Desk)
    → ((e : Desk) → r ≡ ok e → Kept now w.desk e)
    → Guarded now w
    → Guarded now (worked w r)
unfolding worked Guarded Kept
worked-Guarded now w (err e) keeps h = h
worked-Guarded now w (ok d) keeps (over, logged) =
    let (later, log) : Kept now w.desk d = keeps d refl in
    (All-Over (horizon now w.desk.control) (horizon now d.control) w.grants later over, log logged)

answered-Guarded :
    (now : ℕ) (w : World) (r : Result TakeoverError (Status × Desk))
    → ((out : Status × Desk) → r ≡ ok out → Granted now w.desk out)
    → Guarded now w
    → Guarded now (answered w r)
unfolding answered Guarded Kept Granted
answered-Guarded now w (err e) grants h = h
answered-Guarded now w (ok (s, d)) grants (over, logged) =
    let ((later, log), inside) : Granted now w.desk (s, d) = grants (s, d) refl in
    let still : All (Over (horizon now d.control)) w.grants =
      All-Over (horizon now w.desk.control) (horizon now d.control) w.grants later over in
    (
      elim (Option-cases s.valid_until) [
        | inl ungranted ↦ rw ungranted still
        | inr (g, e) ↦ rw e (inside g e, still)
      ],
      log logged,
    )

agent-horizon :
    (now : ℕ) (r : Reading) (o : Option Control)
    → Seen r o
    → is_agent r.phase ≡ true
    → horizon now o ≡ now
unfolding Seen horizon
agent-horizon now r none seen e = refl
agent-horizon now r (some c) (phase, until) e = rw (rw phase at e) refl

dispatch-horizon :
    (now generation : ℕ) (lease : Bool) (d : Desk) {r : Reading}
    → (assert_dispatch now generation lease d).1 ≡ ok r
    → horizon now d.control ≤ now
unfolding assert_dispatch read
dispatch-horizon now generation lease d {r} h =
    let (s, sees, rest) = >>=-eq-ok (inspect now generation lease d) _ h in
    let (agent, done) = throw_if-eq-ok (not (is_agent s.phase)) TakeoverError.interrupted _ rest in
    let alone : is_agent s.phase ≡ true = ground arith in
    let same : horizon now d.control ≡ now =
      agent-horizon now s d.control (inspect-Seen now generation lease d sees) alone in
    omega arith

module _ (ps : Parameters) where
  step-Guarded : (now : ℕ) (e : Event) (w : World) → Guarded now w → Guarded now (step ps now e w)
  unfolding step Guarded Kept
  step-Guarded now (elsewhere a bs) w h = h
  step-Guarded now (look owner controller) w h =
      answered-Guarded now w (status_in_transaction ps now owner controller w.desk)
        (λ out e. status-Granted ps now owner controller w.desk e) h
  step-Guarded now (order owner key c) w h =
      answered-Guarded now w (command ps now owner key c w.desk)
        (λ out e. command-Granted ps now owner key c w.desk e) h
  step-Guarded now (look_from_worker g lease) w (over, logged) =
      let (later, log) : Kept now w.desk (read now g lease w.desk).0 =
        read-Kept now g lease w.desk in
      (
        All-Over (horizon now w.desk.control) (horizon now (read now g lease w.desk).0.control)
            w.grants later over,
        log logged,
      )
  step-Guarded now (begin_quiet g lease) w h =
      worked-Guarded now w (quiesce now g lease w.desk) (λ out e. quiesce-Kept now g lease w.desk e)
        h
  step-Guarded now (give_over g lease) w h =
      worked-Guarded now w (acknowledge now g lease w.desk)
        (λ out e. acknowledge-Kept now g lease w.desk e) h
  step-Guarded now (take_back g lease) w h =
      worked-Guarded now w (resume now g lease w.desk) (λ out e. resume-Kept now g lease w.desk e) h
  step-Guarded now (end_execution g lease) w h =
      worked-Guarded now w (finish now lease w.desk) (λ out e. finish-Kept now lease w.desk e) h

  later-Guarded : (now later : ℕ) (w : World) → Guarded now w → Guarded (now + later) w
  unfolding Guarded
  later-Guarded now later w (over, logged) = (
    All-Over (horizon now w.desk.control) (horizon (now + later) w.desk.control) w.grants
        (horizon-later now later w.desk.control) over,
    logged,
  )

  run-Guarded :
      (now : ℕ) (es : List (ℕ × Event)) (w : World)
      → Guarded now w
      → Guarded (run ps now es w).0 (run ps now es w).1
  unfolding run
  run-Guarded now [] w h = h
  run-Guarded now ((later, e) ∷ rest) w h =
      run-Guarded (now + later) rest (step ps (now + later) e w)
        (step-Guarded (now + later) e w (later-Guarded now later w h))

  fresh-Guarded : (now : ℕ) (a : AttemptRow) → Guarded now (fresh a)
  unfolding Guarded fresh Logged
  fresh-Guarded now a = (tt, refl)

  -- After any history of an attempt that nobody had taken over, with any changes of the rows that
  -- others write, when the worker may dispatch an action every grant of a viewer that was ever
  -- handed out has expired.
  pub dispatch_unviewed :
      (start : ℕ) (a : AttemptRow) (es : List (ℕ × Event)) (generation : ℕ) (lease : Bool)
      {r : Reading}
      → (assert_dispatch
          (run ps start es (fresh a)).0
          generation
          lease
          (run ps start es (fresh a)).1.desk).1
        ≡ ok r
      → All (Over (run ps start es (fresh a)).0) (run ps start es (fresh a)).1.grants
  unfolding Guarded
  dispatch_unviewed start a es generation lease {r} h =
      let (now, w) = run ps start es (fresh a) in
      let (over, logged) : Guarded now w = run-Guarded start es (fresh a) (fresh-Guarded start a) in
      All-Over (horizon now w.desk.control) now w.grants
        (dispatch-horizon now generation lease w.desk h) over

  -- After any history of an attempt that nobody had taken over, the intervals of human control are
  -- in the order of their versions, none of them above the control's, and one at most is open, which
  -- is so only while a human has the browser or hands it back.
  pub intervals-Logged :
      (start : ℕ) (a : AttemptRow) (es : List (ℕ × Event))
      → Logged
          (run ps start es (fresh a)).1.desk.control
          (run ps start es (fresh a)).1.desk.intervals
  unfolding Guarded
  intervals-Logged start a es =
      let (over, logged) : Guarded (run ps start es (fresh a)).0 (run ps start es (fresh a)).1 =
        run-Guarded start es (fresh a) (fresh-Guarded start a) in
      logged
