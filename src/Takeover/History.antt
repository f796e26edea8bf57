-- ===== src/Takeover/History.antt =====
-- src/server/workflows/takeover.ts: what a history of the service and the worker does to one attempt.
use hack_the_north.Common.{ℕ, ◌+◌, Bool, Option, none, some, List, [], ◌∷◌, Text, Result, ok, err}
use hack_the_north.Takeover.{Command, AttemptRow, Desk, TakeoverError}
use hack_the_north.Takeover.Commands.{Status, Parameters, status_in_transaction, command}
use hack_the_north.Takeover.Worker.{read, quiesce, acknowledge, resume, finish}

-- What can happen to an attempt: a call of the service or of the worker, or a change of the rows
-- that others write.
pub data Event : Type 0 where
  elsewhere : AttemptRow → List (ℕ × ℕ) → Event
  look : (owner : ℕ) → Option ℕ → Event
  order : (owner : ℕ) → (key : Text) → Command → Event
  look_from_worker begin_quiet give_over take_back end_execution :
      (generation : ℕ) → (lease : Bool) → Event

-- The desk with the viewer grants that were ever handed out.
pub record World : Type 0 where
  pub desk : Desk
  pub grants : List ℕ

abbrev pub grant_list : Option ℕ → List ℕ → List ℕ
grant_list none gs = gs
grant_list (some g) gs = g ∷ gs

unfoldable pub answered : World → Result TakeoverError (Status × Desk) → World
answered w (ok (s, d)) = record { desk = d; grants = grant_list s.valid_until w.grants }
answered w (err e) = w

unfoldable pub worked : World → Result TakeoverError Desk → World
worked w (ok d) = record w { desk = d }
worked w (err e) = w

-- An attempt that nobody has taken over yet.
unfoldable pub fresh : AttemptRow → World
fresh a = record {
  desk = record { attempt = a; control = none; intervals = []; commands = []; bindings = [] };
  grants = [];
}

module _ (ps : Parameters) where
  unfoldable pub step : (now : ℕ) → Event → World → World
  unfolding answered worked status_in_transaction command read quiesce acknowledge resume finish
  step now (elsewhere a bindings) w = record w {
    desk = record w.desk { attempt = a; bindings = bindings };
  }
  step now (look owner controller) w =
      answered w (status_in_transaction ps now owner controller w.desk)
  step now (order owner key c) w = answered w (command ps now owner key c w.desk)
  step now (look_from_worker g lease) w = record w { desk = (read now g lease w.desk).0 }
  step now (begin_quiet g lease) w = worked w (quiesce now g lease w.desk)
  step now (give_over g lease) w = worked w (acknowledge now g lease w.desk)
  step now (take_back g lease) w = worked w (resume now g lease w.desk)
  step now (end_execution g lease) w = worked w (finish now lease w.desk)

  -- The events of a history, each after its time has passed.
  unfoldable pub run : (now : ℕ) → List (ℕ × Event) → World → ℕ × World
  unfolding step
  run now [] w = (now, w)
  run now ((later, e) ∷ rest) w = run (now + later) rest (step (now + later) e w)
