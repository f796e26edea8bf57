-- ===== src/Takeover/Worker.antt =====
-- src/server/workflows/takeover.ts: `executionControl`, what the worker of an attempt does with the
-- control. Whether the worker still holds its lease, which `assertLease` reads elsewhere, is an
-- argument. `this.transaction` opens a transaction of SQLite, which does not nest: a read inside of
-- one that finds the deadline elapsed fails where it opens another.
use hack_the_north.Common.{
  ℕ, Bool, true, false, not, ◌&&◌, Option, none, some, ◌∷◌, Result, ok, err, ◌>>=◌, ◌>>◌, throw_if,
  ◌==◌, leb, if◌then◌else◌,
}
use hack_the_north.Takeover.{
  Phase, Desk, Control, EndReason, TakeoverError, is_agent, is_closed, timed_out, transition,
  end_interval, close,
}

pub record Reading : Type 0 where
  pub phase : Phase
  pub version : ℕ
  pub viewer_until : ℕ

abbrev pub same_phase : Phase → Phase → Bool
same_phase Phase.requested Phase.requested = true
same_phase Phase.quiescing Phase.quiescing = true
same_phase Phase.handback Phase.handback = true
same_phase Phase.resuming Phase.resuming = true
same_phase _ _ = false

unfoldable pub reading : (now generation : ℕ) → Option Control → Result TakeoverError Reading
unfolding timed_out
reading now generation none = ok (record { phase = Phase.agent; version = 0; viewer_until = 0 })
reading now generation (some c) = do
  throw_if (not (c.lease_generation == generation)) TakeoverError.control_gone
  throw_if (timed_out now c) TakeoverError.control_timeout
  throw_if (is_closed c.phase) TakeoverError.control_gone
  ok (record { phase = c.phase; version = c.version; viewer_until = c.viewer_until })

-- What `read` finds, before it closes a control whose deadline has elapsed.
unfoldable pub inspect : (now generation : ℕ) → (lease : Bool) → Desk → Result TakeoverError Reading
unfolding reading
inspect now generation lease d =
    throw_if (not lease) TakeoverError.lease_lost >> reading now generation d.control

unfoldable pub closing : (now : ℕ) → Desk → Result TakeoverError Reading → Desk
unfolding close
closing now d (err TakeoverError.control_timeout) = close now EndReason.timeout d
closing now d _ = d

-- `read` outside of a transaction, whose closing of the control stays when it then throws.
unfoldable pub read :
    (now generation : ℕ) → (lease : Bool) → Desk → Desk × Result TakeoverError Reading
unfolding inspect closing
read now generation lease d =
    let found = inspect now generation lease d in (closing now d found, found)

unfoldable pub nested : Result TakeoverError Reading → Result TakeoverError Reading
nested (err TakeoverError.control_timeout) = err TakeoverError.nested_transaction
nested (err e) = err e
nested (ok r) = ok r

-- `read` inside of a transaction.
unfoldable pub read_inside :
    (now generation : ℕ) → (lease : Bool) → Desk → Result TakeoverError Reading
unfolding inspect nested
read_inside now generation lease d = nested (inspect now generation lease d)

unfoldable pub assert_dispatch :
    (now generation : ℕ) → (lease : Bool) → Desk → Desk × Result TakeoverError Reading
unfolding read
assert_dispatch now generation lease d =
    let seen = read now generation lease d in
    (seen.0, (do r ← seen.1; throw_if (not (is_agent r.phase)) TakeoverError.interrupted; ok r))

unfoldable pub quieted : Reading → Desk → Desk
unfolding transition
quieted r d = if same_phase r.phase Phase.requested then transition Phase.quiescing d else d

unfoldable pub quiesce : (now generation : ℕ) → (lease : Bool) → Desk → Result TakeoverError Desk
unfolding read_inside quieted
quiesce now generation lease d = do r ← read_inside now generation lease d; ok (quieted r d)

-- The interval that begins with the version of the control it is given.
unfoldable pub begin_interval : (now : ℕ) → Desk → Desk
begin_interval now d = elim d.control [
  | none ↦ d
  | some c ↦ record d {
    intervals =
        record { version = c.version; started_at = now; ended_at = none; end_reason = none }
        ∷ d.intervals;
  }
]

unfoldable pub acknowledge :
    (now generation : ℕ) → (lease : Bool) → Desk → Result TakeoverError Desk
unfolding read_inside transition begin_interval
acknowledge now generation lease d = do
  r ← read_inside now generation lease d
  throw_if (not (same_phase r.phase Phase.quiescing)) TakeoverError.interrupted
  ok (begin_interval now (transition Phase.human d))

unfoldable pub release : Desk → Desk
release d = elim d.control [
  | none ↦ d
  | some c ↦ record d { control = some (record c { controller_id = none; deadline = none }) }
]

unfoldable pub resumed : (now : ℕ) → Reading → Desk → Desk
unfolding transition end_interval release
resumed now r d =
    if same_phase r.phase Phase.handback
    then transition Phase.resuming d
    else if same_phase r.phase Phase.resuming && leb r.viewer_until now
    then release (transition Phase.agent (end_interval now EndReason.handed_back d))
    else d

unfoldable pub resume : (now generation : ℕ) → (lease : Bool) → Desk → Result TakeoverError Desk
unfolding read_inside resumed
resume now generation lease d = do r ← read_inside now generation lease d; ok (resumed now r d)

-- `finish`, where the lease is asserted with cancellation allowed.
unfoldable pub finish : (now : ℕ) → (lease : Bool) → Desk → Result TakeoverError Desk
unfolding close
finish now lease d = do
  throw_if (not lease) TakeoverError.lease_lost
  ok (close now EndReason.execution_ended d)
