-- ===== src/Takeover/Lateness.antt =====
-- src/server/workflows/takeover.ts: what a worker leaves that reads the control after its deadline.
use hack_the_north.Common.{
  ℕ, ◌≡◌, refl, Bool, true, false, some, none, Option, List, Result, ok, err, arith, count_of,
  Bool-cases, Result-cases, inl, inr,
}
use hack_the_north.Takeover.{
  AttemptRow, Desk, Control, Interval, EndReason, TakeoverError, timed_out, close, already_closed,
  transition, end_interval,
}
use hack_the_north.Takeover.Commands.{Parameters}
use hack_the_north.Takeover.Worker.{
  reading, inspect, read, read_inside, nested, closing, assert_dispatch, quiesce, acknowledge,
  resume,
}
use hack_the_north.Takeover.Keeping.{Logged, Kept, is_open}
use hack_the_north.Takeover.Operations.{read-Kept}
use hack_the_north.Takeover.History.{Event, fresh, run}
use hack_the_north.Takeover.Histories.{intervals-Logged}

abbrev pub fails : {A : Type 0} → Result TakeoverError A → Bool
fails (ok x) = false
fails (err e) = true

reading-late :
    (now generation : ℕ) (c : Control)
    → c.lease_generation ≡ generation
    → timed_out now c ≡ true
    → reading now generation (some c) ≡ err TakeoverError.control_timeout
unfolding reading
reading-late now generation c same late = ground arith

inspect-late :
    (now generation : ℕ) (d : Desk) (c : Control)
    → d.control ≡ some c
    → c.lease_generation ≡ generation
    → timed_out now c ≡ true
    → inspect now generation true d ≡ err TakeoverError.control_timeout
unfolding inspect
inspect-late now generation d c e same late = rw e (reading-late now generation c same late)

close-closed :
    (now : ℕ) (r : EndReason) (d : Desk) (c : Control)
    → d.control ≡ some c
    → already_closed (close now r d).control ≡ true
unfolding close transition end_interval
close-closed now r d c e = elim (Bool-cases (already_closed d.control)) [
  | inl done ↦ rw done done
  | inr going ↦ rw (going, e) refl
]

reading-closed :
    (now generation : ℕ) (o : Option Control)
    → already_closed o ≡ true
    → fails (reading now generation o) ≡ true
unfolding reading
reading-closed now generation none h = ground arith
reading-closed now generation (some c) h = ground arith

inspect-closed :
    (now generation : ℕ) (lease : Bool) (d : Desk)
    → already_closed d.control ≡ true
    → (x : TakeoverError) × (inspect now generation lease d ≡ err x)
unfolding inspect
inspect-closed now generation false d h = (TakeoverError.lease_lost, refl)
inspect-closed now generation true d h = elim (Result-cases (reading now generation d.control)) [
  | inl (r, e) ↦ let refused = rw e at (reading-closed now generation d.control h) in ground arith
  | inr (x, e) ↦ (x, e)
]

fails-nested : (x : TakeoverError) → (y : TakeoverError) × (nested (err x) ≡ err y)
unfolding nested
fails-nested TakeoverError.not_found = (TakeoverError.not_found, refl)
fails-nested TakeoverError.public_takeover_unsupported =
    (TakeoverError.public_takeover_unsupported, refl)
fails-nested TakeoverError.conflict = (TakeoverError.conflict, refl)
fails-nested TakeoverError.lease_lost = (TakeoverError.lease_lost, refl)
fails-nested TakeoverError.control_gone = (TakeoverError.control_gone, refl)
fails-nested TakeoverError.interrupted = (TakeoverError.interrupted, refl)
fails-nested TakeoverError.nested_transaction = (TakeoverError.nested_transaction, refl)
fails-nested TakeoverError.control_timeout = (TakeoverError.nested_transaction, refl)

-- A control that is closed refuses every call of a worker that dispatches or moves it on.
closed_calls :
    (now generation : ℕ) (lease : Bool) (d : Desk)
    → already_closed d.control ≡ true
    → (fails (assert_dispatch now generation lease d).1 ≡ true)
      × (fails (quiesce now generation lease d) ≡ true)
      × (fails (acknowledge now generation lease d) ≡ true)
      × (fails (resume now generation lease d) ≡ true)
unfolding assert_dispatch read quiesce acknowledge resume read_inside
closed_calls now generation lease d h =
    let (x, refused) = inspect-closed now generation lease d h in
    let (y, other) = fails-nested x in
    (rw refused refl, rw (refused, other) refl, rw (refused, other) refl, rw (refused, other) refl)

closed-intervals :
    (o : Option Control) (is : List Interval)
    → already_closed o ≡ true
    → Logged o is
    → count_of is_open is ≡ 0
unfolding Logged
closed-intervals none is h l = ground arith
closed-intervals (some c) is h (below, count) = ground arith

-- What a late read finds and leaves.
late_parts :
    (now generation : ℕ) (d : Desk) (c : Control)
    → d.control ≡ some c
    → c.lease_generation ≡ generation
    → timed_out now c ≡ true
    → ((read now generation true d).1 ≡ err TakeoverError.control_timeout)
      × (already_closed (read now generation true d).0.control ≡ true)
unfolding read closing
late_parts now generation d c e same late =
    let found : inspect now generation true d ≡ err TakeoverError.control_timeout =
      inspect-late now generation d c e same late in
    (found, rw found (close-closed now EndReason.timeout d c e))

read-Logged :
    (now generation : ℕ) (d : Desk)
    → Logged d.control d.intervals
    → Logged (read now generation true d).0.control (read now generation true d).0.intervals
unfolding Kept
read-Logged now generation d logged = (read-Kept now generation true d).1 logged

module _ (ps : Parameters) where
  -- After any history of an attempt that nobody had taken over, a worker that holds its lease and
  -- the generation of the control and reads it when its deadline has elapsed meets the timeout and
  -- leaves the control closed with no interval open; from then on every call to dispatch, to
  -- quiesce, to acknowledge or to resume fails on that desk, at any time, with any generation and
  -- lease.
  pub late_read :
      (start : ℕ) (a : AttemptRow) (es : List (ℕ × Event)) (c : Control) (later generation : ℕ)
      (lease : Bool)
      → (run ps start es (fresh a)).1.desk.control ≡ some c
      → timed_out (run ps start es (fresh a)).0 c ≡ true
      → let seen =
          read
            (run ps start es (fresh a)).0
            c.lease_generation
            true
            (run ps start es (fresh a)).1.desk in
        (seen.1 ≡ err TakeoverError.control_timeout)
        × (already_closed seen.0.control ≡ true)
        × (count_of is_open seen.0.intervals ≡ 0)
        × (fails (assert_dispatch later generation lease seen.0).1 ≡ true)
        × (fails (quiesce later generation lease seen.0) ≡ true)
        × (fails (acknowledge later generation lease seen.0) ≡ true)
        × (fails (resume later generation lease seen.0) ≡ true)
  late_read start a es c later generation lease e late =
      let (now, w) = run ps start es (fresh a) in
      let g : ℕ = c.lease_generation in
      let d : Desk = (read now g true w.desk).0 in
      let (found, closed) = late_parts now g w.desk c e refl late in
      let (dispatches, quiesces, acknowledges, resumes) =
        closed_calls later generation lease d closed in
      (
        found,
        closed,
        closed-intervals d.control d.intervals closed
            (read-Logged now g w.desk (intervals-Logged ps start a es)),
        dispatches,
        quiesces,
        acknowledges,
        resumes,
      )
