-- ===== src/Takeover/Operations.antt =====
-- src/server/workflows/takeover.ts: the operations of the service and of the worker keep what
-- Takeover/Keeping says.
use hack_the_north.Common.{
  ℕ, ◌≤◌, ◌≡◌, refl, subst, Bool, true, false, not, ◌&&◌, Option, none, some, Result, ok, err,
  ◌>>=◌, >>=-eq-ok, throw_if-eq-ok, arith, inl, inr, Bool-cases, Option-cases, leb,
}
use hack_the_north.Takeover.{
  Phase, Desk, Control, EndReason, TakeoverError, transition, end_interval, close,
}
use hack_the_north.Takeover.Worker.{
  Reading, inspect, reading, nested, closing, read, read_inside, same_phase, quieted, resumed,
  begin_interval, release, quiesce, acknowledge, resume, finish,
}
use hack_the_north.Takeover.Keeping.{
  horizon, is_held, Below, Logged, Kept, Kept-refl, Kept-trans, transition-Kept, ended-Kept,
  close-Kept,
}

-- What a reading says of the control it was made of.
unfoldable pub Seen : Reading → Option Control → Type 0
Seen r none = r.phase ≡ Phase.agent
Seen r (some c) = (r.phase ≡ c.phase) × (r.viewer_until ≡ c.viewer_until)

reading-Seen :
    (now generation : ℕ) (o : Option Control) {r : Reading}
    → reading now generation o ≡ ok r
    → Seen r o
unfolding reading Seen
reading-Seen now generation none {r} e = ground arith
reading-Seen now generation (some c) {r} e = ground arith

nested-eq-ok :
    (found : Result TakeoverError Reading) {r : Reading} → nested found ≡ ok r → found ≡ ok r
unfolding nested
nested-eq-ok (ok r) e = e
nested-eq-ok (err x) e = ground arith

pub inspect-Seen :
    (now generation : ℕ) (lease : Bool) (d : Desk) {r : Reading}
    → inspect now generation lease d ≡ ok r
    → Seen r d.control
unfolding inspect
inspect-Seen now generation lease d e =
    reading-Seen now generation d.control
      (throw_if-eq-ok (not lease) TakeoverError.lease_lost (reading now generation d.control) e).1

read_inside-Seen :
    (now generation : ℕ) (lease : Bool) (d : Desk) {r : Reading}
    → read_inside now generation lease d ≡ ok r
    → Seen r d.control
unfolding read_inside
read_inside-Seen now generation lease d e =
    inspect-Seen now generation lease d (nested-eq-ok (inspect now generation lease d) e)

closing-Kept :
    (now : ℕ) (d : Desk) (found : Result TakeoverError Reading) → Kept now d (closing now d found)
unfolding closing
closing-Kept now d (err TakeoverError.control_timeout) = close-Kept now EndReason.timeout d
closing-Kept now d (err TakeoverError.not_found) = Kept-refl now d
closing-Kept now d (err TakeoverError.public_takeover_unsupported) = Kept-refl now d
closing-Kept now d (err TakeoverError.conflict) = Kept-refl now d
closing-Kept now d (err TakeoverError.lease_lost) = Kept-refl now d
closing-Kept now d (err TakeoverError.control_gone) = Kept-refl now d
closing-Kept now d (err TakeoverError.interrupted) = Kept-refl now d
closing-Kept now d (err TakeoverError.nested_transaction) = Kept-refl now d
closing-Kept now d (ok r) = Kept-refl now d

pub read-Kept :
    (now generation : ℕ) (lease : Bool) (d : Desk) → Kept now d (read now generation lease d).0
unfolding read
read-Kept now generation lease d = closing-Kept now d (inspect now generation lease d)

pub finish-Kept :
    (now : ℕ) (lease : Bool) (d : Desk) {e : Desk} → finish now lease d ≡ ok e → Kept now d e
unfolding finish
finish-Kept now lease d {e} h =
    let done : close now EndReason.execution_ended d ≡ e = ground (
      arith,
      (throw_if-eq-ok (not lease) TakeoverError.lease_lost
          (ok (close now EndReason.execution_ended d)) h).1,
    ) in
    subst (Kept now d) done (close-Kept now EndReason.execution_ended d)

-- A control that a reading found in a phase is there, in that phase.
Seen-phase :
    (p : Phase) (r : Reading) (o : Option Control)
    → Seen r o
    → same_phase r.phase p ≡ true
    → (c : Control) × (o ≡ some c)
      × (same_phase c.phase p ≡ true)
      × (r.viewer_until ≡ c.viewer_until)
unfolding Seen
Seen-phase p r none seen here =
    let no : same_phase Phase.agent p ≡ true = rw seen at here in ground arith
Seen-phase p r (some c) (phase, until) here = (c, refl, rw phase at here, until)

quieted-Kept : (now : ℕ) (r : Reading) (d : Desk) → Seen r d.control → Kept now d (quieted r d)
unfolding quieted
quieted-Kept now r d seen = elim (Bool-cases (same_phase r.phase Phase.requested)) [
  | inl here ↦
      let (c, is, phase, until) = Seen-phase Phase.requested r d.control seen here in
      rw here
        (transition-Kept now Phase.quiescing d c is (λ a. ground arith) (λ held. ground arith))
  | inr other ↦ rw other (Kept-refl now d)
]

begin_interval-Kept :
    (now : ℕ) (d : Desk) (c : Control)
    → d.control ≡ some c
    → same_phase c.phase Phase.quiescing ≡ true
    → Kept now d (begin_interval now (transition Phase.human d))
unfolding Kept transition begin_interval horizon Logged Below
begin_interval-Kept now d c e here =
    let unheld : is_held c.phase ≡ false = ground arith in
    rw e (ground arith, λ (below, count). ((omega arith, below), ground arith))

release-Kept : (now : ℕ) (d : Desk) → Kept now d (release d)
unfolding Kept release horizon Logged
release-Kept now d = elim (Option-cases d.control) [
  | inl gone ↦ rw gone (omega arith, λ h. h)
  | inr (c, e) ↦ rw e (omega arith, λ h. h)
]

resumed-Kept : (now : ℕ) (r : Reading) (d : Desk) → Seen r d.control → Kept now d (resumed now r d)
unfolding resumed horizon
resumed-Kept now r d seen = elim (Bool-cases (same_phase r.phase Phase.handback)) [
  | inl here ↦
      let (c, is, phase, until) = Seen-phase Phase.handback r d.control seen here in
      rw here (transition-Kept now Phase.resuming d c is (λ a. ground arith) (λ held. refl))
  | inr other ↦ elim (Bool-cases (same_phase r.phase Phase.resuming && leb r.viewer_until now)) [
    | inl expired ↦
        let here : same_phase r.phase Phase.resuming ≡ true = ground arith in
        let (c, is, phase, until) = Seen-phase Phase.resuming r d.control seen here in
        let past : c.viewer_until ≤ now = ground arith in
        rw (other, expired)
          (Kept-trans now d (transition Phase.agent (end_interval now EndReason.handed_back d))
            (release (transition Phase.agent (end_interval now EndReason.handed_back d)))
            (ended-Kept now EndReason.handed_back Phase.agent d (λ a. rw is (ground arith)))
            (release-Kept now (transition Phase.agent (end_interval now EndReason.handed_back d))))
    | inr not_yet ↦ rw (other, not_yet) (Kept-refl now d)
  ]
]

-- An operation that a reading in a transaction precedes.
after-Kept :
    (now generation : ℕ) (lease : Bool) (d : Desk) (f : Reading → Desk)
    → ((r : Reading) → Seen r d.control → Kept now d (f r))
    → {e : Desk} → (read_inside now generation lease d >>= λ r. ok (f r)) ≡ ok e
    → Kept now d e
after-Kept now generation lease d f keeps {e} h =
    let (r, reads, rest) = >>=-eq-ok (read_inside now generation lease d) (λ r. ok (f r)) h in
    let same : f r ≡ e = ground arith in
    subst (Kept now d) same (keeps r (read_inside-Seen now generation lease d reads))

pub quiesce-Kept :
    (now generation : ℕ) (lease : Bool) (d : Desk) {e : Desk}
    → quiesce now generation lease d ≡ ok e
    → Kept now d e
unfolding quiesce
quiesce-Kept now generation lease d h =
    after-Kept now generation lease d (λ r. quieted r d) (λ r seen. quieted-Kept now r d seen) h

pub resume-Kept :
    (now generation : ℕ) (lease : Bool) (d : Desk) {e : Desk}
    → resume now generation lease d ≡ ok e
    → Kept now d e
unfolding resume
resume-Kept now generation lease d h =
    after-Kept now generation lease d (λ r. resumed now r d) (λ r seen. resumed-Kept now r d seen) h

pub acknowledge-Kept :
    (now generation : ℕ) (lease : Bool) (d : Desk) {e : Desk}
    → acknowledge now generation lease d ≡ ok e
    → Kept now d e
unfolding acknowledge
acknowledge-Kept now generation lease d {e} h =
    let (r, reads, rest) = >>=-eq-ok (read_inside now generation lease d) _ h in
    let (asked, done) =
      throw_if-eq-ok (not (same_phase r.phase Phase.quiescing)) TakeoverError.interrupted
        (ok (begin_interval now (transition Phase.human d))) rest in
    let here : same_phase r.phase Phase.quiescing ≡ true = ground arith in
    let (c, is, phase, until) =
      Seen-phase Phase.quiescing r d.control (read_inside-Seen now generation lease d reads) here in
    let same : begin_interval now (transition Phase.human d) ≡ e = ground arith in
    subst (Kept now d) same (begin_interval-Kept now d c is phase)
