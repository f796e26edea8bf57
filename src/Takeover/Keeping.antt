-- ===== src/Takeover/Keeping.antt =====
-- src/server/workflows/takeover.ts: what each operation keeps of the viewers and of the intervals.
use hack_the_north.Common.{
  ℕ, ◌+◌, ◌≤◌, ◌<◌, ◌≡◌, refl, max, Bool, true, false, not, Option, none, some, List, [], ◌∷◌,
  arith, if◌then◌else◌, count_of, is_some, inl, inr, Bool-cases, Option-cases,
}
use hack_the_north.Takeover.{
  Phase, AttemptRow, Desk, Control, Interval, EndReason, is_agent, transition, end_interval,
  end_intervals, close, already_closed, ended, expire, unavailable, expiry,
}
use hack_the_north.Takeover.Commands.{extended, extend_viewer}

-- When every viewer grant of a control has expired, at the latest: an agent has the browser to itself.
unfoldable pub horizon : (now : ℕ) → Option Control → ℕ
horizon now none = now
horizon now (some c) = if is_agent c.phase then now else max now c.viewer_until

abbrev pub is_held : Phase → Bool
is_held Phase.human = true
is_held Phase.handback = true
is_held Phase.resuming = true
is_held _ = false

abbrev pub is_open : Interval → Bool
is_open i = not (is_some i.ended_at)

unfoldable pub Below : ℕ → List Interval → Type 0
Below bound [] = Unit
Below bound (i ∷ rest) = (i.version < bound) × Below i.version rest

-- The intervals are in the order of their versions, and one is open only while the control is held.
unfoldable pub Logged : Option Control → List Interval → Type 0
unfolding Below
Logged none intervals = intervals ≡ []
Logged (some c) intervals =
    Below (c.version + 1) intervals
    × (count_of is_open intervals ≤ (if is_held c.phase then 1 else 0))

unfoldable pub Kept : (now : ℕ) → Desk → Desk → Type 0
unfolding horizon Logged
Kept now d e =
    (horizon now d.control ≤ horizon now e.control)
    × (Logged d.control d.intervals → Logged e.control e.intervals)

pub Kept-refl : (now : ℕ) (d : Desk) → Kept now d d
unfolding Kept
Kept-refl now d = (omega arith, λ h. h)

pub Kept-trans : (now : ℕ) (d e f : Desk) → Kept now d e → Kept now e f → Kept now d f
unfolding Kept
Kept-trans now d e f (g, h) (i, j) = (omega arith, λ k. j (h k))

pub Below-weaken : (a b : ℕ) (is : List Interval) → a ≤ b → Below a is → Below b is
unfolding Below
Below-weaken a b [] le h = tt
Below-weaken a b (i ∷ rest) le (lt, h) = (omega arith, h)

Below-end_intervals :
    (now : ℕ) (r : EndReason) (b : ℕ) (is : List Interval)
    → Below b is
    → Below b (end_intervals now r is)
unfolding Below end_intervals ended
Below-end_intervals now r b [] h = tt
Below-end_intervals now r b (i ∷ rest) (lt, h) = elim (Option-cases i.ended_at) [
  | inl unended ↦ rw unended (lt, Below-end_intervals now r i.version rest h)
  | inr (t, e) ↦ rw e (lt, Below-end_intervals now r i.version rest h)
]

ended_lem : (now : ℕ) (r : EndReason) (i : Interval) → is_open (ended now r i) ≡ false
unfolding ended
ended_lem now r i = elim (Option-cases i.ended_at) [
  | inl unended ↦ rw unended refl
  | inr (t, e) ↦ rw e refl
]

count_of-end_intervals :
    (now : ℕ) (r : EndReason) (is : List Interval) → count_of is_open (end_intervals now r is) ≡ 0
unfolding end_intervals
count_of-end_intervals now r [] = refl
count_of-end_intervals now r (i ∷ rest) =
    rw (ended_lem now r i, count_of-end_intervals now r rest) refl

-- A control that moves to another phase with its intervals as they are.
pub transition-Kept :
    (now : ℕ) (p : Phase) (d : Desk) (c : Control)
    → d.control ≡ some c
    → (is_agent p ≡ true → horizon now (some c) ≤ now)
    → (is_held c.phase ≡ true → is_held p ≡ true)
    → Kept now d (transition p d)
unfolding Kept transition horizon Logged
transition-Kept now p d c e here held = rw e (
  ground arith,
  λ (below, count). (
    Below-weaken (c.version + 1) (c.version + 1 + 1) d.intervals (omega arith) below,
    ground arith,
  ),
)

pub ended-Kept :
    (now : ℕ) (r : EndReason) (p : Phase) (d : Desk)
    → (is_agent p ≡ true → horizon now d.control ≤ now)
    → Kept now d (transition p (end_interval now r d))
unfolding Kept transition end_interval horizon Logged
ended-Kept now r p d here = elim (Option-cases d.control) [
  | inl gone ↦ rw gone (omega arith, λ none_logged. rw none_logged refl)
  | inr (c, e) ↦
      let before : is_agent p ≡ true → horizon now (some c) ≤ now = λ a. rw e at (here a) in
      rw e (
        ground arith,
        λ (below, count). (
          Below-weaken (c.version + 1) (c.version + 1 + 1) (end_intervals now r d.intervals)
              (omega arith) (Below-end_intervals now r (c.version + 1) d.intervals below),
          rw (count_of-end_intervals now r d.intervals) (omega arith),
        ),
      )
]

pub close-Kept : (now : ℕ) (r : EndReason) (d : Desk) → Kept now d (close now r d)
unfolding close
close-Kept now r d = elim (Bool-cases (already_closed d.control)) [
  | inl done ↦ rw done (Kept-refl now d)
  | inr going ↦ rw going (ended-Kept now r Phase.closed d (λ a. ground arith))
]

pub expire-Kept : (now : ℕ) (a : AttemptRow) (d : Desk) → Kept now d (expire now a d)
unfolding expire
expire-Kept now a d = elim (Bool-cases (unavailable now a d.control)) [
  | inl over ↦ rw over (close-Kept now (expiry now d.control) d)
  | inr going ↦ rw going (Kept-refl now d)
]

pub extend_viewer-Kept : (now until : ℕ) (d : Desk) → Kept now d (extend_viewer until d)
unfolding Kept extend_viewer extended horizon Logged
extend_viewer-Kept now until d = elim (Option-cases d.control) [
  | inl gone ↦ rw gone (omega arith, λ h. h)
  | inr (c, e) ↦ rw e (ground arith, λ h. h)
]
