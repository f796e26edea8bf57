-- ===== src/Takeover/Service.antt =====
-- src/server/workflows/takeover.ts: the operations of the service keep what Takeover/Keeping says,
-- and a grant that they hand out ends by the time the control remembers.
use hack_the_north.Common.{
  ℕ, ◌+◌, ◌≤◌, ◌≡◌, refl, subst, true, not, Option, none, some, List, Text, Result, ok, ◌>>=◌,
  >>=-eq-ok, throw_if-eq-ok, arith, find?, inl, inr, Option-cases,
}
use hack_the_north.Takeover.{
  Phase, Command, Session, AttemptRow, Desk, Control, TakeoverError, is_human, is_active,
  transition, expire, attempt_of,
}
use hack_the_north.Takeover.Commands.{
  Status, Parameters, granted, extended, extend_viewer, status_in_transaction, answer, is_key,
  opened, applied, enacted, outdated, ordered, command, status_view, until_of,
}
use hack_the_north.Takeover.Keeping.{
  horizon, is_held, Below, Logged, Kept, Kept-refl, Kept-trans, Below-weaken, expire-Kept,
  extend_viewer-Kept,
}

-- A grant among the desk's is over by the horizon.
unfoldable pub Granted : (now : ℕ) → Desk → Status × Desk → Type 0
Granted now d out =
    Kept now d out.1 × ((g : ℕ) → out.0.valid_until ≡ some g → g ≤ horizon now out.1.control)

granted-human :
    (a : AttemptRow) (controller : Option ℕ) (bs : List (ℕ × ℕ)) (c : Control) {s : Session}
    → granted a controller bs (some c) ≡ ok (some s)
    → is_human c.phase ≡ true
unfolding granted
granted-human a controller bs c {s} h = ground arith

module _ (ps : Parameters) where
  status_view-ungranted :
      (now : ℕ) (a : AttemptRow) (controller : Option ℕ) (o : Option Control)
      → (status_view now a controller o none).valid_until ≡ none
  unfolding status_view
  status_view-ungranted now a controller none = refl
  status_view-ungranted now a controller (some c) = refl

  grant-inside :
      (now until : ℕ) (a : AttemptRow) (controller : Option ℕ) (bs : List (ℕ × ℕ))
      (o : Option Control) (s : Session) (url : Text)
      → granted a controller bs o ≡ ok (some s)
      → (g : ℕ) → (status_view now a controller o (some (url, until))).valid_until ≡ some g
      → g ≤ horizon now (extended until o)
  unfolding granted status_view extended horizon
  grant-inside now until a controller bs none s url h g e = ground arith
  grant-inside now until a controller bs (some c) s url h g e =
      let mine : is_human c.phase ≡ true = granted-human a controller bs c h in
      let same : until ≡ g = ground arith in ground arith

  answer-Granted :
      (now : ℕ) (a : AttemptRow) (controller : Option ℕ) (bs : List (ℕ × ℕ)) (d : Desk)
      (g : Option Session)
      → granted a controller bs d.control ≡ ok g
      → Granted now d (answer ps now a controller d g)
  unfolding Granted answer extend_viewer
  answer-Granted now a controller bs d none h = (
    Kept-refl now d,
    λ g e.
        let no : Option.none ≡ some g =
          rw (status_view-ungranted now a controller d.control) at e in
        ground arith,
  )
  answer-Granted now a controller bs d (some s) h = (
    extend_viewer-Kept now (until_of now a d.control) d,
    grant-inside now (until_of now a d.control) a controller bs d.control s
        (ps.viewer_url s.live_view_url) h,
  )

  pub status-Granted :
      (now owner : ℕ) (controller : Option ℕ) (d : Desk) {out : Status × Desk}
      → status_in_transaction ps now owner controller d ≡ ok out
      → Granted now d out
  unfolding status_in_transaction Granted
  status-Granted now owner controller d {out} h =
      let (a, found, rest) = >>=-eq-ok (attempt_of owner d) _ h in
      let e : Desk = expire now a d in
      let (g, grants, done) = >>=-eq-ok (granted a controller e.bindings e.control) _ rest in
      let same : answer ps now a controller e g ≡ out = ground arith in
      let (kept, inside) : Granted now e out =
        subst (Granted now e) same (answer-Granted now a controller e.bindings e g grants) in
      (Kept-trans now d e out.1 (expire-Kept now a d) kept, inside)

  applied-Kept :
      (now : ℕ) (c : Command) (k next : Control) (p : Phase)
      → applied ps now c k ≡ ok (next, p)
      → (horizon now (some k) ≤ horizon now (some (record next { phase = p })))
        × (next.version ≡ k.version)
        × (is_held k.phase ≡ true → is_held p ≡ true)
  unfolding applied horizon
  applied-Kept now c k next p h = ground arith

  -- The control that a command moves, which the attempt may not have had before.
  moved-Kept :
      (now : ℕ) (c : Command) (a : AttemptRow) (d : Desk) (owner : ℕ) (key : Text) (next : Control)
      (p : Phase)
      → applied ps now c (opened ps a d.control) ≡ ok (next, p)
      → Kept now d (enacted ps owner key c d (next, p))
  unfolding Kept enacted transition opened horizon Logged Below
  moved-Kept now c a d owner key next p h = elim (Option-cases d.control) [
    | inl gone ↦
        let (a, b, e) = applied-Kept now c (opened ps a none) next p (rw gone at h) in
        rw gone (a, λ h. rw h (tt, omega arith))
    | inr (k, is) ↦
        let (a, b, e) = applied-Kept now c k next p (rw is at h) in
        rw is (
          a,
          λ (below, count). (
            Below-weaken (k.version + 1) (next.version + 1 + 1) d.intervals (omega arith) below,
            ground arith,
          ),
        )
  ]

  ordered-Kept :
      (now owner : ℕ) (key : Text) (c : Command) (a : AttemptRow) (d : Desk) {e : Desk}
      → ordered ps now owner key c a d ≡ ok e
      → Kept now d e
  unfolding ordered
  ordered-Kept now owner key c a d {e} h =
      let k = opened ps a d.control in
      let finished : Control × Phase → Result TakeoverError Desk =
        λ next. ok (enacted ps owner key c d next) in
      let (live, rest) = throw_if-eq-ok (not (is_active now a)) TakeoverError.conflict _ h in
      let (fresh, more) =
        throw_if-eq-ok (outdated ps c a k) TakeoverError.conflict (applied ps now c k >>= finished)
          rest in
      let ((next, p), does, done) = >>=-eq-ok (applied ps now c k) finished more in
      let same : enacted ps owner key c d (next, p) ≡ e = ground arith in
      subst (Kept now d) same (moved-Kept now c a d owner key next p does)

  pub command-Granted :
      (now owner : ℕ) (key : Text) (c : Command) (d : Desk) {out : Status × Desk}
      → command ps now owner key c d ≡ ok out
      → Granted now d out
  unfolding command Granted
  command-Granted now owner key c d {out} h =
      let (a, found, rest) = >>=-eq-ok (attempt_of owner d) _ h in
      elim (Option-cases (find? (is_key ps owner key) d.commands)) [
        | inl fresh ↦
            let (moved, does, done) =
              >>=-eq-ok (ordered ps now owner key c a d) _ (rw fresh at rest) in
            let (kept, inside) : Granted now moved out =
              status-Granted now owner (some c.controller_id) moved done in
            (Kept-trans now d moved out.1 (ordered-Kept now owner key c a d does) kept, inside)
        | inr (s, again) ↦
            let (same, done) = throw_if-eq-ok _ TakeoverError.conflict _ (rw again at rest) in
            status-Granted now owner (some c.controller_id) d done
      ]
