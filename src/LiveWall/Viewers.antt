-- ===== src/LiveWall/Viewers.antt =====
-- Which live views the wall hands out (`projectWall` and `selectViewers` of src/lib/live-wall.ts).
use hack_the_north.Common.{
  ℕ, zero, suc, ◌≡◌, ◌≤◌, ◌⊎◌, refl, Bool, true, false, not, ◌&&◌, ◌||◌, Option, none, some, List,
  [], ◌∷◌, map, arith, ◌==◌, any, All, All-append, keep, take, length, length-append, is_some,
  Bool-cases, inl, inr, ltb,
}
use hack_the_north.Contracts.{RunEvent}
use hack_the_north.LiveWall.{
  member, select_viewers, max_viewers, WallRun, WallSnapshot, SessionView, Projection, is_finished,
  is_recovering, is_run_finished, is_cancel_requested, hide, cancel_overlay, run_overlay,
  project_event, project_events, run_watchable, project_session, projection, project_wall,
}

-- An event after which the session of an attempt must not be watched.
abbrev ends_attempt : ℕ → RunEvent → Bool
ends_attempt n e = elim e.attempt_id [
  | none ↦ false
  | some id ↦ (is_recovering e.kind || is_finished e.kind) && id == n
]

abbrev pub calls_off : ℕ → RunEvent → Bool
calls_off n e = is_run_finished e.kind || (is_cancel_requested e.kind || ends_attempt n e)

-- A run that is missing or is asked to stop stays so.
abbrev is_off : Option WallRun → Bool
is_off none = true
is_off (some r) = is_some r.cancel_requested_at

module _ (cursor : ℕ) where
  project_event-member :
      (p : Projection) (e : RunEvent) (n : ℕ)
      → member n p.hidden || ends_attempt n e ≡ true
      → member n (project_event cursor p e).hidden ≡ true
  unfolding project_event hide
  project_event-member p e n h = ground arith

  project_events-member :
      (p : Projection) (es : List RunEvent) (n : ℕ)
      → member n p.hidden || any (ends_attempt n) es ≡ true
      → member n (project_events cursor p es).hidden ≡ true
  unfolding project_events
  project_events-member p [] n h = ground arith
  project_events-member p (e ∷ rest) n h =
      project_events-member (project_event cursor p e) rest n
        (ground (arith, project_event-member p e n))

  project_event-off :
      (p : Projection) (e : RunEvent)
      → is_off p.run || is_cancel_requested e.kind ≡ true
      → is_off (project_event cursor p e).run ≡ true
  unfolding project_event cancel_overlay run_overlay
  project_event-off p e h = ground arith

  project_events-off :
      (p : Projection) (es : List RunEvent)
      → is_off p.run || any (λ e. is_cancel_requested e.kind) es ≡ true
      → is_off (project_events cursor p es).run ≡ true
  unfolding project_events
  project_events-off p [] h = ground arith
  project_events-off p (e ∷ rest) h =
      project_events-off (project_event cursor p e) rest (ground (arith, project_event-off p e))

no_event_calls :
    (n : ℕ) (es : List RunEvent)
    → any (λ e. is_run_finished e.kind) es ≡ false
    → any (λ e. is_cancel_requested e.kind) es ≡ false
    → any (ends_attempt n) es ≡ false
    → any (calls_off n) es ≡ false
no_event_calls n [] f c e = refl
no_event_calls n (x ∷ rest) f c e =
    let tail : any (calls_off n) rest ≡ false =
      no_event_calls n rest (ground arith) (ground arith) (ground arith) in
    ground arith

-- A session is either shut, without a link, or no event of the list calls it off.
abbrev pub Guarded : List RunEvent → SessionView → Type 0
Guarded es s =
    ((s.available ≡ false) × (s.live_view_url ≡ none)) ⊎ (any (calls_off s.attempt_id) es ≡ false)

project_session_cases :
    (p : Projection) (ended : Bool) (s : SessionView)
    → (((project_session p ended s).available ≡ false)
        × ((project_session p ended s).live_view_url ≡ none))
      ⊎ ((ended ≡ false) × (is_off p.run ≡ false) × (member s.attempt_id p.hidden ≡ false))
unfolding project_session run_watchable
project_session_cases p ended s = ground arith

not_true : (b c : Bool) → (c ≡ true → b ≡ true) → b ≡ false → c ≡ false
not_true b c f e = ground arith

map-Guarded :
    (w : WallSnapshot) (ss : List SessionView)
    → All
        (Guarded w.events)
        (map (project_session (projection w) (any (λ e. is_run_finished e.kind) w.events)) ss)
unfolding projection project_session
map-Guarded w [] = tt
map-Guarded w (s ∷ rest) = (guarded, map-Guarded w rest)
  where
    ended : Bool
    ended = any (λ e. is_run_finished e.kind) w.events

    guarded : Guarded w.events (project_session (projection w) ended s)
    guarded = elim (project_session_cases (projection w) ended s) [
      | inl shut ↦ inl shut
      | inr (going, on, seen) ↦ inr (
          no_event_calls s.attempt_id w.events going
            (not_true (is_off (projection w).run) (any (λ e. is_cancel_requested e.kind) w.events)
              (λ c. project_events-off w.cursor _ w.events (rw c (ground arith))) on)
            (not_true (member s.attempt_id (projection w).hidden)
              (any (ends_attempt s.attempt_id) w.events)
              (λ c. project_events-member w.cursor _ w.events s.attempt_id (rw c (ground arith)))
              seen))
    ]

-- Every session of a projected wall is either unavailable and without a link, or no event that the
-- wall has seen, even past a gap, finishes the run, asks to cancel it, or finishes or recovers the
-- attempt of the session.
pub project_wall-Guarded : (w : WallSnapshot) → All (Guarded w.events) (project_wall w).sessions
unfolding project_wall
project_wall-Guarded w = map-Guarded w w.sessions

take_at_most : (n : ℕ) (ids : List ℕ) → length (take n ids) ≤ n
take_at_most zero ids = omega arith
take_at_most (suc n) [] = omega arith
take_at_most (suc n) (x ∷ xs) = omega (arith, take_at_most n xs)

keep_at_most : (p : ℕ → Bool) (ids : List ℕ) → length (keep p ids) ≤ length ids
keep_at_most p [] = omega arith
keep_at_most p (x ∷ xs) = ground (arith, keep_at_most p xs)

keep-All : (p : ℕ → Bool) (ids : List ℕ) → All (λ id. p id ≡ true) (keep p ids)
keep-All p [] = tt
keep-All p (x ∷ xs) = elim (Bool-cases (p x)) [
  | inl hit ↦ rw hit (hit, keep-All p xs)
  | inr miss ↦ rw miss (keep-All p xs)
]

All-keep : (P : ℕ → Type 0) (p : ℕ → Bool) (ids : List ℕ) → All P ids → All P (keep p ids)
All-keep P p [] h = tt
All-keep P p (x ∷ xs) (h, hs) = elim (Bool-cases (p x)) [
  | inl hit ↦ rw hit (h, All-keep P p xs hs)
  | inr miss ↦ rw miss (All-keep P p xs hs)
]

All-take : (P : ℕ → Type 0) (n : ℕ) (ids : List ℕ) → All P ids → All P (take n ids)
All-take P zero ids h = tt
All-take P (suc n) [] h = tt
All-take P (suc n) (x ∷ xs) (h, hs) = (h, All-take P n xs hs)

-- At most three viewers are ever selected, and each is eligible.
pub select_viewers_bounds :
    (selected eligible : List ℕ) (requested : Option ℕ)
    → (length (select_viewers selected eligible requested) ≤ 3)
      × All (λ id. member id eligible ≡ true) (select_viewers selected eligible requested)
unfolding select_viewers
select_viewers_bounds selected eligible none =
    (take_at_most 3 _, All-take _ 3 _ (keep-All (λ id. member id eligible) selected))
select_viewers_bounds selected eligible (some r) =
    let next : List ℕ = take max_viewers (keep (λ id. member id eligible) selected) in
    let few : length next ≤ 3 = take_at_most 3 _ in
    let eligibles : All (λ id. member id eligible ≡ true) next =
      All-take _ 3 _ (keep-All (λ id. member id eligible) selected) in
    elim (Bool-cases (member r next)) [
      | inl shown ↦ rw shown (
        omega (arith, few, keep_at_most (λ id. not (id == r)) next),
        All-keep _ (λ id. not (id == r)) next eligibles,
      )
      | inr hidden ↦ elim (Bool-cases (member r eligible && ltb (length next) max_viewers)) [
        | inl room ↦
            rw (hidden, room)
              (
                ground (arith, length-append next (r ∷ [])),
                All-append _ next (r ∷ []) eligibles (ground arith, tt),
              )
        | inr full ↦ rw (hidden, full) (few, eligibles)
      ]
    ]
