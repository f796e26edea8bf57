-- ===== src/Reproduction/Ending.antt =====
-- src/server/workflows/reproduction.ts: that a search ends.
use hack_the_north.Common.{
  ℕ, ◌+◌, ◌-◌, ◌≤◌, ◌<◌, ◌≡◌, refl, sym, subst, ◌∙◌, Bool, true, false, ◌||◌, Option, some, List,
  [], ◌∷◌, arith, Result, ok, err, if◌then◌else◌, inl, inr, Bool-cases, find?, any, length, ◌==◌,
  ==_refl, All,
}
use hack_the_north.Reproduction.{
  CouponStep, Status, Job, Candidate, Search, SearchError, is, finish, finished, next_steps,
  new_candidate, recover_expired, over_limits, charged, dispatched, dispatch_queued,
  dispatch_recovered, committed, dispatch_next,
}
use hack_the_north.Reproduction.Completion.{
  CandidateResult, resolved, is_untrusted, concluded, settled, complete_found, complete_candidate,
}
use hack_the_north.Reproduction.Candidates.{has, has-change, has-append, find?-append}
use hack_the_north.Reproduction.Cases.{
  is_final, Ended, dispatch_queued-cases, concluded-cases, complete_found-cases,
}

-- A candidate's turn: it is dispatched with an id that `randomUUID` gives, and completed with any result.
pub record Turn : Type 0 where
  pub dispatched_at : ℕ
  pub id : ℕ
  pub reservation : ℕ
  pub completed_at : ℕ
  pub elsewhere : Bool
  pub is_cancelled : Bool
  pub result : CandidateResult

unfoldable pub take_turn : Turn → Search → Search
unfolding dispatch_next complete_candidate
take_turn t s =
    let u = dispatch_next t.dispatched_at t.id t.reservation s in
    (complete_candidate t.completed_at t.id t.elsewhere t.is_cancelled t.result u).1

unfoldable pub take_turns : List Turn → Search → Search
unfolding take_turn
take_turns [] s = s
take_turns (t ∷ ts) s = take_turns ts (take_turn t s)

-- The ids are those of no candidate, and of no other turn.
unfoldable pub Unused : List Turn → List Candidate → Type 0
Unused [] cs = Unit
Unused (t ∷ ts) cs =
    (any (λ c. c.id == t.id) cs ≡ false) × All (λ u. t.id == u.id ≡ false) ts × Unused ts cs

-- How many candidates a job may still have, and one more for its end.
unfoldable pub remaining : Job → ℕ
remaining j = if is j.status Status.queued then 1 + (j.limits.candidates - j.candidate_count) else 0

-- What a turn with an id makes of a search that has no candidate in flight.
unfoldable Advanced : (id : ℕ) → Search → Search → Type 0
unfolding remaining
Advanced id s t =
    (is t.job.status Status.running ≡ false)
    × (remaining t.job ≤ remaining s.job - 1)
    × ((n : ℕ) → id == n ≡ false → has n s.candidates ≡ false → has n t.candidates ≡ false)

-- A completion that finds no candidate in flight.
idle_completion :
    (t : Turn) (s : Search) (o : Option Candidate)
    → is s.job.status Status.running ≡ false
    → (complete_found t.completed_at t.id t.elsewhere t.is_cancelled t.result s o).1 ≡ s
idle_completion t s o idle =
    elim (complete_found-cases t.completed_at t.id t.elsewhere t.is_cancelled t.result s o) [
      | inl stale ↦ rw stale refl
      | inr (c, found, going, mine, e) ↦ let never : false ≡ true = rw idle at going in ground arith
    ]

concluded-remaining :
    (untrusted is_cancelled : Bool) (r : CandidateResult) (steps : List CouponStep) (j : Job)
    → (is (concluded untrusted is_cancelled r steps j).status Status.running ≡ false)
      × (remaining (concluded untrusted is_cancelled r steps j)
          ≤ 1 + (j.limits.candidates - j.candidate_count))
unfolding remaining finish
concluded-remaining untrusted is_cancelled r steps j =
    elim (concluded-cases untrusted is_cancelled r steps j) [
      | inl (st, final, other, e) ↦ rw e (ground arith, ground arith)
      | inr (inl (good, hit, e)) ↦ rw e (refl, omega arith)
      | inr (inr (good, miss, best, e)) ↦ rw e (refl, omega arith)
    ]

completed_lem :
    (t : Turn) (s : Search) (steps : List CouponStep)
    → has t.id s.candidates ≡ false
    → let u = dispatched t.dispatched_at t.id t.reservation steps s in
      complete_candidate t.completed_at t.id t.elsewhere t.is_cancelled t.result u ≡ (
        true,
        settled t.completed_at t.id t.elsewhere t.is_cancelled t.result
            (new_candidate t.id t.reservation steps s.job)
            u,
      )
unfolding complete_candidate complete_found dispatched charged new_candidate
completed_lem t s steps unused =
    rw
      (find?-append t.id s.candidates (new_candidate t.id t.reservation steps s.job) unused
        (==_refl t.id))
      (simp (==_refl t.id) refl)

settled_ids :
    (t : Turn) (c : Candidate) (s : Search) (n : ℕ)
    → has n (settled t.completed_at t.id t.elsewhere t.is_cancelled t.result c s).candidates
      ≡ has n s.candidates
unfolding settled resolved
settled_ids t c s n =
    has-change (some t.id) n
      (resolved (is_untrusted t.completed_at t.id t.elsewhere t.result s) t.result) s.candidates
      (λ d. refl)

over_limits-room :
    (now reservation : ℕ) (steps : List CouponStep) (j : Job)
    → over_limits now reservation steps j ≡ false
    → j.candidate_count + 1 ≤ j.limits.candidates
unfolding over_limits
over_limits-room now reservation steps j h = ground arith

remaining-queued :
    (j : Job)
    → is j.status Status.queued ≡ true
    → remaining j ≡ 1 + (j.limits.candidates - j.candidate_count)
unfolding remaining
remaining-queued j waiting = simp waiting refl

-- The turn of a candidate that is dispatched.
dispatched-Advanced :
    (t : Turn) (s : Search)
    → is s.job.status Status.queued ≡ true
    → has t.id s.candidates ≡ false
    → over_limits t.dispatched_at t.reservation (next_steps s.job) s.job ≡ false
    → Advanced t.id s
        (complete_candidate t.completed_at t.id t.elsewhere t.is_cancelled t.result
          (dispatched t.dispatched_at t.id t.reservation (next_steps s.job) s)).1
unfolding Advanced settled dispatched charged new_candidate
dispatched-Advanced t s waiting unused affordable =
    let steps = next_steps s.job in
    let c = new_candidate t.id t.reservation steps s.job in
    let u = dispatched t.dispatched_at t.id t.reservation steps s in
    let (idle, less) =
      concluded-remaining (is_untrusted t.completed_at t.id t.elsewhere t.result u) t.is_cancelled
        t.result steps u.job in
    rw (completed_lem t s steps unused) (
      idle,
      (let room : s.job.candidate_count + 1 ≤ s.job.limits.candidates =
            over_limits-room t.dispatched_at t.reservation steps s.job affordable in
          let before : remaining s.job ≡ 1 + (s.job.limits.candidates - s.job.candidate_count) =
            remaining-queued s.job waiting in
          omega arith),
      λ n other fresh.
          let grown : has n u.candidates ≡ (has n s.candidates || (t.id == n)) =
            has-append n s.candidates c in
          let none_yet : (has n s.candidates || (t.id == n)) ≡ false = ground arith in
          settled_ids t c u n ∙ grown ∙ none_yet,
    )

idle-recover :
    (now : ℕ) (s : Search) → is s.job.status Status.running ≡ false → recover_expired now s ≡ s
unfolding recover_expired
idle-recover now s idle = simp idle refl

finished-Advanced :
    (id : ℕ) (st : Status) (s : Search) → is_final st ≡ true → Advanced id s (finished st s)
unfolding Advanced finished finish remaining
finished-Advanced id st s final = (ground arith, ground arith, λ n other fresh. fresh)

Advanced-refl :
    (id : ℕ) (s : Search)
    → is s.job.status Status.running ≡ false
    → is s.job.status Status.queued ≡ false
    → Advanced id s s
unfolding Advanced remaining
Advanced-refl id s idle done = (idle, ground arith, λ n other fresh. fresh)

-- A completion changes nothing of a search without a candidate in flight.
unmoved :
    (t : Turn) (s u : Search)
    → is u.job.status Status.running ≡ false
    → Advanced t.id s u
    → Advanced t.id s
        (complete_candidate t.completed_at t.id t.elsewhere t.is_cancelled t.result u).1
unfolding complete_candidate
unmoved t s u idle a =
    subst (Advanced t.id s)
      (sym (idle_completion t u (find? (λ c. c.id == t.id) u.candidates) idle)) a

dispatch_queued-eq-err :
    (now id reservation : ℕ) (s : Search) {e : SearchError}
    → dispatch_queued now id reservation s ≡ err e
    → has id s.candidates ≡ true
unfolding dispatch_queued
dispatch_queued-eq-err now id reservation s {e} h = ground arith

queued-Advanced :
    (t : Turn) (s : Search) (r : Result SearchError (Bool × Search))
    → dispatch_queued t.dispatched_at t.id t.reservation s ≡ r
    → is s.job.status Status.queued ≡ true
    → has t.id s.candidates ≡ false
    → Advanced t.id s
        (complete_candidate t.completed_at t.id t.elsewhere t.is_cancelled t.result
          (committed s r)).1
unfolding committed finished finish Ended
queued-Advanced t s (err e) h waiting unused =
    let taken : has t.id s.candidates ≡ true =
      dispatch_queued-eq-err t.dispatched_at t.id t.reservation s h in
    ground arith
queued-Advanced t s (ok (b, u)) h waiting unused =
    elim (dispatch_queued-cases t.dispatched_at t.id t.reservation s h) [
      | inl (st, (final, found), e) ↦
          rw e (unmoved t s (finished st s) (ground arith) (finished-Advanced t.id st s final))
      | inr (fresh, affordable, e) ↦ rw e (dispatched-Advanced t s waiting unused affordable)
    ]

recovered-Advanced :
    (t : Turn) (s : Search)
    → is s.job.status Status.running ≡ false
    → has t.id s.candidates ≡ false
    → Advanced t.id s
        (complete_candidate t.completed_at t.id t.elsewhere t.is_cancelled t.result
          (committed s (dispatch_recovered t.dispatched_at t.id t.reservation s))).1
unfolding committed dispatch_recovered
recovered-Advanced t s idle unused = elim (Bool-cases (is s.job.status Status.queued)) [
  | inr done ↦ simp done (unmoved t s s idle (Advanced-refl t.id s idle done))
  | inl waiting ↦ simp waiting (
      queued-Advanced t s (dispatch_queued t.dispatched_at t.id t.reservation s) refl waiting
        unused)
]

turn-Advanced :
    (t : Turn) (s : Search)
    → is s.job.status Status.running ≡ false
    → has t.id s.candidates ≡ false
    → Advanced t.id s (take_turn t s)
unfolding take_turn dispatch_next
turn-Advanced t s idle unused =
    subst
      (λ x.
        Advanced t.id s
          (complete_candidate t.completed_at t.id t.elsewhere t.is_cancelled t.result
            (committed x (dispatch_recovered t.dispatched_at t.id t.reservation x))).1)
      (sym (idle-recover t.dispatched_at s idle)) (recovered-Advanced t s idle unused)

Unused-later :
    (id : ℕ) (ts : List Turn) (cs ds : List Candidate)
    → ((n : ℕ) → id == n ≡ false → has n cs ≡ false → has n ds ≡ false)
    → All (λ u. id == u.id ≡ false) ts
    → Unused ts cs
    → Unused ts ds
unfolding Unused
Unused-later id [] cs ds later other h = tt
Unused-later id (t ∷ ts) cs ds later (here, other) (unused, distinct, h) =
    (later t.id here unused, distinct, Unused-later id ts cs ds later other h)

take_turns-remaining :
    (ts : List Turn) (s : Search)
    → is s.job.status Status.running ≡ false
    → Unused ts s.candidates
    → (is (take_turns ts s).job.status Status.running ≡ false)
      × (remaining (take_turns ts s).job ≤ remaining s.job - length ts)
unfolding take_turns Unused Advanced
take_turns-remaining [] s idle h = (idle, omega arith)
take_turns-remaining (t ∷ ts) s idle (unused, distinct, h) =
    let (idle_after, less, fresh) : Advanced t.id s (take_turn t s) =
      turn-Advanced t s idle unused in
    let (done, fewer) =
      take_turns-remaining ts (take_turn t s) idle_after
        (Unused-later t.id ts s.candidates (take_turn t s).candidates fresh distinct h) in
    (done, omega arith)

remaining-room : (j : Job) → remaining j ≤ 1 + (j.limits.candidates - j.candidate_count)
unfolding remaining
remaining-room j = ground arith

remaining-zero : (j : Job) → remaining j ≤ 0 → is j.status Status.queued ≡ false
unfolding remaining
remaining-zero j h = ground arith

-- A search without a candidate in flight that is given more turns, with ids of no candidate, than it
-- may still have candidates comes to a final status, whatever the results of the candidates are:
-- each turn dispatches a candidate and completes it.
pub search_ends :
    (ts : List Turn) (s : Search)
    → is s.job.status Status.running ≡ false
    → Unused ts s.candidates
    → s.job.limits.candidates - s.job.candidate_count < length ts
    → is_final (take_turns ts s).job.status ≡ true
search_ends ts s idle unused enough =
    let (idle_after, less) = take_turns-remaining ts s idle unused in
    let before : remaining s.job ≤ 1 + (s.job.limits.candidates - s.job.candidate_count) =
      remaining-room s.job in
    let spent : remaining (take_turns ts s).job ≤ 0 = omega arith in
    let over : is (take_turns ts s).job.status Status.queued ≡ false =
      remaining-zero (take_turns ts s).job spent in
    ground arith
