-- ===== src/Reproduction/Minimal.antt =====
-- src/server/workflows/reproduction.ts: that the steps a search finds were run and reproduced the
-- failure, and that the runs without one of them did not.
use hack_the_north.Common.{
  ◌⊎◌, ℕ, zero, suc, ◌+◌, ◌≤◌, ◌<◌, ◌≡◌, ap, refl, sym, subst, ◌∙◌, Bool, true, false, ◌||◌, some,
  List, [], ◌∷◌, arith, if◌then◌else◌, inl, inr, Bool-cases, find?, length, ◌==◌, ==_refl, leb,
}
use hack_the_north.Reproduction.{
  CouponStep, Status, Limits, Job, Candidate, CandidateStatus, Search, is, is_id, finish,
  next_steps, exhausted, without, change, recover_expired, dispatch_next,
}
use hack_the_north.Reproduction.Completion.{
  CandidateResult, resolved, is_reproduced, is_untrusted, settled, complete_candidate,
}
use hack_the_north.Reproduction.Candidates.{find?-change}
use hack_the_north.Reproduction.Cases.{concluded-cases, complete_found-cases}
use hack_the_north.Reproduction.Histories.{
  Event, dispatching, completing, recovering, cancelling, step, run, prepared,
}
use hack_the_north.Reproduction.Tracing.{
  Tried, Proven, Flying, Closing, Traced, find?_id, Proven-change, finished-Traced, Traced-Flying,
  recover_expired-Traced, cancel-Traced, dispatch_recovered-Traced,
}

-- The candidate that was in flight, after its result.
Tried-resolved :
    (st : CandidateStatus) (id : ℕ) (f : Candidate → Candidate) (cs : List Candidate)
    (c : Candidate)
    → ((d : Candidate) → (f d).id ≡ d.id)
    → find? (λ d. d.id == id) cs ≡ some c
    → (f c).status ≡ st
    → Tried st (f c).steps (change (some id) f cs)
unfolding Tried
Tried-resolved st id f cs c keeps at_id came =
    let own : id == c.id ≡ true =
      subst (λ x. id == x ≡ true) (sym (find?_id id cs at_id)) (==_refl id) in
    let here : (if id == c.id then f c else c) ≡ f c = simp own refl in
    (id, f c, find?-change id id f cs keeps at_id ∙ ap some here, came, refl)

-- The steps without one of those before the cursor, or at it.
Tried-next :
    (b : List CouponStep) (cursor : ℕ) (cs : List Candidate)
    → ((i : ℕ) → i < cursor → Tried CandidateStatus.refuted (without i b) cs)
    → Tried CandidateStatus.refuted (without cursor b) cs
    → (i : ℕ) → i < cursor + 1
    → Tried CandidateStatus.refuted (without i b) cs
Tried-next b cursor cs before last i lt = elim (Bool-cases (i == cursor)) [
  | inl here ↦
      let same : cursor ≡ i = ground arith in
      subst (λ x. Tried CandidateStatus.refuted (without x b) cs) same last
  | inr other ↦ before i (ground arith)
]

resolved_won :
    (r : CandidateResult) (u : Bool) (c : Candidate)
    → u ≡ false
    → is_reproduced r ≡ true
    → (resolved u r c).status ≡ CandidateStatus.succeeded
unfolding resolved
resolved_won r u c good hit = simp (good, hit) refl

resolved_lost :
    (r : CandidateResult) (u : Bool) (c : Candidate)
    → u ≡ false
    → is_reproduced r ≡ false
    → (resolved u r c).status ≡ CandidateStatus.refuted
unfolding resolved
resolved_lost r u c good miss = simp (good, miss) refl

next_steps-best :
    (j : Job) (b : List CouponStep) → j.best ≡ some b → next_steps j ≡ without j.cursor b
unfolding next_steps
next_steps-best j b e = ground arith

exhausted-best :
    (j : Job) (b : List CouponStep) → j.best ≡ some b → exhausted j ≡ leb (length b) j.cursor
exhausted-best j b e = ground arith

won-Proven :
    (id : ℕ) (r : CandidateResult) (u : Bool) (c : Candidate) (j : Job) (cs : List Candidate)
    → find? (λ d. d.id == id) cs ≡ some c
    → u ≡ false
    → is_reproduced r ≡ true
    → Proven
        (finish Status.queued (record j { best = some c.steps; cursor = 0 }))
        (change (some id) (resolved u r) cs)
unfolding Proven finish resolved
won-Proven id r u c j cs at_id good hit b e =
    let same : c.steps ≡ b = ground arith in
    (
      subst (λ x. Tried CandidateStatus.succeeded x (change (some id) (resolved u r) cs)) same
          (Tried-resolved CandidateStatus.succeeded id (resolved u r) cs c (λ d. refl) at_id
            (resolved_won r u c good hit)),
      λ i lt. absurd (omega (arith, lt)),
    )

lost-Proven :
    (id : ℕ) (r : CandidateResult) (u : Bool) (c : Candidate) (j : Job) (cs : List Candidate)
    → find? (λ d. d.id == id) cs ≡ some c
    → c.steps ≡ next_steps j
    → u ≡ false
    → is_reproduced r ≡ false
    → Proven j (change (some id) (resolved u r) cs)
    → Proven
        (finish Status.queued (record j { cursor = j.cursor + 1 }))
        (change (some id) (resolved u r) cs)
unfolding Proven finish resolved
lost-Proven id r u c j cs at_id steps good miss still b e =
    let (won, lost) = still b e in
    let same : c.steps ≡ without j.cursor b = steps ∙ next_steps-best j b e in
    let last : Tried CandidateStatus.refuted (without j.cursor b)
        (change (some id) (resolved u r) cs) =
      subst (λ x. Tried CandidateStatus.refuted x (change (some id) (resolved u r) cs)) same
        (Tried-resolved CandidateStatus.refuted id (resolved u r) cs c (λ d. refl) at_id
          (resolved_lost r u c good miss)) in
    (won, Tried-next b j.cursor (change (some id) (resolved u r) cs) lost last)

settled-Traced :
    (now id : ℕ) (elsewhere is_cancelled : Bool) (r : CandidateResult) (c : Candidate) (s : Search)
    → find? (λ d. d.id == id) s.candidates ≡ some c
    → c.status ≡ CandidateStatus.in_flight
    → c.steps ≡ next_steps s.job
    → Traced s
    → Traced (settled now id elsewhere is_cancelled r c s)
unfolding Traced Proven Flying Closing settled finish next_steps resolved
settled-Traced now id elsewhere is_cancelled r c s at_id air steps (proven, flying, closing) =
    let u = is_untrusted now id elsewhere r s in
    let cs = change (some id) (resolved u r) s.candidates in
    let still : Proven s.job cs =
      Proven-change s.job id (resolved u r) s.candidates c (λ d. refl) at_id air proven in
    elim (concluded-cases u is_cancelled r c.steps s.job) [
      | inl (st, final, other, e) ↦
          rw e (finished-Traced st s.job cs final (λ found. ground arith) still)
      | inr (inl (good, hit, e)) ↦ rw e (
        won-Proven id r u c s.job s.candidates at_id good hit,
        (λ going. ground arith),
        λ found. ground arith,
      )
      | inr (inr (good, miss, best, e)) ↦ rw e (
        lost-Proven id r u c s.job s.candidates at_id steps good miss still,
        (λ going. ground arith),
        λ found. ground arith,
      )
    ]

-- A result of the candidate in flight.
landed :
    (now id : ℕ) (elsewhere is_cancelled : Bool) (r : CandidateResult) (c : Candidate) (s : Search)
    → find? (λ d. d.id == id) s.candidates ≡ some c
    → is s.job.status Status.running ≡ true
    → is_id s.job.active_candidate id ≡ true
    → Traced s
    → Traced (settled now id elsewhere is_cancelled r c s)
unfolding Flying
landed now id elsewhere is_cancelled r c s at_id going mine traced =
    let (n, d, active, at_n, air, steps) = Traced-Flying s traced going in
    let same_id : n ≡ id = ground arith in
    let found : find? (λ x. x.id == id) s.candidates ≡ some d =
      subst (λ x. find? (λ y. y.id == x) s.candidates ≡ some d) same_id at_n in
    let same : d ≡ c = ground arith in
    settled-Traced now id elsewhere is_cancelled r c s at_id
      (subst (λ x. x.status ≡ CandidateStatus.in_flight) same air)
      (subst (λ x. x.steps ≡ next_steps s.job) same steps) traced

complete_candidate-Traced :
    (now id : ℕ) (elsewhere is_cancelled : Bool) (r : CandidateResult) (s : Search)
    → Traced s
    → Traced (complete_candidate now id elsewhere is_cancelled r s).1
unfolding complete_candidate
complete_candidate-Traced now id elsewhere is_cancelled r s traced =
    elim (complete_found-cases now id elsewhere is_cancelled r s
      (find? (λ c. c.id == id) s.candidates)) [
        | inl stale ↦ rw stale traced
        | inr (c, at_id, going, mine, e) ↦
            rw e (landed now id elsewhere is_cancelled r c s at_id going mine traced)
      ]

step-Traced : (e : Event) (s : Search) → Traced s → Traced (step e s)
unfolding step dispatch_next
step-Traced (dispatching now id reservation) s traced =
    dispatch_recovered-Traced now id reservation (recover_expired now s)
      (recover_expired-Traced now s traced)
step-Traced (completing now id elsewhere is_cancelled r) s traced =
    complete_candidate-Traced now id elsewhere is_cancelled r s traced
step-Traced (recovering now) s traced = recover_expired-Traced now s traced
step-Traced cancelling s traced = cancel-Traced s traced

run-Traced : (es : List Event) (s : Search) → Traced s → Traced (run es s)
unfolding run
run-Traced [] s traced = traced
run-Traced (e ∷ es) s traced = run-Traced es (step e s) (step-Traced e s traced)

prepared-Traced :
    (now : ℕ) (recipe : List CouponStep) (limits : Limits) → Traced (prepared now recipe limits)
unfolding Traced Proven Flying Closing prepared
prepared-Traced now recipe limits = ((λ b e. ground arith), (λ e. ground arith), λ e. ground arith)

length-without : (n : ℕ) (xs : List CouponStep) → length xs ≤ length (without n xs) + 1
unfolding without
length-without n [] = omega arith
length-without zero (x ∷ xs) = omega arith
length-without (suc n) (x ∷ xs) = omega (arith, length-without n xs)

-- A search that found its steps has left none of them out of the runs.
closing_cursor :
    (j : Job) (b : List CouponStep)
    → j.best ≡ some b
    → 1 < length b
    → (exhausted j || length (next_steps j) == 0) ≡ true
    → length b ≤ j.cursor
closing_cursor j b e long h =
    let rest : next_steps j ≡ without j.cursor b = next_steps-best j b e in
    let size : length b ≤ length (without j.cursor b) + 1 = length-without j.cursor b in
    let some_left : length (next_steps j) == 0 ≡ false = rw rest (ground arith) in
    let past : leb (length b) j.cursor ≡ true = sym (exhausted-best j b e) ∙ ground arith in
    ground arith

-- The steps without any one of those at the first `n` places did not reproduce the failure.
abbrev pub RefutedBelow : ℕ → List CouponStep → List Candidate → Type 0
RefutedBelow zero b cs = Unit
RefutedBelow (suc n) b cs = Tried CandidateStatus.refuted (without n b) cs × RefutedBelow n b cs

refuted_places :
    (n : ℕ) (b : List CouponStep) (cs : List Candidate)
    → ((i : ℕ) → i < n → Tried CandidateStatus.refuted (without i b) cs)
    → RefutedBelow n b cs
refuted_places zero b cs lost = tt
refuted_places (suc n) b cs lost =
    (lost n (omega arith), refuted_places n b cs (λ i lt. lost i (omega (arith, lt))))

-- When a prepared search has found its steps after any history, those steps were run by a candidate
-- and reproduced the failure, and they are at most one, or the steps without any one of them were
-- run by a candidate and did not reproduce it.
pub found_minimal :
    (now : ℕ) (recipe : List CouponStep) (limits : Limits) (es : List Event) (b : List CouponStep)
    → is (run es (prepared now recipe limits)).job.status Status.found ≡ true
    → (run es (prepared now recipe limits)).job.best ≡ some b
    → Tried CandidateStatus.succeeded b (run es (prepared now recipe limits)).candidates
      × ((length b ≤ 1)
          ⊎ RefutedBelow (length b) b (run es (prepared now recipe limits)).candidates)
unfolding Traced Proven Closing
found_minimal now recipe limits es b found best =
    let s = run es (prepared now recipe limits) in
    let (proven, flying, closing) : Traced s =
      run-Traced es (prepared now recipe limits) (prepared-Traced now recipe limits) in
    let (won, lost) = proven b best in
    (
      won,
      elim (Bool-cases (leb (length b) 1)) [
        | inl short ↦ inl (ground arith)
        | inr long ↦
            let far : length b ≤ s.job.cursor =
              closing_cursor s.job b best (ground arith) (closing found) in
            inr (refuted_places (length b) b s.candidates (λ i lt. lost i (omega (arith, lt, far))))
      ],
    )
