-- ===== src/Reproduction/Tracing.antt =====
-- src/server/workflows/reproduction.ts: what the candidates of a search say of its best steps, and
-- what a dispatch, a recovery and a cancellation keep of it.
use hack_the_north.Common.{
  ℕ, ◌<◌, ◌≡◌, ap, refl, sym, subst, ◌∙◌, Bool, true, false, ◌&&◌, ◌||◌, some, List, [], ◌∷◌, ◌++◌,
  arith, Result, ok, err, if◌then◌else◌, inl, inr, Bool-cases, find?, length, ◌==◌, ==_refl,
}
use hack_the_north.Reproduction.{
  CouponStep, Status, Job, Candidate, CandidateStatus, Search, SearchError, is, finish, finished,
  next_steps, exhausted, without, change, passed, new_candidate, charged, cancel, give_up,
  recover_expired, dispatched, dispatch_queued, dispatch_recovered, committed,
}
use hack_the_north.Reproduction.Candidates.{has, find?-append, find?-grows, find?-change}
use hack_the_north.Reproduction.Cases.{is_final, Ended, dispatch_queued-cases}

abbrev is_kind : CandidateStatus → CandidateStatus → Bool
is_kind CandidateStatus.succeeded CandidateStatus.succeeded = true
is_kind CandidateStatus.refuted CandidateStatus.refuted = true
is_kind CandidateStatus.in_flight CandidateStatus.in_flight = true
is_kind _ _ = false

-- A candidate with these steps came to this.
unfoldable pub Tried : CandidateStatus → List CouponStep → List Candidate → Type 0
Tried st steps cs =
    (n : ℕ) × (c : Candidate) × (find? (λ d. d.id == n) cs ≡ some c)
    × (c.status ≡ st)
    × (c.steps ≡ steps)

-- The best steps reproduced the failure, and without one of those before the cursor they did not.
unfoldable pub Proven : Job → List Candidate → Type 0
unfolding Tried
Proven j cs =
    (b : List CouponStep)
    → j.best ≡ some b
    → Tried CandidateStatus.succeeded b cs
      × ((i : ℕ) → i < j.cursor → Tried CandidateStatus.refuted (without i b) cs)

-- The candidate in flight, which runs the next steps.
unfoldable pub Flying : Job → List Candidate → Type 0
Flying j cs =
    is j.status Status.running ≡ true
    → (n : ℕ) × (c : Candidate) × (j.active_candidate ≡ some n)
      × (find? (λ d. d.id == n) cs ≡ some c)
      × (c.status ≡ CandidateStatus.in_flight)
      × (c.steps ≡ next_steps j)

unfoldable pub Closing : Job → Type 0
Closing j = is j.status Status.found ≡ true → (exhausted j || length (next_steps j) == 0) ≡ true

unfoldable pub Traced : Search → Type 0
unfolding Proven Flying Closing
Traced s = Proven s.job s.candidates × Flying s.job s.candidates × Closing s.job

Tried-append :
    (st : CandidateStatus) (steps : List CouponStep) (cs ds : List Candidate)
    → Tried st steps cs
    → Tried st steps (cs ++ ds)
unfolding Tried
Tried-append st steps cs ds (n, c, at_n, kind, same) = (n, c, find?-grows n cs ds at_n, kind, same)

pub find?_id :
    (n : ℕ) (cs : List Candidate) {c : Candidate} → find? (λ d. d.id == n) cs ≡ some c → c.id ≡ n
find?_id n [] e = ground arith
find?_id n (d ∷ cs) {c} e = ground (arith, find?_id n cs {c = c})

-- A candidate that came to something is not the one in flight.
Tried-change :
    (st : CandidateStatus) (steps : List CouponStep) (a : ℕ) (f : Candidate → Candidate)
    (cs : List Candidate) (flying : Candidate)
    → ((d : Candidate) → (f d).id ≡ d.id)
    → find? (λ d. d.id == a) cs ≡ some flying
    → flying.status ≡ CandidateStatus.in_flight
    → is_kind st CandidateStatus.in_flight ≡ false
    → Tried st steps cs
    → Tried st steps (change (some a) f cs)
unfolding Tried
Tried-change st steps a f cs flying keeps active in_air other (n, c, at_n, kind, same) =
    elim (Bool-cases (a == n)) [
      | inl here ↦
          let one : a ≡ n = ground arith in
          let found : find? (λ d. d.id == n) cs ≡ some flying =
            subst (λ x. find? (λ d. d.id == x) cs ≡ some flying) one active in
          let both : flying ≡ c = ground arith in
          let air : st ≡ CandidateStatus.in_flight =
            sym kind ∙ sym (ap (λ x. x.status) both) ∙ in_air in
          let never : is_kind CandidateStatus.in_flight CandidateStatus.in_flight ≡ false =
            subst (λ x. is_kind x CandidateStatus.in_flight ≡ false) air other in
          ground arith
      | inr apart ↦
          let far : a == c.id ≡ false =
            subst (λ x. a == x ≡ false) (sym (find?_id n cs at_n)) apart in
          let kept : (if a == c.id then f c else c) ≡ c = simp far refl in
          (n, c, find?-change n a f cs keeps at_n ∙ ap some kept, kind, same)
    ]

pub Proven-change :
    (j : Job) (a : ℕ) (f : Candidate → Candidate) (cs : List Candidate) (flying : Candidate)
    → ((d : Candidate) → (f d).id ≡ d.id)
    → find? (λ d. d.id == a) cs ≡ some flying
    → flying.status ≡ CandidateStatus.in_flight
    → Proven j cs
    → Proven j (change (some a) f cs)
unfolding Proven
Proven-change j a f cs flying keeps active in_air proven b e =
    let (good, bad) = proven b e in
    (
      Tried-change CandidateStatus.succeeded b a f cs flying keeps active in_air refl good,
      λ i lt.
          Tried-change CandidateStatus.refuted (without i b) a f cs flying keeps active in_air refl
            (bad i lt),
    )

pub finished-Traced :
    (st : Status) (j : Job) (cs : List Candidate)
    → is_final st ≡ true
    → (is st Status.found ≡ true → (exhausted j || length (next_steps j) == 0) ≡ true)
    → Proven j cs
    → Traced (record { job = finish st j; candidates = cs })
unfolding Traced Proven Flying Closing finish next_steps
finished-Traced st j cs final closing proven = (proven, λ going. ground arith, closing)

pub Traced-Proven : (s : Search) → Traced s → Proven s.job s.candidates
unfolding Traced
Traced-Proven s (p, f, c) = p

pub Traced-Flying : (s : Search) → Traced s → Flying s.job s.candidates
unfolding Traced
Traced-Flying s (p, f, c) = f

pub recover_expired-Traced : (now : ℕ) (s : Search) → Traced s → Traced (recover_expired now s)
unfolding Traced Proven Flying Closing recover_expired give_up
recover_expired-Traced now s (proven, flying, closing) =
    elim (Bool-cases (is s.job.status Status.running && passed s.job.deadline now)) [
      | inr early ↦ simp early (proven, flying, closing)
      | inl late ↦
          let (n, c, active, at_n, air, steps) = flying (ground arith) in
          simp late (
            simp active (
              Proven-change s.job n give_up s.candidates c (λ d. refl) at_n air proven,
              λ e. ground arith,
              λ e. ground arith,
            ))
    ]

pub cancel-Traced : (s : Search) → Traced s → Traced (cancel s)
unfolding Traced Proven Flying Closing cancel next_steps
cancel-Traced s (proven, flying, closing) = elim (Bool-cases (is s.job.status Status.queued)) [
  | inl waiting ↦ simp waiting (proven, λ e. ground arith, λ e. ground arith)
  | inr other ↦ elim (Bool-cases (is s.job.status Status.running)) [
    | inl going ↦ simp (other, going) (proven, λ e. flying going, closing)
    | inr done ↦ simp (other, done) (proven, (λ e. ground arith), closing)
  ]
]

dispatched-Traced :
    (now id reservation : ℕ) (s : Search)
    → has id s.candidates ≡ false
    → Traced s
    → Traced (dispatched now id reservation (next_steps s.job) s)
unfolding Traced Proven Flying Closing dispatched charged new_candidate next_steps
dispatched-Traced now id reservation s unused (proven, flying, closing) = (
  (λ b e.
      let (good, bad) = proven b e in
      (
        Tried-append CandidateStatus.succeeded b s.candidates _ good,
        λ i lt. Tried-append CandidateStatus.refuted (without i b) s.candidates _ (bad i lt),
      )),
  (λ e. (
    id,
    new_candidate id reservation (next_steps s.job) s.job,
    refl,
    find?-append id s.candidates (new_candidate id reservation (next_steps s.job) s.job) unused
        (==_refl id),
    refl,
    refl,
  )),
  λ e. ground arith,
)

dispatch_queued-Traced :
    (now id reservation : ℕ) (s : Search) (r : Result SearchError (Bool × Search))
    → dispatch_queued now id reservation s ≡ r
    → Traced s
    → Traced (committed s r)
unfolding committed Ended finished
dispatch_queued-Traced now id reservation s (err e) h traced = traced
dispatch_queued-Traced now id reservation s (ok (b, t)) h traced =
    elim (dispatch_queued-cases now id reservation s h) [
      | inl (st, (final, found), e) ↦
          rw e (finished-Traced st s.job s.candidates final found (Traced-Proven s traced))
      | inr (unused, affordable, e) ↦ rw e (dispatched-Traced now id reservation s unused traced)
    ]

pub dispatch_recovered-Traced :
    (now id reservation : ℕ) (s : Search)
    → Traced s
    → Traced (committed s (dispatch_recovered now id reservation s))
unfolding dispatch_recovered committed
dispatch_recovered-Traced now id reservation s traced =
    elim (Bool-cases (is s.job.status Status.queued)) [
      | inl waiting ↦ simp waiting (
          dispatch_queued-Traced now id reservation s (dispatch_queued now id reservation s) refl
            traced)
      | inr other ↦ simp other traced
    ]
