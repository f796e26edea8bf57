-- ===== src/Managed/Budget/Measures.antt =====
-- How the sums and counts over usages, on which the ceilings stand, change with one row.
use hack_the_north.Common.{
  ℕ, ◌+◌, ◌≡◌, ◌≤◌, refl, sym, subst, inl, inr, Bool, some, List, [], ◌∷◌, arith, ◌==◌,
  if◌then◌else◌, Bool-cases, sum_of, sum_of-append, count_of, keep,
}
use hack_the_north.Capacity.{Usage}
use hack_the_north.Managed.Rows.{Run, Attempt, Store}
use hack_the_north.Managed.Queries.{
  update, update_attempt, usages, usage_of, attempt_usages, find_run, touch, touch_runs,
}
use hack_the_north.Managed.Claims.{owner_of}
use hack_the_north.Managed.Tables.{Distinct, by_id, update_absent}

-- A measure of one usage, summed over the attempts, changes by what the updated row adds.
module _ (f : Usage → ℕ) (runs : List Run) (g : Attempt → Attempt) (seconds : ℕ) where
  sum-update :
      (id : ℕ) (rows : List Attempt) {a : Attempt}
      → Distinct rows
      → by_id id rows ≡ some a
      → a.id ≡ id
      → sum_of f (usage_of runs (g a)) ≤ sum_of f (usage_of runs a) + seconds
      → sum_of f (attempt_usages runs (update g id rows))
        ≤ sum_of f (attempt_usages runs rows) + seconds
  unfolding attempt_usages update
  sum-update id [] d e i h = cc
  sum-update id (x ∷ rest) {a} (n, d) e i h = elim (Bool-cases (x.id == id)) [
    | inl hit ↦
        let here : x ≡ a = ground arith in
        let same : update g id rest ≡ rest = update_absent g id rest (rw (← i, ← here) n) in
        rw (hit, same)
          (omega (
            arith,
            sum_of-append f (usage_of runs (g x)) (attempt_usages runs rest),
            sum_of-append f (usage_of runs x) (attempt_usages runs rest),
            subst (λ y. sum_of f (usage_of runs (g y)) ≤ sum_of f (usage_of runs y) + seconds)
                (sym here) h,
          ))
    | inr miss ↦
        let later = sum-update id rest {a = a} d (ground arith) i h in
        rw miss (
          omega (
            arith,
            sum_of-append f (usage_of runs x) (attempt_usages runs (update g id rest)),
            sum_of-append f (usage_of runs x) (attempt_usages runs rest),
            later,
          ))
  ]

  -- The same over the usages of the store, those of the native queue included.
  pub sum_usages-update :
      (s : Store) (id : ℕ) {a : Attempt}
      → s.runs ≡ runs
      → Distinct s.attempts
      → by_id id s.attempts ≡ some a
      → a.id ≡ id
      → sum_of f (usage_of runs (g a)) ≤ sum_of f (usage_of runs a) + seconds
      → sum_of f (usages (update_attempt s id g)) ≤ sum_of f (usages s) + seconds
  unfolding usages update_attempt
  sum_usages-update s id r d e i h = rw r (
      omega (
        arith,
        sum_of-append f s.native (attempt_usages runs s.attempts),
        sum_of-append f s.native (attempt_usages runs (update g id s.attempts)),
        sum-update id s.attempts d e i h,
      ))

abbrev pub one_if : (Usage → Bool) → Usage → ℕ
one_if p u = if p u then 1 else 0

pub count-eq-sum : (p : Usage → Bool) (us : List Usage) → count_of p us ≡ sum_of (one_if p) us
count-eq-sum p [] = refl
count-eq-sum p (u ∷ us) = omega (arith, count-eq-sum p us)

pub sum_of-keep :
    (f : Usage → ℕ) (p : Usage → Bool) (us : List Usage)
    → sum_of f (keep p us) ≡ sum_of (λ u. if p u then f u else 0) us
sum_of-keep f p [] = refl
sum_of-keep f p (u ∷ us) = ground (arith, sum_of-keep f p us)

-- `touch` changes no owner, and so no usage.
pub owner_of-touch :
    (now id : ℕ) (runs : List Run) (a : Attempt)
    → owner_of (touch_runs now id runs) a ≡ owner_of runs a
unfolding find_run touch_runs
owner_of-touch now id [] a = refl
owner_of-touch now id (r ∷ rs) a = ground (arith, owner_of-touch now id rs a)

usage_of-touch :
    (now id : ℕ) (runs : List Run) (a : Attempt)
    → usage_of (touch_runs now id runs) a ≡ usage_of runs a
unfolding usage_of find_run touch_runs
usage_of-touch now id [] a = refl
usage_of-touch now id (r ∷ rs) a = ground (arith, usage_of-touch now id rs a)

attempt_usages-touch :
    (now id : ℕ) (runs : List Run) (rows : List Attempt)
    → attempt_usages (touch_runs now id runs) rows ≡ attempt_usages runs rows
unfolding attempt_usages
attempt_usages-touch now id runs [] = refl
attempt_usages-touch now id runs (a ∷ rest) =
    rw (usage_of-touch now id runs a, attempt_usages-touch now id runs rest)

pub usages-touch : (now id : ℕ) (s : Store) → usages (touch now id s) ≡ usages s
unfolding usages touch
usages-touch now id s = rw (attempt_usages-touch now id s.runs s.attempts)
