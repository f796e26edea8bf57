-- ===== src/Assignments/Selection.antt =====
-- What a selection of assignments holds (src/lib/execution-capacity.ts).
use hack_the_north.Common.{
  ℕ, ◌≡◌, ◌≤◌, refl, Bool, true, false, not, ◌||◌, List, [], ◌∷◌, ◌++◌, arith, ◌==◌, leb, length,
  length-append, keep, Bool-cases, inl, inr,
}
use hack_the_north.Assignments.{max_assignments_per_run, includes, select_run_assignment}

-- No id is selected twice.
abbrev Once : List ℕ → Type 0
Once [] = Unit
Once (x ∷ xs) = (includes x xs ≡ false) × Once xs

pub record Selected (ids : List ℕ) : Type 0 where
  pub once : Once ids
  pub at_most : length ids ≤ 8

kept-includes :
    (p : ℕ → Bool) (n : ℕ) (ids : List ℕ) → includes n ids ≡ false → includes n (keep p ids) ≡ false
kept-includes p n [] h = refl
kept-includes p n (x ∷ xs) h = ground (arith, kept-includes p n xs)

keep-Once : (p : ℕ → Bool) (ids : List ℕ) → Once ids → Once (keep p ids)
keep-Once p [] o = tt
keep-Once p (x ∷ xs) (new, o) = elim (Bool-cases (p x)) [
  | inl hit ↦ rw hit (kept-includes p x xs new, keep-Once p xs o)
  | inr miss ↦ rw miss (keep-Once p xs o)
]

length-keep : (p : ℕ → Bool) (ids : List ℕ) → length (keep p ids) ≤ length ids
length-keep p [] = omega arith
length-keep p (x ∷ xs) = ground (arith, length-keep p xs)

appended-includes :
    (n id : ℕ) (ids : List ℕ) → includes n (ids ++ (id ∷ [])) ≡ includes n ids || id == n
appended-includes n id [] = ground arith
appended-includes n id (x ∷ xs) = ground (arith, appended-includes n id xs)

append-Once : (id : ℕ) (ids : List ℕ) → includes id ids ≡ false → Once ids → Once (ids ++ (id ∷ []))
append-Once id [] new o = (refl, tt)
append-Once id (x ∷ xs) new (first, o) =
    (ground (arith, appended-includes x id xs), append-Once id xs (ground arith) o)

unfoldable pub select_all : List (ℕ × Bool) → List ℕ → List ℕ
select_all [] ids = ids
select_all ((id, selected) ∷ rest) ids = select_all rest (select_run_assignment ids id selected)

select-Selected :
    (ids : List ℕ) (id : ℕ) (selected : Bool)
    → Selected ids
    → Selected (select_run_assignment ids id selected)
unfolding select_run_assignment
select-Selected ids id false s = record {
  once = keep-Once (λ x. not (x == id)) ids s.once;
  at_most = omega (arith, length-keep (λ x. not (x == id)) ids, s.at_most);
}
select-Selected ids id true s =
    elim (Bool-cases (includes id ids || leb max_assignments_per_run (length ids))) [
      | inl full ↦ rw full s
      | inr room ↦ rw room (record {
        once = append-Once id ids (ground arith) s.once;
        at_most = ground (arith, length-append ids (id ∷ []));
      })
    ]

-- Selecting and deselecting in any order, from a selection without repetition of at most 8, leads to
-- one without repetition of at most 8.
pub select_all-Selected :
    (choices : List (ℕ × Bool)) (ids : List ℕ) → Selected ids → Selected (select_all choices ids)
unfolding select_all
select_all-Selected [] ids s = s
select_all-Selected ((id, selected) ∷ rest) ids s =
    select_all-Selected rest (select_run_assignment ids id selected)
      (select-Selected ids id selected s)
