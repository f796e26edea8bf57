-- ===== src/Managed/Tables.antt =====
-- The table of attempts as a relation between its states: the rows that an UPDATE by id changes.
use hack_the_north.Common.{
  ℕ, ◌≡◌, ◌≢◌, ◌∙◌, refl, sym, ap, subst, inl, inr, Bool, true, false, Option, some, List, [], ◌∷◌,
  arith, ◌==◌, ==_iff, if◌then◌else◌, Bool-cases, All, find?, find?-All,
}
use hack_the_north.Managed.Rows.{Attempt}
use hack_the_north.Managed.Queries.{update}

-- No two attempts have one id (`id` is the primary key).
abbrev pub Distinct : List Attempt → Type 0
Distinct [] = Unit
Distinct (a ∷ rest) = All (λ b. b.id ≢ a.id) rest × Distinct rest

-- The row with this id.
abbrev pub by_id : ℕ → List Attempt → Option Attempt
by_id id rows = find? (λ a. a.id == id) rows

pub update_absent :
    (f : Attempt → Attempt) (id : ℕ) (rows : List Attempt)
    → All (λ b. b.id ≢ id) rows
    → update f id rows ≡ rows
unfolding update
update_absent f id [] h = refl
update_absent f id (a ∷ rest) (n, h) = ground (arith, update_absent f id rest h)

-- Updates that keep ids keep them distinct, and compose.
pub update-update :
    (f g : Attempt → Attempt) (id : ℕ) (rows : List Attempt)
    → ((x : Attempt) → (g x).id ≡ x.id)
    → update f id (update g id rows) ≡ update (λ x. f (g x)) id rows
unfolding update
update-update f g id [] k = refl
update-update f g id (x ∷ rest) k = ground (arith, k x, update-update f g id rest k)

update-Distinct_ne :
    (f : Attempt → Attempt) (id other : ℕ) (rows : List Attempt)
    → ((x : Attempt) → (f x).id ≡ x.id)
    → All (λ b. b.id ≢ other) rows
    → All (λ b. b.id ≢ other) (update f id rows)
unfolding update
update-Distinct_ne f id other [] k h = tt
update-Distinct_ne f id other (x ∷ rest) k h =
    ground (arith, k x, update-Distinct_ne f id other rest k)

pub update-Distinct :
    (f : Attempt → Attempt) (id : ℕ) (rows : List Attempt)
    → ((x : Attempt) → (f x).id ≡ x.id)
    → Distinct rows
    → Distinct (update f id rows)
unfolding update
update-Distinct f id [] k d = tt
update-Distinct f id (x ∷ rest) k (n, d) =
    let kept : (if x.id == id then f x else x).id ≡ x.id = ground (arith, k x) in
    (rw kept (update-Distinct_ne f id x.id rest k n), update-Distinct f id rest k d)

pub by_id-update :
    (f : Attempt → Attempt) (id : ℕ) (rows : List Attempt) {a : Attempt}
    → by_id id rows ≡ some a
    → (f a).id ≡ id
    → by_id id (update f id rows) ≡ some (f a)
unfolding update
by_id-update f id [] e k = cc
by_id-update f id (x ∷ rest) {a} e k = elim (Bool-cases (x.id == id)) [
  | inl hit ↦ let here : x ≡ a = ground arith in ground arith
  | inr miss ↦ ground (arith, by_id-update f id rest {a = a})
]

-- Some relation holds between each row and the row that takes its place; what is added is new.
module _ (R : Attempt → Attempt → Type 0) (New : Attempt → Type 0) where
  abbrev pub Changes : List Attempt → List Attempt → Type 0
  Changes [] bs = All New bs
  Changes (a ∷ rest) [] = ⊥
  Changes (a ∷ rest) (b ∷ bs) = R a b × Changes rest bs

  module _ (same : (a : Attempt) → R a a) where
    pub Changes-refl : (rows : List Attempt) → Changes rows rows
    Changes-refl [] = tt
    Changes-refl (a ∷ rest) = (same a, Changes-refl rest)

    -- An UPDATE of the row that a query found changes that row only, as ids are distinct.
    pub Changes-update :
        (f : Attempt → Attempt) (p : Attempt → Bool) (id : ℕ) (rows : List Attempt) {a : Attempt}
        → Distinct rows
        → find? p rows ≡ some a
        → a.id ≡ id
        → R a (f a)
        → Changes rows (update f id rows)
    unfolding update
    Changes-update f p id [] d e i r = tt
    Changes-update f p id (x ∷ rest) {a} (n, d) e i r = elim (Bool-cases (p x)) [
      | inl hit ↦
          let here : x ≡ a = ground arith in
          let hitid : (x.id == id) ≡ true = (==_iff _ _).1 (ap (λ (r : Attempt). r.id) here ∙ i) in
          rw hitid (
            subst (λ y. R y (f y)) (sym here) r,
            rw (update_absent f id rest (rw (← i, ← here) n)) (Changes-refl rest),
          )
      | inr miss ↦
          let found : find? p rest ≡ some a = rw miss at e in
          let other : a.id ≢ x.id = find?-All (λ b. b.id ≢ x.id) p rest n found in
          let elsewhere : (x.id == id) ≡ false = ground arith in
          rw elsewhere (same x, Changes-update f p id rest d found i r)
    ]
