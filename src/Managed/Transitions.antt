-- ===== src/Managed/Transitions.antt =====
-- Sequences of row transitions within one transaction, and the table that they make.
use hack_the_north.Common.{
  ℕ, ◌≡◌, ◌≢◌, ◌∙◌, refl, sym, arith, false, some, subst, inl, inr, Bool-cases, List, [], ◌∷◌, All,
  ◌==◌, ==_iff, find?_sound,
}
use hack_the_north.Managed.Rows.{AttemptState, Attempt}
use hack_the_north.Managed.Queries.{Redaction, update}
use hack_the_north.Managed.Tables.{Distinct, by_id, Changes, Changes-refl, Changes-update}
use hack_the_north.Managed.Steps.{RowStep, RowStep-id}
use hack_the_north.Managed.Sound.{Sound, RowStep-Sound}
use hack_the_north.Managed.Evolution.{Evolves, Evolves-refl, Evolves-trans, RowStep-Evolves}

-- Any number of transitions of one row, at one time.
pub data RowSteps (rd : Redaction) (now : ℕ) (a : Attempt) : Attempt → Type 0 where
  here : RowSteps rd now a a
  next : {b c : Attempt} → RowSteps rd now a b → RowStep rd now b c → RowSteps rd now a c

-- A row as `create` inserts it.
pub record IsNew (a : Attempt) : Type 0 where
  pub sound : Sound a
  pub is_queued : a.state ≡ AttemptState.queued
  pub unleased : a.lease_generation ≡ 0
  pub unallocated : a.dispatch_started ≡ false

module _ (rd : Redaction) (now : ℕ) where
  -- The table after a transaction.
  abbrev pub TableStep : List Attempt → List Attempt → Type 0
  TableStep = Changes (RowSteps rd now) IsNew

  pub TableStep-refl : (rows : List Attempt) → TableStep rows rows
  TableStep-refl rows = Changes-refl (RowSteps rd now) IsNew (λ a. here) rows

  -- A step that adds no row.
  abbrev pub KeepsRows : List Attempt → List Attempt → Type 0
  KeepsRows = Changes (RowSteps rd now) (λ _. ⊥)

  -- An UPDATE by id is one transition of the row with that id.
  pub update-KeepsRows :
      (f : Attempt → Attempt) (id : ℕ) (rows : List Attempt) {a : Attempt}
      → Distinct rows
      → by_id id rows ≡ some a
      → RowStep rd now a (f a)
      → KeepsRows rows (update f id rows)
  update-KeepsRows f id rows d e r =
      Changes-update (RowSteps rd now) (λ _. ⊥) (λ a. here) f (λ a. a.id == id) id rows d e
        ((==_iff _ _).0 (find?_sound _ rows e)) (next here r)

  RowSteps-trans :
      (a b c : Attempt) → RowSteps rd now a b → RowSteps rd now b c → RowSteps rd now a c
  RowSteps-trans a b c r here = r
  RowSteps-trans a b c r (next {b = m} q t) = next (RowSteps-trans a b m r q) t

  pub KeepsRows-refl : (rows : List Attempt) → KeepsRows rows rows
  KeepsRows-refl rows = Changes-refl (RowSteps rd now) (λ _. ⊥) (λ a. here) rows

  pub KeepsRows-trans :
      (xs ys zs : List Attempt) → KeepsRows xs ys → KeepsRows ys zs → KeepsRows xs zs
  KeepsRows-trans [] [] zs k t = t
  KeepsRows-trans [] (y ∷ ys) zs k t = absurd k.0
  KeepsRows-trans (x ∷ xs) [] zs k t = absurd k
  KeepsRows-trans (x ∷ xs) (y ∷ ys) [] k t = absurd t
  KeepsRows-trans (x ∷ xs) (y ∷ ys) (z ∷ zs) (r, k) (q, t) =
      (RowSteps-trans x y z r q, KeepsRows-trans xs ys zs k t)

  pub KeepsRows-TableStep : (xs ys : List Attempt) → KeepsRows xs ys → TableStep xs ys
  KeepsRows-TableStep [] [] k = tt
  KeepsRows-TableStep [] (y ∷ ys) k = absurd k.0
  KeepsRows-TableStep (x ∷ xs) [] k = absurd k
  KeepsRows-TableStep (x ∷ xs) (y ∷ ys) (r, k) = (r, KeepsRows-TableStep xs ys k)

  -- Transitions keep ids, so a step that adds no row keeps ids distinct.
  RowSteps-id : (a b : Attempt) → RowSteps rd now a b → b.id ≡ a.id
  RowSteps-id a b here = refl
  RowSteps-id a c (next {b} r t) = RowStep-id rd now b c t ∙ RowSteps-id a b r

  KeepsRows-ne :
      (id : ℕ) (xs ys : List Attempt)
      → KeepsRows xs ys
      → All (λ b. b.id ≢ id) xs
      → All (λ b. b.id ≢ id) ys
  KeepsRows-ne id [] [] k n = tt
  KeepsRows-ne id [] (y ∷ ys) k n = absurd k.0
  KeepsRows-ne id (x ∷ xs) [] k n = absurd k
  KeepsRows-ne id (x ∷ xs) (y ∷ ys) (r, k) (n, ns) =
      (λ e. n (sym (RowSteps-id x y r) ∙ e), KeepsRows-ne id xs ys k ns)

  pub KeepsRows-Distinct : (xs ys : List Attempt) → KeepsRows xs ys → Distinct xs → Distinct ys
  KeepsRows-Distinct [] [] k d = tt
  KeepsRows-Distinct [] (y ∷ ys) k d = absurd k.0
  KeepsRows-Distinct (x ∷ xs) [] k d = absurd k
  KeepsRows-Distinct (x ∷ xs) (y ∷ ys) (r, k) (n, d) =
      (rw (RowSteps-id x y r) (KeepsRows-ne x.id xs ys k n), KeepsRows-Distinct xs ys k d)

  pub RowSteps-Sound : (a b : Attempt) → RowSteps rd now a b → Sound a → Sound b
  RowSteps-Sound a b here s = s
  RowSteps-Sound a c (next {b} r t) s = RowStep-Sound rd now b c t (RowSteps-Sound a b r s)

  pub RowSteps-Evolves : (a b : Attempt) → RowSteps rd now a b → Sound a → Evolves a b
  RowSteps-Evolves a b here s = Evolves-refl a
  RowSteps-Evolves a c (next {b} r t) s =
      Evolves-trans a b c (RowSteps-Evolves a b r s)
        (RowStep-Evolves rd now b c t (RowSteps-Sound a b r s))

  pub TableStep-Sound :
      (rows rows' : List Attempt) → TableStep rows rows' → All Sound rows → All Sound rows'
  TableStep-Sound [] [] t h = tt
  TableStep-Sound [] (b ∷ bs) (n, t) h = (n.sound, TableStep-Sound [] bs t tt)
  TableStep-Sound (a ∷ rest) [] t h = absurd t
  TableStep-Sound (a ∷ rest) (b ∷ bs) (r, t) (s, h) =
      (RowSteps-Sound a b r s, TableStep-Sound rest bs t h)

  pub TableStep-Evolves :
      (rows rows' : List Attempt)
      → TableStep rows rows'
      → All Sound rows
      → Changes Evolves (λ _. Unit {0}) rows rows'
  TableStep-Evolves [] [] t h = tt
  TableStep-Evolves [] (b ∷ bs) (n, t) h = (tt, TableStep-Evolves [] bs t tt)
  TableStep-Evolves (a ∷ rest) [] t h = absurd t
  TableStep-Evolves (a ∷ rest) (b ∷ bs) (r, t) (s, h) =
      (RowSteps-Evolves a b r s, TableStep-Evolves rest bs t h)

-- A table that evolves: rows may be added, and each row keeps what `Evolves` says.
abbrev pub Grows : List Attempt → List Attempt → Type 0
Grows = Changes Evolves (λ _. Unit {0})

pub Grows-refl : (xs : List Attempt) → Grows xs xs
Grows-refl xs = Changes-refl Evolves (λ _. Unit {0}) Evolves-refl xs

Grows-nil : (xs : List Attempt) → Grows [] xs
Grows-nil [] = tt
Grows-nil (x ∷ xs) = (tt, Grows-nil xs)

pub Grows-trans : (xs ys zs : List Attempt) → Grows xs ys → Grows ys zs → Grows xs zs
Grows-trans [] ys zs g h = Grows-nil zs
Grows-trans (x ∷ xs) [] zs g h = absurd g
Grows-trans (x ∷ xs) (y ∷ ys) [] g h = absurd h
Grows-trans (x ∷ xs) (y ∷ ys) (z ∷ zs) (e, g) (f, h) =
    (Evolves-trans x y z e f, Grows-trans xs ys zs g h)

-- A row is found again after its table has grown.
pub Grows-by_id :
    (id : ℕ) (xs ys : List Attempt) {a : Attempt}
    → Grows xs ys
    → by_id id xs ≡ some a
    → (b : Attempt) × (by_id id ys ≡ some b) × Evolves a b
Grows-by_id id [] ys g e = cc
Grows-by_id id (x ∷ xs) [] g e = absurd g
Grows-by_id id (x ∷ xs) (y ∷ ys) {a} (ev, g) e = elim (Bool-cases (x.id == id)) [
  | inl hit ↦
      let here : x ≡ a = ground arith in
      (y, ground (arith, ev.same_id), subst (λ r. Evolves r y) here ev)
  | inr miss ↦
      let (b, found, later) = Grows-by_id id xs ys {a = a} g (ground arith) in
      (b, ground (arith, ev.same_id), later)
]
