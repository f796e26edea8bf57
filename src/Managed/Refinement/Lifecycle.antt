-- ===== src/Managed/Refinement/Lifecycle.antt =====
-- `create` only adds new rows, with ids that no other row has; `cancel` moves rows and adds none.
use hack_the_north.Common.{
  ℕ, suc, ◌≡◌, ◌≢◌, ◌⊎◌, ◌∙◌, refl, sym, ap, subst, >>=-eq-ok, All-append, inl, inr, Bool, false,
  List, [], ◌∷◌, ◌++◌, ok, arith, throw_if, All, Text, ◌==◌, any, ◌||◌, text_eq, Bool-cases,
}
use mathlib.Core.List.{append-nil, append_assoc}
use hack_the_north.Managed.Rows.{Attempt, Store, Persona, constraint_violation}
use hack_the_north.Managed.Queries.{Redaction, RunView, get}
use hack_the_north.Managed.Lifecycle.{
  Assignment, ManagedCreate, Fresh, new_attempt, insert_attempt, insert_attempts, snapshots, create,
  create_new, cancel, cancel_attempts,
}
use hack_the_north.Managed.Tables.{Distinct}
use hack_the_north.Managed.Steps.{RowStep}
use hack_the_north.Managed.Transitions.{
  here, next, IsNew, TableStep, TableStep-refl, KeepsRows, KeepsRows-refl,
}

new_attempt-IsNew :
    (id run_id : ℕ) (token : Text) (persona : Persona) (a : Assignment)
    → IsNew (new_attempt id run_id token persona a)
unfolding new_attempt
new_attempt-IsNew id run_id token persona a = ground arith

module _ (rd : Redaction) (now : ℕ) where
  -- Rows that are added at the end.
  append-TableStep : (rows bs : List Attempt) → All IsNew bs → TableStep rd now rows (rows ++ bs)
  append-TableStep [] bs n = n
  append-TableStep (a ∷ rest) bs n = (here, append-TableStep rest bs n)

-- What a table becomes when new rows with unused ids are added to it.
record Extends (rows more : List Attempt) : Type 0 where
  added : List Attempt
  appended : more ≡ rows ++ added
  new : All IsNew added
  distinct : Distinct rows → Distinct more

append_unused :
    (a : Attempt) (rows : List Attempt)
    → any (λ b. b.id == a.id || text_eq b.correlation_token a.correlation_token) rows ≡ false
    → Distinct rows
    → Distinct (rows ++ (a ∷ []))
append_unused a [] h d = (tt, tt)
append_unused a (x ∷ rest) h (n, d) =
    let other : a.id ≢ x.id = ground arith in
    (
      All-append (λ b. b.id ≢ x.id) rest (a ∷ []) n (other, tt),
      append_unused a rest (ground arith) d,
    )

insert_inversion :
    (a : Attempt) (rows : List Attempt) {more : List Attempt}
    → insert_attempt a rows ≡ ok more
    → (any (λ b. b.id == a.id || text_eq b.correlation_token a.correlation_token) rows ≡ false)
      × (more ≡ rows ++ (a ∷ []))
unfolding insert_attempt
insert_inversion a rows e = ground arith

insert_attempts-Extends :
    (fresh : Fresh) (index : ℕ) (chosen : List (Persona × Assignment)) (rows : List Attempt)
    {more : List Attempt}
    → insert_attempts fresh index chosen rows ≡ ok more
    → Extends rows more
unfolding insert_attempts
insert_attempts-Extends fresh index [] rows {more} e =
    let same : more ≡ rows = ground arith in
    record {
      added = [];
      appended = rw same (sym (append-nil rows));
      new = tt;
      distinct = λ d. rw same d;
    }
insert_attempts-Extends fresh index ((p, a) ∷ rest) rows {more} e =
    let row : Attempt = new_attempt (fresh.attempt index) fresh.run (fresh.token index) p a in
    let (middle, inserted, later) = >>=-eq-ok (insert_attempt row rows) _ e in
    let (unused, extended) = insert_inversion row rows inserted in
    let x = insert_attempts-Extends fresh (suc index) rest middle later in
    record {
      added = row ∷ x.added;
      appended =
          x.appended
          ∙ ap (λ (m : List Attempt). m ++ x.added) extended
          ∙ append_assoc rows (row ∷ []) x.added;
      new = (new_attempt-IsNew _ _ _ p a, x.new);
      distinct = λ d. x.distinct (subst Distinct (sym extended) (append_unused row rows unused d));
    }

module _ (rd : Redaction) (digest : ManagedCreate → ℕ) (now : ℕ) where
  create_new_inversion :
      (s : Store) (fresh : Fresh) (owner : ℕ) (key : Text) (q : ManagedCreate)
      (personas : List Persona) {v : RunView} {added : Bool} {t : Store}
      → create_new rd digest now s fresh owner key q personas ≡ ok ((v, added), t)
      → (chosen : List (Persona × Assignment)) × (rows : List Attempt) × (insert_attempts fresh 0
            chosen s.attempts
          ≡ ok rows)
        × (t.attempts ≡ rows)
  unfolding create_new
  create_new_inversion s fresh owner key q personas e =
      let (chosen, selected, e₁) = >>=-eq-ok (snapshots personas q.assignments) _ e in
      let (unique, free, e₂) =
        >>=-eq-ok (throw_if (any (λ r. r.id == fresh.run) s.runs) constraint_violation) _ e₁ in
      let (rows, inserted, e₃) = >>=-eq-ok (insert_attempts fresh 0 chosen s.attempts) _ e₂ in
      let (view, shown, e₄) = >>=-eq-ok (get rd _ owner fresh.run) _ e₃ in
      (chosen, rows, inserted, ground arith)

  create_inversion :
      (s : Store) (fresh : Fresh) (owner : ℕ) (key : Text) (q : ManagedCreate)
      (personas : List Persona) {v : RunView} {added : Bool} {t : Store}
      → create rd digest now s fresh owner key q personas ≡ ok ((v, added), t)
      → (t ≡ s) ⊎ (create_new rd digest now s fresh owner key q personas ≡ ok ((v, added), t))
  unfolding create
  create_inversion s fresh owner key q personas e = ground arith

  pub create-TableStep :
      (s : Store) (fresh : Fresh) (owner : ℕ) (key : Text) (q : ManagedCreate)
      (personas : List Persona) {v : RunView} {added : Bool} {t : Store}
      → create rd digest now s fresh owner key q personas ≡ ok ((v, added), t)
      → TableStep rd now s.attempts t.attempts × (Distinct s.attempts → Distinct t.attempts)
  create-TableStep s fresh owner key q personas e =
      elim (create_inversion s fresh owner key q personas e) [
        | inl same ↦ rw same (TableStep-refl rd now s.attempts, λ d. d)
        | inr made ↦
            let (chosen, rows, inserted, same) =
              create_new_inversion s fresh owner key q personas made in
            let x = insert_attempts-Extends fresh 0 chosen s.attempts inserted in
            rw same (rw x.appended (append-TableStep rd now s.attempts x.added x.new), x.distinct)
      ]

module _ (rd : Redaction) (now : ℕ) where
  cancel_attempts-KeepsRows :
      (id : ℕ) (rows : List Attempt) → KeepsRows rd now rows (cancel_attempts now id rows)
  unfolding cancel_attempts
  cancel_attempts-KeepsRows id [] = tt
  cancel_attempts-KeepsRows id (a ∷ rest) = elim (Bool-cases (a.run_id == id)) [
    | inl of_run ↦ rw of_run (next here (RowStep.cancel refl), cancel_attempts-KeepsRows id rest)
    | inr other ↦ rw other (here, cancel_attempts-KeepsRows id rest)
  ]

  cancel_inversion :
      (s : Store) (owner id : ℕ) {v : RunView} {t : Store}
      → cancel rd now s owner id ≡ ok (v, t)
      → (t.attempts ≡ s.attempts) ⊎ (t.attempts ≡ cancel_attempts now id s.attempts)
  unfolding cancel
  cancel_inversion s owner id e = ground arith

  pub cancel-KeepsRows :
      (s : Store) (owner id : ℕ) {v : RunView} {t : Store}
      → cancel rd now s owner id ≡ ok (v, t)
      → KeepsRows rd now s.attempts t.attempts
  cancel-KeepsRows s owner id e = elim (cancel_inversion s owner id e) [
    | inl same ↦ rw same (KeepsRows-refl rd now s.attempts)
    | inr moved ↦ rw moved (cancel_attempts-KeepsRows id s.attempts)
  ]
