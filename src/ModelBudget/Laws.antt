-- ===== src/ModelBudget/Laws.antt =====
-- What the budget of model calls counts (src/server/execution/budget.ts).
use hack_the_north.Common.{
  ℕ, ◌+◌, ◌≡◌, ◌≤◌, refl, Bool, true, false, List, [], ◌∷◌, Result, Result-cases, ok, err, arith,
  inl, inr,
}
use hack_the_north.ModelBudget.{
  ModelOperation, BudgetError, Budget, new_budget, remaining, close, assert_active, counted, charge,
}

pub record Balanced (maximum : ℕ) (b : Budget) : Type 0 where
  pub same_maximum : b.maximum ≡ maximum
  pub counts : b.total ≡ b.decisions + b.evaluations + b.retries
  pub within : b.total ≤ maximum

charge-Balanced :
    (maximum : ℕ) (op : ModelOperation) (own call : Bool) (b : Budget) {c : Budget}
    → Balanced maximum b
    → charge op own call b ≡ ok c
    → Balanced maximum c
unfolding charge assert_active remaining counted
charge-Balanced maximum op own call b v e = ground (arith, v.same_maximum, v.counts, v.within)

pub data BudgetOp : Type 0 where
  charges : ModelOperation → (own call : Bool) → BudgetOp
  closes : BudgetOp

abbrev charged : Budget → Result BudgetError Budget → Budget
charged b (ok c) = c
charged b (err e) = b

abbrev used : Budget → BudgetOp → Budget
used b (charges op own call) = charged b (charge op own call b)
used b closes = close b

unfoldable pub spend : List BudgetOp → Budget → Budget
spend [] b = b
spend (op ∷ rest) b = spend rest (used b op)

used-Balanced :
    (maximum : ℕ) (op : BudgetOp) (b : Budget) → Balanced maximum b → Balanced maximum (used b op)
unfolding close
used-Balanced maximum closes b v = record {
  same_maximum = v.same_maximum;
  counts = v.counts;
  within = v.within;
}
used-Balanced maximum (charges op own call) b v = elim (Result-cases (charge op own call b)) [
  | inl (c, e) ↦ rw e (charge-Balanced maximum op own call b v e)
  | inr (x, e) ↦ rw e v
]

spend-Balanced_from :
    (maximum : ℕ) (ops : List BudgetOp) (b : Budget)
    → Balanced maximum b
    → Balanced maximum (spend ops b)
unfolding spend
spend-Balanced_from maximum [] b v = v
spend-Balanced_from maximum (op ∷ rest) b v =
    spend-Balanced_from maximum rest (used b op) (used-Balanced maximum op b v)

-- After any sequence of charges, refused ones included, and closings of a new budget, the total is
-- the sum of the decisions, evaluations and retries, and at most the maximum.
pub spend-Balanced :
    (maximum : ℕ) (ops : List BudgetOp) → Balanced maximum (spend ops (new_budget maximum))
unfolding new_budget
spend-Balanced maximum ops =
    spend-Balanced_from maximum ops (new_budget maximum)
      (record { same_maximum = refl; counts = refl; within = omega arith })

used_closed : (op : BudgetOp) (b : Budget) → b.is_closed ≡ true → used b op ≡ b
unfolding close charge assert_active
used_closed closes b shut = ground arith
used_closed (charges op true call) b shut = refl
used_closed (charges op false true) b shut = refl
used_closed (charges op false false) b shut = ground arith

-- A closed budget stays closed and its counts as they are, whatever is done with it.
pub spend-closed : (ops : List BudgetOp) (b : Budget) → b.is_closed ≡ true → spend ops b ≡ b
unfolding spend
spend-closed [] b shut = refl
spend-closed (op ∷ rest) b shut = rw (used_closed op b shut) (spend-closed rest b shut)
