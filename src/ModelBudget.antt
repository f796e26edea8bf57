-- ===== src/ModelBudget.antt =====
-- src/server/execution/budget.ts: the budget of model calls of one attempt.
pub mod Laws
mod Witnesses
use hack_the_north.Common.{
  ℕ, ◌+◌, ◌-◌, Bool, true, false, List, [], ◌∷◌, Result, ok, err, ◌>>=◌, ◌>>◌, throw_if, ◌==◌,
}

pub data ModelOperation : Type 0 where
  decision evaluation retry : ModelOperation

pub data BudgetError : Type 0 where
  aborted closed exhausted : BudgetError

-- `counts`, `closed` and `maximum`.
pub record Budget : Type 0 where
  pub maximum : ℕ
  pub decisions : ℕ
  pub evaluations : ℕ
  pub retries : ℕ
  pub total : ℕ
  pub is_closed : Bool

unfoldable pub new_budget : ℕ → Budget
new_budget maximum = record {
  maximum = maximum;
  decisions = 0;
  evaluations = 0;
  retries = 0;
  total = 0;
  is_closed = false;
}

-- `Math.max(0, this.maximum - this.total)`.
unfoldable pub remaining : Budget → ℕ
remaining b = b.maximum - b.total

unfoldable pub close : Budget → Budget
close b = record b { is_closed = true }

-- The Booleans say whether the budget's own signal and the call's are aborted.
unfoldable pub assert_active : Bool → Bool → Budget → Result BudgetError (Unit {0})
assert_active own call b = do
  throw_if own aborted
  throw_if call aborted
  throw_if b.is_closed closed

unfoldable pub counted : ModelOperation → Budget → Budget
counted decision b = record b { decisions = b.decisions + 1; total = b.total + 1 }
counted evaluation b = record b { evaluations = b.evaluations + 1; total = b.total + 1 }
counted retry b = record b { retries = b.retries + 1; total = b.total + 1 }

unfoldable pub charge : ModelOperation → Bool → Bool → Budget → Result BudgetError Budget
unfolding assert_active remaining counted
charge op own call b = do
  assert_active own call b
  throw_if (remaining b == 0) exhausted
  ok (counted op b)
