-- ===== src/ModelBudget/Witnesses.antt =====
-- A budget of two calls, charged three times, closed and charged again.
use hack_the_north.Common.{true, false, [], ◌∷◌}
use hack_the_north.ModelBudget.{ModelOperation, Budget, new_budget}
use hack_the_north.ModelBudget.Laws.{Balanced, BudgetOp, spend, spend-Balanced}

spend-Balanced_example : Balanced 2 (
    spend
      (BudgetOp.charges ModelOperation.decision false false
        ∷ BudgetOp.charges ModelOperation.retry false false
        ∷ BudgetOp.charges ModelOperation.evaluation false false
        ∷ BudgetOp.closes
        ∷ [])
      (new_budget 2))
spend-Balanced_example = spend-Balanced 2 (
    BudgetOp.charges ModelOperation.decision false false
    ∷ BudgetOp.charges ModelOperation.retry false false
    ∷ BudgetOp.charges ModelOperation.evaluation false false
    ∷ BudgetOp.closes
    ∷ [])

abbrev shut_budget : Budget
shut_budget = record {
  maximum = 2;
  decisions = 1;
  evaluations = 0;
  retries = 0;
  total = 1;
  is_closed = true;
}
