-- ===== src/Assignments/Witnesses.antt =====
-- One assignment selected twice, and another deselected.
use hack_the_north.Common.{refl, true, false, [], ◌∷◌, arith}
use hack_the_north.Assignments.Selection.{Selected, select_all, select_all-Selected}

select_all-Selected_example :
    Selected (select_all ((4, true) ∷ (4, true) ∷ (2, false) ∷ []) (2 ∷ []))
select_all-Selected_example =
    select_all-Selected ((4, true) ∷ (4, true) ∷ (2, false) ∷ []) (2 ∷ [])
      (record { once = (refl, tt); at_most = omega arith })
