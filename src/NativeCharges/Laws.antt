-- ===== src/NativeCharges/Laws.antt =====
-- What the charges of the native queue (src/server/worker/repository.ts) never do.
use hack_the_north.Common.{
  ℕ, ◌-◌, ◌*◌, ◌≡◌, ◌≤◌, max, refl, Bool, true, Option, List, [], ◌∷◌, arith, ◌==◌, ==_refl,
  if◌then◌else◌, or_else, Bool-cases, inl, inr,
}
use hack_the_north.NativeCharges.{
  Observation, Report, Reservation, first_observation, merged_observation, observe_charge,
  observe_all, charged_total, consumed_now, settle,
}

merged_again :
    (o x : Observation) → merged_observation (merged_observation o x) x ≡ merged_observation o x
unfolding merged_observation
merged_again o x = grind arith

first_again :
    (seconds : ℕ) (r : Report)
    → merged_observation (first_observation seconds r) (first_observation seconds r)
      ≡ first_observation seconds r
unfolding merged_observation first_observation
first_again seconds r = grind arith

same_session :
    (o x : Observation) (n : ℕ)
    → o.session_id == n ≡ true
    → (merged_observation o x).session_id == n ≡ true
unfolding merged_observation
same_session o x n e = e

-- To observe one report again changes nothing.
pub observe_charge-idempotent :
    (seconds : ℕ) (r : Report) (os : List Observation)
    → observe_charge seconds r (observe_charge seconds r os) ≡ observe_charge seconds r os
unfolding observe_charge
observe_charge-idempotent seconds r [] = rw (==_refl r.session_id, first_again seconds r) refl
observe_charge-idempotent seconds r (o ∷ rest) = elim (Bool-cases (o.session_id == r.session_id)) [
  | inl mine ↦
      let again : (merged_observation o (first_observation seconds r)).session_id == r.session_id
          ≡ true =
        same_session o (first_observation seconds r) r.session_id mine in
      rw mine (rw (again, merged_again o (first_observation seconds r)) refl)
  | inr other ↦ rw other (rw (other, observe_charge-idempotent seconds r rest) refl)
]

observe_charge-grows :
    (seconds : ℕ) (r : Report) (os : List Observation)
    → charged_total os ≤ charged_total (observe_charge seconds r os)
unfolding observe_charge charged_total merged_observation
observe_charge-grows seconds r [] = omega arith
observe_charge-grows seconds r (o ∷ rest) = ground (arith, observe_charge-grows seconds r rest)

observe_all-grows :
    (seconds : ℕ) (rs : List Report) (os : List Observation)
    → charged_total os ≤ charged_total (observe_all seconds rs os)
unfolding observe_all
observe_all-grows seconds [] os = omega arith
observe_all-grows seconds (r ∷ rest) os = omega (
  arith,
  observe_charge-grows seconds r os,
  observe_all-grows seconds rest (observe_charge seconds r os),
)

-- Whatever a recovery reports, what is settled for the job covers all that was charged before the
-- reports and after them, and what the job was already charged.
pub recover_charges :
    (seconds : ℕ) (rs : List Report) (os : List Observation) (actual : Option ℕ) (confirmed : Bool)
    (u : Reservation)
    → let total = charged_total (observe_all seconds rs os) in
      let v = settle seconds actual confirmed total u in
      (charged_total os ≤ v.consumed_seconds * 1000)
      × (total ≤ v.consumed_seconds * 1000)
      × (u.consumed_seconds ≤ v.consumed_seconds)
unfolding settle consumed_now
recover_charges seconds rs os actual confirmed u =
    (omega (arith, observe_all-grows seconds rs os), omega arith, omega arith)

-- What the budgets count of a settled job is its charge exactly if the end of its browser is
-- confirmed, and otherwise no less than all that was reserved; a charge covers the reported time.
pub settle_commits :
    (seconds : ℕ) (actual : Option ℕ) (confirmed : Bool) (observed : ℕ) (u : Reservation)
    → let v = settle seconds actual confirmed observed u in
      (max (v.reserved_seconds - v.released_seconds) v.consumed_seconds
        ≡ (if confirmed then v.consumed_seconds else max u.reserved_seconds v.consumed_seconds))
      × (v.released_seconds ≤ v.reserved_seconds)
      × (or_else actual (if confirmed then seconds * 1000 else 0) ≤ v.consumed_seconds * 1000)
unfolding settle consumed_now
settle_commits seconds actual confirmed observed u = (ground arith, ground arith, omega arith)
