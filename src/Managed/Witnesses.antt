-- ===== src/Managed/Witnesses.antt =====
-- The theorems on the managed queue at concrete stores.
use hack_the_north.Common.{
  ℕ, List, ◌≡◌, ◌≢◌, ◌≤◌, ◌+◌, ◌-◌, ◌*◌, ◌^◌, refl, min, max, true, false, none, some, [], ◌∷◌, ok,
  err, arith, codes, All, find?, any, ◌==◌, ◌&&◌, Bool, inl,
}
use hack_the_north.Capacity.{
  policy_ok, new_policy_ok, worker_concurrency_limits, occupancy, owner_occupancy, accounting,
  owner_accounting, over_budget,
}
use hack_the_north.Managed.Rows.{AttemptState, Status, Cleanup, Attempt, Store, Outcome, lease_lost}
use hack_the_north.Managed.Queries.{
  row, update, update_attempt, touch_runs, touch, find_run, usage_of, attempt_usages, usages,
  RunView, get, view, run_status, public_attempt,
}
use hack_the_north.Managed.Claims.{
  same_policy, assert_policy, is_expired, leased, claim_of, acquire, reserved, admission,
  claim_queued, queued_row, queued_rows, claim_from, claim, holds, assert_lease, heartbeat,
}
use hack_the_north.Managed.Journal.{trim, trim_start, is_space, reference_ok, dispatched, dispatch}
use hack_the_north.Managed.Lifecycle.{
  Fresh, create_ok, create_new, insert_attempts, insert_attempt, new_attempt, snapshots, existing,
  create, cancelled, cancel_attempts, cancel_runs, cancel, finished, finish,
}
use hack_the_north.Managed.Tables.{by_id}
use hack_the_north.Managed.Evolution.{Evolves}
use hack_the_north.Managed.Transitions.{TableStep}
use hack_the_north.Managed.Histories.{
  Op, Valid, perform, step, run, perform-TableStep, run-Valid, run-Evolves,
}
use hack_the_north.Managed.Fencing.{stale_claim, one_worker, never_dispatched, dispatched_once}
use hack_the_north.Managed.Outcomes.{finish_closed, finish_unconfirmed}
use hack_the_north.Managed.Repeating.{create_repeated}
use hack_the_north.Managed.Requests.{Stopping, cancel-Stopping, view_private}
use hack_the_north.Managed.Tables.{Distinct}
use hack_the_north.Managed.Budget.Ceilings.{Within}
use hack_the_north.Managed.Budget.Claiming.{claim-Within}
use hack_the_north.Managed.Examples.{
  redaction, platform, policy, persona, request, the_run, waiting_row, held_row, sent_row, store_of,
  touched, the_claim, closing, waiting-Valid, held-Valid, sent-Valid,
}

claimed : claim 2000 (store_of waiting_row) 7 policy ≡ ok (some the_claim, touched held_row)
unfolding claim claim_from claim_queued queued_rows queued_row admission acquire claim_of leased
    reserved same_policy assert_policy is_expired policy_ok new_policy_ok worker_concurrency_limits
    occupancy owner_occupancy accounting owner_accounting over_budget row update update_attempt
    touch_runs touch find_run usage_of attempt_usages usages
claimed = refl

dispatches :
    dispatch 2000 (store_of held_row) the_claim (codes "agent") (codes "task")
    ≡ ok (touched sent_row)
unfolding dispatch assert_lease holds reference_ok trim trim_start is_space dispatched row update
    update_attempt touch_runs touch find_run
dispatches = refl

claim-Within_example : Within policy 9 (usages (touched held_row))
claim-Within_example =
    claim-Within 2000 7 policy redaction (store_of waiting_row) the_claim (touched held_row)
      waiting-Valid claimed refl

dispatched_once_example :
    dispatch 9000
      (run platform (touched sent_row) ((3000, Op.cancels 9 1) ∷ []))
      the_claim
      (codes "other")
      (codes "task")
    ≢ ok (touched sent_row)
dispatched_once_example =
    dispatched_once platform (store_of held_row) (touched sent_row) ((3000, Op.cancels 9 1) ∷ [])
      2000 9000 the_claim the_claim (codes "agent") (codes "task") (codes "other") (codes "task")
      (touched sent_row) held-Valid dispatches refl

never_dispatched_example :
    dispatch 9000
      (run platform (store_of sent_row) ((3000, Op.cancels 9 1) ∷ []))
      the_claim
      (codes "agent")
      (codes "task")
    ≢ ok (touched sent_row)
never_dispatched_example =
    never_dispatched platform (store_of sent_row) ((3000, Op.cancels 9 1) ∷ []) 9000 the_claim
      (codes "agent") (codes "task") sent_row (touched sent_row) sent-Valid refl (inl refl)

stale_claim_example :
    assert_lease 9000
      (run platform (store_of sent_row) ((3000, Op.claims 8 policy) ∷ []))
      (record the_claim { generation = 0 })
      true
    ≡ err lease_lost
stale_claim_example =
    stale_claim platform (store_of sent_row) ((3000, Op.claims 8 policy) ∷ []) 9000
      (record the_claim { generation = 0 }) true sent_row sent-Valid refl (ground arith)

passes : (allow : Bool) → assert_lease 3000 (store_of sent_row) the_claim allow ≡ ok sent_row
unfolding assert_lease holds find_run
passes true = refl
passes false = refl

still_passes :
    assert_lease 40000
      (run platform (store_of sent_row) ((3000, Op.beats the_claim 60000) ∷ []))
      the_claim
      true
    ≡ ok (record sent_row { lease_expires_at = some 63000 })
unfolding assert_lease holds find_run run step perform heartbeat row update update_attempt
still_passes = refl

one_worker_example : the_claim.worker ≡ the_claim.worker
one_worker_example =
    one_worker platform (store_of sent_row) ((3000, Op.beats the_claim 60000) ∷ []) 3000 40000
      the_claim the_claim true true sent-Valid (passes true) still_passes refl refl

perform-TableStep_example :
    TableStep redaction 2000 (held_row ∷ []) (sent_row ∷ []) × Distinct (sent_row ∷ [])
unfolding perform
perform-TableStep_example =
    perform-TableStep platform 2000 (store_of held_row)
      (Op.dispatches the_claim (codes "agent") (codes "task")) held-Valid.distinct dispatches

run-Valid_example : Valid (
    run platform
      (store_of waiting_row)
      ((2000, Op.claims 7 policy) ∷ (3000, Op.finishes the_claim closing) ∷ []))
run-Valid_example =
    run-Valid platform (store_of waiting_row)
      ((2000, Op.claims 7 policy) ∷ (3000, Op.finishes the_claim closing) ∷ []) waiting-Valid

run-Evolves_example :
    (b : Attempt) × (by_id 2
        (run platform (store_of sent_row) ((3000, Op.finishes the_claim closing) ∷ [])).attempts
      ≡ some b)
    × Evolves sent_row b
run-Evolves_example =
    run-Evolves platform (store_of sent_row) ((3000, Op.finishes the_claim closing) ∷ []) 2 sent_row
      sent-Valid refl

abbrev open_outcome : Outcome
open_outcome = record closing { closed = false }

closes :
    finish redaction 3000 (store_of sent_row) the_claim closing
    ≡ ok (
        touch 3000 1
          (update_attempt (store_of sent_row) 2 (finished redaction 3000 sent_row closing)))
unfolding finish assert_lease holds find_run row
closes = refl

leaves_open :
    finish redaction 3000 (store_of sent_row) the_claim open_outcome
    ≡ ok (
        touch 3000 1
          (update_attempt (store_of sent_row) 2 (finished redaction 3000 sent_row open_outcome)))
unfolding finish assert_lease holds find_run row
leaves_open = refl

abbrev after_closing : Store
after_closing =
    touch 3000 1 (update_attempt (store_of sent_row) 2 (finished redaction 3000 sent_row closing))

abbrev after_leaving : Store
after_leaving =
    touch 3000 1
      (update_attempt (store_of sent_row) 2 (finished redaction 3000 sent_row open_outcome))

finish_closed_example :
    (a b : Attempt) × (by_id 2 (sent_row ∷ []) ≡ some a)
    × (by_id 2 after_closing.attempts ≡ some b)
    × (b.state ≡ AttemptState.settled)
    × (b.cleanup ≡ Cleanup.closed)
    × (b.lease_owner ≡ none)
    × (max (b.reserved_seconds - b.released_seconds) b.consumed_seconds ≡ b.consumed_seconds)
    × (a.consumed_seconds ≤ b.consumed_seconds)
    × (90500 ≤ b.consumed_seconds * 1000)
finish_closed_example =
    finish_closed redaction 3000 (store_of sent_row) the_claim closing after_closing sent-Valid
      closes refl

finish_unconfirmed_example :
    (a b : Attempt) × (by_id 2 (sent_row ∷ []) ≡ some a)
    × (by_id 2 after_leaving.attempts ≡ some b)
    × (b.state ≡ AttemptState.quarantined)
    × (b.status ≡ Status.cleanup_required)
    × (b.cleanup ≡ Cleanup.unconfirmed)
    × (b.lease_owner ≡ none)
    × (b.recovery_after ≡ some (3000 + min 60000 (2000 * 2 ^ a.recovery_count)))
    × (max a.reserved_seconds a.consumed_seconds
        ≤ max (b.reserved_seconds - b.released_seconds) b.consumed_seconds)
finish_unconfirmed_example =
    finish_unconfirmed redaction 3000 (store_of sent_row) the_claim open_outcome after_leaving
      sent-Valid leaves_open refl

abbrev view_of : Attempt → RunView
view_of a = record {
  id = 1;
  scope = the_run.scope;
  created_at = 1000;
  updated_at = 1000;
  status = a.status;
  attempts = public_attempt redaction (store_of a) a ∷ [];
}

shows_waiting : get redaction (store_of waiting_row) 9 1 ≡ ok (view_of waiting_row)
unfolding get run_status public_attempt
shows_waiting = refl

acceptable : create_ok request ≡ true
unfolding create_ok
acceptable = refl

abbrev no_runs : Store
no_runs = record (store_of waiting_row) { runs = []; attempts = [] }

abbrev drawn : Fresh
drawn = record { run = 1; attempt = λ n. 2; token = λ n. codes "t" }

creates_run :
    create redaction (λ q. 70) 1000 no_runs drawn 9 (codes "key") request (persona ∷ [])
    ≡ ok ((view_of waiting_row, true), store_of waiting_row)
unfolding create create_ok create_new insert_attempts insert_attempt new_attempt snapshots existing
    get run_status public_attempt
creates_run = refl

-- The run is claimed and cancelled before the request comes again.
abbrev cancelled_later : List (ℕ × Op)
cancelled_later = (2000, Op.claims 7 policy) ∷ (4000, Op.cancels 9 1) ∷ []

create_repeated_example :
    (w : RunView) × (w.id ≡ 1)
    × (create redaction
          (λ q. 70)
          5000
          (run platform (store_of waiting_row) cancelled_later)
          (record { run = 3; attempt = λ n. 4; token = λ n. [] })
          9
          (codes "key")
          request
          (persona ∷ [])
        ≡ ok ((w, false), run platform (store_of waiting_row) cancelled_later))
create_repeated_example =
    create_repeated platform 1000 5000 no_runs (store_of waiting_row) drawn
      (record { run = 3; attempt = λ n. 4; token = λ n. [] }) 9 (codes "key") request request
      (persona ∷ []) (persona ∷ []) (view_of waiting_row) true cancelled_later creates_run
      acceptable

abbrev cancelled_store : Store
cancelled_store = record (store_of sent_row) {
  runs = cancel_runs 4000 1 (the_run ∷ []);
  attempts = cancel_attempts 4000 1 (sent_row ∷ []);
}

abbrev cancelled_view : RunView
cancelled_view = record (view_of sent_row) {
  updated_at = 4000;
  attempts =
      public_attempt redaction cancelled_store (record sent_row { cancel_requested_at = some 4000 })
      ∷ [];
}

cancels : cancel redaction 4000 (store_of sent_row) 9 1 ≡ ok (cancelled_view, cancelled_store)
unfolding cancel get run_status public_attempt cancel_attempts cancel_runs cancelled
cancels = refl

cancel-Stopping_example : All (Stopping 1) cancelled_store.attempts
cancel-Stopping_example =
    cancel-Stopping redaction 4000 (store_of sent_row) 9 1 cancelled_view cancelled_store cancels

abbrev replayed : Attempt
replayed = record waiting_row {
  state = AttemptState.settled;
  cleanup = Cleanup.closed;
  replay_url = some (codes "https://r.example");
}

hands_out : view (store_of replayed) 9 1 2 ≡ ok (some (codes "https://r.example"))
unfolding view
hands_out = refl

view_private_example :
    (a : Attempt) × (find? (λ x. x.id == 2 && x.run_id == 1) (replayed ∷ []) ≡ some a)
    × (any (λ r. r.id == 1 && r.owner == 9) (the_run ∷ []) ≡ true)
    × (a.cleanup ≡ Cleanup.closed)
    × (a.replay_url ≡ some (codes "https://r.example"))
view_private_example = view_private (store_of replayed) 9 1 2 (codes "https://r.example") hands_out
