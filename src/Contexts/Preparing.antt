-- ===== src/Contexts/Preparing.antt =====
-- src/server/workflows/contexts.ts: `prepare`, which creates the remote context of an attempt when
-- it has none, and adopts it. It is a sequence of transactions with calls of the provider between
-- them; what the provider answers and whether the lease is held at each check are arguments.
use hack_the_north.Common.{
  ◌&&◌, any, List, ℕ, Bool, true, false, not, ◌||◌, Option, none, some, Result, ok, err, ◌>>=◌,
  ◌>>◌, throw_if, ◌==◌, leb, if◌then◌else◌, is_some, coalesce,
}
use hack_the_north.Contexts.{
  Status, Persistence, Context, Selection, OperationKind, OperationStatus, Store, ContextError, is,
  same_job, find_context, updated, selection_of, operation,
}
use hack_the_north.Contexts.Claiming.{Claim}

unfoldable pub set_status : Status → Context → Context
set_status t c = record c { status = t }

unfoldable pub set_remote : ℕ → Context → Context
set_remote remote c = record c { remote_id = some remote }

unfoldable pub set_persistence : Persistence → Context → Context
set_persistence p c = record c { persistence = p }

unfoldable pub begun : (now : ℕ) → Context → Store → Store
unfolding updated operation set_status
begun now c s =
    if is_some c.remote_id
    then s
    else operation now c.id OperationKind.create OperationStatus.dispatched
        (updated c.id (set_status Status.creating) s)

-- The first transaction.
unfoldable pub begin_prepare :
    (now job id : ℕ) → (lease provider : Bool) → Store → Result ContextError (Context × Store)
unfolding find_context begun
begin_prepare now job id lease provider s = do
  throw_if (not lease) ContextError.lease_lost
  c ← find_context id s.contexts
  throw_if
      (not (same_job c.held_job job)
        || (c.is_revoked || (leb c.expires_at now || not (is c.status Status.in_use))))
      ContextError.context_claim_unavailable
  throw_if (not provider) ContextError.context_provider_unavailable
  ok (c, begun now c s)

abbrev pub other_remote : Option ℕ → ℕ → Bool
other_remote none created = false
other_remote (some r) created = not (r == created)

abbrev has_remote : ℕ → Context → Bool
has_remote remote c = elim c.remote_id [ none ↦ false | some r ↦ r == remote ]

-- `remote_id` is UNIQUE: another context has the value.
unfoldable pub remote_taken : (id remote : ℕ) → List Context → Bool
remote_taken id remote rows = any (λ c. not (c.id == id) && has_remote remote c) rows

-- The transaction after the provider has created a context.
unfoldable pub record_created :
    (now id created : ℕ) → (lease : Bool) → Store → Result ContextError Store
unfolding find_context remote_taken updated operation set_remote set_status
record_created now id created lease s = do
  c ← find_context id s.contexts
  throw_if (other_remote c.remote_id created) ContextError.context_identity_changed
  throw_if (remote_taken id created s.contexts) ContextError.constraint
  throw_if (not lease) ContextError.lease_lost
  ok (
      updated id (set_status Status.in_use) (
        operation now id OperationKind.create OperationStatus.returned
          (updated id (set_remote created) s)))

unfoldable pub doubt : (remote : Option ℕ) → Context → Context
doubt remote c = record c {
  status = Status.creation_unknown;
  persistence = Persistence.uncertain;
  remote_id = coalesce c.remote_id remote;
}

-- The value that `COALESCE` gives the row is refused: it has none yet, and another context has it.
unfoldable pub doubt_refused : (id : ℕ) → (remote : Option ℕ) → List Context → Bool
unfolding remote_taken
doubt_refused id none rows = false
doubt_refused id (some remote) rows =
    any (λ c. c.id == id && not (is_some c.remote_id)) rows && remote_taken id remote rows

-- The transaction after a creation that threw.
unfoldable pub record_doubt : (now id : ℕ) → (remote : Option ℕ) → Store → Result ContextError Store
unfolding doubt_refused updated operation doubt
record_doubt now id remote s = do
  throw_if (doubt_refused id remote s.contexts) ContextError.constraint
  ok (operation now id OperationKind.create OperationStatus.unsure (updated id (doubt remote) s))

-- The transaction after the provider has shown the context.
unfoldable pub adopt :
    (now job id : ℕ) → (lease : Bool) → Persistence → Store → Result ContextError Store
unfolding find_context updated set_persistence
adopt now job id lease p s = do
  throw_if (not lease) ContextError.lease_lost
  c ← find_context id s.contexts
  throw_if (c.is_revoked || (leb c.expires_at now || not (same_job c.held_job job)))
      ContextError.context_revoked_or_expired
  ok (updated id (set_persistence p) s)

unfoldable pub quarantine : Context → Context
quarantine c = record c { status = Status.quarantined; persistence = Persistence.uncertain }

unfoldable pub quarantine_held : (job : ℕ) → Context → Context
unfolding quarantine
quarantine_held job c = if same_job c.held_job job then quarantine c else c

-- The transaction after an adoption that threw.
unfoldable pub record_failed : (now job id : ℕ) → Store → Store
unfolding updated operation quarantine_held
record_failed now job id s =
    operation now id OperationKind.inspect OperationStatus.failed
      (updated id (quarantine_held job) s)

-- The clock and the lease at a check.
pub record Check : Type 0 where
  pub now : ℕ
  pub lease : Bool

-- What happens while an attempt is prepared: what the provider answers, none where it throws, and
-- what each check finds.
pub record Course : Type 0 where
  pub begins : Check
  pub created : Option ℕ
  pub recorded : Check
  pub shown : Bool
  pub adopted : Check

-- After a creation that threw; an error of the transaction itself goes on in its place.
unfoldable pub doubted : Store → Result ContextError Store → Store × Result ContextError ℕ
doubted s (ok t) = (t, err ContextError.context_creation_unconfirmed)
doubted s (err e) = (s, err e)

-- The remote context that is created, when there is none.
unfoldable pub create_remote : Course → (id : ℕ) → Option ℕ → Store → Store × Result ContextError ℕ
unfolding record_created record_doubt doubted
create_remote w id (some remote) s = (s, ok remote)
create_remote w id none s = elim w.created [
  | none ↦ doubted s (record_doubt w.recorded.now id none s)
  | some remote ↦ elim (record_created w.recorded.now id remote w.recorded.lease s) [
    | ok t ↦ (t, ok remote)
    | err e ↦ doubted s (record_doubt w.recorded.now id (some remote) s)
  ]
]

unfoldable pub adopt_remote :
    Course
    → (job : ℕ) → Context
    → Selection
    → (remote : ℕ) → Store
    → Store × Result ContextError (Option (ℕ × Bool))
unfolding adopt record_failed
adopt_remote w job c x remote s =
    let p = if x.persist then Persistence.requested else c.persistence in
    let failed = record_failed w.adopted.now job c.id s in
    elim w.shown [
      | false ↦ (failed, err ContextError.context_adoption_failed)
      | true ↦ elim (adopt w.adopted.now job c.id w.adopted.lease p s) [
        | ok t ↦ (t, ok (some (remote, x.persist)))
        | err e ↦ (failed, err ContextError.context_adoption_failed)
      ]
    ]

unfoldable pub prepare_selected :
    Course
    → (provider : Bool) → Claim
    → Selection
    → Store
    → Store × Result ContextError (Option (ℕ × Bool))
unfolding begin_prepare create_remote adopt_remote
prepare_selected w provider k x s =
    elim (begin_prepare w.begins.now k.job x.context w.begins.lease provider s) [
      | err e ↦ (s, err e)
      | ok (c, t) ↦
          let made = create_remote w c.id c.remote_id t in
          elim made.1 [
            | err e ↦ (made.0, err e)
            | ok remote ↦ adopt_remote w k.job c x remote made.0
          ]
    ]

-- `prepare`: the id of the remote context and whether it is to be saved, or none for a fresh browser.
unfoldable pub prepare :
    Course → (provider : Bool) → Claim → Store → Store × Result ContextError (Option (ℕ × Bool))
unfolding selection_of prepare_selected
prepare w provider k s = elim (selection_of k.attempt s.selections) [
  | none ↦ (s, ok none)
  | some x ↦ prepare_selected w provider k x s
]
