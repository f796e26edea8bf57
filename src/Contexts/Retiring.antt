-- ===== src/Contexts/Retiring.antt =====
-- src/server/workflows/contexts.ts: the end of a hold, and of a context.
use hack_the_north.Common.{
  ℕ, ◌+◌, Bool, true, false, not, ◌&&◌, ◌||◌, Option, none, some, List, [], ◌∷◌, ◌++◌, map, Result,
  ok, ◌>>=◌, ◌>>◌, throw_if, ◌==◌, leb, if◌then◌else◌, any, is_some,
}
use hack_the_north.Contexts.{
  Status, Persistence, Context, Selection, Operation, OperationKind, OperationStatus, Store,
  ContextError, View, is, same_job, lookup, find_context, updated, selection_of, operation, view,
  persist_delay_ms,
}
use hack_the_north.Contexts.Preparing.{quarantine, set_status}

pub record Settlement : Type 0 where
  pub confirmed : Bool
  pub never_allocated : Bool
  pub clean : Bool
  pub recovered : Bool

unfoldable pub is_uncertain : Settlement → Context → Bool
is_uncertain o c =
    (is c.status Status.creating
      || (is c.status Status.creation_unknown || is c.status Status.quarantined))
    || (not o.never_allocated && (not o.clean || o.recovered))

-- The row of a confirmed settlement.
unfoldable pub let_go : (now : ℕ) → (persist : Bool) → Settlement → Context → Context
unfolding is_uncertain
let_go now persist o c =
    let delay = persist && not o.never_allocated in
    record c {
      held_job = none;
      status =
          if c.is_revoked
          then Status.revoked
          else if is_uncertain o c
          then Status.quarantined
          else if delay
          then Status.persisting
          else if is_some c.remote_id
          then Status.available
          else Status.pending;
      available_after = if delay then some (now + persist_delay_ms) else none;
      persistence =
          if is_uncertain o c
          then Persistence.uncertain
          else if delay
          then Persistence.requested
          else c.persistence;
    }

unfoldable pub settle_row : (now : ℕ) → (persist : Bool) → Settlement → Context → Store → Store
unfolding updated operation let_go quarantine is_uncertain
settle_row now persist o c s =
    if not o.confirmed
    then updated c.id quarantine s
    else operation now c.id OperationKind.session_settlement
        (if is_uncertain o c then OperationStatus.unsure else OperationStatus.closed)
        (updated c.id (let_go now persist o) s)

unfoldable pub settle_held :
    (now job : ℕ) → (persist : Bool) → Settlement → Store → Option Context → Store
unfolding settle_row
settle_held now job persist o s none = s
settle_held now job persist o s (some c) =
    if same_job c.held_job job then settle_row now persist o c s else s

unfoldable pub settle_selected : (now job : ℕ) → Settlement → Store → Option Selection → Store
unfolding lookup settle_held
settle_selected now job o s none = s
settle_selected now job o s (some x) =
    settle_held now job x.persist o s (lookup x.context s.contexts)

-- `settle` of a job, whose attempt the jobs table knows.
unfoldable pub settle : (now job attempt : ℕ) → Settlement → Store → Store
unfolding selection_of settle_selected
settle now job attempt o s = settle_selected now job o s (selection_of attempt s.selections)

-- `UPDATE jobs SET cancel_requested_at=COALESCE(cancel_requested_at,?)`.
unfoldable pub request_cancel : (now : ℕ) → Option ℕ → List (ℕ × ℕ) → List (ℕ × ℕ)
request_cancel now none cancels = cancels
request_cancel now (some job) cancels =
    if any (λ x. x.0 == job) cancels then cancels else cancels ++ ((job, now) ∷ [])

unfoldable pub revoke_row : Context → Context
revoke_row c = record c {
  is_revoked = true;
  status =
      if not (is_some c.held_job)
        && not (is c.status Status.deleting || is c.status Status.deletion_unknown)
      then Status.revoked
      else c.status;
}

-- The store with the context revoked, and the job that holds it asked to cancel.
unfoldable pub revoked_store : (now : ℕ) → Context → Store → Store
unfolding updated revoke_row request_cancel
revoked_store now c s =
    let t = updated c.id revoke_row s in
    record t { cancels = request_cancel now c.held_job t.cancels }

unfoldable pub revoke : (now owner id : ℕ) → Store → Result ContextError (View × Store)
unfolding find_context revoked_store view
revoke now owner id s = do
  c ← find_context id s.contexts
  throw_if (not (c.owner == owner)) ContextError.not_found
  (if is c.status Status.deleted
      then ok (view c, s)
      else find_context id (revoked_store now c s).contexts >>= λ d.
          ok (view d, revoked_store now c s))

is_delete : OperationKind → Bool
is_delete OperationKind.delete = true
is_delete _ = false

is_create : OperationKind → Bool
is_create OperationKind.create = true
is_create _ = false

is_dispatched : OperationStatus → Bool
is_dispatched OperationStatus.dispatched = true
is_dispatched _ = false

-- A deletion that was sent 30 seconds ago and has no answer.
unfoldable pub give_up : (now : ℕ) → List Operation → Context → Context
unfolding is_delete is_dispatched
give_up now ops c =
    if is c.status Status.deleting
      && any
          (λ o.
            (o.context == c.id)
            && (is_delete o.operation
                && (is_dispatched o.status && leb (o.created_at + 30000) now)))
          ops
    then record c { status = Status.deletion_unknown }
    else c

unfoldable pub expire_row : (now : ℕ) → Context → Context
expire_row now c =
    if leb c.expires_at now && not (is c.status Status.deleted)
    then record c { is_revoked = true }
    else c

cancel_held : (now : ℕ) → List Context → List (ℕ × ℕ) → List (ℕ × ℕ)
unfolding request_cancel
cancel_held now [] cancels = cancels
cancel_held now (c ∷ cs) cancels =
    cancel_held now cs (if c.is_revoked then request_cancel now c.held_job cancels else cancels)

unfoldable pub is_retirable : (now : ℕ) → Context → Bool
is_retirable now c =
    c.is_revoked
    && (not (is_some c.held_job)
        && (not (
              is c.status Status.deleted
              || (is c.status Status.deleting || is c.status Status.deletion_unknown))
            && (elim c.available_after [ none ↦ true | some t ↦ leb t now ])))

older : Context → Option Context → Option Context
older c none = some c
older c (some d) = if leb c.created_at d.created_at then some c else some d

-- `ORDER BY created_at LIMIT 1`.
unfoldable pub oldest : (Context → Bool) → List Context → Option Context
unfolding older
oldest p [] = none
oldest p (c ∷ cs) = let rest = oldest p cs in if p c then older c rest else rest

unfoldable pub mark : (token : ℕ) → Context → Context
mark token c = record c { status = Status.deleting; operation_token = some token }

-- What becomes of a context whose remote id is not known: its creation may have been sent.
unfoldable pub unknown_status : Context → Store → Status
unfolding is_create is_dispatched
unknown_status c s =
    if any (λ o. (o.context == c.id) && (is_create o.operation && is_dispatched o.status))
      s.operations
    then Status.deletion_unknown
    else Status.deleted

unfoldable pub retire_unknown : Context → Store → Store
unfolding updated set_status unknown_status
retire_unknown c s = updated c.id (set_status (unknown_status c s)) s

unfoldable pub ask_deletion : (now token : ℕ) → Context → Store → Store
unfolding updated operation mark
ask_deletion now token c s =
    operation now c.id OperationKind.delete OperationStatus.dispatched (updated c.id (mark token) s)

unfoldable pub retire_remote :
    (now token : ℕ) → Context → Store → Option ℕ → Option (Context × ℕ) × Store
unfolding retire_unknown ask_deletion
retire_remote now token c s none = (none, retire_unknown c s)
retire_remote now token c s (some remote) = (some (c, remote), ask_deletion now token c s)

unfoldable pub retire_row : (now token : ℕ) → Context → Store → Option (Context × ℕ) × Store
unfolding retire_remote
retire_row now token c s = retire_remote now token c s c.remote_id

unfoldable pub swept : (now : ℕ) → Store → Store
unfolding give_up expire_row cancel_held
swept now s =
    let rows = map (expire_row now) (map (give_up now s.operations) s.contexts) in
    record s { contexts = rows; cancels = cancel_held now rows s.cancels }

unfoldable pub retire_found :
    (now token : ℕ) → Store → Option Context → Option (Context × ℕ) × Store
unfolding retire_row
retire_found now token t none = (none, t)
retire_found now token t (some c) = retire_row now token c t

-- The first transaction of `retireOne`: the row whose remote context the provider is asked to delete.
unfoldable pub begin_retire : (now token : ℕ) → Store → Option (Context × ℕ) × Store
unfolding swept is_retirable oldest retire_found
begin_retire now token s =
    let t = swept now s in retire_found now token t (oldest (is_retirable now) t.contexts)

unfoldable pub forget : (remote : ℕ) → Context → Context
forget remote c =
    if same_job c.remote_id remote
      && (is c.status Status.deleting || is c.status Status.deletion_unknown)
    then record c { status = Status.deleted; remote_id = none }
    else c

-- After the provider has confirmed the deletion.
unfoldable pub record_deleted : (now id remote : ℕ) → Store → Store
unfolding updated operation forget
record_deleted now id remote s =
    operation now id OperationKind.delete OperationStatus.confirmed (updated id (forget remote) s)

unfoldable pub lose : Context → Context
lose c = if is c.status Status.deleting then record c { status = Status.deletion_unknown } else c

-- After a deletion that threw.
unfoldable pub record_lost : (now id : ℕ) → Store → Store
unfolding updated operation lose
record_lost now id s =
    operation now id OperationKind.delete OperationStatus.unsure (updated id lose s)

-- `retireOne` with a provider that confirms a deletion or throws.
unfoldable pub retire_one : (now later token : ℕ) → (confirms : Bool) → Store → Store
unfolding begin_retire record_deleted record_lost
retire_one now later token confirms s =
    let (found, t) = begin_retire now token s in
    elim found [
      | none ↦ t
      | some (c, remote) ↦
          if confirms then record_deleted later c.id remote t else record_lost later c.id t
    ]
