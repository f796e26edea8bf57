-- ===== src/Contexts.antt =====
-- src/server/workflows/contexts.ts: browser contexts that outlive a session, which attempts select,
-- jobs hold and a worker retires. Ids and digests are numbers, and times are milliseconds; the
-- value of `randomUUID` and the expiry of an owner's row are arguments.
pub mod Claiming
pub mod Preparing
pub mod Retiring
pub mod Rows
pub mod Evolution
pub mod Holding
pub mod Histories
pub mod Fencing
mod Witnesses
use hack_the_north.Common.{
  ℕ, ◌+◌, ◌*◌, min, Bool, true, false, not, ◌&&◌, ◌||◌, Option, none, some, List, [], ◌∷◌, ◌++◌,
  map, Text, Result, ok, err, ◌>>=◌, ◌>>◌, throw_if, ◌==◌, leb, ltb, if◌then◌else◌, find?, any,
  count_of, keep, take, is_some,
}

pub data Status : Type 0 where
  pending creating available in_use persisting quarantined : Status
  creation_unknown revoked deleting deletion_unknown deleted : Status

pub data Persistence : Type 0 where
  never_saved requested delay_elapsed_unverified uncertain : Persistence

-- A row of `browser_contexts`.
pub record Context : Type 0 where
  pub id : ℕ
  pub owner : ℕ
  pub scope_signature : ℕ
  pub remote_id : Option ℕ
  pub status : Status
  pub persistence : Persistence
  pub created_at : ℕ
  pub available_after : Option ℕ
  pub expires_at : ℕ
  pub is_revoked : Bool
  pub held_job : Option ℕ
  pub operation_token : Option ℕ

-- A row of `context_selections`.
pub record Selection : Type 0 where
  pub attempt : ℕ
  pub context : ℕ
  pub persist : Bool

pub data OperationKind : Type 0 where
  create inspect session_settlement delete : OperationKind

pub data OperationStatus : Type 0 where
  dispatched returned unsure failed closed confirmed : OperationStatus

-- A row of `context_operations`.
pub record Operation : Type 0 where
  pub context : ℕ
  pub operation : OperationKind
  pub status : OperationStatus
  pub created_at : ℕ

-- The tables, and when each job was asked to cancel.
pub record Store : Type 0 where
  pub contexts : List Context
  pub selections : List Selection
  pub operations : List Operation
  pub cancels : List (ℕ × ℕ)

pub data ContextError : Type 0 where
  not_found rate_limited unauthorized conflict constraint : ContextError
  context_not_active context_claim_unavailable context_provider_unavailable : ContextError
  context_identity_changed context_revoked_or_expired lease_lost : ContextError
  context_creation_unconfirmed context_adoption_failed : ContextError

abbrev pub persist_delay_ms : ℕ
persist_delay_ms = 10000

abbrev number : Status → ℕ
number pending = 0
number creating = 1
number available = 2
number in_use = 3
number persisting = 4
number quarantined = 5
number creation_unknown = 6
number revoked = 7
number deleting = 8
number deletion_unknown = 9
number deleted = 10

abbrev pub is : Status → Status → Bool
is s t = number s == number t

abbrev pub same_job : Option ℕ → ℕ → Bool
same_job none job = false
same_job (some j) job = j == job

-- `WHERE id=?`, the primary key.
unfoldable pub lookup : (id : ℕ) → List Context → Option Context
lookup id [] = none
lookup id (c ∷ cs) = if c.id == id then some c else lookup id cs

unfoldable pub find_context : (id : ℕ) → List Context → Result ContextError Context
unfolding lookup
find_context id cs = elim (lookup id cs) [ none ↦ err not_found | some c ↦ ok c ]

-- `UPDATE browser_contexts ... WHERE id=?`.
unfoldable pub row_update : (id : ℕ) → (Context → Context) → Context → Context
row_update id f c = if c.id == id then f c else c

unfoldable pub updated : (id : ℕ) → (Context → Context) → Store → Store
unfolding row_update
updated id f s = record s { contexts = map (row_update id f) s.contexts }

unfoldable pub selection_of : (attempt : ℕ) → List Selection → Option Selection
selection_of attempt ss = find? (λ s. s.attempt == attempt) ss

unfoldable pub operation : (now id : ℕ) → OperationKind → OperationStatus → Store → Store
operation now id kind status s = record s {
  operations =
      s.operations
      ++ (record { context = id; operation = kind; status = status; created_at = now } ∷ []);
}

-- What `list` and `revoke` show of a row.
pub record View : Type 0 where
  pub id : ℕ
  pub scope_signature : ℕ
  pub status : Status
  pub created_at : ℕ
  pub available_after : Option ℕ
  pub expires_at : ℕ
  pub is_revoked : Bool
  pub persistence : Persistence

unfoldable pub view : Context → View
view c = record {
  id = c.id;
  scope_signature = c.scope_signature;
  status = c.status;
  created_at = c.created_at;
  available_after = c.available_after;
  expires_at = c.expires_at;
  is_revoked = c.is_revoked;
  persistence = c.persistence;
}

-- `ORDER BY created_at DESC`, rows of one time in the order of the table.
insert_newest : Context → List Context → List Context
insert_newest c [] = c ∷ []
insert_newest c (d ∷ ds) =
    let rest = insert_newest c ds in if leb d.created_at c.created_at then c ∷ d ∷ ds else d ∷ rest

newest_first : List Context → List Context
unfolding insert_newest
newest_first [] = []
newest_first (c ∷ cs) = insert_newest c (newest_first cs)

unfoldable pub list : (owner : ℕ) → Store → List View
unfolding newest_first view
list owner s = map view (take 100 (newest_first (keep (λ c. c.owner == owner) s.contexts)))
