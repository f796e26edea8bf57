-- ===== src/Managed/Histories.antt =====
-- Every operation of the store at once, and its histories: what holds of the attempts after any
-- sequence of operations by any callers, at any times.
use hack_the_north.Common.{
  ℕ, ◌≡◌, refl, Bool, some, Option, List, [], ◌∷◌, ok, err, arith, All, Text,
}
use hack_the_north.Capacity.{WorkerPolicy}
use hack_the_north.Managed.Rows.{
  Attempt, Store, Persona, Claim, CreateFailure, ProgressKind, Outcome,
}
use hack_the_north.Managed.Queries.{Redaction, M}
use hack_the_north.Managed.Claims.{claim, heartbeat}
use hack_the_north.Managed.Journal.{dispatch, create_failure, identity, progress, session_view}
use hack_the_north.Managed.Lifecycle.{ManagedCreate, Fresh, create, cancel, finish}
use hack_the_north.Managed.Tables.{Distinct, by_id}
use hack_the_north.Managed.Sound.{Sound}
use hack_the_north.Managed.Evolution.{Evolves}
use hack_the_north.Managed.Transitions.{
  TableStep, TableStep-Sound, TableStep-Evolves, Grows, Grows-refl, Grows-trans, Grows-by_id,
  KeepsRows, KeepsRows-TableStep, KeepsRows-Distinct,
}
use hack_the_north.Managed.Refinement.Journal.{
  dispatch-KeepsRows, heartbeat-KeepsRows, create_failure-KeepsRows, identity-KeepsRows,
  progress-KeepsRows, session_view-KeepsRows, finish-KeepsRows,
}
use hack_the_north.Managed.Refinement.Claims.{claim-KeepsRows}
use hack_the_north.Managed.Refinement.Lifecycle.{create-TableStep, cancel-KeepsRows}

-- What the store takes from elsewhere: redaction, the request's digest, the URL test of a view.
pub record Platform : Type 0 where
  pub redaction : Redaction
  pub digest : ManagedCreate → ℕ
  pub view_ok : Text → Text → Bool

pub data Op : Type 0 where
  creates : Fresh → (owner : ℕ) → (key : Text) → ManagedCreate → List Persona → Op
  cancels : (owner id : ℕ) → Op
  claims : (worker : ℕ) → WorkerPolicy → Op
  beats : Claim → (lease_ms : ℕ) → Op
  dispatches : Claim → (agent task : Text) → Op
  fails_create : Claim → CreateFailure → Op
  identifies : Claim → (run : Text) → (session : Option Text) → Op
  reports : Claim → (hash : ℕ) → ProgressKind → Text → Op
  shows : Claim → (live replay : Text) → Op
  finishes : Claim → Outcome → Op

abbrev pub second : {A : Type 0} → M (A × Store) → M Store
second (ok x) = ok x.1
second (err e) = err e

module _ (pf : Platform) where
  -- The operation as a transaction: the new store, or the error with which it is rolled back.
  unfoldable pub perform : ℕ → Store → Op → M Store
  perform now s (creates fresh owner key q personas) =
      second (create pf.redaction pf.digest now s fresh owner key q personas)
  perform now s (cancels owner id) = second (cancel pf.redaction now s owner id)
  perform now s (claims worker p) = second (claim now s worker p)
  perform now s (beats c lease_ms) = second (heartbeat now s c lease_ms)
  perform now s (dispatches c agent task) = dispatch now s c agent task
  perform now s (fails_create c f) = create_failure pf.redaction now s c f
  perform now s (identifies c run session) = identity now s c run session
  perform now s (reports c hash kind text) = progress pf.redaction now s c hash kind text
  perform now s (shows c live replay) = session_view pf.view_ok now s c live replay
  perform now s (finishes c o) = finish pf.redaction now s c o

abbrev pub after : Store → M Store → Store
after s (ok t) = t
after s (err e) = s

module _ (pf : Platform) where
  unfoldable pub step : Store → ℕ × Op → Store
  step s (now, op) = after s (perform pf now s op)

  unfoldable pub run : Store → List (ℕ × Op) → Store
  run s [] = s
  run s (o ∷ os) = run (step s o) os

pub second_inversion :
    {A : Type 0} (m : M (A × Store)) {t : Store} → second m ≡ ok t → (a : A) × (m ≡ ok (a, t))
second_inversion (ok (a, t')) {t} e = let same : t' ≡ t = ground arith in (a, rw same)
second_inversion (err x) e = cc

module _ (pf : Platform) where
  -- A transaction that only updates rows.
  kept :
      (now : ℕ) (xs ys : List Attempt)
      → Distinct xs
      → KeepsRows pf.redaction now xs ys
      → TableStep pf.redaction now xs ys × Distinct ys
  kept now xs ys d k =
      (KeepsRows-TableStep pf.redaction now xs ys k, KeepsRows-Distinct pf.redaction now xs ys k d)

  -- Each transaction that succeeds moves the rows of the attempts table along the transitions of
  -- `RowStep` and adds new rows only, and the ids of the rows stay distinct.
  pub perform-TableStep :
      (now : ℕ) (s : Store) (op : Op) {t : Store}
      → Distinct s.attempts
      → perform pf now s op ≡ ok t
      → TableStep pf.redaction now s.attempts t.attempts × Distinct t.attempts
  unfolding perform
  perform-TableStep now s (creates fresh owner key q personas) {t} d e =
      let ((v, added), h) =
        second_inversion (create pf.redaction pf.digest now s fresh owner key q personas) e in
      let (stepped, distinct) =
        create-TableStep pf.redaction pf.digest now s fresh owner key q personas h in
      (stepped, distinct d)
  perform-TableStep now s (cancels owner id) {t} d e =
      let (v, h) = second_inversion (cancel pf.redaction now s owner id) e in
      kept now s.attempts t.attempts d (cancel-KeepsRows pf.redaction now s owner id h)
  perform-TableStep now s (claims worker p) {t} d e =
      let (c, h) = second_inversion (claim now s worker p) e in
      kept now s.attempts t.attempts d (claim-KeepsRows pf.redaction now worker p s d h)
  perform-TableStep now s (beats c lease_ms) {t} d e =
      let (stop, h) = second_inversion (heartbeat now s c lease_ms) e in
      kept now s.attempts t.attempts d (heartbeat-KeepsRows pf.redaction now s c lease_ms d h)
  perform-TableStep now s (dispatches c agent task) {t} d e =
      kept now s.attempts t.attempts d (dispatch-KeepsRows pf.redaction now s c agent task d e)
  perform-TableStep now s (fails_create c f) {t} d e =
      kept now s.attempts t.attempts d (create_failure-KeepsRows pf.redaction now s c f d e)
  perform-TableStep now s (identifies c run session) {t} d e =
      kept now s.attempts t.attempts d (identity-KeepsRows pf.redaction now s c run session d e)
  perform-TableStep now s (reports c hash kind text) {t} d e =
      kept now s.attempts t.attempts d (progress-KeepsRows pf.redaction now s c hash kind text d e)
  perform-TableStep now s (shows c live replay) {t} d e =
      kept now s.attempts t.attempts d
        (session_view-KeepsRows pf.redaction now s c pf.view_ok live replay d e)
  perform-TableStep now s (finishes c o) {t} d e =
      kept now s.attempts t.attempts d (finish-KeepsRows pf.redaction now s c o d e)

-- The invariant of the attempts table.
pub record Valid (s : Store) : Type 0 where
  pub distinct : Distinct s.attempts
  pub sound : All Sound s.attempts

module _ (pf : Platform) where
  pub perform-Valid :
      (now : ℕ) (s : Store) (op : Op) {t : Store} → Valid s → perform pf now s op ≡ ok t → Valid t
  perform-Valid now s op {t} v e =
      let (changed, distinct) = perform-TableStep pf now s op v.distinct e in
      record {
        distinct = distinct;
        sound = TableStep-Sound pf.redaction now s.attempts t.attempts changed v.sound;
      }

  -- One transaction, committed or rolled back, keeps the invariant, and what `Evolves` says.
  step-Valid :
      (s : Store) (o : ℕ × Op)
      → Valid s
      → Valid (step pf s o) × Grows s.attempts (step pf s o).attempts
  unfolding step
  step-Valid s (now, op) v = go (perform pf now s op) refl
    where
      go :
          (m : M Store)
          → perform pf now s op ≡ m
          → Valid (after s m) × Grows s.attempts (after s m).attempts
      go (ok t) e =
          let (changed, distinct) = perform-TableStep pf now s op v.distinct e in
          (
            perform-Valid now s op v e,
            TableStep-Evolves pf.redaction now s.attempts t.attempts changed v.sound,
          )
      go (err x) e = (v, Grows-refl s.attempts)

  -- From a valid store every history of operations, at any times and by any callers, ends in a valid
  -- one: ids are distinct, and each attempt's status, cleanup, dispatch marker, reservation and
  -- identities agree with its state as `Sound` says.
  pub run-Valid : (s : Store) (os : List (ℕ × Op)) → Valid s → Valid (run pf s os)
  unfolding run
  run-Valid s [] v = v
  run-Valid s (o ∷ os) v = run-Valid (step pf s o) os (step-Valid s o v).0

  run-Grows : (s : Store) (os : List (ℕ × Op)) → Valid s → Grows s.attempts (run pf s os).attempts
  unfolding run
  run-Grows s [] v = Grows-refl s.attempts
  run-Grows s (o ∷ os) v =
      let (v', grown) = step-Valid s o v in
      Grows-trans s.attempts (step pf s o).attempts _ grown (run-Grows (step pf s o) os v')

  -- After any history from a valid store an attempt is still there, and has kept its id, run and
  -- correlation token, its dispatch marker with the agent and the task, its provider identities, the
  -- first create failure and the request to cancel it; its charge, its recoveries and its lease
  -- generation have not fallen; and if it was settled it is unchanged.
  pub run-Evolves :
      (s : Store) (os : List (ℕ × Op)) (id : ℕ) (a : Attempt)
      → Valid s
      → by_id id s.attempts ≡ some a
      → (b : Attempt) × (by_id id (run pf s os).attempts ≡ some b) × Evolves a b
  run-Evolves s os id a v e = Grows-by_id id s.attempts (run pf s os).attempts (run-Grows s os v) e
