-- ===== src/Managed/Refinement/Journal.antt =====
-- The operations of a worker that holds a lease, each as one transition of the row that it holds.
use hack_the_north.Common.{
  ℕ, ◌+◌, ◌≡◌, ◌⊎◌, inl, inr, refl, subst, true, false, none, some, Bool, Option, Text, ok, arith,
}
use hack_the_north.Managed.Rows.{
  AttemptState, Attempt, Store, Claim, CreateFailure, ProgressKind, Outcome,
}
use hack_the_north.Managed.Queries.{Redaction, row, touch, update, update_attempt, map_option}
use hack_the_north.Managed.Claims.{assert_lease, heartbeat}
use hack_the_north.Managed.Journal.{
  dispatch, dispatched, create_failure, redacted_failure, identity, identified, trim, differs,
  differs_if_both, progress, session_view,
}
use hack_the_north.Managed.Lifecycle.{finish, finished, is_outcome}
use hack_the_north.Managed.Tables.{Distinct, by_id}
use hack_the_north.Managed.Steps.{RowStep, send, fail_create, identify, report, show, beat}
use hack_the_north.Managed.Leases.{Held, assert_lease-Held, row-by_id}
use hack_the_north.Managed.Transitions.{KeepsRows, KeepsRows-refl, update-KeepsRows}

-- The lease is held by the row with the claim's id, which is the row that the code reads again.
pub record Opened (now : ℕ) (s : Store) (c : Claim) (allow : Bool) (a : Attempt) : Type 0 where
  pub held : Held now c a
  pub found : by_id c.id s.attempts ≡ some a
  pub active : allow ≡ false → a.cancel_requested_at ≡ none

pub opened :
    (now : ℕ) (s : Store) (c : Claim) (allow : Bool) {h a : Attempt}
    → Distinct s.attempts
    → assert_lease now s c allow ≡ ok h
    → row s c.id ≡ ok a
    → Opened now s c allow a
opened now s c allow {h} {a} d e r =
    let (held, found, active) = assert_lease-Held now s c allow d e in
    let one : h ≡ a = ground (arith, row-by_id s c.id r) in
    subst (Opened now s c allow) one (record { held = held; found = found; active = active })

module _ (rd : Redaction) (now : ℕ) (s : Store) (c : Claim) where
  pub dispatch_inversion :
      (agent task : Text) {t : Store}
      → dispatch now s c agent task ≡ ok t
      → (h a : Attempt) × (assert_lease now s c false ≡ ok h)
        × (row s c.id ≡ ok a)
        × (a.recovery_count ≡ 0)
        × (a.dispatch_started ≡ false)
        × (a.state ≡ AttemptState.reserved)
        × (t.attempts ≡ update (dispatched agent task) c.id s.attempts)
  unfolding dispatch touch update_attempt
  dispatch_inversion agent task e = ground arith

  pub dispatch-KeepsRows :
      (agent task : Text) {t : Store}
      → Distinct s.attempts
      → dispatch now s c agent task ≡ ok t
      → KeepsRows rd now s.attempts t.attempts
  dispatch-KeepsRows agent task d e =
      let (h, a, lease, read, fresh, unsent, waiting, after) = dispatch_inversion agent task e in
      let o = opened now s c false d lease read in
      rw after (
        update-KeepsRows rd now (dispatched agent task) c.id s.attempts d o.found
          (send agent task waiting unsent fresh (o.active refl) refl))

  heartbeat_inversion :
      (lease_ms : ℕ) {stop : Bool} {t : Store}
      → heartbeat now s c lease_ms ≡ ok (stop, t)
      → (h : Attempt) × (assert_lease now s c true ≡ ok h)
        × (t.attempts
            ≡ update (λ a. record a { lease_expires_at = some (now + lease_ms) }) c.id s.attempts)
  unfolding heartbeat update_attempt
  heartbeat_inversion lease_ms e = ground arith

  pub heartbeat-KeepsRows :
      (lease_ms : ℕ) {stop : Bool} {t : Store}
      → Distinct s.attempts
      → heartbeat now s c lease_ms ≡ ok (stop, t)
      → KeepsRows rd now s.attempts t.attempts
  heartbeat-KeepsRows lease_ms d e =
      let (h, lease, after) = heartbeat_inversion lease_ms e in
      let (held, found, active) = assert_lease-Held now s c true d lease in
      rw after (
        update-KeepsRows rd now _ c.id s.attempts d found
          (beat (now + lease_ms) held.leasable refl))

  create_failure_inversion :
      (f : CreateFailure) {t : Store}
      → create_failure rd now s c f ≡ ok t
      → (h a : Attempt) × (assert_lease now s c true ≡ ok h)
        × (row s c.id ≡ ok a)
        × (a.dispatch_started ≡ true)
        × (a.first_create_failure ≡ none)
        × (t.attempts
            ≡ update
                (λ b. record b { first_create_failure = some (redacted_failure rd a f) })
                c.id
                s.attempts)
  unfolding create_failure touch update_attempt
  create_failure_inversion f e = ground arith

  pub create_failure-KeepsRows :
      (f : CreateFailure) {t : Store}
      → Distinct s.attempts
      → create_failure rd now s c f ≡ ok t
      → KeepsRows rd now s.attempts t.attempts
  create_failure-KeepsRows f d e =
      let (h, a, lease, read, sent, unfailed, after) = create_failure_inversion f e in
      let o = opened now s c true d lease read in
      rw after (
        update-KeepsRows rd now _ c.id s.attempts d o.found
          (fail_create (redacted_failure rd a f) o.held.leasable sent unfailed refl))

  identity_inversion :
      (run : Text) (session : Option Text) {t : Store}
      → identity now s c run session ≡ ok t
      → (h a : Attempt) × (assert_lease now s c true ≡ ok h)
        × (row s c.id ≡ ok a)
        × (a.dispatch_started ≡ true)
        × (differs a.provider_run_id (trim run) ≡ false)
        × (differs_if_both a.provider_session_id (map_option trim session) ≡ false)
        × (t.attempts ≡ update (identified (trim run) (map_option trim session)) c.id s.attempts)
  unfolding identity touch update_attempt
  identity_inversion run session e = ground arith

  pub identity-KeepsRows :
      (run : Text) (session : Option Text) {t : Store}
      → Distinct s.attempts
      → identity now s c run session ≡ ok t
      → KeepsRows rd now s.attempts t.attempts
  identity-KeepsRows run session d e =
      let (h, a, lease, read, sent, same_run, same_session, after) =
        identity_inversion run session e in
      let o = opened now s c true d lease read in
      rw after (
        update-KeepsRows rd now _ c.id s.attempts d o.found (
          identify (trim run) (map_option trim session) o.held.leasable sent same_run same_session
            refl))

  pub progress_inversion :
      (hash : ℕ) (kind : ProgressKind) (text : Text) {t : Store}
      → progress rd now s c hash kind text ≡ ok t
      → (h : Attempt) × (assert_lease now s c false ≡ ok h)
        × ((t.attempts ≡ s.attempts)
            ⊎ (t.attempts ≡ update (λ b. record b { provider_status = some text }) c.id s.attempts))
  unfolding progress touch update_attempt
  progress_inversion hash kind text e = ground arith

  pub progress-KeepsRows :
      (hash : ℕ) (kind : ProgressKind) (text : Text) {t : Store}
      → Distinct s.attempts
      → progress rd now s c hash kind text ≡ ok t
      → KeepsRows rd now s.attempts t.attempts
  progress-KeepsRows hash kind text d e =
      let (h, lease, after) = progress_inversion hash kind text e in
      let (held, found, active) = assert_lease-Held now s c false d lease in
      elim after [
        | inl kept ↦ rw kept (KeepsRows-refl rd now s.attempts)
        | inr seen ↦
            rw seen
              (update-KeepsRows rd now _ c.id s.attempts d found (report text held.leasable refl))
      ]

  session_view_inversion :
      (view_ok : Text → Text → Bool) (live replay : Text) {t : Store}
      → session_view view_ok now s c live replay ≡ ok t
      → (h : Attempt) × (assert_lease now s c false ≡ ok h)
        × (t.attempts
            ≡ update
                (λ b. record b { live_view_url = some live; replay_url = some replay })
                c.id
                s.attempts)
  unfolding session_view touch update_attempt
  session_view_inversion view_ok live replay e = ground arith

  pub session_view-KeepsRows :
      (view_ok : Text → Text → Bool) (live replay : Text) {t : Store}
      → Distinct s.attempts
      → session_view view_ok now s c live replay ≡ ok t
      → KeepsRows rd now s.attempts t.attempts
  session_view-KeepsRows view_ok live replay d e =
      let (h, lease, after) = session_view_inversion view_ok live replay e in
      let (held, found, active) = assert_lease-Held now s c false d lease in
      rw after
        (update-KeepsRows rd now _ c.id s.attempts d found (show live replay held.leasable refl))

  pub finish_inversion :
      (o : Outcome) {t : Store}
      → finish rd now s c o ≡ ok t
      → (h a : Attempt) × (assert_lease now s c true ≡ ok h)
        × (row s c.id ≡ ok a)
        × (is_outcome o.status ≡ true)
        × (t.attempts ≡ update (finished rd now a o) c.id s.attempts)
  unfolding finish touch update_attempt
  finish_inversion o e = ground arith

  pub finish-KeepsRows :
      (o : Outcome) {t : Store}
      → Distinct s.attempts
      → finish rd now s c o ≡ ok t
      → KeepsRows rd now s.attempts t.attempts
  finish-KeepsRows o d e =
      let (h, a, lease, read, good, after) = finish_inversion o e in
      let op = opened now s c true d lease read in
      rw after (
        update-KeepsRows rd now _ c.id s.attempts d op.found
          (RowStep.finish o op.held.leasable good refl))
