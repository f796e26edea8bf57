-- ===== src/Managed/Fencing.antt =====
-- Leases fence: a claim is good only for the newest generation of its attempt, one generation
-- belongs to one worker, and an attempt is dispatched at most once.
use hack_the_north.Common.{
  ℕ, ◌≡◌, ◌≢◌, ◌<◌, ◌⊎◌, refl, ap, inl, inr, Bool, true, false, none, some, List, ok, err, arith,
  Text, is_some, find?_sound, ==_iff,
}
use hack_the_north.Managed.Rows.{AttemptState, Attempt, Store, Claim, lease_lost}
use hack_the_north.Managed.Claims.{assert_lease}
use hack_the_north.Managed.Journal.{dispatch, dispatched}
use hack_the_north.Managed.Refinement.Journal.{dispatch_inversion}
use hack_the_north.Managed.Tables.{by_id, by_id-update}
use hack_the_north.Managed.Leases.{assert_lease-Held, assert_lease_cases, row-by_id}
use hack_the_north.Managed.Evolution.{Evolves}
use hack_the_north.Managed.Histories.{
  Platform, Op, run, Valid, perform, perform-Valid, run-Valid, run-Evolves,
}

module _ (pf : Platform) where
  -- From a valid store where an attempt is at a newer generation than a claim on it, the claim is
  -- refused as lost after every history, whether or not a cancelled attempt is allowed.
  pub stale_claim :
      (s : Store) (os : List (ℕ × Op)) (now : ℕ) (c : Claim) (allow : Bool) (a : Attempt)
      → Valid s
      → by_id c.id s.attempts ≡ some a
      → c.generation < a.lease_generation
      → assert_lease now (run pf s os) c allow ≡ err lease_lost
  stale_claim s os now c allow a v e newer =
      let (b, found, ev) = run-Evolves pf s os c.id a v e in
      elim (assert_lease_cases now (run pf s os) c allow (run-Valid pf s os v).distinct) [
        | inl lost ↦ lost
        | inr (h, held, here) ↦
            let one : h ≡ b = ground arith in
            absurd (
              omega (
                arith,
                held.same_generation,
                ev.generation,
                ap (λ (r : Attempt). r.lease_generation) one,
              ))
      ]

  -- In a valid store and after any history from it, two claims on one attempt at one generation that
  -- both pass belong to the same worker.
  pub one_worker :
      (s : Store) (os : List (ℕ × Op)) (now later : ℕ) (c d : Claim) (allow allow' : Bool)
      {a b : Attempt}
      → Valid s
      → assert_lease now s c allow ≡ ok a
      → assert_lease later (run pf s os) d allow' ≡ ok b
      → d.id ≡ c.id
      → d.generation ≡ c.generation
      → d.worker ≡ c.worker
  one_worker s os now later c d allow allow' {a} {b} v e f i g =
      let (held, found, active) = assert_lease-Held now s c allow v.distinct e in
      let (held', found', active') =
        assert_lease-Held later (run pf s os) d allow' (run-Valid pf s os v).distinct f in
      let (r, there, ev) = run-Evolves pf s os c.id a v found in
      let one : b ≡ r = ground arith in ground arith

  -- A row that can no longer be dispatched: its browser was asked for before, its lease was taken
  -- over once, it is to be cancelled, or it is settled.
  abbrev IsSpent : Attempt → Type 0
  IsSpent a =
      (a.dispatch_started ≡ true)
      ⊎ ((0 < a.recovery_count)
          ⊎ ((is_some a.cancel_requested_at ≡ true) ⊎ (a.state ≡ AttemptState.settled)))

  Evolves-IsSpent : (a b : Attempt) → Evolves a b → IsSpent a → IsSpent b
  Evolves-IsSpent a b e h = ground arith

  -- From a valid store, an attempt that was dispatched, recovered, asked to be cancelled or settled
  -- is dispatched by no claim after any history.
  pub never_dispatched :
      (s : Store) (os : List (ℕ × Op)) (now : ℕ) (c : Claim) (agent task : Text) (a : Attempt)
      (t : Store)
      → Valid s
      → by_id c.id s.attempts ≡ some a
      → IsSpent a
      → dispatch now (run pf s os) c agent task ≢ ok t
  never_dispatched s os now c agent task a t v e spent sent =
      let (b, found, ev) = run-Evolves pf s os c.id a v e in
      let (h, r, lease, read, fresh, unsent, waiting, after) =
        dispatch_inversion pf.redaction now (run pf s os) c agent task sent in
      let (held, there, active) =
        assert_lease-Held now (run pf s os) c false (run-Valid pf s os v).distinct lease in
      let same : b ≡ r = ground (arith, row-by_id (run pf s os) c.id read) in
      let one : b ≡ h = ground arith in
      let quiet : b.cancel_requested_at ≡ none = rw one (active refl) in
      let spent' : IsSpent b = Evolves-IsSpent a b ev spent in ground arith

  -- A dispatch that succeeds in a valid store is the only one of its attempt: after any history no
  -- claim on that attempt dispatches it again.
  pub dispatched_once :
      (s t : Store) (os : List (ℕ × Op)) (now later : ℕ) (c d : Claim)
      (agent task agent' task' : Text) (u : Store)
      → Valid s
      → dispatch now s c agent task ≡ ok t
      → d.id ≡ c.id
      → dispatch later (run pf t os) d agent' task' ≢ ok u
  unfolding perform dispatched
  dispatched_once s t os now later c d agent task agent' task' u v e i =
      let (h, a, lease, read, fresh, unsent, waiting, after) =
        dispatch_inversion pf.redaction now s c agent task e in
      let v' : Valid t = perform-Valid pf now s (Op.dispatches c agent task) v e in
      let found : by_id c.id s.attempts ≡ some a = row-by_id s c.id read in
      let there : by_id c.id t.attempts ≡ some (dispatched agent task a) = rw after (
        by_id-update (dispatched agent task) c.id s.attempts found
          ((==_iff _ _).0 (find?_sound _ s.attempts found))) in
      never_dispatched t os later d agent' task' (dispatched agent task a) u v' (rw i there)
        (inl refl)
