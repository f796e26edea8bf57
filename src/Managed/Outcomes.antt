-- ===== src/Managed/Outcomes.antt =====
-- What `finish` of src/server/managed/store.ts charges and what it leaves of the attempt.
use hack_the_north.Common.{
  ℕ, ◌≡◌, ◌≤◌, ◌+◌, ◌-◌, ◌*◌, ◌^◌, min, max, true, false, none, some, ok, arith, if◌then◌else◌,
  ==_iff, find?_sound, or_else,
}
use hack_the_north.Managed.Rows.{AttemptState, Status, Cleanup, Attempt, Store, Claim, Outcome}
use hack_the_north.Managed.Queries.{Redaction}
use hack_the_north.Managed.Lifecycle.{finish, finished, consumed_after, is_allocated}
use hack_the_north.Managed.Tables.{by_id, by_id-update}
use hack_the_north.Managed.Histories.{Valid}
use hack_the_north.Managed.Refinement.Journal.{finish_inversion, opened}

-- The rows of the attempt before and after `finish`.
record Finished (rd : Redaction) (now : ℕ) (s t : Store) (c : Claim) (o : Outcome) : Type 0 where
  before : Attempt
  was : by_id c.id s.attempts ≡ some before
  is : by_id c.id t.attempts ≡ some (finished rd now before o before)

module _ (rd : Redaction) (now : ℕ) (s : Store) (c : Claim) (o : Outcome) (t : Store) where
  finish-Finished : Valid s → finish rd now s c o ≡ ok t → Finished rd now s t c o
  unfolding finished
  finish-Finished v e =
      let (h, a, lease, read, good, after) = finish_inversion rd now s c o e in
      let op = opened now s c true v.distinct lease read in
      let here : a.id ≡ c.id = (==_iff _ _).0 (find?_sound _ s.attempts op.found) in
      record {
        before = a;
        was = op.found;
        is = rw after (by_id-update (finished rd now a o) c.id s.attempts op.found here);
      }

  -- In a valid store, an attempt that is finished with its browser closed is settled, its cleanup is
  -- closed and it holds no lease; what the budgets count for it is its charge exactly; and the charge
  -- is no less than it was, than the reported browser time, or, where a browser may have been
  -- allocated and no time is reported, than all that was reserved for it.
  pub finish_closed :
      Valid s
      → finish rd now s c o ≡ ok t
      → o.closed ≡ true
      → (a b : Attempt) × (by_id c.id s.attempts ≡ some a)
        × (by_id c.id t.attempts ≡ some b)
        × (b.state ≡ AttemptState.settled)
        × (b.cleanup ≡ Cleanup.closed)
        × (b.lease_owner ≡ none)
        × (max (b.reserved_seconds - b.released_seconds) b.consumed_seconds ≡ b.consumed_seconds)
        × (a.consumed_seconds ≤ b.consumed_seconds)
        × (or_else o.actual_browser_ms (if is_allocated a o then a.reserved_seconds * 1000 else 0)
            ≤ b.consumed_seconds * 1000)
  unfolding finished consumed_after is_allocated
  finish_closed v e closed =
      let f = finish-Finished v e in
      (
        f.before,
        finished rd now f.before o f.before,
        f.was,
        f.is,
        ground arith,
        ground arith,
        ground arith,
        ground arith,
        ground arith,
        ground arith,
      )

  -- In a valid store, an attempt that is finished without its browser closed is quarantined until
  -- its cleanup is confirmed: it holds no lease, waits up to a minute for the next recovery, and the
  -- budgets go on counting at least all that was reserved for it and all that it was charged.
  pub finish_unconfirmed :
      Valid s
      → finish rd now s c o ≡ ok t
      → o.closed ≡ false
      → (a b : Attempt) × (by_id c.id s.attempts ≡ some a)
        × (by_id c.id t.attempts ≡ some b)
        × (b.state ≡ AttemptState.quarantined)
        × (b.status ≡ Status.cleanup_required)
        × (b.cleanup ≡ Cleanup.unconfirmed)
        × (b.lease_owner ≡ none)
        × (b.recovery_after ≡ some (now + min 60000 (2000 * 2 ^ a.recovery_count)))
        × (max a.reserved_seconds a.consumed_seconds
            ≤ max (b.reserved_seconds - b.released_seconds) b.consumed_seconds)
  unfolding finished consumed_after is_allocated
  finish_unconfirmed v e unclosed =
      let f = finish-Finished v e in
      (
        f.before,
        finished rd now f.before o f.before,
        f.was,
        f.is,
        ground arith,
        ground arith,
        ground arith,
        ground arith,
        ground arith,
        ground arith,
      )
