-- ===== src/Contexts/Witnesses.antt =====
-- Runs of the contexts.
use hack_the_north.Common.{◌≡◌, refl, true, false, none, some, List, [], ◌∷◌, ok, ◌⊎◌, arith}
use hack_the_north.Contexts.{Status, Persistence, Context, Selection, Store, lookup, selection_of}
use hack_the_north.Contexts.Claiming.{Claim, Answer, claim}
use hack_the_north.Contexts.Preparing.{Course, prepare}
use hack_the_north.Contexts.Retiring.{Settlement}
use hack_the_north.Contexts.Fencing.{hold_kept, revoked_unclaimed}
use hack_the_north.Contexts.Histories.{
  Event, claiming, beginning, creating_done, adopting, settling, revoking, retiring, deletion_done,
  run,
}

abbrev held : Context
held = record {
  id = 4;
  owner = 1;
  scope_signature = 8;
  remote_id = none;
  status = Status.in_use;
  persistence = Persistence.never_saved;
  created_at = 0;
  available_after = none;
  expires_at = 1000000;
  is_revoked = false;
  held_job = some 20;
  operation_token = none;
}

abbrev choice : Selection
choice = record { attempt = 31; context = 4; persist = true }

abbrev shared : Store
shared = record {
  contexts = held ∷ [];
  selections = record { attempt = 30; context = 4; persist = true } ∷ choice ∷ [];
  operations = [];
  cancels = [];
}

abbrev of_another : Claim
of_another = record { owner = 1; job = 21; attempt = 31; signature = 8 }

abbrev unclear : Settlement
unclear = record { confirmed = false; never_allocated = false; clean = false; recovered = true }

abbrev proven : Settlement
proven = record { confirmed = true; never_allocated = false; clean = true; recovered = false }

-- The job's session is prepared and lost; the owner revokes the context.
abbrev lost : List Event
lost =
    beginning 10 20 4 true true
    ∷ creating_done 20 4 99 true
    ∷ adopting 30 20 4 true Persistence.requested
    ∷ settling 40 20 30 unclear
    ∷ revoking 50 1 4
    ∷ retiring 60 7
    ∷ []

hold_kept_example :
    (d : Context) × (lookup 4 (run lost shared).contexts ≡ some d)
    × (d.held_job ≡ some 20)
    × ((claim 70 of_another (run lost shared) ≡ ok (Answer.wait, run lost shared))
        ⊎ (claim 70 of_another (run lost shared) ≡ ok (Answer.invalid, run lost shared)))
unfolding lookup run selection_of
hold_kept_example =
    hold_kept shared lost 70 of_another choice held 20 refl refl
      (refl, (refl, (refl, (refl, (refl, (refl, tt)))))) refl (λ e. omega (arith, e))

abbrev dropped : Store
dropped = record shared { contexts = record held { is_revoked = true } ∷ [] }

-- The session ends, and the context is deleted.
abbrev retired : List Event
retired =
    beginning 10 20 4 true true
    ∷ creating_done 20 4 99 true
    ∷ settling 40 20 30 proven
    ∷ retiring 20000 7
    ∷ deletion_done 20001 4 99
    ∷ []

revoked_unclaimed_example :
    claim 30000 of_another (run retired dropped) ≡ ok (Answer.invalid, run retired dropped)
unfolding lookup run selection_of
revoked_unclaimed_example =
    revoked_unclaimed dropped retired 30000 of_another choice (record held { is_revoked = true })
      refl refl refl

-- A context that is prepared, saved and used again.
abbrev course : Course
course = record {
  begins = record { now = 10; lease = true };
  created = some 99;
  recorded = record { now = 20; lease = true };
  shown = true;
  adopted = record { now = 30; lease = true };
}

prepared :
    (prepare course true (record of_another { job = 20; attempt = 30 }) shared).1
    ≡ ok (some (99, true))
unfolding prepare
prepared = refl

saved_and_claimed :
    (run
      (settling 40 20 30 proven ∷ claiming 100 of_another ∷ claiming 20000 of_another ∷ [])
      shared).contexts
    ≡ record held {
      held_job = some 21;
      persistence = Persistence.delay_elapsed_unverified;
      available_after = some 10040;
    }
      ∷ []
unfolding run
saved_and_claimed = refl
