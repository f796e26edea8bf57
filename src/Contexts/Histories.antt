-- ===== src/Contexts/Histories.antt =====
-- src/server/workflows/contexts.ts: what holds after every history of the contexts. An event is one
-- transaction, with any arguments: the transactions of `prepare` and `retireOne` may come in any
-- order between those of others.
use hack_the_north.Common.{
  ℕ, ◌≡◌, refl, subst, Bool, false, not, ◌&&◌, ◌||◌, Option, List, [], ◌∷◌, arith, ◌==◌, Result, ok,
  err, >>=-eq-ok, All, leb, throw_if-eq-ok,
}
use hack_the_north.Contexts.{
  Status, Persistence, Context, Store, ContextError, is, same_job, updated, find_context,
}
use hack_the_north.Contexts.Claiming.{BrowserState, Claim, assign, claim}
use hack_the_north.Contexts.Preparing.{
  set_persistence, begun, begin_prepare, record_created, record_doubt, adopt, record_failed,
}
use hack_the_north.Contexts.Retiring.{
  Settlement, settle, revoke, begin_retire, record_deleted, record_lost,
}
use hack_the_north.Contexts.Evolution.{
  Progress, Progress-refl, Progress-trans, Mild, updated-Mild, begun-Progress, assign-Progress,
  record_created-Progress, record_doubt-Progress, record_failed-Progress, record_deleted-Progress,
  record_lost-Progress,
}
use hack_the_north.Contexts.Holding.{
  claim-Progress, settle-Progress, revoke-Progress, begin_retire-Progress,
}

pub data Event : Type 0 where
  admitting : (now owner signature new_id attempt : ℕ) → Option ℕ → BrowserState → Event
  claiming : (now : ℕ) → Claim → Event
  beginning : (now job id : ℕ) → (lease provider : Bool) → Event
  creating_done : (now id created : ℕ) → (lease : Bool) → Event
  creating_failed : (now id : ℕ) → Option ℕ → Event
  adopting : (now job id : ℕ) → (lease : Bool) → Persistence → Event
  adopting_failed : (now job id : ℕ) → Event
  settling : (now job attempt : ℕ) → Settlement → Event
  revoking : (now owner id : ℕ) → Event
  retiring : (now token : ℕ) → Event
  deletion_done : (now id remote : ℕ) → Event
  deletion_failed : (now id : ℕ) → Event

-- A transaction that throws is rolled back.
unfoldable pub committed : Store → Result ContextError Store → Store
committed s (ok t) = t
committed s (err e) = s

unfoldable pub committed_second {ℓ} : {A : Type ℓ} → Store → Result ContextError (A × Store) → Store
committed_second s (ok (a, t)) = t
committed_second s (err e) = s

unfoldable pub step : Event → Store → Store
unfolding committed committed_second assign claim begin_prepare record_created record_doubt adopt
    record_failed settle revoke begin_retire record_deleted record_lost
step (admitting now owner signature new_id attempt expires b) s =
    committed s (assign now owner signature new_id attempt expires b s)
step (claiming now k) s = committed_second s (claim now k s)
step (beginning now job id lease provider) s =
    committed_second s (begin_prepare now job id lease provider s)
step (creating_done now id created lease) s = committed s (record_created now id created lease s)
step (creating_failed now id remote) s = committed s (record_doubt now id remote s)
step (adopting now job id lease p) s = committed s (adopt now job id lease p s)
step (adopting_failed now job id) s = record_failed now job id s
step (settling now job attempt o) s = settle now job attempt o s
step (revoking now owner id) s = committed_second s (revoke now owner id s)
step (retiring now token) s = (begin_retire now token s).1
step (deletion_done now id remote) s = record_deleted now id remote s
step (deletion_failed now id) s = record_lost now id s

unfoldable pub run : List Event → Store → Store
unfolding step
run [] s = s
run (e ∷ es) s = run es (step e s)

-- A settlement that releases the hold of a job: one that confirms the end of its session.
abbrev pub releases : (job : ℕ) → Event → Bool
releases job (settling now k attempt o) = o.confirmed && (k == job)
releases job _ = false

committed-Progress :
    (job : ℕ) (s : Store) (r : Result ContextError Store)
    → ((t : Store) → r ≡ ok t → Progress job s t)
    → Progress job s (committed s r)
unfolding committed
committed-Progress job s (ok t) p = p t refl
committed-Progress job s (err e) p = Progress-refl job s

committed_second-Progress {ℓ} :
    {A : Type ℓ} (job : ℕ) (s : Store) (r : Result ContextError (A × Store))
    → ((a : A) (t : Store) → r ≡ ok (a, t) → Progress job s t)
    → Progress job s (committed_second s r)
unfolding committed_second
committed_second-Progress job s (ok (a, t)) p = p a t refl
committed_second-Progress job s (err e) p = Progress-refl job s

begin_prepare-Progress :
    (job now k id : ℕ) (lease provider : Bool) (s : Store) (c : Context) (t : Store)
    → begin_prepare now k id lease provider s ≡ ok (c, t)
    → Progress job s t
unfolding begin_prepare
begin_prepare-Progress job now k id lease provider s c t h =
    let (leased, more) = throw_if-eq-ok (not lease) ContextError.lease_lost _ h in
    let (d, e, rest) = >>=-eq-ok (find_context id s.contexts) _ more in
    let (fit, last) =
      throw_if-eq-ok
        (not (same_job d.held_job k)
          || (d.is_revoked || (leb d.expires_at now || not (is d.status Status.in_use))))
        ContextError.context_claim_unavailable _ rest in
    let (there, done) =
      throw_if-eq-ok (not provider) ContextError.context_provider_unavailable
        (ok (d, begun now d s)) last in
    let row : d ≡ c = ground arith in
    let made : begun now d s ≡ t = ground arith in
    let same : begun now c s ≡ t = subst (λ x. begun now x s ≡ t) row made in
    subst (Progress job s) same (begun-Progress job now c s)

set_persistence-Mild : (p : Persistence) → Mild (set_persistence p)
unfolding set_persistence
set_persistence-Mild p c = (refl, refl, refl, refl, λ h. h, refl)

adopt-Progress :
    (job now k id : ℕ) (lease : Bool) (p : Persistence) (s t : Store)
    → adopt now k id lease p s ≡ ok t
    → Progress job s t
unfolding adopt
adopt-Progress job now k id lease p s t h =
    let (leased, more) = throw_if-eq-ok (not lease) ContextError.lease_lost _ h in
    let (d, e, rest) = >>=-eq-ok (find_context id s.contexts) _ more in
    let (fit, done) =
      throw_if-eq-ok (d.is_revoked || (leb d.expires_at now || not (same_job d.held_job k)))
        ContextError.context_revoked_or_expired (ok (updated id (set_persistence p) s)) rest in
    let same : updated id (set_persistence p) s ≡ t = ground arith in
    subst (Progress job s) same (updated-Mild job id (set_persistence p) s (set_persistence-Mild p))

step-Progress :
    (job : ℕ) (e : Event) (s : Store) → releases job e ≡ false → Progress job s (step e s)
unfolding step
step-Progress job (admitting now owner signature new_id attempt expires b) s h =
    committed-Progress job s (assign now owner signature new_id attempt expires b s)
      (λ t e. assign-Progress job now owner signature new_id attempt expires b s e)
step-Progress job (claiming now k) s h =
    committed_second-Progress job s (claim now k s) (λ a t e. claim-Progress job now k s e)
step-Progress job (beginning now k id lease provider) s h =
    committed_second-Progress job s (begin_prepare now k id lease provider s)
      (λ c t e. begin_prepare-Progress job now k id lease provider s c t e)
step-Progress job (creating_done now id created lease) s h =
    committed-Progress job s (record_created now id created lease s)
      (λ t e. record_created-Progress job now id created lease s e)
step-Progress job (creating_failed now id remote) s h =
    committed-Progress job s (record_doubt now id remote s)
      (λ t e. record_doubt-Progress job now id remote s e)
step-Progress job (adopting now k id lease p) s h =
    committed-Progress job s (adopt now k id lease p s)
      (λ t e. adopt-Progress job now k id lease p s t e)
step-Progress job (adopting_failed now k id) s h = record_failed-Progress job now k id s
step-Progress job (settling now k attempt o) s h =
    settle-Progress job now k attempt o s (λ confirmed same. ground arith)
step-Progress job (revoking now owner id) s h =
    committed_second-Progress job s (revoke now owner id s)
      (λ v t e. revoke-Progress job now owner id s e)
step-Progress job (retiring now token) s h = begin_retire-Progress job now token s
step-Progress job (deletion_done now id remote) s h = record_deleted-Progress job now id remote s
step-Progress job (deletion_failed now id) s h = record_lost-Progress job now id s

abbrev pub Unreleased : (job : ℕ) → Event → Type 0
Unreleased job e = releases job e ≡ false

pub run-Progress :
    (job : ℕ) (es : List Event) (s : Store) → All (Unreleased job) es → Progress job s (run es s)
unfolding run
run-Progress job [] s h = Progress-refl job s
run-Progress job (e ∷ es) s (h, hs) =
    Progress-trans job s (step e s) (run es (step e s)) (step-Progress job e s h)
      (run-Progress job es (step e s) hs)
