-- ===== src/Contexts/Fencing.antt =====
-- src/server/workflows/contexts.ts: what claims come to after every history of the contexts.
use hack_the_north.Common.{
  ℕ, ◌+◌, ◌≡◌, ◌≢◌, refl, sym, ap, ◌∙◌, subst, true, false, not, ◌&&◌, ◌||◌, none, some, List, [],
  ◌∷◌, arith, ◌==◌, ◌⊎◌, inl, inr, Bool-cases, ok, err, ◌>>=◌, All, is_some, leb, max, ◌≤◌,
}
use hack_the_north.Contexts.{
  Context, Selection, Store, ContextError, same_job, lookup, find_context, selection_of,
}
use hack_the_north.Contexts.Claiming.{Claim, Answer, claim_row, claim_selected, claim}
use hack_the_north.Contexts.Rows.{Tracks}
use hack_the_north.Contexts.Evolution.{Evolves, Progress}
use hack_the_north.Contexts.Histories.{
  Event, admitting, claiming, beginning, creating_done, creating_failed, adopting, adopting_failed,
  settling, revoking, retiring, deletion_done, deletion_failed, run, releases, Unreleased,
  run-Progress,
}

claim-lookup :
    (now : ℕ) (k : Claim) (s : Store) (x : Selection) (d : Context)
    → selection_of k.attempt s.selections ≡ some x
    → lookup x.context s.contexts ≡ some d
    → claim now k s ≡ ok (claim_row now k d s)
unfolding claim claim_selected find_context
claim-lookup now k s x d chosen row =
    subst (λ o. claim_selected now k s o ≡ ok (claim_row now k d s)) (sym chosen)
      (subst
        (λ o.
          (elim o [ none ↦ err ContextError.not_found | some c ↦ ok c ] >>= λ c.
          ok (claim_row now k c s))
          ≡ ok (claim_row now k d s))
        (sym row) refl)

-- A claim on a row that another job holds.
held_claim :
    (now : ℕ) (k : Claim) (s : Store) (d : Context) (job : ℕ)
    → d.held_job ≡ some job
    → k.job ≢ job
    → (claim_row now k d s ≡ (Answer.wait, s)) ⊎ (claim_row now k d s ≡ (Answer.invalid, s))
unfolding claim_row
held_claim now k s d job held other =
    let theirs : is_some d.held_job && not (same_job d.held_job k.job) ≡ true = ground arith in
    elim (Bool-cases (
      not (d.owner == k.owner)
      || (not (d.scope_signature == k.signature) || (d.is_revoked || leb d.expires_at now)))) [
        | inl bad ↦ inr (simp bad refl)
        | inr good ↦ inl (simp (good, theirs) refl)
      ]

revoked_claim :
    (now : ℕ) (k : Claim) (s : Store) (d : Context)
    → d.is_revoked ≡ true
    → claim_row now k d s ≡ (Answer.invalid, s)
unfolding claim_row
revoked_claim now k s d gone =
    let bad : not (d.owner == k.owner)
          || (not (d.scope_signature == k.signature) || (d.is_revoked || leb d.expires_at now))
        ≡ true =
      ground arith in
    simp bad refl

-- After any history without a settlement of its job that confirms the end of the session, a context
-- that a job holds is still held by it, and a claim of another job on an attempt that selects the
-- context waits or is invalid, and changes nothing.
pub hold_kept :
    (s : Store) (es : List Event) (now : ℕ) (k : Claim) (x : Selection) (c : Context) (job : ℕ)
    → lookup x.context s.contexts ≡ some c
    → c.held_job ≡ some job
    → All (Unreleased job) es
    → selection_of k.attempt (run es s).selections ≡ some x
    → k.job ≢ job
    → (d : Context) × (lookup x.context (run es s).contexts ≡ some d)
      × (d.held_job ≡ some job)
      × ((claim now k (run es s) ≡ ok (Answer.wait, run es s))
          ⊎ (claim now k (run es s) ≡ ok (Answer.invalid, run es s)))
unfolding Progress Tracks Evolves
hold_kept s es now k x c job row held unreleased chosen other =
    let (d, there, (owner, scope, expiry, revoked, keeps)) =
      run-Progress job es s unreleased x.context c row in
    (
      d,
      there,
      keeps held,
      rw (claim-lookup now k (run es s) x d chosen there)
          (elim (held_claim now k (run es s) d job (keeps held) other) [
            | inl waits ↦ inl (ap ok waits)
            | inr refused ↦ inr (ap ok refused)
          ]),
    )

-- A job that no event of a history settles.
settled_job : Event → ℕ
settled_job (settling now k attempt o) = k + 1
settled_job _ = 0

settled_jobs : List Event → ℕ
unfolding settled_job
settled_jobs [] = 0
settled_jobs (e ∷ es) = max (settled_job e) (settled_jobs es)

unsettled_event : (job : ℕ) (e : Event) → settled_job e ≤ job → releases job e ≡ false
unfolding settled_job
unsettled_event job (settling now k attempt o) h = ground arith
unsettled_event job (admitting now owner signature new_id attempt expires b) h = refl
unsettled_event job (claiming now k) h = refl
unsettled_event job (beginning now k id lease provider) h = refl
unsettled_event job (creating_done now id created lease) h = refl
unsettled_event job (creating_failed now id remote) h = refl
unsettled_event job (adopting now k id lease p) h = refl
unsettled_event job (adopting_failed now k id) h = refl
unsettled_event job (revoking now owner id) h = refl
unsettled_event job (retiring now token) h = refl
unsettled_event job (deletion_done now id remote) h = refl
unsettled_event job (deletion_failed now id) h = refl

unsettled : (job : ℕ) (es : List Event) → settled_jobs es ≤ job → All (Unreleased job) es
unfolding settled_jobs
unsettled job [] h = tt
unsettled job (e ∷ es) h = (unsettled_event job e (omega arith), unsettled job es (omega arith))

-- After any history from a store where a context is revoked, a claim on an attempt that selects it
-- is invalid and changes nothing.
pub revoked_unclaimed :
    (s : Store) (es : List Event) (now : ℕ) (k : Claim) (x : Selection) (c : Context)
    → lookup x.context s.contexts ≡ some c
    → c.is_revoked ≡ true
    → selection_of k.attempt (run es s).selections ≡ some x
    → claim now k (run es s) ≡ ok (Answer.invalid, run es s)
unfolding Progress Tracks Evolves
revoked_unclaimed s es now k x c row gone chosen =
    let job = settled_jobs es in
    let (d, there, (owner, scope, expiry, revoked, keeps)) =
      run-Progress job es s (unsettled job es (omega arith)) x.context c row in
    claim-lookup now k (run es s) x d chosen there
    ∙ ap ok (revoked_claim now k (run es s) d (revoked gone))
