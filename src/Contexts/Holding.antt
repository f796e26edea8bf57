-- ===== src/Contexts/Holding.antt =====
-- src/server/workflows/contexts.ts: what claims, settlements and retirements take from a context.
use hack_the_north.Common.{
  ℕ, ◌≡◌, ◌≢◌, ap, refl, subst, Bool, true, false, not, ◌&&◌, ◌||◌, Option, none, some, List, map,
  arith, ◌==◌, ==_refl, inl, inr, Bool-cases, Option-cases, ok, >>=-eq-ok, throw_if-eq-ok, is_some,
  leb,
}
use hack_the_north.Contexts.{
  Status, Context, Selection, Operation, Store, ContextError, View, is, same_job, lookup,
  find_context, row_update, updated, selection_of, operation, view,
}
use hack_the_north.Contexts.Claiming.{
  Claim, Answer, hold, elapse, claim_row, claim_selected, claim, later,
}
use hack_the_north.Contexts.Preparing.{set_status, quarantine}
use hack_the_north.Contexts.Retiring.{
  Settlement, let_go, settle_row, settle_held, settle_selected, settle, revoke_row, revoked_store,
  revoke, is_retirable, oldest, give_up, expire_row, unknown_status, retire_unknown, ask_deletion,
  retire_row, retire_remote, retire_found, swept, begin_retire, mark,
}
use hack_the_north.Contexts.Rows.{
  KeepsId, lookup_own, lookup-map, find_context-eq-ok, update-Tracks,
}
use hack_the_north.Contexts.Evolution.{
  Evolves, Evolves-refl, Progress, Progress-refl, Progress-trans, Mild, updated-Mild, map-Mild,
  set_status-Mild, if_Mild, quarantine-Mild, same_rows,
}

-- A row that passes to a job which no other one held.
hold-Progress :
    (job : ℕ) (k : Claim) (c : Context) (s : Store)
    → lookup c.id s.contexts ≡ some c
    → is_some c.held_job && not (same_job c.held_job k.job) ≡ false
    → Progress job s (updated c.id (hold k.job) s)
unfolding Progress updated Evolves hold
hold-Progress job k c s found mine =
    update-Tracks (Evolves job) c.id (hold k.job) s.contexts (λ d. refl) (Evolves-refl job)
      (λ d e. (
        refl,
        refl,
        refl,
        λ h. h,
        λ held.
            let same : c ≡ d = ground arith in
            let mine_too : is_some d.held_job && not (same_job d.held_job k.job) ≡ false =
              rw same at mine in
            ground (arith),
      ))

elapse-Mild : Mild elapse
unfolding elapse
elapse-Mild c = (refl, refl, refl, refl, λ h. h, refl)

keeps_row : (id : ℕ) → KeepsId (row_update id elapse)
unfolding row_update elapse
keeps_row id c = elim (Bool-cases (c.id == id)) [
  | inl here ↦ rw here refl
  | inr other ↦ rw other refl
]

lookup-elapse :
    (c : Context) (s : Store)
    → lookup c.id s.contexts ≡ some c
    → lookup c.id (updated c.id elapse s).contexts ≡ some (elapse c)
unfolding updated row_update
lookup-elapse c s e =
    rw (lookup-map c.id (row_update c.id elapse) s.contexts (keeps_row c.id) e)
      (rw (==_refl c.id) refl)

claim_row-Progress :
    (job now : ℕ) (k : Claim) (c : Context) (s : Store)
    → lookup c.id s.contexts ≡ some c
    → Progress job s (claim_row now k c s).1
unfolding claim_row elapse
claim_row-Progress job now k c s found =
    elim (Bool-cases (
      not (c.owner == k.owner)
      || (not (c.scope_signature == k.signature) || (c.is_revoked || leb c.expires_at now)))) [
        | inl bad ↦ rw bad (Progress-refl job s)
        | inr good ↦ elim (Bool-cases (is_some c.held_job && not (same_job c.held_job k.job))) [
          | inl held ↦ rw (good, held) (Progress-refl job s)
          | inr mine ↦ elim (Bool-cases (is c.status Status.persisting)) [
            | inl saving ↦ elim (Bool-cases (later c.available_after now)) [
              | inl early ↦ rw (good, mine, saving, early) (Progress-refl job s)
              | inr due ↦
                  rw (good, mine, saving, due)
                    (Progress-trans job s (updated c.id elapse s)
                      (updated c.id (hold k.job) (updated c.id elapse s))
                      (updated-Mild job c.id elapse s elapse-Mild)
                      (hold-Progress job k (elapse c) (updated c.id elapse s)
                        (lookup-elapse c s found) mine))
            ]
            | inr other ↦
                elim (Bool-cases
                  (not (is c.status Status.pending || is c.status Status.available))) [
                    | inl unfit ↦ rw (good, mine, other, unfit) (Progress-refl job s)
                    | inr fit ↦ rw (good, mine, other, fit) (hold-Progress job k c s found mine)
                  ]
          ]
        ]
      ]

claim_selected-Progress :
    (job now : ℕ) (k : Claim) (s : Store) (o : Option Selection) {a : Answer} {t : Store}
    → claim_selected now k s o ≡ ok (a, t)
    → Progress job s t
unfolding claim_selected
claim_selected-Progress job now k s none {a} {t} h =
    let same : s ≡ t = ground arith in same_rows job s t (ap (λ x. x.contexts) same)
claim_selected-Progress job now k s (some x) {a} {t} h =
    let (c, e, rest) =
      >>=-eq-ok (find_context x.context s.contexts) (λ c. ok (claim_row now k c s)) h in
    let row : lookup x.context s.contexts ≡ some c = find_context-eq-ok x.context s.contexts e in
    let own : lookup c.id s.contexts ≡ some c = lookup_own x.context s.contexts row in
    let same : (claim_row now k c s).1 ≡ t = ground arith in
    subst (Progress job s) same (claim_row-Progress job now k c s own)

pub claim-Progress :
    (job now : ℕ) (k : Claim) (s : Store) {a : Answer} {t : Store}
    → claim now k s ≡ ok (a, t)
    → Progress job s t
unfolding claim
claim-Progress job now k s h =
    claim_selected-Progress job now k s (selection_of k.attempt s.selections) h

let_go-Progress :
    (job now : ℕ) (persist : Bool) (o : Settlement) (c : Context) (s : Store)
    → lookup c.id s.contexts ≡ some c
    → c.held_job ≢ some job
    → Progress job s (updated c.id (let_go now persist o) s)
unfolding Progress updated Evolves let_go
let_go-Progress job now persist o c s found other =
    update-Tracks (Evolves job) c.id (let_go now persist o) s.contexts (λ d. refl)
      (Evolves-refl job)
      (λ d e. (
        refl,
        refl,
        refl,
        λ h. h,
        λ held.
            let same : c ≡ d = ground arith in
            let own : c.held_job ≡ some job = rw same held in absurd (other own),
      ))

settle_row-Progress :
    (job now : ℕ) (persist : Bool) (o : Settlement) (c : Context) (s : Store)
    → lookup c.id s.contexts ≡ some c
    → (o.confirmed ≡ true → c.held_job ≢ some job)
    → Progress job s (settle_row now persist o c s)
unfolding settle_row
settle_row-Progress job now persist o c s found fair = elim (Bool-cases o.confirmed) [
  | inr unconfirmed ↦ simp unconfirmed (updated-Mild job c.id quarantine s quarantine-Mild)
  | inl confirmed ↦
      (Progress-trans job s (updated c.id (let_go now persist o) s) (settle_row now persist o c s)
        (let_go-Progress job now persist o c s found (fair confirmed))
        (same_rows job (updated c.id (let_go now persist o) s) (settle_row now persist o c s)
          (simp confirmed refl)))
]

settle_held-Progress :
    (job now k i : ℕ) (persist : Bool) (o : Settlement) (s : Store) (found : Option Context)
    → lookup i s.contexts ≡ found
    → (o.confirmed ≡ true → k ≢ job)
    → Progress job s (settle_held now k persist o s found)
unfolding settle_held
settle_held-Progress job now k i persist o s none e fair = Progress-refl job s
settle_held-Progress job now k i persist o s (some c) e fair =
    elim (Bool-cases (same_job c.held_job k)) [
      | inr other ↦ rw other (Progress-refl job s)
      | inl mine ↦
          let own : lookup c.id s.contexts ≡ some c = lookup_own i s.contexts e in
          simp mine
            (settle_row-Progress job now persist o c s own (λ yes held. fair yes (ground arith)))
    ]

pub settle-Progress :
    (job now k attempt : ℕ) (o : Settlement) (s : Store)
    → (o.confirmed ≡ true → k ≢ job)
    → Progress job s (settle now k attempt o s)
unfolding settle settle_selected
settle-Progress job now k attempt o s fair =
    elim (Option-cases (selection_of attempt s.selections)) [
      | inl gone ↦ simp gone (Progress-refl job s)
      | inr (x, chosen) ↦ simp chosen (
          settle_held-Progress job now k x.context x.persist o s (lookup x.context s.contexts) refl
            fair)
    ]

revoked_store-Progress :
    (job now : ℕ) (c : Context) (s : Store) → Progress job s (revoked_store now c s)
unfolding revoked_store revoke_row Progress
revoked_store-Progress job now c s =
    updated-Mild job c.id revoke_row s (λ d. (refl, refl, refl, refl, λ h. refl, refl))

pub revoke-Progress :
    (job now owner id : ℕ) (s : Store) {v : View} {t : Store}
    → revoke now owner id s ≡ ok (v, t)
    → Progress job s t
unfolding revoke
revoke-Progress job now owner id s {v} {t} h =
    let (c, e, more) = >>=-eq-ok (find_context id s.contexts) _ h in
    let (mine, rest) = throw_if-eq-ok (not (c.owner == owner)) ContextError.not_found _ more in
    elim (Bool-cases (is c.status Status.deleted)) [
      | inl gone ↦ let same : s ≡ t = ground arith in same_rows job s t (ap (λ x. x.contexts) same)
      | inr there ↦
          let (d, found, done) =
            >>=-eq-ok (find_context id (revoked_store now c s).contexts)
              (λ d. ok (view d, revoked_store now c s)) (rw there at rest) in
          let same : revoked_store now c s ≡ t = ground arith in
          subst (Progress job s) same (revoked_store-Progress job now c s)
    ]

give_up-Mild : (now : ℕ) (ops : List Operation) → Mild (give_up now ops)
unfolding give_up
give_up-Mild now ops =
    if_Mild _ (λ c. record c { status = Status.deletion_unknown })
      (λ c. (refl, refl, refl, refl, λ h. h, refl))

expire_row-Mild : (now : ℕ) → Mild (expire_row now)
unfolding expire_row
expire_row-Mild now =
    if_Mild (λ c. leb c.expires_at now && not (is c.status Status.deleted))
      (λ c. record c { is_revoked = true }) (λ c. (refl, refl, refl, refl, λ h. refl, refl))

pub swept-Progress : (job now : ℕ) (s : Store) → Progress job s (swept now s)
unfolding swept
swept-Progress job now s =
    let mid : Store = record s { contexts = map (give_up now s.operations) s.contexts } in
    Progress-trans job s mid (swept now s)
      (map-Mild job (give_up now s.operations) s mid (give_up-Mild now s.operations) refl)
      (map-Mild job (expire_row now) mid (swept now s) (expire_row-Mild now) refl)

retire_remote-Progress :
    (job now token : ℕ) (c : Context) (s : Store) (o : Option ℕ)
    → Progress job s (retire_remote now token c s o).1
unfolding retire_remote retire_unknown ask_deletion operation mark Progress
retire_remote-Progress job now token c s none =
    updated-Mild job c.id (set_status (unknown_status c s)) s (set_status-Mild (unknown_status c s))
retire_remote-Progress job now token c s (some r) =
    updated-Mild job c.id (mark token) s (λ d. (refl, refl, refl, refl, λ h. h, refl))

retire_found-Progress :
    (job now token : ℕ) (s : Store) (o : Option Context)
    → Progress job s (retire_found now token s o).1
unfolding retire_found retire_row
retire_found-Progress job now token s none = Progress-refl job s
retire_found-Progress job now token s (some c) =
    retire_remote-Progress job now token c s c.remote_id

pub begin_retire-Progress :
    (job now token : ℕ) (s : Store) → Progress job s (begin_retire now token s).1
unfolding begin_retire
begin_retire-Progress job now token s =
    let t = swept now s in
    Progress-trans job s t (begin_retire now token s).1 (swept-Progress job now s)
      (retire_found-Progress job now token t (oldest (is_retirable now) t.contexts))
