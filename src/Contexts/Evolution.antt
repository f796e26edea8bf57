-- ===== src/Contexts/Evolution.antt =====
-- src/server/workflows/contexts.ts: what no operation takes from a context.
use hack_the_north.Common.{
  ℕ, ◌≡◌, ap, refl, subst, Bool, true, not, ◌&&◌, ◌||◌, Option, none, some, [], ◌∷◌, ◌++◌, map,
  arith, ◌==◌, if◌then◌else◌, inl, inr, Bool-cases, ok, >>=-eq-ok, throw_if-eq-ok, is_some, leb,
  any, count_of,
}
use hack_the_north.Contexts.{
  Status, Context, OperationKind, OperationStatus, Store, ContextError, is, same_job, lookup,
  find_context, updated, operation,
}
use hack_the_north.Contexts.Claiming.{BrowserState, selected, choose, assign, new_row, owner_expiry}
use hack_the_north.Contexts.Preparing.{
  set_status, set_remote, begun, record_created, doubt, record_doubt, quarantine, quarantine_held,
  record_failed,
}
use hack_the_north.Contexts.Retiring.{forget, record_deleted, lose, record_lost}
use hack_the_north.Contexts.Rows.{
  Tracks, lookup-append, Tracks-refl, Tracks-trans, map-Tracks, update-Tracks,
}

-- A later row of a context: it is the owner's, of one scope and expiry, still revoked if it was,
-- and still held by a job that held it.
unfoldable pub Evolves : (job : ℕ) → Context → Context → Type 0
Evolves job c d =
    (d.owner ≡ c.owner)
    × (d.scope_signature ≡ c.scope_signature)
    × (d.expires_at ≡ c.expires_at)
    × (c.is_revoked ≡ true → d.is_revoked ≡ true)
    × (c.held_job ≡ some job → d.held_job ≡ some job)

pub Evolves-refl : (job : ℕ) (c : Context) → Evolves job c c
unfolding Evolves
Evolves-refl job c = (refl, refl, refl, λ h. h, λ h. h)

Evolves-trans : (job : ℕ) (a b c : Context) → Evolves job a b → Evolves job b c → Evolves job a c
unfolding Evolves
Evolves-trans job a b c (o, s, e, r, h) (p, t, f, q, g) = (cc, cc, cc, λ x. q (r x), λ x. g (h x))

unfoldable pub Progress : (job : ℕ) → Store → Store → Type 0
Progress job s t = Tracks (Evolves job) s.contexts t.contexts

pub Progress-refl : (job : ℕ) (s : Store) → Progress job s s
unfolding Progress
Progress-refl job s = Tracks-refl (Evolves job) (Evolves-refl job) s.contexts

pub Progress-trans :
    (job : ℕ) (s t u : Store) → Progress job s t → Progress job t u → Progress job s u
unfolding Progress
Progress-trans job s t u =
    Tracks-trans (Evolves job) (Evolves-trans job) s.contexts t.contexts u.contexts

-- A change of a row that leaves what `Evolves` is about.
abbrev pub Mild : (Context → Context) → Type 0
Mild f =
    (c : Context)
    → ((f c).id ≡ c.id)
      × ((f c).owner ≡ c.owner)
      × ((f c).scope_signature ≡ c.scope_signature)
      × ((f c).expires_at ≡ c.expires_at)
      × (c.is_revoked ≡ true → (f c).is_revoked ≡ true)
      × ((f c).held_job ≡ c.held_job)

pub updated-Mild :
    (job id : ℕ) (f : Context → Context) (s : Store) → Mild f → Progress job s (updated id f s)
unfolding Progress updated Evolves
updated-Mild job id f s mild =
    update-Tracks (Evolves job) id f s.contexts (λ c. (mild c).0) (Evolves-refl job)
      (λ c e. let (i, o, g, x, r, h) = mild c in (o, g, x, r, λ held. rw h held))

pub map-Mild :
    (job : ℕ) (f : Context → Context) (s t : Store)
    → Mild f
    → map f s.contexts ≡ t.contexts
    → Progress job s t
unfolding Progress Evolves
map-Mild job f s t mild rows = subst (Tracks (Evolves job) s.contexts) rows (
    map-Tracks (Evolves job) f s.contexts (λ c. (mild c).0)
      (λ i c e. let (i, o, g, x, r, h) = mild c in (o, g, x, r, λ held. rw h held)))

pub set_status-Mild : (t : Status) → Mild (set_status t)
unfolding set_status
set_status-Mild t c = (refl, refl, refl, refl, λ h. h, refl)

pub begun-Progress : (job now : ℕ) (c : Context) (s : Store) → Progress job s (begun now c s)
unfolding begun operation Progress
begun-Progress job now c s = elim (Bool-cases (is_some c.remote_id)) [
  | inl has ↦ rw has (Progress-refl job s)
  | inr lacks ↦
      rw lacks
        (updated-Mild job c.id (set_status Status.creating) s (set_status-Mild Status.creating))
]

-- A step of the same rows of contexts.
pub same_rows : (job : ℕ) (s t : Store) → s.contexts ≡ t.contexts → Progress job s t
unfolding Progress
same_rows job s t e = subst (Tracks (Evolves job) s.contexts) e (Progress-refl job s)

pub if_Mild :
    (p : Context → Bool) (f : Context → Context) → Mild f → Mild (λ c. if p c then f c else c)
if_Mild p f mild c = elim (Bool-cases (p c)) [
  | inl here ↦ rw here (mild c)
  | inr other ↦ rw other (refl, refl, refl, refl, λ h. h, refl)
]

grown :
    (job : ℕ) (s t : Store) (c : Context) → s.contexts ++ (c ∷ []) ≡ t.contexts → Progress job s t
unfolding Progress Tracks
grown job s t c rows i d e = (
  d,
  subst (λ cs. lookup i cs ≡ some d) rows (lookup-append i s.contexts (c ∷ []) e),
  Evolves-refl job d,
)

selected-Progress :
    (job now owner signature new_id : ℕ) (expires : Option ℕ) (b : BrowserState) (s t : Store)
    (id : ℕ) (persist : Bool)
    → selected now owner signature new_id expires b s ≡ ok (some (t, id, persist))
    → Progress job s t
unfolding selected
selected-Progress job now owner signature new_id expires BrowserState.start_fresh s t id persist h =
    ground arith
selected-Progress job now owner signature new_id expires (BrowserState.returning x p) s t id persist
      h =
    let (c, e, more) = >>=-eq-ok (find_context x s.contexts) _ h in
    let (mine, rest) =
      throw_if-eq-ok (not (c.owner == owner) || not (c.scope_signature == signature))
        ContextError.not_found _ more in
    let (usable, done) =
      throw_if-eq-ok
        (c.is_revoked
          || (leb c.expires_at now
              || not (is c.status Status.available || is c.status Status.persisting)))
        ContextError.conflict (ok (some (s, x, p))) rest in
    same_rows job s t (let same : s ≡ t = ground arith in ap (λ x. x.contexts) same)
selected-Progress job now owner signature new_id expires BrowserState.save s t id persist h =
    let (few, more) =
      throw_if-eq-ok (leb 100 (count_of (λ c. c.owner == owner) s.contexts))
        ContextError.rate_limited _ h in
    let (x, e, rest) = >>=-eq-ok (owner_expiry now expires) _ more in
    let row = new_row now owner signature new_id x in
    let (unused, done) =
      throw_if-eq-ok (any (λ c. c.id == new_id) s.contexts) ContextError.constraint
        (ok (some (record s { contexts = s.contexts ++ (row ∷ []) }, new_id, true))) rest in
    let rows : s.contexts ++ (row ∷ []) ≡ t.contexts = ground arith in grown job s t row rows

choose-Progress :
    (job attempt : ℕ) (s : Store) (found : Option (Store × ℕ × Bool)) {t : Store}
    → ((u : Store) (id : ℕ) (persist : Bool) → found ≡ some (u, id, persist) → Progress job s u)
    → choose attempt s found ≡ ok t
    → Progress job s t
unfolding choose
choose-Progress job attempt s none {t} from done =
    same_rows job s t (let same : s ≡ t = ground arith in ap (λ x. x.contexts) same)
choose-Progress job attempt s (some (u, id, persist)) {t} from done =
    let (unchosen, made) =
      throw_if-eq-ok (any (λ x. x.attempt == attempt) u.selections) ContextError.constraint _
        done in
    let rows : u.contexts ≡ t.contexts = ground arith in
    Progress-trans job s u t (from u id persist refl) (same_rows job u t rows)

pub assign-Progress :
    (job now owner signature new_id attempt : ℕ) (expires : Option ℕ) (b : BrowserState) (s : Store)
    {t : Store}
    → assign now owner signature new_id attempt expires b s ≡ ok t
    → Progress job s t
unfolding assign
assign-Progress job now owner signature new_id attempt expires b s {t} h =
    let (found, e, rest) =
      >>=-eq-ok (selected now owner signature new_id expires b s) (choose attempt s) h in
    choose-Progress job attempt s found
      (λ u id persist is.
        selected-Progress job now owner signature new_id expires b s u id persist (rw is at e))
      rest

set_remote-Mild : (r : ℕ) → Mild (set_remote r)
unfolding set_remote
set_remote-Mild r c = (refl, refl, refl, refl, λ h. h, refl)

pub operated :
    (job now id : ℕ) (x : OperationKind) (y : OperationStatus) (u w : Store)
    → Progress job (operation now id x y u) w
    → Progress job u w
unfolding operation Progress
operated job now id x y u w p = p

pub record_created-Progress :
    (job now id created : ℕ) (lease : Bool) (s : Store) {t : Store}
    → record_created now id created lease s ≡ ok t
    → Progress job s t
unfolding record_created
record_created-Progress job now id created lease s {t} h =
    let u : Store = updated id (set_remote created) s in
    let v : Store = operation now id OperationKind.create OperationStatus.returned u in
    let (c, e, rest) = >>=-eq-ok (find_context id s.contexts) _ h in
    let same : updated id (set_status Status.in_use) v ≡ t = ground arith in
    subst (Progress job s) same (
      Progress-trans job s u (updated id (set_status Status.in_use) v)
        (updated-Mild job id (set_remote created) s (set_remote-Mild created))
        (operated job now id OperationKind.create OperationStatus.returned u
          (updated id (set_status Status.in_use) v)
          (updated-Mild job id (set_status Status.in_use) v (set_status-Mild Status.in_use))))

doubted-Progress :
    (job now id : ℕ) (remote : Option ℕ) (s : Store)
    → Progress job s
        (operation now id OperationKind.create OperationStatus.unsure (updated id (doubt remote) s))
unfolding operation doubt Progress
doubted-Progress job now id remote s =
    updated-Mild job id (doubt remote) s (λ c. (refl, refl, refl, refl, λ h. h, refl))

pub record_doubt-Progress :
    (job now id : ℕ) (remote : Option ℕ) (s : Store) {t : Store}
    → record_doubt now id remote s ≡ ok t
    → Progress job s t
unfolding record_doubt doubt
record_doubt-Progress job now id remote s {t} h =
    let u : Store = updated id (doubt remote) s in
    let v : Store = operation now id OperationKind.create OperationStatus.unsure u in
    let same : v ≡ t = ground arith in
    subst (Progress job s) same (doubted-Progress job now id remote s)

pub quarantine-Mild : Mild quarantine
unfolding quarantine
quarantine-Mild c = (refl, refl, refl, refl, λ h. h, refl)

pub record_failed-Progress :
    (job now k id : ℕ) (s : Store) → Progress job s (record_failed now k id s)
unfolding record_failed operation quarantine_held Progress
record_failed-Progress job now k id s =
    updated-Mild job id (quarantine_held k) s
      (if_Mild (λ c. same_job c.held_job k) quarantine quarantine-Mild)

pub record_deleted-Progress :
    (job now id remote : ℕ) (s : Store) → Progress job s (record_deleted now id remote s)
unfolding record_deleted operation forget Progress
record_deleted-Progress job now id remote s = updated-Mild job id (forget remote) s (
    if_Mild
      (λ c.
        same_job c.remote_id remote
        && (is c.status Status.deleting || is c.status Status.deletion_unknown))
      (λ c. record c { status = Status.deleted; remote_id = none })
      (λ c. (refl, refl, refl, refl, λ h. h, refl)))

pub record_lost-Progress : (job now id : ℕ) (s : Store) → Progress job s (record_lost now id s)
unfolding record_lost operation lose Progress
record_lost-Progress job now id s = updated-Mild job id lose s (
    if_Mild (λ c. is c.status Status.deleting) (λ c. record c { status = Status.deletion_unknown })
      (λ c. (refl, refl, refl, refl, λ h. h, refl)))
