-- ===== src/Managed/Repeating.antt =====
-- `existing` and `create` of src/server/managed/store.ts: what a request finds that repeats the key of
-- an earlier one.
use hack_the_north.Common.{
  ℕ, ◌≡◌, ◌∙◌, ◌⊎◌, refl, sym, ap, subst, Bool, true, false, ◌&&◌, none, some, List, [], ◌∷◌, ok,
  err, arith, find?, find?_sound, any, ◌==◌, text_eq, text_eq_refl, Text, Bool-cases, Result-cases,
  inl, inr, >>=-eq-ok, throw_if, if◌then◌else◌, ==_refl,
}
use hack_the_north.Managed.Rows.{Run, Store, Persona, conflict, constraint_violation}
use hack_the_north.Managed.Queries.{M, RunView, Redaction, get}
use hack_the_north.Managed.Lifecycle.{
  ManagedCreate, Fresh, of_key, snapshots, insert_attempts, create_ok, existing, create_new, create,
  cancel,
}
use hack_the_north.Managed.Claims.{claim, heartbeat}
use hack_the_north.Managed.Histories.{
  Op, creates, cancels, claims, beats, dispatches, fails_create, identifies, reports, shows,
  finishes, Platform, perform, second_inversion, step, run,
}
use hack_the_north.Managed.KeptRuns.{
  KeepsRuns, KeepsRuns-refl, KeepsRuns-trans, KeepsRuns-append, KeepsRuns-touch_runs,
  claim-KeepsRuns, heartbeat-runs, dispatch-runs, identity-runs, session_view-runs,
  create_failure-runs, progress-Touched, finish-runs, cancel-KeepsRuns,
}
use hack_the_north.Managed.FoundRuns.{find?-last, find?_other, find?-KeepsRuns, get-some, get-id}

own_key : (owner : ℕ) (key : Text) → owner == owner && text_eq key key ≡ true
own_key owner key = rw (==_refl owner, text_eq_refl key) refl

returned :
    {v w : RunView} {b c : Bool} {s t : Store}
    → ◌≡◌ {A = M ((RunView × Bool) × Store)} (ok ((v, b), s)) (ok ((w, c), t))
    → (v ≡ w) × (s ≡ t)
returned e = ground arith

-- What a request that succeeds leaves: the run that the owner's key finds answered it.
abbrev Answered : Redaction → ℕ → Text → ℕ → RunView → Store → Type 0
Answered rd owner key hash v t =
    (r : Run) × (find? (of_key owner key) t.runs ≡ some r)
    × (r.request_hash ≡ hash)
    × (get rd t owner r.id ≡ ok v)

module _ (rd : Redaction) (digest : ManagedCreate → ℕ) (now : ℕ) where
  create_new-Answered :
      (s : Store) (fresh : Fresh) (owner : ℕ) (key : Text) (q : ManagedCreate)
      (personas : List Persona) {v : RunView} {new : Bool} {t : Store}
      → find? (of_key owner key) s.runs ≡ none
      → create_new rd digest now s fresh owner key q personas ≡ ok ((v, new), t)
      → KeepsRuns s.runs t.runs × Answered rd owner key (digest q) v t
  unfolding create_new
  create_new-Answered s fresh owner key q personas {v} {new} {t} unused e =
      let (chosen, selected, e₁) = >>=-eq-ok (snapshots personas q.assignments) _ e in
      let (unique, free, e₂) =
        >>=-eq-ok (throw_if (any (λ r. r.id == fresh.run) s.runs) constraint_violation) _ e₁ in
      let (rows, inserted, e₃) = >>=-eq-ok (insert_attempts fresh 0 chosen s.attempts) _ e₂ in
      let (view, shown, e₄) = >>=-eq-ok (get rd _ owner fresh.run) _ e₃ in
      let (seen, made) = returned e₄ in
      subst (λ u. KeepsRuns s.runs u.runs × Answered rd owner key (digest q) v u) made
        (
          KeepsRuns-append s.runs _,
          (
            _,
            find?-last (of_key owner key) s.runs _ unused (own_key owner key),
            refl,
            shown ∙ ap (λ x. ok x) seen,
          ),
        )

  create_cases :
      (s : Store) (fresh : Fresh) (owner : ℕ) (key : Text) (q : ManagedCreate)
      (personas : List Persona) {v : RunView} {new : Bool} {t : Store}
      → create rd digest now s fresh owner key q personas ≡ ok ((v, new), t)
      → ((t ≡ s) × Answered rd owner key (digest q) v s)
        ⊎ ((find? (of_key owner key) s.runs ≡ none)
            × (create_new rd digest now s fresh owner key q personas ≡ ok ((v, new), t)))
  unfolding create existing
  create_cases s fresh owner key q personas e = ground arith

  -- A request that succeeds is answered by the run that the owner's key then finds.
  create-Answered :
      (s : Store) (fresh : Fresh) (owner : ℕ) (key : Text) (q : ManagedCreate)
      (personas : List Persona) {v : RunView} {new : Bool} {t : Store}
      → create rd digest now s fresh owner key q personas ≡ ok ((v, new), t)
      → KeepsRuns s.runs t.runs × Answered rd owner key (digest q) v t
  create-Answered s fresh owner key q personas e =
      elim (create_cases s fresh owner key q personas e) [
        | inl (same, known) ↦ rw same (KeepsRuns-refl s.runs, known)
        | inr (unused, h) ↦ create_new-Answered s fresh owner key q personas unused h
      ]

module _ (pf : Platform) where
  perform-KeepsRuns :
      (now : ℕ) (s : Store) (op : Op) {t : Store}
      → perform pf now s op ≡ ok t
      → KeepsRuns s.runs t.runs
  unfolding perform
  perform-KeepsRuns now s (creates fresh owner key q personas) e =
      let ((v, new), h) =
        second_inversion (create pf.redaction pf.digest now s fresh owner key q personas) e in
      (create-Answered pf.redaction pf.digest now s fresh owner key q personas h).0
  perform-KeepsRuns now s (cancels owner id) e =
      let (v, h) = second_inversion (cancel pf.redaction now s owner id) e in
      cancel-KeepsRuns now pf.redaction s owner id h
  perform-KeepsRuns now s (claims worker p) e =
      let (c, h) = second_inversion (claim now s worker p) e in
      claim-KeepsRuns now pf.redaction worker p s h
  perform-KeepsRuns now s (beats c ms) e =
      let (stop, h) = second_inversion (heartbeat now s c ms) e in
      rw (heartbeat-runs now s c ms h) (KeepsRuns-refl s.runs)
  perform-KeepsRuns now s (dispatches c agent task) e =
      rw (dispatch-runs now s c agent task e) (KeepsRuns-touch_runs now c.run_id s.runs)
  perform-KeepsRuns now s (fails_create c f) e =
      rw (create_failure-runs now pf.redaction s c f e) (KeepsRuns-touch_runs now c.run_id s.runs)
  perform-KeepsRuns now s (identifies c run session) e =
      rw (identity-runs now s c run session e) (KeepsRuns-touch_runs now c.run_id s.runs)
  perform-KeepsRuns now s (reports c hash kind text) e =
      elim (progress-Touched now pf.redaction s c hash kind text e) [
        | inl same ↦ rw same (KeepsRuns-refl s.runs)
        | inr moved ↦ rw moved (KeepsRuns-touch_runs now c.run_id s.runs)
      ]
  perform-KeepsRuns now s (shows c live replay) e =
      rw (session_view-runs now pf.view_ok s c live replay e)
        (KeepsRuns-touch_runs now c.run_id s.runs)
  perform-KeepsRuns now s (finishes c o) e =
      rw (finish-runs now pf.redaction s c o e) (KeepsRuns-touch_runs now c.run_id s.runs)

  run-KeepsRuns : (os : List (ℕ × Op)) (s : Store) → KeepsRuns s.runs (run pf s os).runs
  unfolding run step
  run-KeepsRuns [] s = KeepsRuns-refl s.runs
  run-KeepsRuns ((now, op) ∷ rest) s = elim (Result-cases (perform pf now s op)) [
    | inl (t, e) ↦
        rw (e, run)
          (KeepsRuns-trans s.runs t.runs (run pf t rest).runs (perform-KeepsRuns now s op e)
            (run-KeepsRuns rest t))
    | inr (x, e) ↦ rw (e, run) (run-KeepsRuns rest s)
  ]

  repeated :
      (later : ℕ) (u : Store) (again : Fresh) (owner : ℕ) (key : Text) (q : ManagedCreate)
      (others : List Persona) {r : Run} {w : RunView}
      → create_ok q ≡ true
      → find? (of_key owner key) u.runs ≡ some r
      → get pf.redaction u owner r.id ≡ ok w
      → create pf.redaction pf.digest later u again owner key q others
        ≡ (if r.request_hash == pf.digest q then ok ((w, false), u) else err conflict)
  unfolding create existing
  repeated later u again owner key q others {r} good found shown =
      elim (Bool-cases (r.request_hash == pf.digest q)) [
        | inl same ↦ rw (good, found, same, shown)
        | inr other ↦ rw (good, found, other)
      ]

  -- After a request that succeeded and any history, an accepted request of the same owner with the
  -- same key creates nothing and leaves the store as it is: with the digest of the first one it
  -- returns a view of the same run, marked as not new, and with another digest it is a conflict.
  pub create_repeated :
      (now later : ℕ) (s t : Store) (fresh again : Fresh) (owner : ℕ) (key : Text)
      (first second : ManagedCreate) (personas others : List Persona) (v : RunView) (new : Bool)
      (os : List (ℕ × Op))
      → create pf.redaction pf.digest now s fresh owner key first personas ≡ ok ((v, new), t)
      → create_ok second ≡ true
      → (w : RunView) × (w.id ≡ v.id)
        × (create pf.redaction pf.digest later (run pf t os) again owner key second others ≡ (
            if pf.digest first == pf.digest second
            then ok ((w, false), run pf t os)
            else err conflict))
  create_repeated now later s t fresh again owner key first second personas others v new os e good =
      let u = run pf t os in
      let (keeps, (r, found, hash, shown)) =
        create-Answered pf.redaction pf.digest now s fresh owner key first personas e in
      let (x, found_later, id, hash_later) =
        find?-KeepsRuns owner key t.runs u.runs (run-KeepsRuns os t) found in
      let (y, by_id) =
        find?_other (of_key owner key) (λ z. z.id == x.id && z.owner == owner) u.runs found_later
          (own x (find?_sound (of_key owner key) u.runs found_later)) in
      let (w, shown_later) = get-some pf.redaction u owner x.id by_id in
      (
        w,
        get-id pf.redaction u owner x.id shown_later
            ∙ id
            ∙ sym (get-id pf.redaction t owner r.id shown),
        subst
            (λ h.
              create pf.redaction pf.digest later u again owner key second others
              ≡ (if h == pf.digest second then ok ((w, false), u) else err conflict))
            (hash_later ∙ hash)
            (repeated later u again owner key second others good found_later shown_later),
      )
    where
      own : (x : Run) → of_key owner key x ≡ true → x.id == x.id && x.owner == owner ≡ true
      own x h = ground (arith, ==_refl x.id)
