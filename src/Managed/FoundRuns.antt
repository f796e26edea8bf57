-- ===== src/Managed/FoundRuns.antt =====
-- What the queries of src/server/managed/store.ts find among the rows of `managed_runs`: a run by its
-- owner and key, and a run by its id.
use hack_the_north.Common.{
  ℕ, ◌≡◌, ◌∙◌, refl, ap, Bool, true, false, ◌&&◌, none, some, List, [], ◌∷◌, ◌++◌, ok, err, arith,
  find?, find?_sound, ◌==◌, Text, Bool-cases, Option-cases, Result-cases, inl, inr,
}
use hack_the_north.Managed.Rows.{Run, Store, StoreError}
use hack_the_north.Managed.Queries.{RunView, Redaction, get}
use hack_the_north.Managed.Lifecycle.{of_key}
use hack_the_north.Managed.KeptRuns.{KeepsRuns}

pub find?-last :
    (p : Run → Bool) (xs : List Run) (x : Run)
    → find? p xs ≡ none
    → p x ≡ true
    → find? p (xs ++ (x ∷ [])) ≡ some x
find?-last p [] x e h = rw h refl
find?-last p (y ∷ ys) x e h = elim (Bool-cases (p y)) [
  | inl hit ↦ ground arith
  | inr miss ↦ rw miss (find?-last p ys x (rw miss at e) h)
]

-- What one test finds another one finds something for.
pub find?_other :
    (p q : Run → Bool) (xs : List Run) {r : Run}
    → find? p xs ≡ some r
    → q r ≡ true
    → (x : Run) × (find? q xs ≡ some x)
find?_other p q [] e h = ground arith
find?_other p q (y ∷ ys) {r} e h = elim (Bool-cases (q y)) [
  | inl here ↦ (y, rw here refl)
  | inr later ↦ elim (Bool-cases (p y)) [
    | inl hit ↦ let same : y ≡ r = ground arith in let both : q y ≡ true = rw same h in ground arith
    | inr miss ↦ let (x, found) = find?_other p q ys (rw miss at e) h in (x, rw later found)
  ]
]

-- The run that a key finds is still found by it.
pub find?-KeepsRuns :
    (owner : ℕ) (key : Text) (xs ys : List Run) {r : Run}
    → KeepsRuns xs ys
    → find? (of_key owner key) xs ≡ some r
    → (x : Run) × (find? (of_key owner key) ys ≡ some x)
      × (x.id ≡ r.id)
      × (x.request_hash ≡ r.request_hash)
find?-KeepsRuns owner key [] ys k e = ground arith
find?-KeepsRuns owner key (x ∷ xs) [] k e = ground arith
find?-KeepsRuns owner key (x ∷ xs) (y ∷ ys) {r} (id, own, keyed, hash, k) e =
    let same : of_key owner key y ≡ of_key owner key x = rw (own, keyed) refl in
    elim (Bool-cases (of_key owner key x)) [
      | inl hit ↦
          let here : x ≡ r = ground arith in
          (
            y,
            rw (same, hit) refl,
            id ∙ ap (λ (z : Run). z.id) here,
            hash ∙ ap (λ (z : Run). z.request_hash) here,
          )
      | inr miss ↦
          let (z, found, same_id, same_hash) = find?-KeepsRuns owner key xs ys k (rw miss at e) in
          (z, rw (same, miss) found, same_id, same_hash)
    ]

module _ (rd : Redaction) where
  get_shown :
      (s : Store) (owner id : ℕ) {r : Run} {v : RunView}
      → find? (λ x. x.id == id && x.owner == owner) s.runs ≡ some r
      → get rd s owner id ≡ ok v
      → v.id ≡ r.id
  unfolding get
  get_shown s owner id found e = ground arith

  get_refused :
      (s : Store) (owner id : ℕ) {r : Run} {x : StoreError}
      → find? (λ x. x.id == id && x.owner == owner) s.runs ≡ some r
      → get rd s owner id ≡ err x
      → true ≡ false
  unfolding get
  get_refused s owner id found e = ground arith

  pub get-some :
      (s : Store) (owner id : ℕ) {r : Run}
      → find? (λ x. x.id == id && x.owner == owner) s.runs ≡ some r
      → (v : RunView) × (get rd s owner id ≡ ok v)
  get-some s owner id found = elim (Result-cases (get rd s owner id)) [
    | inl (v, shown) ↦ (v, shown)
    | inr (x, refused) ↦ let never = get_refused s owner id found refused in ground arith
  ]

  get_missing :
      (s : Store) (owner id : ℕ) {v : RunView}
      → find? (λ x. x.id == id && x.owner == owner) s.runs ≡ none
      → get rd s owner id ≡ ok v
      → v.id ≡ id
  unfolding get
  get_missing s owner id gone e = ground arith

  pub get-id : (s : Store) (owner id : ℕ) {v : RunView} → get rd s owner id ≡ ok v → v.id ≡ id
  get-id s owner id {v} e =
      elim (Option-cases (find? (λ x. x.id == id && x.owner == owner) s.runs)) [
        | inl gone ↦ get_missing s owner id gone e
        | inr (r, found) ↦
            let same : v.id ≡ r.id = get_shown s owner id found e in
            let passes = find?_sound (λ x. x.id == id && x.owner == owner) s.runs found in
            ground arith
      ]
