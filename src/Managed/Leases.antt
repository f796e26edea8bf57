-- ===== src/Managed/Leases.antt =====
-- What a passed `assertLease` says of the table, and what the code does once it has passed.
use hack_the_north.Common.{
  ℕ, ◌≡◌, ◌≢◌, ◌⊎◌, err, Option-cases, inl, inr, Bool, true, false, none, some, List, [], ◌∷◌, ok,
  arith, Bool-cases, find?, find?-All, find?_sound, text_eq_sound,
}
use hack_the_north.Managed.Rows.{Run, Attempt, Store, Claim, lease_lost}
use hack_the_north.Managed.Queries.{row}
use hack_the_north.Managed.Claims.{holds, assert_lease, is_leasable}
use hack_the_north.Managed.Tables.{Distinct, by_id}

-- With distinct ids the row that any query finds is the row with its id.
pub by_id_of_found :
    (p : Attempt → Bool) (rows : List Attempt) {a : Attempt}
    → Distinct rows
    → find? p rows ≡ some a
    → by_id a.id rows ≡ some a
by_id_of_found p [] d e = cc
by_id_of_found p (x ∷ rest) {a} (n, d) e = elim (Bool-cases (p x)) [
  | inl hit ↦ ground arith
  | inr miss ↦
      let found : find? p rest ≡ some a = ground arith in
      let other : a.id ≢ x.id = find?-All (λ b. b.id ≢ x.id) p rest n found in
      ground (arith, by_id_of_found p rest d found)
]

-- What a worker's claim and the row that it holds agree on.
pub record Held (now : ℕ) (c : Claim) (a : Attempt) : Type 0 where
  pub same_id : a.id ≡ c.id
  pub same_run : a.run_id ≡ c.run_id
  pub leasable : is_leasable a.state ≡ true
  pub leased_by : a.lease_owner ≡ some c.worker
  pub same_generation : a.lease_generation ≡ c.generation
  pub same_token : a.correlation_token ≡ c.correlation_token

holds-Held :
    (now : ℕ) (c : Claim) (runs : List Run) (a : Attempt) → holds now c runs a ≡ true → Held now c a
unfolding holds
holds-Held now c runs a h = ground (arith, text_eq_sound a.correlation_token c.correlation_token)

pub assert_lease-Held :
    (now : ℕ) (s : Store) (c : Claim) (allow : Bool) {a : Attempt}
    → Distinct s.attempts
    → assert_lease now s c allow ≡ ok a
    → Held now c a
      × (by_id c.id s.attempts ≡ some a)
      × (allow ≡ false → a.cancel_requested_at ≡ none)
unfolding assert_lease
assert_lease-Held now s c allow {a} d e =
    let found : find? (holds now c s.runs) s.attempts ≡ some a = ground arith in
    let held : Held now c a = holds-Held now c s.runs a (find?_sound _ s.attempts found) in
    (held, rw (← held.same_id) (by_id_of_found _ s.attempts d found), ground arith)

pub row-by_id : (s : Store) (id : ℕ) {a : Attempt} → row s id ≡ ok a → by_id id s.attempts ≡ some a
unfolding row
row-by_id s id e = ground arith

-- The lease is lost, or the row with the claim's id holds it.
pub assert_lease_cases :
    (now : ℕ) (s : Store) (c : Claim) (allow : Bool)
    → Distinct s.attempts
    → (assert_lease now s c allow ≡ err lease_lost)
      ⊎ ((a : Attempt) × Held now c a × (by_id c.id s.attempts ≡ some a))
unfolding assert_lease
assert_lease_cases now s c allow d = elim (Option-cases (find? (holds now c s.runs) s.attempts)) [
  | inl lost ↦ inl (ground arith)
  | inr (a, found) ↦
      let held : Held now c a = holds-Held now c s.runs a (find?_sound _ s.attempts found) in
      inr (a, held, rw (← held.same_id) (by_id_of_found _ s.attempts d found))
]
