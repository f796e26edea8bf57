-- ===== src/Managed/Refinement/Waiting.antt =====
-- The rows that `claim` has read but not yet considered stay as they were read.
use hack_the_north.Common.{
  ℕ, zero, suc, ◌≡◌, ◌≢◌, none, some, List, [], ◌∷◌, ◌++◌, arith, All, All-append, take,
}
use hack_the_north.Managed.Rows.{AttemptState, Run, Attempt}
use hack_the_north.Managed.Queries.{update}
use hack_the_north.Managed.Claims.{queued_rows, queued_row, owner_of}
use hack_the_north.Managed.Tables.{Distinct, by_id}

-- The pair stands in the table, queued and not cancelled.
abbrev pub Waits : List Attempt → Attempt × ℕ → Type 0
Waits rows q =
    (by_id q.0.id rows ≡ some q.0)
    × (q.0.state ≡ AttemptState.queued)
    × (q.0.cancel_requested_at ≡ none)

abbrev pub Unlike : List (Attempt × ℕ) → Type 0
Unlike [] = Unit
Unlike (q ∷ rest) = All (λ r. r.0.id ≢ q.0.id) rest × Unlike rest

pub by_id-update_ne :
    (f : Attempt → Attempt) (id other : ℕ) (rows : List Attempt) {a : Attempt}
    → other ≢ id
    → by_id other rows ≡ some a
    → ((x : Attempt) → (f x).id ≡ x.id)
    → by_id other (update f id rows) ≡ some a
unfolding update
by_id-update_ne f id other [] n e k = cc
by_id-update_ne f id other (x ∷ rest) {a} n e k =
    ground (arith, k x, by_id-update_ne f id other rest {a = a} n)

-- An update of one row leaves the others waiting.
pub Waits-update :
    (f : Attempt → Attempt) (id : ℕ) (rows : List Attempt) (qs : List (Attempt × ℕ))
    → ((x : Attempt) → (f x).id ≡ x.id)
    → All (λ r. r.0.id ≢ id) qs
    → All (Waits rows) qs
    → All (Waits (update f id rows)) qs
Waits-update f id rows [] k n w = tt
Waits-update f id rows (q ∷ rest) k (n, ns) ((e, w, c), ws) =
    ((by_id-update_ne f id q.0.id rows n e k, w, c), Waits-update f id rows rest k ns ws)

Found : List Attempt → Attempt → Type 0
Found rows a = by_id a.id rows ≡ some a

Found-cons :
    (x : Attempt) (rows xs : List Attempt)
    → All (λ b. b.id ≢ x.id) xs
    → All (Found rows) xs
    → All (Found (x ∷ rows)) xs
unfolding Found
Found-cons x rows [] n h = tt
Found-cons x rows (b ∷ xs) (n, ns) (e, h) = (ground arith, Found-cons x rows xs ns h)

Found-rows : (rows : List Attempt) → Distinct rows → All (Found rows) rows
unfolding Found
Found-rows [] d = tt
Found-rows (x ∷ rest) (n, d) = (ground arith, Found-cons x rest rest n (Found-rows rest d))

-- A row of the query is a row of the table, if it is one at all.
queued_row-Waits :
    (runs : List Run) (rows : List Attempt) (a : Attempt)
    → Found rows a
    → All (Waits rows) (queued_row runs a)
unfolding queued_row Found
queued_row-Waits runs rows a e = ground arith

queued_row-ne :
    (runs : List Run) (id : ℕ) (a : Attempt)
    → a.id ≢ id
    → All (λ r. r.0.id ≢ id) (queued_row runs a)
unfolding queued_row
queued_row-ne runs id a n = ground arith

queued_rows-Waits_from :
    (runs : List Run) (rows xs : List Attempt)
    → All (Found rows) xs
    → All (Waits rows) (queued_rows runs xs)
unfolding queued_rows
queued_rows-Waits_from runs rows [] h = tt
queued_rows-Waits_from runs rows (x ∷ xs) (e, h) =
    All-append (Waits rows) (queued_row runs x) (queued_rows runs xs)
      (queued_row-Waits runs rows x e) (queued_rows-Waits_from runs rows xs h)

pub queued_rows-Waits :
    (runs : List Run) (rows : List Attempt)
    → Distinct rows
    → All (Waits rows) (queued_rows runs rows)
queued_rows-Waits runs rows d = queued_rows-Waits_from runs rows rows (Found-rows rows d)

queued_rows-ne :
    (runs : List Run) (id : ℕ) (xs : List Attempt)
    → All (λ b. b.id ≢ id) xs
    → All (λ r. r.0.id ≢ id) (queued_rows runs xs)
unfolding queued_rows
queued_rows-ne runs id [] h = tt
queued_rows-ne runs id (x ∷ xs) (n, h) =
    All-append (λ r. r.0.id ≢ id) (queued_row runs x) (queued_rows runs xs)
      (queued_row-ne runs id x n) (queued_rows-ne runs id xs h)

-- A row gives at most one pair, which is the row itself.
queued_row-Unlike :
    (runs : List Run) (x : Attempt) (qs : List (Attempt × ℕ))
    → All (λ r. r.0.id ≢ x.id) qs
    → Unlike qs
    → Unlike (queued_row runs x ++ qs)
unfolding queued_row
queued_row-Unlike runs x qs n u = ground arith

pub queued_rows-Unlike :
    (runs : List Run) (xs : List Attempt) → Distinct xs → Unlike (queued_rows runs xs)
unfolding queued_rows
queued_rows-Unlike runs [] d = tt
queued_rows-Unlike runs (x ∷ xs) (n, d) =
    queued_row-Unlike runs x (queued_rows runs xs) (queued_rows-ne runs x.id xs n)
      (queued_rows-Unlike runs xs d)

pub All-take {ℓ} :
    {A : Type ℓ} (P : A → Type 0) (n : ℕ) (xs : List A) → All P xs → All P (take n xs)
All-take P zero xs h = tt
All-take P (suc n) [] h = tt
All-take P (suc n) (x ∷ xs) (p, h) = (p, All-take P n xs h)

pub Unlike-take : (n : ℕ) (qs : List (Attempt × ℕ)) → Unlike qs → Unlike (take n qs)
Unlike-take zero qs u = tt
Unlike-take (suc n) [] u = tt
Unlike-take (suc n) (q ∷ qs) (h, u) = (All-take (λ r. r.0.id ≢ q.0.id) n qs h, Unlike-take n qs u)

queued_row-All :
    (P : Attempt → Type 0) (runs : List Run) (a : Attempt)
    → P a
    → All (λ q. P q.0) (queued_row runs a)
unfolding queued_row
queued_row-All P runs a p = ground arith

queued_row-owner :
    (runs : List Run) (a : Attempt) → All (λ q. owner_of runs q.0 ≡ some q.1) (queued_row runs a)
unfolding queued_row
queued_row-owner runs a = ground arith

-- What holds of every row of the table holds of the rows that were read.
pub queued_rows-All :
    (P : Attempt → Type 0) (runs : List Run) (xs : List Attempt)
    → All P xs
    → All (λ q. P q.0) (queued_rows runs xs)
unfolding queued_rows
queued_rows-All P runs [] h = tt
queued_rows-All P runs (x ∷ xs) (p, h) =
    All-append (λ q. P q.0) (queued_row runs x) (queued_rows runs xs) (queued_row-All P runs x p)
      (queued_rows-All P runs xs h)

-- Each is paired with the owner of its run.
pub queued_rows-owner :
    (runs : List Run) (xs : List Attempt)
    → All (λ q. owner_of runs q.0 ≡ some q.1) (queued_rows runs xs)
unfolding queued_rows
queued_rows-owner runs [] = tt
queued_rows-owner runs (x ∷ xs) =
    All-append (λ q. owner_of runs q.0 ≡ some q.1) (queued_row runs x) (queued_rows runs xs)
      (queued_row-owner runs x) (queued_rows-owner runs xs)
