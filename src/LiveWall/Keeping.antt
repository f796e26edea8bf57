-- ===== src/LiveWall/Keeping.antt =====
-- What `mergeEvents` of src/lib/live-wall.ts knows after a merge: which event it keeps for a number.
use hack_the_north.Common.{
  sym, find?, Option, some, none, coalesce, is_some, ℕ, ◌≡◌, ◌∙◌, refl, ap, subst, true, false, not,
  ◌&&◌, List, [], ◌∷◌, arith, ◌==◌, leb, if◌then◌else◌, Bool-cases, inl, inr,
}
use hack_the_north.Contracts.{RunEvent}
use hack_the_north.LiveWall.{
  has, set_event, by_sequence, add_incoming, insert_sorted, sort_events, merge_events,
}
use hack_the_north.LiveWall.Merging.{wanted, offered}

-- The event that a list has for a number, and the last one that it has.
abbrev pub event_at : ℕ → List RunEvent → Option RunEvent
event_at n es = find? (λ e. e.sequence == n) es

abbrev pub last_at : ℕ → List RunEvent → Option RunEvent
last_at n [] = none
last_at n (e ∷ rest) = coalesce (last_at n rest) (if e.sequence == n then some e else none)

has_event : (es : List RunEvent) (n : ℕ) → has n es ≡ is_some (event_at n es)
has_event [] n = refl
has_event (e ∷ rest) n = ground (arith, has_event rest n)

set_event-event_at :
    (e : RunEvent) (known : List RunEvent) (n : ℕ)
    → event_at n (set_event e known) ≡ (if e.sequence == n then some e else event_at n known)
unfolding set_event
set_event-event_at e [] n = refl
set_event-event_at e (x ∷ rest) n = elim (Bool-cases (x.sequence == e.sequence)) [
  | inl hit ↦ let same : x.sequence ≡ e.sequence = ground arith in rw hit (ground arith)
  | inr miss ↦ rw (miss, set_event-event_at e rest n) (ground arith)
]

by_sequence-event_at :
    (known events : List RunEvent) (n : ℕ)
    → event_at n (by_sequence known events) ≡ coalesce (last_at n events) (event_at n known)
unfolding by_sequence
by_sequence-event_at known [] n = refl
by_sequence-event_at known (e ∷ rest) n =
    by_sequence-event_at (set_event e known) rest n
    ∙ ap (λ o. coalesce (last_at n rest) o) (set_event-event_at e known n)
    ∙ coalesce_last (last_at n rest) e known
  where
    coalesce_last :
        (o : Option RunEvent) (e : RunEvent) (known : List RunEvent)
        → coalesce o (if e.sequence == n then some e else event_at n known)
          ≡ coalesce (coalesce o (if e.sequence == n then some e else none)) (event_at n known)
    coalesce_last none e known = ground arith
    coalesce_last (some x) e known = refl

coalesce-kept : (o p : Option RunEvent) → is_some o ≡ true → coalesce o p ≡ o
coalesce-kept none p h = ground arith
coalesce-kept (some e) p h = refl

coalesce-none : (o : Option RunEvent) → coalesce o none ≡ o
coalesce-none none = refl
coalesce-none (some e) = refl

absent_at : (o p : Option RunEvent) → is_some o ≡ false → coalesce o p ≡ p
absent_at none p h = refl
absent_at (some e) p h = ground arith

offered-event_at :
    (run_id : ℕ) (known : List RunEvent) (e : RunEvent) (n : ℕ)
    → event_at n (offered run_id known e)
      ≡ coalesce (event_at n known) (if wanted run_id n e then some e else none)
offered-event_at run_id known e n = elim (Bool-cases (e.sequence == n)) [
  | inr other ↦
      let not_wanted : wanted run_id n e ≡ false = ground arith in
      elim (Bool-cases (e.run_id == run_id && not (has e.sequence known))) [
        | inl add ↦
            rw (add, not_wanted)
              (set_event-event_at e known n ∙ rw other (sym (coalesce-none (event_at n known))))
        | inr skip ↦ rw (skip, not_wanted) (sym (coalesce-none (event_at n known)))
      ]
  | inl hit ↦
      let here : e.sequence ≡ n = ground arith in
      let seen : has e.sequence known ≡ is_some (event_at n known) =
        subst (λ m. has m known ≡ is_some (event_at n known)) (sym here) (has_event known n) in
      elim (Bool-cases (e.run_id == run_id && not (has e.sequence known))) [
        | inl add ↦
            let new : is_some (event_at n known) ≡ false = sym seen ∙ ground arith in
            let ours : wanted run_id n e ≡ true = ground arith in
            rw (add, ours)
              (set_event-event_at e known n
                ∙ rw hit (sym (absent_at (event_at n known) (some e) new)))
        | inr skip ↦ elim (Bool-cases (wanted run_id n e)) [
          | inl ours ↦
              let known_at : is_some (event_at n known) ≡ true = sym seen ∙ ground arith in
              rw skip (sym (coalesce-kept (event_at n known) _ known_at))
          | inr not_ours ↦ rw (skip, not_ours) (sym (coalesce-none (event_at n known)))
        ]
      ]
]

add_incoming-event_at :
    (run_id : ℕ) (known incoming : List RunEvent) (n : ℕ)
    → event_at n (add_incoming run_id known incoming)
      ≡ coalesce (event_at n known) (find? (wanted run_id n) incoming)
unfolding add_incoming
add_incoming-event_at run_id known [] n = ground arith
add_incoming-event_at run_id known (e ∷ rest) n =
    add_incoming-event_at run_id (offered run_id known e) rest n
    ∙ ap (λ o. coalesce o (find? (wanted run_id n) rest)) (offered-event_at run_id known e n)
    ∙ ground arith

insert_sorted-event_at :
    (e : RunEvent) (es : List RunEvent) (n : ℕ)
    → event_at n (insert_sorted e es) ≡ (if e.sequence == n then some e else event_at n es)
unfolding insert_sorted
insert_sorted-event_at e [] n = refl
insert_sorted-event_at e (x ∷ rest) n = elim (Bool-cases (leb e.sequence x.sequence)) [
  | inl before ↦ rw before refl
  | inr beyond ↦ rw (beyond, insert_sorted-event_at e rest n) (ground arith)
]

sort_events-event_at : (es : List RunEvent) (n : ℕ) → event_at n (sort_events es) ≡ event_at n es
unfolding sort_events
sort_events-event_at [] n = refl
sort_events-event_at (e ∷ rest) n =
    insert_sorted-event_at e (sort_events rest) n ∙ rw (sort_events-event_at rest n) refl

-- The event that a merge keeps for a sequence number is the last of the known ones that has it, and
-- only where none has it the first that came with the run's id and that number: nothing known is
-- lost or replaced, nothing of another run is taken.
pub merge_events-event_at :
    (current incoming : List RunEvent) (run_id n : ℕ)
    → event_at n (merge_events current incoming run_id).events
      ≡ coalesce (last_at n current) (find? (λ e. e.run_id == run_id && e.sequence == n) incoming)
unfolding merge_events
merge_events-event_at current incoming run_id n =
    sort_events-event_at (add_incoming run_id (by_sequence [] current) incoming) n
    ∙ add_incoming-event_at run_id (by_sequence [] current) incoming n
    ∙ ap (λ o. coalesce o (find? (wanted run_id n) incoming))
        (by_sequence-event_at [] current n ∙ coalesce-none (last_at n current))
