-- ===== src/LiveWall/Merging.antt =====
-- How far the cursor of `mergeEvents` of src/lib/live-wall.ts is.
use hack_the_north.Common.{
  zero, suc, ℕ, ◌+◌, ◌≡◌, ◌≤◌, ◌<◌, refl, subst, Bool, true, false, not, ◌&&◌, ◌||◌, List, [], ◌∷◌,
  arith, ◌==◌, any, leb, if◌then◌else◌, Bool-cases, inl, inr,
}
use hack_the_north.Contracts.{RunEvent}
use hack_the_north.LiveWall.{
  has, set_event, by_sequence, add_incoming, insert_sorted, sort_events, prefix_cursor,
  merge_events,
}

-- No two events of a list have one sequence number.
abbrev Unique : List RunEvent → Type 0
Unique [] = Unit
Unique (e ∷ rest) = (has e.sequence rest ≡ false) × Unique rest

-- Sequence numbers above a bound, strictly increasing.
abbrev Ascending : ℕ → List RunEvent → Type 0
Ascending lo [] = Unit
Ascending lo (e ∷ rest) = (lo < e.sequence) × Ascending e.sequence rest

set_event-has :
    (e : RunEvent) (known : List RunEvent) (n : ℕ)
    → has n (set_event e known) ≡ (e.sequence == n) || has n known
unfolding set_event
set_event-has e [] n = ground arith
set_event-has e (x ∷ rest) n = ground (arith, set_event-has e rest n)

set_event-Unique :
    (e : RunEvent) (known : List RunEvent) → Unique known → Unique (set_event e known)
unfolding set_event
set_event-Unique e [] u = (refl, tt)
set_event-Unique e (x ∷ rest) (absent, u) = elim (Bool-cases (x.sequence == e.sequence)) [
  | inl hit ↦ rw hit (ground arith, u)
  | inr miss ↦ rw miss (ground (arith, set_event-has e rest x.sequence), set_event-Unique e rest u)
]

abbrev pub wanted : ℕ → ℕ → RunEvent → Bool
wanted run_id n e = e.run_id == run_id && e.sequence == n

-- The map after one more event is offered to it.
abbrev pub offered : ℕ → List RunEvent → RunEvent → List RunEvent
offered run_id known e =
    if e.run_id == run_id && not (has e.sequence known) then set_event e known else known

skipped-has :
    (run_id : ℕ) (known : List RunEvent) (e : RunEvent) (n : ℕ)
    → e.run_id == run_id && not (has e.sequence known) ≡ false
    → has n known ≡ has n known || wanted run_id n e
skipped-has run_id known e n skip = elim (Bool-cases (e.sequence == n)) [
  | inl hit ↦
      let here : e.sequence ≡ n = ground arith in
      subst (λ m. has m known ≡ has m known || wanted run_id m e) here (ground arith)
  | inr miss ↦ ground arith
]

offered-has :
    (run_id : ℕ) (known : List RunEvent) (e : RunEvent) (n : ℕ)
    → has n (offered run_id known e) ≡ has n known || wanted run_id n e
offered-has run_id known e n =
    elim (Bool-cases (e.run_id == run_id && not (has e.sequence known))) [
      | inl add ↦ rw add (ground (arith, set_event-has e known n))
      | inr skip ↦ rw skip (skipped-has run_id known e n skip)
    ]

offered-Unique :
    (run_id : ℕ) (known : List RunEvent) (e : RunEvent)
    → Unique known
    → Unique (offered run_id known e)
offered-Unique run_id known e u =
    elim (Bool-cases (e.run_id == run_id && not (has e.sequence known))) [
      | inl add ↦ rw add (set_event-Unique e known u)
      | inr skip ↦ rw skip u
    ]

add_incoming-has :
    (run_id : ℕ) (known incoming : List RunEvent) (n : ℕ)
    → has n (add_incoming run_id known incoming) ≡ has n known || any (wanted run_id n) incoming
unfolding add_incoming
add_incoming-has run_id known [] n = ground arith
add_incoming-has run_id known (e ∷ rest) n =
    ground
      (arith, add_incoming-has run_id (offered run_id known e) rest n, offered-has run_id known e n)

add_incoming-Unique :
    (run_id : ℕ) (known incoming : List RunEvent)
    → Unique known
    → Unique (add_incoming run_id known incoming)
unfolding add_incoming
add_incoming-Unique run_id known [] u = u
add_incoming-Unique run_id known (e ∷ rest) u =
    add_incoming-Unique run_id (offered run_id known e) rest (offered-Unique run_id known e u)

by_sequence-has :
    (known events : List RunEvent) (n : ℕ)
    → has n (by_sequence known events) ≡ has n known || has n events
unfolding by_sequence
by_sequence-has known [] n = ground arith
by_sequence-has known (e ∷ rest) n =
    ground (arith, by_sequence-has (set_event e known) rest n, set_event-has e known n)

by_sequence-Unique :
    (known events : List RunEvent) → Unique known → Unique (by_sequence known events)
unfolding by_sequence
by_sequence-Unique known [] u = u
by_sequence-Unique known (e ∷ rest) u =
    by_sequence-Unique (set_event e known) rest (set_event-Unique e known u)

insert_sorted-has :
    (e : RunEvent) (es : List RunEvent) (n : ℕ)
    → has n (insert_sorted e es) ≡ (e.sequence == n) || has n es
unfolding insert_sorted
insert_sorted-has e [] n = refl
insert_sorted-has e (x ∷ rest) n = ground (arith, insert_sorted-has e rest n)

sort_events-has : (es : List RunEvent) (n : ℕ) → has n (sort_events es) ≡ has n es
unfolding sort_events
sort_events-has [] n = refl
sort_events-has (e ∷ rest) n =
    ground (arith, insert_sorted-has e (sort_events rest) n, sort_events-has rest n)

insert_sorted-Ascending :
    (lo : ℕ) (e : RunEvent) (es : List RunEvent)
    → Ascending lo es
    → lo < e.sequence
    → has e.sequence es ≡ false
    → Ascending lo (insert_sorted e es)
unfolding insert_sorted
insert_sorted-Ascending lo e [] a up new = (up, tt)
insert_sorted-Ascending lo e (x ∷ rest) (over, a) up new =
    elim (Bool-cases (leb e.sequence x.sequence)) [
      | inl before ↦ rw before (up, (ground arith, a))
      | inr beyond ↦
          rw beyond
            (over, insert_sorted-Ascending x.sequence e rest a (ground arith) (ground arith))
    ]

-- No sequence number is 0 (`z.int().positive()`).
sort_events-Ascending :
    (es : List RunEvent) → Unique es → has 0 es ≡ false → Ascending 0 (sort_events es)
unfolding sort_events
sort_events-Ascending [] u z = tt
sort_events-Ascending (e ∷ rest) (new, u) z =
    insert_sorted-Ascending 0 e (sort_events rest) (sort_events-Ascending rest u (ground arith))
      (ground arith) (ground (arith, sort_events-has rest e.sequence))

beyond-has : (lo n : ℕ) (es : List RunEvent) → Ascending lo es → n ≤ lo → has n es ≡ false
beyond-has lo n [] a le = refl
beyond-has lo n (e ∷ rest) (up, a) le = ground (arith, beyond-has e.sequence n rest a)

prefix_cursor-has :
    (c n : ℕ) (es : List RunEvent)
    → Ascending c es
    → c < n
    → n ≤ prefix_cursor c es
    → has n es ≡ true
unfolding prefix_cursor
prefix_cursor-has c n [] a up le = ground arith
prefix_cursor-has c n (e ∷ rest) (over, a) up le = elim (Bool-cases (e.sequence == c + 1)) [
  | inl next ↦
      let within : n ≤ prefix_cursor e.sequence rest = rw next at le in
      elim (Bool-cases (e.sequence == n)) [
        | inl hit ↦ rw hit refl
        | inr miss ↦ rw (miss, prefix_cursor-has e.sequence n rest a (ground arith) within) refl
      ]
  | inr hole ↦ let within : n ≤ c = rw hole at le in absurd (omega (arith, within, up))
]

prefix_cursor-above : (c : ℕ) (es : List RunEvent) → Ascending c es → c ≤ prefix_cursor c es
unfolding prefix_cursor
prefix_cursor-above c [] a = omega arith
prefix_cursor-above c (e ∷ rest) (over, a) = ground (arith, prefix_cursor-above e.sequence rest a)

prefix_cursor-hole :
    (c : ℕ) (es : List RunEvent) → Ascending c es → has (prefix_cursor c es + 1) es ≡ false
unfolding prefix_cursor
prefix_cursor-hole c [] a = refl
prefix_cursor-hole c (e ∷ rest) (over, a) = elim (Bool-cases (e.sequence == c + 1)) [
  | inl next ↦
      let further : prefix_cursor e.sequence rest ≡ prefix_cursor c (e ∷ rest) = rw next refl in
      let passed : e.sequence == prefix_cursor e.sequence rest + 1 ≡ false =
        ground (arith, prefix_cursor-above e.sequence rest a) in
      subst (λ m. has (m + 1) (e ∷ rest) ≡ false) further
        (rw (passed, prefix_cursor-hole e.sequence rest a) refl)
  | inr hole ↦
      let here : c ≡ prefix_cursor c (e ∷ rest) = rw hole refl in
      subst (λ m. has (m + 1) (e ∷ rest) ≡ false) here
        (rw (hole, beyond-has e.sequence (c + 1) rest a (omega (arith, over))) refl)
]

-- Each number from 1 on, up to a bound, is known.
abbrev pub KnownTo : ℕ → List RunEvent → Type 0
KnownTo zero es = Unit
KnownTo (suc n) es = (has (suc n) es ≡ true) × KnownTo n es

known_numbers :
    (c : ℕ) (es : List RunEvent) → ((n : ℕ) → 0 < n → n ≤ c → has n es ≡ true) → KnownTo c es
known_numbers zero es each = tt
known_numbers (suc n) es each = (
  each (suc n) (omega arith) (omega arith),
  known_numbers n es (λ m lo hi. each m lo (omega arith)),
)

none_wanted :
    (run_id : ℕ) (es : List RunEvent) → has 0 es ≡ false → any (wanted run_id 0) es ≡ false
none_wanted run_id [] h = refl
none_wanted run_id (e ∷ rest) h = ground (arith, none_wanted run_id rest)

-- Where no sequence number is 0, the cursor after a merge is the length of the longest contiguous
-- prefix: the number after it is not known, and each one from 1 to the cursor is.
pub merge_events-cursor :
    (current incoming : List RunEvent) (run_id : ℕ)
    → has 0 current ≡ false
    → has 0 incoming ≡ false
    → let m = merge_events current incoming run_id in
      (has (m.cursor + 1) m.events ≡ false) × KnownTo m.cursor m.events
unfolding merge_events
merge_events-cursor current incoming run_id z z' =
    let all : List RunEvent = add_incoming run_id (by_sequence [] current) incoming in
    let unique : Unique all =
      add_incoming-Unique run_id (by_sequence [] current) incoming
        (by_sequence-Unique [] current tt) in
    let positive : has 0 all ≡ false = ground (
      arith,
      add_incoming-has run_id (by_sequence [] current) incoming 0,
      by_sequence-has [] current 0,
      none_wanted run_id incoming z',
    ) in
    let sorted : Ascending 0 (sort_events all) = sort_events-Ascending all unique positive in
    (
      prefix_cursor-hole 0 (sort_events all) sorted,
      known_numbers (prefix_cursor 0 (sort_events all)) (sort_events all)
          (λ n lo hi. prefix_cursor-has 0 n (sort_events all) sorted lo hi),
    )
