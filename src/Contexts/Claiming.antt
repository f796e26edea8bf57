-- ===== src/Contexts/Claiming.antt =====
-- src/server/workflows/contexts.ts: the selection of a context by an attempt, and the claims on it.
use hack_the_north.Common.{
  ℕ, ◌+◌, ◌*◌, min, Bool, true, false, not, ◌&&◌, ◌||◌, Option, none, some, [], ◌∷◌, ◌++◌, Result,
  ok, err, ◌>>=◌, ◌>>◌, throw_if, ◌==◌, leb, ltb, if◌then◌else◌, any, count_of, is_some,
}
use hack_the_north.Contexts.{
  Context, Selection, Store, ContextError, is, same_job, lookup, find_context, updated,
  selection_of, pending, creating, available, in_use, persisting, never_saved,
  delay_elapsed_unverified, not_found, rate_limited, unauthorized, conflict, constraint,
  context_not_active,
}

pub data BrowserState : Type 0 where
  start_fresh save : BrowserState
  returning : (context : ℕ) → (persist : Bool) → BrowserState

unfoldable pub new_row : (now owner signature new_id expires : ℕ) → Context
new_row now owner signature new_id expires = record {
  id = new_id;
  owner = owner;
  scope_signature = signature;
  remote_id = none;
  status = pending;
  persistence = never_saved;
  created_at = now;
  available_after = none;
  expires_at = min expires (now + 7 * 86400000);
  is_revoked = false;
  held_job = none;
  operation_token = none;
}

unfoldable pub owner_expiry : (now : ℕ) → Option ℕ → Result ContextError ℕ
owner_expiry now none = err unauthorized
owner_expiry now (some t) = if leb t now then err unauthorized else ok t

-- The admission of a selection: the store, with the new row if there is one, the selected context
-- and whether it is to be saved.
unfoldable pub selected :
    (now owner signature new_id : ℕ)
    → (owner_expires : Option ℕ) → BrowserState
    → Store
    → Result ContextError (Option (Store × ℕ × Bool))
unfolding find_context new_row owner_expiry
selected now owner signature new_id owner_expires start_fresh s = ok none
selected now owner signature new_id owner_expires save s = do
  throw_if (leb 100 (count_of (λ c. c.owner == owner) s.contexts)) rate_limited
  expires ← owner_expiry now owner_expires
  throw_if (any (λ c. c.id == new_id) s.contexts) constraint
  let rows = s.contexts ++ (new_row now owner signature new_id expires ∷ [])
  ok (some (record s { contexts = rows }, new_id, true))
selected now owner signature new_id owner_expires (returning context persist) s = do
  c ← find_context context s.contexts
  throw_if (not (c.owner == owner) || not (c.scope_signature == signature)) not_found
  throw_if
      (c.is_revoked
        || (leb c.expires_at now || not (is c.status available || is c.status persisting)))
      conflict
  ok (some (s, context, persist))

unfoldable pub choose :
    (attempt : ℕ) → Store → Option (Store × ℕ × Bool) → Result ContextError Store
choose attempt s none = ok s
choose attempt s (some (t, context, persist)) = do
  throw_if (any (λ x. x.attempt == attempt) t.selections) constraint
  ok (record t {
    selections =
        t.selections ++ (record { attempt = attempt; context = context; persist = persist } ∷ []);
  })

unfoldable pub assign :
    (now owner signature new_id attempt : ℕ)
    → (owner_expires : Option ℕ) → BrowserState
    → Store
    → Result ContextError Store
unfolding selected choose
assign now owner signature new_id attempt owner_expires state s =
    selected now owner signature new_id owner_expires state s >>= choose attempt s

pub record Claim : Type 0 where
  pub owner : ℕ
  pub job : ℕ
  pub attempt : ℕ
  pub signature : ℕ

pub data Answer : Type 0 where
  fresh claimed wait invalid : Answer

unfoldable pub hold : (job : ℕ) → Context → Context
hold job c = record c { held_job = some job; status = in_use }

unfoldable pub elapse : Context → Context
elapse c = record c { status = available; persistence = delay_elapsed_unverified }

abbrev pub later : Option ℕ → ℕ → Bool
later none now = true
later (some t) now = ltb now t

unfoldable pub claim_row : (now : ℕ) → Claim → Context → Store → Answer × Store
unfolding updated hold elapse
claim_row now k c s =
    if not (c.owner == k.owner)
      || (not (c.scope_signature == k.signature) || (c.is_revoked || leb c.expires_at now))
    then (invalid, s)
    else if is_some c.held_job && not (same_job c.held_job k.job)
    then (wait, s)
    else if is c.status persisting
    then (if later c.available_after now
        then (wait, s)
        else (claimed, updated c.id (hold k.job) (updated c.id elapse s)))
    else if not (is c.status pending || is c.status available)
    then (invalid, s)
    else (claimed, updated c.id (hold k.job) s)

unfoldable pub claim_selected :
    (now : ℕ) → Claim → Store → Option Selection → Result ContextError (Answer × Store)
unfolding find_context claim_row
claim_selected now k s none = ok (fresh, s)
claim_selected now k s (some x) = do c ← find_context x.context s.contexts; ok (claim_row now k c s)

unfoldable pub claim : (now : ℕ) → Claim → Store → Result ContextError (Answer × Store)
unfolding selection_of claim_selected
claim now k s = claim_selected now k s (selection_of k.attempt s.selections)

unfoldable assert_active : (now : ℕ) → Claim → Store → Result ContextError (Unit {0})
unfolding selection_of lookup
assert_active now k s = elim (selection_of k.attempt s.selections) [
  | none ↦ ok tt
  | some x ↦ elim (lookup x.context s.contexts) [
    | none ↦ ok tt
    | some c ↦
        throw_if
          (not (same_job c.held_job k.job)
            || (not (c.owner == k.owner)
                || (c.is_revoked
                    || (leb c.expires_at now || not (is c.status in_use || is c.status creating)))))
          context_not_active
  ]
]
