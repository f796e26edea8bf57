-- ===== src/Managed/Journal.antt =====
-- What a worker reports while it holds a lease: `dispatch`, `createFailure`, `identity`, `progress`
-- and `sessionView` of src/server/managed/store.ts, with the failure schema of
-- src/server/managed/create-failure.ts. A write that a UNIQUE column refuses is an error.
use mathlib.Core.List.{reverse}
use hack_the_north.Common.{
  ℕ, ◌+◌, Bool, true, false, not, ◌&&◌, ◌||◌, Option, none, some, List, [], ◌∷◌, ◌++◌, Text, ok,
  err, ◌>>=◌, ◌>>◌, throw_if, ◌==◌, leb, if◌then◌else◌, length, any, all, count_of, text_eq,
  is_some, coalesce, codes,
}
use hack_the_north.Managed.Rows.{
  AttemptState, Cleanup, ProgressKind, FailureCategory, CreateFailure, Attempt, Progress, Store,
  Claim, invalid_input, dispatch_reference_invalid, recovery_cannot_dispatch,
  dispatch_reference_changed, dispatch_already_started, dispatch_not_started,
  create_failure_invalid, recovery_cannot_record_create_failure, create_failure_already_recorded,
  identity_changed, identity_missing, progress_limit, constraint_violation,
}
use hack_the_north.Managed.Queries.{
  M, row, update_attempt, touch, secrets, Redaction, safe_text, map_option,
}
use hack_the_north.Managed.Claims.{assert_lease}

abbrev within : ℕ → ℕ → ℕ → Bool
within lo hi n = leb lo n && leb n hi

-- The white space that `String.prototype.trim` removes.
unfoldable pub is_space : ℕ → Bool
is_space c =
    within 9 13 c
    || (c == 32
        || (c == 160
            || (c == 5760
                || (within 8192 8202 c
                    || (within 8232 8233 c
                        || (c == 8239 || (c == 8287 || (c == 12288 || c == 65279))))))))

unfoldable pub trim_start : Text → Text
unfolding is_space
trim_start [] = []
trim_start (c ∷ t) = if is_space c then trim_start t else c ∷ t

unfoldable pub trim : Text → Text
unfolding trim_start
trim t = reverse (trim_start (reverse (trim_start t)))

-- `dispatchReferenceSchema`: a length in range, and something left by `trim`.
unfoldable pub reference_ok : ℕ → Text → Bool
reference_ok limit t = within 1 limit (length t) && leb 1 (length (trim t))

-- `a !== null && a !== b`.
abbrev pub differs : Option Text → Text → Bool
differs none t = false
differs (some s) t = not (text_eq s t)

abbrev is_reserved : AttemptState → Bool
is_reserved AttemptState.reserved = true
is_reserved _ = false

unfoldable pub dispatched : Text → Text → Attempt → Attempt
dispatched agent task a = record a {
  state = AttemptState.dispatched;
  dispatch_started = true;
  cleanup = Cleanup.unconfirmed;
  provider_agent_id = some agent;
  provider_task = some task;
}

unfoldable pub dispatch : ℕ → Store → Claim → (agent : Text) → (task : Text) → M Store
dispatch now s c agent task = do
  throw_if (not (reference_ok 256 agent && reference_ok 65536 task)) dispatch_reference_invalid
  held ← assert_lease now s c false
  a ← row s c.id
  throw_if (c.recovery || not (a.recovery_count == 0)) recovery_cannot_dispatch
  throw_if (differs a.provider_agent_id agent || differs a.provider_task task)
      dispatch_reference_changed
  throw_if (a.dispatch_started || not (is_reserved a.state)) dispatch_already_started
  ok (touch now c.run_id (update_attempt s c.id (dispatched agent task)))

abbrev is_http : FailureCategory → Bool
is_http FailureCategory.http = true
is_http _ = false

abbrev same_bool : Bool → Bool → Bool
same_bool true b = b
same_bool false b = not b

is_alphanumeric : ℕ → Bool
is_alphanumeric c = within b'0' b'9' c || (within b'A' b'Z' c || within b'a' b'z' c)

-- `^[A-Za-z0-9][A-Za-z0-9_-]{0,127}$`.
request_id_ok : Text → Bool
unfolding is_alphanumeric
request_id_ok [] = false
request_id_ok (c ∷ t) =
    is_alphanumeric c
    && (all (λ d. is_alphanumeric d || (d == b'_' || d == b'-')) t && leb (length t) 127)

abbrev ok_or_null {ℓ} : {A : Type ℓ} → (A → Bool) → Option A → Bool
ok_or_null p none = true
ok_or_null p (some a) = p a

-- `managedCreateFailureSchema`.
unfoldable pub create_failure_ok : CreateFailure → Bool
unfolding request_id_ok
create_failure_ok f =
    ok_or_null (within 100 599) f.http_status
    && (ok_or_null request_id_ok f.request_id
        && (same_bool (is_http f.category) (is_some f.http_status)
            && same_bool (is_some f.request_id) (is_some f.request_id_header)))

module _ (rd : Redaction) where
  -- A request id in which redaction finds a secret is dropped, with the name of its header.
  unfoldable pub redacted_failure : Attempt → CreateFailure → CreateFailure
  redacted_failure a f = elim f.request_id [
    | none ↦ f
    | some t ↦
        if text_eq (safe_text rd t 128 (secrets a)) t
        then f
        else record f { request_id = none; request_id_header = none }
  ]

  unfoldable pub create_failure : ℕ → Store → Claim → CreateFailure → M Store
  unfolding redacted_failure
  create_failure now s c f = do
    throw_if (not (create_failure_ok f)) create_failure_invalid
    held ← assert_lease now s c true
    a ← row s c.id
    throw_if (not a.dispatch_started) dispatch_not_started
    throw_if (c.recovery || not (a.recovery_count == 0)) recovery_cannot_record_create_failure
    throw_if (is_some a.first_create_failure) create_failure_already_recorded
    let g = redacted_failure a f
    ok (
        touch now c.run_id
          (update_attempt s c.id (λ b. record b { first_create_failure = some g })))

-- Another attempt already has the value in a UNIQUE column.
abbrev equals : Option Text → Text → Bool
equals none t = false
equals (some s) t = text_eq s t

abbrev pub taken : (Attempt → Option Text) → ℕ → Text → List Attempt → Bool
taken column id t rows = any (λ a. not (a.id == id) && equals (column a) t) rows

abbrev pub taken_or_null : (Attempt → Option Text) → ℕ → Option Text → List Attempt → Bool
taken_or_null column id none rows = false
taken_or_null column id (some t) rows = taken column id t rows

-- `identifier`: trimmed, 1 to 256 units.
unfoldable pub identifier_ok : Text → Bool
identifier_ok t = within 1 256 (length t)

abbrev pub differs_if_both : Option Text → Option Text → Bool
differs_if_both a none = false
differs_if_both a (some t) = differs a t

unfoldable pub identified : Text → Option Text → Attempt → Attempt
identified run session a = record a {
  provider_run_id = some run;
  provider_session_id = coalesce a.provider_session_id session;
}

unfoldable pub identity : ℕ → Store → Claim → (run : Text) → (session : Option Text) → M Store
unfolding identifier_ok
identity now s c run_input session_input = do
  let run = trim run_input
  let session = map_option trim session_input
  throw_if (not (identifier_ok run && ok_or_null identifier_ok session)) invalid_input
  held ← assert_lease now s c true
  a ← row s c.id
  throw_if (not a.dispatch_started) dispatch_not_started
  throw_if (differs a.provider_run_id run || differs_if_both a.provider_session_id session)
      identity_changed
  throw_if
      (taken (λ b. b.provider_run_id) c.id run s.attempts
        || taken_or_null (λ b. b.provider_session_id) c.id (coalesce a.provider_session_id session)
            s.attempts)
      constraint_violation
  ok (touch now c.run_id (update_attempt s c.id (identified run session)))

abbrev max_progress : ℕ
max_progress = 500

abbrev of_attempt : ℕ → Progress → Bool
of_attempt id p = p.attempt_id == id

unfoldable pub progress_count : ℕ → List Progress → ℕ
progress_count id ps = count_of (of_attempt id) ps

unfoldable pub seen : ℕ → ℕ → List Progress → Bool
seen id hash ps = any (λ p. of_attempt id p && p.event_hash == hash) ps

abbrev is_status : ProgressKind → Bool
is_status ProgressKind.status = true
is_status _ = false

-- The statuses of a provider run.
unfoldable pub provider_status? : Text → Bool
provider_status? t = any (text_eq t) (
    codes "PENDING"
    ∷ codes "RUNNING"
    ∷ codes "COMPLETED"
    ∷ codes "FAILED"
    ∷ codes "STOPPED"
    ∷ codes "TIMED_OUT"
    ∷ [])

module _ (rd : Redaction) where
  -- `hash` is the digest of the event's id.
  unfoldable pub progress : ℕ → Store → Claim → (hash : ℕ) → ProgressKind → Text → M Store
  progress now s c hash kind text = do
    held ← assert_lease now s c false
    a ← row s c.id
    let n = progress_count c.id s.progress
    let entry : Progress = record {
      attempt_id = c.id;
      event_hash = hash;
      sequence = n + 1;
      timestamp = now;
      kind = kind;
      text = safe_text rd text 2000 (secrets a);
    }
    let inserted = record s { progress = s.progress ++ (entry ∷ []) }
    if seen c.id hash s.progress
        then ok s
        else if leb max_progress n
        then err progress_limit
        else if is_status kind && provider_status? text
        then ok (
            touch now c.run_id
              (update_attempt inserted c.id (λ b. record b { provider_status = some text })))
        else ok (touch now c.run_id inserted)

-- `viewSchema` rests on the URL parser of the platform, which is the argument `view_ok`.
module _ (view_ok : Text → Text → Bool) where
  unfoldable pub session_view : ℕ → Store → Claim → (live : Text) → (replay : Text) → M Store
  session_view now s c live replay = do
    throw_if (not (view_ok live replay)) invalid_input
    held ← assert_lease now s c false
    a ← row s c.id
    throw_if (not (is_some a.provider_run_id)) identity_missing
    ok (
        touch now c.run_id (
          update_attempt s c.id
            (λ b. record b { live_view_url = some live; replay_url = some replay })))
