-- ===== src/NativeCharges.antt =====
-- What the native queue charges: `observeCharge`, `settle` and `deferRecovery` of
-- src/server/worker/repository.ts. Browser time is in milliseconds, as it may be a fraction of a
-- second; session ids are numbers. The numbers of the code are finite and at least 0 here.
pub mod Laws
mod Witnesses
use hack_the_north.Common.{
  ℕ, ◌+◌, ◌-◌, ◌*◌, ◌/◌, ◌^◌, min, max, Bool, true, false, not, ◌&&◌, ◌||◌, Option, none, some,
  List, [], ◌∷◌, ◌==◌, leb, if◌then◌else◌, sum_of, or_else, is_some,
}

-- A row of `remote_usage_observations` of one job.
pub record Observation : Type 0 where
  pub session_id : ℕ
  pub charged_ms : ℕ
  pub actual_ms : Option ℕ
  pub is_terminal : Bool

-- A session as the provider reports it; `is_terminal` is `terminalRemote(session.status)`.
pub record Report : Type 0 where
  pub session_id : ℕ
  pub actual_ms : Option ℕ
  pub is_terminal : Bool

-- The row that is inserted where the session has none: without a measure all that is reserved.
unfoldable pub first_observation : (session_seconds : ℕ) → Report → Observation
first_observation session_seconds r = record {
  session_id = r.session_id;
  charged_ms = or_else r.actual_ms (session_seconds * 1000);
  actual_ms = r.actual_ms;
  is_terminal = r.is_terminal;
}

abbrev excluded_charge : Option ℕ → Option ℕ → ℕ → ℕ
excluded_charge (some a) none charged = a
excluded_charge _ _ charged = charged

abbrev greater_actual : Option ℕ → Option ℕ → Option ℕ
greater_actual a none = a
greater_actual none (some b) = some b
greater_actual (some a) (some b) = some (max a b)

-- `ON CONFLICT ... DO UPDATE`, with the stored row and the excluded one.
unfoldable pub merged_observation : Observation → Observation → Observation
merged_observation o x = record {
  session_id = o.session_id;
  charged_ms = max o.charged_ms (excluded_charge o.actual_ms x.actual_ms x.charged_ms);
  actual_ms = greater_actual o.actual_ms x.actual_ms;
  is_terminal = o.is_terminal || x.is_terminal;
}

unfoldable pub observe_charge : (session_seconds : ℕ) → Report → List Observation → List Observation
unfolding first_observation merged_observation
observe_charge session_seconds r [] = first_observation session_seconds r ∷ []
observe_charge session_seconds r (o ∷ rest) =
    if o.session_id == r.session_id
    then merged_observation o (first_observation session_seconds r) ∷ rest
    else o ∷ observe_charge session_seconds r rest

-- `for (const session of outcome.sessions) this.observeCharge(claim, session)`.
unfoldable pub observe_all :
    (session_seconds : ℕ) → List Report → List Observation → List Observation
unfolding observe_charge
observe_all session_seconds [] os = os
observe_all session_seconds (r ∷ rest) os =
    observe_all session_seconds rest (observe_charge session_seconds r os)

-- `sum(charged_seconds)`.
unfoldable pub charged_total : List Observation → ℕ
charged_total os = sum_of (λ o. o.charged_ms) os

-- A row of `usage_reservations`.
pub record Reservation : Type 0 where
  pub reserved_seconds : ℕ
  pub consumed_seconds : ℕ
  pub released_seconds : ℕ

-- `Math.ceil(Math.max(seconds ?? (confirmed ? sessionSeconds : 0), observedCharge))`.
unfoldable pub consumed_now : (session_seconds : ℕ) → Option ℕ → Bool → ℕ → ℕ
consumed_now session_seconds actual_ms confirmed observed_ms =
    (max (or_else actual_ms (if confirmed then session_seconds * 1000 else 0)) observed_ms + 999)
    / 1000

unfoldable pub settle :
    (session_seconds : ℕ) → Option ℕ → Bool → (observed_ms : ℕ) → Reservation → Reservation
unfolding consumed_now
settle session_seconds actual_ms confirmed observed_ms u =
    let consumed = consumed_now session_seconds actual_ms confirmed observed_ms in
    record u {
      consumed_seconds = max u.consumed_seconds consumed;
      released_seconds =
          if confirmed then u.reserved_seconds - max u.consumed_seconds consumed else 0;
    }

pub data Deferral : Type 0 where
  quarantine : (recovery_count : ℕ) → Deferral
  retry : (recovery_count recovery_after lease_expires_at : ℕ) → Deferral

-- What `deferRecovery` stores: the count, and the next recovery or a quarantine.
unfoldable pub defer_recovery : (now recovery_limit recovery_count : ℕ) → Deferral
defer_recovery now recovery_limit recovery_count =
    let count = recovery_count + 1 in
    if leb recovery_limit count
    then quarantine count
    else retry count (now + min 60000 (1000 * 2 ^ count)) now
