-- ===== src/Managed/Evolution.antt =====
-- What no transaction undoes in a row of the attempts table: identities, charges, the dispatch
-- marker and the lease generation.
use hack_the_north.Common.{
  ℕ, ◌≡◌, ◌≤◌, ◌⊎◌, ap, true, false, Option, none, some, Text, arith, is_some, text_eq_sound,
}
use hack_the_north.Managed.Rows.{AttemptState, Attempt}
use hack_the_north.Managed.Queries.{Redaction}
use hack_the_north.Managed.Claims.{leased, reserved, exhausted}
use hack_the_north.Managed.Journal.{dispatched, identified, differs}
use hack_the_north.Managed.Lifecycle.{cancelled, finished}
use hack_the_north.Managed.Sound.{Sound}
use hack_the_north.Managed.Steps.{
  RowStep, same, recover, start, exhaust, beat, send, fail_create, identify, report, show, finish,
  cancel,
}

pub record Evolves (a b : Attempt) : Type 0 where
  pub same_id : b.id ≡ a.id
  pub same_run : b.run_id ≡ a.run_id
  pub same_token : b.correlation_token ≡ a.correlation_token
  pub generation : a.lease_generation ≤ b.lease_generation
  pub same_lease :
      b.lease_generation ≡ a.lease_generation
      → (b.lease_owner ≡ a.lease_owner) ⊎ (b.lease_owner ≡ none)
  pub stays_sent : a.dispatch_started ≡ true → b.dispatch_started ≡ true
  pub same_agent : a.dispatch_started ≡ true → b.provider_agent_id ≡ a.provider_agent_id
  pub same_task : a.dispatch_started ≡ true → b.provider_task ≡ a.provider_task
  pub consumed : a.consumed_seconds ≤ b.consumed_seconds
  pub recovered : a.recovery_count ≤ b.recovery_count
  pub same_provider_run : is_some a.provider_run_id ≡ true → b.provider_run_id ≡ a.provider_run_id
  pub same_provider_session :
      is_some a.provider_session_id ≡ true → b.provider_session_id ≡ a.provider_session_id
  pub same_failure :
      is_some a.first_create_failure ≡ true → b.first_create_failure ≡ a.first_create_failure
  pub stays_cancelled :
      is_some a.cancel_requested_at ≡ true → b.cancel_requested_at ≡ a.cancel_requested_at
  pub settled : a.state ≡ AttemptState.settled → b ≡ a

pub Evolves-refl : (a : Attempt) → Evolves a a
Evolves-refl a = ground arith

pub Evolves-trans : (a b c : Attempt) → Evolves a b → Evolves b c → Evolves a c
Evolves-trans a b c h k = ground arith

differs_lem : (o : Option Text) (t : Text) → differs o t ≡ false → is_some o ≡ true → o ≡ some t
differs_lem none t e s = cc
differs_lem (some u) t e s = ap some (text_eq_sound u t (ground arith))

-- Each transition of a sound row keeps all of this.
pub RowStep-Evolves :
    (rd : Redaction) (now : ℕ) (a b : Attempt) → RowStep rd now a b → Sound a → Evolves a b
unfolding leased reserved exhausted dispatched identified cancelled finished
RowStep-Evolves rd now a b (same e) s = ground arith
RowStep-Evolves rd now a b (recover w p h e) s = ground arith
RowStep-Evolves rd now a b (start w p h c e) s = ground arith
RowStep-Evolves rd now a b (exhaust h e) s = ground arith
RowStep-Evolves rd now a b (beat t h e) s = ground arith
RowStep-Evolves rd now a b (send g t h u r c e) s = ground arith
RowStep-Evolves rd now a b (fail_create f h u n e) s = ground arith
RowStep-Evolves rd now a b (identify r t h u d d' e) s =
    ground (arith, differs_lem a.provider_run_id r)
RowStep-Evolves rd now a b (report t h e) s = ground arith
RowStep-Evolves rd now a b (show l r h e) s = ground arith
RowStep-Evolves rd now a b (finish o h k e) s = ground arith
RowStep-Evolves rd now a b (cancel e) s = ground arith
