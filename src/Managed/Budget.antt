-- ===== src/Managed/Budget.antt =====
-- A session that `claim` starts fits the ceilings on concurrency and on browser time.
mod Measures
pub mod Ceilings
pub mod Claiming
