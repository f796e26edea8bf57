-- ===== src/Managed/Refinement.antt =====
-- The store's operations refine the life of an attempt: a transaction moves each row of the attempts
-- table along `RowStep`, and only `create` adds rows, which are new.
pub mod Waiting
pub mod Journal
pub mod Claims
pub mod Lifecycle
