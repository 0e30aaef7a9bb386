-- ===== src/Core.antt =====
-- The root package `auth`: errors, claims, context, authorization policies, token validators
-- and the session store.
pub mod Errors
pub mod Claims
pub mod Context
pub mod Policy
pub mod Validator
pub mod Session
pub mod SessionId
