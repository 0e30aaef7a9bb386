-- ===== src/Dpop.antt =====
-- The package `dpop`: proof of possession on the resource server's side.
pub mod Replay
pub mod Redis
pub mod Nonce
pub mod Verifier
