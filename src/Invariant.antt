-- ===== src/Invariant.antt =====
-- The well-formedness of the daemon's state.
pub mod Rules
pub mod Player
pub mod Messages
pub mod Server
pub mod Callbacks
