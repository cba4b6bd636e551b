-- ===== src/Session.antt =====
-- The transfer session of glopfile-relay/src/session.rs: the state that one session task owns, the
-- commands that it takes from its queue, and what it sends in answer.
pub mod Types
pub mod Handlers
pub mod Relay
pub mod Task
pub mod Invariant
pub mod Delivery
pub mod Requests
pub mod Signaling
pub mod Uploads
pub mod Lifecycle
