-- ===== src/Service/State.antt =====
-- service/src/hbcb_service/state.py: the reference state store. Each child models some of its
-- methods, or proves what they keep.
pub mod Store
pub mod Submit
pub mod Leasing
pub mod Completion
pub mod Recovery
pub mod Outbox
pub mod Transitions
pub mod Publication
pub mod Moves
pub mod Audit
pub mod Machine
pub mod Lifecycle
pub mod Fence
pub mod Exclusion
pub mod Verdicts
pub mod Turns
pub mod Dispatch
mod Owners
pub mod Evidence
pub mod Replay
pub mod Versions
pub mod Grants
mod Recovered
pub mod Lost
pub mod Spent
pub mod Fixtures
mod Tests
mod Examples
