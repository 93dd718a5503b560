-- ===== src/Service/Worker.antt =====
-- The worker: service/src/hbcb_service/worker.py.
pub mod Action
pub mod Launch
pub mod Policy
pub mod Supervisor
pub mod Rounds
pub mod Acceptance
pub mod Safety
pub mod Settlement
pub mod Uploads
pub mod Publication
mod Tests
