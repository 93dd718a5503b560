-- ===== src/Service.antt =====
-- The build service, service/src/hbcb_service.
pub mod Errors
pub mod Dict
pub mod Patterns
pub mod Contract
pub mod Models
pub mod Idempotency
pub mod Storage
pub mod State
pub mod Worker
pub mod Queue
