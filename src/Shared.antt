-- ===== src/Shared.antt =====
-- The contracts that the service, the command line and Blender share: shared/json_contract.py and
-- shared/character_spec.py.
pub mod Rejection
pub mod Decimal
pub mod Json
pub mod Slug
pub mod Readers
pub mod Character
pub mod Reread
mod Tests
