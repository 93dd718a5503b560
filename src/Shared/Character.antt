-- ===== src/Shared/Character.antt =====
-- shared/character_spec.py: the character specification and the build request.
pub mod Parts
pub mod Spec
pub mod Request
pub mod Limits
pub mod Choices
pub mod Bounds
pub mod Sorted
pub mod Handled
pub mod Total
pub mod Again
