-- ===== src/Service/Models.antt =====
-- service/src/hbcb_service/models.py: the records of the service, with the checks that their
-- constructors make, and the transition policy.
pub mod Status
pub mod Build
pub mod Attempt
pub mod Artifact
pub mod Event
