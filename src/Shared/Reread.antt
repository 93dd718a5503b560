-- ===== src/Shared/Reread.antt =====
-- Canonical JSON is read back, shared/json_contract.py: what `canonical_json_bytes` writes,
-- `decode_json_document` reads.
pub mod Utf8
pub mod Strings
pub mod Normal
pub mod Figures
pub mod Shapes
pub mod Tokens
pub mod Fractions
pub mod Numbers
pub mod Sizes
pub mod Ranges
pub mod Settled
pub mod Openings
pub mod Members
pub mod Starts
pub mod Single
pub mod Steps
pub mod Documents
pub mod Enough
pub mod Kept
pub mod Whole
pub mod Widths
pub mod Limits
pub mod Requests
pub mod Validated
mod Tests
