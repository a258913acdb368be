-- ===== src/Capture/Ledger.antt =====
-- v4/src/matchtrader/capture/mapping.py: MappingLedger, the identities and the broker's evidence.
pub mod Links
pub mod Fills
pub mod Executions
pub mod Blank
pub mod Observed
pub mod Rows
pub mod History
pub mod Tables
pub mod Guard
pub mod Snapshot
