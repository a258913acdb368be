-- ===== src/Capture.antt =====
-- v4/src/matchtrader/capture: captured trades, the attempts on them, and the manual send.
pub mod Store
pub mod Instrument
pub mod Send
pub mod Attempts
pub mod Once
pub mod Broker
pub mod Unwind
pub mod Router
pub mod Actions
pub mod Ledger
pub mod Verified
pub mod Reconcile
pub mod Relay
pub mod Publish
