-- ===== src/Tests.antt =====
-- Tests of the definitions, and the theorems at concrete inputs.
mod StopLimit
mod Paper
mod Signals
mod Copy
mod Bridge
mod Capture
mod Core
mod Ledger
mod Session
mod Tail
mod Actions
mod Reconcile
mod Relay
mod Configs
mod Publish
