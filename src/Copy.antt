-- ===== src/Copy.antt =====
-- v4/src/matchtrader/dashboard/signal_copy.py and signals/dispatch.py: a delivered signal is
-- recorded, decided once and dispatched once.
pub mod Record
pub mod Dispatch
pub mod Parse
pub mod Cancel
pub mod State
pub mod Receive
pub mod Configs
pub mod Attempts
pub mod Effects
pub mod Once
pub mod Paper
