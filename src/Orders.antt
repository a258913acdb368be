-- ===== src/Orders.antt =====
-- v4/src/matchtrader/orders: the stop-limit emulation and its paper rehearsal.
pub mod StopLimit
pub mod Watcher
pub mod Paper
