-- ===== src/Bridge.antt =====
-- v4/src/matchtrader/bridge: the shadow bridge, its event contract, planner and journal.
pub mod Event
pub mod Planner
pub mod Journal
pub mod Tail
