-- ===== src/Signals.antt =====
-- v4/src/matchtrader/signals: a typed signal becomes an order plan or is refused.
pub mod Shapes
pub mod Plan
pub mod Admit
pub mod Market
pub mod Lots
pub mod Engine
