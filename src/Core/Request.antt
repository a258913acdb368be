-- ===== src/Core/Request.antt =====
-- v4/src/matchtrader/core/rest_connection.py: RestConnection, one thread at a time: `request`, and
-- the login, renewal and account selection behind it.
pub mod Names
pub mod Act
pub mod Session
pub mod Adds
pub mod Once
