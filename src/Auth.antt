-- ===== src/Auth.antt =====
-- api/internal/auth and api/internal/accountauth: the bearer tokens of installations and of users.
-- Both packages sign a JSON payload the same way.
pub mod Envelope
pub mod Installation
pub mod Account
