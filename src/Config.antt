-- ===== src/Config.antt =====
-- api/internal/config/config.go: the settings that the server reads from its environment.
pub mod Types
pub mod Read
pub mod Provider
pub mod Storage
pub mod Routing
pub mod Load
