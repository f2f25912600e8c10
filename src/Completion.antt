-- ===== src/Completion.antt =====
-- Package api/internal/completion: the request and its validation, the policy by intent, the
-- service that runs a provider and cleans its text, and the providers' errors.
pub mod Types
pub mod Errors
pub mod Policy
pub mod Prompt
pub mod Validation
pub mod Service
pub mod Router
pub mod FileName
pub mod Providers
mod Tests
