-- ===== src/Webhook.antt =====
-- internal/webhook/package_validator.go: which packages the operator admits.
pub mod Validator
pub mod Admitted
pub mod Samples
pub mod Repositories
pub mod RepositorySamples
