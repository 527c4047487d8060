-- ===== src/Values.antt =====
-- internal/manifestvalues: the values of a package, their validation and their references.
pub mod Validate
pub mod Accept
pub mod Resolver
pub mod Chain
pub mod Samples
pub mod Witnesses
pub mod Options
pub mod Defaults
pub mod Spelled
pub mod OptionSamples
