-- ===== src/Aws.antt =====
-- pkg/providers/aws: what is made of the services of AWS.
pub mod Lambda
pub mod Health
pub mod Checks
pub mod Provider
pub mod Tfstates
pub mod Discovery
pub mod HttpBackend
