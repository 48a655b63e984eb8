-- ===== src/State.antt =====
-- pkg/state: what the program reads from Terraform states, and the managers that publish it.
pub mod Terraform
pub mod Graph
pub mod Routes
pub mod Envoy
pub mod Xds
pub mod Manager
