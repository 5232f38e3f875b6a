-- ===== src/Contract.antt =====
-- contract/: the contract between the control plane and the connector clients.
pub mod Types
pub mod Names
pub mod Catalog
pub mod Account
pub mod Targets
pub mod HttpApi
pub mod Grafana
pub mod References
pub mod Calls
pub mod Hosts
pub mod Samples
mod Tests
