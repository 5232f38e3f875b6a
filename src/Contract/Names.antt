-- ===== src/Contract/Names.antt =====
-- contract/: the names of the closed string types.
pub mod Provider
pub mod CredentialSource
pub mod AccountModel
pub mod Status
pub mod Action
pub mod Method
