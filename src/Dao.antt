-- ===== src/Dao.antt =====
-- The statements of dao/ on the tables of the state, one function for each Go function.
pub mod User
pub mod Account
pub mod Org
pub mod Department
pub mod Tenant
pub mod Page
pub mod Tree
pub mod Listing
pub mod Permission
pub mod Closure
