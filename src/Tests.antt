-- ===== src/Tests.antt =====
-- Runs of the model on concrete inputs, and the theorems at concrete inputs.
pub mod Forests
pub mod Caches
pub mod Services
pub mod Users
pub mod Accounts
pub mod Requests
pub mod Trees
pub mod Departments
pub mod Scopes
pub mod Tenancy
