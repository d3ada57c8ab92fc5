-- ===== src/Service.antt =====
-- service/: the operations on tenants, organizations and their members.
pub mod Tenant
pub mod Tree
pub mod UserExt
pub mod Org
pub mod TenantUser
pub mod Parent
pub mod User
pub mod Login
pub mod Department
pub mod DataScope
pub mod NewTenant
pub mod Reach
pub mod Permission
pub mod TenantConfig
pub mod Admin
