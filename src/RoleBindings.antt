-- ===== src/RoleBindings.antt =====
-- internal/controllers/role_bindings.go: the namespaces and tenants that role bindings open to a
-- subject, and the cache of the answers.
pub mod Index
pub mod Lookup
pub mod Cache
pub mod Runs
pub mod Settling
pub mod Roles
pub mod Namespaces
