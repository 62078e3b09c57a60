-- ===== src/Cluster.antt =====
-- The rules on cluster-scoped resources: api/v1beta1/clusterresoure.go and
-- internal/modules/clusterscoped.
pub mod Resource
pub mod Pattern
pub mod Scope
pub mod Grants
pub mod Wildcards
